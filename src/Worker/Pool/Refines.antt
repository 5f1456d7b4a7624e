-- ===== src/Worker/Pool/Refines.antt =====
-- worker/pool.ts: the pool as a set of ids with a number of free places. The order of the tasks and
-- their list are forgotten.
use proofmark.Prelude.{
  ℕ, ◌+◌, ◌-◌, ◌<◌, String, Bool, true, false, not, ◌≡◌, refl, sym, ◌⊎◌, inl, inr, ◌||◌, List, [],
  ◌∷◌, ◌++◌, arith, Bool-cases, leb, any, filter, str_eq, str_eq_iff, length, length-append,
  if◌then◌else◌,
}
use mathlib.Core.Path.{subst, fun_ext}
use proofmark.Worker.Pool.{BoundedPool, has, try_run, end_task, stop}
use proofmark.Worker.Pool.Bounds.{
  Distinct, IsBounded, PoolStep, runs, settles, stops, PoolRun, PoolRun-IsBounded, any-append,
}

pub record PoolView : Type 0 where
  pub members : String → Bool
  pub free : ℕ
  pub accepting : Bool

abbrev pub view : BoundedPool → PoolView
view p = record {
  members = λ id. has id p;
  free = p.capacity - length p.tasks;
  accepting = p.accepting;
}

-- A set, changed at one id.
abbrev pub put : String → Bool → (String → Bool) → String → Bool
put id b members other = if str_eq id other then b else members other

-- The call of a step: `tryRun`, the end of a task, or `stop`.
pub data PoolCall : Type 0 where
  tries ends : String → PoolCall
  halts : PoolCall

abbrev pub call_of : {p q : BoundedPool} → PoolStep p q → PoolCall
call_of (runs id) = tries id
call_of (settles id) = ends id
call_of stops = halts

-- What each call may do to a pool with a bounded number of places.
pub data ViewStep (v : PoolView) : PoolCall → PoolView → Type 0 where
  admits :
      (id : String)
      → v.accepting ≡ true
      → v.members id ≡ false
      → 0 < v.free
      → ViewStep v (tries id) (record v { members = put id true v.members; free = v.free - 1 })
  refuses :
      (id : String)
      → (v.accepting ≡ false) ⊎ (v.members id ≡ true) ⊎ (v.free ≡ 0)
      → ViewStep v (tries id) v
  leaves :
      (id : String)
      → v.members id ≡ true
      → ViewStep v (ends id) (record v { members = put id false v.members; free = v.free + 1 })
  ignores : (id : String) → v.members id ≡ false → ViewStep v (ends id) v
  closes : ViewStep v halts (record v { accepting = false })

any-put :
    (id other : String) (ts : List String)
    → any (λ t. str_eq t other) (ts ++ id ∷ []) ≡ put id true (λ j. any (λ t. str_eq t j) ts) other
any-put id other ts = ground (arith, any-append id other ts)

any-filter :
    (id other : String) (ts : List String)
    → any (λ t. str_eq t other) (filter (λ t. not (str_eq t id)) ts)
      ≡ put id false (λ j. any (λ t. str_eq t j) ts) other
unfolding filter
any-filter id other [] = ground arith
any-filter id other (t ∷ ts) =
    ground (arith, any-filter id other ts, str_eq_iff t id, str_eq_iff id other, str_eq_iff t other)

filter-absent :
    (id : String) (ts : List String)
    → any (λ t. str_eq t id) ts ≡ false
    → filter (λ t. not (str_eq t id)) ts ≡ ts
unfolding filter
filter-absent id [] h = refl
filter-absent id (t ∷ ts) h = ground (arith, filter-absent id ts)

filter-length :
    (id : String) (ts : List String)
    → Distinct ts
    → any (λ t. str_eq t id) ts ≡ true
    → length (filter (λ t. not (str_eq t id)) ts) + 1 ≡ length ts
unfolding filter
filter-length id [] d h = ground arith
filter-length id (t ∷ ts) d h = elim (Bool-cases (str_eq t id)) [
  | inl e ↦
      let gone : filter (λ u. not (str_eq u id)) ts ≡ ts =
        filter-absent id ts
          (subst (λ j. any (λ u. str_eq u j) ts ≡ false) ((str_eq_iff t id).0 e) d.0) in
      rw (e, gone) (omega arith)
  | inr e ↦ rw e (omega (arith, filter-length id ts d.1 (ground arith)))
]

view_eq :
    {m n : String → Bool} {i j : ℕ} {b : Bool}
    → ((id : String) → m id ≡ n id)
    → i ≡ j
    → ◌≡◌ {A = PoolView}
        (record { members = m; free = i; accepting = b })
        (record { members = n; free = j; accepting = b })
view_eq {b = b} f e = let g = fun_ext f in λ k. record { members = g k; free = e k; accepting = b }

refused_why :
    (a h : Bool) (c n : ℕ) → (not a || h || leb c n) ≡ true → (a ≡ false) ⊎ (h ≡ true) ⊎ (c - n ≡ 0)
refused_why false h c n e = inl refl
refused_why true true c n e = inr (inl refl)
refused_why true false c n e = inr (inr (ground arith))

try_run-ViewStep :
    (id : String) (p : BoundedPool) → ViewStep (view p) (tries id) (view (try_run id p).0)
unfolding try_run
try_run-ViewStep id p =
    elim (Bool-cases (not p.accepting || has id p || leb p.capacity (length p.tasks))) [
      | inl refused ↦
          rw refused
            (refuses id (refused_why p.accepting (has id p) p.capacity (length p.tasks) refused))
      | inr accepted ↦ rw accepted (
          subst (ViewStep (view p) (tries id))
            (view_eq (λ other. sym (any-put id other p.tasks))
              (ground (arith, length-append p.tasks (id ∷ []))))
            (admits id (ground arith) (ground arith) (ground arith)))
    ]

end_task-ViewStep :
    (id : String) (p : BoundedPool)
    → IsBounded p
    → ViewStep (view p) (ends id) (view (end_task id p))
unfolding end_task
end_task-ViewStep id p v = elim (Bool-cases (has id p)) [
  | inl held ↦
      subst (ViewStep (view p) (ends id))
        (view_eq (λ other. sym (any-filter id other p.tasks))
          (omega (arith, filter-length id p.tasks v.distinct held, v.bounded)))
        (leaves id held)
  | inr absent ↦
      subst (ViewStep (view p) (ends id))
        (view_eq (λ other. rw (filter-absent id p.tasks absent) refl)
          (rw (filter-absent id p.tasks absent) refl))
        (ignores id absent)
]

step-ViewStep :
    {p q : BoundedPool} (st : PoolStep p q) → IsBounded p → ViewStep (view p) (call_of st) (view q)
unfolding stop
step-ViewStep {p} (runs id) v = try_run-ViewStep id p
step-ViewStep {p} (settles id) v = end_task-ViewStep id p v
step-ViewStep stops v = closes

-- Seen as a set of ids with the number of free places, a pool that was constructed takes in each step
-- one that `ViewStep` allows for its call: `tryRun` adds an id that is not there and takes a free place of an
-- accepting pool, or changes nothing when the pool is stopped, has the id or has no place; the end of a
-- task whose id is there removes this id alone and frees exactly one place, and of another changes nothing; `stop` only ends the accepting.
pub PoolStep-ViewStep :
    {p q : BoundedPool} → PoolRun p → (st : PoolStep p q) → ViewStep (view p) (call_of st) (view q)
PoolStep-ViewStep r st = step-ViewStep st (PoolRun-IsBounded r)
