-- ===== src/Worker/Pool/Bounds.antt =====
-- worker/pool.ts: the pool never runs more tasks than it has room for, nor one id twice.
use proofmark.Prelude.{
  ℕ, ◌≤◌, String, false, not, ◌≡◌, refl, inl, inr, ◌||◌, ◌&&◌, List, [], ◌∷◌, ◌++◌, arith,
  Bool-cases, leb, any, filter, str_eq, str_eq_iff, length, length-append, is_safe_integer, ok,
  require, Yields, returns, after, yielded,
}
use proofmark.Worker.Pool.{BoundedPool, new_pool, has, try_run, end_task, stop}

-- No id stands twice.
abbrev pub Distinct : List String → Type 0
Distinct [] = Unit
Distinct (t ∷ ts) = (any (λ u. str_eq u t) ts ≡ false) × Distinct ts

pub record IsBounded (p : BoundedPool) : Type 0 where
  pub positive : 1 ≤ p.capacity
  pub bounded : length p.tasks ≤ p.capacity
  pub distinct : Distinct p.tasks

pub data PoolStep (p : BoundedPool) : BoundedPool → Type 0 where
  runs : (id : String) → PoolStep p (try_run id p).0
  settles : (id : String) → PoolStep p (end_task id p)
  stops : PoolStep p (stop p)

pub data PoolRun : BoundedPool → Type 0 where
  start : (capacity : ℕ) {p : BoundedPool} → new_pool capacity ≡ ok p → PoolRun p
  next : {p q : BoundedPool} → PoolRun p → PoolStep p q → PoolRun q

pub any-append :
    (id t : String) (ts : List String)
    → any (λ u. str_eq u t) (ts ++ id ∷ []) ≡ (any (λ u. str_eq u t) ts || str_eq id t)
any-append id t [] = ground arith
any-append id t (u ∷ ts) = ground (arith, any-append id t ts)

append-Distinct :
    (id : String) (ts : List String)
    → any (λ t. str_eq t id) ts ≡ false
    → Distinct ts
    → Distinct (ts ++ id ∷ [])
append-Distinct id [] h d = (refl, tt)
append-Distinct id (t ∷ ts) h d = (
  ground (arith, any-append id t ts, str_eq_iff t id, str_eq_iff id t, d.0),
  append-Distinct id ts (ground arith) d.1,
)

filter-any :
    (id t : String) (ts : List String)
    → any (λ u. str_eq u t) ts ≡ false
    → any (λ u. str_eq u t) (filter (λ u. not (str_eq u id)) ts) ≡ false
unfolding filter
filter-any id t [] h = refl
filter-any id t (u ∷ ts) h = ground (arith, filter-any id t ts)

filter-Distinct :
    (id : String) (ts : List String) → Distinct ts → Distinct (filter (λ u. not (str_eq u id)) ts)
unfolding filter
filter-Distinct id [] d = tt
filter-Distinct id (t ∷ ts) d = elim (Bool-cases (str_eq t id)) [
  | inl e ↦ rw e (filter-Distinct id ts d.1)
  | inr e ↦ rw e (filter-any id t ts d.0, filter-Distinct id ts d.1)
]

filter-bounded :
    (id : String) (ts : List String) → length (filter (λ u. not (str_eq u id)) ts) ≤ length ts
unfolding filter
filter-bounded id [] = omega arith
filter-bounded id (t ∷ ts) = ground (arith, filter-bounded id ts)

try_run-IsBounded : (id : String) (p : BoundedPool) → IsBounded p → IsBounded (try_run id p).0
unfolding try_run
try_run-IsBounded id p v =
    elim (Bool-cases (not p.accepting || has id p || leb p.capacity (length p.tasks))) [
      | inl refused ↦ rw refused v
      | inr accepted ↦ rw accepted (record {
        positive = v.positive;
        bounded = ground (arith, length-append p.tasks (id ∷ []));
        distinct = append-Distinct id p.tasks (ground arith) v.distinct;
      })
    ]

step-IsBounded : {p q : BoundedPool} → PoolStep p q → IsBounded p → IsBounded q
unfolding end_task stop
step-IsBounded {p} (runs id) v = try_run-IsBounded id p v
step-IsBounded {p} (settles id) v = record {
  positive = v.positive;
  bounded = omega (arith, filter-bounded id p.tasks, v.bounded);
  distinct = filter-Distinct id p.tasks v.distinct;
}
step-IsBounded stops v = record {
  positive = v.positive;
  bounded = v.bounded;
  distinct = v.distinct;
}

new_pool-IsBounded : (capacity : ℕ) → Yields IsBounded (new_pool capacity)
unfolding new_pool
new_pool-IsBounded capacity =
    after
      (require (is_safe_integer capacity && leb 1 capacity)
        "pool capacity must be a positive safe integer")
      λ _ h. returns (record { positive = ground arith; bounded = omega arith; distinct = tt })

-- In every state of a pool that was constructed, after any calls of `tryRun` and `stop` and any ends of
-- tasks, there are at most as many tasks as its capacity, which is positive, and no id stands twice.
pub PoolRun-IsBounded : {p : BoundedPool} → PoolRun p → IsBounded p
PoolRun-IsBounded (start capacity e) = yielded (new_pool-IsBounded capacity) e
PoolRun-IsBounded (next r st) = step-IsBounded st (PoolRun-IsBounded r)
