-- ===== src/Worker/Store/SourceSafety.antt =====
-- worker/store.ts: the methods that follow the source keep the invariant of the persisted data.
use proofmark.Prelude.{
  ℕ, ◌+◌, ◌≤◌, String, true, ◌≡◌, refl, sym, ◌∙◌, ◌⊎◌, inl, inr, ◌&&◌, Option, none, some, arith,
  Bool-cases, leb, ◌==◌, List, [], ◌∷◌, All, truthy, opt_eq, opt_eq→eq, str_eq, ok, Yields, returns,
  after, yielded, weaken, require,
}
use mathlib.Core.Path.{subst}
use proofmark.Prelude.Dict.{
  Dict, lookup, insert, lookup-insert, lookup-insert_self, insert-IsUnique, IsUnique, AllEntries,
  AllEntries-insert, insert_new-lookup,
}
use proofmark.Worker.Job.{Job, StoreData, SourceCheckpoint}
use proofmark.Worker.Store.{assert_source_ready, assert_hub_ready}
use proofmark.Worker.Store.Source.{
  add_source_job, add_source_jobs, commit_source_range, place_job, is_safe_index,
}
use proofmark.Worker.Store.Invariant.{
  IsKeyed, IsWellFormed, Commits, commits-Commits, Commits-weaken, relay_kept,
}

-- What one call of the loop body does to the table: it keeps every job, and a job that it adds lies
-- in the scanned range, under its own hash.
pub record Extends (from to : ℕ) (m m' : Dict Job) : Type 0 where
  pub keeps : (k : String) (j : Job) → lookup k m ≡ some j → lookup k m' ≡ some j
  pub adds :
      (k : String) (j : Job)
      → lookup k m' ≡ some j
      → (lookup k m ≡ some j) ⊎ ((from ≤ j.block_number) × (j.block_number ≤ to))
  pub unique : IsUnique m → IsUnique m'
  pub keyed : AllEntries IsKeyed m → AllEntries IsKeyed m'

-- The job stands in the table, at the block where it was scanned.
pub record IsPlaced (from to : ℕ) (job : Job) (m : Dict Job) : Type 0 where
  pub lower : from ≤ job.block_number
  pub upper : job.block_number ≤ to
  pub hashed : truthy job.block_hash ≡ true
  pub stands :
      (j : Job) × (lookup job.tx_hash m ≡ some j)
      × (j.block_number ≡ job.block_number)
      × (j.block_hash ≡ job.block_hash)

Extends-refl : (from to : ℕ) (m : Dict Job) → Extends from to m m
Extends-refl from to m = record {
  keeps = λ k j h. h;
  adds = λ k j h. inl h;
  unique = λ u. u;
  keyed = λ u. u;
}

Extends-trans :
    {from to : ℕ} {m m' m'' : Dict Job}
    → Extends from to m m'
    → Extends from to m' m''
    → Extends from to m m''
Extends-trans e f = record {
  keeps = λ k j h. f.keeps k j (e.keeps k j h);
  adds = λ k j h. elim (f.adds k j h) [ inl old ↦ e.adds k j old | inr new ↦ inr new ];
  unique = λ u. f.unique (e.unique u);
  keyed = λ u. f.keyed (e.keyed u);
}

insert-adds :
    (from to : ℕ) (j : Job) (m : Dict Job) (k : String) (i : Job)
    → from ≤ j.block_number
    → j.block_number ≤ to
    → lookup k (insert j.tx_hash j m) ≡ some i
    → (lookup k m ≡ some i) ⊎ ((from ≤ i.block_number) × (i.block_number ≤ to))
insert-adds from to j m k i lo hi h = elim (Bool-cases (str_eq j.tx_hash k)) [
  | inl e ↦
      let q : j ≡ i = ground (arith, lookup-insert j.tx_hash k j m) in
      inr (subst (λ x. (from ≤ x.block_number) × (x.block_number ≤ to)) q (lo, hi))
  | inr e ↦ inl (rw (lookup-insert j.tx_hash k j m, e) at h)
]

insert-Extends :
    (from to : ℕ) (j : Job) (m : Dict Job)
    → lookup j.tx_hash m ≡ none
    → from ≤ j.block_number
    → j.block_number ≤ to
    → Extends from to m (insert j.tx_hash j m)
insert-Extends from to j m free lo hi = record {
  keeps = λ k i h. insert_new-lookup _ k j m free h;
  adds = λ k i h. insert-adds from to j m k i lo hi h;
  unique = insert-IsUnique _ _ m;
  keyed = λ u. AllEntries-insert IsKeyed _ _ m refl u;
}

require_same :
    (old job : Job) (e : String) {a : Unit {0}}
    → require (opt_eq old.block_hash job.block_hash && old.block_number == job.block_number) e
      ≡ ok a
    → (old.block_hash ≡ job.block_hash) × (old.block_number ≡ job.block_number)
require_same old job _ h = elim (Bool-cases (opt_eq old.block_hash job.block_hash)) [
  | inl e ↦ (opt_eq→eq _ _ e, ground arith)
  | inr e ↦ absurd (ground arith)
]

place_job-Extends :
    (o : Option Job) (from to now : ℕ) (job : Job) (m : Dict Job)
    → o ≡ lookup job.tx_hash m
    → truthy job.block_hash ≡ true
    → from ≤ job.block_number
    → job.block_number ≤ to
    → Yields (λ m'. Extends from to m m' × IsPlaced from to job m') (place_job o job now m)
place_job-Extends (some old) from to now job m e t lo hi =
    after
      (require (opt_eq old.block_hash job.block_hash && old.block_number == job.block_number)
        "SOURCE_TX_RELOCATION_NOT_RECONCILED")
      λ _ h. returns (
        Extends-refl from to m,
        record {
          lower = lo;
          upper = hi;
          hashed = t;
          stands = (old, sym e, (require_same old job _ h).1, (require_same old job _ h).0);
        },
      )
place_job-Extends none from to now job m e t lo hi = returns (
  insert-Extends from to _ m (sym e) lo hi,
  record { lower = lo; upper = hi; hashed = t; stands = (_, lookup-insert_self _ _ m, refl, refl) },
)

add_source_job-Extends :
    (from to now : ℕ) (job : Job) (m : Dict Job)
    → Yields
        (λ m'. Extends from to m m' × IsPlaced from to job m')
        (add_source_job from to now job m)
unfolding add_source_job
add_source_job-Extends from to now job m =
    after
      (require
        (truthy job.block_hash
          && is_safe_index job.transaction_index
          && leb from job.block_number
          && leb job.block_number to)
        "INVALID_SOURCE_JOB_COORDINATES")
      λ _ h. place_job-Extends _ from to now job m refl (ground arith) (ground arith) (ground arith)

IsPlaced-keeps :
    {from to : ℕ} (job : Job) {m m' : Dict Job}
    → Extends from to m m'
    → IsPlaced from to job m
    → IsPlaced from to job m'
IsPlaced-keeps job e p =
    let (j, found, n, h) = p.stands in
    record {
      lower = p.lower;
      upper = p.upper;
      hashed = p.hashed;
      stands = (j, e.keeps _ j found, n, h);
    }

pub add_source_jobs-Extends :
    (from to now : ℕ) (jobs : List Job) (m : Dict Job)
    → Yields
        (λ m'. Extends from to m m' × All (λ job. IsPlaced from to job m') jobs)
        (add_source_jobs from to now jobs m)
unfolding add_source_jobs
add_source_jobs-Extends from to now [] m = returns (Extends-refl from to m, tt)
add_source_jobs-Extends from to now (job ∷ jobs) m =
    after (add_source_job from to now job m) λ m₁ e₁.
      let placed = yielded (add_source_job-Extends from to now job m) e₁ in
      weaken (λ m' r. (Extends-trans placed.0 r.0, (IsPlaced-keeps job r.0 placed.1, r.1)))
        (add_source_jobs-Extends from to now jobs m₁)

-- The data before and after a committed range.
pub record IsRange (from : ℕ) (end : SourceCheckpoint) (jobs : List Job) (d next : StoreData)
    : Type 0 where
  pub contiguous : from ≡ d.cursor + 1
  pub nonempty : from ≤ end.height
  pub cursor : next.cursor ≡ end.height
  pub table : Extends from end.height d.jobs next.jobs
  pub placed : All (λ job. IsPlaced from end.height job next.jobs) jobs
  pub relay : next.relay ≡ d.relay
  pub version : next.version ≡ d.version

-- What `commitSourceRange` commits goes on where the last range ended: it keeps every older job, has
-- every job of the range at its block, adds no job that lies outside the range, leaves the relay
-- as it is and moves the cursor to the end of the range.
pub commit_source_range-IsRange :
    (from : ℕ) (end : SourceCheckpoint) (jobs : List Job) (now : ℕ) (d : StoreData)
    → Commits (IsRange from end jobs d) (commit_source_range from end jobs now d)
unfolding commit_source_range
commit_source_range-IsRange from end jobs now d = commits-Commits (
    after (assert_source_ready d) λ _ _. after (assert_hub_ready d) λ _ _.
      after (require (from == d.cursor + 1 && leb from end.height) "SOURCE_SCAN_CURSOR_CONFLICT")
        λ _ h. after (add_source_jobs from end.height now jobs d.jobs) λ known e.
          let r = yielded (add_source_jobs-Extends from end.height now jobs d.jobs) e in
          returns (record {
            contiguous = ground arith;
            nonempty = ground arith;
            cursor = refl;
            table = r.0;
            placed = r.1;
            relay = refl;
            version = refl;
          }))

range-IsWellFormed :
    {from : ℕ} {end : SourceCheckpoint} {jobs : List Job} {d next : StoreData}
    → IsWellFormed d
    → IsRange from end jobs d next
    → IsWellFormed next
range-IsWellFormed {d} {next} v r = record {
  versioned = r.version ∙ v.versioned;
  unique = r.table.unique v.unique;
  keyed = r.table.keyed v.keyed;
  matched = rw r.relay (relay_kept d.relay d.jobs next.jobs r.table.keeps v.matched);
}

pub commit_source_range-IsWellFormed :
    (from : ℕ) (end : SourceCheckpoint) (jobs : List Job) (now : ℕ) (d : StoreData)
    → IsWellFormed d
    → Commits IsWellFormed (commit_source_range from end jobs now d)
commit_source_range-IsWellFormed from end jobs now d v =
    Commits-weaken (λ next r. range-IsWellFormed v r)
      (commit_source_range-IsRange from end jobs now d)
