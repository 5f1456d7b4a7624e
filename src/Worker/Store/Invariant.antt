-- ===== src/Worker/Store/Invariant.antt =====
-- worker/store.ts: the invariant of the persisted data, which `load` checks in part.
use proofmark.Prelude.{
  String, true, ◌≡◌, refl, inl, inr, Option, none, some, arith, Option-cases, Result, ok, throw,
  Yields, returns, throws,
}
use proofmark.Prelude.Dict.{
  Dict, lookup, insert, IsUnique, insert-IsUnique, AllEntries, AllEntries-insert, insert_new-lookup,
}
use proofmark.Worker.Job.{Job, RelayEnvelope, StoreData}
use proofmark.Worker.Store.{Effect, keep, commit, commits, guarded, relay_is_consistent}

-- A job stands under its own transaction hash.
abbrev pub IsKeyed : String → Job → Type 0
IsKeyed k j = j.tx_hash ≡ k

-- What `load` demands of the file, with the shape of the job table: each key once, each job under
-- its own hash, and an open relay only beside the submitted job that it belongs to.
pub record IsWellFormed (d : StoreData) : Type 0 where
  pub versioned : d.version ≡ 1
  pub unique : IsUnique d.jobs
  pub keyed : AllEntries IsKeyed d.jobs
  pub matched : relay_is_consistent d.relay d.jobs ≡ true

-- If the method commits, `P` holds of what it commits.
pub data Commits (P : StoreData → Type 0) {A : Type 0} : Effect A → Type 0 where
  kept : {r : Result A} → Commits P (keep r)
  committed : {next : StoreData} {r : Result A} → P next → Commits P (commit next r)

pub commits-Commits :
    {P : StoreData → Type 0} {r : Result StoreData} → Yields P r → Commits P (commits r)
unfolding commits
commits-Commits (returns h) = committed h
commits-Commits throws = kept

pub guarded-Commits :
    {P : StoreData → Type 0} {A : Type 0} (r : Result (Unit {0})) {e : Effect A}
    → (r ≡ ok tt → Commits P e)
    → Commits P (guarded r e)
unfolding guarded
guarded-Commits (throw e) h = kept
guarded-Commits (ok tt) h = h refl

pub Commits-both :
    {P Q : StoreData → Type 0} {A : Type 0} {e : Effect A}
    → Commits P e
    → Commits Q e
    → Commits (λ d. P d × Q d) e
Commits-both kept kept = kept
Commits-both (committed h) (committed k) = committed (h, k)

pub Commits-weaken :
    {P Q : StoreData → Type 0} {A : Type 0} {e : Effect A}
    → ((next : StoreData) → P next → Q next)
    → Commits P e
    → Commits Q e
Commits-weaken f kept = kept
Commits-weaken f (committed h) = committed (f _ h)

pub relay_kept :
    (r : Option RelayEnvelope) (m m' : Dict Job)
    → ((k : String) (j : Job) → lookup k m ≡ some j → lookup k m' ≡ some j)
    → relay_is_consistent r m ≡ true
    → relay_is_consistent r m' ≡ true
relay_kept none m m' h c = refl
relay_kept (some relay) m m' h c = elim (Option-cases (lookup relay.source_tx_hash m)) [
  | inl e ↦ absurd (ground arith)
  | inr (j, e) ↦ rw (h _ j e) (rw e at c)
]

-- A new job, under a key that was free, changes nothing for the others.
pub insert_new-IsWellFormed :
    (d : StoreData) (j : Job)
    → lookup j.tx_hash d.jobs ≡ none
    → IsWellFormed d
    → IsWellFormed (record d { jobs = insert j.tx_hash j d.jobs })
insert_new-IsWellFormed d j free v = record {
  versioned = v.versioned;
  unique = insert-IsUnique _ _ _ v.unique;
  keyed = AllEntries-insert IsKeyed _ _ _ refl v.keyed;
  matched = relay_kept d.relay d.jobs _ (λ k i h. insert_new-lookup _ k j d.jobs free h) v.matched;
}
