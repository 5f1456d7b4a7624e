-- ===== src/Worker/Store/RewindSafety.antt =====
-- worker/store.ts: `rewindUnsignedSource` drops the jobs above the ancestor and no job that may have
-- spent a hub nonce, and it keeps the invariant of the persisted data.
use proofmark.Prelude.{
  ℕ, String, Bool, true, false, ◌≡◌, refl, ◌∙◌, inl, inr, Option, none, some, arith, Bool-cases,
  Option-cases, ltb, List, [], ◌∷◌, any, filter, str_eq, str_eq_iff, if◌then◌else◌,
}
use mathlib.Core.Path.{subst}
use proofmark.Prelude.Dict.{
  Dict, lookup, remove, values, lookup-remove, IsUnique, remove-IsUnique, AllEntries,
  AllEntries-remove,
}
use proofmark.Worker.Job.{Job, RelayEnvelope, StoreData, SourceCheckpoint}
use proofmark.Worker.Store.{relay_matches_job, relay_is_consistent, hold_source}
use proofmark.Worker.Store.Source.{
  is_relayed, remove_jobs, jobs_above, rewound, rewind_unsigned_source,
}
use proofmark.Worker.Store.Invariant.{IsKeyed, IsWellFormed, Commits, committed, guarded-Commits}

remove_jobs-lookup :
    (js : List Job) (m : Dict Job) (k : String)
    → lookup k (remove_jobs js m) ≡ (if any (λ j. str_eq j.tx_hash k) js then none else lookup k m)
unfolding remove_jobs
remove_jobs-lookup [] m k = refl
remove_jobs-lookup (j ∷ js) m k =
    ground (arith, remove_jobs-lookup js (remove j.tx_hash m) k, lookup-remove j.tx_hash k m)

remove_jobs-IsUnique : (js : List Job) (m : Dict Job) → IsUnique m → IsUnique (remove_jobs js m)
unfolding remove_jobs
remove_jobs-IsUnique [] m u = u
remove_jobs-IsUnique (j ∷ js) m u =
    remove_jobs-IsUnique js (remove j.tx_hash m) (remove-IsUnique j.tx_hash m u)

remove_jobs-IsKeyed :
    (js : List Job) (m : Dict Job) → AllEntries IsKeyed m → AllEntries IsKeyed (remove_jobs js m)
unfolding remove_jobs
remove_jobs-IsKeyed [] m u = u
remove_jobs-IsKeyed (j ∷ js) m u =
    remove_jobs-IsKeyed js (remove j.tx_hash m) (AllEntries-remove IsKeyed j.tx_hash m u)

-- Whether the job lies above the height.
abbrev is_above : ℕ → Option Job → Bool
is_above height none = false
is_above height (some j) = ltb height j.block_number

jobs_above-nil : (height : ℕ) → jobs_above height [] ≡ []
unfolding jobs_above filter values
jobs_above-nil height = refl

jobs_above-cons :
    (height : ℕ) (k : String) (w : Job) (m : Dict Job)
    → jobs_above height ((k, w) ∷ m)
      ≡ (if ltb height w.block_number then w ∷ jobs_above height m else jobs_above height m)
unfolding jobs_above filter values
jobs_above-cons height k w m = refl

-- The hashes of the affected jobs are the keys of the jobs above the height.
above-lookup :
    (height : ℕ) (m : Dict Job) (k : String)
    → IsUnique m
    → AllEntries IsKeyed m
    → any (λ j. str_eq j.tx_hash k) (jobs_above height m) ≡ is_above height (lookup k m)
unfolding lookup
above-lookup height [] k u keyed = rw jobs_above-nil
above-lookup height ((i, w) ∷ m) k u keyed =
    rw jobs_above-cons
      (ground (arith, above-lookup height m k u.1 keyed.1, keyed.0, u.0, str_eq_iff i k))

-- A rewind drops exactly the jobs above the ancestor.
rewound-lookup :
    (ancestor : SourceCheckpoint) (now : ℕ) (d : StoreData) (k : String)
    → IsWellFormed d
    → lookup k (rewound ancestor now d).jobs
      ≡ (if is_above ancestor.height (lookup k d.jobs) then none else lookup k d.jobs)
unfolding rewound
rewound-lookup ancestor now d k v =
    rw (← above-lookup ancestor.height d.jobs k v.unique v.keyed)
      (remove_jobs-lookup (jobs_above ancestor.height d.jobs) d.jobs k)

-- A job above the ancestor that was relayed stops the rewind.
above-any :
    (height : ℕ) (m : Dict Job) (k : String) (j : Job)
    → lookup k m ≡ some j
    → ltb height j.block_number ≡ true
    → any is_relayed (jobs_above height m) ≡ false
    → is_relayed j ≡ false
unfolding lookup
above-any height [] k j e a h = absurd (ground arith)
above-any height ((i, w) ∷ m) k j e a h = elim (Bool-cases (str_eq i k)) [
  | inl hit ↦
      let q : w ≡ j = ground arith in
      let a' : ltb height w.block_number ≡ true = rw (← q) at a in
      subst (λ x. is_relayed x ≡ false) q (ground (arith, jobs_above-cons height i w m))
  | inr miss ↦
      above-any height m k j (rw miss at e) a (ground (arith, jobs_above-cons height i w m))
]

-- The job of an open relay is submitted, so it counts as relayed.
matched-is_relayed :
    (relay : RelayEnvelope) (j : Job)
    → relay_matches_job relay (some j) ≡ true
    → is_relayed j ≡ true
unfolding is_relayed
matched-is_relayed relay j h = ground arith

-- What stands in the table and was relayed still stands after the rewind.
relayed_stays :
    (height : ℕ) (m : Dict Job) (k : String) (j : Job)
    → IsUnique m
    → AllEntries IsKeyed m
    → any is_relayed (jobs_above height m) ≡ false
    → lookup k m ≡ some j
    → is_relayed j ≡ true
    → lookup k (remove_jobs (jobs_above height m) m) ≡ some j
relayed_stays height m k j u keyed h e relayed =
    let low : ltb height j.block_number ≡ false = elim (Bool-cases (ltb height j.block_number)) [
      | inl a ↦ absurd (ground (arith, above-any height m k j e a h))
      | inr a ↦ a
    ] in
    let seen : any (λ i. str_eq i.tx_hash k) (jobs_above height m) ≡ false =
      above-lookup height m k u keyed ∙ rw e low in
    rw (remove_jobs-lookup (jobs_above height m) m k, seen) e

rewound-matched :
    (r : Option RelayEnvelope) (height : ℕ) (m : Dict Job)
    → IsUnique m
    → AllEntries IsKeyed m
    → any is_relayed (jobs_above height m) ≡ false
    → relay_is_consistent r m ≡ true
    → relay_is_consistent r (remove_jobs (jobs_above height m) m) ≡ true
rewound-matched none height m u keyed h c = refl
rewound-matched (some relay) height m u keyed h c =
    elim (Option-cases (lookup relay.source_tx_hash m)) [
      | inl e ↦ absurd (ground arith)
      | inr (j, e) ↦
          let match : relay_matches_job relay (some j) ≡ true = rw e at c in
          rw (relayed_stays height m _ j u keyed h e (matched-is_relayed relay j match)) match
    ]

-- The two kinds of data that a rewind commits.
pub data RewindEnds (ancestor : SourceCheckpoint) (d next : StoreData) : Type 0 where
  rewinds :
      next.cursor ≡ ancestor.height
      → next.relay ≡ d.relay
      → ((k : String)
          → lookup k next.jobs
            ≡ (if is_above ancestor.height (lookup k d.jobs) then none else lookup k d.jobs))
      → ((k : String) (j : Job)
          → lookup k d.jobs ≡ some j
          → is_relayed j ≡ true
          → lookup k next.jobs ≡ some j)
      → IsWellFormed next
      → RewindEnds ancestor d next
  holds :
      next ≡ record d { source_hold = some "SOURCE_REORG_TOUCHES_RELAYED_JOB" }
      → RewindEnds ancestor d next

pub RewindEnds-IsWellFormed :
    {ancestor : SourceCheckpoint} {d next : StoreData}
    → IsWellFormed d
    → RewindEnds ancestor d next
    → IsWellFormed next
RewindEnds-IsWellFormed v (rewinds _ _ _ _ formed) = formed
RewindEnds-IsWellFormed v (holds e) =
    rw e
      (record { versioned = v.versioned; unique = v.unique; keyed = v.keyed; matched = v.matched })

rewound-ends :
    (ancestor : SourceCheckpoint) (now : ℕ) (d : StoreData)
    → IsWellFormed d
    → any is_relayed (jobs_above ancestor.height d.jobs) ≡ false
    → RewindEnds ancestor d (rewound ancestor now d)
unfolding rewound
rewound-ends ancestor now d v h =
    rewinds refl refl (λ k. rewound-lookup ancestor now d k v)
      (λ k j e r. relayed_stays ancestor.height d.jobs k j v.unique v.keyed h e r)
      (record {
        versioned = v.versioned;
        unique = remove_jobs-IsUnique (jobs_above ancestor.height d.jobs) d.jobs v.unique;
        keyed = remove_jobs-IsKeyed (jobs_above ancestor.height d.jobs) d.jobs v.keyed;
        matched = rewound-matched d.relay ancestor.height d.jobs v.unique v.keyed h v.matched;
      })

-- From sound data, `rewindUnsignedSource` commits one of two things: the cursor at the ancestor, with
-- exactly the jobs above it dropped and every relayed job, and the open relay, kept; or, with all else
-- unchanged, the hold of the source.
pub rewind-ends :
    (ancestor : SourceCheckpoint) (now : ℕ) (d : StoreData)
    → IsWellFormed d
    → Commits (RewindEnds ancestor d) (rewind_unsigned_source ancestor now d)
unfolding rewind_unsigned_source hold_source
rewind-ends ancestor now d v = guarded-Commits _ λ _.
    elim (Bool-cases (any is_relayed (jobs_above ancestor.height d.jobs))) [
      | inl e ↦ rw e (committed (holds refl))
      | inr e ↦ rw e (committed (rewound-ends ancestor now d v e))
    ]
