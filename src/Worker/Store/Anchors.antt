-- ===== src/Worker/Store/Anchors.antt =====
-- worker/store.ts: the checkpoints end at the cursor, so that the scan of worker/source-scan.ts finds
-- its last checkpoint there.
use proofmark.Prelude.{
  ℕ, ◌+◌, ◌≤◌, ◌<◌, true, ◌≡◌, refl, ◌⊎◌, inl, inr, ◌&&◌, arith, Bool-cases, leb, ◌==◌, List, [],
  ◌∷◌, ◌++◌, any, filter, length, ap, Option, none, some, ok, after, returns, require, refuse, ◌>>◌,
  if◌then◌else◌,
}
use proofmark.Worker.Job.{StoreData, SourceCheckpoint, Job}
use proofmark.Worker.Store.{commit, assert_source_ready, assert_hub_ready, hold_source}
use proofmark.Worker.Store.Source.{
  checkpoints, trim_checkpoints, commit_source_range, add_source_jobs, initialize_source,
  anchor_source, rewind_unsigned_source, rewound, same_checkpoint, is_relayed, jobs_above,
}
use proofmark.Worker.Store.Invariant.{Commits, kept, committed, commits-Commits, guarded-Commits}
use proofmark.Worker.Store.Checkpoints.{
  AscendsTo, ascends-append, trim-AscendsTo, trim-length, cut-AscendsTo, filter-length,
}

-- No checkpoint yet, or a chain of at most 129 that ends at the cursor.
pub record IsAnchored (d : StoreData) : Type 0 where
  pub bounded : length (checkpoints d) ≤ 129
  pub chain : (checkpoints d ≡ []) ⊎ AscendsTo d.cursor (checkpoints d)

same_checkpoint-height :
    (ancestor : SourceCheckpoint) (cs : List SourceCheckpoint)
    → any (same_checkpoint ancestor) cs ≡ true
    → any (λ x. x.height == ancestor.height) cs ≡ true
same_checkpoint-height ancestor [] e = e
same_checkpoint-height ancestor (c ∷ cs) e = ground (arith, same_checkpoint-height ancestor cs)

extended-chain :
    (cursor : ℕ) (cs : List SourceCheckpoint) (end : SourceCheckpoint)
    → (cs ≡ []) ⊎ AscendsTo cursor cs
    → cursor < end.height
    → AscendsTo end.height (trim_checkpoints (cs ++ end ∷ []))
extended-chain cursor cs end (inl e) l = rw e (trim-AscendsTo end.height (end ∷ []) refl)
extended-chain cursor cs end (inr a) l =
    trim-AscendsTo end.height (cs ++ end ∷ []) (ascends-append cursor cs end a l)

pub commit_source_range-IsAnchored :
    (from : ℕ) (end : SourceCheckpoint) (jobs : List Job) (now : ℕ) (d : StoreData)
    → IsAnchored d
    → Commits IsAnchored (commit_source_range from end jobs now d)
unfolding commit_source_range
commit_source_range-IsAnchored from end jobs now d v = commits-Commits (
    after (assert_source_ready d) λ _ _. after (assert_hub_ready d) λ _ _.
      after (require (from == d.cursor + 1 && leb from end.height) "SOURCE_SCAN_CURSOR_CONFLICT")
        λ _ h. after (add_source_jobs from end.height now jobs d.jobs) λ known e. returns (record {
          bounded = trim-length (checkpoints d ++ end ∷ []);
          chain = inr (extended-chain d.cursor (checkpoints d) end v.chain (ground arith));
        }))

anchor_source-IsAnchored :
    (cs : List SourceCheckpoint) (c : SourceCheckpoint) (d : StoreData)
    → IsAnchored d
    → Commits IsAnchored (anchor_source cs c d)
anchor_source-IsAnchored (_ ∷ _) c d v = kept
anchor_source-IsAnchored [] c d v =
    commits-Commits
      (after (refuse _ _) λ _ _. returns (record { bounded = omega arith; chain = inr refl }))

pub initialize_source-IsAnchored :
    (c : SourceCheckpoint) (d : StoreData)
    → IsAnchored d
    → Commits IsAnchored (initialize_source c d)
unfolding initialize_source
initialize_source-IsAnchored c d v =
    guarded-Commits (assert_source_ready d) λ _. anchor_source-IsAnchored (checkpoints d) c d v

rewound_chain :
    (ancestor : SourceCheckpoint) (cursor : ℕ) (cs : List SourceCheckpoint)
    → (cs ≡ []) ⊎ AscendsTo cursor cs
    → any (same_checkpoint ancestor) cs ≡ true
    → AscendsTo ancestor.height (filter (λ c. leb c.height ancestor.height) cs)
rewound_chain ancestor cursor [] a e = absurd (ground arith)
rewound_chain ancestor cursor (c ∷ cs) (inl n) e = absurd (ground arith)
rewound_chain ancestor cursor (c ∷ cs) (inr a) e =
    cut-AscendsTo cursor ancestor.height (c ∷ cs) a (same_checkpoint-height ancestor (c ∷ cs) e)

rewound-IsAnchored :
    (ancestor : SourceCheckpoint) (now : ℕ) (d : StoreData)
    → IsAnchored d
    → any (same_checkpoint ancestor) (checkpoints d) ≡ true
    → IsAnchored (rewound ancestor now d)
unfolding rewound
rewound-IsAnchored ancestor now d v e = record {
  bounded =
      omega (arith, v.bounded, filter-length (λ c. leb c.height ancestor.height) (checkpoints d));
  chain = inr (rewound_chain ancestor d.cursor (checkpoints d) v.chain e);
}

pub rewind_unsigned_source-IsAnchored :
    (ancestor : SourceCheckpoint) (now : ℕ) (d : StoreData)
    → IsAnchored d
    → Commits IsAnchored (rewind_unsigned_source ancestor now d)
unfolding rewind_unsigned_source hold_source
rewind_unsigned_source-IsAnchored ancestor now d v =
    guarded-Commits
      (assert_source_ready d
        >> require (any (same_checkpoint ancestor) (checkpoints d)) "UNKNOWN_SOURCE_ANCESTOR")
      {e = if any is_relayed (jobs_above ancestor.height d.jobs)
        then hold_source "SOURCE_REORG_TOUCHES_RELAYED_JOB" d
        else commit (rewound ancestor now d) (ok (length (jobs_above ancestor.height d.jobs)))}
      λ g. elim (Bool-cases (any is_relayed (jobs_above ancestor.height d.jobs))) [
        | inl e ↦ rw e (committed (record { bounded = v.bounded; chain = v.chain }))
        | inr e ↦ rw e (committed (rewound-IsAnchored ancestor now d v (ground (arith, g))))
      ]

abbrev chain_of : Option (List SourceCheckpoint) → List SourceCheckpoint
chain_of none = []
chain_of (some cs) = cs

-- The chain and the cursor are as before.
abbrev pub SameChain : StoreData → StoreData → Type 0
SameChain d next = (next.cursor ≡ d.cursor) × (next.source_checkpoints ≡ d.source_checkpoints)

pub SameChain-IsAnchored : {d next : StoreData} → IsAnchored d → SameChain d next → IsAnchored next
SameChain-IsAnchored {d} {next} v same =
    let cs : checkpoints next ≡ checkpoints d = ap chain_of same.1 in
    record { bounded = rw cs v.bounded; chain = rw (cs, same.0) v.chain }
