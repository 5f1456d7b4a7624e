-- ===== src/Worker/SourceScan/Range.antt =====
-- worker/source-scan.ts: what is known of a range that the scan commits.
use proofmark.Prelude.{
  ℕ, ◌+◌, ◌-◌, ◌≤◌, String, Bool, true, false, ◌&&◌, ◌≡◌, refl, ◌⊎◌, inl, inr, Option, none, some,
  List, [], ◌∷◌, leb, ◌==◌, if◌then◌else◌, arith, str_eq, str_eq_iff, is_safe_integer, length,
  Result, ok, throw, require, Bool-cases,
}
use mathlib.Core.Path.{subst}
use proofmark.Worker.Job.{Job, StoreData, SourceCheckpoint}
use proofmark.Worker.Store.{Effect, keep, commit, commits, assert_source_ready, assert_hub_ready}
use proofmark.Worker.Store.Source.{checkpoints, initialize_source, commit_source_range}
use proofmark.Worker.Store.SourceSafety.{IsRange, commit_source_range-IsRange}
use proofmark.Worker.Store.Invariant.{Commits, kept, committed}
use proofmark.Worker.SourceScan.Events.{SourceLog, group_source_events}
use proofmark.Worker.SourceScan.{
  SourceBlock, height, finalized, Moment, at_head, at_anchor, at_checkpoint, at_end, at_logs,
  at_recheck, SourceReader, ScanOptions, ScanResult, Scan, continues, ◌>>=◌, ◌>>◌, returns, lift,
  reads, effect_of, calls, pinned, last_checkpoint, safe_head_of, exceeds, valid_settings, jobs_of,
  check_logs, read_range, not_scanned, scan_range, rewind, follow, anchor_or_follow,
  scan_source_step,
}

-- `P` holds of the store and the value of a part of the scan that returns.
data Lands {A : Type 0} (P : StoreData → A → Type 0) : StoreData × Result A → Type 0 where
  lands : {d : StoreData} {a : A} → P d a → Lands P (d, ok a)
  fails : {d : StoreData} {e : String} → Lands P (d, throw e)

module _ {A B : Type 0} {P : StoreData → B → Type 0} where
  next :
      (r : StoreData × Result A) {k : A → Scan B}
      → ((d : StoreData) (a : A) → r ≡ (d, ok a) → Lands P (k a d))
      → Lands P (continues r k)
  next (d, ok a) f = f d a refl
  next (d, throw e) f = fails

-- The answer of a call that was waited for, and a value that was lifted.
lifted :
    {A B : Type 0} {P : StoreData → B → Type 0} (r : Result A) (k : A → Scan B) (d : StoreData)
    → ((a : A) → r ≡ ok a → Lands P (k a d))
    → Lands P (continues (d, r) k)
lifted (ok a) k d f = f a refl
lifted (throw e) k d f = fails

-- A test that was passed.
tested :
    {B : Type 0} {P : StoreData → B → Type 0} (b : Bool) (e : String) (k : Scan B) (d : StoreData)
    → (b ≡ true → Lands P (k d))
    → Lands P (continues (d, require b e) (λ _. k))
tested true e k d f = f refl
tested false e k d f = fails

-- A store method that returned without a value had nothing to write, or wrote what the store has now.
calls-parts :
    {A : Type 0} (e : Effect A) (d next : StoreData) {a : A}
    → effect_of d e ≡ (next, ok a)
    → (e ≡ keep (ok a)) ⊎ (e ≡ commit next (ok a))
calls-parts (keep r) d next h = inl (ground arith)
calls-parts (commit n r) d next h = inr (ground arith)

commits-unkept : (r : Result StoreData) {a : Unit {0}} → ¬ (commits r ≡ keep (ok a))
unfolding commits
commits-unkept (ok d) h = absurd (ground arith)
commits-unkept (throw e) h = absurd (ground arith)

module _ (reader : SourceReader) (others : Moment → StoreData → StoreData)
    (parse : SourceLog → Result (Option String)) (o : ScanOptions) (now : ℕ) where
  -- The commit of a range, and what the node had said of its end: its block was the same before and
  -- after the logs were read, final, and below the head by the confirmations.
  pub record IsPinned (stored : StoreData) (result : ScanResult) : Type 0 where
    pub at_commit : StoreData
    pub from : ℕ
    pub to : ℕ
    pub end : SourceCheckpoint
    pub jobs : List Job
    pub committed :
        commit_source_range from (record { height = to; hash = end.hash }) jobs now at_commit
        ≡ commit stored (ok tt)
    pub range : IsRange from (record { height = to; hash = end.hash }) jobs at_commit stored
    pub counted : result.jobs ≡ length jobs
    pub before : Option SourceBlock
    pub asked : reader.block at_end (height to) ≡ ok before
    pub stood : pinned before (some to) "SOURCE_RANGE_END_UNAVAILABLE" ≡ ok end
    pub after : Option SourceBlock
    pub again : reader.block at_recheck (height to) ≡ ok after
    pub end_again : SourceCheckpoint
    pub stands : pinned after (some to) "SOURCE_RANGE_CHANGED_DURING_SCAN" ≡ ok end_again
    pub same : end_again.hash ≡ end.hash
    pub head : ℕ
    pub headed : reader.block_number at_recheck ≡ ok head
    pub deep : to + o.confirmations ≤ head
    pub final : SourceCheckpoint
    pub sealed : Option SourceBlock
    pub finality : reader.block at_recheck finalized ≡ ok sealed
    pub is_final : pinned sealed none "SOURCE_RANGE_CHANGED_DURING_SCAN" ≡ ok final
    pub under : to ≤ final.height

  -- The result of a step that scanned.
  unfoldable Scans : StoreData → ScanResult → Type 0
  Scans stored result = result.scanned ≡ true → IsPinned stored result

  commit_source_range-commits :
      (from : ℕ) (end : SourceCheckpoint) (jobs : List Job) (d stored : StoreData) {a : Unit {0}}
      → effect_of d (commit_source_range from end jobs now d) ≡ (stored, ok a)
      → commit_source_range from end jobs now d ≡ commit stored (ok tt)
  unfolding commits commit_source_range
  commit_source_range-commits from end jobs d stored h =
      elim (calls-parts (commit_source_range from end jobs now d) d stored h) [
        | inl e ↦ absurd (commits-unkept _ e)
        | inr e ↦ e
      ]

  committed-IsRange :
      (from : ℕ) (end : SourceCheckpoint) (jobs : List Job) (d stored : StoreData)
      → commit_source_range from end jobs now d ≡ commit stored (ok tt)
      → IsRange from end jobs d stored
  committed-IsRange from end jobs d stored h =
      of_commit (commit_source_range from end jobs now d)
        (commit_source_range-IsRange from end jobs now d) h
    where
      of_commit :
          (e : Effect (Unit {0}))
          → Commits (IsRange from end jobs d) e
          → e ≡ commit stored (ok tt)
          → IsRange from end jobs d stored
      of_commit e kept q = absurd (ground arith)
      of_commit e (committed {next = n} p) q =
          let same : n ≡ stored = ground arith in subst (IsRange from end jobs d) same p

  -- The end of a range: the hub is not held, and the range is committed.
  committed-Scans :
      (from to rewound : ℕ) (d : StoreData) (end : SourceCheckpoint) (jobs : List Job)
      → ((stored : StoreData)
          → commit_source_range from (record { height = to; hash = end.hash }) jobs now d
            ≡ commit stored (ok tt)
          → IsPinned stored (record { scanned = true; jobs = length jobs; rewound = rewound }))
      → Lands Scans (
          (do
            after ← reads
            lift (assert_hub_ready after)
            calls (commit_source_range from (record { height = to; hash = end.hash }) jobs now)
            returns (record { scanned = true; jobs = length jobs; rewound = rewound }))
            d)
  unfolding Scans
  committed-Scans from to rewound d end jobs is_pinned = lifted (assert_hub_ready d) _ _ λ _ _.
      next
        (effect_of d
          (commit_source_range from (record { height = to; hash = end.hash }) jobs now d))
        λ stored _ wrote.
          lands (λ _. is_pinned stored (commit_source_range-commits from _ jobs d stored wrote))

  read_range-Scans :
      (from to rewound : ℕ) (d : StoreData)
      → Lands Scans (read_range reader others parse o now from to rewound d)
  unfolding read_range Scans
  read_range-Scans from to rewound d = lifted (reader.block at_end (height to)) _ _ λ before asked.
      lifted (pinned before (some to) "SOURCE_RANGE_END_UNAVAILABLE") _ _ λ end stood.
        lifted (reader.logs at_logs _) _ _ λ logs _.
          next (check_logs reader others parse o now 0 from to logs [] [] _) λ d1 locations _.
            lifted (last_checkpoint (checkpoints d1)) _ _ λ start _.
              lifted (reader.block at_recheck (height to)) _ _ λ after again.
                lifted (reader.block at_recheck (height start.height)) _ _ λ start_again _.
                  lifted (reader.block at_recheck finalized) _ _ λ sealed finality.
                    lifted (reader.block_number at_recheck) _ _ λ head headed.
                      lifted (pinned after (some to) "SOURCE_RANGE_CHANGED_DURING_SCAN") _ _
                        λ end' stands.
                          lifted
                            (pinned start_again (some start.height)
                              "SOURCE_RANGE_CHANGED_DURING_SCAN")
                            _ _
                            λ start' _.
                              lifted (pinned sealed none "SOURCE_RANGE_CHANGED_DURING_SCAN") _ _
                                λ final is_final.
                                  tested
                                    (str_eq end'.hash end.hash
                                      && str_eq start'.hash start.hash
                                      && is_safe_integer head
                                      && leb final.height head
                                      && leb to final.height
                                      && leb (to + o.confirmations) head)
                                    "SOURCE_RANGE_CHANGED_DURING_SCAN" _ _
                                    λ checked.
                                      lifted (group_source_events logs o.address parse) _ _
                                        λ groups _. lifted (jobs_of locations groups) _ _ λ jobs _.
                                          committed-Scans from to rewound _ end jobs (λ stored e.
                                            record {
                                              at_commit = _;
                                              from = from;
                                              to = to;
                                              end = end;
                                              jobs = jobs;
                                              committed = e;
                                              range =
                                                  committed-IsRange from
                                                    (record { height = to; hash = end.hash }) jobs _
                                                    stored e;
                                              counted = refl;
                                              before = before;
                                              asked = asked;
                                              stood = stood;
                                              after = after;
                                              again = again;
                                              end_again = end';
                                              stands = stands;
                                              same = ground (arith, str_eq_iff end'.hash end.hash);
                                              head = head;
                                              headed = headed;
                                              deep = ground arith;
                                              final = final;
                                              sealed = sealed;
                                              finality = finality;
                                              is_final = is_final;
                                              under = ground arith;
                                            })

  not_scanned-Scans :
      (rewound : ℕ) (d : StoreData)
      → Lands Scans (d, ok (not_scanned reader others parse o now rewound))
  unfolding Scans
  not_scanned-Scans rewound d = lands (λ e. absurd (ground arith))

  scan_range-Scans :
      (safe_head : Option ℕ) (rewound : ℕ) (d : StoreData)
      → Lands Scans (scan_range reader others parse o now safe_head rewound d)
  scan_range-Scans safe_head rewound d = elim (Bool-cases (exceeds (d.cursor + 1) safe_head)) [
    | inl over ↦ rw (scan_range, over) (not_scanned-Scans rewound d)
    | inr under ↦ rw (scan_range, under) (read_range-Scans _ _ rewound d)
  ]

  follow-Scans :
      (safe_head : Option ℕ) (d : StoreData)
      → Lands Scans (follow reader others parse o now safe_head d)
  unfolding follow
  follow-Scans safe_head d = lifted (last_checkpoint (checkpoints d)) _ _ λ last _.
      tested (last.height == d.cursor) "SOURCE_CHECKPOINT_CURSOR_MISMATCH" _ _ λ _.
        lifted (reader.block at_checkpoint (height last.height)) _ _ λ block _.
          lifted (pinned block (some last.height) "SOURCE_CHECKPOINT_UNAVAILABLE") _ _ λ current _.
            next
              ((if str_eq current.hash last.hash
                  then returns 0
                  else rewind reader others parse o now safe_head (checkpoints d))
                _)
              λ d1 rewound _. scan_range-Scans safe_head rewound d1

  anchor_or_follow-Scans :
      (safe_head : Option ℕ) (cs : List SourceCheckpoint) (d : StoreData)
      → Lands Scans (anchor_or_follow reader others parse o now safe_head cs d)
  anchor_or_follow-Scans safe_head (c ∷ cs) d = follow-Scans safe_head d
  anchor_or_follow-Scans safe_head [] d =
      elim (Bool-cases (exceeds (o.start_block - 1) safe_head)) [
        | inl over ↦ rw over (not_scanned-Scans 0 d)
        | inr under ↦ rw under (
            lifted (reader.block at_anchor (height (o.start_block - 1))) _ _ λ block _.
              lifted (pinned block (some (o.start_block - 1)) "SOURCE_ANCHOR_UNAVAILABLE") _ _
                λ anchor _.
                  next (effect_of _ (initialize_source anchor _))
                    λ d1 _ _. follow-Scans safe_head d1)
      ]

  scan_source_step-Scans :
      (d : StoreData) → Lands Scans (scan_source_step reader others parse o now d)
  unfolding scan_source_step
  scan_source_step-Scans d = lifted (assert_source_ready d) _ _ λ _ _.
      lifted (assert_hub_ready d) _ _ λ _ _.
        tested (valid_settings o) "INVALID_SOURCE_SCAN_SETTINGS" _ _ λ _.
          lifted (reader.block_number at_head) _ _ λ head _.
            lifted (reader.block at_head finalized) _ _ λ block _.
              lifted (pinned block none "SOURCE_FINALITY_UNCONFIRMED") _ _ λ final _.
                tested (is_safe_integer head && leb final.height head) "SOURCE_FINALITY_UNCONFIRMED"
                  _ _
                  λ _.
                    anchor_or_follow-Scans (safe_head_of final.height head o.confirmations)
                      (checkpoints (others at_head (others at_head d)))
                      (others at_head (others at_head d))

  -- A step that scanned committed, as its last change of the store, the range behind the cursor; the node had
  -- given the same block for its end before and after the logs were read, and at the end that block was
  -- not above the finalized one and lay below the head by the confirmations, whatever other tasks did
  -- to the store meanwhile.
  pub scan_source_step-IsPinned :
      (d stored : StoreData) (result : ScanResult)
      → scan_source_step reader others parse o now d ≡ (stored, ok result)
      → result.scanned ≡ true
      → IsPinned stored result
  unfolding Scans
  scan_source_step-IsPinned d stored result h =
      of_run (scan_source_step reader others parse o now d) (scan_source_step-Scans d) h
    where
      of_run :
          (r : StoreData × Result ScanResult)
          → Lands Scans r
          → r ≡ (stored, ok result)
          → result.scanned ≡ true
          → IsPinned stored result
      of_run r (lands {d = e} {a = a} p) q =
          let same_data : e ≡ stored = ground arith in
          let same_result : a ≡ result = ground arith in rw (same_data, same_result) at p
      of_run r fails q = absurd (ground arith)
