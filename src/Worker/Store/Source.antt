-- ===== src/Worker/Store/Source.antt =====
-- worker/store.ts: how `Store` follows the source chain: `initializeSource`, `commitSourceRange` and
-- `rewindUnsignedSource`, with the jobs that they add and remove.
use proofmark.Prelude.{
  ℕ, ◌+◌, ◌-◌, Bool, false, not, ◌&&◌, ◌||◌, Option, none, some, List, [], ◌∷◌, ◌++◌, map, ltb, leb,
  ◌==◌, if◌then◌else◌, str_eq, opt_eq, truthy, is_safe_integer, length, drop, filter, any, Result,
  ok, ◌>>=◌, ◌>>◌, require, refuse,
}
use proofmark.Prelude.Dict.{Dict, lookup, insert, remove, values}
use proofmark.Worker.Job.{Job, RelayRecord, SourceCheckpoint, StoreData, is_relayed_state}
use proofmark.Worker.Store.{
  Effect, keep, commit, commits, guarded, assert_source_ready, assert_hub_ready, hold_source,
}

-- `get checkpoints`
abbrev pub checkpoints : StoreData → List SourceCheckpoint
checkpoints d = elim d.source_checkpoints [ none ↦ [] | some cs ↦ cs ]

abbrev pub anchor_source : List SourceCheckpoint → SourceCheckpoint → StoreData → Effect (Unit {0})
anchor_source (_ ∷ _) checkpoint d = keep (ok tt)
anchor_source [] checkpoint d = commits (do
  refuse (ltb 0 (length d.jobs) || (not (d.cursor == 0) && not (d.cursor == checkpoint.height)))
      "UNHASHED_SOURCE_STATE_REQUIRES_RECONCILIATION"
  ok (record d { cursor = checkpoint.height; source_checkpoints = some (checkpoint ∷ []) }))

unfoldable pub initialize_source : SourceCheckpoint → StoreData → Effect (Unit {0})
unfolding assert_source_ready
initialize_source checkpoint d =
    guarded (assert_source_ready d) (anchor_source (checkpoints d) checkpoint d)

abbrev pub is_safe_index : Option ℕ → Bool
is_safe_index none = false
is_safe_index (some i) = is_safe_integer i

-- A job that is not there yet is added; one that is there must have the same coordinates.
abbrev pub place_job : Option Job → Job → ℕ → Dict Job → Result (Dict Job)
place_job (some existing) job now jobs = do
  require (opt_eq existing.block_hash job.block_hash && existing.block_number == job.block_number)
      "SOURCE_TX_RELOCATION_NOT_RECONCILED"
  ok jobs
place_job none job now jobs =
    ok (insert job.tx_hash (record job { discovered_at = now; updated_at = now }) jobs)

-- The body of the loop of `commitSourceRange`.
unfoldable pub add_source_job : ℕ → ℕ → ℕ → Job → Dict Job → Result (Dict Job)
unfolding is_safe_integer
add_source_job from to now job jobs = do
  require
      (truthy job.block_hash
        && is_safe_index job.transaction_index
        && leb from job.block_number
        && leb job.block_number to)
      "INVALID_SOURCE_JOB_COORDINATES"
  place_job (lookup job.tx_hash jobs) job now jobs

unfoldable pub add_source_jobs : ℕ → ℕ → ℕ → List Job → Dict Job → Result (Dict Job)
add_source_jobs from to now [] known = ok known
add_source_jobs from to now (job ∷ jobs) known =
    add_source_job from to now job known >>= add_source_jobs from to now jobs

-- The initial anchor and the 128 most recent range boundaries.
unfoldable pub trim_checkpoints : List SourceCheckpoint → List SourceCheckpoint
trim_checkpoints [] = []
trim_checkpoints (c ∷ cs) =
    if ltb 129 (length (c ∷ cs)) then c ∷ drop (length (c ∷ cs) - 128) (c ∷ cs) else c ∷ cs

unfoldable pub commit_source_range :
    ℕ → SourceCheckpoint → List Job → ℕ → StoreData → Effect (Unit {0})
unfolding assert_source_ready assert_hub_ready add_source_jobs trim_checkpoints
commit_source_range from end jobs now d = commits (do
  assert_source_ready d
  assert_hub_ready d
  require (from == d.cursor + 1 && leb from end.height) "SOURCE_SCAN_CURSOR_CONFLICT"
  known ← add_source_jobs from end.height now jobs d.jobs
  ok (record d {
    jobs = known;
    source_checkpoints = some (trim_checkpoints (checkpoints d ++ end ∷ []));
    cursor = end.height;
  }))

abbrev has_history : Option (List RelayRecord) → Bool
has_history none = false
has_history (some records) = ltb 0 (length records)

-- The job may have spent a hub nonce.
unfoldable pub is_relayed : Job → Bool
is_relayed j =
    truthy j.asc_tx_hash
    || truthy j.query_id
    || has_history j.relay_history
    || is_relayed_state j.state

unfoldable pub remove_jobs : List Job → Dict Job → Dict Job
remove_jobs [] jobs = jobs
remove_jobs (j ∷ js) jobs = remove_jobs js (remove j.tx_hash jobs)

abbrev pub same_checkpoint : SourceCheckpoint → SourceCheckpoint → Bool
same_checkpoint ancestor c = c.height == ancestor.height && str_eq c.hash ancestor.hash

-- `Object.values(jobs).filter(j => j.blockNumber > ancestor.height)`
unfoldable pub jobs_above : ℕ → Dict Job → List Job
jobs_above height jobs = filter (λ j. ltb height j.block_number) (values jobs)

-- The data that `rewindUnsignedSource` commits.
unfoldable pub rewound : SourceCheckpoint → ℕ → StoreData → StoreData
unfolding jobs_above
rewound ancestor now d =
    let affected = jobs_above ancestor.height d.jobs in
    record d {
      jobs = remove_jobs affected d.jobs;
      source_rewinds = some (
          (elim d.source_rewinds [ none ↦ [] | some rs ↦ rs ])
          ++ record {
            at = now;
            from = d.cursor;
            to = ancestor.height;
            orphaned_txs = map (λ j. j.tx_hash) affected;
          }
            ∷ []);
      cursor = ancestor.height;
      source_checkpoints = some (filter (λ c. leb c.height ancestor.height) (checkpoints d));
    }

unfoldable pub rewind_unsigned_source : SourceCheckpoint → ℕ → StoreData → Effect ℕ
unfolding assert_source_ready hold_source jobs_above rewound
rewind_unsigned_source ancestor now d =
    guarded
      (do
        assert_source_ready d
        require (any (same_checkpoint ancestor) (checkpoints d)) "UNKNOWN_SOURCE_ANCESTOR")
      (if any is_relayed (jobs_above ancestor.height d.jobs)
        then hold_source "SOURCE_REORG_TOUCHES_RELAYED_JOB" d
        else commit (rewound ancestor now d) (ok (length (jobs_above ancestor.height d.jobs))))
