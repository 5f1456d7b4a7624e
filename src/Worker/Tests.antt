-- ===== src/Worker/Tests.antt =====
-- worker/store.ts on concrete data: the theorems of the store applied to a small source chain.
use proofmark.Prelude.{ℕ, ◌≡◌, refl, not, none, some, [], ◌∷◌, filter, ok, str_eq, truthy}
use mathlib.Core.List.{Perm}
use proofmark.Prelude.Dict.{lookup, insert, values}
use proofmark.Worker.Job.{Job, discovered, is_finished, RelayEnvelope, SourceCheckpoint, StoreData}
use proofmark.Worker.Store.{
  commit, commits, guarded, saved, renamed, StoreState, empty_data, perform, call, load,
  assert_source_ready, assert_hub_ready,
}
use proofmark.Worker.Store.Source.{
  initialize_source, commit_source_range, add_source_job, add_source_jobs, trim_checkpoints,
  rewind_unsigned_source,
}
use proofmark.Worker.Store.Jobs.{reserve_relay, reserved, pending}
use proofmark.Worker.Store.Invariant.{IsWellFormed, Commits}
use proofmark.Worker.Store.SourceSafety.{IsRange, commit_source_range-IsRange}
use proofmark.Worker.Store.RewindSafety.{RewindEnds, rewind-ends}
use proofmark.Worker.Store.Sync.{IsSynced}
use proofmark.Worker.Store.Reach.{
  Reachable, Reachable-IsSynced, start, next, anchors, scans, reserves,
}
use proofmark.Worker.Store.Queue.{StartsWith, pending-first}

abbrev pub anchor : SourceCheckpoint
anchor = record { height = 9; hash = "0xanchor" }

abbrev pub range_end : SourceCheckpoint
range_end = record { height = 20; hash = "0xend" }

abbrev pub job_of : ℕ → Job
job_of block = record {
  tx_hash = "0xtx";
  block_number = block;
  block_hash = some "0xblock";
  transaction_index = some 0;
  action = 1;
  event_name = "Issued";
  log_count = 1;
  state = discovered;
  attempts = 0;
  last_error = none;
  asc_tx_hash = none;
  query_id = none;
  discovered_at = 7;
  updated_at = 7;
  skip_observation = none;
  relay_history = none;
}

abbrev pub relay : RelayEnvelope
relay = record {
  source_tx_hash = "0xtx";
  query_id = "0xquery";
  hash = "0xrelay";
  raw = "0xraw";
  nonce = 3;
  chain_id = 102031;
  to = "0xasc";
  signer = "0xsigner";
  payload = "0xdata";
}

-- The data after `initializeSource` and after one scanned range with one job.
abbrev anchored : StoreData
anchored = record empty_data { cursor = 9; source_checkpoints = some (anchor ∷ []) }

abbrev pub scanned : StoreData
scanned = record anchored {
  cursor = 20;
  jobs = ("0xtx", job_of 12) ∷ [];
  source_checkpoints = some (anchor ∷ range_end ∷ []);
}

-- The same with the relay of the job open.
abbrev pub relayed : StoreData
relayed = record scanned { jobs = ("0xtx", reserved relay 8 (job_of 12)) ∷ []; relay = some relay }

scan-commits : commit_source_range 10 range_end (job_of 12 ∷ []) 7 anchored ≡ commit scanned (ok tt)
unfolding commit_source_range commits assert_source_ready assert_hub_ready add_source_jobs
    add_source_job trim_checkpoints lookup insert truthy str_eq
scan-commits = refl

scanned-IsWellFormed : IsWellFormed scanned
unfolding lookup
scanned-IsWellFormed = record {
  versioned = refl;
  unique = (refl, tt);
  keyed = (refl, tt);
  matched = refl;
}

relayed-IsWellFormed : IsWellFormed relayed
unfolding lookup str_eq
relayed-IsWellFormed = record {
  versioned = refl;
  unique = (refl, tt);
  keyed = (refl, tt);
  matched = refl;
}

-- A process that anchors, scans a range and opens a relay, where the last two writes end in an error
-- after their rename.
abbrev at_anchor : StoreState
at_anchor = (call saved (record { file = none; memory = empty_data }) (initialize_source anchor)).0

abbrev pub at_range : StoreState
at_range = (call renamed at_anchor (commit_source_range 10 range_end (job_of 12 ∷ []) 7)).0

abbrev at_relay : StoreState
at_relay = (call renamed at_range (reserve_relay relay 8)).0

at_relay-Reachable : Reachable at_relay
at_relay-Reachable =
    next (next (next start (anchors saved anchor)) (scans renamed 10 range_end (job_of 12 ∷ []) 7))
      (reserves renamed relay 8)

pub at_range-scanned : at_range ≡ record { file = some scanned; memory = scanned }
unfolding initialize_source commit_source_range commits guarded perform load assert_source_ready
    assert_hub_ready add_source_jobs add_source_job trim_checkpoints lookup insert truthy str_eq
at_range-scanned = refl

at_relay-relayed : at_relay ≡ record { file = some relayed; memory = relayed }
unfolding initialize_source commit_source_range reserve_relay commits guarded perform load
    assert_source_ready assert_hub_ready add_source_jobs add_source_job trim_checkpoints lookup
    insert truthy str_eq
at_relay-relayed = refl

commit_source_range-IsRange_example :
    Commits
      (IsRange 10 range_end (job_of 12 ∷ []) anchored)
      (commit_source_range 10 range_end (job_of 12 ∷ []) 7 anchored)
commit_source_range-IsRange_example =
    commit_source_range-IsRange 10 range_end (job_of 12 ∷ []) 7 anchored

rewind-ends_example : Commits (RewindEnds anchor scanned) (rewind_unsigned_source anchor 9 scanned)
rewind-ends_example = rewind-ends anchor 9 scanned scanned-IsWellFormed

pending-first_example :
    Perm (pending relayed) (filter (λ (j : Job). not (is_finished j.state)) (values relayed.jobs))
    × StartsWith (some relay) (pending relayed)
pending-first_example = pending-first relayed relayed-IsWellFormed

Reachable-IsSynced_example : IsSynced at_relay
Reachable-IsSynced_example = Reachable-IsSynced at_relay-Reachable
