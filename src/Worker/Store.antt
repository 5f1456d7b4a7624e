-- ===== src/Worker/Store.antt =====
-- worker/store.ts: the class `Store`. A method is a function of the data in memory that gives an
-- `Effect`: its result, after at most one call of `commit`. `perform` carries the effect out on the
-- memory and the file, for each way in which the write can end.
pub mod Source
pub mod Jobs
pub mod Invariant
pub mod JobSafety
pub mod SourceSafety
pub mod RewindSafety
pub mod Checkpoints
pub mod Anchors
pub mod Sync
pub mod Reach
pub mod Lifecycle
pub mod Queue
use proofmark.Prelude.{
  ℕ, String, Bool, true, false, not, ◌&&◌, ◌||◌, Option, none, some, [], ltb, ◌==◌, str_eq, opt_eq,
  is_safe_integer, length, Result, ok, throw, ◌>>=◌, ◌>>◌, require, refuse,
}
use proofmark.Prelude.Dict.{Dict, lookup}
use proofmark.Worker.Job.{Job, WorkerScope, RelayEnvelope, StoreData, is_submitted}

-- What a method does: it ends with no write, or commits new data and then ends.
pub data Effect (A : Type 0) : Type 0 where
  keep : Result A → Effect A
  commit : StoreData → Result A → Effect A

-- The end of one write: the rename took place, an error came before it, or an error came after it.
pub data WriteEnd : Type 0 where
  saved lost renamed : WriteEnd

-- The process: the file, if it exists, and `this.data`.
pub record StoreState : Type 0 where
  pub file : Option StoreData
  pub memory : StoreData

abbrev pub empty_data : StoreData
empty_data = record {
  version = 1;
  cursor = 0;
  jobs = [];
  scope = none;
  relay = none;
  source_checkpoints = none;
  source_hold = none;
  hub_start_nonce = none;
  hub_hold = none;
  source_rewinds = none;
}

-- The condition under which `load` accepts a relay envelope.
abbrev pub relay_matches_job : RelayEnvelope → Option Job → Bool
relay_matches_job relay none = false
relay_matches_job relay (some job) =
    is_submitted job.state
    && opt_eq job.asc_tx_hash (some relay.hash)
    && opt_eq job.query_id (some relay.query_id)

abbrev pub relay_is_consistent : Option RelayEnvelope → Dict Job → Bool
relay_is_consistent none jobs = true
relay_is_consistent (some relay) jobs = relay_matches_job relay (lookup relay.source_tx_hash jobs)

unfoldable pub load : Option StoreData → Result StoreData
load none = ok empty_data
load (some parsed) = do
  require (parsed.version == 1) "unknown state file version"
  require (relay_is_consistent parsed.relay parsed.jobs) "INCONSISTENT_RELAY_STATE"
  ok parsed

-- The catch block of `commit`: the file is read again, and the write error is thrown.
abbrev after_failed_write : {A : Type 0} → StoreState → Result StoreData → StoreState × Result A
after_failed_write s (ok fresh) = (record s { memory = fresh }, throw "WORKER_STATE_WRITE_FAILED")
after_failed_write s (throw e) = (s, throw e)

unfoldable pub perform : {A : Type 0} → WriteEnd → StoreState → Effect A → StoreState × Result A
perform w s (keep r) = (s, r)
perform saved s (commit next r) = (record { file = some next; memory = next }, r)
perform lost s (commit next r) = after_failed_write s (load s.file)
perform renamed s (commit next r) =
    after_failed_write (record { file = some next; memory = next }) (load (some next))

-- The process after a call of a method, when its write ends as `w` says.
abbrev pub call :
    {A : Type 0} → WriteEnd → StoreState → (StoreData → Effect A) → StoreState × Result A
call w s method = perform w s (method s.memory)

-- Commits the new data and ends with `undefined`, or throws what computing them threw.
unfoldable pub commits : Result StoreData → Effect (Unit {0})
commits (ok next) = commit next (ok tt)
commits (throw e) = keep (throw e)

-- The first statements of a method, which may throw, and then the rest.
unfoldable pub guarded : {A : Type 0} → Result (Unit {0}) → Effect A → Effect A
guarded (throw e) rest = keep (throw e)
guarded (ok _) rest = rest

-- `this.data.sourceHold` and `this.data.hubHold`: an empty text is falsy and holds nothing.
abbrev assert_free : Option String → Result (Unit {0})
assert_free none = ok tt
assert_free (some reason) = refuse (not (str_eq reason "")) reason

unfoldable pub assert_source_ready : StoreData → Result (Unit {0})
assert_source_ready d = assert_free d.source_hold

unfoldable pub assert_hub_ready : StoreData → Result (Unit {0})
assert_hub_ready d = assert_free d.hub_hold

unfoldable pub hold_source : {A : Type 0} → String → StoreData → Effect A
hold_source reason d = commit (record d { source_hold = some reason }) (throw reason)

unfoldable pub hold_hub : {A : Type 0} → String → StoreData → Effect A
hold_hub reason d = commit (record d { hub_hold = some reason }) (throw reason)

-- `JSON.stringify` of two scopes, whose fields stand in one order.
abbrev pub scope_eq : WorkerScope → WorkerScope → Bool
scope_eq a b =
    a.source_chain_id == b.source_chain_id
    && a.hub_chain_id == b.hub_chain_id
    && a.chain_key == b.chain_key
    && str_eq a.source b.source
    && str_eq a.asc b.asc
    && str_eq a.signer b.signer
    && a.start_block == b.start_block

abbrev pub bind_scope_to : Option WorkerScope → WorkerScope → StoreData → Effect (Unit {0})
bind_scope_to (some bound) scope d =
    keep (require (scope_eq bound scope) "WORKER_STATE_SCOPE_MISMATCH")
bind_scope_to none scope d = commits (do
  refuse (not (d.cursor == 0) || ltb 0 (length d.jobs))
      "LEGACY_WORKER_STATE_REQUIRES_RECONCILIATION"
  ok (record d { scope = some scope }))

unfoldable pub bind_scope : WorkerScope → StoreData → Effect (Unit {0})
bind_scope scope d = bind_scope_to d.scope scope d

abbrev pub signer_baseline : Option ℕ → ℕ → StoreData → Effect (Unit {0})
signer_baseline (some known) start d =
    keep (require (known == start) "HUB_SIGNER_BASELINE_MISMATCH")
signer_baseline none start d = commit (record d { hub_start_nonce = some start }) (ok tt)

unfoldable pub initialize_hub_signer : ℕ → StoreData → Effect (Unit {0})
unfolding assert_hub_ready is_safe_integer
initialize_hub_signer start d =
    guarded (do assert_hub_ready d; require (is_safe_integer start) "HUB_SIGNER_BASELINE_INVALID")
      (signer_baseline d.hub_start_nonce start d)
