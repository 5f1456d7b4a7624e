-- ===== src/Worker/Store/Jobs.antt =====
-- worker/store.ts: the jobs and the one relay of `Store`: `reserveRelay`, `finishRelay`, `setCursor`,
-- `add`, `update`, `pending`, `counts`, and `jobsReadyForDispatch`.
use proofmark.Prelude.{
  ℕ, String, Bool, false, not, ◌&&◌, Option, none, some, List, [], ◌∷◌, ◌++◌, ltb, if◌then◌else◌,
  str_eq, take, filter, Result, ok, throw, ◌>>=◌, ◌>>◌, require, refuse,
}
use proofmark.Prelude.Dict.{lookup, insert, values}
use proofmark.Prelude.Sorting.{sort}
use proofmark.Worker.Job.{
  JobState, submitted, done, dead, RelayStatus, success, reverted, RelayReceipt, Job, RelayEnvelope,
  StoreData, JobPatch, is_finished, is_submitted,
}
use proofmark.Worker.Store.{Effect, keep, commit, commits, assert_source_ready, assert_hub_ready}

-- The job that `reserveRelay` may hand to a relay.
abbrev pub pending_job : Option Job → Result Job
pending_job none = throw "RELAY_JOB_NOT_PENDING"
pending_job (some job) = do refuse (is_finished job.state) "RELAY_JOB_NOT_PENDING"; ok job

-- With no job under the key the source reads a property of `undefined`.
abbrev pub present : Option Job → Result Job
present none = throw "TypeError"
present (some job) = ok job

abbrev pub no_relay : Option RelayEnvelope → Result (Unit {0})
no_relay none = ok tt
no_relay (some _) = throw "RELAY_NONCE_UNRESOLVED"

abbrev pub reserved : RelayEnvelope → ℕ → Job → Job
reserved relay now job = record job {
  state = submitted;
  asc_tx_hash = some relay.hash;
  query_id = some relay.query_id;
  updated_at = now;
}

unfoldable pub reserve_relay : RelayEnvelope → ℕ → StoreData → Effect (Unit {0})
unfolding assert_source_ready assert_hub_ready
reserve_relay relay now d = commits (do
  assert_source_ready d
  assert_hub_ready d
  no_relay d.relay
  job ← pending_job (lookup relay.source_tx_hash d.jobs)
  target ← present (lookup job.tx_hash d.jobs)
  ok (record d {
    relay = some relay;
    jobs = insert job.tx_hash (reserved relay now target) d.jobs;
  }))

-- The open relay, if it has this hash.
abbrev pub open_relay : Option RelayEnvelope → String → Result RelayEnvelope
open_relay none hash = throw "RELAY_STATE_CONFLICT"
open_relay (some relay) hash = do require (str_eq relay.hash hash) "RELAY_STATE_CONFLICT"; ok relay

abbrev pub settled_state : RelayStatus → JobState
settled_state success = done
settled_state reverted = dead

abbrev pub settled_error : RelayStatus → Option String
settled_error success = none
settled_error reverted = some "ASC_TRANSACTION_REVERTED_REVIEW_REQUIRED"

abbrev pub settled : RelayEnvelope → RelayReceipt → ℕ → Job → Job
settled relay receipt now job = record job {
  relay_history = some (
      (elim job.relay_history [ none ↦ [] | some rs ↦ rs ])
      ++ record {
        hash = relay.hash;
        nonce = relay.nonce;
        status = receipt.status;
        block_number = receipt.block_number;
        block_hash = receipt.block_hash;
      }
        ∷ []);
  state = settled_state receipt.status;
  last_error = settled_error receipt.status;
  updated_at = now;
}

unfoldable pub finish_relay : String → RelayReceipt → ℕ → StoreData → Effect (Unit {0})
unfolding assert_hub_ready
finish_relay hash receipt now d = commits (do
  assert_hub_ready d
  relay ← open_relay d.relay hash
  job ← present (lookup relay.source_tx_hash d.jobs)
  ok (record d {
    relay = none;
    jobs = insert relay.source_tx_hash (settled relay receipt now job) d.jobs;
  }))

unfoldable pub set_cursor : ℕ → StoreData → Effect (Unit {0})
set_cursor block d =
    if ltb block d.cursor then keep (ok tt) else commit (record d { cursor = block }) (ok tt)

abbrev pub add_to : Option Job → Job → ℕ → StoreData → Effect Job
add_to (some known) job now d = keep (ok known)
add_to none job now d =
    let j : Job = record job { discovered_at = now; updated_at = now } in
    commit (record d { jobs = insert j.tx_hash j d.jobs }) (ok j)

unfoldable pub add : Job → ℕ → StoreData → Effect Job
add job now d = add_to (lookup job.tx_hash d.jobs) job now d

-- A property that the patch does not have stays.
abbrev pub patched {ℓ} : {A : Type ℓ} → Option A → A → A
patched none old = old
patched (some new) old = new

-- `Object.assign(j, patch, { updatedAt: now })`
unfoldable pub assign : JobPatch → ℕ → Job → Job
assign p now j = record {
  tx_hash = patched p.tx_hash j.tx_hash;
  block_number = patched p.block_number j.block_number;
  block_hash = patched p.block_hash j.block_hash;
  transaction_index = patched p.transaction_index j.transaction_index;
  action = patched p.action j.action;
  event_name = patched p.event_name j.event_name;
  log_count = patched p.log_count j.log_count;
  state = patched p.state j.state;
  attempts = patched p.attempts j.attempts;
  last_error = patched p.last_error j.last_error;
  asc_tx_hash = patched p.asc_tx_hash j.asc_tx_hash;
  query_id = patched p.query_id j.query_id;
  discovered_at = patched p.discovered_at j.discovered_at;
  updated_at = now;
  skip_observation = patched p.skip_observation j.skip_observation;
  relay_history = patched p.relay_history j.relay_history;
}

-- The patch would move the job of the open relay to another state.
abbrev pub drops_relay : Option RelayEnvelope → String → Option JobState → Bool
drops_relay (some relay) tx_hash (some state) =
    str_eq relay.source_tx_hash tx_hash && not (is_submitted state)
drops_relay _ _ _ = false

abbrev pub update_job : Option Job → String → JobPatch → ℕ → StoreData → Effect (Unit {0})
update_job none tx_hash patch now d = keep (ok tt)
update_job (some j) tx_hash patch now d =
    commit (record d { jobs = insert tx_hash (assign patch now j) d.jobs }) (ok tt)

unfoldable pub update : String → JobPatch → ℕ → StoreData → Effect (Unit {0})
unfolding assign
update tx_hash patch now d =
    if drops_relay d.relay tx_hash patch.state
    then keep (throw "UNRESOLVED_RELAY_CANNOT_BE_DROPPED")
    else update_job (lookup tx_hash d.jobs) tx_hash patch now d

-- The job owns the unresolved nonce.
unfoldable pub owns_relay : Option RelayEnvelope → Job → Bool
owns_relay none j = false
owns_relay (some relay) j = str_eq j.tx_hash relay.source_tx_hash

-- Unfinished jobs, the owner of the relay first.
unfoldable pub pending : StoreData → List Job
unfolding owns_relay
pending d =
    sort (λ a b. owns_relay d.relay b && not (owns_relay d.relay a))
      (filter (λ j. not (is_finished j.state)) (values d.jobs))

abbrev slice_to {ℓ} : {A : Type ℓ} → Option ℕ → List A → List A
slice_to none xs = xs
slice_to (some limit) xs = take limit xs

-- `reserved.has` is the argument `busy`; the limit `none` is `Infinity`.
unfoldable pub jobs_ready_for_dispatch : StoreData → (String → Bool) → Option ℕ → List Job
unfolding pending
jobs_ready_for_dispatch d busy limit =
    slice_to limit (filter (λ j. not (busy j.tx_hash)) (pending d))
