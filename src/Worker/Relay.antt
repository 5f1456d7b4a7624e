-- ===== src/Worker/Relay.antt =====
-- worker/relay.ts: `RelaySender.step`. One call is a program: what it asks of the outside and of the
-- store, in order, each time with what it does with the answer. Whatever happens between two of them,
-- in other tasks of the worker, is a step of the world in Worker/Relay/World.
pub mod World
pub mod Transport
pub mod Finality
pub mod Queries
pub mod TransportTests
pub mod Safety
pub mod Kept
pub mod Durable
pub mod Tests
use proofmark.Prelude.{
  ℕ, String, Bool, true, false, not, ◌&&◌, ◌||◌, Option, none, some, ◌==◌, if◌then◌else◌, str_eq,
  Result, ok, throw, ◌>>=◌, ◌>>◌, require, refuse,
}
use proofmark.Prelude.Dict.{lookup}
use proofmark.Worker.Job.{
  Job, skipped, RelayStatus, success, reverted, RelayReceipt, RelayEnvelope, StoreData, JobPatch,
  empty_patch,
}
use proofmark.Worker.Store.{assert_source_ready, assert_hub_ready}
use proofmark.Worker.Store.Jobs.{pending_job}

pub data QueryStatus : Type 0 where
  unprocessed unconfirmed confirmed : QueryStatus

pub record QueryObservation : Type 0 where
  pub status : QueryStatus
  pub block_number : ℕ
  pub block_hash : String
  pub confirmations : ℕ
  pub observed_at : ℕ

pub record Preparation : Type 0 where
  pub query_id : String
  pub payload : String
  pub gas_limit : ℕ

-- What `transport.receipt` gives: a receipt, or `pending`.
pub data Mining : Type 0 where
  unmined : Mining
  mined : RelayReceipt → Mining

-- The rest of a call of `step`.
pub data Program : Type 0 where
  ends : Result (Unit {0}) → Program
  guards_hub : (Result (Unit {0}) → Program) → Program
  guards_source : String → (Result (Unit {0}) → Program) → Program
  observes : String → Option QueryObservation → (Result QueryObservation → Program) → Program
  prepares : String → Preparation → (Result RelayEnvelope → Program) → Program
  receipts : RelayEnvelope → (Result Mining → Program) → Program
  broadcasts : RelayEnvelope → (Result (Unit {0}) → Program) → Program
  queries : String → ℕ → (Result Bool → Program) → Program
  reads : (Bool → StoreData → Program) → Program
  reserves : RelayEnvelope → (Result (Unit {0}) → Program) → Program
  finishes : String → RelayReceipt → (Result (Unit {0}) → Program) → Program
  updates : String → JobPatch → (Result (Unit {0}) → Program) → Program

-- An error ends the call.
abbrev pub proceed : {A : Type 0} → Result A → (A → Program) → Program
proceed (ok a) k = k a
proceed (throw e) k = ends (throw e)

-- `throwIfStopped(this.signal)`
abbrev pub throw_if_stopped : Bool → Result (Unit {0})
throw_if_stopped stopped = refuse stopped "WORKER_STOPPED"

abbrev pub is_success : RelayStatus → Bool
is_success success = true
is_success reverted = false

abbrev pub same_status : RelayStatus → RelayStatus → Bool
same_status success success = true
same_status reverted reverted = true
same_status _ _ = false

abbrev pub same_receipt : Mining → RelayReceipt → Bool
same_receipt unmined receipt = false
same_receipt (mined final) receipt =
    same_status final.status receipt.status
    && final.block_number == receipt.block_number
    && str_eq final.block_hash receipt.block_hash

-- The last receipt before the release of the nonce.
unfoldable pub release : RelayEnvelope → RelayReceipt → Program
release relay receipt = receipts relay λ r. proceed r λ final.
    if same_receipt final receipt
    then (reads λ stopped d.
        proceed (do throw_if_stopped stopped; assert_source_ready d; assert_hub_ready d)
          λ _. finishes relay.hash receipt ends)
    else ends (ok tt)

unfoldable pub confirm : String → RelayEnvelope → RelayReceipt → Program
confirm tx relay receipt = guards_source tx λ g. proceed g λ _.
    if is_success receipt.status
    then (queries relay.query_id receipt.block_number λ q. proceed q λ processed.
        if processed then release relay receipt else ends (throw "ASC_QUERY_NOT_CONFIRMED"))
    else release relay receipt

abbrev pub settle : String → RelayEnvelope → Mining → Program
settle tx relay unmined = ends (ok tt)
settle tx relay (mined receipt) = confirm tx relay receipt

-- The receipt after the broadcast.
unfoldable pub await_receipt : String → RelayEnvelope → Program
await_receipt tx relay = receipts relay λ r. proceed r λ receipt. settle tx relay receipt

abbrev pub error_patch : JobPatch
error_patch = record empty_patch { last_error = some (some "ASC_BROADCAST_UNCONFIRMED") }

abbrev pub after_broadcast : String → RelayEnvelope → Result (Unit {0}) → Program
after_broadcast tx relay (ok _) = await_receipt tx relay
after_broadcast tx relay (throw _) =
    updates tx error_patch λ u. proceed u λ _. await_receipt tx relay

abbrev pub on_receipt : String → RelayEnvelope → Mining → Program
on_receipt tx relay unmined = guards_source tx λ g. proceed g λ _.
    reads λ _ d. proceed (assert_source_ready d) λ _. broadcasts relay (after_broadcast tx relay)
on_receipt tx relay (mined receipt) = confirm tx relay receipt

unfoldable pub deliver : String → RelayEnvelope → Program
deliver tx relay = receipts relay λ r. proceed r (on_receipt tx relay)

unfoldable pub sign : String → Preparation → Program
sign tx p = guards_source tx λ g. proceed g λ _. prepares tx p λ r. proceed r λ relay.
    proceed
      (require
        (str_eq relay.source_tx_hash tx
          && str_eq relay.query_id p.query_id
          && str_eq relay.payload p.payload)
        "RELAY_PREPARATION_CONFLICT")
      λ _.
        guards_source tx λ g'. proceed g' λ _. reserves relay λ u. proceed u λ _. deliver tx relay

abbrev pub is_confirmed : QueryStatus → Bool
is_confirmed confirmed = true
is_confirmed _ = false

abbrev pub skip_patch : Preparation → QueryObservation → JobPatch
skip_patch p final = record empty_patch {
  state = some skipped;
  query_id = some (some p.query_id);
  skip_observation = some (
      some (record {
        block_number = final.block_number;
        block_hash = final.block_hash;
        confirmations = final.confirmations;
        observed_at = final.observed_at;
      }));
}

unfoldable pub skip : String → Preparation → QueryObservation → Program
skip tx p query = guards_source tx λ g. proceed g λ _. observes p.query_id (some query) λ q.
    proceed q λ final.
      if is_confirmed final.status
        && final.block_number == query.block_number
        && str_eq final.block_hash query.block_hash
      then (reads λ stopped d.
          proceed (do throw_if_stopped stopped; assert_source_ready d)
            λ _. updates tx (skip_patch p final) ends)
      else ends (ok tt)

abbrev pub on_query : String → Preparation → QueryObservation → QueryStatus → Program
on_query tx p query unconfirmed = ends (ok tt)
on_query tx p query confirmed = skip tx p query
on_query tx p query unprocessed = sign tx p

abbrev pub fresh : String → Option Preparation → Program
fresh tx none = ends (throw "RELAY_PREPARATION_REQUIRED")
fresh tx (some p) = guards_hub λ g. proceed g λ _. reads λ stopped d.
    proceed (do throw_if_stopped stopped; assert_hub_ready d)
      λ _. observes p.query_id none λ q. proceed q λ query. on_query tx p query query.status

abbrev pub resume : String → Option Preparation → Option RelayEnvelope → Program
resume tx preparation none = fresh tx preparation
resume tx preparation (some relay) = deliver tx relay

abbrev pub is_foreign : Option RelayEnvelope → String → Bool
is_foreign none tx = false
is_foreign (some relay) tx = not (str_eq relay.source_tx_hash tx)

-- A call of `step` up to its first `await`, when the flag `active` and the signal are as given. What
-- it throws, it throws with `active` as it was; otherwise `active` is set while the program runs.
unfoldable pub enter : Bool → Bool → String → Option Preparation → StoreData → Result Program
enter stopped active tx preparation d = do
  throw_if_stopped stopped
  refuse (active || is_foreign d.relay tx) "RELAY_NONCE_UNRESOLVED"
  assert_source_ready d
  assert_hub_ready d
  job ← pending_job (lookup tx d.jobs)
  ok (resume tx preparation d.relay)
