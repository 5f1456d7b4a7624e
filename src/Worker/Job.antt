-- ===== src/Worker/Job.antt =====
-- The data that worker/store.ts persists. Block numbers, nonces and times are natural numbers;
-- an optional field is an `Option`, with `none` for `undefined`.
use proofmark.Prelude.{ℕ, String, Bool, true, false, Option, none, List}
use proofmark.Prelude.Dict.{Dict}

pub data JobState : Type 0 where
  discovered attested submitted done skipped dead : JobState

pub record SkipObservation : Type 0 where
  pub block_number : ℕ
  pub block_hash : String
  pub confirmations : ℕ
  pub observed_at : ℕ

pub data RelayStatus : Type 0 where
  success reverted : RelayStatus

-- The receipt that `finishRelay` is given.
pub record RelayReceipt : Type 0 where
  pub status : RelayStatus
  pub block_number : ℕ
  pub block_hash : String

-- An element of `relayHistory`.
pub record RelayRecord : Type 0 where
  pub hash : String
  pub nonce : ℕ
  pub status : RelayStatus
  pub block_number : ℕ
  pub block_hash : String

pub record Job : Type 0 where
  pub tx_hash : String
  pub block_number : ℕ
  pub block_hash : Option String
  pub transaction_index : Option ℕ
  pub action : ℕ
  pub event_name : String
  pub log_count : ℕ
  pub state : JobState
  pub attempts : ℕ
  pub last_error : Option String
  pub asc_tx_hash : Option String
  pub query_id : Option String
  pub discovered_at : ℕ
  pub updated_at : ℕ
  pub skip_observation : Option SkipObservation
  pub relay_history : Option (List RelayRecord)

pub record WorkerScope : Type 0 where
  pub source_chain_id : ℕ
  pub hub_chain_id : ℕ
  pub chain_key : ℕ
  pub source : String
  pub asc : String
  pub signer : String
  pub start_block : ℕ

pub record RelayEnvelope : Type 0 where
  pub source_tx_hash : String
  pub query_id : String
  pub hash : String
  pub raw : String
  pub nonce : ℕ
  pub chain_id : ℕ
  pub to : String
  pub signer : String
  pub payload : String

pub record SourceCheckpoint : Type 0 where
  pub height : ℕ
  pub hash : String

pub record SourceRewind : Type 0 where
  pub at : ℕ
  pub from : ℕ
  pub to : ℕ
  pub orphaned_txs : List String

pub record StoreData : Type 0 where
  pub version : ℕ
  pub cursor : ℕ
  pub jobs : Dict Job
  pub scope : Option WorkerScope
  pub relay : Option RelayEnvelope
  pub source_checkpoints : Option (List SourceCheckpoint)
  pub source_hold : Option String
  pub hub_start_nonce : Option ℕ
  pub hub_hold : Option String
  pub source_rewinds : Option (List SourceRewind)

-- `Partial<Job>`: `none` where the patch has no such property.
pub record JobPatch : Type 0 where
  pub tx_hash : Option String
  pub block_number : Option ℕ
  pub block_hash : Option (Option String)
  pub transaction_index : Option (Option ℕ)
  pub action : Option ℕ
  pub event_name : Option String
  pub log_count : Option ℕ
  pub state : Option JobState
  pub attempts : Option ℕ
  pub last_error : Option (Option String)
  pub asc_tx_hash : Option (Option String)
  pub query_id : Option (Option String)
  pub discovered_at : Option ℕ
  pub skip_observation : Option (Option SkipObservation)
  pub relay_history : Option (Option (List RelayRecord))

abbrev pub empty_patch : JobPatch
empty_patch = record {
  tx_hash = none;
  block_number = none;
  block_hash = none;
  transaction_index = none;
  action = none;
  event_name = none;
  log_count = none;
  state = none;
  attempts = none;
  last_error = none;
  asc_tx_hash = none;
  query_id = none;
  discovered_at = none;
  skip_observation = none;
  relay_history = none;
}

-- `['done', 'dead', 'skipped'].includes(state)`
abbrev pub is_finished : JobState → Bool
is_finished done = true
is_finished dead = true
is_finished skipped = true
is_finished _ = false

-- `['submitted', 'done', 'skipped'].includes(state)`
abbrev pub is_relayed_state : JobState → Bool
is_relayed_state submitted = true
is_relayed_state done = true
is_relayed_state skipped = true
is_relayed_state _ = false

abbrev pub is_submitted : JobState → Bool
is_submitted submitted = true
is_submitted _ = false
