-- ===== src/Worker/Relay/Transport.antt =====
-- worker/relay.ts: `validateRelay` and `EvmRelayTransport`, over a node of the hub whose answers are
-- functions of the moment, so two calls may differ. Reading a signed transaction, signing one and hashing
-- it are parameters.
use proofmark.Prelude.{
  ℕ, ◌+◌, ◌-◌, String, Bool, true, false, not, ◌&&◌, Option, none, some, ltb, leb, ◌==◌,
  if◌then◌else◌, str_eq, is_safe_integer, Result, ok, throw, ◌>>=◌, ◌>>◌, require,
}
use proofmark.Prelude.Text.{codes}
use proofmark.Roster.Proof.{is_hex_word}
use proofmark.Worker.Job.{success, reverted, RelayReceipt, RelayEnvelope}
use proofmark.Worker.SourceScan.Events.{same_address}
use proofmark.Worker.Relay.{
  QueryStatus, unprocessed, unconfirmed, confirmed, QueryObservation, Preparation, Mining, unmined,
  mined,
}

pub record NodeBlock : Type 0 where
  pub number : ℕ
  pub hash : Option String

pub record NodeReceipt : Type 0 where
  pub hash : String
  pub from : String
  pub to : Option String
  pub block_number : ℕ
  pub block_hash : String
  pub status : Option ℕ

-- What `ethers.Transaction.from` reads.
pub record RawTransaction : Type 0 where
  pub is_signed : Bool
  pub hash : Option String
  pub nonce : ℕ
  pub chain_id : ℕ
  pub to : Option String
  pub from : Option String
  pub calldata : String
  pub value : ℕ

-- The two calls of `sample`.
pub data Sampling : Type 0 where
  latest stable : Sampling

pub data HubMoment : Type 0 where
  at_head : HubMoment
  at_block at_value at_final_head at_again : Sampling → HubMoment
  at_mined at_recheck : HubMoment

pub record HubNode : Type 0 where
  pub block_number : HubMoment → Result ℕ
  pub block : HubMoment → ℕ → Result (Option NodeBlock)
  pub processed : HubMoment → String → ℕ → Result Bool
  pub is_deployed : ℕ → Result Bool
  pub transaction_receipt : String → Result (Option NodeReceipt)
  pub broadcast_transaction : String → Result String
  pub asc_address : Result String
  -- `populateTransaction` with the target, the data and the gas limit: the nonce and the chain.
  pub populate : String → String → ℕ → Result (ℕ × ℕ)
  -- `signTransaction`, and its `keccak256`.
  pub sign : String → String → ℕ → Result String
  pub keccak256 : String → String
  pub read_transaction : String → Result RawTransaction

pub record TransportConfig : Type 0 where
  pub wallet_address : String
  pub confirmations : ℕ

abbrev new_transport : TransportConfig → Result TransportConfig
new_transport c = do
  require (is_safe_integer c.confirmations && leb 1 c.confirmations)
      "invalid relay confirmation depth"
  ok c

abbrev pub is_hash : String → Bool
is_hash s = is_hex_word (codes s)

abbrev pub same_hash : Option String → String → Bool
same_hash none h = false
same_hash (some g) h = str_eq g h

abbrev pub is_account : Option String → String → Bool
is_account none b = false
is_account (some a) b = same_address a b

-- `block && block.number === height && block.hash === hash`
abbrev pub is_block : ℕ → String → Option NodeBlock → Bool
is_block height hash none = false
is_block height hash (some b) = b.number == height && same_hash b.hash hash

unfoldable pub is_relay : RelayEnvelope → ℕ → String → String → RawTransaction → Bool
is_relay relay chain_id asc signer tx =
    tx.is_signed
    && same_hash tx.hash relay.hash
    && tx.nonce == relay.nonce
    && tx.chain_id == chain_id
    && relay.chain_id == chain_id
    && is_account tx.to asc
    && same_address relay.to asc
    && is_account tx.from signer
    && same_address relay.signer signer
    && str_eq tx.calldata relay.payload
    && tx.value == 0

abbrev pub hub_chain : ℕ
hub_chain = 102031

-- What `sample` returns, with the time of the call.
pub record Sample : Type 0 where
  pub value : Bool
  pub block_number : ℕ
  pub block_hash : String
  pub confirmations : ℕ

abbrev pub observation : ℕ → QueryStatus → Sample → QueryObservation
observation now status s = record {
  status = status;
  block_number = s.block_number;
  block_hash = s.block_hash;
  confirmations = s.confirmations;
  observed_at = now;
}

-- `expectedHash !== undefined && block.hash !== expectedHash`
abbrev pub is_other_hash : Option String → String → Bool
is_other_hash none hash = false
is_other_hash (some expected) hash = not (str_eq hash expected)

abbrev pub known_hash : ℕ → Option String → ℕ → Option String → Result String
known_hash height expected number none = throw "ASC_QUERY_OBSERVATION_CHANGED"
known_hash height expected number (some hash) = do
  require (number == height && is_hash hash && not (is_other_hash expected hash))
      "ASC_QUERY_OBSERVATION_CHANGED"
  ok hash

abbrev pub hash_of : ℕ → Option String → Option NodeBlock → Result String
hash_of height expected none = throw "ASC_QUERY_OBSERVATION_CHANGED"
hash_of height expected (some b) = known_hash height expected b.number b.hash

abbrev pub is_confirmed_query : QueryObservation → Bool
is_confirmed_query o = elim o.status [ confirmed ↦ true | _ ↦ false ]

abbrev pub status_of : Bool → QueryStatus
status_of deep = if deep then confirmed else unconfirmed

abbrev pub checked_status : NodeReceipt → Option ℕ → Result RelayReceipt
checked_status r none = throw "RELAY_RECEIPT_MISMATCH"
checked_status r (some n) =
    if n == 1
    then ok (record { status = success; block_number = r.block_number; block_hash = r.block_hash })
    else (if n == 0
        then ok
            (record { status = reverted; block_number = r.block_number; block_hash = r.block_hash })
        else throw "RELAY_RECEIPT_MISMATCH")

-- `r.hash`, `r.from` and `r.to` are those of the relay.
abbrev pub is_own : RelayEnvelope → NodeReceipt → Bool
is_own relay r =
    str_eq r.hash relay.hash && same_address r.from relay.signer && is_account r.to relay.to

module _ (node : HubNode) (c : TransportConfig) where
  unfoldable pub validate_relay : RelayEnvelope → ℕ → String → String → Result (Unit {0})
  unfolding is_relay
  validate_relay relay chain_id asc signer = do
    tx ← node.read_transaction relay.raw
    require (is_relay relay chain_id asc signer tx) "RELAY_SIGNATURE_TARGET_MISMATCH"

  unfoldable pub sample : String → Sampling → ℕ → Option String → Result Sample
  sample query s height expected = do
    block ← node.block (at_block s) height
    hash ← hash_of height expected block
    value ← node.processed (at_value s) query height
    final_head ← node.block_number (at_final_head s)
    again ← node.block (at_again s) height
    require (is_block height hash again && is_safe_integer final_head && leb height final_head)
        "ASC_QUERY_OBSERVATION_CHANGED"
    ok (record {
      value = value;
      block_number = height;
      block_hash = hash;
      confirmations = final_head - height + 1;
    })

  -- The status of a sample at the confirmation floor.
  abbrev pub settled : ℕ → Sample → QueryObservation
  settled now s = observation now (status_of (s.value && leb c.confirmations s.confirmations)) s

  abbrev pub recheck : String → ℕ → ℕ → QueryObservation → Result QueryObservation
  recheck query now head e =
      if ltb (head + 1) (e.block_number + c.confirmations)
      then ok (record e { status = unconfirmed })
      else (sample query latest e.block_number (some e.block_hash) >>= λ s. ok (settled now s))

  abbrev pub at_floor : String → ℕ → ℕ → Sample → Result QueryObservation
  at_floor query now head first = do
    let height = head + 1 - c.confirmations
    deployed ← node.is_deployed height
    if deployed
        then ((if height == head then ok first else sample query stable height none) >>= λ s.
            ok (settled now s))
        else ok (observation now unconfirmed first)

  abbrev pub look : String → ℕ → ℕ → Result QueryObservation
  look query now head = do
    first ← sample query latest head none
    if first.value
        then (if ltb (head + 1) c.confirmations
            then ok (observation now unconfirmed first)
            else at_floor query now head first)
        else ok (observation now unprocessed first)

  abbrev pub observe_at : String → ℕ → ℕ → Option QueryObservation → Result QueryObservation
  observe_at query now head none = look query now head
  observe_at query now head (some e) = do
    require (is_confirmed_query e && is_safe_integer e.block_number && is_hash e.block_hash)
        "ASC_QUERY_OBSERVATION_UNAVAILABLE"
    recheck query now head e

  unfoldable pub observe_processed : String → ℕ → Option QueryObservation → Result QueryObservation
  unfolding sample
  observe_processed query now expected = do
    head ← node.block_number at_head
    require (is_safe_integer head) "ASC_QUERY_OBSERVATION_UNAVAILABLE"
    observe_at query now head expected

  unfoldable pub prepare : String → Preparation → Result RelayEnvelope
  unfolding validate_relay
  prepare source_tx_hash p = do
    to ← node.asc_address
    (nonce, chain_id) ← node.populate to p.payload p.gas_limit
    raw ← node.sign to p.payload p.gas_limit
    let relay : RelayEnvelope = record {
      source_tx_hash = source_tx_hash;
      query_id = p.query_id;
      hash = node.keccak256 raw;
      raw = raw;
      nonce = nonce;
      chain_id = chain_id;
      to = to;
      signer = c.wallet_address;
      payload = p.payload;
    }
    validate_relay relay hub_chain to c.wallet_address
    ok relay

  abbrev pub settle_receipt : RelayEnvelope → NodeReceipt → Result Mining
  settle_receipt relay r = do
    require (is_own relay r) "RELAY_RECEIPT_MISMATCH"
    receipt ← checked_status r r.status
    checked ← node.block at_recheck r.block_number
    ok (if is_block r.block_number r.block_hash checked then mined receipt else unmined)

  abbrev pub is_deep : NodeReceipt → ℕ → Option NodeBlock → Bool
  is_deep r head block =
      is_safe_integer head
      && leb r.block_number head
      && is_block r.block_number r.block_hash block
      && leb (r.block_number + c.confirmations) (head + 1)

  abbrev pub read_receipt : RelayEnvelope → Option NodeReceipt → Result Mining
  read_receipt relay none = ok unmined
  read_receipt relay (some r) = do
    require (is_safe_integer r.block_number && is_hash r.block_hash) "RELAY_RECEIPT_MISMATCH"
    block ← node.block at_mined r.block_number
    head ← node.block_number at_mined
    if is_deep r head block then settle_receipt relay r else ok unmined

  unfoldable pub receipt : RelayEnvelope → Result Mining
  unfolding validate_relay
  receipt relay = do
    to ← node.asc_address
    validate_relay relay hub_chain to c.wallet_address
    r ← node.transaction_receipt relay.hash
    read_receipt relay r

  unfoldable pub broadcast : RelayEnvelope → Result (Unit {0})
  unfolding validate_relay
  broadcast relay = do
    to ← node.asc_address
    validate_relay relay hub_chain to c.wallet_address
    hash ← node.broadcast_transaction relay.raw
    require (str_eq hash relay.hash) "RELAY_BROADCAST_HASH_MISMATCH"
