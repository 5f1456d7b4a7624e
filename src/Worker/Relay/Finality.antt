-- ===== src/Worker/Relay/Finality.antt =====
-- worker/relay.ts: what the node has shown where `EvmRelayTransport` returns a receipt, or a confirmed query.
use proofmark.Prelude.{
  ℕ, ◌+◌, ◌≤◌, String, true, ◌&&◌, Option, none, some, if◌then◌else◌, str_eq_iff, is_safe_integer,
  ◌≡◌, refl, ◌∙◌, inl, inr, arith, Bool-cases, ok, require, Yields, after, returns, yielded,
}
use proofmark.Worker.Job.{RelayReceipt, RelayEnvelope}
use proofmark.Worker.Relay.{Mining, unmined, mined}
use proofmark.Worker.Relay.Transport.{
  NodeBlock, NodeReceipt, HubMoment, at_mined, at_recheck, HubNode, TransportConfig, is_hash,
  same_hash, is_block, hub_chain, validate_relay, checked_status, is_own, settle_receipt, is_deep,
  read_receipt, receipt,
}

module _ (node : HubNode) (c : TransportConfig) where
  -- At the moment the node gave the block of this number with this hash.
  abbrev pub Shows : HubMoment → ℕ → String → Type 0
  Shows at height hash =
      (b : NodeBlock) × (node.block at height ≡ ok (some b))
      × (b.number ≡ height)
      × (b.hash ≡ some hash)

  pub is_block-Shows :
      (at : HubMoment) (height : ℕ) (hash : String) (o : Option NodeBlock)
      → node.block at height ≡ ok o
      → is_block height hash o ≡ true
      → Shows at height hash
  is_block-Shows at height hash none e h = absurd (ground arith)
  is_block-Shows at height hash (some b) e h = (b, e, ground arith, shown b.hash (ground arith))
    where
      shown : (o : Option String) → same_hash o hash ≡ true → o ≡ some hash
      shown none s = absurd (ground arith)
      shown (some g) s = ground (arith, str_eq_iff g hash)

  -- A receipt that settles a relay: the relay was valid; the node gave the receipt for its hash, by and to
  -- its accounts, the block of the receipt before and after, and a head that makes it deep enough.
  pub record IsFinal (relay : RelayEnvelope) (m : RelayReceipt) : Type 0 where
    pub asc : String
    pub target : node.asc_address ≡ ok asc
    pub valid : validate_relay node c relay hub_chain asc c.wallet_address ≡ ok tt
    pub read : NodeReceipt
    pub given : node.transaction_receipt relay.hash ≡ ok (some read)
    pub own : is_own relay read ≡ true
    pub outcome : checked_status read read.status ≡ ok m
    pub shown : Shows at_mined read.block_number read.block_hash
    pub shown_again : Shows at_recheck read.block_number read.block_hash
    pub head : ℕ
    pub headed : node.block_number at_mined ≡ ok head
    pub deep : read.block_number + c.confirmations ≤ head + 1

  Settles : RelayEnvelope → Mining → Type 0
  Settles relay m = (r : RelayReceipt) → m ≡ mined r → IsFinal relay r

  unmined-Settles : (relay : RelayEnvelope) → Settles relay unmined
  unfolding Settles
  unmined-Settles relay r h = absurd (ground arith)

  module _ (relay : RelayEnvelope) (to : String) (target : node.asc_address ≡ ok to)
      (valid : validate_relay node c relay hub_chain to c.wallet_address ≡ ok tt)
      (read : NodeReceipt) (given : node.transaction_receipt relay.hash ≡ ok (some read))
      (block : Option NodeBlock) (blocked : node.block at_mined read.block_number ≡ ok block)
      (head : ℕ) (headed : node.block_number at_mined ≡ ok head)
      (deep : is_deep node c read head block ≡ true) where
    checked-Settles :
        (m : RelayReceipt) (o : Option NodeBlock)
        → is_own relay read ≡ true
        → checked_status read read.status ≡ ok m
        → node.block at_recheck read.block_number ≡ ok o
        → Settles relay (if is_block read.block_number read.block_hash o then mined m else unmined)
    unfolding Settles
    checked-Settles m o own outcome again =
        elim (Bool-cases (is_block read.block_number read.block_hash o)) [
          | inr n ↦ rw n (unmined-Settles relay)
          | inl y ↦ rw y (λ r h. record {
            asc = to;
            target = target;
            valid = valid;
            read = read;
            given = given;
            own = own;
            outcome = outcome ∙ ground arith;
            shown =
                is_block-Shows at_mined read.block_number read.block_hash block blocked
                  (ground arith);
            shown_again = is_block-Shows at_recheck read.block_number read.block_hash o again y;
            head = head;
            headed = headed;
            deep = ground arith;
          })
        ]

    settle_receipt-Settles : Yields (Settles relay) (settle_receipt node c relay read)
    settle_receipt-Settles = after (require (is_own relay read) "RELAY_RECEIPT_MISMATCH") λ u own.
        after (checked_status read read.status) λ m outcome.
          after (node.block at_recheck read.block_number)
            λ o again. returns (checked-Settles m o (ground arith) outcome again)

  deep-Settles :
      (relay : RelayEnvelope) (to : String) (read : NodeReceipt) (block : Option NodeBlock)
      (head : ℕ)
      → node.asc_address ≡ ok to
      → validate_relay node c relay hub_chain to c.wallet_address ≡ ok tt
      → node.transaction_receipt relay.hash ≡ ok (some read)
      → node.block at_mined read.block_number ≡ ok block
      → node.block_number at_mined ≡ ok head
      → Yields
          (Settles relay)
          (if is_deep node c read head block then settle_receipt node c relay read else ok unmined)
  deep-Settles relay to read block head target valid given blocked headed =
      elim (Bool-cases (is_deep node c read head block)) [
        | inl y ↦
            rw y
              (settle_receipt-Settles relay to target valid read given block blocked head headed y)
        | inr n ↦ rw n (returns (unmined-Settles relay))
      ]

  read_receipt-Settles :
      (relay : RelayEnvelope) (to : String) (o : Option NodeReceipt)
      → node.asc_address ≡ ok to
      → validate_relay node c relay hub_chain to c.wallet_address ≡ ok tt
      → node.transaction_receipt relay.hash ≡ ok o
      → Yields (Settles relay) (read_receipt node c relay o)
  read_receipt-Settles relay to none target valid given = returns (unmined-Settles relay)
  read_receipt-Settles relay to (some r) target valid given =
      after
        (require (is_safe_integer r.block_number && is_hash r.block_hash) "RELAY_RECEIPT_MISMATCH")
        λ u _. after (node.block at_mined r.block_number) λ block blocked.
          after (node.block_number at_mined)
            λ head headed. deep-Settles relay to r block head target valid given blocked headed

  receipt-Settles : (relay : RelayEnvelope) → Yields (Settles relay) (receipt node c relay)
  unfolding receipt
  receipt-Settles relay = after node.asc_address λ to target.
      after (validate_relay node c relay hub_chain to c.wallet_address) λ u valid.
        after (node.transaction_receipt relay.hash)
          λ o given. read_receipt-Settles relay to o target valid given

  -- Where `receipt` of the transport returns a mined receipt, whatever the node answers at each moment, the
  -- relay was valid for the chain, the ASC and the wallet; the node gave a receipt of the hash and the
  -- accounts of the relay, with this status and this block; it gave that block with its hash twice, the
  -- second time last; and its head put the receipt at least the confirmations deep.
  pub receipt-IsFinal :
      (relay : RelayEnvelope) {m : RelayReceipt}
      → receipt node c relay ≡ ok (mined m)
      → IsFinal relay m
  unfolding Settles
  receipt-IsFinal relay h = yielded (receipt-Settles relay) h _ refl
