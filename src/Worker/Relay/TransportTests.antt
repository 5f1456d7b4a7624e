-- ===== src/Worker/Relay/TransportTests.antt =====
-- worker/relay.ts: the transport on a node whose head is at 9 and that has mined the relay at 8.
use proofmark.Prelude.{String, true, none, some, ◌≡◌, refl, str_eq, is_safe_integer, ok}
use proofmark.Prelude.Text.{text_eq, to_lower_case, lower_unit}
use proofmark.Worker.Job.{success, RelayReceipt, RelayEnvelope}
use proofmark.Worker.Relay.{confirmed, QueryObservation, mined}
use proofmark.Worker.Relay.Transport.{
  HubNode, TransportConfig, is_relay, validate_relay, sample, observe_processed, receipt,
}
use proofmark.Worker.Relay.Finality.{IsFinal, receipt-IsFinal}
use proofmark.Worker.Relay.Queries.{IsProcessed, SamePlace, observe_processed-IsProcessed}

abbrev block_hash : String
block_hash = "0x0000000000000000000000000000000000000000000000000000000000000001"

abbrev wallet : TransportConfig
wallet = record { wallet_address = "0xBB"; confirmations = 2 }

abbrev node : HubNode
node = record {
  block_number = λ at. ok 9;
  block = λ at n. ok (some (record { number = n; hash = some block_hash }));
  processed = λ at q n. ok true;
  is_deployed = λ n. ok true;
  transaction_receipt = λ h. ok (
      some (record {
        hash = h;
        from = "0xbb";
        to = some "0xAA";
        block_number = 8;
        block_hash = block_hash;
        status = some 1;
      }));
  broadcast_transaction = λ raw. ok "0xhash";
  asc_address = ok "0xaa";
  populate = λ to p g. ok (3, 102031);
  sign = λ to p g. ok "raw";
  keccak256 = λ raw. "0xhash";
  read_transaction = λ raw. ok (record {
    is_signed = true;
    hash = some "0xhash";
    nonce = 3;
    chain_id = 102031;
    to = some "0xaa";
    from = some "0xbb";
    calldata = "0x01";
    value = 0;
  });
}

abbrev envelope : RelayEnvelope
envelope = record {
  source_tx_hash = "0xtx";
  query_id = "q";
  hash = "0xhash";
  raw = "raw";
  nonce = 3;
  chain_id = 102031;
  to = "0xaa";
  signer = "0xBB";
  payload = "0x01";
}

abbrev settled_receipt : RelayReceipt
settled_receipt = record { status = success; block_number = 8; block_hash = block_hash }

receipt-eq : receipt node wallet envelope ≡ ok (mined settled_receipt)
unfolding receipt validate_relay is_relay str_eq text_eq to_lower_case lower_unit is_safe_integer
receipt-eq = refl

receipt-IsFinal_example : IsFinal node wallet envelope settled_receipt
receipt-IsFinal_example = receipt-IsFinal node wallet envelope receipt-eq

abbrev seen : QueryObservation
seen = record {
  status = confirmed;
  block_number = 8;
  block_hash = block_hash;
  confirmations = 2;
  observed_at = 7;
}

seen-eq : observe_processed node wallet "q" 7 none ≡ ok seen
unfolding observe_processed sample str_eq text_eq to_lower_case lower_unit is_safe_integer
seen-eq = refl

observe_processed-IsProcessed_example : IsProcessed node wallet "q" seen × SamePlace none seen
observe_processed-IsProcessed_example =
    observe_processed-IsProcessed node wallet "q" 7 none seen-eq refl
