-- ===== src/Worker/Recovery/Tests.antt =====
-- worker/recovery.ts on a signer with one finished relay.
use proofmark.Prelude.{
  ◌≡◌, refl, ap, String, true, none, some, [], ◌∷◌, ok, truthy, str_eq, is_safe_integer, filter,
}
use proofmark.Prelude.Text.{text_eq, to_lower_case, lower_unit, text_lt}
use proofmark.Prelude.Sorting.{sort, insert_sorted}
use proofmark.Prelude.Dict.{values}
use native.Mathlib.Decide.{ℕ_discrete}
use proofmark.Worker.Job.{Job, done, success, RelayRecord, StoreData, WorkerScope}
use proofmark.Worker.Store.{
  keep, commit, guarded, assert_hub_ready, empty_data, initialize_hub_signer,
}
use proofmark.Worker.Recovery.{
  HubReader, reconcile_hub_recovery, audit_history, collect, check_nonces, is_receipt_of,
  check_terminal, check_terminals, check_skipped, check_skips, is_deep, check_counts, same_evidence,
  evidence_identity, Evidence-discrete, String-discrete, is_unused, initialize_hub_recovery,
}
use proofmark.Worker.Recovery.Baseline.{IsUnsigned, outcome, initialize_hub_recovery-IsUnsigned}
use proofmark.Worker.Recovery.Reconciled.{IsRecovered, reconcile_hub_recovery-IsRecovered}

abbrev block_word : String
block_word = "0xabababababababababababababababababababababababababababababababab"

abbrev signer_scope : WorkerScope
signer_scope = record {
  source_chain_id = 1;
  hub_chain_id = 2;
  chain_key = 1;
  source = "0xSource";
  asc = "0xAsc";
  signer = "0xSigner";
  start_block = 10;
}

abbrev relayed_once : RelayRecord
relayed_once = record {
  hash = "0x01";
  nonce = 0;
  status = success;
  block_number = 20;
  block_hash = block_word;
}

abbrev finished_job : Job
finished_job = record {
  tx_hash = "0xaa";
  block_number = 12;
  block_hash = some block_word;
  transaction_index = some 0;
  action = 0;
  event_name = "MarkIssued";
  log_count = 1;
  state = done;
  attempts = 1;
  last_error = none;
  asc_tx_hash = some "0x01";
  query_id = some "0xq";
  discovered_at = 1;
  updated_at = 2;
  skip_observation = none;
  relay_history = some (relayed_once ∷ []);
}

abbrev recovered_data : StoreData
recovered_data = record empty_data {
  cursor = 12;
  jobs = ("0xaa", finished_job) ∷ [];
  scope = some signer_scope;
  hub_start_nonce = some 0;
}

abbrev node : HubReader
node = record {
  transaction_count = λ moment address tag. ok 1;
  block_number = λ moment. ok 30;
  block = λ moment height. ok (some (record { number = height; hash = some block_word }));
  receipt = λ moment hash. ok (
      some (record {
        hash = hash;
        from = "0xsigner";
        to = some "0xasc";
        status = some 1;
        block_number = 20;
        block_hash = block_word;
      }));
  processed = λ moment query height. ok true;
}

recovered : reconcile_hub_recovery node 6 recovered_data recovered_data ≡ keep (ok tt)
unfolding reconcile_hub_recovery audit_history collect check_nonces is_receipt_of check_terminal
    check_terminals check_skipped check_skips is_deep check_counts same_evidence evidence_identity
    Evidence-discrete String-discrete ℕ_discrete guarded assert_hub_ready sort insert_sorted filter
    values truthy str_eq text_eq to_lower_case lower_unit is_safe_integer text_lt
recovered = refl

reconcile_hub_recovery-IsRecovered_example : IsRecovered node 6 recovered_data recovered_data
reconcile_hub_recovery-IsRecovered_example =
    reconcile_hub_recovery-IsRecovered node 6 recovered_data recovered_data recovered

abbrev new_signer : StoreData
new_signer = record empty_data { scope = some signer_scope }

abbrev unused_node : HubReader
unused_node = record node { transaction_count = λ moment address tag. ok 0 }

initialized :
    initialize_hub_recovery unused_node new_signer
    ≡ commit (record new_signer { hub_start_nonce = some 0 }) (ok tt)
unfolding initialize_hub_recovery initialize_hub_signer is_unused guarded assert_hub_ready
    is_safe_integer values
initialized = refl

initialized-outcome : outcome (initialize_hub_recovery unused_node new_signer) ≡ ok tt
initialized-outcome = ap outcome initialized

initialize_hub_recovery-IsUnsigned_example :
    (initialize_hub_recovery unused_node new_signer
      ≡ commit (record new_signer { hub_start_nonce = some 0 }) (ok tt))
    × IsUnsigned unused_node new_signer
initialize_hub_recovery-IsUnsigned_example =
    initialize_hub_recovery-IsUnsigned unused_node new_signer initialized-outcome
