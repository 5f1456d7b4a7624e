-- ===== src/RevocationObservation/Tests.antt =====
-- pipeline/revocation-observation.ts on one observation.
use proofmark.Prelude.{◌≡◌, refl, [], ◌∷◌, true, false, ok, is_safe_integer, Yields}
use proofmark.Prelude.Text.{Text, codes, text_eq, to_lower_case, lower_unit}
use proofmark.RevocationObservation.{
  SourceView, HubView, RevocationObservation, enforced, awaiting_hub, derived_state,
  normalize_revocation_observation, is_reference,
}
use proofmark.RevocationObservation.Verdict.{IsVerdict, normalize_revocation_observation-IsVerdict}

abbrev word : Text
word = codes "0x00000000000000000000000000000000000000000000000000000000000000ab"

abbrev contract : Text
contract = codes "0x00000000000000000000000000000000000000cd"

abbrev source_view : SourceView
source_view = record {
  transaction_hash = word;
  block_number = 100;
  block_hash = word;
  transaction_index = 3;
  receipt_log_index = 1;
  confirmations = 6;
  head = record { block_number = 105; block_hash = word; timestamp = 990 };
}

abbrev hub_view : HubView
hub_view = record {
  block_number = 40;
  block_hash = word;
  timestamp = 995;
  tombstone = true;
  cursor = record {
    height = codes "100";
    transaction_index = codes "3";
    receipt_log_index = codes "1";
  };
  policies = record { id = 7; verified = false } ∷ [];
}

abbrev observation : RevocationObservation
observation = record {
  operator = codes "op1";
  observed_at = 1000;
  config = record {
    source = contract;
    asc = contract;
    registry = contract;
    expected_revoker = contract;
    source_code_hash = word;
    asc_code_hash = word;
    registry_code_hash = word;
    policy_ids = 7 ∷ [];
    confirmations = 6;
  };
  state = enforced;
  source = source_view;
  hub = hub_view;
}

observation-normal : normalize_revocation_observation (λ a. true) observation ≡ ok observation
unfolding normalize_revocation_observation is_reference is_safe_integer to_lower_case lower_unit
    text_eq
observation-normal = refl

-- The cursor of the hub has not come to the log.
behind-state :
    derived_state source_view (record hub_view {
      cursor = record {
        height = codes "99";
        transaction_index = codes "8";
        receipt_log_index = codes "0";
      };
    })
    ≡ awaiting_hub
unfolding derived_state
behind-state = refl

normalize_revocation_observation-IsVerdict_example :
    Yields (IsVerdict observation) (normalize_revocation_observation (λ a. true) observation)
normalize_revocation_observation-IsVerdict_example =
    normalize_revocation_observation-IsVerdict (λ a. true) observation
