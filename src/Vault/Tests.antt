-- ===== src/Vault/Tests.antt =====
-- pipeline/vault.ts on a vault with one record.
use proofmark.Prelude.{
  ℕ, ◌≤◌, true, false, none, some, [], ◌∷◌, ◌≡◌, refl, filter, str_eq, is_safe_integer, ok, Yields,
}
use proofmark.Prelude.Text.{Text, codes, text_eq}
use proofmark.Prelude.Dict.{lookup, insert, remove, values}
use proofmark.Prelude.Sorting.{sort}
use proofmark.RevocationObservation.{is_reference}
use proofmark.Vault.Data.{
  VaultState, VaultRecord, VaultData, RescreenEvent, ReviewEvent, ReviewOutcome, Disposition,
  DeletionInput, Runtime, block,
}
use proofmark.Vault.Calls.{
  VaultRun, empty, called, mutate, operation, puts, rescreens, requests, approves, purges, extends,
  decides,
}
use proofmark.Vault.Blockers.{
  retention_deadline, safety_blockers, deletion_blockers, deletion_fingerprint,
}
use proofmark.Vault.Retention.{
  request_deletion, approve_deletion, purge_expired, purge_all, set_last, extend_retention,
}
use proofmark.Vault.Decisions.{put, latest_decision, latest_of, decide_review, review_revision}
use proofmark.Vault.Outbox.{has_open_job}
use proofmark.Vault.Effects.{Removes, Clears}
use proofmark.Vault.Sound.{IsSound, VaultRun-IsSound}
use proofmark.Vault.Erasure.{MayErase, mutate-MayErase}
use proofmark.Vault.Kept.{mutate-unblocks, mutate-deadline}
use proofmark.Vault.Blocking.{by_screening, IsBlocked, mutate-IsBlocked}

abbrev zero_digits : Text
zero_digits = codes "0000000000000000000000000000000000000000000000000000000000000000"

-- Digests that are constant, and comparisons by id.
abbrev pub test_runtime : Runtime
test_runtime = record {
  same_record = λ a b. str_eq a.id b.id;
  same_job = λ a b. str_eq a.id b.id;
  same_observation = λ a b. false;
  deletion_digest = λ r n e h j. "digest";
  review_digest = λ r j c. zero_digits;
  id_after = λ a b. false;
  revoke_id = λ id n. "job";
  is_address = λ a. true;
}

abbrev pub subject_record : VaultRecord
subject_record = record {
  id = "r";
  wallet_address = codes "0xab";
  consent_version = "1";
  processing_policy = none;
  retention_policy = none;
  screening_subject = record { full_name = "Name"; rest = "{}" };
  evidence_hash = codes "0x01";
  evidence = "{}";
  attrs = none;
  claims_root = none;
  claims = none;
  state = VaultState.active;
  created_at = 5;
  retention_until = 10;
  last_screened_at = none;
  rescreens = [];
  reviews = [];
  source_issuance = none;
}

abbrev no_data : VaultData
no_data = record { revision = 0; records = []; erasures = []; revocations = []; retention = [] }

abbrev pub stored_data : VaultData
stored_data = record no_data { revision = 1; records = ("r", subject_record) ∷ [] }

stored_data-VaultRun : VaultRun test_runtime stored_data
unfolding mutate operation put str_eq lookup insert is_safe_integer text_eq
stored_data-VaultRun = called empty (puts subject_record) refl

abbrev input : DeletionInput
input = record {
  operator = codes "op1";
  policy_ref = codes "p1";
  service_ref = codes "s1";
  disposition = Disposition.unchanged;
  automatic = true;
}

abbrev requested_data : VaultData
requested_data = record stored_data {
  revision = 2;
  retention =
      (
        "r",
        record {
          minimum_until = none;
          extensions = [];
          holds = [];
          requests =
              record {
                id = "q";
                fingerprint = "digest";
                requested_at = 6;
                operator = codes "op1";
                policy_ref = codes "p1";
                service_ref = codes "s1";
                disposition = Disposition.unchanged;
                automatic = true;
                approval = none;
              }
              ∷ [];
        },
      )
      ∷ [];
}

requested_data-VaultRun : VaultRun test_runtime requested_data
unfolding mutate operation request_deletion safety_blockers retention_deadline deletion_fingerprint
    is_reference is_safe_integer str_eq lookup insert values filter text_eq
requested_data-VaultRun = called stored_data-VaultRun (requests "r" input "q" 6) refl

abbrev approved_data : VaultData
approved_data = record stored_data {
  revision = 3;
  retention =
      (
        "r",
        record {
          minimum_until = none;
          extensions = [];
          holds = [];
          requests =
              record {
                id = "q";
                fingerprint = "digest";
                requested_at = 6;
                operator = codes "op1";
                policy_ref = codes "p1";
                service_ref = codes "s1";
                disposition = Disposition.unchanged;
                automatic = true;
                approval = some (record { operator = codes "op2"; at = 7 });
              }
              ∷ [];
        },
      )
      ∷ [];
}

approved_data-VaultRun : VaultRun test_runtime approved_data
unfolding mutate operation approve_deletion set_last safety_blockers retention_deadline
    deletion_fingerprint is_reference is_safe_integer str_eq lookup insert values filter text_eq
approved_data-VaultRun = called requested_data-VaultRun (approves "r" "q" (codes "op2") 7) refl

VaultRun-IsSound_example : IsSound approved_data
VaultRun-IsSound_example = VaultRun-IsSound test_runtime approved_data-VaultRun

-- The record is erased at 10, when its retention is over, and not at 9.
abbrev erased_data : VaultData
erased_data = record approved_data {
  revision = 4;
  records = [];
  erasures = record { record_id = "r"; at = 10; reason = codes "p1"; request_id = "q" } ∷ [];
}

erased-eq : mutate test_runtime (purges 10) approved_data ≡ ok erased_data
unfolding mutate operation purge_expired purge_all deletion_blockers safety_blockers
    retention_deadline deletion_fingerprint is_safe_integer str_eq lookup remove values filter
    text_eq
erased-eq = refl

early-eq : mutate test_runtime (purges 9) approved_data ≡ ok (record approved_data { revision = 4 })
unfolding mutate operation purge_expired purge_all deletion_blockers safety_blockers
    retention_deadline deletion_fingerprint is_safe_integer str_eq lookup remove values filter
    text_eq
early-eq = refl

approved-found : lookup "r" approved_data.records ≡ some subject_record
unfolding lookup str_eq
approved-found = refl

erased-none : lookup "r" erased_data.records ≡ none
unfolding lookup
erased-none = refl

mutate-MayErase_example :
    (now : ℕ) × Removes now (purges 10) × MayErase test_runtime subject_record approved_data now
mutate-MayErase_example =
    mutate-MayErase test_runtime approved_data-VaultRun (purges 10) erased-eq "r" subject_record
      approved-found erased-none

-- The retention of the record is extended.
abbrev extended_data : VaultData
extended_data = record stored_data {
  revision = 2;
  retention =
      (
        "r",
        record {
          minimum_until = some 20;
          extensions =
              record { until = 20; operator = codes "op1"; reference = codes "c1"; at = 6 } ∷ [];
          holds = [];
          requests = [];
        },
      )
      ∷ [];
}

extended-eq :
    mutate test_runtime (extends "r" 20 (codes "op1") (codes "c1") 6) stored_data ≡ ok extended_data
unfolding mutate operation extend_retention is_reference is_safe_integer str_eq lookup insert
extended-eq = refl

stored-found : lookup "r" stored_data.records ≡ some subject_record
unfolding lookup str_eq
stored-found = refl

mutate-deadline_example :
    retention_deadline subject_record stored_data ≤ retention_deadline subject_record extended_data
mutate-deadline_example =
    mutate-deadline test_runtime stored_data-VaultRun (extends "r" 20 (codes "op1") (codes "c1") 6)
      extended-eq "r" subject_record subject_record stored-found stored-found

abbrev blocking_event : RescreenEvent
blocking_event = record { at = 8; decision = block; reason = none; list_versions = [] }

mutate-IsBlocked_example :
    Yields
      (IsBlocked "r")
      (mutate test_runtime (rescreens "r" blocking_event subject_record) stored_data)
mutate-IsBlocked_example =
    mutate-IsBlocked test_runtime "r" (rescreens "r" blocking_event subject_record) stored_data
      (by_screening blocking_event subject_record refl)

-- A record that was stored blocked is cleared by a review: it has no revocation.
abbrev blocked_record : VaultRecord
blocked_record = record subject_record { state = VaultState.blocked }

abbrev blocked_data : VaultData
blocked_data = record no_data { revision = 1; records = ("r", blocked_record) ∷ [] }

blocked_data-VaultRun : VaultRun test_runtime blocked_data
unfolding mutate operation put str_eq lookup insert is_safe_integer text_eq
blocked_data-VaultRun = called empty (puts blocked_record) refl

abbrev clearing_event : ReviewEvent
clearing_event = record {
  at = 9;
  operator = codes "op1";
  outcome = ReviewOutcome.cleared;
  reason = codes "c1";
  based_on = none;
}

abbrev cleared_record : VaultRecord
cleared_record = record subject_record {
  state = VaultState.active;
  reviews = record clearing_event { based_on = some zero_digits } ∷ [];
}

abbrev cleared_data : VaultData
cleared_data = record no_data { revision = 2; records = ("r", cleared_record) ∷ [] }

cleared-eq :
    mutate test_runtime (decides "r" clearing_event zero_digits) blocked_data ≡ ok cleared_data
unfolding mutate operation decide_review review_revision latest_decision latest_of is_reference
    is_safe_integer str_eq lookup insert values filter text_eq sort
cleared-eq = refl

blocked-found : lookup "r" blocked_data.records ≡ some blocked_record
unfolding lookup str_eq
blocked-found = refl

cleared-found : lookup "r" cleared_data.records ≡ some cleared_record
unfolding lookup str_eq
cleared-found = refl

mutate-unblocks_example :
    Clears "r" (decides "r" clearing_event zero_digits) × (has_open_job "r" blocked_data ≡ false)
mutate-unblocks_example =
    mutate-unblocks test_runtime blocked_data-VaultRun (decides "r" clearing_event zero_digits)
      cleared-eq "r" blocked_record cleared_record blocked-found cleared-found refl refl
