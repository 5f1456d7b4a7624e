-- ===== src/Vault/RestoreTests.antt =====
-- pipeline/vault.ts: a backup of a vault with one record, restored.
use proofmark.Prelude.{
  true, false, none, some, [], ◌∷◌, ◌≡◌, refl, str_eq, is_safe_integer, ok, throw,
}
use proofmark.Prelude.Text.{Text, codes, text_eq, to_lower_case, lower_unit}
use proofmark.Prelude.Dict.{lookup}
use proofmark.Vault.Backup.{
  VaultBackupFile, VaultRestoreRequirements, VaultCrypto, parsed, RestoreDisk, is_authentic, meets,
  matches_commitment, check_backup, write_backup, restore_backup,
}
use proofmark.Vault.Restored.{IsAccepted, IsWritten, restore_backup-IsAccepted}
use proofmark.Vault.Data.{VaultData}
use proofmark.Vault.Tests.{stored_data}

abbrev digits : Text
digits = codes "0000000000000000000000000000000000000000000000000000000000000000"

abbrev test_secret : Text
test_secret = codes "00000000000000000000000000000000"

-- Digests that are constant, and one envelope that decrypts.
abbrev test_crypto : VaultCrypto
test_crypto = record {
  derive_key = λ secret. secret;
  key_identifier = λ key. digits;
  state_commitment = λ d. digits;
  ciphertext_hash = λ envelope. digits;
  authenticate = λ key manifest envelope. digits;
  decrypt = λ raw key. ok stored_data;
}

abbrev backup_file : VaultBackupFile
backup_file = record {
  manifest = record {
    version = 1;
    backup_id = test_secret;
    created_at = 5;
    revision = 1;
    state_commitment = digits;
    ciphertext_hash = digits;
    key_id = digits;
    delete_by = some 10;
  };
  vault_envelope = codes "{}";
  authentication = digits;
}

abbrev test_disk : RestoreDisk
test_disk = record {
  same_path = false;
  is_taken = false;
  backup = parsed backup_file;
  lock = ok tt;
  lock_write = ok tt;
  is_taken_later = false;
  envelope_written = true;
  read_back = ok (codes "{}");
  released = true;
}

-- The chain has the commitment of the record "r"; "s" was erased.
abbrev requirements : VaultRestoreRequirements
requirements = record {
  expected_backup_id = test_secret;
  expected_state_commitment = digits;
  minimum_revision = 1;
  commitments =
      record {
        record_id = "r";
        wallet_address = codes "0xAB";
        evidence_hash = codes "0x01";
        claims_root = none;
        source_transaction_hash = none;
      }
      ∷ [];
  erased_record_ids = "s" ∷ [];
}

restored-eq :
    restore_backup test_crypto test_disk test_secret requirements 9
    ≡ ok (backup_file.manifest, 1, codes "{}")
unfolding restore_backup check_backup write_backup is_authentic meets matches_commitment lookup
    str_eq text_eq to_lower_case lower_unit is_safe_integer
restored-eq = refl

erased-eq :
    restore_backup test_crypto test_disk test_secret
      (record requirements { erased_record_ids = "r" ∷ [] })
      9
    ≡ throw "VAULT_ERASURE_FLOOR_VIOLATION"
unfolding restore_backup check_backup write_backup is_authentic meets matches_commitment lookup
    str_eq text_eq to_lower_case lower_unit is_safe_integer
erased-eq = refl

restore_backup-IsAccepted_example :
    (file : VaultBackupFile) × (d : VaultData) × IsAccepted test_crypto test_disk test_secret
      requirements 9 file d
    × IsWritten test_crypto test_disk test_secret requirements 9 file (codes "{}")
    × (file.manifest ≡ backup_file.manifest)
restore_backup-IsAccepted_example =
    restore_backup-IsAccepted test_crypto test_disk test_secret requirements 9 restored-eq
