-- ===== src/Vault/Backup.antt =====
-- pipeline/vault.ts: `restoreBackup`. Encryption, digests and message authentication are parameters; a call
-- of the file system ends as an argument says.
use proofmark.Prelude.{
  ℕ, String, Bool, true, false, not, ◌&&◌, ◌||◌, Option, none, some, List, [], ◌∷◌, leb, ◌==◌,
  if◌then◌else◌, str_eq, any, all, length, is_some, is_safe_integer, Result, ok, throw, ◌>>=◌, ◌>>◌,
  require, refuse,
}
use proofmark.Prelude.Text.{Text, codes, text_eq, to_lower_case}
use proofmark.Prelude.Dict.{lookup}
use proofmark.Vault.Data.{VaultRecord, VaultData, SourceIssuanceObservation}

pub record VaultCommitmentObservation : Type 0 where
  pub record_id : String
  pub wallet_address : Text
  pub evidence_hash : Text
  pub claims_root : Option Text
  pub source_transaction_hash : Option Text

-- `deleteBy` is `none` where it is null or absent.
pub record VaultBackupManifest : Type 0 where
  pub version : ℕ
  pub backup_id : Text
  pub created_at : ℕ
  pub revision : ℕ
  pub state_commitment : Text
  pub ciphertext_hash : Text
  pub key_id : Text
  pub delete_by : Option ℕ

pub record VaultBackupFile : Type 0 where
  pub manifest : VaultBackupManifest
  pub vault_envelope : Text
  pub authentication : Text

pub record VaultRestoreRequirements : Type 0 where
  pub expected_backup_id : Text
  pub expected_state_commitment : Text
  pub minimum_revision : ℕ
  pub commitments : List VaultCommitmentObservation
  pub erased_record_ids : List String

pub record VaultCrypto : Type 0 where
  pub derive_key : Text → Text
  pub key_identifier : Text → Text
  pub state_commitment : VaultData → Text
  pub ciphertext_hash : Text → Text
  pub authenticate : Text → VaultBackupManifest → Text → Text
  pub decrypt : Text → Text → Result VaultData

-- `JSON.parse` of the backup: it fails, it is no object, or it is one.
pub data BackupRead : Type 0 where
  unreadable malformed : BackupRead
  parsed : VaultBackupFile → BackupRead

-- How the calls of the file system end that `restoreBackup` makes; `lock` has all from `mkdirSync` to
-- `acquireLock`, `released` both `closeSync` and `unlinkSync`.
pub record RestoreDisk : Type 0 where
  pub same_path : Bool
  pub is_taken : Bool
  pub backup : BackupRead
  pub lock : Result (Unit {0})
  pub lock_write : Result (Unit {0})
  pub is_taken_later : Bool
  pub envelope_written : Bool
  pub read_back : Result Text
  pub released : Bool

abbrev pub is_lower_digit : ℕ → Bool
is_lower_digit c = (leb b'0' c && leb c b'9') || (leb b'a' c && leb c b'f')

-- `/^[0-9a-f]{n}$/`
abbrev pub is_hex : ℕ → Text → Bool
is_hex n digits = length digits == n && all is_lower_digit digits

abbrev pub same_hex : Text → Text → Bool
same_hex a b = text_eq (to_lower_case a) (to_lower_case b)

abbrev pub is_deadline : ℕ → Option ℕ → Bool
is_deadline created_at none = true
is_deadline created_at (some d) = is_safe_integer d && leb created_at d

abbrev pub is_over : ℕ → Option ℕ → Bool
is_over now none = false
is_over now (some d) = leb d now

-- `new Set(ids).size === ids.length`
abbrev pub all_distinct : List String → Bool
all_distinct [] = true
all_distinct (id ∷ ids) = not (any (str_eq id) ids) && all_distinct ids

abbrev pub is_id : String → Bool
is_id id = not (str_eq id "") && leb (length (codes id)) 256

-- An optional value of the chain, against that of the record.
abbrev pub fits : Option Text → Option Text → Bool
fits none kept = true
fits (some seen) none = false
fits (some seen) (some kept) = same_hex kept seen

-- An empty root counts as none.
abbrev pub root_of : Option Text → Option Text
root_of (some []) = none
root_of root = root

abbrev pub transaction_of : Option SourceIssuanceObservation → Option Text
transaction_of none = none
transaction_of (some o) = some o.transaction_hash

abbrev pub matches_record : VaultCommitmentObservation → Option VaultRecord → Bool
matches_record o none = false
matches_record o (some r) =
    same_hex r.wallet_address o.wallet_address
    && same_hex r.evidence_hash o.evidence_hash
    && fits o.claims_root (root_of r.claims_root)
    && fits o.source_transaction_hash (transaction_of r.source_issuance)

unfoldable pub matches_commitment : VaultData → VaultCommitmentObservation → Bool
matches_commitment d o =
    not (str_eq o.record_id "") && matches_record o (lookup o.record_id d.records)

abbrev pub found_backup : BackupRead → Result VaultBackupFile
found_backup unreadable = throw "VAULT_BACKUP_UNREADABLE"
found_backup malformed = throw "VAULT_BACKUP_AUTHENTICATION_FAILED"
found_backup (parsed file) = ok file

abbrev pub opened : Result VaultData → Result VaultData
opened (ok d) = ok d
opened (throw e) = throw "VAULT_BACKUP_AUTHENTICATION_FAILED"

module _ (crypto : VaultCrypto) where
  abbrev pub key_of : Text → Result Text
  key_of secret = do
    require (leb 32 (length secret)) "EVIDENCE_VAULT_KEY must be at least 32 characters"
    ok (crypto.derive_key secret)

  unfoldable pub is_authentic : Text → VaultBackupFile → Bool
  is_authentic key file =
      let m = file.manifest in
      m.version == 1
      && is_hex 32 m.backup_id
      && is_safe_integer m.created_at
      && is_safe_integer m.revision
      && is_hex 64 m.state_commitment
      && is_hex 64 m.ciphertext_hash
      && is_hex 64 m.key_id
      && is_deadline m.created_at m.delete_by
      && is_hex 64 file.authentication
      && text_eq file.authentication (crypto.authenticate key m file.vault_envelope)
      && text_eq m.key_id (crypto.key_identifier key)
      && text_eq (crypto.ciphertext_hash file.vault_envelope) m.ciphertext_hash

  unfoldable pub meets : VaultRestoreRequirements → VaultBackupManifest → VaultData → Bool
  meets req m d =
      text_eq req.expected_backup_id m.backup_id
      && text_eq req.expected_state_commitment m.state_commitment
      && is_safe_integer req.minimum_revision
      && leb req.minimum_revision m.revision
      && text_eq (crypto.state_commitment d) m.state_commitment
      && d.revision == m.revision
      && all is_id req.erased_record_ids
      && all_distinct req.erased_record_ids

  -- What is checked before the destination is written: the key, the backup and its data.
  unfoldable pub check_backup :
      RestoreDisk → Text → VaultRestoreRequirements → ℕ → Result (Text × VaultBackupFile)
  unfolding is_authentic meets matches_commitment
  check_backup disk secret req now = do
    refuse (disk.same_path || disk.is_taken) "VAULT_RESTORE_DESTINATION_NOT_EMPTY"
    key ← key_of secret
    file ← found_backup disk.backup
    require (is_authentic key file) "VAULT_BACKUP_AUTHENTICATION_FAILED"
    d ← opened (crypto.decrypt file.vault_envelope key)
    require (meets req file.manifest d) "VAULT_RESTORE_REQUIREMENTS_MISMATCH"
    refuse (is_over now file.manifest.delete_by) "VAULT_BACKUP_EXPIRED"
    refuse (any (λ id. is_some (lookup id d.records)) req.erased_record_ids)
        "VAULT_ERASURE_FLOOR_VIOLATION"
    require (all (matches_commitment d) req.commitments) "VAULT_ONCHAIN_COMMITMENT_MISMATCH"
    ok (key, file)

  -- `restored`: the data read back from the destination.
  abbrev pub verified : Text → Text → Result VaultData → Bool × Result Text
  verified commitment envelope (throw e) = (false, throw e)
  verified commitment envelope (ok d) =
      if text_eq (crypto.state_commitment d) commitment
      then (false, ok envelope)
      else (true, throw "VAULT_RESTORE_VERIFY_FAILED")

  abbrev pub write_destination : RestoreDisk → Text → VaultBackupFile → Bool × Result Text
  write_destination disk key file =
      if disk.envelope_written
      then verified file.manifest.state_commitment file.vault_envelope
          (disk.read_back >>= λ raw. crypto.decrypt raw key)
      else (true, throw "VAULT_RESTORE_WRITE_UNCONFIRMED")

  abbrev pub write_unlocked :
      RestoreDisk → Text → VaultBackupFile → Result (Unit {0}) → Bool × Result Text
  write_unlocked disk key file (throw e) = (false, throw e)
  write_unlocked disk key file (ok u) =
      if disk.is_taken_later
      then (false, throw "VAULT_RESTORE_DESTINATION_NOT_EMPTY")
      else write_destination disk key file

  -- The `try`, with `retainLock`, and the envelope that it wrote.
  unfoldable pub write_backup : RestoreDisk → Text → VaultBackupFile → Bool × Result Text
  write_backup disk key file = write_unlocked disk key file disk.lock_write

  abbrev pub finally : Bool → Bool × Result Text → Result Text
  finally released (retain, r) =
      if retain || not released then throw "VAULT_RESTORE_WRITE_UNCONFIRMED" else r

  -- The manifest, the number of matched commitments, and what was written to the destination.
  unfoldable pub restore_backup :
      RestoreDisk → Text → VaultRestoreRequirements → ℕ → Result (VaultBackupManifest × ℕ × Text)
  unfolding check_backup write_backup
  restore_backup disk secret req now = do
    (key, file) ← check_backup disk secret req now
    disk.lock
    written ← finally disk.released (write_backup disk key file)
    ok (file.manifest, length req.commitments, written)
