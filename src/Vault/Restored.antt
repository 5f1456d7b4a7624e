-- ===== src/Vault/Restored.antt =====
-- pipeline/vault.ts: what holds where `restoreBackup` returns.
use proofmark.Prelude.{
  refused, required, ℕ, ◌≤◌, ◌<◌, String, Bool, true, false, ◌||◌, Option, none, some, List, [],
  ◌∷◌, leb, any, all, All, length, is_some, ◌≡◌, refl, sym, ap, ◌∙◌, inl, inr, arith, Bool-cases,
  Result, ok, throw, ◌>>=◌, require, refuse, Yields, after, returns, yielded, >>=-eq-ok,
}
use mathlib.Core.Path.{subst}
use proofmark.Prelude.Text.{Text, text_eq, text_eq_iff, to_lower_case}
use proofmark.Prelude.Dict.{lookup}
use proofmark.Vault.Data.{VaultRecord, VaultData}
use proofmark.Vault.Backup.{
  VaultCommitmentObservation, VaultBackupManifest, VaultBackupFile, VaultRestoreRequirements,
  VaultCrypto, BackupRead, unreadable, malformed, parsed, RestoreDisk, is_over, fits, root_of,
  transaction_of, matches_record, matches_commitment, key_of, is_authentic, meets, found_backup,
  opened, check_backup, verified, write_unlocked, write_backup, finally, restore_backup,
}

-- The record that the chain has a commitment of is in the data, with the same wallet and evidence, and
-- with the same root of claims and transaction where the chain has them.
pub record IsCommitted (d : VaultData) (o : VaultCommitmentObservation) : Type 0 where
  pub kept : VaultRecord
  pub found : lookup o.record_id d.records ≡ some kept
  pub wallet : to_lower_case kept.wallet_address ≡ to_lower_case o.wallet_address
  pub evidence : to_lower_case kept.evidence_hash ≡ to_lower_case o.evidence_hash
  pub root : fits o.claims_root (root_of kept.claims_root) ≡ true
  pub transaction : fits o.source_transaction_hash (transaction_of kept.source_issuance) ≡ true

abbrev pub IsInTime : ℕ → Option ℕ → Type 0
IsInTime now none = Unit
IsInTime now (some d) = now < d

module _ (crypto : VaultCrypto) (disk : RestoreDisk) (secret : Text)
    (req : VaultRestoreRequirements) (now : ℕ) where
  abbrev pub own_key : Text
  own_key = crypto.derive_key secret

  -- The data `d` of the backup `file` pass every check.
  pub record IsAccepted (file : VaultBackupFile) (d : VaultData) : Type 0 where
    pub given : disk.backup ≡ parsed file
    pub free : disk.is_taken ≡ false
    pub sealed : file.authentication ≡ crypto.authenticate own_key file.manifest file.vault_envelope
    pub readable : crypto.decrypt file.vault_envelope own_key ≡ ok d
    pub expected : file.manifest.backup_id ≡ req.expected_backup_id
    pub committed : crypto.state_commitment d ≡ req.expected_state_commitment
    pub recent : req.minimum_revision ≤ d.revision
    pub in_time : IsInTime now file.manifest.delete_by
    pub erased : All (λ id. lookup id d.records ≡ none) req.erased_record_ids
    pub chained : All (IsCommitted d) req.commitments

  matches-IsCommitted :
      (d : VaultData) (o : VaultCommitmentObservation)
      → matches_commitment d o ≡ true
      → IsCommitted d o
  unfolding matches_commitment
  matches-IsCommitted d o h = found (lookup o.record_id d.records) refl (ground arith)
    where
      found :
          (r : Option VaultRecord)
          → lookup o.record_id d.records ≡ r
          → matches_record o r ≡ true
          → IsCommitted d o
      found none e m = absurd (ground arith)
      found (some r) e m = record {
        kept = r;
        found = e;
        wallet =
            (text_eq_iff (to_lower_case r.wallet_address) (to_lower_case o.wallet_address)).0
              (ground arith);
        evidence =
            (text_eq_iff (to_lower_case r.evidence_hash) (to_lower_case o.evidence_hash)).0
              (ground arith);
        root = ground arith;
        transaction = ground arith;
      }

  all-IsCommitted :
      (d : VaultData) (os : List VaultCommitmentObservation)
      → all (matches_commitment d) os ≡ true
      → All (IsCommitted d) os
  all-IsCommitted d [] h = tt
  all-IsCommitted d (o ∷ os) h =
      (matches-IsCommitted d o (ground arith), all-IsCommitted d os (ground arith))

  none-erased :
      (d : VaultData) (ids : List String)
      → any (λ id. is_some (lookup id d.records)) ids ≡ false
      → All (λ id. lookup id d.records ≡ none) ids
  none-erased d [] h = tt
  none-erased d (id ∷ ids) h =
      (gone (lookup id d.records) (ground arith), none-erased d ids (ground arith))
    where
      gone : (o : Option VaultRecord) → is_some o ≡ false → o ≡ none
      gone none e = refl
      gone (some r) e = absurd (ground arith)

  not_over : (o : Option ℕ) → is_over now o ≡ false → IsInTime now o
  not_over none h = tt
  not_over (some d) h = ground arith

  found_backup-eq :
      (b : BackupRead) (file : VaultBackupFile) → found_backup b ≡ ok file → b ≡ parsed file
  found_backup-eq unreadable file h = absurd (ground arith)
  found_backup-eq malformed file h = absurd (ground arith)
  found_backup-eq (parsed f) file h = ground arith

  opened-eq : (r : Result VaultData) (d : VaultData) → opened r ≡ ok d → r ≡ ok d
  opened-eq (ok x) d h = ground arith
  opened-eq (throw e) d h = absurd (ground arith)

  key_of-eq : (key : Text) → key_of crypto secret ≡ ok key → key ≡ own_key
  key_of-eq key h =
      let (u, long, rest) =
        >>=-eq-ok
          (require (leb 32 (length secret)) "EVIDENCE_VAULT_KEY must be at least 32 characters") _
          h in
      ground arith

  accepted :
      (key : Text) (file : VaultBackupFile) (d : VaultData)
      → key ≡ own_key
      → disk.backup ≡ parsed file
      → (disk.same_path || disk.is_taken) ≡ false
      → is_authentic crypto key file ≡ true
      → crypto.decrypt file.vault_envelope key ≡ ok d
      → meets crypto req file.manifest d ≡ true
      → is_over now file.manifest.delete_by ≡ false
      → any (λ id. is_some (lookup id d.records)) req.erased_record_ids ≡ false
      → all (matches_commitment d) req.commitments ≡ true
      → IsAccepted file d
  unfolding is_authentic meets
  accepted key file d keyed given free a r m t e c = record {
    given = given;
    free = ground arith;
    sealed =
        (text_eq_iff file.authentication
            (crypto.authenticate key file.manifest file.vault_envelope)).0
          (ground arith)
        ∙ ap (λ k. crypto.authenticate k file.manifest file.vault_envelope) keyed;
    readable = subst (λ k. crypto.decrypt file.vault_envelope k ≡ ok d) keyed r;
    expected = sym ((text_eq_iff req.expected_backup_id file.manifest.backup_id).0 (ground arith));
    committed =
        (text_eq_iff (crypto.state_commitment d) file.manifest.state_commitment).0 (ground arith)
        ∙ sym (
            (text_eq_iff req.expected_state_commitment file.manifest.state_commitment).0
              (ground arith));
    recent = ground arith;
    in_time = not_over file.manifest.delete_by t;
    erased = none-erased d req.erased_record_ids e;
    chained = all-IsCommitted d req.commitments c;
  }

  -- The checks pass only for an acceptable backup, with the key of the secret.
  abbrev Accepts : Text × VaultBackupFile → Type 0
  Accepts (key, file) = (key ≡ own_key) × ((d : VaultData) × IsAccepted file d)

  check_backup-Accepts : Yields Accepts (check_backup crypto disk secret req now)
  unfolding check_backup
  check_backup-Accepts =
      after (refuse (disk.same_path || disk.is_taken) "VAULT_RESTORE_DESTINATION_NOT_EMPTY")
        λ u free. after (key_of crypto secret) λ key keyed.
          after (found_backup disk.backup) λ file given.
            after (require (is_authentic crypto key file) "VAULT_BACKUP_AUTHENTICATION_FAILED")
              λ v a. after (opened (crypto.decrypt file.vault_envelope key)) λ d r.
                after
                  (require (meets crypto req file.manifest d) "VAULT_RESTORE_REQUIREMENTS_MISMATCH")
                  λ w m.
                    after (refuse (is_over now file.manifest.delete_by) "VAULT_BACKUP_EXPIRED")
                      λ x t.
                        after
                          (refuse (any (λ id. is_some (lookup id d.records)) req.erased_record_ids)
                            "VAULT_ERASURE_FLOOR_VIOLATION")
                          λ y e.
                            after
                              (require (all (matches_commitment d) req.commitments)
                                "VAULT_ONCHAIN_COMMITMENT_MISMATCH")
                              λ z c. returns (
                                key_of-eq key keyed,
                                (
                                  d,
                                  accepted key file d (key_of-eq key keyed)
                                      (found_backup-eq _ file given) (refused _ _ free)
                                      (required _ _ a) (opened-eq _ d r) (required _ _ m)
                                      (refused _ _ t) (refused _ _ e) (required _ _ c),
                                ),
                              )

  -- The envelope of the backup was written where no file was, and what was read back has its commitment.
  pub record IsWritten (file : VaultBackupFile) (written : Text) : Type 0 where
    pub whole : written ≡ file.vault_envelope
    pub still_free : disk.is_taken_later ≡ false
    pub back : VaultData
    pub raw : Text
    pub read : disk.read_back ≡ ok raw
    pub decrypted : crypto.decrypt raw own_key ≡ ok back
    pub same_state : crypto.state_commitment back ≡ file.manifest.state_commitment

  finally-eq :
      (released : Bool) (o : Bool × Result Text) (w : Text)
      → finally crypto released o ≡ ok w
      → (o.0 ≡ false) × (o.1 ≡ ok w)
  finally-eq released (true, r) w h = absurd (ground arith)
  finally-eq true (false, r) w h = (refl, h)
  finally-eq false (false, r) w h = absurd (ground arith)

  verified-IsWritten :
      (file : VaultBackupFile) (w raw : Text) (r : Result VaultData)
      → disk.is_taken_later ≡ false
      → disk.read_back ≡ ok raw
      → crypto.decrypt raw own_key ≡ r
      → (verified crypto file.manifest.state_commitment file.vault_envelope r).1 ≡ ok w
      → IsWritten file w
  verified-IsWritten file w raw (throw e) free read dec h = absurd (ground arith)
  verified-IsWritten file w raw (ok d) free read dec h =
      elim (Bool-cases (text_eq (crypto.state_commitment d) file.manifest.state_commitment)) [
        | inr n ↦ absurd (ground (arith, rw n at h))
        | inl y ↦ record {
          whole = ground (arith, rw y at h);
          still_free = free;
          back = d;
          raw = raw;
          read = read;
          decrypted = dec;
          same_state = (text_eq_iff (crypto.state_commitment d) file.manifest.state_commitment).0 y;
        }
      ]

  read-IsWritten :
      (file : VaultBackupFile) (w : Text) (r : Result Text)
      → disk.is_taken_later ≡ false
      → disk.read_back ≡ r
      → (verified crypto file.manifest.state_commitment file.vault_envelope
          (r >>= λ raw. crypto.decrypt raw own_key)).1
        ≡ ok w
      → IsWritten file w
  read-IsWritten file w (throw e) free read h = absurd (ground arith)
  read-IsWritten file w (ok raw) free read h =
      verified-IsWritten file w raw (crypto.decrypt raw own_key) free read refl h

  write-IsWritten :
      (file : VaultBackupFile) (w : Text) (r : Result (Unit {0}))
      → (write_unlocked crypto disk own_key file r).1 ≡ ok w
      → IsWritten file w
  write-IsWritten file w (throw e) h = absurd (ground arith)
  write-IsWritten file w (ok u) h = elim (Bool-cases disk.is_taken_later) [
    | inl y ↦ absurd (ground (arith, rw y at h))
    | inr n ↦ elim (Bool-cases disk.envelope_written) [
      | inr m ↦ absurd (ground (arith, rw (n, m) at h))
      | inl y ↦ read-IsWritten file w disk.read_back n refl (rw (n, y) at h)
    ]
  ]

  -- Where `restoreBackup` returns, whatever the file system does, the backup was sealed with the key of the
  -- secret for just this manifest and envelope; its data have the state commitment and at least the revision
  -- that were required, none of the erased records, and every record that the chain has a commitment of, as
  -- committed; its deadline was not over; it was written whole to where no file was; and what was read back
  -- has its state commitment.
  pub restore_backup-IsAccepted :
      {m : VaultBackupManifest} {n : ℕ} {w : Text}
      → restore_backup crypto disk secret req now ≡ ok (m, n, w)
      → (file : VaultBackupFile) × (d : VaultData) × IsAccepted file d
        × IsWritten file w
        × (file.manifest ≡ m)
  unfolding restore_backup write_backup
  restore_backup-IsAccepted {m} {n} {w} h =
      let ((key, file), checked, rest) = >>=-eq-ok (check_backup crypto disk secret req now) _ h in
      let (u, locked, more) = >>=-eq-ok disk.lock _ rest in
      let (out, ended, last) =
        >>=-eq-ok (finally crypto disk.released (write_backup crypto disk key file)) _ more in
      let (same, (d, fits_all)) = yielded check_backup-Accepts checked in
      let done = (finally-eq disk.released (write_backup crypto disk key file) out ended).1 in
      let wrote =
        write-IsWritten file out disk.lock_write
          (subst (λ k. (write_unlocked crypto disk k file disk.lock_write).1 ≡ ok out) same done) in
      (file, d, fits_all, subst (IsWritten file) (ground arith) wrote, ground arith)
