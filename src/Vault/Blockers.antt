-- ===== src/Vault/Blockers.antt =====
-- pipeline/vault.ts: `retentionDeadline`, `safetyBlockers`, `deletionFingerprint` and `deletionBlockers`
-- of `EvidenceVault`. `UNKNOWN_STATE` cannot occur in the type of states.
use Prim.Native.Nat.{max}
use proofmark.Prelude.{
  ℕ, String, Bool, true, false, not, ◌&&◌, ◌||◌, Option, none, some, List, [], ◌∷◌, ltb, leb,
  str_eq, if◌then◌else◌, is_safe_integer, is_some, any, filter, Result, ok, throw, require,
}
use proofmark.Prelude.Text.{Text}
use proofmark.Prelude.Dict.{lookup, insert, values}
use proofmark.Prelude.Sorting.{sort}
use proofmark.RevocationObservation.{is_reference}
use proofmark.Vault.Data.{
  VaultRecord, VaultData, RetentionControls, DeletionRequest, Hold, RevocationJob, Runtime,
  no_controls, is_pending, is_in_review, is_blocked, is_confirmed,
}

abbrev pub timestamp : ℕ → Result (Unit {0})
timestamp value = require (is_safe_integer value) "invalid retention timestamp"

abbrev pub reference : Text → Result (Unit {0})
reference value =
    require (is_reference value)
      "use an opaque operator/policy/case reference, not free-text personal data"

-- `this.mustGet(id)`
abbrev pub found_record : Option VaultRecord → Result VaultRecord
found_record none = throw "unknown vault record"
found_record (some r) = ok r

abbrev pub must_get : String → VaultData → Result VaultRecord
must_get id d = found_record (lookup id d.records)

abbrev pub controls_or_none : Option RetentionControls → RetentionControls
controls_or_none none = no_controls
controls_or_none (some c) = c

-- `this.controls(id)`; the caller writes back what it changes.
abbrev pub controls : String → VaultData → RetentionControls
controls id d = controls_or_none (lookup id d.retention)

abbrev pub set_controls : String → RetentionControls → VaultData → VaultData
set_controls id c d = record d { retention = insert id c d.retention }

abbrev pub or_zero : Option ℕ → ℕ
or_zero none = 0
or_zero (some n) = n

unfoldable pub retention_deadline : VaultRecord → VaultData → ℕ
retention_deadline r d = max r.retention_until (or_zero (controls r.id d).minimum_until)

abbrev pub jobs_of : String → VaultData → List RevocationJob
jobs_of id d = filter (λ job. str_eq job.record_id id) (values d.revocations)

pub data Blocker : Type 0 where
  invalid_retention retention_not_expired record_time_invalid legal_hold : Blocker
  issuance_pending review_pending revocation_pending revocation_not_reconciled : Blocker
  deletion_not_approved deletion_request_stale approval_time_invalid : Blocker

-- `if (b) result.push(code)`
abbrev pub push : Bool → Blocker → List Blocker → List Blocker
push b code rest = if b then code ∷ rest else rest

abbrev pub is_retention_valid : VaultRecord → ℕ → Bool
is_retention_valid r deadline =
    is_safe_integer r.retention_until
    && is_safe_integer deadline
    && is_safe_integer r.created_at
    && leb r.created_at r.retention_until
    && leb r.created_at deadline

abbrev pub is_held : RetentionControls → Bool
is_held c = any (λ (hold : Hold). not (is_some hold.release)) c.holds

-- `safetyBlockers`, in front of `rest`.
unfoldable pub safety_blockers : VaultRecord → VaultData → ℕ → List Blocker → List Blocker
unfolding retention_deadline
safety_blockers r d now rest =
    let deadline = retention_deadline r d in
    let jobs = jobs_of r.id d in
    push (not (is_retention_valid r deadline)) invalid_retention (
      push (is_retention_valid r deadline && ltb now deadline) retention_not_expired (
        push (ltb now r.created_at) record_time_invalid (
          push (is_held (controls r.id d)) legal_hold (
            push (is_pending r.state) issuance_pending (
              push (is_in_review r.state) review_pending (
                push (any (λ job. not (is_confirmed job)) jobs) revocation_pending (
                  push (is_blocked r.state && not (any is_confirmed jobs)) revocation_not_reconciled
                    rest)))))))

abbrev pub is_not_expiry : Blocker → Bool
is_not_expiry retention_not_expired = false
is_not_expiry _ = true

abbrev pub is_empty : List Blocker → Bool
is_empty [] = true
is_empty (b ∷ bs) = false

-- The last request of a record: `requests.at(-1)`.
abbrev pub last {ℓ} : {A : Type ℓ} → List A → Option A
last [] = none
last (x ∷ []) = some x
last (x ∷ y ∷ rest) = last (y ∷ rest)

abbrev pub is_approved : Option DeletionRequest → Bool
is_approved none = false
is_approved (some q) = is_some q.approval

abbrev pub is_mistimed : ℕ → Option DeletionRequest → Bool
is_mistimed now none = false
is_mistimed now (some q) = elim q.approval [
  | none ↦ false
  | some a ↦ ltb now a.at || ltb a.at q.requested_at
]

module _ (run : Runtime) where
  unfoldable pub deletion_fingerprint : VaultRecord → VaultData → String
  deletion_fingerprint r d =
      let c = controls r.id d in
      run.deletion_digest r c.minimum_until c.extensions c.holds
        (sort (λ a b. run.id_after a.id b.id) (jobs_of r.id d))

  abbrev pub is_stale : VaultRecord → VaultData → Option DeletionRequest → Bool
  is_stale r d none = false
  is_stale r d (some q) = not (str_eq q.fingerprint (deletion_fingerprint r d))

  abbrev pub request_blockers : VaultRecord → VaultData → ℕ → Option DeletionRequest → List Blocker
  request_blockers r d now q = push (not (is_approved q)) deletion_not_approved (
      push (is_stale r d q) deletion_request_stale
        (push (is_mistimed now q) approval_time_invalid []))

  unfoldable pub deletion_blockers : VaultRecord → VaultData → ℕ → List Blocker
  unfolding safety_blockers deletion_fingerprint
  deletion_blockers r d now =
      safety_blockers r d now (request_blockers r d now (last (controls r.id d).requests))
