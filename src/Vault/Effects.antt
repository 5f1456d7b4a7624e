-- ===== src/Vault/Effects.antt =====
-- pipeline/vault.ts: what a call that returns may have changed, operation by operation.
use proofmark.Prelude.{
  ℕ, ◌≤◌, String, true, false, ◌≡◌, inl, inr, none, some, [], arith, All, ok, Yields, returns,
  throws, Bool-cases, Option-cases,
}
use proofmark.Prelude.Text.{Text, text_eq}
use proofmark.Prelude.Dict.{lookup}
use proofmark.Vault.Data.{
  VaultRecord, VaultData, RetentionControls, DeletionRequest, RevocationJob, Runtime, is_blocked,
  is_confirmed, ReviewEvent, Approval, cleared,
}
use proofmark.Vault.Blockers.{controls, set_controls, or_zero, last, deletion_blockers, must_get}
use proofmark.Vault.Retention.{erase_approved}
use proofmark.Vault.Outbox.{set_job, new_job, has_open_job, queue_revocation, must_get_job}
use proofmark.Vault.Decisions.{set_record, is_erased}
use proofmark.Vault.Calls.{VaultCall, decides, erases, purges}

-- The call clears the review of the record.
pub data Clears (id : String) : VaultCall → Type 0 where
  clears :
      {event : ReviewEvent} {revision : Text}
      → event.outcome ≡ cleared
      → Clears id (decides id event revision)

-- The call erases records at this time.
pub data Removes (now : ℕ) : VaultCall → Type 0 where
  by_erase : {id request_id : String} → Removes now (erases id request_id now)
  by_purge : Removes now (purges now)

-- An approval comes from another operator than the request, and not before it.
abbrev pub IsTwoPerson : DeletionRequest → Type 0
IsTwoPerson q =
    (a : Approval)
    → q.approval ≡ some a
    → (text_eq q.operator a.operator ≡ false) × (q.requested_at ≤ a.at)

-- A record after a decision on it.
pub record Moves (call : VaultCall) (id : String) (d : VaultData) (r s : VaultRecord) : Type 0 where
  pub same_id : s.id ≡ r.id
  pub same_until : s.retention_until ≡ r.retention_until
  pub unblocks :
      is_blocked r.state ≡ true
      → is_blocked s.state ≡ false
      → Clears id call × (has_open_job id d ≡ false)

pub record Manages (c c' : RetentionControls) : Type 0 where
  pub extended : or_zero c.minimum_until ≤ or_zero c'.minimum_until
  pub approved : All IsTwoPerson c.requests → All IsTwoPerson c'.requests

pub record Delivers (job job' : RevocationJob) : Type 0 where
  pub same_record : job'.record_id ≡ job.record_id
  pub confirmed : is_confirmed job ≡ true → is_confirmed job' ≡ true

module _ (run : Runtime) where
  -- New jobs, each for a record without an open one.
  pub data Queues (d : VaultData) : VaultData → Type 0 where
    nothing : Queues d d
    queue :
        {e : VaultData}
        → Queues d e
        → (r : VaultRecord) (now : ℕ) → has_open_job r.id e ≡ false
        → lookup (run.revoke_id r.id now) e.revocations ≡ none
        → Queues d (set_job (run.revoke_id r.id now) (new_job (run.revoke_id r.id now) r now) e)

  -- Records erased one after the other, each without a blocker.
  pub data Erasing (now : ℕ) (d : VaultData) : VaultData → Type 0 where
    nothing : Erasing now d d
    erasing :
        {e : VaultData}
        → Erasing now d e
        → (r : VaultRecord) (q : DeletionRequest) → lookup r.id d.records ≡ some r
        → deletion_blockers run r e now ≡ []
        → last (controls r.id e).requests ≡ some q
        → Erasing now d (erase_approved r q now e)

  pub data Change (call : VaultCall) (d : VaultData) : VaultData → Type 0 where
    keeps : Change call d d
    adds :
        (r : VaultRecord)
        → lookup r.id d.records ≡ none
        → is_erased r.id d ≡ false
        → Change call d (set_record r.id r d)
    moves :
        {e : VaultData} (id : String) (r s : VaultRecord)
        → lookup id d.records ≡ some r
        → Moves call id d r s
        → Queues (set_record id s d) e
        → Change call d e
    manages :
        (id : String) (c : RetentionControls)
        → Manages (controls id d) c
        → Change call d (set_controls id c d)
    delivers :
        (id : String) (job job' : RevocationJob)
        → lookup id d.revocations ≡ some job
        → Delivers job job'
        → Change call d (set_job id job' d)
    recovers : {e : VaultData} → Queues d e → Change call d e
    removes : {e : VaultData} (now : ℕ) → Removes now call → Erasing now d e → Change call d e

  pub queue_revocation-Queues :
      (r : VaultRecord) (now : ℕ) (d e : VaultData)
      → Queues d e
      → Yields (Queues d) (queue_revocation run r now e)
  unfolding queue_revocation
  queue_revocation-Queues r now d e q = elim (Bool-cases (has_open_job r.id e)) [
    | inl y ↦ rw y (returns q)
    | inr n ↦ elim (Option-cases (lookup (run.revoke_id r.id now) e.revocations)) [
      | inl o ↦ rw (n, o) (returns (queue q r now n o))
      | inr (job, o) ↦ rw (n, o) throws
    ]
  ]

pub must_get-lookup :
    (id : String) (d : VaultData) {r : VaultRecord}
    → must_get id d ≡ ok r
    → lookup id d.records ≡ some r
must_get-lookup id d h = ground arith

pub must_get_job-lookup :
    (id : String) (d : VaultData) {job : RevocationJob}
    → must_get_job id d ≡ ok job
    → lookup id d.revocations ≡ some job
must_get_job-lookup id d h = ground arith
