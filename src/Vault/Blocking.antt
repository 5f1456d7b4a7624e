-- ===== src/Vault/Blocking.antt =====
-- pipeline/vault.ts: a decision to block leaves a revocation to be delivered.
use proofmark.Prelude.{
  ℕ, String, Bool, true, not, ◌||◌, ◌&&◌, some, [], ◌∷◌, ◌≡◌, refl, inl, inr, arith, any, filter,
  str_eq, str_eq_refl, is_some, Bool-cases, refuse, Yields, returns, throws, after, yielded, ltb,
}
use proofmark.Prelude.Text.{Text}
use proofmark.Prelude.Dict.{Dict, lookup, insert, values, lookup-insert_self}
use proofmark.Vault.Data.{
  VaultRecord, VaultData, RevocationJob, RescreenEvent, ReviewEvent, ReviewOutcome, block, Runtime,
  is_blocked, is_rejected, is_confirmed,
}
use proofmark.Vault.Blockers.{timestamp, reference}
use proofmark.Vault.Outbox.{has_open_job, queue_revocation}
use proofmark.Vault.Decisions.{
  record_rescreen, decide_review, unchanged_record, reviewed_record, latest_decision, is_cleared,
}
use proofmark.Vault.Calls.{VaultCall, mutate, operation, rescreens, decides}

-- The call decides to block the record.
pub data Blocks (id : String) : VaultCall → Type 0 where
  by_screening :
      (event : RescreenEvent) (expected : VaultRecord)
      → event.decision ≡ block
      → Blocks id (rescreens id event expected)
  by_review :
      (event : ReviewEvent) (revision : Text)
      → event.outcome ≡ ReviewOutcome.blocked
      → Blocks id (decides id event revision)

-- A value that is written is among the values.
any-insert :
    (p q : RevocationJob → Bool) (k : String) (job : RevocationJob) (m : Dict RevocationJob)
    → p job ≡ true
    → q job ≡ true
    → any p (filter q (values (insert k job m))) ≡ true
unfolding insert values filter
any-insert p q k job [] hp hq = ground arith
any-insert p q k job ((j, w) ∷ m) hp hq = ground (arith, any-insert p q k job m)

-- The record is blocked, and a revocation of it waits.
pub record IsBlocked (id : String) (d : VaultData) : Type 0 where
  pub record_ : VaultRecord
  pub stored : lookup id d.records ≡ some record_
  pub blocked : is_blocked record_.state ≡ true
  pub waits : has_open_job record_.id d ≡ true

module _ (run : Runtime) where
  queue_revocation-IsBlocked :
      (id : String) (r : VaultRecord) (now : ℕ) (d : VaultData)
      → lookup id d.records ≡ some r
      → is_blocked r.state ≡ true
      → Yields (IsBlocked id) (queue_revocation run r now d)
  unfolding queue_revocation
  queue_revocation-IsBlocked id r now d found b = elim (Bool-cases (has_open_job r.id d)) [
    | inl y ↦ rw y (returns (record { record_ = r; stored = found; blocked = b; waits = y }))
    | inr n ↦ elim (Bool-cases (is_some (lookup (run.revoke_id r.id now) d.revocations))) [
      | inl used ↦ rw (n, used) throws
      | inr new ↦
          rw (n, new)
            (returns (record {
              record_ = r;
              stored = found;
              blocked = b;
              waits =
                  any-insert (λ job. not (is_confirmed job)) (λ job. str_eq job.record_id r.id) _ _
                    d.revocations refl (str_eq_refl r.id);
            }))
    ]
  ]

  record_rescreen-IsBlocked :
      (id : String) (event : RescreenEvent) (expected : VaultRecord) (d : VaultData)
      → event.decision ≡ block
      → Yields (IsBlocked id) (record_rescreen run id event expected d)
  unfolding record_rescreen
  record_rescreen-IsBlocked id event expected d b =
      after (unchanged_record run id expected (lookup id d.records)) λ r _.
        after
          (refuse (is_blocked r.state || is_rejected r.state)
            "terminal compliance state requires explicit review; rescreen cannot clear it")
          λ _ _. after (timestamp event.at) λ _ _.
            after
              (refuse (ltb event.at (latest_decision r))
                "rescreen timestamp precedes retained decision")
              λ _ _. rw b (
                queue_revocation-IsBlocked id _ event.at _ (lookup-insert_self id _ d.records) refl)

  decide_review-IsBlocked :
      (id : String) (event : ReviewEvent) (revision : Text) (d : VaultData)
      → event.outcome ≡ ReviewOutcome.blocked
      → Yields (IsBlocked id) (decide_review run id event revision d)
  unfolding decide_review
  decide_review-IsBlocked id event revision d b =
      after (reviewed_record run revision d (lookup id d.records)) λ r _.
        after (timestamp event.at) λ _ _. after (reference event.operator) λ _ _.
          after (reference event.reason) λ _ _.
            after
              (refuse (ltb event.at (latest_decision r))
                "review timestamp precedes retained decision")
              λ _ _.
                after
                  (refuse (is_cleared event.outcome && has_open_job id d)
                    "pending revocation must be reconciled before clearance; clearance does not reissue on chain")
                  λ _ _. rw b (
                    queue_revocation-IsBlocked id _ event.at _ (lookup-insert_self id _ d.records)
                      refl)

  operation-IsBlocked :
      (id : String) (call : VaultCall) (d : VaultData)
      → Blocks id call
      → Yields (IsBlocked id) (operation run call d)
  unfolding operation
  operation-IsBlocked id call d (by_screening event expected b) =
      record_rescreen-IsBlocked id event expected d b
  operation-IsBlocked id call d (by_review event revision b) =
      decide_review-IsBlocked id event revision d b

  -- Where a call that decides to block a record returns, by a rescreening or by a review, the data that
  -- are written have the record, blocked, with a revocation of it that is not confirmed.
  pub mutate-IsBlocked :
      (id : String) (call : VaultCall) (d : VaultData)
      → Blocks id call
      → Yields (IsBlocked id) (mutate run call d)
  unfolding mutate
  mutate-IsBlocked id call d b = after (operation run call d) λ e h.
      let s = yielded (operation-IsBlocked id call d b) h in
      returns
        (record { record_ = s.record_; stored = s.stored; blocked = s.blocked; waits = s.waits })
