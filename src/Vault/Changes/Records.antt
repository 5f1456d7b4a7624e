-- ===== src/Vault/Changes/Records.antt =====
-- pipeline/vault.ts: the effects of the decisions on a record.
use proofmark.Prelude.{
  refused, ℕ, String, Bool, true, false, ◌&&◌, ◌||◌, ◌≡◌, refl, Option, none, some, [], ltb, leb,
  arith, if◌then◌else◌, ok, require, refuse, Yields, returns, after, weaken, str_eq, ◌==◌,
  is_safe_integer,
}
use proofmark.Prelude.Text.{Text, text_eq}
use proofmark.Roster.Proof.{is_hex_word}
use proofmark.Prelude.Dict.{lookup}
use proofmark.Vault.Data.{
  VaultRecord, VaultData, Runtime, is_blocked, ReviewEvent, RescreenEvent, is_rejected,
  ReviewOutcome, cleared, SourceIssuanceObservation,
}
use proofmark.Vault.Blockers.{must_get, timestamp, reference}
use proofmark.Vault.Outbox.{has_open_job, queue_revocation}
use proofmark.Vault.Decisions.{
  set_record, is_erased, put, put_new, fits_policy, record_materialization,
  record_source_confirmation, confirm_source, normalized, is_hex_address, record_rescreen,
  decide_review, unchanged_record, reviewed_record, latest_decision, screened, reviewed, is_block,
  is_cleared, outcome_state,
}
use proofmark.Vault.Calls.{VaultCall, decides}
use proofmark.Vault.Effects.{
  clears, Moves, Queues, keeps, adds, moves, queue_revocation-Queues, must_get-lookup,
}
use proofmark.Vault.Changes.Statement.{Changes, Gives}

module _ (run : Runtime) (call : VaultCall) where
  put_new-Change :
      (r : VaultRecord) (d : VaultData) (o : Option VaultRecord)
      → lookup r.id d.records ≡ o
      → is_erased r.id d ≡ false
      → Gives run call d (put_new r d o)
  put_new-Change r d none h n = returns (adds r h n)
  put_new-Change r d (some old) h n =
      after
        (require (text_eq old.evidence_hash r.evidence_hash)
          "vault record conflicts with existing evidence")
        λ _ _. returns keeps

  pub put-Change : (r : VaultRecord) (d : VaultData) → Gives run call d (put r d)
  unfolding put
  put-Change r d =
      after
        (refuse
          (str_eq r.id "" || text_eq r.wallet_address [] || str_eq r.screening_subject.full_name "")
          "incomplete vault record")
        λ _ _.
          after (refuse (is_erased r.id d) "erased vault record cannot be restored by put") λ _ n.
            after (timestamp r.created_at) λ _ _. after (timestamp r.retention_until) λ _ _.
              after (refuse (ltb r.retention_until r.created_at) "retention precedes creation")
                λ _ _.
                  after
                    (require (fits_policy r r.retention_policy)
                      "vault record does not match its retention policy snapshot")
                    λ _ _. put_new-Change r d (lookup r.id d.records) refl (refused _ _ n)

  kept-state :
      (id : String) (d : VaultData) (r s : VaultRecord)
      → s.id ≡ r.id
      → s.retention_until ≡ r.retention_until
      → (is_blocked r.state ≡ true → is_blocked s.state ≡ true)
      → Moves call id d r s
  kept-state id d r s i u k = record {
    same_id = i;
    same_until = u;
    unblocks = λ b n. absurd (ground (arith, k b));
  }

  pub record_materialization-Change :
      (id : String) (hash : Text) (d : VaultData)
      → Changes run call d (record_materialization id hash d)
  unfolding record_materialization
  record_materialization-Change id hash d = after (must_get id d) λ r found.
      after
        (require (text_eq r.evidence_hash hash)
          "materialization evidence does not match retained record")
        λ _ _. returns (
          moves id r _ (must_get-lookup id d found)
            (kept-state id d r _ refl refl (λ b. ground arith)) Queues.nothing)

  confirm_source-Change :
      (id : String) (r : VaultRecord) (next : SourceIssuanceObservation)
      (o : Option SourceIssuanceObservation) (d : VaultData)
      → lookup id d.records ≡ some r
      → Changes run call d (confirm_source id r next o d)
  confirm_source-Change id r next none d found =
      returns (moves id r _ found (kept-state id d r _ refl refl (λ b. b)) Queues.nothing)
  confirm_source-Change id r next (some old) d found =
      after
        (require
          (text_eq old.transaction_hash next.transaction_hash
            && old.chain_id == next.chain_id
            && text_eq old.source next.source)
          "source confirmation conflicts with retained issuance")
        λ _ _. returns keeps

  pub record_source_confirmation-Change :
      (id : String) (hash : Text) (o : SourceIssuanceObservation) (d : VaultData)
      → Changes run call d (record_source_confirmation id hash o d)
  unfolding record_source_confirmation
  record_source_confirmation-Change id hash o d = after (must_get id d) λ r found.
      after
        (require (text_eq r.evidence_hash hash)
          "source confirmation evidence does not match retained record")
        λ _ _. after (timestamp o.observed_at) λ _ _.
          after
            (require
              (is_safe_integer o.chain_id
                && ltb 0 o.chain_id
                && is_hex_word o.transaction_hash
                && is_hex_address o.source
                && leb r.created_at o.observed_at)
              "invalid source confirmation observation")
            λ _ _.
              confirm_source-Change id r (normalized o) r.source_issuance d
                (must_get-lookup id d found)

  queued :
      (b : Bool) (r : VaultRecord) (now : ℕ) (d : VaultData)
      → Yields (Queues run d) (if b then queue_revocation run r now d else ok d)
  queued true r now d = queue_revocation-Queues run r now d d Queues.nothing
  queued false r now d = returns Queues.nothing

  unqueued :
      (b : Bool) (r : VaultRecord) (now : ℕ) (d : VaultData)
      → Yields (Queues run d) (if b then ok d else queue_revocation run r now d)
  unqueued true r now d = returns Queues.nothing
  unqueued false r now d = queue_revocation-Queues run r now d d Queues.nothing

  unchanged_record-lookup :
      (id : String) (expected : VaultRecord) (o : Option VaultRecord) {r : VaultRecord}
      → unchanged_record run id expected o ≡ ok r
      → o ≡ some r
  unchanged_record-lookup id expected none h = absurd (ground arith)
  unchanged_record-lookup id expected (some r) h = ground arith

  pub record_rescreen-Change :
      (id : String) (event : RescreenEvent) (expected : VaultRecord) (d : VaultData)
      → Changes run call d (record_rescreen run id event expected d)
  unfolding record_rescreen
  record_rescreen-Change id event expected d =
      after (unchanged_record run id expected (lookup id d.records)) λ r found.
        after
          (refuse (is_blocked r.state || is_rejected r.state)
            "terminal compliance state requires explicit review; rescreen cannot clear it")
          λ _ live. after (timestamp event.at) λ _ _.
            after
              (refuse (ltb event.at (latest_decision r))
                "rescreen timestamp precedes retained decision")
              λ _ _.
                let open_ = refused _ _ live in
                weaken
                  (λ e q.
                    moves id r _ (unchanged_record-lookup id expected _ found)
                      (kept-state id d r _ refl refl (λ b. absurd (ground arith))) q)
                  (queued (is_block event.decision) (screened event r) event.at
                    (set_record id (screened event r) d))

  reviewed_record-lookup :
      (revision : Text) (d : VaultData) (o : Option VaultRecord) {r : VaultRecord}
      → reviewed_record run revision d o ≡ ok r
      → o ≡ some r
  reviewed_record-lookup revision d none h = absurd (ground arith)
  reviewed_record-lookup revision d (some r) h = ground arith

  -- A review lets a record pass only where no job is open.
  cleared-Moves :
      (id : String) (event : ReviewEvent) (revision : Text) (d : VaultData) (r : VaultRecord)
      → call ≡ decides id event revision
      → (is_cleared event.outcome && has_open_job id d) ≡ false
      → Moves call id d r (reviewed event revision r)
  cleared-Moves id event revision d r c free = record {
    same_id = refl;
    same_until = refl;
    unblocks =
        λ b n. (rw c (clears (passes event.outcome n)), ground (arith, passes event.outcome n));
  }
    where
      passes : (o : ReviewOutcome) → is_blocked (outcome_state o r) ≡ false → o ≡ cleared
      passes cleared n = refl
      passes ReviewOutcome.blocked n = absurd (ground arith)

  pub decide_review-Change :
      (id : String) (event : ReviewEvent) (revision : Text) (d : VaultData)
      → call ≡ decides id event revision
      → Changes run call d (decide_review run id event revision d)
  unfolding decide_review
  decide_review-Change id event revision d c =
      after (reviewed_record run revision d (lookup id d.records)) λ r found.
        after (timestamp event.at) λ _ _. after (reference event.operator) λ _ _.
          after (reference event.reason) λ _ _.
            after
              (refuse (ltb event.at (latest_decision r))
                "review timestamp precedes retained decision")
              λ _ _.
                after
                  (refuse (is_cleared event.outcome && has_open_job id d)
                    "pending revocation must be reconciled before clearance; clearance does not reissue on chain")
                  λ _ free.
                    weaken
                      (λ e q.
                        moves id r _ (reviewed_record-lookup revision d _ found)
                          (cleared-Moves id event revision d r c (refused _ _ free)) q)
                      (unqueued (is_cleared event.outcome) (reviewed event revision r) event.at
                        (set_record id (reviewed event revision r) d))
