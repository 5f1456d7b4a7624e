-- ===== src/Vault/Changes/Outbox.antt =====
-- pipeline/vault.ts: the effects of the operations on revocation jobs.
use proofmark.Prelude.{
  refused, ℕ, String, Bool, true, false, ◌&&◌, ◌≡◌, refl, Option, none, some, List, [], ◌∷◌, arith,
  if◌then◌else◌, ok, require, refuse, Yields, returns, throws, after, yielded,
}
use proofmark.Prelude.Dict.{lookup}
use proofmark.RevocationObservation.{RevocationObservation, normalize_revocation_observation}
use proofmark.Vault.Data.{VaultRecord, VaultData, RevocationJob, Runtime, is_confirmed, Transaction}
use proofmark.Vault.Blockers.{last, timestamp}
use proofmark.Vault.Outbox.{
  set_job, queue_revocation, must_get_job, prepare_revocation, is_other, finish_revocation,
  finished_job, fail_revocation, failed_job, record_revocation_observation, recover_all,
  is_legacy_blocked, unchanged_job, is_target, is_source_target, is_stale_observation, is_backdated,
  is_repeated,
}
use proofmark.Vault.Calls.{VaultCall}
use proofmark.Vault.Effects.{
  Delivers, Queues, Change, keeps, delivers, queue_revocation-Queues, must_get_job-lookup,
}
use proofmark.Vault.Changes.Statement.{Changes}

module _ (run : Runtime) (call : VaultCall) where
  same_open :
      (job job' : RevocationJob)
      → job'.record_id ≡ job.record_id
      → (is_confirmed job ≡ true → is_confirmed job' ≡ true)
      → Delivers job job'
  same_open job job' i k = record { same_record = i; confirmed = k }

  pub prepare_revocation-Change :
      (id : String) (tx : Transaction) (d : VaultData)
      → Changes run call d (prepare_revocation id tx d)
  unfolding prepare_revocation
  prepare_revocation-Change id tx d = after (must_get_job id d) λ job found.
      after (refuse (is_confirmed job) "revocation already confirmed") λ _ open_.
        after
          (refuse (is_other tx job.transaction)
            "revocation already has a different signed transaction")
          λ _ _.
            let unconfirmed = refused _ _ open_ in
            returns (
              delivers id job _ (must_get_job-lookup id d found)
                (same_open job _ refl (λ k. absurd (ground arith))))

  finished_job-Delivers :
      (now : ℕ) (job : RevocationJob) (o : Option Transaction)
      → Yields (Delivers job) (finished_job now job o)
  finished_job-Delivers now job none = throws
  finished_job-Delivers now job (some tx) = returns (same_open job _ refl (λ k. refl))

  pub finish_revocation-Change :
      (id : String) (now : ℕ) (d : VaultData) → Changes run call d (finish_revocation id now d)
  unfolding finish_revocation
  finish_revocation-Change id now d = after (must_get_job id d) λ job found.
      after (finished_job now job job.transaction) λ finished eq. returns (
        delivers id job finished (must_get_job-lookup id d found)
          (yielded (finished_job-Delivers now job job.transaction) eq))

  failed_job-Delivers :
      (error : String) (reverted : Bool) (job : RevocationJob)
      → is_confirmed job ≡ false
      → Delivers job (failed_job error reverted job)
  failed_job-Delivers error true job open_ = same_open job _ refl (λ k. absurd (ground arith))
  failed_job-Delivers error false job open_ = same_open job _ refl (λ k. k)

  pub fail_revocation-Change :
      (id error : String) (reverted : Bool) (d : VaultData)
      → Changes run call d (fail_revocation id error reverted d)
  unfolding fail_revocation
  fail_revocation-Change id error reverted d = after (must_get_job id d) λ job found.
      after (refuse (is_confirmed job) "cannot fail a confirmed revocation") λ _ open_. returns (
        delivers id job _ (must_get_job-lookup id d found)
          (failed_job-Delivers error reverted job (refused _ _ open_)))

  unchanged_job-lookup :
      (id : String) (expected : RevocationJob) (o : Option RevocationJob) {job : RevocationJob}
      → unchanged_job run id expected o ≡ ok job
      → o ≡ some job
  unchanged_job-lookup id expected none h = absurd (ground arith)
  unchanged_job-lookup id expected (some job) h = ground arith

  observed-Change :
      (b : Bool) (id : String) (job job' : RevocationJob) (d : VaultData)
      → lookup id d.revocations ≡ some job
      → Delivers job job'
      → Change run call d (if b then d else set_job id job' d)
  observed-Change true id job job' d found h = keeps
  observed-Change false id job job' d found h = delivers id job job' found h

  pub record_revocation_observation-Change :
      (id : String) (expected : RevocationJob) (input : RevocationObservation) (now : ℕ)
      (d : VaultData)
      → Changes run call d (record_revocation_observation run id expected input now d)
  unfolding record_revocation_observation
  record_revocation_observation-Change id expected input now d =
      after (unchanged_job run id expected (lookup id d.revocations)) λ job found.
        after (normalize_revocation_observation run.is_address input) λ o _.
          after (timestamp now) λ _ _.
            after
              (require (is_target o job.transaction && is_source_target o job.source_target)
                "REVOCATION_OBSERVATION_TARGET_MISMATCH")
              λ _ _.
                after (refuse (is_stale_observation now o job) "STALE_REVOCATION_OBSERVATION")
                  λ _ _.
                    after
                      (refuse (is_backdated now o (last job.observations))
                        "BACKDATED_REVOCATION_OBSERVATION")
                      λ _ _. returns (
                        observed-Change (is_repeated run o (last job.observations)) id job _ d
                          (unchanged_job-lookup id expected _ found)
                          (same_open job _ refl (λ k. k)))

  pub recover_all-Queues :
      (now : ℕ) (rs : List VaultRecord) (d e : VaultData)
      → Queues run d e
      → Yields (Queues run d) (recover_all run now rs e)
  unfolding recover_all
  recover_all-Queues now [] d e h = returns h
  recover_all-Queues now (r ∷ rs) d e h =
      after (if is_legacy_blocked e r then queue_revocation run r now e else ok e)
        λ f eq. recover_all-Queues now rs d f (yielded (step (is_legacy_blocked e r)) eq)
    where
      step : (b : Bool) → Yields (Queues run d) (if b then queue_revocation run r now e else ok e)
      step true = queue_revocation-Queues run r now d e h
      step false = returns h
