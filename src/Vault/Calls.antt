-- ===== src/Vault/Calls.antt =====
-- pipeline/vault.ts: the calls of `EvidenceVault` that change its data, the data that they lead to, and
-- `mutate`, which runs each of them: it counts the revision where the operation returns.
use proofmark.Prelude.{ℕ, ◌+◌, String, Bool, [], Result, ok, throw, ◌>>=◌, ◌≡◌}
use proofmark.Prelude.Text.{Text}
use proofmark.Vault.Data.{
  VaultRecord, VaultData, RescreenEvent, ReviewEvent, SourceIssuanceObservation, DeletionInput,
  RevocationJob, Transaction, Runtime,
}
use proofmark.RevocationObservation.{RevocationObservation}
use proofmark.Vault.Retention.{
  extend_retention, place_hold, release_hold, request_deletion, approve_deletion, erase,
  purge_expired,
}
use proofmark.Vault.Outbox.{
  prepare_revocation, finish_revocation, fail_revocation, record_revocation_observation,
  recover_blocked_revocations,
}
use proofmark.Vault.Decisions.{
  put, record_materialization, record_source_confirmation, record_rescreen, decide_review,
}

pub data VaultCall : Type 0 where
  puts : VaultRecord → VaultCall
  materializes : String → Text → VaultCall
  confirms_source : String → Text → SourceIssuanceObservation → VaultCall
  rescreens : String → RescreenEvent → VaultRecord → VaultCall
  decides : String → ReviewEvent → Text → VaultCall
  extends : String → ℕ → Text → Text → ℕ → VaultCall
  holds : String → Text → Text → Text → ℕ → VaultCall
  releases : String → Text → Text → Text → ℕ → VaultCall
  requests : String → DeletionInput → String → ℕ → VaultCall
  approves : String → String → Text → ℕ → VaultCall
  erases : String → String → ℕ → VaultCall
  purges : ℕ → VaultCall
  prepares : String → Transaction → VaultCall
  finishes : String → ℕ → VaultCall
  fails : String → String → Bool → VaultCall
  observes : String → RevocationJob → RevocationObservation → ℕ → VaultCall
  recovers : ℕ → VaultCall

-- The data, where the operation also returns a value.
abbrev pub data_of {ℓ} : {A : Type ℓ} → Result (A × VaultData) → Result VaultData
data_of (ok (a, d)) = ok d
data_of (throw e) = throw e

module _ (run : Runtime) where
  unfoldable pub operation : VaultCall → VaultData → Result VaultData
  operation (puts r) d = data_of (put r d)
  operation (materializes id evidence_hash) d = record_materialization id evidence_hash d
  operation (confirms_source id evidence_hash o) d = record_source_confirmation id evidence_hash o d
  operation (rescreens id event expected) d = record_rescreen run id event expected d
  operation (decides id event revision) d = decide_review run id event revision d
  operation (extends id until operator ref now) d = extend_retention id until operator ref now d
  operation (holds id hold operator ref now) d = place_hold id hold operator ref now d
  operation (releases id hold operator ref now) d = release_hold id hold operator ref now d
  operation (requests id input request_id now) d = request_deletion run id input request_id now d
  operation (approves id request_id operator now) d =
      approve_deletion run id request_id operator now d
  operation (erases id request_id now) d = data_of (erase run id request_id now d)
  operation (purges now) d = data_of (purge_expired run now d)
  operation (prepares id tx) d = prepare_revocation id tx d
  operation (finishes id now) d = finish_revocation id now d
  operation (fails id error mined_revert) d = fail_revocation id error mined_revert d
  operation (observes id expected input now) d =
      record_revocation_observation run id expected input now d
  operation (recovers now) d = recover_blocked_revocations run now d

  abbrev pub counted : VaultData → VaultData
  counted d = record d { revision = d.revision + 1 }

  -- What `mutate` writes, on the data that it loaded.
  unfoldable pub mutate : VaultCall → VaultData → Result VaultData
  mutate call d = do e ← operation call d; ok (counted e)

  -- The data of a vault after any calls; a call that throws leaves the file as it was.
  pub data VaultRun : VaultData → Type 0 where
    empty :
        VaultRun
          (record { revision = 0; records = []; erasures = []; revocations = []; retention = [] })
    called : {d e : VaultData} → VaultRun d → (call : VaultCall) → mutate call d ≡ ok e → VaultRun e
