-- ===== src/Vault/Changes.antt =====
-- pipeline/vault.ts: every operation of `EvidenceVault` has one of the effects of `Change`.
mod Statement
mod Retention
mod Outbox
mod Records
use proofmark.Prelude.{
  ℕ, String, Option, none, some, ◌≡◌, refl, sym, ◌>>=◌, ok-injective, Result, ok, throw, Yields,
  returns, weaken, after, yielded, arith, All,
}
use mathlib.Core.Path.{subst}
use proofmark.Prelude.Dict.{lookup, values, values-All, IsUnique}
use proofmark.Vault.Data.{VaultRecord, VaultData, Runtime}
use proofmark.Vault.Blockers.{timestamp}
use proofmark.Vault.Retention.{erase, erase_lookup}
use proofmark.Vault.Outbox.{recover_blocked_revocations}
use proofmark.Vault.Calls.{
  VaultCall, puts, materializes, confirms_source, rescreens, decides, extends, holds, releases,
  requests, approves, erases, purges, prepares, finishes, fails, observes, recovers, operation,
  mutate, counted,
}
use proofmark.Vault.Effects
use proofmark.Vault.Effects.{Change, keeps, Queues, Erasing, Removes, by_erase, by_purge}
use Statement.{Changes, Gives, data_of-Yields}
use Retention.*
use Outbox.*
use Records.*

-- A record stands under its own id.
abbrev pub IsKeyed : VaultData → Type 0
IsKeyed d = (id : String) (r : VaultRecord) → lookup id d.records ≡ some r → r.id ≡ id

stored :
    (id : String) (r : VaultRecord) (d : VaultData)
    → r.id ≡ id
    → lookup id d.records ≡ some r
    → lookup r.id d.records ≡ some r
stored id r d same = subst (λ j. lookup j d.records ≡ some r) (sym same)

stored-All :
    (d : VaultData)
    → IsKeyed d
    → IsUnique d.records
    → All (λ r. lookup r.id d.records ≡ some r) (values d.records)
stored-All d k u = values-All _ d.records u λ id r found. stored id r d (k id r found) found

module _ (run : Runtime) where
  erase-Change :
      (id request_id : String) (now : ℕ) (d : VaultData)
      → IsKeyed d
      → Gives run (erases id request_id now) d (erase run id request_id now d)
  unfolding erase
  erase-Change id request_id now d keyed =
      after (timestamp now) λ _ _. at_found (lookup id d.records) refl
    where
      at_found :
          (o : Option VaultRecord)
          → lookup id d.records ≡ o
          → Gives run (erases id request_id now) d (erase_lookup run id request_id now d o)
      at_found none eq = returns keeps
      at_found (some r) eq =
          erase_found-Change run (erases id request_id now) id request_id now r d (keyed id r eq)
            (stored id r d (keyed id r eq) eq) by_erase

  pub operation-Change :
      (call : VaultCall) (d : VaultData)
      → IsKeyed d
      → IsUnique d.records
      → Changes run call d (operation run call d)
  unfolding operation recover_blocked_revocations
  operation-Change (puts r) d k u = data_of-Yields (put-Change run _ r d)
  operation-Change (materializes id hash) d k u = record_materialization-Change run _ id hash d
  operation-Change (confirms_source id hash o) d k u =
      record_source_confirmation-Change run _ id hash o d
  operation-Change (rescreens id event expected) d k u =
      record_rescreen-Change run _ id event expected d
  operation-Change (decides id event revision) d k u =
      decide_review-Change run _ id event revision d refl
  operation-Change (extends id until operator ref now) d k u =
      extend_retention-Change run _ id until operator ref now d
  operation-Change (holds id hold operator ref now) d k u =
      place_hold-Change run _ id hold operator ref now d
  operation-Change (releases id hold operator ref now) d k u =
      release_hold-Change run _ id hold operator ref now d
  operation-Change (requests id input request_id now) d k u =
      request_deletion-Change run _ id input request_id now d
  operation-Change (approves id request_id operator now) d k u =
      approve_deletion-Change run _ id request_id operator now d
  operation-Change (erases id request_id now) d k u =
      data_of-Yields (erase-Change id request_id now d k)
  operation-Change (purges now) d k u =
      data_of-Yields (purge_expired-Change run _ now d (stored-All d k u) by_purge)
  operation-Change (prepares id tx) d k u = prepare_revocation-Change run _ id tx d
  operation-Change (finishes id now) d k u = finish_revocation-Change run _ id now d
  operation-Change (fails id error reverted) d k u =
      fail_revocation-Change run _ id error reverted d
  operation-Change (observes id expected input now) d k u =
      record_revocation_observation-Change run _ id expected input now d
  operation-Change (recovers now) d k u =
      weaken (λ e q. Change.recovers q)
        (recover_all-Queues run (recovers now) now (values d.records) d d Queues.nothing)

  -- The data that `mutate` writes are those of a change, with the next revision.
  pub mutate-Change :
      (call : VaultCall) (d : VaultData) {e : VaultData}
      → IsKeyed d
      → IsUnique d.records
      → mutate run call d ≡ ok e
      → (f : VaultData) × Change run call d f × (e ≡ counted run f)
  unfolding mutate
  mutate-Change call d {e} k u h = found (operation run call d) (operation-Change call d k u) h
    where
      found :
          (o : Result VaultData)
          → Changes run call d o
          → (o >>= λ f. ok (counted run f)) ≡ ok e
          → (f : VaultData) × Change run call d f × (e ≡ counted run f)
      found (ok f) c h = (f, yielded c refl, sym (ok-injective h))
      found (throw code) c h = absurd (ground arith)
