-- ===== src/Vault/Outbox.antt =====
-- pipeline/vault.ts: the revocation jobs of `EvidenceVault`: `queueRevocation`, `prepareRevocation`,
-- `finishRevocation`, `failRevocation`, `recoverBlockedRevocations` and
-- `recordRevocationObservation`.
use proofmark.Prelude.{
  ℕ, ◌-◌, ◌*◌, ◌/◌, String, Bool, true, false, not, ◌&&◌, ◌||◌, Option, none, some, List, [], ◌∷◌,
  ◌++◌, ltb, ◌==◌, str_eq, if◌then◌else◌, is_some, any, Result, ok, throw, ◌>>=◌, ◌>>◌, require,
  refuse,
}
use proofmark.Prelude.Text.{text_eq, to_lower_case}
use proofmark.Prelude.Dict.{lookup, insert, values}
use proofmark.RevocationObservation.{RevocationObservation, normalize_revocation_observation}
use proofmark.Vault.Data.{
  VaultRecord, VaultData, SourceIssuanceObservation, RevocationJob, RecordedObservation,
  SourceTarget, Transaction, JobState, Runtime, is_blocked, is_confirmed,
}
use proofmark.Vault.Blockers.{timestamp, jobs_of, last}

abbrev pub set_job : String → RevocationJob → VaultData → VaultData
set_job id job d = record d { revocations = insert id job d.revocations }

-- `this.mustGetJob(id)`
abbrev pub found_job : Option RevocationJob → Result RevocationJob
found_job none = throw "unknown revocation job"
found_job (some job) = ok job

abbrev pub must_get_job : String → VaultData → Result RevocationJob
must_get_job id d = found_job (lookup id d.revocations)

abbrev pub target_of : Option SourceIssuanceObservation → Option SourceTarget
target_of none = none
target_of (some s) = some (record { chain_id = s.chain_id; source = s.source })

abbrev pub new_job : String → VaultRecord → ℕ → RevocationJob
new_job id r now = record {
  id = id;
  record_id = r.id;
  wallet_address = r.wallet_address;
  created_at = now;
  state = JobState.pending;
  source_target = target_of r.source_issuance;
  transaction = none;
  confirmed_at = none;
  last_error = none;
  observations = [];
}

abbrev pub has_open_job : String → VaultData → Bool
has_open_job id d = any (λ job. not (is_confirmed job)) (jobs_of id d)

-- `job.transaction && job.transaction.hash !== transaction.hash`
abbrev pub is_other : Transaction → Option Transaction → Bool
is_other tx none = false
is_other tx (some old) = not (text_eq old.hash tx.hash)

unfoldable pub prepare_revocation : String → Transaction → VaultData → Result VaultData
prepare_revocation id tx d = do
  job ← must_get_job id d
  refuse (is_confirmed job) "revocation already confirmed"
  refuse (is_other tx job.transaction) "revocation already has a different signed transaction"
  ok (set_job id (record job { transaction = some tx; state = JobState.prepared }) d)

-- The job with its transaction, of which only the hash is kept.
abbrev pub finished_job : ℕ → RevocationJob → Option Transaction → Result RevocationJob
finished_job now job none = throw "revocation has no prepared transaction"
finished_job now job (some tx) = ok (record job {
  state = JobState.confirmed;
  confirmed_at = some now;
  last_error = none;
  transaction = some (record tx { raw = [] });
})

unfoldable pub finish_revocation : String → ℕ → VaultData → Result VaultData
finish_revocation id now d = do
  job ← must_get_job id d
  finished ← finished_job now job job.transaction
  ok (set_job id finished d)

-- `error.slice(0, 200)`
unfoldable pub slice : ℕ → String → String
slice n String.[] = String.[]
slice n (String.◌∷◌ c s) =
    let rest = slice (n - 1) s in if n == 0 then String.[] else String.◌∷◌ c rest

-- A mined revert permits a new signature.
abbrev pub failed_job : String → Bool → RevocationJob → RevocationJob
failed_job error true job = record job {
  last_error = some (slice 200 error);
  state = JobState.pending;
  transaction = none;
}
failed_job error false job = record job { last_error = some (slice 200 error) }

unfoldable pub fail_revocation : String → String → Bool → VaultData → Result VaultData
fail_revocation id error mined_revert d = do
  job ← must_get_job id d
  refuse (is_confirmed job) "cannot fail a confirmed revocation"
  ok (set_job id (failed_job error mined_revert job) d)

-- `listPendingRevocations` and `listLegacyBlocked`
unfoldable pub is_legacy_blocked : VaultData → VaultRecord → Bool
is_legacy_blocked d r =
    is_blocked r.state && not (any (λ job. str_eq job.record_id r.id) (values d.revocations))

-- The transaction of the job is the one that was observed.
abbrev pub is_target : RevocationObservation → Option Transaction → Bool
is_target o none = false
is_target o (some tx) =
    tx.chain_id == 11155111
    && text_eq (to_lower_case tx.hash) o.source.transaction_hash
    && text_eq (to_lower_case tx.source) o.config.source

abbrev pub is_source_target : RevocationObservation → Option SourceTarget → Bool
is_source_target o none = true
is_source_target o (some t) =
    t.chain_id == 11155111 && text_eq (to_lower_case t.source) o.config.source

abbrev pub is_stale_observation : ℕ → RevocationObservation → RevocationJob → Bool
is_stale_observation recorded_at o job =
    ltb recorded_at (o.observed_at * 1000)
    || ltb 300000 (recorded_at - o.observed_at * 1000)
    || ltb recorded_at job.created_at
    || ltb o.observed_at (job.created_at / 1000)

abbrev pub is_backdated : ℕ → RevocationObservation → Option RecordedObservation → Bool
is_backdated recorded_at o none = false
is_backdated recorded_at o (some old) =
    ltb o.observed_at old.observation.observed_at || ltb recorded_at old.recorded_at

module _ (run : Runtime) where
  -- `expected` was read before the observation was made.
  abbrev pub unchanged_job : String → RevocationJob → Option RevocationJob → Result RevocationJob
  unchanged_job id expected none = throw "REVOCATION_JOB_CHANGED"
  unchanged_job id expected (some job) = do
    require (str_eq expected.id id && run.same_job job expected) "REVOCATION_JOB_CHANGED"
    ok job

  abbrev pub is_repeated : RevocationObservation → Option RecordedObservation → Bool
  is_repeated o none = false
  is_repeated o (some old) = run.same_observation old.observation o

  unfoldable pub record_revocation_observation :
      String → RevocationJob → RevocationObservation → ℕ → VaultData → Result VaultData
  unfolding normalize_revocation_observation
  record_revocation_observation id expected input recorded_at d = do
    job ← unchanged_job id expected (lookup id d.revocations)
    o ← normalize_revocation_observation run.is_address input
    timestamp recorded_at
    require (is_target o job.transaction && is_source_target o job.source_target)
        "REVOCATION_OBSERVATION_TARGET_MISMATCH"
    refuse (is_stale_observation recorded_at o job) "STALE_REVOCATION_OBSERVATION"
    refuse (is_backdated recorded_at o (last job.observations)) "BACKDATED_REVOCATION_OBSERVATION"
    ok (
        if is_repeated o (last job.observations)
        then d
        else set_job id
            (record job {
              observations =
                  job.observations ++ record { recorded_at = recorded_at; observation = o } ∷ [];
            })
            d)

  unfoldable pub queue_revocation : VaultRecord → ℕ → VaultData → Result VaultData
  queue_revocation r now d =
      let id = run.revoke_id r.id now in
      if has_open_job r.id d
      then ok d
      else if is_some (lookup id d.revocations)
      then throw "revocation event ID already used"
      else ok (set_job id (new_job id r now) d)

  unfoldable pub recover_all : ℕ → List VaultRecord → VaultData → Result VaultData
  unfolding queue_revocation is_legacy_blocked
  recover_all now [] d = ok d
  recover_all now (r ∷ rs) d = do
    e ← if is_legacy_blocked d r then queue_revocation r now d else ok d
    recover_all now rs e

  unfoldable pub recover_blocked_revocations : ℕ → VaultData → Result VaultData
  unfolding recover_all
  recover_blocked_revocations now d = recover_all now (values d.records) d
