-- ===== src/Vault/CalmTests.antt =====
-- pipeline/vault-monitor.ts on a snapshot with an active record, and a blocked one whose revocation the
-- hub enforces.
use proofmark.Prelude.{true, false, some, [], ◌∷◌, ◌≡◌, refl, is_safe_integer, str_eq, ok, All}
use proofmark.Prelude.Dict.{insert, lookup}
use proofmark.RevocationObservation.{enforced}
use proofmark.Vault.Data.{VaultState, JobState}
use proofmark.Vault.Reports.{RecordView, JobView, VaultSnapshot, tally}
use proofmark.Vault.Monitor.{
  MonitorLimits, MonitorReport, add, add_all, check_limits, record_findings, job_findings,
  monitor_records, monitor_jobs, monitor_vault, empty_log,
}
use proofmark.Vault.Calm.{IsCalm, IsDelivered, monitor_vault-IsCalm}

abbrev day_limits : MonitorLimits
day_limits = record {
  screening_interval_ms = 1000;
  pending_issuance_ms = 1000;
  review_record_age_ms = 1000;
  revocation_ms = 1000;
  observation_max_age_ms = 1000;
}

abbrev active_view : RecordView
active_view = record {
  id = "r";
  state = VaultState.active;
  created_at = 5;
  retention_until = 4000;
  last_screened_at = some 900;
  source_observed = true;
}

abbrev blocked_view : RecordView
blocked_view = record active_view { id = "b"; state = VaultState.blocked }

abbrev job_view : JobView
job_view = record {
  id = "j";
  record_id = "b";
  state = JobState.confirmed;
  created_at = 6;
  confirmed_at = some 8;
  has_error = true;
  latest_observation = some (enforced, 1);
}

abbrev snapshot : VaultSnapshot
snapshot = record { records = active_view ∷ blocked_view ∷ []; revocations = job_view ∷ [] }

abbrev report : MonitorReport
report = record {
  observed_at = 1500;
  needs_attention = false;
  limits = day_limits;
  total_records = 2;
  total_revocations = 1;
  record_states = ("active", 1) ∷ ("blocked", 1) ∷ [];
  revocation_states = ("confirmed", 1) ∷ [];
  log = empty_log;
  findings_truncated = false;
}

report-eq : monitor_vault (λ id. id) snapshot day_limits 1500 ≡ ok report
unfolding monitor_vault check_limits monitor_records monitor_jobs record_findings job_findings add
    add_all tally insert lookup str_eq is_safe_integer
report-eq = refl

monitor_vault-IsCalm_example :
    All (IsCalm day_limits 1500 snapshot.revocations) snapshot.records
    × All (IsDelivered day_limits 1500) snapshot.revocations
monitor_vault-IsCalm_example =
    monitor_vault-IsCalm (λ id. id) day_limits 1500 snapshot {report = report} report-eq refl
