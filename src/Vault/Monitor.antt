-- ===== src/Vault/Monitor.antt =====
-- pipeline/vault-monitor.ts: `monitorVault`. A finding names its case by `ethers.id`, a parameter.
use proofmark.Prelude.{
  ℕ, ◌+◌, ◌-◌, ◌*◌, ◌/◌, String, Bool, true, false, not, ◌&&◌, ◌||◌, Option, none, some, List, [],
  ◌∷◌, ◌++◌, ltb, leb, str_eq, if◌then◌else◌, any, length, is_safe_integer, max_safe_integer,
  Result, ok, ◌>>=◌, ◌>>◌, require,
}
use proofmark.Prelude.Dict.{Dict}
use proofmark.RevocationObservation.{
  ObservedState, enforced, superseded, inconsistent, awaiting_hub,
}
use proofmark.Vault.Data.{VaultState, JobState, is_pending, is_in_review, is_blocked}
use proofmark.Vault.Reports.{RecordView, JobView, VaultSnapshot, tally, state_text}

pub record MonitorLimits : Type 0 where
  pub screening_interval_ms : ℕ
  pub pending_issuance_ms : ℕ
  pub review_record_age_ms : ℕ
  pub revocation_ms : ℕ
  pub observation_max_age_ms : ℕ

pub data CaseKind : Type 0 where
  record_case revocation_case : CaseKind

pub record Finding : Type 0 where
  pub case_digest : String
  pub kind : CaseKind
  pub code : String
  pub age_ms : Option ℕ

pub record Log : Type 0 where
  pub count : ℕ
  pub counts : Dict ℕ
  pub findings : List Finding

abbrev pub check : Bool → Result (Unit {0})
check b = require b "INVALID_MONITOR_STATE_OR_LIMITS"

unfoldable pub check_limits : MonitorLimits → Result (Unit {0})
check_limits l = do
  check (is_safe_integer l.screening_interval_ms && ltb 0 l.screening_interval_ms)
  check (is_safe_integer l.pending_issuance_ms && ltb 0 l.pending_issuance_ms)
  check (is_safe_integer l.review_record_age_ms && ltb 0 l.review_record_age_ms)
  check (is_safe_integer l.revocation_ms && ltb 0 l.revocation_ms)
  check (is_safe_integer l.observation_max_age_ms && ltb 0 l.observation_max_age_ms)

-- At most the first hundred findings are listed.
unfoldable pub add : Finding → Log → Log
unfolding tally
add f log = record {
  count = log.count + 1;
  counts = tally f.code log.counts;
  findings = if ltb (length log.findings) 100 then log.findings ++ f ∷ [] else log.findings;
}

unfoldable pub add_all : List Finding → Log → Log
unfolding add
add_all [] log = log
add_all (f ∷ fs) log = add_all fs (add f log)

abbrev pub is_screening_valid : ℕ → ℕ → Option ℕ → Bool
is_screening_valid now created_at none = true
is_screening_valid now created_at (some t) = is_safe_integer t && leb t now && leb created_at t

abbrev pub is_record_valid : ℕ → RecordView → Bool
is_record_valid now r =
    not (str_eq r.id "")
    && is_safe_integer r.created_at
    && leb r.created_at now
    && is_safe_integer r.retention_until
    && leb r.created_at r.retention_until
    && is_screening_valid now r.created_at r.last_screened_at

abbrev pub is_waiting : VaultState → Bool
is_waiting VaultState.active = true
is_waiting VaultState.review = true
is_waiting VaultState.pending = true
is_waiting _ = false

abbrev pub is_screened : RecordView → Bool
is_screened r = is_waiting r.state && (not (is_pending r.state) || r.source_observed)

-- `if (b) add(…)`, in front of the findings that follow.
abbrev pub note : Bool → Finding → List Finding → List Finding
note b f rest = if b then f ∷ rest else rest

abbrev pub is_screening_due : ℕ → ℕ → Option ℕ → Bool
is_screening_due now interval none = true
is_screening_due now interval (some t) = leb interval (now - t)

abbrev pub screening_age : ℕ → ℕ → Option ℕ → ℕ
screening_age now age none = age
screening_age now age (some t) = now - t

abbrev pub is_job_state_valid : ℕ → JobView → Bool
is_job_state_valid now job =
    not (str_eq job.id "") && is_safe_integer job.created_at && leb job.created_at now

abbrev pub is_job_confirmed : JobView → Bool
is_job_confirmed job = elim job.state [ JobState.confirmed ↦ true | _ ↦ false ]

abbrev pub is_confirmation_valid : ℕ → JobView → Option ℕ → Bool
is_confirmation_valid now job none = false
is_confirmation_valid now job (some t) = is_safe_integer t && leb job.created_at t && leb t now

abbrev pub is_observation_valid : ℕ → Option (ObservedState × ℕ) → Bool
is_observation_valid now none = true
is_observation_valid now (some (state, t)) =
    is_safe_integer t && leb t (max_safe_integer / 1000) && leb (t * 1000) now

abbrev pub job_text : JobState → String
job_text JobState.pending = "pending"
job_text JobState.prepared = "prepared"
job_text JobState.confirmed = "confirmed"

abbrev pub observation_code : ObservedState → String
observation_code enforced = "LAST_OBSERVATION_ENFORCED"
observation_code superseded = "LAST_OBSERVATION_SUPERSEDED"
observation_code inconsistent = "LAST_OBSERVATION_INCONSISTENT"
observation_code awaiting_hub = "LAST_OBSERVATION_AWAITING_HUB"

abbrev pub is_enforced : ObservedState → Bool
is_enforced enforced = true
is_enforced _ = false

module _ (digest : String → String) (l : MonitorLimits) (now : ℕ) where
  abbrev pub record_finding : RecordView → String → ℕ → Finding
  record_finding r code age = record {
    case_digest = digest r.id;
    kind = record_case;
    code = code;
    age_ms = some age;
  }

  unfoldable pub record_findings : List JobView → RecordView → List Finding
  record_findings jobs r =
      let age = now - r.created_at in
      note (is_pending r.state && leb l.pending_issuance_ms age)
        (record_finding r
          (if r.source_observed then "HUB_MATERIALIZATION_PENDING" else "ISSUANCE_UNRECONCILED")
          age)
        (note (is_in_review r.state && leb l.review_record_age_ms age)
          (record_finding r "REVIEW_RECORD_AGE" age)
          (note (is_waiting r.state && leb r.retention_until now)
            (record_finding r "RETAINED_RECORD_OUTSIDE_SCREENING" (now - r.retention_until))
            (note
              (not (is_waiting r.state && leb r.retention_until now)
                && is_screened r
                && is_screening_due now l.screening_interval_ms r.last_screened_at)
              (record_finding r "SCREENING_DUE" (screening_age now age r.last_screened_at))
              (note (is_blocked r.state && not (any (λ job. str_eq job.record_id r.id) jobs))
                (record_finding r "BLOCK_WITHOUT_REVOCATION" age) []))))

  abbrev pub job_finding : JobView → String → Option ℕ → Finding
  job_finding job code age = record {
    case_digest = digest job.id;
    kind = revocation_case;
    code = code;
    age_ms = age;
  }

  abbrev pub delivery_findings : JobView → List Finding
  delivery_findings job =
      note (leb l.revocation_ms (now - job.created_at))
        (job_finding job "REVOCATION_OVERDUE" (some (now - job.created_at)))
        (note job.has_error (job_finding job "REVOCATION_ERROR" none) [])

  abbrev pub missing_findings : JobView → Option ℕ → Option (ObservedState × ℕ) → List Finding
  missing_findings job (some t) none =
      note (leb l.observation_max_age_ms (now - t))
        (job_finding job "HUB_OBSERVATION_MISSING" (some (now - t))) []
  missing_findings job _ _ = []

  abbrev pub observation_findings : JobView → Option (ObservedState × ℕ) → List Finding
  observation_findings job none = []
  observation_findings job (some (state, t)) =
      note (not (is_enforced state)) (job_finding job (observation_code state) none) (
        note (leb l.observation_max_age_ms (now - t * 1000))
          (job_finding job "HUB_OBSERVATION_STALE" (some (now - t * 1000))) [])

  unfoldable pub job_findings : JobView → List Finding
  job_findings job =
      (if is_job_confirmed job
        then missing_findings job job.confirmed_at job.latest_observation
        else delivery_findings job)
      ++ observation_findings job job.latest_observation

  -- The two loops, on the states that are counted and the log.
  unfoldable pub monitor_records :
      List JobView → List RecordView → Dict ℕ × Log → Result (Dict ℕ × Log)
  unfolding record_findings add_all
  monitor_records jobs [] s = ok s
  monitor_records jobs (r ∷ rs) (states, log) = do
    check (is_record_valid now r)
    monitor_records jobs rs
        (tally (state_text r.state) states, add_all (record_findings jobs r) log)

  unfoldable pub monitor_jobs : List JobView → Dict ℕ × Log → Result (Dict ℕ × Log)
  unfolding job_findings add_all
  monitor_jobs [] s = ok s
  monitor_jobs (job ∷ jobs) (states, log) = do
    check (is_job_state_valid now job)
    check (not (is_job_confirmed job) || is_confirmation_valid now job job.confirmed_at)
    check (is_observation_valid now job.latest_observation)
    monitor_jobs jobs (tally (job_text job.state) states, add_all (job_findings job) log)

pub record MonitorReport : Type 0 where
  pub observed_at : ℕ
  pub needs_attention : Bool
  pub limits : MonitorLimits
  pub total_records : ℕ
  pub total_revocations : ℕ
  pub record_states : Dict ℕ
  pub revocation_states : Dict ℕ
  pub log : Log
  pub findings_truncated : Bool

abbrev pub empty_log : Log
empty_log = record { count = 0; counts = []; findings = [] }

unfoldable pub monitor_vault :
    (String → String) → VaultSnapshot → MonitorLimits → ℕ → Result MonitorReport
unfolding check_limits monitor_records monitor_jobs
monitor_vault digest snapshot l now = do
  check (is_safe_integer now)
  check_limits l
  (record_states, record_log) ←
      monitor_records digest l now snapshot.revocations snapshot.records ([], empty_log)
  (revocation_states, log) ← monitor_jobs digest l now snapshot.revocations ([], record_log)
  ok (record {
    observed_at = now;
    needs_attention = ltb 0 log.count;
    limits = l;
    total_records = length snapshot.records;
    total_revocations = length snapshot.revocations;
    record_states = record_states;
    revocation_states = revocation_states;
    log = log;
    findings_truncated = ltb 100 log.count;
  })
