-- ===== src/Vault/Calm.antt =====
-- pipeline/vault-monitor.ts: what a report without findings says of the vault.
use proofmark.Prelude.{
  ℕ, ◌+◌, ◌*◌, ◌<◌, String, true, false, not, ◌||◌, ◌≡◌, refl, ◌⊎◌, inl, inr, Option, none, some,
  List, [], ◌∷◌, ◌++◌, arith, if◌then◌else◌, any, length, All, is_safe_integer, ok, Bool-cases,
  Yields, yielded, returns, after, str_eq,
}
use proofmark.Prelude.Dict.{Dict}
use proofmark.RevocationObservation.{ObservedState, enforced}
use proofmark.Vault.Data.{VaultState}
use proofmark.Vault.Reports.{RecordView, JobView, VaultSnapshot}
use proofmark.Vault.Monitor.{
  MonitorLimits, Finding, Log, check, check_limits, add, add_all, is_screening_due,
  is_job_confirmed, record_findings, job_findings, delivery_findings, missing_findings,
  observation_findings, monitor_records, monitor_jobs, MonitorReport, monitor_vault, empty_log,
  is_record_valid, is_job_state_valid, is_confirmation_valid, is_observation_valid,
}

-- The record was screened within the interval.
abbrev pub IsScreened : MonitorLimits → ℕ → RecordView → Type 0
IsScreened l now r = (t : ℕ) × (r.last_screened_at ≡ some t) × (now < t + l.screening_interval_ms)

-- Nothing is overdue for the record, state by state.
pub data IsCalm (l : MonitorLimits) (now : ℕ) (jobs : List JobView) (r : RecordView) : Type 0 where
  pending_calm :
      r.state ≡ VaultState.pending
      → now < r.created_at + l.pending_issuance_ms
      → now < r.retention_until
      → (r.source_observed ≡ false) ⊎ IsScreened l now r
      → IsCalm l now jobs r
  active_calm :
      r.state ≡ VaultState.active
      → now < r.retention_until
      → IsScreened l now r
      → IsCalm l now jobs r
  review_calm :
      r.state ≡ VaultState.review
      → now < r.created_at + l.review_record_age_ms
      → now < r.retention_until
      → IsScreened l now r
      → IsCalm l now jobs r
  blocked_calm :
      r.state ≡ VaultState.blocked
      → any (λ job. str_eq job.record_id r.id) jobs ≡ true
      → IsCalm l now jobs r
  rejected_calm : r.state ≡ VaultState.rejected → IsCalm l now jobs r

-- The last observation of the hub enforces the revocation, and is not too old.
abbrev pub IsObserved : MonitorLimits → ℕ → JobView → Type 0
IsObserved l now job =
    (t : ℕ) × (job.latest_observation ≡ some (enforced, t))
    × (now < t * 1000 + l.observation_max_age_ms)

-- Nothing is overdue for the revocation.
pub data IsDelivered (l : MonitorLimits) (now : ℕ) (job : JobView) : Type 0 where
  open_calm :
      is_job_confirmed job ≡ false
      → now < job.created_at + l.revocation_ms
      → job.has_error ≡ false
      → (job.latest_observation ≡ none) ⊎ IsObserved l now job
      → IsDelivered l now job
  confirmed_calm :
      (t : ℕ)
      → is_job_confirmed job ≡ true
      → job.confirmed_at ≡ some t
      → ((job.latest_observation ≡ none) × (now < t + l.observation_max_age_ms))
        ⊎ IsObserved l now job
      → IsDelivered l now job

add_all-count : (fs : List Finding) (log : Log) → (add_all fs log).count ≡ length fs + log.count
unfolding add_all add
add_all-count [] log = omega arith
add_all-count (f ∷ fs) log = omega (arith, add_all-count fs (add f log))

length-nil : {A : Type 0} (xs : List A) → length xs ≡ 0 → xs ≡ []
length-nil [] h = refl
length-nil (x ∷ xs) h = absurd (omega arith)

not_due-IsScreened :
    (l : MonitorLimits) (now : ℕ) (r : RecordView) (o : Option ℕ)
    → r.last_screened_at ≡ o
    → is_screening_due now l.screening_interval_ms o ≡ false
    → IsScreened l now r
not_due-IsScreened l now r none e h = absurd (ground arith)
not_due-IsScreened l now r (some t) e h = (t, e, ground arith)

module _ (digest : String → String) (l : MonitorLimits) (now : ℕ) where
  record_findings-IsCalm :
      (jobs : List JobView) (r : RecordView) (s : VaultState)
      → r.state ≡ s
      → record_findings digest l now jobs r ≡ []
      → IsCalm l now jobs r
  unfolding record_findings
  record_findings-IsCalm jobs r VaultState.pending e h = elim (Bool-cases r.source_observed) [
    | inl y ↦
        pending_calm e (ground arith) (ground arith)
          (inr (not_due-IsScreened l now r _ refl (ground arith)))
    | inr n ↦ pending_calm e (ground arith) (ground arith) (inl n)
  ]
  record_findings-IsCalm jobs r VaultState.active e h =
      active_calm e (ground arith) (not_due-IsScreened l now r _ refl (ground arith))
  record_findings-IsCalm jobs r VaultState.review e h =
      review_calm e (ground arith) (ground arith) (not_due-IsScreened l now r _ refl (ground arith))
  record_findings-IsCalm jobs r VaultState.blocked e h = blocked_calm e (ground arith)
  record_findings-IsCalm jobs r VaultState.rejected e h = rejected_calm e

  observation_findings-IsObserved :
      (job : JobView) (o : Option (ObservedState × ℕ))
      → job.latest_observation ≡ o
      → observation_findings digest l now job o ≡ []
      → (job.latest_observation ≡ none) ⊎ IsObserved l now job
  observation_findings-IsObserved job none e h = inl e
  observation_findings-IsObserved job (some (s, t)) e h = inr (t, ground arith, ground arith)

  append-nil : (xs ys : List Finding) → xs ++ ys ≡ [] → (xs ≡ []) × (ys ≡ [])
  append-nil [] ys h = (refl, h)
  append-nil (x ∷ xs) ys h = absurd (ground arith)

  delivery-IsDelivered :
      (job : JobView)
      → is_job_confirmed job ≡ false
      → delivery_findings digest l now job ≡ []
      → (job.latest_observation ≡ none) ⊎ IsObserved l now job
      → IsDelivered l now job
  delivery-IsDelivered job n h o = open_calm n (ground arith) (ground arith) o

  missing-IsDelivered :
      (job : JobView) (c : Option ℕ) (o : Option (ObservedState × ℕ))
      → is_job_confirmed job ≡ true
      → job.confirmed_at ≡ c
      → job.latest_observation ≡ o
      → is_confirmation_valid now job c ≡ true
      → missing_findings digest l now job c o ≡ []
      → (job.latest_observation ≡ none) ⊎ IsObserved l now job
      → IsDelivered l now job
  missing-IsDelivered job none o y e f v h q = absurd (ground arith)
  missing-IsDelivered job (some t) none y e f v h q = confirmed_calm t y e (inl (f, ground arith))
  missing-IsDelivered job (some t) (some p) y e f v h (inl n) = absurd (ground arith)
  missing-IsDelivered job (some t) (some p) y e f v h (inr i) = confirmed_calm t y e (inr i)

  job_findings-IsDelivered :
      (job : JobView)
      → (not (is_job_confirmed job) || is_confirmation_valid now job job.confirmed_at) ≡ true
      → job_findings digest l now job ≡ []
      → IsDelivered l now job
  unfolding job_findings
  job_findings-IsDelivered job v h =
      let (first, rest) =
        append-nil
          (if is_job_confirmed job
            then missing_findings digest l now job job.confirmed_at job.latest_observation
            else delivery_findings digest l now job)
          (observation_findings digest l now job job.latest_observation) h in
      let seen = observation_findings-IsObserved job job.latest_observation refl rest in
      elim (Bool-cases (is_job_confirmed job)) [
        | inl y ↦ missing-IsDelivered job _ _ y refl refl (rw y at v) (rw y at first) seen
        | inr n ↦ delivery-IsDelivered job n (rw n at first) seen
      ]

  -- With no finding in the log that a loop returns, it found nothing, and the log before was empty.
  monitor_records-IsCalm :
      (jobs : List JobView) (rs : List RecordView) (states : Dict ℕ) (log : Log) {s : Dict ℕ × Log}
      → monitor_records digest l now jobs rs (states, log) ≡ ok s
      → s.1.count ≡ 0
      → (log.count ≡ 0) × All (IsCalm l now jobs) rs
  unfolding monitor_records
  monitor_records-IsCalm jobs [] states log h z = (ground arith, tt)
  monitor_records-IsCalm jobs (r ∷ rs) states log {s} h z =
      elim (Bool-cases (is_record_valid now r)) [
        | inr n ↦ absurd (ground (arith, rw n at h))
        | inl y ↦
            let rest = monitor_records-IsCalm jobs rs _ _ {s = s} (rw y at h) z in
            let count = add_all-count (record_findings digest l now jobs r) log in
            (
              omega (arith, count, rest.0),
              (
                record_findings-IsCalm jobs r r.state refl
                    (length-nil _ (omega (arith, count, rest.0))),
                rest.1,
              ),
            )
      ]

  monitor_jobs-IsDelivered :
      (jobs : List JobView) (states : Dict ℕ) (log : Log) {s : Dict ℕ × Log}
      → monitor_jobs digest l now jobs (states, log) ≡ ok s
      → s.1.count ≡ 0
      → (log.count ≡ 0) × All (IsDelivered l now) jobs
  unfolding monitor_jobs
  monitor_jobs-IsDelivered [] states log h z = (ground arith, tt)
  monitor_jobs-IsDelivered (job ∷ jobs) states log {s} h z =
      elim (Bool-cases (is_job_state_valid now job)) [
        | inr n ↦ absurd (ground (arith, rw n at h))
        | inl y ↦
            elim (Bool-cases
              (not (is_job_confirmed job) || is_confirmation_valid now job job.confirmed_at)) [
                | inr n ↦ absurd (ground (arith, rw (y, n) at h))
                | inl c ↦ elim (Bool-cases (is_observation_valid now job.latest_observation)) [
                  | inr n ↦ absurd (ground (arith, rw (y, c, n) at h))
                  | inl o ↦
                      let rest = monitor_jobs-IsDelivered jobs _ _ {s = s} (rw (y, c, o) at h) z in
                      let count = add_all-count (job_findings digest l now job) log in
                      (
                        omega (arith, count, rest.0),
                        (
                          job_findings-IsDelivered job c
                              (length-nil _ (omega (arith, count, rest.0))),
                          rest.1,
                        ),
                      )
                ]
              ]
      ]

  report-IsCalm :
      (v : VaultSnapshot)
      → Yields
          (λ report.
            report.needs_attention ≡ false
            → All (IsCalm l now v.revocations) v.records × All (IsDelivered l now) v.revocations)
          (monitor_vault digest v l now)
  unfolding monitor_vault
  report-IsCalm v = after (check (is_safe_integer now)) λ _ _. after (check_limits l) λ _ _.
      after (monitor_records digest l now v.revocations v.records ([], empty_log)) λ s e.
        after (monitor_jobs digest l now v.revocations ([], s.1)) λ t f. returns λ z.
          let delivered = monitor_jobs-IsDelivered v.revocations [] s.1 {s = t} f (ground arith) in
          (
            (monitor_records-IsCalm v.revocations v.records [] empty_log {s = s} e delivered.0).1,
            delivered.1,
          )

  -- A report without findings is returned only where nothing is overdue: every record of the snapshot
  -- is calm in its state (screened and retained in time, a block with its revocation) and every
  -- revocation delivered or still in its time, with the last observation, if one was made, enforced and
  -- fresh.
  pub monitor_vault-IsCalm :
      (v : VaultSnapshot) {report : MonitorReport}
      → monitor_vault digest v l now ≡ ok report
      → report.needs_attention ≡ false
      → All (IsCalm l now v.revocations) v.records × All (IsDelivered l now) v.revocations
  monitor_vault-IsCalm v h n = yielded (report-IsCalm v) h n
