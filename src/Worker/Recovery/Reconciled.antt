-- ===== src/Worker/Recovery/Reconciled.antt =====
-- worker/recovery.ts: what is known when `reconcileHubRecovery` ends without an error.
use proofmark.Prelude.{
  ℕ, suc, ◌+◌, ◌-◌, ◌*◌, ◌≤◌, Bool, true, false, ◌&&◌, ◌≡◌, refl, ◌⊎◌, inl, inr, Option, none, some,
  List, [], ◌∷◌, leb, ◌==◌, if◌then◌else◌, truthy, is_safe_integer, length, filter, All, Result, ok,
  throw, arith, is_some, Bool-cases,
}
use mathlib.Core.List.{Perm}
use mathlib.Core.Path.{subst}
use proofmark.Prelude.Dict.{values}
use proofmark.Prelude.Sorting.{sort, sort-perm}
use proofmark.Worker.Job.{Job, StoreData, WorkerScope, RelayEnvelope, SkipObservation}
use proofmark.Worker.Store.{keep, guarded, assert_hub_ready, hold_hub}
use proofmark.Worker.Recovery.{
  latest, pending, HubReader, HubBlock, Audit, passes, fails, holds, ◌>>◌, ask, or_fail, lower,
  is_skipped, Terminal, collect, by_nonce, check_nonces, is_block, text_of, check_terminals,
  is_deep, deep_observation, check_skipped, check_skips, is_next, check_counts, same_evidence,
  audit_history, audit_scope, ended, reconcile_hub_recovery,
}
use proofmark.Worker.Recovery.Canonical.{
  Grants, granted, failed, held, next, more, grant, checked, surely, ask-passes, IsCanonical,
  IsContiguous, check_nonces-IsContiguous, check_terminals-IsCanonical, IsCollected,
  collect-IsCollected,
}

-- The hub proved that the query of a skipped job was processed at the observed block.
pub record IsWitnessed (hub : HubReader) (head confirmations : ℕ) (job : Job) : Type 0 where
  pub observation : SkipObservation
  pub recorded : job.skip_observation ≡ some observation
  pub queried : truthy job.query_id ≡ true
  pub deep :
      (observation.block_number ≤ head) × (confirmations ≤ head - observation.block_number + 1)
  pub moment : ℕ
  pub before : Option HubBlock
  pub stood : hub.block moment observation.block_number ≡ ok before
  pub on_chain : is_block before observation.block_number observation.block_hash ≡ true
  pub processed : hub.processed moment (text_of job.query_id) observation.block_number ≡ ok true
  pub after : Option HubBlock
  pub stands : hub.block (suc moment) observation.block_number ≡ ok after
  pub still_on_chain : is_block after observation.block_number observation.block_hash ≡ true

is_deep-le :
    (head confirmations : ℕ) (o : SkipObservation)
    → is_deep head confirmations o ≡ true
    → (o.block_number ≤ head) × (confirmations ≤ head - o.block_number + 1)
unfolding is_deep
is_deep-le head confirmations o h = ground arith

deep_observation-passes :
    (hub : HubReader) (head confirmations : ℕ) (found : Option SkipObservation)
    {o : SkipObservation}
    → deep_observation hub head confirmations found ≡ passes o
    → (found ≡ some o) × (is_deep head confirmations o ≡ true)
deep_observation-passes hub head confirmations none h = absurd (ground arith)
deep_observation-passes hub head confirmations (some p) {o} h =
    elim (Bool-cases (is_deep head confirmations p)) [
      | inl e ↦
          let same : p ≡ o = ground (arith, rw e at h) in
          (ground arith, subst (λ q. is_deep head confirmations q ≡ true) same e)
      | inr e ↦ absurd (ground (arith, rw e at h))
    ]

check_skipped-IsWitnessed :
    (hub : HubReader) (head confirmations moment : ℕ) (job : Job)
    → Grants
        (λ _. IsWitnessed hub head confirmations job)
        (check_skipped hub head confirmations moment job)
unfolding check_skipped
check_skipped-IsWitnessed hub head confirmations moment job =
    checked (is_some job.skip_observation && truthy job.query_id)
      "HUB_SKIP_OBSERVATION_NOT_CANONICAL"
      λ named. next (deep_observation hub head confirmations job.skip_observation) λ o deep.
        next (ask (hub.block moment o.block_number)) λ before stood.
          checked (is_block before o.block_number o.block_hash) "HUB_SKIP_OBSERVATION_NOT_CANONICAL"
            λ on_chain.
              next (ask (hub.processed moment (text_of job.query_id) o.block_number))
                λ processed asked.
                  checked processed "HUB_SKIP_OBSERVATION_NOT_CANONICAL" λ yes_processed.
                    next (ask (hub.block (suc moment) o.block_number)) λ after stands.
                      surely (is_block after o.block_number o.block_hash)
                        "HUB_SKIP_OBSERVATION_NOT_CANONICAL"
                        λ still_on_chain.
                          let proved =
                            deep_observation-passes hub head confirmations job.skip_observation
                              deep in
                          record {
                            observation = o;
                            recorded = proved.0;
                            queried = ground arith;
                            deep = is_deep-le head confirmations o proved.1;
                            moment = moment;
                            before = before;
                            stood = ask-passes _ stood;
                            on_chain = on_chain;
                            processed = rw yes_processed at (ask-passes _ asked);
                            after = after;
                            stands = ask-passes _ stands;
                            still_on_chain = still_on_chain;
                          }

check_skips-IsWitnessed :
    (hub : HubReader) (head confirmations moment : ℕ) (jobs : List Job)
    → Grants
        (λ _. All (IsWitnessed hub head confirmations) jobs)
        (check_skips hub head confirmations moment jobs)
unfolding check_skips
check_skips-IsWitnessed hub head confirmations moment [] = granted tt
check_skips-IsWitnessed hub head confirmations moment (job ∷ jobs) =
    next (check_skipped hub head confirmations moment job) λ _ own.
      more
        (λ _ rest. (grant (check_skipped-IsWitnessed hub head confirmations moment job) own, rest))
        (check_skips-IsWitnessed hub head confirmations (moment + 2) jobs)

-- The counts of the signer fit the history and the open relay, unless the evidence has changed.
abbrev pub CountsFit : Option RelayEnvelope → ℕ → ℕ → ℕ → Type 0
CountsFit none expected mined queued = (mined ≡ expected) × (queued ≡ expected)
CountsFit (some relay) expected mined queued =
    (relay.nonce ≡ expected)
    × ((mined ≡ expected) ⊎ (mined ≡ suc expected))
    × ((queued ≡ expected) ⊎ (queued ≡ suc expected))

check_counts-CountsFit :
    (relay : Option RelayEnvelope) (expected mined queued : ℕ)
    → Grants (λ _. CountsFit relay expected mined queued) (check_counts relay expected mined queued)
unfolding check_counts
check_counts-CountsFit none expected mined queued =
    surely (mined == expected && queued == expected) "HUB_SIGNER_NONCE_DIVERGED" λ h. ground arith
check_counts-CountsFit (some relay) expected mined queued =
    surely (relay.nonce == expected && is_next expected mined && is_next expected queued)
      "HUB_SIGNER_NONCE_DIVERGED" λ h. ground arith

-- The signer's history is the jobs' and the hub's: each terminal job has one record, the records have
-- the nonces from the baseline on without a gap, the hub proved each of them and each skip, and the
-- counts of the signer fit.
pub record IsReconciled (hub : HubReader) (confirmations : ℕ) (snapshot later : StoreData)
    (scope : WorkerScope) (baseline : ℕ) : Type 0 where
  pub found : List Terminal
  pub collected : IsCollected (values snapshot.jobs) found
  pub ordered : List Terminal
  pub same_records : Perm ordered found
  pub contiguous : IsContiguous baseline ordered
  pub head : ℕ
  pub headed : hub.block_number 0 ≡ ok head
  pub canonical :
      All (IsCanonical hub (lower scope.signer) (lower scope.asc) head confirmations) ordered
  pub skips :
      All
        (IsWitnessed hub head confirmations)
        (filter (λ j. is_skipped j.state) (values snapshot.jobs))
  pub moment : ℕ
  pub mined : ℕ
  pub counted : hub.transaction_count moment (lower scope.signer) latest ≡ ok mined
  pub queued : ℕ
  pub waiting : hub.transaction_count moment (lower scope.signer) pending ≡ ok queued
  pub fits :
      same_evidence later snapshot ≡ true
      → CountsFit snapshot.relay (baseline + length ordered) mined queued

audit_history-IsReconciled :
    (hub : HubReader) (confirmations : ℕ) (snapshot later : StoreData) (scope : WorkerScope)
    (baseline : ℕ)
    → Grants
        (λ _. IsReconciled hub confirmations snapshot later scope baseline)
        (audit_history hub confirmations snapshot later scope baseline)
unfolding audit_history
audit_history-IsReconciled hub confirmations snapshot later scope baseline =
    let jobs = values snapshot.jobs in
    let signer = lower scope.signer in
    next (collect jobs) λ found all_found.
      let terminal = sort by_nonce found in
      let moment = 2 * length terminal in
      next (check_nonces baseline terminal) λ _ nonces.
        next (ask (hub.block_number 0)) λ head headed.
          next (or_fail (is_safe_integer head) "HUB_RECOVERY_OBSERVATION_UNAVAILABLE") λ _ _.
            next (check_terminals hub signer (lower scope.asc) head confirmations 0 terminal)
              λ _ proved.
                next
                  (check_skips hub head confirmations moment
                    (filter (λ j. is_skipped j.state) jobs))
                  λ _ skips.
                    next (ask (hub.transaction_count moment signer latest)) λ mined counted.
                      next (ask (hub.transaction_count moment signer pending)) λ queued waiting.
                        next
                          (or_fail
                            (is_safe_integer mined && is_safe_integer queued && leb mined queued)
                            "HUB_RECOVERY_OBSERVATION_UNAVAILABLE")
                          λ _ _.
                            more
                              (λ _ fits. record {
                                found = found;
                                collected = grant (collect-IsCollected jobs) all_found;
                                ordered = terminal;
                                same_records = sort-perm by_nonce found;
                                contiguous =
                                    grant (check_nonces-IsContiguous baseline terminal) nonces;
                                head = head;
                                headed = ask-passes _ headed;
                                canonical =
                                    grant
                                      (check_terminals-IsCanonical hub signer _ head confirmations 0
                                        terminal)
                                      proved;
                                skips =
                                    grant (check_skips-IsWitnessed hub head confirmations moment _)
                                      skips;
                                moment = moment;
                                mined = mined;
                                counted = ask-passes _ counted;
                                queued = queued;
                                waiting = ask-passes _ waiting;
                                fits = fits;
                              })
                              (fit_unless_changed (same_evidence later snapshot) snapshot.relay _
                                mined queued)
  where
    fit_unless_changed :
        (same : Bool) (relay : Option RelayEnvelope) (expected mined queued : ℕ)
        → Grants
            (λ _. same ≡ true → CountsFit relay expected mined queued)
            (if same then check_counts relay expected mined queued else passes tt)
    fit_unless_changed true relay expected mined queued =
        more (λ _ h _. h) (check_counts-CountsFit relay expected mined queued)
    fit_unless_changed false relay expected mined queued = granted (λ e. absurd (ground arith))

-- The audit's effect is that of a check which passed.
abbrev settings : ℕ → Audit (Unit {0})
settings confirmations =
    or_fail (is_safe_integer confirmations && leb 1 confirmations) "HUB_RECOVERY_SETTINGS_INVALID"

ended-passes :
    (a : Audit (Unit {0})) (d : StoreData) → ended a (keep (ok tt)) d ≡ keep (ok tt) → a ≡ passes tt
unfolding hold_hub
ended-passes (passes tt) d h = refl
ended-passes (fails e) d h = absurd (ground arith)
ended-passes (holds e) d h = absurd (ground arith)

-- `reconcileHubRecovery` ended without an error.
pub record IsRecovered (hub : HubReader) (confirmations : ℕ) (snapshot later : StoreData)
    : Type 0 where
  pub free : assert_hub_ready snapshot ≡ ok tt
  pub scope : WorkerScope
  pub bound : snapshot.scope ≡ some scope
  pub baseline : ℕ
  pub known : snapshot.hub_start_nonce ≡ some baseline
  pub reconciled : IsReconciled hub confirmations snapshot later scope baseline

scope-IsRecovered :
    (hub : HubReader) (confirmations : ℕ) (snapshot later : StoreData) (scope : Option WorkerScope)
    (baseline : Option ℕ)
    → assert_hub_ready snapshot ≡ ok tt
    → snapshot.scope ≡ scope
    → snapshot.hub_start_nonce ≡ baseline
    → Grants
        (λ _. IsRecovered hub confirmations snapshot later)
        (audit_scope hub confirmations snapshot later scope baseline)
scope-IsRecovered hub confirmations snapshot later none baseline f e h = failed
scope-IsRecovered hub confirmations snapshot later (some scope) none f e h = held
scope-IsRecovered hub confirmations snapshot later (some scope) (some baseline) f e h =
    checked (is_safe_integer baseline) "HUB_SIGNER_BASELINE_REQUIRES_RECONCILIATION" λ _.
      more
        (λ _ r. record {
          free = f;
          scope = scope;
          bound = e;
          baseline = baseline;
          known = h;
          reconciled = r;
        })
        (audit_history-IsReconciled hub confirmations snapshot later scope baseline)

-- Where `reconcileHubRecovery` ends without an error the store is not held, the scope and the
-- baseline are known, each job that is done or dead has one record, the records have the nonces from
-- the baseline on without a gap, the hub proved each record and each skipped job on its chain before
-- and after, and the counts of the signer fit, unless the evidence has changed meanwhile.
pub reconcile_hub_recovery-IsRecovered :
    (hub : HubReader) (confirmations : ℕ) (snapshot later : StoreData)
    → reconcile_hub_recovery hub confirmations snapshot later ≡ keep (ok tt)
    → IsRecovered hub confirmations snapshot later
unfolding reconcile_hub_recovery guarded
reconcile_hub_recovery-IsRecovered hub confirmations snapshot later h =
    ready (assert_hub_ready snapshot) refl h
  where
    ready :
        (r : Result (Unit {0}))
        → assert_hub_ready snapshot ≡ r
        → guarded r (
            ended
              (settings confirmations
                >> audit_scope hub confirmations snapshot later snapshot.scope
                    snapshot.hub_start_nonce)
              (keep (ok tt))
              later)
          ≡ keep (ok tt)
        → IsRecovered hub confirmations snapshot later
    ready (throw e) q g = absurd (ground arith)
    ready (ok tt) q g =
        grant
          (next (settings confirmations) λ _ _.
            scope-IsRecovered hub confirmations snapshot later snapshot.scope
              snapshot.hub_start_nonce q refl refl)
          (ended-passes _ later g)
