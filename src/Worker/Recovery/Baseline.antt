-- ===== src/Worker/Recovery/Baseline.antt =====
-- worker/recovery.ts: when `initializeHubRecovery` sets the baseline of a new signer.
use proofmark.Prelude.{
  ℕ, Bool, true, false, ◌&&◌, ◌||◌, ◌≡◌, refl, sym, ap, ◌∙◌, Option, none, some, List, [], ◌∷◌, ltb,
  ◌==◌, truthy, is_safe_integer, length, any, All, Result, ok, throw, arith, is_some,
}
use proofmark.Prelude.Dict.{values}
use proofmark.Worker.Job.{
  Job, JobState, discovered, attested, submitted, done, skipped, dead, StoreData,
}
use proofmark.Worker.Store.{
  Effect, keep, commit, guarded, hold_hub, initialize_hub_signer, signer_baseline,
}
use proofmark.Worker.Recovery.{
  latest, pending, HubReader, Audit, passes, fails, holds, ◌>>=◌, ◌>>◌, ask, or_hold, or_fail,
  history_of, ended, is_unused, is_submitted_or_terminal, scope_signer, initialize_hub_recovery,
}
use proofmark.Worker.Recovery.Canonical.{Grants, next, grant, checked, surely, ask-passes}

-- A job that may have been relayed.
abbrev is_used : Job → Bool
is_used j =
    truthy j.asc_tx_hash || ltb 0 (length (history_of j)) || is_submitted_or_terminal j.state

-- No transaction of the job was sent.
abbrev IsUnsent : JobState → Type 0
IsUnsent discovered = Unit
IsUnsent attested = Unit
IsUnsent skipped = Unit
IsUnsent _ = ⊥

-- The job was never relayed.
pub record IsUnrelayed (j : Job) : Type 0 where
  pub no_hash : truthy j.asc_tx_hash ≡ false
  pub no_history : history_of j ≡ []
  pub unsent : IsUnsent j.state

submitted_or_terminal-IsUnsent : (s : JobState) → is_submitted_or_terminal s ≡ false → IsUnsent s
submitted_or_terminal-IsUnsent discovered h = tt
submitted_or_terminal-IsUnsent attested h = tt
submitted_or_terminal-IsUnsent skipped h = tt
submitted_or_terminal-IsUnsent submitted h = absurd (ground arith)
submitted_or_terminal-IsUnsent done h = absurd (ground arith)
submitted_or_terminal-IsUnsent dead h = absurd (ground arith)

all-IsUnrelayed : (jobs : List Job) → any is_used jobs ≡ false → All IsUnrelayed jobs
all-IsUnrelayed [] h = tt
all-IsUnrelayed (job ∷ jobs) h = (
  record {
    no_hash = ground arith;
    no_history = ground arith;
    unsent = submitted_or_terminal-IsUnsent job.state (ground arith);
  },
  all-IsUnrelayed jobs (ground arith),
)

-- The signer has no transaction, on the hub or in the store, and no baseline.
pub record IsUnsigned (hub : HubReader) (d : StoreData) : Type 0 where
  pub scoped : is_some d.scope ≡ true
  pub new : d.hub_start_nonce ≡ none
  pub idle : d.relay ≡ none
  pub unrelayed : All IsUnrelayed (values d.jobs)
  pub unmined : hub.transaction_count 0 (scope_signer d.scope) latest ≡ ok 0
  pub unqueued : hub.transaction_count 0 (scope_signer d.scope) pending ≡ ok 0

-- What the method returns or throws.
abbrev pub outcome : {A : Type 0} → Effect A → Result A
outcome (keep r) = r
outcome (commit after r) = r

-- A guarded method that returns did what its rest does.
guarded-returns :
    (r : Result (Unit {0})) (e : Effect (Unit {0}))
    → outcome (guarded r e) ≡ ok tt
    → guarded r e ≡ e
unfolding guarded
guarded-returns (ok nothing) e h = refl
guarded-returns (throw code) e h = absurd (ground arith)

baseline-writes :
    (known : Option ℕ) (d : StoreData)
    → known ≡ none
    → signer_baseline known 0 d ≡ commit (record d { hub_start_nonce = some 0 }) (ok tt)
baseline-writes none d h = refl
baseline-writes (some n) d h = absurd (ground arith)

initialize_hub_signer-writes :
    (d : StoreData)
    → d.hub_start_nonce ≡ none
    → outcome (initialize_hub_signer 0 d) ≡ ok tt
    → initialize_hub_signer 0 d ≡ commit (record d { hub_start_nonce = some 0 }) (ok tt)
unfolding initialize_hub_signer
initialize_hub_signer-writes d new h =
    guarded-returns _ _ h ∙ baseline-writes d.hub_start_nonce d new

ended-returns :
    (a : Audit (Unit {0})) (e : Effect (Unit {0})) (d : StoreData)
    → outcome (ended a e d) ≡ ok tt
    → (a ≡ passes tt) × (ended a e d ≡ e)
unfolding hold_hub
ended-returns (passes nothing) e d h = (refl, refl)
ended-returns (fails code) e d h = absurd (ground arith)
ended-returns (holds code) e d h = absurd (ground arith)

-- What the test of the snapshot says.
record IsFresh (d : StoreData) : Type 0 where
  scoped : is_some d.scope ≡ true
  new : d.hub_start_nonce ≡ none
  idle : d.relay ≡ none
  unused : any is_used (values d.jobs) ≡ false

not_some : {A : Type 0} (o : Option A) → is_some o ≡ false → o ≡ none
not_some none e = refl
not_some (some a) e = absurd (ground arith)

is_unused-IsFresh : (d : StoreData) → is_unused d ≡ true → IsFresh d
unfolding is_unused
is_unused-IsFresh d h = record {
  scoped = ground arith;
  new = not_some d.hub_start_nonce (ground arith);
  idle = not_some d.relay (ground arith);
  unused = ground arith;
}

-- The audit of the bootstrap.
bootstrap-IsUnsigned :
    (hub : HubReader) (d : StoreData)
    → Grants
        (λ _. IsUnsigned hub d)
        (do
          or_hold (is_unused d) "HUB_SIGNER_BASELINE_REQUIRES_RECONCILIATION"
          mined ← ask (hub.transaction_count 0 (scope_signer d.scope) latest)
          queued ← ask (hub.transaction_count 0 (scope_signer d.scope) pending)
          or_fail
              (is_safe_integer mined && is_safe_integer queued)
              "HUB_RECOVERY_OBSERVATION_UNAVAILABLE"
          or_hold (mined == 0 && queued == 0) "HUB_SIGNER_BASELINE_REQUIRES_RECONCILIATION")
bootstrap-IsUnsigned hub d =
    checked (is_unused d) "HUB_SIGNER_BASELINE_REQUIRES_RECONCILIATION" λ unused.
      next (ask (hub.transaction_count 0 (scope_signer d.scope) latest)) λ mined counted.
        next (ask (hub.transaction_count 0 (scope_signer d.scope) pending)) λ queued waiting.
          next
            (or_fail (is_safe_integer mined && is_safe_integer queued)
              "HUB_RECOVERY_OBSERVATION_UNAVAILABLE")
            λ _ _.
              surely (mined == 0 && queued == 0) "HUB_SIGNER_BASELINE_REQUIRES_RECONCILIATION"
                λ zeros.
                  let no_mined : mined ≡ 0 = ground arith in
                  let no_queued : queued ≡ 0 = ground arith in
                  let f = is_unused-IsFresh d unused in
                  record {
                    scoped = f.scoped;
                    new = f.new;
                    idle = f.idle;
                    unrelayed = all-IsUnrelayed (values d.jobs) f.unused;
                    unmined = rw no_mined at (ask-passes _ counted);
                    unqueued = rw no_queued at (ask-passes _ waiting);
                  }

-- Where `initializeHubRecovery` ends without an error it writes the baseline 0 and nothing else; the store
-- had a scope, no baseline and no open relay, and none of its jobs had a transaction hash or a history of
-- relays or was submitted, done or dead; and the hub had no transaction of the signer, mined or pending.
pub initialize_hub_recovery-IsUnsigned :
    (hub : HubReader) (d : StoreData)
    → outcome (initialize_hub_recovery hub d) ≡ ok tt
    → (initialize_hub_recovery hub d ≡ commit (record d { hub_start_nonce = some 0 }) (ok tt))
      × IsUnsigned hub d
unfolding initialize_hub_recovery
initialize_hub_recovery-IsUnsigned hub d h =
    let same = guarded-returns _ _ h in
    let (audited, rest) = ended-returns _ _ d (ap outcome (sym same) ∙ h) in
    let unsigned = grant (bootstrap-IsUnsigned hub d) audited in
    (
      same
          ∙ rest
          ∙ initialize_hub_signer-writes d unsigned.new (ap outcome (sym (same ∙ rest)) ∙ h),
      unsigned,
    )
