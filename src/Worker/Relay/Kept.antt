-- ===== src/Worker/Relay/Kept.antt =====
-- worker/relay.ts and worker/store.ts: only the sender changes the open relay, and a reservation that
-- returns has opened it.
use proofmark.Prelude.{
  ℕ, String, false, ◌≡◌, refl, ap, ◌∙◌, inl, inr, Option, none, some, List, [], ◌∷◌, arith,
  Bool-cases, Result, ok, throw, Yields, returns, throws, after, refuse,
}
use proofmark.Prelude.Dict.{lookup}
use proofmark.Worker.Job.{Job, JobPatch, RelayEnvelope, StoreData, SourceCheckpoint, WorkerScope}
use proofmark.Worker.Store.{
  StoreState, Effect, keep, commit, commits, WriteEnd, saved, lost, renamed, perform, call, load,
  bind_scope, bind_scope_to, initialize_hub_signer, signer_baseline, hold_source, hold_hub,
  assert_source_ready, assert_hub_ready,
}
use proofmark.Worker.Store.Source.{initialize_source, anchor_source, checkpoints}
use proofmark.Worker.Store.Jobs.{
  reserve_relay, update, update_job, drops_relay, no_relay, pending_job, present,
}
use proofmark.Worker.Store.Invariant.{
  Commits, kept, committed, commits-Commits, guarded-Commits, Commits-weaken,
}
use proofmark.Worker.Store.SourceSafety.{commit_source_range-IsRange}
use proofmark.Worker.Store.RewindSafety.{RewindEnds, rewinds, holds, rewind-ends}
use proofmark.Worker.Store.Sync.{IsSynced}
use proofmark.Worker.Store.Reach.{StoreStep}
use proofmark.Worker.Relay.World.{is_sender_step}

abbrev KeepsRelay : StoreData → StoreData → Type 0
KeepsRelay d next = next.relay ≡ d.relay

reloaded-relay : (d : StoreData) (next : StoreData) → load (some next) ≡ ok d → d.relay ≡ next.relay
unfolding load
reloaded-relay d next h = ground arith

after_renamed :
    {A : Type 0} (next : StoreData) (r : Result A) (s : StoreState)
    → (perform renamed s (commit next r)).0.memory.relay ≡ next.relay
unfolding perform load
after_renamed next r s = ground arith

perform-KeepsRelay :
    {A : Type 0} (w : WriteEnd) (s : StoreState) (e : Effect A)
    → Commits (KeepsRelay s.memory) e
    → IsSynced s
    → (perform w s e).0.memory.relay ≡ s.memory.relay
unfolding perform
perform-KeepsRelay w s (keep r) kept v = refl
perform-KeepsRelay saved s (commit next r) (committed h) v = h
perform-KeepsRelay lost s (commit next r) (committed h) v = rw v.loads refl
perform-KeepsRelay renamed s (commit next r) (committed h) v = after_renamed next r s ∙ h

module _ (d : StoreData) where
  bind_scope_to-KeepsRelay :
      (o : Option WorkerScope) (scope : WorkerScope)
      → Commits (KeepsRelay d) (bind_scope_to o scope d)
  bind_scope_to-KeepsRelay (some bound) scope = kept
  bind_scope_to-KeepsRelay none scope = commits-Commits (after (refuse _ _) λ _ _. returns refl)

  signer_baseline-KeepsRelay :
      (o : Option ℕ) (start : ℕ) → Commits (KeepsRelay d) (signer_baseline o start d)
  signer_baseline-KeepsRelay (some known) start = kept
  signer_baseline-KeepsRelay none start = committed refl

  anchor_source-KeepsRelay :
      (cs : List SourceCheckpoint) (c : SourceCheckpoint)
      → Commits (KeepsRelay d) (anchor_source cs c d)
  anchor_source-KeepsRelay (_ ∷ _) c = kept
  anchor_source-KeepsRelay [] c = commits-Commits (after (refuse _ _) λ _ _. returns refl)

  initialize_source-KeepsRelay :
      (c : SourceCheckpoint) → Commits (KeepsRelay d) (initialize_source c d)
  unfolding initialize_source
  initialize_source-KeepsRelay c =
      guarded-Commits (assert_source_ready d) λ _. anchor_source-KeepsRelay (checkpoints d) c

  RewindEnds-relay :
      (c : SourceCheckpoint) (next : StoreData) → RewindEnds c d next → KeepsRelay d next
  RewindEnds-relay c next (rewinds _ e _ _ _) = e
  RewindEnds-relay c next (holds e) = ap (λ (x : StoreData). x.relay) e

  update_job-KeepsRelay :
      (o : Option Job) (tx : String) (p : JobPatch) (now : ℕ)
      → Commits (KeepsRelay d) (update_job o tx p now d)
  update_job-KeepsRelay none tx p now = kept
  update_job-KeepsRelay (some j) tx p now = committed refl

  update-KeepsRelay :
      (tx : String) (p : JobPatch) (now : ℕ) → Commits (KeepsRelay d) (update tx p now d)
  unfolding update
  update-KeepsRelay tx p now = elim (Bool-cases (drops_relay d.relay tx p.state)) [
    | inl e ↦ rw e kept
    | inr e ↦ rw e (update_job-KeepsRelay (lookup tx d.jobs) tx p now)
  ]

pub patch-relay :
    (w : WriteEnd) (s : StoreState) (tx : String) (p : JobPatch) (now : ℕ)
    → IsSynced s
    → (call w s (update tx p now)).0.memory.relay ≡ s.memory.relay
patch-relay w s tx p now v = perform-KeepsRelay w s _ (update-KeepsRelay s.memory tx p now) v

-- A step of another task leaves the open relay as it is.
pub step-relay :
    {s t : StoreState} (st : StoreStep s t)
    → is_sender_step st ≡ false
    → IsSynced s
    → t.memory.relay ≡ s.memory.relay
unfolding bind_scope initialize_hub_signer hold_source hold_hub
step-relay {s} (StoreStep.binds w scope) h v =
    perform-KeepsRelay w s _ (bind_scope_to-KeepsRelay s.memory s.memory.scope scope) v
step-relay {s} (StoreStep.signs w nonce) h v =
    perform-KeepsRelay w s _
      (guarded-Commits _ λ _. signer_baseline-KeepsRelay s.memory s.memory.hub_start_nonce nonce) v
step-relay {s} (StoreStep.holds_source w reason) h v = perform-KeepsRelay w s _ (committed refl) v
step-relay {s} (StoreStep.holds_hub w reason) h v = perform-KeepsRelay w s _ (committed refl) v
step-relay {s} (StoreStep.anchors w c) h v =
    perform-KeepsRelay w s _ (initialize_source-KeepsRelay s.memory c) v
step-relay {s} (StoreStep.scans w from end jobs now) h v =
    perform-KeepsRelay w s _
      (Commits-weaken (λ next r. r.relay) (commit_source_range-IsRange from end jobs now s.memory))
      v
step-relay {s} (StoreStep.rewinds w c now) h v =
    perform-KeepsRelay w s _
      (Commits-weaken (λ next. RewindEnds-relay s.memory c next)
        (rewind-ends c now s.memory v.sound.formed))
      v
step-relay {s} (StoreStep.updates w tx p now safe) h v = patch-relay w s tx p now v
step-relay (StoreStep.reserves w r now) h v = absurd (ground arith)
step-relay (StoreStep.finishes w k c now) h v = absurd (ground arith)
step-relay (StoreStep.restarts e) h v = absurd (ground arith)

-- The relay is open, or the call throws.
data Opening (r : RelayEnvelope) : Effect (Unit {0}) → Type 0 where
  opens : {next : StoreData} → next.relay ≡ some r → Opening r (commit next (ok tt))
  refuses : {e : String} → Opening r (keep (throw e))

commits-Opening :
    {r : RelayEnvelope} {m : Result StoreData}
    → Yields (λ (next : StoreData). next.relay ≡ some r) m
    → Opening r (commits m)
unfolding commits
commits-Opening (returns h) = opens h
commits-Opening throws = refuses

reserve_relay-Opening :
    (r : RelayEnvelope) (now : ℕ) (d : StoreData) → Opening r (reserve_relay r now d)
unfolding reserve_relay
reserve_relay-Opening r now d = commits-Opening (
    after (assert_source_ready d) λ _ _. after (assert_hub_ready d) λ _ _.
      after (no_relay d.relay) λ _ _.
        after (pending_job (lookup r.source_tx_hash d.jobs))
          λ job _. after (present (lookup job.tx_hash d.jobs)) λ target _. returns refl)

perform-Opening :
    (w : WriteEnd) (s : StoreState) (r : RelayEnvelope) (e : Effect (Unit {0}))
    → Opening r e
    → (perform w s e).1 ≡ ok tt
    → (perform w s e).0.memory.relay ≡ some r
unfolding perform load
perform-Opening w s r (keep _) refuses h = absurd (ground arith)
perform-Opening saved s r (commit next _) (opens o) h = o
perform-Opening lost s r (commit next _) (opens o) h = absurd (ground arith)
perform-Opening renamed s r (commit next _) (opens o) h = absurd (ground arith)

pub reservation-relay :
    (w : WriteEnd) (s : StoreState) (r : RelayEnvelope) (now : ℕ)
    → (call w s (reserve_relay r now)).1 ≡ ok tt
    → (call w s (reserve_relay r now)).0.memory.relay ≡ some r
reservation-relay w s r now h =
    perform-Opening w s r (reserve_relay r now s.memory) (reserve_relay-Opening r now s.memory) h
