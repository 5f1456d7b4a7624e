-- ===== src/Worker/Store/Sync.antt =====
-- worker/store.ts: memory and file agree after every end of a write, and the methods of the worker
-- commit sound data only.
use proofmark.Prelude.{
  ℕ, ◌≡◌, refl, Option, none, some, [], ◌∷◌, List, ok, ◌∙◌, after, returns, refuse,
}
use proofmark.Worker.Job.{SourceCheckpoint, StoreData, WorkerScope}
use proofmark.Worker.Store.{
  Effect, keep, commit, WriteEnd, saved, lost, renamed, StoreState, load, perform,
  assert_source_ready, bind_scope_to, signer_baseline,
}
use proofmark.Worker.Store.Source.{
  checkpoints, anchor_source, initialize_source, rewind_unsigned_source,
}
use proofmark.Worker.Store.Invariant.{
  IsWellFormed, Commits, kept, committed, commits-Commits, Commits-both, Commits-weaken,
  guarded-Commits,
}
use proofmark.Worker.Store.RewindSafety.{rewind-ends, RewindEnds-IsWellFormed}
use proofmark.Worker.Store.Anchors.{IsAnchored, SameChain, SameChain-IsAnchored}

-- Both invariants of the data.
pub record IsSound (d : StoreData) : Type 0 where
  pub formed : IsWellFormed d
  pub anchored : IsAnchored d

-- `load` accepts the file, and gives what is in memory.
pub record IsSynced (s : StoreState) : Type 0 where
  pub loads : load s.file ≡ ok s.memory
  pub sound : IsSound s.memory

load-IsSound : (d : StoreData) → IsSound d → load (some d) ≡ ok d
unfolding load
load-IsSound d v = rw (v.formed.versioned, v.formed.matched)

-- Whatever the end of the write, memory and file agree and are sound.
pub perform-IsSynced :
    {A : Type 0} (w : WriteEnd) (s : StoreState) (e : Effect A)
    → Commits IsSound e
    → IsSynced s
    → IsSynced (perform w s e).0
unfolding perform
perform-IsSynced w s (keep r) kept v = v
perform-IsSynced saved s (commit next r) (committed h) v = record {
  loads = load-IsSound next h;
  sound = h;
}
perform-IsSynced lost s (commit next r) (committed h) v = rw v.loads v
perform-IsSynced renamed s (commit next r) (committed h) v =
    rw (load-IsSound next h) (record { loads = load-IsSound next h; sound = h })

pub sound :
    {A : Type 0} {e : Effect A} → Commits IsWellFormed e → Commits IsAnchored e → Commits IsSound e
sound f a = Commits-weaken (λ d h. record { formed = h.0; anchored = h.1 }) (Commits-both f a)

pub same_chain :
    {A : Type 0} {d : StoreData} {e : Effect A}
    → IsAnchored d
    → Commits IsWellFormed e
    → Commits (SameChain d) e
    → Commits IsSound e
same_chain v f s = sound f (Commits-weaken (λ next. SameChain-IsAnchored v) s)

-- The fields that the invariants speak of are as before.
pub same_data :
    (d next : StoreData)
    → next.version ≡ d.version
    → next.jobs ≡ d.jobs
    → next.relay ≡ d.relay
    → next.cursor ≡ d.cursor
    → next.source_checkpoints ≡ d.source_checkpoints
    → IsSound d
    → IsSound next
same_data d next ve j r c cs v = record {
  formed = record {
    versioned = ve ∙ v.formed.versioned;
    unique = rw j v.formed.unique;
    keyed = rw j v.formed.keyed;
    matched = rw (j, r) v.formed.matched;
  };
  anchored = SameChain-IsAnchored v.anchored (c, cs);
}

module _ (d : StoreData) (v : IsSound d) where
  pub bind_scope_to-IsSound :
      (o : Option WorkerScope) (scope : WorkerScope) → Commits IsSound (bind_scope_to o scope d)
  bind_scope_to-IsSound (some bound) scope = kept
  bind_scope_to-IsSound none scope =
      commits-Commits (after (refuse _ _) λ _ _. returns (same_data d _ refl refl refl refl refl v))

  pub signer_baseline-IsSound :
      (o : Option ℕ) (start : ℕ) → Commits IsSound (signer_baseline o start d)
  signer_baseline-IsSound (some known) start = kept
  signer_baseline-IsSound none start = committed (same_data d _ refl refl refl refl refl v)

  anchor_source-IsWellFormed :
      (cs : List SourceCheckpoint) (c : SourceCheckpoint)
      → Commits IsWellFormed (anchor_source cs c d)
  anchor_source-IsWellFormed (_ ∷ _) c = kept
  anchor_source-IsWellFormed [] c = commits-Commits (
      after (refuse _ _) λ _ _. returns (record {
        versioned = v.formed.versioned;
        unique = v.formed.unique;
        keyed = v.formed.keyed;
        matched = v.formed.matched;
      }))

  pub initialize_source-IsWellFormed :
      (c : SourceCheckpoint) → Commits IsWellFormed (initialize_source c d)
  unfolding initialize_source
  initialize_source-IsWellFormed c =
      guarded-Commits (assert_source_ready d) λ _. anchor_source-IsWellFormed (checkpoints d) c

  pub rewind-IsWellFormed :
      (c : SourceCheckpoint) (now : ℕ) → Commits IsWellFormed (rewind_unsigned_source c now d)
  rewind-IsWellFormed c now =
      Commits-weaken (λ next. RewindEnds-IsWellFormed v.formed) (rewind-ends c now d v.formed)
