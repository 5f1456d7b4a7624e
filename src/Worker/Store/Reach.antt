-- ===== src/Worker/Store/Reach.antt =====
-- worker/store.ts: the states of a worker process and its file, over all calls that the worker makes,
-- all ends of their writes, and restarts.
use proofmark.Prelude.{ℕ, String, ◌≡◌, refl, none, List, arith, ok, inl}
use mathlib.Core.Path.{subst}
use proofmark.Worker.Job.{
  Job, JobPatch, RelayEnvelope, RelayReceipt, SourceCheckpoint, StoreData, WorkerScope,
}
use proofmark.Worker.Store.{
  WriteEnd, StoreState, empty_data, load, call, bind_scope, initialize_hub_signer, hold_source,
  hold_hub,
}
use proofmark.Worker.Store.Source.{initialize_source, commit_source_range, rewind_unsigned_source}
use proofmark.Worker.Store.Jobs.{reserve_relay, finish_relay, update}
use proofmark.Worker.Store.Invariant.{committed, guarded-Commits}
use proofmark.Worker.Store.JobSafety.{
  IsSafePatch, reserve_relay-IsWellFormed, reserve_relay-SameChain, finish_relay-IsWellFormed,
  finish_relay-SameChain, update-IsWellFormed, update-SameChain,
}
use proofmark.Worker.Store.SourceSafety.{commit_source_range-IsWellFormed}
use proofmark.Worker.Store.Anchors.{
  commit_source_range-IsAnchored, initialize_source-IsAnchored, rewind_unsigned_source-IsAnchored,
}
use proofmark.Worker.Store.Sync.{
  IsSound, IsSynced, perform-IsSynced, sound, same_chain, same_data, bind_scope_to-IsSound,
  signer_baseline-IsSound, initialize_source-IsWellFormed, rewind-IsWellFormed,
}

-- One call of a method by the worker, with any end of its write, or a restart of the process. No code
-- calls `setCursor` and `add`.
pub data StoreStep (s : StoreState) : StoreState → Type 0 where
  binds : (w : WriteEnd) (scope : WorkerScope) → StoreStep s (call w s (bind_scope scope)).0
  signs : (w : WriteEnd) (nonce : ℕ) → StoreStep s (call w s (initialize_hub_signer nonce)).0
  holds_source :
      (w : WriteEnd) (reason : String)
      → StoreStep s (call w s (hold_source {A = Unit {0}} reason)).0
  holds_hub :
      (w : WriteEnd) (reason : String) → StoreStep s (call w s (hold_hub {A = Unit {0}} reason)).0
  anchors : (w : WriteEnd) (c : SourceCheckpoint) → StoreStep s (call w s (initialize_source c)).0
  scans :
      (w : WriteEnd) (from : ℕ) (end : SourceCheckpoint) (jobs : List Job) (now : ℕ)
      → StoreStep s (call w s (commit_source_range from end jobs now)).0
  rewinds :
      (w : WriteEnd) (ancestor : SourceCheckpoint) (now : ℕ)
      → StoreStep s (call w s (rewind_unsigned_source ancestor now)).0
  reserves :
      (w : WriteEnd) (relay : RelayEnvelope) (now : ℕ)
      → StoreStep s (call w s (reserve_relay relay now)).0
  finishes :
      (w : WriteEnd) (hash : String) (receipt : RelayReceipt) (now : ℕ)
      → StoreStep s (call w s (finish_relay hash receipt now)).0
  updates :
      (w : WriteEnd) (tx : String) (patch : JobPatch) (now : ℕ)
      → IsSafePatch s.memory patch
      → StoreStep s (call w s (update tx patch now)).0
  restarts : {d : StoreData} → load s.file ≡ ok d → StoreStep s (record s { memory = d })

-- The states after any number of steps of a process that found no file.
pub data Reachable : StoreState → Type 0 where
  start : Reachable (record { file = none; memory = empty_data })
  next : {s t : StoreState} → Reachable s → StoreStep s t → Reachable t

pub step-IsSynced : {s t : StoreState} → StoreStep s t → IsSynced s → IsSynced t
unfolding bind_scope initialize_hub_signer hold_source hold_hub
step-IsSynced {s} (binds w scope) v =
    perform-IsSynced w s _ (bind_scope_to-IsSound s.memory v.sound s.memory.scope scope) v
step-IsSynced {s} (signs w nonce) v =
    perform-IsSynced w s _
      (guarded-Commits _
        λ _. signer_baseline-IsSound s.memory v.sound s.memory.hub_start_nonce nonce)
      v
step-IsSynced {s} (holds_source w reason) v =
    perform-IsSynced w s _ (committed (same_data s.memory _ refl refl refl refl refl v.sound)) v
step-IsSynced {s} (holds_hub w reason) v =
    perform-IsSynced w s _ (committed (same_data s.memory _ refl refl refl refl refl v.sound)) v
step-IsSynced {s} (anchors w c) v =
    perform-IsSynced w s _
      (sound (initialize_source-IsWellFormed s.memory v.sound c)
        (initialize_source-IsAnchored c s.memory v.sound.anchored))
      v
step-IsSynced {s} (scans w from end jobs now) v =
    perform-IsSynced w s _
      (sound (commit_source_range-IsWellFormed from end jobs now s.memory v.sound.formed)
        (commit_source_range-IsAnchored from end jobs now s.memory v.sound.anchored))
      v
step-IsSynced {s} (rewinds w c now) v =
    perform-IsSynced w s _
      (sound (rewind-IsWellFormed s.memory v.sound c now)
        (rewind_unsigned_source-IsAnchored c now s.memory v.sound.anchored))
      v
step-IsSynced {s} (reserves w relay now) v =
    perform-IsSynced w s _
      (same_chain v.sound.anchored (reserve_relay-IsWellFormed relay now s.memory v.sound.formed)
        (reserve_relay-SameChain relay now s.memory))
      v
step-IsSynced {s} (finishes w hash receipt now) v =
    perform-IsSynced w s _
      (same_chain v.sound.anchored
        (finish_relay-IsWellFormed hash receipt now s.memory v.sound.formed)
        (finish_relay-SameChain hash receipt now s.memory))
      v
step-IsSynced {s} (updates w tx patch now safe) v =
    perform-IsSynced w s _
      (same_chain v.sound.anchored (update-IsWellFormed tx patch now s.memory safe v.sound.formed)
        (update-SameChain tx patch now s.memory))
      v
step-IsSynced {s} (restarts e) v = record {
  loads = e;
  sound = subst IsSound (ground arith) v.sound;
}

pub start-IsSynced : IsSynced (record { file = none; memory = empty_data })
unfolding load
start-IsSynced = record {
  loads = refl;
  sound = record {
    formed = record { versioned = refl; unique = tt; keyed = tt; matched = refl };
    anchored = record { bounded = omega arith; chain = inl refl };
  };
}

-- In every state that the worker can reach, whatever becomes of its writes and whenever it restarts,
-- the file loads without an error and gives what is in memory; there each key stands once, each job
-- under its own hash, an open relay beside the submitted job that holds its hash and its query, and
-- the at most 129 checkpoints ascend and end at the cursor.
pub Reachable-IsSynced : {s : StoreState} → Reachable s → IsSynced s
Reachable-IsSynced start = start-IsSynced
Reachable-IsSynced (next r st) = step-IsSynced st (Reachable-IsSynced r)
