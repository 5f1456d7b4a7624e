-- ===== src/Worker/Relay/Durable.antt =====
-- worker/relay.ts: no transaction leaves the worker before the store has it on file as the open relay.
use proofmark.Prelude.{
  String, Bool, false, ◌≡◌, refl, sym, ◌||◌, Option, none, some, Result, ok, Yields, returns, after,
  yielded, refuse,
}
use proofmark.Prelude.Dict.{lookup}
use mathlib.Core.Path.{subst}
use proofmark.Worker.Job.{RelayEnvelope, StoreData}
use proofmark.Worker.Store.{StoreState, load, call, assert_source_ready, assert_hub_ready}
use proofmark.Worker.Store.Jobs.{pending_job, reserve_relay, finish_relay, update}
use proofmark.Worker.Store.Sync.{IsSynced}
use proofmark.Worker.Store.Reach.{StoreStep, step-IsSynced, start-IsSynced}
use proofmark.Worker.Relay.{Preparation, Program, broadcasts, enter, throw_if_stopped, is_foreign}
use proofmark.Worker.Relay.World.{
  World, Moves, hub_guard, source_guard, observation, preparation, receipt, broadcast, query, read,
  reservation, release, patch, WorldStep, elsewhere, enters, moves, leaves, restarts, Occurs, start,
  next,
}
use proofmark.Worker.Relay.Safety.{Safe, resume-Safe}
use proofmark.Worker.Relay.Kept.{step-relay, patch-relay, reservation-relay}

enter-Safe :
    (stopped active : Bool) (tx : String) (p : Option Preparation) (d : StoreData)
    → Yields (Safe d.relay) (enter stopped active tx p d)
unfolding enter
enter-Safe stopped active tx p d = after (throw_if_stopped stopped) λ _ _.
    after (refuse (active || is_foreign d.relay tx) "RELAY_NONCE_UNRESOLVED") λ _ _.
      after (assert_source_ready d) λ _ _.
        after (assert_hub_ready d)
          λ _ _. after (pending_job (lookup tx d.jobs)) λ job _. returns (resume-Safe tx p d.relay)

-- The store is synced, and the program under way is safe with its relay.
record Holds (s : StoreState) (p : Program) : Type 0 where
  synced : IsSynced s
  safe : Safe s.memory.relay p

moves-Holds : {s t : StoreState} {p q : Program} → Moves s p t q → Holds s p → Holds t q
moves-Holds (hub_guard a) h = record { synced = h.synced; safe = h.safe a }
moves-Holds (source_guard a) h = record { synced = h.synced; safe = h.safe a }
moves-Holds (observation a) h = record { synced = h.synced; safe = h.safe a }
moves-Holds (preparation a) h = record { synced = h.synced; safe = h.safe a }
moves-Holds (receipt a) h = record { synced = h.synced; safe = h.safe a }
moves-Holds (broadcast a) h = record { synced = h.synced; safe = h.safe.1 a }
moves-Holds (query a) h = record { synced = h.synced; safe = h.safe a }
moves-Holds {s} (read stopped) h = record { synced = h.synced; safe = h.safe stopped s.memory }
moves-Holds {s} (reservation {r} w now) h = record {
  synced = step-IsSynced (StoreStep.reserves w r now) h.synced;
  safe = h.safe (call w s (reserve_relay r now)).1 _ (reservation-relay w s r now);
}
moves-Holds {s} (release {h = hash} {c} w now) h = record {
  synced = step-IsSynced (StoreStep.finishes w hash c now) h.synced;
  safe = h.safe (call w s (finish_relay hash c now)).1 _;
}
moves-Holds {s} (patch {tx} {p} {k} w now) h = record {
  synced = step-IsSynced (StoreStep.updates w tx p now (h.safe.0 s.memory refl)) h.synced;
  safe =
      subst (λ o. Safe o (k (call w s (update tx p now)).1))
        (sym (patch-relay w s tx p now h.synced)) (h.safe.1 (call w s (update tx p now)).1);
}

abbrev SafeTask : Option RelayEnvelope → Option Program → Type 0
SafeTask o none = Unit
SafeTask o (some p) = Safe o p

record IsGuarded (w : World) : Type 0 where
  synced : IsSynced w.store
  safe : SafeTask w.store.memory.relay w.task

step-IsGuarded : {w v : World} → WorldStep w v → IsGuarded w → IsGuarded v
step-IsGuarded (elsewhere {s} {t} {task} st other) g = record {
  synced = step-IsSynced st g.synced;
  safe = subst (λ o. SafeTask o task) (sym (step-relay st other g.synced)) g.safe;
}
step-IsGuarded (enters {s} stopped tx p e) g = record {
  synced = g.synced;
  safe = yielded (enter-Safe stopped false tx p s.memory) e;
}
step-IsGuarded (moves m) g =
    let h = moves-Holds m (record { synced = g.synced; safe = g.safe }) in
    record { synced = h.synced; safe = h.safe }
step-IsGuarded leaves g = record { synced = g.synced; safe = tt }
step-IsGuarded (restarts {s} e) g = record {
  synced = step-IsSynced (StoreStep.restarts e) g.synced;
  safe = tt;
}

Occurs-IsGuarded : {w : World} → Occurs w → IsGuarded w
Occurs-IsGuarded start = record { synced = start-IsSynced; safe = tt }
Occurs-IsGuarded (next o st) = step-IsGuarded st (Occurs-IsGuarded o)

guarded-broadcast :
    (task : Option Program) (o : Option RelayEnvelope) (r : RelayEnvelope)
    (k : Result (Unit {0}) → Program)
    → task ≡ some (broadcasts r k)
    → SafeTask o task
    → o ≡ some r
guarded-broadcast task o r k e safe = (subst (SafeTask o) e safe).0

-- Whenever a call of `step` is about to broadcast a transaction, after any interleaving with the
-- other calls of the store, any ends of their writes and any restarts, the file loads and gives what
-- is in memory, and there this transaction is the open relay.
pub broadcast-durable :
    {w : World} (r : RelayEnvelope) (k : Result (Unit {0}) → Program)
    → Occurs w
    → w.task ≡ some (broadcasts r k)
    → (d : StoreData) × (load w.store.file ≡ ok d) × (w.store.memory ≡ d) × (d.relay ≡ some r)
broadcast-durable {w} r k o e =
    let g = Occurs-IsGuarded o in
    (
      w.store.memory,
      g.synced.loads,
      refl,
      guarded-broadcast w.task w.store.memory.relay r k e g.safe,
    )
