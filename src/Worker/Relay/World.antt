-- ===== src/Worker/Relay/World.antt =====
-- worker/relay.ts in its world: one sender, whose calls of `step` interleave with all other calls of
-- the store that the worker makes, with every end of their writes, and with restarts.
use proofmark.Prelude.{ℕ, String, Bool, true, false, ◌≡◌, Option, none, some, Result, ok}
use proofmark.Worker.Job.{JobPatch, RelayReceipt, RelayEnvelope, StoreData}
use proofmark.Worker.Store.{StoreState, WriteEnd, call, load, empty_data}
use proofmark.Worker.Store.Jobs.{reserve_relay, finish_relay, update}
use proofmark.Worker.Store.Reach.{StoreStep}
use proofmark.Worker.Relay.{
  QueryObservation, Preparation, Mining, Program, ends, guards_hub, guards_source, observes,
  prepares, receipts, broadcasts, queries, reads, reserves, finishes, updates, enter,
}

-- The store, and the call of `step` that is under way while `active` is set.
pub record World : Type 0 where
  pub store : StoreState
  pub task : Option Program

-- One answer to a call that is under way.
pub data Moves (s : StoreState) : Program → StoreState → Program → Type 0 where
  hub_guard :
      {k : Result (Unit {0}) → Program} (a : Result (Unit {0})) → Moves s (guards_hub k) s (k a)
  source_guard :
      {tx : String} {k : Result (Unit {0}) → Program} (a : Result (Unit {0}))
      → Moves s (guards_source tx k) s (k a)
  observation :
      {q : String} {o : Option QueryObservation} {k : Result QueryObservation → Program}
      (a : Result QueryObservation)
      → Moves s (observes q o k) s (k a)
  preparation :
      {tx : String} {p : Preparation} {k : Result RelayEnvelope → Program}
      (a : Result RelayEnvelope)
      → Moves s (prepares tx p k) s (k a)
  receipt :
      {r : RelayEnvelope} {k : Result Mining → Program} (a : Result Mining)
      → Moves s (receipts r k) s (k a)
  broadcast :
      {r : RelayEnvelope} {k : Result (Unit {0}) → Program} (a : Result (Unit {0}))
      → Moves s (broadcasts r k) s (k a)
  query :
      {q : String} {n : ℕ} {k : Result Bool → Program} (a : Result Bool)
      → Moves s (queries q n k) s (k a)
  read :
      {k : Bool → StoreData → Program} (stopped : Bool) → Moves s (reads k) s (k stopped s.memory)
  reservation :
      {r : RelayEnvelope} {k : Result (Unit {0}) → Program} (w : WriteEnd) (now : ℕ)
      → Moves s
          (reserves r k)
          (call w s (reserve_relay r now)).0
          (k (call w s (reserve_relay r now)).1)
  release :
      {h : String} {c : RelayReceipt} {k : Result (Unit {0}) → Program} (w : WriteEnd) (now : ℕ)
      → Moves s
          (finishes h c k)
          (call w s (finish_relay h c now)).0
          (k (call w s (finish_relay h c now)).1)
  patch :
      {tx : String} {p : JobPatch} {k : Result (Unit {0}) → Program} (w : WriteEnd) (now : ℕ)
      → Moves s (updates tx p k) (call w s (update tx p now)).0 (k (call w s (update tx p now)).1)

-- Only `RelaySender.step` reserves and finishes a relay.
abbrev pub is_sender_step : {s t : StoreState} → StoreStep s t → Bool
is_sender_step (StoreStep.reserves w r now) = true
is_sender_step (StoreStep.finishes w h c now) = true
is_sender_step (StoreStep.restarts e) = true
is_sender_step _ = false

pub data WorldStep : World → World → Type 0 where
  elsewhere :
      {s t : StoreState} {task : Option Program} (st : StoreStep s t)
      → is_sender_step st ≡ false
      → WorldStep (record { store = s; task = task }) (record { store = t; task = task })
  enters :
      {s : StoreState} {p : Program} (stopped : Bool) (tx : String)
      (preparation : Option Preparation)
      → enter stopped false tx preparation s.memory ≡ ok p
      → WorldStep (record { store = s; task = none }) (record { store = s; task = some p })
  moves :
      {s t : StoreState} {p q : Program}
      → Moves s p t q
      → WorldStep (record { store = s; task = some p }) (record { store = t; task = some q })
  leaves :
      {s : StoreState} {r : Result (Unit {0})}
      → WorldStep (record { store = s; task = some (ends r) }) (record { store = s; task = none })
  restarts :
      {s : StoreState} {task : Option Program} {d : StoreData}
      → load s.file ≡ ok d
      → WorldStep
          (record { store = s; task = task })
          (record { store = record s { memory = d }; task = none })

pub data Occurs : World → Type 0 where
  start : Occurs (record { store = record { file = none; memory = empty_data }; task = none })
  next : {w v : World} → Occurs w → WorldStep w v → Occurs v
