-- ===== src/Worker/Store/Lifecycle.antt =====
-- worker/store.ts: the life of a relay, from `reserveRelay` to `finishRelay`: one at a time, and
-- never one that cannot be finished.
use proofmark.Prelude.{ℕ, false, ◌≡◌, none, some, ok, throw}
use proofmark.Prelude.Dict.{lookup, insert}
use proofmark.Worker.Job.{Job, RelayEnvelope, RelayReceipt, StoreData, is_finished}
use proofmark.Worker.Store.{keep, commit, assert_source_ready, assert_hub_ready}
use proofmark.Worker.Store.Jobs.{reserve_relay, finish_relay, reserved, settled, no_relay}

-- What a reservation commits: the relay is open on a job that was not finished, and source and hub
-- are not held.
record Opens (relay : RelayEnvelope) (now : ℕ) (d next : StoreData) : Type 0 where
  source_ready : assert_source_ready d ≡ ok tt
  hub_ready : assert_hub_ready d ≡ ok tt
  source_kept : next.source_hold ≡ d.source_hold
  hub_kept : next.hub_hold ≡ d.hub_hold
  opened : next.relay ≡ some relay
  free : no_relay d.relay ≡ ok tt
  job : Job
  found : lookup relay.source_tx_hash d.jobs ≡ some job
  unfinished : is_finished job.state ≡ false
  stands : lookup relay.source_tx_hash next.jobs ≡ some (reserved relay now job)

-- In the store `next` no other relay is reserved; a receipt of this one closes it and settles its job.
pub record IsOpen (relay : RelayEnvelope) (job : Job) (next : StoreData) : Type 0 where
  pub stands : lookup relay.source_tx_hash next.jobs ≡ some job
  pub exclusive :
      (other : RelayEnvelope) (later : ℕ)
      → reserve_relay other later next ≡ keep (throw "RELAY_NONCE_UNRESOLVED")
  pub closes :
      (receipt : RelayReceipt) (later : ℕ)
      → finish_relay relay.hash receipt later next
        ≡ commit
            (record next {
              relay = none;
              jobs = insert relay.source_tx_hash (settled relay receipt later job) next.jobs;
            })
            (ok tt)
