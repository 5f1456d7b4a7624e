-- ===== src/Worker/Relay/Tests.antt =====
-- worker/relay.ts on concrete data: one call of `step`, from an empty store to its broadcast.
use proofmark.Prelude.{◌≡◌, refl, false, none, some, [], ◌∷◌, str_eq, ok}
use mathlib.Core.Path.{subst}
use proofmark.Prelude.Dict.{lookup, insert}
use proofmark.Worker.Job.{StoreData}
use proofmark.Worker.Store.{
  saved, renamed, load, commits, perform, assert_source_ready, assert_hub_ready,
}
use proofmark.Worker.Store.Jobs.{reserve_relay}
use proofmark.Worker.Store.Reach.{anchors, scans}
use proofmark.Worker.Tests.{anchor, range_end, job_of, relay, scanned, relayed, at_range-scanned}
use proofmark.Worker.Relay.{
  QueryObservation, unprocessed, Preparation, unmined, broadcasts, deliver, sign, enter,
  after_broadcast,
}
use proofmark.Worker.Relay.World.{
  World, hub_guard, source_guard, observation, preparation, receipt, read, reservation, elsewhere,
  enters, moves, Occurs, start, next,
}
use proofmark.Worker.Relay.Durable.{broadcast-durable}

abbrev prepared : Preparation
prepared = record { query_id = "0xquery"; payload = "0xdata"; gas_limit = 900000 }

abbrev unseen : QueryObservation
unseen = record {
  status = unprocessed;
  block_number = 5;
  block_hash = "0xhub";
  confirmations = 1;
  observed_at = 8;
}

abbrev idle : World
idle = record { store = record { file = some scanned; memory = scanned }; task = none }

abbrev sending : World
sending = record {
  store = record { file = some relayed; memory = relayed };
  task = some (broadcasts relay (after_broadcast "0xtx" relay));
}

idle-Occurs : Occurs idle
idle-Occurs =
    subst (λ s. Occurs (record { store = s; task = none })) at_range-scanned
      (next (next start (elsewhere (anchors saved anchor) refl))
        (elsewhere (scans renamed 10 range_end (job_of 12 ∷ []) 7) refl))

sending-Occurs : Occurs sending
unfolding enter sign deliver reserve_relay commits perform load assert_source_ready assert_hub_ready
    lookup insert str_eq
sending-Occurs =
    next
      (next
        (next
          (next
            (next
              (next
                (next
                  (next
                    (next
                      (next (next idle-Occurs (enters false "0xtx" (some prepared) refl))
                        (moves (hub_guard (ok tt))))
                      (moves (read false)))
                    (moves (observation (ok unseen))))
                  (moves (source_guard (ok tt))))
                (moves (preparation (ok relay))))
              (moves (source_guard (ok tt))))
            (moves (reservation saved 8)))
          (moves (receipt (ok unmined))))
        (moves (source_guard (ok tt))))
      (moves (read false))

broadcast-durable_example :
    (d : StoreData) × (load (some relayed) ≡ ok d) × (relayed ≡ d) × (d.relay ≡ some relay)
broadcast-durable_example =
    broadcast-durable relay (after_broadcast "0xtx" relay) sending-Occurs refl
