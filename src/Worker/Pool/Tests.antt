-- ===== src/Worker/Pool/Tests.antt =====
-- worker/pool.ts on a pool for two tasks.
use proofmark.Prelude.{◌≡◌, refl, [], ◌∷◌, true, filter, str_eq}
use proofmark.Worker.Pool.{BoundedPool, new_pool, try_run, end_task}
use proofmark.Worker.Pool.Bounds.{IsBounded, PoolRun, start, next, runs, settles, PoolRun-IsBounded}
use proofmark.Worker.Pool.Refines.{view, ViewStep, tries, PoolStep-ViewStep}

abbrev empty_pool : BoundedPool
empty_pool = record { capacity = 2; tasks = []; accepting = true }

abbrev last_pool : BoundedPool
last_pool = end_task "a" (try_run "c" (try_run "a" (try_run "b" (try_run "a" empty_pool).0).0).0).0

-- The second "a" and the third task are refused.
last_pool-eq : last_pool ≡ record { capacity = 2; tasks = "b" ∷ []; accepting = true }
unfolding try_run end_task str_eq filter
last_pool-eq = refl

last_pool-PoolRun : PoolRun last_pool
unfolding new_pool
last_pool-PoolRun =
    next
      (next (next (next (next (start 2 {p = empty_pool} refl) (runs "a")) (runs "b")) (runs "a"))
        (runs "c"))
      (settles "a")

PoolRun-IsBounded_example : IsBounded last_pool
PoolRun-IsBounded_example = PoolRun-IsBounded last_pool-PoolRun

PoolStep-ViewStep_example : ViewStep (view last_pool) (tries "d") (view (try_run "d" last_pool).0)
PoolStep-ViewStep_example = PoolStep-ViewStep last_pool-PoolRun (runs "d")
