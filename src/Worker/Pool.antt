-- ===== src/Worker/Pool.antt =====
-- worker/pool.ts: the class `BoundedPool`. A task is the reservation of its id; the work of a task, and
-- what its error does, are outside, and its end is the step `end_task`.
pub mod Bounds
pub mod Refines
pub mod Tests
use proofmark.Prelude.{
  ℕ, ◌-◌, String, Bool, true, false, not, ◌&&◌, ◌||◌, List, [], ◌∷◌, ◌++◌, leb, if◌then◌else◌, any,
  filter, str_eq, length, is_safe_integer, Result, ok, ◌>>◌, require,
}

pub record BoundedPool : Type 0 where
  pub capacity : ℕ
  pub tasks : List String
  pub accepting : Bool

unfoldable pub new_pool : ℕ → Result BoundedPool
unfolding is_safe_integer
new_pool capacity = do
  require (is_safe_integer capacity && leb 1 capacity)
      "pool capacity must be a positive safe integer"
  ok (record { capacity = capacity; tasks = []; accepting = true })

abbrev pub has : String → BoundedPool → Bool
has id p = any (λ t. str_eq t id) p.tasks

abbrev pub available : BoundedPool → ℕ
available p = if p.accepting then p.capacity - length p.tasks else 0

unfoldable pub try_run : String → BoundedPool → BoundedPool × Bool
try_run id p =
    if not p.accepting || has id p || leb p.capacity (length p.tasks)
    then (p, false)
    else (record p { tasks = p.tasks ++ id ∷ [] }, true)

-- `this.tasks.delete(id)`, when the task has ended.
unfoldable pub end_task : String → BoundedPool → BoundedPool
end_task id p = record p { tasks = filter (λ t. not (str_eq t id)) p.tasks }

unfoldable pub stop : BoundedPool → BoundedPool
stop p = record p { accepting = false }
