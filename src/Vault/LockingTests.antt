-- ===== src/Vault/LockingTests.antt =====
-- pipeline/vault.ts: two instances of a vault; the first writes, the second one finds the lock taken.
use proofmark.Prelude.{true, false, none, some, ◌≡◌, refl, str_eq, is_safe_integer}
use proofmark.Prelude.Text.{text_eq}
use proofmark.Prelude.Dict.{lookup, insert}
use proofmark.Vault.Calls.{puts, mutate, operation}
use proofmark.Vault.Decisions.{put}
use proofmark.Vault.Locking.{
  idle, VaultWorld, VaultReach, begins, steps, acts, new_world, act_at, act, acquire, enter, flush,
  acquires, enters, flushes, entered, flushed, empty_data, holding, set_handle,
}
use proofmark.Vault.Exclusive.{Refines, IsExclusive, VaultStep-Refines}
use proofmark.Vault.Tests.{test_runtime, subject_record, stored_data}

-- The first instance has the lock, and the second one has tried to take it.
abbrev locked_world : VaultWorld
locked_world = record {
  disk = record { file = none; locked = true };
  handles =
      set_handle 1 (record { current = empty_data; write_unconfirmed = false; phase = idle })
        (set_handle 0
          (record {
            current = empty_data;
            write_unconfirmed = false;
            phase = holding (puts subject_record);
          })
          new_world.handles);
}

locked-VaultReach : VaultReach test_runtime locked_world
unfolding act_at act acquire
locked-VaultReach =
    steps (steps begins (acts 0 (acquires (puts subject_record))))
      (acts 1 (acquires (puts subject_record)))

abbrev ready_world : VaultWorld
ready_world = act_at test_runtime 0 (enters entered) locked_world

ready-VaultReach : VaultReach test_runtime ready_world
ready-VaultReach = steps locked-VaultReach (acts 0 (enters entered))

abbrev written_world : VaultWorld
written_world = act_at test_runtime 0 (flushes flushed) ready_world

written-file : written_world.disk.file ≡ some stored_data
unfolding act_at act enter flush mutate operation put str_eq lookup insert is_safe_integer text_eq
written-file = refl

VaultStep-Refines_example :
    IsExclusive test_runtime ready_world × Refines test_runtime none (some stored_data)
unfolding act_at act enter flush mutate operation put str_eq lookup insert is_safe_integer text_eq
VaultStep-Refines_example =
    VaultStep-Refines test_runtime ready_world written_world ready-VaultReach
      (acts 0 (flushes flushed))
