-- ===== src/Vault/Locking.antt =====
-- pipeline/vault.ts: `mutate` over the file and its lock file, step by step, as the instances of
-- `EvidenceVault` in several processes interleave. A call of the file system ends as an argument says.
use proofmark.Prelude.{
  ℕ, Bool, true, false, ◌||◌, Option, none, some, [], if◌then◌else◌, ◌==◌, Result, ok, throw, ◌≡◌,
}
use proofmark.Vault.Data.{VaultData, Runtime}
use proofmark.Vault.Calls.{VaultCall, mutate}

-- Where an instance stands in `mutate`: outside; with the lock file opened; with the operation done, on
-- the data that were loaded; in `finally`, with `retainLock`.
pub data Phase : Type 0 where
  idle : Phase
  holding : VaultCall → Phase
  flushing : VaultCall → VaultData → VaultData → Phase
  leaving : Bool → Phase

pub record VaultHandle : Type 0 where
  pub current : VaultData
  pub write_unconfirmed : Bool
  pub phase : Phase

pub record VaultDisk : Type 0 where
  pub file : Option VaultData
  pub locked : Bool

-- The write of the lock file fails; or the vault cannot be read or decrypted; or both succeed.
pub data EnterEnd : Type 0 where
  lock_unwritten unreadable entered : EnterEnd

pub data FlushEnd : Type 0 where
  flushed unflushed renamed : FlushEnd

-- `closeSync` and `unlinkSync` succeed, or one of them fails.
pub data LeaveEnd : Type 0 where
  left unclosed unremoved : LeaveEnd

abbrev pub empty_data : VaultData
empty_data = record { revision = 0; records = []; erasures = []; revocations = []; retention = [] }

abbrev pub load : Option VaultData → VaultData
load none = empty_data
load (some d) = d

unfoldable pub is_writable : VaultHandle → VaultDisk → Bool
is_writable h d = if h.write_unconfirmed || d.locked then false else true

-- The start of `mutate`, with one attempt of `acquireLock`.
unfoldable pub acquire : VaultCall → VaultHandle → VaultDisk → VaultHandle × VaultDisk
acquire call h d =
    if h.write_unconfirmed || d.locked
    then (h, d)
    else (record h { phase = holding call }, record d { locked = true })

-- `catch`: where the error is a `VaultWriteError` the lock is retained.
abbrev pub caught : Bool → VaultHandle → VaultDisk → VaultHandle
caught is_write_error h d = record h {
  current = load d.file;
  write_unconfirmed = h.write_unconfirmed || is_write_error;
  phase = leaving is_write_error;
}

module _ (run : Runtime) where
  abbrev pub operated : VaultCall → VaultHandle → VaultDisk → Result VaultData → VaultHandle
  operated call h d (throw e) = caught false h d
  operated call h d (ok next) = record h {
    current = next;
    phase = flushing call (load d.file) next;
  }

  unfoldable pub enter : EnterEnd → VaultCall → VaultHandle → VaultDisk → VaultHandle
  unfolding mutate
  enter lock_unwritten call h d = caught true h d
  enter unreadable call h d = record h { phase = leaving false }
  enter entered call h d = operated call h d (mutate run call (load d.file))

unfoldable pub flush : FlushEnd → VaultData → VaultHandle → VaultDisk → VaultHandle × VaultDisk
flush flushed next h d = (record h { phase = leaving false }, record d { file = some next })
flush unflushed next h d = (caught true h d, d)
flush renamed next h d = let after = record d { file = some next } in (caught true h after, after)

-- `finally`
unfoldable pub leave : LeaveEnd → Bool → VaultHandle → VaultDisk → VaultHandle × VaultDisk
leave left true h d = (record h { phase = idle }, d)
leave left false h d = (record h { phase = idle }, record d { locked = false })
leave unclosed retain h d = (record h { write_unconfirmed = true; phase = idle }, d)
leave unremoved true h d = (record h { phase = idle }, d)
leave unremoved false h d = (record h { write_unconfirmed = true; phase = idle }, d)

pub data Move : Type 0 where
  acquires : VaultCall → Move
  enters : EnterEnd → Move
  flushes : FlushEnd → Move
  leaves : LeaveEnd → Move
  -- A process ends anywhere, and another one takes its place.
  restarts : Move

abbrev pub new_handle : VaultDisk → VaultHandle
new_handle d = record { current = load d.file; write_unconfirmed = false; phase = idle }

module _ (run : Runtime) where
  -- An instance does what its phase asks for.
  unfoldable pub act : Move → Phase → VaultHandle → VaultDisk → VaultHandle × VaultDisk
  unfolding acquire enter flush leave
  act (acquires call) idle h d = acquire call h d
  act (enters end) (holding call) h d = (enter run end call h d, d)
  act (flushes end) (flushing call before next) h d = flush end next h d
  act (leaves end) (leaving retain) h d = leave end retain h d
  act restarts phase h d = (new_handle d, d)
  act _ _ h d = (h, d)

pub record VaultWorld : Type 0 where
  pub disk : VaultDisk
  pub handles : ℕ → VaultHandle

abbrev pub set_handle : ℕ → VaultHandle → (ℕ → VaultHandle) → ℕ → VaultHandle
set_handle i h handles j = if j == i then h else handles j

module _ (run : Runtime) where
  unfoldable pub act_at : ℕ → Move → VaultWorld → VaultWorld
  unfolding act
  act_at i move w =
      let (h, d) = act run move (w.handles i).phase (w.handles i) w.disk in
      record { disk = d; handles = set_handle i h w.handles }

  -- The instances move in any order. An operator takes a lock away whose owner is dead.
  pub data VaultStep (w : VaultWorld) : VaultWorld → Type 0 where
    acts : (i : ℕ) (move : Move) → VaultStep w (act_at i move w)
    unlocks :
        ((i : ℕ) → (w.handles i).phase ≡ idle)
        → VaultStep w (record w { disk = record w.disk { locked = false } })

abbrev pub new_world : VaultWorld
new_world = record {
  disk = record { file = none; locked = false };
  handles = λ i. record { current = empty_data; write_unconfirmed = false; phase = idle };
}

pub data VaultReach (run : Runtime) : VaultWorld → Type 0 where
  begins : VaultReach run new_world
  steps : {v w : VaultWorld} → VaultReach run v → VaultStep run v w → VaultReach run w
