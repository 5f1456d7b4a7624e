-- ===== src/Vault/Kept.antt =====
-- pipeline/vault.ts: what no call takes back: a block, and the time of retention.
use Prim.Native.Nat.{max}
use proofmark.Prelude.{
  ℕ, ◌≤◌, String, true, false, some, ◌≡◌, refl, sym, ap, inl, inr, arith, str_eq, str_eq_iff,
  Bool-cases, ok,
}
use mathlib.Core.Path.{subst}
use proofmark.Prelude.Dict.{lookup, lookup-insert, lookup-remove}
use proofmark.Vault.Data.{VaultRecord, VaultData, Runtime, is_blocked}
use proofmark.Vault.Blockers.{controls, or_zero, retention_deadline}
use proofmark.Vault.Outbox.{has_open_job}
use proofmark.Vault.Calls.{VaultCall, VaultRun, called, mutate}
use proofmark.Vault.Effects.{
  Change, keeps, adds, moves, manages, delivers, recovers, removes, Queues, queue, Erasing, erasing,
  Clears, Moves,
}
use proofmark.Vault.Changes.{mutate-Change}
use proofmark.Vault.Sound.{VaultRun-IsSound}
use proofmark.Vault.Erasure.{Queues-records, Erasing-same}

-- A record that is there before and after a change: unchanged, or after a decision on it.
data Kept (call : VaultCall) (id : String) (d : VaultData) (r : VaultRecord)
    : VaultRecord → Type 0 where
  untouched : {s : VaultRecord} → r ≡ s → Kept call id d r s
  moved : {s : VaultRecord} → Moves call id d r s → Kept call id d r s

module _ {run : Runtime} where
  Erasing-lookup :
      {now : ℕ} {d e : VaultData} (id : String) {s : VaultRecord}
      → Erasing run now d e
      → lookup id e.records ≡ some s
      → lookup id d.records ≡ some s
  Erasing-lookup id Erasing.nothing found = found
  Erasing-lookup id (erasing {e} t r q stored free requested) found =
      Erasing-lookup id t (ground (arith, lookup-remove r.id id e.records))

  Change-Kept :
      {call : VaultCall} {d e : VaultData} (id : String) {r s : VaultRecord}
      → Change run call d e
      → lookup id d.records ≡ some r
      → lookup id e.records ≡ some s
      → Kept call id d r s
  Change-Kept id keeps found after' = untouched (ground arith)
  Change-Kept {d = d} id (adds t new free) found after' =
      untouched (ground (arith, lookup-insert t.id id t d.records, str_eq_iff t.id id))
  Change-Kept {call} {d = d} id {r} {s} (moves j t u stored m q) found after' =
      elim (Bool-cases (str_eq j id)) [
        | inr n ↦
            untouched
              (ground (arith, lookup-insert j id u d.records, ap (lookup id) (Queues-records q)))
        | inl y ↦
            let same : j ≡ id = (str_eq_iff j id).0 y in
            let before : t ≡ r = ground arith in
            let later : u ≡ s =
              ground (arith, lookup-insert j id u d.records, ap (lookup id) (Queues-records q)) in
            moved (
              subst (λ x. Moves call id d r x) later
                (subst (λ x. Moves call id d x u) before (subst (λ x. Moves call x d t u) same m)))
      ]
  Change-Kept id (manages j c m) found after' = untouched (ground arith)
  Change-Kept id (delivers j a b stored m) found after' = untouched (ground arith)
  Change-Kept id (recovers q) found after' =
      untouched (ground (arith, ap (lookup id) (Queues-records q)))
  Change-Kept id {s = s} (removes now c t) found after' =
      let before = Erasing-lookup id {s = s} t after' in untouched (ground arith)

  Queues-retention : {d e : VaultData} → Queues run d e → e.retention ≡ d.retention
  Queues-retention Queues.nothing = refl
  Queues-retention (queue q r now free new) = Queues-retention q

  -- The least time that an extension set does not fall.
  Change-minimum :
      {call : VaultCall} {d e : VaultData} (id : String)
      → Change run call d e
      → or_zero (controls id d).minimum_until ≤ or_zero (controls id e).minimum_until
  Change-minimum id keeps = omega arith
  Change-minimum id (adds t new free) = omega arith
  Change-minimum id (moves j t u stored m q) = rw (Queues-retention q) (omega arith)
  Change-minimum {d = d} id (manages j c m) = elim (Bool-cases (str_eq j id)) [
    | inl y ↦ rw (lookup-insert j id c d.retention, y) (rw ((str_eq_iff j id).0 y) at m.extended)
    | inr n ↦ rw (lookup-insert j id c d.retention, n) (omega arith)
  ]
  Change-minimum id (delivers j a b stored m) = omega arith
  Change-minimum id (recovers q) = rw (Queues-retention q) (omega arith)
  Change-minimum id (removes now c t) = rw (Erasing-same t).0 (omega arith)

Kept-until :
    {call : VaultCall} {id : String} {d : VaultData} {r s : VaultRecord}
    → Kept call id d r s
    → s.retention_until ≡ r.retention_until
Kept-until (untouched e) = sym (ap (λ (x : VaultRecord). x.retention_until) e)
Kept-until (moved m) = m.same_until

Kept-blocked :
    {call : VaultCall} {id : String} {d : VaultData} {r s : VaultRecord}
    → Kept call id d r s
    → is_blocked r.state ≡ true
    → is_blocked s.state ≡ false
    → Clears id call × (has_open_job id d ≡ false)
Kept-blocked (untouched e) b n =
    absurd (ground (arith, ap (λ (x : VaultRecord). is_blocked x.state) e))
Kept-blocked (moved m) b n = m.unblocks b n

deadline_mono :
    (r s : VaultRecord) (d e : VaultData) (id : String)
    → r.id ≡ id
    → s.id ≡ id
    → s.retention_until ≡ r.retention_until
    → or_zero (controls id d).minimum_until ≤ or_zero (controls id e).minimum_until
    → retention_deadline r d ≤ retention_deadline s e
unfolding retention_deadline
deadline_mono r s d e id i j u m =
    subst
      (λ x. max r.retention_until (or_zero (controls x d).minimum_until) ≤ retention_deadline s e)
      (sym i)
      (subst
        (λ x.
          max r.retention_until (or_zero (controls id d).minimum_until)
          ≤ max s.retention_until (or_zero (controls x e).minimum_until))
        (sym j) (omega arith))

module _ (run : Runtime) {d e : VaultData} (ran : VaultRun run d) (call : VaultCall)
    (h : mutate run call d ≡ ok e) (id : String) (r s : VaultRecord)
    (found : lookup id d.records ≡ some r) (later : lookup id e.records ≡ some s) where
  mutate-Kept : Kept call id d r s
  mutate-Kept =
      let v = VaultRun-IsSound run ran in
      let (f, c, eq) = mutate-Change run call d v.keyed v.unique h in
      Change-Kept id {r = r} {s = s} c found (rw eq at later)

  -- A record that is blocked before a call of the vault and is there afterwards is blocked then too,
  -- unless the call is a review that clears it, with none of its revocations open.
  pub mutate-unblocks :
      is_blocked r.state ≡ true
      → is_blocked s.state ≡ false
      → Clears id call × (has_open_job id d ≡ false)
  mutate-unblocks = Kept-blocked mutate-Kept

  -- The time until which a record is retained is no earlier after a call of the vault than before it.
  pub mutate-deadline : retention_deadline r d ≤ retention_deadline s e
  mutate-deadline =
      let v = VaultRun-IsSound run ran in
      let w = VaultRun-IsSound run (called ran call h) in
      let (f, c, eq) = mutate-Change run call d v.keyed v.unique h in
      deadline_mono r s d e id (v.keyed id r found) (w.keyed id s later) (Kept-until mutate-Kept)
        (rw eq (Change-minimum id c))
