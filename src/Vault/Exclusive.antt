-- ===== src/Vault/Exclusive.antt =====
-- pipeline/vault.ts: one instance at a time is between taking the lock and giving it back, so the file
-- changes only by whole operations on what it has.
use proofmark.Prelude.{
  ℕ, Bool, true, false, ◌||◌, Option, ◌==◌, ◌≡◌, refl, sym, ◌∙◌, ◌⊎◌, inl, inr, arith, Bool-cases,
  Result, ok, throw,
}
use mathlib.Core.Path.{subst}
use proofmark.Vault.Data.{VaultData, Runtime}
use proofmark.Vault.Calls.{VaultCall, VaultRun, empty, called, mutate}
use proofmark.Vault.Locking.{
  Phase, idle, holding, flushing, leaving, VaultHandle, VaultDisk, EnterEnd, lock_unwritten,
  unreadable, entered, FlushEnd, flushed, unflushed, renamed, LeaveEnd, left, unclosed, unremoved,
  load, acquire, operated, enter, flush, leave, Move, acquires, enters, flushes, leaves, restarts,
  new_handle, act, VaultWorld, act_at, VaultStep, acts, unlocks, VaultReach, begins, steps,
}

abbrev pub IsActive : Phase → Type 0
IsActive idle = ⊥
IsActive _ = Unit

module _ (run : Runtime) where
  -- The file still has what the instance loaded, and the operation gave what is to be written.
  abbrev pub IsCurrent : Phase → Option VaultData → Type 0
  IsCurrent (flushing call before next) file =
      (load file ≡ before) × (mutate run call before ≡ ok next)
  IsCurrent _ file = Unit

  pub record IsHeld (h : VaultHandle) (d : VaultDisk) : Type 0 where
    pub held : IsActive h.phase → d.locked ≡ true
    pub fresh : IsCurrent h.phase d.file

  -- The file is as it was, or one operation on its data has been written.
  abbrev pub Refines : Option VaultData → Option VaultData → Type 0
  Refines file after =
      (load after ≡ load file)
      ⊎ ((call : VaultCall) × (mutate run call (load file) ≡ ok (load after)))

  -- What a move of one instance may do to the disk, seen from the others.
  pub data Frame (p q : Phase) (d e : VaultDisk) : Type 0 where
    leaves_disk : e ≡ d → (IsActive q → IsActive p) → Frame p q d e
    takes_lock : d.locked ≡ false → e.file ≡ d.file → Frame p q d e
    uses_lock : IsActive p → Frame p q d e

  pub record Moves (h k : VaultHandle) (d e : VaultDisk) : Type 0 where
    pub holds : IsHeld k e
    pub refines : Refines d.file e.file
    pub frame : Frame h.phase k.phase d e

  stays : (h : VaultHandle) (d : VaultDisk) → IsHeld h d → Moves h h d d
  stays h d g = record { holds = g; refines = inl refl; frame = leaves_disk refl (λ a. a) }

  acquire-Moves :
      (call : VaultCall) (h : VaultHandle) (d : VaultDisk)
      → IsHeld h d
      → Moves h (acquire call h d).0 d (acquire call h d).1
  unfolding acquire
  acquire-Moves call h d g = elim (Bool-cases (h.write_unconfirmed || d.locked)) [
    | inl y ↦ rw y (stays h d g)
    | inr n ↦ rw n (record {
      holds = record { held = λ a. refl; fresh = tt };
      refines = inl refl;
      frame = takes_lock (ground arith) refl;
    })
  ]

  -- The owner of the lock moves on to `finally`, or writes, with the lock where it is.
  owns-Moves :
      (h k : VaultHandle) (d e : VaultDisk)
      → IsActive h.phase
      → (IsActive k.phase → e.locked ≡ true)
      → IsCurrent k.phase e.file
      → Refines d.file e.file
      → Moves h k d e
  owns-Moves h k d e a l c r = record {
    holds = record { held = l; fresh = c };
    refines = r;
    frame = uses_lock a;
  }

  operated-Moves :
      (call : VaultCall) (h : VaultHandle) (d : VaultDisk) (r : Result VaultData)
      → IsActive h.phase
      → d.locked ≡ true
      → mutate run call (load d.file) ≡ r
      → Moves h (operated run call h d r) d d
  operated-Moves call h d (throw e) a l m = owns-Moves h _ d d a (λ _. l) tt (inl refl)
  operated-Moves call h d (ok next) a l m = owns-Moves h _ d d a (λ _. l) (refl, m) (inl refl)

  enter-Moves :
      (end : EnterEnd) (call : VaultCall) (h : VaultHandle) (d : VaultDisk)
      → IsActive h.phase
      → d.locked ≡ true
      → Moves h (enter run end call h d) d d
  unfolding enter
  enter-Moves lock_unwritten call h d a l = owns-Moves h _ d d a (λ _. l) tt (inl refl)
  enter-Moves unreadable call h d a l = owns-Moves h _ d d a (λ _. l) tt (inl refl)
  enter-Moves entered call h d a l =
      operated-Moves call h d (mutate run call (load d.file)) a l refl

  flush-Moves :
      (end : FlushEnd) (call : VaultCall) (before next : VaultData) (h : VaultHandle)
      (d : VaultDisk)
      → IsActive h.phase
      → d.locked ≡ true
      → load d.file ≡ before
      → mutate run call before ≡ ok next
      → Moves h (flush end next h d).0 d (flush end next h d).1
  unfolding flush
  flush-Moves flushed call before next h d a l same m =
      owns-Moves h _ d _ a (λ _. l) tt
        (inr (call, subst (λ x. mutate run call x ≡ ok next) (sym same) m))
  flush-Moves unflushed call before next h d a l same m =
      owns-Moves h _ d _ a (λ _. l) tt (inl refl)
  flush-Moves renamed call before next h d a l same m =
      owns-Moves h _ d _ a (λ _. l) tt
        (inr (call, subst (λ x. mutate run call x ≡ ok next) (sym same) m))

  leave-Moves :
      (end : LeaveEnd) (retain : Bool) (h : VaultHandle) (d : VaultDisk)
      → IsActive h.phase
      → Moves h (leave end retain h d).0 d (leave end retain h d).1
  unfolding leave
  leave-Moves left true h d a = owns-Moves h _ d _ a (λ n. absurd n) tt (inl refl)
  leave-Moves left false h d a = owns-Moves h _ d _ a (λ n. absurd n) tt (inl refl)
  leave-Moves unclosed retain h d a = owns-Moves h _ d _ a (λ n. absurd n) tt (inl refl)
  leave-Moves unremoved true h d a = owns-Moves h _ d _ a (λ n. absurd n) tt (inl refl)
  leave-Moves unremoved false h d a = owns-Moves h _ d _ a (λ n. absurd n) tt (inl refl)

  restart-Moves : (h : VaultHandle) (d : VaultDisk) → Moves h (new_handle d) d d
  restart-Moves h d = record {
    holds = record { held = λ n. absurd n; fresh = tt };
    refines = inl refl;
    frame = leaves_disk refl (λ n. absurd n);
  }

  act-Moves :
      (move : Move) (p : Phase) (h : VaultHandle) (d : VaultDisk)
      → h.phase ≡ p
      → IsHeld h d
      → Moves h (act run move p h d).0 d (act run move p h d).1
  unfolding act
  act-Moves (acquires call) idle h d e g = acquire-Moves call h d g
  act-Moves (enters end) (holding call) h d e g =
      let a = subst IsActive (sym e) tt in enter-Moves end call h d a (g.held a)
  act-Moves (flushes end) (flushing call before next) h d e g =
      let a = subst IsActive (sym e) tt in
      let c = subst (λ p. IsCurrent p d.file) e g.fresh in
      flush-Moves end call before next h d a (g.held a) c.0 c.1
  act-Moves (leaves end) (leaving retain) h d e g =
      leave-Moves end retain h d (subst IsActive (sym e) tt)
  act-Moves restarts p h d e g = restart-Moves h d
  act-Moves _ _ h d e g = stays h d g

  pub record IsExclusive (w : VaultWorld) : Type 0 where
    pub holds : (i : ℕ) → IsHeld (w.handles i) w.disk
    pub alone : (i j : ℕ) → IsActive (w.handles i).phase → IsActive (w.handles j).phase → i ≡ j
    pub reached : VaultRun run (load w.disk.file)

  idle-IsCurrent : (p : Phase) (file : Option VaultData) → (IsActive p → ⊥) → IsCurrent p file
  idle-IsCurrent idle file n = tt
  idle-IsCurrent (holding call) file n = tt
  idle-IsCurrent (leaving retain) file n = tt
  idle-IsCurrent (flushing call before next) file n = absurd (n tt)

  -- An instance that does not move keeps the lock, or has none.
  other-IsHeld :
      (w : VaultWorld) (i j : ℕ) (q : Phase) (e : VaultDisk)
      → IsExclusive w
      → (j ≡ i → ⊥)
      → Frame (w.handles i).phase q w.disk e
      → IsHeld (w.handles j) e
  other-IsHeld w i j q e x ne (leaves_disk same a) =
      subst (IsHeld (w.handles j)) (sym same) (x.holds j)
  other-IsHeld w i j q e x ne (takes_lock free same) =
      let out : IsActive (w.handles j).phase → ⊥ =
        λ b. absurd (ground (arith, (x.holds j).held b)) in
      record {
        held = λ b. absurd (out b);
        fresh = subst (IsCurrent (w.handles j).phase) (sym same) (x.holds j).fresh;
      }
  other-IsHeld w i j q e x ne (uses_lock a) =
      let out : IsActive (w.handles j).phase → ⊥ = λ b. ne (x.alone j i b a) in
      record { held = λ b. absurd (out b); fresh = idle-IsCurrent _ e.file out }

  other-idle :
      (w : VaultWorld) (i j : ℕ) (q : Phase) (e : VaultDisk)
      → IsExclusive w
      → (j ≡ i → ⊥)
      → Frame (w.handles i).phase q w.disk e
      → IsActive q
      → IsActive (w.handles j).phase
      → ⊥
  other-idle w i j q e x ne (leaves_disk same a) own b = ne (x.alone j i b (a own))
  other-idle w i j q e x ne (takes_lock free same) own b = ground (arith, (x.holds j).held b)
  other-idle w i j q e x ne (uses_lock a) own b = ne (x.alone j i b a)

  ==-cases : (j i : ℕ) → ((j == i) ≡ true) × (j ≡ i) ⊎ ((j == i) ≡ false) × (j ≡ i → ⊥)
  ==-cases j i = elim (Bool-cases (j == i)) [
    | inl y ↦ inl (y, ground arith)
    | inr n ↦ inr (n, λ e. absurd (ground arith))
  ]

  Refines-VaultRun :
      (file after : Option VaultData)
      → VaultRun run (load file)
      → Refines file after
      → VaultRun run (load after)
  Refines-VaultRun file after r (inl same) = subst (VaultRun run) (sym same) r
  Refines-VaultRun file after r (inr (call, m)) = called r call m

  act_at-IsExclusive :
      (i : ℕ) (move : Move) (w : VaultWorld) → IsExclusive w → IsExclusive (act_at run i move w)
  unfolding act_at
  act_at-IsExclusive i move w x =
      let m = act-Moves move (w.handles i).phase (w.handles i) w.disk refl (x.holds i) in
      record {
        holds = λ j. elim (==-cases j i) [
          | inl (y, same) ↦ rw y m.holds
          | inr (n, ne) ↦ rw n (other-IsHeld w i j _ _ x ne m.frame)
        ];
        alone = λ j l a b. elim (==-cases j i) [
          | inl (y, same) ↦ elim (==-cases l i) [
            | inl (z, also) ↦ same ∙ sym also
            | inr (n, ne) ↦ absurd (other-idle w i l _ _ x ne m.frame (rw y at a) (rw n at b))
          ]
          | inr (k, nk) ↦ elim (==-cases l i) [
            | inl (z, also) ↦ absurd (other-idle w i j _ _ x nk m.frame (rw z at b) (rw k at a))
            | inr (n, ne) ↦ x.alone j l (rw k at a) (rw n at b)
          ]
        ];
        reached =
            Refines-VaultRun w.disk.file
              (act run move (w.handles i).phase (w.handles i) w.disk).1.file x.reached m.refines;
      }

  idle_at : (w : VaultWorld) (i : ℕ) → (w.handles i).phase ≡ idle → IsActive (w.handles i).phase → ⊥
  idle_at w i e a = subst IsActive e a

  step-IsExclusive : (w v : VaultWorld) → IsExclusive w → VaultStep run w v → IsExclusive v
  step-IsExclusive w _ x (acts i move) = act_at-IsExclusive i move w x
  step-IsExclusive w _ x (unlocks rest) = record {
    holds = λ i. record { held = λ a. absurd (idle_at w i (rest i) a); fresh = (x.holds i).fresh };
    alone = x.alone;
    reached = x.reached;
  }

  VaultReach-IsExclusive : (w : VaultWorld) → VaultReach run w → IsExclusive w
  VaultReach-IsExclusive _ begins = record {
    holds = λ i. record { held = λ a. absurd a; fresh = tt };
    alone = λ i j a. absurd a;
    reached = empty;
  }
  VaultReach-IsExclusive w (steps {v} before step) =
      step-IsExclusive v w (VaultReach-IsExclusive v before) step

  -- Whatever instances in whatever processes do, in any order, with any ends of their calls of the file
  -- system, and wherever a process ends: at most one instance is between taking the lock and giving it
  -- back, the file has data that whole calls of the vault lead to, and each step leaves them alone or
  -- replaces them by what `mutate` gives for some call on just these data.
  pub VaultStep-Refines :
      (w v : VaultWorld)
      → VaultReach run w
      → VaultStep run w v
      → IsExclusive w × Refines w.disk.file v.disk.file
  unfolding act_at
  VaultStep-Refines w _ r (acts i move) =
      let x = VaultReach-IsExclusive w r in
      (x, (act-Moves move (w.handles i).phase (w.handles i) w.disk refl (x.holds i)).refines)
  VaultStep-Refines w _ r (unlocks rest) = (VaultReach-IsExclusive w r, inl refl)
