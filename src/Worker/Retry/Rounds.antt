-- ===== src/Worker/Retry/Rounds.antt =====
-- worker/retry.ts: how `withRetry` ends, and how long it waits.
use proofmark.Prelude.{
  ℕ, zero, suc, ◌+◌, ◌*◌, ◌/◌, ◌≤◌, ◌<◌, String, Bool, true, false, ◌||◌, ◌≡◌, refl, ◌⊎◌, inl, inr,
  List, [], ◌∷◌, length, arith, Bool-cases, Result, ok, throw,
}
use mathlib.Core.Path.{subst}
use native.Mathlib.Nat.{le-div_iff_mul-le, mul-le-mul_right, div-le_of_le-mul}
use proofmark.Worker.Retry.{
  Backoff, raw_delay, Fraction, delay_for, Moment, before_call, after_call, before_sleep, in_sleep,
  Retried, stopped_early, after_error, after_call_of, retry_from, with_retry,
}

-- A random number is at least 0 and below 1.
abbrev pub IsFraction : Fraction → Type 0
IsFraction r = r.part < r.whole

scaled_half : (raw q w p : ℕ) → q * 2 ≤ raw → q * (2 * w) ≤ raw * (w + p)
scaled_half raw q w p h = let scaled = mul-le-mul_right w h in grind arith

scaled_whole : (raw w p : ℕ) → p < w → raw * (w + p) ≤ 2 * w * raw
scaled_whole raw w p h = let scaled : raw * p ≤ raw * w = grind arith in grind arith

delay_for-bounds :
    (b : Backoff) (attempt : ℕ) (r : Fraction)
    → IsFraction r
    → (raw_delay b attempt / 2 ≤ delay_for b attempt r)
      × (delay_for b attempt r ≤ raw_delay b attempt)
unfolding delay_for
delay_for-bounds b attempt r h =
    let raw = raw_delay b attempt in
    (
      (le-div_iff_mul-le {k = 2 * r.whole} (omega arith)).1
          (scaled_half raw (raw / 2) r.whole r.part (omega arith)),
      div-le_of_le-mul (2 * r.whole) (scaled_whole raw r.whole r.part h),
    )

module _ {A : Type 0} (fn : ℕ → Result A) (aborted : ℕ → Moment → Bool) (random : ℕ → Fraction)
    (b : Backoff) where
  abbrev Fails : ℕ → Type 0
  Fails i = (e : String) × (fn i ≡ throw e)

  -- No signal around the call of round `i`.
  abbrev pub IsClear : ℕ → Type 0
  IsClear i = (aborted i before_call ≡ false) × (aborted i after_call ≡ false)

  -- Round `i` failed, and the signal did not end it or the wait after it.
  abbrev pub IsPassed : ℕ → Type 0
  IsPassed i = IsClear i × Fails i × (aborted i before_sleep ≡ false) × (aborted i in_sleep ≡ false)

  -- The signal was raised in round `i`: around the call, or in the wait after it failed.
  abbrev pub IsAborted : ℕ → Type 0
  IsAborted i =
      ((aborted i before_call ≡ true) ⊎ (aborted i after_call ≡ true))
      ⊎ (Fails i × ((aborted i before_sleep ≡ true) ⊎ (aborted i in_sleep ≡ true)))

  -- How the rounds from `i` on end, where `left` are allowed, after `waits` that failed and their delays:
  -- with a success; or as the signal was raised; or without a round; or with the error of the last.
  abbrev pub IsEnd : ℕ → ℕ → Result A → ℕ → Type 0
  IsEnd left i (ok a) waits =
      (waits < left)
      × IsClear (i + waits)
      × (fn (i + waits) ≡ ok a)
      × ((j : ℕ) → j < waits → IsPassed (i + j))
  IsEnd left i (throw e) waits =
      ((e ≡ "WORKER_STOPPED")
        × (waits < left)
        × IsAborted (i + waits)
        × ((j : ℕ) → j < waits → IsPassed (i + j)))
      ⊎ (left ≡ 0)
      ⊎ ((suc waits ≡ left)
          × IsClear (i + waits)
          × (fn (i + waits) ≡ throw e)
          × ((j : ℕ) → j < waits → IsPassed (i + j)))

  -- The delays are at least half of the backoff of their rounds and at most the whole.
  abbrev pub IsPaced : ℕ → List ℕ → Type 0
  IsPaced i [] = Unit
  IsPaced i (d ∷ ds) = ((raw_delay b i / 2 ≤ d) × (d ≤ raw_delay b i)) × IsPaced (suc i) ds

  first-IsPassed :
      (left i : ℕ)
      → IsPassed i
      → ((j : ℕ) → j < left → IsPassed (suc i + j))
      → (j : ℕ) → j < suc left
      → IsPassed (i + j)
  first-IsPassed left i h rest zero lt = subst IsPassed (omega arith) h
  first-IsPassed left i h rest (suc j) lt = subst IsPassed (omega arith) (rest j (omega arith))

  none-IsPassed : (i : ℕ) → (j : ℕ) → j < 0 → IsPassed (i + j)
  none-IsPassed i j lt = absurd (omega arith)

  IsEnd-suc :
      (left i waits : ℕ) (r : Result A)
      → IsPassed i
      → IsEnd (suc left) (suc i) r waits
      → IsEnd (suc (suc left)) i r (suc waits)
  IsEnd-suc left i waits (ok a) h (few, clear, found, rest) = (
    omega (arith, few),
    subst IsClear (omega arith) clear,
    subst (λ k. fn k ≡ ok a) (omega arith) found,
    first-IsPassed waits i h rest,
  )
  IsEnd-suc left i waits (throw e) h (inl (code, few, stop, rest)) =
      inl (
        code,
        omega (arith, few),
        subst IsAborted (omega arith) stop,
        first-IsPassed waits i h rest,
      )
  IsEnd-suc left i waits (throw e) h (inr (inl none)) = absurd (omega (arith, none))
  IsEnd-suc left i waits (throw e) h (inr (inr (all, clear, failed, rest))) = inr (
      inr (
        omega (arith, all),
        subst IsClear (omega arith) clear,
        subst (λ k. fn k ≡ throw e) (omega arith) failed,
        first-IsPassed waits i h rest,
      ))

  abbrev Ends : ℕ → ℕ → Retried A → Type 0
  Ends left i r = IsEnd left i r.result (length r.delays) × IsPaced i r.delays

  stopped-Ends : (left i : ℕ) → IsAborted i → Ends (suc left) i stopped_early
  stopped-Ends left i h =
      (inl (refl, omega arith, subst IsAborted (omega arith) h, none-IsPassed i), tt)

  -- The two looks at the signal of a wait.
  in_wait :
      (i : ℕ)
      → (aborted i before_sleep || aborted i in_sleep) ≡ true
      → (aborted i before_sleep ≡ true) ⊎ (aborted i in_sleep ≡ true)
  in_wait i h = elim (Bool-cases (aborted i before_sleep)) [
    | inl y ↦ inl y
    | inr n ↦ inr (rw n at h)
  ]

  after_error-Ends :
      (left i : ℕ) (e : String) (rest : Retried A)
      → IsFraction (random i)
      → IsClear i
      → fn i ≡ throw e
      → Ends left (suc i) rest
      → Ends (suc left) i (after_error fn aborted random b left i e rest)
  after_error-Ends zero i e rest frac clear h ends = (
    inr (
        inr (
          refl,
          subst IsClear (omega arith) clear,
          subst (λ k. fn k ≡ throw e) (omega arith) h,
          none-IsPassed i,
        )),
    tt,
  )
  after_error-Ends (suc left) i e rest frac clear h ends =
      elim (Bool-cases (aborted i before_sleep || aborted i in_sleep)) [
        | inl stop ↦ rw stop (stopped-Ends (suc left) i (inr ((e, h), in_wait i stop)))
        | inr on ↦ rw on (
          IsEnd-suc left i (length rest.delays) rest.result
              (clear, (e, h), ground arith, ground arith) ends.0,
          (delay_for-bounds b i (random i) frac, ends.1),
        )
      ]

  after_call_of-Ends :
      (left i : ℕ) (answer : Result A) (rest : Retried A)
      → IsFraction (random i)
      → IsClear i
      → fn i ≡ answer
      → Ends left (suc i) rest
      → Ends (suc left) i (after_call_of fn aborted random b answer left i rest)
  after_call_of-Ends left i (ok a) rest frac clear h ends = (
    (
      omega arith,
      subst IsClear (omega arith) clear,
      subst (λ k. fn k ≡ ok a) (omega arith) h,
      none-IsPassed i,
    ),
    tt,
  )
  after_call_of-Ends left i (throw e) rest frac clear h ends =
      after_error-Ends left i e rest frac clear h ends

  retry_from-Ends :
      (left i : ℕ)
      → ((k : ℕ) → IsFraction (random k))
      → Ends left i (retry_from fn aborted random b left i)
  unfolding retry_from
  retry_from-Ends zero i frac = (inr (inl refl), tt)
  retry_from-Ends (suc left) i frac = elim (Bool-cases (aborted i before_call)) [
    | inl stop ↦ rw stop (stopped-Ends left i (inl (inl stop)))
    | inr on ↦ elim (Bool-cases (aborted i after_call)) [
      | inl stop ↦ rw (on, stop) (stopped-Ends left i (inl (inr stop)))
      | inr on' ↦
          rw (on, on')
            (after_call_of-Ends left i (fn i) _ (frac i) (on, on') refl
              (retry_from-Ends left (suc i) frac))
    ]
  ]

  -- Where each random number is at least 0 and below 1: `withRetry` returns the first success within its
  -- attempts, after one delay for each failure before
  -- it; or throws the error of the last attempt, when all have failed; or throws that it was stopped, in an
  -- attempt where the signal was raised around the call, or after the call failed; or had no attempts. In
  -- the attempts before all failed, and in none was the signal raised, nor around the call of the attempt
  -- that returned or threw its own error. Each delay is between half of its backoff and the whole.
  pub with_retry-IsEnd :
      (attempts : ℕ)
      → ((k : ℕ) → IsFraction (random k))
      → (IsEnd attempts 0
          (with_retry fn aborted random b attempts).result
          (length (with_retry fn aborted random b attempts).delays))
        × IsPaced 0 (with_retry fn aborted random b attempts).delays
  unfolding with_retry
  with_retry-IsEnd attempts frac = retry_from-Ends attempts 0 frac
