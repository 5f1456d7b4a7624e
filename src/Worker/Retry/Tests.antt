-- ===== src/Worker/Retry/Tests.antt =====
-- worker/retry.ts on a call that fails twice.
use proofmark.Prelude.{
  ℕ, zero, suc, ◌≡◌, refl, arith, Bool, false, [], ◌∷◌, Result, ok, throw, length,
}
use proofmark.Worker.Retry.{default_backoff, Fraction, Moment, delay_for, retry_from, with_retry}
use proofmark.Worker.Retry.Rounds.{IsEnd, IsPaced, with_retry-IsEnd}

abbrev flaky : ℕ → Result ℕ
flaky zero = throw "ECONNRESET"
flaky (suc zero) = throw "ETIMEDOUT"
flaky (suc (suc n)) = ok 7

abbrev never : ℕ → Moment → Bool
never i m = false

abbrev half : ℕ → Fraction
half i = record { part = 1; whole = 2 }

third_try :
    with_retry flaky never half default_backoff 6
    ≡ record { result = ok 7; delays = 750 ∷ 1500 ∷ [] }
unfolding with_retry retry_from delay_for
third_try = refl

given_up :
    with_retry flaky never half default_backoff 2
    ≡ record { result = throw "ETIMEDOUT"; delays = 750 ∷ [] }
unfolding with_retry retry_from delay_for
given_up = refl

with_retry-IsEnd_example :
    (IsEnd flaky never half default_backoff 6 0
      (with_retry flaky never half default_backoff 6).result
      (length (with_retry flaky never half default_backoff 6).delays))
    × IsPaced flaky never half default_backoff 0
        (with_retry flaky never half default_backoff 6).delays
with_retry-IsEnd_example = with_retry-IsEnd flaky never half default_backoff 6 (λ k. omega arith)
