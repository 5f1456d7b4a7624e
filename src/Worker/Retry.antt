-- ===== src/Worker/Retry.antt =====
-- worker/retry.ts: `Backoff` and `withRetry`. The calls of the function, the signal and the random numbers
-- are functions of the round; a random number is a fraction below 1.
pub mod Rounds
pub mod Tests
use proofmark.Prelude.{
  ℕ, zero, suc, ◌+◌, ◌*◌, ◌/◌, ◌^◌, min, String, Bool, true, false, ◌||◌, List, [], ◌∷◌, ◌==◌,
  if◌then◌else◌, Result, ok, throw,
}

pub record Backoff : Type 0 where
  pub base_ms : ℕ
  pub max_ms : ℕ
  pub factor : ℕ

abbrev pub default_backoff : Backoff
default_backoff = record { base_ms = 1000; max_ms = 60000; factor = 2 }

-- `part / whole`, a value of `Math.random()`.
pub record Fraction : Type 0 where
  pub part : ℕ
  pub whole : ℕ

abbrev pub raw_delay : Backoff → ℕ → ℕ
raw_delay b attempt = min b.max_ms (b.base_ms * b.factor ^ attempt)

-- `Math.floor(raw * (0.5 + random * 0.5))`
unfoldable pub delay_for : Backoff → ℕ → Fraction → ℕ
delay_for b attempt random = raw_delay b attempt * (random.whole + random.part) / (2 * random.whole)

-- Where a round looks at the signal: before the call, after it, and before and in the sleep.
pub data Moment : Type 0 where
  before_call after_call before_sleep in_sleep : Moment

-- The result of `withRetry`, with the delays that it slept.
pub record Retried (A : Type 0) : Type 0 where
  pub result : Result A
  pub delays : List ℕ

abbrev pub stopped_early : {A : Type 0} → Retried A
stopped_early = record { result = throw "WORKER_STOPPED"; delays = [] }

module _ {A : Type 0} (fn : ℕ → Result A) (aborted : ℕ → Moment → Bool) (random : ℕ → Fraction)
    (b : Backoff) where
  -- The catch block of round `i`, where `left` rounds are left behind it and `rest` is what they give.
  abbrev pub after_error : ℕ → ℕ → String → Retried A → Retried A
  after_error zero i e rest = record { result = throw e; delays = [] }
  after_error (suc left) i e rest =
      if aborted i before_sleep || aborted i in_sleep
      then stopped_early
      else record rest { delays = delay_for b i (random i) ∷ rest.delays }

  abbrev pub after_call_of : Result A → ℕ → ℕ → Retried A → Retried A
  after_call_of (ok a) left i rest = record { result = ok a; delays = [] }
  after_call_of (throw e) left i rest = after_error left i e rest

  -- The loop, from round `i` on. Without a round the error that is thrown is `undefined`.
  unfoldable pub retry_from : ℕ → ℕ → Retried A
  unfolding delay_for
  retry_from zero i = record { result = throw "undefined"; delays = [] }
  retry_from (suc left) i =
      let rest = retry_from left (suc i) in
      if aborted i before_call
      then stopped_early
      else if aborted i after_call
      then stopped_early
      else after_call_of (fn i) left i rest

  unfoldable pub with_retry : ℕ → Retried A
  unfolding retry_from
  with_retry attempts = retry_from attempts 0
