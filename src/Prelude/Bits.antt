-- ===== src/Prelude/Bits.antt =====
-- `|` of numbers with no common digit, and `&` with a mask of ones.
use Prim.Native.Nat.{
  ℕ, zero, suc, ◌+◌, ◌-◌, ◌*◌, ◌/◌, ◌%◌, ◌^◌, ◌≤◌, ◌<◌, min, max, bit_and, bit_or, digits,
  bit_and-bitwise, bit_or-bitwise,
}
use mathlib.Core.Path.{◌≡◌, refl}
use native.Mathlib.Omega.{arith}

module _ (z : ℕ → ℕ) (f : ℕ → ℕ → ℕ) where
  abbrev combine : ℕ → ℕ → ℕ → ℕ
  combine n a b = digits z f n a b

  -- Any count of digits that the first number does not exceed gives the same.
  combine_fuel : (n m a b : ℕ) → a ≤ n → a ≤ m → combine n a b ≡ combine m a b
  combine_fuel zero zero a b p q = refl
  combine_fuel zero (suc m) zero b p q = refl
  combine_fuel zero (suc m) (suc a) b p q = absurd (omega arith)
  combine_fuel (suc n) zero zero b p q = refl
  combine_fuel (suc n) zero (suc a) b p q = absurd (omega arith)
  combine_fuel (suc n) (suc m) zero b p q = refl
  combine_fuel (suc n) (suc m) (suc a) b p q =
      omega (arith, combine_fuel n m (suc a / 2) (b / 2) (omega arith) (omega arith))

  combine_step :
      (a b : ℕ)
      → combine (suc a) (suc a) b
        ≡ combine (suc a / 2) (suc a / 2) (b / 2) * 2 + f (suc a % 2) (b % 2)
  combine_step a b =
      omega (arith, combine_fuel a (suc a / 2) (suc a / 2) (b / 2) (omega arith) (omega arith))

or_step : (a b : ℕ) → bit_or a b ≡ bit_or (a / 2) (b / 2) * 2 + max (a % 2) (b % 2)
or_step zero b = omega (arith, bit_or-bitwise 0 b, bit_or-bitwise 0 (b / 2))
or_step (suc a) b = omega (
  arith,
  bit_or-bitwise (suc a) b,
  bit_or-bitwise (suc a / 2) (b / 2),
  combine_step (λ b. b) max a b,
)

and_step : (a b : ℕ) → bit_and a b ≡ bit_and (a / 2) (b / 2) * 2 + min (a % 2) (b % 2)
and_step zero b = omega (arith, bit_and-bitwise 0 b, bit_and-bitwise 0 (b / 2))
and_step (suc a) b = omega (
  arith,
  bit_and-bitwise (suc a) b,
  bit_and-bitwise (suc a / 2) (b / 2),
  combine_step (λ b. zero) min a b,
)

or-zero : (n a : ℕ) → a ≤ n → bit_or a 0 ≡ a
or-zero n zero h = bit_or-bitwise 0 0
or-zero zero (suc a) h = absurd (omega arith)
or-zero (suc n) (suc a) h = omega (arith, or_step (suc a) 0, or-zero n (suc a / 2) (omega arith))

and-zero : (n a : ℕ) → a ≤ n → bit_and a 0 ≡ 0
and-zero n zero h = bit_and-bitwise 0 0
and-zero zero (suc a) h = absurd (omega arith)
and-zero (suc n) (suc a) h = omega (arith, and_step (suc a) 0, and-zero n (suc a / 2) (omega arith))

pow_suc : (k : ℕ) → 2 ^ suc k ≡ 2 ^ k + 2 ^ k
pow_suc k = omega arith

shift_suc : (k a : ℕ) → a * 2 ^ suc k ≡ a * 2 ^ k + a * 2 ^ k
shift_suc k a = grind (arith, pow_suc k)

-- `(a << k) | b`, where `b` has at most `k` digits.
pub bit_or-shift : (k a b : ℕ) → b < 2 ^ k → bit_or (a * 2 ^ k) b ≡ a * 2 ^ k + b
bit_or-shift zero a b h =
    let e : b ≡ 0 = omega arith in rw e (omega (arith, or-zero (a * 1) (a * 1) (omega arith)))
bit_or-shift (suc k) a b h =
    let half : (a * 2 ^ suc k) / 2 ≡ a * 2 ^ k = omega (arith, shift_suc k a) in
    let below : b / 2 < 2 ^ k = omega (arith, pow_suc k) in
    let step = or_step (a * 2 ^ suc k) b in
    omega (arith, rw half at step, bit_or-shift k a (b / 2) below, shift_suc k a)

-- `a & m`, where `m` is `k` ones and `r` the lowest `k` digits of `a`.
pub bit_and-mask : (k q r : ℕ) → r < 2 ^ k → bit_and (q * 2 ^ k + r) (2 ^ k - 1) ≡ r
bit_and-mask zero q r h = omega (arith, and-zero (q * 1 + r) (q * 1 + r) (omega arith))
bit_and-mask (suc k) q r h =
    let half : (q * 2 ^ suc k + r) / 2 ≡ q * 2 ^ k + r / 2 = omega (arith, shift_suc k q) in
    let mask : (2 ^ suc k - 1) / 2 ≡ 2 ^ k - 1 = omega (arith, pow_suc k) in
    let step = and_step (q * 2 ^ suc k + r) (2 ^ suc k - 1) in
    omega (
      arith,
      rw (half, mask) at step,
      bit_and-mask k q (r / 2) (omega (arith, pow_suc k)),
      shift_suc k q,
      pow_suc k,
    )
