-- ===== src/Prelude/Outcome.antt =====
-- A JavaScript call returns a value or throws; the thrown error is named by its code.
use Prim.Native.String.{String}
use mathlib.Core.Path.{◌≡◌, refl, subst}
use native.Mathlib.Omega.{arith}
use mathlib.Core.Bool.{Bool, true, false}

pub data Result {ℓ} (A : Type ℓ) : Type ℓ where
  ok : A → Result A
  throw : String → Result A

infixl 5 ◌>>=◌ ◌>>◌
abbrev pub ◌>>=◌ {ℓ κ} :
    {Before : Type ℓ} {After : Type κ} (call : Result Before)
    → (Before → Result After)
    → Result After
throw code >>= next = throw code
ok value >>= next = next value

abbrev pub ◌>>◌ {ℓ} : {After : Type ℓ} (call : Result (Unit {0})) → Result After → Result After
call >> rest = call >>= λ nothing. rest

-- `if (!b) throw e`
abbrev pub require : Bool → String → Result (Unit {0})
require true e = ok tt
require false e = throw e

-- `if (b) throw e`
abbrev pub refuse : Bool → String → Result (Unit {0})
refuse true e = throw e
refuse false e = ok tt

-- A chain that returned: its first call returned, and so did the rest.
pub >>=-eq-ok {ℓ κ} :
    {Before : Type ℓ} {After : Type κ} (call : Result Before) (next : Before → Result After)
    {last : After}
    → (call >>= next) ≡ ok last
    → (first : Before) × (call ≡ ok first) × (next first ≡ ok last)
>>=-eq-ok (throw code) next chain = cc
>>=-eq-ok (ok value) next chain = (value, refl, chain)

-- `P` holds of the value, if one is returned.
pub data Yields {ℓ} {A : Type ℓ} (P : A → Type ℓ) : Result A → Type ℓ where
  returns : {a : A} → P a → Yields P (ok a)
  throws : {e : String} → Yields P (throw e)

module _ {ℓ} {A B : Type ℓ} {P : B → Type ℓ} where
  -- The rule for a chain: what follows may use that the first call returned.
  pub after :
      (m : Result A) {f : A → Result B} → ((a : A) → m ≡ ok a → Yields P (f a)) → Yields P (m >>= f)
  after (ok a) k = k a refl
  after (throw e) k = throws

module _ {ℓ} {A : Type ℓ} {P : A → Type ℓ} where
  pub yielded : {m : Result A} {a : A} → Yields P m → m ≡ ok a → P a
  yielded (returns h) e = subst P (ground arith) h
  yielded throws e = absurd (ground arith)

  pub weaken : {Q : A → Type ℓ} {m : Result A} → ((a : A) → P a → Q a) → Yields P m → Yields Q m
  weaken f (returns h) = returns (f _ h)
  weaken f throws = throws

pub ok-injective {ℓ} : {A : Type ℓ} {a b : A} → ok a ≡ ok b → a ≡ b
ok-injective h = ground arith

pub refused : (b : Bool) (e : String) {u : Unit {0}} → refuse b e ≡ ok u → b ≡ false
refused false e h = refl
refused true e h = absurd (ground arith)

pub required : (b : Bool) (e : String) {u : Unit {0}} → require b e ≡ ok u → b ≡ true
required true e h = refl
required false e h = absurd (ground arith)
