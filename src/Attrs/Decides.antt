-- ===== src/Attrs/Decides.antt =====
-- pipeline/attrs.ts: `packAttrs`, `unpackAttrs` and `validCredentialAttrs` against each other.
use Prim.Native.Nat.{bit_and}
use proofmark.Prelude.{
  ℕ, suc, ◌+◌, ◌-◌, ◌*◌, ◌/◌, ◌%◌, ◌^◌, ◌≤◌, ◌<◌, ◌≡◌, refl, String, true, ◌⊎◌, inl, inr, Option,
  arith, ltb, leb, ◌==◌, List, [], ◌∷◌, Bool-cases, is_safe_integer, Result, ok, throw, all, length,
  All, all→All, ==→eq,
}
use mathlib.Core.Path.{◌∙◌, ap}
use native.Mathlib.Nat.{pow-suc}
use proofmark.Prelude.Text.{Text}
use proofmark.Prelude.Bits.{bit_and-mask}
use proofmark.Roster.Proof.{is_hex_word, is_hex_digit}
use proofmark.Attrs.{
  MarkAttrsInput, Limited, limits, check_limits, packed, unpacked, digit_value, read_digits,
  big_int, pack_attrs, unpack_attrs, is_credential, valid_credential_attrs,
}
use proofmark.Attrs.RoundTrip.{IsInRange, placed, packed-placed, placed-unpacked}

-- The padding writes every number of 32 bytes as "0x" and 64 digits that stand for it.
abbrev pub WritesWords : (ℕ → Result Text) → Type 0
WritesWords to_word =
    (v : ℕ)
    → v < 2 ^ 256
    → (t : Text) × (to_word v ≡ ok t) × (is_hex_word t ≡ true) × (big_int t ≡ v)

abbrev Within : Limited → Type 0
Within l = (l.value ≤ l.max)

check_limits-eq_ok :
    (ls : List Limited)
    → All (λ l. l.max ≤ 9007199254740991) ls
    → (check_limits ls ≡ ok tt × All Within ls)
      ⊎ (¬ All Within ls × (e : String) × (check_limits ls ≡ throw e))
unfolding check_limits is_safe_integer
check_limits-eq_ok [] safe = inl (refl, tt)
check_limits-eq_ok (l ∷ ls) safe = elim (Bool-cases (ltb l.max l.value)) [
  | inl over ↦ inr (
    λ w. absurd (ground arith),
    l.field,
    elim (Bool-cases (leb l.value 9007199254740991)) [
      | inl s ↦ rw (s, over) refl
      | inr s ↦ rw s refl
    ],
  )
  | inr under ↦
      let s : leb l.value 9007199254740991 ≡ true = ground arith in
      elim (check_limits-eq_ok ls safe.1) [
        | inl (e, w) ↦ inl (rw (s, under) e, (ground arith, w))
        | inr (n, e, q) ↦ inr (λ w. n w.1, e, rw (s, under) q)
      ]
]

limits-IsInRange : (a : MarkAttrsInput) → All Within (limits a) → IsInRange a
limits-IsInRange a w = ground arith

IsInRange-limits : (a : MarkAttrsInput) → IsInRange a → All Within (limits a)
IsInRange-limits a h = ground arith

placed-lt : (a : MarkAttrsInput) → IsInRange a → placed a < 2 ^ 256
placed-lt a h = omega arith

unpacked-packed : (a : MarkAttrsInput) → IsInRange a → unpacked (packed a) ≡ a
unpacked-packed a h = ap unpacked (packed-placed a h) ∙ placed-unpacked a h

-- `packAttrs` returns a text exactly for fields within their limits, and `unpackAttrs` reads the same
-- fields back from that text, where the padding writes words.
pub pack_attrs-unpack_attrs :
    (to_word : ℕ → Result Text)
    → WritesWords to_word
    → (a : MarkAttrsInput)
    → (IsInRange a × (t : Text) × (pack_attrs to_word a ≡ ok t) × (unpack_attrs t ≡ ok a))
      ⊎ (¬ IsInRange a × (e : String) × (pack_attrs to_word a ≡ throw e))
unfolding pack_attrs unpack_attrs
pack_attrs-unpack_attrs to_word law a = elim (check_limits-eq_ok (limits a) (ground arith)) [
  | inl (e, w) ↦
      let h = limits-IsInRange a w in
      let word = law (packed a) (rw (packed-placed a h) (placed-lt a h)) in
      inl (h, word.0, rw e word.1, rw (word.2, word.3, unpacked-packed a h) refl)
  | inr (n, e, q) ↦ inr (λ h. n (IsInRange-limits a h), e, rw q refl)
]

-- What a mask of ones leaves is the lowest digits.
mask_digits : (k x : ℕ) → 0 < 2 ^ k → bit_and x (2 ^ k - 1) ≡ x % 2 ^ k
mask_digits k x h =
    let parts : x ≡ x / 2 ^ k * 2 ^ k + x % 2 ^ k = grind arith in
    let rest : x % 2 ^ k < 2 ^ k = grind arith in
    ap (λ y. bit_and y (2 ^ k - 1)) parts ∙ bit_and-mask k (x / 2 ^ k) (x % 2 ^ k) rest

abbrev digits_of : ℕ → MarkAttrsInput
digits_of v = record {
  kind = (v / 2 ^ 248) % 2 ^ 8;
  assurance = (v / 2 ^ 240) % 2 ^ 8;
  regime = (v / 2 ^ 224) % 2 ^ 16;
  jurisdiction = (v / 2 ^ 208) % 2 ^ 16;
  methods = (v / 2 ^ 176) % 2 ^ 32;
  issued_at = (v / 2 ^ 136) % 2 ^ 40;
  expiry = (v / 2 ^ 96) % 2 ^ 40;
  epoch = (v / 2 ^ 64) % 2 ^ 32;
}

unpacked-digits : (v : ℕ) → unpacked v ≡ digits_of v
unfolding unpacked
unpacked-digits v = λ i. record {
  kind = mask_digits 8 (v / 2 ^ 248) (omega arith) i;
  assurance = mask_digits 8 (v / 2 ^ 240) (omega arith) i;
  regime = mask_digits 16 (v / 2 ^ 224) (omega arith) i;
  jurisdiction = mask_digits 16 (v / 2 ^ 208) (omega arith) i;
  methods = mask_digits 32 (v / 2 ^ 176) (omega arith) i;
  issued_at = mask_digits 40 (v / 2 ^ 136) (omega arith) i;
  expiry = mask_digits 40 (v / 2 ^ 96) (omega arith) i;
  epoch = mask_digits 32 (v / 2 ^ 64) (omega arith) i;
}

digits_of-IsInRange : (v : ℕ) → IsInRange (digits_of v)
digits_of-IsInRange v = record {
  kind = omega arith;
  assurance = omega arith;
  regime = omega arith;
  jurisdiction = omega arith;
  methods = omega arith;
  issued_at = omega arith;
  expiry = omega arith;
  epoch = omega arith;
}

digits_of-placed : (v : ℕ) → v < 2 ^ 256 → v % 2 ^ 64 ≡ 0 → placed (digits_of v) ≡ v
digits_of-placed v below low = omega arith

sixteen : (v t : ℕ) → (v * 16 + 16) * t ≡ (v + 1) * (t * 16)
sixteen v t = grind arith

read_digits-lt :
    (cs : Text) (v : ℕ)
    → All (λ c. is_hex_digit c ≡ true) cs
    → read_digits cs v < (v + 1) * 16 ^ length cs
unfolding read_digits
read_digits-lt [] v h = omega arith
read_digits-lt (c ∷ cs) v h =
    let d : digit_value c ≤ 15 = ground arith in
    let more : (v * 16 + digit_value c + 1) * 16 ^ length cs ≤ (v * 16 + 16) * 16 ^ length cs =
      grind arith in
    let step : (v * 16 + 16) * 16 ^ length cs ≡ (v + 1) * 16 ^ suc (length cs) =
      rw (pow-suc 16 (length cs)) (sixteen v (16 ^ length cs)) in
    omega (arith, read_digits-lt cs (v * 16 + digit_value c) h.1)

big_int-lt : (t : Text) → is_hex_word t ≡ true → big_int t < 2 ^ 256
unfolding big_int
big_int-lt (z ∷ x ∷ cs) h =
    let parts : (length cs == 64 ≡ true) × (all is_hex_digit cs ≡ true) = ground arith in
    let counted : length cs ≡ 64 = ==→eq (length cs) 64 parts.0 in
    let bound = read_digits-lt cs 0 (all→All is_hex_digit cs parts.1) in
    omega (arith, rw counted at bound)
big_int-lt [] h = absurd (ground arith)
big_int-lt (z ∷ []) h = absurd (ground arith)

-- A text that `validCredentialAttrs` accepts is read, has the fields that it asks for, and packs back
-- to the same number: nothing stands outside the fields.
pub record IsCredential (to_word : ℕ → Result Text) (t : Text) (now : Option ℕ) : Type 0 where
  pub fields : MarkAttrsInput
  pub reads : unpack_attrs t ≡ ok fields
  pub accepted : is_credential fields now ≡ true
  pub repacked : Text
  pub packs : pack_attrs to_word fields ≡ ok repacked
  pub same : big_int repacked ≡ big_int t

unfolding_parts :
    (t : Text) (now : Option ℕ)
    → valid_credential_attrs t now ≡ true
    → (is_hex_word t ≡ true)
      × (bit_and (big_int t) 0xffff_ffff_ffff_ffff ≡ 0)
      × (is_credential (unpacked (big_int t)) now ≡ true)
unfolding valid_credential_attrs
unfolding_parts t now h = ground arith

repack :
    (to_word : ℕ → Result Text)
    → WritesWords to_word
    → (t : Text) → is_hex_word t ≡ true
    → bit_and (big_int t) 0xffff_ffff_ffff_ffff ≡ 0
    → (w : Text) × (pack_attrs to_word (unpacked (big_int t)) ≡ ok w) × (big_int w ≡ big_int t)
unfolding pack_attrs
repack to_word law t hex low =
    let v = big_int t in
    let below = big_int-lt t hex in
    let reserved : v % 2 ^ 64 ≡ 0 = omega (arith, mask_digits 64 v (omega arith)) in
    let h = digits_of-IsInRange v in
    let value : packed (digits_of v) ≡ v =
      packed-placed (digits_of v) h ∙ digits_of-placed v below reserved in
    let word = law v below in
    elim (check_limits-eq_ok (limits (digits_of v)) (ground arith)) [
      | inl (e, w) ↦ (word.0, rw (unpacked-digits v, e, value) word.1, word.3)
      | inr (n, e, q) ↦ absurd (n (IsInRange-limits (digits_of v) h))
    ]

-- What `validCredentialAttrs` accepts is a credential of the fields that `unpackAttrs` reads, and
-- `packAttrs` of them gives the same number, where the padding writes words.
pub valid_credential_attrs-IsCredential :
    (to_word : ℕ → Result Text)
    → WritesWords to_word
    → (t : Text) (now : Option ℕ) → valid_credential_attrs t now ≡ true
    → IsCredential to_word t now
unfolding unpack_attrs
valid_credential_attrs-IsCredential to_word law t now h =
    let parts = unfolding_parts t now h in
    let again = repack to_word law t parts.0 parts.1 in
    record {
      fields = unpacked (big_int t);
      reads = rw parts.0 refl;
      accepted = parts.2;
      repacked = again.0;
      packs = again.1;
      same = again.2;
    }
