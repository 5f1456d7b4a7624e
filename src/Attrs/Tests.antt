-- ===== src/Attrs/Tests.antt =====
-- pipeline/attrs.ts on the fields of one mark, with a padding that writes 64 digits.
use proofmark.Prelude.{
  ℕ, zero, suc, ◌+◌, ◌*◌, ◌/◌, ◌%◌, ◌^◌, ◌<◌, ◌≡◌, refl, true, none, some, arith, [], ◌∷◌, ◌++◌,
  ltb, if◌then◌else◌, Result, ok, throw, String, false, length, all, ◌⊎◌, length-append,
  is_safe_integer,
}
use proofmark.Prelude.Text.{Text}
use proofmark.Roster.Proof.{is_hex_digit}
use proofmark.Attrs.{
  MarkAttrsInput, digit_value, read_digits, big_int, pack_attrs, unpack_attrs,
  valid_credential_attrs, packed, unpacked, is_credential,
}
use proofmark.Attrs.RoundTrip.{IsInRange}
use proofmark.Attrs.Decides.{
  WritesWords, IsCredential, pack_attrs-unpack_attrs, valid_credential_attrs-IsCredential,
}

abbrev digit : ℕ → ℕ
digit d = if ltb d 10 then b'0' + d else 87 + d

-- The lowest `n` hexadecimal digits of `v`.
unfoldable write_digits : ℕ → ℕ → Text
write_digits zero v = []
write_digits (suc n) v = write_digits n (v / 16) ++ digit (v % 16) ∷ []

unfoldable to_word : ℕ → Result Text
to_word v = ok (b'0' ∷ b'x' ∷ write_digits 64 v)

length-write_digits : (n v : ℕ) → length (write_digits n v) ≡ n
unfolding write_digits
length-write_digits zero v = refl
length-write_digits (suc n) v = omega (
  arith,
  length-append (write_digits n (v / 16)) (digit (v % 16) ∷ []),
  length-write_digits n (v / 16),
)

all-append_one :
    (c : ℕ) (cs : Text)
    → all is_hex_digit cs ≡ true
    → is_hex_digit c ≡ true
    → all is_hex_digit (cs ++ c ∷ []) ≡ true
all-append_one c [] h d = ground arith
all-append_one c (e ∷ cs) h d = ground (arith, all-append_one c cs)

all-write_digits : (n v : ℕ) → all is_hex_digit (write_digits n v) ≡ true
unfolding write_digits
all-write_digits zero v = refl
all-write_digits (suc n) v =
    all-append_one (digit (v % 16)) (write_digits n (v / 16)) (all-write_digits n (v / 16))
      (ground arith)

read_digits-append :
    (cs ds : Text) (v : ℕ) → read_digits (cs ++ ds) v ≡ read_digits ds (read_digits cs v)
unfolding read_digits
read_digits-append [] ds v = refl
read_digits-append (c ∷ cs) ds v = read_digits-append cs ds (v * 16 + digit_value c)

digit_value-digit : (d : ℕ) → d < 16 → digit_value (digit d) ≡ d
digit_value-digit d h = ground arith

read_digits-write_digits : (n v : ℕ) → v < 16 ^ n → read_digits (write_digits n v) 0 ≡ v
unfolding write_digits read_digits
read_digits-write_digits zero v h = omega arith
read_digits-write_digits (suc n) v h = omega (
  arith,
  read_digits-append (write_digits n (v / 16)) (digit (v % 16) ∷ []) 0,
  read_digits-write_digits n (v / 16) (omega arith),
  digit_value-digit (v % 16) (omega arith),
)

to_word-WritesWords : WritesWords to_word
unfolding to_word big_int
to_word-WritesWords v h = (
  b'0' ∷ b'x' ∷ write_digits 64 v,
  refl,
  rw (length-write_digits 64 v) (all-write_digits 64 v),
  read_digits-write_digits 64 v h,
)

abbrev one_mark : MarkAttrsInput
one_mark = record {
  kind = 1;
  assurance = 3;
  regime = 2;
  jurisdiction = 410;
  methods = 0x0010_0003;
  issued_at = 1700000000;
  expiry = 1731536000;
  epoch = 7;
}

pack_attrs-unpack_attrs_example :
    (IsInRange one_mark
      × (t : Text) × (pack_attrs to_word one_mark ≡ ok t)
      × (unpack_attrs t ≡ ok one_mark))
    ⊎ (¬ IsInRange one_mark × (e : String) × (pack_attrs to_word one_mark ≡ throw e))
pack_attrs-unpack_attrs_example = pack_attrs-unpack_attrs to_word to_word-WritesWords one_mark

abbrev one_word : Text
one_word = b'0' ∷ b'x' ∷ write_digits 64 (packed one_mark)

one_word-valid : valid_credential_attrs one_word (some 1700000001) ≡ true
unfolding valid_credential_attrs unpacked big_int is_credential write_digits read_digits packed
    is_safe_integer
one_word-valid = refl

-- Without an assurance level it is refused.
no_assurance : is_credential (record one_mark { assurance = 0 }) none ≡ false
unfolding is_credential
no_assurance = refl

valid_credential_attrs-IsCredential_example : IsCredential to_word one_word (some 1700000001)
valid_credential_attrs-IsCredential_example =
    valid_credential_attrs-IsCredential to_word to_word-WritesWords one_word (some 1700000001)
      one_word-valid
