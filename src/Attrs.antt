-- ===== src/Attrs.antt =====
-- pipeline/attrs.ts: the attributes of a mark, packed into 32 bytes. The padding of `ethers` is a
-- parameter, `to_word`, for `ethers.zeroPadValue(ethers.toBeHex(v), 32)`.
pub mod RoundTrip
pub mod Decides
pub mod Tests
use Prim.Native.Nat.{bit_and, bit_or}
use proofmark.Prelude.{
  ℕ, ◌+◌, ◌-◌, ◌*◌, ◌/◌, ◌%◌, ◌^◌, String, Bool, true, false, not, ◌&&◌, ◌||◌, Option, none, some,
  List, [], ◌∷◌, ltb, leb, ◌==◌, if◌then◌else◌, is_safe_integer, Result, ok, throw, ◌>>=◌, ◌>>◌,
  require, refuse,
}
use proofmark.Prelude.Text.{Text}
use proofmark.Roster.Proof.{is_hex_word}

pub record MarkAttrsInput : Type 0 where
  pub kind : ℕ
  pub assurance : ℕ
  pub regime : ℕ
  pub jurisdiction : ℕ
  pub methods : ℕ
  pub issued_at : ℕ
  pub expiry : ℕ
  pub epoch : ℕ

-- An entry of `LIMITS`, with the field of `a` that it names.
pub record Limited : Type 0 where
  pub field : String
  pub max : ℕ
  pub value : ℕ

abbrev pub limits : MarkAttrsInput → List Limited
limits a =
    record { field = "kind"; max = 0xff; value = a.kind }
    ∷ record { field = "assurance"; max = 0xff; value = a.assurance }
    ∷ record { field = "regime"; max = 0xffff; value = a.regime }
    ∷ record { field = "jurisdiction"; max = 0xffff; value = a.jurisdiction }
    ∷ record { field = "methods"; max = 0xffff_ffff; value = a.methods }
    ∷ record { field = "issuedAt"; max = 0xff_ffff_ffff; value = a.issued_at }
    ∷ record { field = "expiry"; max = 0xff_ffff_ffff; value = a.expiry }
    ∷ record { field = "epoch"; max = 0xffff_ffff; value = a.epoch }
    ∷ []

-- The loop of `packAttrs`. Its errors are named by the field.
unfoldable pub check_limits : List Limited → Result (Unit {0})
unfolding is_safe_integer
check_limits [] = ok tt
check_limits (l ∷ ls) = do
  require (is_safe_integer l.value) l.field
  refuse (ltb l.max l.value) l.field
  check_limits ls

-- `x << n`
abbrev shl : ℕ → ℕ → ℕ
shl x n = x * 2 ^ n

-- `(v >> shift) & mask`
abbrev field_at : ℕ → ℕ → ℕ → ℕ
field_at v shift mask = bit_and (v / 2 ^ shift) mask

-- The number that `packAttrs` writes.
unfoldable pub packed : MarkAttrsInput → ℕ
packed a =
    bit_or
      (bit_or
        (bit_or
          (bit_or
            (bit_or (bit_or (bit_or (shl a.kind 248) (shl a.assurance 240)) (shl a.regime 224))
              (shl a.jurisdiction 208))
            (shl a.methods 176))
          (shl a.issued_at 136))
        (shl a.expiry 96))
      (shl a.epoch 64)

-- The fields that `unpackAttrs` reads.
unfoldable pub unpacked : ℕ → MarkAttrsInput
unpacked v = record {
  kind = field_at v 248 0xff;
  assurance = field_at v 240 0xff;
  regime = field_at v 224 0xffff;
  jurisdiction = field_at v 208 0xffff;
  methods = field_at v 176 0xffff_ffff;
  issued_at = field_at v 136 0xff_ffff_ffff;
  expiry = field_at v 96 0xff_ffff_ffff;
  epoch = field_at v 64 0xffff_ffff;
}

-- The digit that a hexadecimal character stands for.
abbrev pub digit_value : ℕ → ℕ
digit_value c = if leb c b'9' then c - b'0' else if leb b'a' c then c - 87 else c - 55

unfoldable pub read_digits : Text → ℕ → ℕ
read_digits [] v = v
read_digits (c ∷ cs) v = read_digits cs (v * 16 + digit_value c)

-- `BigInt(text)` of a text with the prefix "0x".
unfoldable pub big_int : Text → ℕ
big_int (z ∷ x ∷ digits) = read_digits digits 0
big_int _ = 0

unfoldable pub pack_attrs : (ℕ → Result Text) → MarkAttrsInput → Result Text
pack_attrs to_word a = do check_limits (limits a); to_word (packed a)

unfoldable pub unpack_attrs : Text → Result MarkAttrsInput
unpack_attrs attrs = do
  require (is_hex_word attrs) "unpackAttrs: expected exactly bytes32"
  ok (unpacked (big_int attrs))

-- 0x001f07ff
abbrev pub supported_methods : ℕ
supported_methods = 0x1f_07ff

-- `now === undefined || (Number.isSafeInteger(now) && now >= 0 && a.issuedAt <= now && a.expiry > now)`
abbrev pub is_current : MarkAttrsInput → Option ℕ → Bool
is_current a none = true
is_current a (some now) = is_safe_integer now && leb a.issued_at now && ltb now a.expiry

-- `methods & ~SUPPORTED_METHODS`: the complement in 32 bits, which a field of 32 bits cannot leave.
abbrev pub unsupported : ℕ → ℕ
unsupported methods = bit_and methods (0xffff_ffff - supported_methods)

unfoldable pub is_credential : MarkAttrsInput → Option ℕ → Bool
is_credential a now =
    (a.kind == 1 || a.kind == 2)
    && leb 1 a.assurance
    && leb a.assurance 5
    && (a.regime == 1 || a.regime == 2)
    && leb 1 a.jurisdiction
    && leb a.jurisdiction 999
    && unsupported a.methods == 0
    && ltb 0 a.issued_at
    && ltb a.issued_at a.expiry
    && is_current a now

unfoldable pub valid_credential_attrs : Text → Option ℕ → Bool
unfolding unpacked big_int is_credential
valid_credential_attrs attrs now =
    if is_hex_word attrs
    then bit_and (big_int attrs) 0xffff_ffff_ffff_ffff == 0
      && is_credential (unpacked (big_int attrs)) now
    else false
