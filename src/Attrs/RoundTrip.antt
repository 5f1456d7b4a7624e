-- ===== src/Attrs/RoundTrip.antt =====
-- pipeline/attrs.ts: what is packed is read back, and what is out of range is refused.
use Prim.Native.Nat.{bit_and, bit_or}
use proofmark.Prelude.{ℕ, ◌+◌, ◌-◌, ◌*◌, ◌/◌, ◌^◌, ◌<◌, ◌≡◌, refl, arith}
use proofmark.Prelude.Bits.{bit_or-shift, bit_and-mask}
use proofmark.Attrs.{MarkAttrsInput, packed, unpacked}

-- Every field is within its limit.
pub record IsInRange (a : MarkAttrsInput) : Type 0 where
  pub kind : a.kind < 2 ^ 8
  pub assurance : a.assurance < 2 ^ 8
  pub regime : a.regime < 2 ^ 16
  pub jurisdiction : a.jurisdiction < 2 ^ 16
  pub methods : a.methods < 2 ^ 32
  pub issued_at : a.issued_at < 2 ^ 40
  pub expiry : a.expiry < 2 ^ 40
  pub epoch : a.epoch < 2 ^ 32

-- The sum of the fields at their places.
abbrev pub placed : MarkAttrsInput → ℕ
placed a =
    a.kind * 2 ^ 248
    + a.assurance * 2 ^ 240
    + a.regime * 2 ^ 224
    + a.jurisdiction * 2 ^ 208
    + a.methods * 2 ^ 176
    + a.issued_at * 2 ^ 136
    + a.expiry * 2 ^ 96
    + a.epoch * 2 ^ 64

-- One more field below those that stand from digit `k` on.
join : (k a b v : ℕ) {sum : ℕ} → v ≡ sum → sum ≡ a * 2 ^ k → b < 2 ^ k → bit_or v b ≡ sum + b
join k a b v e h below = rw e (rw h (bit_or-shift k a b below))

pub packed-placed : (a : MarkAttrsInput) → IsInRange a → packed a ≡ placed a
unfolding packed
packed-placed a h =
    let upto_assurance =
      join 248 (a.kind) (a.assurance * 2 ^ 240) _ {sum = a.kind * 2 ^ 248} refl (omega arith)
        (omega arith) in
    let upto_regime =
      join 240 (a.kind * 2 ^ 8 + a.assurance) (a.regime * 2 ^ 224) _
        {sum = a.kind * 2 ^ 248 + a.assurance * 2 ^ 240} upto_assurance (omega arith)
        (omega arith) in
    let upto_jurisdiction =
      join 224 (a.kind * 2 ^ 24 + a.assurance * 2 ^ 16 + a.regime) (a.jurisdiction * 2 ^ 208) _
        {sum = a.kind * 2 ^ 248 + a.assurance * 2 ^ 240 + a.regime * 2 ^ 224} upto_regime
        (omega arith) (omega arith) in
    let upto_methods =
      join 208 (a.kind * 2 ^ 40 + a.assurance * 2 ^ 32 + a.regime * 2 ^ 16 + a.jurisdiction)
        (a.methods * 2 ^ 176) _
        {sum = a.kind * 2 ^ 248
          + a.assurance * 2 ^ 240
          + a.regime * 2 ^ 224
          + a.jurisdiction * 2 ^ 208}
        upto_jurisdiction (omega arith) (omega arith) in
    let upto_issued_at =
      join 176
        (a.kind * 2 ^ 72
          + a.assurance * 2 ^ 64
          + a.regime * 2 ^ 48
          + a.jurisdiction * 2 ^ 32
          + a.methods)
        (a.issued_at * 2 ^ 136) _
        {sum = a.kind * 2 ^ 248
          + a.assurance * 2 ^ 240
          + a.regime * 2 ^ 224
          + a.jurisdiction * 2 ^ 208
          + a.methods * 2 ^ 176}
        upto_methods (omega arith) (omega arith) in
    let upto_expiry =
      join 136
        (a.kind * 2 ^ 112
          + a.assurance * 2 ^ 104
          + a.regime * 2 ^ 88
          + a.jurisdiction * 2 ^ 72
          + a.methods * 2 ^ 40
          + a.issued_at)
        (a.expiry * 2 ^ 96) _
        {sum = a.kind * 2 ^ 248
          + a.assurance * 2 ^ 240
          + a.regime * 2 ^ 224
          + a.jurisdiction * 2 ^ 208
          + a.methods * 2 ^ 176
          + a.issued_at * 2 ^ 136}
        upto_issued_at (omega arith) (omega arith) in
    join 96
      (a.kind * 2 ^ 152
        + a.assurance * 2 ^ 144
        + a.regime * 2 ^ 128
        + a.jurisdiction * 2 ^ 112
        + a.methods * 2 ^ 80
        + a.issued_at * 2 ^ 40
        + a.expiry)
      (a.epoch * 2 ^ 64) _
      {sum = a.kind * 2 ^ 248
        + a.assurance * 2 ^ 240
        + a.regime * 2 ^ 224
        + a.jurisdiction * 2 ^ 208
        + a.methods * 2 ^ 176
        + a.issued_at * 2 ^ 136
        + a.expiry * 2 ^ 96}
      upto_expiry (omega arith) (omega arith)

-- A field of `k` digits at `shift`, with `above` over it.
pub at_shift :
    (k shift above field v : ℕ)
    → v / 2 ^ shift ≡ above * 2 ^ k + field
    → field < 2 ^ k
    → bit_and (v / 2 ^ shift) (2 ^ k - 1) ≡ field
at_shift k shift above field v e h = rw e (bit_and-mask k above field h)

pub placed-unpacked : (a : MarkAttrsInput) → IsInRange a → unpacked (placed a) ≡ a
unfolding unpacked
placed-unpacked a h =
    let f0 : bit_and (placed a / 2 ^ 248) (2 ^ 8 - 1) ≡ a.kind =
      at_shift 8 248 (0) a.kind (placed a) (omega arith) h.kind in
    let f1 : bit_and (placed a / 2 ^ 240) (2 ^ 8 - 1) ≡ a.assurance =
      at_shift 8 240 (a.kind) a.assurance (placed a) (omega arith) h.assurance in
    let f2 : bit_and (placed a / 2 ^ 224) (2 ^ 16 - 1) ≡ a.regime =
      at_shift 16 224 (a.kind * 2 ^ 8 + a.assurance) a.regime (placed a) (omega arith) h.regime in
    let f3 : bit_and (placed a / 2 ^ 208) (2 ^ 16 - 1) ≡ a.jurisdiction =
      at_shift 16 208 (a.kind * 2 ^ 24 + a.assurance * 2 ^ 16 + a.regime) a.jurisdiction (placed a)
        (omega arith) h.jurisdiction in
    let f4 : bit_and (placed a / 2 ^ 176) (2 ^ 32 - 1) ≡ a.methods =
      at_shift 32 176 (a.kind * 2 ^ 40 + a.assurance * 2 ^ 32 + a.regime * 2 ^ 16 + a.jurisdiction)
        a.methods (placed a) (omega arith) h.methods in
    let f5 : bit_and (placed a / 2 ^ 136) (2 ^ 40 - 1) ≡ a.issued_at =
      at_shift 40 136
        (a.kind * 2 ^ 72
          + a.assurance * 2 ^ 64
          + a.regime * 2 ^ 48
          + a.jurisdiction * 2 ^ 32
          + a.methods)
        a.issued_at (placed a) (omega arith) h.issued_at in
    let f6 : bit_and (placed a / 2 ^ 96) (2 ^ 40 - 1) ≡ a.expiry =
      at_shift 40 96
        (a.kind * 2 ^ 112
          + a.assurance * 2 ^ 104
          + a.regime * 2 ^ 88
          + a.jurisdiction * 2 ^ 72
          + a.methods * 2 ^ 40
          + a.issued_at)
        a.expiry (placed a) (omega arith) h.expiry in
    let f7 : bit_and (placed a / 2 ^ 64) (2 ^ 32 - 1) ≡ a.epoch =
      at_shift 32 64
        (a.kind * 2 ^ 152
          + a.assurance * 2 ^ 144
          + a.regime * 2 ^ 128
          + a.jurisdiction * 2 ^ 112
          + a.methods * 2 ^ 80
          + a.issued_at * 2 ^ 40
          + a.expiry)
        a.epoch (placed a) (omega arith) h.epoch in
    λ i. record {
      kind = f0 i;
      assurance = f1 i;
      regime = f2 i;
      jurisdiction = f3 i;
      methods = f4 i;
      issued_at = f5 i;
      expiry = f6 i;
      epoch = f7 i;
    }
