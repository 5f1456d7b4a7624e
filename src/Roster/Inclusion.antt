-- ===== src/Roster/Inclusion.antt =====
-- pipeline/roster.ts: the proof of every leaf is accepted, and only a leaf of the tree, at its own
-- position, has an accepted proof.
use proofmark.Prelude.{
  ℕ, zero, suc, ◌+◌, ◌/◌, ◌^◌, ◌≤◌, ◌<◌, ◌≡◌, refl, ap, sym, ◌∙◌, inl, inr, false, not, ◌&&◌, ◌||◌,
  List, [], ◌∷◌, some, arith, Bool-cases, leb→le, leb, length, ok, ok-injective,
}
use native.Mathlib.Nat.{pow-suc}
use proofmark.Prelude.Text.{Text, text_eq, text_eq_refl, to_lower_case}
use proofmark.Ethers.{Ethers}
use proofmark.Roster.{element}
use proofmark.Roster.Proof.{siblings_of, pair_index, climb, climb_step}
use proofmark.Roster.Layers.{Family}
use proofmark.Roster.Tower.{Tower, peak, floor, siblings_of-cons}

module _ (e : Ethers) where
  -- A sibling of the tree passes the tests of a round.
  climb_goes_on :
      {cur next : List Text} {idx : ℕ} (f : Family e cur next idx)
      → 1 < length cur
      → (leb (length cur) 1
          || (leb (length cur) (pair_index idx)
              && not (text_eq (to_lower_case f.sib) (to_lower_case f.child))))
        ≡ false
  climb_goes_on {cur} {idx} f l = elim (Bool-cases (leb (length cur) (pair_index idx))) [
    | inl past ↦
        let same : f.sib ≡ f.child = f.alone (leb→le _ _ past) in
        ground (arith, ap to_lower_case same, text_eq_refl (to_lower_case f.child))
    | inr inside ↦ ground arith
  ]

  -- One round of the verifier at a node, with the sibling that the prover sends.
  climb_step-Family :
      {cur next : List Text} {idx : ℕ} (f : Family e cur next idx)
      → 1 < length cur
      → length next ≡ (length cur + 1) / 2
      → climb_step e f.sib (record { acc = f.child; idx = idx; width = length cur })
        ≡ ok (some (record { acc = f.parent; idx = idx / 2; width = length next }))
  unfolding climb_step
  climb_step-Family {cur} {next} {idx} f l n = rw (climb_goes_on f l, f.hashed, n)

  -- What the prover sends for a position, and where it leads the verifier.
  pub record Route (top : Text) (cur : List Text) (layers : List (List Text)) (idx : ℕ)
      : Type 0 where
    pub leaf : Text
    pub leaf_at : element cur idx ≡ ok leaf
    pub siblings : List Text
    pub sent : siblings_of layers idx ≡ ok siblings
    pub climbed :
        climb e siblings (some (record { acc = leaf; idx = idx; width = length cur }))
        ≡ ok (some (record { acc = top; idx = 0; width = 1 }))
    pub short : (k : ℕ) → length cur ≤ 2 ^ k → length siblings ≤ k

  floor-short :
      (n k : ℕ) (cur next : List Text)
      → 1 < length cur
      → length next ≡ (length cur + 1) / 2
      → ((j : ℕ) → length next ≤ 2 ^ j → n ≤ j)
      → length cur ≤ 2 ^ k
      → suc n ≤ k
  floor-short n zero cur next l m h b = absurd (omega arith)
  floor-short n (suc k) cur next l m h b =
      let r : n ≤ k = h k (omega (arith, pow-suc 2 k)) in omega arith

  siblings_of_peak : (top : Text) → siblings_of ((top ∷ []) ∷ []) 0 ≡ ok []
  unfolding siblings_of
  siblings_of_peak top = refl

  pub route :
      {top : Text} {cur : List Text} {layers : List (List Text)}
      → Tower e top cur layers
      → (idx : ℕ) → idx < length cur
      → Route top cur layers idx
  unfolding climb
  route {top} peak zero l = record {
    leaf = top;
    leaf_at = refl;
    siblings = [];
    sent = siblings_of_peak top;
    climbed = refl;
    short = λ k h. omega arith;
  }
  route peak (suc idx) l = absurd (omega arith)
  route {cur} (floor {next} more families n t) idx l =
      let f = families idx l in
      let r = route t (idx / 2) (omega arith) in
      let same : f.parent ≡ r.leaf = ok-injective (sym f.parent_at ∙ r.leaf_at) in
      record {
        leaf = f.child;
        leaf_at = f.child_at;
        siblings = f.sib ∷ r.siblings;
        sent = rw (siblings_of-cons e cur idx t, f.sib_at, r.sent);
        climbed = rw (climb_step-Family f more n, same) r.climbed;
        short = λ k h. floor-short (length r.siblings) k cur next more n r.short h;
      }
