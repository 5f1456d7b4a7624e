-- ===== src/Roster/Tower.antt =====
-- pipeline/roster.ts: the layers that `buildRoster` computes, as a tower from the leaves to the top.
use proofmark.Prelude.{
  ℕ, zero, suc, ◌+◌, ◌/◌, ◌<◌, ◌≡◌, refl, false, List, [], ◌∷◌, arith, tests, inl, inr, Bool-cases,
  ltb, length, ok, ◌>>=◌, Yields, returns, throws, after, yielded,
}
use proofmark.Prelude.Text.{Text}
use proofmark.Ethers.{Ethers}
use proofmark.Roster.{next_layer, build_layers, top_of}
use proofmark.Roster.Proof.{sibling, siblings_of}
use proofmark.Roster.Layers.{Families, next_layer-Families, next_layer-length}

module _ (e : Ethers) where
  -- The layers from `cur` on, each the parents of the one below, with one node at the top.
  pub data Tower (top : Text) : List Text → List (List Text) → Type 0 where
    peak : Tower top (top ∷ []) ((top ∷ []) ∷ [])
    floor :
        {cur next : List Text} {layers : List (List Text)}
        → 1 < length cur
        → Families e cur next
        → length next ≡ (length cur + 1) / 2
        → Tower top next layers
        → Tower top cur (cur ∷ layers)

  top_of-cons :
      {top : Text} {next : List Text} {layers : List (List Text)} (cur : List Text)
      → Tower top next layers
      → top_of (cur ∷ layers) ≡ top_of layers
  unfolding top_of
  top_of-cons cur peak = refl
  top_of-cons cur (floor _ _ _ t) = refl

  pub siblings_of-cons :
      {top : Text} {next : List Text} {layers : List (List Text)} (cur : List Text) (idx : ℕ)
      → Tower top next layers
      → siblings_of (cur ∷ layers) idx
        ≡ (sibling cur idx >>= λ s. siblings_of layers (idx / 2) >>= λ rest. ok (s ∷ rest))
  unfolding siblings_of
  siblings_of-cons cur idx peak = refl
  siblings_of-cons cur idx (floor _ _ _ t) = refl

  -- What the loop returns is a tower, and its top is the last layer's node.
  abbrev pub IsTower : List Text → List (List Text) → Type 0
  IsTower cur layers = (top : Text) × Tower top cur layers × (top_of layers ≡ ok top)

  single-IsTower :
      (cur : List Text) → 0 < length cur → ltb 1 (length cur) ≡ false → IsTower cur (cur ∷ [])
  unfolding top_of
  single-IsTower [] l h = absurd (omega arith)
  single-IsTower (x ∷ []) l h = (x, peak, refl)
  single-IsTower (x ∷ y ∷ zs) l h = absurd (ground arith)

  pub build_layers-IsTower :
      (fuel : ℕ) (cur : List Text) → 0 < length cur → Yields (IsTower cur) (build_layers e fuel cur)
  unfolding build_layers
  build_layers-IsTower zero cur l = throws
  build_layers-IsTower (suc fuel) cur l = elim (Bool-cases (ltb 1 (length cur))) [
    | inl more ↦ rw more (
        after (next_layer e cur) λ next p. after (build_layers e fuel next) λ rest q.
          let long : 1 < length cur = omega tests in
          let n : length next ≡ (length cur + 1) / 2 = yielded (next_layer-length e cur) p in
          let (top, t, h) = yielded (build_layers-IsTower fuel next (omega arith)) q in
          returns
            (top, floor long (yielded (next_layer-Families e cur) p) n t, rw (top_of-cons cur t) h))
    | inr done ↦ rw done (returns (single-IsTower cur l done))
  ]
