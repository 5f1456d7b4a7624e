-- ===== src/Roster/Binding.antt =====
-- pipeline/roster.ts: what a hash commits to, and where a climb to the top of the tree must have begun.
use proofmark.Prelude.{
  ℕ, zero, suc, ◌+◌, ◌/◌, ◌%◌, ◌<◌, ◌≡◌, refl, ap, sym, ◌∙◌, ◌⊎◌, inl, inr, not, ◌&&◌, ◌||◌, List,
  [], ◌∷◌, Option, none, some, arith, is_safe_integer, Bool-cases, leb, ◌==◌, length, Result, ok,
  throw, ◌>>=◌, ok-injective,
}
use proofmark.Prelude.Text.{Text, codes, text_eq, text_eq_iff, to_lower_case}
use proofmark.Ethers.{Ethers, bytes1, bytes32, uint256, Collision, PacksFields, LowerHashes}
use proofmark.Roster.{element, hash_node, leaf_of, roster_root}
use proofmark.Roster.Proof.{pair_index, Climb, climb, climb_step}
use proofmark.Roster.Layers.{hash_pair, Family}
use proofmark.Roster.Tower.{Tower, peak, floor}

-- `P`, unless two texts have one hash.
abbrev pub Unless : Ethers → Type 0 → Type 0
Unless e P = P ⊎ Collision e

abbrev pub Same : Text → Text → Type 0
Same a b = to_lower_case a ≡ to_lower_case b

module _ (e : Ethers) where
  open e use {keccak256, solidity_packed}

  -- One hash of two texts: they are one text, or they collide.
  one_preimage : (p q : Text) → keccak256 p ≡ keccak256 q → Unless e (p ≡ q)
  one_preimage p q h = elim (Bool-cases (text_eq p q)) [
    | inl same ↦ inl ((text_eq_iff p q).0 same)
    | inr differ ↦ inr (p, q, (λ s. absurd (ground (arith, text_eq_iff p q))), h)
  ]

  -- What was hashed.
  preimage :
      (m : Result Text) {h : Text}
      → (m >>= λ p. ok (keccak256 p)) ≡ ok h
      → (p : Text) × (m ≡ ok p) × (keccak256 p ≡ h)
  preimage (ok p) x = (p, refl, ok-injective x)
  preimage (throw _) x = absurd (ground arith)

  abbrev words : Text → Text → Text → Result Text
  words tag a b = solidity_packed (bytes1 tag ∷ bytes32 a ∷ bytes32 b ∷ [])

  abbrev counted : ℕ → Text → Result Text
  counted n a = solidity_packed (bytes1 (codes "0x02") ∷ uint256 n ∷ bytes32 a ∷ [])

  root_preimage :
      (a : Text) (n : ℕ) {h : Text}
      → roster_root e a n ≡ ok h
      → (p : Text) × (counted n a ≡ ok p) × (keccak256 p ≡ h)
  unfolding roster_root
  root_preimage a n x = elim (Bool-cases (is_safe_integer n && leb 2 n)) [
    | inl fits ↦ preimage (counted n a) (rw fits at x)
    | inr not_fits ↦ absurd (ground arith)
  ]

  module _ (law : PacksFields e) (low : LowerHashes e) where
    -- `keccak256(solidityPacked(…))` of a tag and two words.
    tagged_binds :
        (tag a b c d h : Text)
        → (words tag a b >>= λ p. ok (keccak256 p)) ≡ ok h
        → (words tag c d >>= λ p. ok (keccak256 p)) ≡ ok h
        → Unless e (Same a c × Same b d)
    tagged_binds tag a b c d h x y =
        let (p, packed_p, hash_p) = preimage (words tag a b) x in
        let (q, packed_q, hash_q) = preimage (words tag c d) y in
        elim (one_preimage p q (hash_p ∙ sym hash_q)) [
          | inl same ↦ inl (law.pair tag a b c d q (rw same at packed_p) packed_q)
          | inr collision ↦ inr collision
        ]

    pub node_binds :
        (a b c d h : Text)
        → hash_node e a b ≡ ok h
        → hash_node e c d ≡ ok h
        → Unless e (Same a c × Same b d)
    unfolding hash_node
    node_binds a b c d h x y = tagged_binds (codes "0x01") a b c d h x y

    pub leaf_binds :
        (a b c d h : Text)
        → leaf_of e a b ≡ ok h
        → leaf_of e c d ≡ ok h
        → Unless e (Same a c × Same b d)
    unfolding leaf_of
    leaf_binds a b c d h x y = tagged_binds (codes "0x00") a b c d h x y

    pub node_lower : (a b h : Text) → hash_node e a b ≡ ok h → to_lower_case h ≡ h
    unfolding hash_node
    node_lower a b h x = let (p, _, k) = preimage (words (codes "0x01") a b) x in rw (← k) (low p)

    pub leaf_lower : (a b h : Text) → leaf_of e a b ≡ ok h → to_lower_case h ≡ h
    unfolding leaf_of
    leaf_lower a b h x = let (p, _, k) = preimage (words (codes "0x00") a b) x in rw (← k) (low p)

    pub root_lower : (a : Text) (n : ℕ) (h : Text) → roster_root e a n ≡ ok h → to_lower_case h ≡ h
    root_lower a n h x = let (p, _, k) = root_preimage a n x in rw (← k) (low p)

    pub root_binds :
        (a b : Text) (n m : ℕ) (h : Text)
        → roster_root e a n ≡ ok h
        → roster_root e b m ≡ ok h
        → Unless e ((n ≡ m) × Same a b)
    root_binds a b n m h x y =
        let (p, packed_p, hash_p) = root_preimage a n x in
        let (q, packed_q, hash_q) = root_preimage b m y in
        elim (one_preimage p q (hash_p ∙ sym hash_q)) [
          | inl same ↦ inl (law.counted (codes "0x02") a b q n m (rw same at packed_p) packed_q)
          | inr collision ↦ inr collision
        ]

    -- One hash of two pairs at one position binds the node.
    pair_binds :
        (idx : ℕ) (a s c t h : Text)
        → hash_pair e idx a s ≡ ok h
        → hash_pair e idx c t ≡ ok h
        → Unless e (Same a c)
    pair_binds idx a s c t h x y = elim (Bool-cases (idx % 2 == 0)) [
      | inl even ↦ elim (node_binds a s c t h (rw even at x) (rw even at y)) [
        | inl r ↦ inl r.0
        | inr k ↦ inr k
      ]
      | inr odd ↦ elim (node_binds s a t c h (rw odd at x) (rw odd at y)) [
        | inl r ↦ inl r.1
        | inr k ↦ inr k
      ]
    ]

    pair_lower : (idx : ℕ) (a s h : Text) → hash_pair e idx a s ≡ ok h → to_lower_case h ≡ h
    pair_lower idx a s h x = elim (Bool-cases (idx % 2 == 0)) [
      | inl even ↦ node_lower a s h (rw even at x)
      | inr odd ↦ node_lower s a h (rw odd at x)
    ]

    -- A round that goes on.
    record Goes (s : Text) (c c' : Climb) : Type 0 where
      wide : 1 < c.width
      hashed : hash_pair e c.idx c.acc s ≡ ok c'.acc
      idx : c'.idx ≡ c.idx / 2
      width : c'.width ≡ (c.width + 1) / 2

    after_hash :
        (m : Result Text) (i w : ℕ) (c' : Climb)
        → (m >>= λ acc. ok (some (record { acc = acc; idx = i; width = w }))) ≡ ok (some c')
        → (m ≡ ok c'.acc) × (c'.idx ≡ i) × (c'.width ≡ w)
    after_hash (ok h) i w c' x = ground arith
    after_hash (throw _) i w c' x = absurd (ground arith)

    climb_step-some : (s : Text) (c c' : Climb) → climb_step e s c ≡ ok (some c') → Goes s c c'
    unfolding climb_step
    climb_step-some s c c' h =
        elim (Bool-cases (
          leb c.width 1
          || (leb c.width (pair_index c.idx)
              && not (text_eq (to_lower_case s) (to_lower_case c.acc))))) [
                | inl stops ↦ absurd (ground arith)
                | inr on ↦
                    let r =
                      after_hash (hash_pair e c.idx c.acc s) (c.idx / 2) ((c.width + 1) / 2) c'
                        (rw on at h) in
                    record { wide = ground arith; hashed = r.0; idx = r.1; width = r.2 }
              ]

    climb-none : (ss : List Text) → climb e ss none ≡ ok none
    unfolding climb
    climb-none [] = refl
    climb-none (s ∷ ss) = refl

    -- A climb over one sibling more.
    first_round :
        (r : Result (Option Climb)) (ss : List Text) (c : Climb)
        → (r >>= climb e ss) ≡ ok (some c)
        → (c₁ : Climb) × (r ≡ ok (some c₁)) × (climb e ss (some c₁) ≡ ok (some c))
    first_round (throw _) ss c x = absurd (ground arith)
    first_round (ok none) ss c x = absurd (ground (arith, climb-none ss))
    first_round (ok (some c₁)) ss c x = (c₁, refl, x)

    -- The same parent, up to case, has the same child.
    child_binds :
        {cur next : List Text} {idx : ℕ} (f : Family e cur next idx) (acc s h leaf : Text)
        → hash_pair e idx acc s ≡ ok h
        → element cur idx ≡ ok leaf
        → Unless e (Same h f.parent)
        → Unless e (Same acc leaf)
    child_binds f acc s h leaf x at (inr collision) = inr collision
    child_binds {idx} f acc s h leaf x at (inl same) =
        let up : h ≡ f.parent =
          sym (pair_lower idx acc s h x) ∙ same ∙ pair_lower idx f.child f.sib f.parent f.hashed in
        let here : f.child ≡ leaf = ok-injective (sym f.child_at ∙ at) in
        rw (← here) (pair_binds idx acc s f.child f.sib f.parent (x ∙ ap ok up) f.hashed)

    same_acc : (a b : Climb) → ok (some a) ≡ ok (some b) → a.acc ≡ b.acc
    same_acc a b x = ground arith

    -- A climb that ends at the top has begun at the leaf of its position.
    pub climb-binds :
        {top : Text} {cur : List Text} {layers : List (List Text)}
        → Tower e top cur layers
        → (ss : List Text) (acc leaf : Text) (idx : ℕ) (c : Climb) → idx < length cur
        → element cur idx ≡ ok leaf
        → climb e ss (some (record { acc = acc; idx = idx; width = length cur })) ≡ ok (some c)
        → c.width ≡ 1
        → Same c.acc top
        → Unless e (Same acc leaf)
    unfolding climb
    climb-binds {top} peak [] acc leaf zero c l at x w same =
        inl (ap to_lower_case (same_acc _ c x) ∙ same ∙ ap to_lower_case (ok-injective at))
    climb-binds peak [] acc leaf (suc idx) c l at x w same = absurd (omega arith)
    climb-binds peak (s ∷ ss) acc leaf idx c l at x w same =
        let (c₁, go, _) = first_round (climb_step e s _) ss c x in
        let g = climb_step-some s _ c₁ go in absurd (omega (arith, g.wide))
    climb-binds (floor more families n t) [] acc leaf idx c l at x w same = absurd (ground arith)
    climb-binds {cur} (floor {next} more families n t) (s ∷ ss) acc leaf idx c l at x w same =
        let (c₁, go, rest) = first_round (climb_step e s _) ss c x in
        let g = climb_step-some s _ c₁ go in
        let f = families idx l in
        let here : c₁ ≡ record { acc = c₁.acc; idx = idx / 2; width = length next } =
          λ i. record { acc = c₁.acc; idx = g.idx i; width = (g.width ∙ sym n) i } in
        child_binds f acc s c₁.acc leaf g.hashed at (
          climb-binds t ss c₁.acc f.parent (idx / 2) c (omega arith) f.parent_at (rw here at rest) w
            same)
