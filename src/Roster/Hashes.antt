-- ===== src/Roster/Hashes.antt =====
-- pipeline/roster.ts: no hash of words of 32 bytes is refused, and the loop over the layers ends within
-- its fuel.
use proofmark.Prelude.{
  ℕ, zero, suc, ◌+◌, ◌/◌, ◌≤◌, ◌<◌, ◌≡◌, refl, inl, inr, true, false, ◌&&◌, List, [], ◌∷◌, arith,
  Bool-cases, All, length, is_safe_integer, leb, ltb, ok, yielded,
}
use proofmark.Prelude.Text.{Text, codes}
use proofmark.Ethers.{Ethers, bytes1, bytes32, uint256}
use proofmark.Roster.{leaf_of, leaves_of, hash_node, next_layer, build_layers, top_of, roster_root}
use proofmark.Roster.Proof.{is_hex_word}
use proofmark.Roster.Layers.{next_layer-length}

abbrev pub IsWord : Text → Type 0
IsWord t = is_hex_word t ≡ true

-- Hashes are words of 32 bytes, and packing accepts such words.
pub record PacksWords (e : Ethers) : Type 0 where
  pub hashed : (t : Text) → IsWord (e.keccak256 t)
  pub leaf :
      (a b : Text)
      → IsWord a
      → IsWord b
      → (p : Text) × (e.solidity_packed (bytes1 (codes "0x00") ∷ bytes32 a ∷ bytes32 b ∷ []) ≡ ok p)
  pub node :
      (a b : Text)
      → IsWord a
      → IsWord b
      → (p : Text) × (e.solidity_packed (bytes1 (codes "0x01") ∷ bytes32 a ∷ bytes32 b ∷ []) ≡ ok p)
  pub root :
      (n : ℕ) (a : Text)
      → is_safe_integer n ≡ true
      → IsWord a
      → (p : Text) × (e.solidity_packed (bytes1 (codes "0x02") ∷ uint256 n ∷ bytes32 a ∷ []) ≡ ok p)

module _ (e : Ethers) (law : PacksWords e) where
  leaf_of-total :
      (a b : Text) → IsWord a → IsWord b → (h : Text) × (leaf_of e a b ≡ ok h) × IsWord h
  unfolding leaf_of
  leaf_of-total a b x y = let (p, q) = law.leaf a b x y in (e.keccak256 p, rw q refl, law.hashed p)

  hash_node-total :
      (a b : Text) → IsWord a → IsWord b → (h : Text) × (hash_node e a b ≡ ok h) × IsWord h
  unfolding hash_node
  hash_node-total a b x y =
      let (p, q) = law.node a b x y in (e.keccak256 p, rw q refl, law.hashed p)

  pub leaves_of-total :
      (keys marks : List Text)
      → All IsWord keys
      → All IsWord marks
      → (leaves : List Text) × (leaves_of e keys marks ≡ ok leaves) × All IsWord leaves
  unfolding leaves_of
  leaves_of-total [] marks h k = ([], refl, tt)
  leaves_of-total (key ∷ keys) [] h k = ([], refl, tt)
  leaves_of-total (key ∷ keys) (mark ∷ marks) h k =
      let (l, p, w) = leaf_of-total key mark h.0 k.0 in
      let (ls, q, ws) = leaves_of-total keys marks h.1 k.1 in (l ∷ ls, rw (p, q) refl, (w, ws))

  next_layer-total :
      (cur : List Text)
      → All IsWord cur
      → (next : List Text) × (next_layer e cur ≡ ok next) × All IsWord next
  unfolding next_layer
  next_layer-total [] h = ([], refl, tt)
  next_layer-total (x ∷ []) h =
      let (p, q, w) = hash_node-total x x h.0 h.0 in (p ∷ [], rw q refl, (w, tt))
  next_layer-total (x ∷ y ∷ zs) h =
      let (p, q, w) = hash_node-total x y h.0 h.1.0 in
      let (ps, r, ws) = next_layer-total zs h.1.1 in (p ∷ ps, rw (q, r) refl, (w, ws))

  top_of-under :
      (cur : List Text) (layers : List (List Text)) (top : Text)
      → top_of layers ≡ ok top
      → top_of (cur ∷ layers) ≡ ok top
  unfolding top_of
  top_of-under cur [] top h = absurd (ground arith)
  top_of-under cur (layer ∷ layers) top h = h

  top_of-single :
      (cur : List Text)
      → 0 < length cur
      → ltb 1 (length cur) ≡ false
      → All IsWord cur
      → (top : Text) × (top_of (cur ∷ []) ≡ ok top) × IsWord top
  unfolding top_of
  top_of-single [] l s h = absurd (omega arith)
  top_of-single (x ∷ []) l s h = (x, refl, h.0)
  top_of-single (x ∷ y ∷ zs) l s h = absurd (ground arith)

  -- As much fuel as there are leaves is enough.
  pub build_layers-total :
      (fuel : ℕ) (cur : List Text)
      → 0 < length cur
      → length cur ≤ fuel
      → All IsWord cur
      → (layers : List (List Text)) × (build_layers e fuel cur ≡ ok layers)
        × (top : Text) × (top_of layers ≡ ok top)
        × IsWord top
  unfolding build_layers
  build_layers-total zero cur l f h = absurd (omega arith)
  build_layers-total (suc fuel) cur l f h = elim (Bool-cases (ltb 1 (length cur))) [
    | inr single ↦
        let (top, t, w) = top_of-single cur l single h in (cur ∷ [], rw single refl, top, t, w)
    | inl more ↦
        let long : 1 < length cur = ground arith in
        let (next, p, ws) = next_layer-total cur h in
        let n : length next ≡ (length cur + 1) / 2 = yielded (next_layer-length e cur) p in
        let (layers, q, top, t, w) = build_layers-total fuel next (omega arith) (omega arith) ws in
        (cur ∷ layers, rw (more, p, q) refl, top, top_of-under cur layers top t, w)
  ]

  pub roster_root-total :
      (a : Text) (n : ℕ)
      → is_safe_integer n ≡ true
      → 2 ≤ n
      → IsWord a
      → (h : Text) × (roster_root e a n ≡ ok h)
  unfolding roster_root
  roster_root-total a n safe l w =
      let fits : (is_safe_integer n && leb 2 n) ≡ true = ground arith in
      let (p, q) = law.root n a safe w in (e.keccak256 p, rw (fits, q) refl)
