-- ===== src/Roster/Proof.antt =====
-- pipeline/roster.ts: proofs that a leaf is in the roster, and that a subject is not.
use proofmark.Prelude.{
  ℕ, suc, ◌+◌, ◌-◌, ◌/◌, ◌%◌, Bool, false, not, ◌&&◌, ◌||◌, Option, none, some, List, [], ◌∷◌, ltb,
  leb, ◌==◌, if◌then◌else◌, is_safe_integer, length, any, all, Result, ok, throw, ◌>>=◌, ◌>>◌,
  require, refuse,
}
use proofmark.Prelude.Text.{Text, text_eq, text_lt, to_lower_case}
use proofmark.Ethers.{Ethers}
use proofmark.Roster.{RosterTree, element, hash_node, leaf_of, roster_root, subject_key}

pub record InclusionProof : Type 0 where
  pub index : ℕ
  pub leaf_count : ℕ
  pub siblings : List Text

pub record NonInclusionProof : Type 0 where
  pub left : InclusionProof
  pub left_key : Text
  pub left_mark : Text
  pub right : InclusionProof
  pub right_key : Text
  pub right_mark : Text

-- `idx % 2 === 0 ? idx + 1 : idx - 1`
abbrev pub pair_index : ℕ → ℕ
pair_index idx = if idx % 2 == 0 then idx + 1 else idx - 1

-- An odd tail pairs with itself.
unfoldable pub sibling : List Text → ℕ → Result Text
sibling layer idx =
    element layer (if ltb (pair_index idx) (length layer) then pair_index idx else idx)

-- The loop of `inclusionProof`, over all layers but the last.
unfoldable pub siblings_of : List (List Text) → ℕ → Result (List Text)
siblings_of [] idx = ok []
siblings_of (layer ∷ []) idx = ok []
siblings_of (layer ∷ layer' ∷ layers) idx = do
  s ← sibling layer idx
  rest ← siblings_of (layer' ∷ layers) (idx / 2)
  ok (s ∷ rest)

unfoldable pub inclusion_proof : RosterTree → ℕ → Result InclusionProof
unfolding siblings_of
inclusion_proof tree index = do
  require (is_safe_integer index && ltb index (length tree.leaves))
      "inclusionProof: index out of range"
  siblings ← siblings_of tree.layers index
  ok (record { index = index; leaf_count = length tree.leaves; siblings = siblings })

-- The variables of the loop of `verifyInclusion`.
pub record Climb : Type 0 where
  pub acc : Text
  pub idx : ℕ
  pub width : ℕ

-- `/^0x[0-9a-fA-F]{64}$/`
abbrev pub is_hex_digit : ℕ → Bool
is_hex_digit c =
    (leb b'0' c && leb c b'9') || (leb b'a' c && leb c b'f') || (leb b'A' c && leb c b'F')

abbrev pub is_hex_word : Text → Bool
is_hex_word (z ∷ x ∷ digits) =
    z == b'0' && x == b'x' && length digits == 64 && all is_hex_digit digits
is_hex_word _ = false

unfoldable pub canonical_bytes32 : Text → Option Text
canonical_bytes32 value = if is_hex_word value then some (to_lower_case value) else none

-- `keys.findIndex(k => k > target)`, from index `i` on; `none` is -1.
unfoldable pub find_gap : Text → List Text → ℕ → Option ℕ
find_gap target [] i = none
find_gap target (k ∷ ks) i = if text_lt target k then some i else find_gap target ks (suc i)

-- `hi <= 0` is refused; otherwise the index below `hi`.
abbrev pub gap_below : Option ℕ → Result ℕ
gap_below (some (suc lo)) = ok lo
gap_below _ = throw "nonInclusionProof: outside the sentinel range"

module _ (e : Ethers) where
  -- One round: `none` is an early `return false`.
  unfoldable pub climb_step : Text → Climb → Result (Option Climb)
  climb_step s c =
      if leb c.width 1
        || (leb c.width (pair_index c.idx) && not (text_eq (to_lower_case s) (to_lower_case c.acc)))
      then ok none
      else (do
        acc ← if c.idx % 2 == 0 then hash_node e c.acc s else hash_node e s c.acc
        ok (some (record { acc = acc; idx = c.idx / 2; width = (c.width + 1) / 2 })))

  -- The loop over the siblings.
  unfoldable pub climb : List Text → Option Climb → Result (Option Climb)
  climb [] c = ok c
  climb (s ∷ ss) none = ok none
  climb (s ∷ ss) (some c) = climb_step s c >>= climb ss

  -- The last line of `verifyInclusion`.
  unfoldable pub reaches_root : Text → ℕ → Option Climb → Result Bool
  reaches_root root leaf_count none = ok false
  reaches_root root leaf_count (some c) =
      if c.width == 1 && c.idx == 0
      then (do
        found ← roster_root e c.acc leaf_count
        ok (text_eq (to_lower_case found) (to_lower_case root)))
      else ok false

  unfoldable pub verify_inclusion : Text → Text → InclusionProof → Result Bool
  unfolding climb reaches_root
  verify_inclusion root leaf proof =
      if is_safe_integer proof.index
        && is_safe_integer proof.leaf_count
        && leb 2 proof.leaf_count
        && ltb proof.index proof.leaf_count
        && leb (length proof.siblings) 256
      then climb proof.siblings
          (some (record { acc = leaf; idx = proof.index; width = proof.leaf_count }))
        >>= reaches_root root proof.leaf_count
      else ok false

  unfoldable pub non_inclusion_proof : RosterTree → Text → Text → Result NonInclusionProof
  unfolding inclusion_proof find_gap
  non_inclusion_proof tree target namespace = do
    tk ← subject_key e target namespace
    refuse (any (λ k. text_eq k tk) tree.keys) "nonInclusionProof: the target is in the roster"
    lo ← gap_below (find_gap tk tree.keys 0)
    left ← inclusion_proof tree lo
    left_key ← element tree.keys lo
    left_mark ← element tree.marks lo
    right ← inclusion_proof tree (suc lo)
    right_key ← element tree.keys (suc lo)
    right_mark ← element tree.marks (suc lo)
    ok (record {
      left = left;
      left_key = left_key;
      left_mark = left_mark;
      right = right;
      right_key = right_key;
      right_mark = right_mark;
    })

  -- The target lies between the keys, the leaves are neighbours, and each key belongs to its leaf.
  abbrev pub verify_gap : Text → Text → NonInclusionProof → Option Text → Option Text → Result Bool
  verify_gap root tk proof (some left_key) (some right_key) =
      if text_lt left_key tk
        && text_lt tk right_key
        && proof.right.index == proof.left.index + 1
        && proof.left.leaf_count == proof.right.leaf_count
        && length proof.left.siblings == length proof.right.siblings
      then (do
        left_leaf ← leaf_of e left_key proof.left_mark
        right_leaf ← leaf_of e right_key proof.right_mark
        left_in ← verify_inclusion root left_leaf proof.left
        if left_in then verify_inclusion root right_leaf proof.right else ok false)
      else ok false
  verify_gap root tk proof _ _ = ok false

  unfoldable pub verify_non_inclusion : Text → Text → NonInclusionProof → Text → Result Bool
  unfolding canonical_bytes32
  verify_non_inclusion root target proof namespace = do
    tk ← subject_key e target namespace
    verify_gap root tk proof (canonical_bytes32 proof.left_key) (canonical_bytes32 proof.right_key)
