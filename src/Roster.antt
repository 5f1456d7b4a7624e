-- ===== src/Roster.antt =====
-- pipeline/roster.ts: the epoch roster, a positional Merkle tree over sorted subject keys.
pub mod Proof
pub mod Layers
pub mod Tower
pub mod Inclusion
pub mod Binding
pub mod Built
pub mod Verify
pub mod Listed
pub mod Gap
pub mod Absence
pub mod Distinct
pub mod Hashes
pub mod Total
pub mod Tests
use proofmark.Prelude.{
  ℕ, zero, suc, ◌+◌, ◌-◌, ◌/◌, ◌%◌, Bool, true, false, not, ◌&&◌, ◌||◌, Option, none, some, List,
  [], ◌∷◌, ◌++◌, map, ltb, leb, ◌==◌, if◌then◌else◌, is_safe_integer, length, get_elem?, Result, ok,
  throw, ◌>>=◌, ◌>>◌, require, refuse,
}
use proofmark.Prelude.Sorting.{sort}
use proofmark.Prelude.Text.{Text, codes, text_eq, text_lt}
use proofmark.Ethers.{Ethers, bytes1, bytes32, uint256, string, address, word}

pub record RosterEntry : Type 0 where
  pub subject : Text
  pub attrs : Text
  pub claims_root : Text
  pub evidence_hash : Text
  pub issuer : Text

pub record RosterTree : Type 0 where
  pub format_version : ℕ
  pub entries : List RosterEntry
  pub keys : List Text
  pub marks : List Text
  pub leaves : List Text
  pub layers : List (List Text)
  pub root : Text

abbrev pub zeros : ℕ → Text
zeros zero = []
zeros (suc n) = b'0' ∷ zeros n

abbrev pub effs : ℕ → Text
effs zero = []
effs (suc n) = b'f' ∷ effs n

unfoldable pub min_key : Text
min_key = codes "0x" ++ zeros 64

unfoldable pub max_key : Text
max_key = codes "0x" ++ effs 64

unfoldable pub sentinel_mark : Text
sentinel_mark = codes "0x" ++ zeros 64

-- `xs.map(f)` for a function that may throw.
abbrev pub map_result {ℓ κ} : {A : Type ℓ} {B : Type κ} → (A → Result B) → List A → Result (List B)
map_result f [] = ok []
map_result f (x ∷ xs) = do y ← f x; ys ← map_result f xs; ok (y ∷ ys)

-- `xs[i]`, where the code relies on the index being in range.
abbrev pub element {ℓ} : {A : Type ℓ} → List A → ℕ → Result A
element xs i = elim (get_elem? xs i) [ none ↦ throw "undefined" | some x ↦ ok x ]

-- `layers[layers.length - 1][0]`
unfoldable pub top_of : List (List Text) → Result Text
top_of [] = throw "undefined"
top_of (layer ∷ []) = element layer 0
top_of (layer ∷ layer' ∷ layers) = top_of (layer' ∷ layers)

-- The loop over neighbours in the sorted list.
unfoldable pub refuse_duplicates : List (Text × RosterEntry) → Result (Unit {0})
refuse_duplicates [] = ok tt
refuse_duplicates (x ∷ []) = ok tt
refuse_duplicates (x ∷ y ∷ rest) = do
  refuse (text_eq y.0 x.0) "buildRoster: duplicate subject"
  refuse_duplicates (y ∷ rest)

unfoldable pub refuse_sentinels : List (Text × RosterEntry) → Result (Unit {0})
refuse_sentinels [] = ok tt
refuse_sentinels (x ∷ rest) = do
  refuse (text_eq x.0 min_key || text_eq x.0 max_key) "buildRoster: collides with a sentinel key"
  refuse_sentinels rest

unfoldable pub sort_by_key : List (Text × RosterEntry) → List (Text × RosterEntry)
sort_by_key = sort (λ a b. text_lt b.0 a.0)

module _ (e : Ethers) where
  open e use {keccak256, solidity_packed, abi_encode, get_address}

  unfoldable pub subject_key : Text → Text → Result Text
  subject_key subject namespace = do
    account ← get_address subject
    encoded ← abi_encode (string namespace ∷ address account ∷ [])
    ok (keccak256 encoded)

  unfoldable pub mark_hash : RosterEntry → Result Text
  mark_hash entry = do
    issuer ← get_address entry.issuer
    encoded ←
        abi_encode (
          word entry.attrs
          ∷ word entry.claims_root
          ∷ word entry.evidence_hash
          ∷ address issuer
          ∷ [])
    ok (keccak256 encoded)

  unfoldable pub leaf_of : Text → Text → Result Text
  leaf_of key mark = do
    packed ← solidity_packed (bytes1 (codes "0x00") ∷ bytes32 key ∷ bytes32 mark ∷ [])
    ok (keccak256 packed)

  unfoldable pub hash_node : Text → Text → Result Text
  hash_node left right = do
    packed ← solidity_packed (bytes1 (codes "0x01") ∷ bytes32 left ∷ bytes32 right ∷ [])
    ok (keccak256 packed)

  unfoldable pub roster_root : Text → ℕ → Result Text
  roster_root tree_root leaf_count = do
    require (is_safe_integer leaf_count && leb 2 leaf_count) "invalid roster leaf count"
    packed ← solidity_packed (bytes1 (codes "0x02") ∷ uint256 leaf_count ∷ bytes32 tree_root ∷ [])
    ok (keccak256 packed)

  -- `subjectKey` of each entry, beside the entry.
  unfoldable pub with_key : Text → RosterEntry → Result (Text × RosterEntry)
  unfolding subject_key
  with_key namespace entry = do k ← subject_key entry.subject namespace; ok (k, entry)

  -- One round of the `while` loop: an odd tail is paired with itself.
  unfoldable pub next_layer : List Text → Result (List Text)
  next_layer [] = ok []
  next_layer (x ∷ []) = do h ← hash_node x x; ok (h ∷ [])
  next_layer (x ∷ y ∷ zs) = do h ← hash_node x y; rest ← next_layer zs; ok (h ∷ rest)

  -- The `while` loop, from the layer `cur` on. It takes the number of leaves as fuel.
  unfoldable pub build_layers : ℕ → List Text → Result (List (List Text))
  build_layers zero cur = throw "out of fuel"
  build_layers (suc fuel) cur =
      let more : Result (List (List Text)) = (do
        next ← next_layer cur
        rest ← build_layers fuel next
        ok (cur ∷ rest)) in
      if ltb 1 (length cur) then more else ok (cur ∷ [])

  -- `keys.map((key, i) => leafOf(key, marks[i]))`, for two lists of one length.
  unfoldable pub leaves_of : List Text → List Text → Result (List Text)
  leaves_of (key ∷ keys) (mark ∷ marks) = do
    leaf ← leaf_of key mark
    leaves ← leaves_of keys marks
    ok (leaf ∷ leaves)
  leaves_of _ _ = ok []

  unfoldable pub build_roster : List RosterEntry → Text → Result RosterTree
  unfolding sort_by_key
  build_roster entries namespace = do
    unsorted ← map_result (with_key namespace) entries
    let with_keys = sort_by_key unsorted
    refuse_duplicates with_keys
    refuse_sentinels with_keys
    let sorted = map (λ (x : Text × RosterEntry). x.1) with_keys
    let keys = min_key ∷ map (λ (x : Text × RosterEntry). x.0) with_keys ++ max_key ∷ []
    hashes ← map_result mark_hash sorted
    let marks = sentinel_mark ∷ hashes ++ sentinel_mark ∷ []
    leaves ← leaves_of keys marks
    layers ← build_layers (length leaves) leaves
    top ← top_of layers
    root ← roster_root top (length leaves)
    ok (record {
      format_version = 2;
      entries = sorted;
      keys = keys;
      marks = marks;
      leaves = leaves;
      layers = layers;
      root = root;
    })
