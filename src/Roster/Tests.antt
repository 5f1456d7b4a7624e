-- ===== src/Roster/Tests.antt =====
-- pipeline/roster.ts on concrete data: a roster of two subjects under a small hash that stands for
-- `keccak256`, with proofs for an entry and for an absent subject.
use proofmark.Prelude.{
  ℕ, zero, suc, ◌+◌, ◌*◌, ◌/◌, ◌%◌, ◌≡◌, ◌≢◌, refl, arith, true, false, List, [], ◌∷◌, Result, ok,
  throw, ok-injective, ltb, if◌then◌else◌, length, All,
}
use proofmark.Prelude.Text.{Text, codes, to_lower_case, lower_unit}
use proofmark.Ethers.{
  Ethers, PackedField, bytes1, bytes32, uint256, AbiField, string, address, word, PacksFields,
  LowerHashes,
}
use proofmark.Prelude.{is_safe_integer}
use proofmark.Prelude.Sorting.{sort, insert_sorted}
use proofmark.Prelude.Text.{text_lt, text_eq}
use proofmark.Roster.{
  RosterEntry, RosterTree, build_roster, element, subject_key, zeros, with_key, refuse_duplicates,
  min_key, max_key, refuse_sentinels, mark_hash, leaves_of, leaf_of, build_layers, next_layer,
  hash_node, top_of, roster_root, sentinel_mark, sort_by_key,
}
use proofmark.Roster.Proof.{
  InclusionProof, NonInclusionProof, inclusion_proof, verify_inclusion, non_inclusion_proof,
  verify_non_inclusion, siblings_of, sibling, climb, climb_step, reaches_root, find_gap,
  canonical_bytes32, is_hex_digit,
}
use proofmark.Roster.Binding.{Unless}
use proofmark.Roster.Verify.{Stands, prove-verify, verify-binds}
use proofmark.Roster.Distinct.{Distinct, IsFree}
use proofmark.Roster.{map_result}
use proofmark.Roster.Hashes.{IsWord, PacksWords}
use proofmark.Roster.Total.{build_roster-total}
use proofmark.Roster.Absence.{verify_non_inclusion-absent}

-- A text with its end marked, so that what follows can be told from it.
unfoldable closed : Text → Text → Text
closed [] rest = zero ∷ rest
closed (c ∷ cs) rest = suc c ∷ closed cs rest

closed-injective : (a b x y : Text) → closed a x ≡ closed b y → (a ≡ b) × (x ≡ y)
unfolding closed
closed-injective [] [] x y h = ground arith
closed-injective [] (c ∷ cs) x y h = absurd (ground arith)
closed-injective (c ∷ cs) [] x y h = absurd (ground arith)
closed-injective (c ∷ cs) (d ∷ ds) x y h =
    let r = closed-injective cs ds x y (ground arith) in
    let q : c ≡ d = ground arith in (λ i. q i ∷ r.0 i, r.1)

abbrev pack : List PackedField → Text
pack [] = []
pack (bytes1 t ∷ fs) = closed (to_lower_case t) (pack fs)
pack (bytes32 t ∷ fs) = closed (to_lower_case t) (pack fs)
pack (uint256 n ∷ fs) = n ∷ pack fs

abbrev encode : List AbiField → Text
encode [] = []
encode (string t ∷ fs) = closed t (encode fs)
encode (address t ∷ fs) = closed t (encode fs)
encode (word t ∷ fs) = closed t (encode fs)

-- A hash of 64 lower-case hexadecimal digits, the last 60 of which are zeros.
abbrev hex_digit : ℕ → ℕ
hex_digit d = if ltb d 10 then b'0' + d else 87 + d

abbrev mix : Text → ℕ → ℕ
mix [] h = h
mix (c ∷ cs) h = mix cs ((h * 31 + c) % 65521)

abbrev toy_word : ℕ → Text
toy_word h =
    b'0'
    ∷ b'x'
    ∷ hex_digit ((h / 4096) % 16)
    ∷ hex_digit ((h / 256) % 16)
    ∷ hex_digit ((h / 16) % 16)
    ∷ hex_digit (h % 16)
    ∷ zeros 60

abbrev toy_hash : Text → Text
toy_hash t = toy_word (mix t 7)

abbrev toy : Ethers
toy = record {
  keccak256 = toy_hash;
  solidity_packed = λ fs. ok (pack fs);
  abi_encode = λ fs. ok (encode fs);
  get_address = λ t. ok t;
}

hex_digit-lower : (d : ℕ) → lower_unit (hex_digit d) ≡ hex_digit d
unfolding lower_unit
hex_digit-lower d = ground arith

toy-LowerHashes : LowerHashes toy
unfolding to_lower_case lower_unit
toy-LowerHashes x =
    let h = mix x 7 in
    λ i.
      b'0'
      ∷ b'x'
      ∷ hex_digit-lower ((h / 4096) % 16) i
      ∷ hex_digit-lower ((h / 256) % 16) i
      ∷ hex_digit-lower ((h / 16) % 16) i
      ∷ hex_digit-lower (h % 16) i
      ∷ zeros 60

toy-PacksFields : PacksFields toy
toy-PacksFields = record {
  pair = λ tag a b c d p x y.
      let r =
        closed-injective (to_lower_case tag) (to_lower_case tag) _ _
          (ok-injective (ground arith)) in
      let s = closed-injective (to_lower_case a) (to_lower_case c) _ _ r.1 in
      (s.0, (closed-injective (to_lower_case b) (to_lower_case d) [] [] s.1).0);
  counted = λ tag a b p n m x y.
      let r =
        closed-injective (to_lower_case tag) (to_lower_case tag) (n ∷ closed (to_lower_case a) [])
          (m ∷ closed (to_lower_case b) []) (ground arith) in
      let tails : closed (to_lower_case a) [] ≡ closed (to_lower_case b) [] = ground arith in
      (ground arith, (closed-injective (to_lower_case a) (to_lower_case b) [] [] tails).0);
}

hex_digit-is_hex_digit : (n : ℕ) → is_hex_digit (hex_digit (n % 16)) ≡ true
hex_digit-is_hex_digit n = ground arith

toy_word-IsWord : (h : ℕ) → IsWord (toy_word h)
toy_word-IsWord h =
    rw
      (
        hex_digit-is_hex_digit (h / 4096),
        hex_digit-is_hex_digit (h / 256),
        hex_digit-is_hex_digit (h / 16),
        hex_digit-is_hex_digit h,
      )
      refl

toy-PacksWords : PacksWords toy
toy-PacksWords = record {
  hashed = λ t. toy_word-IsWord (mix t 7);
  leaf = λ a b x y. (_, refl);
  node = λ a b x y. (_, refl);
  root = λ n a x y. (_, refl);
}

abbrev entry_of : Text → RosterEntry
entry_of subject = record {
  subject = subject;
  attrs = codes "0x01";
  claims_root = codes "0x02";
  evidence_hash = codes "0x03";
  issuer = codes "0xissuer";
}

abbrev people : List RosterEntry
people = entry_of (codes "alice") ∷ entry_of (codes "bob") ∷ []

abbrev space : Text
space = codes "test"

abbrev no_tree : RosterTree
no_tree = record {
  format_version = 0;
  entries = [];
  keys = [];
  marks = [];
  leaves = [];
  layers = [];
  root = [];
}

abbrev or_else {ℓ} : {A : Type ℓ} → A → Result A → A
or_else d (ok a) = a
or_else d (throw _) = d

abbrev tree : RosterTree
tree = or_else no_tree (build_roster toy people space)

tree-built : build_roster toy people space ≡ ok tree
unfolding build_roster with_key refuse_duplicates sort insert_sorted text_lt text_eq
    refuse_sentinels min_key max_key mark_hash leaves_of leaf_of build_layers next_layer hash_node
    top_of roster_root sentinel_mark sort_by_key subject_key is_safe_integer closed to_lower_case
    lower_unit
tree-built = refl

tree-length : length tree.leaves ≡ 4
unfolding build_roster with_key refuse_duplicates sort insert_sorted text_lt text_eq
    refuse_sentinels min_key max_key mark_hash leaves_of leaf_of build_layers next_layer hash_node
    top_of roster_root sentinel_mark sort_by_key subject_key is_safe_integer closed to_lower_case
    lower_unit
tree-length = refl

abbrev no_proof : InclusionProof
no_proof = record { index = 9; leaf_count = 0; siblings = [] }

abbrev second : InclusionProof
second = or_else no_proof (inclusion_proof tree 1)

abbrev second_leaf : Text
second_leaf = or_else [] (element tree.leaves 1)

second-accepted : verify_inclusion toy tree.root second_leaf second ≡ ok true
unfolding build_roster with_key refuse_duplicates sort insert_sorted text_lt text_eq
    refuse_sentinels min_key max_key mark_hash leaves_of leaf_of build_layers next_layer hash_node
    top_of roster_root sentinel_mark sort_by_key subject_key is_safe_integer closed to_lower_case
    lower_unit inclusion_proof siblings_of sibling verify_inclusion climb climb_step reaches_root
second-accepted = refl

-- The proof of one leaf is refused for another.
third-refused :
    verify_inclusion toy tree.root second_leaf (or_else no_proof (inclusion_proof tree 2))
    ≡ ok false
unfolding build_roster with_key refuse_duplicates sort insert_sorted text_lt text_eq
    refuse_sentinels min_key max_key mark_hash leaves_of leaf_of build_layers next_layer hash_node
    top_of roster_root sentinel_mark sort_by_key subject_key is_safe_integer closed to_lower_case
    lower_unit inclusion_proof siblings_of sibling verify_inclusion climb climb_step reaches_root
third-refused = refl

abbrev absence : NonInclusionProof
absence =
    or_else
      (record {
        left = no_proof;
        left_key = [];
        left_mark = [];
        right = no_proof;
        right_key = [];
        right_mark = [];
      })
      (non_inclusion_proof toy tree (codes "carol") space)

absence-accepted : verify_non_inclusion toy tree.root (codes "carol") absence space ≡ ok true
unfolding build_roster with_key refuse_duplicates sort insert_sorted text_lt text_eq
    refuse_sentinels min_key max_key mark_hash leaves_of leaf_of build_layers next_layer hash_node
    top_of roster_root sentinel_mark sort_by_key subject_key is_safe_integer closed to_lower_case
    lower_unit inclusion_proof siblings_of sibling verify_inclusion climb climb_step reaches_root
    non_inclusion_proof find_gap verify_non_inclusion canonical_bytes32
absence-accepted = refl

-- No proof of absence is made for an entry.
alice-present :
    non_inclusion_proof toy tree (codes "alice") space
    ≡ throw "nonInclusionProof: the target is in the roster"
unfolding build_roster with_key refuse_duplicates sort insert_sorted text_lt text_eq
    refuse_sentinels min_key max_key mark_hash leaves_of leaf_of build_layers next_layer hash_node
    top_of roster_root sentinel_mark sort_by_key subject_key is_safe_integer closed to_lower_case
    lower_unit inclusion_proof siblings_of sibling verify_inclusion climb climb_step reaches_root
    non_inclusion_proof find_gap verify_non_inclusion canonical_bytes32
alice-present = refl

prove-verify_example :
    (proof : InclusionProof) × (leaf : Text) × (inclusion_proof tree 3 ≡ ok proof)
    × (element tree.leaves 3 ≡ ok leaf)
    × (verify_inclusion toy tree.root leaf proof ≡ ok true)
prove-verify_example =
    prove-verify toy people space 3 tree-built (omega (arith, tree-length))
      (omega (arith, tree-length))

verify-binds_example : Unless toy (Stands tree second_leaf second)
verify-binds_example =
    verify-binds toy toy-PacksFields toy-LowerHashes people space second_leaf second tree-built
      second-accepted

verify_non_inclusion-absent_example : Unless toy (
    All
      (λ (entry : RosterEntry).
        subject_key toy entry.subject space ≢ subject_key toy (codes "carol") space)
      people)
verify_non_inclusion-absent_example =
    verify_non_inclusion-absent toy toy-PacksFields toy-LowerHashes people space (codes "carol")
      absence tree-built absence-accepted

abbrev pairs : List (Text × RosterEntry)
pairs = or_else [] (map_result (with_key toy space) people)

pairs-keyed : map_result (with_key toy space) people ≡ ok pairs
unfolding with_key subject_key mark_hash text_eq min_key max_key closed to_lower_case lower_unit
pairs-keyed = refl

pairs-Distinct : Distinct pairs
unfolding with_key subject_key mark_hash text_eq min_key max_key closed to_lower_case lower_unit
pairs-Distinct = ((refl, tt), (tt, tt))

pairs-IsFree : All IsFree pairs
unfolding with_key subject_key mark_hash text_eq min_key max_key closed to_lower_case lower_unit
pairs-IsFree = (refl, (refl, tt))

pairs-length : is_safe_integer (length pairs + 2) ≡ true
unfolding with_key subject_key mark_hash text_eq min_key max_key closed to_lower_case lower_unit
    is_safe_integer
pairs-length = refl

people-marked : All (λ (entry : RosterEntry). (h : Text) × (mark_hash toy entry ≡ ok h)) people
unfolding with_key subject_key mark_hash text_eq min_key max_key closed to_lower_case lower_unit
people-marked = ((_, refl), ((_, refl), tt))

build_roster-total_example : (t : RosterTree) × (build_roster toy people space ≡ ok t)
build_roster-total_example =
    build_roster-total toy toy-PacksWords people space pairs pairs-keyed pairs-Distinct pairs-IsFree
      people-marked pairs-length
