-- ===== src/Merkle.antt =====
-- pipeline/merkle.ts: the tree of sorted pairs over the leaves of a claim, its proofs and their check.
-- `ethers.keccak256` and `ethers.concat` are parameters; `concat` throws on a text that is no bytes.
pub mod Steps
pub mod Complete
pub mod Tests
use proofmark.Prelude.{
  ℕ, zero, suc, ◌+◌, ◌/◌, Bool, true, false, Option, none, some, List, [], ◌∷◌, ◌++◌, ltb,
  if◌then◌else◌, length, get_elem?, Result, ok, throw, ◌>>=◌,
}
use proofmark.Prelude.Text.{Text, text_eq, text_lt, to_lower_case}
use proofmark.Prelude.Sorting.{sort}
use proofmark.Roster.{zeros}
use proofmark.Roster.Proof.{pair_index}

-- The functions of `ethers` that the tree calls.
pub record PairHash : Type 0 where
  pub keccak256 : Text → Text
  pub concat : Text → Text → Result Text

-- `ethers.ZeroHash`
abbrev pub zero_hash : Text
zero_hash = b'0' ∷ b'x' ∷ zeros 64

-- `[...leaves].sort()`
abbrev pub sorted : List Text → List Text
sorted = sort (λ x y. text_lt y x)

-- `level.indexOf(leaf)`, where `none` is -1.
abbrev pub one_on : Option ℕ → Option ℕ
one_on none = none
one_on (some i) = some (suc i)

unfoldable pub index_of : Text → List Text → Option ℕ
index_of leaf [] = none
index_of leaf (x ∷ xs) =
    let rest = index_of leaf xs in if text_eq x leaf then some 0 else one_on rest

-- What a round of `merkleProof` pushes: the neighbour, if there is one.
abbrev pub pushed : Option Text → List Text
pushed none = []
pushed (some s) = s ∷ []

unfoldable pub siblings : List Text → ℕ → List Text
siblings level idx = pushed (get_elem? level (pair_index idx))

module _ (e : PairHash) where
  -- `!(b.toLowerCase() < a.toLowerCase())` is `a.toLowerCase() <= b.toLowerCase()`.
  unfoldable pub hash_pair : Text → Text → Result Text
  hash_pair a b = do
    bytes ← if text_lt (to_lower_case b) (to_lower_case a) then e.concat b a else e.concat a b
    ok (e.keccak256 bytes)

  -- The inner loop, which makes the next level.
  unfoldable pub next_level : List Text → Result (List Text)
  unfolding hash_pair
  next_level [] = ok []
  next_level (a ∷ []) = ok (a ∷ [])
  next_level (a ∷ b ∷ level) = do h ← hash_pair a b; rest ← next_level level; ok (h ∷ rest)

  -- The loop of `merkleRoot`, on fuel.
  unfoldable pub root_loop : ℕ → List Text → Result Text
  unfolding next_level
  root_loop fuel [] = ok zero_hash
  root_loop fuel (top ∷ []) = ok top
  root_loop zero (a ∷ b ∷ level) = throw "out of fuel"
  root_loop (suc fuel) (a ∷ b ∷ level) = next_level (a ∷ b ∷ level) >>= root_loop fuel

  unfoldable pub merkle_root : List Text → Result Text
  unfolding root_loop
  merkle_root leaves = root_loop (length leaves) (sorted leaves)

  -- The loop of `merkleProof`, on fuel.
  unfoldable pub proof_loop : ℕ → List Text → ℕ → Result (List Text)
  unfolding next_level siblings
  proof_loop fuel [] idx = ok []
  proof_loop fuel (top ∷ []) idx = ok []
  proof_loop zero (a ∷ b ∷ level) idx = throw "out of fuel"
  proof_loop (suc fuel) (a ∷ b ∷ level) idx = do
    next ← next_level (a ∷ b ∷ level)
    rest ← proof_loop fuel next (idx / 2)
    ok (siblings (a ∷ b ∷ level) idx ++ rest)

  abbrev pub proof_from : ℕ → List Text → Option ℕ → Result (List Text)
  proof_from fuel level none = throw "merkleProof: leaf not found"
  proof_from fuel level (some idx) = proof_loop fuel level idx

  unfoldable pub merkle_proof : List Text → Text → Result (List Text)
  unfolding index_of proof_loop
  merkle_proof leaves leaf =
      proof_from (length leaves) (sorted leaves) (index_of leaf (sorted leaves))

  -- The loop of `verifyProof`.
  unfoldable pub fold_proof : Text → List Text → Result Text
  unfolding hash_pair
  fold_proof acc [] = ok acc
  fold_proof acc (p ∷ proof) = do acc' ← hash_pair acc p; fold_proof acc' proof

  unfoldable pub verify_proof : Text → Text → List Text → Result Bool
  unfolding fold_proof
  verify_proof root leaf proof = do
    acc ← fold_proof leaf proof
    ok (text_eq (to_lower_case acc) (to_lower_case root))
