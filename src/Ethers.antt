-- ===== src/Ethers.antt =====
-- The functions of the package `ethers` that the rosters call: hashing, packing, ABI encoding and
-- checksummed addresses. They are parameters of the model. A call that rejects its arguments throws.
use proofmark.Prelude.{ℕ, ◌≡◌, ◌≢◌, List, [], ◌∷◌, Result, ok}
use proofmark.Prelude.Text.{Text, to_lower_case}

-- A typed argument of `solidityPacked`.
pub data PackedField : Type 0 where
  bytes1 : Text → PackedField
  bytes32 : Text → PackedField
  uint256 : ℕ → PackedField

-- A typed argument of `AbiCoder.encode`.
pub data AbiField : Type 0 where
  string : Text → AbiField
  address : Text → AbiField
  word : Text → AbiField

pub record Ethers : Type 0 where
  pub keccak256 : Text → Text
  pub solidity_packed : List PackedField → Result Text
  pub abi_encode : List AbiField → Result Text
  pub get_address : Text → Result Text

-- Two texts with one hash.
abbrev pub Collision : Ethers → Type 0
Collision e = (x : Text) × (y : Text) × (x ≢ y) × (e.keccak256 x ≡ e.keccak256 y)

-- Hashes are printed in lower case.
abbrev pub LowerHashes : Ethers → Type 0
LowerHashes e = (x : Text) → to_lower_case (e.keccak256 x) ≡ e.keccak256 x

-- `solidityPacked` joins its arguments at fixed widths, so the packed text gives them back up to the
-- case of their hexadecimal digits.
pub record PacksFields (e : Ethers) : Type 0 where
  pub pair :
      (tag a b c d p : Text)
      → e.solidity_packed (bytes1 tag ∷ bytes32 a ∷ bytes32 b ∷ []) ≡ ok p
      → e.solidity_packed (bytes1 tag ∷ bytes32 c ∷ bytes32 d ∷ []) ≡ ok p
      → (to_lower_case a ≡ to_lower_case c) × (to_lower_case b ≡ to_lower_case d)
  pub counted :
      (tag a b p : Text) (n m : ℕ)
      → e.solidity_packed (bytes1 tag ∷ uint256 n ∷ bytes32 a ∷ []) ≡ ok p
      → e.solidity_packed (bytes1 tag ∷ uint256 m ∷ bytes32 b ∷ []) ≡ ok p
      → (n ≡ m) × (to_lower_case a ≡ to_lower_case b)
