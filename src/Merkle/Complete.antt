-- ===== src/Merkle/Complete.antt =====
-- pipeline/merkle.ts: every leaf has a proof, and the proof is accepted.
use proofmark.Prelude.{
  ℕ, zero, suc, ◌/◌, ◌≤◌, ◌≡◌, refl, ap, ◌∙◌, inl, inr, true, some, List, [], ◌∷◌, ◌++◌, length,
  get_elem?, All, any, ok-injective, >>=-eq-ok, arith, Bool-cases, ok,
}
use proofmark.Prelude.Sorting.{sort-length, sort-any, All-sort}
use proofmark.Prelude.Text.{Text, text_eq, text_eq_iff, text_eq_refl, text_lt, to_lower_case}
use proofmark.Roster.Hashes.{IsWord}
use proofmark.Merkle.{
  PairHash, sorted, index_of, siblings, hash_pair, root_loop, merkle_root, proof_loop, merkle_proof,
  fold_proof, verify_proof,
}
use proofmark.Merkle.Steps.{ConcatsWords, next_level-total, siblings-climb}

-- The index of a text that is in the list.
index_of-any :
    (leaf : Text) (level : List Text)
    → any (λ x. text_eq x leaf) level ≡ true
    → (i : ℕ) × (index_of leaf level ≡ some i) × (get_elem? level i ≡ some leaf)
unfolding index_of
index_of-any leaf [] h = absurd (ground arith)
index_of-any leaf (x ∷ xs) h = elim (Bool-cases (text_eq x leaf)) [
  | inl e ↦ (0, rw e refl, ap some ((text_eq_iff x leaf).0 e))
  | inr n ↦
      let (i, found, there) = index_of-any leaf xs (rw n at h) in (suc i, rw (n, found) refl, there)
]

module _ (e : PairHash) (law : ConcatsWords e) where
  fold_proof-append :
      (x y : Text) (proof rest : List Text)
      → fold_proof e x proof ≡ ok y
      → fold_proof e x (proof ++ rest) ≡ fold_proof e y rest
  unfolding fold_proof
  fold_proof-append x y [] rest h = ap (λ t. fold_proof e t rest) (ok-injective h)
  fold_proof-append x y (p ∷ proof) rest h =
      let step = >>=-eq-ok (hash_pair e x p) (λ z. fold_proof e z proof) h in
      rw step.1 (fold_proof-append step.0 y proof rest step.2)

  -- A run of both loops on the same level.
  record IsProved (fuel : ℕ) (level : List Text) (idx : ℕ) (x : Text) : Type 0 where
    root : Text
    rooted : root_loop e fuel level ≡ ok root
    proof : List Text
    proved : proof_loop e fuel level idx ≡ ok proof
    climbs : fold_proof e x proof ≡ ok root

  loops-IsProved :
      (fuel : ℕ) (level : List Text) (idx : ℕ) (x : Text)
      → length level ≤ fuel
      → All IsWord level
      → get_elem? level idx ≡ some x
      → IsProved fuel level idx x
  unfolding root_loop proof_loop fold_proof
  loops-IsProved fuel [] idx x enough words h = absurd (ground arith)
  loops-IsProved fuel (top ∷ []) zero x enough words h = record {
    root = top;
    rooted = refl;
    proof = [];
    proved = refl;
    climbs = ground arith;
  }
  loops-IsProved fuel (top ∷ []) (suc idx) x enough words h = absurd (ground arith)
  loops-IsProved zero (a ∷ b ∷ level) idx x enough words h = absurd (omega arith)
  loops-IsProved (suc fuel) (a ∷ b ∷ level) idx x enough words h =
      let (next, q, words', n) = next_level-total e law (a ∷ b ∷ level) words in
      let (y, at_half, climbs) = siblings-climb e law (a ∷ b ∷ level) next idx x h q in
      let rest = loops-IsProved fuel next (idx / 2) y (omega (arith, n)) words' at_half in
      record {
        root = rest.root;
        rooted = rw q rest.rooted;
        proof = siblings (a ∷ b ∷ level) idx ++ rest.proof;
        proved = rw (q, rest.proved) refl;
        climbs = fold_proof-append x y _ rest.proof climbs ∙ rest.climbs;
      }

-- The root, the proof of a leaf, and its check.
pub record IsAccepted (e : PairHash) (leaves : List Text) (leaf : Text) : Type 0 where
  pub root : Text
  pub rooted : merkle_root e leaves ≡ ok root
  pub proof : List Text
  pub proved : merkle_proof e leaves leaf ≡ ok proof
  pub accepted : verify_proof e root leaf proof ≡ ok true

-- For every leaf among leaves of 32 bytes `merkleRoot` and `merkleProof` return, within the fuel, and
-- `verifyProof` accepts the proof under the root, where hashes are words and `concat` takes words.
pub merkle_proof-verify_proof :
    (e : PairHash)
    → ConcatsWords e
    → (leaves : List Text) (leaf : Text) → All IsWord leaves
    → any (λ x. text_eq x leaf) leaves ≡ true
    → IsAccepted e leaves leaf
unfolding merkle_root merkle_proof verify_proof
merkle_proof-verify_proof e law leaves leaf words listed =
    let (i, found, there) = index_of-any leaf (sorted leaves) (sort-any _ _ leaves ∙ listed) in
    let run =
      loops-IsProved e law (length leaves) (sorted leaves) i leaf
        (omega (arith, sort-length (λ x y. text_lt y x) leaves)) (All-sort _ IsWord leaves words)
        there in
    record {
      root = run.root;
      rooted = run.rooted;
      proof = run.proof;
      proved = rw found run.proved;
      accepted = rw (run.climbs, text_eq_refl (to_lower_case run.root)) refl;
    }
