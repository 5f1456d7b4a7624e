-- ===== src/Merkle/Tests.antt =====
-- pipeline/merkle.ts on three leaves, under a small hash that stands for `keccak256`.
use proofmark.Prelude.{ℕ, ◌+◌, ◌*◌, ◌%◌, ◌≡◌, refl, arith, List, [], ◌∷◌, ◌++◌, ok}
use proofmark.Prelude.Text.{Text, to_lower_case, lower_unit, text_lt, text_eq}
use proofmark.Prelude.Sorting.{sort, insert_sorted}
use proofmark.Roster.{zeros}
use proofmark.Roster.Hashes.{IsWord}
use proofmark.Merkle.{
  PairHash, index_of, siblings, hash_pair, next_level, proof_loop, merkle_proof, fold_proof,
  verify_proof,
}
use proofmark.Merkle.Steps.{ConcatsWords}
use proofmark.Merkle.Complete.{IsAccepted, merkle_proof-verify_proof}

abbrev mix : Text → ℕ → ℕ
mix [] h = h
mix (c ∷ cs) h = mix cs ((h * 3 + c) % 10)

abbrev word : ℕ → Text
word d = b'0' ∷ b'x' ∷ (b'0' + d % 10) ∷ zeros 63

abbrev toy : PairHash
toy = record {
  keccak256 = λ t. word (mix t 7);
  concat = λ a b. ok (to_lower_case a ++ to_lower_case b);
}

word-IsWord : (d : ℕ) → IsWord (word d)
word-IsWord d = ground arith

toy-ConcatsWords : ConcatsWords toy
toy-ConcatsWords = record {
  hashed = λ t. word-IsWord (mix t 7);
  joined = λ a b v w. (to_lower_case a ++ to_lower_case b, refl);
  lowered = λ a b c d h k. rw (h, k) refl;
}

abbrev three_leaves : List Text
three_leaves = word 5 ∷ word 3 ∷ word 8 ∷ []

-- The last leaf has no neighbour on its level, and the hash of the others above.
last_proof : merkle_proof toy three_leaves (word 8) ≡ ok (toy.keccak256 (word 3 ++ word 5) ∷ [])
unfolding merkle_proof proof_loop next_level hash_pair siblings index_of sort insert_sorted text_lt
    text_eq to_lower_case lower_unit
last_proof = refl

-- A proof of another leaf is not accepted.
wrong_leaf :
    verify_proof toy (word 9) (word 3) (word 5 ∷ [])
    ≡ ok (text_eq (toy.keccak256 (word 3 ++ word 5)) (word 9))
unfolding verify_proof fold_proof hash_pair text_lt text_eq to_lower_case lower_unit
wrong_leaf = refl

merkle_proof-verify_proof_example : IsAccepted toy three_leaves (word 8)
unfolding text_eq
merkle_proof-verify_proof_example =
    merkle_proof-verify_proof toy toy-ConcatsWords three_leaves (word 8)
      (word-IsWord 5, (word-IsWord 3, (word-IsWord 8, tt))) refl
