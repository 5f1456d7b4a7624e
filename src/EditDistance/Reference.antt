-- ===== src/EditDistance/Reference.antt =====
-- The restricted Damerau-Levenshtein distance of two prefixes, by recursion on their lengths.
use proofmark.Prelude.{ℕ, zero, suc, ◌+◌, min, Bool, ◌&&◌, if◌then◌else◌, get_elem?}
use proofmark.EditDistance.{Token, same}

-- The last step: keep or replace the last characters, or drop one of them.
abbrev pub shortest : ℕ → ℕ → ℕ → Bool → ℕ
shortest above left diagonal equal =
    min (min (above + 1) (left + 1)) (diagonal + (if equal then 0 else 1))

-- The number of steps from the first `i` characters of `a` to the first `j` of `b`: one step inserts,
-- removes or replaces a character, or swaps two neighbours that are not touched again.
unfoldable pub osa : Token → Token → ℕ → ℕ → ℕ
osa a b zero j = j
osa a b (suc i) zero = suc i
osa a b (suc zero) (suc j) =
    shortest (osa a b zero (suc j)) (osa a b (suc zero) j) (osa a b zero j)
      (same (get_elem? a zero) (get_elem? b j))
osa a b (suc (suc i)) (suc zero) =
    shortest (osa a b (suc i) (suc zero)) (osa a b (suc (suc i)) zero) (osa a b (suc i) zero)
      (same (get_elem? a (suc i)) (get_elem? b zero))
osa a b (suc (suc i)) (suc (suc j)) =
    let kept =
      shortest (osa a b (suc i) (suc (suc j))) (osa a b (suc (suc i)) (suc j))
        (osa a b (suc i) (suc j)) (same (get_elem? a (suc i)) (get_elem? b (suc j))) in
    let swapped = osa a b i j + 1 in
    if same (get_elem? a (suc i)) (get_elem? b j) && same (get_elem? a i) (get_elem? b (suc j))
    then min kept swapped
    else kept
