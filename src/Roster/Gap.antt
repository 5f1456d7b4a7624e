-- ===== src/Roster/Gap.antt =====
-- pipeline/roster.ts: between two neighbours of an ascending list with its sentinels lies nothing of it.
use proofmark.Prelude.{
  ℕ, zero, suc, ◌≡◌, ◌≢◌, refl, sym, true, List, [], ◌∷◌, ◌++◌, arith, All, ok, ok-injective,
}
use mathlib.Core.Path.{subst}
use proofmark.Prelude.Text.{Text, text_lt, text_lt_irrefl, text_lt_trans}
use proofmark.Roster.{element, min_key, max_key}
use proofmark.Roster.Listed.{Ascends}

lt_apart : (a b : Text) → text_lt a b ≡ true → a ≢ b
lt_apart a b l same = ground (arith, text_lt_irrefl b, rw same at l)

-- Nothing that ascends from above `tk` is `tk`.
above :
    (tk b z : Text) (found : List Text)
    → Ascends found
    → element (found ++ z ∷ []) 0 ≡ ok b
    → text_lt tk b ≡ true
    → All (λ k. k ≢ tk) found
above tk b z [] s at l = tt
above tk b z (x ∷ []) s at l =
    let here : text_lt tk x ≡ true = ground arith in ((λ same. lt_apart tk x here (sym same)), tt)
above tk b z (x ∷ y ∷ rest) s at l =
    let here : text_lt tk x ≡ true = ground arith in
    (
      (λ same. lt_apart tk x here (sym same)),
      above tk y z (y ∷ rest) s.1 refl (text_lt_trans tk x y here s.0),
    )

-- A later text that has a successor is greater.
below :
    (x z a b : Text) (found : List Text) (i : ℕ)
    → Ascends (x ∷ found)
    → element (found ++ z ∷ []) i ≡ ok a
    → element (found ++ z ∷ []) (suc i) ≡ ok b
    → text_lt x a ≡ true
below x z a b [] zero s p q = absurd (ground arith)
below x z a b [] (suc i) s p q = absurd (ground arith)
below x z a b (y ∷ rest) zero s p q = subst (λ t. text_lt x t ≡ true) (ok-injective p) s.0
below x z a b (y ∷ rest) (suc i) s p q = text_lt_trans x y a s.0 (below y z a b rest i s.1 p q)

tail-Ascends : (x : Text) (xs : List Text) → Ascends (x ∷ xs) → Ascends xs
tail-Ascends x [] s = tt
tail-Ascends x (y ∷ ys) s = s.1

between :
    (tk z a b : Text) (found : List Text) (i : ℕ)
    → Ascends found
    → element (found ++ z ∷ []) i ≡ ok a
    → element (found ++ z ∷ []) (suc i) ≡ ok b
    → text_lt a tk ≡ true
    → text_lt tk b ≡ true
    → All (λ k. k ≢ tk) found
between tk z a b [] i s p q l r = tt
between tk z a b (x ∷ xs) zero s p q l r = (
  lt_apart x tk (subst (λ t. text_lt t tk ≡ true) (sym (ok-injective p)) l),
  above tk b z xs (tail-Ascends x xs s) q r,
)
between tk z a b (x ∷ xs) (suc i) s p q l r = (
  lt_apart x tk (text_lt_trans x a tk (below x z a b xs i s p q) l),
  between tk z a b xs i (tail-Ascends x xs s) p q l r,
)

-- What lies between neighbouring keys is no key that was found.
pub gap :
    (tk a b : Text) (found : List Text) (i : ℕ)
    → Ascends found
    → element (min_key ∷ found ++ max_key ∷ []) i ≡ ok a
    → element (min_key ∷ found ++ max_key ∷ []) (suc i) ≡ ok b
    → text_lt a tk ≡ true
    → text_lt tk b ≡ true
    → All (λ k. k ≢ tk) found
gap tk a b found zero s p q l r = above tk b max_key found s q r
gap tk a b found (suc i) s p q l r = between tk max_key a b found i s p q l r
