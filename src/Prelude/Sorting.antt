-- ===== src/Prelude/Sorting.antt =====
-- `Array.prototype.sort` with a comparator: the stable sort, by insertion. `after x y` says that
-- the comparator puts `x` strictly after `y`.
use Prim.Native.Nat.{suc}
use mathlib.Core.Path.{◌≡◌, refl, ap, ◌∙◌}
use mathlib.Core.Bool.{Bool, true, false, ◌||◌}
use mathlib.Core.Logic.{inl, inr}
use mathlib.Core.List.{List, [], ◌∷◌, Perm}
use mathlib.Core.List.Perm
use native.Mathlib.Omega.{arith}
use proofmark.Prelude.Lists.{All, any, length}
use proofmark.Prelude.Tests.{if◌then◌else◌, Bool-cases}

module _ {ℓ} {A : Type ℓ} (after : A → A → Bool) where
  unfoldable pub insert_sorted : A → List A → List A
  insert_sorted x [] = x ∷ []
  insert_sorted x (y ∷ ys) =
      let rest = insert_sorted x ys in if after x y then y ∷ rest else x ∷ y ∷ ys

  unfoldable pub sort : List A → List A
  unfolding insert_sorted
  sort [] = []
  sort (x ∷ xs) = insert_sorted x (sort xs)

  pub insert_sorted-perm : (x : A) (xs : List A) → Perm (insert_sorted x xs) (x ∷ xs)
  unfolding insert_sorted
  insert_sorted-perm x [] = Perm.refl (x ∷ [])
  insert_sorted-perm x (y ∷ ys) = elim (Bool-cases (after x y)) [
    | inl e ↦ rw e (Perm.trans (Perm.cons y (insert_sorted-perm x ys)) (Perm.swap x y ys))
    | inr e ↦ rw e (Perm.refl (x ∷ y ∷ ys))
  ]

  pub sort-perm : (xs : List A) → Perm (sort xs) xs
  unfolding sort
  sort-perm [] = Perm.refl []
  sort-perm (x ∷ xs) = Perm.trans (insert_sorted-perm x (sort xs)) (Perm.cons x (sort-perm xs))

  -- No element stands directly behind one that belongs after it.
  abbrev pub IsSorted : List A → Type 0
  IsSorted [] = Unit
  IsSorted (x ∷ []) = Unit
  IsSorted (x ∷ y ∷ rest) = (after x y ≡ false) × IsSorted (y ∷ rest)

  tail-IsSorted : (x : A) (xs : List A) → IsSorted (x ∷ xs) → IsSorted xs
  tail-IsSorted x [] s = tt
  tail-IsSorted x (y ∷ ys) s = s.1

  module _ (asym : (x y : A) → after x y ≡ true → after y x ≡ false) where
    insert_behind :
        (y x : A) (ys : List A)
        → after x y ≡ true
        → IsSorted (y ∷ ys)
        → IsSorted (insert_sorted x ys)
        → IsSorted (y ∷ insert_sorted x ys)
    unfolding insert_sorted
    insert_behind y x [] h s t = (asym x y h, tt)
    insert_behind y x (z ∷ zs) h s t = elim (Bool-cases (after x z)) [
      | inl e ↦ rw e (s.0, rw e at t)
      | inr e ↦ rw e (asym x y h, rw e at t)
    ]

    insert_sorted-IsSorted : (x : A) (xs : List A) → IsSorted xs → IsSorted (insert_sorted x xs)
    unfolding insert_sorted
    insert_sorted-IsSorted x [] s = tt
    insert_sorted-IsSorted x (y ∷ ys) s = elim (Bool-cases (after x y)) [
      | inl e ↦ rw e (insert_behind y x ys e s (insert_sorted-IsSorted x ys (tail-IsSorted y ys s)))
      | inr e ↦ rw e (e, s)
    ]

    pub sort-IsSorted : (xs : List A) → IsSorted (sort xs)
    unfolding sort
    sort-IsSorted [] = tt
    sort-IsSorted (x ∷ xs) = insert_sorted-IsSorted x (sort xs) (sort-IsSorted xs)

  module _ {κ} (P : A → Type κ) where
    insert_sorted-All : (x : A) (xs : List A) → All P (insert_sorted x xs) → P x × All P xs
    unfolding insert_sorted
    insert_sorted-All x [] h = h
    insert_sorted-All x (y ∷ ys) h = elim (Bool-cases (after x y)) [
      | inl e ↦ let h' = rw e at h in let r = insert_sorted-All x ys h'.1 in (r.0, (h'.0, r.1))
      | inr e ↦ rw e at h
    ]

    -- What holds of all of the sorted list holds of all of the list.
    pub sort-All : (xs : List A) → All P (sort xs) → All P xs
    unfolding sort
    sort-All [] h = tt
    sort-All (x ∷ xs) h = let r = insert_sorted-All x (sort xs) h in (r.0, sort-All xs r.1)

    pub insert_sorted-All' : (x : A) (xs : List A) → P x → All P xs → All P (insert_sorted x xs)
    unfolding insert_sorted
    insert_sorted-All' x [] p h = (p, tt)
    insert_sorted-All' x (y ∷ ys) p h = elim (Bool-cases (after x y)) [
      | inl e ↦ rw e (h.0, insert_sorted-All' x ys p h.1)
      | inr e ↦ rw e (p, h)
    ]

    -- And the other way round.
    pub All-sort : (xs : List A) → All P xs → All P (sort xs)
    unfolding sort
    All-sort [] h = tt
    All-sort (x ∷ xs) h = insert_sorted-All' x (sort xs) h.0 (All-sort xs h.1)

  -- An element is found in the sorted list exactly if it is found in the list.
  insert_sorted-any :
      (p : A → Bool) (x : A) (xs : List A) → any p (insert_sorted x xs) ≡ (p x || any p xs)
  unfolding insert_sorted
  insert_sorted-any p x [] = refl
  insert_sorted-any p x (y ∷ ys) = ground (arith, insert_sorted-any p x ys)

  pub sort-any : (p : A → Bool) (xs : List A) → any p (sort xs) ≡ any p xs
  unfolding sort
  sort-any p [] = refl
  sort-any p (x ∷ xs) = ground (arith, insert_sorted-any p x (sort xs), sort-any p xs)

  insert_sorted-length : (x : A) (xs : List A) → length (insert_sorted x xs) ≡ suc (length xs)
  unfolding insert_sorted
  insert_sorted-length x [] = refl
  insert_sorted-length x (y ∷ ys) = ground (arith, insert_sorted-length x ys)

  pub sort-length : (xs : List A) → length (sort xs) ≡ length xs
  unfolding sort
  sort-length [] = refl
  sort-length (x ∷ xs) = insert_sorted-length x (sort xs) ∙ ap suc (sort-length xs)
