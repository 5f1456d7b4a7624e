-- ===== src/Roster/Distinct.antt =====
-- pipeline/roster.ts: entries with different keys pass the checks of `buildRoster` after the sort.
use proofmark.Prelude.{
  ◌≡◌, refl, inl, inr, Bool, false, ◌||◌, List, [], ◌∷◌, arith, Bool-cases, All, length, ok,
}
use proofmark.Prelude.Sorting.{sort, insert_sorted, insert_sorted-All', All-sort, sort-length}
use proofmark.Prelude.Text.{Text, text_eq, text_lt, text_eq_iff}
use proofmark.Roster.{
  RosterEntry, sort_by_key, refuse_duplicates, refuse_sentinels, min_key, max_key,
}

-- The keys are pairwise different.
abbrev pub Distinct : List (Text × RosterEntry) → Type 0
Distinct [] = Unit
Distinct (x ∷ xs) = All (λ (y : Text × RosterEntry). text_eq x.0 y.0 ≡ false) xs × Distinct xs

abbrev behind : Text × RosterEntry → Text × RosterEntry → Bool
behind a b = text_lt b.0 a.0

text_eq-false_sym : (a b : Text) → text_eq a b ≡ false → text_eq b a ≡ false
text_eq-false_sym a b h = ground (arith, text_eq_iff a b, text_eq_iff b a)

insert_sorted-Distinct :
    (x : Text × RosterEntry) (xs : List (Text × RosterEntry))
    → Distinct (x ∷ xs)
    → Distinct (insert_sorted behind x xs)
unfolding insert_sorted
insert_sorted-Distinct x [] h = h
insert_sorted-Distinct x (y ∷ ys) h = elim (Bool-cases (behind x y)) [
  | inr e ↦ rw e h
  | inl e ↦
      let rest = insert_sorted-Distinct x ys (h.0.1, h.1.1) in
      let here =
        insert_sorted-All' behind (λ (z : Text × RosterEntry). text_eq y.0 z.0 ≡ false) x ys
          (text_eq-false_sym x.0 y.0 h.0.0) h.1.0 in
      rw e (here, rest)
]

sort-Distinct : (xs : List (Text × RosterEntry)) → Distinct xs → Distinct (sort behind xs)
unfolding sort
sort-Distinct [] h = tt
sort-Distinct (x ∷ xs) h = insert_sorted-Distinct x (sort behind xs) (
  All-sort behind (λ (y : Text × RosterEntry). text_eq x.0 y.0 ≡ false) xs h.0,
  sort-Distinct xs h.1,
)

pub Distinct-refuse_duplicates :
    (xs : List (Text × RosterEntry)) → Distinct xs → refuse_duplicates xs ≡ ok tt
unfolding refuse_duplicates
Distinct-refuse_duplicates [] h = refl
Distinct-refuse_duplicates (x ∷ []) h = refl
Distinct-refuse_duplicates (x ∷ y ∷ rest) h =
    rw (text_eq-false_sym x.0 y.0 h.0.0) (Distinct-refuse_duplicates (y ∷ rest) h.1)

-- The key is none of the two sentinels.
abbrev pub IsFree : Text × RosterEntry → Type 0
IsFree x = (text_eq x.0 min_key || text_eq x.0 max_key) ≡ false

pub free-refuse_sentinels :
    (xs : List (Text × RosterEntry)) → All IsFree xs → refuse_sentinels xs ≡ ok tt
unfolding refuse_sentinels
free-refuse_sentinels [] h = refl
free-refuse_sentinels (x ∷ xs) h = rw h.0 (free-refuse_sentinels xs h.1)

pub sort_by_key-Distinct :
    (xs : List (Text × RosterEntry)) → Distinct xs → Distinct (sort_by_key xs)
unfolding sort_by_key
sort_by_key-Distinct xs h = sort-Distinct xs h

pub sort_by_key-All :
    (P : Text × RosterEntry → Type 0) (xs : List (Text × RosterEntry))
    → All P xs
    → All P (sort_by_key xs)
unfolding sort_by_key
sort_by_key-All P xs h = All-sort behind P xs h

pub sort_by_key-length : (xs : List (Text × RosterEntry)) → length (sort_by_key xs) ≡ length xs
unfolding sort_by_key
sort_by_key-length xs = sort-length behind xs
