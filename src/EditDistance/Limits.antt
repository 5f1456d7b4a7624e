-- ===== src/EditDistance/Limits.antt =====
-- aml/edit-distance.ts: `withinOneEdit` and `withinSupportedEdits` do not depend on the order of the
-- tokens, and the first is stricter than the second.
use proofmark.Prelude.{
  ℕ, zero, suc, ◌+◌, ◌≤◌, min, Bool, true, false, ◌≡◌, refl, ◌&&◌, ◌||◌, arith, Option, none, some,
  if◌then◌else◌, get_elem?, length, ltb, leb, is_safe_integer,
}
use proofmark.Prelude.Text.{text_eq, text_eq_iff}
use proofmark.EditDistance.{
  Token, same, bounded_edit_distance, supported_edit_limit, is_within, within_one_edit,
  within_supported_edits,
}
use proofmark.EditDistance.Reference.{osa, shortest}
use proofmark.EditDistance.Table.{bounded_edit_distance-osa}

same_comm : (x y : Option ℕ) → same x y ≡ same y x
same_comm none none = refl
same_comm none (some y) = refl
same_comm (some x) none = refl
same_comm (some x) (some y) = ground arith

-- The last step seen from the other side.
shortest_comm :
    {above left diagonal above' left' diagonal' : ℕ} {equal equal' : Bool}
    → above ≡ left'
    → left ≡ above'
    → diagonal ≡ diagonal'
    → equal ≡ equal'
    → shortest above left diagonal equal ≡ shortest above' left' diagonal' equal'
shortest_comm {equal = true} {equal' = true} h k l e = omega (arith, h, k, l)
shortest_comm {equal = false} {equal' = false} h k l e = omega (arith, h, k, l)
shortest_comm {equal = true} {equal' = false} h k l e = absurd (ground arith)
shortest_comm {equal = false} {equal' = true} h k l e = absurd (ground arith)

swap_comm :
    (x y : Bool) {x' y' : Bool} {kept kept' corner corner' : ℕ}
    → x ≡ x'
    → y ≡ y'
    → kept ≡ kept'
    → corner ≡ corner'
    → (if x && y then min kept (corner + 1) else kept)
      ≡ (if y' && x' then min kept' (corner' + 1) else kept')
swap_comm true true e f k c = rw (← e, ← f) (omega (arith, k, c))
swap_comm true false e f k c = rw (← e, ← f) k
swap_comm false true e f k c = rw (← e, ← f) k
swap_comm false false e f k c = rw (← e, ← f) k

osa_comm : (a b : Token) (i j : ℕ) → osa a b i j ≡ osa b a j i
unfolding osa
osa_comm a b zero zero = refl
osa_comm a b zero (suc j) = refl
osa_comm a b (suc i) zero = refl
osa_comm a b (suc zero) (suc zero) =
    shortest_comm {above = 1} {left = 1} {diagonal = 0} refl refl refl
      (same_comm (get_elem? a 0) (get_elem? b 0))
osa_comm a b (suc zero) (suc (suc j)) =
    shortest_comm refl (osa_comm a b (suc zero) (suc j)) refl
      (same_comm (get_elem? a 0) (get_elem? b (suc j)))
osa_comm a b (suc (suc i)) (suc zero) =
    shortest_comm (osa_comm a b (suc i) (suc zero)) refl refl
      (same_comm (get_elem? a (suc i)) (get_elem? b 0))
osa_comm a b (suc (suc i)) (suc (suc j)) =
    swap_comm (same (get_elem? a (suc i)) (get_elem? b j))
      (same (get_elem? a i) (get_elem? b (suc j))) (same_comm (get_elem? a (suc i)) (get_elem? b j))
      (same_comm (get_elem? a i) (get_elem? b (suc j)))
      (shortest_comm (osa_comm a b (suc i) (suc (suc j))) (osa_comm a b (suc (suc i)) (suc j))
        (osa_comm a b (suc i) (suc j)) (same_comm (get_elem? a (suc i)) (get_elem? b (suc j))))
      (osa_comm a b i j)

text_eq_comm : (a b : Token) → text_eq a b ≡ text_eq b a
text_eq_comm a b = ground (arith, text_eq_iff a b, text_eq_iff b a)

-- The distance of two whole tokens.
abbrev pub distance : Token → Token → ℕ
distance a b = osa a b (length a) (length b)

small_safe : (n : ℕ) → n ≤ 2 → is_safe_integer n ≡ true
unfolding is_safe_integer
small_safe n h = ground arith

capped_within : (d limit : ℕ) → leb (min d (limit + 1)) limit ≡ leb d limit
capped_within d limit = ground arith

is_within-distance :
    (limit : ℕ) (a b : Token)
    → limit ≤ 2
    → is_within limit (bounded_edit_distance a b limit) ≡ leb (distance a b) limit
is_within-distance limit a b small =
    let safe : is_safe_integer limit ≡ true = small_safe limit small in
    rw (bounded_edit_distance-osa a b limit, safe) (capped_within (distance a b) limit)

supported_edit_limit-le : (token : Token) → supported_edit_limit token ≤ 2
unfolding supported_edit_limit
supported_edit_limit-le token = ground arith

-- `withinSupportedEdits` holds of two tokens exactly when they are equal, or both are long enough for
-- edits and their distance is at most the smaller of their limits.
within_supported_edits-eq :
    (a b : Token)
    → within_supported_edits a b ≡ (
        text_eq a b
        || (ltb 0 (min (supported_edit_limit a) (supported_edit_limit b))
            && leb (distance a b) (min (supported_edit_limit a) (supported_edit_limit b))))
unfolding within_supported_edits
within_supported_edits-eq a b =
    rw
      (is_within-distance (min (supported_edit_limit a) (supported_edit_limit b)) a b
        (omega (arith, supported_edit_limit-le a)))
      refl

within_one_edit-eq :
    (a b : Token)
    → within_one_edit a b ≡ (
        text_eq a b
        || (leb 1 (supported_edit_limit a)
            && leb 1 (supported_edit_limit b)
            && leb (distance a b) 1))
unfolding within_one_edit
within_one_edit-eq a b = rw (is_within-distance 1 a b (omega arith)) refl

min_comm : (n m : ℕ) → min n m ≡ min m n
min_comm n m = omega arith

-- The order of the two tokens does not matter to `withinSupportedEdits`, and it holds of all tokens of
-- which `withinOneEdit` holds.
pub within_supported_edits_comm :
    (a b : Token)
    → (within_supported_edits a b ≡ within_supported_edits b a)
      × (within_one_edit a b ≡ true → within_supported_edits a b ≡ true)
within_supported_edits_comm a b = (
  rw
      (
        within_supported_edits-eq a b,
        within_supported_edits-eq b a,
        text_eq_comm a b,
        osa_comm a b (length a) (length b),
        min_comm (supported_edit_limit a) (supported_edit_limit b),
      )
      refl,
  λ h. rw (within_supported_edits-eq a b) (
      stricter (text_eq a b) (supported_edit_limit a) (supported_edit_limit b) (distance a b)
        (rw (within_one_edit-eq a b) at h)),
)
  where
    stricter :
        (e : Bool) (l m d : ℕ)
        → (e || (leb 1 l && leb 1 m && leb d 1)) ≡ true
        → (e || (ltb 0 (min l m) && leb d (min l m))) ≡ true
    stricter true l m d h = refl
    stricter false l m d h = ground arith
