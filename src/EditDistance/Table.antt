-- ===== src/EditDistance/Table.antt =====
-- aml/edit-distance.ts: the table of `boundedEditDistance` holds the distances of the prefixes.
use proofmark.Prelude.{
  ℕ, zero, suc, ◌+◌, ◌-◌, ◌≤◌, ◌<◌, min, Bool, true, false, ◌≡◌, refl, ◌∙◌, ap, inl, inr, ◌&&◌,
  ◌||◌, arith, none, some, if◌then◌else◌, length, ◌==◌, ltb, ltb→lt, Bool-cases, ok, throw,
  is_safe_integer,
}
use mathlib.Core.Path.{subst}
use proofmark.EditDistance.{
  Token, Table, set, distance_between, for, first_rows, cell, Row, fill_cell, fill_row, fill_rows,
  capped, bounded_edit_distance,
}
use proofmark.EditDistance.Reference.{osa, shortest}

for_keeps {ℓ κ} :
    {S : Type ℓ} (P : ℕ → S → Type κ) (count i : ℕ) (body : ℕ → S → S) (s : S)
    → ((k : ℕ) (t : S) → i ≤ k → k < i + count → P k t → P (suc k) (body k t))
    → P i s
    → P (i + count) (for count i body s)
unfolding for
for_keeps P zero i body s keeps p = subst (λ k. P k s) (omega arith) p
for_keeps P (suc count) i body s keeps p =
    subst (λ k. P k (for count (suc i) body (body i s))) (omega arith)
      (for_keeps P count (suc i) body (body i s)
        (λ k t lo hi. keeps k t (omega arith) (omega arith))
        (keeps i s (omega arith) (omega arith) p))

sub_one : (i : ℕ) → suc i - 1 ≡ i
sub_one i = omega arith

sub_two : (i : ℕ) → suc (suc i) - 2 ≡ i
sub_two i = omega arith

one_less : (i : ℕ) → ltb 1 (suc (suc i)) ≡ true
one_less i = ground arith

-- The cell (p, q) is above row `i`, or in it before column `j`, or in the first column.
abbrev is_known : ℕ → ℕ → ℕ → ℕ → Bool
is_known i j p q = ltb p i || (p == i && ltb q j) || q == 0

known_above : (i j p q : ℕ) → p < i → is_known i j p q ≡ true
known_above i j p q h = ground arith

known_before : (i j q : ℕ) → q < j → is_known i j i q ≡ true
known_before i j q h = ground arith

known_next :
    (i j p q : ℕ)
    → is_known i (suc j) p q ≡ true
    → (p == i && q == j) ≡ false
    → is_known i j p q ≡ true
known_next i j p q h other = ground arith

known_first : (i p q : ℕ) → is_known i 1 p q ≡ true → is_known i 0 p q ≡ true
known_first i p q h = ground arith

known_last : (i m p q : ℕ) → is_known (suc i) 0 p q ≡ true → q ≤ m → is_known i (1 + m) p q ≡ true
known_last i m p q h bound = ground arith

skipped {ℓ} :
    {A : Type ℓ} (x y : Bool) (result rest : A)
    → y ≡ false
    → (if x && y then result else rest) ≡ rest
skipped true y result rest e = rw e refl
skipped false y result rest e = refl

column_step : (n r : ℕ) (rows : Table) → r < suc n → (r < n → rows r 0 ≡ r) → set n 0 n rows r 0 ≡ r
column_step n r rows below known = ground arith

edge_column : (n p : ℕ) (rows : Table) → rows p 0 ≡ p → set 0 n n rows p 0 ≡ p
edge_column n p rows known = ground arith

edge_row : (n q : ℕ) (rows : Table) → q < suc n → (q < n → rows 0 q ≡ q) → set 0 n n rows 0 q ≡ q
edge_row n q rows below known = ground arith

module _ (a b : Token) (max_distance : ℕ) where
  -- The cells above row `i`, those of row `i` before column `j` and the first column are right.
  unfoldable IsFilled : ℕ → ℕ → Table → Type 0
  IsFilled i j rows =
      (p q : ℕ) → p ≤ length a → q ≤ length b → is_known i j p q ≡ true → rows p q ≡ osa a b p q

  read_above :
      (i j p q : ℕ) (rows : Table)
      → IsFilled i j rows
      → p < i
      → p ≤ length a
      → q ≤ length b
      → rows p q ≡ osa a b p q
  unfolding IsFilled
  read_above i j p q rows h above lo hi = h p q lo hi (known_above i j p q above)

  read_before :
      (i j q : ℕ) (rows : Table)
      → IsFilled i j rows
      → q < j
      → i ≤ length a
      → q ≤ length b
      → rows i q ≡ osa a b i q
  unfolding IsFilled
  read_before i j q rows h before lo hi = h i q lo hi (known_before i j q before)

  -- The cells that `cell` reads are those of the reference.
  cell-osa :
      (i j : ℕ) (rows : Table)
      → i < length a
      → j < length b
      → IsFilled (suc i) (suc j) rows
      → cell a b max_distance (suc i) (suc j) rows ≡ osa a b (suc i) (suc j)
  unfolding cell osa
  cell-osa zero j rows lo hi h =
      let above =
        read_above 1 (suc j) zero (suc j) rows h (omega arith) (omega arith) (omega arith) in
      let left = read_before 1 (suc j) j rows h (omega arith) (omega arith) (omega arith) in
      let diagonal = read_above 1 (suc j) zero j rows h (omega arith) (omega arith) (omega arith) in
      rw (sub_one zero, sub_one j, above, left, diagonal) refl
  cell-osa (suc i) zero rows lo hi h =
      let above =
        read_above (suc (suc i)) 1 (suc i) 1 rows h (omega arith) (omega arith) (omega arith) in
      let left =
        read_before (suc (suc i)) 1 zero rows h (omega arith) (omega arith) (omega arith) in
      let diagonal =
        read_above (suc (suc i)) 1 (suc i) zero rows h (omega arith) (omega arith) (omega arith) in
      rw (sub_one (suc i), one_less i, above, left, diagonal) refl
  cell-osa (suc i) (suc j) rows lo hi h =
      let above =
        read_above (suc (suc i)) (suc (suc j)) (suc i) (suc (suc j)) rows h (omega arith)
          (omega arith) (omega arith) in
      let left =
        read_before (suc (suc i)) (suc (suc j)) (suc j) rows h (omega arith) (omega arith)
          (omega arith) in
      let diagonal =
        read_above (suc (suc i)) (suc (suc j)) (suc i) (suc j) rows h (omega arith) (omega arith)
          (omega arith) in
      let corner =
        read_above (suc (suc i)) (suc (suc j)) i j rows h (omega arith) (omega arith)
          (omega arith) in
      rw
        (
          sub_one (suc i),
          sub_one (suc j),
          sub_two i,
          sub_two j,
          one_less i,
          one_less j,
          above,
          left,
          diagonal,
          corner,
        )
        refl

  fill_cell-IsFilled :
      (i j : ℕ) (r : Row a b max_distance)
      → i < length a
      → j < length b
      → IsFilled (suc i) (suc j) r.rows
      → IsFilled (suc i) (suc (suc j)) (fill_cell a b max_distance (suc i) (suc j) r).rows
  unfolding IsFilled fill_cell
  fill_cell-IsFilled i j r lo hi h p q bound_p bound_q known =
      elim (Bool-cases (p == suc i && q == suc j)) [
        | inl here ↦
            let row : p ≡ suc i = ground arith in
            let column : q ≡ suc j = ground arith in
            rw (set, here) (rw (row, column) (cell-osa i j r.rows lo hi h))
        | inr other ↦
            rw (set, other) (h p q bound_p bound_q (known_next (suc i) (suc j) p q known other))
      ]

  fill_cell_from-IsFilled :
      (i k : ℕ) (r : Row a b max_distance)
      → i < length a
      → 1 ≤ k
      → k < 1 + length b
      → IsFilled (suc i) k r.rows
      → IsFilled (suc i) (suc k) (fill_cell a b max_distance (suc i) k r).rows
  fill_cell_from-IsFilled i zero r lo first hi h = absurd (omega arith)
  fill_cell_from-IsFilled i (suc j) r lo first hi h = fill_cell-IsFilled i j r lo (omega arith) h

  fill_row-IsFilled :
      (i : ℕ) (rows : Table)
      → i < length a
      → IsFilled (suc i) 0 rows
      → IsFilled (suc (suc i)) 0 (fill_row a b max_distance (suc i) rows).rows
  unfolding IsFilled fill_row
  fill_row-IsFilled i rows lo h p q bound_p bound_q known =
      for_keeps (λ k (r : Row a b max_distance). IsFilled (suc i) k r.rows) (length b) 1
        (fill_cell a b max_distance (suc i)) (record { rows = rows; row_min = max_distance + 1 })
        (λ k r first hi filled. fill_cell_from-IsFilled i k r lo first hi filled)
        (λ p' q' bound_p' bound_q' known'.
          h p' q' bound_p' bound_q' (known_first (suc i) p' q' known'))
        p q bound_p bound_q (known_last (suc i) (length b) p q known bound_q)

  -- The early return inside the loop is never taken: row `i` is not that far below.
  fill_rows-IsFilled :
      (count i : ℕ) (rows : Table)
      → i + count ≡ length a
      → length a ≤ length b + max_distance
      → IsFilled (suc i) 0 rows
      → (filled : Table) × (fill_rows a b max_distance count (suc i) rows ≡ some filled)
        × IsFilled (suc (length a)) 0 filled
  unfolding fill_rows
  fill_rows-IsFilled zero i rows e near h =
      (rows, refl, subst (λ n. IsFilled (suc n) 0 rows) (omega arith) h)
  fill_rows-IsFilled (suc count) i rows e near h =
      let r = fill_row a b max_distance (suc i) rows in
      let far : ltb (length b + max_distance) (suc i) ≡ false = ground arith in
      let rest =
        fill_rows-IsFilled count (suc i) r.rows (omega arith) near
          (fill_row-IsFilled i rows (omega arith) h) in
      (rest.0, skipped (ltb max_distance r.row_min) _ none _ far ∙ rest.1, rest.2)

  first_column : (k p : ℕ) → p < k → for k 0 (λ i. set i 0 i) (λ i j. 0) p 0 ≡ p
  first_column k p h =
      for_keeps (λ n (rows : Table). (r : ℕ) → r < n → rows r 0 ≡ r) k 0 (λ i. set i 0 i) (λ i j. 0)
        (λ n rows lo hi known r below. column_step n r rows below (known r))
        (λ r below. absurd (omega arith)) p (omega arith)

  -- The first column stays right while the first row is filled.
  IsEdge : ℕ → Table → Type 0
  IsEdge n rows = ((p : ℕ) → p ≤ length a → rows p 0 ≡ p) × ((q : ℕ) → q < n → rows 0 q ≡ q)

  first_rows-IsEdge : IsEdge (0 + (length b + 1)) (first_rows a b max_distance)
  unfolding first_rows IsEdge
  first_rows-IsEdge =
      for_keeps IsEdge (length b + 1) 0 (λ j. set 0 j j)
        (for (length a + 1) 0 (λ i. set i 0 i) (λ i j. 0))
        (λ n rows lo hi edge. (
          (λ p bound. edge_column n p rows (edge.0 p bound)),
          (λ q below. edge_row n q rows below (edge.1 q)),
        ))
        (
          (λ p bound. first_column (length a + 1) p (omega arith)),
          (λ q below. absurd (omega arith)),
        )

  first_rows-IsFilled : IsFilled 1 0 (first_rows a b max_distance)
  unfolding IsFilled IsEdge osa
  first_rows-IsFilled zero q bound_p bound_q known = first_rows-IsEdge.1 q (omega arith)
  first_rows-IsFilled (suc p) zero bound_p bound_q known = first_rows-IsEdge.0 (suc p) bound_p
  first_rows-IsFilled (suc p) (suc q) bound_p bound_q known = absurd (ground arith)

-- The distance is at least the difference of the lengths.
shortest-ge :
    (c above left diagonal : ℕ) (equal : Bool)
    → c ≤ above + 1
    → c ≤ left + 1
    → c ≤ diagonal
    → c ≤ shortest above left diagonal equal
shortest-ge c above left diagonal true h k l = omega arith
shortest-ge c above left diagonal false h k l = omega arith

IsGap : ℕ → ℕ → ℕ → Type 0
IsGap i j d = (i - j ≤ d) × (j - i ≤ d)

shortest-IsGap :
    (i j above left diagonal : ℕ) (equal : Bool)
    → IsGap i (suc j) above
    → IsGap (suc i) j left
    → IsGap i j diagonal
    → IsGap (suc i) (suc j) (shortest above left diagonal equal)
unfolding IsGap
shortest-IsGap i j above left diagonal equal h k l = (
  shortest-ge (suc i - suc j) above left diagonal equal (omega arith) (omega arith) (omega arith),
  shortest-ge (suc j - suc i) above left diagonal equal (omega arith) (omega arith) (omega arith),
)

swap-IsGap :
    (i j kept corner : ℕ) (swaps : Bool)
    → IsGap (suc (suc i)) (suc (suc j)) kept
    → IsGap i j corner
    → IsGap (suc (suc i)) (suc (suc j)) (if swaps then min kept (corner + 1) else kept)
unfolding IsGap
swap-IsGap i j kept corner true h k = (omega arith, omega arith)
swap-IsGap i j kept corner false h k = h

osa-IsGap : (a b : Token) (i j : ℕ) → IsGap i j (osa a b i j)
unfolding osa IsGap
osa-IsGap a b zero j = (omega arith, omega arith)
osa-IsGap a b (suc i) zero = (omega arith, omega arith)
osa-IsGap a b (suc zero) (suc j) =
    shortest-IsGap zero j _ _ _ _ (osa-IsGap a b zero (suc j)) (osa-IsGap a b (suc zero) j)
      (osa-IsGap a b zero j)
osa-IsGap a b (suc (suc i)) (suc zero) =
    shortest-IsGap (suc i) zero _ _ _ _ (osa-IsGap a b (suc i) (suc zero))
      (osa-IsGap a b (suc (suc i)) zero) (osa-IsGap a b (suc i) zero)
osa-IsGap a b (suc (suc i)) (suc (suc j)) =
    swap-IsGap i j _ _ _
      (shortest-IsGap (suc i) (suc j) _ _ _ _ (osa-IsGap a b (suc i) (suc (suc j)))
        (osa-IsGap a b (suc (suc i)) (suc j)) (osa-IsGap a b (suc i) (suc j)))
      (osa-IsGap a b i j)

capped-osa :
    (a b : Token) (max_distance : ℕ)
    → length a ≤ length b + max_distance
    → capped a b max_distance
        (fill_rows a b max_distance (length a) 1 (first_rows a b max_distance))
      ≡ min (osa a b (length a) (length b)) (max_distance + 1)
unfolding IsFilled
capped-osa a b max_distance near =
    let run =
      fill_rows-IsFilled a b max_distance (length a) 0 (first_rows a b max_distance) (omega arith)
        near (first_rows-IsFilled a b max_distance) in
    let corner : run.0 (length a) (length b) ≡ osa a b (length a) (length b) =
      run.2 (length a) (length b) (omega arith) (omega arith)
        (known_above (suc (length a)) 0 (length a) (length b) (omega arith)) in
    rw (run.1, corner) refl

far_apart :
    (a b : Token) (max_distance : ℕ)
    → ltb max_distance (distance_between (length a) (length b)) ≡ true
    → max_distance + 1 ≡ min (osa a b (length a) (length b)) (max_distance + 1)
unfolding IsGap
far_apart a b max_distance far =
    let gap = osa-IsGap a b (length a) (length b) in
    let apart = ltb→lt max_distance (distance_between (length a) (length b)) far in
    omega (arith, gap.0, gap.1)

-- With a bound that is a safe integer `boundedEditDistance` returns the restricted Damerau-Levenshtein
-- distance of the two tokens, capped at one more than the bound, and otherwise it throws.
pub bounded_edit_distance-osa :
    (a b : Token) (max_distance : ℕ)
    → bounded_edit_distance a b max_distance ≡ (
        if is_safe_integer max_distance
        then ok (min (osa a b (length a) (length b)) (max_distance + 1))
        else throw "invalid edit-distance bound")
unfolding bounded_edit_distance
bounded_edit_distance-osa a b max_distance = elim (Bool-cases (is_safe_integer max_distance)) [
  | inr unsafe ↦ rw unsafe refl
  | inl safe ↦ elim (Bool-cases (ltb max_distance (distance_between (length a) (length b)))) [
    | inl far ↦ rw (safe, far) (ap ok (far_apart a b max_distance far))
    | inr near ↦ rw (safe, near) (ap ok (capped-osa a b max_distance (ground arith)))
  ]
]
