-- ===== src/EditDistance.antt =====
-- aml/edit-distance.ts: the bounded edit distance of two tokens, and the tests made with it. A token is
-- the list of its code points after `normalize('NFC')`, which is a parameter: `code_points`.
pub mod Reference
pub mod Table
pub mod Limits
pub mod Tests
use proofmark.Prelude.{
  ℕ, zero, suc, ◌+◌, ◌-◌, min, String, Bool, true, false, not, ◌&&◌, ◌||◌, Option, none, some, List,
  [], ◌∷◌, ltb, leb, ◌==◌, if◌then◌else◌, is_safe_integer, length, get_elem?, Result, ok, throw,
  ◌>>=◌, ◌>>◌, require,
}
use proofmark.Prelude.Text.{text_eq}

abbrev pub Token : Type 0
Token = List ℕ

-- `rows`, an array of arrays.
abbrev pub Table : Type 0
Table = ℕ → ℕ → ℕ

-- `rows[i][j] = v`
abbrev pub set : ℕ → ℕ → ℕ → Table → Table
set i j v rows p q = if p == i && q == j then v else rows p q

-- `a[i] === b[j]`, where `none` is `undefined`.
abbrev pub same : Option ℕ → Option ℕ → Bool
same none none = true
same (some x) (some y) = x == y
same _ _ = false

-- `Math.abs(i - j)`
abbrev pub distance_between : ℕ → ℕ → ℕ
distance_between i j = (i - j) + (j - i)

-- `count` rounds of a loop, from index `i` on.
unfoldable pub for {ℓ} : {S : Type ℓ} → ℕ → ℕ → (ℕ → S → S) → S → S
for zero i body s = s
for (suc count) i body s = for count (suc i) body (body i s)

module _ (a b : Token) (max_distance : ℕ) where
  -- The two loops that fill the first column and the first row.
  unfoldable pub first_rows : Table
  unfolding for
  first_rows =
      for (length b + 1) 0 (λ j. set 0 j j) (for (length a + 1) 0 (λ i. set i 0 i) (λ i j. 0))

  -- `rows[i - 1][j - 1] + (a[i - 1] === b[j - 1] ? 0 : 1)`
  abbrev pub substitution : ℕ → ℕ → Table → ℕ
  substitution i j rows =
      rows (i - 1) (j - 1) + (if same (get_elem? a (i - 1)) (get_elem? b (j - 1)) then 0 else 1)

  abbrev pub is_swap : ℕ → ℕ → Bool
  is_swap i j =
      ltb 1 i
      && ltb 1 j
      && same (get_elem? a (i - 1)) (get_elem? b (j - 2))
      && same (get_elem? a (i - 2)) (get_elem? b (j - 1))

  -- What the body of the inner loop leaves in `rows[i][j]`.
  unfoldable pub cell : ℕ → ℕ → Table → ℕ
  cell i j rows =
      let kept = min (min (rows (i - 1) j + 1) (rows i (j - 1) + 1)) (substitution i j rows) in
      if is_swap i j then min kept (rows (i - 2) (j - 2) + 1) else kept

  -- The variables of the inner loop.
  pub record Row : Type 0 where
    pub rows : Table
    pub row_min : ℕ

  unfoldable pub fill_cell : ℕ → ℕ → Row → Row
  unfolding cell
  fill_cell i j r =
      let v = cell i j r.rows in
      record {
        rows = set i j v r.rows;
        row_min = if leb (distance_between i j) max_distance then min r.row_min v else r.row_min;
      }

  unfoldable pub fill_row : ℕ → Table → Row
  unfolding for fill_cell
  fill_row i rows =
      for (length b) 1 (fill_cell i) (record { rows = rows; row_min = max_distance + 1 })

  -- The outer loop: `none` is the early return of `maxDistance + 1`.
  unfoldable pub fill_rows : ℕ → ℕ → Table → Option Table
  unfolding fill_row
  fill_rows zero i rows = some rows
  fill_rows (suc count) i rows =
      let r = fill_row i rows in
      let rest = fill_rows count (suc i) r.rows in
      if ltb max_distance r.row_min && ltb (length b + max_distance) i then none else rest

  abbrev pub capped : Option Table → ℕ
  capped none = max_distance + 1
  capped (some rows) = min (rows (length a) (length b)) (max_distance + 1)

  unfoldable pub bounded_edit_distance : Result ℕ
  unfolding first_rows fill_rows is_safe_integer
  bounded_edit_distance = do
    require (is_safe_integer max_distance) "invalid edit-distance bound"
    ok (
        if ltb max_distance (distance_between (length a) (length b))
        then max_distance + 1
        else capped (fill_rows (length a) 1 first_rows))

abbrev pub min_edit_token : ℕ
min_edit_token = 4

abbrev pub min_two_edit_token : ℕ
min_two_edit_token = 6

abbrev pub max_edit_token : ℕ
max_edit_token = 64

unfoldable pub supported_edit_limit : Token → ℕ
supported_edit_limit token =
    if ltb (length token) min_edit_token || ltb max_edit_token (length token)
    then 0
    else if ltb (length token) min_two_edit_token
    then 1
    else 2

abbrev pub is_within : ℕ → Result ℕ → Bool
is_within limit (ok distance) = leb distance limit
is_within limit (throw e) = false

unfoldable pub within_one_edit : Token → Token → Bool
unfolding supported_edit_limit bounded_edit_distance
within_one_edit left right =
    text_eq left right
    || (leb 1 (supported_edit_limit left)
        && leb 1 (supported_edit_limit right)
        && is_within 1 (bounded_edit_distance left right 1))

unfoldable pub within_supported_edits : Token → Token → Bool
unfolding supported_edit_limit bounded_edit_distance
within_supported_edits left right =
    let limit = min (supported_edit_limit left) (supported_edit_limit right) in
    text_eq left right || (ltb 0 limit && is_within limit (bounded_edit_distance left right limit))
