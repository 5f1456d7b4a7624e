-- ===== src/EditDistance/Tests.antt =====
-- aml/edit-distance.ts on short names.
use proofmark.Prelude.{◌≡◌, refl, true, false, ok, is_safe_integer, throw, min, ◌+◌, if◌then◌else◌}
use proofmark.Prelude.Text.{codes, text_eq}
use proofmark.EditDistance.{
  Token, bounded_edit_distance, within_supported_edits, within_one_edit, supported_edit_limit, for,
  first_rows, fill_rows, fill_row, fill_cell, cell,
}
use proofmark.EditDistance.Reference.{osa}
use proofmark.EditDistance.Table.{bounded_edit_distance-osa}
use proofmark.EditDistance.Limits.{within_supported_edits_comm}

abbrev hanna : Token
hanna = codes "hanna"

-- Two neighbours are swapped.
abbrev hnana : Token
hnana = codes "hnana"

swapped : bounded_edit_distance hanna hnana 2 ≡ ok 1
unfolding bounded_edit_distance first_rows fill_rows fill_row fill_cell cell for is_safe_integer
swapped = refl

far_apart : bounded_edit_distance hanna (codes "jo") 2 ≡ ok 3
unfolding bounded_edit_distance is_safe_integer
far_apart = refl

short_names : within_supported_edits (codes "jo") (codes "ja") ≡ false
unfolding within_supported_edits supported_edit_limit text_eq
short_names = refl

bounded_edit_distance-osa_example : bounded_edit_distance hanna hnana 2 ≡ (
    if is_safe_integer 2
    then ok (min (osa hanna hnana 5 5) (2 + 1))
    else throw "invalid edit-distance bound")
bounded_edit_distance-osa_example = bounded_edit_distance-osa hanna hnana 2

within_supported_edits_comm_example :
    (within_supported_edits hanna hnana ≡ within_supported_edits hnana hanna)
    × (within_one_edit hanna hnana ≡ true → within_supported_edits hanna hnana ≡ true)
within_supported_edits_comm_example = within_supported_edits_comm hanna hnana
