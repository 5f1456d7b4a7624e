-- ===== src/SourceOrder/Tests.antt =====
-- pipeline/source-order.ts on concrete events.
use proofmark.Prelude.{ℕ, String, ◌≡◌, refl, some, List, [], ◌∷◌, str_eq}
use proofmark.Prelude.Dict.{lookup, insert}
use proofmark.SourceOrder.{Event, place, place_all, newest_per_subject}
use proofmark.SourceOrder.Newest.{IsNewest, newest_per_subject-IsNewest}

record Mark : Type 0 where
  subject : String
  block_number : ℕ
  log_index : ℕ

abbrev marks : Event Mark
marks = record {
  subject = λ x. x.subject;
  block_number = λ x. x.block_number;
  log_index = λ x. x.log_index;
}

abbrev all_marks : List Mark
all_marks =
    record { subject = "alice"; block_number = 7; log_index = 2 }
    ∷ record { subject = "bob"; block_number = 9; log_index = 0 }
    ∷ record { subject = "alice"; block_number = 7; log_index = 3 }
    ∷ record { subject = "alice"; block_number = 6; log_index = 9 }
    ∷ []

newest_of_alice :
    lookup "alice" (newest_per_subject marks all_marks)
    ≡ some (record { subject = "alice"; block_number = 7; log_index = 3 })
unfolding newest_per_subject place_all place lookup insert str_eq
newest_of_alice = refl

newest_per_subject-IsNewest_example :
    IsNewest marks "alice" all_marks (lookup "alice" (newest_per_subject marks all_marks))
newest_per_subject-IsNewest_example = newest_per_subject-IsNewest marks all_marks "alice"
