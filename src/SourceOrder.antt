-- ===== src/SourceOrder.antt =====
-- pipeline/source-order.ts: the newest event of each subject, by block number and then log index. The
-- type `T` of the events has these fields among others.
pub mod Newest
pub mod Tests
use proofmark.Prelude.{
  ℕ, String, Bool, true, ◌&&◌, ◌||◌, Option, none, some, List, [], ◌∷◌, ltb, ◌==◌, if◌then◌else◌,
}
use proofmark.Prelude.Dict.{Dict, lookup, insert}

-- What the function reads of an event.
pub record Event (T : Type 0) : Type 0 where
  pub subject : T → String
  pub block_number : T → ℕ
  pub log_index : T → ℕ

module _ {T : Type 0} (e : Event T) where
  -- `x` comes after `previous`.
  abbrev pub is_newer : T → T → Bool
  is_newer x previous =
      ltb (e.block_number previous) (e.block_number x)
      || (e.block_number x == e.block_number previous && ltb (e.log_index previous) (e.log_index x))

  -- The condition of the loop body.
  abbrev pub replaces : T → Option T → Bool
  replaces candidate none = true
  replaces candidate (some previous) = is_newer candidate previous

  unfoldable pub place : T → Dict T → Dict T
  place candidate latest =
      if replaces candidate (lookup (e.subject candidate) latest)
      then insert (e.subject candidate) candidate latest
      else latest

  unfoldable pub place_all : List T → Dict T → Dict T
  place_all [] latest = latest
  place_all (candidate ∷ rest) latest = place_all rest (place candidate latest)

  -- `all` is given as its values.
  unfoldable pub newest_per_subject : List T → Dict T
  unfolding place_all
  newest_per_subject all = place_all all []
