-- ===== src/Publication/Operations.antt =====
-- pipeline/epoch-publication-journal.ts: `begin`, `prepare`, `confirm` and `abandonUnsigned`.
use proofmark.Prelude.{
  ℕ, Bool, false, not, ◌&&◌, ◌||◌, Option, none, some, List, [], ◌∷◌, ◌++◌, leb, ◌==◌,
  if◌then◌else◌, any, length, is_some, Result, ok, throw, ◌>>=◌, ◌>>◌, require, refuse,
}
use proofmark.Prelude.Text.{Text, text_eq}
use proofmark.Publication.Checks.{
  PublicationIntent, PublicationConfirmation, SavedTransaction, Abandonment, PublicationEntry,
  PublicationRuntime, same_confirmation, cancelled, intent_value, bound_transaction,
}
use proofmark.Publication.Journal.{
  EpochPublicationJournal, SaveEnd, Plan, returns_entry, saves, assert_open, save, perform,
}

unfoldable pub find : Text → List PublicationEntry → Option PublicationEntry
find id [] = none
find id (e ∷ es) = if text_eq e.id id then some e else find id es

-- The entry that `find` gives is changed in place.
unfoldable pub set_entry : PublicationEntry → List PublicationEntry → List PublicationEntry
set_entry e [] = []
set_entry e (x ∷ xs) = let rest = set_entry e xs in if text_eq x.id e.id then e ∷ xs else x ∷ rest

abbrev pub is_undecided : PublicationEntry → Bool
is_undecided e = not (is_some e.confirmation) && not (is_some e.abandonment)

abbrev pub is_nonce : ℕ → Option SavedTransaction → Bool
is_nonce nonce none = false
is_nonce nonce (some t) = t.nonce == nonce

-- `e.transaction?.nonce === nonce`
abbrev pub has_nonce : ℕ → PublicationEntry → Bool
has_nonce nonce e = is_nonce nonce e.transaction

abbrev pub must_find : Option PublicationEntry → Result PublicationEntry
must_find none = throw "PUBLICATION_NOT_FOUND"
must_find (some e) = ok e

abbrev pub new_entry : Text → PublicationIntent → PublicationEntry
new_entry id intent = record {
  id = id;
  intent = intent;
  transaction = none;
  confirmation = none;
  abandonment = none;
}

module _ (run : PublicationRuntime) where
  abbrev pub plan_new :
      PublicationIntent → Text → EpochPublicationJournal → Option PublicationEntry → Result Plan
  plan_new intent id j (some same) = ok (returns_entry same)
  plan_new intent id j none = do
    refuse (any is_undecided j.entries) "PUBLICATION_PENDING"
    refuse (leb 1000 (length j.entries)) "PUBLICATION_JOURNAL_CAPACITY"
    ok (saves (j.entries ++ new_entry id intent ∷ []) (new_entry id intent))

  unfoldable pub plan_begin : PublicationIntent → EpochPublicationJournal → Result Plan
  unfolding assert_open intent_value find
  plan_begin value j = do
    assert_open j
    intent ← intent_value run value
    let id = run.plan_hash j.scope intent
    plan_new intent id j (find id j.entries)

  unfoldable pub begin :
      SaveEnd
      → PublicationIntent
      → EpochPublicationJournal
      → EpochPublicationJournal × Result PublicationEntry
  unfolding plan_begin save
  begin end value j = perform run end (plan_begin value j) j

  abbrev pub plan_signed :
      SavedTransaction
      → PublicationEntry
      → EpochPublicationJournal
      → Option SavedTransaction
      → Result Plan
  plan_signed transaction entry j (some old) = do
    require (text_eq old.raw transaction.raw) "PUBLICATION_REPLACEMENT_FORBIDDEN"
    ok (returns_entry entry)
  plan_signed transaction entry j none = do
    refuse (any (has_nonce transaction.nonce) j.entries) "PUBLICATION_NONCE_REUSED"
    let signed = record entry { transaction = some transaction }
    ok (saves (set_entry signed j.entries) signed)

  unfoldable pub plan_prepare : Text → Text → EpochPublicationJournal → Result Plan
  unfolding assert_open bound_transaction find set_entry
  plan_prepare id raw j = do
    assert_open j
    entry ← must_find (find id j.entries)
    refuse (is_some entry.abandonment) "PUBLICATION_ABANDONED"
    transaction ← bound_transaction run j.scope raw entry.intent
    plan_signed transaction entry j entry.transaction

  unfoldable pub prepare :
      SaveEnd
      → Text
      → Text
      → EpochPublicationJournal
      → EpochPublicationJournal × Result PublicationEntry
  unfolding plan_prepare save
  prepare end id raw j = perform run end (plan_prepare id raw j) j

  abbrev pub plan_confirmed :
      PublicationConfirmation
      → PublicationEntry
      → EpochPublicationJournal
      → Option PublicationConfirmation
      → Result Plan
  plan_confirmed confirmation entry j (some old) = do
    require (same_confirmation old confirmation) "PUBLICATION_CONFIRMATION_CONFLICT"
    ok (returns_entry entry)
  plan_confirmed confirmation entry j none =
      let confirmed = record entry { confirmation = some confirmation } in
      ok (saves (set_entry confirmed j.entries) confirmed)

  unfoldable pub plan_confirm :
      Text → PublicationConfirmation → EpochPublicationJournal → Result Plan
  unfolding assert_open find set_entry
  plan_confirm id value j = do
    assert_open j
    entry ← must_find (find id j.entries)
    plan_confirmed value entry j entry.confirmation

  unfoldable pub confirm :
      SaveEnd
      → Text
      → PublicationConfirmation
      → EpochPublicationJournal
      → EpochPublicationJournal × Result PublicationEntry
  unfolding plan_confirm save
  confirm end id value j = perform run end (plan_confirm id value j) j

  abbrev pub plan_abandoned :
      ℕ → PublicationEntry → EpochPublicationJournal → Option Abandonment → Result Plan
  plan_abandoned at entry j (some old) = ok (returns_entry entry)
  plan_abandoned at entry j none =
      let abandoned = record entry {
        abandonment = some (record { at = at; reason = cancelled });
      } in
      ok (saves (set_entry abandoned j.entries) abandoned)

  unfoldable pub plan_abandon : Text → ℕ → EpochPublicationJournal → Result Plan
  unfolding assert_open find set_entry
  plan_abandon id at j = do
    assert_open j
    entry ← must_find (find id j.entries)
    refuse (is_some entry.transaction || is_some entry.confirmation)
        "PUBLICATION_SIGNED_CANNOT_ABANDON"
    plan_abandoned at entry j entry.abandonment

  unfoldable pub abandon_unsigned :
      SaveEnd
      → Text
      → ℕ
      → EpochPublicationJournal
      → EpochPublicationJournal × Result PublicationEntry
  unfolding plan_abandon save
  abandon_unsigned end id at j = perform run end (plan_abandon id at j) j
