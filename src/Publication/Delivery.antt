-- ===== src/Publication/Delivery.antt =====
-- pipeline/epoch-publication-delivery.ts: `advancePublication` and `reobservePublication`, over a transport
-- whose answers, and what other callers do to the journal meanwhile, are given for each `await`.
use proofmark.Prelude.{
  Bool, true, false, not, ◌&&◌, ◌||◌, Option, none, some, List, ◌==◌, if◌then◌else◌, is_some,
  Result, ok, throw, refuse, require,
}
use proofmark.Prelude.Text.{Text, text_eq}
use proofmark.Publication.Checks.{
  PublicationConfirmation, SavedTransaction, PublicationEntry, PublicationRuntime,
}
use proofmark.Publication.Journal.{EpochPublicationJournal, SaveEnd, snapshot}
use proofmark.Publication.Operations.{find, must_find, prepare, confirm}

pub data PublicationObservation : Type 0 where
  absent confirming : PublicationObservation
  confirmed : PublicationConfirmation → PublicationObservation

-- Where `advancePublication` waits.
pub data Await : Type 0 where
  first_look first_check signing second_check second_look sending last_look : Await

pub record PublicationTransport : Type 0 where
  pub observe : Await → PublicationEntry → Result PublicationObservation
  pub assert_ready : Await → PublicationEntry → Result (Unit {0})
  pub sign : PublicationEntry → Result Text
  -- What the journal is when the answer comes.
  pub meanwhile : Await → EpochPublicationJournal → EpochPublicationJournal
  pub prepare_end : SaveEnd
  pub confirm_end : SaveEnd

-- The journal, and the entry broadcast with the journal at that time.
pub record Delivery : Type 0 where
  pub journal : EpochPublicationJournal
  pub sent : Option (PublicationEntry × EpochPublicationJournal)

abbrev pub Advance {ℓ} : Type ℓ → Type ℓ
Advance A = Delivery → Delivery × Result A

abbrev pub and_then {ℓ κ} :
    {A : Type ℓ} {B : Type κ} → Delivery × Result A → (A → Advance B) → Delivery × Result B
and_then (s, ok a) next = next a s
and_then (s, throw e) next = (s, throw e)

infixl 5 ◌>>=◌ ◌>>◌
abbrev pub ◌>>=◌ {ℓ κ} : {A : Type ℓ} {B : Type κ} → Advance A → (A → Advance B) → Advance B
◌>>=◌ call next s = and_then (call s) next

abbrev pub ◌>>◌ {ℓ} : {B : Type ℓ} → Advance (Unit {0}) → Advance B → Advance B
call >> rest = call >>= λ _. rest

abbrev pub gives {ℓ} : {A : Type ℓ} → Result A → Advance A
gives r s = (s, r)

-- A call of the journal.
abbrev pub on_journal {ℓ} :
    {A : Type ℓ} → (EpochPublicationJournal → EpochPublicationJournal × Result A) → Advance A
on_journal call s = let (after, r) = call s.journal in (record s { journal = after }, r)

abbrev pub looks : Advance (List PublicationEntry)
looks s = (s, snapshot s.journal)

abbrev pub is_absent : PublicationObservation → Bool
is_absent absent = true
is_absent _ = false

abbrev pub same_receipt : PublicationConfirmation → PublicationObservation → Bool
same_receipt c (confirmed o) =
    text_eq o.transaction_hash c.transaction_hash
    && text_eq o.block_hash c.block_hash
    && o.block_number == c.block_number
    && o.status == c.status
same_receipt c _ = false

module _ (run : PublicationRuntime) (transport : PublicationTransport) where
  abbrev pub awaits {ℓ} : {A : Type ℓ} → Await → Result A → Advance A
  awaits at r s = (record s { journal = transport.meanwhile at s.journal }, r)

  abbrev pub records_receipt :
      Text
      → PublicationObservation
      → Option PublicationConfirmation
      → Advance PublicationObservation
  records_receipt id observation (some c) = do
    gives (require (same_receipt c observation) "PUBLICATION_CONFIRMATION_CHANGED")
    gives (ok observation)
  records_receipt id (confirmed c) none = do
    entry ← on_journal (confirm run transport.confirm_end id c)
    gives (ok (confirmed c))
  records_receipt id observation none = gives (ok observation)

  abbrev pub finish :
      Text → PublicationEntry → PublicationObservation → Advance PublicationObservation
  finish id entry observation = records_receipt id observation entry.confirmation

  abbrev pub signs : Text → PublicationEntry → Option SavedTransaction → Advance PublicationEntry
  signs id entry (some t) = gives (ok entry)
  signs id entry none = do
    raw ← awaits signing (transport.sign entry)
    on_journal (prepare run transport.prepare_end id raw)

  -- `try { await transport.broadcast(entry); } catch { }`: how it ends is not looked at.
  abbrev pub broadcasts : PublicationEntry → Advance (Unit {0})
  broadcasts entry s = (
    record { journal = transport.meanwhile sending s.journal; sent = some (entry, s.journal) },
    ok tt,
  )

  unfoldable pub sends : Text → PublicationEntry → Advance PublicationObservation
  sends id entry = do
    entries ← looks
    broadcasts entry
    observation ← awaits last_look (transport.observe last_look entry)
    finish id entry observation

  unfoldable pub resumes : Text → PublicationEntry → Advance PublicationObservation
  unfolding sends
  resumes id entry = do
    awaits first_check (transport.assert_ready first_check entry)
    entries ← looks
    signed ← signs id entry entry.transaction
    awaits second_check (transport.assert_ready second_check signed)
    observation ← awaits second_look (transport.observe second_look signed)
    if is_absent observation then sends id signed else finish id signed observation

  unfoldable pub advance_publication : Text → Advance PublicationObservation
  unfolding resumes
  advance_publication id = do
    entries ← looks
    entry ← gives (must_find (find id entries))
    gives (refuse (is_some entry.abandonment) "PUBLICATION_ABANDONED")
    observation ← awaits first_look (transport.observe first_look entry)
    if is_some entry.confirmation || not (is_absent observation)
        then finish id entry observation
        else resumes id entry

abbrev pub names_receipt : PublicationConfirmation → Option SavedTransaction → Bool
names_receipt c none = false
names_receipt c (some t) = text_eq t.hash c.transaction_hash

abbrev pub unchanged_receipt :
    PublicationConfirmation → PublicationObservation → Result PublicationConfirmation
unchanged_receipt expected (confirmed o) =
    if o.status == 1
      && text_eq o.transaction_hash expected.transaction_hash
      && o.block_number == expected.block_number
      && text_eq o.block_hash expected.block_hash
    then ok o
    else throw "PUBLICATION_CONFIRMATION_CHANGED"
unchanged_receipt expected _ = throw "PUBLICATION_CONFIRMATION_CHANGED"

abbrev pub rechecked :
    PublicationConfirmation → Result PublicationObservation → Result PublicationConfirmation
rechecked expected (throw e) = throw e
rechecked expected (ok o) = unchanged_receipt expected o

-- `observed` is the answer of the transport.
unfoldable pub reobserve_publication :
    Result PublicationObservation
    → PublicationEntry
    → PublicationConfirmation
    → Result PublicationConfirmation
reobserve_publication observed entry expected =
    if is_some entry.abandonment
      || not (names_receipt expected entry.transaction)
      || not (expected.status == 1)
    then throw "PUBLICATION_CONFIRMATION_CHANGED"
    else rechecked expected observed
