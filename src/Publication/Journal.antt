-- ===== src/Publication/Journal.antt =====
-- pipeline/epoch-publication-journal.ts: the class `EpochPublicationJournal`, with its file and its lock
-- file: saving, opening and closing. The file has the secret and the scope that it was sealed with, and the
-- state that was sealed; only a parameter says whether it is unsealed. A call of `writeVaultEnvelope` writes
-- the file and returns, or throws, with the old file or the new one in place.
use proofmark.Prelude.{
  Bool, true, false, ◌&&◌, Option, none, some, List, [], leb, ltb, if◌then◌else◌, length, Result,
  ok, throw, ◌>>=◌, ◌>>◌, require, refuse,
}
use proofmark.Prelude.Text.{Text}
use proofmark.Publication.Checks.{
  PublicationScope, PublicationEntry, PublicationRuntime, max_bytes, scope_value, validate,
}

-- The secret of the file, the scope of the state, which is also what the file was sealed for, and its entries.
abbrev pub SavedFile : Type 0
SavedFile = Text × PublicationScope × List PublicationEntry

pub record EpochPublicationJournal : Type 0 where
  pub secret : Text
  pub scope : PublicationScope
  pub entries : List PublicationEntry
  pub closed : Bool
  pub poisoned : Bool
  pub file : Option SavedFile
  pub locked : Bool

pub data SaveEnd : Type 0 where
  written unwritten unconfirmed : SaveEnd

-- What an operation found out before it saves: an entry to return, or the entries to save and the one
-- of them to return.
pub data Plan : Type 0 where
  returns_entry : PublicationEntry → Plan
  saves : List PublicationEntry → PublicationEntry → Plan

unfoldable pub assert_open : EpochPublicationJournal → Result (Unit {0})
assert_open j = do
  refuse j.closed "PUBLICATION_JOURNAL_CLOSED"
  refuse j.poisoned "PUBLICATION_WRITE_UNCONFIRMED"

unfoldable pub snapshot : EpochPublicationJournal → Result (List PublicationEntry)
unfolding assert_open
snapshot j = do assert_open j; ok j.entries

-- How `close` ends: without an error, with one of `closeSync`, or with one of `unlinkSync`.
pub data CloseEnd : Type 0 where
  released kept_open kept_lock : CloseEnd

abbrev pub close_poisoned :
    CloseEnd → EpochPublicationJournal → EpochPublicationJournal × Result (Unit {0})
close_poisoned kept_open j =
    (record j { closed = true; poisoned = true }, throw "PUBLICATION_WRITE_UNCONFIRMED")
close_poisoned _ j = (record j { closed = true }, ok tt)

abbrev pub close_clean :
    CloseEnd → EpochPublicationJournal → EpochPublicationJournal × Result (Unit {0})
close_clean released j = (record j { closed = true; locked = false }, ok tt)
close_clean _ j =
    (record j { closed = true; poisoned = true }, throw "PUBLICATION_WRITE_UNCONFIRMED")

unfoldable pub close :
    CloseEnd → EpochPublicationJournal → EpochPublicationJournal × Result (Unit {0})
close end j =
    if j.closed
    then (j, ok tt)
    else (if j.poisoned then close_poisoned end j else close_clean end j)

module _ (run : PublicationRuntime) where
  -- `writeVaultEnvelope`, after the checks of `save`.
  abbrev pub write_file :
      SaveEnd
      → List PublicationEntry
      → EpochPublicationJournal
      → Result (Unit {0})
      → EpochPublicationJournal × Result (Unit {0})
  write_file end next j (throw e) = (j, throw e)
  write_file written next j (ok u) =
      (record j { entries = next; file = some (j.secret, j.scope, next) }, ok tt)
  write_file unwritten next j (ok u) =
      (record j { poisoned = true }, throw "PUBLICATION_WRITE_UNCONFIRMED")
  write_file unconfirmed next j (ok u) = (
    record j { poisoned = true; file = some (j.secret, j.scope, next) },
    throw "PUBLICATION_WRITE_UNCONFIRMED",
  )

  unfoldable pub check_save : List PublicationEntry → EpochPublicationJournal → Result (Unit {0})
  unfolding assert_open validate
  check_save next j = do
    assert_open j
    validate run j.scope (j.scope, next)
    refuse (ltb max_bytes (run.envelope_size j.scope next)) "PUBLICATION_JOURNAL_CAPACITY"

  unfoldable pub save :
      SaveEnd
      → List PublicationEntry
      → EpochPublicationJournal
      → EpochPublicationJournal × Result (Unit {0})
  unfolding check_save
  save end next j = write_file end next j (check_save next j)

  -- The end of `begin`, `prepare`, `confirm` and `abandonUnsigned`.
  abbrev pub perform :
      SaveEnd
      → Result Plan
      → EpochPublicationJournal
      → EpochPublicationJournal × Result PublicationEntry
  perform end (throw e) j = (j, throw e)
  perform end (ok (returns_entry e)) j = (j, ok e)
  perform end (ok (saves next e)) j = let (after, saved) = save end next j in (after, saved >> ok e)

  -- The constructor. `readable` says whether the lock file was written and what stands at the path, if
  -- anything, is a file that can be read.
  abbrev pub read_file :
      Bool → Text → PublicationScope → Option SavedFile → Result (List PublicationEntry)
  read_file false secret scope file = throw "PUBLICATION_JOURNAL_UNAVAILABLE"
  read_file true secret scope none = ok []
  read_file true secret scope (some (saved_secret, saved_scope, entries)) = do
    refuse (ltb max_bytes (run.envelope_size saved_scope entries)) "PUBLICATION_JOURNAL_UNAVAILABLE"
    require (run.unseals secret scope saved_secret saved_scope) "PUBLICATION_JOURNAL_UNAVAILABLE"
    validate run scope (saved_scope, entries)
    ok entries

  abbrev pub opened :
      CloseEnd
      → EpochPublicationJournal
      → Result (List PublicationEntry)
      → EpochPublicationJournal × Result (Unit {0})
  opened end j (ok entries) = (record j { entries = entries }, ok tt)
  opened end j (throw e) =
      let (after, closed) = close end j in
      (after, closed >> throw "PUBLICATION_JOURNAL_UNAVAILABLE")

  abbrev pub fresh : Text → PublicationScope → EpochPublicationJournal → EpochPublicationJournal
  fresh secret scope j = record {
    secret = secret;
    scope = scope;
    entries = [];
    closed = false;
    poisoned = false;
    file = j.file;
    locked = true;
  }

  abbrev pub check_config :
      Text → Text → PublicationScope → EpochPublicationJournal → Result PublicationScope
  check_config path secret scope j = do
    own ← scope_value run scope
    require (leb 1 (length path) && leb 32 (length secret)) "PUBLICATION_JOURNAL_CONFIG"
    refuse j.locked "PUBLICATION_JOURNAL_BUSY"
    ok own

  abbrev pub open_with :
      Bool
      → CloseEnd
      → Text
      → EpochPublicationJournal
      → Result PublicationScope
      → EpochPublicationJournal × Result (Unit {0})
  open_with readable end secret j (throw e) = (j, throw e)
  open_with readable end secret j (ok scope) =
      opened end (fresh secret scope j) (read_file readable secret scope j.file)

  unfoldable pub open_journal :
      Bool
      → CloseEnd
      → Text
      → Text
      → PublicationScope
      → EpochPublicationJournal
      → EpochPublicationJournal × Result (Unit {0})
  unfolding close validate scope_value
  open_journal readable end path secret scope j =
      open_with readable end secret j (check_config path secret scope j)
