-- ===== src/Publication/Safe.antt =====
-- pipeline/epoch-publication-journal.ts: what a call does to the journal and its file, whatever the end of
-- its write.
use proofmark.Prelude.{
  refused, Bool, true, false, ◌||◌, Option, none, some, List, [], ◌≡◌, refl, sym, inl, inr, arith,
  Bool-cases, if◌then◌else◌, ltb, require, refuse, Result, ok, throw, Yields, yielded, >>=-eq-ok,
}
use mathlib.Core.Path.{subst}
use proofmark.Prelude.Text.{Text}
use proofmark.Publication.Checks.{
  PublicationScope, PublicationEntry, PublicationRuntime, max_bytes, validate,
}
use proofmark.Publication.Journal.{
  SavedFile, EpochPublicationJournal, SaveEnd, written, unwritten, unconfirmed, CloseEnd, released,
  kept_open, kept_lock, Plan, returns_entry, saves, assert_open, check_save, save, write_file,
  perform, close, close_poisoned, close_clean, open_with, opened, fresh, read_file,
}
use proofmark.Publication.Growth.{Extends, Extends-refl, NonceOnce}
use proofmark.Publication.Plans.{PlanGrows}

abbrev pub entries_of : Option SavedFile → List PublicationEntry
entries_of none = []
entries_of (some (secret, scope, entries)) = entries

module _ (run : PublicationRuntime) where
  -- The file is valid for its scope, and not too large to be opened.
  abbrev pub IsChecked : Option SavedFile → Type 0
  IsChecked none = Unit
  IsChecked (some (secret, scope, entries)) =
      (validate run scope (scope, entries) ≡ ok tt)
      × (ltb max_bytes (run.envelope_size scope entries) ≡ false)

  pub record IsSafe (j : EpochPublicationJournal) : Type 0 where
    pub once : NonceOnce (entries_of j.file)
    pub checked : IsChecked j.file
    -- An open journal has in memory what the file has.
    pub current : assert_open j ≡ ok tt → j.entries ≡ entries_of j.file

  -- The file before and after a call.
  pub record Advances (j k : EpochPublicationJournal) : Type 0 where
    pub safe : IsSafe k
    pub extends : Extends (entries_of j.file) (entries_of k.file)

  not_open :
      (k : EpochPublicationJournal) → assert_open k ≡ ok tt → (k.closed || k.poisoned) ≡ true → ⊥
  unfolding assert_open
  not_open k live shut = elim (Bool-cases k.closed) [
    | inl y ↦ ground (arith, rw y at live)
    | inr n ↦ elim (Bool-cases k.poisoned) [
      | inl y ↦ ground (arith, rw (n, y) at live)
      | inr m ↦ ground arith
    ]
  ]

  pub unchanged-Advances : (j : EpochPublicationJournal) → IsSafe j → Advances j j
  unchanged-Advances j s = record { safe = s; extends = Extends-refl (entries_of j.file) }

  -- A journal that is shut, on the same file.
  pub shut-Advances :
      (j k : EpochPublicationJournal)
      → IsSafe j
      → k.file ≡ j.file
      → (k.closed || k.poisoned) ≡ true
      → Advances j k
  shut-Advances j k s same shut = record {
    safe = record {
      once = subst (λ f. NonceOnce (entries_of f)) (sym same) s.once;
      checked = subst IsChecked (sym same) s.checked;
      current = λ live. absurd (not_open k live shut);
    };
    extends =
        subst (λ f. Extends (entries_of j.file) (entries_of f)) (sym same)
          (Extends-refl (entries_of j.file));
  }

  check_save-eq :
      (next : List PublicationEntry) (j : EpochPublicationJournal)
      → check_save run next j ≡ ok tt
      → (assert_open j ≡ ok tt) × IsChecked (some (j.secret, j.scope, next))
  unfolding check_save
  check_save-eq next j h =
      let (u, live, rest) = >>=-eq-ok (assert_open j) _ h in
      let (v, valid, room) = >>=-eq-ok (validate run j.scope (j.scope, next)) _ rest in
      (live, (valid, refused _ _ room))

  write_file-Advances :
      (end : SaveEnd) (next : List PublicationEntry) (e : PublicationEntry)
      (j : EpochPublicationJournal) (c : Result (Unit {0}))
      → IsSafe j
      → PlanGrows j.entries (saves next e)
      → check_save run next j ≡ c
      → Advances j (write_file run end next j c).0
  write_file-Advances end next e j (throw m) s g h = unchanged-Advances j s
  write_file-Advances unwritten next e j (ok u) s g h = shut-Advances j _ s refl (ground arith)
  write_file-Advances unconfirmed next e j (ok u) s g h =
      let own = s.current (check_save-eq next j h).0 in
      record {
        safe = record {
          once = g.1 (subst NonceOnce (sym own) s.once);
          checked = (check_save-eq next j h).1;
          current = λ live. absurd (not_open _ live (ground arith));
        };
        extends = subst (λ xs. Extends xs next) own g.0;
      }
  write_file-Advances written next e j (ok u) s g h =
      let own = s.current (check_save-eq next j h).0 in
      record {
        safe = record {
          once = g.1 (subst NonceOnce (sym own) s.once);
          checked = (check_save-eq next j h).1;
          current = λ live. refl;
        };
        extends = subst (λ xs. Extends xs next) own g.0;
      }

  pub perform-Advances :
      (end : SaveEnd) (p : Result Plan) (j : EpochPublicationJournal)
      → IsSafe j
      → Yields (PlanGrows j.entries) p
      → Advances j (perform run end p j).0
  unfolding save
  perform-Advances end (throw m) j s g = unchanged-Advances j s
  perform-Advances end (ok (returns_entry e)) j s g = unchanged-Advances j s
  perform-Advances end (ok (saves next e)) j s g =
      write_file-Advances end next e j (check_save run next j) s (yielded g refl) refl

  close_poisoned-Advances :
      (end : CloseEnd) (j : EpochPublicationJournal)
      → IsSafe j
      → Advances j (close_poisoned end j).0
  close_poisoned-Advances kept_open j s = shut-Advances j _ s refl refl
  close_poisoned-Advances released j s = shut-Advances j _ s refl refl
  close_poisoned-Advances kept_lock j s = shut-Advances j _ s refl refl

  close_clean-Advances :
      (end : CloseEnd) (j : EpochPublicationJournal) → IsSafe j → Advances j (close_clean end j).0
  close_clean-Advances kept_open j s = shut-Advances j _ s refl refl
  close_clean-Advances released j s = shut-Advances j _ s refl refl
  close_clean-Advances kept_lock j s = shut-Advances j _ s refl refl

  close_either-Advances :
      (closed poisoned : Bool) (end : CloseEnd) (j : EpochPublicationJournal)
      → IsSafe j
      → Advances j
          (if closed
            then (j, ok tt)
            else (if poisoned then close_poisoned end j else close_clean end j)).0
  close_either-Advances true poisoned end j s = unchanged-Advances j s
  close_either-Advances false true end j s = close_poisoned-Advances end j s
  close_either-Advances false false end j s = close_clean-Advances end j s

  pub close-Advances :
      (end : CloseEnd) (j : EpochPublicationJournal) → IsSafe j → Advances j (close end j).0
  unfolding close
  close-Advances end j s = close_either-Advances j.closed j.poisoned end j s

  read_file-eq :
      (readable : Bool) (secret : Text) (scope : PublicationScope) (file : Option SavedFile)
      (entries : List PublicationEntry)
      → read_file run readable secret scope file ≡ ok entries
      → entries ≡ entries_of file
  read_file-eq false secret scope file entries h = absurd (ground arith)
  read_file-eq true secret scope none entries h = ground arith
  read_file-eq true secret scope (some (own, saved, es)) entries h =
      let (u, fits, r) =
        >>=-eq-ok
          (refuse (ltb max_bytes (run.envelope_size saved es)) "PUBLICATION_JOURNAL_UNAVAILABLE") _
          h in
      let (v, sealed, r') =
        >>=-eq-ok (require (run.unseals secret scope own saved) "PUBLICATION_JOURNAL_UNAVAILABLE") _
          r in
      let (w, valid, rest) = >>=-eq-ok (validate run scope (saved, es)) _ r' in ground arith

  opened-Advances :
      (end : CloseEnd) (secret : Text) (scope : PublicationScope) (j : EpochPublicationJournal)
      (r : Result (List PublicationEntry))
      → IsSafe j
      → ((entries : List PublicationEntry) → r ≡ ok entries → entries ≡ entries_of j.file)
      → Advances j (opened run end (fresh run secret scope j) r).0
  unfolding close
  opened-Advances end secret scope j (ok entries) s same = record {
    safe = record { once = s.once; checked = s.checked; current = λ live. same entries refl };
    extends = Extends-refl (entries_of j.file);
  }
  opened-Advances released secret scope j (throw e) s same = shut-Advances j _ s refl refl
  opened-Advances kept_open secret scope j (throw e) s same = shut-Advances j _ s refl refl
  opened-Advances kept_lock secret scope j (throw e) s same = shut-Advances j _ s refl refl

  pub open_with-Advances :
      (readable : Bool) (end : CloseEnd) (secret : Text) (j : EpochPublicationJournal)
      (r : Result PublicationScope)
      → IsSafe j
      → Advances j (open_with run readable end secret j r).0
  open_with-Advances readable end secret j (throw e) s = unchanged-Advances j s
  open_with-Advances readable end secret j (ok scope) s =
      opened-Advances end secret scope j (read_file run readable secret scope j.file) s
        (read_file-eq readable secret scope j.file)
