-- ===== src/Publication/Delivered.antt =====
-- pipeline/epoch-publication-delivery.ts: what each call that `advancePublication` makes does to the journal.
use proofmark.Prelude.{
  true, false, Option, none, some, List, [], ◌∷◌, ◌≡◌, refl, ◌∙◌, inl, inr, arith, Bool-cases,
  Result, ok, throw, require, >>=-eq-ok,
}
use mathlib.Core.Path.{subst}
use proofmark.Prelude.Text.{Text, text_eq}
use proofmark.Publication.Checks.{
  PublicationConfirmation, SavedTransaction, PublicationEntry, PublicationRuntime,
}
use proofmark.Publication.Journal.{EpochPublicationJournal, SaveEnd, snapshot, assert_open}
use proofmark.Publication.Operations.{find, prepare, plan_prepare, confirm}
use proofmark.Publication.Growth.{Grows, Grows-refl, Grows-trans, Extends, Stays}
use proofmark.Publication.Plans.{plan_prepare-PlanGrows}
use proofmark.Publication.Safe.{entries_of, IsSafe}
use proofmark.Publication.Reach.{PublicationRun, starts, goes_on, prepares, confirms, run-Advances}
use proofmark.Publication.Durable.{perform-returned, plan_prepare-IsSigned, plan_prepare-open}
use proofmark.Publication.Delivery.{
  PublicationObservation, absent, confirming, confirmed, Await, signing, sending,
  PublicationTransport, Delivery, Advance, and_then, gives, on_journal, looks, same_receipt, awaits,
  records_receipt, signs, broadcasts,
}

-- The file has the plan of the entry under its id, with all that the entry has.
abbrev pub IsFiled : PublicationEntry → EpochPublicationJournal → Type 0
IsFiled e k = (y : PublicationEntry) × (find e.id (entries_of k.file) ≡ some y) × Grows e y

abbrev pub HasTransaction : PublicationEntry → Type 0
HasTransaction e = (t : SavedTransaction) × (e.transaction ≡ some t)

-- The journal was open, and its file had the transaction of the entry.
abbrev pub IsDurable : Option (PublicationEntry × EpochPublicationJournal) → Type 0
IsDurable none = Unit
IsDurable (some (e, k)) =
    (assert_open k ≡ ok tt)
    × ((t : SavedTransaction) × (y : PublicationEntry) × (e.transaction ≡ some t)
        × (find e.id (entries_of k.file) ≡ some y)
        × (y.transaction ≡ some t))

Extends-find :
    (id : Text) (xs ys : List PublicationEntry) {e : PublicationEntry}
    → Extends xs ys
    → find id xs ≡ some e
    → (y : PublicationEntry) × (find id ys ≡ some y) × Grows e y
unfolding find
Extends-find id [] ys g h = absurd (ground arith)
Extends-find id (x ∷ xs) [] g h = absurd g
Extends-find id (x ∷ xs) (y ∷ ys) {e} g h = elim (Bool-cases (text_eq x.id id)) [
  | inl same ↦
      let own : text_eq y.id id ≡ true = rw g.0.same_id same in
      (y, rw own refl, subst (λ r. Grows r y) {x = x} (ground (arith, rw same at h)) g.0)
  | inr other ↦
      let own : text_eq y.id id ≡ false = rw g.0.same_id other in
      let (z, found, grown) = Extends-find id xs ys g.1 (rw other at h) in (z, rw own found, grown)
]

kept :
    (e y : PublicationEntry) (t : SavedTransaction)
    → e.transaction ≡ some t
    → Stays e.transaction y.transaction
    → y.transaction ≡ some t
kept e y t own (inl gone) = absurd (ground arith)
kept e y t own (inr same) = same ∙ own

module _ (run : PublicationRuntime) where
  run-trans :
      (i j k : EpochPublicationJournal)
      → PublicationRun run i j
      → PublicationRun run j k
      → PublicationRun run i k
  run-trans i j _ r starts = r
  run-trans i j l r (goes_on {k} s step) = goes_on (run-trans i j k r s) step

  -- What a computation does from a state on: only calls of the journal, no broadcast but a durable one,
  -- and `Q` of what it returns.
  pub record Ends {A : Type 0} (Q : A → Delivery → Type 0) (s : Delivery) (o : Delivery × Result A)
      : Type 0 where
    pub runs : PublicationRun run s.journal o.0.journal
    pub durable : IsDurable o.0.sent
    pub returns : (a : A) → o.1 ≡ ok a → Q a o.0

  pub record Start (s : Delivery) : Type 0 where
    pub safe : IsSafe run s.journal
    pub durable : IsDurable s.sent

  Ends-Start :
      {A : Type 0} {Q : A → Delivery → Type 0} (s : Delivery) (o : Delivery × Result A)
      → Start s
      → Ends Q s o
      → Start o.0
  Ends-Start s o b e = record {
    safe = (run-Advances run s.journal o.0.journal b.safe e.runs).safe;
    durable = e.durable;
  }

  pub after-Ends :
      {A B : Type 0} {Q : A → Delivery → Type 0} {R : B → Delivery → Type 0} (s t : Delivery)
      (a : A) (o : Delivery × Result B)
      → Start s
      → Ends Q s (t, ok a)
      → (Start t → PublicationRun run s.journal t.journal → Q a t → Ends R t o)
      → Ends R s o
  after-Ends s t a o b e k =
      let rest = k (Ends-Start s (t, ok a) b e) e.runs (e.returns a refl) in
      record {
        runs = run-trans s.journal t.journal o.0.journal e.runs rest.runs;
        durable = rest.durable;
        returns = rest.returns;
      }

  pub and_then-Ends :
      {A B : Type 0} {Q : A → Delivery → Type 0} {R : B → Delivery → Type 0} (s : Delivery)
      (o : Delivery × Result A) {next : A → Advance B}
      → Start s
      → Ends Q s o
      → ((a : A) (t : Delivery)
          → Start t
          → PublicationRun run s.journal t.journal
          → Q a t
          → Ends R t (next a t))
      → Ends R s (and_then o next)
  and_then-Ends s (t, throw m) b e k = record {
    runs = e.runs;
    durable = e.durable;
    returns = λ a h. absurd (ground arith);
  }
  and_then-Ends s (t, ok a) {next} b e k = after-Ends s t a (next a t) b e (k a t)

  pub gives-Ends :
      {A : Type 0} {Q : A → Delivery → Type 0} (r : Result A) (s : Delivery)
      → Start s
      → ((a : A) → r ≡ ok a → Q a s)
      → Ends Q s (gives r s)
  gives-Ends r s b q = record { runs = starts; durable = b.durable; returns = q }

  pub looks-Ends :
      (s : Delivery)
      → Start s
      → Ends
          (λ entries t. (assert_open t.journal ≡ ok tt) × (entries ≡ t.journal.entries))
          s
          (looks s)
  unfolding snapshot
  looks-Ends s b = gives-Ends (snapshot s.journal) s b λ entries h.
      let (u, live, rest) = >>=-eq-ok (assert_open s.journal) _ h in (live, ground arith)

  -- What was filed is filed after any calls.
  pub IsFiled-run :
      (e : PublicationEntry) (j k : EpochPublicationJournal)
      → IsSafe run j
      → PublicationRun run j k
      → IsFiled e j
      → IsFiled e k
  IsFiled-run e j k s r (x, found, grown) =
      let advance = run-Advances run j k s r in
      let (y, later, more) =
        Extends-find e.id (entries_of j.file) (entries_of k.file) advance.extends found in
      (y, later, Grows-trans grown more)

  prepare-Ends :
      (end : SaveEnd) (id raw : Text) (s : Delivery)
      → Start s
      → Ends
          (λ e t. IsFiled e t.journal × HasTransaction e)
          s
          (on_journal (prepare run end id raw) s)
  unfolding prepare
  prepare-Ends end id raw s b = record {
    runs = goes_on starts (prepares end id raw);
    durable = b.durable;
    returns = λ e h.
        let shown =
          perform-returned run end raw (plan_prepare run id raw s.journal) s.journal e b.safe
            (plan_prepare-PlanGrows run s.journal id raw)
            (plan_prepare-IsSigned run id raw s.journal) (plan_prepare-open run id raw s.journal)
            h in
        let (tx, u, read, fits, own, same) = shown.1 in ((e, shown.0, Grows-refl e), (u, own));
  }

  confirm-Ends :
      (end : SaveEnd) (id : Text) (c : PublicationConfirmation) (s : Delivery)
      → Start s
      → Ends (λ e t. Unit {0}) s (on_journal (confirm run end id c) s)
  confirm-Ends end id c s b = record {
    runs = goes_on starts (confirms end id c);
    durable = b.durable;
    returns = λ e h. tt;
  }

  -- Other callers only call the journal, or open it again.
  module _ (transport : PublicationTransport)
      (follows : (at : Await) (k : EpochPublicationJournal)
        → PublicationRun run k (transport.meanwhile at k)) where
    pub awaits-Ends :
        {A : Type 0} (at : Await) (r : Result A) (s : Delivery)
        → Start s
        → Ends (λ a t. Unit {0}) s (awaits run transport at r s)
    awaits-Ends at r s b = record {
      runs = follows at s.journal;
      durable = b.durable;
      returns = λ a h. tt;
    }

    pub records_receipt-Ends :
        (id : Text) (o : PublicationObservation) (c : Option PublicationConfirmation) (s : Delivery)
        → Start s
        → Ends (λ a t. Unit {0}) s (records_receipt run transport id o c s)
    records_receipt-Ends id o (some c) s b =
        and_then-Ends s (gives (require (same_receipt c o) "PUBLICATION_CONFIRMATION_CHANGED") s) b
          (gives-Ends {Q = λ a t. Unit {0}} _ s b (λ a h. tt))
          λ u t d r q. gives-Ends (ok o) t d (λ a h. tt)
    records_receipt-Ends id (confirmed c) none s b =
        and_then-Ends s (on_journal (confirm run transport.confirm_end id c) s) b
          (confirm-Ends transport.confirm_end id c s b)
          λ e t d r q. gives-Ends (ok (confirmed c)) t d (λ a h. tt)
    records_receipt-Ends id absent none s b = gives-Ends (ok absent) s b (λ a h. tt)
    records_receipt-Ends id confirming none s b = gives-Ends (ok confirming) s b (λ a h. tt)

    pub signs-Ends :
        (id : Text) (e : PublicationEntry) (o : Option SavedTransaction) (s : Delivery)
        → Start s
        → e.transaction ≡ o
        → IsFiled e s.journal
        → Ends (λ x t. IsFiled x t.journal × HasTransaction x) s (signs run transport id e o s)
    signs-Ends id e (some t) s b own f = gives-Ends (ok e) s b λ x h.
        let same : e ≡ x = ground arith in
        (
          subst (λ y. IsFiled y s.journal) same f,
          (t, subst (λ (y : PublicationEntry). y.transaction ≡ some t) same own),
        )
    signs-Ends id e none s b own f =
        and_then-Ends s (awaits run transport signing (transport.sign e) s) b
          (awaits-Ends signing (transport.sign e) s b)
          λ raw t d r q. prepare-Ends transport.prepare_end id raw t d

    pub broadcasts-Ends :
        (e : PublicationEntry) (s : Delivery)
        → Start s
        → assert_open s.journal ≡ ok tt
        → IsFiled e s.journal
        → HasTransaction e
        → Ends (λ a t. Unit {0}) s (broadcasts run transport e s)
    broadcasts-Ends e s b live (y, found, grown) (t, own) = record {
      runs = follows sending s.journal;
      durable = (live, (t, y, own, found, kept e y t own grown.transaction));
      returns = λ a h. tt;
    }
