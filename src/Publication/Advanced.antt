-- ===== src/Publication/Advanced.antt =====
-- pipeline/epoch-publication-delivery.ts: what the file of the journal has when `advancePublication`
-- broadcasts.
use proofmark.Prelude.{
  Bool, true, false, not, ◌||◌, Option, none, some, ◌≡◌, refl, sym, ap, ◌∙◌, arith, if◌then◌else◌,
  is_some, Result, ok, refuse,
}
use mathlib.Core.Path.{subst}
use proofmark.Prelude.Text.{Text}
use proofmark.Publication.Checks.{PublicationScope, PublicationEntry, PublicationRuntime}
use proofmark.Publication.Journal.{EpochPublicationJournal}
use proofmark.Publication.Operations.{find, must_find}
use proofmark.Publication.Growth.{Grows-refl, find-id}
use proofmark.Publication.Safe.{entries_of}
use proofmark.Publication.Reach.{PublicationRun, no_journal, PublicationRun-IsSafe}
use proofmark.Publication.Delivery.{
  PublicationObservation, Await, first_look, first_check, second_check, second_look, last_look,
  PublicationTransport, Delivery, gives, looks, is_absent, awaits, finish, signs, sends, resumes,
  advance_publication,
}
use proofmark.Publication.Delivered.{
  IsFiled, HasTransaction, IsDurable, Ends, Start, after-Ends, and_then-Ends, gives-Ends,
  looks-Ends, IsFiled-run, awaits-Ends, records_receipt-Ends, signs-Ends, broadcasts-Ends,
}

module _ (run : PublicationRuntime) (transport : PublicationTransport)
    (follows : (at : Await) (k : EpochPublicationJournal)
      → PublicationRun run k (transport.meanwhile at k)) where
  abbrev Nothing : {A : Type 0} → A → Delivery → Type 0
  Nothing a t = Unit {0}

  if-Ends :
      (b : Bool) (x y : Delivery → Delivery × Result PublicationObservation) (s : Delivery)
      → Ends run Nothing s (x s)
      → Ends run Nothing s (y s)
      → Ends run Nothing s ((if b then x else y) s)
  if-Ends true x y s p q = p
  if-Ends false x y s p q = q

  sends-Ends :
      (id : Text) (e : PublicationEntry) (s : Delivery)
      → Start run s
      → IsFiled e s.journal
      → HasTransaction e
      → Ends run Nothing s (sends run transport id e s)
  unfolding sends
  sends-Ends id e s b f tx = and_then-Ends run s (looks s) b (looks-Ends run s b) λ entries t c r q.
      after-Ends run t _ tt _ c
        (broadcasts-Ends run transport follows e t c q.0
          (IsFiled-run run e s.journal t.journal b.safe r f) tx)
        λ d r' q'.
          and_then-Ends run _ (awaits run transport last_look (transport.observe last_look e) _) d
            (awaits-Ends run transport follows last_look (transport.observe last_look e) _ d)
            λ o v g r'' q''. records_receipt-Ends run transport follows id o e.confirmation v g

  resumes-Ends :
      (id : Text) (e : PublicationEntry) (s : Delivery)
      → Start run s
      → IsFiled e s.journal
      → Ends run Nothing s (resumes run transport id e s)
  unfolding resumes
  resumes-Ends id e s b f =
      and_then-Ends run s
        (awaits run transport first_check (transport.assert_ready first_check e) s) b
        (awaits-Ends run transport follows first_check _ s b)
        λ u t c r q. and_then-Ends run t (looks t) c (looks-Ends run t c) λ entries t' c' r' q'.
          and_then-Ends run t' (signs run transport id e e.transaction t') c'
            (signs-Ends run transport follows id e e.transaction t' c' refl (
              IsFiled-run run e t.journal t'.journal c.safe r'
                (IsFiled-run run e s.journal t.journal b.safe r f)))
            λ x v d rv qv.
              and_then-Ends run v
                (awaits run transport second_check (transport.assert_ready second_check x) v) d
                (awaits-Ends run transport follows second_check _ v d)
                λ u' w g rw' qw.
                  and_then-Ends run w
                    (awaits run transport second_look (transport.observe second_look x) w) g
                    (awaits-Ends run transport follows second_look _ w g)
                    λ o z h rz qz.
                      if-Ends (is_absent o) (sends run transport id x) (finish run transport id x o)
                        z
                        (sends-Ends id x z h
                          (IsFiled-run run x w.journal z.journal g.safe rz
                            (IsFiled-run run x v.journal w.journal d.safe rw' qv.0))
                          qv.1)
                        (records_receipt-Ends run transport follows id o x.confirmation z h)

  found-IsFiled :
      (id : Text) (o : Option PublicationEntry) (e : PublicationEntry) (k : EpochPublicationJournal)
      → find id (entries_of k.file) ≡ o
      → must_find o ≡ ok e
      → IsFiled e k
  found-IsFiled id none e k h m = absurd (ground arith)
  found-IsFiled id (some x) e k h m =
      let found : find id (entries_of k.file) ≡ some e = h ∙ ground arith in
      (
        e,
        subst (λ i. find i (entries_of k.file) ≡ some e)
            (sym (find-id id (entries_of k.file) found)) found,
        Grows-refl e,
      )

  advance_publication-Ends :
      (id : Text) (s : Delivery)
      → Start run s
      → Ends run Nothing s (advance_publication run transport id s)
  unfolding advance_publication
  advance_publication-Ends id s b =
      and_then-Ends run s (looks s) b (looks-Ends run s b) λ entries t c r q.
        and_then-Ends run t (gives (must_find (find id entries)) t) c
          (gives-Ends run {Q = λ e v. IsFiled e v.journal} (must_find (find id entries)) t c λ e m.
            found-IsFiled id (find id entries) e t.journal
              (ap (find id) (sym (q.1 ∙ c.safe.current q.0))) m)
          λ e t' c' r' f.
            and_then-Ends run t' (gives (refuse (is_some e.abandonment) "PUBLICATION_ABANDONED") t')
              c' (gives-Ends run {Q = Nothing} _ t' c' (λ a h. tt))
              λ u v d rv qv.
                and_then-Ends run v
                  (awaits run transport first_look (transport.observe first_look e) v) d
                  (awaits-Ends run transport follows first_look _ v d)
                  λ o w g rw' qw.
                    if-Ends (is_some e.confirmation || not (is_absent o))
                      (finish run transport id e o) (resumes run transport id e) w
                      (records_receipt-Ends run transport follows id o e.confirmation w g)
                      (resumes-Ends id e w g (
                        IsFiled-run run e v.journal w.journal d.safe rw'
                          (IsFiled-run run e t'.journal v.journal c'.safe rv f)))

  -- From a journal that calls lead to, whatever the transport answers and whatever calls of the journal
  -- other callers make while `advancePublication` waits: when it broadcasts an entry the journal is open,
  -- and its file has the plan of the entry with the very transaction that the entry has.
  pub advance_publication-IsDurable :
      (scope : PublicationScope) {j : EpochPublicationJournal}
      → PublicationRun run (no_journal scope) j
      → (id : Text)
      → IsDurable
          (advance_publication run transport id (record { journal = j; sent = none })).0.sent
  advance_publication-IsDurable scope {j} before id =
      let begun : Delivery = record { journal = j; sent = none } in
      (advance_publication-Ends id begun
        (record { safe = PublicationRun-IsSafe run scope before; durable = tt })).durable
