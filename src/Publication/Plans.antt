-- ===== src/Publication/Plans.antt =====
-- pipeline/epoch-publication-journal.ts: every save that an operation plans lets the entries grow.
use proofmark.Prelude.{
  ℕ, Option, none, some, List, [], ◌∷◌, ◌≡◌, refl, sym, inl, inr, arith, any, leb, length, is_some,
  ◌||◌, ok, require, refuse, Yields, after, returns,
}
use mathlib.Core.Path.{subst}
use proofmark.Prelude.Text.{Text, text_eq}
use proofmark.Publication.Checks.{
  PublicationIntent, PublicationConfirmation, SavedTransaction, Abandonment, PublicationEntry,
  PublicationRuntime, intent_value, bound_transaction, same_confirmation, cancelled,
}
use proofmark.Publication.Journal.{EpochPublicationJournal, Plan, returns_entry, saves, assert_open}
use proofmark.Publication.Operations.{
  find, set_entry, has_nonce, is_undecided, new_entry, must_find, plan_new, plan_begin, plan_signed,
  plan_prepare, plan_confirmed, plan_confirm, plan_abandoned, plan_abandon,
}
use proofmark.Publication.Growth.{
  Grows, Extends, NonceOnce, append-Extends, append-NonceOnce, find-append, find-id, find-set_entry,
  set_entry-Extends, set_entry-NonceOnce, Fits,
}

-- The entries planned extend those there are, use each nonce once if these do, and hold the entry
-- returned.
abbrev pub PlanGrows : List PublicationEntry → Plan → Type 0
PlanGrows xs (returns_entry e) = find e.id xs ≡ some e
PlanGrows xs (saves next e) =
    Extends xs next × (NonceOnce xs → NonceOnce next) × (find e.id next ≡ some e)

find-own :
    (id : Text) (xs : List PublicationEntry) (e : PublicationEntry)
    → find id xs ≡ some e
    → find e.id xs ≡ some e
find-own id xs e h = subst (λ i. find i xs ≡ some e) (sym (find-id id xs h)) h

changed-PlanGrows :
    (id : Text) (xs : List PublicationEntry) (e new : PublicationEntry)
    → find id xs ≡ some e
    → Grows e new
    → Fits e new xs
    → PlanGrows xs (saves (set_entry new xs) new)
changed-PlanGrows id xs e new h g f = (
  set_entry-Extends id xs h g,
  set_entry-NonceOnce id xs e new h g.same_id f,
  subst (λ i. find i (set_entry new xs) ≡ some new)
      (sym (find-id id (set_entry new xs) (find-set_entry id xs h g.same_id)))
      (find-set_entry id xs h g.same_id),
)

module _ (run : PublicationRuntime) (j : EpochPublicationJournal) where
  plan_new-PlanGrows :
      (intent : PublicationIntent) (id : Text) (o : Option PublicationEntry)
      → find id j.entries ≡ o
      → Yields (PlanGrows j.entries) (plan_new run intent id j o)
  plan_new-PlanGrows intent id (some same) h = returns (find-own id j.entries same h)
  plan_new-PlanGrows intent id none h =
      after (refuse (any is_undecided j.entries) "PUBLICATION_PENDING") λ _ _.
        after (refuse (leb 1000 (length j.entries)) "PUBLICATION_JOURNAL_CAPACITY") λ _ _. returns (
          append-Extends j.entries (new_entry id intent ∷ []),
          append-NonceOnce id intent j.entries,
          find-append id (new_entry id intent) j.entries h refl,
        )

  pub plan_begin-PlanGrows :
      (value : PublicationIntent) → Yields (PlanGrows j.entries) (plan_begin run value j)
  unfolding plan_begin
  plan_begin-PlanGrows value = after (assert_open j) λ _ _.
      after (intent_value run value)
        λ intent _. plan_new-PlanGrows intent (run.plan_hash j.scope intent) _ refl

  must_find-eq :
      (o : Option PublicationEntry) (e : PublicationEntry) → must_find o ≡ ok e → o ≡ some e
  must_find-eq none e h = absurd (ground arith)
  must_find-eq (some x) e h = ground arith

  plan_signed-PlanGrows :
      (id : Text) (t : SavedTransaction) (e : PublicationEntry) (o : Option SavedTransaction)
      → find id j.entries ≡ some e
      → e.transaction ≡ o
      → Yields (PlanGrows j.entries) (plan_signed run t e j o)
  plan_signed-PlanGrows id t e (some old) h own =
      after (require (text_eq old.raw t.raw) "PUBLICATION_REPLACEMENT_FORBIDDEN")
        λ _ _. returns (find-own id j.entries e h)
  plan_signed-PlanGrows id t e none h own =
      after (refuse (any (has_nonce t.nonce) j.entries) "PUBLICATION_NONCE_REUSED") λ _ free.
        returns (
          changed-PlanGrows id j.entries e (record e { transaction = some t }) h
            (record {
              same_id = refl;
              same_intent = refl;
              transaction = inl own;
              confirmation = inr refl;
              abandonment = inr refl;
            })
            (inr (t, refl, ground arith)))

  pub plan_prepare-PlanGrows :
      (id raw : Text) → Yields (PlanGrows j.entries) (plan_prepare run id raw j)
  unfolding plan_prepare
  plan_prepare-PlanGrows id raw = after (assert_open j) λ _ _.
      after (must_find (find id j.entries)) λ e found.
        after (refuse (is_some e.abandonment) "PUBLICATION_ABANDONED") λ _ _.
          after (bound_transaction run j.scope raw e.intent)
            λ t _. plan_signed-PlanGrows id t e e.transaction (must_find-eq _ e found) refl

  plan_confirmed-PlanGrows :
      (id : Text) (c : PublicationConfirmation) (e : PublicationEntry)
      (o : Option PublicationConfirmation)
      → find id j.entries ≡ some e
      → e.confirmation ≡ o
      → Yields (PlanGrows j.entries) (plan_confirmed run c e j o)
  plan_confirmed-PlanGrows id c e (some old) h own =
      after (require (same_confirmation old c) "PUBLICATION_CONFIRMATION_CONFLICT")
        λ _ _. returns (find-own id j.entries e h)
  plan_confirmed-PlanGrows id c e none h own = returns (
      changed-PlanGrows id j.entries e (record e { confirmation = some c }) h
        (record {
          same_id = refl;
          same_intent = refl;
          transaction = inr refl;
          confirmation = inl own;
          abandonment = inr refl;
        })
        (inl refl))

  pub plan_confirm-PlanGrows :
      (id : Text) (c : PublicationConfirmation)
      → Yields (PlanGrows j.entries) (plan_confirm run id c j)
  unfolding plan_confirm
  plan_confirm-PlanGrows id c = after (assert_open j) λ _ _.
      after (must_find (find id j.entries))
        λ e found. plan_confirmed-PlanGrows id c e e.confirmation (must_find-eq _ e found) refl

  plan_abandoned-PlanGrows :
      (id : Text) (at : ℕ) (e : PublicationEntry) (o : Option Abandonment)
      → find id j.entries ≡ some e
      → e.abandonment ≡ o
      → Yields (PlanGrows j.entries) (plan_abandoned run at e j o)
  plan_abandoned-PlanGrows id at e (some old) h own = returns (find-own id j.entries e h)
  plan_abandoned-PlanGrows id at e none h own = returns (
      changed-PlanGrows id j.entries e
        (record e { abandonment = some (record { at = at; reason = cancelled }) }) h
        (record {
          same_id = refl;
          same_intent = refl;
          transaction = inr refl;
          confirmation = inr refl;
          abandonment = inl own;
        })
        (inl refl))

  pub plan_abandon-PlanGrows :
      (id : Text) (at : ℕ) → Yields (PlanGrows j.entries) (plan_abandon run id at j)
  unfolding plan_abandon
  plan_abandon-PlanGrows id at = after (assert_open j) λ _ _.
      after (must_find (find id j.entries)) λ e found.
        after
          (refuse (is_some e.transaction || is_some e.confirmation)
            "PUBLICATION_SIGNED_CANNOT_ABANDON")
          λ _ _. plan_abandoned-PlanGrows id at e e.abandonment (must_find-eq _ e found) refl
