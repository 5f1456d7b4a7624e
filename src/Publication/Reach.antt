-- ===== src/Publication/Reach.antt =====
-- pipeline/epoch-publication-journal.ts: the journal and its file over any calls and openings.
use proofmark.Prelude.{ℕ, Bool, true, false, none, [], refl}
use proofmark.Prelude.Text.{Text}
use proofmark.Publication.Checks.{
  PublicationScope, PublicationIntent, PublicationConfirmation, PublicationRuntime,
}
use proofmark.Publication.Journal.{
  EpochPublicationJournal, SaveEnd, CloseEnd, close, open_journal, check_config,
}
use proofmark.Publication.Operations.{begin, prepare, confirm, abandon_unsigned}
use proofmark.Publication.Growth.{Extends, Extends-trans, NonceOnce}
use proofmark.Publication.Plans.{
  plan_begin-PlanGrows, plan_prepare-PlanGrows, plan_confirm-PlanGrows, plan_abandon-PlanGrows,
}
use proofmark.Publication.Safe.{
  entries_of, IsSafe, Advances, unchanged-Advances, shut-Advances, perform-Advances, close-Advances,
  open_with-Advances,
}

module _ (run : PublicationRuntime) where
  -- A call of the journal, or a new one on its file. When its process is dead an operator takes the lock
  -- away.
  pub data PublicationStep (j : EpochPublicationJournal) : EpochPublicationJournal → Type 0 where
    begins :
        (end : SaveEnd) (value : PublicationIntent) → PublicationStep j (begin run end value j).0
    prepares : (end : SaveEnd) (id raw : Text) → PublicationStep j (prepare run end id raw j).0
    confirms :
        (end : SaveEnd) (id : Text) (value : PublicationConfirmation)
        → PublicationStep j (confirm run end id value j).0
    abandons :
        (end : SaveEnd) (id : Text) (at : ℕ)
        → PublicationStep j (abandon_unsigned run end id at j).0
    closes : (end : CloseEnd) → PublicationStep j (close end j).0
    opens :
        (readable : Bool) (end : CloseEnd) (path secret : Text) (scope : PublicationScope)
        → PublicationStep j (open_journal run readable end path secret scope j).0
    unlocks : PublicationStep j (record j { closed = true; locked = false })

  step-Advances :
      (j k : EpochPublicationJournal) → IsSafe run j → PublicationStep j k → Advances run j k
  unfolding begin prepare confirm abandon_unsigned open_journal
  step-Advances j _ s (begins end value) =
      perform-Advances run end _ j s (plan_begin-PlanGrows run j value)
  step-Advances j _ s (prepares end id raw) =
      perform-Advances run end _ j s (plan_prepare-PlanGrows run j id raw)
  step-Advances j _ s (confirms end id value) =
      perform-Advances run end _ j s (plan_confirm-PlanGrows run j id value)
  step-Advances j _ s (abandons end id at) =
      perform-Advances run end _ j s (plan_abandon-PlanGrows run j id at)
  step-Advances j _ s (closes end) = close-Advances run end j s
  step-Advances j _ s (opens readable end path secret scope) =
      open_with-Advances run readable end secret j (check_config run path secret scope j) s
  step-Advances j _ s unlocks = shut-Advances run j _ s refl refl

  -- Any calls, in any order.
  pub data PublicationRun (j : EpochPublicationJournal) : EpochPublicationJournal → Type 0 where
    starts : PublicationRun j j
    goes_on :
        {k l : EpochPublicationJournal}
        → PublicationRun j k
        → PublicationStep k l
        → PublicationRun j l

  pub run-Advances :
      (j k : EpochPublicationJournal) → IsSafe run j → PublicationRun j k → Advances run j k
  run-Advances j _ s starts = unchanged-Advances run j s
  run-Advances j l s (goes_on {k} before step) =
      let first = run-Advances j k s before in
      let second = step-Advances k l first.safe step in
      record {
        safe = second.safe;
        extends =
            Extends-trans (entries_of j.file) (entries_of k.file) (entries_of l.file) first.extends
              second.extends;
      }

-- Before the first journal is made.
abbrev pub no_journal : PublicationScope → EpochPublicationJournal
no_journal scope = record {
  secret = [];
  scope = scope;
  entries = [];
  closed = true;
  poisoned = false;
  file = none;
  locked = false;
}

no_journal-IsSafe :
    (run : PublicationRuntime) (scope : PublicationScope) → IsSafe run (no_journal scope)
no_journal-IsSafe run scope = record { once = tt; checked = tt; current = λ live. refl }

pub PublicationRun-IsSafe :
    (run : PublicationRuntime) (scope : PublicationScope) {j : EpochPublicationJournal}
    → PublicationRun run (no_journal scope) j
    → IsSafe run j
PublicationRun-IsSafe run scope {j} before =
    (run-Advances run (no_journal scope) j (no_journal-IsSafe run scope) before).safe

-- From any journal that calls lead to, whatever calls and ends of writes follow: each entry of its file
-- is an entry of every later file, at its place, with its plan and with the transaction, the
-- confirmation and the abandonment that it has; and no two transactions of the later file have one nonce.
pub PublicationRun-Extends :
    (run : PublicationRuntime) (scope : PublicationScope) {j k : EpochPublicationJournal}
    → PublicationRun run (no_journal scope) j
    → PublicationRun run j k
    → Extends (entries_of j.file) (entries_of k.file) × NonceOnce (entries_of k.file)
PublicationRun-Extends run scope {j} {k} before later =
    let advance = run-Advances run j k (PublicationRun-IsSafe run scope before) later in
    (advance.extends, advance.safe.once)
