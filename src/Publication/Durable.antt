-- ===== src/Publication/Durable.antt =====
-- pipeline/epoch-publication-journal.ts: what the file has when `prepare` returns, and that it can be read
-- again.
use proofmark.Prelude.{
  String, required, >>=-eq-ok, is_safe_integer, ◌∙◌, ◌*◌, true, false, Option, none, some, List,
  ◌≡◌, ◌≤◌, refl, sym, ap, arith, leb, ◌&&◌, length, is_some, any, Result, ok, throw, ◌>>◌, require,
  refuse, Yields, yielded, after, returns, throws,
}
use mathlib.Core.Path.{subst}
use proofmark.Prelude.Text.{Text, text_eq, text_eq_iff, to_lower_case}
use proofmark.Publication.Checks.{
  PublicationScope, PublicationIntent, SavedTransaction, PublicationEntry, EthersTransaction,
  PublicationRuntime, or_fail, is_account, found_hash, is_bound, validate, scope_value,
  bound_transaction,
}
use proofmark.Publication.Journal.{
  SavedFile, EpochPublicationJournal, SaveEnd, written, unwritten, unconfirmed, CloseEnd, Plan,
  returns_entry, saves, assert_open, check_save, save, write_file, perform, open_journal, fresh,
  read_file, check_config,
}
use proofmark.Publication.Operations.{
  find, has_nonce, prepare, plan_prepare, plan_signed, must_find,
}
use proofmark.Publication.Plans.{PlanGrows, plan_prepare-PlanGrows}
use proofmark.Publication.Safe.{entries_of, IsChecked, IsSafe}
use proofmark.Publication.Reach.{PublicationRun, no_journal, PublicationRun-IsSafe}

module _ (run : PublicationRuntime) where
  abbrev IsAccount : Option Text → Text → Type 0
  IsAccount o own = (a : Text) × (o ≡ some a) × (to_lower_case a ≡ own)

  -- The transaction is signed by the publisher, for the chain and the contract, with the data of the plan,
  -- and sends no value.
  pub record IsOwn (scope : PublicationScope) (intent : PublicationIntent) (tx : EthersTransaction)
      : Type 0 where
    pub signed : tx.is_signed ≡ true
    pub chain : tx.chain_id ≡ scope.chain_id
    pub publisher : IsAccount tx.from scope.publisher
    pub contract : IsAccount tx.to scope.source
    pub no_value : tx.value ≡ 0
    pub data_of_plan : tx.calldata ≡ intent.calldata
    pub safe_nonce : is_safe_integer tx.nonce ≡ true

  -- The entry has the serialized form of the transaction that `ethers` reads from the bytes.
  abbrev pub IsSigned : PublicationScope → Text → PublicationEntry → Type 0
  IsSigned scope raw e =
      (tx : EthersTransaction) × (s : SavedTransaction) × (run.read_transaction raw ≡ ok tx)
      × IsOwn scope e.intent tx
      × (e.transaction ≡ some s)
      × (s.raw ≡ tx.serialized)

  is_account-IsAccount : (o : Option Text) (own : Text) → is_account o own ≡ true → IsAccount o own
  is_account-IsAccount none own h = absurd (ground arith)
  is_account-IsAccount (some a) own h = (a, refl, (text_eq_iff (to_lower_case a) own).0 h)

  is_bound-IsOwn :
      (scope : PublicationScope) (intent : PublicationIntent) (tx : EthersTransaction)
      → is_bound run scope intent tx ≡ true
      → IsOwn scope intent tx
  is_bound-IsOwn scope intent tx h = record {
    signed = ground arith;
    chain = ground arith;
    publisher = is_account-IsAccount tx.from scope.publisher (ground arith);
    contract = is_account-IsAccount tx.to scope.source (ground arith);
    no_value = ground arith;
    data_of_plan = (text_eq_iff tx.calldata intent.calldata).0 (ground arith);
    safe_nonce = ground arith;
  }

  or_fail-eq :
      {A : Type 0} (code : String) (r : Result A) {a : A} → or_fail code r ≡ ok a → r ≡ ok a
  or_fail-eq code (ok b) h = h
  or_fail-eq code (throw e) h = absurd (ground arith)

  -- What `boundTransaction` returns was read from the bytes.
  abbrev IsRead : PublicationScope → PublicationIntent → Text → SavedTransaction → Type 0
  IsRead scope intent raw t =
      (tx : EthersTransaction) × (run.read_transaction raw ≡ ok tx)
      × IsOwn scope intent tx
      × (t.raw ≡ tx.serialized)

  bound_transaction-IsRead :
      (scope : PublicationScope) (intent : PublicationIntent) (raw : Text) (t : SavedTransaction)
      → bound_transaction run scope raw intent ≡ ok t
      → IsRead scope intent raw t
  unfolding bound_transaction
  bound_transaction-IsRead scope intent raw t h =
      let (u, short, r) =
        >>=-eq-ok (require (leb (length raw) (520 * 1024)) "PUBLICATION_TRANSACTION_MISMATCH") _
          (or_fail-eq "PUBLICATION_TRANSACTION_MISMATCH" _ h) in
      let (tx, read, r') = >>=-eq-ok (run.read_transaction raw) _ r in
      let (hash, hashed, r'') = >>=-eq-ok (found_hash tx.hash) _ r' in
      let (v, own, last) =
        >>=-eq-ok (require (is_bound run scope intent tx) "PUBLICATION_TRANSACTION_MISMATCH") _
          r'' in
      (tx, read, is_bound-IsOwn scope intent tx (required _ _ own), ground arith)

  abbrev pub entry_of : Plan → PublicationEntry
  entry_of (returns_entry e) = e
  entry_of (saves next e) = e

  plan_signed-IsSigned :
      (raw : Text) (j : EpochPublicationJournal) (t : SavedTransaction) (e : PublicationEntry)
      (o : Option SavedTransaction)
      → bound_transaction run j.scope raw e.intent ≡ ok t
      → e.transaction ≡ o
      → Yields (λ p. IsSigned j.scope raw (entry_of p)) (plan_signed run t e j o)
  plan_signed-IsSigned raw j t e (some old) bound own =
      after (require (text_eq old.raw t.raw) "PUBLICATION_REPLACEMENT_FORBIDDEN") λ _ same.
        let (tx, read, fits, raw_eq) = bound_transaction-IsRead j.scope e.intent raw t bound in
        returns
          (tx, old, read, fits, own, (text_eq_iff old.raw t.raw).0 (required _ _ same) ∙ raw_eq)
  plan_signed-IsSigned raw j t e none bound own =
      after (refuse (any (has_nonce t.nonce) j.entries) "PUBLICATION_NONCE_REUSED") λ _ _.
        let (tx, read, fits, raw_eq) = bound_transaction-IsRead j.scope e.intent raw t bound in
        returns (tx, t, read, fits, refl, raw_eq)

  pub plan_prepare-IsSigned :
      (id raw : Text) (j : EpochPublicationJournal)
      → Yields (λ p. IsSigned j.scope raw (entry_of p)) (plan_prepare run id raw j)
  unfolding plan_prepare
  plan_prepare-IsSigned id raw j = after (assert_open j) λ _ _.
      after (must_find (find id j.entries)) λ e _.
        after (refuse (is_some e.abandonment) "PUBLICATION_ABANDONED") λ _ _.
          after (bound_transaction run j.scope raw e.intent)
            λ t bound. plan_signed-IsSigned raw j t e e.transaction bound refl

  always : (p : Result Plan) {P : Type 0} → P → Yields (λ _. P) p
  always (ok a) h = returns h
  always (throw e) h = throws

  pub plan_prepare-open :
      (id raw : Text) (j : EpochPublicationJournal)
      → Yields (λ p. assert_open j ≡ ok tt) (plan_prepare run id raw j)
  unfolding plan_prepare
  plan_prepare-open id raw j =
      after (assert_open j) λ u live. always _ {P = assert_open j ≡ ok tt} live

  -- What `perform` returned stands on file.
  returned :
      (end : SaveEnd) (next : List PublicationEntry) (e r : PublicationEntry)
      (j : EpochPublicationJournal) (c : Result (Unit {0}))
      → ((write_file run end next j c).1 >> ok e) ≡ ok r
      → (r ≡ e) × (entries_of (write_file run end next j c).0.file ≡ next)
  returned end next e r j (throw m) h = absurd (ground arith)
  returned unwritten next e r j (ok u) h = absurd (ground arith)
  returned unconfirmed next e r j (ok u) h = absurd (ground arith)
  returned written next e r j (ok u) h = (ground arith, refl)

  pub perform-returned :
      (end : SaveEnd) (raw : Text) (p : Result Plan) (j : EpochPublicationJournal)
      (r : PublicationEntry)
      → IsSafe run j
      → Yields (PlanGrows j.entries) p
      → Yields (λ q. IsSigned j.scope raw (entry_of q)) p
      → Yields (λ q. assert_open j ≡ ok tt) p
      → (perform run end p j).1 ≡ ok r
      → (find r.id (entries_of (perform run end p j).0.file) ≡ some r) × IsSigned j.scope raw r
  unfolding save
  perform-returned end raw (throw m) j r s g i o h = absurd (ground arith)
  perform-returned end raw (ok (returns_entry e)) j r s g i o h =
      let same : e ≡ r = ground arith in
      (
        subst (λ x. find x.id (entries_of j.file) ≡ some x) same
            (subst (λ es. find e.id es ≡ some e) (s.current (yielded o refl)) (yielded g refl)),
        subst (IsSigned j.scope raw) same (yielded i refl),
      )
  perform-returned end raw (ok (saves next e)) j r s g i o h =
      let (same, file) = returned end next e r j (check_save run next j) h in
      (
        subst (λ es. find r.id es ≡ some r) (sym file)
            (subst (λ x. find x.id next ≡ some x) (sym same) (yielded g refl).2),
        subst (IsSigned j.scope raw) (sym same) (yielded i refl),
      )

  -- Where `prepare` returns an entry, after any calls and whatever the end of its write was, the file
  -- holds this entry, with the serialized form of the transaction that `ethers` reads from the bytes given;
  -- this transaction is signed by the publisher of the scope, for its chain and contract, with the data of
  -- the plan, no value and a safe nonce.
  pub prepare-IsSigned :
      (scope : PublicationScope) {j k : EpochPublicationJournal} {r : PublicationEntry}
      → PublicationRun run (no_journal scope) j
      → (end : SaveEnd) (id raw : Text) → prepare run end id raw j ≡ (k, ok r)
      → (find r.id (entries_of k.file) ≡ some r) × IsSigned j.scope raw r
  unfolding prepare
  prepare-IsSigned scope {j} {k} {r} before end id raw h =
      let shown =
        perform-returned end raw (plan_prepare run id raw j) j r
          (PublicationRun-IsSafe run scope before) (plan_prepare-PlanGrows run j id raw)
          (plan_prepare-IsSigned id raw j) (plan_prepare-open id raw j) (ap (λ o. o.1) h) in
      (
        subst (λ (x : EpochPublicationJournal). find r.id (entries_of x.file) ≡ some r)
            (ap (λ o. o.0) h) shown.0,
        shown.1,
      )

  -- What was sealed is unsealed with the secret and the scope of its sealing.
  abbrev pub Unseals : Type 0
  Unseals =
      (secret : Text) (scope : PublicationScope) → run.unseals secret scope secret scope ≡ true

  -- The file, if there is one, was written with this secret, for this scope.
  abbrev pub IsFileOf : Text → PublicationScope → Option SavedFile → Type 0
  IsFileOf secret own none = Unit
  IsFileOf secret own (some (sealed, written_for, es)) = (sealed ≡ secret) × (written_for ≡ own)

  read_file-eq :
      (secret : Text) (own : PublicationScope) (file : Option SavedFile)
      → Unseals
      → IsChecked run file
      → IsFileOf secret own file
      → read_file run true secret own file ≡ ok (entries_of file)
  read_file-eq secret own none un c f = refl
  read_file-eq secret own (some (sealed, written_for, es)) un c f =
      let valid : validate run own (written_for, es) ≡ ok tt =
        subst (λ x. validate run x (written_for, es) ≡ ok tt) f.1 c.0 in
      let opens : run.unseals secret own sealed written_for ≡ true =
        subst (λ x. run.unseals secret own x written_for ≡ true) (sym f.0)
          (subst (λ x. run.unseals secret own secret x ≡ true) (sym f.1) (un secret own)) in
      rw (c.1, opens, valid) refl

  check_config-eq :
      (path secret : Text) (own : PublicationScope) (j : EpochPublicationJournal)
      → j.locked ≡ false
      → 1 ≤ length path
      → 32 ≤ length secret
      → scope_value run own ≡ ok own
      → check_config run path secret own j ≡ ok own
  check_config-eq path secret own j free p s v =
      let fits : (leb 1 (length path) && leb 32 (length secret)) ≡ true = ground arith in
      rw (v, fits, free) refl

  -- After any calls, a journal whose lock is gone is opened without an error, and has all entries of the
  -- file, if it is opened with the secret and the scope that the file was written with: with a path, a secret
  -- of at least 32 characters and a scope in normal form, where the lock file can be written and the file be
  -- read, and what was sealed is unsealed with the same secret and scope.
  pub open_journal-total :
      (scope : PublicationScope) {j : EpochPublicationJournal}
      → PublicationRun run (no_journal scope) j
      → (end : CloseEnd) (path secret : Text) (own : PublicationScope) → Unseals
      → j.locked ≡ false
      → 1 ≤ length path
      → 32 ≤ length secret
      → scope_value run own ≡ ok own
      → IsFileOf secret own j.file
      → open_journal run true end path secret own j
        ≡ (record (fresh run secret own j) { entries = entries_of j.file }, ok tt)
  unfolding open_journal
  open_journal-total scope {j} before end path secret own un free p s v f =
      rw
        (
          check_config-eq path secret own j free p s v,
          read_file-eq secret own j.file un (PublicationRun-IsSafe run scope before).checked f,
        )
        refl
