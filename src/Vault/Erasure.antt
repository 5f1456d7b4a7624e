-- ===== src/Vault/Erasure.antt =====
-- pipeline/vault.ts: when a record is erased.
use proofmark.Prelude.{
  ℕ, ◌≤◌, String, Bool, true, false, not, ◌&&◌, ◌||◌, Option, none, some, List, [], ◌∷◌, ◌≡◌, refl,
  sym, ap, ◌∙◌, inl, inr, arith, ltb, any, All, str_eq, str_eq_iff, is_some, Bool-cases, ok,
}
use mathlib.Core.Path.{subst}
use proofmark.Prelude.Text.{text_eq}
use proofmark.Prelude.Dict.{lookup, lookup-remove, lookup-insert}
use proofmark.Vault.Data.{
  VaultRecord, VaultData, RetentionControls, DeletionRequest, Approval, Hold, Runtime, is_confirmed,
  is_pending, is_in_review, is_blocked,
}
use proofmark.Vault.Blockers.{
  controls, controls_or_none, retention_deadline, jobs_of, Blocker, push, invalid_retention,
  retention_not_expired, record_time_invalid, legal_hold, issuance_pending, review_pending,
  revocation_pending, revocation_not_reconciled, is_held, safety_blockers, request_blockers,
  deletion_blockers, deletion_fingerprint, last, is_retention_valid,
}
use proofmark.Vault.Calls.{VaultCall, VaultRun, mutate}
use proofmark.Vault.Effects.{
  Change, keeps, adds, moves, manages, delivers, recovers, removes, Queues, queue, Erasing, erasing,
  Removes, IsTwoPerson,
}
use proofmark.Vault.Changes.{mutate-Change}
use proofmark.Vault.Sound.{IsSound, VaultRun-IsSound}

-- The deletion of the record is asked for and approved, by different operators, at times in order, for
-- the record as it still is.
pub record IsAgreed (run : Runtime) (r : VaultRecord) (d : VaultData) (now : ℕ)
    (q : DeletionRequest) (a : Approval) : Type 0 where
  pub requested : last (controls r.id d).requests ≡ some q
  pub approved : q.approval ≡ some a
  pub other : text_eq q.operator a.operator ≡ false
  pub ordered : q.requested_at ≤ a.at
  pub past : a.at ≤ now
  pub current : q.fingerprint ≡ deletion_fingerprint run r d

-- The record may be erased: its retention is over, nothing holds it, it waits for nothing, and its
-- revocations are confirmed, at least one if it is blocked.
pub record IsErasable (r : VaultRecord) (d : VaultData) (now : ℕ) : Type 0 where
  pub created : r.created_at ≤ now
  pub expired : retention_deadline r d ≤ now
  pub free : All (λ (h : Hold). is_some h.release ≡ true) (controls r.id d).holds
  pub issued : is_pending r.state ≡ false
  pub decided : is_in_review r.state ≡ false
  pub reconciled : All (λ job. is_confirmed job ≡ true) (jobs_of r.id d)
  pub revoked : is_blocked r.state ≡ true → any is_confirmed (jobs_of r.id d) ≡ true

-- With no code pushed, no condition holds.
pushes-nil :
    (b1 b2 b3 b4 b5 b6 b7 b8 : Bool) (rest : List Blocker)
    → push b1 invalid_retention (
        push b2 retention_not_expired (
          push b3 record_time_invalid (
            push b4 legal_hold (
              push b5 issuance_pending (
                push b6 review_pending
                  (push b7 revocation_pending (push b8 revocation_not_reconciled rest)))))))
      ≡ []
    → ((b1 || b2 || b3 || b4 || b5 || b6 || b7 || b8) ≡ false) × (rest ≡ [])
pushes-nil b1 b2 b3 b4 b5 b6 b7 b8 rest h = ground arith

any-All :
    {A : Type 0} (p : A → Bool) (xs : List A)
    → any (λ x. not (p x)) xs ≡ false
    → All (λ x. p x ≡ true) xs
any-All p [] h = tt
any-All p (x ∷ xs) h = (ground arith, any-All p xs (ground arith))

-- The conditions, read off.
erasable :
    (r : VaultRecord) (d : VaultData) (now : ℕ)
    → (not (is_retention_valid r (retention_deadline r d))
        || (is_retention_valid r (retention_deadline r d) && ltb now (retention_deadline r d))
        || ltb now r.created_at
        || is_held (controls r.id d)
        || is_pending r.state
        || is_in_review r.state
        || any (λ job. not (is_confirmed job)) (jobs_of r.id d)
        || (is_blocked r.state && not (any is_confirmed (jobs_of r.id d))))
      ≡ false
    → IsErasable r d now
erasable r d now h = record {
  created = ground arith;
  expired = ground arith;
  free = any-All (λ (x : Hold). is_some x.release) _ (ground arith);
  issued = ground arith;
  decided = ground arith;
  reconciled = any-All is_confirmed _ (ground arith);
  revoked = λ b. ground arith;
}

safety_blockers-nil :
    (r : VaultRecord) (d : VaultData) (now : ℕ) (rest : List Blocker)
    → safety_blockers r d now rest ≡ []
    → IsErasable r d now × (rest ≡ [])
unfolding safety_blockers
safety_blockers-nil r d now rest h =
    let jobs = jobs_of r.id d in
    let n =
      pushes-nil (not (is_retention_valid r (retention_deadline r d)))
        (is_retention_valid r (retention_deadline r d) && ltb now (retention_deadline r d))
        (ltb now r.created_at) (is_held (controls r.id d)) (is_pending r.state)
        (is_in_review r.state) (any (λ job. not (is_confirmed job)) jobs)
        (is_blocked r.state && not (any is_confirmed jobs)) rest h in
    (erasable r d now n.0, n.1)

last-All :
    (P : DeletionRequest → Type 0) (qs : List DeletionRequest) {q : DeletionRequest}
    → All P qs
    → last qs ≡ some q
    → P q
last-All P [] h e = absurd (ground arith)
last-All P (x ∷ []) {q} h e = subst P (ground arith) h.0
last-All P (x ∷ y ∷ rest) h e = last-All P (y ∷ rest) h.1 e

controls-IsApproved :
    (id : String) (d : VaultData) → IsSound d → All IsTwoPerson (controls id d).requests
controls-IsApproved id d v = found (lookup id d.retention) refl
  where
    found :
        (o : Option RetentionControls)
        → lookup id d.retention ≡ o
        → All IsTwoPerson (controls_or_none o).requests
    found none e = tt
    found (some c) e = v.approved id c e

request_blockers-nil :
    (run : Runtime) (r : VaultRecord) (d : VaultData) (now : ℕ) (q : DeletionRequest)
    → IsSound d
    → last (controls r.id d).requests ≡ some q
    → request_blockers run r d now (some q) ≡ []
    → (a : Approval) × IsAgreed run r d now q a
request_blockers-nil run r d now q v requested h = with_approval q.approval refl
  where
    persons : IsTwoPerson q
    persons =
        last-All IsTwoPerson (controls r.id d).requests (controls-IsApproved r.id d v) requested

    with_approval :
        (o : Option Approval) → q.approval ≡ o → (a : Approval) × IsAgreed run r d now q a
    with_approval none e = absurd (ground arith)
    with_approval (some a) e = (
      a,
      record {
        requested = requested;
        approved = e;
        other = (persons a e).0;
        ordered = (persons a e).1;
        past = ground arith;
        current = ground (arith, str_eq_iff q.fingerprint (deletion_fingerprint run r d));
      },
    )

-- Erasing changes neither the controls nor the jobs.
pub Erasing-same :
    {run : Runtime} {now : ℕ} {d e : VaultData}
    → Erasing run now d e
    → (e.retention ≡ d.retention) × (e.revocations ≡ d.revocations)
Erasing-same Erasing.nothing = (refl, refl)
Erasing-same (erasing s r q stored free requested) = Erasing-same s

deletion_blockers-same :
    (run : Runtime) (r : VaultRecord) (now : ℕ) (d e : VaultData)
    → e.retention ≡ d.retention
    → e.revocations ≡ d.revocations
    → deletion_blockers run r e now ≡ deletion_blockers run r d now
unfolding deletion_blockers safety_blockers retention_deadline deletion_fingerprint
deletion_blockers-same run r now d e c j =
    λ i. deletion_blockers run r (record e { retention = c i; revocations = j i }) now

-- What is needed to erase the record.
abbrev pub MayErase : Runtime → VaultRecord → VaultData → ℕ → Type 0
MayErase run r d now =
    IsErasable r d now × ((q : DeletionRequest) × (a : Approval) × IsAgreed run r d now q a)

deletion_blockers-MayErase :
    (run : Runtime) (r : VaultRecord) (d : VaultData) (now : ℕ) (q : DeletionRequest)
    → IsSound d
    → last (controls r.id d).requests ≡ some q
    → deletion_blockers run r d now ≡ []
    → MayErase run r d now
unfolding deletion_blockers
deletion_blockers-MayErase run r d now q v requested h =
    let (safe, rest) = safety_blockers-nil r d now _ h in
    let (a, agreed) =
      request_blockers-nil run r d now q v requested
        (subst (λ o. request_blockers run r d now o ≡ []) requested rest) in
    (safe, (q, a, agreed))

Erasing-MayErase :
    {run : Runtime} {now : ℕ} {d e : VaultData} (id : String) (r : VaultRecord)
    → IsSound d
    → Erasing run now d e
    → lookup id d.records ≡ some r
    → lookup id e.records ≡ none
    → MayErase run r d now
Erasing-MayErase id r v Erasing.nothing found gone = absurd (ground arith)
Erasing-MayErase {run} {now} {d} id r v (erasing {e} s t q stored free requested) found gone =
    elim (Bool-cases (str_eq t.id id)) [
      | inl y ↦
          let same = Erasing-same s in
          let this : t ≡ r = ground (arith, str_eq_iff t.id id) in
          subst (λ x. MayErase run x d now) this
            (deletion_blockers-MayErase run t d now q v
              (subst (λ m. last (controls_or_none (lookup t.id m)).requests ≡ some q) same.0
                requested)
              (sym (deletion_blockers-same run t now d e same.0 same.1) ∙ free))
      | inr n ↦ Erasing-MayErase id r v s found (ground (arith, lookup-remove t.id id e.records))
    ]

pub Queues-records : {run : Runtime} {d e : VaultData} → Queues run d e → e.records ≡ d.records
Queues-records Queues.nothing = refl
Queues-records (queue q r now free new) = Queues-records q

-- Only erasing takes a record away.
Change-MayErase :
    {run : Runtime} {call : VaultCall} {d e : VaultData} (id : String) (r : VaultRecord)
    → IsSound d
    → Change run call d e
    → lookup id d.records ≡ some r
    → lookup id e.records ≡ none
    → (now : ℕ) × Removes now call × MayErase run r d now
Change-MayErase id r v keeps found gone = absurd (ground arith)
Change-MayErase {d = d} id r v (adds s new free) found gone =
    absurd (ground (arith, lookup-insert s.id id s d.records))
Change-MayErase {d = d} id r v (moves j s t at' m q) found gone =
    absurd (ground (arith, lookup-insert j id t d.records, ap (lookup id) (Queues-records q)))
Change-MayErase id r v (manages j c m) found gone = absurd (ground arith)
Change-MayErase id r v (delivers j a b at' m) found gone = absurd (ground arith)
Change-MayErase id r v (recovers q) found gone =
    absurd (ground (arith, ap (lookup id) (Queues-records q)))
Change-MayErase id r v (removes now c s) found gone = (now, c, Erasing-MayErase id r v s found gone)

module _ (run : Runtime) where
  -- Where a call of the vault takes a record away, it is `erase` or `purgeExpired`, at a time at which
  -- retention is over, no hold is open, the record is neither pending nor in review, all its
  -- revocations are confirmed, with at least one if it is blocked, and the last deletion request was
  -- made for the record as it is and approved by another operator, before that time and not before the
  -- request.
  pub mutate-MayErase :
      {d e : VaultData}
      → VaultRun run d
      → (call : VaultCall) → mutate run call d ≡ ok e
      → (id : String) (r : VaultRecord) → lookup id d.records ≡ some r
      → lookup id e.records ≡ none
      → (now : ℕ) × Removes now call × MayErase run r d now
  mutate-MayErase {d} ran call h id r found gone =
      let v = VaultRun-IsSound run ran in
      let (f, c, e) = mutate-Change run call d v.keyed v.unique h in
      Change-MayErase id r v c found (rw e at gone)
