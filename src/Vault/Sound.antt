-- ===== src/Vault/Sound.antt =====
-- pipeline/vault.ts: what holds of the data of a vault after any calls.
use proofmark.Prelude.{
  ℕ, String, Bool, true, false, not, ◌||◌, Option, none, some, List, [], ◌∷◌, ◌++◌, ◌≡◌, ◌≢◌, refl,
  sym, ap, ◌∙◌, ◌⊎◌, inl, inr, arith, any, filter, All, str_eq, str_eq_iff, Bool-cases,
}
use mathlib.Core.Path.{subst}
use proofmark.Prelude.Dict.{
  Dict, lookup, IsUnique, insert-IsUnique, remove-IsUnique, insert, remove, values, lookup-insert,
  lookup-remove,
}
use proofmark.Vault.Data.{
  VaultRecord, VaultData, RetentionControls, RevocationJob, Erasure, Runtime, is_confirmed,
}
use proofmark.Vault.Blockers.{controls, set_controls, controls_or_none}
use proofmark.Vault.Outbox.{has_open_job}
use proofmark.Vault.Decisions.{set_record, is_erased}
use proofmark.Vault.Calls.{VaultCall, VaultRun, empty, called}
use proofmark.Vault.Effects.{
  Change, keeps, adds, moves, manages, delivers, recovers, removes, Queues, queue, Erasing, erasing,
  IsTwoPerson, Manages, Delivers,
}
use proofmark.Vault.Changes.{IsKeyed, mutate-Change}

-- No record stands under the id of an erased one.
abbrev pub IsGone : VaultData → Type 0
IsGone d = (id : String) → is_erased id d ≡ true → lookup id d.records ≡ none

abbrev pub IsApproved : VaultData → Type 0
IsApproved d =
    (id : String) (c : RetentionControls)
    → lookup id d.retention ≡ some c
    → All IsTwoPerson c.requests

-- A record has at most one job that is not confirmed.
abbrev pub IsSingle : Dict RevocationJob → Type 0
IsSingle m =
    (i j : String) (a b : RevocationJob)
    → lookup i m ≡ some a
    → lookup j m ≡ some b
    → is_confirmed a ≡ false
    → is_confirmed b ≡ false
    → a.record_id ≡ b.record_id
    → i ≡ j

pub record IsSound (d : VaultData) : Type 0 where
  pub unique : IsUnique d.records
  pub keyed : IsKeyed d
  pub gone : IsGone d
  pub approved : IsApproved d
  pub single : IsSingle d.revocations

-- `insert` seen from a key.
inserted {ℓ} :
    {V : Type ℓ} (k j : String) (v : V) (m : Dict V) {w : V}
    → lookup j (insert k v m) ≡ some w
    → ((k ≡ j) × (v ≡ w)) ⊎ ((k ≢ j) × (lookup j m ≡ some w))
inserted k j v m h = elim (Bool-cases (str_eq k j)) [
  | inl e ↦ inl ((str_eq_iff k j).0 e, ground (arith, lookup-insert k j v m))
  | inr e ↦
      inr ((λ s. absurd (ground (arith, str_eq_iff k j))), ground (arith, lookup-insert k j v m))
]

-- A job that is found, in the list of all jobs.
open-absent :
    (id j : String) (m : Dict RevocationJob) {b : RevocationJob}
    → any (λ job. not (is_confirmed job)) (filter (λ job. str_eq job.record_id id) (values m))
      ≡ false
    → lookup j m ≡ some b
    → is_confirmed b ≡ false
    → b.record_id ≢ id
unfolding values filter lookup
open-absent id j [] h found o same = absurd (ground arith)
open-absent id j ((k, job) ∷ m) {b} h found o same = elim (Bool-cases (str_eq k j)) [
  | inl e ↦ ground (arith, str_eq_iff b.record_id id)
  | inr n ↦ open-absent id j m (fewer h) (rw n at found) o same
]
  where
    fewer :
        any
            (λ x. not (is_confirmed x))
            (filter (λ x. str_eq x.record_id id) (values ((k, job) ∷ m)))
          ≡ false
        → any (λ x. not (is_confirmed x)) (filter (λ x. str_eq x.record_id id) (values m)) ≡ false
    fewer h = ground arith

insert_new-IsSingle :
    (id k : String) (job : RevocationJob) (d : VaultData)
    → job.record_id ≡ id
    → has_open_job id d ≡ false
    → IsSingle d.revocations
    → IsSingle (insert k job d.revocations)
insert_new-IsSingle id k job d own free s i j a b fa fb oa ob same =
    elim (inserted k i job d.revocations fa) [
      | inl (ki, ja) ↦ elim (inserted k j job d.revocations fb) [
        | inl (kj, jb) ↦ sym ki ∙ kj
        | inr (kj, lb) ↦ absurd (open-absent id j d.revocations free lb ob (ground arith))
      ]
      | inr (ki, la) ↦ elim (inserted k j job d.revocations fb) [
        | inl (kj, jb) ↦ absurd (open-absent id i d.revocations free la oa (ground arith))
        | inr (kj, lb) ↦ s i j a b la lb oa ob same
      ]
    ]

insert_old-IsSingle :
    (k : String) (job job' : RevocationJob) (m : Dict RevocationJob)
    → lookup k m ≡ some job
    → Delivers job job'
    → IsSingle m
    → IsSingle (insert k job' m)
insert_old-IsSingle k job job' m found v s i j a b fa fb oa ob same =
    let still : is_confirmed job' ≡ false → is_confirmed job ≡ false = still_open in
    elim (inserted k i job' m fa) [
      | inl (ki, ja) ↦ elim (inserted k j job' m fb) [
        | inl (kj, jb) ↦ sym ki ∙ kj
        | inr (kj, lb) ↦
            sym ki ∙ s k j job b found lb (still (ground arith)) ob (ground (arith, v.same_record))
      ]
      | inr (ki, la) ↦ elim (inserted k j job' m fb) [
        | inl (kj, jb) ↦
            s i k a job la found oa (still (ground arith)) (ground (arith, v.same_record)) ∙ kj
        | inr (kj, lb) ↦ s i j a b la lb oa ob same
      ]
    ]
  where
    still_open : is_confirmed job' ≡ false → is_confirmed job ≡ false
    still_open o = elim (Bool-cases (is_confirmed job)) [
      | inl c ↦ absurd (ground (arith, v.confirmed c))
      | inr n ↦ n
    ]

any-append {ℓ} :
    {A : Type ℓ} (p : A → Bool) (xs ys : List A) → any p (xs ++ ys) ≡ (any p xs || any p ys)
any-append p [] ys = refl
any-append p (x ∷ xs) ys = ground (arith, any-append p xs ys)

set_record-IsGone :
    (id : String) (s : VaultRecord) (d : VaultData)
    → is_erased id d ≡ false
    → IsGone d
    → IsGone (set_record id s d)
set_record-IsGone id s d n g j e =
    ground (arith, lookup-insert id j s d.records, str_eq_iff id j, g j e, n, e)

found-unerased :
    (id : String) (r : VaultRecord) (d : VaultData)
    → lookup id d.records ≡ some r
    → IsGone d
    → is_erased id d ≡ false
found-unerased id r d found g = elim (Bool-cases (is_erased id d)) [
  | inl y ↦ absurd (ground (arith, g id y))
  | inr n ↦ n
]

set_record-IsKeyed :
    (id : String) (s : VaultRecord) (d : VaultData)
    → s.id ≡ id
    → IsKeyed d
    → IsKeyed (set_record id s d)
set_record-IsKeyed id s d i k j r h = elim (inserted id j s d.records h) [
  | inl (e, f) ↦ sym (ap (λ (x : VaultRecord). x.id) f) ∙ i ∙ e
  | inr (e, f) ↦ k j r f
]

module _ (run : Runtime) where
  Queues-IsSound : {d e : VaultData} → Queues run d e → IsSound d → IsSound e
  Queues-IsSound Queues.nothing h = h
  Queues-IsSound (queue {e} q r now free new) h =
      let v = Queues-IsSound q h in
      record {
        unique = v.unique;
        keyed = v.keyed;
        gone = v.gone;
        approved = v.approved;
        single = insert_new-IsSingle r.id (run.revoke_id r.id now) _ e refl free v.single;
      }

  Erasing-IsSound : {now : ℕ} {d e : VaultData} → Erasing run now d e → IsSound d → IsSound e
  Erasing-IsSound Erasing.nothing h = h
  Erasing-IsSound {now} (erasing {e} s r q stored free last') h =
      let v = Erasing-IsSound s h in
      record {
        unique = remove-IsUnique r.id e.records v.unique;
        keyed = λ j t found. v.keyed j t (ground (arith, lookup-remove r.id j e.records));
        gone = λ j erased. gone_after j (v.gone j) erased;
        approved = v.approved;
        single = v.single;
      }
    where
      gone_after :
          (j : String)
          → (is_erased j e ≡ true → lookup j e.records ≡ none)
          → any
              (λ x. str_eq x.record_id j)
              (e.erasures
                ++ record { record_id = r.id; at = now; reason = q.policy_ref; request_id = q.id }
                  ∷ [])
            ≡ true
          → lookup j (remove r.id e.records) ≡ none
      gone_after j g erased = ground (
        arith,
        lookup-remove r.id j e.records,
        any-append (λ (x : Erasure). str_eq x.record_id j) e.erasures
            (record { record_id = r.id; at = now; reason = q.policy_ref; request_id = q.id } ∷ []),
        g,
      )

  set_controls-IsApproved :
      (id : String) (c : RetentionControls) (d : VaultData)
      → Manages (controls id d) c
      → IsApproved d
      → IsApproved (set_controls id c d)
  set_controls-IsApproved id c d m a j x h = elim (inserted id j c d.retention h) [
    | inr (e, f) ↦ a j x f
    | inl (e, f) ↦
        subst (λ y. All IsTwoPerson y.requests) f (m.approved (before (lookup id d.retention) refl))
  ]
    where
      before :
          (o : Option RetentionControls)
          → lookup id d.retention ≡ o
          → All IsTwoPerson (controls_or_none o).requests
      before none eq = tt
      before (some y) eq = a id y eq

  pub Change-IsSound :
      {call : VaultCall} {d e : VaultData} → Change run call d e → IsSound d → IsSound e
  Change-IsSound keeps h = h
  Change-IsSound {d = d} (adds r new free) h = record {
    unique = insert-IsUnique r.id r d.records h.unique;
    keyed = set_record-IsKeyed r.id r d refl h.keyed;
    gone = set_record-IsGone r.id r d free h.gone;
    approved = h.approved;
    single = h.single;
  }
  Change-IsSound {d = d} (moves id r s found m q) h = Queues-IsSound q (record {
    unique = insert-IsUnique id s d.records h.unique;
    keyed = set_record-IsKeyed id s d (m.same_id ∙ h.keyed id r found) h.keyed;
    gone = set_record-IsGone id s d (found-unerased id r d found h.gone) h.gone;
    approved = h.approved;
    single = h.single;
  })
  Change-IsSound {d = d} (manages id c m) h = record {
    unique = h.unique;
    keyed = h.keyed;
    gone = h.gone;
    approved = set_controls-IsApproved id c d m h.approved;
    single = h.single;
  }
  Change-IsSound {d = d} (delivers id job job' found v) h = record {
    unique = h.unique;
    keyed = h.keyed;
    gone = h.gone;
    approved = h.approved;
    single = insert_old-IsSingle id job job' d.revocations found v h.single;
  }
  Change-IsSound (recovers q) h = Queues-IsSound q h
  Change-IsSound (removes now c s) h = Erasing-IsSound s h

  empty-IsSound :
      IsSound
        (record { revision = 0; records = []; erasures = []; revocations = []; retention = [] })
  unfolding lookup
  empty-IsSound = record {
    unique = tt;
    keyed = λ id r h. absurd (ground arith);
    gone = λ id h. refl;
    approved = λ id c h. absurd (ground arith);
    single = λ i j a b h. absurd (ground arith);
  }

  -- After any calls of the vault, each with the data that the last one wrote: the records stand once
  -- each, under their own ids, no record stands under the id of an erased one, an approval of a deletion comes from
  -- another operator than its request and not before it, and a record has at most one revocation job
  -- that is not confirmed.
  pub VaultRun-IsSound : {d : VaultData} → VaultRun run d → IsSound d
  VaultRun-IsSound empty = empty-IsSound
  VaultRun-IsSound (called {d} r call h) =
      let v = VaultRun-IsSound r in
      let (f, c, e) = mutate-Change run call d v.keyed v.unique h in
      let w = Change-IsSound c v in
      rw e (record {
        unique = w.unique;
        keyed = w.keyed;
        gone = w.gone;
        approved = w.approved;
        single = w.single;
      })
