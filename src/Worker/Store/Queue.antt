-- ===== src/Worker/Store/Queue.antt =====
-- worker/store.ts: the order of `pending`, in which `jobsReadyForDispatch` hands out the jobs.
use proofmark.Prelude.{
  String, Bool, true, false, not, ◌&&◌, ◌≡◌, refl, ◌∙◌, inl, inr, Option, none, some, arith,
  Bool-cases, str_eq, str_eq_iff, str_eq_refl, List, [], ◌∷◌, any, filter,
}
use mathlib.Core.List.{Perm}
use proofmark.Prelude.Dict.{Dict, lookup, values, AllEntries-lookup}
use proofmark.Prelude.Sorting.{sort, sort-perm, sort-IsSorted, sort-any, IsSorted}
use proofmark.Worker.Job.{Job, RelayEnvelope, StoreData, is_finished}
use proofmark.Worker.Store.{relay_matches_job}
use proofmark.Worker.Store.Jobs.{owns_relay, pending}
use proofmark.Worker.Store.Invariant.{IsKeyed, IsWellFormed}

abbrev unfinished : Dict Job → List Job
unfinished m = filter (λ (j : Job). not (is_finished j.state)) (values m)

abbrev behind : Option RelayEnvelope → Job → Job → Bool
behind r a b = owns_relay r b && not (owns_relay r a)

-- A job that the table has and that is not finished is among the unfinished jobs.
unfinished-any :
    (p : Job → Bool) (m : Dict Job) (k : String) (j : Job)
    → lookup k m ≡ some j
    → is_finished j.state ≡ false
    → p j ≡ true
    → any p (unfinished m) ≡ true
unfolding lookup values filter
unfinished-any p [] k j e f h = absurd (ground arith)
unfinished-any p ((i, w) ∷ m) k j e f h = elim (Bool-cases (str_eq i k)) [
  | inl hit ↦ let q : w ≡ j = ground arith in rw (q, f, h) refl
  | inr miss ↦ ground (arith, unfinished-any p m k j (rw miss at e) f h)
]

-- In an order that puts the owner first, a list with an owner starts with one.
owner_first :
    (r : Option RelayEnvelope) (js : List Job)
    → IsSorted (behind r) js
    → any (owns_relay r) js ≡ true
    → (j : Job) × (rest : List Job) × (js ≡ j ∷ rest) × (owns_relay r j ≡ true)
owner_first r [] s h = absurd (ground arith)
owner_first r (j ∷ []) s h = (j, [], refl, ground arith)
owner_first r (j ∷ i ∷ rest) s h = elim (Bool-cases (owns_relay r j)) [
  | inl own ↦ (j, i ∷ rest, refl, own)
  | inr other ↦
      let (k, tail, e, own) = owner_first r (i ∷ rest) s.1 (rw other at h) in
      let q : i ≡ k = ground arith in absurd (ground (arith, s.0, rw (← q) at own))
]

matched_job :
    (relay : RelayEnvelope) (o : Option Job)
    → relay_matches_job relay o ≡ true
    → (j : Job) × (o ≡ some j) × (is_finished j.state ≡ false)
matched_job relay none h = absurd (ground arith)
matched_job relay (some j) h = (j, refl, ground arith)

owns_relay-eq :
    (relay : RelayEnvelope) (j : Job)
    → j.tx_hash ≡ relay.source_tx_hash
    → owns_relay (some relay) j ≡ true
unfolding owns_relay
owns_relay-eq relay j e = rw e (str_eq_refl relay.source_tx_hash)

owns_relay-true :
    (relay : RelayEnvelope) (j : Job)
    → owns_relay (some relay) j ≡ true
    → j.tx_hash ≡ relay.source_tx_hash
unfolding owns_relay
owns_relay-true relay j h = (str_eq_iff _ _).0 h

-- The list starts with the job of the relay, if one is open.
abbrev pub StartsWith : Option RelayEnvelope → List Job → Type 0
StartsWith none js = Unit
StartsWith (some relay) js =
    (j : Job) × (rest : List Job) × (js ≡ j ∷ rest) × (j.tx_hash ≡ relay.source_tx_hash)

pending-StartsWith :
    (d : StoreData) (o : Option RelayEnvelope)
    → IsWellFormed d
    → d.relay ≡ o
    → StartsWith o (pending d)
unfolding pending
pending-StartsWith d none v e = tt
pending-StartsWith d (some relay) v e =
    let (job, found, going) = matched_job relay _ (rw e at v.matched) in
    let own = owns_relay-eq relay job (AllEntries-lookup IsKeyed _ d.jobs v.keyed found) in
    let among = unfinished-any (owns_relay (some relay)) d.jobs _ job found going own in
    let (j, rest, q, owner) =
      owner_first (some relay) (sort (behind (some relay)) (unfinished d.jobs))
        (sort-IsSorted (behind (some relay)) (λ x y h. ground arith) (unfinished d.jobs))
        (sort-any (behind (some relay)) (owns_relay (some relay)) (unfinished d.jobs) ∙ among) in
    (j, rest, rw e q, owns_relay-true relay j owner)

-- In a sound store `pending` lists all jobs that are not finished and no other, each as often as the
-- table has it; and if a relay is open its job, which holds the signer's nonce, comes first.
pub pending-first :
    (d : StoreData)
    → IsWellFormed d
    → Perm (pending d) (filter (λ (j : Job). not (is_finished j.state)) (values d.jobs))
      × StartsWith d.relay (pending d)
unfolding pending
pending-first d v =
    (sort-perm (behind d.relay) (unfinished d.jobs), pending-StartsWith d d.relay v refl)
