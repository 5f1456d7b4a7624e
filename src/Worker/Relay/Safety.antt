-- ===== src/Worker/Relay/Safety.antt =====
-- worker/relay.ts: the program of `step` broadcasts only the relay that the store has open.
use proofmark.Prelude.{
  String, Bool, ◌&&◌, ◌≡◌, refl, inl, inr, Option, none, some, ◌==◌, Bool-cases, Result, ok, throw,
  require, str_eq, if◌then◌else◌, ◌>>◌,
}
use proofmark.Worker.Job.{RelayReceipt, RelayEnvelope, StoreData}
use proofmark.Worker.Store.{assert_source_ready, assert_hub_ready}
use proofmark.Worker.Store.JobSafety.{IsSafePatch}
use proofmark.Worker.Relay.{
  QueryStatus, QueryObservation, Preparation, Mining, unmined, mined, Program, ends, guards_hub,
  guards_source, observes, prepares, receipts, broadcasts, queries, reads, reserves, finishes,
  updates, proceed, release, confirm, settle, await_receipt, after_broadcast, on_receipt, deliver,
  sign, skip, on_query, fresh, resume, is_success, same_receipt, is_confirmed, throw_if_stopped,
  unprocessed, unconfirmed, confirmed, skip_patch,
}

-- With `o` as the open relay of the store, the program never broadcasts another relay.
abbrev pub Safe : Option RelayEnvelope → Program → Type 0
Safe o (ends r) = Unit
Safe o (guards_hub k) = (a : Result (Unit {0})) → Safe o (k a)
Safe o (guards_source tx k) = (a : Result (Unit {0})) → Safe o (k a)
Safe o (observes q e k) = (a : Result QueryObservation) → Safe o (k a)
Safe o (prepares tx p k) = (a : Result RelayEnvelope) → Safe o (k a)
Safe o (receipts r k) = (a : Result Mining) → Safe o (k a)
Safe o (broadcasts r k) = (o ≡ some r) × ((a : Result (Unit {0})) → Safe o (k a))
Safe o (queries q n k) = (a : Result Bool) → Safe o (k a)
Safe o (reads k) = (stopped : Bool) (d : StoreData) → Safe o (k stopped d)
Safe o (reserves r k) =
    (a : Result (Unit {0})) (o' : Option RelayEnvelope) → (a ≡ ok tt → o' ≡ some r) → Safe o' (k a)
Safe o (finishes h c k) = (a : Result (Unit {0})) (o' : Option RelayEnvelope) → Safe o' (k a)
Safe o (updates tx p k) =
    ((d : StoreData) → d.relay ≡ o → IsSafePatch d p) × ((a : Result (Unit {0})) → Safe o (k a))

proceed-Safe :
    {A : Type 0} (o : Option RelayEnvelope) (r : Result A) (k : A → Program)
    → ((a : A) → Safe o (k a))
    → Safe o (proceed r k)
proceed-Safe o (ok a) k h = h a
proceed-Safe o (throw e) k h = tt

if-Safe :
    (o : Option RelayEnvelope) (b : Bool) (p q : Program)
    → Safe o p
    → Safe o q
    → Safe o (if b then p else q)
if-Safe o b p q x y = elim (Bool-cases b) [ inl e ↦ rw e x | inr e ↦ rw e y ]

release-Safe :
    (o : Option RelayEnvelope) (relay : RelayEnvelope) (receipt : RelayReceipt)
    → Safe o (release relay receipt)
unfolding release
release-Safe o relay receipt r = proceed-Safe o r _ λ final.
    if-Safe o (same_receipt final receipt) _ (ends (ok tt))
      (λ stopped d. proceed-Safe o _ (λ _. finishes relay.hash receipt ends) (λ _ a o'. tt)) tt

confirm-Safe :
    (o : Option RelayEnvelope) (tx : String) (relay : RelayEnvelope) (receipt : RelayReceipt)
    → Safe o (confirm tx relay receipt)
unfolding confirm
confirm-Safe o tx relay receipt g = proceed-Safe o g _ λ _.
    if-Safe o (is_success receipt.status) _ (release relay receipt)
      (λ q. proceed-Safe o q _ λ processed.
        if-Safe o processed (release relay receipt) (ends (throw "ASC_QUERY_NOT_CONFIRMED"))
          (release-Safe o relay receipt) tt)
      (release-Safe o relay receipt)

settle-Safe :
    (o : Option RelayEnvelope) (tx : String) (relay : RelayEnvelope) (m : Mining)
    → Safe o (settle tx relay m)
settle-Safe o tx relay unmined = tt
settle-Safe o tx relay (mined receipt) = confirm-Safe o tx relay receipt

await_receipt-Safe :
    (o : Option RelayEnvelope) (tx : String) (relay : RelayEnvelope)
    → Safe o (await_receipt tx relay)
unfolding await_receipt
await_receipt-Safe o tx relay r = proceed-Safe o r _ λ m. settle-Safe o tx relay m

after_broadcast-Safe :
    (o : Option RelayEnvelope) (tx : String) (relay : RelayEnvelope) (a : Result (Unit {0}))
    → Safe o (after_broadcast tx relay a)
after_broadcast-Safe o tx relay (ok _) = await_receipt-Safe o tx relay
after_broadcast-Safe o tx relay (throw _) = (
  (λ d e. record { same_hash = refl; same_relay = refl; same_query = inl refl }),
  λ u. proceed-Safe o u _ λ _. await_receipt-Safe o tx relay,
)

on_receipt-Safe :
    (tx : String) (relay : RelayEnvelope) (m : Mining) → Safe (some relay) (on_receipt tx relay m)
on_receipt-Safe tx relay unmined = λ g. proceed-Safe (some relay) g _ λ _. λ stopped d.
    proceed-Safe (some relay) (assert_source_ready d)
      (λ _. broadcasts relay (after_broadcast tx relay))
      (λ _. (refl, λ a. after_broadcast-Safe (some relay) tx relay a))
on_receipt-Safe tx relay (mined receipt) = confirm-Safe (some relay) tx relay receipt

deliver-Safe : (tx : String) (relay : RelayEnvelope) → Safe (some relay) (deliver tx relay)
unfolding deliver
deliver-Safe tx relay r = proceed-Safe (some relay) r _ (on_receipt-Safe tx relay)

after_reserve-Safe :
    (tx : String) (relay : RelayEnvelope) (u : Result (Unit {0})) (o' : Option RelayEnvelope)
    → (u ≡ ok tt → o' ≡ some relay)
    → Safe o' (proceed u λ _. deliver tx relay)
after_reserve-Safe tx relay (ok tt) o' h = rw (h refl) (deliver-Safe tx relay)
after_reserve-Safe tx relay (throw e) o' h = tt

sign-Safe : (tx : String) (p : Preparation) → Safe none (sign tx p)
unfolding sign
sign-Safe tx p g = proceed-Safe none g _ λ _ r. proceed-Safe none r _ λ relay.
    proceed-Safe none
      (require
        (str_eq relay.source_tx_hash tx
          && str_eq relay.query_id p.query_id
          && str_eq relay.payload p.payload)
        "RELAY_PREPARATION_CONFLICT")
      _ λ _. λ g'. proceed-Safe none g' _ λ _. λ u o' h. after_reserve-Safe tx relay u o' h

skip-Safe : (tx : String) (p : Preparation) (query : QueryObservation) → Safe none (skip tx p query)
unfolding skip
skip-Safe tx p query g = proceed-Safe none g _ λ _ q. proceed-Safe none q _ λ final.
    if-Safe none
      (is_confirmed final.status
        && final.block_number == query.block_number
        && str_eq final.block_hash query.block_hash)
      _ (ends (ok tt))
      (λ stopped d.
        proceed-Safe none _ (λ _. updates tx (skip_patch p final) ends)
          (λ _.
            ((λ d e. record { same_hash = refl; same_relay = refl; same_query = inr e }), λ a. tt)))
      tt

on_query-Safe :
    (tx : String) (p : Preparation) (query : QueryObservation) (s : QueryStatus)
    → Safe none (on_query tx p query s)
on_query-Safe tx p query unconfirmed = tt
on_query-Safe tx p query confirmed = skip-Safe tx p query
on_query-Safe tx p query unprocessed = sign-Safe tx p

fresh-Safe : (tx : String) (p : Option Preparation) → Safe none (fresh tx p)
fresh-Safe tx none = tt
fresh-Safe tx (some p) = λ g. proceed-Safe none g _ λ _. λ stopped d.
    proceed-Safe none (throw_if_stopped stopped >> assert_hub_ready d) _
      λ _. λ q. proceed-Safe none q _ λ query. on_query-Safe tx p query query.status

pub resume-Safe :
    (tx : String) (p : Option Preparation) (o : Option RelayEnvelope) → Safe o (resume tx p o)
resume-Safe tx p none = fresh-Safe tx p
resume-Safe tx p (some relay) = deliver-Safe tx relay
