-- ===== src/Worker/Store/JobSafety.antt =====
-- worker/store.ts: the methods on jobs and on the relay keep the invariant of the persisted data.
use proofmark.Prelude.{
  ℕ, String, true, false, ◌≡◌, refl, sym, ap, ◌⊎◌, inl, inr, Option, none, some, arith, Bool-cases,
  ltb, str_eq, str_eq_iff, str_eq_refl, ok, returns, after,
}
use mathlib.Core.Path.{subst}
use proofmark.Prelude.Dict.{
  Dict, lookup, insert, lookup-insert, lookup-insert_self, insert-IsUnique, AllEntries,
  AllEntries-insert, AllEntries-lookup,
}
use proofmark.Worker.Job.{
  Job, JobPatch, RelayEnvelope, RelayReceipt, StoreData, JobState, is_finished, is_submitted,
}
use proofmark.Worker.Store.{
  relay_matches_job, relay_is_consistent, assert_source_ready, assert_hub_ready,
}
use proofmark.Worker.Store.Jobs.{
  reserve_relay, finish_relay, set_cursor, add, update, assign, no_relay, pending_job, present,
  reserved, open_relay, add_to, drops_relay, update_job, patched,
}
use proofmark.Worker.Store.Anchors.{SameChain}
use proofmark.Worker.Store.Invariant.{
  IsKeyed, IsWellFormed, Commits, kept, committed, commits-Commits, insert_new-IsWellFormed,
}

pub present-eq_ok : (o : Option Job) {j : Job} → present o ≡ ok j → o ≡ some j
present-eq_ok none h = cc
present-eq_ok (some j) h = ground arith

pub pending_job-eq_ok :
    (o : Option Job) {j : Job} → pending_job o ≡ ok j → (o ≡ some j) × (is_finished j.state ≡ false)
pending_job-eq_ok none h = absurd (ground arith)
pending_job-eq_ok (some j) {j = j'} h = elim (Bool-cases (is_finished j.state)) [
  | inl e ↦ absurd (ground arith)
  | inr e ↦
      let q : j ≡ j' = ground arith in (ap some q, subst (λ x. is_finished x.state ≡ false) q e)
]

reserved_matches :
    (relay : RelayEnvelope) (now : ℕ) (job target : Job) (m : Dict Job)
    → AllEntries IsKeyed m
    → lookup relay.source_tx_hash m ≡ some job
    → relay_is_consistent (some relay) (insert job.tx_hash (reserved relay now target) m) ≡ true
reserved_matches relay now job target m keyed e =
    rw (AllEntries-lookup IsKeyed _ m keyed e, lookup-insert_self)
      (ground (arith, str_eq_refl relay.hash, str_eq_refl relay.query_id))

pub reserve_relay-IsWellFormed :
    (relay : RelayEnvelope) (now : ℕ) (d : StoreData)
    → IsWellFormed d
    → Commits IsWellFormed (reserve_relay relay now d)
unfolding reserve_relay
reserve_relay-IsWellFormed relay now d v = commits-Commits (
    after (assert_source_ready d) λ _ _. after (assert_hub_ready d) λ _ _.
      after (no_relay d.relay) λ _ _.
        after (pending_job (lookup relay.source_tx_hash d.jobs)) λ job found.
          after (present (lookup job.tx_hash d.jobs)) λ target there. returns (record {
            versioned = v.versioned;
            unique = insert-IsUnique _ _ _ v.unique;
            keyed =
                AllEntries-insert IsKeyed _ _ _
                  (AllEntries-lookup IsKeyed job.tx_hash d.jobs v.keyed (present-eq_ok _ there))
                  v.keyed;
            matched =
                reserved_matches relay now job target d.jobs v.keyed (pending_job-eq_ok _ found).0;
          }))

pub finish_relay-IsWellFormed :
    (hash : String) (receipt : RelayReceipt) (now : ℕ) (d : StoreData)
    → IsWellFormed d
    → Commits IsWellFormed (finish_relay hash receipt now d)
unfolding finish_relay
finish_relay-IsWellFormed hash receipt now d v = commits-Commits (
    after (assert_hub_ready d) λ _ _. after (open_relay d.relay hash) λ relay _.
      after (present (lookup relay.source_tx_hash d.jobs)) λ job there. returns (record {
        versioned = v.versioned;
        unique = insert-IsUnique _ _ _ v.unique;
        keyed =
            AllEntries-insert IsKeyed _ _ _
              (AllEntries-lookup IsKeyed _ d.jobs v.keyed (present-eq_ok _ there)) v.keyed;
        matched = refl;
      }))

pub set_cursor-IsWellFormed :
    (block : ℕ) (d : StoreData) → IsWellFormed d → Commits IsWellFormed (set_cursor block d)
unfolding set_cursor
set_cursor-IsWellFormed block d v = elim (Bool-cases (ltb block d.cursor)) [
  | inl e ↦ rw e kept
  | inr e ↦ rw e (committed assumption)
]

add_to-IsWellFormed :
    (o : Option Job) (job : Job) (now : ℕ) (d : StoreData)
    → o ≡ lookup job.tx_hash d.jobs
    → IsWellFormed d
    → Commits IsWellFormed (add_to o job now d)
add_to-IsWellFormed (some known) job now d e v = kept
add_to-IsWellFormed none job now d e v = committed (insert_new-IsWellFormed d _ (sym e) v)

pub add-IsWellFormed :
    (job : Job) (now : ℕ) (d : StoreData) → IsWellFormed d → Commits IsWellFormed (add job now d)
unfolding add
add-IsWellFormed job now d v = add_to-IsWellFormed (lookup job.tx_hash d.jobs) job now d refl v

-- The patches that the worker writes: they keep the job's hash and its relay hash, and name a query
-- only while no relay is open.
pub record IsSafePatch (d : StoreData) (p : JobPatch) : Type 0 where
  pub same_hash : p.tx_hash ≡ none
  pub same_relay : p.asc_tx_hash ≡ none
  pub same_query : (p.query_id ≡ none) ⊎ (d.relay ≡ none)

kept_state :
    (relay : RelayEnvelope) (tx : String) (o : Option JobState) (old : JobState)
    → str_eq relay.source_tx_hash tx ≡ true
    → drops_relay (some relay) tx o ≡ false
    → is_submitted old ≡ true
    → is_submitted (patched o old) ≡ true
kept_state relay tx none old same drop h = h
kept_state relay tx (some new) old same drop h = ground arith

assign_matches :
    (relay : RelayEnvelope) (tx : String) (p : JobPatch) (now : ℕ) (j : Job)
    → p.asc_tx_hash ≡ none
    → p.query_id ≡ none
    → str_eq relay.source_tx_hash tx ≡ true
    → drops_relay (some relay) tx p.state ≡ false
    → relay_matches_job relay (some j) ≡ true
    → relay_matches_job relay (some (assign p now j)) ≡ true
unfolding assign
assign_matches relay tx p now j a q same drop c =
    rw (a, q) (ground (arith, kept_state relay tx p.state j.state same drop))

assigned_matches :
    (relay : RelayEnvelope) (tx : String) (p : JobPatch) (now : ℕ) (j : Job) (m : Dict Job)
    → p.asc_tx_hash ≡ none
    → p.query_id ≡ none
    → drops_relay (some relay) tx p.state ≡ false
    → lookup tx m ≡ some j
    → relay_is_consistent (some relay) m ≡ true
    → relay_is_consistent (some relay) (insert tx (assign p now j) m) ≡ true
assigned_matches relay tx p now j m a q drop e c =
    rw (lookup-insert tx relay.source_tx_hash (assign p now j) m)
      (elim (Bool-cases (str_eq tx relay.source_tx_hash)) [
        | inl same ↦
            let k : tx ≡ relay.source_tx_hash = (str_eq_iff _ _).0 same in
            rw same (
              assign_matches relay tx p now j a q ((str_eq_iff _ _).1 (sym k)) drop
                (rw (← k, e) at c))
        | inr other ↦ rw other c
      ])

update_job-matched :
    (r : Option RelayEnvelope) (tx : String) (p : JobPatch) (now : ℕ) (j : Job) (m : Dict Job)
    → p.asc_tx_hash ≡ none
    → (p.query_id ≡ none) ⊎ (r ≡ none)
    → drops_relay r tx p.state ≡ false
    → lookup tx m ≡ some j
    → relay_is_consistent r m ≡ true
    → relay_is_consistent r (insert tx (assign p now j) m) ≡ true
update_job-matched none tx p now j m a q drop e c = refl
update_job-matched (some relay) tx p now j m a (inl q) drop e c =
    assigned_matches relay tx p now j m a q drop e c
update_job-matched (some relay) tx p now j m a (inr q) drop e c = absurd (ground arith)

update_job-IsWellFormed :
    (o : Option Job) (tx : String) (p : JobPatch) (now : ℕ) (d : StoreData)
    → o ≡ lookup tx d.jobs
    → drops_relay d.relay tx p.state ≡ false
    → IsSafePatch d p
    → IsWellFormed d
    → Commits IsWellFormed (update_job o tx p now d)
unfolding assign
update_job-IsWellFormed none tx p now d e drop safe v = kept
update_job-IsWellFormed (some j) tx p now d e drop safe v = committed (record {
  versioned = v.versioned;
  unique = insert-IsUnique _ _ _ v.unique;
  keyed =
      AllEntries-insert IsKeyed tx (assign p now j) d.jobs
        (rw safe.same_hash (AllEntries-lookup IsKeyed tx d.jobs v.keyed (sym e))) v.keyed;
  matched =
      update_job-matched d.relay tx p now j d.jobs safe.same_relay safe.same_query drop (sym e)
        v.matched;
})

pub update-IsWellFormed :
    (tx : String) (p : JobPatch) (now : ℕ) (d : StoreData)
    → IsSafePatch d p
    → IsWellFormed d
    → Commits IsWellFormed (update tx p now d)
unfolding update
update-IsWellFormed tx p now d safe v = elim (Bool-cases (drops_relay d.relay tx p.state)) [
  | inl e ↦ rw e kept
  | inr e ↦ rw e (update_job-IsWellFormed _ tx p now d refl e safe v)
]

pub reserve_relay-SameChain :
    (relay : RelayEnvelope) (now : ℕ) (d : StoreData)
    → Commits (SameChain d) (reserve_relay relay now d)
unfolding reserve_relay
reserve_relay-SameChain relay now d = commits-Commits (
    after (assert_source_ready d) λ _ _. after (assert_hub_ready d) λ _ _.
      after (no_relay d.relay) λ _ _.
        after (pending_job (lookup relay.source_tx_hash d.jobs))
          λ job _. after (present (lookup job.tx_hash d.jobs)) λ _ _. returns (refl, refl))

pub finish_relay-SameChain :
    (hash : String) (receipt : RelayReceipt) (now : ℕ) (d : StoreData)
    → Commits (SameChain d) (finish_relay hash receipt now d)
unfolding finish_relay
finish_relay-SameChain hash receipt now d = commits-Commits (
    after (assert_hub_ready d) λ _ _.
      after (open_relay d.relay hash)
        λ relay _. after (present (lookup relay.source_tx_hash d.jobs)) λ _ _. returns (refl, refl))

update_job-SameChain :
    (o : Option Job) (tx : String) (p : JobPatch) (now : ℕ) (d : StoreData)
    → Commits (SameChain d) (update_job o tx p now d)
update_job-SameChain none tx p now d = kept
update_job-SameChain (some j) tx p now d = committed (refl, refl)

pub update-SameChain :
    (tx : String) (p : JobPatch) (now : ℕ) (d : StoreData)
    → Commits (SameChain d) (update tx p now d)
unfolding update
update-SameChain tx p now d = elim (Bool-cases (drops_relay d.relay tx p.state)) [
  | inl e ↦ rw e kept
  | inr e ↦ rw e (update_job-SameChain (lookup tx d.jobs) tx p now d)
]
