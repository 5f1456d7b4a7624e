-- ===== src/Bank/Answers.antt =====
-- pipeline/bank-state.ts: the life of one challenge, from its reservation to its last attempt.
use proofmark.Prelude.{
  ℕ, suc, ◌+◌, ◌<◌, String, Bool, true, false, ◌≡◌, refl, ◌∙◌, ◌⊎◌, inl, inr, Option, none, some,
  List, [], ◌∷◌, ltb, leb, if◌then◌else◌, arith, str_eq, str_eq_refl, opt_eq_refl, any, All, length,
  ok, throw, Bool-cases, is_some,
}
use proofmark.Prelude.Dict.{Dict, lookup, lookup-insert, lookup-insert_self}
use proofmark.Bank.{
  ready, locked, BankReservation, Challenge, BankRecord, Budget, BankStore, reserved, activated,
  verified, max_attempts, lifetime_ms, flow_budget, starts, purge, is_spent, current_of, spend,
  spend_all, set_current_of, set_current, new_record, start, reserve_at, repeated, reserve,
  current_in, current, activate_record, activate, try_answer, verify_record, verify, set_record,
}

abbrev pub challenge_of : BankReservation → Challenge
challenge_of input = record {
  request_key = input.request_key;
  flow_key = input.flow_key;
  challenge_id = input.challenge_id;
}

-- Wrong answers, at the given times.
unfoldable pub guesses : Challenge → List ℕ → BankStore → BankStore
guesses input [] s = s
guesses input (now ∷ times) s = guesses input times (verify input false now s).0

-- The record of the challenge is `r`, and it is the current one of its flow.
record IsHeld (input : BankReservation) (r : BankRecord) (s : BankStore) : Type 0 where
  found : lookup input.request_key s.records ≡ some r
  own : r.input ≡ input
  latest : current_of input.flow_key s.budgets ≡ some input.challenge_id

IsHeld-current :
    (input : BankReservation) (r : BankRecord) (s : BankStore) (now : ℕ)
    → IsHeld input r s
    → now < r.expires_at
    → current (challenge_of input) now s ≡ ok r
unfolding current
IsHeld-current input r s now h soon =
    rw
      (
        h.found,
        h.own,
        str_eq_refl input.challenge_id,
        current_in,
        h.latest,
        opt_eq_refl (some input.challenge_id),
      )
      (ground arith)

IsHeld-set_record :
    (input : BankReservation) (r q : BankRecord) (s : BankStore)
    → IsHeld input r s
    → q.input ≡ r.input
    → IsHeld input q (set_record (challenge_of input) q s)
IsHeld-set_record input r q s h same = record {
  found = lookup-insert_self input.request_key q s.records;
  own = same ∙ h.own;
  latest = h.latest;
}

kept_budget :
    (now : ℕ) (key j : String) (budgets : Dict Budget)
    → is_some (lookup j budgets) ≡ true
    → is_some (lookup j (spend now key budgets)) ≡ true
unfolding spend
kept_budget now key j budgets h =
    rw (lookup-insert key j _ budgets)
      (elim (Bool-cases (str_eq key j)) [ inl e ↦ rw e refl | inr e ↦ rw e h ])

kept_budgets :
    (now : ℕ) (j : String) (keys : List (String × ℕ)) (budgets : Dict Budget)
    → is_some (lookup j budgets) ≡ true
    → is_some (lookup j (spend_all now keys budgets)) ≡ true
unfolding spend_all
kept_budgets now j [] budgets h = h
kept_budgets now j ((key, limit) ∷ keys) budgets h =
    kept_budgets now j keys (spend now key budgets) (kept_budget now key j budgets h)

new_budget :
    (now : ℕ) (key : String) (budgets : Dict Budget)
    → is_some (lookup key (spend now key budgets)) ≡ true
unfolding spend
new_budget now key budgets = rw (lookup-insert_self key _ budgets) refl

abbrev tail : List (String × ℕ) → List (String × ℕ)
tail [] = []
tail (key ∷ keys) = keys

current-set_current_of :
    (flow id : String) (budgets : Dict Budget) (found : Option Budget)
    → is_some found ≡ true
    → current_of flow (set_current_of (flow_budget flow) id budgets found) ≡ some id
current-set_current_of flow id budgets none h = absurd (ground arith)
current-set_current_of flow id budgets (some b) h =
    rw (current_of, lookup-insert_self (flow_budget flow) (record b { current = some id }) budgets)
      refl

-- What a reservation that is granted leaves.
start-IsHeld :
    (input : BankReservation) (now : ℕ) (s : BankStore) {expires : ℕ}
    → (start input now s).1 ≡ ok (reserved expires)
    → IsHeld input (new_record input now) (start input now s).0 × (expires ≡ now + lifetime_ms)
unfolding start spend_all set_current
start-IsHeld input now s h = elim (Bool-cases (any (is_spent s.budgets) (starts input))) [
  | inl spent ↦ absurd (ground (arith, rw spent at h))
  | inr free ↦ rw free (
    record {
      found = lookup-insert_self input.request_key _ s.records;
      own = refl;
      latest = current-set_current_of input.flow_key input.challenge_id _ _ (
          kept_budgets now (flow_budget input.flow_key) (tail (starts input)) _
            (new_budget now (flow_budget input.flow_key) s.budgets));
    },
    ground (arith, rw free at h),
  )
]

repeated-unreserved :
    (input : BankReservation) (now : ℕ) (budgets : Dict Budget) (old : BankRecord) {expires : ℕ}
    → ¬ (repeated input now budgets old ≡ ok (reserved expires))
unfolding repeated
repeated-unreserved input now budgets old h = ground arith

reserve-IsHeld :
    (input : BankReservation) (now : ℕ) (s : BankStore) {expires : ℕ}
    → (reserve input now s).1 ≡ ok (reserved expires)
    → IsHeld input (new_record input now) (reserve input now s).0 × (expires ≡ now + lifetime_ms)
unfolding reserve
reserve-IsHeld input now s {expires} =
    at_found (purge now s) (lookup input.request_key (purge now s).records)
  where
    at_found :
        (kept : BankStore) (o : Option BankRecord)
        → (reserve_at input now kept o).1 ≡ ok (reserved expires)
        → IsHeld input (new_record input now) (reserve_at input now kept o).0
          × (expires ≡ now + lifetime_ms)
    at_found kept none h = start-IsHeld input now kept h
    at_found kept (some old) h = absurd (repeated-unreserved input now kept.budgets old h)

abbrev ready_record : BankReservation → String → ℕ → ℕ → BankRecord
ready_record input response now n = record (new_record input now) {
  state = ready;
  response = some response;
  attempts = n;
}

activated-IsHeld :
    (input : BankReservation) (response : String) (now later : ℕ) (s : BankStore)
    → IsHeld input (new_record input now) s
    → later < now + lifetime_ms
    → IsHeld input
        (ready_record input response now 0)
        (activate (challenge_of input) response later s).0
      × ((activate (challenge_of input) response later s).1 ≡ ok activated)
unfolding activate activate_record
activated-IsHeld input response now later s h soon =
    rw (IsHeld-current input (new_record input now) s later h soon) (
      IsHeld-set_record input (new_record input now) (ready_record input response now 0) s h refl,
      refl,
    )

abbrev locked_record : BankReservation → ℕ → BankRecord
locked_record input now = record (new_record input now) { state = locked; attempts = max_attempts }

-- The record after `n` wrong answers: ready or locked, by whether attempts are left.
abbrev stage : BankReservation → String → ℕ → ℕ → Bool → BankRecord
stage input response now n true = ready_record input response now n
stage input response now n false = locked_record input now

add_zero : (n : ℕ) → n + 0 ≡ n
add_zero n = omega arith

zero_add : (n : ℕ) → 0 + n ≡ n
zero_add n = omega arith

add_one_more : (n m : ℕ) → n + suc m ≡ n + 1 + m
add_one_more n m = omega arith

module _ (input : BankReservation) (response : String) (now : ℕ) where
  unfoldable IsAt : ℕ → BankStore → Type 0
  IsAt n s =
      (left : Bool) → ltb n max_attempts ≡ left → IsHeld input (stage input response now n left) s

  guess-IsAt :
      (n later : ℕ) (s : BankStore)
      → IsAt n s
      → later < now + lifetime_ms
      → IsAt (n + 1) (verify (challenge_of input) false later s).0
  unfolding IsAt verify verify_record try_answer
  guess-IsAt n later s h soon = guessed (Bool-cases (ltb n max_attempts))
    where
      guessed :
          (ltb n max_attempts ≡ true) ⊎ (ltb n max_attempts ≡ false)
          → IsAt (n + 1) (verify (challenge_of input) false later s).0
      guessed (inl few) true more =
          let now_held = h true few in
          let more' : leb max_attempts (n + 1) ≡ false = ground arith in
          rw (IsHeld-current input (ready_record input response now n) s later now_held soon, more')
            (IsHeld-set_record input _ (ready_record input response now (n + 1)) s now_held refl)
      guessed (inl few) false last =
          let now_held = h true few in
          let last' : leb max_attempts (n + 1) ≡ true = ground arith in
          let all_used : n + 1 ≡ max_attempts = ground arith in
          rw
            (
              IsHeld-current input (ready_record input response now n) s later now_held soon,
              last',
              all_used,
            )
            (IsHeld-set_record input _ (locked_record input now) s now_held refl)
      guessed (inr none_left) true more = absurd (ground arith)
      guessed (inr none_left) false last =
          let now_held = h false none_left in
          rw (IsHeld-current input (locked_record input now) s later now_held soon) now_held

  guesses-IsAt :
      (n : ℕ) (times : List ℕ) (s : BankStore)
      → IsAt n s
      → All (λ t. t < now + lifetime_ms) times
      → IsAt (n + length times) (guesses (challenge_of input) times s)
  unfolding guesses
  guesses-IsAt n [] s h soon = rw (add_zero n) h
  guesses-IsAt n (t ∷ times) s h soon =
      rw (add_one_more n (length times))
        (guesses-IsAt (n + 1) times _ (guess-IsAt n t s h soon.0) soon.1)

  verify-IsAt :
      (n later : ℕ) (s : BankStore)
      → IsAt n s
      → later < now + lifetime_ms
      → (verify (challenge_of input) true later s).1
        ≡ (if ltb n max_attempts then ok verified else throw "TOO_MANY_ATTEMPTS")
  unfolding IsAt verify verify_record try_answer
  verify-IsAt n later s h soon = elim (Bool-cases (ltb n max_attempts)) [
    | inl few ↦
        rw (few, IsHeld-current input (ready_record input response now n) s later (h true few) soon)
          refl
    | inr none_left ↦
        rw
          (
            none_left,
            IsHeld-current input (locked_record input now) s later (h false none_left) soon,
          )
          refl
  ]

-- Where no call comes between but those named: a granted reservation can be activated until it expires,
-- and then the right token is verified after at most four wrong ones, and refused as locked after five or
-- more, all before it expires.
pub reserve-verify :
    (input : BankReservation) (now expires : ℕ) (s : BankStore)
    → (reserve input now s).1 ≡ ok (reserved expires)
    → (response : String) (at : ℕ) → at < expires
    → (times : List ℕ) → All (λ t. t < expires) times
    → (later : ℕ) → later < expires
    → ((activate (challenge_of input) response at (reserve input now s).0).1 ≡ ok activated)
      × ((verify (challenge_of input) true later (
            guesses
              (challenge_of input)
              times
              (activate (challenge_of input) response at (reserve input now s).0).0)).1
          ≡ (if ltb (length times) max_attempts then ok verified else throw "TOO_MANY_ATTEMPTS"))
unfolding IsAt
reserve-verify input now expires s granted response at soon times early later late =
    let start = reserve-IsHeld input now s granted in
    let until : expires ≡ now + lifetime_ms = start.1 in
    let live = activated-IsHeld input response now at _ start.0 (omega (arith, soon, until)) in
    (
      live.1,
      rw (zero_add (length times)) at (
          verify-IsAt input response now (0 + length times) later _
            (guesses-IsAt input response now 0 times _ (λ left e. first left e live.0)
              (rw until at early))
            (omega (arith, late, until))),
    )
  where
    first :
        (left : Bool)
        → ltb 0 max_attempts ≡ left
        → {t : BankStore} → IsHeld input (ready_record input response now 0) t
        → IsHeld input (stage input response now 0 left) t
    first true e h = h
    first false e h = absurd (ground arith)
