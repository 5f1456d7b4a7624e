-- ===== src/Bank/Sound.antt =====
-- pipeline/bank-state.ts: what holds of the store after any calls, at any times.
use Prim.Native.Char.{code}
use proofmark.Prelude.{
  ℕ, ◌+◌, ◌≤◌, ◌<◌, String, Bool, true, false, ◌≡◌, refl, ap, ◌≢◌, inl, inr, Option, none, some,
  List, [], ◌∷◌, leb, ◌==◌, if◌then◌else◌, arith, any, All, Result, ok, throw, is_some, Bool-cases,
}
use proofmark.Prelude.Dict.{
  Dict, lookup, AllEntries, AllEntries-insert, AllEntries-lookup, AllEntries-filter, IsUnique,
  filter-IsUnique, insert-IsUnique, lookup-insert_ne,
}
use proofmark.Bank.{
  ChallengeState, BankReservation, Challenge, BankRecord, Budget, BankStore, Answer, max_attempts,
  is_ready, is_locked, starts, count_of, purge, is_spent, prior, spend, spend_all, set_current_of,
  reserve_at, current_in, on_current, is_pending, start, reserve, current, activate_record,
  activate, verify_record, try_answer, verify, set_record,
}

pub data BankCall : Type 0 where
  reserves : BankReservation → BankCall
  activates : Challenge → String → BankCall
  verifies : Challenge → Bool → BankCall

unfoldable pub call_bank : BankCall → ℕ → BankStore → BankStore × Result Answer
call_bank (reserves input) now s = reserve input now s
call_bank (activates input response) now s = activate input response now s
call_bank (verifies input matches) now s = verify input matches now s

-- A record stands under its own key, is locked exactly when the attempts are used up, and keeps a
-- response exactly while it is ready.
pub record IsRecordSound (key : String) (r : BankRecord) : Type 0 where
  pub keyed : r.input.request_key ≡ key
  pub counted : r.attempts ≤ max_attempts
  pub locks : is_locked r.state ≡ leb max_attempts r.attempts
  pub answers : is_some r.response ≡ is_ready r.state

-- The limit of a budget, by the first letter of its key.
abbrev pub limit_of : String → ℕ
limit_of (String.◌∷◌ c key) = if code c == b'w' then 5 else if code c == b'g' then 1000 else 3
limit_of String.[] = 0

pub record IsSound (s : BankStore) : Type 0 where
  pub unique : IsUnique s.records
  pub records : AllEntries IsRecordSound s.records
  pub budgets : AllEntries (λ key b. b.count ≤ limit_of key) s.budgets

empty-IsSound : IsSound (record { records = []; budgets = [] })
empty-IsSound = record { unique = tt; records = tt; budgets = tt }

purge-IsSound : (now : ℕ) (s : BankStore) → IsSound s → IsSound (purge now s)
unfolding purge
purge-IsSound now s h = record {
  unique = filter-IsUnique _ s.records h.unique;
  records = AllEntries-filter IsRecordSound _ s.records h.records;
  budgets = AllEntries-filter (λ key b. b.count ≤ limit_of key) _ s.budgets h.budgets;
}

-- No two keys of the list are the same.
abbrev Apart : List (String × ℕ) → Type 0
Apart [] = Unit
Apart ((key, limit) ∷ keys) = All (λ e. key ≢ e.0) keys × Apart keys

-- Each key of the list has the limit that stands with it, and is not spent.
abbrev Free : Dict Budget → String × ℕ → Type 0
Free budgets e = (limit_of e.0 ≡ e.1) × (count_of e.0 budgets < e.1)

Free-spend :
    (now : ℕ) (key : String) (budgets : Dict Budget) (keys : List (String × ℕ))
    → All (λ e. key ≢ e.0) keys
    → All (Free budgets) keys
    → All (Free (spend now key budgets)) keys
unfolding spend
Free-spend now key budgets [] apart free = tt
Free-spend now key budgets ((k, limit) ∷ keys) apart free = (
  (
    free.0.0,
    rw
        (
          count_of,
          lookup-insert_ne key k
              (record (prior now (lookup key budgets)) {
                count = (prior now (lookup key budgets)).count + 1;
              })
              budgets apart.0,
        )
        free.0.1,
  ),
  Free-spend now key budgets keys apart.1 free.1,
)

one_more :
    (now : ℕ) (key : String) (limit : ℕ) (found : Option Budget)
    → (limit_of key ≡ limit) × (elim found [ none ↦ 0 | some b ↦ b.count ] < limit)
    → (prior now found).count + 1 ≤ limit_of key
one_more now key limit none free = omega (arith, free.0, free.1)
one_more now key limit (some b) free = omega (arith, free.0, free.1)

spend-within :
    (now : ℕ) (key : String) (limit : ℕ) (budgets : Dict Budget)
    → Free budgets (key, limit)
    → AllEntries (λ k b. b.count ≤ limit_of k) budgets
    → AllEntries (λ k b. b.count ≤ limit_of k) (spend now key budgets)
unfolding spend
spend-within now key limit budgets free h =
    AllEntries-insert (λ k b. b.count ≤ limit_of k) key _ budgets
      (one_more now key limit (lookup key budgets) free) h

spend_all-within :
    (now : ℕ) (keys : List (String × ℕ)) (budgets : Dict Budget)
    → Apart keys
    → All (Free budgets) keys
    → AllEntries (λ k b. b.count ≤ limit_of k) budgets
    → AllEntries (λ k b. b.count ≤ limit_of k) (spend_all now keys budgets)
unfolding spend_all
spend_all-within now [] budgets apart free h = h
spend_all-within now ((key, limit) ∷ keys) budgets apart free h =
    spend_all-within now keys (spend now key budgets) apart.1
      (Free-spend now key budgets keys apart.0 free.1) (spend-within now key limit budgets free.0 h)

set_current_of-within :
    (key id : String) (budgets : Dict Budget) (found : Option Budget)
    → AllEntries (λ k b. b.count ≤ limit_of k) budgets
    → lookup key budgets ≡ found
    → AllEntries (λ k b. b.count ≤ limit_of k) (set_current_of key id budgets found)
set_current_of-within key id budgets none h e = h
set_current_of-within key id budgets (some b) h e =
    AllEntries-insert (λ k b. b.count ≤ limit_of k) key _ budgets
      (AllEntries-lookup (λ k b. b.count ≤ limit_of k) key budgets h e) h

abbrev head_code : String → ℕ
head_code (String.◌∷◌ c key) = code c
head_code String.[] = 0

starts-Apart : (input : BankReservation) → Apart (starts input)
starts-Apart input =
    let differ : (a b : String) → head_code a ≢ head_code b → a ≢ b =
      λ a b n e. n (ap head_code e) in
    (
      (differ _ _ (omega arith), (differ _ _ (omega arith), (differ _ _ (omega arith), tt))),
      (
        (differ _ _ (omega arith), (differ _ _ (omega arith), tt)),
        ((differ _ _ (omega arith), tt), (tt, tt)),
      ),
    )

unspent-Free :
    (budgets : Dict Budget) (keys : List (String × ℕ))
    → All (λ e. limit_of e.0 ≡ e.1) keys
    → any (is_spent budgets) keys ≡ false
    → All (Free budgets) keys
unfolding is_spent
unspent-Free budgets [] limits h = tt
unspent-Free budgets ((key, limit) ∷ keys) limits h =
    ((limits.0, ground arith), unspent-Free budgets keys limits.1 (ground arith))

start-IsSound :
    (input : BankReservation) (now : ℕ) (s : BankStore) → IsSound s → IsSound (start input now s).0
unfolding start
start-IsSound input now s h = elim (Bool-cases (any (is_spent s.budgets) (starts input))) [
  | inl spent ↦ rw spent h
  | inr unspent ↦ rw unspent (record {
    unique = insert-IsUnique input.request_key _ s.records h.unique;
    records =
        AllEntries-insert IsRecordSound input.request_key _ s.records
          (record { keyed = refl; counted = omega arith; locks = refl; answers = refl }) h.records;
    budgets =
        set_current_of-within _ input.challenge_id _ _
          (spend_all-within now (starts input) s.budgets (starts-Apart input)
            (unspent-Free s.budgets (starts input) (refl, (refl, (refl, (refl, tt)))) unspent)
            h.budgets)
          refl;
  })
]

reserve-IsSound :
    (input : BankReservation) (now : ℕ) (s : BankStore)
    → IsSound s
    → IsSound (reserve input now s).0
unfolding reserve
reserve-IsSound input now s h =
    at_found (purge now s) (purge-IsSound now s h) (lookup input.request_key (purge now s).records)
  where
    at_found :
        (kept : BankStore)
        → IsSound kept
        → (o : Option BankRecord) → IsSound (reserve_at input now kept o).0
    at_found kept k none = start-IsSound input now kept k
    at_found kept k (some old) = k

set_record-IsSound :
    (input : Challenge) (r : BankRecord) (s : BankStore)
    → IsRecordSound input.request_key r
    → IsSound s
    → IsSound (set_record input r s)
set_record-IsSound input r s sound h = record {
  unique = insert-IsUnique input.request_key r s.records h.unique;
  records = AllEntries-insert IsRecordSound input.request_key r s.records sound h.records;
  budgets = h.budgets;
}

-- What `current` returns is the record that stands under the request key.
pub current-lookup :
    (input : Challenge) (now : ℕ) (s : BankStore) {r : BankRecord}
    → current input now s ≡ ok r
    → lookup input.request_key s.records ≡ some r
unfolding current
current-lookup input now s {r} h = found (lookup input.request_key s.records) h
  where
    found : (o : Option BankRecord) → current_in input now s.budgets o ≡ ok r → o ≡ some r
    found none e = absurd (ground arith)
    found (some q) e = ground arith

-- A method on the current record keeps the store sound if it does on every sound record.
on_current-IsSound :
    (input : Challenge) (now : ℕ) (s : BankStore) (body : BankRecord → BankStore × Result Answer)
    → ((r : BankRecord) → IsRecordSound input.request_key r → IsSound (body r).0)
    → IsSound s
    → IsSound (on_current s body (current input now s)).0
on_current-IsSound input now s body keeps h = ended (current input now s) refl
  where
    ended : (c : Result BankRecord) → current input now s ≡ c → IsSound (on_current s body c).0
    ended (throw e) q = h
    ended (ok r) q = keeps r (
        AllEntries-lookup IsRecordSound input.request_key s.records h.records
          (current-lookup input now s q))

-- A record that is not locked has attempts left.
attempts_left :
    (key : String) (r : BankRecord)
    → IsRecordSound key r
    → is_locked r.state ≡ false
    → r.attempts < max_attempts
attempts_left key r k e = ground (arith, k.locks)

pending-unlocked : (c : ChallengeState) → is_pending c ≡ true → is_locked c ≡ false
pending-unlocked c h = ground arith

activate_record-IsSound :
    (input : Challenge) (response : String) (s : BankStore) (r : BankRecord)
    → IsRecordSound input.request_key r
    → IsSound s
    → IsSound (activate_record input response s r).0
unfolding activate_record
activate_record-IsSound input response s r k h = elim (Bool-cases (is_pending r.state)) [
  | inl e ↦
      let left = attempts_left _ r k (pending-unlocked r.state e) in
      rw e (
        set_record-IsSound input _ s
          (record { keyed = k.keyed; counted = k.counted; locks = ground arith; answers = refl }) h)
  | inr e ↦ rw e h
]

try_answer-IsSound :
    (input : Challenge) (matches : Bool) (s : BankStore) (r : BankRecord)
    → IsRecordSound input.request_key r
    → is_locked r.state ≡ false
    → IsSound s
    → IsSound (try_answer input matches s r).0
unfolding try_answer
try_answer-IsSound input true s r k e h =
    let left = attempts_left _ r k e in
    set_record-IsSound input _ s
      (record { keyed = k.keyed; counted = k.counted; locks = ground arith; answers = refl }) h
try_answer-IsSound input false s r k e h =
    let left = attempts_left _ r k e in
    elim (Bool-cases (leb max_attempts (r.attempts + 1))) [
      | inl last ↦ rw last (
          set_record-IsSound input _ s
            (record {
              keyed = k.keyed;
              counted = omega arith;
              locks = ground arith;
              answers = refl;
            })
            h)
      | inr more ↦ rw more (
          set_record-IsSound input _ s
            (record {
              keyed = k.keyed;
              counted = omega arith;
              locks = rw more e;
              answers = k.answers;
            })
            h)
    ]

verify_record-IsSound :
    (input : Challenge) (matches : Bool) (s : BankStore) (r : BankRecord)
    → IsRecordSound input.request_key r
    → IsSound s
    → IsSound (verify_record input matches s r).0
unfolding verify_record
verify_record-IsSound input matches s r k h = elim (Bool-cases (is_locked r.state)) [
  | inl e ↦ rw e h
  | inr e ↦ elim (Bool-cases (is_ready r.state)) [
    | inl y ↦ rw (e, y) (try_answer-IsSound input matches s r k e h)
    | inr n ↦ rw (e, n) h
  ]
]

call_bank-IsSound :
    (call : BankCall) (now : ℕ) (s : BankStore) → IsSound s → IsSound (call_bank call now s).0
unfolding call_bank activate verify
call_bank-IsSound (reserves input) now s h = reserve-IsSound input now s h
call_bank-IsSound (activates input response) now s h =
    on_current-IsSound input now s _ (λ r k. activate_record-IsSound input response s r k h) h
call_bank-IsSound (verifies input matches) now s h =
    on_current-IsSound input now s _ (λ r k. verify_record-IsSound input matches s r k h) h

-- The stores that calls lead to, from an empty one, at any times.
pub data BankRun : BankStore → Type 0 where
  opened : BankRun (record { records = []; budgets = [] })
  called :
      {s : BankStore} → BankRun s → (call : BankCall) (now : ℕ) → BankRun (call_bank call now s).0

-- After any calls at any times every record has at most five attempts, is locked exactly at five, and
-- keeps a response exactly while it is ready, and no budget exceeds its limit.
pub BankRun-IsSound : {s : BankStore} → BankRun s → IsSound s
BankRun-IsSound opened = empty-IsSound
BankRun-IsSound (called {s} run call now) = call_bank-IsSound call now s (BankRun-IsSound run)
