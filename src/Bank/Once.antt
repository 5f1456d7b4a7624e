-- ===== src/Bank/Once.antt =====
-- pipeline/bank-state.ts: a challenge is verified at most once.
use proofmark.Prelude.{
  ℕ, ◌+◌, String, Bool, true, false, ◌≡◌, refl, ◌≢◌, inl, inr, Option, none, some, leb, arith, any,
  Result, ok, throw, Bool-cases,
}
use proofmark.Prelude.Dict.{lookup, lookup-insert_ne, lookup-insert_self, lookup-filter}
use proofmark.Bank.{
  ChallengeState, consumed, locked, BankReservation, Challenge, BankRecord, BankStore, Answer,
  reserved, verified, is_ready, is_pending, is_locked, max_attempts, purge, is_spent, starts, start,
  reserve_at, reserve, current, on_current, activate_record, activate, try_answer, verify_record,
  verify, set_record,
}
use proofmark.Bank.Sound.{
  BankCall, reserves, activates, verifies, call_bank, BankRun, called, IsSound, BankRun-IsSound,
  current-lookup,
}

abbrev is_over : ChallengeState → Bool
is_over consumed = true
is_over locked = true
is_over _ = false

-- No record under the request key can be verified any more.
abbrev IsClosed : String → BankStore → Type 0
IsClosed key s = (r : BankRecord) → lookup key s.records ≡ some r → is_over r.state ≡ true

-- The call starts a new challenge under the request key.
pub data Renews (key : String) : BankCall → Result Answer → Type 0 where
  renews :
      {input : BankReservation} {expires : ℕ}
      → input.request_key ≡ key
      → Renews key (reserves input) (ok (reserved expires))

-- The stores that calls lead to while none of them renews the request key.
pub data Later (key : String) (s : BankStore) : BankStore → Type 0 where
  here : Later key s s
  continues :
      {t : BankStore}
      → Later key s t
      → (call : BankCall) (now : ℕ) → ¬ Renews key call (call_bank call now t).1
      → Later key s (call_bank call now t).0

purge-IsClosed :
    (key : String) (now : ℕ) (s : BankStore)
    → IsSound s
    → IsClosed key s
    → IsClosed key (purge now s)
unfolding purge
purge-IsClosed key now s h c r e = c r (lookup-filter key _ s.records h.unique e)

start-IsClosed :
    (key : String) (input : BankReservation) (now : ℕ) (s : BankStore)
    → IsClosed key s
    → ¬ Renews key (reserves input) (start input now s).1
    → IsClosed key (start input now s).0
unfolding start
start-IsClosed key input now s c n = elim (Bool-cases (any (is_spent s.budgets) (starts input))) [
  | inl spent ↦ rw spent c
  | inr free ↦ rw free λ r e. c r (
      rw (lookup-insert_ne input.request_key key _ s.records (λ q. (rw free at n) (renews q))) at e)
]

reserve-IsClosed :
    (key : String) (input : BankReservation) (now : ℕ) (s : BankStore)
    → IsSound s
    → IsClosed key s
    → ¬ Renews key (reserves input) (reserve input now s).1
    → IsClosed key (reserve input now s).0
unfolding reserve
reserve-IsClosed key input now s h c n =
    at_found (purge now s) (lookup input.request_key (purge now s).records)
      (purge-IsClosed key now s h c) n
  where
    at_found :
        (kept : BankStore) (o : Option BankRecord)
        → IsClosed key kept
        → ¬ Renews key (reserves input) (reserve_at input now kept o).1
        → IsClosed key (reserve_at input now kept o).0
    at_found kept none c n = start-IsClosed key input now kept c n
    at_found kept (some old) c n = c

-- A record that is not over stands under another key, so its change is not seen.
set_record-IsClosed :
    (key : String) (input : Challenge) (r q : BankRecord) (s : BankStore)
    → lookup input.request_key s.records ≡ some q
    → is_over q.state ≡ false
    → IsClosed key s
    → IsClosed key (set_record input r s)
set_record-IsClosed key input r q s found live c p e =
    let other : input.request_key ≢ key = λ same. absurd (ground (arith, c q (rw same at found))) in
    c p (rw (lookup-insert_ne input.request_key key r s.records other) at e)

on_current-IsClosed :
    (key : String) (input : Challenge) (now : ℕ) (s : BankStore)
    (body : BankRecord → BankStore × Result Answer)
    → ((r : BankRecord) → lookup input.request_key s.records ≡ some r → IsClosed key (body r).0)
    → IsClosed key s
    → IsClosed key (on_current s body (current input now s)).0
on_current-IsClosed key input now s body keeps c = ended (current input now s) refl
  where
    ended : (a : Result BankRecord) → current input now s ≡ a → IsClosed key (on_current s body a).0
    ended (throw e) q = c
    ended (ok r) q = keeps r (current-lookup input now s q)

activate_record-IsClosed :
    (key : String) (input : Challenge) (response : String) (s : BankStore) (r : BankRecord)
    → lookup input.request_key s.records ≡ some r
    → IsClosed key s
    → IsClosed key (activate_record input response s r).0
unfolding activate_record
activate_record-IsClosed key input response s r found c = elim (Bool-cases (is_pending r.state)) [
  | inl e ↦ rw e (set_record-IsClosed key input _ r s found (ground arith) c)
  | inr e ↦ rw e c
]

try_answer-IsClosed :
    (key : String) (input : Challenge) (matches : Bool) (s : BankStore) (r : BankRecord)
    → lookup input.request_key s.records ≡ some r
    → is_over r.state ≡ false
    → IsClosed key s
    → IsClosed key (try_answer input matches s r).0
unfolding try_answer
try_answer-IsClosed key input true s r found live c =
    set_record-IsClosed key input _ r s found live c
try_answer-IsClosed key input false s r found live c =
    elim (Bool-cases (leb max_attempts (r.attempts + 1))) [
      | inl last ↦ rw last (set_record-IsClosed key input _ r s found live c)
      | inr more ↦ rw more (set_record-IsClosed key input _ r s found live c)
    ]

ready-live : (c : ChallengeState) → is_ready c ≡ true → is_over c ≡ false
ready-live c h = ground arith

verify_record-IsClosed :
    (key : String) (input : Challenge) (matches : Bool) (s : BankStore) (r : BankRecord)
    → lookup input.request_key s.records ≡ some r
    → IsClosed key s
    → IsClosed key (verify_record input matches s r).0
unfolding verify_record
verify_record-IsClosed key input matches s r found c = elim (Bool-cases (is_locked r.state)) [
  | inl e ↦ rw e c
  | inr e ↦ elim (Bool-cases (is_ready r.state)) [
    | inl y ↦ rw (e, y) (try_answer-IsClosed key input matches s r found (ready-live r.state y) c)
    | inr n ↦ rw (e, n) c
  ]
]

call_bank-IsClosed :
    (key : String) (call : BankCall) (now : ℕ) (s : BankStore)
    → IsSound s
    → IsClosed key s
    → ¬ Renews key call (call_bank call now s).1
    → IsClosed key (call_bank call now s).0
unfolding call_bank activate verify
call_bank-IsClosed key (reserves input) now s h c n = reserve-IsClosed key input now s h c n
call_bank-IsClosed key (activates input response) now s h c n =
    on_current-IsClosed key input now s _
      (λ r found. activate_record-IsClosed key input response s r found c) c
call_bank-IsClosed key (verifies input matches) now s h c n =
    on_current-IsClosed key input now s _
      (λ r found. verify_record-IsClosed key input matches s r found c) c

Later-BankRun : {key : String} {s t : BankStore} → BankRun s → Later key s t → BankRun t
Later-BankRun run here = run
Later-BankRun run (continues later call now n) = called (Later-BankRun run later) call now

Later-IsClosed :
    {key : String} {s t : BankStore} → BankRun s → IsClosed key s → Later key s t → IsClosed key t
Later-IsClosed run c here = c
Later-IsClosed {key} run c (continues {t} later call now n) =
    call_bank-IsClosed key call now t (BankRun-IsSound (Later-BankRun run later))
      (Later-IsClosed run c later) n

-- A challenge that is over is not verified.
closed-unverified :
    (input : Challenge) (matches : Bool) (now : ℕ) (s : BankStore)
    → IsClosed input.request_key s
    → (verify input matches now s).1 ≢ ok verified
unfolding verify verify_record try_answer
closed-unverified input matches now s c = ended (current input now s) refl
  where
    ended :
        (a : Result BankRecord)
        → current input now s ≡ a
        → (on_current s (verify_record input matches s) a).1 ≢ ok verified
    ended (throw e) q h = absurd (ground arith)
    ended (ok r) q h = let over = c r (current-lookup input now s q) in absurd (ground arith)

abbrev used : BankRecord → BankRecord
used r = record r { state = consumed; response = none }

verify_record-used :
    (input : Challenge) (matches : Bool) (s : BankStore) (r : BankRecord)
    → (verify_record input matches s r).1 ≡ ok verified
    → (verify_record input matches s r).0 ≡ set_record input (used r) s
unfolding verify_record try_answer
verify_record-used input true s r h = ground arith
verify_record-used input false s r h = absurd (ground arith)

-- Where `verify` returned "verified", the record is consumed.
verified-IsClosed :
    (input : Challenge) (matches : Bool) (now : ℕ) (s : BankStore)
    → (verify input matches now s).1 ≡ ok verified
    → IsClosed input.request_key (verify input matches now s).0
unfolding verify
verified-IsClosed input matches now s = ended (current input now s)
  where
    ended :
        (a : Result BankRecord)
        → (on_current s (verify_record input matches s) a).1 ≡ ok verified
        → IsClosed input.request_key (on_current s (verify_record input matches s) a).0
    ended (throw e) h = absurd (ground arith)
    ended (ok r) h =
        rw (verify_record-used input matches s r h)
          λ q e. ground (arith, lookup-insert_self input.request_key (used r) s.records)

-- After a challenge was verified, no call verifies a challenge of the same request key, whatever calls
-- come between at whatever times, unless one of them reserved the request key anew.
pub verify-once :
    {s t : BankStore}
    → BankRun s
    → (input : Challenge) (matches : Bool) (now : ℕ) → (verify input matches now s).1 ≡ ok verified
    → Later input.request_key (verify input matches now s).0 t
    → (other : Challenge) (again : Bool) (later : ℕ) → other.request_key ≡ input.request_key
    → (verify other again later t).1 ≢ ok verified
unfolding call_bank
verify-once {s} run input matches now h after other again later same =
    closed-unverified other again later _ (
      rw same (
        Later-IsClosed (called run (verifies input matches) now)
          (verified-IsClosed input matches now s h) after))
