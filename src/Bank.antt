-- ===== src/Bank.antt =====
-- pipeline/bank-state.ts: the class `DemoBankStateStore`, which keeps the challenges of bank
-- verification and the budgets of their starts. A method changes the store even when it throws, so it
-- gives the new store with its result. The time, `this.now()`, is an argument.
pub mod Sound
pub mod Once
pub mod Answers
pub mod Tests
use Prim.Native.Char.{Char}
use proofmark.Prelude.{
  ℕ, ◌+◌, ◌-◌, String, Bool, true, false, not, ◌&&◌, ◌||◌, Option, none, some, List, [], ◌∷◌, ltb,
  leb, if◌then◌else◌, opt_eq, str_eq, any, filter, Result, ok, throw,
}
use proofmark.Prelude.Dict.{Dict, lookup, insert}

pub data ChallengeState : Type 0 where
  pending ready consumed locked : ChallengeState

pub record BankReservation : Type 0 where
  pub request_key : String
  pub flow_key : String
  pub account_key : String
  pub wallet_key : String
  pub fingerprint : String
  pub challenge_id : String

-- `Pick<BankReservation, 'requestKey' | 'flowKey' | 'challengeId'>`
pub record Challenge : Type 0 where
  pub request_key : String
  pub flow_key : String
  pub challenge_id : String

pub record BankRecord : Type 0 where
  pub input : BankReservation
  pub state : ChallengeState
  pub expires_at : ℕ
  pub delete_at : ℕ
  pub attempts : ℕ
  pub response : Option String

pub record Budget : Type 0 where
  pub count : ℕ
  pub expires_at : ℕ
  pub current : Option String

pub record BankStore : Type 0 where
  pub records : Dict BankRecord
  pub budgets : Dict Budget

-- What a method returns: the types `ReserveResult` and `VerifyResult`, and nothing for `activate`.
pub data Answer : Type 0 where
  reserved : ℕ → Answer
  cached : Option String → Answer
  activated : Answer
  verified : Answer
  mismatch : ℕ → Answer

-- `BANK_LIMITS`
abbrev pub max_attempts : ℕ
max_attempts = 5

abbrev pub lifetime_ms : ℕ
lifetime_ms = 600000

abbrev pub budget_ms : ℕ
budget_ms = 86400000

abbrev pub is_ready : ChallengeState → Bool
is_ready ready = true
is_ready _ = false

abbrev pub is_pending : ChallengeState → Bool
is_pending pending = true
is_pending _ = false

abbrev pub is_locked : ChallengeState → Bool
is_locked locked = true
is_locked _ = false

-- `${c}:${key}`
abbrev pub prefixed : Char → String → String
prefixed c key = String.◌∷◌ c (String.◌∷◌ ":" key)

abbrev pub flow_budget : String → String
flow_budget = prefixed "f"

-- The keys of the budgets that a start draws on, with their limits.
abbrev pub starts : BankReservation → List (String × ℕ)
starts input =
    (flow_budget input.flow_key, 3)
    ∷ (prefixed "a" input.account_key, 3)
    ∷ (prefixed "w" input.wallet_key, 5)
    ∷ ("global", 1000)
    ∷ []

-- The two loops that delete what has run out.
unfoldable pub purge : ℕ → BankStore → BankStore
purge now s = record {
  records = filter (λ e. ltb now e.1.delete_at) s.records;
  budgets = filter (λ e. ltb now e.1.expires_at) s.budgets;
}

-- `this.budgets.get(`f:${flowKey}`)?.current`
abbrev pub current_of : String → Dict Budget → Option String
current_of flow_key budgets = elim (lookup (flow_budget flow_key) budgets) [
  | none ↦ none
  | some b ↦ b.current
]

-- `this.budgets.get(key)?.count ?? 0`
abbrev pub count_of : String → Dict Budget → ℕ
count_of key budgets = elim (lookup key budgets) [ none ↦ 0 | some b ↦ b.count ]

unfoldable pub is_spent : Dict Budget → String × ℕ → Bool
is_spent budgets (key, limit) = leb limit (count_of key budgets)

-- The request key is in use.
unfoldable pub repeated : BankReservation → ℕ → Dict Budget → BankRecord → Result Answer
repeated input now budgets old =
    if not (str_eq old.input.fingerprint input.fingerprint)
    then throw "CONFLICT"
    else if is_ready old.state
        && ltb now old.expires_at
        && opt_eq (current_of input.flow_key budgets) (some old.input.challenge_id)
    then ok (cached old.response)
    else throw (if is_pending old.state then "START_PENDING" else "CHALLENGE_UNAVAILABLE")

abbrev pub prior : ℕ → Option Budget → Budget
prior now none = record { count = 0; expires_at = now + budget_ms; current = none }
prior now (some b) = b

-- `prior.count++; this.budgets.set(key, prior)`
unfoldable pub spend : ℕ → String → Dict Budget → Dict Budget
spend now key budgets =
    let b = prior now (lookup key budgets) in insert key (record b { count = b.count + 1 }) budgets

unfoldable pub spend_all : ℕ → List (String × ℕ) → Dict Budget → Dict Budget
unfolding spend
spend_all now [] budgets = budgets
spend_all now ((key, limit) ∷ keys) budgets = spend_all now keys (spend now key budgets)

-- `this.budgets.get(keys[0])!.current = input.challengeId`
abbrev pub set_current_of : String → String → Dict Budget → Option Budget → Dict Budget
set_current_of key id budgets none = budgets
set_current_of key id budgets (some b) = insert key (record b { current = some id }) budgets

unfoldable pub set_current : String → String → Dict Budget → Dict Budget
set_current key id budgets = set_current_of key id budgets (lookup key budgets)

abbrev pub new_record : BankReservation → ℕ → BankRecord
new_record input now = record {
  input = input;
  state = pending;
  expires_at = now + lifetime_ms;
  delete_at = now + budget_ms;
  attempts = 0;
  response = none;
}

-- The end of `reserve`, where the request key is new.
unfoldable pub start : BankReservation → ℕ → BankStore → BankStore × Result Answer
unfolding is_spent spend_all set_current
start input now s =
    if any (is_spent s.budgets) (starts input) then (s, throw "START_BUDGET_EXCEEDED") else (
      record {
        records = insert input.request_key (new_record input now) s.records;
        budgets =
            set_current (flow_budget input.flow_key) input.challenge_id
              (spend_all now (starts input) s.budgets);
      },
      ok (reserved (now + lifetime_ms)),
    )

abbrev pub reserve_at :
    BankReservation → ℕ → BankStore → Option BankRecord → BankStore × Result Answer
reserve_at input now s (some old) = (s, repeated input now s.budgets old)
reserve_at input now s none = start input now s

unfoldable pub reserve : BankReservation → ℕ → BankStore → BankStore × Result Answer
unfolding purge repeated start
reserve input now s =
    let kept = purge now s in reserve_at input now kept (lookup input.request_key kept.records)

abbrev pub current_in : Challenge → ℕ → Dict Budget → Option BankRecord → Result BankRecord
current_in input now budgets none = throw "CHALLENGE_UNAVAILABLE"
current_in input now budgets (some r) =
    if not (str_eq r.input.challenge_id input.challenge_id)
      || not (opt_eq (current_of input.flow_key budgets) (some input.challenge_id))
    then throw "CHALLENGE_UNAVAILABLE"
    else if leb r.expires_at now
    then throw "CHALLENGE_EXPIRED"
    else ok r

unfoldable pub current : Challenge → ℕ → BankStore → Result BankRecord
current input now s = current_in input now s.budgets (lookup input.request_key s.records)

-- The record is an object that the map holds, so a change of it is a change of the map.
abbrev pub set_record : Challenge → BankRecord → BankStore → BankStore
set_record input r s = record s { records = insert input.request_key r s.records }

-- A method on the current record.
abbrev pub on_current :
    BankStore
    → (BankRecord → BankStore × Result Answer)
    → Result BankRecord
    → BankStore × Result Answer
on_current s body (throw e) = (s, throw e)
on_current s body (ok r) = body r

unfoldable pub activate_record :
    Challenge → String → BankStore → BankRecord → BankStore × Result Answer
activate_record input response s r =
    if not (is_pending r.state)
    then (s, throw "CHALLENGE_UNAVAILABLE")
    else (set_record input (record r { state = ready; response = some response }) s, ok activated)

unfoldable pub activate : Challenge → String → ℕ → BankStore → BankStore × Result Answer
unfolding current activate_record
activate input response now s =
    on_current s (activate_record input response s) (current input now s)

-- The end of `verify`, on a record that is ready.
unfoldable pub try_answer : Challenge → Bool → BankStore → BankRecord → BankStore × Result Answer
try_answer input true s r =
    (set_record input (record r { state = consumed; response = none }) s, ok verified)
try_answer input false s r =
    if leb max_attempts (r.attempts + 1)
    then (
      set_record input (record r { attempts = r.attempts + 1; state = locked; response = none }) s,
      throw "TOO_MANY_ATTEMPTS",
    )
    else (
      set_record input (record r { attempts = r.attempts + 1 }) s,
      ok (mismatch (max_attempts - (r.attempts + 1))),
    )

unfoldable pub verify_record : Challenge → Bool → BankStore → BankRecord → BankStore × Result Answer
unfolding try_answer
verify_record input matches s r =
    if is_locked r.state
    then (s, throw "TOO_MANY_ATTEMPTS")
    else if not (is_ready r.state)
    then (s, throw "CHALLENGE_UNAVAILABLE")
    else try_answer input matches s r

unfoldable pub verify : Challenge → Bool → ℕ → BankStore → BankStore × Result Answer
unfolding current verify_record
verify input matches now s = on_current s (verify_record input matches s) (current input now s)
