-- ===== src/Bank/Tests.antt =====
-- pipeline/bank-state.ts on one challenge, from its reservation to its verification.
use proofmark.Prelude.{
  ◌≡◌, ◌≢◌, refl, arith, true, false, [], ◌∷◌, ok, throw, filter, str_eq, ltb, if◌then◌else◌,
}
use proofmark.Prelude.Dict.{lookup, insert}
use proofmark.Bank.{
  BankReservation, BankStore, reserved, activated, verified, max_attempts, reserve, activate,
  verify, purge, start, repeated, spend, spend_all, set_current, is_spent, current, activate_record,
  verify_record, try_answer,
}
use proofmark.Bank.Sound.{
  BankRun, opened, called, reserves, activates, verifies, call_bank, IsSound, BankRun-IsSound,
}
use proofmark.Bank.Once.{here, verify-once}
use proofmark.Bank.Answers.{challenge_of, guesses, reserve-verify}

abbrev deposit : BankReservation
deposit = record {
  request_key = "request-0001";
  flow_key = "flow-0001";
  account_key = "account-0001";
  wallet_key = "wallet-0001";
  fingerprint = "print";
  challenge_id = "challenge-0001";
}

abbrev no_challenges : BankStore
no_challenges = record { records = []; budgets = [] }

abbrev started : BankStore
started = (call_bank (reserves deposit) 1000 no_challenges).0

abbrev active : BankStore
active = (call_bank (activates (challenge_of deposit) "token") 2000 started).0

abbrev guessed : BankStore
guessed = (call_bank (verifies (challenge_of deposit) false) 3000 active).0

abbrev done : BankStore
done = (verify (challenge_of deposit) true 4000 guessed).0

granted : (reserve deposit 1000 no_challenges).1 ≡ ok (reserved 601000)
unfolding reserve purge start spend_all spend set_current is_spent lookup insert filter str_eq
granted = refl

answers : (verify (challenge_of deposit) true 4000 guessed).1 ≡ ok verified
unfolding call_bank reserve activate verify purge start spend_all spend set_current is_spent lookup
    insert filter str_eq current activate_record verify_record try_answer
answers = refl

-- The second request of the same key is a retry, and finds no token yet.
retried : (reserve deposit 1500 started).1 ≡ throw "START_PENDING"
unfolding call_bank reserve purge start spend_all spend set_current is_spent lookup insert filter
    str_eq repeated
retried = refl

guessed-BankRun : BankRun guessed
guessed-BankRun =
    called
      (called (called opened (reserves deposit) 1000) (activates (challenge_of deposit) "token")
        2000)
      (verifies (challenge_of deposit) false) 3000

BankRun-IsSound_example : IsSound guessed
BankRun-IsSound_example = BankRun-IsSound guessed-BankRun

verify-once_example : (verify (challenge_of deposit) true 5000 done).1 ≢ ok verified
verify-once_example =
    verify-once guessed-BankRun (challenge_of deposit) true 4000 answers here (challenge_of deposit)
      true 5000 refl

reserve-verify_example :
    ((activate (challenge_of deposit) "token" 2000 (reserve deposit 1000 no_challenges).0).1
      ≡ ok activated)
    × ((verify (challenge_of deposit) true 5000 (
          guesses
            (challenge_of deposit)
            (3000 ∷ 4000 ∷ [])
            (activate
              (challenge_of deposit)
              "token"
              2000
              (reserve deposit 1000 no_challenges).0).0)).1
        ≡ (if ltb 2 max_attempts then ok verified else throw "TOO_MANY_ATTEMPTS"))
reserve-verify_example =
    reserve-verify deposit 1000 601000 no_challenges granted "token" 2000 (omega arith)
      (3000 ∷ 4000 ∷ []) (omega arith, (omega arith, tt)) 5000 (omega arith)
