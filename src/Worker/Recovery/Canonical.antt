-- ===== src/Worker/Recovery/Canonical.antt =====
-- worker/recovery.ts: what the hub has answered, and what the history is, where the audit passes.
use proofmark.Prelude.{
  ℕ, suc, ◌+◌, String, Bool, true, false, ◌&&◌, ◌≡◌, refl, inl, inr, Option, none, some, List, [],
  ◌∷◌, ◌==◌, truthy, is_safe_integer, All, Result, ok, throw, arith, Bool-cases,
}
use mathlib.Core.Path.{subst, ap, ◌∙◌}
use proofmark.Prelude.Text.{Text}
use proofmark.Worker.Job.{Job, RelayRecord, success, reverted, RelayStatus}
use proofmark.Worker.Recovery.{
  HubReader, HubReceipt, HubBlock, Audit, passes, fails, holds, ◌>>=◌, ◌>>◌, ask, or_hold, or_fail,
  is_terminal, history_of, Terminal, collect, collect_done, collect_open, check_nonces,
  is_receipt_of, found_receipt, is_block, text_of, check_processed, check_terminal, check_terminals,
}

-- `P` holds of the value of an audit that passes.
pub data Grants {ℓ} {A : Type ℓ} (P : A → Type ℓ) : Audit A → Type ℓ where
  granted : {a : A} → P a → Grants P (passes a)
  failed : {e : String} → Grants P (fails e)
  held : {e : String} → Grants P (holds e)

module _ {ℓ} {A B : Type ℓ} {P : B → Type ℓ} where
  pub next :
      (m : Audit A) {f : A → Audit B}
      → ((a : A) → m ≡ passes a → Grants P (f a))
      → Grants P (m >>= f)
  next (passes a) k = k a refl
  next (fails e) k = failed
  next (holds e) k = held

module _ {ℓ} {A : Type ℓ} {P : A → Type ℓ} where
  pub grant : {m : Audit A} {a : A} → Grants P m → m ≡ passes a → P a
  grant (granted h) e = subst P (ground arith) h
  grant failed e = absurd (ground arith)
  grant held e = absurd (ground arith)

  pub more : {Q : A → Type ℓ} {m : Audit A} → ((a : A) → P a → Q a) → Grants P m → Grants Q m
  more f (granted h) = granted (f _ h)
  more f failed = failed
  more f held = held

or_hold-passes : (b : Bool) (e : String) {a : Unit {0}} → or_hold b e ≡ passes a → b ≡ true
or_hold-passes true e h = refl
or_hold-passes false e h = absurd (ground arith)

pub or_fail-passes : (b : Bool) (e : String) {a : Unit {0}} → or_fail b e ≡ passes a → b ≡ true
or_fail-passes true e h = refl
or_fail-passes false e h = absurd (ground arith)

pub ask-passes : {A : Type 0} (r : Result A) {a : A} → ask r ≡ passes a → r ≡ ok a
ask-passes (ok b) h = ground arith
ask-passes (throw e) h = absurd (ground arith)

-- A test that holds the hub, with what follows it.
pub checked {ℓ} :
    {B : Type ℓ} {P : B → Type ℓ} (b : Bool) (e : String) {f : Audit B}
    → (b ≡ true → Grants P f)
    → Grants P (or_hold b e >> f)
checked true e k = k refl
checked false e k = held

-- The last test of a part.
pub surely :
    {P : Unit {0} → Type 0} (b : Bool) (e : String) → (b ≡ true → P tt) → Grants P (or_hold b e)
surely true e k = granted (k refl)
surely false e k = held

-- The hub proved the recorded end of a relay, at some moments: its receipt matches the record and is
-- deep enough, its block stands on the chain before and after, and a success was processed.
pub record IsCanonical (hub : HubReader) (signer asc : Text) (head confirmations : ℕ) (t : Terminal)
    : Type 0 where
  pub moment : ℕ
  pub receipt : HubReceipt
  pub received : hub.receipt moment t.history.hash ≡ ok (some receipt)
  pub matches : is_receipt_of signer asc head confirmations t.history receipt ≡ true
  pub before : Option HubBlock
  pub stood : hub.block moment receipt.block_number ≡ ok before
  pub on_chain : is_block before receipt.block_number receipt.block_hash ≡ true
  pub after : Option HubBlock
  pub stands : hub.block (suc moment) receipt.block_number ≡ ok after
  pub still_on_chain : is_block after receipt.block_number receipt.block_hash ≡ true
  pub processed :
      t.history.status ≡ success
      → hub.processed moment (text_of t.job.query_id) receipt.block_number ≡ ok true

-- The nonces of the list go up by one from the first.
abbrev pub IsContiguous : ℕ → List Terminal → Type 0
IsContiguous expected [] = Unit
IsContiguous expected (t ∷ ts) = (t.history.nonce ≡ expected) × IsContiguous (suc expected) ts

pub check_nonces-IsContiguous :
    (expected : ℕ) (ts : List Terminal)
    → Grants (λ _. IsContiguous expected ts) (check_nonces expected ts)
unfolding check_nonces
check_nonces-IsContiguous expected [] = granted tt
check_nonces-IsContiguous expected (t ∷ ts) =
    checked (is_safe_integer t.history.nonce && t.history.nonce == expected)
      "HUB_NONCE_HISTORY_REQUIRES_RECONCILIATION"
      λ own.
        let here : t.history.nonce ≡ expected = ground arith in
        more (λ _ rest. (here, rest)) (check_nonces-IsContiguous (suc expected) ts)

found_receipt-passes :
    (answer : Option HubReceipt) (test : HubReceipt → Bool) {receipt : HubReceipt}
    → found_receipt answer test ≡ passes receipt
    → (answer ≡ some receipt) × (test receipt ≡ true)
found_receipt-passes none test h = absurd (ground arith)
found_receipt-passes (some r) test {receipt} h = elim (Bool-cases (test r)) [
  | inl e ↦
      let same : r ≡ receipt = ground (arith, rw e at h) in
      (ground arith, subst (λ q. test q ≡ true) same e)
  | inr e ↦ absurd (ground (arith, rw e at h))
]

check_processed-passes :
    (hub : HubReader) (moment : ℕ) (status : RelayStatus) (query : String) (height : ℕ)
    {a : Unit {0}}
    → check_processed hub moment status query height ≡ passes a
    → status ≡ success
    → hub.processed moment query height ≡ ok true
check_processed-passes hub moment reverted query height h s = absurd (ground arith)
check_processed-passes hub moment success query height h s = ground arith

check_terminal-IsCanonical :
    (hub : HubReader) (signer asc : Text) (head confirmations moment : ℕ) (t : Terminal)
    → Grants
        (λ _. IsCanonical hub signer asc head confirmations t)
        (check_terminal hub signer asc head confirmations moment t)
unfolding check_terminal
check_terminal-IsCanonical hub signer asc head confirmations moment t =
    next (ask (hub.receipt moment t.history.hash)) λ answer asked.
      next (found_receipt answer _) λ receipt found.
        next (ask (hub.block moment receipt.block_number)) λ before stood.
          checked (is_block before receipt.block_number receipt.block_hash)
            "HUB_TERMINAL_HISTORY_NOT_CANONICAL"
            λ on_chain.
              next
                (check_processed hub moment t.history.status (text_of t.job.query_id)
                  receipt.block_number)
                λ _ processed.
                  next (ask (hub.block (suc moment) receipt.block_number)) λ after stands.
                    surely (is_block after receipt.block_number receipt.block_hash)
                      "HUB_TERMINAL_HISTORY_NOT_CANONICAL"
                      λ still_on_chain.
                        let proved = found_receipt-passes answer _ found in
                        record {
                          moment = moment;
                          receipt = receipt;
                          received = ask-passes _ asked ∙ ap ok proved.0;
                          matches = proved.1;
                          before = before;
                          stood = ask-passes _ stood;
                          on_chain = on_chain;
                          after = after;
                          stands = ask-passes _ stands;
                          still_on_chain = still_on_chain;
                          processed =
                              check_processed-passes hub moment t.history.status _ _ processed;
                        }

pub check_terminals-IsCanonical :
    (hub : HubReader) (signer asc : Text) (head confirmations moment : ℕ) (ts : List Terminal)
    → Grants
        (λ _. All (IsCanonical hub signer asc head confirmations) ts)
        (check_terminals hub signer asc head confirmations moment ts)
unfolding check_terminals
check_terminals-IsCanonical hub signer asc head confirmations moment [] = granted tt
check_terminals-IsCanonical hub signer asc head confirmations moment (t ∷ ts) =
    next (check_terminal hub signer asc head confirmations moment t) λ _ own.
      more
        (λ _ rest.
          (grant (check_terminal-IsCanonical hub signer asc head confirmations moment t) own, rest))
        (check_terminals-IsCanonical hub signer asc head confirmations (moment + 2) ts)

-- The collected entries are those of the terminal jobs, in order, each with its only record, and the
-- other jobs have none.
pub data IsCollected : List Job → List Terminal → Type 0 where
  none_left : IsCollected [] []
  takes :
      {job : Job} {jobs : List Job} {history : RelayRecord} {ts : List Terminal}
      → is_terminal job.state ≡ true
      → history_of job ≡ history ∷ []
      → (truthy job.query_id ≡ true) × (truthy job.asc_tx_hash ≡ true)
      → IsCollected jobs ts
      → IsCollected (job ∷ jobs) (record { job = job; history = history } ∷ ts)
  passes_by :
      {job : Job} {jobs : List Job} {ts : List Terminal}
      → is_terminal job.state ≡ false
      → history_of job ≡ []
      → IsCollected jobs ts
      → IsCollected (job ∷ jobs) ts

collect_done-IsCollected :
    (job : Job) (jobs : List Job) (history : List RelayRecord) (ts : List Terminal)
    → history_of job ≡ history
    → is_terminal job.state ≡ true
    → IsCollected jobs ts
    → Grants (IsCollected (job ∷ jobs)) (collect_done job history ts)
collect_done-IsCollected job jobs [] ts e t h = held
collect_done-IsCollected job jobs (r ∷ r' ∷ rs) ts e t h = held
collect_done-IsCollected job jobs (r ∷ []) ts e t h =
    elim (Bool-cases (truthy job.query_id && truthy job.asc_tx_hash)) [
      | inl both ↦ rw both (granted (takes t e (ground arith, ground arith) h))
      | inr missing ↦ rw missing held
    ]

collect_open-IsCollected :
    (job : Job) (jobs : List Job) (history : List RelayRecord) (ts : List Terminal)
    → history_of job ≡ history
    → is_terminal job.state ≡ false
    → IsCollected jobs ts
    → Grants (IsCollected (job ∷ jobs)) (collect_open history ts)
collect_open-IsCollected job jobs [] ts e t h = granted (passes_by t e h)
collect_open-IsCollected job jobs (r ∷ rs) ts e t h = held

pub collect-IsCollected : (jobs : List Job) → Grants (IsCollected jobs) (collect jobs)
unfolding collect
collect-IsCollected [] = granted none_left
collect-IsCollected (job ∷ jobs) = next (collect jobs) λ ts found.
    let rest = grant (collect-IsCollected jobs) found in
    elim (Bool-cases (is_terminal job.state)) [
      | inl t ↦ rw t (collect_done-IsCollected job jobs (history_of job) ts refl t rest)
      | inr o ↦ rw o (collect_open-IsCollected job jobs (history_of job) ts refl o rest)
    ]
