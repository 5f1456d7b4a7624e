-- ===== src/Worker/Recovery.antt =====
-- worker/recovery.ts: `initializeHubRecovery` and `reconcileHubRecovery`, the audit of the signer's
-- history against the hub. The hub is a parameter; its answers depend on the moment of the call.
pub mod Canonical
pub mod Reconciled
pub mod Baseline
pub mod Tests
use proofmark.Prelude.{
  ℕ, suc, ◌+◌, ◌-◌, String, Bool, true, false, not, ◌&&◌, ◌||◌, Option, none, some, List, [], ◌∷◌,
  map, ltb, leb, ◌==◌, if◌then◌else◌, str_eq, opt_eq, truthy, is_safe_integer, length, any, filter,
  Result, ok, throw, is_some,
}
use proofmark.Prelude.Text.{Text, codes, text_eq, text_lt, to_lower_case}
use proofmark.Prelude.Sorting.{sort}
use proofmark.Prelude.Dict.{values}
use proofmark.Roster.Proof.{is_hex_word}
use native.Mathlib.Decide.{ℕ_discrete}
use proofmark.Prelude.{◌*◌, ◌≡◌, arith, str_eq_iff, refl}
use proofmark.Worker.Job.{
  Job, JobState, submitted, done, dead, skipped, is_finished, RelayStatus, success, reverted,
  RelayRecord, RelayEnvelope, SkipObservation, StoreData, WorkerScope,
}
use proofmark.Worker.Store.{Effect, keep, hold_hub, guarded, assert_hub_ready}
use proofmark.Worker.Store.{initialize_hub_signer}

pub data CountTag : Type 0 where
  latest pending : CountTag

pub record HubBlock : Type 0 where
  pub number : ℕ
  pub hash : Option String

pub record HubReceipt : Type 0 where
  pub hash : String
  pub from : String
  pub to : Option String
  pub status : Option ℕ
  pub block_number : ℕ
  pub block_hash : String

-- `HubRecoveryReader`: the first argument of a call is its moment.
pub record HubReader : Type 0 where
  pub transaction_count : ℕ → Text → CountTag → Result ℕ
  pub block_number : ℕ → Result ℕ
  pub block : ℕ → ℕ → Result (Option HubBlock)
  pub receipt : ℕ → String → Result (Option HubReceipt)
  pub processed : ℕ → String → ℕ → Result Bool

-- The end of a part of the audit: a value, an error, or `store.holdHub` with the error it throws.
pub data Audit {ℓ} (A : Type ℓ) : Type ℓ where
  passes : A → Audit A
  fails : String → Audit A
  holds : String → Audit A

infixl 5 ◌>>=◌ ◌>>◌
abbrev pub ◌>>=◌ {ℓ κ} : {A : Type ℓ} {B : Type κ} → Audit A → (A → Audit B) → Audit B
passes a >>= k = k a
fails e >>= k = fails e
holds e >>= k = holds e

abbrev pub ◌>>◌ {ℓ} : {B : Type ℓ} → Audit (Unit {0}) → Audit B → Audit B
m >> k = m >>= λ _. k

-- An answer of the hub; a call that throws ends the audit.
abbrev pub ask {ℓ} : {A : Type ℓ} → Result A → Audit A
ask (ok a) = passes a
ask (throw e) = fails e

-- `if (!b) store.holdHub(e)`
abbrev pub or_hold : Bool → String → Audit (Unit {0})
or_hold true e = passes tt
or_hold false e = holds e

-- `if (!b) throw new HubSafetyError(e)`
abbrev pub or_fail : Bool → String → Audit (Unit {0})
or_fail true e = passes tt
or_fail false e = fails e

abbrev pub is_hash : String → Bool
is_hash s = is_hex_word (codes s)

abbrev pub lower : String → Text
lower s = to_lower_case (codes s)

-- `job.state === 'done' || job.state === 'dead'`
abbrev pub is_terminal : JobState → Bool
is_terminal done = true
is_terminal dead = true
is_terminal _ = false

abbrev pub is_skipped : JobState → Bool
is_skipped skipped = true
is_skipped _ = false

-- `job.relayHistory ?? []`
abbrev pub history_of : Job → List RelayRecord
history_of j = elim j.relay_history [ none ↦ [] | some h ↦ h ]

pub record Terminal : Type 0 where
  pub job : Job
  pub history : RelayRecord

-- One job of the first loop. `next` is what the rest of the loop collects.
abbrev pub collect_done : Job → List RelayRecord → List Terminal → Audit (List Terminal)
collect_done job (history ∷ []) next =
    if truthy job.query_id && truthy job.asc_tx_hash
    then passes (record { job = job; history = history } ∷ next)
    else holds "HUB_TERMINAL_HISTORY_REQUIRES_RECONCILIATION"
collect_done job _ next = holds "HUB_TERMINAL_HISTORY_REQUIRES_RECONCILIATION"

abbrev pub collect_open : List RelayRecord → List Terminal → Audit (List Terminal)
collect_open [] next = passes next
collect_open (history ∷ histories) next = holds "HUB_TERMINAL_HISTORY_REQUIRES_RECONCILIATION"

unfoldable pub collect : List Job → Audit (List Terminal)
collect [] = passes []
collect (job ∷ jobs) = do
  next ← collect jobs
  if is_terminal job.state
      then collect_done job (history_of job) next
      else collect_open (history_of job) next

-- `terminal.sort((a, b) => a.history.nonce - b.history.nonce)`
abbrev pub by_nonce : Terminal → Terminal → Bool
by_nonce x y = ltb y.history.nonce x.history.nonce

-- The second loop, from the nonce `expected` on.
unfoldable pub check_nonces : ℕ → List Terminal → Audit (Unit {0})
unfolding is_safe_integer
check_nonces expected [] = passes tt
check_nonces expected (t ∷ ts) = do
  or_hold (is_safe_integer t.history.nonce && t.history.nonce == expected)
      "HUB_NONCE_HISTORY_REQUIRES_RECONCILIATION"
  check_nonces (suc expected) ts

-- `status === (history.status === 'success' ? 1 : 0)`
abbrev pub has_status : RelayStatus → Option ℕ → Bool
has_status status none = false
has_status success (some n) = n == 1
has_status reverted (some n) = n == 0

-- `receipt.to?.toLowerCase() === asc`
abbrev pub is_sent_to : Option String → Text → Bool
is_sent_to none asc = false
is_sent_to (some to) asc = text_eq (lower to) asc

-- The receipt proves the recorded end of the relay, and is deep enough below the head.
unfoldable pub is_receipt_of : Text → Text → ℕ → ℕ → RelayRecord → HubReceipt → Bool
unfolding is_safe_integer
is_receipt_of signer asc head confirmations history receipt =
    str_eq receipt.hash history.hash
    && text_eq (lower receipt.from) signer
    && is_sent_to receipt.to asc
    && has_status history.status receipt.status
    && receipt.block_number == history.block_number
    && str_eq receipt.block_hash history.block_hash
    && is_safe_integer receipt.block_number
    && is_hash receipt.block_hash
    && leb receipt.block_number head
    && leb confirmations (head - receipt.block_number + 1)

abbrev pub found_receipt : Option HubReceipt → (HubReceipt → Bool) → Audit HubReceipt
found_receipt none test = holds "HUB_TERMINAL_HISTORY_NOT_CANONICAL"
found_receipt (some receipt) test =
    if test receipt then passes receipt else holds "HUB_TERMINAL_HISTORY_NOT_CANONICAL"

-- `block && block.number === height && block.hash === hash`
abbrev pub is_block : Option HubBlock → ℕ → String → Bool
is_block none height hash = false
is_block (some block) height hash = block.number == height && opt_eq block.hash (some hash)

abbrev pub is_success : RelayStatus → Bool
is_success success = true
is_success reverted = false

abbrev pub text_of : Option String → String
text_of none = ""
text_of (some s) = s

unfoldable pub is_deep : ℕ → ℕ → SkipObservation → Bool
unfolding is_safe_integer
is_deep head confirmations o =
    is_safe_integer o.block_number
    && is_hash o.block_hash
    && leb o.block_number head
    && leb confirmations (head - o.block_number + 1)

module _ (hub : HubReader) where
  -- `if (history.status === 'success') ...`
  abbrev pub check_processed : ℕ → RelayStatus → String → ℕ → Audit (Unit {0})
  check_processed moment reverted query height = passes tt
  check_processed moment success query height = do
    processed ← ask (hub.processed moment query height)
    or_hold processed "HUB_TERMINAL_QUERY_NOT_CANONICAL"

  -- One round of the third loop.
  unfoldable pub check_terminal : Text → Text → ℕ → ℕ → ℕ → Terminal → Audit (Unit {0})
  unfolding is_receipt_of
  check_terminal signer asc head confirmations moment t = do
    answer ← ask (hub.receipt moment t.history.hash)
    receipt ← found_receipt answer (is_receipt_of signer asc head confirmations t.history)
    block ← ask (hub.block moment receipt.block_number)
    or_hold (is_block block receipt.block_number receipt.block_hash)
        "HUB_TERMINAL_HISTORY_NOT_CANONICAL"
    check_processed moment t.history.status (text_of t.job.query_id) receipt.block_number
    again ← ask (hub.block (suc moment) receipt.block_number)
    or_hold (is_block again receipt.block_number receipt.block_hash)
        "HUB_TERMINAL_HISTORY_NOT_CANONICAL"

  unfoldable pub check_terminals : Text → Text → ℕ → ℕ → ℕ → List Terminal → Audit (Unit {0})
  unfolding check_terminal
  check_terminals signer asc head confirmations moment [] = passes tt
  check_terminals signer asc head confirmations moment (t ∷ ts) = do
    check_terminal signer asc head confirmations moment t
    check_terminals signer asc head confirmations (moment + 2) ts

  -- `observation` of a skipped job, if it is deep enough.
  abbrev pub deep_observation : ℕ → ℕ → Option SkipObservation → Audit SkipObservation
  deep_observation head confirmations none = holds "HUB_SKIP_OBSERVATION_NOT_CANONICAL"
  deep_observation head confirmations (some o) =
      if is_deep head confirmations o then passes o else holds "HUB_SKIP_OBSERVATION_NOT_CANONICAL"

  -- One round of the fourth loop, for a job that is skipped.
  unfoldable pub check_skipped : ℕ → ℕ → ℕ → Job → Audit (Unit {0})
  unfolding is_deep
  check_skipped head confirmations moment job = do
    or_hold (is_some job.skip_observation && truthy job.query_id)
        "HUB_SKIP_OBSERVATION_NOT_CANONICAL"
    o ← deep_observation head confirmations job.skip_observation
    block ← ask (hub.block moment o.block_number)
    or_hold (is_block block o.block_number o.block_hash) "HUB_SKIP_OBSERVATION_NOT_CANONICAL"
    processed ← ask (hub.processed moment (text_of job.query_id) o.block_number)
    or_hold processed "HUB_SKIP_OBSERVATION_NOT_CANONICAL"
    again ← ask (hub.block (suc moment) o.block_number)
    or_hold (is_block again o.block_number o.block_hash) "HUB_SKIP_OBSERVATION_NOT_CANONICAL"

  unfoldable pub check_skips : ℕ → ℕ → ℕ → List Job → Audit (Unit {0})
  unfolding check_skipped
  check_skips head confirmations moment [] = passes tt
  check_skips head confirmations moment (job ∷ jobs) = do
    check_skipped head confirmations moment job
    check_skips head confirmations (moment + 2) jobs

-- `[expected, expected + 1].includes(n)`
abbrev pub is_next : ℕ → ℕ → Bool
is_next expected n = n == expected || n == suc expected

-- The last statement: the counts of the signer against the history and the open relay.
unfoldable pub check_counts : Option RelayEnvelope → ℕ → ℕ → ℕ → Audit (Unit {0})
check_counts (some relay) expected mined queued =
    or_hold (relay.nonce == expected && is_next expected mined && is_next expected queued)
      "HUB_SIGNER_NONCE_DIVERGED"
check_counts none expected mined queued =
    or_hold (mined == expected && queued == expected) "HUB_SIGNER_NONCE_DIVERGED"

-- What `evidenceIdentity` writes of a finished job.
pub record TerminalEvidence : Type 0 where
  pub tx_hash : String
  pub state : JobState
  pub asc_tx_hash : Option String
  pub query_id : Option String
  pub relay_history : Option (List RelayRecord)
  pub skip_observation : Option SkipObservation

-- What `evidenceIdentity` writes. Two snapshots have one identity if these are the same; the keys of a
-- table are unique, so any order of texts serves for the sort.
pub record Evidence : Type 0 where
  pub hub_start_nonce : Option ℕ
  pub hub_hold : Option String
  pub relay : Option RelayEnvelope
  pub terminal : List TerminalEvidence

abbrev pub evidence_of_job : Job → TerminalEvidence
evidence_of_job j = record {
  tx_hash = j.tx_hash;
  state = j.state;
  asc_tx_hash = j.asc_tx_hash;
  query_id = j.query_id;
  relay_history = j.relay_history;
  skip_observation = j.skip_observation;
}

unfoldable pub evidence_identity : StoreData → Evidence
evidence_identity d = record {
  hub_start_nonce = d.hub_start_nonce;
  hub_hold = d.hub_hold;
  relay = d.relay;
  terminal = map evidence_of_job (
      sort (λ x y. text_lt (codes y.tx_hash) (codes x.tx_hash))
        (filter (λ j. is_finished j.state) (values d.jobs)));
}

pub str_ne : (a b : String) → str_eq a b ≡ false → ¬ (a ≡ b)
str_ne a b n p = ground (arith, str_eq_iff a b)

abbrev pub decide_str : (a b : String) (answer : Bool) → str_eq a b ≡ answer → Dec (a ≡ b)
decide_str a b true e = yes ((str_eq_iff a b).0 e)
decide_str a b false n = no (str_ne a b n)

unfoldable pub String-discrete : Discrete String
String-discrete a b = decide_str a b (str_eq a b) refl

unfoldable pub Evidence-discrete : Discrete Evidence
Evidence-discrete = hlevel (ℕ_discrete, String-discrete)

abbrev pub is_yes {ℓ} : {P : Type ℓ} → Dec P → Bool
is_yes (yes p) = true
is_yes (no n) = false

-- `evidenceIdentity(a) === evidenceIdentity(b)`
unfoldable pub same_evidence : StoreData → StoreData → Bool
unfolding Evidence-discrete evidence_identity
same_evidence a b = is_yes (Evidence-discrete (evidence_identity a) (evidence_identity b))

-- The part of `reconcileHubRecovery` behind the scope and the baseline. `later` is the data when the
-- hub has answered: other tasks of the worker run meanwhile.
unfoldable pub audit_history :
    HubReader → ℕ → StoreData → StoreData → WorkerScope → ℕ → Audit (Unit {0})
unfolding collect check_nonces check_terminals check_skips check_counts same_evidence
audit_history hub confirmations snapshot later scope baseline = do
  let signer = lower scope.signer
  let jobs = values snapshot.jobs
  found ← collect jobs
  let terminal = sort by_nonce found
  check_nonces baseline terminal
  head ← ask (hub.block_number 0)
  or_fail (is_safe_integer head) "HUB_RECOVERY_OBSERVATION_UNAVAILABLE"
  check_terminals hub signer (lower scope.asc) head confirmations 0 terminal
  let moment = 2 * length terminal
  check_skips hub head confirmations moment (filter (λ j. is_skipped j.state) jobs)
  mined ← ask (hub.transaction_count moment signer latest)
  queued ← ask (hub.transaction_count moment signer pending)
  or_fail (is_safe_integer mined && is_safe_integer queued && leb mined queued)
      "HUB_RECOVERY_OBSERVATION_UNAVAILABLE"
  if same_evidence later snapshot
      then check_counts snapshot.relay (baseline + length terminal) mined queued
      else passes tt

abbrev pub audit_scope :
    HubReader → ℕ → StoreData → StoreData → Option WorkerScope → Option ℕ → Audit (Unit {0})
audit_scope hub confirmations snapshot later none baseline = fails "HUB_RECOVERY_SCOPE_UNBOUND"
audit_scope hub confirmations snapshot later (some scope) none =
    holds "HUB_SIGNER_BASELINE_REQUIRES_RECONCILIATION"
audit_scope hub confirmations snapshot later (some scope) (some baseline) = do
  or_hold (is_safe_integer baseline) "HUB_SIGNER_BASELINE_REQUIRES_RECONCILIATION"
  audit_history hub confirmations snapshot later scope baseline

-- What the end of the audit does to the store: a hold is committed on the data of that time.
abbrev pub ended : Audit (Unit {0}) → Effect (Unit {0}) → StoreData → Effect (Unit {0})
ended (passes _) next d = next
ended (fails e) next d = keep (throw e)
ended (holds e) next d = hold_hub e d

unfoldable pub reconcile_hub_recovery : HubReader → ℕ → StoreData → StoreData → Effect (Unit {0})
unfolding audit_history
reconcile_hub_recovery hub confirmations snapshot later = guarded (assert_hub_ready snapshot) (
    ended
      (do
        or_fail (is_safe_integer confirmations && leb 1 confirmations)
            "HUB_RECOVERY_SETTINGS_INVALID"
        audit_scope hub confirmations snapshot later snapshot.scope snapshot.hub_start_nonce)
      (keep (ok tt)) later)

abbrev pub is_submitted_or_terminal : JobState → Bool
is_submitted_or_terminal submitted = true
is_submitted_or_terminal s = is_terminal s

-- The snapshot of a worker that never signed.
unfoldable pub is_unused : StoreData → Bool
is_unused d =
    is_some d.scope
    && not (is_some d.hub_start_nonce)
    && not (is_some d.relay)
    && not (
        any
          (λ j.
            truthy j.asc_tx_hash
            || ltb 0 (length (history_of j))
            || is_submitted_or_terminal j.state)
          (values d.jobs))

abbrev pub scope_signer : Option WorkerScope → Text
scope_signer none = []
scope_signer (some scope) = codes scope.signer

unfoldable pub initialize_hub_recovery : HubReader → StoreData → Effect (Unit {0})
unfolding assert_hub_ready is_unused initialize_hub_signer
initialize_hub_recovery hub d = guarded (assert_hub_ready d) (
    ended
      (do
        or_hold (is_unused d) "HUB_SIGNER_BASELINE_REQUIRES_RECONCILIATION"
        mined ← ask (hub.transaction_count 0 (scope_signer d.scope) latest)
        queued ← ask (hub.transaction_count 0 (scope_signer d.scope) pending)
        or_fail (is_safe_integer mined && is_safe_integer queued)
            "HUB_RECOVERY_OBSERVATION_UNAVAILABLE"
        or_hold (mined == 0 && queued == 0) "HUB_SIGNER_BASELINE_REQUIRES_RECONCILIATION")
      (initialize_hub_signer 0 d) d)
