-- ===== src/Vault/Decisions.antt =====
-- pipeline/vault.ts: the decisions on a record: `put`, `recordMaterialization`,
-- `recordSourceConfirmation`, `listForRescreen`, `recordRescreen` and `decideReview` of
-- `EvidenceVault`.
use Prim.Native.Nat.{max}
use proofmark.Prelude.{
  ℕ, ◌-◌, String, Bool, true, false, not, ◌&&◌, ◌||◌, Option, none, some, List, [], ◌∷◌, ◌++◌, ltb,
  leb, ◌==◌, str_eq, if◌then◌else◌, is_safe_integer, is_some, any, all, length, filter, Result, ok,
  throw, ◌>>=◌, ◌>>◌, require, refuse,
}
use proofmark.Prelude.Text.{Text, text_eq, to_lower_case}
use proofmark.Prelude.Dict.{Dict, lookup, insert, values}
use proofmark.Prelude.Sorting.{sort}
use proofmark.Roster.Proof.{is_hex_digit, is_hex_word}
use proofmark.Vault.Data.{
  VaultState, VaultRecord, VaultData, ReviewEvent, RescreenEvent, Decision, ReviewOutcome, allow,
  block, cleared, SourceIssuanceObservation, RetentionPolicyEvidence, ProcessingPolicyEvidence,
  Runtime, is_pending, is_blocked, is_rejected,
}
use proofmark.Vault.Blockers.{
  timestamp, reference, must_get, or_zero, retention_deadline, jobs_of, last,
}
use proofmark.Vault.Outbox.{has_open_job, queue_revocation}

abbrev pub set_record : String → VaultRecord → VaultData → VaultData
set_record id r d = record d { records = insert id r d.records }

abbrev pub same_customer : RetentionPolicyEvidence → Option ProcessingPolicyEvidence → Bool
same_customer p none = true
same_customer p (some q) = str_eq p.customer_id q.customer_id

-- The record agrees with the policy that it carries.
abbrev pub fits_policy : VaultRecord → Option RetentionPolicyEvidence → Bool
fits_policy r none = true
fits_policy r (some p) =
    p.vault_delete_at == r.retention_until && same_customer p r.processing_policy

-- The end of `put`: a record is stored once, and a repeated `put` returns what is there.
abbrev pub put_new : VaultRecord → VaultData → Option VaultRecord → Result (VaultRecord × VaultData)
put_new r d none = ok (r, set_record r.id r d)
put_new r d (some old) = do
  require (text_eq old.evidence_hash r.evidence_hash)
      "vault record conflicts with existing evidence"
  ok (old, d)

abbrev pub is_erased : String → VaultData → Bool
is_erased id d = any (λ e. str_eq e.record_id id) d.erasures

unfoldable pub put : VaultRecord → VaultData → Result (VaultRecord × VaultData)
put r d = do
  refuse (str_eq r.id "" || text_eq r.wallet_address [] || str_eq r.screening_subject.full_name "")
      "incomplete vault record"
  refuse (is_erased r.id d) "erased vault record cannot be restored by put"
  timestamp r.created_at
  timestamp r.retention_until
  refuse (ltb r.retention_until r.created_at) "retention precedes creation"
  require (fits_policy r r.retention_policy)
      "vault record does not match its retention policy snapshot"
  put_new r d (lookup r.id d.records)

abbrev pub materialized : Option SourceIssuanceObservation → Option SourceIssuanceObservation
materialized none = none
materialized (some s) = some (record s { hub_materialized = true })

unfoldable pub record_materialization : String → Text → VaultData → Result VaultData
record_materialization id evidence_hash d = do
  r ← must_get id d
  require (text_eq r.evidence_hash evidence_hash)
      "materialization evidence does not match retained record"
  ok (
      set_record id
        (record r {
          source_issuance = materialized r.source_issuance;
          state = if is_pending r.state then VaultState.active else r.state;
        })
        d)

-- `/^0x[0-9a-fA-F]{40}$/`
abbrev pub is_hex_address : Text → Bool
is_hex_address (z ∷ x ∷ digits) =
    z == b'0' && x == b'x' && length digits == 40 && all is_hex_digit digits
is_hex_address _ = false

abbrev pub normalized : SourceIssuanceObservation → SourceIssuanceObservation
normalized o = record {
  transaction_hash = to_lower_case o.transaction_hash;
  chain_id = o.chain_id;
  source = to_lower_case o.source;
  observed_at = o.observed_at;
  hub_materialized = false;
}

-- The first observation is preserved on replay.
abbrev pub confirm_source :
    String
    → VaultRecord
    → SourceIssuanceObservation
    → Option SourceIssuanceObservation
    → VaultData
    → Result VaultData
confirm_source id r next none d = ok (set_record id (record r { source_issuance = some next }) d)
confirm_source id r next (some old) d = do
  require
      (text_eq old.transaction_hash next.transaction_hash
        && old.chain_id == next.chain_id
        && text_eq old.source next.source)
      "source confirmation conflicts with retained issuance"
  ok d

unfoldable pub record_source_confirmation :
    String → Text → SourceIssuanceObservation → VaultData → Result VaultData
record_source_confirmation id evidence_hash o d = do
  r ← must_get id d
  require (text_eq r.evidence_hash evidence_hash)
      "source confirmation evidence does not match retained record"
  timestamp o.observed_at
  require
      (is_safe_integer o.chain_id
        && ltb 0 o.chain_id
        && is_hex_word o.transaction_hash
        && is_hex_address o.source
        && leb r.created_at o.observed_at)
      "invalid source confirmation observation"
  confirm_source id r (normalized o) r.source_issuance d

abbrev pub has_version : Dict ℕ → String × ℕ → Bool
has_version versions (key, n) = elim (lookup key versions) [ none ↦ false | some m ↦ m == n ]

-- The same keys with the same numbers; a key stands once in a dictionary.
unfoldable pub same_list_versions : Dict ℕ → Dict ℕ → Bool
same_list_versions left right = length left == length right && all (has_version right) left

abbrev pub is_outdated : Dict ℕ → Option RescreenEvent → Bool
is_outdated versions none = true
is_outdated versions (some e) = not (same_list_versions e.list_versions versions)

-- `!record.lastScreenedAt || now - record.lastScreenedAt >= intervalMs`
abbrev pub is_interval_over : ℕ → ℕ → Option ℕ → Bool
is_interval_over now interval none = true
is_interval_over now interval (some at') = at' == 0 || (leb at' now && leb interval (now - at'))

abbrev pub is_due_by_versions : Option (Dict ℕ) → VaultRecord → Bool
is_due_by_versions none r = false
is_due_by_versions (some versions) r = is_outdated versions (last r.rescreens)

abbrev pub is_screened : VaultRecord → Bool
is_screened r = elim r.state [
  | VaultState.active ↦ true
  | VaultState.review ↦ true
  | VaultState.pending ↦ is_some r.source_issuance
  | _ ↦ false
]

unfoldable pub is_due : ℕ → ℕ → Option (Dict ℕ) → VaultData → VaultRecord → Bool
unfolding retention_deadline same_list_versions
is_due now interval versions d r =
    ltb now (retention_deadline r d)
    && is_screened r
    && (is_interval_over now interval r.last_screened_at || is_due_by_versions versions r)

unfoldable pub list_for_rescreen : ℕ → ℕ → Option (Dict ℕ) → VaultData → List VaultRecord
unfolding is_due
list_for_rescreen now interval versions d =
    filter (is_due now interval versions d) (values d.records)

-- The greatest of a time and the times of the reviews.
unfoldable pub latest_of : ℕ → List ReviewEvent → ℕ
latest_of latest [] = latest
latest_of latest (e ∷ es) = latest_of (max latest e.at) es

unfoldable pub latest_decision : VaultRecord → ℕ
unfolding latest_of
latest_decision r = latest_of (max r.created_at (or_zero r.last_screened_at)) r.reviews

abbrev pub awaits_hub : Option SourceIssuanceObservation → Bool
awaits_hub none = false
awaits_hub (some s) = not s.hub_materialized

-- The state of a record that a decision let pass.
abbrev pub passed_state : VaultRecord → VaultState
passed_state r =
    if is_pending r.state || awaits_hub r.source_issuance
    then VaultState.pending
    else VaultState.active

abbrev pub state_after : Decision → VaultRecord → VaultState
state_after block r = VaultState.blocked
state_after Decision.review r = VaultState.review
state_after allow r = passed_state r

abbrev pub is_block : Decision → Bool
is_block block = true
is_block _ = false

abbrev pub outcome_state : ReviewOutcome → VaultRecord → VaultState
outcome_state cleared r = passed_state r
outcome_state ReviewOutcome.blocked r = VaultState.blocked

abbrev pub is_cleared : ReviewOutcome → Bool
is_cleared cleared = true
is_cleared ReviewOutcome.blocked = false

abbrev pub screened : RescreenEvent → VaultRecord → VaultRecord
screened event r = record r {
  last_screened_at = some event.at;
  rescreens = r.rescreens ++ event ∷ [];
  state = state_after event.decision r;
}

abbrev pub reviewed : ReviewEvent → Text → VaultRecord → VaultRecord
reviewed event revision r = record r {
  reviews = r.reviews ++ record event { based_on = some revision } ∷ [];
  state = outcome_state event.outcome r;
}

-- `/^[0-9a-f]{64}$/`
abbrev pub is_digest : Text → Bool
is_digest digits =
    length digits == 64
    && all (λ c. (leb b'0' c && leb c b'9') || (leb b'a' c && leb c b'f')) digits

module _ (run : Runtime) where
  -- `expected` is the record that was screened.
  abbrev pub unchanged_record : String → VaultRecord → Option VaultRecord → Result VaultRecord
  unchanged_record id expected none = throw "RESCREEN_RECORD_CHANGED"
  unchanged_record id expected (some r) = do
    require (str_eq expected.id id && run.same_record r expected) "RESCREEN_RECORD_CHANGED"
    ok r

  unfoldable pub record_rescreen :
      String → RescreenEvent → VaultRecord → VaultData → Result VaultData
  unfolding latest_decision queue_revocation
  record_rescreen id event expected d = do
    r ← unchanged_record id expected (lookup id d.records)
    refuse (is_blocked r.state || is_rejected r.state)
        "terminal compliance state requires explicit review; rescreen cannot clear it"
    timestamp event.at
    refuse (ltb event.at (latest_decision r)) "rescreen timestamp precedes retained decision"
    let e = set_record id (screened event r) d
    if is_block event.decision then queue_revocation run (screened event r) event.at e else ok e

  unfoldable pub review_revision : VaultRecord → VaultData → Text
  review_revision r d =
      run.review_digest r (sort (λ a b. run.id_after a.id b.id) (jobs_of r.id d))
        (lookup r.id d.retention)

  -- The record whose revision the reviewer saw.
  abbrev pub reviewed_record : Text → VaultData → Option VaultRecord → Result VaultRecord
  reviewed_record revision d none = throw "REVIEW_RECORD_CHANGED"
  reviewed_record revision d (some r) = do
    require (is_digest revision && text_eq (review_revision r d) revision) "REVIEW_RECORD_CHANGED"
    ok r

  unfoldable pub decide_review : String → ReviewEvent → Text → VaultData → Result VaultData
  unfolding review_revision latest_decision queue_revocation
  decide_review id event revision d = do
    r ← reviewed_record revision d (lookup id d.records)
    timestamp event.at
    reference event.operator
    reference event.reason
    refuse (ltb event.at (latest_decision r)) "review timestamp precedes retained decision"
    refuse (is_cleared event.outcome && has_open_job id d)
        "pending revocation must be reconciled before clearance; clearance does not reissue on chain"
    let e = set_record id (reviewed event revision r) d
    if is_cleared event.outcome
        then ok e
        else queue_revocation run (reviewed event revision r) event.at e
