-- ===== src/RevocationObservation.antt =====
-- pipeline/revocation-observation.ts: the shape of a recorded observation of a revocation, and
-- `normalizeRevocationObservation`. The address test of ethers is a parameter. What TypeScript gives by
-- type (version 1, texts, Booleans) is given by type here too.
pub mod Verdict
pub mod Tests
use proofmark.Prelude.{
  ℕ, ◌+◌, ◌-◌, ◌*◌, ◌/◌, ◌^◌, String, Bool, true, false, not, ◌&&◌, ◌||◌, List, [], ◌∷◌, map, ltb,
  leb, ◌==◌, if◌then◌else◌, is_safe_integer, max_safe_integer, length, any, all, Result, ok, throw,
  ◌>>=◌, ◌>>◌, require,
}
use proofmark.Prelude.Text.{Text, codes, text_eq, to_lower_case}
use proofmark.Roster.Proof.{is_hex_digit, is_hex_word}

pub data ObservedState : Type 0 where
  enforced superseded inconsistent awaiting_hub : ObservedState

pub record CheckConfig : Type 0 where
  pub source : Text
  pub asc : Text
  pub registry : Text
  pub expected_revoker : Text
  pub source_code_hash : Text
  pub asc_code_hash : Text
  pub registry_code_hash : Text
  pub policy_ids : List ℕ
  pub confirmations : ℕ

pub record SourceHead : Type 0 where
  pub block_number : ℕ
  pub block_hash : Text
  pub timestamp : ℕ

pub record SourceView : Type 0 where
  pub transaction_hash : Text
  pub block_number : ℕ
  pub block_hash : Text
  pub transaction_index : ℕ
  pub receipt_log_index : ℕ
  pub confirmations : ℕ
  pub head : SourceHead

-- Decimal numbers.
pub record HubCursor : Type 0 where
  pub height : Text
  pub transaction_index : Text
  pub receipt_log_index : Text

pub record PolicyView : Type 0 where
  pub id : ℕ
  pub verified : Bool

pub record HubView : Type 0 where
  pub block_number : ℕ
  pub block_hash : Text
  pub timestamp : ℕ
  pub tombstone : Bool
  pub cursor : HubCursor
  pub policies : List PolicyView

pub record RevocationObservation : Type 0 where
  pub operator : Text
  pub observed_at : ℕ
  pub config : CheckConfig
  pub state : ObservedState
  pub source : SourceView
  pub hub : HubView

abbrev pub same_state : ObservedState → ObservedState → Bool
same_state enforced enforced = true
same_state superseded superseded = true
same_state inconsistent inconsistent = true
same_state awaiting_hub awaiting_hub = true
same_state _ _ = false

abbrev pub demand : Bool → Result (Unit {0})
demand b = require b "INVALID_REVOCATION_OBSERVATION"

abbrev pub is_alphanumeric : ℕ → Bool
is_alphanumeric c =
    (leb b'A' c && leb c b'Z') || (leb b'a' c && leb c b'z') || (leb b'0' c && leb c b'9')

-- `[A-Za-z0-9_.:-]`
abbrev pub is_reference_unit : ℕ → Bool
is_reference_unit c = is_alphanumeric c || c == b'_' || c == b'.' || c == b':' || c == b'-'

-- `/^[A-Za-z0-9][A-Za-z0-9_.:-]{0,127}$/`
unfoldable pub is_reference : Text → Bool
is_reference [] = false
is_reference (c ∷ rest) = is_alphanumeric c && leb (length rest) 127 && all is_reference_unit rest

unfoldable pub hash : Text → Result Text
hash value = do demand (is_hex_word value); ok (to_lower_case value)

abbrev pub is_digit : ℕ → Bool
is_digit c = leb b'0' c && leb c b'9'

-- `BigInt` of decimal digits.
unfoldable pub decimal_from : ℕ → Text → ℕ
decimal_from n [] = n
decimal_from n (c ∷ rest) = decimal_from (n * 10 + (c - b'0')) rest

abbrev pub decimal : Text → ℕ
decimal = decimal_from 0

-- `/^(0|[1-9]\d{0,77})$/`
abbrev pub is_decimal : Text → Bool
is_decimal [] = false
is_decimal (c ∷ []) = is_digit c
is_decimal (c ∷ rest) = is_digit c && not (c == b'0') && leb (length rest) 77 && all is_digit rest

unfoldable pub coordinate : Text → ℕ → Result Text
unfolding decimal_from
coordinate value bits = do demand (is_decimal value && ltb (decimal value) (2 ^ bits)); ok value

abbrev pub has : ℕ → List ℕ → Bool
has id ids = any (λ other. other == id) ids

-- `new Set(ids).size === ids.length`
unfoldable pub all_distinct : List ℕ → Bool
all_distinct [] = true
all_distinct (id ∷ ids) = not (has id ids) && all_distinct ids

unfoldable pub same_ids : List PolicyView → List ℕ → Bool
same_ids [] [] = true
same_ids (p ∷ ps) (id ∷ ids) = p.id == id && same_ids ps ids
same_ids _ _ = false

-- Within 300 seconds of the observation, and at most 30 seconds ahead of it.
abbrev pub is_recent : ℕ → ℕ → Bool
is_recent timestamp observed_at =
    ltb 0 timestamp && leb timestamp (observed_at + 30) && leb (observed_at - timestamp) 300

abbrev pub source_numbers : SourceView → HubView → List ℕ
source_numbers s h =
    s.block_number ∷ s.transaction_index ∷ s.receipt_log_index ∷ s.confirmations
    ∷ s.head.block_number ∷ s.head.timestamp ∷ h.block_number ∷ h.timestamp ∷ []

unfoldable pub check_times : ℕ → CheckConfig → Result (Unit {0})
check_times observed_at c = demand (
    is_safe_integer observed_at
    && ltb 0 observed_at
    && leb observed_at (max_safe_integer / 1000)
    && is_safe_integer c.confirmations
    && ltb 0 c.confirmations)

unfoldable pub check_policies : List ℕ → Result (Unit {0})
unfolding all_distinct
check_policies ids = demand (
    ltb 0 (length ids)
    && leb (length ids) 16
    && all (λ id. is_safe_integer id && ltb 0 id) ids
    && all_distinct ids)

unfoldable pub check_views : ℕ → CheckConfig → SourceView → HubView → Result (Unit {0})
check_views observed_at c s h = do
  demand (
      all is_safe_integer (source_numbers s h)
      && leb c.confirmations s.confirmations
      && is_recent h.timestamp observed_at)
  demand (
      leb s.block_number s.head.block_number
      && s.head.block_number - s.block_number + 1 == s.confirmations
      && is_recent s.head.timestamp observed_at)

unfoldable pub check_cursor : HubCursor → Result HubCursor
unfolding coordinate
check_cursor cursor = do
  height ← coordinate cursor.height 64
  index ← coordinate cursor.transaction_index 64
  log ← coordinate cursor.receipt_log_index 256
  ok (record { height = height; transaction_index = index; receipt_log_index = log })

-- The first coordinate in which the cursor of the hub and the place of the log differ decides.
unfoldable pub decided : List ℕ → List ℕ → ObservedState → ObservedState
decided (a ∷ as') (b ∷ bs) same =
    let rest = decided as' bs same in
    if a == b then rest else if ltb b a then superseded else awaiting_hub
decided _ _ same = same

abbrev pub source_place : SourceView → List ℕ
source_place s = s.block_number ∷ s.transaction_index ∷ s.receipt_log_index ∷ []

abbrev pub hub_place : HubCursor → List ℕ
hub_place cursor =
    decimal cursor.height ∷ decimal cursor.transaction_index ∷ decimal cursor.receipt_log_index ∷ []

unfoldable pub derived_state : SourceView → HubView → ObservedState
unfolding decided decimal_from
derived_state s h =
    decided (hub_place h.cursor) (source_place s)
      (if h.tombstone && all (λ p. not p.verified) h.policies then enforced else inconsistent)

-- `ethers.isAddress(value) && value.toLowerCase() !== ethers.ZeroAddress`
unfoldable pub address : (Text → Bool) → Text → Result Text
address is_address value = do
  demand (
      is_address value
      && not (text_eq (to_lower_case value) (codes "0x0000000000000000000000000000000000000000")))
  ok (to_lower_case value)

module _ (is_address : Text → Bool) where
  unfoldable pub normalize_config : CheckConfig → Result CheckConfig
  unfolding address hash
  normalize_config c = do
    source ← address is_address c.source
    asc ← address is_address c.asc
    registry ← address is_address c.registry
    revoker ← address is_address c.expected_revoker
    source_code ← hash c.source_code_hash
    asc_code ← hash c.asc_code_hash
    registry_code ← hash c.registry_code_hash
    ok (record c {
      source = source;
      asc = asc;
      registry = registry;
      expected_revoker = revoker;
      source_code_hash = source_code;
      asc_code_hash = asc_code;
      registry_code_hash = registry_code;
    })

  unfoldable pub normalize_source : SourceView → Result SourceView
  unfolding hash
  normalize_source s = do
    transaction ← hash s.transaction_hash
    block ← hash s.block_hash
    head_block ← hash s.head.block_hash
    ok (record s {
      transaction_hash = transaction;
      block_hash = block;
      head = record {
        block_number = s.head.block_number;
        block_hash = head_block;
        timestamp = s.head.timestamp;
      };
    })

  unfoldable pub normalize_revocation_observation :
      RevocationObservation → Result RevocationObservation
  unfolding check_times check_policies check_views same_ids check_cursor derived_state
      normalize_config normalize_source hash
  normalize_revocation_observation value = do
    demand (is_reference value.operator)
    check_times value.observed_at value.config
    check_policies value.config.policy_ids
    check_views value.observed_at value.config value.source value.hub
    demand (same_ids value.hub.policies value.config.policy_ids)
    cursor ← check_cursor value.hub.cursor
    demand (same_state value.state (derived_state value.source value.hub))
    config ← normalize_config value.config
    source ← normalize_source value.source
    block ← hash value.hub.block_hash
    ok (record value {
      config = config;
      source = source;
      hub = record {
        block_number = value.hub.block_number;
        block_hash = block;
        timestamp = value.hub.timestamp;
        tombstone = value.hub.tombstone;
        cursor = cursor;
        policies = value.hub.policies;
      };
    })
