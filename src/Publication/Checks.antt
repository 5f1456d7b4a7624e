-- ===== src/Publication/Checks.antt =====
-- pipeline/epoch-publication-journal.ts: the entries of the journal and `validate`. A JSON text stands
-- for the value that it was written from. The parser of the contract's calls, that of signed
-- transactions, the hash of a plan, the size of the encrypted file and its decryption are parameters.
use proofmark.Prelude.{
  ℕ, ◌+◌, ◌*◌, ◌%◌, String, Bool, true, false, not, ◌&&◌, ◌||◌, Option, none, some, List, [], ◌∷◌,
  leb, ◌==◌, all, any, length, is_some, is_safe_integer, Result, ok, throw, ◌>>=◌, ◌>>◌, require,
  refuse,
}
use proofmark.Prelude.Text.{Text, text_eq, to_lower_case, codes}

pub record PublicationScope : Type 0 where
  pub chain_id : ℕ
  pub source : Text
  pub publisher : Text

pub record Cutoff : Type 0 where
  pub block_number : ℕ
  pub block_hash : Text

pub record Availability : Type 0 where
  pub version : ℕ
  pub seed_hash : Text
  pub replica_count : ℕ

pub record PublicationIntent : Type 0 where
  pub calldata : Text
  pub source_cutoff : Cutoff
  pub availability : Option Availability
  pub created_at : ℕ

pub record PublicationConfirmation : Type 0 where
  pub transaction_hash : Text
  pub block_number : ℕ
  pub block_hash : Text
  pub status : ℕ
  pub confirmations : ℕ
  pub observed_at : ℕ

pub record SavedTransaction : Type 0 where
  pub raw : Text
  pub hash : Text
  pub nonce : ℕ

pub record Abandonment : Type 0 where
  pub at : ℕ
  pub reason : Text

pub record PublicationEntry : Type 0 where
  pub id : Text
  pub intent : PublicationIntent
  pub transaction : Option SavedTransaction
  pub confirmation : Option PublicationConfirmation
  pub abandonment : Option Abandonment

-- What `ethers.Transaction.from` reads.
pub record EthersTransaction : Type 0 where
  pub is_signed : Bool
  pub hash : Option Text
  pub from : Option Text
  pub to : Option Text
  pub chain_id : ℕ
  pub value : ℕ
  pub calldata : Text
  pub nonce : ℕ
  pub serialized : Text

pub record PublicationRuntime : Type 0 where
  pub get_address : Text → Result Text
  -- The name of the call that `ABI.parseTransaction` reads, and its `ABI.encodeFunctionData`.
  pub parse_call : Text → Result (Text × Text)
  pub read_transaction : Text → Result EthersTransaction
  pub plan_hash : PublicationScope → PublicationIntent → Text
  pub envelope_size : PublicationScope → List PublicationEntry → ℕ
  -- Whether what was sealed with a secret for a scope, the last two, is unsealed with the first two.
  pub unseals : Text → PublicationScope → Text → PublicationScope → Bool

abbrev pub max_bytes : ℕ
max_bytes = 8 * 1024 * 1024

-- `integer(n, min)`
abbrev pub integer : ℕ → ℕ → Bool
integer n least = is_safe_integer n && leb least n

abbrev pub is_lower_digit : ℕ → Bool
is_lower_digit c = (leb b'0' c && leb c b'9') || (leb b'a' c && leb c b'f')

abbrev pub has_prefix : Text → Bool
has_prefix (z ∷ x ∷ digits) = z == b'0' && x == b'x'
has_prefix _ = false

abbrev pub digits_of : Text → Text
digits_of (z ∷ x ∷ digits) = digits
digits_of _ = []

-- `/^0x[0-9a-f]{64}$/` and `/^[0-9a-f]{64}$/`
abbrev pub is_digest : Text → Bool
is_digest digits = length digits == 64 && all is_lower_digit digits

abbrev pub is_hash : Text → Bool
is_hash s = has_prefix s && is_digest (digits_of s)

abbrev pub is_even : ℕ → Bool
is_even n = n % 2 == 0

-- `/^0x(?:[0-9a-f]{2})+$/`
abbrev pub is_bytes : Text → Bool
is_bytes s =
    has_prefix s
    && leb 1 (length (digits_of s))
    && is_even (length (digits_of s))
    && all is_lower_digit (digits_of s)

-- `try { … } catch { fail(code); }`
abbrev pub or_fail {ℓ} : {A : Type ℓ} → String → Result A → Result A
or_fail code (ok a) = ok a
or_fail code (throw e) = throw code

abbrev pub is_publication : Text → Bool
is_publication name =
    text_eq name (codes "publishEpoch") || text_eq name (codes "publishEpochForIssuers")

abbrev pub is_available : Option Availability → Bool
is_available none = true
is_available (some a) = a.version == 1 && is_digest a.seed_hash && integer a.replica_count 2

-- `a?.toLowerCase() === b`
abbrev pub is_account : Option Text → Text → Bool
is_account none b = false
is_account (some a) b = text_eq (to_lower_case a) b

abbrev pub found_hash : Option Text → Result Text
found_hash none = throw "PUBLICATION_TRANSACTION_MISMATCH"
found_hash (some h) = ok h

abbrev pub same_transaction : SavedTransaction → SavedTransaction → Bool
same_transaction a b = text_eq a.raw b.raw && text_eq a.hash b.hash && a.nonce == b.nonce

abbrev pub same_confirmation : PublicationConfirmation → PublicationConfirmation → Bool
same_confirmation a b =
    text_eq a.transaction_hash b.transaction_hash
    && a.block_number == b.block_number
    && text_eq a.block_hash b.block_hash
    && a.status == b.status
    && a.confirmations == b.confirmations
    && a.observed_at == b.observed_at

abbrev pub cancelled : Text
cancelled = codes "UNSIGNED_PLAN_CANCELLED"

abbrev pub is_last : List PublicationEntry → Bool
is_last [] = true
is_last _ = false

module _ (run : PublicationRuntime) where
  unfoldable pub address : Text → Result Text
  address value = or_fail "PUBLICATION_SCOPE_INVALID" (do
    result ← run.get_address value
    refuse (text_eq (to_lower_case result) (codes "0x0000000000000000000000000000000000000000"))
        "PUBLICATION_SCOPE_INVALID"
    ok (to_lower_case result))

  unfoldable pub scope_value : PublicationScope → Result PublicationScope
  unfolding address
  scope_value value = do
    require (integer value.chain_id 1) "PUBLICATION_SCOPE_INVALID"
    source ← address value.source
    publisher ← address value.publisher
    ok (record { chain_id = value.chain_id; source = source; publisher = publisher })

  abbrev pub check_call : Text → Result (Unit {0})
  check_call calldata = do
    (name, encoded) ← run.parse_call calldata
    require (is_publication name && text_eq (to_lower_case encoded) calldata)
        "PUBLICATION_INTENT_INVALID"

  unfoldable pub intent_value : PublicationIntent → Result PublicationIntent
  intent_value value = do
    require
        (is_bytes value.calldata
          && leb (length value.calldata) (512 * 1024 + 2)
          && integer value.created_at 0
          && integer value.source_cutoff.block_number 1
          && is_hash value.source_cutoff.block_hash
          && is_available value.availability)
        "PUBLICATION_INTENT_INVALID"
    or_fail "PUBLICATION_INTENT_INVALID" (check_call value.calldata)
    ok value

  module _ (scope : PublicationScope) where
    abbrev pub is_bound : PublicationIntent → EthersTransaction → Bool
    is_bound intent tx =
        tx.is_signed
        && tx.chain_id == scope.chain_id
        && is_account tx.from scope.publisher
        && is_account tx.to scope.source
        && tx.value == 0
        && text_eq tx.calldata intent.calldata
        && integer tx.nonce 0

    unfoldable pub bound_transaction : Text → PublicationIntent → Result SavedTransaction
    bound_transaction raw intent = or_fail "PUBLICATION_TRANSACTION_MISMATCH" (do
      require (leb (length raw) (520 * 1024)) "PUBLICATION_TRANSACTION_MISMATCH"
      tx ← run.read_transaction raw
      hash ← found_hash tx.hash
      require (is_bound intent tx) "PUBLICATION_TRANSACTION_MISMATCH"
      ok (record { raw = tx.serialized; hash = hash; nonce = tx.nonce }))

    abbrev pub check_abandonment : PublicationEntry → Abandonment → Result (Unit {0})
    check_abandonment entry a =
        require
          (not (is_some entry.transaction)
            && not (is_some entry.confirmation)
            && text_eq a.reason cancelled
            && integer a.at entry.intent.created_at)
          "PUBLICATION_ABANDONMENT_INVALID"

    abbrev pub check_transaction : PublicationIntent → Option SavedTransaction → Result (Unit {0})
    check_transaction intent none = ok tt
    check_transaction intent (some t) = do
      bound ← bound_transaction t.raw intent
      require (same_transaction t bound) "PUBLICATION_TRANSACTION_MISMATCH"

    abbrev pub names_transaction : Option SavedTransaction → Text → Bool
    names_transaction none hash = false
    names_transaction (some t) hash = text_eq hash t.hash

    abbrev pub check_confirmation :
        Bool → PublicationEntry → Option PublicationConfirmation → Result (Unit {0})
    check_confirmation last entry none = require last "PUBLICATION_JOURNAL_UNAVAILABLE"
    check_confirmation last entry (some c) =
        require
          (names_transaction entry.transaction c.transaction_hash
            && integer c.block_number 1
            && is_hash c.block_hash
            && (c.status == 0 || c.status == 1)
            && integer c.confirmations 1
            && integer c.observed_at entry.intent.created_at)
          "PUBLICATION_CONFIRMATION_INVALID"

    abbrev pub check_progress : Bool → PublicationEntry → Option Abandonment → Result (Unit {0})
    check_progress last entry (some a) = check_abandonment entry a
    check_progress last entry none = do
      check_transaction entry.intent entry.transaction
      check_confirmation last entry entry.confirmation

    -- The loop of `validate`; `ids` are those of the entries before.
    unfoldable pub validate_entries : List Text → List PublicationEntry → Result (Unit {0})
    unfolding intent_value bound_transaction
    validate_entries ids [] = ok tt
    validate_entries ids (entry ∷ rest) = do
      intent ← intent_value entry.intent
      require (text_eq entry.id (run.plan_hash scope intent) && not (any (text_eq entry.id) ids))
          "PUBLICATION_JOURNAL_UNAVAILABLE"
      check_progress (is_last rest) entry entry.abandonment
      validate_entries (entry.id ∷ ids) rest

    -- `JSON.stringify(state.scope) === JSON.stringify(this.scope)`
    abbrev pub same_scope : PublicationScope → Bool
    same_scope other =
        other.chain_id == scope.chain_id
        && text_eq other.source scope.source
        && text_eq other.publisher scope.publisher

    unfoldable pub validate : PublicationScope × List PublicationEntry → Result (Unit {0})
    unfolding validate_entries
    validate (written, entries) = do
      require (same_scope written && leb (length entries) 1000) "PUBLICATION_JOURNAL_UNAVAILABLE"
      validate_entries [] entries
