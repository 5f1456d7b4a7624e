-- ===== src/Vault/Retention.antt =====
-- pipeline/vault.ts: the operations on retention of `EvidenceVault`: `extendRetention`, `placeHold`,
-- `releaseHold`, `requestDeletion`, `approveDeletion`, `erase` and `purgeExpired`, each the operation
-- that `mutate` runs. The random id of a request is an argument. The text of an error that lists
-- blockers is its beginning.
use Prim.Native.Nat.{max}
use proofmark.Prelude.{
  ℕ, ◌+◌, String, Bool, true, false, not, ◌&&◌, ◌||◌, Option, none, some, List, [], ◌∷◌, ◌++◌, ltb,
  leb, str_eq, if◌then◌else◌, is_some, any, filter, Result, ok, throw, ◌>>=◌, ◌>>◌, require, refuse,
}
use proofmark.Prelude.Text.{Text, text_eq}
use proofmark.Prelude.Dict.{lookup, remove, values}
use proofmark.Vault.Data.{
  VaultRecord, VaultData, RetentionPolicyEvidence, DeletionRequest, DeletionInput, Hold, Release,
  Runtime, is_blocked, is_rejected, is_confirmed, same_disposition, is_source_revoked,
  is_not_issued,
}
use proofmark.Vault.Blockers.{
  timestamp, reference, must_get, controls, set_controls, or_zero, jobs_of, safety_blockers,
  is_not_expiry, is_empty, last, deletion_fingerprint, deletion_blockers,
}

unfoldable pub extend_retention : String → ℕ → Text → Text → ℕ → VaultData → Result VaultData
extend_retention id until operator ref now d = do
  timestamp now
  timestamp until
  reference operator
  reference ref
  r ← must_get id d
  let c = controls id d
  refuse (leb until (max r.retention_until (or_zero c.minimum_until)))
      "retention can only be extended"
  ok (
      set_controls id
        (record c {
          minimum_until = some until;
          extensions =
              c.extensions
              ++ record { until = until; operator = operator; reference = ref; at = now } ∷ [];
        })
        d)

unfoldable pub place_hold : String → Text → Text → Text → ℕ → VaultData → Result VaultData
place_hold id hold_id operator ref now d = do
  r ← must_get id d
  timestamp now
  reference hold_id
  reference operator
  reference ref
  let c = controls id d
  refuse (any (λ (h : Hold). text_eq h.id hold_id) c.holds) "hold ID already used"
  ok (
      set_controls id
        (record c {
          holds =
              c.holds
              ++ record {
                id = hold_id;
                operator = operator;
                reference = ref;
                at = now;
                release = none;
              }
                ∷ [];
        })
        d)

-- `holds.find(item => item.id === holdId)`
unfoldable pub find_hold : Text → List Hold → Option Hold
find_hold hold_id [] = none
find_hold hold_id (h ∷ hs) = if text_eq h.id hold_id then some h else find_hold hold_id hs

-- The hold that is to be released, at the time of its release.
abbrev pub open_hold : Option Hold → Result Hold
open_hold none = throw "unknown or already released hold"
open_hold (some h) = do refuse (is_some h.release) "unknown or already released hold"; ok h

-- `hold.release = …` on the hold that `find` gives.
unfoldable pub released : Text → Release → List Hold → List Hold
released hold_id release [] = []
released hold_id release (h ∷ hs) =
    let rest = released hold_id release hs in
    if text_eq h.id hold_id then record h { release = some release } ∷ hs else h ∷ rest

unfoldable pub release_hold : String → Text → Text → Text → ℕ → VaultData → Result VaultData
unfolding find_hold
release_hold id hold_id operator ref now d = do
  r ← must_get id d
  timestamp now
  reference operator
  reference ref
  let c = controls id d
  hold ← open_hold (find_hold hold_id c.holds)
  refuse (ltb now hold.at) "hold release precedes placement"
  ok (
      set_controls id
        (record c {
          holds =
              released hold_id (record { operator = operator; reference = ref; at = now }) c.holds;
        })
        d)

abbrev pub expected_policy_ref : RetentionPolicyEvidence → Text
expected_policy_ref p = elim p.approval_ref [ none ↦ p.policy_id | some ref ↦ ref ]

-- The request agrees with the policy that was retained with the record.
abbrev pub matches_policy : DeletionInput → Option RetentionPolicyEvidence → Bool
matches_policy input none = true
matches_policy input (some p) =
    text_eq input.policy_ref (expected_policy_ref p)
    && same_disposition input.disposition p.credential_disposition

abbrev pub is_unsupported : DeletionInput → VaultRecord → Bool → Bool
is_unsupported input r confirmed =
    (is_source_revoked input.disposition && not confirmed)
    || (is_not_issued input.disposition && not (is_rejected r.state))
    || (is_blocked r.state && not (is_source_revoked input.disposition))

-- `throw` if there is a blocker but for the expiry of retention.
abbrev pub check_safety : VaultRecord → VaultData → ℕ → Result (Unit {0})
check_safety r d now =
    require (is_empty (filter is_not_expiry (safety_blockers r d now []))) "deletion blocked"

abbrev pub current_request : String → Option DeletionRequest → Result DeletionRequest
current_request request_id none = throw "deletion request is not current"
current_request request_id (some q) = do
  require (str_eq q.id request_id) "deletion request is not current"
  ok q

-- A change of the last request: `requests.at(-1)` is an object that the list holds.
unfoldable pub set_last : DeletionRequest → List DeletionRequest → List DeletionRequest
set_last q [] = []
set_last q (x ∷ []) = q ∷ []
set_last q (x ∷ y ∷ rest) = x ∷ set_last q (y ∷ rest)

abbrev pub erase_approved : VaultRecord → DeletionRequest → ℕ → VaultData → VaultData
erase_approved r q now d = record d {
  records = remove r.id d.records;
  erasures =
      d.erasures
      ++ record { record_id = r.id; at = now; reason = q.policy_ref; request_id = q.id } ∷ [];
}

module _ (run : Runtime) where
  abbrev pub new_request : String → DeletionInput → ℕ → VaultRecord → VaultData → DeletionRequest
  new_request request_id input now r d = record {
    id = request_id;
    fingerprint = deletion_fingerprint run r d;
    requested_at = now;
    operator = input.operator;
    policy_ref = input.policy_ref;
    service_ref = input.service_ref;
    disposition = input.disposition;
    automatic = input.automatic;
    approval = none;
  }

  unfoldable pub request_deletion :
      String → DeletionInput → String → ℕ → VaultData → Result VaultData
  unfolding safety_blockers deletion_fingerprint
  request_deletion id input request_id now d = do
    timestamp now
    reference input.operator
    reference input.policy_ref
    reference input.service_ref
    r ← must_get id d
    require (matches_policy input r.retention_policy)
        "deletion decision does not match the retained policy snapshot"
    check_safety r d now
    refuse (is_unsupported input r (any is_confirmed (jobs_of id d)))
        "service disposition is not supported by local evidence"
    let c = controls id d
    ok (
        set_controls id
          (record c { requests = c.requests ++ new_request request_id input now r d ∷ [] }) d)

  unfoldable pub approve_deletion : String → String → Text → ℕ → VaultData → Result VaultData
  unfolding safety_blockers deletion_fingerprint set_last
  approve_deletion id request_id operator now d = do
    timestamp now
    reference operator
    r ← must_get id d
    let c = controls id d
    q ← current_request request_id (last c.requests)
    refuse (text_eq q.operator operator) "deletion requires a different approver label"
    refuse (is_some q.approval) "deletion request already approved"
    refuse (ltb now q.requested_at) "approval precedes request"
    require (str_eq q.fingerprint (deletion_fingerprint run r d)) "deletion request is stale"
    check_safety r d now
    ok (
        set_controls id
          (record c {
            requests =
                set_last (record q { approval = some (record { operator = operator; at = now }) })
                  c.requests;
          })
          d)

  -- The answer says whether there was a record.
  abbrev pub erase_found : String → String → ℕ → VaultRecord → VaultData → Result (Bool × VaultData)
  erase_found id request_id now r d = do
    q ← current_request request_id (last (controls id d).requests)
    require (is_empty (deletion_blockers run r d now)) "deletion blocked"
    ok (true, erase_approved r q now d)

  -- With no record there is nothing to erase.
  abbrev pub erase_lookup :
      String → String → ℕ → VaultData → Option VaultRecord → Result (Bool × VaultData)
  erase_lookup id request_id now d none = ok (false, d)
  erase_lookup id request_id now d (some r) = erase_found id request_id now r d

  unfoldable pub erase : String → String → ℕ → VaultData → Result (Bool × VaultData)
  unfolding deletion_blockers
  erase id request_id now d = do
    timestamp now
    erase_lookup id request_id now d (lookup id d.records)

  -- One round of the loop of `purgeExpired`, on a count of erased records and the data.
  abbrev pub purge_request :
      ℕ → VaultRecord → Option DeletionRequest → ℕ × VaultData → ℕ × VaultData
  purge_request now r none (count, d) = (count, d)
  purge_request now r (some q) (count, d) =
      if not q.automatic || not (is_empty (deletion_blockers run r d now))
      then (count, d)
      else (count + 1, erase_approved r q now d)

  unfoldable pub purge_all : ℕ → List VaultRecord → ℕ × VaultData → ℕ × VaultData
  unfolding deletion_blockers
  purge_all now [] s = s
  purge_all now (r ∷ rs) s =
      purge_all now rs (purge_request now r (last (controls r.id s.1).requests) s)

  unfoldable pub purge_expired : ℕ → VaultData → Result (ℕ × VaultData)
  unfolding purge_all
  purge_expired now d = do timestamp now; ok (purge_all now (values d.records) (0, d))
