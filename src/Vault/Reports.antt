-- ===== src/Vault/Reports.antt =====
-- pipeline/vault.ts: what `EvidenceVault` only reads: `get`, `getRevocation`, `reviewSnapshot`,
-- `listPendingRevocations`, `listLegacyBlocked`, `deletionPreview`, `counts` and
-- `monitoringSnapshot`.
use proofmark.Prelude.{
  ℕ, ◌+◌, String, Bool, false, not, Option, none, some, List, [], ◌∷◌, map, filter, length, is_some,
  truthy, Result, ok, throw, ◌>>◌,
}
use proofmark.Prelude.Text.{Text}
use proofmark.Prelude.Dict.{Dict, lookup, insert, values}
use proofmark.RevocationObservation.{ObservedState}
use proofmark.Vault.Data.{
  VaultState, VaultRecord, VaultData, DeletionRequest, RevocationJob, RecordedObservation, JobState,
  Runtime, is_confirmed,
}
use proofmark.Vault.Blockers.{
  timestamp, controls, or_zero, retention_deadline, last, Blocker, deletion_blockers,
}
use proofmark.Vault.Decisions.{review_revision}
use proofmark.Vault.Outbox.{is_legacy_blocked}

abbrev pub get : String → VaultData → Option VaultRecord
get id d = lookup id d.records

abbrev pub get_revocation : String → VaultData → Option RevocationJob
get_revocation id d = lookup id d.revocations

unfoldable pub list_pending_revocations : VaultData → List RevocationJob
list_pending_revocations d = filter (λ job. not (is_confirmed job)) (values d.revocations)

unfoldable pub list_legacy_blocked : VaultData → List (String × Text)
list_legacy_blocked d =
    map (λ r. (r.id, r.wallet_address)) (filter (is_legacy_blocked d) (values d.records))

-- `counts[key] = (counts[key] ?? 0) + 1`
unfoldable pub tally : String → Dict ℕ → Dict ℕ
tally key counts = insert key (or_zero (lookup key counts) + 1) counts

abbrev pub state_text : VaultState → String
state_text VaultState.pending = "pending"
state_text VaultState.active = "active"
state_text VaultState.review = "review"
state_text VaultState.blocked = "blocked"
state_text VaultState.rejected = "rejected"

unfoldable pub tally_states : List VaultRecord → Dict ℕ → Dict ℕ
unfolding tally
tally_states [] counts = counts
tally_states (r ∷ rs) counts = tally_states rs (tally (state_text r.state) counts)

unfoldable pub counts : VaultData → Dict ℕ
unfolding tally_states
counts d = tally_states (values d.records) (("erased", length d.erasures) ∷ [])

pub record DeletionPreview : Type 0 where
  pub record_id : String
  pub retention_until : ℕ
  pub request_id : Option String
  pub automatic : Bool
  pub blockers : List Blocker

abbrev pub request_id_of : Option DeletionRequest → Option String
request_id_of none = none
request_id_of (some q) = some q.id

abbrev pub is_automatic : Option DeletionRequest → Bool
is_automatic none = false
is_automatic (some q) = q.automatic

module _ (run : Runtime) where
  abbrev pub found_snapshot : VaultData → Option VaultRecord → Result (Text × VaultRecord)
  found_snapshot d none = throw "REVIEW_RECORD_CHANGED"
  found_snapshot d (some r) = ok (review_revision run r d, r)

  unfoldable pub review_snapshot : String → VaultData → Result (Text × VaultRecord)
  review_snapshot id d = found_snapshot d (lookup id d.records)

  abbrev pub preview_of : ℕ → VaultData → VaultRecord → DeletionPreview
  preview_of now d r =
      let request = last (controls r.id d).requests in
      record {
        record_id = r.id;
        retention_until = retention_deadline r d;
        request_id = request_id_of request;
        automatic = is_automatic request;
        blockers = deletion_blockers run r d now;
      }

  unfoldable pub deletion_preview : ℕ → VaultData → Result (List DeletionPreview)
  deletion_preview now d = do timestamp now; ok (map (preview_of now d) (values d.records))

-- `VaultMonitorSnapshot`
pub record RecordView : Type 0 where
  pub id : String
  pub state : VaultState
  pub created_at : ℕ
  pub retention_until : ℕ
  pub last_screened_at : Option ℕ
  pub source_observed : Bool

pub record JobView : Type 0 where
  pub id : String
  pub record_id : String
  pub state : JobState
  pub created_at : ℕ
  pub confirmed_at : Option ℕ
  pub has_error : Bool
  pub latest_observation : Option (ObservedState × ℕ)

pub record VaultSnapshot : Type 0 where
  pub records : List RecordView
  pub revocations : List JobView

abbrev pub latest_of : Option RecordedObservation → Option (ObservedState × ℕ)
latest_of none = none
latest_of (some o) = some (o.observation.state, o.observation.observed_at)

abbrev pub view_record : VaultData → VaultRecord → RecordView
view_record d r = record {
  id = r.id;
  state = r.state;
  created_at = r.created_at;
  retention_until = retention_deadline r d;
  last_screened_at = r.last_screened_at;
  source_observed = is_some r.source_issuance;
}

abbrev pub view_job : RevocationJob → JobView
view_job job = record {
  id = job.id;
  record_id = job.record_id;
  state = job.state;
  created_at = job.created_at;
  confirmed_at = job.confirmed_at;
  has_error = truthy job.last_error;
  latest_observation = latest_of (last job.observations);
}

unfoldable pub monitoring_snapshot : VaultData → VaultSnapshot
monitoring_snapshot d = record {
  records = map (view_record d) (values d.records);
  revocations = map view_job (values d.revocations);
}
