-- ===== src/Vault/Data.antt =====
-- pipeline/vault.ts: what the vault keeps, and the library calls that its operations make. Evidence,
-- claims and the fields of policies that no operation reads are texts. The absent dictionary
-- `revocations` is the empty one. The log of key rotations, `maintenance`, is left out.
use proofmark.Prelude.{ℕ, String, Bool, false, Option, none, List, [], true}
use proofmark.Prelude.Text.{Text}
use proofmark.Prelude.Dict.{Dict}
use proofmark.RevocationObservation.{RevocationObservation}

pub data VaultState : Type 0 where
  pending active review blocked rejected : VaultState

pub data Decision : Type 0 where
  allow review block : Decision

pub data ReviewOutcome : Type 0 where
  cleared blocked : ReviewOutcome

pub data Disposition : Type 0 where
  unchanged source_revoked not_issued : Disposition

pub data JobState : Type 0 where
  pending prepared confirmed : JobState

pub record ReviewEvent : Type 0 where
  pub at : ℕ
  pub operator : Text
  pub outcome : ReviewOutcome
  pub reason : Text
  pub based_on : Option Text

pub record RescreenEvent : Type 0 where
  pub at : ℕ
  pub decision : Decision
  pub reason : Option String
  pub list_versions : Dict ℕ

pub record SourceIssuanceObservation : Type 0 where
  pub transaction_hash : Text
  pub chain_id : ℕ
  pub source : Text
  pub observed_at : ℕ
  pub hub_materialized : Bool

pub record ProcessingPolicyEvidence : Type 0 where
  pub customer_id : String
  pub rest : String

pub record RetentionPolicyEvidence : Type 0 where
  pub policy_id : Text
  pub customer_id : String
  pub vault_delete_at : ℕ
  pub credential_disposition : Disposition
  pub approval_ref : Option Text
  pub rest : String

pub record ScreeningSubject : Type 0 where
  pub full_name : String
  pub rest : String

pub record VaultRecord : Type 0 where
  pub id : String
  pub wallet_address : Text
  pub consent_version : String
  pub processing_policy : Option ProcessingPolicyEvidence
  pub retention_policy : Option RetentionPolicyEvidence
  pub screening_subject : ScreeningSubject
  pub evidence_hash : Text
  pub evidence : String
  pub attrs : Option Text
  pub claims_root : Option Text
  pub claims : Option String
  pub state : VaultState
  pub created_at : ℕ
  pub retention_until : ℕ
  pub last_screened_at : Option ℕ
  pub rescreens : List RescreenEvent
  pub reviews : List ReviewEvent
  pub source_issuance : Option SourceIssuanceObservation

pub record Approval : Type 0 where
  pub operator : Text
  pub at : ℕ

pub record DeletionRequest : Type 0 where
  pub id : String
  pub fingerprint : String
  pub requested_at : ℕ
  pub operator : Text
  pub policy_ref : Text
  pub service_ref : Text
  pub disposition : Disposition
  pub automatic : Bool
  pub approval : Option Approval

-- `Pick<DeletionRequest, 'operator' | 'policyRef' | 'serviceRef' | 'disposition' | 'automatic'>`
pub record DeletionInput : Type 0 where
  pub operator : Text
  pub policy_ref : Text
  pub service_ref : Text
  pub disposition : Disposition
  pub automatic : Bool

pub record Extension : Type 0 where
  pub until : ℕ
  pub operator : Text
  pub reference : Text
  pub at : ℕ

pub record Release : Type 0 where
  pub operator : Text
  pub reference : Text
  pub at : ℕ

pub record Hold : Type 0 where
  pub id : Text
  pub operator : Text
  pub reference : Text
  pub at : ℕ
  pub release : Option Release

pub record RetentionControls : Type 0 where
  pub minimum_until : Option ℕ
  pub extensions : List Extension
  pub holds : List Hold
  pub requests : List DeletionRequest

pub record Transaction : Type 0 where
  pub hash : Text
  pub raw : Text
  pub chain_id : ℕ
  pub source : Text

pub record SourceTarget : Type 0 where
  pub chain_id : ℕ
  pub source : Text

pub record RecordedObservation : Type 0 where
  pub recorded_at : ℕ
  pub observation : RevocationObservation

pub record RevocationJob : Type 0 where
  pub id : String
  pub record_id : String
  pub wallet_address : Text
  pub created_at : ℕ
  pub state : JobState
  pub source_target : Option SourceTarget
  pub transaction : Option Transaction
  pub confirmed_at : Option ℕ
  pub last_error : Option String
  pub observations : List RecordedObservation

pub record Erasure : Type 0 where
  pub record_id : String
  pub at : ℕ
  pub reason : Text
  pub request_id : String

pub record VaultData : Type 0 where
  pub revision : ℕ
  pub records : Dict VaultRecord
  pub erasures : List Erasure
  pub revocations : Dict RevocationJob
  pub retention : Dict RetentionControls

-- What the operations call outside of the repository: `isDeepStrictEqual` of node:util, digests of
-- JSON texts by node:crypto, `localeCompare`, the printing of a number in a job's id, and `ethers.isAddress`.
pub record Runtime : Type 0 where
  pub same_record : VaultRecord → VaultRecord → Bool
  pub same_job : RevocationJob → RevocationJob → Bool
  pub same_observation : RevocationObservation → RevocationObservation → Bool
  pub deletion_digest :
      VaultRecord → Option ℕ → List Extension → List Hold → List RevocationJob → String
  pub review_digest : VaultRecord → List RevocationJob → Option RetentionControls → Text
  pub id_after : String → String → Bool
  pub revoke_id : String → ℕ → String
  pub is_address : Text → Bool

-- `{ extensions: [], holds: [], requests: [] }`
abbrev pub no_controls : RetentionControls
no_controls = record { minimum_until = none; extensions = []; holds = []; requests = [] }

abbrev pub is_pending : VaultState → Bool
is_pending VaultState.pending = true
is_pending _ = false

abbrev pub is_in_review : VaultState → Bool
is_in_review VaultState.review = true
is_in_review _ = false

abbrev pub is_blocked : VaultState → Bool
is_blocked VaultState.blocked = true
is_blocked _ = false

abbrev pub is_rejected : VaultState → Bool
is_rejected VaultState.rejected = true
is_rejected _ = false

abbrev pub is_confirmed : RevocationJob → Bool
is_confirmed job = elim job.state [ JobState.confirmed ↦ true | _ ↦ false ]

abbrev pub same_disposition : Disposition → Disposition → Bool
same_disposition unchanged unchanged = true
same_disposition source_revoked source_revoked = true
same_disposition not_issued not_issued = true
same_disposition _ _ = false

abbrev pub is_source_revoked : Disposition → Bool
is_source_revoked source_revoked = true
is_source_revoked _ = false

abbrev pub is_not_issued : Disposition → Bool
is_not_issued not_issued = true
is_not_issued _ = false
