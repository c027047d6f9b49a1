-- ===== src/Receipt/Model.antt =====
-- internal/receipt/model.go and waivers.go: the receipt.
use assurectl.Prelude.{String, List}
use assurectl.Domain.{
  AuthorityTier, Subject, WorkUnit, RequirementResult, Finding, VerificationVerdict,
  CompletionDecision, WaiverStatus,
}
use assurectl.InputMeta.{Digest, TrustStatus, AuthorityBasis}

abbrev pub schema_version : String
schema_version = "assurectl/receipt/v0"

abbrev pub protocol_version : String
protocol_version = "v0"

abbrev pub verifier_name : String
verifier_name = "assurectl"

abbrev pub layer_project : String
layer_project = "project"

abbrev pub layer_protocol_baseline : String
layer_protocol_baseline = "protocol_baseline"

abbrev pub builtin_protocol_baseline_source : String
builtin_protocol_baseline_source = "builtin:assurectl/protocol-baseline/v0"

abbrev pub subject_base : String
subject_base = "SUBJECT_BASE"

pub record DigestedInput : Type 0 where
  pub source : String
  pub digest : Digest
  pub trust_status : TrustStatus

pub record PolicySource : Type 0 where
  pub layer : String
  pub source : String
  pub digest : Digest
  pub trust_status : TrustStatus
  pub authority_basis : AuthorityBasis
  pub revision_binding : String
  pub source_revision : String

pub record ResolvedPolicy : Type 0 where
  pub sources : List PolicySource
  pub effective_digest : Digest
  pub trust_status : TrustStatus

pub record EvidenceReference : Type 0 where
  pub id : String
  pub digest : Digest

pub record Verifier : Type 0 where
  pub name : String
  pub version : String
  pub protocol_version : String

pub record WaiverTarget : Type 0 where
  pub kind : String
  pub id : String

pub record WaiverScope : Type 0 where
  pub repository_uri : String
  pub work_unit_id : String
  pub head_revision : String

pub record WaiverApprover : Type 0 where
  pub identity : String
  pub authority : String

pub record WaiverRecord : Type 0 where
  pub id : String
  pub target : WaiverTarget
  pub scope : WaiverScope
  pub reason : String
  pub accepted_risk : String
  pub approver : WaiverApprover
  pub issued_at : String
  pub expires_at : String
  pub status : WaiverStatus
  pub digest : Digest

pub record Receipt : Type 0 where
  pub schema_version : String
  pub authority : AuthorityTier
  pub subject : Subject
  pub work_unit : WorkUnit
  pub contract : DigestedInput
  pub policy : ResolvedPolicy
  pub evidence : List EvidenceReference
  pub requirement_results : List RequirementResult
  pub findings : List Finding
  pub waivers : List WaiverRecord
  pub verification_verdict : VerificationVerdict
  pub completion_decision : CompletionDecision
  pub verifier : Verifier
  pub evaluated_at : String
