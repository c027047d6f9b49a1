-- ===== src/Contract.antt =====
-- internal/contract/loader.go: the verification contract.
pub mod Load
use assurectl.Prelude.{String, List}
use assurectl.Domain.{WorkUnit}
use assurectl.InputMeta.{Digest, TrustStatus}

abbrev pub schema_version : String
schema_version = "assurectl/verification-contract/v0"

pub record AcceptanceCriterion : Type 0 where
  pub id : String
  pub statement : String
  pub requirements : List String

pub record Contract : Type 0 where
  pub schema_version : String
  pub work_unit : WorkUnit
  pub acceptance_criteria : List AcceptanceCriterion

pub record Loaded : Type 0 where
  pub contract : Contract
  pub source : String
  pub digest : Digest
  pub trust_status : TrustStatus
