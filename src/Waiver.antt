-- ===== src/Waiver.antt =====
-- internal/waiver/waiver.go: explicit records of accepted risk.
pub mod Load
use assurectl.Prelude.{String, List}
use assurectl.Domain.{WaiverStatus}
use assurectl.InputMeta.{Digest}

abbrev pub schema_version : String
schema_version = "assurectl/waivers/v0"

abbrev pub target_requirement : String
target_requirement = "REQUIREMENT"

pub record Target : Type 0 where
  pub kind : String
  pub id : String

pub record Scope : Type 0 where
  pub repository_uri : String
  pub work_unit_id : String
  pub head_revision : String

pub record Approver : Type 0 where
  pub identity : String
  pub authority : String

pub record Record : Type 0 where
  pub id : String
  pub target : Target
  pub scope : Scope
  pub reason : String
  pub accepted_risk : String
  pub approver : Approver
  pub issued_at : String
  pub expires_at : String
  pub status : WaiverStatus
  pub digest : Digest

pub record Loaded : Type 0 where
  pub records : List Record
  pub source : String
