-- ===== src/Evidence.antt =====
-- internal/evidence/model.go: evidence envelopes. An exit code is any integer: a sign, true for a
-- negative one, and a magnitude.
pub mod Timestamp
pub mod Location
pub mod Binding
pub mod Envelopes
pub mod Load
pub mod Discovery
use assurectl.Prelude.{ℕ, String, Bool, true, false, Option}
use assurectl.Domain.{ObservedOutcome}
use assurectl.InputMeta.{Digest, TrustStatus, AuthorityBasis}

abbrev pub schema_version : String
schema_version = "assurectl/evidence-envelope/v0"

pub data SubjectBinding : Type 0 where
  exact other_revision : SubjectBinding

abbrev pub is_other_revision : SubjectBinding → Bool
is_other_revision exact = false
is_other_revision other_revision = true

pub record Subject : Type 0 where
  pub repository_uri : String
  pub revision : String

pub record Producer : Type 0 where
  pub type : String
  pub identity : String
  pub workflow : Option String
  pub workflow_revision : Option String

pub record Invocation : Type 0 where
  pub command_id : String
  pub environment_digest : Option Digest
  pub started_at : String
  pub finished_at : String

pub record Outcome : Type 0 where
  pub status : ObservedOutcome
  pub exit_code : Option (Bool × ℕ)

pub record Artifact : Type 0 where
  pub uri : String
  pub digest : Digest
  pub media_type : String

pub record Envelope : Type 0 where
  pub schema_version : String
  pub id : String
  pub type : String
  pub subject : Subject
  pub producer : Producer
  pub invocation : Invocation
  pub outcome : Outcome
  pub artifact : Artifact

pub record Loaded : Type 0 where
  pub envelope : Envelope
  pub source : String
  pub digest : Digest
  pub trust_status : TrustStatus
  pub authority_basis : AuthorityBasis
  pub started_at : ℕ
  pub finished_at : ℕ
  pub subject_binding : SubjectBinding
