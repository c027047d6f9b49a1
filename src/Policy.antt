-- ===== src/Policy.antt =====
-- internal/policy/loader.go: the policy. The loader admits no negative age limit, so the big
-- integer behind the pointer is a natural number.
pub mod Load
use assurectl.Prelude.{ℕ, String, Bool, Option, List}
use assurectl.InputMeta.{Digest, TrustStatus, AuthorityBasis}

abbrev pub schema_version : String
schema_version = "assurectl/policy/v0"

pub record Requirement : Type 0 where
  pub id : String
  pub evidence_type : String
  pub waivable : Bool
  pub allowed_producer_types : List String
  pub max_age_seconds : Option ℕ

pub record Policy : Type 0 where
  pub schema_version : String
  pub requirements : List Requirement

pub record Loaded : Type 0 where
  pub policy : Policy
  pub source : String
  pub digest : Digest
  pub trust_status : TrustStatus
  pub authority_basis : AuthorityBasis
