-- ===== src/AppServer.antt =====
-- internal/appserver/ports.go: what the App exchanges with GitHub. Its identifiers are natural
-- numbers here.
pub mod Pipeline
pub mod Webhook
pub mod Oidc
pub mod Jwks
use assurectl.Prelude.{ℕ, String}

pub record PullRequestEvent : Type 0 where
  pub installation_id : ℕ
  pub repository : String
  pub action : String
  pub pr_number : ℕ
  pub base_sha : String
  pub head_sha : String

pub record ExpectedClaims : Type 0 where
  pub repository : String
  pub sha : String

pub record ValidatedClaims : Type 0 where
  pub repository : String
  pub workflow_ref : String
  pub workflow_sha : String
  pub sha : String

pub record ReceiptReference : Type 0 where
  pub change_set_digest : String
  pub receipt_sha256 : String
  pub authority : String

pub record CheckPayload : Type 0 where
  pub name : String
  pub conclusion : String
  pub title : String
  pub summary : String
  pub receipt_reference : ReceiptReference
