-- ===== src/Attestation.antt =====
-- internal/attestation: signed receipts. A byte slice is a list of bytes.
pub mod Pae
pub mod Signing
pub mod Statement
use assurectl.Prelude.{ℕ, String, List}

abbrev pub Bytes : Type 0
Bytes = List ℕ

-- One signature of an envelope.
pub record Signature : Type 0 where
  pub key_id : String
  pub sig : String

pub record Envelope : Type 0 where
  pub payload_type : String
  pub payload : String
  pub signatures : List Signature
