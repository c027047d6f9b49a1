-- ===== src/InputMeta.antt =====
-- internal/inputmeta/meta.go: digests and the provenance of an input.
use assurectl.Prelude.{String, Bool, true, false, ◌&&◌, ◌==◌}
use assurectl.Platform.{Platform}

abbrev pub digest_algorithm_sha256 : String
digest_algorithm_sha256 = "sha256"

pub record Digest : Type 0 where
  pub algorithm : String
  pub value : String

pub data TrustStatus : Type 0 where
  untrusted trusted : TrustStatus
  other : String → TrustStatus

pub data AuthorityBasis : Type 0 where
  advisory_workspace trusted_base : AuthorityBasis
  other : String → AuthorityBasis

abbrev pub is_trusted : TrustStatus → Bool
is_trusted TrustStatus.trusted = true
is_trusted _ = false

abbrev pub is_untrusted : TrustStatus → Bool
is_untrusted TrustStatus.untrusted = true
is_untrusted _ = false

abbrev pub is_trusted_base : AuthorityBasis → Bool
is_trusted_base AuthorityBasis.trusted_base = true
is_trusted_base _ = false

abbrev pub is_advisory_workspace : AuthorityBasis → Bool
is_advisory_workspace AuthorityBasis.advisory_workspace = true
is_advisory_workspace _ = false

-- `==` on digests
abbrev pub digest_eq : Digest → Digest → Bool
digest_eq a b = a.algorithm == b.algorithm && a.value == b.value

unfoldable pub sha256 : Platform → String → Digest
sha256 go text = record { algorithm = digest_algorithm_sha256; value = go.sha256_hex text }
