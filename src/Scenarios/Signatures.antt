-- ===== src/Scenarios/Signatures.antt =====
-- Runs of internal/attestation with a toy codec and a toy signature.
use Prim.Native.Char.{code}
use assurectl.Prelude.{
  ℕ, zero, suc, ◌+◌, String, Bool, true, false, ◌&&◌, ◌≡◌, refl, ap, ◌∙◌, Option, none, some, [],
  ◌∷◌, ◌==◌, eqb, if◌then◌else◌, ok, arith,
}
use assurectl.Attestation.{Bytes, Signature, Envelope}
use assurectl.Attestation.Pae.{digits, decimal, pae}
use assurectl.Attestation.Pae.Injective.{pae_injective}
use assurectl.Attestation.Signing.{
  Scheme, TrustedRoot, new_envelope, decode_payload, sign_envelope, decode_key, scan_keys,
  scan_issuers, resolve_key, check_signature, check_signatures, verify_envelope,
}
use assurectl.Attestation.Signing.Sound.{Verified, verify_envelope_sound}
use assurectl.Attestation.Signing.RoundTrip.{verify-sign}
use assurectl.Scenarios.{demo_platform}

-- A byte is as many ones as it counts, and a zero.
abbrev ones : ℕ → String → String
ones zero s = String.◌∷◌ "0" s
ones (suc n) s = String.◌∷◌ "1" (ones n s)

abbrev encode : Bytes → String
encode [] = ""
encode (n ∷ b) = ones n (encode b)

abbrev in_front : ℕ → Option Bytes → Option Bytes
in_front n none = none
in_front n (some b) = some (n ∷ b)

abbrev decode : String → ℕ → Option Bytes
decode String.[] n = some []
decode (String.◌∷◌ c s) n =
    let more = decode s (suc n) in
    let next = decode s 0 in if eqb (code c) b'1' then more else in_front n next

abbrev same_bytes : Bytes → Bytes → Bool
same_bytes [] [] = true
same_bytes (m ∷ a) (n ∷ b) = eqb m n && same_bytes a b
same_bytes _ _ = false

abbrev demo_scheme : Scheme
demo_scheme = record {
  bytes = λ text. if text == "t" then b't' ∷ [] else [];
  encode_base64 = encode;
  decode_base64 = λ text. decode text 0;
  sha256_hex = λ b. "00";
  sign = λ private_key message. message;
  verify = λ public_key message signature. same_bytes message signature;
}

decode-ones : (n k : ℕ) (s : String) → decode (ones n s) k ≡ in_front (k + n) (decode s 0)
decode-ones zero k s = ap (λ m. in_front m (decode s 0)) (omega arith)
decode-ones (suc n) k s = decode-ones n (suc k) s ∙ ap (λ m. in_front m (decode s 0)) (omega arith)

decode-encode : (b : Bytes) → decode (encode b) 0 ≡ some b
decode-encode [] = refl
decode-encode (n ∷ b) =
    decode-ones n 0 (encode b)
    ∙ ap (λ m. in_front m (decode (encode b) 0)) (omega arith)
    ∙ ap (in_front n) (decode-encode b)

same_bytes_refl : (b : Bytes) → same_bytes b b ≡ true
same_bytes_refl [] = refl
same_bytes_refl (n ∷ b) = ground (arith, same_bytes_refl b)

abbrev demo_key : Bytes
demo_key =
    0 ∷ 0 ∷ 0 ∷ 0 ∷ 0 ∷ 0 ∷ 0 ∷ 0 ∷ 0 ∷ 0 ∷ 0 ∷ 0 ∷ 0 ∷ 0 ∷ 0 ∷ 0 ∷ 0 ∷ 0 ∷ 0 ∷ 0 ∷ 0 ∷ 0 ∷ 0 ∷ 0
    ∷ 0 ∷ 0 ∷ 0 ∷ 0 ∷ 0 ∷ 0 ∷ 0 ∷ 0 ∷ []

abbrev demo_root : TrustedRoot
demo_root = record {
  root_version = 1;
  issuers =
      record {
        id = "issuer";
        keys =
            record { key_id = "other"; ed25519_public = "" }
            ∷ record { key_id = "key"; ed25519_public = "00000000000000000000000000000000" }
            ∷ [];
        valid = record { from = "2026-01-01T00:00:00Z"; until = "2026-03-01T00:00:00Z" };
      }
      ∷ [];
}

abbrev demo_instant : ℕ
demo_instant = 41000000000000000

abbrev signed_envelope : Envelope
signed_envelope = record {
  payload_type = "t";
  payload = encode (3 ∷ 1 ∷ []);
  signatures = record { key_id = "key"; sig = encode (pae (b't' ∷ []) (3 ∷ 1 ∷ [])) } ∷ [];
}

resolves : resolve_key demo_platform demo_scheme demo_root "key" demo_instant ≡ ok demo_key
unfolding resolve_key scan_issuers scan_keys decode_key
resolves = refl

verify-sign_example :
    (signed : Envelope) × (sign_envelope demo_platform demo_scheme
        (new_envelope demo_platform demo_scheme "t" (3 ∷ 1 ∷ []))
        "key"
        []
      ≡ ok signed)
    × (decode_payload demo_platform demo_scheme signed ≡ ok (3 ∷ 1 ∷ []))
    × (verify_envelope demo_platform demo_scheme signed demo_root demo_instant ≡ ok tt)
verify-sign_example =
    verify-sign demo_platform demo_scheme decode-encode [] demo_key same_bytes_refl "t" (3 ∷ 1 ∷ [])
      "key" demo_root demo_instant resolves

verifies : verify_envelope demo_platform demo_scheme signed_envelope demo_root demo_instant ≡ ok tt
unfolding verify_envelope check_signatures check_signature resolve_key scan_issuers scan_keys
    decode_key pae decimal digits
verifies = refl

verify_envelope_sound_example :
    (payload : Bytes) × (signature : Signature) × (demo_scheme.decode_base64 signed_envelope.payload
      ≡ some payload)
    × (signed_envelope.signatures ≡ signature ∷ [])
    × Verified demo_platform demo_scheme demo_root demo_instant
        (pae (demo_scheme.bytes signed_envelope.payload_type) payload)
        signature
verify_envelope_sound_example =
    verify_envelope_sound demo_platform demo_scheme signed_envelope demo_root demo_instant verifies

abbrev demo_type : Bytes
demo_type = b't' ∷ []

abbrev demo_payload : Bytes
demo_payload = 3 ∷ 1 ∷ []

pae_injective_example : (demo_type ≡ demo_type) × (demo_payload ≡ demo_payload)
pae_injective_example = pae_injective demo_type demo_type demo_payload demo_payload refl
