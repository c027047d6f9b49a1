-- ===== src/Attestation/Signing/RoundTrip.antt =====
-- internal/attestation: what is signed verifies.
use assurectl.Prelude.{ℕ, String, true, ◌≡◌, refl, some, [], ◌∷◌, ok}
use assurectl.Platform.{Platform}
use assurectl.Attestation.{Bytes, Envelope}
use assurectl.Attestation.Pae.{pae}
use assurectl.Attestation.Signing.{
  Scheme, TrustedRoot, new_envelope, decode_payload, sign_envelope, resolve_key, check_signature,
  check_signatures, verify_envelope,
}

module _ (go : Platform) (scheme : Scheme)
    (decodes : (b : Bytes) → scheme.decode_base64 (scheme.encode_base64 b) ≡ some b)
    (private_key public_key : Bytes)
    (verifies : (m : Bytes) → scheme.verify public_key m (scheme.sign private_key m) ≡ true) where
  -- A payload that is put into an envelope and signed verifies at every instant at which the trusted
  -- root resolves the identifier to the public key of the signing key, provided that base64 decodes
  -- what it encodes and that the public key verifies what the private key signs.
  pub verify-sign :
      (payload_type : String) (payload : Bytes) (key_id : String) (root : TrustedRoot) (at : ℕ)
      → resolve_key go scheme root key_id at ≡ ok public_key
      → (signed : Envelope) × (sign_envelope go scheme
            (new_envelope go scheme payload_type payload)
            key_id
            private_key
          ≡ ok signed)
        × (decode_payload go scheme signed ≡ ok payload)
        × (verify_envelope go scheme signed root at ≡ ok tt)
  unfolding new_envelope sign_envelope decode_payload verify_envelope check_signatures
      check_signature
  verify-sign payload_type payload key_id root at resolved =
      let encoded = pae (scheme.bytes payload_type) payload in
      (
        record {
          payload_type = payload_type;
          payload = scheme.encode_base64 payload;
          signatures =
              record {
                key_id = key_id;
                sig = scheme.encode_base64 (scheme.sign private_key encoded);
              }
              ∷ [];
        },
        rw (decodes payload) refl,
        rw (decodes payload) refl,
        rw (decodes payload, resolved, decodes (scheme.sign private_key encoded), verifies encoded)
            refl,
      )
