-- ===== src/Attestation/Signing.antt =====
-- internal/attestation/dsse.go and signing.go: envelopes, the trusted root, signing and verifying.
-- Base64, Ed25519, SHA-256 and the JSON decoder are parameters.
pub mod Sound
pub mod RoundTrip
use assurectl.Prelude.{
  ℕ, suc, String, Bool, not, ◌&&◌, ◌||◌, Option, none, some, List, [], ◌∷◌, ◌++◌, length, eqb, ◌==◌,
  if◌then◌else◌, Result, ok, err, guard, ◌>>=◌, ◌>>◌,
}
use assurectl.Platform.{Platform, before, after}
use assurectl.Attestation.{Bytes, Signature, Envelope}
use assurectl.Attestation.Pae.{pae}

-- The bytes of a text, `base64.StdEncoding`, the hexadecimal SHA-256, `ed25519.Sign` and `ed25519.Verify`.
pub record Scheme : Type 0 where
  pub bytes : String → Bytes
  pub encode_base64 : Bytes → String
  pub decode_base64 : String → Option Bytes
  pub sha256_hex : Bytes → String
  pub sign : Bytes → Bytes → Bytes
  pub verify : Bytes → Bytes → Bytes → Bool

pub record TrustedKey : Type 0 where
  pub key_id : String
  pub ed25519_public : String

pub record ValidityWindow : Type 0 where
  pub from : String
  pub until : String

pub record TrustedIssuer : Type 0 where
  pub id : String
  pub keys : List TrustedKey
  pub valid : ValidityWindow

-- A version below zero is refused like every other than 1.
pub record TrustedRoot : Type 0 where
  pub root_version : ℕ
  pub issuers : List TrustedIssuer

pub data RootError : Type 0 where
  root_malformed root_version_unsupported issuers_empty no_valid_key : RootError
  window_malformed key_malformed key_size : String → RootError
  several_keys : ℕ → RootError

pub data EnvelopeError : Type 0 where
  envelope_malformed envelope_incomplete payload_malformed : EnvelopeError

pub data VerifyError : Type 0 where
  payload_undecodable signature_undecodable : VerifyError
  key_unresolved : RootError → VerifyError
  does_not_verify : String → VerifyError
  not_exactly_one : ℕ → ℕ → VerifyError

abbrev pub ed25519_public_key_size : ℕ
ed25519_public_key_size = 32

abbrev pub present {ℓ κ} : {E : Type κ} {A : Type ℓ} → E → Option A → Result E A
present e none = err e
present e (some a) = ok a

-- `ParseEnvelope` behind the JSON decoder
unfoldable pub parse_envelope : Option Envelope → Result EnvelopeError Envelope
parse_envelope decoded = do
  envelope ← present envelope_malformed decoded
  guard
      (not (
        envelope.payload_type == ""
        || envelope.payload == ""
        || not (eqb (length envelope.signatures) 1)))
      envelope_incomplete
  ok envelope

-- `ParseTrustedRoot` behind the JSON decoder
unfoldable pub parse_trusted_root : Option TrustedRoot → Result RootError TrustedRoot
parse_trusted_root decoded = do
  root ← present root_malformed decoded
  guard (eqb root.root_version 1) root_version_unsupported
  guard (not (eqb (length root.issuers) 0)) issuers_empty
  ok root

module _ (go : Platform) (scheme : Scheme) where
  -- `KeyID`
  unfoldable pub key_id_of : Bytes → String
  key_id_of public_key = scheme.sha256_hex public_key

  unfoldable pub new_envelope : String → Bytes → Envelope
  new_envelope payload_type payload = record {
    payload_type = payload_type;
    payload = scheme.encode_base64 payload;
    signatures = [];
  }

  unfoldable pub decode_payload : Envelope → Result EnvelopeError Bytes
  decode_payload envelope = present payload_malformed (scheme.decode_base64 envelope.payload)

  unfoldable pub sign_envelope : Envelope → String → Bytes → Result EnvelopeError Envelope
  sign_envelope envelope key_id private_key = do
    payload ← decode_payload envelope
    let signature = scheme.sign private_key (pae (scheme.bytes envelope.payload_type) payload)
    ok (record envelope {
      signatures =
          envelope.signatures
          ++ record { key_id = key_id; sig = scheme.encode_base64 signature } ∷ [];
    })

  -- the matches so far, and the last key
  abbrev pub Found : Type 0
  Found = ℕ × Bytes

  unfoldable pub decode_key : TrustedKey → Result RootError Bytes
  decode_key key = do
    raw ← present (key_malformed key.key_id) (scheme.decode_base64 key.ed25519_public)
    guard (eqb (length raw) ed25519_public_key_size) (key_size key.key_id)
    ok raw

  -- the loop over the keys of an issuer
  unfoldable pub scan_keys : String → Found → List TrustedKey → Result RootError Found
  scan_keys key_id s [] = ok s
  scan_keys key_id s (key ∷ keys) =
      if not (key.key_id == key_id)
      then scan_keys key_id s keys
      else (do raw ← decode_key key; scan_keys key_id (suc s.0, raw) keys)

  -- the loop over the issuers
  unfoldable pub scan_issuers : String → ℕ → Found → List TrustedIssuer → Result RootError Found
  scan_issuers key_id at s [] = ok s
  scan_issuers key_id at s (issuer ∷ issuers) = do
    from ← present (window_malformed issuer.id) (go.parse_time issuer.valid.from)
    until ← present (window_malformed issuer.id) (go.parse_time issuer.valid.until)
    if before at from || after at until
        then scan_issuers key_id at s issuers
        else (do t ← scan_keys key_id s issuer.keys; scan_issuers key_id at t issuers)

  unfoldable pub resolve_key : TrustedRoot → String → ℕ → Result RootError Bytes
  resolve_key root key_id at = do
    s ← scan_issuers key_id at (0, []) root.issuers
    if eqb s.0 0 then err no_valid_key else if eqb s.0 1 then ok s.1 else err (several_keys s.0)

  -- One round of the loop of `VerifyEnvelope`: whether the signature verifies, or why not.
  unfoldable pub check_signature :
      TrustedRoot → ℕ → Bytes → Signature → Result VerifyError (Unit {0})
  check_signature root at signed signature = do
    public_key ← elim (resolve_key root signature.key_id at) [
      | ok key ↦ ok key
      | err e ↦ err (key_unresolved e)
    ]
    sig ← present signature_undecodable (scheme.decode_base64 signature.sig)
    guard (scheme.verify public_key signed sig) (does_not_verify signature.key_id)

  -- the number of signatures that verified, and the last error
  abbrev pub Tally : Type 0
  Tally = ℕ × Option VerifyError

  abbrev pub count_one : Result VerifyError (Unit {0}) → Tally → Tally
  count_one (ok u) (verified, last_error) = (suc verified, last_error)
  count_one (err e) (verified, last_error) = (verified, some e)

  unfoldable pub check_signatures : TrustedRoot → ℕ → Bytes → Tally → List Signature → Tally
  check_signatures root at signed t [] = t
  check_signatures root at signed t (signature ∷ signatures) =
      check_signatures root at signed (count_one (check_signature root at signed signature) t)
        signatures

  abbrev reported : ℕ → ℕ → Option VerifyError → VerifyError
  reported verified total none = not_exactly_one verified total
  reported verified total (some e) = e

  unfoldable pub verify_envelope : Envelope → TrustedRoot → ℕ → Result VerifyError (Unit {0})
  verify_envelope envelope root at = do
    payload ← present payload_undecodable (scheme.decode_base64 envelope.payload)
    let t =
        check_signatures root at (pae (scheme.bytes envelope.payload_type) payload) (0, none)
          envelope.signatures
    guard (eqb t.0 1 && eqb (length envelope.signatures) 1)
        (reported t.0 (length envelope.signatures) t.1)
