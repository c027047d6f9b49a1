-- ===== src/AppServer/Oidc.antt =====
-- internal/appserver/oidc.go: the validation of a token. Base64, JSON, RSA and the source of the keys
-- are parameters; the time is in seconds since 1970.
pub mod Sound
use assurectl.Prelude.{
  ℕ, String, Bool, true, false, not, Option, none, some, List, [], ◌∷◌, ◌==◌, ◌<>◌, leb, split,
  is_blank, Result, ok, err, guard, ◌>>=◌, ◌>>◌,
}
use assurectl.AppServer.{ExpectedClaims, ValidatedClaims}

pub record Header : Type 0 where
  pub alg : String
  pub kid : String

-- The instant of expiry is any integer: true for a negative one, and a magnitude.
pub record Claims : Type 0 where
  pub issuer : String
  pub audience : String
  pub expires_at : Bool × ℕ
  pub repository : String
  pub workflow_ref : String
  pub workflow_sha : String
  pub sha : String

-- what a source of keys returns: an RSA key or another
pub data PublicKey {ℓ} (Key : Type ℓ) : Type ℓ where
  rsa : Key → PublicKey Key
  other : PublicKey Key

-- `base64.RawURLEncoding`, the JSON decoder on a header and on claims, the source of the keys, and
-- `rsa.VerifyPKCS1v15` over the SHA-256 of a text.
pub record Tokens {ℓ} (Key : Type ℓ) : Type ℓ where
  pub decode : String → Option String
  pub header : String → Option Header
  pub claims : String → Option Claims
  pub key : String → Option (PublicKey Key)
  pub verify : Key → String → String → Bool

pub data TokenError : Type 0 where
  token_empty token_malformed header_malformed algorithm_unsupported key_unknown key_not_rsa
        signature_malformed signature_wrong payload_malformed issuer_not_accepted
        audience_not_accepted token_expired :
      TokenError

abbrev pub found {ℓ} : {A : Type ℓ} → TokenError → Option A → Result TokenError A
found e none = err e
found e (some a) = ok a

abbrev pub three_parts : List String → Result TokenError (String × String × String)
three_parts (header ∷ (payload ∷ (signature ∷ []))) = ok (header, payload, signature)
three_parts _ = err token_malformed

abbrev pub rsa_key {ℓ} : {Key : Type ℓ} → PublicKey Key → Result TokenError Key
rsa_key (rsa key) = ok key
rsa_key other = err key_not_rsa

-- `now >= exp`
unfoldable pub is_past : ℕ → Bool × ℕ → Bool
is_past now (true, magnitude) = true
is_past now (false, magnitude) = leb magnitude now

module _ {ℓ} {Key : Type ℓ} (tokens : Tokens Key) (issuer audience : String) (now : ℕ) where
  -- from the header to the signature
  unfoldable pub verified_header : String → String → String → Result TokenError Header
  verified_header header_part payload_part signature_part = do
    header_text ← found header_malformed (tokens.decode header_part)
    header ← found header_malformed (tokens.header header_text)
    guard (header.alg == "RS256") algorithm_unsupported
    any_key ← found key_unknown (tokens.key header.kid)
    key ← rsa_key any_key
    signature ← found signature_malformed (tokens.decode signature_part)
    guard (tokens.verify key (header_part <> "." <> payload_part) signature) signature_wrong
    ok header

  -- the claims and the tests on them
  unfoldable pub accepted_claims : String → Result TokenError Claims
  accepted_claims payload_part = do
    payload ← found payload_malformed (tokens.decode payload_part)
    claims ← found payload_malformed (tokens.claims payload)
    guard (claims.issuer == issuer) issuer_not_accepted
    guard (claims.audience == audience) audience_not_accepted
    guard (not (is_past now claims.expires_at)) token_expired
    ok claims

  unfoldable pub validate : String → ExpectedClaims → Result TokenError ValidatedClaims
  validate token expect = do
    guard (not (is_blank token)) token_empty
    parts ← three_parts (split b'.' token)
    let (header_part, payload_part, signature_part) = parts
    header ← verified_header header_part payload_part signature_part
    claims ← accepted_claims payload_part
    ok (record {
      repository = claims.repository;
      workflow_ref = claims.workflow_ref;
      workflow_sha = claims.workflow_sha;
      sha = claims.sha;
    })
