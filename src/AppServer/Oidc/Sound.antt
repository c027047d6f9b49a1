-- ===== src/AppServer/Oidc/Sound.antt =====
-- internal/appserver/oidc.go: what a validated token is.
use assurectl.Prelude.{
  ℕ, ◌<◌, String, Bool, true, false, ◌≡◌, refl, sym, ap, subst, ◌∙◌, Option, none, some, List, [],
  ◌∷◌, ◌==◌, ◌<>◌, eq_iff, split, is_blank, ok, bind_ok, guard_ok, guard-not_ok, ok_injective,
  arith,
}
use assurectl.AppServer.{ExpectedClaims, ValidatedClaims}
use assurectl.AppServer.Oidc.{
  Header, Claims, PublicKey, rsa, other, Tokens, TokenError, header_malformed, key_unknown,
  signature_malformed, payload_malformed, found, three_parts, rsa_key, is_past, verified_header,
  accepted_claims, validate,
}

found_ok {ℓ} : {A : Type ℓ} (e : TokenError) (o : Option A) {a : A} → found e o ≡ ok a → o ≡ some a
found_ok e (some b) h = cc
found_ok e none h = absurd (cc)

three_parts_ok :
    (parts : List String) (header payload signature : String)
    → three_parts parts ≡ ok (header, payload, signature)
    → parts ≡ header ∷ payload ∷ signature ∷ []
three_parts_ok (a ∷ (b ∷ (c ∷ []))) header payload signature h = cc
three_parts_ok [] header payload signature h = absurd (cc)
three_parts_ok (a ∷ []) header payload signature h = absurd (cc)
three_parts_ok (a ∷ (b ∷ [])) header payload signature h = absurd (cc)
three_parts_ok (a ∷ (b ∷ (c ∷ (d ∷ rest)))) header payload signature h = absurd (cc)

rsa_key_ok {ℓ} :
    {Key : Type ℓ} (any_key : PublicKey Key) {key : Key}
    → rsa_key any_key ≡ ok key
    → any_key ≡ rsa key
rsa_key_ok (rsa key) h = ap rsa (ok_injective h)
rsa_key_ok other h = absurd (cc)

is_past_sound : (now : ℕ) (e : Bool × ℕ) → is_past now e ≡ false → (e.0 ≡ false) × (now < e.1)
unfolding is_past
is_past_sound now (true, magnitude) h = absurd (cc)
is_past_sound now (false, magnitude) h = (refl, ground arith)

-- The binding claims of a token.
abbrev pub granted : Claims → ValidatedClaims
granted claims = record {
  repository = claims.repository;
  workflow_ref = claims.workflow_ref;
  workflow_sha = claims.workflow_sha;
  sha = claims.sha;
}

module _ {ℓ} {Key : Type ℓ} (tokens : Tokens Key) (issuer audience : String) (now : ℕ) where
  verified_header_ok :
      (h p s : String) (header : Header)
      → verified_header tokens issuer audience now h p s ≡ ok header
      → (header_text : String) × (key : Key) × (signature : String) × (tokens.decode h
          ≡ some header_text)
        × (tokens.header header_text ≡ some header)
        × (header.alg ≡ "RS256")
        × (tokens.key header.kid ≡ some (rsa key))
        × (tokens.decode s ≡ some signature)
        × (tokens.verify key (h <> "." <> p) signature ≡ true)
  unfolding verified_header
  verified_header_ok h p s found_header e =
      let (header_text, x, e3) = bind_ok (found header_malformed (tokens.decode h)) _ e in
      let (header, y, e4) = bind_ok (found header_malformed (tokens.header header_text)) _ e3 in
      let (alg, e5) = guard_ok (header.alg == "RS256") _ _ e4 in
      let (any_key, k, e6) = bind_ok (found key_unknown (tokens.key header.kid)) _ e5 in
      let (key, r, e7) = bind_ok (rsa_key any_key) _ e6 in
      let (signature, t, e8) = bind_ok (found signature_malformed (tokens.decode s)) _ e7 in
      let (verified, e9) = guard_ok (tokens.verify key (h <> "." <> p) signature) _ _ e8 in
      let same : header ≡ found_header = ok_injective e9 in
      (
        header_text,
        key,
        signature,
        found_ok _ _ x,
        found_ok _ _ y ∙ ap some same,
        ap (λ m. m.alg) (sym same) ∙ (eq_iff header.alg "RS256").0 alg,
        ap (λ m. tokens.key m.kid) (sym same) ∙ found_ok _ _ k ∙ ap some (rsa_key_ok any_key r),
        found_ok _ _ t,
        verified,
      )

  accepted_claims_ok :
      (p : String) (claims : Claims)
      → accepted_claims tokens issuer audience now p ≡ ok claims
      → (payload : String) × (tokens.decode p ≡ some payload)
        × (tokens.claims payload ≡ some claims)
        × (claims.issuer ≡ issuer)
        × (claims.audience ≡ audience)
        × (claims.expires_at.0 ≡ false)
        × (now < claims.expires_at.1)
  unfolding accepted_claims
  accepted_claims_ok p found_claims e =
      let (payload, z, e1) = bind_ok (found payload_malformed (tokens.decode p)) _ e in
      let (claims, c, e2) = bind_ok (found payload_malformed (tokens.claims payload)) _ e1 in
      let (issued, e3) = guard_ok (claims.issuer == issuer) _ _ e2 in
      let (addressed, e4) = guard_ok (claims.audience == audience) _ _ e3 in
      let (current, e5) = guard-not_ok (is_past now claims.expires_at) _ _ e4 in
      let (positive, later) = is_past_sound now claims.expires_at current in
      subst
        (λ m.
          (payload : String) × (tokens.decode p ≡ some payload)
          × (tokens.claims payload ≡ some m)
          × (m.issuer ≡ issuer)
          × (m.audience ≡ audience)
          × (m.expires_at.0 ≡ false)
          × (now < m.expires_at.1))
        (ok_injective e5)
        (
          payload,
          found_ok _ _ z,
          found_ok _ _ c,
          (eq_iff claims.issuer issuer).0 issued,
          (eq_iff claims.audience audience).0 addressed,
          positive,
          later,
        )

  -- A validated token has three parts; the header in the first names RS256 and an RSA key of the
  -- source, under which the third is a signature of the first two; the claims in the second name
  -- the configured issuer and audience and have not expired, and the answer is taken from them.
  pub validate_sound :
      (token : String) (expect : ExpectedClaims) (validated : ValidatedClaims)
      → validate tokens issuer audience now token expect ≡ ok validated
      → (h : String) × (p : String) × (s : String) × (header_text : String) × (header : Header)
        × (key : Key) × (signature : String) × (payload : String) × (claims : Claims) × (split b'.'
              token
            ≡ h ∷ p ∷ s ∷ [])
        × (tokens.decode h ≡ some header_text)
        × (tokens.header header_text ≡ some header)
        × (header.alg ≡ "RS256")
        × (tokens.key header.kid ≡ some (rsa key))
        × (tokens.decode s ≡ some signature)
        × (tokens.verify key (h <> "." <> p) signature ≡ true)
        × (tokens.decode p ≡ some payload)
        × (tokens.claims payload ≡ some claims)
        × (claims.issuer ≡ issuer)
        × (claims.audience ≡ audience)
        × (claims.expires_at.0 ≡ false)
        × (now < claims.expires_at.1)
        × (validated ≡ granted claims)
  unfolding validate
  validate_sound token expect validated e =
      let (given, e1) = guard-not_ok (is_blank token) _ _ e in
      let (parts, t, e2) = bind_ok (three_parts (split b'.' token)) _ e1 in
      let (h, p, s) = parts in
      let (header, v, e3) = bind_ok (verified_header tokens issuer audience now h p s) _ e2 in
      let (claims, c, e4) = bind_ok (accepted_claims tokens issuer audience now p) _ e3 in
      let (header_text, key, signature, coded, parsed, alg, rsa_named, signed, verified) =
        verified_header_ok h p s header v in
      let (payload, decoded, read, issued, addressed, positive, later) =
        accepted_claims_ok p claims c in
      (
        h,
        p,
        s,
        header_text,
        header,
        key,
        signature,
        payload,
        claims,
        three_parts_ok (split b'.' token) h p s t,
        coded,
        parsed,
        alg,
        rsa_named,
        signed,
        verified,
        decoded,
        read,
        issued,
        addressed,
        positive,
        later,
        sym (ok_injective e4),
      )
