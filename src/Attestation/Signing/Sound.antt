-- ===== src/Attestation/Signing/Sound.antt =====
-- internal/attestation/signing.go: what a verified envelope is.
use assurectl.Prelude.{
  ℕ, suc, ◌+◌, String, Bool, true, false, not, ◌||◌, ◌≡◌, refl, sym, ap, subst, ◌∙◌, inl, inr,
  Option, none, some, List, [], ◌∷◌, ◌++◌, length, select, eqb, ◌==◌, Result, ok, err, bind_ok,
  guard_ok, ok_injective, Bool-cases, Result-cases, if◌then◌else◌, arith,
}
use assurectl.Platform.{Platform, before, after}
use assurectl.Attestation.{Bytes, Signature, Envelope}
use assurectl.Attestation.Pae.{pae}
use assurectl.Attestation.Signing.{
  Scheme, TrustedKey, TrustedIssuer, TrustedRoot, RootError, ed25519_public_key_size, present,
  window_malformed, payload_undecodable, signature_undecodable, key_unresolved, decode_key,
  scan_keys, scan_issuers, resolve_key, check_signature, check_signatures, verify_envelope,
}

present_ok {ℓ κ} :
    {E : Type κ} {A : Type ℓ} (e : E) (o : Option A) {a : A} → present e o ≡ ok a → o ≡ some a
present_ok e (some b) h = cc
present_ok e none h = absurd (cc)

select-cons {ℓ} :
    {A : Type ℓ} (p : A → Bool) (x : A) (xs : List A)
    → p x ≡ true
    → select p (x ∷ xs) ≡ x ∷ select p xs
select-cons p x xs h = ground arith

select-skip {ℓ} :
    {A : Type ℓ} (p : A → Bool) (x : A) (xs : List A)
    → p x ≡ false
    → select p (x ∷ xs) ≡ select p xs
select-skip p x xs h = ground arith

module _ (go : Platform) (scheme : Scheme) where
  -- The keys of an identifier among the issuers whose window holds the instant; an issuer whose
  -- window cannot be read has none.
  abbrev keys_named : String → List TrustedKey → List TrustedKey
  keys_named key_id keys = select (λ (key : TrustedKey). key.key_id == key_id) keys

  abbrev in_window : ℕ → Option ℕ → Option ℕ → Bool
  in_window at (some from) (some until) = not (before at from || after at until)
  in_window at (some from) none = false
  in_window at none until = false

  abbrev issuer_keys : String → ℕ → TrustedIssuer → List TrustedKey
  issuer_keys key_id at issuer =
      if in_window at (go.parse_time issuer.valid.from) (go.parse_time issuer.valid.until)
      then keys_named key_id issuer.keys
      else []

  abbrev pub valid_keys : String → ℕ → List TrustedIssuer → List TrustedKey
  valid_keys key_id at [] = []
  valid_keys key_id at (issuer ∷ issuers) =
      issuer_keys key_id at issuer ++ valid_keys key_id at issuers

  -- From one state of the scan to another over keys that all decode to the size of a key.
  abbrev Steps : ℕ × Bytes → List TrustedKey → ℕ × Bytes → Type 0
  Steps s [] t = s ≡ t
  Steps s (key ∷ keys) t =
      (raw : Bytes) × (scheme.decode_base64 key.ed25519_public ≡ some raw)
      × (length raw ≡ ed25519_public_key_size)
      × Steps (suc s.0, raw) keys t

  Steps-append :
      (s m t : ℕ × Bytes) (xs ys : List TrustedKey)
      → Steps s xs m
      → Steps m ys t
      → Steps s (xs ++ ys) t
  Steps-append s m t [] ys h k = subst (λ u. Steps u ys t) (sym h) k
  Steps-append s m t (x ∷ xs) ys (raw, d, l, h) k =
      (raw, d, l, Steps-append (suc s.0, raw) m t xs ys h k)

  counted : (s t : ℕ × Bytes) (keys : List TrustedKey) → Steps s keys t → t.0 ≡ s.0 + length keys
  counted s t [] h = omega (arith, ap (λ u. u.0) h)
  counted s t (key ∷ keys) (raw, d, l, h) = omega (arith, counted (suc s.0, raw) t keys h)

  decode_key_sound :
      (key : TrustedKey) (raw : Bytes)
      → decode_key go scheme key ≡ ok raw
      → (scheme.decode_base64 key.ed25519_public ≡ some raw)
        × (length raw ≡ ed25519_public_key_size)
  unfolding decode_key
  decode_key_sound key raw h =
      let (read, r, h1) = bind_ok (present _ (scheme.decode_base64 key.ed25519_public)) _ h in
      let (sized, h2) = guard_ok (eqb (length read) ed25519_public_key_size) _ _ h1 in
      subst
        (λ b.
          (scheme.decode_base64 key.ed25519_public ≡ some b) × (length b ≡ ed25519_public_key_size))
        (ok_injective h2) (present_ok _ _ r, ground arith)

  scan_keys_sound :
      (key_id : String) (s t : ℕ × Bytes) (keys : List TrustedKey)
      → scan_keys go scheme key_id s keys ≡ ok t
      → Steps s (keys_named key_id keys) t
  unfolding scan_keys
  scan_keys_sound key_id s t [] h = ok_injective h
  scan_keys_sound key_id s t (key ∷ keys) h = elim (Bool-cases (key.key_id == key_id)) [
    | inr other ↦
        let skipped : keys_named key_id (key ∷ keys) ≡ keys_named key_id keys =
          select-skip (λ (k : TrustedKey). k.key_id == key_id) key keys other in
        subst (λ k. Steps s k t) (sym skipped) (scan_keys_sound key_id s t keys (rw other at h))
    | inl same ↦
        let (raw, d, h1) = bind_ok (decode_key go scheme key) _ (rw same at h) in
        let (decodes, sized) = decode_key_sound key raw d in
        let kept : keys_named key_id (key ∷ keys) ≡ key ∷ keys_named key_id keys =
          select-cons (λ (k : TrustedKey). k.key_id == key_id) key keys same in
        subst (λ k. Steps s k t) (sym kept)
          (raw, decodes, sized, scan_keys_sound key_id (suc s.0, raw) t keys h1)
  ]

  scan_issuers_sound :
      (key_id : String) (at : ℕ) (s t : ℕ × Bytes) (issuers : List TrustedIssuer)
      → scan_issuers go scheme key_id at s issuers ≡ ok t
      → Steps s (valid_keys key_id at issuers) t
  unfolding scan_issuers
  scan_issuers_sound key_id at s t [] h = ok_injective h
  scan_issuers_sound key_id at s t (issuer ∷ issuers) h =
      let (from, f, h1) =
        bind_ok (present (window_malformed issuer.id) (go.parse_time issuer.valid.from)) _ h in
      let (until, u, h2) =
        bind_ok (present (window_malformed issuer.id) (go.parse_time issuer.valid.until)) _ h1 in
      rw (present_ok _ _ f, present_ok _ _ u)
        (elim (Bool-cases (before at from || after at until)) [
          | inl outside ↦ rw outside (scan_issuers_sound key_id at s t issuers (rw outside at h2))
          | inr inside ↦
              let (m, k, h3) =
                bind_ok (scan_keys go scheme key_id s issuer.keys) _ (rw inside at h2) in
              rw inside (
                Steps-append s m t (keys_named key_id issuer.keys) _
                  (scan_keys_sound key_id s m issuer.keys k)
                  (scan_issuers_sound key_id at m t issuers h3))
        ])

  only_key :
      (keys : List TrustedKey) (t : ℕ × Bytes)
      → Steps (0, []) keys t
      → t.0 ≡ 1
      → (key : TrustedKey) × (keys ≡ key ∷ [])
        × (scheme.decode_base64 key.ed25519_public ≡ some t.1)
        × (length t.1 ≡ ed25519_public_key_size)
  only_key [] t h one = absurd (omega (arith, ap (λ u. u.0) h))
  only_key (key ∷ []) t (raw, d, l, h) one =
      (key, refl, d ∙ ap (λ u. some u.1) h, subst (λ u. length u.1 ≡ ed25519_public_key_size) h l)
  only_key (key ∷ (next ∷ keys)) t h one =
      absurd (omega (arith, counted (0, []) t (key ∷ (next ∷ keys)) h))

  -- A key that resolves is the only one of its identifier among the issuers whose window holds the
  -- instant.
  resolve_key_sound :
      (root : TrustedRoot) (key_id : String) (at : ℕ) (public_key : Bytes)
      → resolve_key go scheme root key_id at ≡ ok public_key
      → (key : TrustedKey) × (valid_keys key_id at root.issuers ≡ key ∷ [])
        × (scheme.decode_base64 key.ed25519_public ≡ some public_key)
        × (length public_key ≡ ed25519_public_key_size)
  unfolding resolve_key
  resolve_key_sound root key_id at public_key h =
      let (t, s, h1) = bind_ok (scan_issuers go scheme key_id at (0, []) root.issuers) _ h in
      let (key, only, d, l) =
        only_key (valid_keys key_id at root.issuers) t
          (scan_issuers_sound key_id at (0, []) t root.issuers s) (ground arith) in
      let same : t.1 ≡ public_key = ground arith in
      (key, only, d ∙ ap some same, subst (λ b. length b ≡ ed25519_public_key_size) same l)

  -- What stands behind a signature that verifies: the only key of its identifier that is valid at
  -- the instant, and the verification under it of what was signed.
  abbrev pub Verified : TrustedRoot → ℕ → Bytes → Signature → Type 0
  Verified root at signed signature =
      (key : TrustedKey) × (public_key : Bytes) × (sig : Bytes) × (valid_keys signature.key_id at
          root.issuers
        ≡ key ∷ [])
      × (scheme.decode_base64 key.ed25519_public ≡ some public_key)
      × (length public_key ≡ ed25519_public_key_size)
      × (scheme.decode_base64 signature.sig ≡ some sig)
      × (scheme.verify public_key signed sig ≡ true)

  resolved_ok :
      (r : Result RootError Bytes) {b : Bytes}
      → elim r [ ok key ↦ ok key | err e ↦ err (key_unresolved e) ] ≡ ok b
      → r ≡ ok b
  resolved_ok (ok key) h = ap ok (ok_injective h)
  resolved_ok (err e) h = absurd (cc)

  check_signature_sound :
      (root : TrustedRoot) (at : ℕ) (signed : Bytes) (signature : Signature)
      → check_signature go scheme root at signed signature ≡ ok tt
      → Verified root at signed signature
  unfolding check_signature
  check_signature_sound root at signed signature h =
      let (public_key, k, h1) =
        bind_ok
          (elim (resolve_key go scheme root signature.key_id at) [
            | ok key ↦ ok key
            | err e ↦ err (key_unresolved e)
          ])
          _ h in
      let (sig, s, h2) =
        bind_ok (present signature_undecodable (scheme.decode_base64 signature.sig)) _ h1 in
      let (key, only, decodes, sized) =
        resolve_key_sound root signature.key_id at public_key (resolved_ok _ k) in
      (key, public_key, sig, only, decodes, sized, present_ok _ _ s, ground arith)

  one_signature :
      (root : TrustedRoot) (at : ℕ) (signed : Bytes) (signatures : List Signature)
      → (check_signatures go scheme root at signed (0, none) signatures).0 ≡ 1
      → length signatures ≡ 1
      → (signature : Signature) × (signatures ≡ signature ∷ []) × Verified root at signed signature
  unfolding check_signatures
  one_signature root at signed [] t h = absurd (omega arith)
  one_signature root at signed (signature ∷ []) t h =
      elim (Result-cases (check_signature go scheme root at signed signature)) [
        | inl (u, verified) ↦
            (signature, refl, check_signature_sound root at signed signature verified)
        | inr (e, failed) ↦ absurd (ground arith)
      ]
  one_signature root at signed (signature ∷ (next ∷ rest)) t h = absurd (omega arith)

  -- An envelope verifies only if it has exactly one signature, its payload decodes, and the
  -- signature verifies over the encoding of its type and payload under the only trusted key of its
  -- identifier that is valid at the instant, which has the size of a key.
  pub verify_envelope_sound :
      (envelope : Envelope) (root : TrustedRoot) (at : ℕ)
      → verify_envelope go scheme envelope root at ≡ ok tt
      → (payload : Bytes) × (signature : Signature) × (scheme.decode_base64 envelope.payload
          ≡ some payload)
        × (envelope.signatures ≡ signature ∷ [])
        × Verified root at (pae (scheme.bytes envelope.payload_type) payload) signature
  unfolding verify_envelope
  verify_envelope_sound envelope root at h =
      let (payload, p, h1) =
        bind_ok (present payload_undecodable (scheme.decode_base64 envelope.payload)) _ h in
      let signed = pae (scheme.bytes envelope.payload_type) payload in
      let (signature, only, verified) =
        one_signature root at signed envelope.signatures (ground arith) (ground arith) in
      (payload, signature, present_ok _ _ p, only, verified)
