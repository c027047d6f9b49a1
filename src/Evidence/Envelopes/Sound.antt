-- ===== src/Evidence/Envelopes/Sound.antt =====
-- internal/evidence/loader.go: what a decoded envelope has, and bounds of its texts.
use assurectl.Prelude.{
  ℕ, ◌≤◌, String, Bounded, true, not, ◌≡◌, refl, subst, inl, inr, Option, none, some, Result-cases,
  bind_ok, ok_injective, guard, Option-cases, ok, eq_iff, object_id_pattern, digest_pattern, arith,
}
use assurectl.Platform.{Platform, before}
use assurectl.Domain.{outcome_valid}
use assurectl.InputMeta.{Digest, digest_algorithm_sha256, sha256}
use assurectl.Decision.Valid.{Canonical}
use assurectl.Evidence.{Envelope, schema_version}
use assurectl.Evidence.Envelopes.{
  Json, present, undecodable, RawEnvelope, optional_string, optional_object_id, optional_digest,
  optional_integer, DecodedEnvelope, validate_bounded_string, validate_digest, parse_timestamp,
  normalize_envelope, validate_envelope, decode_envelope,
}

abbrev pub SoundDigest : Digest → Type 0
SoundDigest digest =
    (digest.algorithm ≡ digest_algorithm_sha256) × (digest_pattern digest.value ≡ true)

-- if the optional value is there, it has the property
abbrev pub Given {ℓ κ} : {A : Type ℓ} → (A → Type κ) → Option A → Type κ
Given P none = Unit
Given P (some a) = P a

pub record SoundEnvelope (envelope : Envelope) : Type 0 where
  pub schema_supported : envelope.schema_version ≡ schema_version
  pub id_canonical : Canonical envelope.id
  pub type_within : Bounded 128 envelope.type
  pub repository_within : Bounded 1024 envelope.subject.repository_uri
  pub revision_object_id : object_id_pattern envelope.subject.revision ≡ true
  pub producer_within : Bounded 128 envelope.producer.type
  pub identity_within : Bounded 1024 envelope.producer.identity
  pub command_within : Bounded 256 envelope.invocation.command_id
  pub outcome_supported : outcome_valid envelope.outcome.status ≡ true
  pub uri_within : Bounded 2048 envelope.artifact.uri
  pub artifact_digest : SoundDigest envelope.artifact.digest
  pub media_type_within : Bounded 256 envelope.artifact.media_type
  pub workflow_within : Given (Bounded 1024) envelope.producer.workflow
  pub workflow_revision_object_id :
      Given (λ r. object_id_pattern r ≡ true) envelope.producer.workflow_revision
  pub environment_digest : Given SoundDigest envelope.invocation.environment_digest

-- the envelope is sound, its instants are those of its texts and in order, and the digest is the
-- one of its canonical JSON
pub record SoundDecoded (go : Platform) (json : Json) (decoded : DecodedEnvelope) : Type 0 where
  pub envelope_sound : SoundEnvelope decoded.envelope
  pub started_parses :
      go.parse_time decoded.envelope.invocation.started_at ≡ some decoded.started_at
  pub finished_parses :
      go.parse_time decoded.envelope.invocation.finished_at ≡ some decoded.finished_at
  pub in_order : decoded.started_at ≤ decoded.finished_at
  pub digest_canonical : decoded.digest ≡ sha256 go (json.marshal decoded.envelope)

validate_bounded_string_sound :
    (field value : String) (max : ℕ)
    → validate_bounded_string field value max ≡ ok tt
    → Bounded max value
unfolding validate_bounded_string
validate_bounded_string_sound field value max h = ground arith

validate_digest_sound :
    (field : String) (digest : Digest) → validate_digest field digest ≡ ok tt → SoundDigest digest
unfolding validate_digest
validate_digest_sound field digest h =
    ground (arith, eq_iff digest.algorithm digest_algorithm_sha256)

parse_timestamp_sound :
    (go : Platform) (field value : String) (instant : ℕ)
    → parse_timestamp go field value ≡ ok instant
    → go.parse_time value ≡ some instant
unfolding parse_timestamp
parse_timestamp_sound go field value instant h = elim (Option-cases (go.parse_time value)) [
  | inl failed ↦ absurd (ground arith)
  | inr (parsed, parses) ↦ ground arith
]

module _ (json : Json) where
  optional_string_sound :
      (field raw : String) (max : ℕ) (value : Option String)
      → optional_string json field raw max ≡ ok value
      → Given (Bounded max) value
  unfolding optional_string
  optional_string_sound field raw max none h = tt
  optional_string_sound field raw max (some value) h =
      elim (Option-cases (json.unmarshal_string raw)) [
        | inl failed ↦ absurd (ground arith)
        | inr (read, reads) ↦ elim (Result-cases (validate_bounded_string field read max)) [
          | inr (e, failed) ↦ absurd (ground arith)
          | inl (u, bounded) ↦
              subst (Bounded max) (ground arith)
                (validate_bounded_string_sound field read max bounded)
        ]
      ]

  optional_object_id_sound :
      (field raw : String) (value : Option String)
      → optional_object_id json field raw ≡ ok value
      → Given (λ r. object_id_pattern r ≡ true) value
  unfolding optional_object_id
  optional_object_id_sound field raw none h = tt
  optional_object_id_sound field raw (some value) h = ground arith

  optional_digest_sound :
      (field raw : String) (value : Option Digest)
      → optional_digest json field raw ≡ ok value
      → Given SoundDigest value
  unfolding optional_digest
  optional_digest_sound field raw none h = tt
  optional_digest_sound field raw (some value) h = elim (Option-cases (json.decode_digest raw)) [
    | inl failed ↦ absurd (ground arith)
    | inr (read, reads) ↦ elim (Result-cases (validate_digest field read)) [
      | inr (e, failed) ↦ absurd (ground arith)
      | inl (u, valid) ↦ subst SoundDigest (ground arith) (validate_digest_sound field read valid)
    ]
  ]

-- what the optional members of an envelope have
abbrev Optionals : Envelope → Type 0
Optionals envelope =
    Given (Bounded 1024) envelope.producer.workflow
    × Given (λ r. object_id_pattern r ≡ true) envelope.producer.workflow_revision
    × Given SoundDigest envelope.invocation.environment_digest

normalize_envelope_sound :
    (json : Json) (raw : RawEnvelope) (envelope : Envelope)
    → normalize_envelope json raw ≡ ok envelope
    → Optionals envelope
unfolding normalize_envelope
normalize_envelope_sound json raw envelope h =
    let (workflow, w, h1) = bind_ok (optional_string json _ _ _) _ h in
    let (revision, r, h2) = bind_ok (optional_object_id json _ _) _ h1 in
    let (digest, d, h3) = bind_ok (optional_digest json _ _) _ h2 in
    let (code, c, h4) = bind_ok (optional_integer json _ _) _ h3 in
    subst Optionals (ok_injective h4) (
      optional_string_sound json _ _ _ workflow w,
      optional_object_id_sound json _ _ revision r,
      optional_digest_sound json _ _ digest d,
    )

validate_envelope_sound :
    (envelope : Envelope)
    → validate_envelope envelope ≡ ok tt
    → Optionals envelope
    → SoundEnvelope envelope
unfolding validate_envelope
validate_envelope_sound envelope h (workflow, revision, digest) = record {
  schema_supported = ground (arith, eq_iff envelope.schema_version schema_version);
  id_canonical = ground arith;
  type_within = validate_bounded_string_sound "type" envelope.type 128 (ground arith);
  repository_within =
      validate_bounded_string_sound "subject.repository_uri" envelope.subject.repository_uri 1024
        (ground arith);
  revision_object_id = ground arith;
  producer_within =
      validate_bounded_string_sound "producer.type" envelope.producer.type 128 (ground arith);
  identity_within =
      validate_bounded_string_sound "producer.identity" envelope.producer.identity 1024
        (ground arith);
  command_within =
      validate_bounded_string_sound "invocation.command_id" envelope.invocation.command_id 256
        (ground arith);
  outcome_supported = ground arith;
  uri_within =
      validate_bounded_string_sound "artifact.uri" envelope.artifact.uri 2048 (ground arith);
  artifact_digest = validate_digest_sound "artifact.digest" envelope.artifact.digest (ground arith);
  media_type_within =
      validate_bounded_string_sound "artifact.media_type" envelope.artifact.media_type 256
        (ground arith);
  workflow_within = workflow;
  workflow_revision_object_id = revision;
  environment_digest = digest;
}

-- A decoded envelope has sound members, texts within their bounds, and instants in order that are
-- those of its texts; its digest is the one of its canonical JSON.
pub decode_envelope_sound :
    (go : Platform) (json : Json) (content : String) (decoded : DecodedEnvelope)
    → decode_envelope go json content ≡ ok decoded
    → SoundDecoded go json decoded
unfolding decode_envelope
decode_envelope_sound go json content decoded h =
    let (raw, r, h1) = bind_ok (present undecodable (json.decode_envelope content)) _ h in
    let (envelope, n, h2) = bind_ok (normalize_envelope json raw) _ h1 in
    let (u, v, h3) = bind_ok (validate_envelope envelope) _ h2 in
    let (started, s, h4) = bind_ok (parse_timestamp go _ _) _ h3 in
    let (finished, f, h5) = bind_ok (parse_timestamp go _ _) _ h4 in
    let (w, ordered, h6) = bind_ok (guard (not (before finished started)) _) _ h5 in
    subst (SoundDecoded go json) (ok_injective h6) (record {
      envelope_sound =
          validate_envelope_sound envelope v (normalize_envelope_sound json raw envelope n);
      started_parses = parse_timestamp_sound go _ _ started s;
      finished_parses = parse_timestamp_sound go _ _ finished f;
      in_order = ground arith;
      digest_canonical = refl;
    })
