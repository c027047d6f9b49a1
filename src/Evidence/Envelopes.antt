-- ===== src/Evidence/Envelopes.antt =====
-- internal/evidence/loader.go: from the text of an envelope to a checked one. An optional member of
-- the JSON object is its own text, empty if it is missing; what the JSON and number packages make
-- of a text is a parameter.
pub mod Sound
use assurectl.Prelude.{
  ℕ, String, Bool, not, ◌==◌, Option, none, some, eqb, leb, trim_space, canonical_identifier,
  object_id_pattern, digest_pattern, Result, ok, err, guard, ◌>>=◌, ◌>>◌, if◌then◌else◌,
}
use Prim.Native.String
use assurectl.Platform.{Platform, before}
use assurectl.Domain.{ObservedOutcome, outcome_valid}
use assurectl.InputMeta.{Digest, digest_algorithm_sha256, sha256}
use assurectl.Evidence.{Subject, Artifact, Outcome, Invocation, Producer, Envelope, schema_version}
use assurectl.Evidence.Timestamp.{timestamp_pattern}

pub record RawProducer : Type 0 where
  pub type : String
  pub identity : String
  pub workflow : String
  pub workflow_revision : String

pub record RawInvocation : Type 0 where
  pub command_id : String
  pub environment_digest : String
  pub started_at : String
  pub finished_at : String

pub record RawOutcome : Type 0 where
  pub status : ObservedOutcome
  pub exit_code : String

pub record RawEnvelope : Type 0 where
  pub schema_version : String
  pub id : String
  pub type : String
  pub subject : Subject
  pub producer : RawProducer
  pub invocation : RawInvocation
  pub outcome : RawOutcome
  pub artifact : Artifact

-- What is read of JSON: `strictjson.Decode` on an envelope and on a digest, `json.Unmarshal` on a
-- string, `big.Rat.SetString` (sign, numerator, denominator), and `json.Marshal` on an envelope.
pub record Json : Type 0 where
  pub decode_envelope : String → Option RawEnvelope
  pub decode_digest : String → Option Digest
  pub unmarshal_string : String → Option String
  pub parse_rational : String → Option (Bool × ℕ × ℕ)
  pub marshal : Envelope → String

pub data EnvelopeError : Type 0 where
  undecodable schema_unsupported id_invalid subject_revision_invalid status_invalid
        finished_before_started :
      EnvelopeError
  not_a_string not_a_digest not_an_integer object_id_invalid text_empty text_too_long
        digest_algorithm_unsupported digest_value_invalid timestamp_malformed :
      String → EnvelopeError

-- The limit counts characters.
unfoldable pub validate_bounded_string : String → String → ℕ → Result EnvelopeError (Unit {0})
validate_bounded_string field value max = do
  guard (not (eqb (String.count value) 0)) (text_empty field)
  guard (leb (String.count value) max) (text_too_long field)

unfoldable pub validate_digest : String → Digest → Result EnvelopeError (Unit {0})
validate_digest field digest = do
  guard (digest.algorithm == digest_algorithm_sha256) (digest_algorithm_unsupported field)
  guard (digest_pattern digest.value) (digest_value_invalid field)

unfoldable pub parse_timestamp : Platform → String → String → Result EnvelopeError ℕ
parse_timestamp go field value = do
  guard (timestamp_pattern value) (timestamp_malformed field)
  elim (go.parse_time value) [ none ↦ err (timestamp_malformed field) | some instant ↦ ok instant ]

abbrev is_null : String → Bool
is_null raw = trim_space raw == "null"

abbrev pub present {ℓ} : {A : Type ℓ} → EnvelopeError → Option A → Result EnvelopeError A
present e none = err e
present e (some a) = ok a

module _ (json : Json) where
  unfoldable pub optional_string : String → String → ℕ → Result EnvelopeError (Option String)
  optional_string field raw max = if raw == "" then ok none else (do
    guard (not (is_null raw)) (not_a_string field)
    value ← present (not_a_string field) (json.unmarshal_string raw)
    validate_bounded_string field value max
    ok (some value))

  abbrev object_id_of : String → Option String → Result EnvelopeError (Option String)
  object_id_of field none = ok none
  object_id_of field (some value) = do
    guard (object_id_pattern value) (object_id_invalid field)
    ok (some value)

  unfoldable pub optional_object_id : String → String → Result EnvelopeError (Option String)
  optional_object_id field raw = do value ← optional_string field raw 64; object_id_of field value

  unfoldable pub optional_digest : String → String → Result EnvelopeError (Option Digest)
  optional_digest field raw = if raw == "" then ok none else (do
    guard (not (is_null raw)) (not_a_digest field)
    digest ← present (not_a_digest field) (json.decode_digest raw)
    validate_digest field digest
    ok (some digest))

  unfoldable pub optional_integer : String → String → Result EnvelopeError (Option (Bool × ℕ))
  optional_integer field raw = if raw == "" then ok none else (do
    guard (not (is_null raw)) (not_an_integer field)
    value ← present (not_an_integer field) (json.parse_rational (trim_space raw))
    let (negative, numerator, denominator) = value
    guard (eqb denominator 1) (not_an_integer field)
    ok (some (negative, numerator)))

  unfoldable pub normalize_envelope : RawEnvelope → Result EnvelopeError Envelope
  normalize_envelope raw = do
    workflow ← optional_string "producer.workflow" raw.producer.workflow 1024
    revision ← optional_object_id "producer.workflow_revision" raw.producer.workflow_revision
    digest ← optional_digest "invocation.environment_digest" raw.invocation.environment_digest
    code ← optional_integer "outcome.exit_code" raw.outcome.exit_code
    ok (record {
      schema_version = raw.schema_version;
      id = raw.id;
      type = raw.type;
      subject = raw.subject;
      producer = record {
        type = raw.producer.type;
        identity = raw.producer.identity;
        workflow = workflow;
        workflow_revision = revision;
      };
      invocation = record {
        command_id = raw.invocation.command_id;
        environment_digest = digest;
        started_at = raw.invocation.started_at;
        finished_at = raw.invocation.finished_at;
      };
      outcome = record { status = raw.outcome.status; exit_code = code };
      artifact = raw.artifact;
    })

unfoldable pub validate_envelope : Envelope → Result EnvelopeError (Unit {0})
validate_envelope envelope = do
  guard (envelope.schema_version == schema_version) schema_unsupported
  guard (canonical_identifier envelope.id) id_invalid
  validate_bounded_string "type" envelope.type 128
  validate_bounded_string "subject.repository_uri" envelope.subject.repository_uri 1024
  guard (object_id_pattern envelope.subject.revision) subject_revision_invalid
  validate_bounded_string "producer.type" envelope.producer.type 128
  validate_bounded_string "producer.identity" envelope.producer.identity 1024
  validate_bounded_string "invocation.command_id" envelope.invocation.command_id 256
  guard (outcome_valid envelope.outcome.status) status_invalid
  validate_bounded_string "artifact.uri" envelope.artifact.uri 2048
  validate_digest "artifact.digest" envelope.artifact.digest
  validate_bounded_string "artifact.media_type" envelope.artifact.media_type 256

pub record DecodedEnvelope : Type 0 where
  pub envelope : Envelope
  pub started_at : ℕ
  pub finished_at : ℕ
  pub digest : Digest

unfoldable pub decode_envelope : Platform → Json → String → Result EnvelopeError DecodedEnvelope
decode_envelope go json content = do
  raw ← present undecodable (json.decode_envelope content)
  envelope ← normalize_envelope json raw
  validate_envelope envelope
  started ← parse_timestamp go "invocation.started_at" envelope.invocation.started_at
  finished ← parse_timestamp go "invocation.finished_at" envelope.invocation.finished_at
  guard (not (before finished started)) finished_before_started
  ok (record {
    envelope = envelope;
    started_at = started;
    finished_at = finished;
    digest = sha256 go (json.marshal envelope);
  })
