-- ===== src/Evidence/Load.antt =====
-- internal/evidence/loader.go: `LoadLocal` behind the discovery of the files. What the discovery
-- returns, the hashes of the artifacts and the JSON functions are parameters.
pub mod Sound
use assurectl.Prelude.{
  String, Bool, not, List, [], ◌∷◌, Option, none, some, contains, Result, ok, err, guard, ◌>>=◌,
  ◌>>◌,
}
use assurectl.Platform.{Platform}
use assurectl.Domain
use assurectl.InputMeta.{TrustStatus, AuthorityBasis}
use assurectl.Evidence.{Loaded, SubjectBinding}
use assurectl.Evidence.Binding.{BindingError, validate_resolved_subject, bind_subject}
use assurectl.Evidence.Location.{
  UriError, ArtifactError, validate_portable_artifact_uri, verify_artifact,
}
use assurectl.Evidence.Envelopes.{Json, EnvelopeError, DecodedEnvelope, decode_envelope}

-- an evidence file: its path and its content
pub record LocalCandidate : Type 0 where
  pub relative_path : String
  pub source : String
  pub content : String

pub record DecodedCandidate : Type 0 where
  pub candidate : LocalCandidate
  pub decoded : DecodedEnvelope

-- What the loader reads: the candidates, nothing if the discovery fails, and the hash of an
-- artifact at a path below the evidence root.
pub record EvidenceRoot : Type 0 where
  pub discover : Option (List LocalCandidate)
  pub hash : String → Option String

pub data LoadError : Type 0 where
  subject_unresolved : BindingError → LoadError
  undiscovered : LoadError
  envelope_invalid : String → EnvelopeError → LoadError
  uri_invalid : String → UriError → LoadError
  duplicate_id duplicate_artifact_uri : String → LoadError
  unbound : String → BindingError → LoadError
  artifact_unverified : String → ArtifactError → LoadError

abbrev pub within_load {ℓ κ} :
    {E : Type κ} {A : Type ℓ} → (E → LoadError) → Result E A → Result LoadError A
within_load f (ok a) = ok a
within_load f (err e) = err (f e)

abbrev pub discovered : Option (List LocalCandidate) → Result LoadError (List LocalCandidate)
discovered none = err undiscovered
discovered (some candidates) = ok candidates

module _ (go : Platform) (json : Json) where
  -- the first loop: decoding, with the identifiers and the artifact locations seen so far
  unfoldable pub decode_candidates :
      List String → List String → List LocalCandidate → Result LoadError (List DecodedCandidate)
  decode_candidates seen_ids seen_uris [] = ok []
  decode_candidates seen_ids seen_uris (candidate ∷ candidates) = do
    decoded ←
        within_load (envelope_invalid candidate.source) (decode_envelope go json candidate.content)
    let id = decoded.envelope.id
    let uri = decoded.envelope.artifact.uri
    guard (not (contains seen_ids id)) (duplicate_id id)
    within_load (uri_invalid candidate.source) (validate_portable_artifact_uri go uri)
    guard (not (contains seen_uris uri)) (duplicate_artifact_uri uri)
    rest ← decode_candidates (id ∷ seen_ids) (uri ∷ seen_uris) candidates
    ok (record { candidate = candidate; decoded = decoded } ∷ rest)

  module _ (hash : String → Option String) (subject : Domain.Subject) where
    unfoldable pub load_candidate : DecodedCandidate → Result LoadError Loaded
    load_candidate item = do
      let envelope = item.decoded.envelope
      binding ←
          within_load (unbound item.candidate.source) (bind_subject go envelope.subject subject)
      within_load (artifact_unverified item.candidate.source)
          (verify_artifact go hash envelope.artifact.uri envelope.artifact.digest)
      ok (record {
        envelope = envelope;
        source = item.candidate.source;
        digest = item.decoded.digest;
        trust_status = TrustStatus.untrusted;
        authority_basis = AuthorityBasis.advisory_workspace;
        started_at = item.decoded.started_at;
        finished_at = item.decoded.finished_at;
        subject_binding = binding;
      })

    -- the second loop: binding and verification
    unfoldable pub load_candidates : List DecodedCandidate → Result LoadError (List Loaded)
    load_candidates [] = ok []
    load_candidates (item ∷ items) =
        let rest = load_candidates items in
        do loaded ← load_candidate item; others ← rest; ok (loaded ∷ others)

  unfoldable pub load_local : EvidenceRoot → Domain.Subject → Result LoadError (List Loaded)
  load_local root subject = do
    within_load subject_unresolved (validate_resolved_subject go subject)
    candidates ← discovered root.discover
    decoded ← decode_candidates [] [] candidates
    load_candidates root.hash subject decoded
