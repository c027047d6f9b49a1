-- ===== src/Evidence/Load/Sound.antt =====
-- internal/evidence/loader.go: what the evidence has that the loader returns.
use assurectl.Prelude.{
  ◌≤◌, String, ◌≡◌, refl, sym, ◌∙◌, ap, subst, ◌↔◌, ◌==◌, eq_iff, Option, some, List, [], ◌∷◌, All,
  Distinct, Unseen, contains, Bool-cases, inl, inr, Result, ok, err, fresh_cons, bind_ok, guard_ok,
  guard-not_ok, ok_injective, arith, object_id_pattern,
}
use assurectl.Platform.{Platform}
use assurectl.Domain
use assurectl.Domain.{outcome_valid}
use assurectl.InputMeta.{TrustStatus, AuthorityBasis, sha256}
use assurectl.GitSubject.Identity.{canonicalize_repository_identity}
use assurectl.Evidence.{Loaded, Subject, SubjectBinding}
use assurectl.Evidence.Binding.{
  BindingError, identity, evidence_repository, validate_resolved_subject, bind_subject,
}
use assurectl.Evidence.Location.{validate_portable_artifact_uri, verify_artifact}
use assurectl.Evidence.Location.Sound.{Portable, verify_artifact_sound}
use assurectl.Evidence.Envelopes.{Json, decode_envelope}
use assurectl.Evidence.Envelopes.Sound.{SoundEnvelope, SoundDecoded, decode_envelope_sound}
use assurectl.Evidence.Load.{
  LocalCandidate, DecodedCandidate, EvidenceRoot, LoadError, within_load, discovered,
  envelope_invalid, uri_invalid, unbound, artifact_unverified, subject_unresolved,
  decode_candidates, load_candidate, load_candidates, load_local,
}

-- The evidence is of the repository, and bound to its head exactly if it names that revision.
abbrev pub Bound : Platform → Domain.Subject → Subject → SubjectBinding → Type 0
Bound go resolved subject binding =
    (canonicalize_repository_identity go subject.repository_uri ≡ ok resolved.repository_uri)
    × ((binding ≡ SubjectBinding.exact) ↔ (subject.revision ≡ resolved.head_revision))

pub record SoundEvidence (go : Platform) (json : Json) (hash : String → Option String)
    (subject : Domain.Subject) (item : Loaded) : Type 0 where
  pub envelope_sound : SoundEnvelope item.envelope
  pub started_parses : go.parse_time item.envelope.invocation.started_at ≡ some item.started_at
  pub finished_parses : go.parse_time item.envelope.invocation.finished_at ≡ some item.finished_at
  pub in_order : item.started_at ≤ item.finished_at
  pub digest_canonical : item.digest ≡ sha256 go (json.marshal item.envelope)
  pub bound : Bound go subject item.envelope.subject item.subject_binding
  pub uri_portable : Portable go item.envelope.artifact.uri
  pub artifact_verified : hash item.envelope.artifact.uri ≡ some item.envelope.artifact.digest.value
  pub untrusted : item.trust_status ≡ TrustStatus.untrusted
  pub advisory : item.authority_basis ≡ AuthorityBasis.advisory_workspace

pub within_ok {ℓ κ} :
    {E : Type κ} {A : Type ℓ} (f : E → LoadError) (r : Result E A) {a : A}
    → within_load f r ≡ ok a
    → r ≡ ok a
within_ok f (ok a) h = ap ok (ok_injective h)
within_ok f (err e) h = absurd (cc)

identity_ok :
    (f : _ → BindingError) (r : Result _ String) {s : String} → identity f r ≡ ok s → r ≡ ok s
identity_ok f (ok a) h = ap ok (ok_injective h)
identity_ok f (err e) h = absurd (cc)

bind_subject_sound :
    (go : Platform) (subject : Subject) (resolved : Domain.Subject) (binding : SubjectBinding)
    → bind_subject go subject resolved ≡ ok binding
    → Bound go resolved subject binding
unfolding bind_subject
bind_subject_sound go subject resolved binding h =
    let (u, valid, h1) = bind_ok (validate_resolved_subject go resolved) _ h in
    let (canonical, c, h2) =
      bind_ok
        (identity evidence_repository (canonicalize_repository_identity go subject.repository_uri))
        _ h1 in
    let (matches, h3) = guard_ok (canonical == resolved.repository_uri) _ _ h2 in
    let (hex, h4) = guard_ok (object_id_pattern subject.revision) _ _ h3 in
    (
      identity_ok _ _ c ∙ ap ok (ground (arith, eq_iff canonical resolved.repository_uri)),
      elim (Bool-cases (subject.revision == resolved.head_revision)) [
        | inl same ↦
            (λ e. (eq_iff subject.revision resolved.head_revision).0 same, λ e. ground arith)
        | inr differ ↦ (
          λ e. absurd (ground arith),
          λ e. absurd (ground (arith, eq_iff subject.revision resolved.head_revision)),
        )
      ],
    )

abbrev pub loaded_ids : List Loaded → List String
loaded_ids [] = []
loaded_ids (item ∷ items) = item.envelope.id ∷ loaded_ids items

abbrev pub artifact_uris : List Loaded → List String
artifact_uris [] = []
artifact_uris (item ∷ items) = item.envelope.artifact.uri ∷ artifact_uris items

abbrev decoded_ids : List DecodedCandidate → List String
decoded_ids [] = []
decoded_ids (item ∷ items) = item.decoded.envelope.id ∷ decoded_ids items

abbrev decoded_uris : List DecodedCandidate → List String
decoded_uris [] = []
decoded_uris (item ∷ items) = item.decoded.envelope.artifact.uri ∷ decoded_uris items

module _ (go : Platform) (json : Json) where
  -- What the first loop makes sure of.
  abbrev Decoded : List String → List String → List DecodedCandidate → Type 0
  Decoded seen_ids seen_uris items =
      All (λ item. SoundDecoded go json item.decoded) items
      × (Distinct (decoded_ids items) × Unseen seen_ids (decoded_ids items))
      × (Distinct (decoded_uris items) × Unseen seen_uris (decoded_uris items))

  decode_candidates_sound :
      (seen_ids seen_uris : List String) (candidates : List LocalCandidate)
      (items : List DecodedCandidate)
      → decode_candidates go json seen_ids seen_uris candidates ≡ ok items
      → Decoded seen_ids seen_uris items
  unfolding decode_candidates
  decode_candidates_sound seen_ids seen_uris [] items h =
      subst (Decoded seen_ids seen_uris) (ok_injective h) (tt, (tt, tt), (tt, tt))
  decode_candidates_sound seen_ids seen_uris (candidate ∷ candidates) items h =
      let (decoded, d, h1) =
        bind_ok
          (within_load (envelope_invalid candidate.source)
            (decode_envelope go json candidate.content))
          _ h in
      let id = decoded.envelope.id in
      let uri = decoded.envelope.artifact.uri in
      let (new_id, h2) = guard-not_ok (contains seen_ids id) _ _ h1 in
      let (v, portable, h3) =
        bind_ok (within_load (uri_invalid candidate.source) (validate_portable_artifact_uri go uri))
          _ h2 in
      let (new_uri, h4) = guard-not_ok (contains seen_uris uri) _ _ h3 in
      let (rest, r, h5) =
        bind_ok (decode_candidates go json (id ∷ seen_ids) (uri ∷ seen_uris) candidates) _ h4 in
      let (sound, ids, uris) =
        decode_candidates_sound (id ∷ seen_ids) (uri ∷ seen_uris) candidates rest r in
      subst (Decoded seen_ids seen_uris) (ok_injective h5) (
        (decode_envelope_sound go json candidate.content decoded (within_ok _ _ d), sound),
        fresh_cons seen_ids id (decoded_ids rest) new_id ids,
        fresh_cons seen_uris uri (decoded_uris rest) new_uri uris,
      )

  module _ (hash : String → Option String) (subject : Domain.Subject) where
    load_candidate_sound :
        (item : DecodedCandidate) (loaded : Loaded)
        → SoundDecoded go json item.decoded
        → load_candidate go json hash subject item ≡ ok loaded
        → SoundEvidence go json hash subject loaded × (loaded.envelope ≡ item.decoded.envelope)
    unfolding load_candidate
    load_candidate_sound item loaded s h =
        let (binding, b, h1) =
          bind_ok
            (within_load (unbound item.candidate.source)
              (bind_subject go item.decoded.envelope.subject subject))
            _ h in
        let (u, v, h2) =
          bind_ok
            (within_load (artifact_unverified item.candidate.source) (
              verify_artifact go hash item.decoded.envelope.artifact.uri
                item.decoded.envelope.artifact.digest))
            _ h1 in
        let (portable, _, hashes) = verify_artifact_sound go hash _ _ (within_ok _ _ v) in
        subst (λ l. SoundEvidence go json hash subject l × (l.envelope ≡ item.decoded.envelope))
          (ok_injective h2)
          (
            record {
              envelope_sound = s.envelope_sound;
              started_parses = s.started_parses;
              finished_parses = s.finished_parses;
              in_order = s.in_order;
              digest_canonical = s.digest_canonical;
              bound =
                  bind_subject_sound go item.decoded.envelope.subject subject binding
                    (within_ok _ _ b);
              uri_portable = portable;
              artifact_verified = hashes;
              untrusted = refl;
              advisory = refl;
            },
            refl,
          )

    abbrev AllSound : List DecodedCandidate → List Loaded → Type 0
    AllSound items loaded =
        All (SoundEvidence go json hash subject) loaded
        × (loaded_ids loaded ≡ decoded_ids items)
        × (artifact_uris loaded ≡ decoded_uris items)

    load_candidates_sound :
        (items : List DecodedCandidate) (loaded : List Loaded)
        → All (λ item. SoundDecoded go json item.decoded) items
        → load_candidates go json hash subject items ≡ ok loaded
        → AllSound items loaded
    unfolding load_candidates
    load_candidates_sound [] loaded s h = subst (AllSound []) (ok_injective h) (tt, refl, refl)
    load_candidates_sound (item ∷ items) loaded (s, ss) h =
        let (first, f, h1) = bind_ok (load_candidate go json hash subject item) _ h in
        let (rest, r, h2) = bind_ok (load_candidates go json hash subject items) _ h1 in
        let (sound, same) = load_candidate_sound item first s f in
        let (sounds, ids, uris) = load_candidates_sound items rest ss r in
        subst (AllSound (item ∷ items)) (ok_injective h2) (
          (sound, sounds),
          ap (λ e. e.id ∷ loaded_ids rest) same ∙ ap (λ l. item.decoded.envelope.id ∷ l) ids,
          ap (λ e. e.artifact.uri ∷ artifact_uris rest) same
              ∙ ap (λ l. item.decoded.envelope.artifact.uri ∷ l) uris,
        )

  -- The evidence that the loader returns has distinct identifiers and distinct artifact locations.
  -- Each item has a sound envelope within the bounds, instants in order that are those of its
  -- texts, and the digest of its canonical JSON; it is of the subject's repository and bound to
  -- the head exactly if it names that revision; its artifact has a portable location and the
  -- digest that the envelope states; and it is untrusted and advisory.
  pub evidence_local_sound :
      (root : EvidenceRoot) (subject : Domain.Subject) (loaded : List Loaded)
      → load_local go json root subject ≡ ok loaded
      → All (SoundEvidence go json root.hash subject) loaded
        × Distinct (loaded_ids loaded)
        × Distinct (artifact_uris loaded)
  unfolding load_local
  evidence_local_sound root subject loaded h =
      let (u, v, h1) =
        bind_ok (within_load subject_unresolved (validate_resolved_subject go subject)) _ h in
      let (candidates, c, h2) = bind_ok (discovered root.discover) _ h1 in
      let (items, d, h3) = bind_ok (decode_candidates go json [] [] candidates) _ h2 in
      let (sound, ids, uris) = decode_candidates_sound [] [] candidates items d in
      let (all_sound, same_ids, same_uris) =
        load_candidates_sound root.hash subject items loaded sound h3 in
      (all_sound, subst Distinct (sym same_ids) ids.0, subst Distinct (sym same_uris) uris.0)
