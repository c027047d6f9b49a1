-- ===== src/Evaluation/Requirement/Accepted.antt =====
-- internal/evaluation/evaluate.go: what `evaluateRequirement` returns is valid for the kernel, if
-- the identifiers are canonical and the outcomes supported, as the loaders make sure.
use assurectl.Prelude.{
  ℕ, String, true, false, ◌==◌, ◌<>◌, ◌≡◌, refl, ◌⊎◌, inl, inr, List, [], ◌∷◌, ◌++◌, All,
  All-append, All-select, Distinct, is_empty, nonempty-append, All-same_members,
  nonempty-same_members, Bool-cases, if◌then◌else◌, arith,
}
use assurectl.Platform.{Platform}
use assurectl.Domain.{
  EvidenceState, ObservedOutcome, FindingCategory, FindingSeverity, RequirementResult, Finding,
  evidence_state_valid, outcome_valid, waiver_status_valid, category_valid, severity_valid,
  is_evidence_invalid, is_waiver_valid,
}
use assurectl.Decision.Valid.{Canonical, ValidRequirement, ValidFinding}
use assurectl.Evidence
use assurectl.Policy.{Requirement}
use assurectl.Evaluation.Facts.{
  EnvelopeFact, candidate, stale_revision, stale_future, stale_age, untrusted_producer,
  match_envelopes, derive_fact,
}
use assurectl.Evaluation.Sorting.{sorted_copy}
use assurectl.Evaluation.Sorting.Copy.{
  sorted_copy-Ascending, contains-sorted_copy, Ascending-Distinct,
}
use assurectl.Evaluation.Requirement.{
  Gathered, nothing_gathered, gather_fact, gather, aggregate_candidates, missing_finding,
  missing_result, fact_finding, append_fact_findings, fact_findings, conflict_finding, result_of,
  summarise, evaluate_requirement,
}

-- What the evidence loader makes sure of.
abbrev pub IngestedEvidence : Evidence.Loaded → Type 0
IngestedEvidence item =
    Canonical item.envelope.id × (outcome_valid item.envelope.outcome.status ≡ true)

-- Every slice that the loop fills holds canonical identifiers only.
abbrev CanonicalIds : Gathered → Type 0
CanonicalIds g =
    All Canonical g.candidate_ids
    × All Canonical g.stale_revision_ids
    × All Canonical g.stale_future_ids
    × All Canonical g.stale_age_ids
    × All Canonical g.untrusted_ids

one_more :
    (ids : List String) (id : String)
    → All Canonical ids
    → Canonical id
    → All Canonical (ids ++ id ∷ [])
one_more ids id h c = All-append Canonical ids (id ∷ []) h (c, tt)

CanonicalIds-gather_fact :
    (fact : EnvelopeFact) (item : Evidence.Loaded) (g : Gathered)
    → Canonical item.envelope.id
    → CanonicalIds g
    → CanonicalIds (gather_fact fact item g)
unfolding gather_fact
CanonicalIds-gather_fact candidate item g c h =
    (one_more g.candidate_ids item.envelope.id h.0 c, h.1, h.2, h.3, h.4)
CanonicalIds-gather_fact stale_revision item g c h =
    (h.0, one_more g.stale_revision_ids item.envelope.id h.1 c, h.2, h.3, h.4)
CanonicalIds-gather_fact stale_future item g c h =
    (h.0, h.1, one_more g.stale_future_ids item.envelope.id h.2 c, h.3, h.4)
CanonicalIds-gather_fact stale_age item g c h =
    (h.0, h.1, h.2, one_more g.stale_age_ids item.envelope.id h.3 c, h.4)
CanonicalIds-gather_fact untrusted_producer item g c h =
    (h.0, h.1, h.2, h.3, one_more g.untrusted_ids item.envelope.id h.4 c)

CanonicalIds-gather :
    (requirement : Requirement) (evaluated_at : ℕ) (g : Gathered) (items : List Evidence.Loaded)
    → All IngestedEvidence items
    → CanonicalIds g
    → CanonicalIds (gather requirement evaluated_at g items)
unfolding gather
CanonicalIds-gather requirement t g [] i h = h
CanonicalIds-gather requirement t g (item ∷ items) (i, is) h =
    CanonicalIds-gather requirement t (gather_fact (derive_fact requirement item t) item g) items is
      (CanonicalIds-gather_fact (derive_fact requirement item t) item g i.0 h)

matches-ingested :
    (evidence_type : String) (evidence : List Evidence.Loaded)
    → All IngestedEvidence evidence
    → All IngestedEvidence (match_envelopes evidence_type evidence)
unfolding match_envelopes
matches-ingested evidence_type evidence h = All-select IngestedEvidence _ evidence h

sorted-Canonical : (ids : List String) → All Canonical ids → All Canonical (sorted_copy ids)
sorted-Canonical ids h =
    All-same_members Canonical ids (sorted_copy ids) (λ z. contains-sorted_copy z ids) h

sorted-Distinct : (ids : List String) → Distinct (sorted_copy ids)
sorted-Distinct ids = Ascending-Distinct (sorted_copy ids) (sorted_copy-Ascending ids)

sorted-nonempty : (ids : List String) → is_empty ids ≡ false → is_empty (sorted_copy ids) ≡ false
sorted-nonempty ids h =
    nonempty-same_members ids (sorted_copy ids) (λ z. contains-sorted_copy z ids) h

-- A pair that `aggregateCandidates` may return.
abbrev Settled : EvidenceState × ObservedOutcome → Type 0
Settled p =
    (evidence_state_valid p.0 ≡ true)
    × ((p.1 ≡ ObservedOutcome.unset) ⊎ (outcome_valid p.1 ≡ true))
    × ((p.0 ≡ EvidenceState.invalid) ⊎ (outcome_valid p.1 ≡ true))

aggregate-Settled : (outcomes : List ObservedOutcome) → Settled (aggregate_candidates outcomes)
unfolding aggregate_candidates evidence_state_valid outcome_valid
aggregate-Settled outcomes = ground arith

-- A result and findings that are valid for the kernel, where the result is not waived.
abbrev pub AcceptedPair : RequirementResult × List Finding → Type 0
AcceptedPair pair =
    ValidRequirement pair.0
    × All ValidFinding pair.1
    × (is_waiver_valid pair.0.waiver_status ≡ false)

module _ (go : Platform) (requirement : Requirement) (named : Canonical requirement.id) where
  result-valid :
      (state : EvidenceState) (outcome : ObservedOutcome) (ids : List String)
      → evidence_state_valid state ≡ true
      → (outcome ≡ ObservedOutcome.unset) ⊎ (outcome_valid outcome ≡ true)
      → (state ≡ EvidenceState.valid → (is_empty ids ≡ false) × (outcome_valid outcome ≡ true))
      → All Canonical ids
      → ValidRequirement (result_of go requirement state outcome ids)
  unfolding waiver_status_valid
  result-valid kind outcome ids supported possible established canonical = record {
    id_canonical = named;
    state_supported = supported;
    evidence_referenced = λ e. sorted-nonempty ids (established e).0;
    ids_canonical = sorted-Canonical ids canonical;
    ids_distinct = sorted-Distinct ids;
    status = record {
      outcome_supported = possible;
      outcome_established = λ e. (established e).1;
      waiver_supported = refl;
      waiver_permitted = λ e. absurd (cc);
    };
  }

  -- The message begins with a fixed text, so it is not empty.
  message-given : (rest : String) → (("policy requirement " <> rest) == "") ≡ false
  message-given rest = nonempty-append "policy requirement " rest refl

  evidence-finding-valid :
      (code rest : String) (ids : List String)
      → (code == "") ≡ false
      → All Canonical ids
      → Distinct ids
      → ValidFinding (record {
        code = code;
        category = FindingCategory.evidence;
        severity = FindingSeverity.error;
        requirement_id = requirement.id;
        evidence_ids = ids;
        message = "policy requirement " <> rest;
        blocking = true;
      })
  unfolding category_valid severity_valid
  evidence-finding-valid code rest ids given canonical distinct = record {
    code_given = given;
    category_supported = refl;
    severity_supported = refl;
    requirement_canonical = inr named;
    ids_canonical = canonical;
    ids_distinct = distinct;
    message_given = message-given rest;
  }

  append_fact_findings-valid :
      (findings : List Finding) (code : String) (ids : List String)
      → (code == "") ≡ false
      → All Canonical ids
      → All ValidFinding findings
      → All ValidFinding (append_fact_findings go findings code requirement.id ids)
  unfolding append_fact_findings
  append_fact_findings-valid findings code [] given h fine = fine
  append_fact_findings-valid findings code (id ∷ ids) given (h, hs) fine =
      append_fact_findings-valid (findings ++ fact_finding go code requirement.id id ∷ []) code ids
        given hs
        (All-append ValidFinding findings (fact_finding go code requirement.id id ∷ []) fine
          (evidence-finding-valid code _ (id ∷ []) given (h, tt) (refl, tt), tt))

  fact_findings-valid :
      (g : Gathered) → CanonicalIds g → All ValidFinding (fact_findings go requirement g)
  unfolding fact_findings
  fact_findings-valid g h =
      append_fact_findings-valid _ "EVIDENCE_UNTRUSTED_PRODUCER" g.untrusted_ids refl h.4 (
        append_fact_findings-valid _ "EVIDENCE_STALE_AGE" g.stale_age_ids refl h.3 (
          append_fact_findings-valid _ "EVIDENCE_STALE_FUTURE" g.stale_future_ids refl h.2 (
            append_fact_findings-valid [] "EVIDENCE_STALE_REVISION" g.stale_revision_ids refl h.1
              tt)))

  conflict-valid :
      (ids : List String) → All Canonical ids → ValidFinding (conflict_finding go requirement ids)
  unfolding conflict_finding
  conflict-valid ids h =
      evidence-finding-valid "EVIDENCE_CONFLICT" _ (sorted_copy ids) refl (sorted-Canonical ids h)
        (sorted-Distinct ids)

  -- A result and its findings that the kernel accepts; no such result is waived.
  abbrev stale_ids : Gathered → List String
  stale_ids g = g.stale_revision_ids ++ (g.stale_future_ids ++ g.stale_age_ids)

  stale_ids-Canonical : (g : Gathered) → CanonicalIds g → All Canonical (stale_ids g)
  stale_ids-Canonical g h =
      All-append Canonical g.stale_revision_ids (g.stale_future_ids ++ g.stale_age_ids) h.1
        (All-append Canonical g.stale_future_ids g.stale_age_ids h.2 h.3)

  with_conflict :
      (state : EvidenceState) (g : Gathered)
      → CanonicalIds g
      → All ValidFinding (
          if is_evidence_invalid state
          then fact_findings go requirement g
            ++ conflict_finding go requirement g.candidate_ids ∷ []
          else fact_findings go requirement g)
  with_conflict state g h = elim (Bool-cases (is_evidence_invalid state)) [
    | inl conflict ↦ rw conflict (
        All-append ValidFinding (fact_findings go requirement g)
          (conflict_finding go requirement g.candidate_ids ∷ []) (fact_findings-valid g h)
          (conflict-valid g.candidate_ids h.0, tt))
    | inr fine ↦ rw fine (fact_findings-valid g h)
  ]

  candidates-accepted :
      (state : EvidenceState) (outcome : ObservedOutcome) (g : Gathered)
      → Settled (state, outcome)
      → is_empty g.candidate_ids ≡ false
      → CanonicalIds g
      → ValidRequirement (result_of go requirement state outcome g.candidate_ids)
  candidates-accepted state outcome g s some_candidate h =
      result-valid state outcome g.candidate_ids s.0 s.1 (λ e. (some_candidate, ground arith)) h.0

  summarise-accepted : (g : Gathered) → CanonicalIds g → AcceptedPair (summarise go requirement g)
  unfolding summarise evidence_state_valid
  summarise-accepted g h = elim (Bool-cases (is_empty g.candidate_ids)) [
    | inr some_candidate ↦
        let pair = aggregate_candidates g.candidate_outcomes in
        rw some_candidate (
          candidates-accepted pair.0 pair.1 g (aggregate-Settled g.candidate_outcomes)
              some_candidate h,
          with_conflict pair.0 g h,
          refl,
        )
    | inl none_left ↦ elim (Bool-cases (is_empty (stale_ids g))) [
      | inl none_stale ↦
          rw (none_left, none_stale)
            (
              result-valid EvidenceState.untrusted ObservedOutcome.unset g.untrusted_ids refl
                  (inl refl) (λ e. absurd (cc)) h.4,
              fact_findings-valid g h,
              refl,
            )
      | inr some_stale ↦
          rw (none_left, some_stale)
            (
              result-valid EvidenceState.stale ObservedOutcome.unset (stale_ids g) refl (inl refl)
                  (λ e. absurd (cc)) (stale_ids-Canonical g h),
              fact_findings-valid g h,
              refl,
            )
    ]
  ]

  missing-accepted : AcceptedPair (missing_result go requirement)
  unfolding missing_result missing_finding evidence_state_valid waiver_status_valid
  missing-accepted = (
    record {
      id_canonical = named;
      state_supported = refl;
      evidence_referenced = λ e. absurd (cc);
      ids_canonical = tt;
      ids_distinct = tt;
      status = record {
        outcome_supported = inl refl;
        outcome_established = λ e. absurd (cc);
        waiver_supported = refl;
        waiver_permitted = λ e. absurd (cc);
      };
    },
    (evidence-finding-valid "EVIDENCE_MISSING" _ [] refl tt tt, tt),
    refl,
  )

  -- Whatever the evidence that the loader hands over, the kernel accepts the requirement result
  -- and its findings, and the result is not waived.
  pub evaluate_requirement-accepted :
      (evidence : List Evidence.Loaded) (evaluated_at : ℕ)
      → All IngestedEvidence evidence
      → AcceptedPair (evaluate_requirement go requirement evidence evaluated_at)
  unfolding evaluate_requirement
  evaluate_requirement-accepted evidence t ingested =
      let matches = match_envelopes requirement.evidence_type evidence in
      elim (Bool-cases (is_empty matches)) [
        | inl none_match ↦ rw none_match missing-accepted
        | inr some_match ↦ rw some_match (
            summarise-accepted (gather requirement t nothing_gathered matches) (
              CanonicalIds-gather requirement t nothing_gathered matches
                (matches-ingested requirement.evidence_type evidence ingested)
                (tt, tt, tt, tt, tt)))
      ]
