-- ===== src/Evaluation/Requirement.antt =====
-- internal/evaluation/evaluate.go: one requirement against all the evidence.
pub mod Aggregate
pub mod Gather
pub mod Sound
pub mod Accepted
use assurectl.Prelude.{
  ℕ, String, Bool, true, false, ◌&&◌, List, [], ◌∷◌, ◌++◌, is_empty, ◌<>◌, ◌==◌, if◌then◌else◌,
}
use assurectl.Platform.{Platform}
use assurectl.Domain.{
  EvidenceState, ObservedOutcome, WaiverStatus, FindingCategory, FindingSeverity, RequirementResult,
  Finding, is_evidence_invalid,
}
use assurectl.Evidence
use assurectl.Policy.{Requirement}
use assurectl.Evaluation.Facts.{
  EnvelopeFact, candidate, stale_revision, stale_future, stale_age, untrusted_producer,
  match_envelopes, derive_fact,
}
use assurectl.Evaluation.Sorting.{sorted_copy, join_evidence_ids}

module _ (go : Platform) where
  unfoldable pub missing_finding : Requirement → Finding
  missing_finding requirement = record {
    code = "EVIDENCE_MISSING";
    category = FindingCategory.evidence;
    severity = FindingSeverity.error;
    requirement_id = requirement.id;
    evidence_ids = [];
    message =
        "policy requirement "
        <> go.quote requirement.id
        <> " matched no evidence envelope of type "
        <> go.quote requirement.evidence_type;
    blocking = true;
  }

  unfoldable pub missing_result : Requirement → RequirementResult × List Finding
  missing_result requirement = (
    record {
      requirement_id = requirement.id;
      evidence_state = EvidenceState.missing;
      evidence_ids = [];
      outcome = ObservedOutcome.unset;
      waivable = requirement.waivable;
      waiver_status = WaiverStatus.not_applicable;
    },
    missing_finding requirement ∷ [],
  )

-- The slices that the loop of `evaluateRequirement` fills.
pub record Gathered : Type 0 where
  pub candidate_ids : List String
  pub candidate_outcomes : List ObservedOutcome
  pub stale_revision_ids : List String
  pub stale_future_ids : List String
  pub stale_age_ids : List String
  pub untrusted_ids : List String

abbrev pub nothing_gathered : Gathered
nothing_gathered = record {
  candidate_ids = [];
  candidate_outcomes = [];
  stale_revision_ids = [];
  stale_future_ids = [];
  stale_age_ids = [];
  untrusted_ids = [];
}

unfoldable pub gather_fact : EnvelopeFact → Evidence.Loaded → Gathered → Gathered
gather_fact candidate item g = record g {
  candidate_ids = g.candidate_ids ++ item.envelope.id ∷ [];
  candidate_outcomes = g.candidate_outcomes ++ item.envelope.outcome.status ∷ [];
}
gather_fact stale_revision item g = record g {
  stale_revision_ids = g.stale_revision_ids ++ item.envelope.id ∷ [];
}
gather_fact stale_future item g = record g {
  stale_future_ids = g.stale_future_ids ++ item.envelope.id ∷ [];
}
gather_fact stale_age item g = record g { stale_age_ids = g.stale_age_ids ++ item.envelope.id ∷ [] }
gather_fact untrusted_producer item g = record g {
  untrusted_ids = g.untrusted_ids ++ item.envelope.id ∷ [];
}

unfoldable pub gather : Requirement → ℕ → Gathered → List Evidence.Loaded → Gathered
gather requirement evaluated_at g [] = g
gather requirement evaluated_at g (item ∷ items) =
    gather requirement evaluated_at (gather_fact (derive_fact requirement item evaluated_at) item g)
      items

unfoldable pub fact_finding_description : String → String
fact_finding_description code =
    if code == "EVIDENCE_STALE_REVISION"
    then "evidence belongs to another revision"
    else if code == "EVIDENCE_STALE_FUTURE"
    then "evidence finishes after the evaluation instant"
    else if code == "EVIDENCE_STALE_AGE"
    then "evidence exceeds the policy age limit"
    else "evidence producer type is not permitted by policy"

-- The flags `anyPassed`, `anyFailed` and `anyError` of the loop of `aggregateCandidates`.
pub record Flags : Type 0 where
  pub any_passed : Bool
  pub any_failed : Bool
  pub any_error : Bool

unfoldable pub raise_flag : ObservedOutcome → Flags → Flags
raise_flag ObservedOutcome.passed s = record s { any_passed = true }
raise_flag ObservedOutcome.failed s = record s { any_failed = true }
raise_flag ObservedOutcome.error s = record s { any_error = true }
raise_flag _ s = s

unfoldable pub raise_flags : Flags → List ObservedOutcome → Flags
raise_flags s [] = s
raise_flags s (outcome ∷ outcomes) = raise_flags (raise_flag outcome s) outcomes

abbrev pub no_flags : Flags
no_flags = record { any_passed = false; any_failed = false; any_error = false }

unfoldable pub settle : Flags → EvidenceState × ObservedOutcome
settle s =
    if s.any_failed && s.any_passed
    then (EvidenceState.invalid, ObservedOutcome.unset)
    else if s.any_error
    then (EvidenceState.valid, ObservedOutcome.error)
    else if s.any_failed
    then (EvidenceState.valid, ObservedOutcome.failed)
    else (EvidenceState.valid, ObservedOutcome.passed)

unfoldable pub aggregate_candidates : List ObservedOutcome → EvidenceState × ObservedOutcome
unfolding raise_flags raise_flag settle
aggregate_candidates outcomes = settle (raise_flags no_flags outcomes)

module _ (go : Platform) where
  fact_finding : String → String → String → Finding
  fact_finding code requirement_id envelope_id = record {
    code = code;
    category = FindingCategory.evidence;
    severity = FindingSeverity.error;
    requirement_id = requirement_id;
    evidence_ids = envelope_id ∷ [];
    message =
        "policy requirement "
        <> go.quote requirement_id
        <> ": "
        <> fact_finding_description code
        <> " for evidence "
        <> go.quote envelope_id;
    blocking = true;
  }

  unfoldable pub append_fact_findings : List Finding → String → String → List String → List Finding
  unfolding fact_finding
  append_fact_findings findings code requirement_id [] = findings
  append_fact_findings findings code requirement_id (envelope_id ∷ ids) =
      append_fact_findings (findings ++ fact_finding code requirement_id envelope_id ∷ []) code
        requirement_id ids

  unfoldable pub fact_findings : Requirement → Gathered → List Finding
  fact_findings requirement g =
      let f1 =
        append_fact_findings [] "EVIDENCE_STALE_REVISION" requirement.id g.stale_revision_ids in
      let f2 = append_fact_findings f1 "EVIDENCE_STALE_FUTURE" requirement.id g.stale_future_ids in
      let f3 = append_fact_findings f2 "EVIDENCE_STALE_AGE" requirement.id g.stale_age_ids in
      append_fact_findings f3 "EVIDENCE_UNTRUSTED_PRODUCER" requirement.id g.untrusted_ids

  unfoldable pub conflict_finding : Requirement → List String → Finding
  conflict_finding requirement ids = record {
    code = "EVIDENCE_CONFLICT";
    category = FindingCategory.evidence;
    severity = FindingSeverity.error;
    requirement_id = requirement.id;
    evidence_ids = sorted_copy ids;
    message =
        "policy requirement "
        <> go.quote requirement.id
        <> " has conflicting candidate outcomes across evidence "
        <> join_evidence_ids (sorted_copy ids);
    blocking = true;
  }

  abbrev pub result_of :
      Requirement → EvidenceState → ObservedOutcome → List String → RequirementResult
  result_of requirement state outcome ids = record {
    requirement_id = requirement.id;
    evidence_state = state;
    evidence_ids = sorted_copy ids;
    outcome = outcome;
    waivable = requirement.waivable;
    waiver_status = WaiverStatus.not_applicable;
  }

  -- `evaluateRequirement` behind its loop
  unfoldable pub summarise : Requirement → Gathered → RequirementResult × List Finding
  summarise requirement g =
      let findings = fact_findings requirement g in
      let (state, outcome) = aggregate_candidates g.candidate_outcomes in
      let stale_ids = g.stale_revision_ids ++ (g.stale_future_ids ++ g.stale_age_ids) in
      if is_empty g.candidate_ids
      then (if is_empty stale_ids
          then (
            result_of requirement EvidenceState.untrusted ObservedOutcome.unset g.untrusted_ids,
            findings,
          )
          else (
            result_of requirement EvidenceState.stale ObservedOutcome.unset stale_ids,
            findings,
          ))
      else (
        result_of requirement state outcome g.candidate_ids,
        (if is_evidence_invalid state
            then findings ++ conflict_finding requirement g.candidate_ids ∷ []
            else findings),
      )

  unfoldable pub evaluate_requirement :
      Requirement → List Evidence.Loaded → ℕ → RequirementResult × List Finding
  evaluate_requirement requirement evidence evaluated_at =
      let matches = match_envelopes requirement.evidence_type evidence in
      if is_empty matches
      then missing_result go requirement
      else summarise requirement (gather requirement evaluated_at nothing_gathered matches)
