-- ===== src/Decision.antt =====
-- internal/decision/evaluate.go: the deterministic precedence table. An error is the constructor
-- that stands for its `fmt.Errorf` call, with the call's arguments.
pub mod Valid
pub mod Table
pub mod Outcomes
pub mod Risk
pub mod Order
use assurectl.Prelude.{
  ℕ, suc, String, Bool, true, false, not, ◌&&◌, ◌||◌, Option, none, some, List, [], ◌∷◌, contains,
  canonical_identifier, is_empty, if◌then◌else◌, Result, ok, err, ◌==◌,
}
use assurectl.Domain.{
  VerificationVerdict, CompletionDecision, EvidenceState, ObservedOutcome, RequirementResult,
  EvaluationResult, Finding, evidence_state_valid, outcome_valid, waiver_status_valid,
  category_valid, severity_valid, is_evidence_valid, is_outcome_failed, is_outcome_unset,
  is_waiver_valid, is_verdict_passed,
}

pub data DecisionError : Type 0 where
  requirement_id_not_canonical : ℕ → DecisionError
  unsupported_evidence_state : String → EvidenceState → DecisionError
  evidence_reference_required : String → DecisionError
  evidence_id_not_canonical duplicate_evidence_id : String → ℕ → DecisionError
  unsupported_outcome : String → ObservedOutcome → DecisionError
  outcome_required unsupported_waiver_status waiver_not_permitted : String → DecisionError
  duplicate_requirement_id : ℕ → String → DecisionError
  finding_code_empty unsupported_category unsupported_severity finding_requirement_id_not_canonical
        finding_message_empty :
      ℕ → DecisionError
  finding_evidence_id_not_canonical finding_duplicate_evidence_id : ℕ → ℕ → DecisionError

unfoldable pub blocked_indeterminate : EvaluationResult
blocked_indeterminate = record {
  verdict = VerificationVerdict.indeterminate;
  decision = CompletionDecision.blocked;
}

-- The loop over evidence identifiers of `validateRequirement` and of `validateFinding`, with the
-- identifiers seen so far.
check_ids :
    (ℕ → DecisionError) → (ℕ → DecisionError) → ℕ → List String → List String → Option DecisionError
check_ids malformed duplicate i seen [] = none
check_ids malformed duplicate i seen (id ∷ ids) =
    let rest = check_ids malformed duplicate (suc i) (id ∷ seen) ids in
    if not (canonical_identifier id)
    then some (malformed i)
    else if contains seen id
    then some (duplicate i)
    else rest

-- `validateRequirement` behind the loop over evidence identifiers
check_status : RequirementResult → Option DecisionError
check_status r =
    if not (is_outcome_unset r.outcome) && not (outcome_valid r.outcome)
    then some (unsupported_outcome r.requirement_id r.outcome)
    else if is_evidence_valid r.evidence_state && not (outcome_valid r.outcome)
    then some (outcome_required r.requirement_id)
    else if not (waiver_status_valid r.waiver_status)
    then some (unsupported_waiver_status r.requirement_id)
    else if is_waiver_valid r.waiver_status
        && (not r.waivable
            || not (is_evidence_valid r.evidence_state)
            || not (is_outcome_failed r.outcome))
    then some (waiver_not_permitted r.requirement_id)
    else none

-- the first error of two checks in a row
abbrev pub or_else : Option DecisionError → Option DecisionError → Option DecisionError
or_else none next = next
or_else (some e) next = some e

unfoldable pub validate_requirement : ℕ → RequirementResult → Option DecisionError
unfolding check_ids check_status
validate_requirement i r =
    if not (canonical_identifier r.requirement_id)
    then some (requirement_id_not_canonical i)
    else if not (evidence_state_valid r.evidence_state)
    then some (unsupported_evidence_state r.requirement_id r.evidence_state)
    else if is_evidence_valid r.evidence_state && is_empty r.evidence_ids
    then some (evidence_reference_required r.requirement_id)
    else or_else
        (check_ids (evidence_id_not_canonical r.requirement_id)
          (duplicate_evidence_id r.requirement_id) 0 [] r.evidence_ids)
        (check_status r)

unfoldable pub validate_finding : ℕ → Finding → Option DecisionError
unfolding check_ids
validate_finding i f =
    if f.code == ""
    then some (finding_code_empty i)
    else if not (category_valid f.category)
    then some (unsupported_category i)
    else if not (severity_valid f.severity)
    then some (unsupported_severity i)
    else if not (f.requirement_id == "") && not (canonical_identifier f.requirement_id)
    then some (finding_requirement_id_not_canonical i)
    else or_else
        (check_ids (finding_evidence_id_not_canonical i) (finding_duplicate_evidence_id i) 0 []
          f.evidence_ids)
        (if f.message == "" then some (finding_message_empty i) else none)

-- the body of the loop over requirements behind its checks: the flags `knownFailure` and
-- `indeterminate`
unfoldable pub tally_outcome : ObservedOutcome → Bool × Bool → Bool × Bool
tally_outcome ObservedOutcome.failed (known_failure, indeterminate) = (true, indeterminate)
tally_outcome ObservedOutcome.error (known_failure, indeterminate) = (known_failure, true)
tally_outcome _ flags = flags

unfoldable pub tally : RequirementResult → Bool × Bool → Bool × Bool
unfolding tally_outcome
tally r flags =
    if not (is_evidence_valid r.evidence_state)
    then (flags.0, true)
    else tally_outcome r.outcome flags

-- the loop over requirements
unfoldable pub scan_requirements :
    ℕ → List String → Bool × Bool → List RequirementResult → Result DecisionError (Bool × Bool)
scan_requirements i seen flags [] = ok flags
scan_requirements i seen flags (r ∷ rs) = elim (validate_requirement i r) [
  | some e ↦ err e
  | none ↦ elim (contains seen r.requirement_id) [
    | true ↦ err (duplicate_requirement_id i r.requirement_id)
    | false ↦ scan_requirements (suc i) (r.requirement_id ∷ seen) (tally r flags) rs
  ]
]

-- the loop over findings
unfoldable pub scan_findings : ℕ → Bool → List Finding → Result DecisionError Bool
scan_findings i blocking [] = ok blocking
scan_findings i blocking (f ∷ fs) = elim (validate_finding i f) [
  | some e ↦ err e
  | none ↦ scan_findings (suc i) (if f.blocking then true else blocking) fs
]

unfoldable pub every_failure_is_waived : List RequirementResult → Bool
every_failure_is_waived [] = true
every_failure_is_waived (r ∷ rs) =
    let rest = every_failure_is_waived rs in
    if not (is_evidence_valid r.evidence_state) || not (is_outcome_failed r.outcome)
    then rest
    else if not r.waivable || not (is_waiver_valid r.waiver_status)
    then false
    else rest

-- `Evaluate` behind its loops
unfoldable pub conclude : List RequirementResult → Bool × Bool → Bool → EvaluationResult
conclude [] flags blocking = blocked_indeterminate
conclude (r ∷ rs) (known_failure, indeterminate) blocking =
    let verdict =
      if known_failure
      then VerificationVerdict.failed
      else if indeterminate || blocking
      then VerificationVerdict.indeterminate
      else VerificationVerdict.passed in
    if indeterminate || blocking
    then record { verdict = verdict; decision = CompletionDecision.blocked }
    else if is_verdict_passed verdict
    then record { verdict = verdict; decision = CompletionDecision.approved }
    else if every_failure_is_waived (r ∷ rs)
    then record { verdict = verdict; decision = CompletionDecision.accepted_with_risk }
    else record { verdict = verdict; decision = CompletionDecision.rejected }

-- A caller gets a result beside an error too.
unfoldable pub evaluate :
    List RequirementResult → List Finding → EvaluationResult × Option DecisionError
evaluate requirements findings = elim (scan_requirements 0 [] (false, false) requirements) [
  | err e ↦ (blocked_indeterminate, some e)
  | ok flags ↦ elim (scan_findings 0 false findings) [
    | err e ↦ (blocked_indeterminate, some e)
    | ok blocking ↦ (conclude requirements flags blocking, none)
  ]
]
