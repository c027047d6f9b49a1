-- ===== src/Scenarios/Decisions.antt =====
-- Runs of the decision kernel, internal/decision/evaluate.go.
use mathlib.Core.List.Perm
use assurectl.Prelude.{
  true, false, ◌≡◌, refl, List, [], ◌∷◌, All, Exists, any, is_empty, canonical_identifier, inr,
}
use assurectl.Domain.{
  RequirementResult, VerificationVerdict, CompletionDecision, evidence_state_valid, outcome_valid,
  waiver_status_valid, category_valid, severity_valid,
}
use assurectl.Decision.{
  requirement_id_not_canonical, validate_requirement, validate_finding, tally, scan_requirements,
  scan_findings, every_failure_is_waived, conclude, evaluate, blocked_indeterminate,
}
use assurectl.Decision.Valid.{ValidFinding, validate_finding_sound}
use assurectl.Decision.Table.{
  WellFormed, is_failure, is_undetermined, evaluate_accepts, evaluate_fails_closed,
}
use assurectl.Decision.Outcomes.{Passed, PassedOrWaived, is_blocking, reached, evaluate_approves}
use assurectl.Decision.Risk.{Unwaived, evaluate_accepts_risk, evaluate_rejects, evaluate_blocks}
use assurectl.Decision.Order.{evaluate-perm}
use assurectl.Scenarios.{
  passed_result, failed_result, waived_result, quiet_finding, blocking_finding,
}

abbrev mixed : List RequirementResult
mixed = passed_result ∷ failed_result ∷ []

abbrev excused : List RequirementResult
excused = passed_result ∷ waived_result ∷ []

runs_approved :
    evaluate (passed_result ∷ []) (quiet_finding ∷ [])
    ≡ reached VerificationVerdict.passed CompletionDecision.approved
unfolding evaluate scan_requirements scan_findings validate_requirement validate_finding tally
    conclude evidence_state_valid outcome_valid waiver_status_valid category_valid severity_valid
    canonical_identifier
runs_approved = refl

runs_rejected : evaluate mixed [] ≡ reached VerificationVerdict.failed CompletionDecision.rejected
unfolding evaluate scan_requirements scan_findings validate_requirement tally conclude
    every_failure_is_waived evidence_state_valid outcome_valid waiver_status_valid
    canonical_identifier
runs_rejected = refl

runs_accepted :
    evaluate excused (quiet_finding ∷ [])
    ≡ reached VerificationVerdict.failed CompletionDecision.accepted_with_risk
unfolding evaluate scan_requirements scan_findings validate_requirement validate_finding tally
    conclude every_failure_is_waived evidence_state_valid outcome_valid waiver_status_valid
    category_valid severity_valid canonical_identifier
runs_accepted = refl

runs_blocked :
    evaluate excused (blocking_finding ∷ [])
    ≡ reached VerificationVerdict.failed CompletionDecision.blocked
unfolding evaluate scan_requirements scan_findings validate_requirement validate_finding tally
    conclude evidence_state_valid outcome_valid waiver_status_valid category_valid severity_valid
    canonical_identifier
runs_blocked = refl

evaluate_accepts_example : WellFormed (passed_result ∷ []) (quiet_finding ∷ [])
unfolding evaluate scan_requirements scan_findings validate_requirement validate_finding tally
    conclude evidence_state_valid outcome_valid waiver_status_valid category_valid severity_valid
    canonical_identifier
evaluate_accepts_example = (evaluate_accepts (passed_result ∷ []) (quiet_finding ∷ [])).0 refl

evaluate_approves_example :
    WellFormed (passed_result ∷ []) (quiet_finding ∷ [])
    × (is_empty (passed_result ∷ []) ≡ false)
    × All Passed (passed_result ∷ [])
    × (is_blocking (quiet_finding ∷ []) ≡ false)
evaluate_approves_example =
    (evaluate_approves (passed_result ∷ []) (quiet_finding ∷ [])).0 runs_approved

evaluate_accepts_risk_example :
    WellFormed excused (quiet_finding ∷ [])
    × (any is_failure excused ≡ true)
    × All PassedOrWaived excused
    × (is_blocking (quiet_finding ∷ []) ≡ false)
evaluate_accepts_risk_example = (evaluate_accepts_risk excused (quiet_finding ∷ [])).0 runs_accepted

evaluate_rejects_example :
    WellFormed mixed []
    × (any is_undetermined mixed ≡ false)
    × Exists Unwaived mixed
    × (is_blocking [] ≡ false)
evaluate_rejects_example = (evaluate_rejects mixed []).0 runs_rejected

blocked-WellFormed : WellFormed excused (blocking_finding ∷ [])
unfolding evaluate scan_requirements scan_findings validate_requirement validate_finding tally
    conclude evidence_state_valid outcome_valid waiver_status_valid category_valid severity_valid
    canonical_identifier
blocked-WellFormed = (evaluate_accepts excused (blocking_finding ∷ [])).0 refl

evaluate_blocks_example :
    (evaluate excused (blocking_finding ∷ [])).0.decision ≡ CompletionDecision.blocked
evaluate_blocks_example =
    (evaluate_blocks excused (blocking_finding ∷ []) blocked-WellFormed).1 (inr (inr refl))

evaluate-perm_example : evaluate (failed_result ∷ passed_result ∷ []) [] ≡ evaluate mixed []
unfolding evaluate scan_requirements scan_findings validate_requirement tally conclude
    every_failure_is_waived evidence_state_valid outcome_valid waiver_status_valid
    canonical_identifier
evaluate-perm_example =
    evaluate-perm mixed (failed_result ∷ passed_result ∷ []) [] [] refl
      (Perm.swap failed_result passed_result []) (Perm.refl [])

quiet-valid : ValidFinding quiet_finding
unfolding validate_finding category_valid severity_valid canonical_identifier
quiet-valid = validate_finding_sound 0 quiet_finding refl

abbrev unnamed : RequirementResult
unnamed = record passed_result { requirement_id = "" }

evaluate_fails_closed_example : (evaluate (unnamed ∷ []) []).0 ≡ blocked_indeterminate
unfolding evaluate scan_requirements validate_requirement canonical_identifier
evaluate_fails_closed_example =
    evaluate_fails_closed (unnamed ∷ []) [] (requirement_id_not_canonical 0) refl
