-- ===== src/Scenarios/Evaluations.antt =====
-- Runs of internal/evaluation as a whole.
use assurectl.Prelude.{
  ◌≡◌, refl, none, canonical_identifier, ok, digest_pattern, has_prefix, contains_text, cut_at,
  trim_space, contains_any, has_char, join, split, strip_prefix, trim_prefix, trim_suffix, is_blank,
  object_id_pattern,
}
use assurectl.Domain.{
  evidence_state_valid, outcome_valid, waiver_status_valid, category_valid, severity_valid,
}
use assurectl.Decision
use assurectl.GitSubject.Identity.{
  canonicalize_repository_identity, cross_transport_identity_allowed, canonical_host_path,
}
use assurectl.Evaluation.Input.{
  validate_input, validate_contract_input, validate_digest, validate_policy_input,
  check_requirement_ids, check_criteria, check_references, check_waiver_subject,
}
use assurectl.Evaluation.Evaluate.{Evaluated, evaluate_requirements, normalize, evaluate}
use assurectl.Evaluation.Evaluate.Total.{evaluate_total}
use assurectl.Platform.{sub}
use assurectl.Evaluation.Requirement.{
  evaluate_requirement, summarise, gather, gather_fact, aggregate_candidates, raise_flags,
  raise_flag, settle, fact_findings, append_fact_findings,
}
use assurectl.Evaluation.Facts.{match_envelopes, derive_fact, exceeds_max_age, allows_producer}
use assurectl.Evaluation.Sorting.{
  deduplicate, sort_stable, insert, sorted_copy, sort_findings, finding_less, join_evidence_ids,
}
use assurectl.Evaluation.Universe.{
  universe_findings, cross_criteria, cross_references, cross_reference, unreferenced,
  unreferenced_finding,
}
use assurectl.Evaluation.Waivers.{
  apply_waivers, apply_each, apply_waiver, mark_resolution, classify_waiver, index_of,
  classify_target, classify_timing, scope_matches, resolution_finding, waiver_finding,
  resolved_status,
}
use assurectl.Evaluation.Requirement.Accepted.{IngestedEvidence}
use assurectl.Evaluation.Waivers.Valid.{IngestedWaiver}
use assurectl.Scenarios.{
  approved, at_risk, outcome, demo_platform, tests_passed, scan_failed, demo_waiver, approved_input,
  waived_input,
}

approved-validates : validate_input demo_platform approved_input ≡ ok tt
unfolding validate_input validate_contract_input validate_digest digest_pattern
    validate_policy_input check_requirement_ids canonical_identifier check_criteria check_references
    check_waiver_subject
approved-validates = refl

waived-validates : validate_input demo_platform waived_input ≡ ok tt
unfolding validate_input validate_contract_input validate_digest digest_pattern
    validate_policy_input check_requirement_ids canonical_identifier check_criteria check_references
    check_waiver_subject canonicalize_repository_identity has_prefix contains_text cut_at
    cross_transport_identity_allowed canonical_host_path trim_space contains_any has_char join split
    strip_prefix trim_prefix trim_suffix is_blank object_id_pattern
waived-validates = refl

tests-IngestedEvidence : IngestedEvidence tests_passed
unfolding canonical_identifier outcome_valid
tests-IngestedEvidence = (refl, refl)

scan-IngestedEvidence : IngestedEvidence scan_failed
unfolding canonical_identifier outcome_valid
scan-IngestedEvidence = (refl, refl)

waiver-IngestedWaiver : IngestedWaiver demo_waiver
unfolding canonical_identifier
waiver-IngestedWaiver = refl

evaluate_total_example : (out : Evaluated) × (evaluate demo_platform waived_input ≡ ok out)
evaluate_total_example =
    evaluate_total demo_platform waived_input waived-validates
      (tests-IngestedEvidence, (scan-IngestedEvidence, tt)) (waiver-IngestedWaiver, tt)

kernel-approves :
    Decision.evaluate
      (normalize demo_platform approved_input).results
      (normalize demo_platform approved_input).findings
    ≡ (approved, none)
unfolding Decision.evaluate Decision.scan_requirements Decision.validate_requirement
    Decision.scan_findings Decision.validate_finding Decision.tally Decision.tally_outcome
    Decision.conclude Decision.every_failure_is_waived normalize evaluate_requirements
    evaluate_requirement summarise gather gather_fact aggregate_candidates raise_flags raise_flag
    settle fact_findings append_fact_findings match_envelopes derive_fact exceeds_max_age
    allows_producer deduplicate sort_stable insert sorted_copy sort_findings finding_less
    join_evidence_ids universe_findings cross_criteria cross_references cross_reference unreferenced
    unreferenced_finding apply_waivers apply_each apply_waiver mark_resolution classify_waiver
    index_of classify_target classify_timing scope_matches resolution_finding waiver_finding
    resolved_status sub evidence_state_valid outcome_valid waiver_status_valid category_valid
    severity_valid canonical_identifier join
kernel-approves = refl

kernel-accepts :
    Decision.evaluate
      (normalize demo_platform waived_input).results
      (normalize demo_platform waived_input).findings
    ≡ (at_risk, none)
unfolding Decision.evaluate Decision.scan_requirements Decision.validate_requirement
    Decision.scan_findings Decision.validate_finding Decision.tally Decision.tally_outcome
    Decision.conclude Decision.every_failure_is_waived normalize evaluate_requirements
    evaluate_requirement summarise gather gather_fact aggregate_candidates raise_flags raise_flag
    settle fact_findings append_fact_findings match_envelopes derive_fact exceeds_max_age
    allows_producer deduplicate sort_stable insert sorted_copy sort_findings finding_less
    join_evidence_ids universe_findings cross_criteria cross_references cross_reference unreferenced
    unreferenced_finding apply_waivers apply_each apply_waiver mark_resolution classify_waiver
    index_of classify_target classify_timing scope_matches resolution_finding waiver_finding
    resolved_status sub evidence_state_valid outcome_valid waiver_status_valid category_valid
    severity_valid canonical_identifier join
kernel-accepts = refl

approved-evaluates : evaluate demo_platform approved_input ≡ ok (outcome approved_input approved)
unfolding evaluate
approved-evaluates = rw (approved-validates, kernel-approves) refl

waived-evaluates : evaluate demo_platform waived_input ≡ ok (outcome waived_input at_risk)
unfolding evaluate
waived-evaluates = rw (waived-validates, kernel-accepts) refl
