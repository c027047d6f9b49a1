-- ===== src/Scenarios/Pipelines.antt =====
-- Runs of internal/receipt and internal/verify.
use assurectl.Prelude.{
  true, false, ◌≡◌, refl, none, All, is_empty, ok, is_blank, digest_pattern, has_prefix,
  contains_text, cut_at, trim_space, contains_any, has_char, join, split, strip_prefix, trim_prefix,
  trim_suffix, object_id_pattern, canonical_identifier,
}
use assurectl.Decision
use assurectl.GitSubject.Identity.{
  canonicalize_repository_identity, cross_transport_identity_allowed, canonical_host_path,
}
use assurectl.Evaluation.Input.{
  Input, validate_input, validate_contract_input, validate_digest, validate_policy_input,
  check_requirement_ids, check_criteria, check_references, check_waiver_subject,
}
use assurectl.Evaluation.Evaluate.{Evaluated, evaluate_requirements, normalize, evaluate}
use assurectl.Evaluation.Evaluate.Approval.{Shown, Accounted}
use assurectl.Evaluation.Universe.{known_ids}
use assurectl.Platform.{sub}
use assurectl.Evaluation.Requirement.{
  evaluate_requirement, summarise, gather, gather_fact, aggregate_candidates, raise_flags,
  raise_flag, settle, fact_findings, append_fact_findings,
}
use assurectl.Evaluation.Facts.{match_envelopes, derive_fact, exceeds_max_age, allows_producer}
use assurectl.Evaluation.Sorting.{
  deduplicate, sort_stable, insert, sorted_copy, sort_findings, finding_less, join_evidence_ids,
}
use assurectl.Evaluation.Universe.{
  universe_findings, cross_criteria, cross_references, cross_reference, unreferenced,
  unreferenced_finding,
}
use assurectl.Evaluation.Waivers.{
  apply_waivers, apply_each, apply_waiver, mark_resolution, classify_waiver, index_of,
  classify_target, classify_timing, scope_matches, resolution_finding, waiver_finding,
  resolved_status,
}
use assurectl.Evaluation.Universe.Known.{KnownReferences}
use assurectl.Evaluation.Requirement.Accepted.{IngestedEvidence}
use assurectl.Domain.{
  ObservedOutcome, evidence_state_valid, outcome_valid, waiver_status_valid, category_valid,
  severity_valid,
}
use assurectl.Evaluation.Evaluate
use assurectl.CiContext.{canonical_repository}
use assurectl.Receipt.Model.{Receipt}
use assurectl.Receipt.Validate.{
  is_base_source, validate_requirement_uniqueness, validate_decision_derivation, evidence_ids,
  check_supplied, validate_evidence_binding, result_at, validate_applied, validate_waiver_target,
  validate_waiver_records, check_quiet, check_sources, check_authority, validate_receipt,
}
use assurectl.Receipt.Validate.Sound.{ValidReceipt, validate_receipt_sound}
use assurectl.Receipt.Build.{
  BuildInput, check_tier, previous_digest, check_digests, validate_build_input, evidence_references,
  convert_waivers, project_revision_binding, assemble, build,
}
use assurectl.Receipt.Build.Sound.{Earned, Recorded, build-Recorded, build-Earned}
use assurectl.Verify.{
  Resolution, authority_of, check_ci, load_contract, load_policy, load_waivers,
  dirty_worktree_finding, diagnostics, conclude, run,
}
use assurectl.Verify.Sound.{Reads, build_input, diagnostics_rederive}
use assurectl.Verify.Approval.{
  Rooted, run-approved, run_accepted_risk, run_agrees_with_ci, run_authoritative,
}
use assurectl.Scenarios.{
  approved, at_risk, outcome, demo_platform, tests_passed, scan_failed, demo_resolution,
  demo_context, worktree_of, trusted_options, local_options, trusted_input, waived_input,
}

trusted-validates : validate_input demo_platform trusted_input ≡ ok tt
unfolding validate_input validate_contract_input validate_digest digest_pattern
    validate_policy_input check_requirement_ids canonical_identifier check_criteria check_references
    check_waiver_subject canonicalize_repository_identity has_prefix contains_text cut_at
    cross_transport_identity_allowed canonical_host_path trim_space contains_any has_char join split
    strip_prefix trim_prefix trim_suffix is_blank object_id_pattern
trusted-validates = refl

waived-validates : validate_input demo_platform waived_input ≡ ok tt
unfolding validate_input validate_contract_input validate_digest digest_pattern
    validate_policy_input check_requirement_ids canonical_identifier check_criteria check_references
    check_waiver_subject canonicalize_repository_identity has_prefix contains_text cut_at
    cross_transport_identity_allowed canonical_host_path trim_space contains_any has_char join split
    strip_prefix trim_prefix trim_suffix is_blank object_id_pattern
waived-validates = refl

trusted-approved :
    Decision.evaluate
      (normalize demo_platform trusted_input).results
      (normalize demo_platform trusted_input).findings
    ≡ (approved, none)
unfolding Decision.evaluate Decision.scan_requirements Decision.validate_requirement
    Decision.scan_findings Decision.validate_finding Decision.tally Decision.tally_outcome
    Decision.conclude Decision.every_failure_is_waived normalize evaluate_requirements
    evaluate_requirement summarise gather gather_fact aggregate_candidates raise_flags raise_flag
    settle fact_findings append_fact_findings match_envelopes derive_fact exceeds_max_age
    allows_producer deduplicate sort_stable insert sorted_copy sort_findings finding_less
    join_evidence_ids universe_findings cross_criteria cross_references cross_reference unreferenced
    unreferenced_finding apply_waivers apply_each apply_waiver mark_resolution classify_waiver
    index_of classify_target classify_timing scope_matches resolution_finding waiver_finding
    resolved_status sub evidence_state_valid outcome_valid waiver_status_valid category_valid
    severity_valid canonical_identifier join
trusted-approved = refl

waived-accepted :
    Decision.evaluate
      (normalize demo_platform waived_input).results
      (normalize demo_platform waived_input).findings
    ≡ (at_risk, none)
unfolding Decision.evaluate Decision.scan_requirements Decision.validate_requirement
    Decision.scan_findings Decision.validate_finding Decision.tally Decision.tally_outcome
    Decision.conclude Decision.every_failure_is_waived normalize evaluate_requirements
    evaluate_requirement summarise gather gather_fact aggregate_candidates raise_flags raise_flag
    settle fact_findings append_fact_findings match_envelopes derive_fact exceeds_max_age
    allows_producer deduplicate sort_stable insert sorted_copy sort_findings finding_less
    join_evidence_ids universe_findings cross_criteria cross_references cross_reference unreferenced
    unreferenced_finding apply_waivers apply_each apply_waiver mark_resolution classify_waiver
    index_of classify_target classify_timing scope_matches resolution_finding waiver_finding
    resolved_status sub evidence_state_valid outcome_valid waiver_status_valid category_valid
    severity_valid canonical_identifier join
waived-accepted = refl

pub trusted-evaluates :
    Evaluate.evaluate demo_platform trusted_input ≡ ok (outcome trusted_input approved)
unfolding Evaluate.evaluate
trusted-evaluates = rw (trusted-validates, trusted-approved) refl

waived-evaluates : Evaluate.evaluate demo_platform waived_input ≡ ok (outcome waived_input at_risk)
unfolding Evaluate.evaluate
waived-evaluates = rw (waived-validates, waived-accepted) refl

abbrev trusted_build : BuildInput
trusted_build =
    build_input trusted_options demo_resolution trusted_input (outcome trusted_input approved)

-- what the App builds a receipt from: no context, and no finding of the resolution
abbrev pub app_build : BuildInput
app_build = record trusted_build { evaluation = outcome trusted_input approved; ci = none }

abbrev waived_build : BuildInput
waived_build = build_input local_options demo_resolution waived_input (outcome waived_input at_risk)

abbrev pub trusted_receipt : Receipt
trusted_receipt = assemble demo_platform "v1" trusted_build

abbrev pub app_receipt : Receipt
app_receipt = assemble demo_platform "v1" app_build

abbrev waived_receipt : Receipt
waived_receipt = assemble demo_platform "v1" waived_build

pub trusted-receipts_validate :
    (validate_receipt demo_platform trusted_receipt ≡ ok tt)
    × (validate_receipt demo_platform app_receipt ≡ ok tt)
unfolding Decision.evaluate Decision.scan_requirements Decision.validate_requirement
    Decision.scan_findings Decision.validate_finding Decision.tally Decision.tally_outcome
    Decision.conclude Decision.every_failure_is_waived normalize evaluate_requirements
    evaluate_requirement summarise gather gather_fact aggregate_candidates raise_flags raise_flag
    settle fact_findings append_fact_findings match_envelopes derive_fact exceeds_max_age
    allows_producer deduplicate sort_stable insert sorted_copy sort_findings finding_less
    join_evidence_ids universe_findings cross_criteria cross_references cross_reference unreferenced
    unreferenced_finding apply_waivers apply_each apply_waiver mark_resolution classify_waiver
    index_of classify_target classify_timing scope_matches resolution_finding waiver_finding
    resolved_status sub evidence_state_valid outcome_valid waiver_status_valid category_valid
    severity_valid canonical_identifier join validate_receipt validate_requirement_uniqueness
    validate_decision_derivation evidence_ids check_supplied validate_evidence_binding result_at
    validate_applied validate_waiver_target validate_waiver_records check_quiet check_sources
    check_authority is_base_source assemble evidence_references convert_waivers
    project_revision_binding diagnostics dirty_worktree_finding authority_of object_id_pattern
    strip_prefix cut_at
trusted-receipts_validate = (refl, refl)

waived-receipt_validates : validate_receipt demo_platform waived_receipt ≡ ok tt
unfolding Decision.evaluate Decision.scan_requirements Decision.validate_requirement
    Decision.scan_findings Decision.validate_finding Decision.tally Decision.tally_outcome
    Decision.conclude Decision.every_failure_is_waived normalize evaluate_requirements
    evaluate_requirement summarise gather gather_fact aggregate_candidates raise_flags raise_flag
    settle fact_findings append_fact_findings match_envelopes derive_fact exceeds_max_age
    allows_producer deduplicate sort_stable insert sorted_copy sort_findings finding_less
    join_evidence_ids universe_findings cross_criteria cross_references cross_reference unreferenced
    unreferenced_finding apply_waivers apply_each apply_waiver mark_resolution classify_waiver
    index_of classify_target classify_timing scope_matches resolution_finding waiver_finding
    resolved_status sub evidence_state_valid outcome_valid waiver_status_valid category_valid
    severity_valid canonical_identifier join validate_receipt validate_requirement_uniqueness
    validate_decision_derivation evidence_ids check_supplied validate_evidence_binding result_at
    validate_applied validate_waiver_target validate_waiver_records check_quiet check_sources
    check_authority is_base_source assemble evidence_references convert_waivers
    project_revision_binding diagnostics dirty_worktree_finding authority_of object_id_pattern
    strip_prefix cut_at
waived-receipt_validates = refl

pub trusted-builds : build demo_platform "v1" trusted_build ≡ ok trusted_receipt
unfolding build validate_build_input check_tier check_digests previous_digest is_base_source
    object_id_pattern strip_prefix cut_at authority_of
trusted-builds = rw (trusted-receipts_validate.0) refl

waived-builds : build demo_platform "v1" waived_build ≡ ok waived_receipt
unfolding build validate_build_input check_tier check_digests previous_digest authority_of
waived-builds = rw waived-receipt_validates refl

trusted-runs :
    run demo_platform "v1" (worktree_of trusted_input) trusted_options ≡ ok trusted_receipt
unfolding run conclude check_ci canonical_repository load_contract load_policy load_waivers is_blank
    canonicalize_repository_identity has_prefix contains_text cut_at
    cross_transport_identity_allowed canonical_host_path trim_space contains_any has_char join split
    strip_prefix trim_prefix trim_suffix
trusted-runs = rw (trusted-evaluates, trusted-builds) refl

waived-runs : run demo_platform "v1" (worktree_of waived_input) local_options ≡ ok waived_receipt
unfolding run conclude check_ci load_contract load_policy load_waivers is_blank
waived-runs = rw (waived-evaluates, waived-builds) refl

tests-IngestedEvidence : IngestedEvidence tests_passed
unfolding canonical_identifier outcome_valid
tests-IngestedEvidence = (refl, refl)

scan-IngestedEvidence : IngestedEvidence scan_failed
unfolding canonical_identifier outcome_valid
scan-IngestedEvidence = (refl, refl)

validate_receipt_sound_example : ValidReceipt demo_platform waived_receipt
validate_receipt_sound_example =
    validate_receipt_sound demo_platform waived_receipt waived-receipt_validates

build-Recorded_example : Recorded waived_build waived_receipt
build-Recorded_example = build-Recorded demo_platform "v1" waived_build waived_receipt waived-builds

build-Earned_example : Earned trusted_build × (trusted_receipt.authority ≡ trusted_build.authority)
build-Earned_example = build-Earned demo_platform "v1" trusted_build trusted_receipt trusted-builds

diagnostics_rederive_example :
    validate_decision_derivation (assemble demo_platform "v1" waived_build) ≡ ok tt
diagnostics_rederive_example =
    diagnostics_rederive demo_platform "v1" local_options demo_resolution waived_input
      (outcome waived_input at_risk) waived-evaluates

run-approved_example :
    (resolution : Resolution) × (input : Input) × Reads
      (worktree_of trusted_input)
      trusted_options
      resolution
      input
    × (is_empty input.policy.policy.requirements ≡ false)
    × All (Shown input ObservedOutcome.passed) input.policy.policy.requirements
    × KnownReferences
        (known_ids input.policy.policy.requirements)
        input.contract.contract.acceptance_criteria
unfolding assemble
run-approved_example =
    run-approved demo_platform "v1" (worktree_of trusted_input) trusted_options trusted_receipt
      (λ subject. (tests-IngestedEvidence, tt)) trusted-runs refl refl

run_accepted_risk_example :
    (resolution : Resolution) × (input : Input) × Reads
      (worktree_of waived_input)
      local_options
      resolution
      input
    × All (Accounted demo_platform input) input.policy.policy.requirements
unfolding assemble
run_accepted_risk_example =
    run_accepted_risk demo_platform "v1" (worktree_of waived_input) local_options waived_receipt
      (λ subject. (tests-IngestedEvidence, (scan-IngestedEvidence, tt))) waived-runs refl refl

run_agrees_with_ci_example :
    (canonical_repository demo_platform demo_context ≡ ok trusted_receipt.subject.repository_uri)
    × (demo_context.sha ≡ trusted_receipt.subject.head_revision)
run_agrees_with_ci_example =
    run_agrees_with_ci demo_platform "v1" (worktree_of trusted_input) trusted_options
      trusted_receipt demo_context refl trusted-runs

run_authoritative_example :
    (trusted_options.trusted_base ≡ true)
    × Rooted (worktree_of trusted_input) trusted_options trusted_receipt
unfolding assemble authority_of
run_authoritative_example =
    run_authoritative demo_platform "v1" (worktree_of trusted_input) trusted_options trusted_receipt
      trusted-runs refl
