-- ===== src/Scenarios/Parts.antt =====
-- Runs of the parts of internal/evaluation.
use mathlib.Core.List.{Perm}
use assurectl.Prelude.{
  ℕ, String, ◌≡◌, refl, arith, List, [], ◌∷◌, ◌+◌, ◌*◌, All, canonical_identifier, contains, map,
  select,
}
use assurectl.Platform.{second, sub}
use assurectl.Domain.{
  RequirementResult, Finding, evidence_state_valid, outcome_valid, waiver_status_valid,
}
use assurectl.Evidence.{exact, other_revision}
use assurectl.Evidence
use assurectl.Decision.{validate_requirement}
use assurectl.Decision.Outcomes.{Passed, Failed}
use assurectl.Decision.Valid.{Canonical, ValidRequirement, validate_requirement_sound}
use assurectl.Evaluation.Facts.{match_envelopes, derive_fact, exceeds_max_age, allows_producer}
use assurectl.Evaluation.Facts.Candidates.{Counts, derive_fact_candidate}
use assurectl.Evaluation.Requirement.{evaluate_requirement}
use assurectl.Evaluation.Requirement.Sound.{requirement_Passed, requirement_Failed}
use assurectl.Evaluation.Requirement.Accepted.{IngestedEvidence}
use assurectl.Evaluation.Universe.{
  known_ids, universe_findings, cross_criteria, cross_references, cross_reference, unreferenced,
  unreferenced_finding,
}
use assurectl.Evaluation.Universe.Known.{KnownReferences, universe_findings-known}
use assurectl.Evaluation.Waivers.{apply_waivers}
use assurectl.Evaluation.Waivers.Frame.{bare, unresolved, apply_waivers_frame}
use assurectl.Evaluation.Waivers.Justified.{Justified, apply_waivers-Justified}
use assurectl.Evaluation.Sorting.{sort_findings}
use assurectl.Evaluation.Sorting.Stable.{Sorted, same_key, sort_findings_lem}
use assurectl.Scenarios.{
  demo_platform, tests_passed, scan_failed, demo_waiver, waived_input, tests_requirement,
  scan_requirement, demo_criteria, passed_result, failed_result, quiet_finding, blocking_finding,
}

abbrev now : ℕ
now = 40000000 * second + 5

derive_fact_candidate_example : Counts tests_requirement now tests_passed
unfolding derive_fact exceeds_max_age allows_producer sub
derive_fact_candidate_example = (derive_fact_candidate tests_requirement tests_passed now).0 refl

-- An envelope of another revision that is also finished after the instant.
abbrev stray : Evidence.Loaded
stray = record tests_passed { subject_binding = other_revision; finished_at = now + 1 }

requirement_Passed_example :
    Passed
      (evaluate_requirement demo_platform tests_requirement (scan_failed ∷ tests_passed ∷ []) now).0
unfolding match_envelopes derive_fact exceeds_max_age allows_producer sub
requirement_Passed_example =
    (requirement_Passed demo_platform tests_requirement (scan_failed ∷ tests_passed ∷ []) now).1
      (refl, refl, refl)

requirement_Failed_example :
    Failed
      (evaluate_requirement demo_platform scan_requirement (scan_failed ∷ tests_passed ∷ []) now).0
unfolding match_envelopes derive_fact exceeds_max_age allows_producer sub
requirement_Failed_example =
    (requirement_Failed demo_platform scan_requirement (scan_failed ∷ tests_passed ∷ []) now).1
      (refl, refl, refl, refl)

tests-named : Canonical tests_requirement.id
unfolding canonical_identifier
tests-named = refl

tests-IngestedEvidence : IngestedEvidence tests_passed
unfolding canonical_identifier outcome_valid
tests-IngestedEvidence = (refl, refl)

universe_findings-known_example :
    KnownReferences (known_ids (tests_requirement ∷ scan_requirement ∷ [])) demo_criteria
unfolding universe_findings cross_criteria cross_references cross_reference unreferenced
    unreferenced_finding
universe_findings-known_example =
    universe_findings-known demo_platform demo_criteria (tests_requirement ∷ scan_requirement ∷ [])
      refl

abbrev both : List RequirementResult
both = passed_result ∷ failed_result ∷ []

apply_waivers_frame_example :
    (map bare
        (apply_waivers demo_platform both (demo_waiver ∷ demo_waiver ∷ []) waived_input).results
      ≡ map bare both)
    × (map unresolved
          (apply_waivers demo_platform both (demo_waiver ∷ demo_waiver ∷ []) waived_input).resolved
        ≡ map unresolved (demo_waiver ∷ demo_waiver ∷ []))
apply_waivers_frame_example =
    apply_waivers_frame demo_platform both (demo_waiver ∷ demo_waiver ∷ []) waived_input

apply_waivers-Justified_example :
    All
      (Justified demo_platform waived_input (demo_waiver ∷ []))
      (apply_waivers demo_platform both (demo_waiver ∷ []) waived_input).results
apply_waivers-Justified_example =
    apply_waivers-Justified demo_platform waived_input both (demo_waiver ∷ []) (refl, (refl, tt))

passed-valid : ValidRequirement passed_result
unfolding validate_requirement evidence_state_valid outcome_valid waiver_status_valid
    canonical_identifier
passed-valid = validate_requirement_sound 0 passed_result refl

failed-valid : ValidRequirement failed_result
unfolding validate_requirement evidence_state_valid outcome_valid waiver_status_valid
    canonical_identifier
failed-valid = validate_requirement_sound 0 failed_result refl

sort_findings_lem_example :
    Sorted (sort_findings (quiet_finding ∷ blocking_finding ∷ []))
    × Perm
        (sort_findings (quiet_finding ∷ blocking_finding ∷ []))
        (quiet_finding ∷ blocking_finding ∷ [])
    × ((f : Finding)
        → select (same_key f) (sort_findings (quiet_finding ∷ blocking_finding ∷ []))
          ≡ select (same_key f) (quiet_finding ∷ blocking_finding ∷ []))
sort_findings_lem_example = sort_findings_lem (quiet_finding ∷ blocking_finding ∷ [])

swapped :
    (z : String) → contains ("EV-2" ∷ "EV-1" ∷ "EV-2" ∷ []) z ≡ contains ("EV-1" ∷ "EV-2" ∷ []) z
swapped z = ground arith
