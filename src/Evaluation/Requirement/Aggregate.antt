-- ===== src/Evaluation/Requirement/Aggregate.antt =====
-- internal/evaluation/evaluate.go: what `aggregateCandidates` makes of the candidates' outcomes.
use assurectl.Prelude.{Bool, true, false, ◌||◌, ◌≡◌, ap, ◌↔◌, ◌⊎◌, List, [], ◌∷◌, any, arith}
use assurectl.Domain.{EvidenceState, ObservedOutcome}
use assurectl.Evaluation.Requirement.{
  Flags, no_flags, raise_flag, raise_flags, settle, aggregate_candidates,
}

abbrev pub is_passed : ObservedOutcome → Bool
is_passed ObservedOutcome.passed = true
is_passed _ = false

abbrev pub is_failed : ObservedOutcome → Bool
is_failed ObservedOutcome.failed = true
is_failed _ = false

abbrev pub is_error : ObservedOutcome → Bool
is_error ObservedOutcome.error = true
is_error _ = false

abbrev flags_of : Flags → List ObservedOutcome → Flags
flags_of s outcomes = record {
  any_passed = s.any_passed || any is_passed outcomes;
  any_failed = s.any_failed || any is_failed outcomes;
  any_error = s.any_error || any is_error outcomes;
}

raise_flags_lem :
    (s : Flags) (outcomes : List ObservedOutcome) → raise_flags s outcomes ≡ flags_of s outcomes
unfolding raise_flags raise_flag
raise_flags_lem s [] = ground arith
raise_flags_lem s (o ∷ outcomes) = ground (arith, raise_flags_lem (raise_flag o s) outcomes)

module _ (outcomes : List ObservedOutcome) where
  aggregate_lem :
      aggregate_candidates outcomes
      ≡ settle (record {
        any_passed = any is_passed outcomes;
        any_failed = any is_failed outcomes;
        any_error = any is_error outcomes;
      })
  unfolding aggregate_candidates
  aggregate_lem = ap settle (raise_flags_lem no_flags outcomes)

  abbrev Aggregates : EvidenceState → ObservedOutcome → Type 0
  Aggregates state outcome = aggregate_candidates outcomes ≡ (state, outcome)

  -- The candidates conflict exactly when one passed and one failed. Otherwise the evidence is
  -- valid, with the outcome ERROR exactly when some candidate has it, else FAILED exactly when
  -- some candidate failed, and PASSED exactly when no candidate failed or has the outcome ERROR.
  pub aggregate_candidates_lem :
      (Aggregates EvidenceState.invalid ObservedOutcome.unset
        ↔ ((any is_failed outcomes ≡ true) × (any is_passed outcomes ≡ true)))
      × (Aggregates EvidenceState.valid ObservedOutcome.error ↔ (
          (any is_error outcomes ≡ true)
          × ((any is_failed outcomes ≡ false) ⊎ (any is_passed outcomes ≡ false))))
      × (Aggregates EvidenceState.valid ObservedOutcome.failed ↔ (
          (any is_error outcomes ≡ false)
          × (any is_failed outcomes ≡ true)
          × (any is_passed outcomes ≡ false)))
      × (Aggregates EvidenceState.valid ObservedOutcome.passed
          ↔ ((any is_error outcomes ≡ false) × (any is_failed outcomes ≡ false)))
  unfolding settle
  aggregate_candidates_lem = (
    (λ h. ground (arith, aggregate_lem), λ h. ground (arith, aggregate_lem)),
    (λ h. ground (arith, aggregate_lem), λ h. ground (arith, aggregate_lem)),
    (λ h. ground (arith, aggregate_lem), λ h. ground (arith, aggregate_lem)),
    (λ h. ground (arith, aggregate_lem), λ h. ground (arith, aggregate_lem)),
  )
