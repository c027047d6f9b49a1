-- ===== src/Evaluation/Requirement/Sound.antt =====
-- internal/evaluation/evaluate.go: what the result of `evaluateRequirement` establishes.
use assurectl.Prelude.{
  ℕ, true, false, ◌==◌, eq_iff, ◌≡◌, refl, sym, ◌∙◌, ap, ◌↔◌, inl, inr, List, [], ◌∷◌, any,
  is_empty, subst, All, Exists, Bool-cases, arith,
}
use assurectl.Platform.{Platform}
use assurectl.Domain.{EvidenceState, ObservedOutcome, RequirementResult, outcome_valid}
use assurectl.Decision.Outcomes.{Passed, Failed}
use assurectl.Evidence
use assurectl.Policy.{Requirement}
use assurectl.Evaluation.Facts.{match_envelopes, derive_fact}
use assurectl.Evaluation.Facts.Candidates.{Counts, derive_fact_candidate}
use assurectl.Evaluation.Requirement.{
  Gathered, nothing_gathered, gather, aggregate_candidates, missing_result, summarise,
  evaluate_requirement,
}
use assurectl.Evaluation.Requirement.Aggregate.{
  is_passed, is_failed, is_error, aggregate_candidates_lem,
}
use assurectl.Evaluation.Requirement.Gather.{
  candidates, ids_of, outcomes_of, is_candidate, gathered_candidates,
}

-- The envelopes that decide a requirement: of its type, and counting for it.
abbrev pub deciding : Requirement → ℕ → List Evidence.Loaded → List Evidence.Loaded
deciding requirement evaluated_at evidence =
    candidates requirement evaluated_at (match_envelopes requirement.evidence_type evidence)

is_empty-ids_of : (items : List Evidence.Loaded) → is_empty (ids_of items) ≡ is_empty items
is_empty-ids_of [] = refl
is_empty-ids_of (item ∷ items) = refl

module _ (go : Platform) (requirement : Requirement) (g : Gathered) where
  summarise-Passed : Passed (summarise go requirement g).0 ↔ (
      (is_empty g.candidate_ids ≡ false)
      × (aggregate_candidates g.candidate_outcomes ≡ (EvidenceState.valid, ObservedOutcome.passed)))
  unfolding summarise
  summarise-Passed = (λ h. ground arith, λ h. ground arith)

  summarise-Failed : Failed (summarise go requirement g).0 ↔ (
      (is_empty g.candidate_ids ≡ false)
      × (aggregate_candidates g.candidate_outcomes ≡ (EvidenceState.valid, ObservedOutcome.failed)))
  unfolding summarise
  summarise-Failed = (λ h. ground arith, λ h. ground arith)

module _ (go : Platform) (requirement : Requirement) (evidence : List Evidence.Loaded)
    (evaluated_at : ℕ) where
  abbrev result : RequirementResult
  result = (evaluate_requirement go requirement evidence evaluated_at).0

  abbrev decided : List Evidence.Loaded
  decided = deciding requirement evaluated_at evidence

  abbrev matches : List Evidence.Loaded
  matches = match_envelopes requirement.evidence_type evidence

  abbrev collected : Gathered
  collected = gather requirement evaluated_at nothing_gathered matches

  Passed-of_result :
      Passed result
      → (is_empty decided ≡ false)
        × (aggregate_candidates (outcomes_of decided)
            ≡ (EvidenceState.valid, ObservedOutcome.passed))
  unfolding evaluate_requirement missing_result
  Passed-of_result h = elim (Bool-cases (is_empty matches)) [
    | inl none_match ↦ absurd (ground arith)
    | inr some_match ↦
        let facts = (summarise-Passed go requirement collected).0 (ground arith) in
        let (ids, outcomes) = gathered_candidates requirement evaluated_at matches in
        (
          sym (is_empty-ids_of decided) ∙ (ap is_empty (sym ids) ∙ facts.0),
          ap aggregate_candidates (sym outcomes) ∙ facts.1,
        )
  ]

  -- With a deciding envelope, the result is the summary of what the loop collects.
  summarised :
      is_empty decided ≡ false
      → evaluate_requirement go requirement evidence evaluated_at
        ≡ summarise go requirement collected
  unfolding evaluate_requirement
  summarised h = elim (Bool-cases (is_empty matches)) [
    | inr some_match ↦ rw some_match
    | inl none_match ↦ absurd (not_empty matches none_match h)
  ]
    where
      not_empty :
          (items : List Evidence.Loaded)
          → is_empty items ≡ true
          → is_empty (candidates requirement evaluated_at items) ≡ false
          → ⊥
      not_empty [] e k = cc
      not_empty (item ∷ items) e k = cc

  Failed-of_result :
      Failed result
      → (is_empty decided ≡ false)
        × (aggregate_candidates (outcomes_of decided)
            ≡ (EvidenceState.valid, ObservedOutcome.failed))
  unfolding evaluate_requirement missing_result
  Failed-of_result h = elim (Bool-cases (is_empty matches)) [
    | inl none_match ↦ absurd (ground arith)
    | inr some_match ↦
        let facts = (summarise-Failed go requirement collected).0 (ground arith) in
        let (ids, outcomes) = gathered_candidates requirement evaluated_at matches in
        (
          sym (is_empty-ids_of decided) ∙ (ap is_empty (sym ids) ∙ facts.0),
          ap aggregate_candidates (sym outcomes) ∙ facts.1,
        )
  ]

  -- The collected identifiers and outcomes, where the deciding envelopes are named.
  collected_facts :
      (outcome : EvidenceState × ObservedOutcome)
      → is_empty decided ≡ false
      → aggregate_candidates (outcomes_of decided) ≡ outcome
      → (is_empty collected.candidate_ids ≡ false)
        × (aggregate_candidates collected.candidate_outcomes ≡ outcome)
  collected_facts outcome h e =
      let (ids, outcomes) = gathered_candidates requirement evaluated_at matches in
      (ap is_empty ids ∙ (is_empty-ids_of decided ∙ h), ap aggregate_candidates outcomes ∙ e)

  -- A requirement has passed exactly when some envelope of its type counts for it, and none that
  -- counts has the outcome ERROR or FAILED.
  pub requirement_Passed : Passed (evaluate_requirement go requirement evidence evaluated_at).0 ↔ (
      (is_empty (deciding requirement evaluated_at evidence) ≡ false)
      × (any is_error (outcomes_of (deciding requirement evaluated_at evidence)) ≡ false)
      × (any is_failed (outcomes_of (deciding requirement evaluated_at evidence)) ≡ false))
  requirement_Passed = (
    λ h.
        let (some_decided, agg) = Passed-of_result h in
        let facts = (aggregate_candidates_lem (outcomes_of decided)).3.0 agg in
        (some_decided, facts.0, facts.1),
    λ h.
        let agg = (aggregate_candidates_lem (outcomes_of decided)).3.1 (h.1, h.2) in
        subst (λ r. Passed r.0) (sym (summarised h.0))
          ((summarise-Passed go requirement collected).1 (collected_facts _ h.0 agg)),
  )

  -- A requirement has failed exactly when some envelope of its type counts for it and has the
  -- outcome FAILED, and none that counts has the outcome ERROR or PASSED.
  pub requirement_Failed : Failed (evaluate_requirement go requirement evidence evaluated_at).0 ↔ (
      (is_empty (deciding requirement evaluated_at evidence) ≡ false)
      × (any is_error (outcomes_of (deciding requirement evaluated_at evidence)) ≡ false)
      × (any is_failed (outcomes_of (deciding requirement evaluated_at evidence)) ≡ true)
      × (any is_passed (outcomes_of (deciding requirement evaluated_at evidence)) ≡ false))
  requirement_Failed = (
    λ h.
        let (some_decided, agg) = Failed-of_result h in
        let facts = (aggregate_candidates_lem (outcomes_of decided)).2.0 agg in
        (some_decided, facts.0, facts.1, facts.2),
    λ h.
        let agg = (aggregate_candidates_lem (outcomes_of decided)).2.1 (h.1, h.2, h.3) in
        subst (λ r. Failed r.0) (sym (summarised h.0))
          ((summarise-Failed go requirement collected).1 (collected_facts _ h.0 agg)),
  )

-- The envelope is of the requirement's type, counts for it, and has the outcome.
abbrev pub Establishes : Requirement → ℕ → ObservedOutcome → Evidence.Loaded → Type 0
Establishes requirement evaluated_at outcome item =
    (item.envelope.type ≡ requirement.evidence_type)
    × Counts requirement evaluated_at item
    × (item.envelope.outcome.status ≡ outcome)

pub deciding-Exists :
    (requirement : Requirement) (evaluated_at : ℕ) (evidence : List Evidence.Loaded)
    → All (λ item. outcome_valid item.envelope.outcome.status ≡ true) evidence
    → is_empty (deciding requirement evaluated_at evidence) ≡ false
    → any is_error (outcomes_of (deciding requirement evaluated_at evidence)) ≡ false
    → any is_failed (outcomes_of (deciding requirement evaluated_at evidence)) ≡ false
    → Exists (Establishes requirement evaluated_at ObservedOutcome.passed) evidence
unfolding match_envelopes outcome_valid
deciding-Exists requirement evaluated_at [] v h e f = ground arith
deciding-Exists requirement evaluated_at (item ∷ items) (v, vs) h e f =
    elim (Bool-cases (item.envelope.type == requirement.evidence_type)) [
      | inr other ↦ inr (
          deciding-Exists requirement evaluated_at items vs (ground arith) (ground arith)
            (ground arith))
      | inl same ↦ elim (Bool-cases (is_candidate (derive_fact requirement item evaluated_at))) [
        | inr passed_over ↦ inr (
            deciding-Exists requirement evaluated_at items vs (ground arith) (ground arith)
              (ground arith))
        | inl counted ↦ inl (
          (eq_iff item.envelope.type requirement.evidence_type).0 same,
          (derive_fact_candidate requirement item evaluated_at).0 (ground arith),
          ground arith,
        )
      ]
    ]

pub failed-Exists :
    (requirement : Requirement) (evaluated_at : ℕ) (evidence : List Evidence.Loaded)
    → any is_failed (outcomes_of (deciding requirement evaluated_at evidence)) ≡ true
    → Exists (Establishes requirement evaluated_at ObservedOutcome.failed) evidence
unfolding match_envelopes
failed-Exists requirement evaluated_at [] f = absurd (ground arith)
failed-Exists requirement evaluated_at (item ∷ items) f =
    elim (Bool-cases (item.envelope.type == requirement.evidence_type)) [
      | inr other ↦ inr (failed-Exists requirement evaluated_at items (ground arith))
      | inl same ↦ elim (Bool-cases (is_candidate (derive_fact requirement item evaluated_at))) [
        | inr passed_over ↦ inr (failed-Exists requirement evaluated_at items (ground arith))
        | inl counted ↦ elim (Bool-cases (is_failed item.envelope.outcome.status)) [
          | inr other ↦ inr (failed-Exists requirement evaluated_at items (ground arith))
          | inl here ↦ inl (
            (eq_iff item.envelope.type requirement.evidence_type).0 same,
            (derive_fact_candidate requirement item evaluated_at).0 (ground arith),
            ground arith,
          )
        ]
      ]
    ]
