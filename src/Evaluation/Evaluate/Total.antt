-- ===== src/Evaluation/Evaluate/Total.antt =====
-- internal/evaluation/evaluate.go: `Evaluate` gives a result for every input that it validates.
use assurectl.Prelude.{
  ℕ, false, ◌≡◌, refl, sym, ◌∙◌, ap, subst, List, [], ◌∷◌, All, All-append, Distinct, Bool-cases,
  is_empty, ok, map, inl, inr, arith,
}
use assurectl.Platform.{Platform}
use assurectl.Domain.{RequirementResult, Finding, is_waiver_valid}
use assurectl.Decision
use assurectl.Decision.Valid.{ValidRequirement, ValidFinding}
use assurectl.Decision.Table.{WellFormed, requirement_ids, evaluate_accepts}
use assurectl.Policy.{Requirement}
use assurectl.Evidence
use assurectl.Evaluation.Input.{Input, validate_input}
use assurectl.Evaluation.Facts.{match_envelopes}
use assurectl.Evaluation.Requirement.{
  Gathered, nothing_gathered, gather, missing_result, summarise, evaluate_requirement,
}
use assurectl.Evaluation.Requirement.Accepted.{IngestedEvidence, evaluate_requirement-accepted}
use assurectl.Evaluation.Universe.{known_ids}
use assurectl.Evaluation.Universe.Valid.{CanonicalRequirements, universe_findings-valid}
use assurectl.Evaluation.Waivers.{apply_waivers}
use assurectl.Evaluation.Waivers.Frame.{bare, apply_waivers_frame}
use assurectl.Evaluation.Waivers.Valid.{
  IngestedWaiver, Harmless, apply_waivers-Harmless, apply_waivers-valid,
}
use assurectl.Evaluation.Sorting.{sort_findings}
use assurectl.Evaluation.Sorting.Stable.{All-sort_stable}
use assurectl.Evaluation.Evaluate.{Evaluated, evaluate_requirements, normalize, evaluate}
use assurectl.Evaluation.Evaluate.Checked.{Checked, validate_input-Checked}

-- The result carries the identifier of the requirement and whether it may be waived.
abbrev pub Reports : Requirement → RequirementResult → Type 0
Reports requirement r = (r.requirement_id ≡ requirement.id) × (r.waivable ≡ requirement.waivable)

abbrev pub Unwaived : RequirementResult → Type 0
Unwaived r = is_waiver_valid r.waiver_status ≡ false

module _ (go : Platform) where
  summarise-Reports :
      (requirement : Requirement) (g : Gathered)
      → Reports requirement (summarise go requirement g).0
  unfolding summarise
  summarise-Reports requirement g = ground arith

  pub evaluate_requirement-Reports :
      (requirement : Requirement) (evidence : List Evidence.Loaded) (evaluated_at : ℕ)
      → Reports requirement (evaluate_requirement go requirement evidence evaluated_at).0
  unfolding evaluate_requirement missing_result
  evaluate_requirement-Reports requirement evidence t =
      let matches = match_envelopes requirement.evidence_type evidence in
      elim (Bool-cases (is_empty matches)) [
        | inl none_match ↦ rw none_match (refl, refl)
        | inr some_match ↦
            rw some_match
              (summarise-Reports requirement (gather requirement t nothing_gathered matches))
      ]

  module _ (evidence : List Evidence.Loaded) (evaluated_at : ℕ) where
    abbrev pub established : List Requirement → List RequirementResult × List Finding
    established = evaluate_requirements go evidence evaluated_at

    established-ids :
        (requirements : List Requirement)
        → requirement_ids (established requirements).0 ≡ known_ids requirements
    unfolding evaluate_requirements
    established-ids [] = refl
    established-ids (requirement ∷ requirements) =
        rw
          (
            (evaluate_requirement-Reports requirement evidence evaluated_at).0,
            established-ids requirements,
          )
          refl

    pub established-accepted :
        (requirements : List Requirement)
        → All IngestedEvidence evidence
        → CanonicalRequirements requirements
        → All ValidRequirement (established requirements).0
          × All ValidFinding (established requirements).1
          × All Unwaived (established requirements).0
    unfolding evaluate_requirements
    established-accepted [] i c = (tt, tt, tt)
    established-accepted (requirement ∷ requirements) i (c, cs) =
        let (v, f, u) = evaluate_requirement-accepted go requirement c evidence evaluated_at i in
        let (vs, fs, us) = established-accepted requirements i cs in
        ((v, vs), All-append ValidFinding _ _ f fs, (u, us))

requirement_ids-bare :
    (rs : List RequirementResult) → requirement_ids (map bare rs) ≡ requirement_ids rs
requirement_ids-bare [] = refl
requirement_ids-bare (r ∷ rs) = ap (λ t. r.requirement_id ∷ t) (requirement_ids-bare rs)

valid_of_Harmless : (fs : List Finding) → All Harmless fs → All ValidFinding fs
valid_of_Harmless [] h = tt
valid_of_Harmless (f ∷ fs) (h, hs) = (h.0, valid_of_Harmless fs hs)

module _ (go : Platform) (input : Input) where
  abbrev requirements : List Requirement
  requirements = input.policy.policy.requirements

  abbrev at_first : List RequirementResult
  at_first = (established go input.evidence input.evaluated_at requirements).0

  same_ids :
      requirement_ids (apply_waivers go at_first input.waivers input).results
      ≡ known_ids requirements
  same_ids =
      sym (requirement_ids-bare (apply_waivers go at_first input.waivers input).results)
      ∙ (ap requirement_ids (apply_waivers_frame go at_first input.waivers input).0
          ∙ (requirement_ids-bare at_first
              ∙ established-ids go input.evidence input.evaluated_at requirements))

  pub normalize-WellFormed :
      validate_input go input ≡ ok tt
      → All IngestedEvidence input.evidence
      → All IngestedWaiver input.waivers
      → WellFormed (normalize go input).results (normalize go input).findings
  unfolding normalize sort_findings
  normalize-WellFormed h evidence waivers =
      let checked : Checked input = validate_input-Checked go input h in
      let (v, f, _) =
        established-accepted go input.evidence input.evaluated_at requirements evidence
          checked.requirements_canonical in
      record {
        requirements_valid = apply_waivers-valid go input at_first input.waivers v;
        requirements_distinct = subst Distinct (sym same_ids) checked.requirements_distinct;
        findings_valid = All-sort_stable _ ValidFinding _ (
            All-append ValidFinding _ _
              (All-append ValidFinding _ _
                (universe_findings-valid go input.contract.contract.acceptance_criteria requirements
                  checked.references_canonical checked.requirements_canonical)
                f)
              (valid_of_Harmless _
                (apply_waivers-Harmless go input at_first input.waivers waivers)));
      }

  -- If `validateInput` accepts an input whose evidence and waivers the loaders have checked, then
  -- `Evaluate` returns a result: the decision kernel rejects nothing that the normalization makes.
  pub evaluate_total :
      validate_input go input ≡ ok tt
      → All IngestedEvidence input.evidence
      → All IngestedWaiver input.waivers
      → (out : Evaluated) × (evaluate go input ≡ ok out)
  unfolding evaluate
  evaluate_total h evidence waivers =
      let s = normalize go input in
      let accepted =
        (evaluate_accepts s.results s.findings).1 (normalize-WellFormed h evidence waivers) in
      (
        record {
          requirements = s.results;
          findings = s.findings;
          waivers = s.resolved;
          verdict = (Decision.evaluate s.results s.findings).0;
        },
        ground (arith, h, accepted),
      )
