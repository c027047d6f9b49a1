-- ===== src/Evaluation/Evaluate/Approval.antt =====
-- internal/evaluation/evaluate.go: what evidence and which waivers a favourable decision of
-- `Evaluate` rests on.
use mathlib.Core.List.{head-eq_of_cons-eq, tail-eq_of_cons-eq}
use assurectl.Prelude.{
  true, false, ◌≡◌, refl, sym, ◌∙◌, ap, List, [], ◌∷◌, ◌++◌, All, Exists, any-append, is_empty, ◌⊎◌,
  none, ok, map, inl, inr, arith,
}
use assurectl.Platform.{Platform}
use assurectl.Domain.{
  ObservedOutcome, VerificationVerdict, CompletionDecision, RequirementResult, Finding,
  outcome_valid,
}
use assurectl.Decision.Outcomes.{Passed, Failed, PassedOrWaived, is_blocking, evaluate_approves}
use assurectl.Decision.Risk.{evaluate_accepts_risk}
use assurectl.Policy.{Requirement}
use assurectl.Evidence
use assurectl.Waiver
use assurectl.Evaluation.Input.{Input}
use assurectl.Evaluation.Requirement.{evaluate_requirement}
use assurectl.Evaluation.Requirement.Sound.{
  requirement_Passed, requirement_Failed, Establishes, deciding-Exists, failed-Exists,
}
use assurectl.Evaluation.Requirement.Accepted.{IngestedEvidence}
use assurectl.Evaluation.Universe.{known_ids, universe_findings}
use assurectl.Evaluation.Universe.Known.{KnownReferences, universe_findings-known}
use assurectl.Evaluation.Waivers.{apply_waivers}
use assurectl.Evaluation.Waivers.Classify.{InScope, InForce}
use assurectl.Evaluation.Waivers.Frame.{bare, apply_waivers_frame}
use assurectl.Evaluation.Waivers.Justified.{Justifies, Justified, apply_waivers-Justified}
use assurectl.Evaluation.Sorting.{finding_less, sort_findings}
use assurectl.Evaluation.Sorting.Stable.{any-sort_stable}
use assurectl.Evaluation.Evaluate.{Evaluated, evaluate_requirements, normalize, evaluate}
use assurectl.Evaluation.Evaluate.Checked.{Checked, validate_input-Checked, evaluate-reached_kernel}
use assurectl.Evaluation.Evaluate.Total.{
  established, established-accepted, evaluate_requirement-Reports,
}

-- Some envelope of the evidence counts for the requirement and has the outcome.
abbrev pub Shown : Input → ObservedOutcome → Requirement → Type 0
Shown input outcome requirement =
    Exists (Establishes requirement input.evaluated_at outcome) input.evidence

-- One of the records names the requirement, is in scope and is in force.
abbrev pub Excused : Platform → Input → Requirement → Type 0
Excused go input requirement =
    Exists
      (λ (entry : Waiver.Record).
        (requirement.id ≡ entry.target.id)
        × InScope entry input
        × InForce go entry input.evaluated_at)
      input.waivers

-- The requirement is shown to have passed, or it is waivable, is shown to have failed, and is
-- excused.
abbrev pub Accounted : Platform → Input → Requirement → Type 0
Accounted go input requirement =
    Shown input ObservedOutcome.passed requirement
    ⊎ ((requirement.waivable ≡ true)
        × Shown input ObservedOutcome.failed requirement
        × Excused go input requirement)

supported :
    (evidence : List Evidence.Loaded)
    → All IngestedEvidence evidence
    → All (λ item. outcome_valid item.envelope.outcome.status ≡ true) evidence
supported [] h = tt
supported (item ∷ items) (h, hs) = (h.1, supported items hs)

Excused_of_Justifies :
    (go : Platform) (input : Input) (requirement : Requirement) (r : RequirementResult)
    (entries : List Waiver.Record)
    → r.requirement_id ≡ requirement.id
    → Exists (Justifies go input r) entries
    → Exists
        (λ (entry : Waiver.Record).
          (requirement.id ≡ entry.target.id)
          × InScope entry input
          × InForce go entry input.evaluated_at)
        entries
Excused_of_Justifies go input requirement r [] e h = absurd h
Excused_of_Justifies go input requirement r (entry ∷ entries) e (inl j) =
    inl (sym e ∙ j.target, j.in_scope, j.in_force)
Excused_of_Justifies go input requirement r (entry ∷ entries) e (inr js) =
    inr (Excused_of_Justifies go input requirement r entries e js)

module _ (go : Platform) (input : Input) (ingested : All IngestedEvidence input.evidence) where
  passed-Shown :
      (requirement : Requirement)
      → Passed (evaluate_requirement go requirement input.evidence input.evaluated_at).0
      → Shown input ObservedOutcome.passed requirement
  passed-Shown requirement h =
      let (some_decided, no_error, no_failed) =
        (requirement_Passed go requirement input.evidence input.evaluated_at).0 h in
      deciding-Exists requirement input.evaluated_at input.evidence
        (supported input.evidence ingested) some_decided no_error no_failed

  failed-Shown :
      (requirement : Requirement)
      → Failed (evaluate_requirement go requirement input.evidence input.evaluated_at).0
      → Shown input ObservedOutcome.failed requirement
  failed-Shown requirement h =
      failed-Exists requirement input.evaluated_at input.evidence
        ((requirement_Failed go requirement input.evidence input.evaluated_at).0 h).2

  -- one result behind the waivers against the result that it was
  account :
      (requirement : Requirement) (r : RequirementResult)
      → bare r ≡ bare (evaluate_requirement go requirement input.evidence input.evaluated_at).0
      → Justified go input input.waivers r
      → PassedOrWaived r
      → Accounted go input requirement
  account requirement r same justified settled = elim settled [
    | inl passed ↦ inl (
        passed-Shown requirement (
          ap (λ t. t.evidence_state) (sym same) ∙ passed.0,
          ap (λ t. t.outcome) (sym same) ∙ passed.1,
        ))
    | inr (failed, waived) ↦
        let reports =
          evaluate_requirement-Reports go requirement input.evidence input.evaluated_at in
        inr (
          sym reports.1 ∙ (ap (λ t. t.waivable) (sym same) ∙ waived.0),
          failed-Shown requirement (
            ap (λ t. t.evidence_state) (sym same) ∙ failed.0,
            ap (λ t. t.outcome) (sym same) ∙ failed.1,
          ),
          elim justified [
            | inl unwaived ↦ absurd (ground arith)
            | inr records ↦
                Excused_of_Justifies go input requirement r input.waivers
                  (ap (λ t. t.requirement_id) same ∙ reports.0) records
          ],
        )
  ]

  account_each :
      (requirements : List Requirement) (rs : List RequirementResult)
      → map bare rs ≡ map bare (established go input.evidence input.evaluated_at requirements).0
      → All (Justified go input input.waivers) rs
      → All PassedOrWaived rs
      → All (Accounted go input) requirements
  unfolding evaluate_requirements
  account_each [] rs same j p = tt
  account_each (requirement ∷ requirements) [] same j p = absurd (ground arith)
  account_each (requirement ∷ requirements) (r ∷ rs) same (j, js) (p, ps) =
      let here = head-eq_of_cons-eq same in
      let rest = tail-eq_of_cons-eq same in
      (account requirement r here j p, account_each requirements rs rest js ps)

  passed_each :
      (requirements : List Requirement) (rs : List RequirementResult)
      → map bare rs ≡ map bare (established go input.evidence input.evaluated_at requirements).0
      → All Passed rs
      → All (Shown input ObservedOutcome.passed) requirements
  unfolding evaluate_requirements
  passed_each [] rs same p = tt
  passed_each (requirement ∷ requirements) [] same p = absurd (ground arith)
  passed_each (requirement ∷ requirements) (r ∷ rs) same (p, ps) =
      let here = head-eq_of_cons-eq same in
      let rest = tail-eq_of_cons-eq same in
      (
        passed-Shown requirement
            (ap (λ t. t.evidence_state) (sym here) ∙ p.0, ap (λ t. t.outcome) (sym here) ∙ p.1),
        passed_each requirements rs rest ps,
      )

  some_requirement :
      (requirements : List Requirement) (rs : List RequirementResult)
      → map bare rs ≡ map bare (established go input.evidence input.evaluated_at requirements).0
      → is_empty rs ≡ false
      → is_empty requirements ≡ false
  unfolding evaluate_requirements
  some_requirement [] [] same h = absurd (ground arith)
  some_requirement [] (r ∷ rs) same h = absurd (ground arith)
  some_requirement (requirement ∷ requirements) rs same h = refl

  abbrev requirements : List Requirement
  requirements = input.policy.policy.requirements

  abbrev at_first : List RequirementResult
  at_first = (established go input.evidence input.evaluated_at requirements).0

  -- Where no finding that goes to the kernel blocks, none of `universeFindings` does.
  quiet_universe :
      is_blocking (normalize go input).findings ≡ false
      → is_blocking (universe_findings go input.contract.contract.acceptance_criteria requirements)
        ≡ false
  unfolding normalize sort_findings
  quiet_universe h =
      let universe =
        universe_findings go input.contract.contract.acceptance_criteria requirements in
      let found = (established go input.evidence input.evaluated_at requirements).1 in
      let waivers = apply_waivers go at_first input.waivers input in
      ground (
        arith,
        any-sort_stable finding_less (λ (f : Finding). f.blocking)
            ((universe ++ found) ++ waivers.findings),
        any-append (λ (f : Finding). f.blocking) (universe ++ found) waivers.findings,
        any-append (λ (f : Finding). f.blocking) universe found,
      )

  normalize-bare : map bare (normalize go input).results ≡ map bare at_first
  unfolding normalize
  normalize-bare = (apply_waivers_frame go at_first input.waivers input).0

  normalize-Justified :
      Checked input → All (Justified go input input.waivers) (normalize go input).results
  unfolding normalize
  normalize-Justified checked =
      apply_waivers-Justified go input at_first input.waivers
        (established-accepted go input.evidence input.evaluated_at requirements ingested
          checked.requirements_canonical).2

  -- If `Evaluate` approves, then the policy has a requirement, every requirement of the policy has
  -- an envelope that counts for it with the outcome PASSED, and the policy defines every
  -- requirement that an acceptance criterion refers to. The evidence is as its loader leaves it.
  pub evaluate-approved :
      (out : Evaluated)
      → evaluate go input ≡ ok out
      → out.verdict
        ≡ record { verdict = VerificationVerdict.passed; decision = CompletionDecision.approved }
      → (is_empty requirements ≡ false)
        × All (Shown input ObservedOutcome.passed) requirements
        × KnownReferences (known_ids requirements) input.contract.contract.acceptance_criteria
  evaluate-approved out h approved =
      let (valid, kernel, _, _, _) = evaluate-reached_kernel go input out h in
      let (_, some_result, passed, quiet) =
        (evaluate_approves (normalize go input).results (normalize go input).findings).0
          (kernel ∙ ap (λ v. (v, none)) approved) in
      (
        some_requirement requirements (normalize go input).results normalize-bare some_result,
        passed_each requirements (normalize go input).results normalize-bare passed,
        universe_findings-known go _ requirements (quiet_universe quiet),
      )

  -- If `Evaluate` accepts the work with a risk, then every requirement of the policy either has an
  -- envelope that counts for it with the outcome PASSED, or is waivable, has an envelope that
  -- counts for it with the outcome FAILED, and a waiver record that names it, is in scope and is
  -- in force; and the policy defines every requirement that an acceptance criterion refers to.
  -- The evidence is as its loader leaves it.
  pub evaluate-accepted_risk :
      (out : Evaluated)
      → evaluate go input ≡ ok out
      → out.verdict ≡ record {
        verdict = VerificationVerdict.failed;
        decision = CompletionDecision.accepted_with_risk;
      }
      → All (Accounted go input) requirements
        × KnownReferences (known_ids requirements) input.contract.contract.acceptance_criteria
  evaluate-accepted_risk out h accepted =
      let (valid, kernel, _, _, _) = evaluate-reached_kernel go input out h in
      let (_, _, settled, quiet) =
        (evaluate_accepts_risk (normalize go input).results (normalize go input).findings).0
          (kernel ∙ ap (λ v. (v, none)) accepted) in
      (
        account_each requirements (normalize go input).results normalize-bare
            (normalize-Justified (validate_input-Checked go input valid)) settled,
        universe_findings-known go _ requirements (quiet_universe quiet),
      )
