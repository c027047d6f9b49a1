-- ===== src/Decision/Outcomes.antt =====
-- internal/decision/evaluate.go: when each completion decision is reached.
use assurectl.Prelude.{
  Bool, true, false, ◌≡◌, refl, sym, ◌∙◌, ap, ◌↔◌, ◌⊎◌, Option, none, List, [], ◌∷◌, All, any,
  is_empty, arith,
}
use assurectl.Domain.{
  EvidenceState, ObservedOutcome, WaiverStatus, VerificationVerdict, CompletionDecision,
  RequirementResult, EvaluationResult, Finding, outcome_valid,
}
use assurectl.Decision.{
  DecisionError, every_failure_is_waived, conclude, evaluate, blocked_indeterminate,
}
use assurectl.Decision.Valid.{ValidRequirement}
use assurectl.Decision.Table.{
  WellFormed, is_failure, is_undetermined, evaluate-WellFormed, evaluate_accepts,
}

-- The result establishes success.
abbrev pub Passed : RequirementResult → Type 0
Passed r = (r.evidence_state ≡ EvidenceState.valid) × (r.outcome ≡ ObservedOutcome.passed)

-- The result establishes a failure.
abbrev pub Failed : RequirementResult → Type 0
Failed r = (r.evidence_state ≡ EvidenceState.valid) × (r.outcome ≡ ObservedOutcome.failed)

abbrev pub Waived : RequirementResult → Type 0
Waived r = (r.waivable ≡ true) × (r.waiver_status ≡ WaiverStatus.valid)

abbrev pub is_blocking : List Finding → Bool
is_blocking fs = any (λ f. f.blocking) fs

abbrev pub reached :
    VerificationVerdict → CompletionDecision → EvaluationResult × Option DecisionError
reached v d = (record { verdict = v; decision = d }, none)

Passed-All :
    (rs : List RequirementResult)
    → All ValidRequirement rs
    → any is_failure rs ≡ false
    → any is_undetermined rs ≡ false
    → All Passed rs
unfolding outcome_valid
Passed-All [] v f u = tt
Passed-All (r ∷ rs) (v, vs) f u = ground (arith, v.status.outcome_established, Passed-All rs vs)

All-Passed :
    (rs : List RequirementResult)
    → All Passed rs
    → (any is_failure rs ≡ false) × (any is_undetermined rs ≡ false)
All-Passed [] h = (refl, refl)
All-Passed (r ∷ rs) (h, hs) = ground (arith, All-Passed rs hs)

-- A result that a decision to accept the risk may rest on.
abbrev pub PassedOrWaived : RequirementResult → Type 0
PassedOrWaived r = Passed r ⊎ (Failed r × Waived r)

pub PassedOrWaived-All :
    (rs : List RequirementResult)
    → All ValidRequirement rs
    → any is_undetermined rs ≡ false
    → every_failure_is_waived rs ≡ true
    → All PassedOrWaived rs
unfolding outcome_valid every_failure_is_waived
PassedOrWaived-All [] v u w = tt
PassedOrWaived-All (r ∷ rs) (v, vs) u w =
    ground (arith, v.status.outcome_established, PassedOrWaived-All rs vs)

pub All-PassedOrWaived :
    (rs : List RequirementResult)
    → All PassedOrWaived rs
    → (any is_undetermined rs ≡ false) × (every_failure_is_waived rs ≡ true)
unfolding every_failure_is_waived
All-PassedOrWaived [] h = (refl, refl)
All-PassedOrWaived (r ∷ rs) (h, hs) = ground (arith, All-PassedOrWaived rs hs)

-- `conclude`, read backwards at each pair that it returns.
module _ (rs : List RequirementResult) (a b c : Bool) where
  abbrev pub Concludes : VerificationVerdict → CompletionDecision → Type 0
  Concludes v d = conclude rs (a, b) c ≡ record { verdict = v; decision = d }

  pub Concludes-approved :
      Concludes VerificationVerdict.passed CompletionDecision.approved
      ↔ ((is_empty rs ≡ false) × (a ≡ false) × (b ≡ false) × (c ≡ false))
  unfolding conclude blocked_indeterminate
  Concludes-approved = (λ h. ground arith, λ h. ground arith)

  pub Concludes-accepted :
      Concludes VerificationVerdict.failed CompletionDecision.accepted_with_risk ↔ (
        (is_empty rs ≡ false)
        × (a ≡ true)
        × (b ≡ false)
        × (c ≡ false)
        × (every_failure_is_waived rs ≡ true))
  unfolding conclude blocked_indeterminate
  Concludes-accepted = (λ h. ground arith, λ h. ground arith)

  pub Concludes-rejected : Concludes VerificationVerdict.failed CompletionDecision.rejected ↔ (
      (is_empty rs ≡ false)
      × (a ≡ true)
      × (b ≡ false)
      × (c ≡ false)
      × (every_failure_is_waived rs ≡ false))
  unfolding conclude blocked_indeterminate
  Concludes-rejected = (λ h. ground arith, λ h. ground arith)

  pub concludes_blocked :
      ((conclude rs (a, b) c).decision ≡ CompletionDecision.blocked)
      ↔ ((is_empty rs ≡ true) ⊎ (b ≡ true) ⊎ (c ≡ true))
  unfolding conclude blocked_indeterminate
  concludes_blocked = (λ h. ground arith, λ h. ground arith)

-- A result without error comes from a well-formed input, and is what `conclude` makes of it.
pub evaluate-reached :
    (rs : List RequirementResult) (fs : List Finding) (v : VerificationVerdict)
    (d : CompletionDecision)
    → evaluate rs fs ≡ reached v d
    → WellFormed rs fs
      × (conclude rs (any is_failure rs, any is_undetermined rs) (is_blocking fs)
          ≡ record { verdict = v; decision = d })
evaluate-reached rs fs v d h =
    let w = (evaluate_accepts rs fs).0 (ap (λ r. r.1) h) in
    (w, ap (λ r. r.0) (sym (evaluate-WellFormed rs fs w) ∙ h))

module _ (rs : List RequirementResult) (fs : List Finding) where
  abbrev Approval : Type 0
  Approval = WellFormed rs fs × (is_empty rs ≡ false) × All Passed rs × (is_blocking fs ≡ false)

  approval_of :
      evaluate rs fs ≡ reached VerificationVerdict.passed CompletionDecision.approved → Approval
  approval_of h =
      let (w, e) =
        evaluate-reached rs fs VerificationVerdict.passed CompletionDecision.approved h in
      let facts =
        (Concludes-approved rs (any is_failure rs) (any is_undetermined rs) (is_blocking fs)).0 e in
      (w, facts.0, Passed-All rs w.requirements_valid facts.1 facts.2, facts.3)

  of_approval :
      Approval → evaluate rs fs ≡ reached VerificationVerdict.passed CompletionDecision.approved
  of_approval (w, e, p, f) =
      let facts = All-Passed rs p in
      evaluate-WellFormed rs fs w
      ∙ ap (λ r. (r, none))
          ((Concludes-approved rs (any is_failure rs) (any is_undetermined rs) (is_blocking fs)).1
            (e, facts.0, facts.1, f))

  -- A change is approved exactly when the input is well formed, there is a requirement, every
  -- requirement has valid evidence with the outcome PASSED, and no finding blocks.
  pub evaluate_approves :
      (evaluate rs fs ≡ reached VerificationVerdict.passed CompletionDecision.approved)
      ↔ (WellFormed rs fs × (is_empty rs ≡ false) × All Passed rs × (is_blocking fs ≡ false))
  evaluate_approves = (approval_of, of_approval)
