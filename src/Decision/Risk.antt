-- ===== src/Decision/Risk.antt =====
-- internal/decision/evaluate.go: accepted risk, rejection and blocking.
use assurectl.Prelude.{
  true, false, false≢true, not, ◌&&◌, ◌||◌, ◌≡◌, ◌≢◌, refl, sym, ◌∙◌, ap, ◌↔◌, ◌⊎◌, inl, inr, none,
  List, [], ◌∷◌, All, Exists, any, is_empty, Bool-cases, arith,
}
use assurectl.Domain.{
  WaiverStatus, VerificationVerdict, CompletionDecision, RequirementResult, Finding,
  is_waiver_valid,
}
use assurectl.Decision.{every_failure_is_waived, evaluate}
use assurectl.Decision.Table.{WellFormed, is_failure, is_undetermined, evaluate-WellFormed}
use assurectl.Decision.Outcomes.{
  Failed, PassedOrWaived, PassedOrWaived-All, All-PassedOrWaived, is_blocking, reached,
  Concludes-accepted, Concludes-rejected, concludes_blocked, evaluate-reached,
}

nonempty_of_any : (rs : List RequirementResult) → any is_failure rs ≡ true → is_empty rs ≡ false
nonempty_of_any [] h = ground arith
nonempty_of_any (r ∷ rs) h = refl

module _ (rs : List RequirementResult) (fs : List Finding) where
  abbrev Acceptance : Type 0
  Acceptance =
      WellFormed rs fs
      × (any is_failure rs ≡ true)
      × All PassedOrWaived rs
      × (is_blocking fs ≡ false)

  acceptance_of :
      evaluate rs fs ≡ reached VerificationVerdict.failed CompletionDecision.accepted_with_risk
      → Acceptance
  acceptance_of h =
      let (w, e) =
        evaluate-reached rs fs VerificationVerdict.failed CompletionDecision.accepted_with_risk h in
      let facts =
        (Concludes-accepted rs (any is_failure rs) (any is_undetermined rs) (is_blocking fs)).0 e in
      (w, facts.1, PassedOrWaived-All rs w.requirements_valid facts.2 facts.4, facts.3)

  of_acceptance :
      Acceptance
      → evaluate rs fs ≡ reached VerificationVerdict.failed CompletionDecision.accepted_with_risk
  of_acceptance (w, failed, p, quiet) =
      let facts = All-PassedOrWaived rs p in
      evaluate-WellFormed rs fs w
      ∙ ap (λ r. (r, none))
          ((Concludes-accepted rs (any is_failure rs) (any is_undetermined rs) (is_blocking fs)).1
            (nonempty_of_any rs failed, failed, facts.0, quiet, facts.1))

  -- The risk is accepted exactly when the input is well formed, some requirement has failed, every
  -- requirement has passed or is a waivable failure with a valid waiver, and no finding blocks.
  pub evaluate_accepts_risk :
      (evaluate rs fs ≡ reached VerificationVerdict.failed CompletionDecision.accepted_with_risk)
      ↔ (WellFormed rs fs
          × (any is_failure rs ≡ true)
          × All PassedOrWaived rs
          × (is_blocking fs ≡ false))
  evaluate_accepts_risk = (acceptance_of, of_acceptance)

-- A failure that no valid waiver excuses, or that none may excuse.
abbrev pub Unwaived : RequirementResult → Type 0
Unwaived r = Failed r × ((r.waivable ≡ false) ⊎ (r.waiver_status ≢ WaiverStatus.valid))

invalid_waiver : (s : WaiverStatus) → is_waiver_valid s ≡ false → s ≢ WaiverStatus.valid
invalid_waiver s h = λ e. false≢true (sym h ∙ ap is_waiver_valid e)

no_valid_waiver : (s : WaiverStatus) → s ≢ WaiverStatus.valid → is_waiver_valid s ≡ false
no_valid_waiver s h = ground arith

Unwaived-split :
    (r : RequirementResult)
    → is_failure r ≡ true
    → (not r.waivable || not (is_waiver_valid r.waiver_status)) ≡ true
    → Unwaived r
Unwaived-split r h k = elim (Bool-cases r.waivable) [
  | inr unwaivable ↦ (ground arith, inl unwaivable)
  | inl waivable ↦ (ground arith, inr (invalid_waiver r.waiver_status (ground arith)))
]

Exists-Unwaived :
    (rs : List RequirementResult) → every_failure_is_waived rs ≡ false → Exists Unwaived rs
unfolding every_failure_is_waived
Exists-Unwaived [] h = absurd (ground arith)
Exists-Unwaived (r ∷ rs) h =
    elim (Bool-cases (is_failure r && (not r.waivable || not (is_waiver_valid r.waiver_status)))) [
      | inl here ↦ inl (Unwaived-split r (ground arith) (ground arith))
      | inr further ↦ inr (Exists-Unwaived rs (ground arith))
    ]

Unwaived-is_failure :
    (r : RequirementResult)
    → Unwaived r
    → (is_failure r ≡ true) × ((not r.waivable || not (is_waiver_valid r.waiver_status)) ≡ true)
Unwaived-is_failure r (failed, reason) = elim reason [
  | inl unwaivable ↦ ground arith
  | inr invalid ↦ ground (arith, no_valid_waiver r.waiver_status invalid)
]

every_failure_is_waived-Unwaived :
    (rs : List RequirementResult)
    → Exists Unwaived rs
    → (every_failure_is_waived rs ≡ false) × (any is_failure rs ≡ true)
unfolding every_failure_is_waived
every_failure_is_waived-Unwaived (r ∷ rs) h = elim h [
  | inl here ↦ ground (arith, Unwaived-is_failure r here)
  | inr further ↦ ground (arith, every_failure_is_waived-Unwaived rs further)
]
every_failure_is_waived-Unwaived [] h = absurd h

module _ (rs : List RequirementResult) (fs : List Finding) where
  rejection_of :
      evaluate rs fs ≡ reached VerificationVerdict.failed CompletionDecision.rejected
      → WellFormed rs fs
        × (any is_undetermined rs ≡ false)
        × Exists Unwaived rs
        × (is_blocking fs ≡ false)
  rejection_of h =
      let (w, e) =
        evaluate-reached rs fs VerificationVerdict.failed CompletionDecision.rejected h in
      let facts =
        (Concludes-rejected rs (any is_failure rs) (any is_undetermined rs) (is_blocking fs)).0 e in
      (w, facts.2, Exists-Unwaived rs facts.4, facts.3)

  of_rejection :
      WellFormed rs fs
        × (any is_undetermined rs ≡ false)
        × Exists Unwaived rs
        × (is_blocking fs ≡ false)
      → evaluate rs fs ≡ reached VerificationVerdict.failed CompletionDecision.rejected
  of_rejection (w, settled, some_failure, quiet) =
      let (unwaived, failed) = every_failure_is_waived-Unwaived rs some_failure in
      evaluate-WellFormed rs fs w
      ∙ ap (λ r. (r, none))
          ((Concludes-rejected rs (any is_failure rs) (any is_undetermined rs) (is_blocking fs)).1
            (nonempty_of_any rs failed, failed, settled, quiet, unwaived))

  -- A change is rejected exactly when the input is well formed, every requirement has passed or
  -- failed, some failure is not waivable or has no valid waiver, and no finding blocks.
  pub evaluate_rejects :
      (evaluate rs fs ≡ reached VerificationVerdict.failed CompletionDecision.rejected) ↔ (
        WellFormed rs fs
        × (any is_undetermined rs ≡ false)
        × Exists Unwaived rs
        × (is_blocking fs ≡ false))
  evaluate_rejects = (rejection_of, of_rejection)

  -- On a well-formed input the decision is BLOCKED exactly when there is no requirement, some
  -- requirement's outcome is open, or a finding blocks; so a waiver never lifts a block.
  pub evaluate_blocks :
      WellFormed rs fs
      → ((evaluate rs fs).0.decision ≡ CompletionDecision.blocked)
        ↔ ((is_empty rs ≡ true) ⊎ (any is_undetermined rs ≡ true) ⊎ (is_blocking fs ≡ true))
  evaluate_blocks w =
      rw (evaluate-WellFormed rs fs w)
        (concludes_blocked rs (any is_failure rs) (any is_undetermined rs) (is_blocking fs))
