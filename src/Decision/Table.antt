-- ===== src/Decision/Table.antt =====
-- internal/decision/evaluate.go: `Evaluate` accepts well-formed inputs and no others, and reads the
-- precedence table off three facts about them.
use assurectl.Prelude.{
  ℕ, suc, String, Bool, true, false, not, ◌&&◌, ◌||◌, ◌≡◌, ◌↔◌, none, some, List, [], ◌∷◌, ◌∙◌, ap,
  All, Distinct, Unseen, Unseen-nil, Unseen-cons, Unseen-of_cons, any, ok, Result-cases, inl, inr,
  if◌then◌else◌, arith,
}
use assurectl.Domain.{
  RequirementResult, Finding, is_evidence_valid, is_outcome_failed, is_outcome_error,
}
use assurectl.Decision.{
  DecisionError, tally, scan_requirements, scan_findings, conclude, evaluate, blocked_indeterminate,
}
use assurectl.Decision.Valid.{
  ValidRequirement, ValidFinding, validate_requirement_sound, validate_requirement_complete,
  validate_finding_sound, validate_finding_complete,
}

-- A result that establishes a failure.
abbrev pub is_failure : RequirementResult → Bool
is_failure r = is_evidence_valid r.evidence_state && is_outcome_failed r.outcome

-- A result that establishes neither success nor failure.
abbrev pub is_undetermined : RequirementResult → Bool
is_undetermined r = not (is_evidence_valid r.evidence_state) || is_outcome_error r.outcome

abbrev pub requirement_ids : List RequirementResult → List String
requirement_ids [] = []
requirement_ids (r ∷ rs) = r.requirement_id ∷ requirement_ids rs

pub record WellFormed (rs : List RequirementResult) (fs : List Finding) : Type 0 where
  pub requirements_valid : All ValidRequirement rs
  pub requirements_distinct : Distinct (requirement_ids rs)
  pub findings_valid : All ValidFinding fs

abbrev flags_of : Bool × Bool → List RequirementResult → Bool × Bool
flags_of flags rs = (flags.0 || any is_failure rs, flags.1 || any is_undetermined rs)

flags_of-tally :
    (r : RequirementResult) (flags : Bool × Bool) (rs : List RequirementResult)
    → flags_of (tally r flags) rs ≡ flags_of flags (r ∷ rs)
unfolding tally
flags_of-tally r flags rs = ground arith

scan_requirements_sound :
    (i : ℕ) (seen : List String) (flags : Bool × Bool) (rs : List RequirementResult)
    (out : Bool × Bool)
    → scan_requirements i seen flags rs ≡ ok out
    → All ValidRequirement rs × Distinct (requirement_ids rs) × Unseen seen (requirement_ids rs)
unfolding scan_requirements
scan_requirements_sound i seen flags [] out h = (tt, tt, tt)
scan_requirements_sound i seen flags (r ∷ rs) out h = ground (
  arith,
  validate_requirement_sound i r,
  scan_requirements_sound (suc i) (r.requirement_id ∷ seen) (tally r flags) rs out,
  Unseen-of_cons r.requirement_id seen (requirement_ids rs),
)

scan_requirements_complete :
    (i : ℕ) (seen : List String) (flags : Bool × Bool) (rs : List RequirementResult)
    → All ValidRequirement rs
    → Distinct (requirement_ids rs)
    → Unseen seen (requirement_ids rs)
    → scan_requirements i seen flags rs ≡ ok (flags_of flags rs)
unfolding scan_requirements
scan_requirements_complete i seen flags [] v d u = ground arith
scan_requirements_complete i seen flags (r ∷ rs) (v, vs) (d, ds) (u, us) =
    rw (validate_requirement_complete i r v, u, scan_requirements)
      (scan_requirements_complete (suc i) (r.requirement_id ∷ seen) (tally r flags) rs vs ds
          (Unseen-cons r.requirement_id seen (requirement_ids rs) us d)
        ∙ ap ok (flags_of-tally r flags rs))

scan_findings_sound :
    (i : ℕ) (blocking : Bool) (fs : List Finding) (out : Bool)
    → scan_findings i blocking fs ≡ ok out
    → All ValidFinding fs
unfolding scan_findings
scan_findings_sound i blocking [] out h = tt
scan_findings_sound i blocking (f ∷ fs) out h = ground (
  arith,
  validate_finding_sound i f,
  scan_findings_sound (suc i) (if f.blocking then true else blocking) fs out,
)

scan_findings_complete :
    (i : ℕ) (blocking : Bool) (fs : List Finding)
    → All ValidFinding fs
    → scan_findings i blocking fs ≡ ok (blocking || any (λ f. f.blocking) fs)
unfolding scan_findings
scan_findings_complete i blocking [] v = ground arith
scan_findings_complete i blocking (f ∷ fs) (v, vs) = ground (
  arith,
  validate_finding_complete i f v,
  scan_findings_complete (suc i) (if f.blocking then true else blocking) fs vs,
)

-- On a well-formed input `Evaluate` returns no error, and its result depends on the requirement
-- results, on whether one of them establishes a failure, on whether one of them leaves the outcome
-- open, and on whether a finding blocks.
pub evaluate-WellFormed :
    (rs : List RequirementResult) (fs : List Finding)
    → WellFormed rs fs
    → evaluate rs fs
      ≡ (conclude rs (any is_failure rs, any is_undetermined rs) (any (λ f. f.blocking) fs), none)
unfolding evaluate
evaluate-WellFormed rs fs w = rw (
  scan_requirements_complete 0 [] (false, false) rs w.requirements_valid w.requirements_distinct
      (Unseen-nil (requirement_ids rs)),
  scan_findings_complete 0 false fs w.findings_valid,
  evaluate,
)

pub WellFormed-of_evaluate :
    (rs : List RequirementResult) (fs : List Finding) → (evaluate rs fs).1 ≡ none → WellFormed rs fs
unfolding evaluate
WellFormed-of_evaluate rs fs h = elim (Result-cases (scan_requirements 0 [] (false, false) rs)) [
  | inr (e, failed) ↦ absurd (ground arith)
  | inl (flags, scanned) ↦ elim (Result-cases (scan_findings 0 false fs)) [
    | inr (e, failed) ↦ absurd (ground arith)
    | inl (blocking, found) ↦
        let facts = scan_requirements_sound 0 [] (false, false) rs flags scanned in
        record {
          requirements_valid = facts.0;
          requirements_distinct = facts.1;
          findings_valid = scan_findings_sound 0 false fs blocking found;
        }
  ]
]

-- `Evaluate` returns no error exactly on the well-formed inputs: each requirement result and each
-- finding is valid, and no requirement identifier occurs twice.
pub evaluate_accepts :
    (rs : List RequirementResult) (fs : List Finding)
    → ((evaluate rs fs).1 ≡ none) ↔ WellFormed rs fs
evaluate_accepts rs fs =
    (WellFormed-of_evaluate rs fs, λ w. ap (λ r. r.1) (evaluate-WellFormed rs fs w))

-- Whatever the input, an error comes with the blocked, indeterminate result.
pub evaluate_fails_closed :
    (rs : List RequirementResult) (fs : List Finding) (e : DecisionError)
    → (evaluate rs fs).1 ≡ some e
    → (evaluate rs fs).0 ≡ blocked_indeterminate
unfolding evaluate
evaluate_fails_closed rs fs e h = ground arith
