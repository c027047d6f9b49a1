-- ===== src/Evaluation/Evaluate/Checked.antt =====
-- internal/evaluation/evaluate.go: what an input that `validateInput` accepts has, and what the
-- results of the requirements have.
use assurectl.Prelude.{
  ℕ, suc, String, ◌≡◌, List, [], ◌∷◌, All, Distinct, Unseen, Unseen-of_cons, none, ok, arith,
}
use assurectl.Platform.{Platform}
use assurectl.Decision
use assurectl.Decision.Valid.{Canonical}
use assurectl.Contract.{AcceptanceCriterion}
use assurectl.Policy.{Requirement}
use assurectl.Evaluation.Input.{
  Input, check_requirement_ids, check_references, check_criteria, validate_input,
}
use assurectl.Evaluation.Universe.{known_ids}
use assurectl.Evaluation.Universe.Valid.{CanonicalReferences, CanonicalRequirements}
use assurectl.Evaluation.Evaluate.{Evaluated, normalize, evaluate}

check_requirement_ids_sound :
    (i : ℕ) (seen : List String) (requirements : List Requirement)
    → check_requirement_ids i seen requirements ≡ ok tt
    → CanonicalRequirements requirements
      × Distinct (known_ids requirements)
      × Unseen seen (known_ids requirements)
unfolding check_requirement_ids
check_requirement_ids_sound i seen [] h = (tt, tt, tt)
check_requirement_ids_sound i seen (requirement ∷ requirements) h = ground (
  arith,
  check_requirement_ids_sound (suc i) (requirement.id ∷ seen) requirements,
  Unseen-of_cons requirement.id seen (known_ids requirements),
)

check_references_sound :
    (i j : ℕ) (references : List String)
    → check_references i j references ≡ ok tt
    → All Canonical references
unfolding check_references
check_references_sound i j [] h = tt
check_references_sound i j (reference ∷ references) h =
    ground (arith, check_references_sound i (suc j) references)

check_criteria_sound :
    (i : ℕ) (criteria : List AcceptanceCriterion)
    → check_criteria i criteria ≡ ok tt
    → CanonicalReferences criteria
unfolding check_criteria
check_criteria_sound i [] h = tt
check_criteria_sound i (criterion ∷ criteria) h = ground (
  arith,
  check_references_sound i 0 criterion.requirements,
  check_criteria_sound (suc i) criteria,
)

-- What `Evaluate` relies on behind `validateInput`.
pub record Checked (input : Input) : Type 0 where
  pub requirements_canonical : CanonicalRequirements input.policy.policy.requirements
  pub requirements_distinct : Distinct (known_ids input.policy.policy.requirements)
  pub references_canonical : CanonicalReferences input.contract.contract.acceptance_criteria

pub validate_input-Checked :
    (go : Platform) (input : Input) → validate_input go input ≡ ok tt → Checked input
unfolding validate_input
validate_input-Checked go input h =
    let requirements =
      check_requirement_ids_sound 0 [] input.policy.policy.requirements (ground arith) in
    record {
      requirements_canonical = requirements.0;
      requirements_distinct = requirements.1;
      references_canonical =
          check_criteria_sound 0 input.contract.contract.acceptance_criteria (ground arith);
    }

-- A result without error: the input was accepted, the kernel was asked about the normalized
-- requirement results and findings, and the parts come out as they are.
pub evaluate-reached_kernel :
    (go : Platform) (input : Input) (out : Evaluated)
    → evaluate go input ≡ ok out
    → (validate_input go input ≡ ok tt)
      × (Decision.evaluate (normalize go input).results (normalize go input).findings
          ≡ (out.verdict, none))
      × (out.requirements ≡ (normalize go input).results)
      × (out.waivers ≡ (normalize go input).resolved)
      × (out.findings ≡ (normalize go input).findings)
unfolding evaluate
evaluate-reached_kernel go input out h = ground arith
