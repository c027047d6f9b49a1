-- ===== src/Evaluation/Evaluate.antt =====
-- internal/evaluation/evaluate.go: `Evaluate`.
pub mod Checked
pub mod Total
pub mod Approval
use assurectl.Prelude.{ℕ, Option, none, some, List, [], ◌∷◌, ◌++◌, Result, ok, err, ◌>>◌}
use assurectl.Platform.{Platform}
use assurectl.Domain.{RequirementResult, EvaluationResult, Finding}
use assurectl.Decision
use assurectl.Decision.{DecisionError}
use assurectl.Policy.{Requirement}
use assurectl.Evidence
use assurectl.Waiver
use assurectl.Evaluation.Input.{Input, InputError, validate_input}
use assurectl.Evaluation.Requirement.{evaluate_requirement}
use assurectl.Evaluation.Universe.{universe_findings}
use assurectl.Evaluation.Waivers.{Applied, apply_waivers}
use assurectl.Evaluation.Sorting.{sort_findings}

-- The type `Result`.
pub record Evaluated : Type 0 where
  pub requirements : List RequirementResult
  pub findings : List Finding
  pub waivers : List Waiver.Record
  pub verdict : EvaluationResult

pub data EvaluationError : Type 0 where
  input_invalid : InputError → EvaluationError
  kernel_rejected : DecisionError → EvaluationError

-- the loop over requirements, which fills `requirements` and `requirementFindings`
unfoldable pub evaluate_requirements :
    Platform → List Evidence.Loaded → ℕ → List Requirement → List RequirementResult × List Finding
evaluate_requirements go evidence evaluated_at [] = ([], [])
evaluate_requirements go evidence evaluated_at (requirement ∷ requirements) =
    let (result, findings) = evaluate_requirement go requirement evidence evaluated_at in
    let (results, rest) = evaluate_requirements go evidence evaluated_at requirements in
    (result ∷ results, findings ++ rest)

-- The requirement results and the sorted findings that go to the kernel.
unfoldable pub normalize : Platform → Input → Applied
normalize go input =
    let requirements = input.policy.policy.requirements in
    let (results, requirement_findings) =
      evaluate_requirements go input.evidence input.evaluated_at requirements in
    let universe = universe_findings go input.contract.contract.acceptance_criteria requirements in
    let applied = apply_waivers go results input.waivers input in
    record applied {
      findings = sort_findings ((universe ++ requirement_findings) ++ applied.findings);
    }

abbrev with_verdict :
    Applied → EvaluationResult × Option DecisionError → Result EvaluationError Evaluated
with_verdict s (verdict, some e) = err (kernel_rejected e)
with_verdict s (verdict, none) = ok (record {
  requirements = s.results;
  findings = s.findings;
  waivers = s.resolved;
  verdict = verdict;
})

abbrev input_result : Result InputError (Unit {0}) → Result EvaluationError (Unit {0})
input_result (ok u) = ok u
input_result (err e) = err (input_invalid e)

unfoldable pub evaluate : Platform → Input → Result EvaluationError Evaluated
evaluate go input = do
  input_result (validate_input go input)
  let s = normalize go input
  with_verdict s (Decision.evaluate s.results s.findings)
