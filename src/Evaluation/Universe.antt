-- ===== src/Evaluation/Universe.antt =====
-- internal/evaluation/evaluate.go: `universeFindings`, the contract's references against the
-- policy's requirements.
pub mod Valid
pub mod Known
use assurectl.Prelude.{String, true, false, List, [], ◌∷◌, ◌++◌, contains, ◌<>◌, if◌then◌else◌}
use assurectl.Platform.{Platform}
use assurectl.Domain.{FindingCategory, FindingSeverity, Finding}
use assurectl.Contract.{AcceptanceCriterion}
use assurectl.Policy.{Requirement}

-- The maps `referenced` and `seenUnknown` and the findings so far.
pub record Cross : Type 0 where
  pub referenced : List String
  pub seen_unknown : List String
  pub findings : List Finding

abbrev pub known_ids : List Requirement → List String
known_ids [] = []
known_ids (requirement ∷ requirements) = requirement.id ∷ known_ids requirements

module _ (go : Platform) where
  unfoldable pub unknown_finding : String → String → Finding
  unknown_finding criterion reference = record {
    code = "CONTRACT_UNKNOWN_REQUIREMENT";
    category = FindingCategory.contract;
    severity = FindingSeverity.error;
    requirement_id = reference;
    evidence_ids = [];
    message =
        "acceptance criterion "
        <> go.quote criterion
        <> " references requirement "
        <> go.quote reference
        <> " that policy does not define";
    blocking = true;
  }

  unfoldable pub unreferenced_finding : String → Finding
  unreferenced_finding id = record {
    code = "POLICY_REQUIREMENT_UNREFERENCED";
    category = FindingCategory.policy;
    severity = FindingSeverity.info;
    requirement_id = id;
    evidence_ids = [];
    message = "policy requirement " <> go.quote id <> " is referenced by no acceptance criterion";
    blocking = false;
  }

  -- the body of the inner loop
  unfoldable pub cross_reference : List String → String → String → Cross → Cross
  cross_reference known criterion reference s =
      if contains known reference
      then record s { referenced = reference ∷ s.referenced }
      else if contains s.seen_unknown reference
      then s
      else record s {
        seen_unknown = reference ∷ s.seen_unknown;
        findings = s.findings ++ unknown_finding criterion reference ∷ [];
      }

  unfoldable pub cross_references : List String → String → List String → Cross → Cross
  cross_references known criterion [] s = s
  cross_references known criterion (reference ∷ references) s =
      cross_references known criterion references (cross_reference known criterion reference s)

  unfoldable pub cross_criteria : List String → List AcceptanceCriterion → Cross → Cross
  cross_criteria known [] s = s
  cross_criteria known (criterion ∷ criteria) s =
      cross_criteria known criteria (cross_references known criterion.id criterion.requirements s)

  unfoldable pub unreferenced : List String → List Requirement → List Finding → List Finding
  unreferenced referenced [] findings = findings
  unreferenced referenced (requirement ∷ requirements) findings =
      unreferenced referenced requirements (
        if contains referenced requirement.id
        then findings
        else findings ++ unreferenced_finding requirement.id ∷ [])

  unfoldable pub universe_findings : List AcceptanceCriterion → List Requirement → List Finding
  universe_findings criteria requirements =
      let start : Cross = record { referenced = []; seen_unknown = []; findings = [] } in
      let s = cross_criteria (known_ids requirements) criteria start in
      unreferenced s.referenced requirements s.findings
