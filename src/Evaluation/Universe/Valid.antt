-- ===== src/Evaluation/Universe/Valid.antt =====
-- internal/evaluation/evaluate.go: what `universeFindings` reports.
use assurectl.Prelude.{
  String, refl, inl, inr, List, [], ◌∷◌, ◌++◌, All, All-append, contains, nonempty-append,
  Bool-cases,
}
use assurectl.Platform.{Platform}
use assurectl.Domain.{Finding, category_valid, severity_valid}
use assurectl.Decision.Valid.{Canonical, ValidFinding}
use assurectl.Contract.{AcceptanceCriterion}
use assurectl.Policy.{Requirement}
use assurectl.Evaluation.Universe.{
  Cross, known_ids, unknown_finding, unreferenced_finding, cross_reference, cross_references,
  cross_criteria, unreferenced, universe_findings,
}

-- Every reference of the contract is a canonical identifier.
abbrev pub CanonicalReferences : List AcceptanceCriterion → Type 0
CanonicalReferences criteria = All (λ criterion. All Canonical criterion.requirements) criteria

abbrev pub CanonicalRequirements : List Requirement → Type 0
CanonicalRequirements requirements = All (λ requirement. Canonical requirement.id) requirements

module _ (go : Platform) where
  unknown_finding-valid :
      (criterion reference : String)
      → Canonical reference
      → ValidFinding (unknown_finding go criterion reference)
  unfolding unknown_finding category_valid severity_valid
  unknown_finding-valid criterion reference c = record {
    code_given = refl;
    category_supported = refl;
    severity_supported = refl;
    requirement_canonical = inr c;
    ids_canonical = tt;
    ids_distinct = tt;
    message_given = nonempty-append "acceptance criterion " _ refl;
  }

  unreferenced_finding-valid :
      (id : String) → Canonical id → ValidFinding (unreferenced_finding go id)
  unfolding unreferenced_finding category_valid severity_valid
  unreferenced_finding-valid id c = record {
    code_given = refl;
    category_supported = refl;
    severity_supported = refl;
    requirement_canonical = inr c;
    ids_canonical = tt;
    ids_distinct = tt;
    message_given = nonempty-append "policy requirement " _ refl;
  }

  cross_reference-valid :
      (known : List String) (criterion reference : String) (s : Cross)
      → Canonical reference
      → All ValidFinding s.findings
      → All ValidFinding (cross_reference go known criterion reference s).findings
  unfolding cross_reference
  cross_reference-valid known criterion reference s c h =
      elim (Bool-cases (contains known reference)) [
        | inl known' ↦ rw known' h
        | inr unknown ↦ elim (Bool-cases (contains s.seen_unknown reference)) [
          | inl again ↦ rw (unknown, again) h
          | inr first ↦
              rw (unknown, first)
                (All-append ValidFinding s.findings (unknown_finding go criterion reference ∷ []) h
                  (unknown_finding-valid criterion reference c, tt))
        ]
      ]

  cross_references-valid :
      (known : List String) (criterion : String) (references : List String) (s : Cross)
      → All Canonical references
      → All ValidFinding s.findings
      → All ValidFinding (cross_references go known criterion references s).findings
  unfolding cross_references
  cross_references-valid known criterion [] s c h = h
  cross_references-valid known criterion (reference ∷ references) s (c, cs) h =
      cross_references-valid known criterion references
        (cross_reference go known criterion reference s) cs
        (cross_reference-valid known criterion reference s c h)

  cross_criteria-valid :
      (known : List String) (criteria : List AcceptanceCriterion) (s : Cross)
      → CanonicalReferences criteria
      → All ValidFinding s.findings
      → All ValidFinding (cross_criteria go known criteria s).findings
  unfolding cross_criteria
  cross_criteria-valid known [] s c h = h
  cross_criteria-valid known (criterion ∷ criteria) s (c, cs) h =
      cross_criteria-valid known criteria
        (cross_references go known criterion.id criterion.requirements s) cs
        (cross_references-valid known criterion.id criterion.requirements s c h)

  unreferenced-valid :
      (referenced : List String) (requirements : List Requirement) (findings : List Finding)
      → CanonicalRequirements requirements
      → All ValidFinding findings
      → All ValidFinding (unreferenced go referenced requirements findings)
  unfolding unreferenced
  unreferenced-valid referenced [] findings c h = h
  unreferenced-valid referenced (requirement ∷ requirements) findings (c, cs) h =
      elim (Bool-cases (contains referenced requirement.id)) [
        | inl known ↦ rw known (unreferenced-valid referenced requirements findings cs h)
        | inr missing ↦ rw missing (
            unreferenced-valid referenced requirements
              (findings ++ unreferenced_finding go requirement.id ∷ []) cs
              (All-append ValidFinding findings (unreferenced_finding go requirement.id ∷ []) h
                (unreferenced_finding-valid requirement.id c, tt)))
      ]

  -- The kernel accepts the findings, if all identifiers are canonical.
  pub universe_findings-valid :
      (criteria : List AcceptanceCriterion) (requirements : List Requirement)
      → CanonicalReferences criteria
      → CanonicalRequirements requirements
      → All ValidFinding (universe_findings go criteria requirements)
  unfolding universe_findings
  universe_findings-valid criteria requirements c k =
      unreferenced-valid _ requirements _ k
        (cross_criteria-valid (known_ids requirements) criteria _ c tt)
