-- ===== src/Evaluation/Universe/Known.antt =====
-- internal/evaluation/evaluate.go: what it says of the contract that `universeFindings` reports
-- nothing that blocks.
use assurectl.Prelude.{
  String, true, false, ◌≡◌, refl, sym, ◌∙◌, List, [], ◌∷◌, ◌++◌, All, any-append, contains,
  is_empty, Bool-cases, ◌⊎◌, inl, inr, arith,
}
use assurectl.Platform.{Platform}
use assurectl.Domain.{Finding}
use assurectl.Decision.Outcomes.{is_blocking}
use assurectl.Contract.{AcceptanceCriterion}
use assurectl.Policy.{Requirement}
use assurectl.Evaluation.Universe.{
  Cross, known_ids, unknown_finding, unreferenced_finding, cross_reference, cross_references,
  cross_criteria, unreferenced, universe_findings,
}

-- Every reference of the contract is one of the identifiers.
abbrev pub KnownReferences : List String → List AcceptanceCriterion → Type 0
KnownReferences known criteria =
    All (λ criterion. All (λ reference. contains known reference ≡ true) criterion.requirements)
      criteria

abbrev Quiet : Cross → Type 0
Quiet s = is_blocking s.findings ≡ false

-- While nothing blocks, no reference was found to be unknown.
abbrev Reported : Cross → Type 0
Reported s = (is_empty s.seen_unknown ≡ true) ⊎ (is_blocking s.findings ≡ true)

module _ (go : Platform) (known : List String) where
  unknown_finding-blocks :
      (criterion reference : String) → (unknown_finding go criterion reference).blocking ≡ true
  unfolding unknown_finding
  unknown_finding-blocks criterion reference = refl

  blocks_with :
      (criterion reference : String) (fs : List Finding)
      → is_blocking (fs ++ unknown_finding go criterion reference ∷ []) ≡ true
  blocks_with criterion reference fs = ground (
    arith,
    any-append (λ (f : Finding). f.blocking) fs (unknown_finding go criterion reference ∷ []),
    unknown_finding-blocks criterion reference,
  )

  -- One step keeps the invariant, and if nothing blocks behind it, nothing did before and the
  -- reference is known.
  one_reference :
      (criterion reference : String) (s : Cross)
      → Reported s
      → Reported (cross_reference go known criterion reference s)
        × (Quiet (cross_reference go known criterion reference s)
            → Quiet s × (contains known reference ≡ true))
  unfolding cross_reference
  one_reference criterion reference s h = elim (Bool-cases (contains known reference)) [
    | inl found ↦ rw found (h, λ q. (q, refl))
    | inr unknown ↦ elim (Bool-cases (contains s.seen_unknown reference)) [
      | inl again ↦
          rw (unknown, again) (h, λ q. absurd (ground (arith, seen_none s.seen_unknown again)))
      | inr first ↦
          rw (unknown, first)
            (
              inr (blocks_with criterion reference s.findings),
              λ q. absurd (ground (arith, blocks_with criterion reference s.findings)),
            )
    ]
  ]
    where
      seen_none : (seen : List String) → contains seen reference ≡ true → is_empty seen ≡ false
      seen_none [] e = absurd (ground arith)
      seen_none (x ∷ xs) e = refl

  many_references :
      (criterion : String) (references : List String) (s : Cross)
      → Reported s
      → Reported (cross_references go known criterion references s)
        × (Quiet (cross_references go known criterion references s)
            → Quiet s × All (λ reference. contains known reference ≡ true) references)
  unfolding cross_references
  many_references criterion [] s h = (h, λ q. (q, tt))
  many_references criterion (reference ∷ references) s h =
      let step = one_reference criterion reference s h in
      let rest =
        many_references criterion references (cross_reference go known criterion reference s)
          step.0 in
      (
        rest.0,
        λ q.
            let (before, all) = rest.1 q in
            let (start, here) = step.1 before in (start, (here, all)),
      )

  many_criteria :
      (criteria : List AcceptanceCriterion) (s : Cross)
      → Reported s
      → Reported (cross_criteria go known criteria s)
        × (Quiet (cross_criteria go known criteria s) → Quiet s × KnownReferences known criteria)
  unfolding cross_criteria
  many_criteria [] s h = (h, λ q. (q, tt))
  many_criteria (criterion ∷ criteria) s h =
      let step = many_references criterion.id criterion.requirements s h in
      let rest =
        many_criteria criteria (cross_references go known criterion.id criterion.requirements s)
          step.0 in
      (
        rest.0,
        λ q.
            let (before, all) = rest.1 q in
            let (start, here) = step.1 before in (start, (here, all)),
      )

  unreferenced-quiet :
      (referenced : List String) (requirements : List Requirement) (findings : List Finding)
      → is_blocking (unreferenced go referenced requirements findings) ≡ is_blocking findings
  unfolding unreferenced unreferenced_finding
  unreferenced-quiet referenced [] findings = refl
  unreferenced-quiet referenced (requirement ∷ requirements) findings =
      elim (Bool-cases (contains referenced requirement.id)) [
        | inl found ↦ rw found (unreferenced-quiet referenced requirements findings)
        | inr missing ↦
            rw (missing, unreferenced-quiet referenced requirements (findings ++ _ ∷ []))
              (ground (
                arith,
                any-append (λ (f : Finding). f.blocking) findings
                    (unreferenced_finding go requirement.id ∷ []),
              ))
      ]

-- If no finding of `universeFindings` blocks, the policy defines every requirement that an
-- acceptance criterion refers to.
pub universe_findings-known :
    (go : Platform) (criteria : List AcceptanceCriterion) (requirements : List Requirement)
    → is_blocking (universe_findings go criteria requirements) ≡ false
    → KnownReferences (known_ids requirements) criteria
unfolding universe_findings
universe_findings-known go criteria requirements h =
    ((many_criteria go (known_ids requirements) criteria _ (inl refl)).1
      (sym (unreferenced-quiet go (known_ids requirements) _ requirements _) ∙ h)).1
