-- ===== src/Receipt/Build/Sound.antt =====
-- internal/receipt/build.go: what a receipt that was built has.
use mathlib.Core.List.{Perm}
use assurectl.Prelude.{
  String, true, ◌≡◌, refl, sym, subst, ◌⊎◌, none, some, [], ◌∷◌, map, Distinct, ok, arith,
}
use assurectl.Platform.{Platform}
use assurectl.Domain.{AuthorityTier}
use assurectl.InputMeta.{TrustStatus, AuthorityBasis}
use assurectl.CiContext.{Context}
use assurectl.Decision
use assurectl.Evaluation.Sorting.{text_less}
use assurectl.Evaluation.Sorting.Order.{text_less-asym, text_le_trans}
use assurectl.Evaluation.Sorting.Stable.{Ordered, sort_stable-perm, Ordered-sort_stable}
use assurectl.Receipt.Model.{Receipt, PolicySource}
use assurectl.Receipt.Validate.{is_base_source, validate_receipt}
use assurectl.Receipt.Validate.Checks.{reference_ids}
use assurectl.Receipt.Validate.Sound.{ValidReceipt, validate_receipt_sound}
use assurectl.Receipt.Build.{
  BuildInput, check_tier, validate_build_input, reference_of, id_less, evidence_references,
  assemble, build,
}

-- The contract and the policy are trusted, and were read from a base revision.
abbrev pub FromBase : BuildInput → Type 0
FromBase input =
    (input.contract.trust_status ≡ TrustStatus.trusted)
    × (is_base_source input.contract.source ≡ true)
    × (input.policy.trust_status ≡ TrustStatus.trusted)
    × (input.policy.authority_basis ≡ AuthorityBasis.trusted_base)
    × (is_base_source input.policy.source ≡ true)

-- What each authority tier asks for.
abbrev pub Earned : BuildInput → Type 0
Earned input =
    ((input.authority ≡ AuthorityTier.advisory) × (input.ci ≡ none))
    ⊎ ((input.authority ≡ AuthorityTier.ci_asserted)
        × ((context : Context) × (input.ci ≡ some context)))
    ⊎ ((input.authority ≡ AuthorityTier.authoritative) × FromBase input)

module _ (go : Platform) (version : String) (input : BuildInput) (receipt : Receipt) where
  build_parts :
      build go version input ≡ ok receipt
      → (validate_build_input input ≡ ok tt)
        × (validate_receipt go (assemble go version input) ≡ ok tt)
        × (receipt ≡ assemble go version input)
  unfolding build
  build_parts h = ground arith

  -- A receipt that `Build` returns is the assembled one, and has passed every check of a receipt.
  pub build_sound :
      build go version input ≡ ok receipt
      → (receipt ≡ assemble go version input) × ValidReceipt go receipt
  build_sound h =
      let (_, valid, same) = build_parts h in
      (
        same,
        subst (ValidReceipt go) (sym same)
            (validate_receipt_sound go (assemble go version input) valid),
      )

-- What a receipt records of what it was built from, and what that has to be like.
pub record Recorded (input : BuildInput) (receipt : Receipt) : Type 0 where
  pub subject_recorded : receipt.subject ≡ input.subject
  pub work_unit_recorded : receipt.work_unit ≡ input.contract.contract.work_unit
  pub contract_recorded :
      (receipt.contract.source ≡ input.contract.source)
      × (receipt.contract.digest ≡ input.contract.digest)
      × (receipt.contract.trust_status ≡ input.contract.trust_status)
  pub policy_recorded :
      (receipt.policy.effective_digest ≡ input.policy.digest)
      × (receipt.policy.trust_status ≡ input.policy.trust_status)
  -- the layer of the project behind the layer of the protocol
  pub layer_recorded :
      (baseline : PolicySource) × (project : PolicySource) × (receipt.policy.sources
        ≡ baseline ∷ project ∷ [])
      × (project.source ≡ input.policy.source)
      × (project.digest ≡ input.policy.digest)
      × (project.authority_basis ≡ input.policy.authority_basis)
  -- each envelope once, with its digest, in the order of the identifiers
  pub evidence_recorded :
      Perm receipt.evidence
        (map (λ e. record { id = e.envelope.id; digest = e.digest }) input.evidence)
  pub evidence_ordered : Ordered (λ a b. text_less a.id b.id) receipt.evidence
  pub evidence_distinct : Distinct (reference_ids receipt.evidence)
  pub results_recorded : receipt.requirement_results ≡ input.evaluation.requirements
  pub findings_recorded : receipt.findings ≡ input.evaluation.findings
  pub verdict_recorded :
      (receipt.verification_verdict ≡ input.evaluation.verdict.verdict)
      × (receipt.completion_decision ≡ input.evaluation.verdict.decision)
  -- the kernel derives the evaluation's verdict from the evaluation's results and findings
  pub verdict_derived :
      Decision.evaluate input.evaluation.requirements input.evaluation.findings
      ≡ (input.evaluation.verdict, none)

assemble-Recorded :
    (go : Platform) (version : String) (input : BuildInput)
    → ValidReceipt go (assemble go version input)
    → Recorded input (assemble go version input)
unfolding assemble evidence_references
assemble-Recorded go version input valid = record {
  subject_recorded = refl;
  work_unit_recorded = refl;
  contract_recorded = (refl, refl, refl);
  policy_recorded = (refl, refl);
  layer_recorded = (_, _, refl, refl, refl, refl);
  evidence_recorded = sort_stable-perm id_less (map reference_of input.evidence);
  evidence_ordered =
      Ordered-sort_stable id_less (λ a b. text_less-asym a.id b.id)
        (λ a b c. text_le_trans a.id b.id c.id) (map reference_of input.evidence);
  evidence_distinct = valid.evidence_distinct;
  results_recorded = refl;
  findings_recorded = refl;
  verdict_recorded = (refl, refl);
  verdict_derived = valid.decision_derived;
}

-- A receipt that `Build` returns records the subject, the work unit, the contract, the policy and
-- its project layer, the results, the findings and the verdict that it was given, and the
-- identifier and digest of each envelope in the order of the identifiers. `Build` returns one only if no two envelopes share an identifier, and if the kernel
-- derives the given verdict from the given results and findings.
pub build-Recorded :
    (go : Platform) (version : String) (input : BuildInput) (receipt : Receipt)
    → build go version input ≡ ok receipt
    → Recorded input receipt
build-Recorded go version input receipt h =
    let (_, valid, same) = build_parts go version input receipt h in
    subst (Recorded input) (sym same) (
      assemble-Recorded go version input
        (validate_receipt_sound go (assemble go version input) valid))

tier_sound : (input : BuildInput) → check_tier input ≡ ok tt → Earned input
unfolding check_tier
tier_sound input h = ground arith

-- `Build` returns an advisory receipt only without a CI context, a CI_ASSERTED one only with a CI
-- context, an authoritative one only if contract and policy are trusted and come from a base
-- revision, and no receipt of another tier.
pub build-Earned :
    (go : Platform) (version : String) (input : BuildInput) (receipt : Receipt)
    → build go version input ≡ ok receipt
    → Earned input × (receipt.authority ≡ input.authority)
unfolding validate_build_input assemble
build-Earned go version input receipt h =
    let (accepted, _, same) = build_parts go version input receipt h in
    (tier_sound input (ground arith), ground arith)
