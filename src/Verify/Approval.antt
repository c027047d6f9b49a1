-- ===== src/Verify/Approval.antt =====
-- internal/verify/verify.go: the evidence, the CI context and the base revision behind a receipt.
use assurectl.Prelude.{
  String, true, false, ◌≡◌, refl, sym, ◌∙◌, ap, subst, inl, inr, eq_iff, Option, none, some, List,
  All, is_empty, Result-cases, Bool-cases, ok, arith,
}
use assurectl.Platform.{Platform}
use assurectl.Domain.{
  AuthorityTier, Subject, ObservedOutcome, VerificationVerdict, CompletionDecision,
}
use assurectl.CiContext.{Context, canonical_repository}
use assurectl.Contract
use assurectl.Policy
use assurectl.Evidence
use assurectl.Evaluation.Input.{Input}
use assurectl.Evaluation.Evaluate.{Evaluated}
use assurectl.Evaluation.Evaluate.Approval.{
  Shown, Accounted, evaluate-approved, evaluate-accepted_risk,
}
use assurectl.Evaluation.Requirement.Accepted.{IngestedEvidence}
use assurectl.Evaluation.Universe.{known_ids}
use assurectl.Evaluation.Universe.Known.{KnownReferences}
use assurectl.Receipt.Model.{Receipt}
use assurectl.Receipt.Build.{BuildInput, assemble}
use assurectl.Receipt.Build.Sound.{FromBase, Earned, build_sound, build-Recorded, build-Earned}
use assurectl.Receipt.Validate.{is_base_source}
use assurectl.InputMeta.{TrustStatus, AuthorityBasis}
use assurectl.Verify.{
  Options, Resolution, Worktree, authority_of, check_ci, load_contract, load_policy, run,
}
use assurectl.Verify.Sound.{Reads, build_input, run_parts}

-- What the evidence loader returned, if anything, are checked envelopes.
abbrev pub Checked : Option (List Evidence.Loaded) → Type 0
Checked none = Unit
Checked (some evidence) = All IngestedEvidence evidence

Checked-evidence :
    (loaded : Option (List Evidence.Loaded)) (evidence : List Evidence.Loaded)
    → Checked loaded
    → loaded ≡ some evidence
    → All IngestedEvidence evidence
Checked-evidence loaded evidence c e = subst Checked e c

check_ci_sound :
    (go : Platform) (context : Context) (subject : Subject)
    → check_ci go (some context) subject ≡ ok tt
    → (canonical_repository go context ≡ ok subject.repository_uri)
      × (context.sha ≡ subject.head_revision)
unfolding check_ci
check_ci_sound go context subject h = elim (Result-cases (canonical_repository go context)) [
  | inr (e, failed) ↦ absurd (ground arith)
  | inl (canonical, found) ↦ (
    found ∙ ap (λ t. ok t) (ground (arith, eq_iff canonical subject.repository_uri)),
    ground (arith, eq_iff context.sha subject.head_revision),
  )
]

trusted_of :
    (options : Options)
    → authority_of options ≡ AuthorityTier.authoritative
    → options.trusted_base ≡ true
unfolding authority_of
trusted_of options h = elim (Bool-cases options.trusted_base) [
  | inl trusted ↦ trusted
  | inr untrusted ↦ absurd (ground arith)
]

contract_of_base :
    (tree : Worktree) (options : Options) (subject : Subject) (contract : Contract.Loaded)
    → options.trusted_base ≡ true
    → load_contract tree options subject ≡ ok contract
    → tree.contract_base subject.base_revision ≡ some contract
unfolding load_contract
contract_of_base tree options subject contract trusted h = ground arith

policy_of_base :
    (tree : Worktree) (options : Options) (subject : Subject) (policy : Policy.Loaded)
    → options.trusted_base ≡ true
    → load_policy tree options subject ≡ ok policy
    → tree.policy_base subject.base_revision ≡ some policy
unfolding load_policy
policy_of_base tree options subject policy trusted h = ground arith

Earned-FromBase :
    (input : BuildInput)
    → Earned input
    → input.authority ≡ AuthorityTier.authoritative
    → FromBase input
Earned-FromBase input earned tier = elim earned [
  | inl (advisory, none_given) ↦ absurd (ground arith)
  | inr lower ↦ elim lower [
    | inl (asserted, some_given) ↦ absurd (ground arith)
    | inr (highest, base) ↦ base
  ]
]

-- The receipt's subject is the resolved one, and it records a contract and a policy that come from
-- the base revision of its subject.
pub record Rooted (tree : Worktree) (options : Options) (receipt : Receipt) : Type 0 where
  pub resolution : Resolution
  pub resolved :
      tree.resolve options.repository_uri options.base_ref options.head_ref ≡ some resolution
  pub subject_recorded : receipt.subject ≡ resolution.subject
  pub contract : Contract.Loaded
  pub policy : Policy.Loaded
  pub contract_read : tree.contract_base receipt.subject.base_revision ≡ some contract
  pub policy_read : tree.policy_base receipt.subject.base_revision ≡ some policy
  pub contract_recorded :
      (receipt.contract.source ≡ contract.source)
      × (receipt.contract.digest ≡ contract.digest)
      × (receipt.contract.trust_status ≡ contract.trust_status)
  pub policy_recorded :
      (receipt.policy.effective_digest ≡ policy.digest)
      × (receipt.policy.trust_status ≡ policy.trust_status)
  pub contract_trusted : contract.trust_status ≡ TrustStatus.trusted
  pub contract_source : is_base_source contract.source ≡ true
  pub policy_trusted : policy.trust_status ≡ TrustStatus.trusted
  pub policy_basis : policy.authority_basis ≡ AuthorityBasis.trusted_base
  pub policy_source : is_base_source policy.source ≡ true

module _ (go : Platform) (version : String) (tree : Worktree) (options : Options)
    (receipt : Receipt) where
  -- A receipt carries the pair of the evaluation, the tier of the options and the resolved subject.
  carried :
      (resolution : Resolution) (input : Input) (result : Evaluated)
      → receipt ≡ assemble go version (build_input options resolution input result)
      → (result.verdict ≡ record {
        verdict = receipt.verification_verdict;
        decision = receipt.completion_decision;
      })
        × (receipt.authority ≡ authority_of options)
        × (receipt.subject ≡ resolution.subject)
  unfolding assemble
  carried resolution input result same = (
    ap (λ r. record { verdict = r.verification_verdict; decision = r.completion_decision })
        (sym same),
    ap (λ r. r.authority) same,
    ap (λ r. r.subject) same,
  )

  -- If a receipt says PASSED and APPROVED, and the evidence loader returns checked envelopes only,
  -- then the policy of the work tree has a requirement, every requirement of it has an envelope of
  -- the work tree that counts for it with the outcome PASSED, and it defines every requirement
  -- that the contract of the work tree refers to.
  pub run-approved :
      ((subject : Subject) → Checked (tree.evidence_local subject))
      → run go version tree options ≡ ok receipt
      → receipt.verification_verdict ≡ VerificationVerdict.passed
      → receipt.completion_decision ≡ CompletionDecision.approved
      → (resolution : Resolution) × (input : Input) × Reads tree options resolution input
        × (is_empty input.policy.policy.requirements ≡ false)
        × All (Shown input ObservedOutcome.passed) input.policy.policy.requirements
        × KnownReferences
            (known_ids input.policy.policy.requirements)
            input.contract.contract.acceptance_criteria
  run-approved loads h passed approved =
      let (resolution, input, result, reads, ci, done, built) =
        run_parts go version tree options receipt h in
      let (same, valid) =
        build_sound go version (build_input options resolution input result) receipt built in
      let verdict = (carried resolution input result same).0 in
      let facts =
        evaluate-approved go input
          (Checked-evidence _ input.evidence (loads resolution.subject) reads.evidence_read) result
          done (verdict ∙ rw (passed, approved) refl) in
      (resolution, input, reads, facts.0, facts.1, facts.2)

  -- If a receipt says FAILED and ACCEPTED_WITH_RISK, and the evidence loader returns checked
  -- envelopes only, then every requirement of the work tree's policy has an envelope that counts
  -- for it with the outcome PASSED, or is waivable, has one with the outcome FAILED, and a waiver
  -- record of the work tree names it, is in scope and is in force.
  pub run_accepted_risk :
      ((subject : Subject) → Checked (tree.evidence_local subject))
      → run go version tree options ≡ ok receipt
      → receipt.verification_verdict ≡ VerificationVerdict.failed
      → receipt.completion_decision ≡ CompletionDecision.accepted_with_risk
      → (resolution : Resolution) × (input : Input) × Reads tree options resolution input
        × All (Accounted go input) input.policy.policy.requirements
  run_accepted_risk loads h failed accepted =
      let (resolution, input, result, reads, ci, done, built) =
        run_parts go version tree options receipt h in
      let (same, valid) =
        build_sound go version (build_input options resolution input result) receipt built in
      let verdict = (carried resolution input result same).0 in
      let facts =
        evaluate-accepted_risk go input
          (Checked-evidence _ input.evidence (loads resolution.subject) reads.evidence_read) result
          done (verdict ∙ rw (failed, accepted) refl) in
      (resolution, input, reads, facts.0)

  -- With a CI context there is a receipt only if the context's repository is, canonically, the
  -- receipt's repository, and its commit the receipt's head revision.
  pub run_agrees_with_ci :
      (context : Context)
      → options.ci ≡ some context
      → run go version tree options ≡ ok receipt
      → (canonical_repository go context ≡ ok receipt.subject.repository_uri)
        × (context.sha ≡ receipt.subject.head_revision)
  run_agrees_with_ci context given h =
      let (resolution, input, result, reads, ci, done, built) =
        run_parts go version tree options receipt h in
      let (same, valid) =
        build_sound go version (build_input options resolution input result) receipt built in
      let subject = (carried resolution input result same).2 in
      rw subject (
        check_ci_sound go context resolution.subject
          (ap (λ c. check_ci go c resolution.subject) (sym given) ∙ ci))

  -- A receipt is AUTHORITATIVE only in the trusted-base mode, and then its subject is the resolved
  -- one, and it records a contract and a policy that the loaders returned at the base revision of
  -- this subject; both are trusted, and their sources are of the form of a base revision.
  pub run_authoritative :
      run go version tree options ≡ ok receipt
      → receipt.authority ≡ AuthorityTier.authoritative
      → (options.trusted_base ≡ true) × Rooted tree options receipt
  run_authoritative h tier =
      let (resolution, input, result, reads, ci, done, built) =
        run_parts go version tree options receipt h in
      let given = build_input options resolution input result in
      let recorded = build-Recorded go version given receipt built in
      let (earned, kept) = build-Earned go version given receipt built in
      let trusted = trusted_of options (sym kept ∙ tier) in
      let base = Earned-FromBase given earned (sym kept ∙ tier) in
      let revision : resolution.subject.base_revision ≡ receipt.subject.base_revision =
        ap (λ s. s.base_revision) (sym recorded.subject_recorded) in
      (
        trusted,
        record {
          resolution = resolution;
          resolved = reads.resolved;
          subject_recorded = recorded.subject_recorded;
          contract = input.contract;
          policy = input.policy;
          contract_read =
              subst (λ r. tree.contract_base r ≡ some input.contract) revision
                (contract_of_base tree options resolution.subject input.contract trusted
                  reads.contract_read);
          policy_read =
              subst (λ r. tree.policy_base r ≡ some input.policy) revision
                (policy_of_base tree options resolution.subject input.policy trusted
                  reads.policy_read);
          contract_recorded = recorded.contract_recorded;
          policy_recorded = recorded.policy_recorded;
          contract_trusted = base.0;
          contract_source = base.1;
          policy_trusted = base.2;
          policy_basis = base.3;
          policy_source = base.4;
        },
      )
