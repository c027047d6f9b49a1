-- ===== src/Verify/Sound.antt =====
-- internal/verify/verify.go: what a receipt of the pipeline rests on.
use assurectl.Prelude.{
  String, true, false, ◌≡◌, refl, ◌∙◌, ap, inl, inr, ◌==◌, none, some, List, ◌++◌, All,
  Option-cases, Result-cases, Bool-cases, ok, arith,
}
use assurectl.Platform.{Platform}
use assurectl.Domain.{
  VerificationVerdict, CompletionDecision, category_valid, severity_valid, verdict_eq, decision_eq,
}
use assurectl.Contract
use assurectl.Policy
use assurectl.Evidence
use assurectl.Waiver
use assurectl.Decision
use assurectl.Decision.Valid.{ValidFinding}
use assurectl.Decision.Order.{evaluate-append_quiet}
use assurectl.Evaluation.Input.{Input}
use assurectl.Evaluation.Evaluate
use assurectl.Evaluation.Evaluate.{Evaluated}
use assurectl.Evaluation.Evaluate.Checked.{evaluate-reached_kernel}
use assurectl.Receipt.Model.{Receipt}
use assurectl.Receipt.Validate.{validate_decision_derivation}
use assurectl.Receipt.Build.{BuildInput, assemble, build}
use assurectl.Verify.{
  Options, Resolution, Worktree, authority_of, check_ci, load_contract, load_policy, load_waivers,
  dirty_worktree_finding, local_only_finding, diagnostics, conclude, run,
}

-- The evaluation's input holds what the work tree gives for the options.
pub record Reads (tree : Worktree) (options : Options) (resolution : Resolution) (input : Input)
    : Type 0 where
  pub resolved :
      tree.resolve options.repository_uri options.base_ref options.head_ref ≡ some resolution
  pub contract_read : load_contract tree options resolution.subject ≡ ok input.contract
  pub policy_read : load_policy tree options resolution.subject ≡ ok input.policy
  pub evidence_read : tree.evidence_local resolution.subject ≡ some input.evidence
  pub waivers_read : load_waivers tree options ≡ ok input.waivers
  pub subject_taken : input.subject ≡ resolution.subject
  pub instant_taken : input.evaluated_at ≡ options.evaluated_at

-- What the pipeline hands to the builder.
abbrev pub build_input : Options → Resolution → Input → Evaluated → BuildInput
build_input options resolution input result = record {
  authority = authority_of options;
  subject = resolution.subject;
  contract = input.contract;
  policy = input.policy;
  evidence = input.evidence;
  evaluation = record result { findings = result.findings ++ diagnostics resolution };
  ci = options.ci;
  evaluated_at = options.evaluated_at;
}

diagnostics-valid :
    (resolution : Resolution)
    → All ValidFinding (diagnostics resolution)
      × All (λ f. f.blocking ≡ false) (diagnostics resolution)
unfolding diagnostics dirty_worktree_finding local_only_finding category_valid severity_valid
diagnostics-valid resolution = elim (Bool-cases resolution.dirty) [
  | inl dirty ↦ elim (Bool-cases resolution.local_only) [
    | inl only ↦
        rw (dirty, only) ((warning _ _ refl refl, (warning _ _ refl refl, tt)), (refl, (refl, tt)))
    | inr remote ↦ rw (dirty, remote) ((warning _ _ refl refl, tt), (refl, tt))
  ]
  | inr clean ↦ elim (Bool-cases resolution.local_only) [
    | inl only ↦ rw (clean, only) ((warning _ _ refl refl, tt), (refl, tt))
    | inr remote ↦ rw (clean, remote) (tt, tt)
  ]
]
  where
    warning :
        (code message : String)
        → (code == "") ≡ false
        → (message == "") ≡ false
        → ValidFinding (record dirty_worktree_finding { code = code; message = message })
    warning code message given said = record {
      code_given = given;
      category_supported = refl;
      severity_supported = refl;
      requirement_canonical = inl refl;
      ids_canonical = tt;
      ids_distinct = tt;
      message_given = said;
    }

verdict_refl : (v : VerificationVerdict) → verdict_eq v v ≡ true
verdict_refl VerificationVerdict.passed = refl
verdict_refl VerificationVerdict.failed = refl
verdict_refl VerificationVerdict.indeterminate = refl

decision_refl : (d : CompletionDecision) → decision_eq d d ≡ true
decision_refl CompletionDecision.approved = refl
decision_refl CompletionDecision.rejected = refl
decision_refl CompletionDecision.blocked = refl
decision_refl CompletionDecision.accepted_with_risk = refl

-- The diagnostic findings change nothing in the pair that the builder derives again: on what the
-- evaluation returns, its check of the derivation succeeds.
pub diagnostics_rederive :
    (go : Platform) (version : String) (options : Options) (resolution : Resolution) (input : Input)
    (result : Evaluated)
    → Evaluate.evaluate go input ≡ ok result
    → validate_decision_derivation
        (assemble go version (build_input options resolution input result))
      ≡ ok tt
unfolding assemble validate_decision_derivation
diagnostics_rederive go version options resolution input result h =
    let (_, kernel, requirements, _, findings) = evaluate-reached_kernel go input result h in
    let first : Decision.evaluate result.requirements result.findings ≡ (result.verdict, none) =
      rw (requirements, findings) kernel in
    let (valid, quiet) = diagnostics-valid resolution in
    let again : Decision.evaluate result.requirements (result.findings ++ diagnostics resolution)
        ≡ (result.verdict, none) =
      evaluate-append_quiet result.requirements result.findings (diagnostics resolution)
        (ap (λ r. r.1) first) valid quiet
      ∙ first in
    rw again
      (ground (arith, verdict_refl result.verdict.verdict, decision_refl result.verdict.decision))

-- the derivation of a receipt of the pipeline
abbrev pub Derived : Platform → String → Worktree → Options → Receipt → Type 0
Derived go version tree options receipt =
    (resolution : Resolution) × (input : Input) × (result : Evaluated) × Reads tree options
      resolution input
    × (check_ci go options.ci resolution.subject ≡ ok tt)
    × (Evaluate.evaluate go input ≡ ok result)
    × (build go version (build_input options resolution input result) ≡ ok receipt)

module _ (go : Platform) (version : String) (tree : Worktree) (options : Options)
    (receipt : Receipt) where
  abbrev input_of :
      Resolution
      → Contract.Loaded
      → Policy.Loaded
      → List Evidence.Loaded
      → List Waiver.Record
      → Input
  input_of resolution contract policy evidence waivers = record {
    contract = contract;
    policy = policy;
    evidence = evidence;
    subject = resolution.subject;
    waivers = waivers;
    evaluated_at = options.evaluated_at;
  }

  conclude_parts :
      (resolution : Resolution) (contract : Contract.Loaded) (policy : Policy.Loaded)
      (evidence : List Evidence.Loaded) (waivers : List Waiver.Record)
      → conclude go version tree options resolution contract policy evidence waivers ≡ ok receipt
      → (result : Evaluated) × (Evaluate.evaluate go
            (input_of resolution contract policy evidence waivers)
          ≡ ok result)
        × (build go version (
              build_input options resolution
                (input_of resolution contract policy evidence waivers)
                result)
            ≡ ok receipt)
  unfolding conclude
  conclude_parts resolution contract policy evidence waivers h =
      elim (Result-cases
        (Evaluate.evaluate go (input_of resolution contract policy evidence waivers))) [
          | inr (e, failed) ↦ absurd (ground arith)
          | inl (result, done) ↦ (result, done, ground arith)
        ]

  pub run_parts : run go version tree options ≡ ok receipt → Derived go version tree options receipt
  unfolding run
  run_parts h =
      elim (Option-cases (tree.resolve options.repository_uri options.base_ref options.head_ref)) [
        | inl failed ↦ absurd (ground arith)
        | inr (resolution, resolved) ↦
            elim (Result-cases (load_contract tree options resolution.subject)) [
              | inr (e, failed) ↦ absurd (ground arith)
              | inl (contract, contract_read) ↦
                  elim (Result-cases (load_policy tree options resolution.subject)) [
                    | inr (e, failed) ↦ absurd (ground arith)
                    | inl (policy, policy_read) ↦
                        elim (Option-cases (tree.evidence_local resolution.subject)) [
                          | inl failed ↦ absurd (ground arith)
                          | inr (evidence, evidence_read) ↦
                              elim (Result-cases (load_waivers tree options)) [
                                | inr (e, failed) ↦ absurd (ground arith)
                                | inl (waivers, waivers_read) ↦
                                    let (result, done, built) =
                                      conclude_parts resolution contract policy evidence waivers
                                        (ground arith) in
                                    (
                                      resolution,
                                      input_of resolution contract policy evidence waivers,
                                      result,
                                      record {
                                        resolved = resolved;
                                        contract_read = contract_read;
                                        policy_read = policy_read;
                                        evidence_read = evidence_read;
                                        waivers_read = waivers_read;
                                        subject_taken = refl;
                                        instant_taken = refl;
                                      },
                                      ground arith,
                                      done,
                                      built,
                                    )
                              ]
                        ]
                  ]
            ]
      ]
