-- ===== src/AppServer/Pipeline.antt =====
-- internal/appserver/pipeline.go: the evaluation of a pull request. The ports, the resolution of
-- the subject and what reads a blob or an evidence directory are parameters.
pub mod Sound
use assurectl.Prelude.{
  ℕ, zero, suc, String, Bool, ◌&&◌, not, Option, none, some, List, [], ◌∷◌, length, ◌==◌, ◌<>◌, eqb,
  ltb, if◌then◌else◌, Result, ok, err, guard, ◌>>=◌, ◌>>◌,
}
use Prim.Native.Nat.{◌/◌, ◌%◌}
use assurectl.Platform.{Platform}
use assurectl.Domain.{AuthorityTier, VerificationVerdict, CompletionDecision, Subject}
use assurectl.InputMeta.{Digest}
use assurectl.Contract.Load as ContractLoad
use assurectl.Policy.Load as PolicyLoad
use assurectl.Evidence.Load as EvidenceLoad
use assurectl.Evaluation.Evaluate
use assurectl.Evaluation.Evaluate.{EvaluationError}
use assurectl.Receipt.Model.{Receipt}
use assurectl.Receipt.Build.{BuildError, build}
use assurectl.Verify.{Resolution}
use assurectl.Verify.Files.{Codecs}
use assurectl.AppServer.{PullRequestEvent, ExpectedClaims, ValidatedClaims, CheckPayload}

-- The ports `Dependencies`, of which the first three may be missing, the clock, and what is called
-- on a work tree and on a bundle: `gitsubject.Resolve`, `gitsubject.ReadBlob`, and the discovery.
pub record Dependencies : Type 0 where
  pub worktree_source : Option (ℕ → String → String → Option String)
  pub evidence_source : Option (ℕ → String → ℕ → String → Option (String × String))
  pub check_poster : Option (ℕ → String → ℕ → String → CheckPayload → Bool)
  pub validate_token : String → ExpectedClaims → Option ValidatedClaims
  pub now : ℕ
  pub resolve : String → String → String → Option Resolution
  pub blob : String → String → String → Option String
  pub evidence_root : String → EvidenceLoad.EvidenceRoot

pub data AppError : Type 0 where
  ports_not_wired no_worktree subject_unresolved no_evidence check_not_posted : AppError
  evidence_invalid : EvidenceLoad.LoadError → AppError
  contract_invalid : ContractLoad.LoadError → AppError
  policy_invalid : PolicyLoad.LoadError → AppError
  evaluation_failed : EvaluationError → AppError
  build_failed : BuildError → AppError

abbrev pub found {ℓ} : {A : Type ℓ} → AppError → Option A → Result AppError A
found e none = err e
found e (some a) = ok a

abbrev pub lifted {ℓ κ} :
    {E : Type κ} {A : Type ℓ} → (E → AppError) → Result E A → Result AppError A
lifted f (ok a) = ok a
lifted f (err e) = err (f e)

abbrev decimal_digit : ℕ → String
decimal_digit d =
    if eqb d 0
    then "0"
    else if eqb d 1
    then "1"
    else if eqb d 2
    then "2"
    else if eqb d 3
    then "3"
    else if eqb d 4
    then "4"
    else if eqb d 5
    then "5"
    else if eqb d 6
    then "6"
    else if eqb d 7
    then "7"
    else if eqb d 8
    then "8"
    else "9"

-- the verb %d, with fuel for the digits
unfoldable pub digits_text : ℕ → ℕ → String → String
digits_text zero n behind = behind
digits_text (suc fuel) n behind =
    let last = decimal_digit (n % 10) <> behind in
    let rest = digits_text fuel (n / 10) last in if ltb n 10 then last else rest

abbrev decimal_text : ℕ → String
decimal_text n = digits_text (suc n) n ""

abbrev verdict_text : VerificationVerdict → String
verdict_text VerificationVerdict.passed = "PASSED"
verdict_text VerificationVerdict.failed = "FAILED"
verdict_text VerificationVerdict.indeterminate = "INDETERMINATE"

abbrev decision_text : CompletionDecision → String
decision_text CompletionDecision.approved = "APPROVED"
decision_text CompletionDecision.rejected = "REJECTED"
decision_text CompletionDecision.blocked = "BLOCKED"
decision_text CompletionDecision.accepted_with_risk = "ACCEPTED_WITH_RISK"

abbrev pub tier_text : AuthorityTier → String
tier_text AuthorityTier.advisory = "ADVISORY"
tier_text AuthorityTier.ci_asserted = "CI_ASSERTED"
tier_text AuthorityTier.authoritative = "AUTHORITATIVE"
tier_text (AuthorityTier.other tier) = tier

unfoldable pub conclusion_of : CompletionDecision → String
conclusion_of CompletionDecision.approved = "success"
conclusion_of CompletionDecision.accepted_with_risk = "success"
conclusion_of CompletionDecision.rejected = "failure"
conclusion_of CompletionDecision.blocked = "neutral"

abbrev digest_value : Option Digest → String
digest_value none = ""
digest_value (some digest) = digest.value

-- `digest` is the method `Digest` of a receipt.
unfoldable pub build_check_payload : (Receipt → Option Digest) → Receipt → CheckPayload
build_check_payload digest built = record {
  name = "assurectl";
  conclusion = conclusion_of built.completion_decision;
  title =
      "AssureCTL "
      <> verdict_text built.verification_verdict
      <> " ("
      <> tier_text built.authority
      <> ")";
  summary =
      decimal_text (length built.requirement_results)
      <> " requirement(s) evaluated; "
      <> decimal_text (length built.findings)
      <> " finding(s); verdict "
      <> verdict_text built.verification_verdict
      <> ", decision "
      <> decision_text built.completion_decision
      <> ".";
  receipt_reference = record {
    change_set_digest = built.subject.change_set_hash;
    receipt_sha256 = digest_value (digest built);
    authority = tier_text built.authority;
  };
}

-- A token earns authority only if it binds the repository and the head revision.
unfoldable pub earned_authority : Dependencies → PullRequestEvent → Subject → String → AuthorityTier
earned_authority deps event subject token =
    if token == ""
    then AuthorityTier.advisory
    else elim (deps.validate_token token
        (record { repository = subject.repository_uri; sha = event.head_sha })) [
          | none ↦ AuthorityTier.advisory
          | some claims ↦
              if claims.sha == event.head_sha && claims.repository == subject.repository_uri
              then AuthorityTier.authoritative
              else AuthorityTier.advisory
        ]

module _ (go : Platform) (version : String) (codecs : Codecs) (deps : Dependencies)
    (digest : Receipt → Option Digest) where
  -- from the work tree and the bundle to the receipt
  unfoldable pub build_receipt :
      PullRequestEvent → String → Resolution → String × String → Result AppError Receipt
  build_receipt event worktree resolution bundle = do
    evidence ← lifted evidence_invalid (
        EvidenceLoad.load_local go codecs.evidence (deps.evidence_root bundle.0) resolution.subject)
    contract ← lifted contract_invalid (
        ContractLoad.load_base go codecs.contract (deps.blob worktree)
          resolution.subject.base_revision)
    policy ← lifted policy_invalid (
        PolicyLoad.load_base go codecs.policy (deps.blob worktree) resolution.subject.base_revision)
    result ← lifted evaluation_failed (
        Evaluate.evaluate go (record {
          contract = contract;
          policy = policy;
          evidence = evidence;
          subject = resolution.subject;
          waivers = [];
          evaluated_at = deps.now;
        }))
    lifted build_failed (
        build go version (record {
          authority = earned_authority deps event resolution.subject bundle.1;
          subject = resolution.subject;
          contract = contract;
          policy = policy;
          evidence = evidence;
          evaluation = result;
          ci = none;
          evaluated_at = deps.now;
        }))

  unfoldable pub evaluate_pull_request : PullRequestEvent → Result AppError CheckPayload
  evaluate_pull_request event = do
    worktrees ← found ports_not_wired deps.worktree_source
    bundles ← found ports_not_wired deps.evidence_source
    post ← found ports_not_wired deps.check_poster
    worktree ← found no_worktree (worktrees event.installation_id event.repository event.head_sha)
    resolution ← found subject_unresolved (deps.resolve worktree event.base_sha event.head_sha)
    bundle ←
        found no_evidence
          (bundles event.installation_id event.repository event.pr_number event.head_sha)
    built ← build_receipt event worktree resolution bundle
    guard
        (post event.installation_id event.repository event.pr_number event.head_sha
          (build_check_payload digest built))
        check_not_posted
    ok (build_check_payload digest built)
