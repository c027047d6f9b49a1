-- ===== src/Verify.antt =====
-- internal/verify/verify.go: the pipeline from a work tree to a receipt. What reads the work tree
-- is a parameter: the resolution of the subject and the loaders.
pub mod Sound
pub mod Approval
pub mod Files
use assurectl.Prelude.{
  ℕ, String, Bool, true, false, not, Option, none, some, List, [], ◌∷◌, ◌++◌, is_empty, is_blank,
  if◌then◌else◌, ◌==◌, Result, ok, err, guard, ◌>>=◌, ◌>>◌,
}
use assurectl.Platform.{Platform, is_zero}
use assurectl.Domain.{AuthorityTier, Subject, Finding, FindingCategory, FindingSeverity}
use assurectl.CiContext.{Context, canonical_repository}
use assurectl.GitSubject.Identity.{IdentityError}
use assurectl.Contract
use assurectl.Policy
use assurectl.Evidence
use assurectl.Waiver
use assurectl.Evaluation.Input.{Input}
use assurectl.Evaluation.Evaluate
use assurectl.Evaluation.Evaluate.{Evaluated, EvaluationError}
use assurectl.Receipt.Model.{Receipt}
use assurectl.Receipt.Build.{BuildInput, BuildError, build}

pub record Options : Type 0 where
  pub repository_uri : String
  pub base_ref : String
  pub head_ref : String
  pub waivers_path : String
  pub trusted_base : Bool
  pub ci : Option Context
  pub evaluated_at : ℕ

pub record Resolution : Type 0 where
  pub subject : Subject
  pub dirty : Bool
  pub local_only : Bool

-- What the pipeline calls on the work tree: `gitsubject.Resolve`, and the functions `LoadLocal` and
-- `LoadBase` of the loaders, the latter at a base revision. None stands for an error.
pub record Worktree : Type 0 where
  pub resolve : String → String → String → Option Resolution
  pub contract_local : Option Contract.Loaded
  pub contract_base : String → Option Contract.Loaded
  pub policy_local : Option Policy.Loaded
  pub policy_base : String → Option Policy.Loaded
  pub evidence_local : Subject → Option (List Evidence.Loaded)
  pub waivers_local : String → Option Waiver.Loaded

pub data VerifyError : Type 0 where
  base_ref_required evaluated_at_missing subject_unresolved ci_repository_differs ci_sha_differs
        contract_unreadable policy_unreadable policy_empty evidence_unreadable waivers_unreadable :
      VerifyError
  ci_repository_malformed : IdentityError → VerifyError
  evaluation_failed : EvaluationError → VerifyError
  build_failed : BuildError → VerifyError

-- the switch that chooses the authority
unfoldable pub authority_of : Options → AuthorityTier
authority_of options =
    if options.trusted_base then AuthorityTier.authoritative else elim options.ci [
      | none ↦ AuthorityTier.advisory
      | some context ↦ AuthorityTier.ci_asserted
    ]

abbrev pub found {ℓ} : {A : Type ℓ} → VerifyError → Option A → Result VerifyError A
found e none = err e
found e (some a) = ok a

abbrev identified : Result IdentityError String → Result VerifyError String
identified (ok text) = ok text
identified (err e) = err (ci_repository_malformed e)

-- The CI context has to agree with the resolved subject.
unfoldable pub check_ci : Platform → Option Context → Subject → Result VerifyError (Unit {0})
check_ci go none subject = ok tt
check_ci go (some context) subject = do
  canonical ← identified (canonical_repository go context)
  guard (canonical == subject.repository_uri) ci_repository_differs
  guard (context.sha == subject.head_revision) ci_sha_differs

unfoldable pub load_contract : Worktree → Options → Subject → Result VerifyError Contract.Loaded
load_contract tree options subject =
    found contract_unreadable (
      if options.trusted_base
      then tree.contract_base subject.base_revision
      else tree.contract_local)

unfoldable pub load_policy : Worktree → Options → Subject → Result VerifyError Policy.Loaded
load_policy tree options subject =
    found policy_unreadable
      (if options.trusted_base then tree.policy_base subject.base_revision else tree.policy_local)

abbrev records_of : Option Waiver.Loaded → Result VerifyError (List Waiver.Record)
records_of none = err waivers_unreadable
records_of (some loaded) = ok loaded.records

unfoldable pub load_waivers : Worktree → Options → Result VerifyError (List Waiver.Record)
load_waivers tree options =
    if options.waivers_path == ""
    then ok []
    else records_of (tree.waivers_local options.waivers_path)

unfoldable pub dirty_worktree_finding : Finding
dirty_worktree_finding = record {
  code = "SUBJECT_DIRTY_WORKTREE";
  category = FindingCategory.subject;
  severity = FindingSeverity.warning;
  requirement_id = "";
  evidence_ids = [];
  message = "the worktree has uncommitted changes relative to the resolved subject";
  blocking = false;
}

unfoldable pub local_only_finding : Finding
local_only_finding = record {
  code = "SUBJECT_LOCAL_ONLY";
  category = FindingCategory.subject;
  severity = FindingSeverity.warning;
  requirement_id = "";
  evidence_ids = [];
  message = "the repository identity is local-only; no remote origin is configured";
  blocking = false;
}

unfoldable pub diagnostics : Resolution → List Finding
diagnostics resolution =
    (if resolution.dirty then dirty_worktree_finding ∷ [] else [])
    ++ (if resolution.local_only then local_only_finding ∷ [] else [])

abbrev evaluated : Result EvaluationError Evaluated → Result VerifyError Evaluated
evaluated (ok result) = ok result
evaluated (err e) = err (evaluation_failed e)

abbrev built : Result BuildError Receipt → Result VerifyError Receipt
built (ok receipt) = ok receipt
built (err e) = err (build_failed e)

module _ (go : Platform) (version : String) (tree : Worktree) (options : Options) where
  -- `Run` behind the loaders
  unfoldable pub conclude :
      Resolution
      → Contract.Loaded
      → Policy.Loaded
      → List Evidence.Loaded
      → List Waiver.Record
      → Result VerifyError Receipt
  conclude resolution contract policy evidence waivers = do
    result ← evaluated (
        Evaluate.evaluate go (record {
          contract = contract;
          policy = policy;
          evidence = evidence;
          subject = resolution.subject;
          waivers = waivers;
          evaluated_at = options.evaluated_at;
        }))
    built (
        build go version (record {
          authority = authority_of options;
          subject = resolution.subject;
          contract = contract;
          policy = policy;
          evidence = evidence;
          evaluation = record result { findings = result.findings ++ diagnostics resolution };
          ci = options.ci;
          evaluated_at = options.evaluated_at;
        }))

  unfoldable pub run : Result VerifyError Receipt
  run = do
    guard (not (is_blank options.base_ref)) base_ref_required
    guard (not (is_zero options.evaluated_at)) evaluated_at_missing
    resolution ←
        found subject_unresolved
          (tree.resolve options.repository_uri options.base_ref options.head_ref)
    check_ci go options.ci resolution.subject
    contract ← load_contract tree options resolution.subject
    policy ← load_policy tree options resolution.subject
    guard (not (is_empty policy.policy.requirements)) policy_empty
    evidence ← found evidence_unreadable (tree.evidence_local resolution.subject)
    waivers ← load_waivers tree options
    conclude resolution contract policy evidence waivers
