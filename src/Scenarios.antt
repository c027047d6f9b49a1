-- ===== src/Scenarios.antt =====
-- Test data: a platform with concrete functions, a contract, a policy, evidence and a waiver.
mod Decisions
mod Parts
mod Evaluations
mod Pipelines
mod Loads
mod Files
mod Workspace
mod Signatures
mod App
use assurectl.Prelude.{
  ℕ, String, true, false, Option, none, some, List, [], ◌∷◌, ◌*◌, ◌+◌, ◌==◌, ◌<>◌, if◌then◌else◌,
}
use assurectl.Platform.{Platform, second}
use assurectl.Domain.{
  EvidenceState, ObservedOutcome, WaiverStatus, WorkUnitType, FindingCategory, FindingSeverity,
  RequirementResult, Finding, Subject, EvaluationResult, VerificationVerdict, CompletionDecision,
}
use assurectl.InputMeta.{Digest, TrustStatus, AuthorityBasis}
use assurectl.Contract
use assurectl.Policy
use assurectl.Evidence
use assurectl.Evidence.{exact}
use assurectl.Waiver
use assurectl.Evaluation.Input.{Input}
use assurectl.Evaluation.Evaluate.{Evaluated, normalize}
use assurectl.CiContext.{Context}
use assurectl.Verify.{Options, Resolution, Worktree}

-- Every text is its own quotation, is in lower case, and is no URL; two texts are instants.
abbrev pub demo_platform : Platform
demo_platform = record {
  quote = λ s. s;
  to_lower = λ s. s;
  to_upper = λ s. s;
  parse_url = λ s. none;
  parse_time = λ s.
      if s == "2026-01-01T00:00:00Z"
      then some (40000000 * second)
      else if s == "2026-03-01T00:00:00Z"
      then some (45000000 * second)
      else none;
  format_time = λ t. "2026-01-01T00:00:00Z";
  sha256_hex = λ s. "0000000000000000000000000000000000000000000000000000000000000000";
}

abbrev pub zero_hash : String
zero_hash = "0000000000000000000000000000000000000000000000000000000000000000"

abbrev pub demo_digest : Digest
demo_digest = record { algorithm = "sha256"; value = zero_hash }

abbrev pub demo_head : String
demo_head = "1111111111111111111111111111111111111111"

abbrev pub demo_repository : String
demo_repository = "github.com/acme/app"

-- Results as the kernel gets them.
abbrev pub passed_result : RequirementResult
passed_result = record {
  requirement_id = "REQ-1";
  evidence_state = EvidenceState.valid;
  evidence_ids = "EV-1" ∷ [];
  outcome = ObservedOutcome.passed;
  waivable = false;
  waiver_status = WaiverStatus.not_applicable;
}

abbrev pub failed_result : RequirementResult
failed_result = record {
  requirement_id = "REQ-2";
  evidence_state = EvidenceState.valid;
  evidence_ids = "EV-2" ∷ [];
  outcome = ObservedOutcome.failed;
  waivable = true;
  waiver_status = WaiverStatus.not_applicable;
}

abbrev pub waived_result : RequirementResult
waived_result = record failed_result { waiver_status = WaiverStatus.valid }

abbrev pub quiet_finding : Finding
quiet_finding = record {
  code = "POLICY_REQUIREMENT_UNREFERENCED";
  category = FindingCategory.policy;
  severity = FindingSeverity.info;
  requirement_id = "REQ-2";
  evidence_ids = [];
  message = "unreferenced";
  blocking = false;
}

abbrev pub blocking_finding : Finding
blocking_finding = record quiet_finding { blocking = true }

-- The policy: tests must pass, and a scan may be waived.
abbrev pub tests_requirement : Policy.Requirement
tests_requirement = record {
  id = "REQ-1";
  evidence_type = "tests";
  waivable = false;
  allowed_producer_types = "ci" ∷ [];
  max_age_seconds = some 86400;
}

abbrev pub scan_requirement : Policy.Requirement
scan_requirement = record {
  id = "REQ-2";
  evidence_type = "scan";
  waivable = true;
  allowed_producer_types = "ci" ∷ [];
  max_age_seconds = none;
}

abbrev pub demo_policy : List Policy.Requirement → Policy.Loaded
demo_policy requirements = record {
  policy = record { schema_version = Policy.schema_version; requirements = requirements };
  source = "policy.json";
  digest = demo_digest;
  trust_status = TrustStatus.untrusted;
  authority_basis = AuthorityBasis.advisory_workspace;
}

abbrev pub demo_criteria : List Contract.AcceptanceCriterion
demo_criteria =
    record { id = "AC-1"; statement = "the tests pass"; requirements = "REQ-1" ∷ [] } ∷ []

abbrev pub demo_contract : Contract.Loaded
demo_contract = record {
  contract = record {
    schema_version = Contract.schema_version;
    work_unit = record { id = "WU-1"; type = WorkUnitType.pull_request; objective = "a change" };
    acceptance_criteria = demo_criteria;
  };
  source = "contract.json";
  digest = demo_digest;
  trust_status = TrustStatus.untrusted;
}

abbrev pub demo_evidence : String → String → ObservedOutcome → Evidence.Loaded
demo_evidence id kind outcome = record {
  envelope = record {
    schema_version = Evidence.schema_version;
    id = id;
    type = kind;
    subject = record { repository_uri = demo_repository; revision = demo_head };
    producer = record {
      type = "ci";
      identity = "runner";
      workflow = none;
      workflow_revision = none;
    };
    invocation = record {
      command_id = "run";
      environment_digest = none;
      started_at = "2026-01-01T00:00:00Z";
      finished_at = "2026-01-01T00:00:00Z";
    };
    outcome = record { status = outcome; exit_code = none };
    artifact = record { uri = "log.txt"; digest = demo_digest; media_type = "text/plain" };
  };
  source = "evidence.json";
  digest = demo_digest;
  trust_status = TrustStatus.untrusted;
  authority_basis = AuthorityBasis.advisory_workspace;
  started_at = 40000000 * second;
  finished_at = 40000000 * second;
  subject_binding = exact;
}

abbrev pub tests_passed : Evidence.Loaded
tests_passed = demo_evidence "EV-1" "tests" ObservedOutcome.passed

abbrev pub scan_failed : Evidence.Loaded
scan_failed = demo_evidence "EV-2" "scan" ObservedOutcome.failed

abbrev pub demo_waiver : Waiver.Record
demo_waiver = record {
  id = "W-1";
  target = record { kind = Waiver.target_requirement; id = "REQ-2" };
  scope = record { repository_uri = demo_repository; work_unit_id = "WU-1"; head_revision = "" };
  reason = "a false alarm";
  accepted_risk = "low";
  approver = record { identity = "alice"; authority = "owner" };
  issued_at = "2026-01-01T00:00:00Z";
  expires_at = "2026-03-01T00:00:00Z";
  status = WaiverStatus.valid;
  digest = demo_digest;
}

abbrev pub demo_subject : Subject
demo_subject = record {
  repository_uri = demo_repository;
  base_revision = zero_hash;
  head_revision = demo_head;
  change_set_algo = "sha256";
  change_set_hash = zero_hash;
}

-- a requirement that passes, no waivers
abbrev pub approved_input : Input
approved_input = record {
  contract = demo_contract;
  policy = demo_policy (tests_requirement ∷ []);
  evidence = tests_passed ∷ [];
  subject = demo_subject;
  waivers = [];
  evaluated_at = 40000000 * second + 5;
}

-- a requirement that passes, and one that fails and is waived
abbrev pub waived_input : Input
waived_input = record approved_input {
  policy = demo_policy (tests_requirement ∷ scan_requirement ∷ []);
  evidence = tests_passed ∷ scan_failed ∷ [];
  waivers = demo_waiver ∷ [];
}

abbrev pub approved : EvaluationResult
approved = record { verdict = VerificationVerdict.passed; decision = CompletionDecision.approved }

abbrev pub at_risk : EvaluationResult
at_risk = record {
  verdict = VerificationVerdict.failed;
  decision = CompletionDecision.accepted_with_risk;
}

-- What comes out with a verdict of the kernel.
abbrev pub outcome : Input → EvaluationResult → Evaluated
outcome input verdict =
    let s = normalize demo_platform input in
    record {
      requirements = s.results;
      findings = s.findings;
      waivers = s.resolved;
      verdict = verdict;
    }

-- The approved input, with contract and policy read from the base revision.
abbrev pub trusted_input : Input
trusted_input = record approved_input {
  contract = record demo_contract {
    source =
        "base:0000000000000000000000000000000000000000000000000000000000000000:.assurectl/contract.json";
    trust_status = TrustStatus.trusted;
  };
  policy = record (demo_policy (tests_requirement ∷ [])) {
    source =
        "base:0000000000000000000000000000000000000000000000000000000000000000:.assurectl/policy.json";
    trust_status = TrustStatus.trusted;
    authority_basis = AuthorityBasis.trusted_base;
  };
}

abbrev pub demo_context : Context
demo_context = record {
  repository = "acme/app";
  sha = demo_head;
  ref = "";
  workflow_ref = "ci";
  workflow_sha = demo_head;
  run_id = "1";
  run_attempt = "";
  event_name = "";
}

abbrev pub demo_resolution : Resolution
demo_resolution = record { subject = demo_subject; dirty = true; local_only = false }

-- A work tree that gives the parts of an input.
abbrev pub worktree_of : Input → Worktree
worktree_of input = record {
  resolve = λ repository base head. some demo_resolution;
  contract_local = some input.contract;
  contract_base = λ revision. some input.contract;
  policy_local = some input.policy;
  policy_base = λ revision. some input.policy;
  evidence_local = λ subject. some input.evidence;
  waivers_local = λ path. some (record { records = input.waivers; source = path });
}

abbrev pub trusted_options : Options
trusted_options = record {
  repository_uri = "";
  base_ref = "main";
  head_ref = "HEAD";
  waivers_path = "";
  trusted_base = true;
  ci = some demo_context;
  evaluated_at = 40000000 * second + 5;
}

abbrev pub local_options : Options
local_options = record trusted_options {
  waivers_path = "waivers.json";
  trusted_base = false;
  ci = none;
}
