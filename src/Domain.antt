-- ===== src/Domain.antt =====
-- internal/domain: the closed vocabularies and the records that the packages exchange.
-- A Go enumeration is a string type, so a value may be a text that no constant names: that is
-- `other`. An unset outcome is the empty text, `unset`. `valid` is the method `Valid`.
use assurectl.Prelude.{ℕ, String, Bool, true, false, List, eqb}

pub data AuthorityTier : Type 0 where
  advisory ci_asserted authoritative : AuthorityTier
  other : String → AuthorityTier

pub data EvidenceState : Type 0 where
  valid invalid missing stale untrusted : EvidenceState
  other : String → EvidenceState

pub data ObservedOutcome : Type 0 where
  passed failed error unset : ObservedOutcome
  other : String → ObservedOutcome

pub data WaiverStatus : Type 0 where
  not_applicable valid invalid : WaiverStatus
  other : String → WaiverStatus

pub data VerificationVerdict : Type 0 where
  passed failed indeterminate : VerificationVerdict

pub data CompletionDecision : Type 0 where
  approved rejected blocked accepted_with_risk : CompletionDecision

pub data FindingCategory : Type 0 where
  subject contract policy evidence verification waiver authority protocol internal : FindingCategory
  other : String → FindingCategory

pub data FindingSeverity : Type 0 where
  info warning error : FindingSeverity
  other : String → FindingSeverity

pub data WorkUnitType : Type 0 where
  pull_request commit release_candidate api_migration sdk_migration framework_upgrade
        dependency_upgrade security_remediation :
      WorkUnitType
  other : String → WorkUnitType

-- The methods `Valid`: each is true of the named constants and of nothing else.
unfoldable pub evidence_state_valid : EvidenceState → Bool
evidence_state_valid (EvidenceState.other s) = false
evidence_state_valid _ = true

unfoldable pub outcome_valid : ObservedOutcome → Bool
outcome_valid ObservedOutcome.passed = true
outcome_valid ObservedOutcome.failed = true
outcome_valid ObservedOutcome.error = true
outcome_valid _ = false

unfoldable pub waiver_status_valid : WaiverStatus → Bool
waiver_status_valid (WaiverStatus.other s) = false
waiver_status_valid _ = true

unfoldable pub category_valid : FindingCategory → Bool
category_valid (FindingCategory.other s) = false
category_valid _ = true

unfoldable pub severity_valid : FindingSeverity → Bool
severity_valid (FindingSeverity.other s) = false
severity_valid _ = true

unfoldable pub work_unit_type_valid : WorkUnitType → Bool
work_unit_type_valid (WorkUnitType.other s) = false
work_unit_type_valid _ = true

-- Comparisons with one constant.
abbrev pub is_evidence_valid : EvidenceState → Bool
is_evidence_valid EvidenceState.valid = true
is_evidence_valid _ = false

abbrev pub is_evidence_invalid : EvidenceState → Bool
is_evidence_invalid EvidenceState.invalid = true
is_evidence_invalid _ = false

abbrev pub is_outcome_failed : ObservedOutcome → Bool
is_outcome_failed ObservedOutcome.failed = true
is_outcome_failed _ = false

abbrev pub is_outcome_error : ObservedOutcome → Bool
is_outcome_error ObservedOutcome.error = true
is_outcome_error _ = false

abbrev pub is_outcome_unset : ObservedOutcome → Bool
is_outcome_unset ObservedOutcome.unset = true
is_outcome_unset _ = false

abbrev pub is_waiver_valid : WaiverStatus → Bool
is_waiver_valid WaiverStatus.valid = true
is_waiver_valid _ = false

abbrev pub is_waiver_invalid : WaiverStatus → Bool
is_waiver_invalid WaiverStatus.invalid = true
is_waiver_invalid _ = false

abbrev pub is_blocked : CompletionDecision → Bool
is_blocked CompletionDecision.blocked = true
is_blocked _ = false

abbrev pub is_verdict_passed : VerificationVerdict → Bool
is_verdict_passed VerificationVerdict.passed = true
is_verdict_passed _ = false

pub record Subject : Type 0 where
  pub repository_uri : String
  pub base_revision : String
  pub head_revision : String
  pub change_set_algo : String
  pub change_set_hash : String

pub record WorkUnit : Type 0 where
  pub id : String
  pub type : WorkUnitType
  pub objective : String

pub record RequirementResult : Type 0 where
  pub requirement_id : String
  pub evidence_state : EvidenceState
  pub evidence_ids : List String
  pub outcome : ObservedOutcome
  pub waivable : Bool
  pub waiver_status : WaiverStatus

pub record EvaluationResult : Type 0 where
  pub verdict : VerificationVerdict
  pub decision : CompletionDecision

pub record Finding : Type 0 where
  pub code : String
  pub category : FindingCategory
  pub severity : FindingSeverity
  pub requirement_id : String
  pub evidence_ids : List String
  pub message : String
  pub blocking : Bool

abbrev pub is_authoritative : AuthorityTier → Bool
is_authoritative AuthorityTier.authoritative = true
is_authoritative _ = false

-- `==` on verdicts and on decisions
abbrev verdict_code : VerificationVerdict → ℕ
verdict_code VerificationVerdict.passed = 0
verdict_code VerificationVerdict.failed = 1
verdict_code VerificationVerdict.indeterminate = 2

abbrev decision_code : CompletionDecision → ℕ
decision_code CompletionDecision.approved = 0
decision_code CompletionDecision.rejected = 1
decision_code CompletionDecision.blocked = 2
decision_code CompletionDecision.accepted_with_risk = 3

abbrev pub verdict_eq : VerificationVerdict → VerificationVerdict → Bool
verdict_eq v w = eqb (verdict_code v) (verdict_code w)

abbrev pub decision_eq : CompletionDecision → CompletionDecision → Bool
decision_eq d e = eqb (decision_code d) (decision_code e)
