-- ===== src/Receipt/Build.antt =====
-- internal/receipt/build.go: `Build`, and `validateBuildInput` of validate.go. The version that
-- the build stamps into the binary is a parameter.
pub mod Sound
use assurectl.Prelude.{
  ℕ, String, Bool, false, not, ◌&&◌, Option, none, some, List, [], ◌∷◌, map, if◌then◌else◌, ◌==◌,
  Result, ok, err, guard, ◌>>◌,
}
use assurectl.Platform.{Platform, is_zero}
use assurectl.Domain.{AuthorityTier, Subject, RequirementResult, Finding}
use assurectl.InputMeta.{
  Digest, TrustStatus, AuthorityBasis, is_trusted, is_trusted_base, digest_eq, sha256,
}
use assurectl.CiContext.{Context}
use assurectl.Contract
use assurectl.Policy
use assurectl.Evidence
use assurectl.Waiver
use assurectl.Evaluation.Sorting.{text_less, sort_stable}
use assurectl.Evaluation.Evaluate.{Evaluated}
use assurectl.Receipt.Model.{
  Receipt, EvidenceReference, PolicySource, WaiverRecord, layer_project, layer_protocol_baseline,
  builtin_protocol_baseline_source, subject_base, verifier_name, protocol_version,
}
use assurectl.Receipt.Model
use assurectl.Receipt.Validate.{ReceiptError, is_base_source, validate_receipt}

pub record BuildInput : Type 0 where
  pub authority : AuthorityTier
  pub subject : Subject
  pub contract : Contract.Loaded
  pub policy : Policy.Loaded
  pub evidence : List Evidence.Loaded
  pub evaluation : Evaluated
  pub ci : Option Context
  pub evaluated_at : ℕ

pub data BuildError : Type 0 where
  advisory_with_ci ci_context_missing contract_not_from_base policy_not_from_base
        evaluated_at_missing :
      BuildError
  authority_not_producible evidence_digests_differ : String → BuildError
  receipt_invalid : ReceiptError → BuildError

unfoldable pub check_tier : BuildInput → Result BuildError (Unit {0})
check_tier input = elim input.authority [
  | AuthorityTier.advisory ↦ elim input.ci [ none ↦ ok tt | some context ↦ err advisory_with_ci ]
  | AuthorityTier.ci_asserted ↦ elim input.ci [
    | none ↦ err ci_context_missing
    | some context ↦ ok tt
  ]
  | AuthorityTier.authoritative ↦ do
    guard (is_trusted input.contract.trust_status && is_base_source input.contract.source)
        contract_not_from_base
    guard
        (is_trusted input.policy.trust_status
          && is_trusted_base input.policy.authority_basis
          && is_base_source input.policy.source)
        policy_not_from_base
  | AuthorityTier.other tier ↦ err (authority_not_producible tier)
]

-- the map `seenEvidence`, in which the last entry of an identifier stands first
unfoldable pub previous_digest : List (String × Digest) → String → Option Digest
previous_digest [] id = none
previous_digest ((key, digest) ∷ seen) id =
    let rest = previous_digest seen id in if key == id then some digest else rest

abbrev differs : Option Digest → Digest → Bool
differs none digest = false
differs (some previous) digest = not (digest_eq previous digest)

unfoldable pub check_digests :
    List (String × Digest) → List Evidence.Loaded → Result BuildError (Unit {0})
check_digests seen [] = ok tt
check_digests seen (entry ∷ entries) =
    let rest = check_digests ((entry.envelope.id, entry.digest) ∷ seen) entries in
    if differs (previous_digest seen entry.envelope.id) entry.digest
    then err (evidence_digests_differ entry.envelope.id)
    else rest

unfoldable pub validate_build_input : BuildInput → Result BuildError (Unit {0})
validate_build_input input = do
  check_tier input
  guard (not (is_zero input.evaluated_at)) evaluated_at_missing
  check_digests [] input.evidence

abbrev pub reference_of : Evidence.Loaded → EvidenceReference
reference_of entry = record { id = entry.envelope.id; digest = entry.digest }

abbrev pub id_less : EvidenceReference → EvidenceReference → Bool
id_less a b = text_less a.id b.id

unfoldable pub evidence_references : List Evidence.Loaded → List EvidenceReference
evidence_references entries = sort_stable id_less (map reference_of entries)

abbrev pub convert_waiver : Waiver.Record → WaiverRecord
convert_waiver entry = record {
  id = entry.id;
  target = record { kind = entry.target.kind; id = entry.target.id };
  scope = record {
    repository_uri = entry.scope.repository_uri;
    work_unit_id = entry.scope.work_unit_id;
    head_revision = entry.scope.head_revision;
  };
  reason = entry.reason;
  accepted_risk = entry.accepted_risk;
  approver = record { identity = entry.approver.identity; authority = entry.approver.authority };
  issued_at = entry.issued_at;
  expires_at = entry.expires_at;
  status = entry.status;
  digest = entry.digest;
}

unfoldable pub convert_waivers : List Waiver.Record → List WaiverRecord
convert_waivers entries = map convert_waiver entries

unfoldable pub project_revision_binding : AuthorityBasis → String
project_revision_binding basis = if is_trusted_base basis then subject_base else ""

module _ (go : Platform) (version : String) where
  abbrev baseline_layer : PolicySource
  baseline_layer = record {
    layer = layer_protocol_baseline;
    source = builtin_protocol_baseline_source;
    digest = sha256 go builtin_protocol_baseline_source;
    trust_status = TrustStatus.untrusted;
    authority_basis = AuthorityBasis.advisory_workspace;
    revision_binding = "";
    source_revision = "";
  }

  abbrev project_layer : Policy.Loaded → PolicySource
  project_layer policy = record {
    layer = layer_project;
    source = policy.source;
    digest = policy.digest;
    trust_status = policy.trust_status;
    authority_basis = policy.authority_basis;
    revision_binding = project_revision_binding policy.authority_basis;
    source_revision = "";
  }

  -- The receipt before it is checked. The source copies results and findings, so that the receipt
  -- shares no slice with its input.
  unfoldable pub assemble : BuildInput → Receipt
  assemble input = record {
    schema_version = Model.schema_version;
    authority = input.authority;
    subject = input.subject;
    work_unit = input.contract.contract.work_unit;
    contract = record {
      source = input.contract.source;
      digest = input.contract.digest;
      trust_status = input.contract.trust_status;
    };
    policy = record {
      sources = baseline_layer ∷ project_layer input.policy ∷ [];
      effective_digest = input.policy.digest;
      trust_status = input.policy.trust_status;
    };
    evidence = evidence_references input.evidence;
    requirement_results = input.evaluation.requirements;
    findings = input.evaluation.findings;
    waivers = convert_waivers input.evaluation.waivers;
    verification_verdict = input.evaluation.verdict.verdict;
    completion_decision = input.evaluation.verdict.decision;
    verifier = record {
      name = verifier_name;
      version = version;
      protocol_version = protocol_version;
    };
    evaluated_at = go.format_time input.evaluated_at;
  }

  abbrev checked : Receipt → Result ReceiptError (Unit {0}) → Result BuildError Receipt
  checked receipt (ok u) = ok receipt
  checked receipt (err e) = err (receipt_invalid e)

  unfoldable pub build : BuildInput → Result BuildError Receipt
  build input = do
    validate_build_input input
    checked (assemble input) (validate_receipt go (assemble input))
