-- ===== src/Receipt/Validate.antt =====
-- internal/receipt/validate.go: the semantic checks of a receipt.
pub mod Checks
pub mod Sound
use assurectl.Prelude.{
  String, Bool, true, false, not, ◌&&◌, ◌||◌, Option, none, some, List, [], ◌∷◌, contains, is_empty,
  any, strip_prefix, cut_at, object_id_pattern, ◌==◌, if◌then◌else◌, Result, ok, err, guard, ◌>>=◌,
  ◌>>◌,
}
use assurectl.Platform.{Platform}
use assurectl.Domain.{
  RequirementResult, EvaluationResult, Finding, VerificationVerdict, CompletionDecision,
  is_evidence_valid, is_outcome_failed, is_waiver_valid, is_blocked, is_authoritative, verdict_eq,
  decision_eq,
}
use assurectl.InputMeta.{Digest, is_trusted}
use assurectl.Decision
use assurectl.Decision.{DecisionError}
use assurectl.Receipt.Model.{
  Receipt, EvidenceReference, PolicySource, WaiverRecord, Verifier, layer_project, subject_base,
  verifier_name, protocol_version,
}

pub data ReceiptError : Type 0 where
  requirement_duplicate evidence_referenced_twice requirement_valid_without_evidence
        waiver_kind_unsupported waiver_unknown_requirement waiver_not_failure waiver_not_waivable
        waiver_scope_mismatch waiver_issued_at_malformed waiver_expires_at_malformed
        blocking_finding_carried :
      String → ReceiptError
  rederivation_failed : DecisionError → ReceiptError
  decision_differs untrusted_provenance project_layer_unbound project_layer_missing
        verifier_incomplete evaluated_at_malformed :
      ReceiptError
  evidence_not_supplied : String → String → ReceiptError

-- ^base:[0-9a-f]{40}([0-9a-f]{24})?:\.assurectl/(policy|contract)\.json$
unfoldable pub is_base_source : String → Bool
is_base_source source = elim (strip_prefix "base:" source) [
  | none ↦ false
  | some rest ↦ elim (cut_at b':' rest) [
    | none ↦ false
    | some (object, path) ↦
        object_id_pattern object
        && (path == ".assurectl/policy.json" || path == ".assurectl/contract.json")
  ]
]

unfoldable pub validate_requirement_uniqueness :
    List String → List RequirementResult → Result ReceiptError (Unit {0})
validate_requirement_uniqueness seen [] = ok tt
validate_requirement_uniqueness seen (result ∷ results) =
    let rest = validate_requirement_uniqueness (result.requirement_id ∷ seen) results in
    if contains seen result.requirement_id
    then err (requirement_duplicate result.requirement_id)
    else rest

abbrev same_decision : EvaluationResult → EvaluationResult → Bool
same_decision a b = verdict_eq a.verdict b.verdict && decision_eq a.decision b.decision

abbrev compare_derived :
    EvaluationResult → EvaluationResult × Option DecisionError → Result ReceiptError (Unit {0})
compare_derived recorded (derived, some e) = err (rederivation_failed e)
compare_derived recorded (derived, none) = guard (same_decision derived recorded) decision_differs

unfoldable pub validate_decision_derivation : Receipt → Result ReceiptError (Unit {0})
validate_decision_derivation receipt =
    compare_derived
      (record { verdict = receipt.verification_verdict; decision = receipt.completion_decision })
      (Decision.evaluate receipt.requirement_results receipt.findings)

-- The loop that fills `evidenceDigests`, of which later checks read the keys only.
unfoldable pub evidence_ids :
    List String → List EvidenceReference → Result ReceiptError (List String)
evidence_ids seen [] = ok seen
evidence_ids seen (reference ∷ references) =
    let rest = evidence_ids (reference.id ∷ seen) references in
    if contains seen reference.id then err (evidence_referenced_twice reference.id) else rest

unfoldable pub check_supplied : List String → String → List String → Result ReceiptError (Unit {0})
check_supplied supplied requirement [] = ok tt
check_supplied supplied requirement (id ∷ ids) =
    let rest = check_supplied supplied requirement ids in
    if contains supplied id then rest else err (evidence_not_supplied requirement id)

unfoldable pub validate_evidence_binding :
    List String → List RequirementResult → Result ReceiptError (Unit {0})
validate_evidence_binding supplied [] = ok tt
validate_evidence_binding supplied (result ∷ results) =
    let rest = validate_evidence_binding supplied results in
    do
      check_supplied supplied result.requirement_id result.evidence_ids
      guard (not (is_evidence_valid result.evidence_state && is_empty result.evidence_ids))
          (requirement_valid_without_evidence result.requirement_id)
      rest

-- the map from identifiers to results, which a later result overwrites
unfoldable pub result_at : List RequirementResult → String → Option RequirementResult
result_at [] id = none
result_at (result ∷ results) id = elim (result_at results id) [
  | some later ↦ some later
  | none ↦ if result.requirement_id == id then some result else none
]

abbrev parses : Platform → String → Bool
parses go text = elim (go.parse_time text) [ none ↦ false | some t ↦ true ]

-- the checks of a record with the status VALID
unfoldable pub validate_applied :
    Platform → String → String → WaiverRecord → RequirementResult → Result ReceiptError (Unit {0})
validate_applied go repository_uri work_unit_id entry result = do
  guard result.waivable (waiver_not_waivable entry.id)
  guard (entry.scope.repository_uri == repository_uri && entry.scope.work_unit_id == work_unit_id)
      (waiver_scope_mismatch entry.id)
  guard (parses go entry.issued_at) (waiver_issued_at_malformed entry.id)
  guard (parses go entry.expires_at) (waiver_expires_at_malformed entry.id)

unfoldable pub validate_waiver_target :
    Platform
    → String
    → String
    → WaiverRecord
    → Option RequirementResult
    → Result ReceiptError (Unit {0})
validate_waiver_target go repository_uri work_unit_id entry none =
    err (waiver_unknown_requirement entry.id)
validate_waiver_target go repository_uri work_unit_id entry (some result) = do
  guard (is_evidence_valid result.evidence_state && is_outcome_failed result.outcome)
      (waiver_not_failure entry.id)
  if is_waiver_valid entry.status
      then validate_applied go repository_uri work_unit_id entry result
      else ok tt

unfoldable pub validate_waiver_records :
    Platform
    → String
    → String
    → List RequirementResult
    → List WaiverRecord
    → Result ReceiptError (Unit {0})
validate_waiver_records go repository_uri work_unit_id results [] = ok tt
validate_waiver_records go repository_uri work_unit_id results (entry ∷ entries) =
    let rest = validate_waiver_records go repository_uri work_unit_id results entries in
    do
      guard (entry.target.kind == "REQUIREMENT") (waiver_kind_unsupported entry.id)
      validate_waiver_target go repository_uri work_unit_id entry
          (result_at results entry.target.id)
      rest

unfoldable pub check_quiet : List Finding → Result ReceiptError (Unit {0})
check_quiet [] = ok tt
check_quiet (finding ∷ findings) =
    let rest = check_quiet findings in
    if finding.blocking then err (blocking_finding_carried finding.code) else rest

-- the loop over the policy sources, which returns `subjectBaseSeen`
unfoldable pub check_sources : Bool → List PolicySource → Result ReceiptError (Unit {0})
check_sources seen [] = guard seen project_layer_missing
check_sources seen (source ∷ sources) =
    let after_project = check_sources true sources in
    let after_other = check_sources seen sources in
    if source.layer == layer_project
    then (if source.revision_binding == subject_base
        then after_project
        else err project_layer_unbound)
    else after_other

unfoldable pub check_authority : Receipt → Result ReceiptError (Unit {0})
check_authority receipt =
    if is_authoritative receipt.authority
    then (do
      guard (is_trusted receipt.contract.trust_status && is_trusted receipt.policy.trust_status)
          untrusted_provenance
      check_sources false receipt.policy.sources)
    else ok tt

abbrev is_complete : Verifier → Bool
is_complete v =
    v.name == verifier_name && not (v.version == "") && v.protocol_version == protocol_version

unfoldable pub validate_receipt : Platform → Receipt → Result ReceiptError (Unit {0})
validate_receipt go receipt = do
  validate_requirement_uniqueness [] receipt.requirement_results
  validate_decision_derivation receipt
  supplied ← evidence_ids [] receipt.evidence
  validate_evidence_binding supplied receipt.requirement_results
  validate_waiver_records go receipt.subject.repository_uri receipt.work_unit.id
      receipt.requirement_results receipt.waivers
  if is_blocked receipt.completion_decision then ok tt else check_quiet receipt.findings
  check_authority receipt
  guard (is_complete receipt.verifier) verifier_incomplete
  guard (parses go receipt.evaluated_at) evaluated_at_malformed
