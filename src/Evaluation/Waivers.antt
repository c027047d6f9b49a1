-- ===== src/Evaluation/Waivers.antt =====
-- internal/evaluation/waiver.go: the application of explicit waiver records.
pub mod Classify
pub mod Frame
pub mod Justified
pub mod Valid
use assurectl.Prelude.{
  ℕ, zero, suc, String, Bool, false, not, ◌&&◌, ◌||◌, Option, none, some, List, [], ◌∷◌, ◌++◌, ◌<>◌,
  ◌==◌, if◌then◌else◌, get_elem?,
}
use assurectl.Platform.{Platform, after}
use assurectl.Domain.{
  WaiverStatus, FindingCategory, FindingSeverity, RequirementResult, Finding, is_evidence_valid,
  is_outcome_failed, is_waiver_valid,
}
use assurectl.Waiver
use assurectl.Evaluation.Input.{Input}

pub data WaiverResolution : Type 0 where
  apply superseded reject_target reject_scope reject_expired reject_timing : WaiverResolution

-- The map `index`, which a later result of the same identifier overwrites.
unfoldable pub index_of : List RequirementResult → String → Option ℕ
index_of [] id = none
index_of (r ∷ rs) id = elim (index_of rs id) [
  | some position ↦ some (suc position)
  | none ↦ if r.requirement_id == id then some 0 else none
]

unfoldable pub scope_matches : Waiver.Record → Input → Bool
scope_matches entry input =
    if not (entry.scope.repository_uri == input.subject.repository_uri)
    then false
    else if not (entry.scope.head_revision == "")
        && not (entry.scope.head_revision == input.subject.head_revision)
    then false
    else entry.scope.work_unit_id == input.contract.contract.work_unit.id

unfoldable pub rejection_reason : WaiverResolution → String
rejection_reason reject_target = "target is not an established waivable failure"
rejection_reason reject_scope = "scope does not match the resolved subject and work unit"
rejection_reason reject_expired = "the waiver expired before the evaluation instant"
rejection_reason _ = "the waiver was issued after the evaluation instant"

unfoldable pub waiver_finding : String → String → FindingSeverity → String → Finding
waiver_finding code requirement_id severity message = record {
  code = code;
  category = FindingCategory.waiver;
  severity = severity;
  requirement_id = requirement_id;
  evidence_ids = [];
  message = message;
  blocking = false;
}

-- the text of the resolution, less its prefix REJECT_
unfoldable pub rejection_code : WaiverResolution → String
rejection_code reject_target = "WAIVER_REJECTED_TARGET"
rejection_code reject_scope = "WAIVER_REJECTED_SCOPE"
rejection_code reject_expired = "WAIVER_REJECTED_EXPIRED"
rejection_code _ = "WAIVER_REJECTED_TIMING"

unfoldable pub resolved_status : WaiverResolution → WaiverStatus
resolved_status apply = WaiverStatus.valid
resolved_status _ = WaiverStatus.invalid

module _ (go : Platform) where
  -- `classifyWaiver` behind the scope: the instants of the record
  unfoldable pub classify_timing : Waiver.Record → RequirementResult → ℕ → WaiverResolution
  classify_timing entry result evaluated_at = elim (go.parse_time entry.issued_at) [
    | none ↦ reject_timing
    | some issued ↦ elim (go.parse_time entry.expires_at) [
      | none ↦ reject_timing
      | some expires ↦
          if not (after expires evaluated_at)
          then reject_expired
          else if after issued evaluated_at
          then reject_timing
          else if is_waiver_valid result.waiver_status
          then superseded
          else apply
    ]
  ]

  unfoldable pub classify_target : Waiver.Record → RequirementResult → Input → WaiverResolution
  classify_target entry result input =
      if not (is_evidence_valid result.evidence_state)
        || not (is_outcome_failed result.outcome)
        || not result.waivable
      then reject_target
      else if not (scope_matches entry input)
      then reject_scope
      else classify_timing entry result input.evaluated_at

  -- The position comes from the map, and the result stands there.
  unfoldable pub classify_waiver :
      Waiver.Record → List RequirementResult → Option ℕ → Input → WaiverResolution
  classify_waiver entry results none input = reject_target
  classify_waiver entry results (some position) input = elim (get_elem? results position) [
    | none ↦ reject_target
    | some result ↦ classify_target entry result input
  ]

  abbrev about : String → Waiver.Record → String
  about verdict entry = "waiver " <> go.quote entry.id <> verdict <> go.quote entry.target.id

  unfoldable pub resolution_finding : WaiverResolution → Waiver.Record → Finding
  resolution_finding apply entry =
      waiver_finding "WAIVER_APPLIED" entry.target.id FindingSeverity.info
        (about " applied to requirement " entry)
  resolution_finding superseded entry =
      waiver_finding "WAIVER_SUPERSEDED" entry.target.id FindingSeverity.info
        (about " is superseded for requirement " entry)
  resolution_finding resolution entry =
      waiver_finding (rejection_code resolution) entry.target.id FindingSeverity.warning
        (about " rejected for requirement " entry <> ": " <> rejection_reason resolution)

-- The slices that the loop of `applyWaivers` fills.
pub record Applied : Type 0 where
  pub results : List RequirementResult
  pub resolved : List Waiver.Record
  pub findings : List Finding

-- `results[i].WaiverStatus = domain.WaiverValid`
abbrev pub mark_waived : ℕ → List RequirementResult → List RequirementResult
mark_waived zero [] = []
mark_waived (suc i) [] = []
mark_waived zero (r ∷ rs) = record r { waiver_status = WaiverStatus.valid } ∷ rs
mark_waived (suc i) (r ∷ rs) = r ∷ mark_waived i rs

unfoldable pub mark_resolution :
    WaiverResolution → Option ℕ → List RequirementResult → List RequirementResult
mark_resolution apply (some position) results = mark_waived position results
mark_resolution _ _ results = results

module _ (go : Platform) (input : Input) (index : String → Option ℕ) where
  -- the body of the loop
  unfoldable pub apply_waiver : Waiver.Record → Applied → Applied
  apply_waiver entry s =
      let resolution = classify_waiver go entry s.results (index entry.target.id) input in
      record {
        results = mark_resolution resolution (index entry.target.id) s.results;
        resolved = s.resolved ++ record entry { status = resolved_status resolution } ∷ [];
        findings = s.findings ++ resolution_finding go resolution entry ∷ [];
      }

  unfoldable pub apply_each : List Waiver.Record → Applied → Applied
  apply_each [] s = s
  apply_each (entry ∷ entries) s = apply_each entries (apply_waiver entry s)

-- The source copies the results first, so that its caller's slices stay as they are.
unfoldable pub apply_waivers :
    Platform → List RequirementResult → List Waiver.Record → Input → Applied
apply_waivers go requirements waivers input =
    apply_each go input (index_of requirements) waivers
      (record { results = requirements; resolved = []; findings = [] })
