-- ===== src/Decision/Valid.antt =====
-- internal/decision/evaluate.go: what `validateRequirement` and `validateFinding` accept.
use assurectl.Prelude.{
  ℕ, suc, String, true, false, ◌≡◌, refl, ◌⊎◌, ◌↔◌, Option, none, some, List, [], ◌∷◌, All,
  Distinct, Unseen, Unseen-nil, Unseen-cons, Unseen-of_cons, canonical_identifier, is_empty, ◌==◌,
  if◌then◌else◌, arith,
}
use assurectl.Domain.{
  EvidenceState, ObservedOutcome, WaiverStatus, RequirementResult, Finding, evidence_state_valid,
  outcome_valid, waiver_status_valid, category_valid, severity_valid,
}
use assurectl.Decision.{
  DecisionError, evidence_id_not_canonical, duplicate_evidence_id,
  finding_evidence_id_not_canonical, finding_duplicate_evidence_id, finding_message_empty,
  check_ids, check_status, or_else, validate_requirement, validate_finding,
}

abbrev pub Canonical : String → Type 0
Canonical id = canonical_identifier id ≡ true

-- The checks behind the evidence identifiers.
pub record ValidStatus (r : RequirementResult) : Type 0 where
  pub outcome_supported : (r.outcome ≡ ObservedOutcome.unset) ⊎ (outcome_valid r.outcome ≡ true)
  pub outcome_established : r.evidence_state ≡ EvidenceState.valid → outcome_valid r.outcome ≡ true
  pub waiver_supported : waiver_status_valid r.waiver_status ≡ true
  pub waiver_permitted :
      r.waiver_status ≡ WaiverStatus.valid
      → (r.waivable ≡ true)
        × (r.evidence_state ≡ EvidenceState.valid)
        × (r.outcome ≡ ObservedOutcome.failed)

-- A requirement result that the kernel accepts.
pub record ValidRequirement (r : RequirementResult) : Type 0 where
  pub id_canonical : Canonical r.requirement_id
  pub state_supported : evidence_state_valid r.evidence_state ≡ true
  pub evidence_referenced : r.evidence_state ≡ EvidenceState.valid → is_empty r.evidence_ids ≡ false
  pub ids_canonical : All Canonical r.evidence_ids
  pub ids_distinct : Distinct r.evidence_ids
  pub status : ValidStatus r

-- A finding that the kernel accepts.
pub record ValidFinding (f : Finding) : Type 0 where
  pub code_given : (f.code == "") ≡ false
  pub category_supported : category_valid f.category ≡ true
  pub severity_supported : severity_valid f.severity ≡ true
  pub requirement_canonical : ((f.requirement_id == "") ≡ true) ⊎ Canonical f.requirement_id
  pub ids_canonical : All Canonical f.evidence_ids
  pub ids_distinct : Distinct f.evidence_ids
  pub message_given : (f.message == "") ≡ false

module _ (malformed duplicate : ℕ → DecisionError) where
  check_ids_sound :
      (i : ℕ) (seen ids : List String)
      → check_ids malformed duplicate i seen ids ≡ none
      → All Canonical ids × Distinct ids × Unseen seen ids
  unfolding check_ids
  check_ids_sound i seen [] h = (tt, tt, tt)
  check_ids_sound i seen (id ∷ ids) h =
      ground (arith, check_ids_sound (suc i) (id ∷ seen) ids, Unseen-of_cons id seen ids)

  check_ids_complete :
      (i : ℕ) (seen ids : List String)
      → All Canonical ids
      → Distinct ids
      → Unseen seen ids
      → check_ids malformed duplicate i seen ids ≡ none
  unfolding check_ids
  check_ids_complete i seen [] c d u = refl
  check_ids_complete i seen (id ∷ ids) (c, cs) (d, ds) (u, us) =
      ground
        (arith, check_ids_complete (suc i) (id ∷ seen) ids cs ds (Unseen-cons id seen ids us d))

  -- From nothing seen, the loop accepts distinct canonical identifiers and no other list.
  check_ids_iff :
      (ids : List String)
      → (check_ids malformed duplicate 0 [] ids ≡ none) ↔ (All Canonical ids × Distinct ids)
  check_ids_iff ids = (
    λ h. let facts = check_ids_sound 0 [] ids h in (facts.0, facts.1),
    λ h. check_ids_complete 0 [] ids h.0 h.1 (Unseen-nil ids),
  )

or_else-none : (a b : Option DecisionError) → or_else a b ≡ none → (a ≡ none) × (b ≡ none)
or_else-none none b h = (refl, h)
or_else-none (some e) b h = ground arith

check_status_sound : (r : RequirementResult) → check_status r ≡ none → ValidStatus r
unfolding check_status evidence_state_valid outcome_valid waiver_status_valid
check_status_sound r h = ground arith

check_status_complete : (r : RequirementResult) → ValidStatus r → check_status r ≡ none
unfolding check_status evidence_state_valid outcome_valid waiver_status_valid
check_status_complete r h = ground arith

-- Lemmas about the parts stay listed; only the tests of `validateRequirement` itself are opened.
module _ (i : ℕ) (r : RequirementResult) where
  abbrev ids_error : Option DecisionError
  ids_error =
      check_ids (evidence_id_not_canonical r.requirement_id)
        (duplicate_evidence_id r.requirement_id) 0 [] r.evidence_ids

  -- What `validateRequirement` accepts is a valid requirement result.
  pub validate_requirement_sound : validate_requirement i r ≡ none → ValidRequirement r
  unfolding validate_requirement
  validate_requirement_sound h =
      let parts = or_else-none ids_error (check_status r) (ground arith) in
      let ids =
        (check_ids_iff (evidence_id_not_canonical r.requirement_id)
            (duplicate_evidence_id r.requirement_id) r.evidence_ids).0
          parts.0 in
      record {
        id_canonical = ground arith;
        state_supported = ground arith;
        evidence_referenced = ground arith;
        ids_canonical = ids.0;
        ids_distinct = ids.1;
        status = check_status_sound r parts.1;
      }

  pub validate_requirement_complete : ValidRequirement r → validate_requirement i r ≡ none
  unfolding validate_requirement
  validate_requirement_complete v = ground (
    arith,
    check_status_complete r v.status,
    (check_ids_iff (evidence_id_not_canonical r.requirement_id)
          (duplicate_evidence_id r.requirement_id) r.evidence_ids).1
        (v.ids_canonical, v.ids_distinct),
  )

module _ (i : ℕ) (f : Finding) where
  abbrev message_error : Option DecisionError
  message_error = if f.message == "" then some (finding_message_empty i) else none

  abbrev finding_ids_error : Option DecisionError
  finding_ids_error =
      check_ids (finding_evidence_id_not_canonical i) (finding_duplicate_evidence_id i) 0 []
        f.evidence_ids

  pub validate_finding_sound : validate_finding i f ≡ none → ValidFinding f
  unfolding validate_finding
  validate_finding_sound h =
      let parts = or_else-none finding_ids_error message_error (ground arith) in
      let ids =
        (check_ids_iff (finding_evidence_id_not_canonical i) (finding_duplicate_evidence_id i)
            f.evidence_ids).0
          parts.0 in
      record {
        code_given = ground arith;
        category_supported = ground arith;
        severity_supported = ground arith;
        requirement_canonical = ground arith;
        ids_canonical = ids.0;
        ids_distinct = ids.1;
        message_given = ground arith;
      }

  pub validate_finding_complete : ValidFinding f → validate_finding i f ≡ none
  unfolding validate_finding
  validate_finding_complete v = ground (
    arith,
    (check_ids_iff (finding_evidence_id_not_canonical i) (finding_duplicate_evidence_id i)
          f.evidence_ids).1
        (v.ids_canonical, v.ids_distinct),
  )
