-- ===== src/Receipt/Validate/Checks.antt =====
-- internal/receipt/validate.go: what each of its checks makes sure of.
use assurectl.Prelude.{
  ◌||◌, String, Bool, true, false, ◌≡◌, refl, ◌⊎◌, inl, inr, none, some, List, [], ◌∷◌, contains,
  any, All, Distinct, Unseen, Unseen-of_cons, eq_iff, ◌==◌, Bool-cases, Option-cases, ok, arith,
}
use assurectl.Platform.{Platform}
use assurectl.Domain.{RequirementResult, Finding, is_waiver_valid, is_authoritative}
use assurectl.InputMeta.{TrustStatus}
use assurectl.Decision
use assurectl.Decision.Table.{requirement_ids}
use assurectl.Decision.Outcomes.{Failed, is_blocking}
use assurectl.Receipt.Model.{
  Receipt, EvidenceReference, PolicySource, WaiverRecord, layer_project, subject_base,
}
use assurectl.Receipt.Validate.{
  validate_requirement_uniqueness, validate_decision_derivation, evidence_ids, check_supplied,
  validate_evidence_binding, result_at, validate_applied, validate_waiver_target,
  validate_waiver_records, check_quiet, check_sources, check_authority,
}

abbrev pub reference_ids : List EvidenceReference → List String
reference_ids [] = []
reference_ids (reference ∷ references) = reference.id ∷ reference_ids references

-- Every evidence identifier of the result is one of the list.
abbrev pub Supplied : List String → RequirementResult → Type 0
Supplied supplied result = All (λ id. contains supplied id ≡ true) result.evidence_ids

-- The record does not claim to be valid, or its result is waivable and its scope names the
-- repository and the work unit.
abbrev pub Claim : String → String → WaiverRecord → RequirementResult → Type 0
Claim repository_uri work_unit_id entry result =
    (is_waiver_valid entry.status ≡ false)
    ⊎ ((result.waivable ≡ true)
        × (entry.scope.repository_uri ≡ repository_uri)
        × (entry.scope.work_unit_id ≡ work_unit_id))

-- The record names a requirement result that has failed, with a claim that stands.
abbrev pub SoundWaiver : String → String → List RequirementResult → WaiverRecord → Type 0
SoundWaiver repository_uri work_unit_id results entry =
    (result : RequirementResult) × (result_at results entry.target.id ≡ some result)
    × Failed result
    × Claim repository_uri work_unit_id entry result

abbrev is_project : PolicySource → Bool
is_project source = source.layer == layer_project

-- A project layer is bound to the base of the subject.
abbrev pub Bound : PolicySource → Type 0
Bound source = ((source.layer == layer_project) ≡ false) ⊎ (source.revision_binding ≡ subject_base)

-- The receipt is not authoritative, or contract and policy are trusted, there is a project layer,
-- and each one is bound to the base of the subject.
abbrev pub Provenance : Receipt → Type 0
Provenance receipt =
    (is_authoritative receipt.authority ≡ false)
    ⊎ ((receipt.contract.trust_status ≡ TrustStatus.trusted)
        × (receipt.policy.trust_status ≡ TrustStatus.trusted)
        × (any is_project receipt.policy.sources ≡ true)
        × All Bound receipt.policy.sources)

pub uniqueness_sound :
    (seen : List String) (results : List RequirementResult)
    → validate_requirement_uniqueness seen results ≡ ok tt
    → Distinct (requirement_ids results) × Unseen seen (requirement_ids results)
unfolding validate_requirement_uniqueness
uniqueness_sound seen [] h = (tt, tt)
uniqueness_sound seen (result ∷ results) h = ground (
  arith,
  uniqueness_sound (result.requirement_id ∷ seen) results,
  Unseen-of_cons result.requirement_id seen (requirement_ids results),
)

-- The recorded pair is the one that the kernel derives.
pub derivation_sound :
    (receipt : Receipt)
    → validate_decision_derivation receipt ≡ ok tt
    → Decision.evaluate receipt.requirement_results receipt.findings ≡ (
      record { verdict = receipt.verification_verdict; decision = receipt.completion_decision },
      none,
    )
unfolding validate_decision_derivation
derivation_sound receipt h = ground arith

pub evidence_ids_sound :
    (seen : List String) (references : List EvidenceReference) (supplied : List String)
    → evidence_ids seen references ≡ ok supplied
    → Distinct (reference_ids references)
      × Unseen seen (reference_ids references)
      × ((id : String)
          → contains supplied id ≡ (contains (reference_ids references) id || contains seen id))
unfolding evidence_ids
evidence_ids_sound seen [] supplied h = (tt, tt, λ id. ground arith)
evidence_ids_sound seen (reference ∷ references) supplied h =
    let fresh : contains seen reference.id ≡ false = ground arith in
    let rest = evidence_ids_sound (reference.id ∷ seen) references supplied (ground arith) in
    let parts = Unseen-of_cons reference.id seen (reference_ids references) rest.1 in
    ((parts.1, rest.0), (fresh, parts.0), λ id. ground (arith, rest.2 id))

pub check_supplied_sound :
    (supplied : List String) (requirement : String) (ids : List String)
    → check_supplied supplied requirement ids ≡ ok tt
    → All (λ id. contains supplied id ≡ true) ids
unfolding check_supplied
check_supplied_sound supplied requirement [] h = tt
check_supplied_sound supplied requirement (id ∷ ids) h =
    ground (arith, check_supplied_sound supplied requirement ids)

pub binding_sound :
    (supplied : List String) (results : List RequirementResult)
    → validate_evidence_binding supplied results ≡ ok tt
    → All (Supplied supplied) results
unfolding validate_evidence_binding
binding_sound supplied [] h = tt
binding_sound supplied (result ∷ results) h = (
  check_supplied_sound supplied result.requirement_id result.evidence_ids (ground arith),
  binding_sound supplied results (ground arith),
)

pub quiet_sound :
    (findings : List Finding) → check_quiet findings ≡ ok tt → is_blocking findings ≡ false
unfolding check_quiet
quiet_sound [] h = refl
quiet_sound (finding ∷ findings) h = ground (arith, quiet_sound findings)

module _ (go : Platform) (repository_uri work_unit_id : String) where
  target_sound :
      (results : List RequirementResult) (entry : WaiverRecord)
      → validate_waiver_target go repository_uri work_unit_id entry
          (result_at results entry.target.id)
        ≡ ok tt
      → SoundWaiver repository_uri work_unit_id results entry
  unfolding validate_waiver_target validate_applied
  target_sound results entry h = elim (Option-cases (result_at results entry.target.id)) [
    | inl unknown ↦ absurd (ground arith)
    | inr (result, found) ↦ (
      result,
      found,
      ground arith,
      ground (
        arith,
        eq_iff entry.scope.repository_uri repository_uri,
        eq_iff entry.scope.work_unit_id work_unit_id,
      ),
    )
  ]

  pub waivers_sound :
      (results : List RequirementResult) (entries : List WaiverRecord)
      → validate_waiver_records go repository_uri work_unit_id results entries ≡ ok tt
      → All (SoundWaiver repository_uri work_unit_id results) entries
  unfolding validate_waiver_records
  waivers_sound results [] h = tt
  waivers_sound results (entry ∷ entries) h =
      (target_sound results entry (ground arith), waivers_sound results entries (ground arith))

sources_sound :
    (seen : Bool) (sources : List PolicySource)
    → check_sources seen sources ≡ ok tt
    → All Bound sources × ((any is_project sources ≡ true) ⊎ (seen ≡ true))
unfolding check_sources
sources_sound seen [] h = ground arith
sources_sound seen (source ∷ sources) h = elim (Bool-cases (source.layer == layer_project)) [
  | inl project ↦
      let rest = sources_sound true sources (ground arith) in
      (
        (inr (ground (arith, eq_iff source.revision_binding subject_base)), rest.0),
        inl (ground arith),
      )
  | inr layer ↦
      let rest = sources_sound seen sources (ground arith) in
      ((inl layer, rest.0), ground (arith, rest.1))
]

pub authority_sound : (receipt : Receipt) → check_authority receipt ≡ ok tt → Provenance receipt
unfolding check_authority
authority_sound receipt h = elim (Bool-cases (is_authoritative receipt.authority)) [
  | inr lower ↦ inl lower
  | inl highest ↦
      let sources = sources_sound false receipt.policy.sources (ground arith) in
      inr (ground arith, ground arith, ground (arith, sources.1), sources.0)
]
