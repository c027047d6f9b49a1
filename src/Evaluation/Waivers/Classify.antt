-- ===== src/Evaluation/Waivers/Classify.antt =====
-- internal/evaluation/waiver.go: when a waiver record applies to a requirement result.
use assurectl.Prelude.{
  ℕ, suc, ◌≤◌, ◌<◌, String, true, false, ◌==◌, eq_iff, ◌≡◌, refl, ◌↔◌, ◌⊎◌, inl, inr, Option, none,
  some, List, [], ◌∷◌, get_elem?, Option-cases, arith,
}
use assurectl.Platform.{Platform}
use assurectl.Domain.{EvidenceState, ObservedOutcome, RequirementResult, is_waiver_valid}
use assurectl.Waiver
use assurectl.Evaluation.Input.{Input}
use assurectl.Evaluation.Waivers.{
  apply, scope_matches, classify_timing, classify_target, classify_waiver, index_of,
}

-- The record names the resolved repository and the contract's work unit, and names no head
-- revision or the resolved one.
pub record InScope (entry : Waiver.Record) (input : Input) : Type 0 where
  pub repository : entry.scope.repository_uri ≡ input.subject.repository_uri
  pub head :
      ((entry.scope.head_revision == "") ≡ true)
      ⊎ (entry.scope.head_revision ≡ input.subject.head_revision)
  pub work_unit : entry.scope.work_unit_id ≡ input.contract.contract.work_unit.id

-- The instants of the record parse, it was issued by the evaluation instant, and it expires later.
pub record InForce (go : Platform) (entry : Waiver.Record) (evaluated_at : ℕ) : Type 0 where
  pub issued : ℕ
  pub expires : ℕ
  pub issued_parses : go.parse_time entry.issued_at ≡ some issued
  pub expires_parses : go.parse_time entry.expires_at ≡ some expires
  pub issued_by : issued ≤ evaluated_at
  pub expires_later : evaluated_at < expires

-- The result is an established failure that may be waived.
pub record Waivable (r : RequirementResult) : Type 0 where
  pub state : r.evidence_state ≡ EvidenceState.valid
  pub outcome : r.outcome ≡ ObservedOutcome.failed
  pub waivable : r.waivable ≡ true

scope_matches_sound :
    (entry : Waiver.Record) (input : Input) → scope_matches entry input ≡ true → InScope entry input
unfolding scope_matches
scope_matches_sound entry input h = ground (
  arith,
  eq_iff entry.scope.repository_uri input.subject.repository_uri,
  eq_iff entry.scope.head_revision input.subject.head_revision,
  eq_iff entry.scope.work_unit_id input.contract.contract.work_unit.id,
)

scope_matches_complete :
    (entry : Waiver.Record) (input : Input) → InScope entry input → scope_matches entry input ≡ true
unfolding scope_matches
scope_matches_complete entry input s = ground (
  arith,
  eq_iff entry.scope.repository_uri input.subject.repository_uri,
  eq_iff entry.scope.head_revision input.subject.head_revision,
  eq_iff entry.scope.work_unit_id input.contract.contract.work_unit.id,
)

module _ (go : Platform) (entry : Waiver.Record) (result : RequirementResult) where
  timing_sound :
      (evaluated_at : ℕ)
      → classify_timing go entry result evaluated_at ≡ apply
      → InForce go entry evaluated_at × (is_waiver_valid result.waiver_status ≡ false)
  unfolding classify_timing
  timing_sound t h = elim (Option-cases (go.parse_time entry.issued_at)) [
    | inl failed ↦ absurd (ground arith)
    | inr (issued, parsed) ↦ elim (Option-cases (go.parse_time entry.expires_at)) [
      | inl failed ↦ absurd (ground arith)
      | inr (expires, parsed') ↦ (
        record {
          issued = issued;
          expires = expires;
          issued_parses = parsed;
          expires_parses = parsed';
          issued_by = ground arith;
          expires_later = ground arith;
        },
        ground arith,
      )
    ]
  ]

  timing_complete :
      (evaluated_at : ℕ)
      → InForce go entry evaluated_at
      → is_waiver_valid result.waiver_status ≡ false
      → classify_timing go entry result evaluated_at ≡ apply
  unfolding classify_timing
  timing_complete t f fresh = ground (arith, f.issued_parses, f.expires_parses)

  target_sound :
      (input : Input)
      → classify_target go entry result input ≡ apply
      → Waivable result
        × InScope entry input
        × InForce go entry input.evaluated_at
        × (is_waiver_valid result.waiver_status ≡ false)
  unfolding classify_target
  target_sound input h =
      let timing = timing_sound input.evaluated_at (ground arith) in
      (ground arith, scope_matches_sound entry input (ground arith), timing.0, timing.1)

  target_complete :
      (input : Input)
      → Waivable result
      → InScope entry input
      → InForce go entry input.evaluated_at
      → is_waiver_valid result.waiver_status ≡ false
      → classify_target go entry result input ≡ apply
  unfolding classify_target
  target_complete input w s f fresh =
      ground
        (arith, scope_matches_complete entry input s, timing_complete input.evaluated_at f fresh)

  -- Against one result, a record applies exactly when the result is an established waivable
  -- failure that no earlier record waived, the record is in scope, it was issued by the evaluation
  -- instant, and it expires after that.
  pub classify_target_lem :
      (input : Input)
      → (classify_target go entry result input ≡ apply) ↔ (
          Waivable result
          × InScope entry input
          × InForce go entry input.evaluated_at
          × (is_waiver_valid result.waiver_status ≡ false))
  classify_target_lem input = (target_sound input, λ h. target_complete input h.0 h.1 h.2 h.3)

-- The map from identifiers to positions leads to a result of the identifier.
pub index_of_sound :
    (rs : List RequirementResult) (id : String) (p : ℕ)
    → index_of rs id ≡ some p
    → (r : RequirementResult) × (get_elem? rs p ≡ some r) × (r.requirement_id ≡ id)
unfolding index_of
index_of_sound [] id p h = absurd (ground arith)
index_of_sound (r ∷ rs) id p h = elim (Option-cases (index_of rs id)) [
  | inr (q, e) ↦
      let (found, at, named) = index_of_sound rs id q e in
      let here : p ≡ suc q = ground arith in (found, rw here at, named)
  | inl absent ↦
      let here : (p ≡ 0) × ((r.requirement_id == id) ≡ true) = ground arith in
      (r, rw here.0 refl, (eq_iff r.requirement_id id).0 here.1)
]

-- What `classifyWaiver` lets apply: its target stands at the position, and the record applies to it.
pub classify_waiver_sound :
    (go : Platform) (entry : Waiver.Record) (rs : List RequirementResult) (p : Option ℕ)
    (input : Input)
    → classify_waiver go entry rs p input ≡ apply
    → (position : ℕ) × (result : RequirementResult) × (p ≡ some position)
      × (get_elem? rs position ≡ some result)
      × (classify_target go entry result input ≡ apply)
unfolding classify_waiver
classify_waiver_sound go entry rs none input h = absurd (cc)
classify_waiver_sound go entry rs (some position) input h =
    elim (Option-cases (get_elem? rs position)) [
      | inl outside ↦ absurd (ground arith)
      | inr (result, e) ↦ (position, result, refl, e, ground arith)
    ]
