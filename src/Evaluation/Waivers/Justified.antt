-- ===== src/Evaluation/Waivers/Justified.antt =====
-- internal/evaluation/waiver.go: a waiver status VALID has a record that justifies it.
use assurectl.Prelude.{
  ℕ, zero, suc, String, false, ◌≡◌, refl, ◌∙◌, subst, ◌⊎◌, inl, inr, Option, some, List, [], ◌∷◌,
  map, get_elem?, All, Exists, arith,
}
use assurectl.Platform.{Platform}
use assurectl.Domain.{WaiverStatus, RequirementResult, is_waiver_valid}
use assurectl.Waiver
use assurectl.Evaluation.Input.{Input}
use assurectl.Evaluation.Waivers.{
  WaiverResolution, apply, Applied, index_of, mark_waived, mark_resolution, classify_target,
  classify_waiver, apply_waiver, apply_each, apply_waivers,
}
use assurectl.Evaluation.Waivers.Classify.{
  InScope, InForce, Waivable, classify_target_lem, index_of_sound, classify_waiver_sound,
}
use assurectl.Evaluation.Waivers.Frame.{bare, bare-mark_resolution}

abbrev pub waived : RequirementResult → RequirementResult
waived r = record r { waiver_status = WaiverStatus.valid }

All-mark_waived {κ} :
    (P : RequirementResult → Type κ) (p : ℕ) (rs : List RequirementResult)
    → All P rs
    → ((r : RequirementResult) → get_elem? rs p ≡ some r → P r → P (waived r))
    → All P (mark_waived p rs)
All-mark_waived P zero [] h step = tt
All-mark_waived P (suc p) [] h step = tt
All-mark_waived P zero (r ∷ rs) (h, hs) step = (step r refl h, hs)
All-mark_waived P (suc p) (r ∷ rs) (h, hs) step = (h, All-mark_waived P p rs hs step)

-- Lists that are equal but for the waiver status have the same identifiers at the same places.
same_id :
    (xs ys : List RequirementResult) (p : ℕ) {x y : RequirementResult}
    → map bare xs ≡ map bare ys
    → get_elem? xs p ≡ some x
    → get_elem? ys p ≡ some y
    → x.requirement_id ≡ y.requirement_id
same_id [] ys p e h k = absurd (cc)
same_id (x ∷ xs) [] p e h k = absurd (cc)
same_id (x ∷ xs) (y ∷ ys) zero e h k = ground arith
same_id (x ∷ xs) (y ∷ ys) (suc p) e h k = same_id xs ys p (ground arith) h k

-- What one record may do to one result.
abbrev pub Applies : Platform → Input → RequirementResult → Waiver.Record → Type 0
Applies go input r entry =
    (r.requirement_id ≡ entry.target.id) × (classify_target go entry r input ≡ apply)

module _ (go : Platform) (input : Input) (requirements : List RequirementResult) where
  abbrev index : String → Option ℕ
  index = index_of requirements

  module _ {κ} (P : RequirementResult → Type κ) where
    -- `P` survives every application of the record
    abbrev pub Keeps : Waiver.Record → Type κ
    Keeps entry = (r : RequirementResult) → Applies go input r entry → P r → P (waived r)

    All-mark_resolution :
        (entry : Waiver.Record) (rs : List RequirementResult) (resolution : WaiverResolution)
        → map bare rs ≡ map bare requirements
        → Keeps entry
        → All P rs
        → classify_waiver go entry rs (index entry.target.id) input ≡ resolution
        → All P (mark_resolution resolution (index entry.target.id) rs)
    unfolding mark_resolution
    All-mark_resolution entry rs apply same keeps h e =
        let (p, result, at, found, applies) =
          classify_waiver_sound go entry rs (index entry.target.id) input e in
        rw at (
          All-mark_waived P p rs h λ r here.
            let (r', there, named) = index_of_sound requirements entry.target.id p at in
            let one : result ≡ r = ground arith in
            keeps r (
              same_id rs requirements p same here there ∙ named,
              subst (λ x. classify_target go entry x input ≡ apply) one applies,
            ))
    All-mark_resolution entry rs _ same keeps h e = h

    All-apply_each :
        (entries : List Waiver.Record) (s : Applied)
        → map bare s.results ≡ map bare requirements
        → All Keeps entries
        → All P s.results
        → All P (apply_each go input index entries s).results
    unfolding apply_each apply_waiver
    All-apply_each [] s same keeps h = h
    All-apply_each (entry ∷ entries) s same (keep, keeps) h =
        All-apply_each entries (apply_waiver go input index entry s)
          (bare-mark_resolution _ (index entry.target.id) s.results ∙ same) keeps
          (All-mark_resolution entry s.results _ same keep h refl)

    -- A property of the results that every application keeps holds behind `applyWaivers`.
    pub All-apply_waivers :
        (waivers : List Waiver.Record)
        → All Keeps waivers
        → All P requirements
        → All P (apply_waivers go requirements waivers input).results
    unfolding apply_waivers
    All-apply_waivers waivers keeps h =
        All-apply_each waivers (record { results = requirements; resolved = []; findings = [] })
          refl keeps h

-- The record names the result's requirement, and the result is an established waivable failure;
-- the record is in scope and in force.
pub record Justifies (go : Platform) (input : Input) (r : RequirementResult) (entry : Waiver.Record)
    : Type 0 where
  pub target : r.requirement_id ≡ entry.target.id
  pub waivable : Waivable r
  pub in_scope : InScope entry input
  pub in_force : InForce go entry input.evaluated_at

-- The result is not waived, or some record of the list justifies its waiver.
abbrev pub Justified : Platform → Input → List Waiver.Record → RequirementResult → Type 0
Justified go input waivers r =
    (is_waiver_valid r.waiver_status ≡ false) ⊎ Exists (Justifies go input r) waivers

module _ (go : Platform) (input : Input) where
  Justifies-of_Applies :
      (r : RequirementResult) (entry : Waiver.Record)
      → Applies go input r entry
      → Justifies go input (waived r) entry
  Justifies-of_Applies r entry (named, applies) =
      let (able, scope, force, _) = (classify_target_lem go entry r input).0 applies in
      record {
        target = named;
        waivable = record { state = able.state; outcome = able.outcome; waivable = able.waivable };
        in_scope = scope;
        in_force = force;
      }

  -- Each record, where it applies, justifies the waiver by itself: as one of `whole`.
  Keeps-each :
      (whole entries : List Waiver.Record)
      → ((r : RequirementResult)
          → Exists (Justifies go input r) entries
          → Exists (Justifies go input r) whole)
      → All (Keeps go input [] (Justified go input whole)) entries
  Keeps-each whole [] lift = tt
  Keeps-each whole (entry ∷ entries) lift = (
    λ r applies h. inr (lift (waived r) (inl (Justifies-of_Applies r entry applies))),
    Keeps-each whole entries (λ r h. lift r (inr h)),
  )

  unwaived-All :
      (waivers : List Waiver.Record) (rs : List RequirementResult)
      → All (λ r. is_waiver_valid r.waiver_status ≡ false) rs
      → All (Justified go input waivers) rs
  unwaived-All waivers [] h = tt
  unwaived-All waivers (r ∷ rs) (h, hs) = (inl h, unwaived-All waivers rs hs)

  -- If no result is waived at first, every result that `applyWaivers` returns as waived is an
  -- established waivable failure, and one of the records names it, is in scope and is in force.
  pub apply_waivers-Justified :
      (requirements : List RequirementResult) (waivers : List Waiver.Record)
      → All (λ r. is_waiver_valid r.waiver_status ≡ false) requirements
      → All (Justified go input waivers) (apply_waivers go requirements waivers input).results
  apply_waivers-Justified requirements waivers fresh =
      All-apply_waivers go input requirements (Justified go input waivers) waivers
        (Keeps-each waivers waivers (λ r h. h)) (unwaived-All waivers requirements fresh)
