-- ===== src/Evaluation/Waivers/Valid.antt =====
-- internal/evaluation/waiver.go: what `applyWaivers` returns is valid for the kernel.
use assurectl.Prelude.{
  ℕ, String, true, false, ◌<>◌, ◌==◌, ◌≡◌, refl, inr, List, [], ◌∷◌, All, All-append,
  nonempty-append, Option,
}
use assurectl.Platform.{Platform}
use assurectl.Domain.{
  RequirementResult, Finding, FindingSeverity, category_valid, severity_valid, waiver_status_valid,
}
use assurectl.Decision.Valid.{Canonical, ValidRequirement, ValidFinding}
use assurectl.Waiver
use assurectl.Evaluation.Input.{Input}
use assurectl.Evaluation.Waivers.{
  WaiverResolution, apply, superseded, reject_target, reject_scope, reject_expired, reject_timing,
  Applied, waiver_finding, rejection_code, resolution_finding, apply_waiver, apply_each,
  apply_waivers,
}
use assurectl.Evaluation.Waivers.Classify.{Waivable, classify_target_lem}
use assurectl.Evaluation.Waivers.Justified.{Keeps, All-apply_waivers, waived}

-- What the waiver loader makes sure of.
abbrev pub IngestedWaiver : Waiver.Record → Type 0
IngestedWaiver entry = Canonical entry.target.id

-- A finding that the kernel accepts and that does not block.
abbrev pub Harmless : Finding → Type 0
Harmless f = ValidFinding f × (f.blocking ≡ false)

module _ (go : Platform) where
  waiver_finding-Harmless :
      (code id : String) (severity : FindingSeverity) (message : String)
      → (code == "") ≡ false
      → (message == "") ≡ false
      → severity_valid severity ≡ true
      → Canonical id
      → Harmless (waiver_finding code id severity message)
  unfolding waiver_finding category_valid
  waiver_finding-Harmless code id severity message given said fine c = (
    record {
      code_given = given;
      category_supported = refl;
      severity_supported = fine;
      requirement_canonical = inr c;
      ids_canonical = tt;
      ids_distinct = tt;
      message_given = said;
    },
    refl,
  )

  said : (s t : String) → ((("waiver " <> s) <> t) == "") ≡ false
  said s t = nonempty-append ("waiver " <> s) t (nonempty-append "waiver " s refl)

  resolution_finding-Harmless :
      (resolution : WaiverResolution) (entry : Waiver.Record)
      → IngestedWaiver entry
      → Harmless (resolution_finding go resolution entry)
  unfolding resolution_finding rejection_code severity_valid
  resolution_finding-Harmless apply entry c =
      waiver_finding-Harmless _ _ _ _ refl (nonempty-append "waiver " _ refl) refl c
  resolution_finding-Harmless superseded entry c =
      waiver_finding-Harmless _ _ _ _ refl (nonempty-append "waiver " _ refl) refl c
  resolution_finding-Harmless reject_target entry c =
      waiver_finding-Harmless _ _ _ _ refl (said _ _) refl c
  resolution_finding-Harmless reject_scope entry c =
      waiver_finding-Harmless _ _ _ _ refl (said _ _) refl c
  resolution_finding-Harmless reject_expired entry c =
      waiver_finding-Harmless _ _ _ _ refl (said _ _) refl c
  resolution_finding-Harmless reject_timing entry c =
      waiver_finding-Harmless _ _ _ _ refl (said _ _) refl c

  apply_each-Harmless :
      (input : Input) (index : String → Option ℕ) (entries : List Waiver.Record) (s : Applied)
      → All IngestedWaiver entries
      → All Harmless s.findings
      → All Harmless (apply_each go input index entries s).findings
  unfolding apply_each apply_waiver
  apply_each-Harmless input index [] s i h = h
  apply_each-Harmless input index (entry ∷ entries) s (i, is) h =
      apply_each-Harmless input index entries (apply_waiver go input index entry s) is (
        All-append Harmless s.findings (resolution_finding go _ entry ∷ []) h
          (resolution_finding-Harmless _ entry i, tt))

  -- The findings of `applyWaivers` are valid and none of them blocks.
  pub apply_waivers-Harmless :
      (input : Input) (requirements : List RequirementResult) (waivers : List Waiver.Record)
      → All IngestedWaiver waivers
      → All Harmless (apply_waivers go requirements waivers input).findings
  unfolding apply_waivers
  apply_waivers-Harmless input requirements waivers i = apply_each-Harmless input _ waivers _ i tt

  waived-valid :
      (r : RequirementResult) → Waivable r → ValidRequirement r → ValidRequirement (waived r)
  unfolding waiver_status_valid
  waived-valid r w v = record {
    id_canonical = v.id_canonical;
    state_supported = v.state_supported;
    evidence_referenced = v.evidence_referenced;
    ids_canonical = v.ids_canonical;
    ids_distinct = v.ids_distinct;
    status = record {
      outcome_supported = v.status.outcome_supported;
      outcome_established = v.status.outcome_established;
      waiver_supported = refl;
      waiver_permitted = λ e. (w.waivable, w.state, w.outcome);
    };
  }

  waived-valid_each :
      (input : Input) (requirements : List RequirementResult) (waivers : List Waiver.Record)
      → All (Keeps go input requirements ValidRequirement) waivers
  waived-valid_each input requirements [] = tt
  waived-valid_each input requirements (entry ∷ entries) = (
    λ r applies v. waived-valid r ((classify_target_lem go entry r input).0 applies.1).0 v,
    waived-valid_each input requirements entries,
  )

  -- `applyWaivers` keeps requirement results valid.
  pub apply_waivers-valid :
      (input : Input) (requirements : List RequirementResult) (waivers : List Waiver.Record)
      → All ValidRequirement requirements
      → All ValidRequirement (apply_waivers go requirements waivers input).results
  apply_waivers-valid input requirements waivers v =
      All-apply_waivers go input requirements ValidRequirement waivers
        (waived-valid_each input requirements waivers) v
