-- ===== src/Evaluation/Waivers/Frame.antt =====
-- internal/evaluation/waiver.go: what `applyWaivers` leaves as it was.
use mathlib.Core.List.{append_assoc, append-nil, map-append}
use assurectl.Prelude.{
  ℕ, zero, suc, String, ◌≡◌, refl, sym, ◌∙◌, ap, Option, none, some, List, [], ◌∷◌, ◌++◌, map,
}
use assurectl.Platform.{Platform}
use assurectl.Domain.{WaiverStatus, RequirementResult}
use assurectl.Waiver
use assurectl.Evaluation.Input.{Input}
use assurectl.Evaluation.Waivers.{
  WaiverResolution, apply, Applied, mark_waived, mark_resolution, apply_waiver, apply_each,
  apply_waivers,
}

-- A requirement result less its waiver status.
abbrev pub bare : RequirementResult → RequirementResult
bare r = record r { waiver_status = WaiverStatus.not_applicable }

-- A record less its status.
abbrev pub unresolved : Waiver.Record → Waiver.Record
unresolved entry = record entry { status = WaiverStatus.invalid }

bare-mark_waived : (p : ℕ) (rs : List RequirementResult) → map bare (mark_waived p rs) ≡ map bare rs
bare-mark_waived zero [] = refl
bare-mark_waived (suc p) [] = refl
bare-mark_waived zero (r ∷ rs) = refl
bare-mark_waived (suc p) (r ∷ rs) = ap (λ t. bare r ∷ t) (bare-mark_waived p rs)

pub bare-mark_resolution :
    (resolution : WaiverResolution) (p : Option ℕ) (rs : List RequirementResult)
    → map bare (mark_resolution resolution p rs) ≡ map bare rs
unfolding mark_resolution
bare-mark_resolution apply (some p) rs = bare-mark_waived p rs
bare-mark_resolution apply none rs = refl
bare-mark_resolution _ p rs = refl

module _ (go : Platform) (input : Input) (index : String → Option ℕ) where
  bare-apply_each :
      (entries : List Waiver.Record) (s : Applied)
      → map bare (apply_each go input index entries s).results ≡ map bare s.results
  unfolding apply_each apply_waiver
  bare-apply_each [] s = refl
  bare-apply_each (entry ∷ entries) s =
      bare-apply_each entries (apply_waiver go input index entry s)
      ∙ bare-mark_resolution _ (index entry.target.id) s.results

  unresolved-apply_each :
      (entries : List Waiver.Record) (s : Applied)
      → map unresolved (apply_each go input index entries s).resolved
        ≡ map unresolved s.resolved ++ map unresolved entries
  unfolding apply_each apply_waiver
  unresolved-apply_each [] s = sym (append-nil (map unresolved s.resolved))
  unresolved-apply_each (entry ∷ entries) s =
      unresolved-apply_each entries (apply_waiver go input index entry s)
      ∙ (ap (λ t. t ++ map unresolved entries)
            (map-append unresolved s.resolved (record entry { status = _ } ∷ []))
          ∙ append_assoc (map unresolved s.resolved) (unresolved entry ∷ [])
              (map unresolved entries))

-- `applyWaivers` changes nothing of the requirement results but their waiver status, and every
-- record comes back, in order, with nothing changed but its status.
pub apply_waivers_frame :
    (go : Platform) (requirements : List RequirementResult) (waivers : List Waiver.Record)
    (input : Input)
    → (map bare (apply_waivers go requirements waivers input).results ≡ map bare requirements)
      × (map unresolved (apply_waivers go requirements waivers input).resolved
          ≡ map unresolved waivers)
unfolding apply_waivers
apply_waivers_frame go requirements waivers input =
    (bare-apply_each go input _ waivers _, unresolved-apply_each go input _ waivers _)
