-- ===== src/Decision/Order.antt =====
-- internal/decision/evaluate.go: the result does not depend on the order of its inputs, and a
-- finding that does not block changes nothing.
use mathlib.Core.List.{Perm, Permᴰ}
use mathlib.Core.Logic.{∥∥₁_elim}
use assurectl.Prelude.{
  String, String_set, Bool, false, ◌≡◌, refl, sym, ◌∙◌, ap, subst, none, Option, List, [], ◌∷◌,
  ◌++◌, All, any, Distinct, contains, eq_sym, arith, any-append, All-append, ◌==◌,
}
use assurectl.Domain.{RequirementResult, EvaluationResult, Finding}
use assurectl.Decision.{DecisionError, every_failure_is_waived, conclude, evaluate}
use assurectl.Decision.Valid.{ValidRequirement, ValidFinding}
use assurectl.Decision.Outcomes.{is_blocking}
use assurectl.Decision.Table.{
  WellFormed, is_failure, is_undetermined, requirement_ids, evaluate-WellFormed, evaluate_accepts,
}

module _ {ℓ κ} {A : Type ℓ} (P : A → Type κ) where
  All-perm : {xs ys : List A} → Permᴰ xs ys → All P xs → All P ys
  All-perm Permᴰ.nil h = h
  All-perm (Permᴰ.cons e p) h = (subst P e h.0, All-perm p h.1)
  All-perm (Permᴰ.swap e d) h = (subst P d h.1.0, (subst P e h.0, h.1.1))
  All-perm (Permᴰ.trans p q) h = All-perm q (All-perm p h)

module _ {ℓ} {A : Type ℓ} (p : A → Bool) where
  any-perm : {xs ys : List A} → Permᴰ xs ys → any p xs ≡ any p ys
  any-perm Permᴰ.nil = refl
  any-perm (Permᴰ.cons e q) = ground (arith, ap p e, any-perm q)
  any-perm (Permᴰ.swap e d) = ground (arith, ap p e, ap p d)
  any-perm (Permᴰ.trans q r) = any-perm q ∙ any-perm r

contains-perm :
    (id : String) {rs qs : List RequirementResult}
    → Permᴰ rs qs
    → contains (requirement_ids rs) id ≡ contains (requirement_ids qs) id
contains-perm id Permᴰ.nil = refl
contains-perm id (Permᴰ.cons e q) =
    ground (arith, ap (λ r. r.requirement_id == id) e, contains-perm id q)
contains-perm id (Permᴰ.swap e d) =
    ground (arith, ap (λ r. r.requirement_id == id) e, ap (λ r. r.requirement_id == id) d)
contains-perm id (Permᴰ.trans q r) = contains-perm id q ∙ contains-perm id r

Distinct-perm :
    {rs qs : List RequirementResult}
    → Permᴰ rs qs
    → Distinct (requirement_ids rs)
    → Distinct (requirement_ids qs)
Distinct-perm Permᴰ.nil h = h
Distinct-perm (Permᴰ.cons {a = r} e q) h =
    rw (← e) (sym (contains-perm r.requirement_id q) ∙ h.0, Distinct-perm q h.1)
Distinct-perm (Permᴰ.swap {a = r} {b = q} e d) h =
    rw (← e, ← d) (ground (arith, eq_sym q.requirement_id r.requirement_id))
Distinct-perm (Permᴰ.trans q r) h = Distinct-perm r (Distinct-perm q h)

every_failure_is_waived-perm :
    {rs qs : List RequirementResult}
    → Permᴰ rs qs
    → every_failure_is_waived rs ≡ every_failure_is_waived qs
unfolding every_failure_is_waived
every_failure_is_waived-perm Permᴰ.nil = refl
every_failure_is_waived-perm (Permᴰ.cons e q) =
    rw (← e) (ground (arith, every_failure_is_waived-perm q))
every_failure_is_waived-perm (Permᴰ.swap e d) = rw (← e, ← d) (ground arith)
every_failure_is_waived-perm (Permᴰ.trans q r) =
    every_failure_is_waived-perm q ∙ every_failure_is_waived-perm r

conclude-perm :
    {rs qs : List RequirementResult} (flags : Bool × Bool) (blocking : Bool)
    → Permᴰ rs qs
    → conclude rs flags blocking ≡ conclude qs flags blocking
unfolding conclude
conclude-perm flags b Permᴰ.nil = refl
conclude-perm flags b (Permᴰ.cons e q) = rw (every_failure_is_waived-perm (Permᴰ.cons e q))
conclude-perm flags b (Permᴰ.swap {l = l} e d) =
    rw (every_failure_is_waived-perm (Permᴰ.swap {l = l} e d))
conclude-perm flags b (Permᴰ.trans q r) = conclude-perm flags b q ∙ conclude-perm flags b r

WellFormed-perm :
    {rs qs : List RequirementResult} {fs gs : List Finding}
    → Permᴰ rs qs
    → Permᴰ fs gs
    → WellFormed rs fs
    → WellFormed qs gs
WellFormed-perm p q w = record {
  requirements_valid = All-perm ValidRequirement p w.requirements_valid;
  requirements_distinct = Distinct-perm p w.requirements_distinct;
  findings_valid = All-perm ValidFinding q w.findings_valid;
}

evaluate-permᴰ :
    {rs qs : List RequirementResult} {fs gs : List Finding}
    → WellFormed rs fs
    → Permᴰ rs qs
    → Permᴰ fs gs
    → evaluate qs gs ≡ evaluate rs fs
evaluate-permᴰ {rs} {qs} {fs} {gs} w p q =
    evaluate-WellFormed qs gs (WellFormed-perm p q w)
    ∙ rw
        (
          ← any-perm is_failure p,
          ← any-perm is_undetermined p,
          ← any-perm (λ (f : Finding). f.blocking) q,
        )
        (ap (λ r. (r, none))
            (sym (conclude-perm (any is_failure rs, any is_undetermined rs) (is_blocking fs) p))
          ∙ sym (evaluate-WellFormed rs fs w))

result_set : IsSet (EvaluationResult × Option DecisionError)
result_set = hlevel String_set

-- When `Evaluate` returns no error, reordering the requirement results and the findings in any way
-- changes neither that nor the result.
pub evaluate-perm :
    (rs qs : List RequirementResult) (fs gs : List Finding)
    → (evaluate rs fs).1 ≡ none
    → Perm rs qs
    → Perm fs gs
    → evaluate qs gs ≡ evaluate rs fs
evaluate-perm rs qs fs gs h p q =
    let w = (evaluate_accepts rs fs).0 h in
    ∥∥₁_elim p (result_set _ _) λ p'. ∥∥₁_elim q (result_set _ _) λ q'. evaluate-permᴰ w p' q'

any_none : (fs : List Finding) → All (λ f. f.blocking ≡ false) fs → is_blocking fs ≡ false
any_none [] h = refl
any_none (f ∷ fs) (e, h) = ground (arith, any_none fs h)

-- Valid findings that do not block, put behind the others, change nothing in what `Evaluate`
-- returns without error.
pub evaluate-append_quiet :
    (rs : List RequirementResult) (fs gs : List Finding)
    → (evaluate rs fs).1 ≡ none
    → All ValidFinding gs
    → All (λ g. g.blocking ≡ false) gs
    → evaluate rs (fs ++ gs) ≡ evaluate rs fs
evaluate-append_quiet rs fs gs h valid quiet =
    let w = (evaluate_accepts rs fs).0 h in
    let w' : WellFormed rs (fs ++ gs) = record {
      requirements_valid = w.requirements_valid;
      requirements_distinct = w.requirements_distinct;
      findings_valid = All-append ValidFinding fs gs w.findings_valid valid;
    } in
    let same : is_blocking (fs ++ gs) ≡ is_blocking fs =
      ground (arith, any-append (λ (f : Finding). f.blocking) fs gs, any_none gs quiet) in
    evaluate-WellFormed rs (fs ++ gs) w' ∙ rw same (sym (evaluate-WellFormed rs fs w))
