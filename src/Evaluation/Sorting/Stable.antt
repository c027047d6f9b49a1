-- ===== src/Evaluation/Sorting/Stable.antt =====
-- internal/evaluation/evaluate.go: `sortFindings` is a stable sort of its input.
use mathlib.Core.List.{Perm}
use mathlib.Core.List.Perm
use assurectl.Prelude.{
  any, join, ap, subst, String, Bool, true, false, not, ◌&&◌, ◌==◌, eq_iff, eq_sym, ◌≡◌, refl, ◌∙◌,
  ◌⊎◌, inl, inr, List, [], ◌∷◌, All, select, Bool-cases, arith, if◌then◌else◌,
}
use assurectl.Domain.{Finding}
use assurectl.Evaluation.Sorting.{
  text_less, insert, sort_stable, join_evidence_ids, finding_less, sort_findings,
}
use assurectl.Evaluation.Sorting.Order.{
  text_less_irrefl, text_less-total, text_less-asym, text_le_trans,
}

-- No element is above one that follows it.
abbrev pub Ordered {ℓ} : {A : Type ℓ} → (A → A → Bool) → List A → Type 0
Ordered less [] = Unit
Ordered less (x ∷ xs) = All (λ y. less y x ≡ false) xs × Ordered less xs

module _ {ℓ} {A : Type ℓ} (less : A → A → Bool) where
  insert-perm : (x : A) (ys : List A) → Perm (insert less x ys) (x ∷ ys)
  unfolding insert
  insert-perm x [] = Perm.refl (x ∷ [])
  insert-perm x (y ∷ ys) = elim (Bool-cases (less y x)) [
    | inl e ↦ rw e (Perm.trans (Perm.cons y (insert-perm x ys)) (Perm.swap x y ys))
    | inr e ↦ rw e (Perm.refl (x ∷ (y ∷ ys)))
  ]

  pub sort_stable-perm : (xs : List A) → Perm (sort_stable less xs) xs
  unfolding sort_stable
  sort_stable-perm [] = Perm.refl []
  sort_stable-perm (x ∷ xs) =
      Perm.trans (insert-perm x (sort_stable less xs)) (Perm.cons x (sort_stable-perm xs))

  pub All-insert {κ} :
      (P : A → Type κ) (x : A) (ys : List A) → P x → All P ys → All P (insert less x ys)
  unfolding insert
  All-insert P x [] p h = (p, tt)
  All-insert P x (y ∷ ys) p (q, h) = elim (Bool-cases (less y x)) [
    | inl e ↦ rw e (q, All-insert P x ys p h)
    | inr e ↦ rw e (p, (q, h))
  ]

  pub All-sort_stable {κ} : (P : A → Type κ) (xs : List A) → All P xs → All P (sort_stable less xs)
  unfolding sort_stable
  All-sort_stable P [] h = tt
  All-sort_stable P (x ∷ xs) (p, h) =
      All-insert P x (sort_stable less xs) p (All-sort_stable P xs h)

-- Sorting keeps what some element has.
module _ {ℓ} {A : Type ℓ} (less : A → A → Bool) (p : A → Bool) where
  any-insert : (x : A) (ys : List A) → any p (insert less x ys) ≡ any p (x ∷ ys)
  unfolding insert
  any-insert x [] = refl
  any-insert x (y ∷ ys) = elim (Bool-cases (less y x)) [
    | inl e ↦ rw e (ground (arith, any-insert x ys))
    | inr e ↦ rw e refl
  ]

  pub any-sort_stable : (xs : List A) → any p (sort_stable less xs) ≡ any p xs
  unfolding sort_stable
  any-sort_stable [] = refl
  any-sort_stable (x ∷ xs) = ground (arith, any-insert x (sort_stable less xs), any-sort_stable xs)

-- the laws of a strict weak order
module _ {ℓ} {A : Type ℓ} (less : A → A → Bool)
    (asym : (a b : A) → less a b ≡ true → less b a ≡ false)
    (le_trans : (a b c : A) → less b a ≡ false → less c b ≡ false → less c a ≡ false) where
  none_below :
      (x y : A) (ys : List A)
      → less y x ≡ false
      → All (λ z. less z y ≡ false) ys
      → All (λ z. less z x ≡ false) ys
  none_below x y [] h k = tt
  none_below x y (z ∷ zs) h (k, ks) = (le_trans x y z h k, none_below x y zs h ks)

  Ordered-insert : (x : A) (ys : List A) → Ordered less ys → Ordered less (insert less x ys)
  unfolding insert
  Ordered-insert x [] w = (tt, tt)
  Ordered-insert x (y ∷ ys) (h, w) = elim (Bool-cases (less y x)) [
    | inl e ↦
        rw e (All-insert less (λ z. less z y ≡ false) x ys (asym y x e) h, Ordered-insert x ys w)
    | inr e ↦ rw e ((e, none_below x y ys e h), (h, w))
  ]

  pub Ordered-sort_stable : (xs : List A) → Ordered less (sort_stable less xs)
  unfolding sort_stable
  Ordered-sort_stable [] = tt
  Ordered-sort_stable (x ∷ xs) = Ordered-insert x (sort_stable less xs) (Ordered-sort_stable xs)

  -- Neither is before the other.
  abbrev alike : A → A → Bool
  alike a x = not (less a x) && not (less x a)

  select-insert :
      (a x : A) (ys : List A) → select (alike a) (insert less x ys) ≡ select (alike a) (x ∷ ys)
  unfolding insert
  select-insert a x [] = refl
  select-insert a x (y ∷ ys) = elim (Bool-cases (less y x)) [
    | inl e ↦ rw e (ground (arith, select-insert a x ys, le_trans x a y))
    | inr e ↦ rw e
  ]

  select-sort_stable :
      (a : A) (xs : List A) → select (alike a) (sort_stable less xs) ≡ select (alike a) xs
  unfolding sort_stable
  select-sort_stable a [] = refl
  select-sort_stable a (x ∷ xs) =
      select-insert a x (sort_stable less xs) ∙ ground (arith, select-sort_stable a xs)

-- One key of a lexicographic comparison, in front of the answer of the later keys.
abbrev by_key : String → String → Bool → Bool
by_key s t rest = if not (s == t) then text_less s t else rest

by_key-asym :
    (s t : String) (up down : Bool)
    → (up ≡ true → down ≡ false)
    → by_key s t up ≡ true
    → by_key t s down ≡ false
by_key-asym s t up down rest h = ground (arith, eq_sym s t, text_less-asym s t, rest)

by_key_trans :
    (s t u : String) (ts ut us : Bool)
    → (ts ≡ false → ut ≡ false → us ≡ false)
    → by_key t s ts ≡ false
    → by_key u t ut ≡ false
    → by_key u s us ≡ false
by_key_trans s t u ts ut us rest h k = ground (
  arith,
  eq_iff t s,
  eq_iff u t,
  eq_iff u s,
  text_less_irrefl s,
  text_less-total t s,
  text_le_trans s t u,
  rest,
)

abbrev ids_text : Finding → String
ids_text f = join_evidence_ids f.evidence_ids

finding_less-asym : (a b : Finding) → finding_less a b ≡ true → finding_less b a ≡ false
unfolding finding_less
finding_less-asym a b = by_key-asym a.code b.code _ _ (
    by_key-asym a.requirement_id b.requirement_id (text_less (ids_text a) (ids_text b))
      (text_less (ids_text b) (ids_text a)) (text_less-asym (ids_text a) (ids_text b)))

finding_less_trans :
    (a b c : Finding)
    → finding_less b a ≡ false
    → finding_less c b ≡ false
    → finding_less c a ≡ false
unfolding finding_less
finding_less_trans a b c = by_key_trans a.code b.code c.code _ _ _ (
    by_key_trans a.requirement_id b.requirement_id c.requirement_id
      (text_less (ids_text b) (ids_text a)) (text_less (ids_text c) (ids_text b))
      (text_less (ids_text c) (ids_text a)) (text_le_trans (ids_text a) (ids_text b) (ids_text c)))

-- The order by code, then by requirement, then by the evidence identifiers joined by commas.
abbrev pub InOrder : Finding → Finding → Type 0
InOrder a b =
    (text_less a.code b.code ≡ true)
    ⊎ ((a.code ≡ b.code)
        × ((text_less a.requirement_id b.requirement_id ≡ true)
            ⊎ ((a.requirement_id ≡ b.requirement_id)
                × (text_less (join "," b.evidence_ids) (join "," a.evidence_ids) ≡ false))))

-- Every finding is in order with each one behind it.
abbrev pub Sorted : List Finding → Type 0
Sorted [] = Unit
Sorted (f ∷ fs) = All (InOrder f) fs × Sorted fs

-- Two findings with the same code, requirement and joined evidence identifiers.
abbrev pub same_key : Finding → Finding → Bool
same_key a b =
    a.code == b.code
    && (a.requirement_id == b.requirement_id && join "," a.evidence_ids == join "," b.evidence_ids)

key_at_most : (s t : String) → text_less t s ≡ false → (text_less s t ≡ true) ⊎ (s ≡ t)
key_at_most s t h = elim (Bool-cases (text_less s t)) [
  | inl below ↦ inl below
  | inr level ↦ inr (text_less-total s t level h)
]

later_key :
    (s t : String) (up : Bool)
    → by_key t s up ≡ false
    → (text_less s t ≡ true) ⊎ ((s ≡ t) × (up ≡ false))
later_key s t up h = ground (arith, eq_iff t s, key_at_most s t)

InOrder-not_less : (a b : Finding) → finding_less b a ≡ false → InOrder a b
unfolding finding_less join_evidence_ids
InOrder-not_less a b h = elim (later_key a.code b.code _ h) [
  | inl below ↦ inl below
  | inr (code, h1) ↦ elim (later_key a.requirement_id b.requirement_id _ h1) [
    | inl below ↦ inr (code, inl below)
    | inr (requirement, h2) ↦ inr (code, inr (requirement, h2))
  ]
]

Sorted-Ordered : (fs : List Finding) → Ordered finding_less fs → Sorted fs
Sorted-Ordered [] h = tt
Sorted-Ordered (f ∷ fs) (h, hs) = (behind fs h, Sorted-Ordered fs hs)
  where
    behind : (gs : List Finding) → All (λ g. finding_less g f ≡ false) gs → All (InOrder f) gs
    behind [] k = tt
    behind (g ∷ gs) (k, ks) = (InOrder-not_less f g k, behind gs ks)

alike_key :
    (s t : String) (up down : Bool)
    → (not (by_key s t up) && not (by_key t s down)) ≡ (s == t && (not up && not down))
alike_key s t up down =
    ground (arith, eq_iff s t, eq_sym s t, text_less_irrefl s, text_less-total s t)

alike_last : (s t : String) → (not (text_less s t) && not (text_less t s)) ≡ (s == t)
alike_last s t = ground (arith, eq_iff s t, text_less_irrefl s, text_less-total s t)

alike-same_key :
    (a b : Finding) → alike finding_less finding_less-asym finding_less_trans a b ≡ same_key a b
unfolding finding_less join_evidence_ids
alike-same_key a b =
    alike_key a.code b.code _ _
    ∙ ap (λ rest. a.code == b.code && rest)
        (alike_key a.requirement_id b.requirement_id _ _
          ∙ ap (λ rest. a.requirement_id == b.requirement_id && rest)
              (alike_last (join "," a.evidence_ids) (join "," b.evidence_ids)))

-- `sortFindings` returns its findings in the order of code, requirement and joined evidence
-- identifiers, loses and adds none, and keeps findings that share all three in their order.
pub sort_findings_lem :
    (findings : List Finding)
    → Sorted (sort_findings findings)
      × Perm (sort_findings findings) findings
      × ((f : Finding)
          → select (same_key f) (sort_findings findings) ≡ select (same_key f) findings)
unfolding sort_findings
sort_findings_lem findings = (
  Sorted-Ordered (sort_stable finding_less findings)
      (Ordered-sort_stable finding_less finding_less-asym finding_less_trans findings),
  sort_stable-perm finding_less findings,
  λ f.
      subst (λ p. select p (sort_stable finding_less findings) ≡ select p findings)
        (λ i x. alike-same_key f x i)
        (select-sort_stable finding_less finding_less-asym finding_less_trans f findings),
)
