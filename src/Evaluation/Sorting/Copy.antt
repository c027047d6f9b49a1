-- ===== src/Evaluation/Sorting/Copy.antt =====
-- internal/evaluation/evaluate.go: `sortedCopy` is a canonical form of a set of identifiers.
use mathlib.Core.Path.{ap₂}
use assurectl.Prelude.{
  String, true, false, ◌||◌, ◌==◌, eq_iff, eq_refl, eq_sym, ◌≡◌, refl, sym, ◌∙◌, ap, subst, inl,
  inr, List, [], ◌∷◌, All, Distinct, contains, Bool-cases, arith,
}
use assurectl.Evaluation.Sorting.{
  text_less, insert, sort_stable, deduplicate_from, deduplicate, sorted_copy,
}
use assurectl.Evaluation.Sorting.Order.{
  text_less_irrefl, text_less_trans, text_less-total, text_less-asym, text_le_trans,
}

-- Each element is below all that follow it.
abbrev pub Ascending : List String → Type 0
Ascending [] = Unit
Ascending (x ∷ xs) = All (λ y. text_less x y ≡ true) xs × Ascending xs

-- No element is above one that follows it.
abbrev Weak : List String → Type 0
Weak [] = Unit
Weak (x ∷ xs) = All (λ y. text_less y x ≡ false) xs × Weak xs

All-insert :
    (P : String → Type 0) (x : String) (ys : List String)
    → P x
    → All P ys
    → All P (insert text_less x ys)
unfolding insert
All-insert P x [] p h = (p, tt)
All-insert P x (y ∷ ys) p (q, h) = elim (Bool-cases (text_less y x)) [
  | inl e ↦ rw e (q, All-insert P x ys p h)
  | inr e ↦ rw e (p, (q, h))
]

All-above :
    (x y : String) (ys : List String)
    → text_less y x ≡ false
    → All (λ z. text_less z y ≡ false) ys
    → All (λ z. text_less z x ≡ false) ys
All-above x y [] h k = tt
All-above x y (z ∷ zs) h (k, ks) = (text_le_trans x y z h k, All-above x y zs h ks)

Weak-insert : (x : String) (ys : List String) → Weak ys → Weak (insert text_less x ys)
unfolding insert
Weak-insert x [] w = (tt, tt)
Weak-insert x (y ∷ ys) (h, w) = elim (Bool-cases (text_less y x)) [
  | inl e ↦
      rw e
        (All-insert (λ z. text_less z y ≡ false) x ys (text_less-asym y x e) h, Weak-insert x ys w)
  | inr e ↦ rw e ((e, All-above x y ys e h), (h, w))
]

Weak-sort : (xs : List String) → Weak (sort_stable text_less xs)
unfolding sort_stable
Weak-sort [] = tt
Weak-sort (x ∷ xs) = Weak-insert x (sort_stable text_less xs) (Weak-sort xs)

strictly_below : (x y : String) → (x == y) ≡ false → text_less y x ≡ false → text_less x y ≡ true
strictly_below x y differ h = elim (Bool-cases (text_less x y)) [
  | inl below ↦ below
  | inr level ↦ ground (arith, eq_iff x y, text_less-total x y level h)
]

All-below :
    (x y : String) (zs : List String)
    → text_less x y ≡ true
    → All (λ z. text_less y z ≡ true) zs
    → All (λ z. text_less x z ≡ true) zs
All-below x y [] h k = tt
All-below x y (z ∷ zs) h (k, ks) = (text_less_trans x y z h k, All-below x y zs h ks)

-- what `deduplicate_from` leaves behind an element
abbrev Behind : String → List String → Type 0
Behind p xs = All (λ y. text_less p y ≡ true) xs × Ascending xs

Behind-deduplicate_from :
    (p : String) (xs : List String)
    → All (λ y. text_less y p ≡ false) xs
    → Weak xs
    → Behind p (deduplicate_from p xs)
unfolding deduplicate_from
Behind-deduplicate_from p [] h w = (tt, tt)
Behind-deduplicate_from p (x ∷ xs) (h, hs) (k, w) =
    let ih = Behind-deduplicate_from x xs k w in
    elim (Bool-cases (p == x)) [
      | inl e ↦ rw e (subst (λ q. Behind q (deduplicate_from x xs)) (sym ((eq_iff p x).0 e)) ih)
      | inr e ↦
          let below = strictly_below p x e h in
          rw e ((below, All-below p x (deduplicate_from x xs) below ih.0), ih)
    ]

Ascending-deduplicate : (xs : List String) → Weak xs → Ascending (deduplicate xs)
unfolding deduplicate
Ascending-deduplicate [] w = tt
Ascending-deduplicate (x ∷ xs) (h, w) = Behind-deduplicate_from x xs h w

-- The identifiers of `sortedCopy` ascend strictly.
pub sorted_copy-Ascending : (ids : List String) → Ascending (sorted_copy ids)
unfolding sorted_copy
sorted_copy-Ascending ids = Ascending-deduplicate (sort_stable text_less ids) (Weak-sort ids)

contains-insert :
    (z x : String) (ys : List String)
    → contains (insert text_less x ys) z ≡ (x == z || contains ys z)
unfolding insert
contains-insert z x [] = refl
contains-insert z x (y ∷ ys) = ground (arith, contains-insert z x ys)

contains-sort :
    (z : String) (xs : List String) → contains (sort_stable text_less xs) z ≡ contains xs z
unfolding sort_stable
contains-sort z [] = refl
contains-sort z (x ∷ xs) =
    ground (arith, contains-insert z x (sort_stable text_less xs), contains-sort z xs)

contains-deduplicate_from :
    (z p : String) (xs : List String)
    → (p == z || contains (deduplicate_from p xs) z) ≡ (p == z || contains xs z)
unfolding deduplicate_from
contains-deduplicate_from z p [] = refl
contains-deduplicate_from z p (x ∷ xs) =
    ground (arith, contains-deduplicate_from z x xs, eq_iff p x, eq_iff p z, eq_iff x z)

contains-deduplicate : (z : String) (xs : List String) → contains (deduplicate xs) z ≡ contains xs z
unfolding deduplicate
contains-deduplicate z [] = refl
contains-deduplicate z (x ∷ xs) = contains-deduplicate_from z x xs

-- `sortedCopy` keeps exactly the identifiers that it is given.
pub contains-sorted_copy :
    (z : String) (ids : List String) → contains (sorted_copy ids) z ≡ contains ids z
unfolding sorted_copy
contains-sorted_copy z ids =
    contains-deduplicate z (sort_stable text_less ids) ∙ contains-sort z ids

not_below :
    (x : String) (ys : List String) → All (λ y. text_less x y ≡ true) ys → contains ys x ≡ false
not_below x [] h = refl
not_below x (y ∷ ys) (h, hs) = ground (arith, not_below x ys hs, eq_iff y x, text_less_irrefl x)

pub Ascending-Distinct : (xs : List String) → Ascending xs → Distinct xs
Ascending-Distinct [] a = tt
Ascending-Distinct (x ∷ xs) (h, a) = (not_below x xs h, Ascending-Distinct xs a)

below_of_contains :
    (x z : String) (ys : List String)
    → All (λ y. text_less x y ≡ true) ys
    → contains ys z ≡ true
    → text_less x z ≡ true
below_of_contains x z [] h k = ground arith
below_of_contains x z (y ∷ ys) (h, hs) k = elim (Bool-cases (y == z)) [
  | inl e ↦ subst (λ w. text_less x w ≡ true) ((eq_iff y z).0 e) h
  | inr e ↦ below_of_contains x z ys hs (ground arith)
]

-- The heads of two ascending lists of the same elements are equal.
heads_equal :
    (x y : String) (xs ys : List String)
    → Ascending (x ∷ xs)
    → Ascending (y ∷ ys)
    → contains (y ∷ ys) x ≡ true
    → contains (x ∷ xs) y ≡ true
    → x ≡ y
heads_equal x y xs ys (h, a) (k, b) p q = elim (Bool-cases (x == y)) [
  | inl e ↦ (eq_iff x y).0 e
  | inr e ↦
      let up = below_of_contains x y xs h (ground arith) in
      let down = below_of_contains y x ys k (ground (arith, eq_sym x y)) in
      cc (text_less-asym x y up)
]

tails_agree :
    (x z : String) (xs ys : List String)
    → All (λ y. text_less x y ≡ true) xs
    → All (λ y. text_less x y ≡ true) ys
    → contains (x ∷ xs) z ≡ contains (x ∷ ys) z
    → contains xs z ≡ contains ys z
tails_agree x z xs ys h k e = elim (Bool-cases (x == z)) [
  | inl same ↦
      let p = (eq_iff x z).0 same in
      subst (λ w. contains xs w ≡ contains ys w) p (not_below x xs h ∙ sym (not_below x ys k))
  | inr differ ↦ ground arith
]

Ascending-ext :
    (xs ys : List String)
    → Ascending xs
    → Ascending ys
    → ((z : String) → contains xs z ≡ contains ys z)
    → xs ≡ ys
Ascending-ext [] [] a b e = refl
Ascending-ext [] (y ∷ ys) a b e = ground (arith, e y, eq_refl y)
Ascending-ext (x ∷ xs) [] a b e = ground (arith, e x, eq_refl x)
Ascending-ext (x ∷ xs) (y ∷ ys) a b e =
    let same =
      heads_equal x y xs ys a b (ground (arith, e x, eq_refl x)) (ground (arith, e y, eq_refl y)) in
    let k : All (λ z. text_less x z ≡ true) ys =
      subst (λ w. All (λ z. text_less w z ≡ true) ys) (sym same) b.0 in
    ap₂ ◌∷◌ same (
      Ascending-ext xs ys a.1 b.1
        (λ z. tails_agree x z xs ys a.0 k (e z ∙ ap (λ w. contains (w ∷ ys) z) (sym same))))

-- Two lists of the same identifiers, in any order and however often each occurs, have the same
-- `sortedCopy`.
pub sorted_copy-canonical :
    (ids others : List String)
    → ((z : String) → contains ids z ≡ contains others z)
    → sorted_copy ids ≡ sorted_copy others
sorted_copy-canonical ids others e =
    Ascending-ext (sorted_copy ids) (sorted_copy others) (sorted_copy-Ascending ids)
      (sorted_copy-Ascending others)
      (λ z. contains-sorted_copy z ids ∙ e z ∙ sym (contains-sorted_copy z others))
