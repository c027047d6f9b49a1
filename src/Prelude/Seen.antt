-- ===== src/Prelude/Seen.antt =====
-- Lists of texts without repetition, as the loops with a `seen` map check them.
use mathlib.Core.Path.{◌≡◌, refl}
use mathlib.Core.Bool.{false}
use mathlib.Core.Logic.{inl, inr}
use mathlib.Core.HLevel.{hedberg}
use mathlib.Core.List.{List, [], ◌∷◌}
use native.Mathlib.Omega.{arith}
use Prim.Native.String.{String}
use text.Mathlib.Text.{◌==◌}
use text.Mathlib.TextEquality.{eq_iff}
use assurectl.Prelude.Tests.{Bool-cases}
use assurectl.Prelude.Texts.{contains}
use assurectl.Prelude.Lists.{All}

-- no two elements are equal
abbrev pub Distinct : List String → Type 0
Distinct [] = Unit
Distinct (x ∷ xs) = (contains xs x ≡ false) × Distinct xs

-- none of the elements was seen
abbrev pub Unseen : List String → List String → Type 0
Unseen seen = All (λ x. contains seen x ≡ false)

pub String_discrete : Discrete String
String_discrete s t = elim (Bool-cases (s == t)) [
  | inl same ↦ yes ((eq_iff s t).0 same)
  | inr differ ↦ no (λ e. ground (arith, eq_iff s t))
]

pub String_set : IsSet String
String_set = hedberg String_discrete

pub eq_sym : (x y : String) → (x == y) ≡ (y == x)
eq_sym x y = ground (arith, eq_iff x y, eq_iff y x)

pub Unseen-nil : (xs : List String) → Unseen [] xs
Unseen-nil [] = tt
Unseen-nil (x ∷ xs) = (refl, Unseen-nil xs)

-- To have seen one more element is to have it nowhere in the rest.
pub Unseen-of_cons :
    (x : String) (seen xs : List String)
    → Unseen (x ∷ seen) xs
    → Unseen seen xs × (contains xs x ≡ false)
Unseen-of_cons x seen [] h = (tt, refl)
Unseen-of_cons x seen (y ∷ ys) (p, h) = ground (arith, eq_sym x y, Unseen-of_cons x seen ys h)

pub Unseen-cons :
    (x : String) (seen xs : List String)
    → Unseen seen xs
    → contains xs x ≡ false
    → Unseen (x ∷ seen) xs
Unseen-cons x seen [] h fresh = tt
Unseen-cons x seen (y ∷ ys) (p, h) fresh = ground (arith, eq_sym x y, Unseen-cons x seen ys h)

-- One more text that was not seen, in front of texts that are neither seen nor equal to it.
pub fresh_cons :
    (seen : List String) (x : String) (xs : List String)
    → contains seen x ≡ false
    → Distinct xs × Unseen (x ∷ seen) xs
    → Distinct (x ∷ xs) × Unseen seen (x ∷ xs)
fresh_cons seen x xs fresh (distinct, unseen) =
    let (others, apart) = Unseen-of_cons x seen xs unseen in ((apart, distinct), (fresh, others))
