-- ===== src/Prelude/Nonempty.antt =====
-- A text that begins with a nonempty text is not empty; properties of all members of a list of
-- texts.
use Prim.Native.String.append
use Prim.Native.String.compare
use Prim.Native.String.{String}
use mathlib.Core.Path.{◌≡◌, refl, subst}
use mathlib.Core.Bool.{true, false}
use mathlib.Core.Logic.{inl, inr}
use mathlib.Core.List.{List, [], ◌∷◌}
use native.Mathlib.Omega.{arith}
use text.Mathlib.Text.{◌==◌}
use text.Mathlib.TextEquality.{eq_iff}
use text.Mathlib.TextPositions.{eq_refl}
use assurectl.Prelude.Tests.{Bool-cases}
use assurectl.Prelude.Lists.{All, is_empty}
use assurectl.Prelude.Texts.{contains}
use assurectl.Prelude.Strings.{◌<>◌}

pub nonempty-append : (s t : String) → (s == "") ≡ false → ((s <> t) == "") ≡ false
nonempty-append String.[] t h = absurd (ground arith)
nonempty-append (String.◌∷◌ c s) t h = rw (append.cons c s t, compare.cons-nil c (s <> t))

module _ {κ} (P : String → Type κ) where
  pub at_member : (xs : List String) (z : String) → All P xs → contains xs z ≡ true → P z
  at_member [] z h k = absurd (ground arith)
  at_member (x ∷ xs) z (h, hs) k = elim (Bool-cases (x == z)) [
    | inl same ↦ subst P ((eq_iff x z).0 same) h
    | inr differ ↦ at_member xs z hs (ground arith)
  ]

  of_members : (xs : List String) → ((z : String) → contains xs z ≡ true → P z) → All P xs
  of_members [] h = tt
  of_members (x ∷ xs) h =
      (h x (ground (arith, eq_refl x)), of_members xs (λ z k. h z (ground arith)))

  -- What holds of all members of a list holds of all members of another with the same members.
  pub All-same_members :
      (xs ys : List String) → ((z : String) → contains ys z ≡ contains xs z) → All P xs → All P ys
  All-same_members xs ys same h = of_members ys (λ z k. at_member xs z h (ground (arith, same z)))

pub nonempty-same_members :
    (xs ys : List String)
    → ((z : String) → contains ys z ≡ contains xs z)
    → is_empty xs ≡ false
    → is_empty ys ≡ false
nonempty-same_members [] ys same h = absurd (ground arith)
nonempty-same_members (x ∷ xs) [] same h = absurd (ground (arith, same x, eq_refl x))
nonempty-same_members (x ∷ xs) (y ∷ ys) same h = refl
