-- ===== src/Evaluation/Sorting/Order.antt =====
-- The order of texts is a strict total order.
use Prim.Native.Char.{Char, code}
use Prim.Native.String.compare
use Prim.Native.String.{String}
use mathlib.Core.Path.{ap₂}
use text.Mathlib.TextEquality.{Char-path}
use text.Mathlib.TextPositions.{compare_refl}
use assurectl.Prelude.{
  Bool, true, false, ◌&&◌, ◌||◌, ltb, eqb, ◌≡◌, refl, arith, Bool-cases, inl, inr,
}
use assurectl.Evaluation.Sorting.{text_less}

pub text_less_irrefl : (s : String) → text_less s s ≡ false
text_less_irrefl s = rw (compare_refl s)

-- One step of the lexicographic order.
less_step : (c d : Char) (s t : String) → Bool
less_step c d s t = ltb (code c) (code d) || eqb (code c) (code d) && text_less s t

text_less-cons :
    (c d : Char) (s t : String) → text_less (String.◌∷◌ c s) (String.◌∷◌ d t) ≡ less_step c d s t
unfolding less_step
text_less-cons c d s t = rw (compare.cons-cons c d s t) (ground arith)

text_less-nil : (s : String) → text_less s String.[] ≡ false
text_less-nil String.[] = refl
text_less-nil (String.◌∷◌ c s) = rw (compare.cons-nil c s)

text_less_nil-cons : (d : Char) (t : String) → text_less String.[] (String.◌∷◌ d t) ≡ true
text_less_nil-cons d t = rw (compare.nil-cons d t)

pub text_less_trans :
    (s t u : String) → text_less s t ≡ true → text_less t u ≡ true → text_less s u ≡ true
unfolding less_step
text_less_trans s String.[] u h k = cc (text_less-nil s)
text_less_trans s t String.[] h k = cc (text_less-nil t)
text_less_trans String.[] (String.◌∷◌ d t) (String.◌∷◌ e u) h k = text_less_nil-cons e u
text_less_trans (String.◌∷◌ c s) (String.◌∷◌ d t) (String.◌∷◌ e u) h k = ground (
  arith,
  text_less-cons c d s t,
  text_less-cons d e t u,
  text_less-cons c e s u,
  text_less_trans s t u,
)

pub text_less-total : (s t : String) → text_less s t ≡ false → text_less t s ≡ false → s ≡ t
unfolding less_step
text_less-total String.[] String.[] h k = refl
text_less-total String.[] (String.◌∷◌ d t) h k = cc (text_less_nil-cons d t)
text_less-total (String.◌∷◌ c s) String.[] h k = cc (text_less_nil-cons c s)
text_less-total (String.◌∷◌ c s) (String.◌∷◌ d t) h k =
    let codes : (code c ≡ code d) × (text_less s t ≡ false) × (text_less t s ≡ false) =
      ground (arith, text_less-cons c d s t, text_less-cons d c t s) in
    ap₂ String.◌∷◌ (Char-path c d codes.0) (text_less-total s t codes.1 codes.2)

pub text_less-asym : (s t : String) → text_less s t ≡ true → text_less t s ≡ false
text_less-asym s t h = elim (Bool-cases (text_less t s)) [
  | inr fine ↦ fine
  | inl back ↦ cc (text_less_trans s t s h back, text_less_irrefl s)
]

-- "not less" is transitive
pub text_le_trans :
    (s t u : String) → text_less t s ≡ false → text_less u t ≡ false → text_less u s ≡ false
text_le_trans s t u h k = elim (Bool-cases (text_less u s)) [
  | inr fine ↦ fine
  | inl back ↦ elim (Bool-cases (text_less s t)) [
    | inl up ↦ cc (text_less_trans u s t back up)
    | inr level ↦ cc (text_less-total s t level h)
  ]
]
