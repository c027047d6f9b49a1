-- ===== src/Prelude/Strings.antt =====
-- The functions of package strings that the source calls, on texts of characters.
use Prim.Native.Nat.{ℕ}
use Prim.Native.Char.{Char, code}
use Prim.Native.String
use Prim.Native.String.{String}
use mathlib.Core.Bool.{Bool, true, false, ◌||◌}
use mathlib.Core.Option.{Option, none, some}
use mathlib.Core.List.{List, [], ◌∷◌}
use text.Mathlib.Text.{◌==◌}
use assurectl.Prelude.Tests.{eqb, if◌then◌else◌}
use assurectl.Prelude.Texts.{is_space, is_blank}

infixr 65 ◌<>◌
abbrev pub ◌<>◌ : String → String → String
s <> t = String.◌++◌ s t

-- the text behind a prefix, if it is one
unfoldable pub strip_prefix : String → String → Option String
strip_prefix String.[] s = some s
strip_prefix (String.◌∷◌ c p) String.[] = none
strip_prefix (String.◌∷◌ c p) (String.◌∷◌ d s) =
    let rest = strip_prefix p s in if eqb (code c) (code d) then rest else none

-- strings.HasPrefix(s, p)
unfoldable pub has_prefix : String → String → Bool
unfolding strip_prefix
has_prefix s p = elim (strip_prefix p s) [ none ↦ false | some r ↦ true ]

-- strings.TrimPrefix(s, p)
unfoldable pub trim_prefix : String → String → String
unfolding strip_prefix
trim_prefix s p = elim (strip_prefix p s) [ none ↦ s | some r ↦ r ]

-- strings.TrimSuffix(s, t): at most one tail of `s` has the length of `t`
unfoldable pub trim_suffix : String → String → String
trim_suffix String.[] t = String.[]
trim_suffix (String.◌∷◌ c s) t =
    let rest = trim_suffix s t in if String.◌∷◌ c s == t then String.[] else String.◌∷◌ c rest

-- strings.HasSuffix(s, t)
unfoldable pub has_suffix : String → String → Bool
has_suffix String.[] t = t == ""
has_suffix (String.◌∷◌ c s) t = String.◌∷◌ c s == t || has_suffix s t

-- strings.Contains(s, t)
unfoldable pub contains_text : String → String → Bool
unfolding has_prefix
contains_text String.[] t = t == ""
contains_text (String.◌∷◌ c s) t = has_prefix (String.◌∷◌ c s) t || contains_text s t

-- strings.IndexByte at an ASCII character, as the texts before and behind it
unfoldable pub cut_at : ℕ → String → Option (String × String)
cut_at c String.[] = none
cut_at c (String.◌∷◌ d s) =
    let rest : Option (String × String) = elim (cut_at c s) [
      | none ↦ none
      | some (before, behind) ↦ some (String.◌∷◌ d before, behind)
    ] in
    if eqb (code d) c then some (String.[], s) else rest

-- is the character one of the text's
unfoldable pub has_char : String → ℕ → Bool
has_char String.[] c = false
has_char (String.◌∷◌ d s) c = eqb (code d) c || has_char s c

-- strings.ContainsAny(s, chars)
unfoldable pub contains_any : String → String → Bool
unfolding has_char
contains_any String.[] chars = false
contains_any (String.◌∷◌ c s) chars = has_char chars (code c) || contains_any s chars

-- strings.Split(s, sep) at a separator of one ASCII character
abbrev pub push_char : Char → List String → List String
push_char c [] = String.◌∷◌ c String.[] ∷ []
push_char c (part ∷ parts) = String.◌∷◌ c part ∷ parts

unfoldable pub split : ℕ → String → List String
split sep String.[] = "" ∷ []
split sep (String.◌∷◌ c s) =
    let rest = split sep s in if eqb (code c) sep then "" ∷ rest else push_char c rest

-- strings.Join(parts, sep)
unfoldable pub join : String → List String → String
join sep [] = ""
join sep (part ∷ []) = part
join sep (part ∷ (next ∷ parts)) = part <> sep <> join sep (next ∷ parts)

drop_spaces : String → String
drop_spaces String.[] = String.[]
drop_spaces (String.◌∷◌ c s) =
    let rest = drop_spaces s in if is_space (code c) then rest else String.◌∷◌ c s

-- A character, and what is left behind it: nothing if both are white space.
abbrev keep_char : String → String → String
keep_char c String.[] = if is_blank c then String.[] else c
keep_char c (String.◌∷◌ d s) = c <> String.◌∷◌ d s

drop_final_spaces : String → String
drop_final_spaces String.[] = String.[]
drop_final_spaces (String.◌∷◌ c s) = keep_char (String.◌∷◌ c String.[]) (drop_final_spaces s)

-- strings.TrimSpace(s)
unfoldable pub trim_space : String → String
unfolding drop_spaces drop_final_spaces is_blank
trim_space s = drop_final_spaces (drop_spaces s)
