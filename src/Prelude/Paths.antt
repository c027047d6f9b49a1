-- ===== src/Prelude/Paths.antt =====
-- `path.Clean` of Go's standard library, on the segments between the slashes, and the texts it
-- leaves as they are.
use Prim.Native.Char.{Char, code}
use Prim.Native.String.compare
use Prim.Native.String.{String}
use mathlib.Core.Path.{subst, ◌≡◌, refl, sym, ◌∙◌, ap}
use mathlib.Core.Bool.{Bool, true, false, not, ◌||◌, false≢true}
use mathlib.Core.Logic.{inl, inr}
use mathlib.Core.Option.{some}
use mathlib.Core.List.{List, [], ◌∷◌, ◌++◌, append-nil}
use native.Mathlib.Omega.{arith}
use text.Mathlib.Text.{◌==◌}
use text.Mathlib.TextEquality.{eq_iff, Char-path}
use text.Mathlib.TextLemmas.{cons-append, nil-append}
use assurectl.Prelude.Tests.{Option-cases, eqb, if◌then◌else◌, Bool-cases}
use assurectl.Prelude.Lists.{All, is_empty}
use assurectl.Prelude.Strings.{◌<>◌, strip_prefix, has_prefix, split, push_char, join}

-- The segments that are kept, the last one first. A dot segment is dropped, and two dots take the
-- segment before them away, if there is one: they stay at the front of a relative path only.
abbrev step_back : Bool → List String → List String
step_back rooted [] = if rooted then [] else ".." ∷ []
step_back rooted (top ∷ below) = if top == ".." then ".." ∷ top ∷ below else below

abbrev keep_segment : Bool → String → List String → List String
keep_segment rooted segment stack =
    if segment == "" || segment == "."
    then stack
    else if segment == ".."
    then step_back rooted stack
    else segment ∷ stack

abbrev clean_segments : Bool → List String → List String → List String
clean_segments rooted stack [] = stack
clean_segments rooted stack (segment ∷ segments) =
    clean_segments rooted (keep_segment rooted segment stack) segments

abbrev push_back : List String → List String → List String
push_back [] acc = acc
push_back (x ∷ xs) acc = push_back xs (x ∷ acc)

-- path.Clean(s)
unfoldable pub path_clean : String → String
unfolding has_prefix split join
path_clean s =
    let rooted = has_prefix s "/" in
    let kept = join "/" (push_back (clean_segments rooted [] (split b'/' s)) []) in
    if rooted then "/" <> kept else if kept == "" then "." else kept

-- neither empty nor one that `path.Clean` treats specially
abbrev pub plain_segment : String → Bool
plain_segment segment = not (segment == "" || segment == "." || segment == "..")

abbrev pub Plain : String → Type 0
Plain segment = plain_segment segment ≡ true

clean_segments-Plain :
    (rooted : Bool) (stack segments : List String)
    → All Plain segments
    → clean_segments rooted stack segments ≡ push_back segments stack
clean_segments-Plain rooted stack [] h = refl
clean_segments-Plain rooted stack (segment ∷ segments) (p, h) =
    ap (λ s. clean_segments rooted s segments) kept ∙ clean_segments-Plain rooted _ segments h
  where
    kept : keep_segment rooted segment stack ≡ segment ∷ stack
    kept = ground arith

push_back-push_back :
    (xs ys zs : List String) → push_back (push_back xs ys) zs ≡ push_back ys (xs ++ zs)
push_back-push_back [] ys zs = refl
push_back-push_back (x ∷ xs) ys zs = push_back-push_back xs (x ∷ ys) zs

split-nonempty : (s : String) → is_empty (split b'/' s) ≡ false
unfolding split
split-nonempty String.[] = refl
split-nonempty (String.◌∷◌ c s) = ground arith

join-cons :
    (part : String) (parts : List String)
    → is_empty parts ≡ false
    → join "/" (part ∷ parts) ≡ part <> "/" <> join "/" parts
unfolding join
join-cons part [] h = absurd (false≢true (sym h))
join-cons part (next ∷ parts) h = refl

join-push_char :
    (c : Char) (parts : List String)
    → is_empty parts ≡ false
    → join "/" (push_char c parts) ≡ String.◌∷◌ c (join "/" parts)
unfolding join
join-push_char c [] h = absurd (false≢true (sym h))
join-push_char c (part ∷ []) h = refl
join-push_char c (part ∷ (next ∷ parts)) h = cons-append c part _

-- In front of a text, a text of one character is that character.
pub one-append : (c : Char) (s : String) → (String.◌∷◌ c String.[]) <> s ≡ String.◌∷◌ c s
one-append c s = cons-append c String.[] s ∙ ap (λ t. String.◌∷◌ c t) (nil-append s)

slash_first : (c : Char) (s : String) → eqb (code c) b'/' ≡ true → "/" <> s ≡ String.◌∷◌ c s
slash_first c s h =
    one-append "/" s ∙ ap (λ d. String.◌∷◌ d s) (sym (Char-path c "/" (ground arith)))

-- The segments of a text, put together again, are the text.
pub join-split : (s : String) → join "/" (split b'/' s) ≡ s
unfolding split
join-split String.[] = unfold join in refl
join-split (String.◌∷◌ c s) = elim (Bool-cases (eqb (code c) b'/')) [
  | inl same ↦ rw same (
      join-cons "" (split b'/' s) (split-nonempty s)
      ∙ nil-append ("/" <> join "/" (split b'/' s))
      ∙ ap (λ t. "/" <> t) (join-split s)
      ∙ slash_first c s same)
  | inr differ ↦
      rw differ (
        join-push_char c (split b'/' s) (split-nonempty s)
        ∙ ap (λ t. String.◌∷◌ c t) (join-split s))
]

push_back-nil : (xs : List String) → push_back (push_back xs []) [] ≡ xs
push_back-nil xs = push_back-push_back xs [] [] ∙ append-nil xs

pub unrooted : (s : String) → All Plain (split b'/' s) → has_prefix s "/" ≡ false
unfolding has_prefix split
unrooted String.[] h = absurd (false≢true h.0)
unrooted (String.◌∷◌ c s) h = elim (Bool-cases (eqb (code c) b'/')) [
  | inl same ↦ absurd (false≢true ((rw same at h).0))
  | inr differ ↦ unfold strip_prefix in ground arith
]

pub not_empty : (s : String) → All Plain (split b'/' s) → (s == "") ≡ false
unfolding split
not_empty String.[] h = absurd (false≢true h.0)
not_empty (String.◌∷◌ c s) h = rw (compare.cons-nil c s) refl

-- `path.Clean` leaves a text as it is, if none of its segments is empty or a dot or two.
pub path_clean-Plain : (s : String) → All Plain (split b'/' s) → path_clean s ≡ s
unfolding path_clean
path_clean-Plain s h = rw (unrooted s h, kept, not_empty s h) refl
  where
    kept : join "/" (push_back (clean_segments false [] (split b'/' s)) []) ≡ s
    kept =
        ap (λ t. join "/" (push_back t [])) (clean_segments-Plain false [] (split b'/' s) h)
        ∙ ap (λ t. join "/" t) (push_back-nil (split b'/' s))
        ∙ join-split s

-- Such a text is neither a dot nor two, and it does not begin with two dots and a slash.
pub not_dot : (s : String) → All Plain (split b'/' s) → (s == ".") ≡ false
unfolding split
not_dot s h = elim (Bool-cases (s == ".")) [
  | inl same ↦
      absurd (false≢true (subst (λ t. All Plain (split b'/' t)) ((eq_iff s ".").0 same) h).0)
  | inr differ ↦ differ
]

pub not_dots : (s : String) → All Plain (split b'/' s) → (s == "..") ≡ false
unfolding split
not_dots s h = elim (Bool-cases (s == "..")) [
  | inl same ↦
      absurd (false≢true (subst (λ t. All Plain (split b'/' t)) ((eq_iff s "..").0 same) h).0)
  | inr differ ↦ differ
]

-- A text with a prefix is the prefix and the text behind it.
pub strip_prefix-append : (p s rest : String) → strip_prefix p s ≡ some rest → s ≡ p <> rest
unfolding strip_prefix
strip_prefix-append String.[] s rest h = let same : s ≡ rest = cc in same ∙ sym (nil-append rest)
strip_prefix-append (String.◌∷◌ c p) String.[] rest h = absurd (cc)
strip_prefix-append (String.◌∷◌ c p) (String.◌∷◌ d s) rest h =
    elim (Bool-cases (eqb (code c) (code d))) [
      | inr differ ↦ absurd (ground arith)
      | inl same ↦
          (ap (λ e. String.◌∷◌ e s) (sym (Char-path c d (ground arith)))
            ∙ ap (λ t. String.◌∷◌ c t) (strip_prefix-append p s rest (rw same at h))
            ∙ sym (cons-append c p rest))
    ]

dots_first : (rest : String) → "../" <> rest ≡ String.◌∷◌ "." (String.◌∷◌ "." (String.◌∷◌ "/" rest))
dots_first rest =
    cons-append "." "./" rest
    ∙ ap (λ t. String.◌∷◌ "." t) (cons-append "." "/" rest)
    ∙ ap (λ t. String.◌∷◌ "." (String.◌∷◌ "." t)) (one-append "/" rest)

pub no_dots_first : (s : String) → All Plain (split b'/' s) → has_prefix s "../" ≡ false
unfolding has_prefix split
no_dots_first s h = elim (Option-cases (strip_prefix "../" s)) [
  | inl none_left ↦ ground arith
  | inr (rest, found) ↦ absurd (
      false≢true
        (subst (λ t. All Plain (split b'/' t))
          (strip_prefix-append "../" s rest found ∙ dots_first rest) h).0)
]
