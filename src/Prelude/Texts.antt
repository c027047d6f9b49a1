-- ===== src/Prelude/Texts.antt =====
-- Texts: membership, the patterns that the source compiles as regular expressions, and blank texts.
use Prim.Native.Nat.{ℕ, ◌<◌, ◌≤◌}
use Prim.Native.Char.{code}
use Prim.Native.String
use Prim.Native.String.{String}
use mathlib.Core.Bool.{Bool, true, false, ◌&&◌, ◌||◌}
use mathlib.Core.List.{List, [], ◌∷◌}
use text.Mathlib.Text.{◌==◌}
use assurectl.Prelude.Tests.{leb, eqb}

-- a map of type `map[string]struct{}` that only collects keys
abbrev pub contains : List String → String → Bool
contains [] a = false
contains (x ∷ xs) a = x == a || contains xs a

abbrev pub all_chars : (ℕ → Bool) → String → Bool
all_chars p String.[] = true
all_chars p (String.◌∷◌ c s) = p (code c) && all_chars p s

abbrev pub within : ℕ → ℕ → ℕ → Bool
within lo hi c = leb lo c && leb c hi

-- [A-Za-z0-9]
pub is_alphanumeric : ℕ → Bool
is_alphanumeric c = within b'A' b'Z' c || within b'a' b'z' c || within b'0' b'9' c

-- [A-Za-z0-9._-]
pub is_identifier_char : ℕ → Bool
unfolding is_alphanumeric
is_identifier_char c = is_alphanumeric c || eqb c b'.' || eqb c b'_' || eqb c b'-'

-- [0-9a-f]
pub is_lower_hex : ℕ → Bool
is_lower_hex c = within b'0' b'9' c || within b'a' b'f' c

-- ^[A-Za-z0-9][A-Za-z0-9._-]{0,127}$
unfoldable pub canonical_identifier : String → Bool
unfolding is_identifier_char
canonical_identifier String.[] = false
canonical_identifier (String.◌∷◌ c s) =
    is_alphanumeric (code c) && all_chars is_identifier_char s && leb (String.count s) 127

-- ^[0-9a-f]{64}$
unfoldable pub digest_pattern : String → Bool
unfolding is_lower_hex
digest_pattern s = all_chars is_lower_hex s && eqb (String.count s) 64

-- ^[0-9a-f]{40}([0-9a-f]{24})?$
unfoldable pub object_id_pattern : String → Bool
unfolding is_lower_hex
object_id_pattern s =
    all_chars is_lower_hex s && (eqb (String.count s) 40 || eqb (String.count s) 64)

-- the white space of `unicode.IsSpace`
pub is_space : ℕ → Bool
is_space c =
    within 9 13 c
    || eqb c 32
    || eqb c 0x85
    || eqb c 0xa0
    || eqb c 0x1680
    || within 0x2000 0x200a c
    || within 0x2028 0x2029 c
    || eqb c 0x202f
    || eqb c 0x205f
    || eqb c 0x3000

-- `strings.TrimSpace(s) == ""`
unfoldable pub is_blank : String → Bool
unfolding is_space
is_blank s = all_chars is_space s

-- a text that is not empty and has at most `max` characters
abbrev pub Bounded : ℕ → String → Type 0
Bounded max text = (0 < String.count text) × (String.count text ≤ max)
