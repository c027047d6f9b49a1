-- ===== src/Evidence/Timestamp.antt =====
-- internal/evidence/loader.go: the pattern of a timestamp, read from left to right. The dot in front
-- of a fraction is not escaped in the source, so any character but a line feed may stand there.
use Prim.Native.Char.{code}
use assurectl.Prelude.{
  ℕ, String, Bool, true, false, not, ◌&&◌, ◌||◌, Option, none, some, within, eqb, if◌then◌else◌,
}

-- [0-9]
abbrev is_digit : ℕ → Bool
is_digit c = within b'0' b'9' c

-- what is left behind one character of a kind
abbrev take_one : (ℕ → Bool) → String → Option String
take_one p String.[] = none
take_one p (String.◌∷◌ c s) = if p (code c) then some s else none

-- what is left behind two characters of a kind
abbrev take_two : (ℕ → ℕ → Bool) → String → Option String
take_two p String.[] = none
take_two p (String.◌∷◌ c String.[]) = none
take_two p (String.◌∷◌ c (String.◌∷◌ d s)) = if p (code c) (code d) then some s else none

abbrev behind : Option String → (String → Option String) → Option String
behind none f = none
behind (some s) f = f s

abbrev literal : ℕ → String → Option String
literal c = take_one (λ d. eqb d c)

abbrev two_digits : String → Option String
two_digits = take_two (λ a b. is_digit a && is_digit b)

-- 0[1-9]|1[0-2]
abbrev month : ℕ → ℕ → Bool
month a b = (eqb a b'0' && within b'1' b'9' b) || (eqb a b'1' && within b'0' b'2' b)

-- 0[1-9]|[12][0-9]|3[01]
abbrev day : ℕ → ℕ → Bool
day a b =
    (eqb a b'0' && within b'1' b'9' b)
    || (within b'1' b'2' a && is_digit b)
    || (eqb a b'3' && within b'0' b'1' b)

-- [01][0-9]|2[0-3]
abbrev hour : ℕ → ℕ → Bool
hour a b = (within b'0' b'1' a && is_digit b) || (eqb a b'2' && within b'0' b'3' b)

-- [0-5][0-9]
abbrev sixtieth : ℕ → ℕ → Bool
sixtieth a b = within b'0' b'5' a && is_digit b

abbrev hour_and_minute : String → Option String
hour_and_minute s = behind (behind (take_two hour s) (literal b':')) (take_two sixtieth)

abbrev ends : Option String → Bool
ends none = false
ends (some String.[]) = true
ends (some (String.◌∷◌ c s)) = false

-- (Z|[+-]([01][0-9]|2[0-3]):[0-5][0-9])$
abbrev zone : String → Bool
zone s =
    ends (literal b'Z' s)
    || ends (behind (take_one (λ c. eqb c b'+' || eqb c b'-') s) hour_and_minute)

-- digits, at least one, and the zone behind them
digits_and_zone : String → Bool
digits_and_zone String.[] = false
digits_and_zone (String.◌∷◌ c s) = is_digit (code c) && (zone s || digits_and_zone s)

-- (.[0-9]+)? and the zone
unfoldable pub fraction_and_zone : String → Bool
unfolding digits_and_zone
fraction_and_zone s = zone s || (elim (take_one (λ c. not (eqb c b'\n')) s) [
  | none ↦ false
  | some rest ↦ digits_and_zone rest
])

-- timestampPattern.MatchString(s)
unfoldable pub timestamp_pattern : String → Bool
unfolding fraction_and_zone
timestamp_pattern s =
    let year = behind (two_digits s) two_digits in
    let date =
      behind (behind (behind (behind year (literal b'-')) (take_two month)) (literal b'-'))
        (take_two day) in
    let clock = behind (behind (behind date (literal b'T')) hour_and_minute) (literal b':') in
    elim (behind clock (take_two sixtieth)) [ none ↦ false | some rest ↦ fraction_and_zone rest ]
