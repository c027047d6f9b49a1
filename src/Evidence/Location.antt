-- ===== src/Evidence/Location.antt =====
-- internal/evidence/artifact.go: the location of an artifact and its digest. A text is valid UTF-8,
-- so the check that it is does not fail. What the open file hashes to is a parameter.
pub mod Sound
use Prim.Native.Char.{code}
use Prim.Native.String
use assurectl.Prelude.{
  ℕ, String, Bool, true, false, not, ◌&&◌, ◌||◌, Option, none, some, List, [], ◌∷◌, contains,
  contains_text, has_prefix, has_suffix, strip_prefix, split, cut_at, all_chars, within, eqb, ltb,
  path_clean, ◌==◌, if◌then◌else◌, Result, ok, err, guard, ◌>>=◌, ◌>>◌, digest_pattern,
}
use assurectl.Platform.{Platform}
use assurectl.InputMeta.{Digest, digest_algorithm_sha256}

pub data UriError : Type 0 where
  empty absolute backslash control_character not_canonical ambiguous_segment colon
        trailing_dot_or_space windows_device_alias :
      UriError

pub data ArtifactError : Type 0 where
  uri : UriError → ArtifactError
  algorithm_unsupported value_invalid unreadable digest_mismatch : ArtifactError

abbrev device_names : List String
device_names = "CON" ∷ "PRN" ∷ "AUX" ∷ "NUL" ∷ []

-- `base[3] >= '1' && base[3] <= '9'`, on what is behind the first three bytes
abbrev begins_with_nonzero_digit : Option String → Bool
begins_with_nonzero_digit none = false
begins_with_nonzero_digit (some String.[]) = false
begins_with_nonzero_digit (some (String.◌∷◌ c s)) = within b'1' b'9' (code c)

abbrev before_dot : String → String
before_dot segment = elim (cut_at b'.' segment) [ none ↦ segment | some (before, behind) ↦ before ]

-- `isWindowsDeviceName`
unfoldable pub is_windows_device_name : Platform → String → Bool
is_windows_device_name go segment =
    let base = go.to_upper (before_dot segment) in
    contains device_names base
    || (eqb (String.len base) 4
        && (begins_with_nonzero_digit (strip_prefix "COM" base)
            || begins_with_nonzero_digit (strip_prefix "LPT" base)))

abbrev pub is_control : ℕ → Bool
is_control c = ltb c 0x20 || eqb c 0x7f

module _ (go : Platform) where
  -- the loop over the segments, which returns at the first bad one
  unfoldable pub check_segments : List String → Result UriError (Unit {0})
  check_segments [] = ok tt
  check_segments (segment ∷ segments) =
      let rest = check_segments segments in
      do
        guard (not (segment == "" || segment == "." || segment == "..")) ambiguous_segment
        guard (not (contains_text segment ":")) colon
        guard (not (has_suffix segment "." || has_suffix segment " ")) trailing_dot_or_space
        guard (not (is_windows_device_name go segment)) windows_device_alias
        rest

  unfoldable pub validate_portable_artifact_uri : String → Result UriError (Unit {0})
  validate_portable_artifact_uri text = do
    guard (not (text == "")) empty
    guard (not (has_prefix text "/")) absolute
    guard (not (contains_text text "\\")) backslash
    guard (all_chars (λ c. not (is_control c)) text) control_character
    guard (path_clean text == text) not_canonical
    check_segments (split b'/' text)

abbrev pub at_uri : Result UriError (Unit {0}) → Result ArtifactError (Unit {0})
at_uri (ok u) = ok u
at_uri (err e) = err (uri e)

abbrev pub hashed : Option String → Result ArtifactError String
hashed none = err unreadable
hashed (some value) = ok value

-- `verifyArtifact`, where `hash` gives the SHA-256 of the regular file at a path below the evidence
-- root, in hexadecimal digits, and nothing if it cannot be opened or read.
unfoldable pub verify_artifact :
    Platform → (String → Option String) → String → Digest → Result ArtifactError (Unit {0})
verify_artifact go hash text expected = do
  at_uri (validate_portable_artifact_uri go text)
  guard (expected.algorithm == digest_algorithm_sha256) algorithm_unsupported
  guard (digest_pattern expected.value) value_invalid
  actual ← hashed (hash text)
  guard (actual == expected.value) digest_mismatch
