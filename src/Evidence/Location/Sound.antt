-- ===== src/Evidence/Location/Sound.antt =====
-- internal/evidence/artifact.go: which locations are accepted, and what a verified artifact is.
use assurectl.Prelude.{
  String, true, false, not, ◌≡◌, refl, ◌↔◌, inl, inr, Option, some, List, [], ◌∷◌, All, split,
  all_chars, contains_text, has_suffix, path_clean, Plain, path_clean-Plain, unrooted, not_empty,
  eq_iff, eq_refl, ok, Result-cases, Option-cases, arith,
}
use assurectl.Platform.{Platform}
use assurectl.InputMeta.{Digest, digest_algorithm_sha256}
use assurectl.Evidence.Location.{
  is_windows_device_name, is_control, check_segments, validate_portable_artifact_uri,
  verify_artifact,
}

-- A segment that names the same file on every platform, and that no path leaves its directory by.
abbrev pub PortableSegment : Platform → String → Type 0
PortableSegment go segment =
    Plain segment
    × (contains_text segment ":" ≡ false)
    × (has_suffix segment "." ≡ false)
    × (has_suffix segment " " ≡ false)
    × (is_windows_device_name go segment ≡ false)

-- A path of such segments without backslashes and control characters.
abbrev pub Portable : Platform → String → Type 0
Portable go text =
    All (PortableSegment go) (split b'/' text)
    × (contains_text text "\\" ≡ false)
    × (all_chars (λ c. not (is_control c)) text ≡ true)

module _ (go : Platform) where
  check_segments_sound :
      (segments : List String)
      → check_segments go segments ≡ ok tt
      → All (PortableSegment go) segments
  unfolding check_segments
  check_segments_sound [] h = tt
  check_segments_sound (segment ∷ segments) h =
      (ground arith, check_segments_sound segments (ground arith))

  check_segments_complete :
      (segments : List String)
      → All (PortableSegment go) segments
      → check_segments go segments ≡ ok tt
  unfolding check_segments
  check_segments_complete [] h = refl
  check_segments_complete (segment ∷ segments) (p, h) =
      ground (arith, check_segments_complete segments h)

  pub segments-Plain :
      (segments : List String) → All (PortableSegment go) segments → All Plain segments
  segments-Plain [] h = tt
  segments-Plain (segment ∷ segments) (p, h) = (p.0, segments-Plain segments h)

  -- An artifact's location is accepted exactly if it is a path whose segments are neither empty
  -- nor dots, hold no colon, end in no dot or space and name no device, and that holds no backslash
  -- and no control character: the checks for an empty, an absolute and an unclean path reject
  -- nothing else.
  pub validate_portable_artifact_uri_iff :
      (text : String) → (validate_portable_artifact_uri go text ≡ ok tt) ↔ Portable go text
  unfolding validate_portable_artifact_uri
  validate_portable_artifact_uri_iff text = (sound, complete)
    where
      sound : validate_portable_artifact_uri go text ≡ ok tt → Portable go text
      sound h = (check_segments_sound (split b'/' text) (ground arith), ground arith, ground arith)

      complete : Portable go text → validate_portable_artifact_uri go text ≡ ok tt
      complete (segments, none_back, none_control) =
          let plain = segments-Plain (split b'/' text) segments in
          ground (
            arith,
            not_empty text plain,
            unrooted text plain,
            path_clean-Plain text plain,
            eq_refl text,
            eq_iff (path_clean text) text,
            check_segments_complete (split b'/' text) segments,
          )

  -- A verified artifact has a portable location and the digest that was expected.
  pub verify_artifact_sound :
      (hash : String → Option String) (text : String) (expected : Digest)
      → verify_artifact go hash text expected ≡ ok tt
      → Portable go text
        × (expected.algorithm ≡ digest_algorithm_sha256)
        × (hash text ≡ some expected.value)
  unfolding verify_artifact
  verify_artifact_sound hash text expected h =
      elim (Result-cases (validate_portable_artifact_uri go text)) [
        | inr (e, failed) ↦ absurd (ground arith)
        | inl (u, accepted) ↦ elim (Option-cases (hash text)) [
          | inl unread ↦ absurd (ground arith)
          | inr (actual, read) ↦ (
            (validate_portable_artifact_uri_iff text).0 accepted,
            ground (arith, eq_iff expected.algorithm digest_algorithm_sha256),
            ground (arith, eq_iff actual expected.value),
          )
        ]
      ]
