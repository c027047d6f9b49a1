-- ===== src/Prelude.antt =====
-- The names that the other modules share: the libraries', passed on, and those of the children.
pub mod Tests
pub mod Results
pub mod Lists
pub mod Texts
pub mod Seen
pub mod Strings
pub mod Paths
pub mod Nonempty
pub use Tests.*
pub use Results.*
pub use Lists.*
pub use Seen.*
pub use Nonempty.{nonempty-append, at_member, All-same_members, nonempty-same_members}
pub use Texts.{
  within, contains, all_chars, is_alphanumeric, is_identifier_char, is_lower_hex, is_space, Bounded,
}
unfoldable pub use Texts.{canonical_identifier, digest_pattern, object_id_pattern, is_blank}
unfoldable pub use Strings.{
  strip_prefix, has_prefix, trim_prefix, trim_suffix, has_suffix, contains_text, cut_at, has_char,
  contains_any, split, join, trim_space,
}
pub use Paths.{
  plain_segment, Plain, join-split, path_clean-Plain, unrooted, not_empty, not_dot, not_dots,
  no_dots_first,
}
unfoldable pub use Paths.{path_clean}
pub use Prim.Native.Nat.{ℕ, zero, suc, ◌+◌, ◌-◌, ◌*◌, ◌^◌, ◌≤◌, ◌<◌, min}
pub use Prim.Native.String.{String}
pub use Strings.{◌<>◌}
pub use mathlib.Core.Path.{◌≡◌, refl, sym, ◌∙◌, ap, subst}
pub use mathlib.Core.Logic.{◌≢◌, ◌↔◌, ◌⊎◌, inl, inr}
pub use mathlib.Core.Bool.{Bool, true, false, not, ◌&&◌, ◌||◌, false≢true}
pub use mathlib.Core.Option.{Option, none, some}
pub use mathlib.Core.List.{List, [], ◌∷◌, ◌++◌, map}
pub use native.Mathlib.Omega.{arith}
pub use text.Mathlib.Text.{◌==◌}
pub use text.Mathlib.TextEquality.{eq_iff}
pub use text.Mathlib.TextPositions.{eq_refl}
