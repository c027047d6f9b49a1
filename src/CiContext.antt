-- ===== src/CiContext.antt =====
-- internal/cicontext/cicontext.go: what the CI runner asserts.
use Prim.Native.Char.{code}
use assurectl.Prelude.{
  is_alphanumeric, is_identifier_char, all_chars, is_blank, ◌||◌, false, String, Bool, not, ◌&&◌,
  none, some, List, [], ◌∷◌, ◌<>◌, ◌==◌, if◌then◌else◌, cut_at, object_id_pattern, Result, ok,
  guard, ◌>>◌,
}
use assurectl.Platform.{Platform}
use assurectl.GitSubject.Identity.{IdentityError, canonicalize_repository_identity}

pub record Context : Type 0 where
  pub repository : String
  pub sha : String
  pub ref : String
  pub workflow_ref : String
  pub workflow_sha : String
  pub run_id : String
  pub run_attempt : String
  pub event_name : String

-- The source ranges over a map of the required variables, so which missing one it reports is open.
pub data ContextError : Type 0 where
  variable_missing sha_not_object_id workflow_sha_not_object_id repository_not_owner_and_name :
      ContextError

-- does an entry set the name
abbrev is_assigned : List String → String → Bool
is_assigned [] name = false
is_assigned (entry ∷ entries) name = elim (cut_at b'=' entry) [
  | none ↦ is_assigned entries name
  | some (key, value) ↦ key == name || is_assigned entries name
]

-- A map from names to values, in which a later entry overwrites an earlier one. A missing name
-- reads as the empty text.
unfoldable pub value_of : List String → String → String
value_of [] name = ""
value_of (entry ∷ entries) name =
    let rest = value_of entries name in
    elim (cut_at b'=' entry) [
      | none ↦ rest
      | some (key, value) ↦ if key == name && not (is_assigned entries name) then value else rest
    ]

-- [A-Za-z0-9][A-Za-z0-9._-]*
abbrev is_name : String → Bool
is_name String.[] = false
is_name (String.◌∷◌ c s) = is_alphanumeric (code c) && all_chars is_identifier_char s

-- ^[A-Za-z0-9][A-Za-z0-9._-]*/[A-Za-z0-9][A-Za-z0-9._-]*$
unfoldable pub repository_pattern : String → Bool
repository_pattern text = elim (cut_at b'/' text) [
  | none ↦ false
  | some (owner, name) ↦ is_name owner && is_name name
]

abbrev is_given : List String → String → Bool
is_given environ name = not (is_blank (value_of environ name))

unfoldable pub read : List String → Result ContextError Context
read environ = do
  guard
      (is_given environ "GITHUB_REPOSITORY"
        && is_given environ "GITHUB_SHA"
        && is_given environ "GITHUB_WORKFLOW_REF"
        && is_given environ "GITHUB_WORKFLOW_SHA"
        && is_given environ "GITHUB_RUN_ID")
      variable_missing
  guard (object_id_pattern (value_of environ "GITHUB_SHA")) sha_not_object_id
  guard (object_id_pattern (value_of environ "GITHUB_WORKFLOW_SHA")) workflow_sha_not_object_id
  guard (repository_pattern (value_of environ "GITHUB_REPOSITORY")) repository_not_owner_and_name
  ok (record {
    repository = value_of environ "GITHUB_REPOSITORY";
    sha = value_of environ "GITHUB_SHA";
    ref = value_of environ "GITHUB_REF";
    workflow_ref = value_of environ "GITHUB_WORKFLOW_REF";
    workflow_sha = value_of environ "GITHUB_WORKFLOW_SHA";
    run_id = value_of environ "GITHUB_RUN_ID";
    run_attempt = value_of environ "GITHUB_RUN_ATTEMPT";
    event_name = value_of environ "GITHUB_EVENT_NAME";
  })

unfoldable pub canonical_repository : Platform → Context → Result IdentityError String
canonical_repository go context =
    canonicalize_repository_identity go ("github.com/" <> context.repository)
