-- ===== src/GitSubject/Identity.antt =====
-- internal/gitsubject/identity.go: one text for each repository, whatever the transport. An error
-- is the constructor that stands for its `fmt.Errorf` call.
use Prim.Native.String
use assurectl.Prelude.{
  String, Bool, not, ◌&&◌, ◌||◌, Option, none, some, List, all_chars, is_lower_hex, has_prefix,
  trim_prefix, trim_suffix, contains_text, cut_at, contains_any, split, join, trim_space, contains,
  [], ◌∷◌, ◌<>◌, ◌==◌, eqb, if◌then◌else◌, Result, ok, err, guard, ◌>>=◌, ◌>>◌,
}
use assurectl.Platform.{Platform, Url}

pub data IdentityError : Type 0 where
  local_digest_length local_digest_not_hexadecimal scp_username_unsupported scp_host_or_path_empty
        scp_form_hosted scp_form_not_canonical not_hosted_identity host_without_transport
        hosted_form_not_canonical uri_empty uri_surrounding_whitespace uri_control_character
        uri_percent_encoding uri_malformed uri_query_or_fragment uri_port uri_credentials
        ssh_username_required uri_password ssh_username_unsupported scheme_unsupported host_empty
        host_surrounding_whitespace host_malformed path_empty path_backslash path_ambiguous_segment
        path_unsupported_character no_transport no_path_separator scp_path_empty
        scp_user_or_host_empty scp_malformed scp_absolute_path :
      IdentityError

abbrev hosted_providers : List String
hosted_providers = "bitbucket.org" ∷ "github.com" ∷ "gitlab.com" ∷ []

unfoldable pub cross_transport_identity_allowed : Platform → String → Bool
cross_transport_identity_allowed go host = contains hosted_providers (go.to_lower host)

abbrev is_ambiguous : String → Bool
is_ambiguous segment = segment == "" || segment == "." || segment == ".."

-- NUL, carriage return and line feed
abbrev control_characters : String
control_characters = "\0\r\n"

-- the loop over the segments of a path, which returns at the first bad one
check_segments : List String → Result IdentityError (Unit {0})
check_segments [] = ok tt
check_segments (segment ∷ segments) =
    let rest = check_segments segments in
    if is_ambiguous segment
    then err path_ambiguous_segment
    else if contains_any segment (control_characters <> "?#")
    then err path_unsupported_character
    else rest

unfoldable pub canonical_host_path : Platform → String → String → Result IdentityError String
unfolding check_segments
canonical_host_path go raw_host raw_path = do
  guard (trim_space raw_host == raw_host) host_surrounding_whitespace
  let host = go.to_lower raw_host
  guard (not (host == "" || contains_any host " \t/@?#\\")) host_malformed
  let path = trim_suffix (trim_suffix (trim_prefix raw_path "/") "/") ".git"
  guard (not (path == "")) path_empty
  guard (not (contains_text path "\\")) path_backslash
  let segments = split b'/' path
  check_segments segments
  ok (host <> "/" <> join "/" segments)

-- The texts before and behind the first slash, if neither is empty.
abbrev host_and_path : IdentityError → String → Result IdentityError (String × String)
host_and_path e raw = elim (cut_at b'/' raw) [
  | none ↦ err e
  | some (host, path) ↦ if host == "" || path == "" then err e else ok (host, path)
]

scp_identity : Platform → String → Result IdentityError String
scp_identity go raw = do
  guard (has_prefix raw "ssh+scp://git@") scp_username_unsupported
  (host, path) ← host_and_path scp_host_or_path_empty (trim_prefix raw "ssh+scp://git@")
  canonical ← canonical_host_path go host path
  guard (not (cross_transport_identity_allowed go host)) scp_form_hosted
  guard ("ssh+scp://git@" <> canonical == raw) scp_form_not_canonical
  ok ("ssh+scp://git@" <> canonical)

hosted_identity : Platform → String → Result IdentityError String
hosted_identity go raw = do
  (host, path) ← host_and_path not_hosted_identity raw
  guard (cross_transport_identity_allowed go host) host_without_transport
  canonical ← canonical_host_path go host path
  guard (canonical == raw) hosted_form_not_canonical
  ok canonical

local_identity : String → Result IdentityError String
local_identity raw =
    let digest = trim_prefix raw "local://sha256/" in
    do
      guard (eqb (String.len digest) 64) local_digest_length
      guard (all_chars is_lower_hex digest) local_digest_not_hexadecimal
      ok raw

-- `canonicalizeSCPLikeURI`. The text behind the first `@` is cut at its first colon.
unfoldable pub canonicalize_scp_like_uri : Platform → String → Result IdentityError String
canonicalize_scp_like_uri go raw = elim (cut_at b'@' raw) [
  | none ↦ err no_transport
  | some (user, behind) ↦ if user == "" then err no_transport else elim (cut_at b':' behind) [
    | none ↦ err no_path_separator
    | some (host, path) ↦ do
      guard (not (path == "")) scp_path_empty
      guard (not (host == "")) scp_user_or_host_empty
      guard (user == "git") scp_username_unsupported
      guard (not (contains_any (user <> host) "/\\?#")) scp_malformed
      guard (not (has_prefix path "/")) scp_absolute_path
      canonical ← canonical_host_path go host path
      if cross_transport_identity_allowed go host
          then ok canonical
          else ok ("ssh+scp://git@" <> canonical)
  ]
]

-- the switch over the scheme: who may be named in front of the host
check_user : String → Option (String × Bool) → Result IdentityError (Unit {0})
check_user scheme user =
    if scheme == "http" || scheme == "https"
    then (elim user [ none ↦ ok tt | some u ↦ err uri_credentials ])
    else if scheme == "ssh"
    then (elim user [
      | none ↦ err ssh_username_required
      | some (name, has_password) ↦ do
        guard (not has_password) uri_password
        guard (name == "git") ssh_username_unsupported
    ])
    else err scheme_unsupported

prefix_scheme : String → String → Result IdentityError String
prefix_scheme scheme canonical =
    if scheme == "http"
    then ok ("http://" <> canonical)
    else if scheme == "https"
    then ok ("https://" <> canonical)
    else if scheme == "ssh"
    then ok ("ssh://git@" <> canonical)
    else err scheme_unsupported

canonicalize_url : Platform → Url → Result IdentityError String
unfolding check_user prefix_scheme
canonicalize_url go parsed = do
  guard (parsed.raw_query == "" && parsed.fragment == "") uri_query_or_fragment
  guard (parsed.port == "") uri_port
  let scheme = go.to_lower parsed.scheme
  check_user scheme parsed.user
  guard (not (parsed.hostname == "")) host_empty
  canonical ← canonical_host_path go parsed.hostname parsed.path
  if cross_transport_identity_allowed go parsed.hostname
      then ok canonical
      else prefix_scheme scheme canonical

unfoldable pub canonicalize_repository_uri : Platform → String → Result IdentityError String
unfolding canonicalize_url
canonicalize_repository_uri go raw = do
  guard (not (raw == "")) uri_empty
  guard (trim_space raw == raw) uri_surrounding_whitespace
  guard (not (contains_any raw control_characters)) uri_control_character
  guard (not (contains_text raw "%")) uri_percent_encoding
  if not (contains_text raw "://")
      then canonicalize_scp_like_uri go raw
      else elim (go.parse_url raw) [
        | none ↦ err uri_malformed
        | some parsed ↦ canonicalize_url go parsed
      ]

unfoldable pub canonicalize_repository_identity : Platform → String → Result IdentityError String
unfolding local_identity scp_identity hosted_identity
canonicalize_repository_identity go raw =
    if has_prefix raw "local://sha256/"
    then local_identity raw
    else if has_prefix raw "ssh+scp://"
    then scp_identity go raw
    else if not (contains_text raw "://") && not (contains_text raw "@")
    then hosted_identity go raw
    else canonicalize_repository_uri go raw
