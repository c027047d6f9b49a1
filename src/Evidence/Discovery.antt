-- ===== src/Evidence/Discovery.antt =====
-- internal/evidence/loader.go: the discovery of the evidence files below a workspace, and
-- internal/evidence/artifact.go: the hash of an artifact below the evidence root.
pub mod Sound
use assurectl.Prelude.{
  String, Bool, not, ◌&&◌, ◌<>◌, Option, none, some, List, [], ◌∷◌, map, select, is_blank,
  has_suffix, Result, ok, err, guard, ◌>>=◌, ◌>>◌,
}
use assurectl.LocalInput.{
  FileSystem, OpenFile, Presence, DirEntry, InputError, found, resolve_root, path_within,
  open_workspace_regular_file, read_workspace_file,
}
use assurectl.Evaluation.Sorting.{text_less, sort_stable}
use assurectl.Evidence.Load.{LocalCandidate, EvidenceRoot}

abbrev pub local_evidence_relative_root : String
local_evidence_relative_root = ".assurectl/evidence"

pub record LocalDiscovery : Type 0 where
  pub evidence_root : String
  pub candidates : List LocalCandidate

pub data DiscoveryError : Type 0 where
  root_empty directory_inaccessible directory_unresolved directory_outside not_a_directory
        directory_unreadable :
      DiscoveryError
  root_unresolved : InputError → DiscoveryError
  candidate_unreadable : String → InputError → DiscoveryError

abbrev pub nothing : LocalDiscovery
nothing = record { evidence_root = ""; candidates = [] }

abbrev pub workspace : Result InputError String → Result DiscoveryError String
workspace (ok root) = ok root
workspace (err e) = err (root_unresolved e)

module _ (fs : FileSystem) where
  -- The checks of a directory that exists: without symbolic links it is inside the root.
  unfoldable pub resolve_directory : String → String → Result DiscoveryError String
  resolve_directory root path = do
    resolved ← found directory_unresolved (fs.eval_symlinks path)
    inside ← found directory_unresolved (path_within fs root resolved)
    guard inside directory_outside
    info ← found directory_inaccessible (fs.stat resolved)
    guard info.is_dir not_a_directory
    ok resolved

  -- What follows `os.Lstat`: a directory that does not exist holds no evidence.
  abbrev pub if_present :
      Presence → Result DiscoveryError LocalDiscovery → Result DiscoveryError LocalDiscovery
  if_present Presence.present rest = rest
  if_present Presence.missing rest = ok nothing
  if_present Presence.inaccessible rest = err directory_inaccessible

  abbrev is_candidate : DirEntry → Bool
  is_candidate entry = entry.is_regular && has_suffix entry.name ".json"

  unfoldable pub candidate_names : List DirEntry → List String
  candidate_names entries =
      sort_stable text_less (map (λ entry. entry.name) (select is_candidate entries))

  abbrev pub candidate_read :
      String → Result InputError String → Result DiscoveryError LocalCandidate
  candidate_read path (ok content) =
      ok (record { relative_path = path; source = "workspace:" <> path; content = content })
  candidate_read path (err e) = err (candidate_unreadable path e)

  -- the loop over the names
  unfoldable pub read_candidates :
      String → List String → Result DiscoveryError (List LocalCandidate)
  read_candidates root [] = ok []
  read_candidates root (name ∷ names) =
      let path = local_evidence_relative_root <> "/" <> name in
      let rest = read_candidates root names in
      do
        candidate ← candidate_read path (read_workspace_file fs root path)
        candidates ← rest
        ok (candidate ∷ candidates)

  unfoldable pub discover_local : String → Result DiscoveryError LocalDiscovery
  discover_local root = do
    guard (not (is_blank root)) root_empty
    resolved ← workspace (resolve_root fs root)
    let control = fs.join resolved ".assurectl"
    if_present (fs.lstat control) (do
      control_directory ← resolve_directory resolved control
      let logical = fs.join control_directory "evidence"
      if_present (fs.lstat logical) (do
        evidence_root ← resolve_directory resolved logical
        entries ← found directory_unreadable (fs.read_dir evidence_root)
        candidates ← read_candidates root (candidate_names entries)
        ok (record { evidence_root = evidence_root; candidates = candidates })))

  abbrev pub hash_of : Result InputError OpenFile → Option String
  hash_of (ok file) = file.sha256
  hash_of (err e) = none

  -- the hash of the regular file at a path below a directory
  unfoldable pub hash_artifact : String → String → Option String
  hash_artifact evidence_root uri = hash_of (open_workspace_regular_file fs evidence_root uri)

  abbrev root_of : Result DiscoveryError LocalDiscovery → EvidenceRoot
  root_of (ok found) = record {
    discover = some found.candidates;
    hash = hash_artifact found.evidence_root;
  }
  root_of (err e) = record { discover = none; hash = λ uri. none }

  -- what the loader finds below a workspace
  unfoldable pub evidence_of : String → EvidenceRoot
  evidence_of root = root_of (discover_local root)
