-- ===== src/LocalInput.antt =====
-- internal/localinput/read.go: the reading of files below a root. The functions of packages os and
-- path/filepath are parameters, on a system whose separator is the slash.
pub mod Sound
use Prim.Native.String
use assurectl.Prelude.{
  ℕ, suc, ◌^◌, String, Bool, not, ◌&&◌, ◌||◌, ◌==◌, ◌<>◌, Option, none, some, List, leb, is_blank,
  has_prefix, path_clean, Result, ok, err, guard, ◌>>=◌, ◌>>◌,
}

-- `os.FileInfo`
pub record FileInfo : Type 0 where
  pub is_dir : Bool
  pub is_regular : Bool
  pub size : ℕ

-- An open file: what `Stat` says of it, what `io.ReadAll` reads of its first bytes, at most as many
-- as the number, and the hexadecimal SHA-256 of its content.
pub record OpenFile : Type 0 where
  pub info : Option FileInfo
  pub read : ℕ → Option String
  pub sha256 : Option String

-- `os.DirEntry`
pub record DirEntry : Type 0 where
  pub name : String
  pub is_regular : Bool

-- What `os.Lstat` says of a path.
pub data Presence : Type 0 where
  present missing inaccessible : Presence

pub record FileSystem : Type 0 where
  -- `filepath.Abs`, `filepath.EvalSymlinks` and `filepath.Rel`
  pub abs : String → Option String
  pub eval_symlinks : String → Option String
  pub rel : String → String → Option String
  -- `filepath.Join` of two
  pub join : String → String → String
  pub stat : String → Option FileInfo
  pub lstat : String → Presence
  pub open_file : String → Option OpenFile
  pub read_dir : String → Option (List DirEntry)

pub data InputError : Type 0 where
  root_empty path_invalid root_unresolved root_not_a_directory path_unresolved path_outside
        path_inaccessible not_a_regular_file unopened unreadable too_large :
      InputError

abbrev pub max_workspace_input_bytes : ℕ
max_workspace_input_bytes = 2 ^ 20

abbrev pub found {ℓ κ} : {E : Type κ} {A : Type ℓ} → E → Option A → Result E A
found e none = err e
found e (some a) = ok a

-- The relative path does not lead out of its root.
unfoldable pub stays_inside : String → Bool
stays_inside relative = not (relative == "..") && not (has_prefix relative "../")

-- the check of a cleaned path
unfoldable pub is_local_path : String → Bool
is_local_path clean =
    not (clean == "." || has_prefix clean "/" || clean == ".." || has_prefix clean "../")

module _ (fs : FileSystem) where
  unfoldable pub path_within : String → String → Option Bool
  path_within root candidate = elim (fs.rel root candidate) [
    | none ↦ none
    | some relative ↦ some (stays_inside relative)
  ]

  -- the root without symbolic links, if it is a directory
  unfoldable pub resolve_root : String → Result InputError String
  resolve_root root = do
    absolute ← found root_unresolved (fs.abs root)
    resolved ← found root_unresolved (fs.eval_symlinks absolute)
    info ← found root_unresolved (fs.stat resolved)
    guard info.is_dir root_not_a_directory
    ok resolved

  unfoldable pub resolve_path : String → String → Result InputError String
  resolve_path root clean = do
    path ← found path_unresolved (fs.eval_symlinks (fs.join root clean))
    inside ← found path_unresolved (path_within root path)
    guard inside path_outside
    info ← found path_inaccessible (fs.stat path)
    guard info.is_regular not_a_regular_file
    ok path

  unfoldable pub open_workspace_regular_file : String → String → Result InputError OpenFile
  open_workspace_regular_file root relative_path = do
    guard (not (is_blank root)) root_empty
    guard (is_local_path (path_clean relative_path)) path_invalid
    resolved ← resolve_root root
    path ← resolve_path resolved (path_clean relative_path)
    found unopened (fs.open_file path)

  unfoldable pub read_workspace_file : String → String → Result InputError String
  read_workspace_file root relative_path = do
    file ← open_workspace_regular_file root relative_path
    info ← found unreadable file.info
    guard (leb info.size max_workspace_input_bytes) too_large
    content ← found unreadable (file.read (suc max_workspace_input_bytes))
    guard (leb (String.len content) max_workspace_input_bytes) too_large
    ok content
