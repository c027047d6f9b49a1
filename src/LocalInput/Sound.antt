-- ===== src/LocalInput/Sound.antt =====
-- internal/localinput/read.go: which files are opened, and how much is read of them.
use Prim.Native.String
use assurectl.Prelude.{
  suc, ◌≤◌, String, true, ◌≡◌, refl, subst, ap, ◌∙◌, inl, inr, Option-cases, Option, none, some,
  All, split, Plain, unrooted, not_dot, not_dots, no_dots_first, path_clean-Plain, leb, is_blank,
  path_clean, ok, bind_ok, guard_ok, guard-not_ok, ok_injective, arith,
}
use assurectl.LocalInput.{
  FileInfo, OpenFile, FileSystem, max_workspace_input_bytes, found, path_unresolved,
  path_inaccessible, unreadable, stays_inside, is_local_path, path_within, resolve_root,
  resolve_path, open_workspace_regular_file, read_workspace_file,
}

pub found_ok {ℓ κ} :
    {E : Type κ} {A : Type ℓ} (e : E) (o : Option A) {a : A} → found e o ≡ ok a → o ≡ some a
found_ok e (some b) h = cc
found_ok e none h = absurd (cc)

module _ (fs : FileSystem) where
  -- The path has no symbolic links, names a regular file, and its path relative to the root does
  -- not lead out of it.
  pub record InsideRoot (root path : String) : Type 0 where
    pub logical : String
    pub resolved : fs.eval_symlinks logical ≡ some path
    pub relative : String
    pub relative_found : fs.rel root path ≡ some relative
    pub inside : stays_inside relative ≡ true
    pub info : FileInfo
    pub info_found : fs.stat path ≡ some info
    pub regular : info.is_regular ≡ true

  pub path_within_sound :
      (root path : String)
      → path_within fs root path ≡ some true
      → (relative : String) × (fs.rel root path ≡ some relative) × (stays_inside relative ≡ true)
  unfolding path_within
  path_within_sound root path h = elim (Option-cases (fs.rel root path)) [
    | inl failed ↦ absurd (ground arith)
    | inr (relative, r) ↦ (relative, r, ground arith)
  ]

  resolve_path_sound :
      (root clean path : String) → resolve_path fs root clean ≡ ok path → InsideRoot root path
  unfolding resolve_path
  resolve_path_sound root clean path h =
      let (candidate, c, h1) =
        bind_ok (found path_unresolved (fs.eval_symlinks (fs.join root clean))) _ h in
      let (inside, i, h2) = bind_ok (found path_unresolved (path_within fs root candidate)) _ h1 in
      let (yes_inside, h3) = guard_ok inside _ _ h2 in
      let (info, s, h4) = bind_ok (found path_inaccessible (fs.stat candidate)) _ h3 in
      let (regular, h5) = guard_ok info.is_regular _ _ h4 in
      let (relative, r, stays) =
        path_within_sound root candidate (found_ok _ _ i ∙ ap some yes_inside) in
      subst (InsideRoot root) (ok_injective h5) (record {
        logical = fs.join root clean;
        resolved = found_ok _ _ c;
        relative = relative;
        relative_found = r;
        inside = stays;
        info = info;
        info_found = found_ok _ _ s;
        regular = regular;
      })

  -- The opened file is a regular file below the root.
  pub open_workspace_regular_file_sound :
      (root relative_path : String) (file : OpenFile)
      → open_workspace_regular_file fs root relative_path ≡ ok file
      → (resolved : String) × (path : String) × (resolve_root fs root ≡ ok resolved)
        × InsideRoot resolved path
        × (fs.open_file path ≡ some file)
  unfolding open_workspace_regular_file
  open_workspace_regular_file_sound root relative_path file h =
      let (given, h1) = guard-not_ok (is_blank root) _ _ h in
      let (lexical, h2) = guard_ok (is_local_path (path_clean relative_path)) _ _ h1 in
      let (resolved, r, h3) = bind_ok (resolve_root fs root) _ h2 in
      let (path, p, h4) = bind_ok (resolve_path fs resolved (path_clean relative_path)) _ h3 in
      (
        resolved,
        path,
        r,
        resolve_path_sound resolved (path_clean relative_path) path p,
        found_ok _ _ h4,
      )

  -- What is read of a workspace has at most 2^20 bytes, the file said so before it was read, and it
  -- is a regular file whose path, without symbolic links, does not lead out of the root.
  pub read_workspace_file_bounded :
      (root relative_path content : String)
      → read_workspace_file fs root relative_path ≡ ok content
      → (String.len content ≤ max_workspace_input_bytes)
        × ((resolved : String) × (path : String) × (file : OpenFile) × (info : FileInfo)
            × (resolve_root fs root ≡ ok resolved)
            × InsideRoot resolved path
            × (fs.open_file path ≡ some file)
            × (file.info ≡ some info)
            × (info.size ≤ max_workspace_input_bytes))
  unfolding read_workspace_file
  read_workspace_file_bounded root relative_path content h =
      let (file, f, h1) = bind_ok (open_workspace_regular_file fs root relative_path) _ h in
      let (info, i, h2) = bind_ok (found unreadable file.info) _ h1 in
      let (small, h3) = guard_ok (leb info.size max_workspace_input_bytes) _ _ h2 in
      let (read, r, h4) =
        bind_ok (found unreadable (file.read (suc max_workspace_input_bytes))) _ h3 in
      let (short, h5) = guard_ok (leb (String.len read) max_workspace_input_bytes) _ _ h4 in
      let (resolved, path, root_found, inside, opened) =
        open_workspace_regular_file_sound root relative_path file f in
      (
        subst (λ c. String.len c ≤ max_workspace_input_bytes) (ok_injective h5) (ground arith),
        (resolved, path, file, info, root_found, inside, opened, found_ok _ _ i, ground arith),
      )

-- A path whose segments are neither empty nor dots is local: no path of that form leads out of the
-- directory that it is relative to.
pub is_local_path-Plain :
    (s : String) → All Plain (split b'/' s) → is_local_path (path_clean s) ≡ true
unfolding is_local_path
is_local_path-Plain s h =
    rw (path_clean-Plain s h, unrooted s h, not_dot s h, not_dots s h, no_dots_first s h) refl
