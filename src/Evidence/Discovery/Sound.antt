-- ===== src/Evidence/Discovery/Sound.antt =====
-- internal/evidence/loader.go and artifact.go: which files the loader reads and hashes.
use Prim.Native.String
use mathlib.Core.List.{Perm}
use assurectl.Prelude.{
  ◌≤◌, String, true, ◌&&◌, ◌≡◌, refl, sym, subst, ap, ◌∙◌, ◌⊎◌, inl, inr, ◌<>◌, some, List, [], ◌∷◌,
  map, select, split, has_suffix, ◌>>=◌, is_blank, path_clean, Result, ok, err, Result-cases,
  bind_ok, guard_ok, guard-not_ok, ok_injective, arith,
}
use assurectl.Platform.{Platform}
use assurectl.LocalInput.{
  FileSystem, OpenFile, Presence, DirEntry, InputError, max_workspace_input_bytes, found,
  stays_inside, is_local_path, resolve_root, path_within, open_workspace_regular_file,
  read_workspace_file,
}
use assurectl.LocalInput.Sound.{
  InsideRoot, found_ok, path_within_sound, open_workspace_regular_file_sound,
  read_workspace_file_bounded, is_local_path-Plain,
}
use assurectl.Evaluation.Sorting.{text_less}
use assurectl.Evaluation.Sorting.Order.{text_less-asym, text_le_trans}
use assurectl.Evaluation.Sorting.Stable.{Ordered, sort_stable-perm, Ordered-sort_stable}
use assurectl.Evidence.Load.{LocalCandidate}
use assurectl.Evidence.Location.Sound.{Portable, segments-Plain}
use assurectl.Evidence.Discovery.{
  LocalDiscovery, DiscoveryError, directory_unresolved, directory_inaccessible,
  directory_unreadable, local_evidence_relative_root, nothing, workspace, resolve_directory,
  if_present, candidate_names, candidate_read, read_candidates, discover_local, hash_artifact,
}

-- The two lists pair up: the candidate is the content, of at most 2^20 bytes, of the file of that
-- name in the evidence directory.
module _ (fs : FileSystem) (root : String) where
  abbrev pub CandidateNamed : LocalCandidate → String → Type 0
  CandidateNamed candidate name =
      (candidate.source ≡ "workspace:" <> local_evidence_relative_root <> "/" <> name)
      × (read_workspace_file fs root (local_evidence_relative_root <> "/" <> name)
          ≡ ok candidate.content)
      × (String.len candidate.content ≤ max_workspace_input_bytes)

  abbrev pub CandidatesNamed : List LocalCandidate → List String → Type 0
  CandidatesNamed [] [] = Unit
  CandidatesNamed [] (name ∷ names) = ⊥
  CandidatesNamed (candidate ∷ candidates) [] = ⊥
  CandidatesNamed (candidate ∷ candidates) (name ∷ names) =
      CandidateNamed candidate name × CandidatesNamed candidates names

  candidate_read_sound :
      (path : String) (r : Result InputError String) (candidate : LocalCandidate)
      → candidate_read fs path r ≡ ok candidate
      → (candidate.source ≡ "workspace:" <> path) × (r ≡ ok candidate.content)
  candidate_read_sound path (ok content) candidate h =
      (ap (λ c. c.source) (sym (ok_injective h)), ap (λ c. ok c.content) (ok_injective h))
  candidate_read_sound path (err e) candidate h = absurd (cc)

  read_candidates_sound :
      (names : List String) (candidates : List LocalCandidate)
      → read_candidates fs root names ≡ ok candidates
      → CandidatesNamed candidates names
  unfolding read_candidates
  read_candidates_sound [] candidates h = subst (λ c. CandidatesNamed c []) (ok_injective h) tt
  read_candidates_sound (name ∷ names) candidates h =
      let path = local_evidence_relative_root <> "/" <> name in
      let (first, f, h1) =
        bind_ok (candidate_read fs path (read_workspace_file fs root path)) _ h in
      let (rest, r, h2) = bind_ok (read_candidates fs root names) _ h1 in
      let (source, read) = candidate_read_sound path (read_workspace_file fs root path) first f in
      subst (λ c. CandidatesNamed c (name ∷ names)) (ok_injective h2)
        (
          (source, read, (read_workspace_file_bounded fs root path first.content read).0),
          read_candidates_sound names rest r,
        )

  -- The links of the control directory and of the evidence directory in it, without symbolic links.
  abbrev ControlAt : String → String → Type 0
  ControlAt resolved control = fs.eval_symlinks (fs.join resolved ".assurectl") ≡ some control

  -- There is no control directory, or no evidence directory in it.
  abbrev pub NothingThere : Type 0
  NothingThere =
      (resolved : String) × (resolve_root fs root ≡ ok resolved)
      × ((fs.lstat (fs.join resolved ".assurectl") ≡ Presence.missing)
          ⊎ ((control : String) × ControlAt resolved control
              × (fs.lstat (fs.join control "evidence") ≡ Presence.missing)))

  -- The evidence directory does not lead out of the workspace, and the candidates are its regular
  -- files with the ending .json, each once, in the order of their names.
  abbrev pub Discovered : LocalDiscovery → Type 0
  Discovered discovery =
      (resolved : String) × (control : String) × (relative : String) × (entries : List DirEntry)
      × (names : List String) × (resolve_root fs root ≡ ok resolved)
      × ControlAt resolved control
      × (fs.eval_symlinks (fs.join control "evidence") ≡ some discovery.evidence_root)
      × (fs.rel resolved discovery.evidence_root ≡ some relative)
      × (stays_inside relative ≡ true)
      × (fs.read_dir discovery.evidence_root ≡ some entries)
      × Perm names
          (map (λ e. e.name) (select (λ e. e.is_regular && has_suffix e.name ".json") entries))
      × Ordered text_less names
      × CandidatesNamed discovery.candidates names

  if_present_ok :
      (p : Presence) (rest : Result DiscoveryError LocalDiscovery) (d : LocalDiscovery)
      → if_present fs p rest ≡ ok d
      → ((p ≡ Presence.missing) × (d ≡ nothing)) ⊎ (rest ≡ ok d)
  if_present_ok Presence.present rest d h = inr h
  if_present_ok Presence.missing rest d h = inl (refl, sym (ok_injective h))
  if_present_ok Presence.inaccessible rest d h = absurd (cc)

  workspace_ok : (r : Result InputError String) {s : String} → workspace r ≡ ok s → r ≡ ok s
  workspace_ok (ok s) h = ap ok (ok_injective h)
  workspace_ok (err e) h = absurd (cc)

  resolve_directory_sound :
      (top path directory : String)
      → resolve_directory fs top path ≡ ok directory
      → (relative : String) × (fs.eval_symlinks path ≡ some directory)
        × (fs.rel top directory ≡ some relative)
        × (stays_inside relative ≡ true)
  unfolding resolve_directory
  resolve_directory_sound top path directory h =
      let (resolved, r, h1) = bind_ok (found directory_unresolved (fs.eval_symlinks path)) _ h in
      let (inside, i, h2) =
        bind_ok (found directory_unresolved (path_within fs top resolved)) _ h1 in
      let (yes_inside, h3) = guard_ok inside _ _ h2 in
      let (info, s, h4) = bind_ok (found directory_inaccessible (fs.stat resolved)) _ h3 in
      let (is_directory, h5) = guard_ok info.is_dir _ _ h4 in
      let (relative, l, stays) =
        path_within_sound fs top resolved (found_ok _ _ i ∙ ap some yes_inside) in
      subst
        (λ d.
          (relative : String) × (fs.eval_symlinks path ≡ some d)
          × (fs.rel top d ≡ some relative)
          × (stays_inside relative ≡ true))
        (ok_injective h5) (relative, found_ok _ _ r, l, stays)

  -- The candidates of a directory that is there.
  abbrev listed : String → Result DiscoveryError LocalDiscovery
  listed directory = do
    entries ← found directory_unreadable (fs.read_dir directory)
    candidates ← read_candidates fs root (candidate_names fs entries)
    ok (record { evidence_root = directory; candidates = candidates })

  listed_sound :
      (resolved control directory : String) (discovery : LocalDiscovery)
      → resolve_root fs root ≡ ok resolved
      → ControlAt resolved control
      → resolve_directory fs resolved (fs.join control "evidence") ≡ ok directory
      → listed directory ≡ ok discovery
      → Discovered discovery
  unfolding candidate_names
  listed_sound resolved control directory discovery top c d h =
      let (entries, e, h1) = bind_ok (found directory_unreadable (fs.read_dir directory)) _ h in
      let (candidates, n, h2) =
        bind_ok (read_candidates fs root (candidate_names fs entries)) _ h1 in
      let (relative, place, l, stays) = resolve_directory_sound resolved _ directory d in
      subst Discovered (ok_injective h2) (
        resolved,
        control,
        relative,
        entries,
        candidate_names fs entries,
        top,
        c,
        place,
        l,
        stays,
        found_ok _ _ e,
        sort_stable-perm text_less _,
        Ordered-sort_stable text_less text_less-asym text_le_trans _,
        read_candidates_sound (candidate_names fs entries) candidates n,
      )

  -- The loader finds nothing only where the control directory or the evidence directory in it does
  -- not exist. Otherwise it finds an evidence directory that does not lead out of the workspace,
  -- and in it the regular files named *.json in the order of their names, each of at most 2^20
  -- bytes.
  pub discover_local_sound :
      (discovery : LocalDiscovery)
      → discover_local fs root ≡ ok discovery
      → (NothingThere × (discovery ≡ nothing)) ⊎ Discovered discovery
  unfolding discover_local
  discover_local_sound discovery h =
      let (given, h1) = guard-not_ok (is_blank root) _ _ h in
      let (resolved, r, h2) = bind_ok (workspace (resolve_root fs root)) _ h1 in
      let top = workspace_ok _ r in
      elim (if_present_ok (fs.lstat (fs.join resolved ".assurectl")) _ discovery h2) [
        | inl (missing, none_found) ↦ inl ((resolved, top, inl missing), none_found)
        | inr h3 ↦
            let (control, c, h4) =
              bind_ok (resolve_directory fs resolved (fs.join resolved ".assurectl")) _ h3 in
            let (_, linked, _, _) = resolve_directory_sound resolved _ control c in
            elim (if_present_ok (fs.lstat (fs.join control "evidence")) _ discovery h4) [
              | inl (missing, none_found) ↦
                  inl ((resolved, top, inr (control, linked, missing)), none_found)
              | inr h5 ↦
                  let (directory, d, h6) =
                    bind_ok (resolve_directory fs resolved (fs.join control "evidence")) _ h5 in
                  inr (listed_sound resolved control directory discovery top linked d h6)
            ]
      ]

-- An artifact's hash is the one of a regular file whose path, without symbolic links, does not lead
-- out of the evidence directory.
pub hash_artifact_sound :
    (fs : FileSystem) (evidence_root uri value : String)
    → hash_artifact fs evidence_root uri ≡ some value
    → (resolved : String) × (path : String) × (file : OpenFile) × (resolve_root fs evidence_root
        ≡ ok resolved)
      × InsideRoot fs resolved path
      × (fs.open_file path ≡ some file)
      × (file.sha256 ≡ some value)
unfolding hash_artifact
hash_artifact_sound fs evidence_root uri value h =
    elim (Result-cases (open_workspace_regular_file fs evidence_root uri)) [
      | inr (e, failed) ↦ absurd (ground arith)
      | inl (file, opened) ↦
          let (resolved, path, root_found, inside, found_file) =
            open_workspace_regular_file_sound fs evidence_root uri file opened in
          (resolved, path, file, root_found, inside, found_file, ground arith)
    ]

-- A portable location is a local path: the check of internal/localinput refuses none of those that
-- the check of internal/evidence accepts.
pub is_local_path-Portable :
    (go : Platform) (uri : String) → Portable go uri → is_local_path (path_clean uri) ≡ true
is_local_path-Portable go uri (segments, _, _) =
    is_local_path-Plain uri (segments-Plain go (split b'/' uri) segments)
