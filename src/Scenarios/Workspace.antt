-- ===== src/Scenarios/Workspace.antt =====
-- Runs of internal/localinput and of the discovery of internal/evidence on a small directory.
use Prim.Native.String
use assurectl.Prelude.{
  ◌≤◌, String, true, ◌≡◌, ◌⊎◌, refl, some, [], ◌∷◌, ok, ◌<>◌, is_blank, has_prefix, has_suffix,
  contains_text, path_clean, cut_at,
}
use assurectl.LocalInput.{
  FileInfo, OpenFile, FileSystem, Presence, max_workspace_input_bytes, is_local_path, stays_inside,
  path_within, resolve_root, resolve_path, open_workspace_regular_file, read_workspace_file,
}
use assurectl.LocalInput.Sound.{InsideRoot, read_workspace_file_bounded}
use assurectl.Evaluation.Sorting.{sort_stable, insert}
use assurectl.Evidence.Location.{
  check_segments, is_windows_device_name, validate_portable_artifact_uri,
}
use assurectl.Evidence.Location.Sound.{validate_portable_artifact_uri_iff}
use assurectl.Evidence.Discovery.{
  LocalDiscovery, nothing, resolve_directory, candidate_names, read_candidates, discover_local,
}
use assurectl.Evidence.Discovery.Sound.{
  NothingThere, Discovered, discover_local_sound, is_local_path-Portable,
}
use assurectl.Scenarios.{demo_platform, zero_hash}

abbrev demo_info : FileInfo
demo_info = record { is_dir = true; is_regular = true; size = 2 }

abbrev demo_file : OpenFile
demo_file = record { info = some demo_info; read = λ n. some "{}"; sha256 = some zero_hash }

-- Every path is both a file and a directory; the directory has an evidence file and another one.
abbrev demo_system : FileSystem
demo_system = record {
  abs = λ path. some "/work";
  eval_symlinks = λ path. some path;
  rel = λ root path. some "inside";
  join = λ a b. a <> "/" <> b;
  stat = λ path. some demo_info;
  lstat = λ path. Presence.present;
  open_file = λ path. some demo_file;
  read_dir = λ path. some (
      record { name = "readme.txt"; is_regular = true }
      ∷ record { name = "unit.json"; is_regular = true }
      ∷ []);
}

abbrev demo_discovery : LocalDiscovery
demo_discovery = record {
  evidence_root = "/work/.assurectl/evidence";
  candidates =
      record {
        relative_path = ".assurectl/evidence/unit.json";
        source = "workspace:.assurectl/evidence/unit.json";
        content = "{}";
      }
      ∷ [];
}

reads : read_workspace_file demo_system "." "a/b.json" ≡ ok "{}"
unfolding read_workspace_file open_workspace_regular_file is_blank is_local_path path_clean
    resolve_root resolve_path path_within stays_inside
reads = refl

discovers : discover_local demo_system "." ≡ ok demo_discovery
unfolding discover_local is_blank resolve_root resolve_directory path_within stays_inside has_prefix
    read_candidates candidate_names sort_stable has_suffix insert read_workspace_file
    open_workspace_regular_file is_local_path path_clean resolve_path
discovers = refl

accepts : validate_portable_artifact_uri demo_platform "logs/unit.txt" ≡ ok tt
unfolding validate_portable_artifact_uri has_prefix contains_text path_clean check_segments
    has_suffix is_windows_device_name cut_at
accepts = refl

read_workspace_file_bounded_example :
    (String.len "{}" ≤ max_workspace_input_bytes)
    × ((resolved : String) × (path : String) × (file : OpenFile) × (info : FileInfo) × (resolve_root
            demo_system "."
          ≡ ok resolved)
        × InsideRoot demo_system resolved path
        × (demo_system.open_file path ≡ some file)
        × (file.info ≡ some info)
        × (info.size ≤ max_workspace_input_bytes))
read_workspace_file_bounded_example =
    read_workspace_file_bounded demo_system "." "a/b.json" "{}" reads

discover_local_sound_example :
    (NothingThere demo_system "." × (demo_discovery ≡ nothing))
    ⊎ Discovered demo_system "." demo_discovery
discover_local_sound_example = discover_local_sound demo_system "." demo_discovery discovers

is_local_path-Portable_example : is_local_path (path_clean "logs/unit.txt") ≡ true
is_local_path-Portable_example =
    is_local_path-Portable demo_platform "logs/unit.txt"
      ((validate_portable_artifact_uri_iff demo_platform "logs/unit.txt").0 accepts)
