-- ===== src/Verify/Files.antt =====
-- internal/verify/verify.go: the work tree whose documents the repository's own loaders read. The
-- resolution of the subject, and what reads a file, a blob of a revision and the evidence
-- directory, are parameters.
pub mod Sound
pub mod Total
use assurectl.Prelude.{
  String, Bool, Option, none, some, List, [], is_blank, if◌then◌else◌, Result, ok, err, ◌<>◌,
}
use assurectl.Platform.{Platform}
use assurectl.Domain.{Subject}
use assurectl.LocalInput.{FileSystem, read_workspace_file}
use assurectl.InputMeta.{Digest}
use assurectl.Contract
use assurectl.Contract.Load as ContractLoad
use assurectl.Policy
use assurectl.Policy.Load as PolicyLoad
use assurectl.Evidence
use assurectl.Evidence.Envelopes as Envelopes
use assurectl.Evidence.Load as EvidenceLoad
use assurectl.Evidence.Discovery.{evidence_of}
use assurectl.Waiver
use assurectl.Waiver.Load as WaiverLoad
use assurectl.Verify.{Resolution, Worktree}

-- A waiver file, decoded: its version and its records.
pub record WaiverFile : Type 0 where
  pub version : String
  pub records : List Waiver.Record

-- What reading and decoding the waiver file give: it does not exist, or there is another error, or
-- its content.
pub data WaiverInput : Type 0 where
  missing unreadable : WaiverInput
  decoded : WaiverFile → WaiverInput

pub record Files : Type 0 where
  pub root : String
  pub resolve : String → String → String → Option Resolution
  pub read : String → Option String
  pub blob : String → String → Option String
  pub evidence : EvidenceLoad.EvidenceRoot
  pub waivers : String → WaiverInput

-- The JSON functions of the loaders.
pub record Codecs : Type 0 where
  pub contract : ContractLoad.Json
  pub policy : PolicyLoad.Json
  pub evidence : Envelopes.Json
  pub waiver_digest : Waiver.Record → Digest

-- `err == nil`
abbrev pub succeeded {ℓ κ} : {E : Type κ} {A : Type ℓ} → Result E A → Option A
succeeded (ok a) = some a
succeeded (err e) = none

abbrev pub waiver_source : String → List Waiver.Record → Waiver.Loaded
waiver_source path records = record { records = records; source = "workspace:" <> path }

abbrev pub no_waivers : Waiver.Loaded
no_waivers = record { records = []; source = "" }

module _ (go : Platform) (codecs : Codecs) where
  -- `waiver.LoadLocal` behind the test of the path: a file that does not exist holds no waivers.
  unfoldable pub load_waiver_input : String → WaiverInput → Option Waiver.Loaded
  load_waiver_input path missing = some no_waivers
  load_waiver_input path unreadable = none
  load_waiver_input path (decoded file) =
      elim (WaiverLoad.load_records go codecs.waiver_digest file.version file.records) [
        | ok records ↦ some (waiver_source path records)
        | err e ↦ none
      ]

  unfoldable pub load_waiver_file : String → WaiverInput → Option Waiver.Loaded
  load_waiver_file path input =
      if is_blank path then some no_waivers else load_waiver_input path input

  unfoldable pub worktree : Files → Worktree
  worktree files = record {
    resolve = files.resolve;
    contract_local = succeeded (ContractLoad.load_local go codecs.contract files.root files.read);
    contract_base =
        λ revision. succeeded (ContractLoad.load_base go codecs.contract files.blob revision);
    policy_local = succeeded (PolicyLoad.load_local go codecs.policy files.root files.read);
    policy_base = λ revision. succeeded (PolicyLoad.load_base go codecs.policy files.blob revision);
    evidence_local =
        λ subject. succeeded (EvidenceLoad.load_local go codecs.evidence files.evidence subject);
    waivers_local = λ path. load_waiver_file path (files.waivers path);
  }

-- the end of `strictjson.Decode` on a waiver file
abbrev decoded_waivers : Option WaiverFile → WaiverInput
decoded_waivers none = unreadable
decoded_waivers (some file) = decoded file

-- `strictjson.Decode` on a waiver file, if the file is read; otherwise `not_exist` says whether the
-- error is `fs.ErrNotExist`.
abbrev read_waivers : (String → Option WaiverFile) → Bool → Option String → WaiverInput
read_waivers decode not_exist none = if not_exist then missing else unreadable
read_waivers decode not_exist (some content) = decoded_waivers (decode content)

-- The files below a directory, as internal/localinput reads them and internal/evidence finds them,
-- where `not_exist` says of which paths reading fails with `fs.ErrNotExist`.
unfoldable pub workspace_files :
    FileSystem
    → String
    → (String → String → String → Option Resolution)
    → (String → String → Option String)
    → (String → Option WaiverFile)
    → (String → Bool)
    → Files
workspace_files fs root resolve blob decode not_exist = record {
  root = root;
  resolve = resolve;
  read = λ path. succeeded (read_workspace_file fs root path);
  blob = blob;
  evidence = evidence_of fs root;
  waivers =
      λ path. read_waivers decode (not_exist path) (succeeded (read_workspace_file fs root path));
}
