-- ===== src/Scenarios/Files.antt =====
-- Runs of the loaders of internal/contract, internal/policy and internal/evidence, and of
-- internal/verify on what they load.
use assurectl.Prelude.{
  String, true, false, ◌≡◌, ◌↔◌, refl, none, some, [], ◌∷◌, All, Distinct, is_empty, ok, is_blank,
  digest_pattern, has_prefix, has_suffix, contains_text, cut_at, trim_space, contains_any, has_char,
  join, split, strip_prefix, trim_prefix, trim_suffix, object_id_pattern, canonical_identifier,
  path_clean, ◌==◌, if◌then◌else◌,
}
use assurectl.Domain.{outcome_valid, work_unit_type_valid}
use assurectl.InputMeta
use assurectl.InputMeta.{TrustStatus, AuthorityBasis}
use assurectl.GitSubject.Identity.{
  canonicalize_repository_identity, cross_transport_identity_allowed, canonical_host_path,
}
use assurectl.Contract.Load as ContractLoad
use assurectl.Policy
use assurectl.Policy.Load as PolicyLoad
use assurectl.Evidence
use assurectl.Evidence.Envelopes as Envelopes
use assurectl.Evidence.Envelopes.{RawEnvelope}
use assurectl.Evidence.Load as EvidenceLoad
use assurectl.Evidence.Load.Sound.{SoundEvidence, loaded_ids, artifact_uris, evidence_local_sound}
use assurectl.Evidence.Location.{
  check_segments, is_windows_device_name, validate_portable_artifact_uri, verify_artifact,
}
use assurectl.Evidence.Binding.{validate_resolved_subject, bind_subject}
use assurectl.Evidence.Timestamp.{fraction_and_zone, timestamp_pattern}
use assurectl.Evidence.Location.Sound.{Portable, validate_portable_artifact_uri_iff}
use assurectl.Waiver
use assurectl.CiContext.{canonical_repository}
use assurectl.Evaluation.Input.{Input}
use assurectl.Evaluation.Evaluate.{Evaluated, evaluate}
use assurectl.Evaluation.Universe.{known_ids}
use assurectl.Evaluation.Universe.Known.{KnownReferences}
use assurectl.Receipt.Build.{assemble}
use assurectl.Verify.{Resolution, check_ci, load_contract, load_policy, load_waivers, conclude, run}
use assurectl.Verify.Sound.{Reads}
use assurectl.Verify.Files.{decoded, Files, Codecs, worktree}
use assurectl.Verify.Files.Sound.{Backed, run_files-approved}
use assurectl.Verify.Files.Total.{evaluate_loaded}
use assurectl.Scenarios.Pipelines.{trusted-evaluates, trusted-builds, trusted_receipt}
use assurectl.Scenarios.{
  demo_platform, zero_hash, demo_digest, demo_head, demo_repository, demo_contract, tests_passed,
  demo_waiver, demo_subject, demo_resolution, trusted_input, trusted_options,
}

abbrev raw_policy : PolicyLoad.RawPolicy
raw_policy = record {
  schema_version = Policy.schema_version;
  requirements =
      record {
        id = "REQ-1";
        evidence_type = "tests";
        waivable = "false";
        allowed_producer_types = "ci" ∷ [];
        max_age_seconds = "86400";
      }
      ∷ [];
}

abbrev raw_evidence : RawEnvelope
raw_evidence = record {
  schema_version = Evidence.schema_version;
  id = "EV-1";
  type = "tests";
  subject = record { repository_uri = demo_repository; revision = demo_head };
  producer = record { type = "ci"; identity = "runner"; workflow = ""; workflow_revision = "" };
  invocation = record {
    command_id = "run";
    environment_digest = "";
    started_at = "2026-01-01T00:00:00Z";
    finished_at = "2026-01-01T00:00:00Z";
  };
  outcome = record { status = tests_passed.envelope.outcome.status; exit_code = "" };
  artifact = record { uri = "log.txt"; digest = demo_digest; media_type = "text/plain" };
}

abbrev pub demo_codecs : Codecs
demo_codecs = record {
  contract = record { decode = λ text. some demo_contract.contract; marshal = λ c. "{}" };
  policy = record {
    decode = λ text. some raw_policy;
    unmarshal_bool = λ text. if text == "false" then some false else none;
    parse_rational = λ text. if text == "86400" then some (false, 86400, 1) else none;
    marshal = λ p. "{}";
  };
  evidence = record {
    decode_envelope = λ text. some raw_evidence;
    decode_digest = λ text. none;
    unmarshal_string = λ text. none;
    parse_rational = λ text. none;
    marshal = λ e. "{}";
  };
  waiver_digest = λ entry. demo_digest;
}

abbrev pub demo_files : Files
demo_files = record {
  root = ".";
  resolve = λ repository base head. some demo_resolution;
  read = λ path. some "{}";
  blob = λ revision path. some "{}";
  evidence = record {
    discover =
        some (
          record { relative_path = "evidence.json"; source = "evidence.json"; content = "{}" }
          ∷ []);
    hash = λ uri. some zero_hash;
  };
  waivers =
      λ path. decoded (record { version = Waiver.schema_version; records = demo_waiver ∷ [] });
}

pub contract_loads :
    ContractLoad.load_base demo_platform demo_codecs.contract demo_files.blob zero_hash
    ≡ ok trusted_input.contract
unfolding ContractLoad.load_base ContractLoad.decode_contract ContractLoad.validate
    ContractLoad.validate_bounded_string work_unit_type_valid ContractLoad.check_criteria
    canonical_identifier ContractLoad.check_references ContractLoad.finish_contract InputMeta.sha256
contract_loads = refl

pub policy_loads :
    PolicyLoad.load_base demo_platform demo_codecs.policy demo_files.blob zero_hash
    ≡ ok trusted_input.policy
unfolding PolicyLoad.load_base PolicyLoad.decode_policy PolicyLoad.normalize
    PolicyLoad.normalize_requirements PolicyLoad.required_bool trim_space
    PolicyLoad.optional_non_negative_integer PolicyLoad.validate PolicyLoad.check_requirements
    canonical_identifier PolicyLoad.validate_bounded_string PolicyLoad.check_producer_types
    PolicyLoad.finish_policy InputMeta.sha256
policy_loads = refl

pub evidence_loads :
    EvidenceLoad.load_local demo_platform demo_codecs.evidence demo_files.evidence demo_subject
    ≡ ok (tests_passed ∷ [])
unfolding EvidenceLoad.load_local validate_resolved_subject canonicalize_repository_identity
    has_prefix contains_text cut_at cross_transport_identity_allowed canonical_host_path trim_space
    contains_any trim_suffix trim_prefix split join object_id_pattern EvidenceLoad.decode_candidates
    Envelopes.decode_envelope Envelopes.normalize_envelope outcome_valid bind_subject
    Envelopes.optional_digest Envelopes.optional_integer Envelopes.optional_object_id
    Envelopes.optional_string Envelopes.parse_timestamp Envelopes.validate_bounded_string
    Envelopes.validate_digest Envelopes.validate_envelope EvidenceLoad.load_candidate
    EvidenceLoad.load_candidates check_segments is_windows_device_name
    validate_portable_artifact_uri verify_artifact fraction_and_zone timestamp_pattern
    InputMeta.sha256 path_clean has_char has_suffix strip_prefix canonical_identifier digest_pattern
evidence_loads = refl

evidence_local_sound_example :
    All
      (SoundEvidence demo_platform demo_codecs.evidence demo_files.evidence.hash demo_subject)
      (tests_passed ∷ [])
    × Distinct (loaded_ids (tests_passed ∷ []))
    × Distinct (artifact_uris (tests_passed ∷ []))
evidence_local_sound_example =
    evidence_local_sound demo_platform demo_codecs.evidence demo_files.evidence demo_subject
      (tests_passed ∷ []) evidence_loads

validate_portable_artifact_uri_iff_example :
    (validate_portable_artifact_uri demo_platform "logs/unit.txt" ≡ ok tt)
    ↔ Portable demo_platform "logs/unit.txt"
validate_portable_artifact_uri_iff_example =
    validate_portable_artifact_uri_iff demo_platform "logs/unit.txt"

files-run :
    run demo_platform "v1" (worktree demo_platform demo_codecs demo_files) trusted_options
    ≡ ok trusted_receipt
unfolding run conclude check_ci canonical_repository load_contract load_policy load_waivers is_blank
    canonicalize_repository_identity has_prefix contains_text cut_at
    cross_transport_identity_allowed canonical_host_path trim_space contains_any has_char join split
    strip_prefix trim_prefix trim_suffix worktree
files-run =
    rw (contract_loads, policy_loads, evidence_loads, trusted-evaluates, trusted-builds) refl

run_files-approved_example :
    (resolution : Resolution) × (input : Input) × Reads
      (worktree demo_platform demo_codecs demo_files)
      trusted_options
      resolution
      input
    × (is_empty input.policy.policy.requirements ≡ false)
    × All (Backed demo_files input resolution.subject) input.policy.policy.requirements
    × KnownReferences
        (known_ids input.policy.policy.requirements)
        input.contract.contract.acceptance_criteria
unfolding assemble
run_files-approved_example =
    run_files-approved demo_platform "v1" demo_codecs demo_files trusted_options trusted_receipt
      files-run refl refl

digest-hex : (s : String) → digest_pattern (demo_platform.sha256_hex s) ≡ true
unfolding digest_pattern
digest-hex s = refl

contract_reads :
    load_contract (worktree demo_platform demo_codecs demo_files) trusted_options demo_subject
    ≡ ok trusted_input.contract
unfolding load_contract worktree
contract_reads = rw contract_loads refl

policy_reads :
    load_policy (worktree demo_platform demo_codecs demo_files) trusted_options demo_subject
    ≡ ok trusted_input.policy
unfolding load_policy worktree
policy_reads = rw policy_loads refl

evidence_reads :
    (worktree demo_platform demo_codecs demo_files).evidence_local demo_subject
    ≡ some (tests_passed ∷ [])
unfolding worktree
evidence_reads = rw evidence_loads refl

waivers_read : load_waivers (worktree demo_platform demo_codecs demo_files) trusted_options ≡ ok []
unfolding load_waivers
waivers_read = refl

evaluate_loaded_example :
    (out : Evaluated) × (evaluate demo_platform (record {
      contract = trusted_input.contract;
      policy = trusted_input.policy;
      evidence = tests_passed ∷ [];
      subject = demo_subject;
      waivers = [];
      evaluated_at = trusted_options.evaluated_at;
    })
      ≡ ok out)
evaluate_loaded_example =
    evaluate_loaded demo_platform demo_codecs demo_files trusted_options digest-hex demo_subject
      trusted_input.contract trusted_input.policy (tests_passed ∷ []) [] refl contract_reads
      policy_reads evidence_reads waivers_read
