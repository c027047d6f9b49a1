-- ===== src/Waiver/Load.antt =====
-- internal/waiver/load.go: the checks of the loader. The digest of a record's canonical JSON is a
-- parameter; the file behind them is modelled with the work tree of internal/verify.
pub mod Sound
use Prim.Native.String
use assurectl.Prelude.{
  ℕ, suc, String, Bool, not, ◌&&◌, ◌||◌, Option, none, some, List, [], ◌∷◌, contains,
  canonical_identifier, digest_pattern, object_id_pattern, is_blank, leb, ◌==◌, if◌then◌else◌,
  Result, ok, err, guard, ◌>>=◌, ◌>>◌,
}
use assurectl.Platform.{Platform, before}
use assurectl.Domain.{is_waiver_valid, is_waiver_invalid}
use assurectl.InputMeta.{Digest, digest_algorithm_sha256, digest_eq}
use assurectl.Waiver.{Record, schema_version, target_requirement}

pub data RecordError : Type 0 where
  id_invalid target_kind_unsupported target_id_invalid repository_uri_empty work_unit_id_invalid
        head_revision_invalid identity_empty authority_empty expires_before_issued
        status_unsupported digest_malformed :
      RecordError
  text_empty text_too_long timestamp_malformed : String → RecordError

pub data LoadError : Type 0 where
  schema_unsupported : String → LoadError
  record_invalid : ℕ → RecordError → LoadError
  duplicate_id digest_mismatch : ℕ → String → LoadError

-- The limit counts bytes.
unfoldable pub validate_bounded : String → String → ℕ → Result RecordError (Unit {0})
validate_bounded field value max = do
  guard (not (is_blank value)) (text_empty field)
  guard (leb (String.len value) max) (text_too_long field)

unfoldable pub parse_timestamp : Platform → String → String → Result RecordError ℕ
parse_timestamp go field value = elim (go.parse_time value) [
  | none ↦ err (timestamp_malformed field)
  | some instant ↦ ok instant
]

unfoldable pub validate_record : Platform → Record → Result RecordError (Unit {0})
validate_record go entry = do
  guard (canonical_identifier entry.id) id_invalid
  guard (entry.target.kind == target_requirement) target_kind_unsupported
  guard (canonical_identifier entry.target.id) target_id_invalid
  guard (not (is_blank entry.scope.repository_uri)) repository_uri_empty
  guard (canonical_identifier entry.scope.work_unit_id) work_unit_id_invalid
  guard (entry.scope.head_revision == "" || object_id_pattern entry.scope.head_revision)
      head_revision_invalid
  validate_bounded "reason" entry.reason 1024
  validate_bounded "accepted_risk" entry.accepted_risk 1024
  guard (not (is_blank entry.approver.identity)) identity_empty
  guard (not (is_blank entry.approver.authority)) authority_empty
  issued ← parse_timestamp go "issued_at" entry.issued_at
  expires ← parse_timestamp go "expires_at" entry.expires_at
  guard (not (before expires issued)) expires_before_issued
  guard (is_waiver_valid entry.status || is_waiver_invalid entry.status) status_unsupported
  guard (digest_pattern entry.digest.value && entry.digest.algorithm == digest_algorithm_sha256)
      digest_malformed

abbrev at_index : ℕ → Result RecordError (Unit {0}) → Result LoadError (Unit {0})
at_index i (ok u) = ok u
at_index i (err e) = err (record_invalid i e)

module _ (go : Platform) (canonical_digest : Record → Digest) where
  -- the loop over the records
  unfoldable pub check_records : ℕ → List String → List Record → Result LoadError (Unit {0})
  check_records i seen [] = ok tt
  check_records i seen (entry ∷ entries) =
      let rest = check_records (suc i) (entry.id ∷ seen) entries in
      do
        at_index i (validate_record go entry)
        guard (not (contains seen entry.id)) (duplicate_id i entry.id)
        guard (digest_eq entry.digest (canonical_digest entry)) (digest_mismatch i entry.id)
        rest

  -- `LoadLocal` behind the decoding of the file
  unfoldable pub load_records : String → List Record → Result LoadError (List Record)
  load_records version entries = do
    guard (version == schema_version) (schema_unsupported version)
    check_records 0 [] entries
    ok entries
