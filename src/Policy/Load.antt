-- ===== src/Policy/Load.antt =====
-- internal/policy/loader.go: the loading of the policy. A member of a JSON object that may be
-- missing is its own text, empty if it is. The reading of the file and of the blob, and what the
-- JSON and number packages make of a text, are parameters.
pub mod Sound
use Prim.Native.String
use assurectl.Prelude.{
  ℕ, suc, String, Bool, not, ◌&&◌, ◌==◌, ◌<>◌, Option, none, some, List, [], ◌∷◌, eqb, leb,
  contains, is_empty, is_blank, trim_space, canonical_identifier, Result, ok, err, guard, ◌>>=◌,
  ◌>>◌, if◌then◌else◌,
}
use assurectl.Platform.{Platform}
use assurectl.InputMeta.{TrustStatus, AuthorityBasis, sha256}
use assurectl.Policy.{Requirement, Policy, Loaded, schema_version}

abbrev pub local_policy_path : String
local_policy_path = ".assurectl/policy.json"

abbrev local_policy_source : String
local_policy_source = "workspace:.assurectl/policy.json"

pub record RawRequirement : Type 0 where
  pub id : String
  pub evidence_type : String
  pub waivable : String
  pub allowed_producer_types : List String
  pub max_age_seconds : String

pub record RawPolicy : Type 0 where
  pub schema_version : String
  pub requirements : List RawRequirement

-- `strictjson.Decode` on a policy, `json.Unmarshal` on a Boolean, `big.Rat.SetString` (sign,
-- numerator, denominator), and `json.Marshal` on a policy.
pub record Json : Type 0 where
  pub decode : String → Option RawPolicy
  pub unmarshal_bool : String → Option Bool
  pub parse_rational : String → Option (Bool × ℕ × ℕ)
  pub marshal : Policy → String

pub data PolicyError : Type 0 where
  undecodable schema_unsupported requirements_empty : PolicyError
  waivable_required waivable_not_a_boolean max_age_not_a_non_negative_integer requirement_id_invalid
        evidence_type_empty evidence_type_too_long producer_types_empty :
      ℕ → PolicyError
  producer_type_empty producer_type_too_long : ℕ → ℕ → PolicyError
  duplicate_requirement_id : String → PolicyError
  duplicate_producer_type : String → String → PolicyError

pub data LoadError : Type 0 where
  root_empty unreadable : LoadError
  policy_invalid : PolicyError → LoadError

abbrev is_null : String → Bool
is_null raw = trim_space raw == "null"

abbrev pub present {ℓ κ} : {E : Type κ} {A : Type ℓ} → E → Option A → Result E A
present e none = err e
present e (some a) = ok a

unfoldable pub required_bool : Json → ℕ → String → Result PolicyError Bool
required_bool json i raw = do
  guard (not (raw == "")) (waivable_required i)
  guard (not (is_null raw)) (waivable_not_a_boolean i)
  present (waivable_not_a_boolean i) (json.unmarshal_bool raw)

unfoldable pub optional_non_negative_integer : Json → ℕ → String → Result PolicyError (Option ℕ)
optional_non_negative_integer json i raw = if raw == "" then ok none else (do
  guard (not (is_null raw)) (max_age_not_a_non_negative_integer i)
  value ← present (max_age_not_a_non_negative_integer i) (json.parse_rational (trim_space raw))
  let (negative, numerator, denominator) = value
  guard (not (negative && not (eqb numerator 0)) && eqb denominator 1)
      (max_age_not_a_non_negative_integer i)
  ok (some numerator))

-- the loop of `normalize`
unfoldable pub normalize_requirements :
    Json → ℕ → List RawRequirement → Result PolicyError (List Requirement)
normalize_requirements json i [] = ok []
normalize_requirements json i (item ∷ items) =
    let rest = normalize_requirements json (suc i) items in
    do
      waivable ← required_bool json i item.waivable
      max_age ← optional_non_negative_integer json i item.max_age_seconds
      requirements ← rest
      ok (
          record {
            id = item.id;
            evidence_type = item.evidence_type;
            waivable = waivable;
            allowed_producer_types = item.allowed_producer_types;
            max_age_seconds = max_age;
          }
          ∷ requirements)

unfoldable pub normalize : Json → RawPolicy → Result PolicyError Policy
normalize json raw = do
  requirements ← normalize_requirements json 0 raw.requirements
  ok (record { schema_version = raw.schema_version; requirements = requirements })

-- The limit counts characters.
unfoldable pub validate_bounded_string :
    PolicyError → PolicyError → String → ℕ → Result PolicyError (Unit {0})
validate_bounded_string empty too_long value max = do
  guard (not (eqb (String.count value) 0)) empty
  guard (leb (String.count value) max) too_long

-- the loop over the producer types of a requirement
unfoldable pub check_producer_types :
    ℕ → String → ℕ → List String → List String → Result PolicyError (Unit {0})
check_producer_types i id j seen [] = ok tt
check_producer_types i id j seen (type ∷ types) =
    let rest = check_producer_types i id (suc j) (type ∷ seen) types in
    do
      validate_bounded_string (producer_type_empty i j) (producer_type_too_long i j) type 128
      guard (not (contains seen type)) (duplicate_producer_type type id)
      rest

-- the loop over the requirements
unfoldable pub check_requirements :
    ℕ → List String → List Requirement → Result PolicyError (Unit {0})
check_requirements i seen [] = ok tt
check_requirements i seen (requirement ∷ requirements) =
    let rest = check_requirements (suc i) (requirement.id ∷ seen) requirements in
    do
      guard (canonical_identifier requirement.id) (requirement_id_invalid i)
      guard (not (contains seen requirement.id)) (duplicate_requirement_id requirement.id)
      validate_bounded_string (evidence_type_empty i) (evidence_type_too_long i)
          requirement.evidence_type 128
      guard (not (is_empty requirement.allowed_producer_types)) (producer_types_empty i)
      check_producer_types i requirement.id 0 [] requirement.allowed_producer_types
      rest

unfoldable pub validate : Policy → Result PolicyError (Unit {0})
validate value = do
  guard (value.schema_version == schema_version) schema_unsupported
  guard (not (is_empty value.requirements)) requirements_empty
  check_requirements 0 [] value.requirements

unfoldable pub decode_policy : Json → String → Result PolicyError Policy
decode_policy json content = do
  raw ← present undecodable (json.decode content)
  value ← normalize json raw
  validate value
  ok value

abbrev pub decoded : Result PolicyError Policy → Result LoadError Policy
decoded (ok value) = ok value
decoded (err e) = err (policy_invalid e)

module _ (go : Platform) (json : Json) where
  unfoldable pub finish_policy : Policy → String → TrustStatus → AuthorityBasis → Loaded
  finish_policy value source trust basis = record {
    policy = value;
    source = source;
    digest = sha256 go (json.marshal value);
    trust_status = trust;
    authority_basis = basis;
  }

  -- `read` is `localinput.ReadWorkspaceFile` at the root.
  unfoldable pub load_local : String → (String → Option String) → Result LoadError Loaded
  load_local root read = do
    guard (not (is_blank root)) root_empty
    content ← present unreadable (read local_policy_path)
    value ← decoded (decode_policy json content)
    ok (
        finish_policy value local_policy_source TrustStatus.untrusted
          AuthorityBasis.advisory_workspace)

  -- `blob` is `gitsubject.ReadBlob` in the work tree.
  unfoldable pub load_base : (String → String → Option String) → String → Result LoadError Loaded
  load_base blob revision = do
    content ← present unreadable (blob revision local_policy_path)
    value ← decoded (decode_policy json content)
    ok (
        finish_policy value ("base:" <> revision <> ":" <> local_policy_path) TrustStatus.trusted
          AuthorityBasis.trusted_base)
