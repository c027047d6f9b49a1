-- ===== src/Contract/Load.antt =====
-- internal/contract/loader.go: the loading of the contract. The reading of the file and of the
-- blob, the decoding of the JSON and its canonical form are parameters.
pub mod Sound
use Prim.Native.String
use assurectl.Prelude.{
  ℕ, suc, String, not, ◌==◌, ◌<>◌, Option, none, some, List, [], ◌∷◌, eqb, leb, contains, is_empty,
  is_blank, canonical_identifier, Result, ok, err, guard, ◌>>=◌, ◌>>◌,
}
use assurectl.Platform.{Platform}
use assurectl.Domain.{work_unit_type_valid}
use assurectl.InputMeta.{TrustStatus, sha256}
use assurectl.Contract.{AcceptanceCriterion, Contract, Loaded, schema_version}

abbrev pub local_contract_path : String
local_contract_path = ".assurectl/contract.json"

abbrev local_contract_source : String
local_contract_source = "workspace:.assurectl/contract.json"

-- `strictjson.Decode` and `json.Marshal` on a contract
pub record Json : Type 0 where
  pub decode : String → Option Contract
  pub marshal : Contract → String

pub data ContractError : Type 0 where
  undecodable schema_unsupported work_unit_id_empty work_unit_id_too_long work_unit_type_unsupported
        objective_empty objective_too_long criteria_empty :
      ContractError
  criterion_id_invalid statement_empty statement_too_long references_empty : ℕ → ContractError
  reference_invalid : ℕ → ℕ → ContractError
  duplicate_criterion_id : String → ContractError
  duplicate_reference : String → String → ContractError

pub data LoadError : Type 0 where
  root_empty unreadable : LoadError
  contract_invalid : ContractError → LoadError

abbrev pub present {ℓ κ} : {E : Type κ} {A : Type ℓ} → E → Option A → Result E A
present e none = err e
present e (some a) = ok a

-- The limit counts characters.
unfoldable pub validate_bounded_string :
    ContractError → ContractError → String → ℕ → Result ContractError (Unit {0})
validate_bounded_string empty too_long value max = do
  guard (not (eqb (String.count value) 0)) empty
  guard (leb (String.count value) max) too_long

-- the loop over the requirements that a criterion refers to
unfoldable pub check_references :
    ℕ → String → ℕ → List String → List String → Result ContractError (Unit {0})
check_references i id j seen [] = ok tt
check_references i id j seen (reference ∷ references) =
    let rest = check_references i id (suc j) (reference ∷ seen) references in
    do
      guard (canonical_identifier reference) (reference_invalid i j)
      guard (not (contains seen reference)) (duplicate_reference reference id)
      rest

-- the loop over the criteria
unfoldable pub check_criteria :
    ℕ → List String → List AcceptanceCriterion → Result ContractError (Unit {0})
check_criteria i seen [] = ok tt
check_criteria i seen (criterion ∷ criteria) =
    let rest = check_criteria (suc i) (criterion.id ∷ seen) criteria in
    do
      guard (canonical_identifier criterion.id) (criterion_id_invalid i)
      guard (not (contains seen criterion.id)) (duplicate_criterion_id criterion.id)
      validate_bounded_string (statement_empty i) (statement_too_long i) criterion.statement 4096
      guard (not (is_empty criterion.requirements)) (references_empty i)
      check_references i criterion.id 0 [] criterion.requirements
      rest

unfoldable pub validate : Contract → Result ContractError (Unit {0})
validate value = do
  guard (value.schema_version == schema_version) schema_unsupported
  validate_bounded_string work_unit_id_empty work_unit_id_too_long value.work_unit.id 256
  guard (work_unit_type_valid value.work_unit.type) work_unit_type_unsupported
  validate_bounded_string objective_empty objective_too_long value.work_unit.objective 4096
  guard (not (is_empty value.acceptance_criteria)) criteria_empty
  check_criteria 0 [] value.acceptance_criteria

unfoldable pub decode_contract : Json → String → Result ContractError Contract
decode_contract json content = do
  value ← present undecodable (json.decode content)
  validate value
  ok value

abbrev pub decoded : Result ContractError Contract → Result LoadError Contract
decoded (ok value) = ok value
decoded (err e) = err (contract_invalid e)

module _ (go : Platform) (json : Json) where
  unfoldable pub finish_contract : Contract → String → TrustStatus → Loaded
  finish_contract value source trust = record {
    contract = value;
    source = source;
    digest = sha256 go (json.marshal value);
    trust_status = trust;
  }

  -- `read` is `localinput.ReadWorkspaceFile` at the root.
  unfoldable pub load_local : String → (String → Option String) → Result LoadError Loaded
  load_local root read = do
    guard (not (is_blank root)) root_empty
    content ← present unreadable (read local_contract_path)
    value ← decoded (decode_contract json content)
    ok (finish_contract value local_contract_source TrustStatus.untrusted)

  -- `blob` is `gitsubject.ReadBlob` in the work tree.
  unfoldable pub load_base : (String → String → Option String) → String → Result LoadError Loaded
  load_base blob revision = do
    content ← present unreadable (blob revision local_contract_path)
    value ← decoded (decode_contract json content)
    ok (
        finish_contract value ("base:" <> revision <> ":" <> local_contract_path)
          TrustStatus.trusted)
