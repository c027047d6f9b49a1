-- ===== src/Evaluation/Input.antt =====
-- internal/evaluation/evaluate.go: `Input` and `validateInput`. An error is the constructor that
-- stands for its `fmt.Errorf` call.
use assurectl.Prelude.{
  ℕ, suc, String, Bool, false, not, ◌&&◌, ◌||◌, List, [], ◌∷◌, contains, canonical_identifier,
  digest_pattern, object_id_pattern, is_empty, ◌==◌, if◌then◌else◌, Result, ok, err, guard, ◌>>◌,
}
use assurectl.Platform.{Platform, is_zero}
use assurectl.Domain.{Subject}
use assurectl.InputMeta.{
  Digest, digest_algorithm_sha256, is_trusted, is_untrusted, is_trusted_base, is_advisory_workspace,
}
use assurectl.GitSubject.Identity.{IdentityError, canonicalize_repository_identity}
use assurectl.Contract
use assurectl.Contract.{AcceptanceCriterion}
use assurectl.Policy
use assurectl.Policy.{Requirement}
use assurectl.Evidence
use assurectl.Waiver

pub record Input : Type 0 where
  pub contract : Contract.Loaded
  pub policy : Policy.Loaded
  pub evidence : List Evidence.Loaded
  pub subject : Subject
  pub waivers : List Waiver.Record
  pub evaluated_at : ℕ

pub data InputError : Type 0 where
  evaluated_at_missing contract_schema_unsupported contract_trust_status policy_schema_unsupported
        policy_provenance digest_algorithm_unsupported digest_value_invalid
        waiver_subject_not_canonical waiver_head_unresolved :
      InputError
  requirement_id_not_canonical requirement_id_duplicate : ℕ → InputError
  reference_not_canonical : ℕ → ℕ → InputError

unfoldable pub validate_digest : Digest → Result InputError (Unit {0})
validate_digest d = do
  guard (d.algorithm == digest_algorithm_sha256) digest_algorithm_unsupported
  guard (digest_pattern d.value) digest_value_invalid

unfoldable pub validate_contract_input : Contract.Loaded → Result InputError (Unit {0})
validate_contract_input loaded = do
  guard (loaded.contract.schema_version == Contract.schema_version) contract_schema_unsupported
  validate_digest loaded.digest
  guard (is_untrusted loaded.trust_status || is_trusted loaded.trust_status) contract_trust_status

unfoldable pub validate_policy_input : Policy.Loaded → Result InputError (Unit {0})
validate_policy_input loaded = do
  guard (loaded.policy.schema_version == Policy.schema_version) policy_schema_unsupported
  validate_digest loaded.digest
  guard
      (is_untrusted loaded.trust_status && is_advisory_workspace loaded.authority_basis
        || is_trusted loaded.trust_status && is_trusted_base loaded.authority_basis)
      policy_provenance

unfoldable pub check_requirement_ids :
    ℕ → List String → List Requirement → Result InputError (Unit {0})
check_requirement_ids i seen [] = ok tt
check_requirement_ids i seen (requirement ∷ requirements) =
    let rest = check_requirement_ids (suc i) (requirement.id ∷ seen) requirements in
    if not (canonical_identifier requirement.id)
    then err (requirement_id_not_canonical i)
    else if contains seen requirement.id
    then err (requirement_id_duplicate i)
    else rest

unfoldable pub check_references : ℕ → ℕ → List String → Result InputError (Unit {0})
check_references i j [] = ok tt
check_references i j (reference ∷ references) =
    let rest = check_references i (suc j) references in
    if canonical_identifier reference then rest else err (reference_not_canonical i j)

unfoldable pub check_criteria : ℕ → List AcceptanceCriterion → Result InputError (Unit {0})
check_criteria i [] = ok tt
check_criteria i (criterion ∷ criteria) =
    let rest = check_criteria (suc i) criteria in
    check_references i 0 criterion.requirements >> rest

abbrev is_canonical_form : String → Result IdentityError String → Bool
is_canonical_form raw (ok canonical) = canonical == raw
is_canonical_form raw (err e) = false

-- Waivers need a resolved subject.
unfoldable pub check_waiver_subject : Platform → Input → Result InputError (Unit {0})
check_waiver_subject go input = if is_empty input.waivers then ok tt else (do
  guard
      (is_canonical_form input.subject.repository_uri
        (canonicalize_repository_identity go input.subject.repository_uri))
      waiver_subject_not_canonical
  guard (object_id_pattern input.subject.head_revision) waiver_head_unresolved)

unfoldable pub validate_input : Platform → Input → Result InputError (Unit {0})
validate_input go input = do
  guard (not (is_zero input.evaluated_at)) evaluated_at_missing
  validate_contract_input input.contract
  validate_policy_input input.policy
  check_requirement_ids 0 [] input.policy.policy.requirements
  check_criteria 0 input.contract.contract.acceptance_criteria
  check_waiver_subject go input
