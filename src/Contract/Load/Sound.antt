-- ===== src/Contract/Load/Sound.antt =====
-- internal/contract/loader.go: what a contract has that the loader returns.
use assurectl.Prelude.{
  ℕ, suc, String, true, false, ◌≡◌, refl, subst, ◌==◌, ◌<>◌, eq_iff, Option, List, [], ◌∷◌, All,
  Distinct, Unseen, is_empty, is_blank, contains, canonical_identifier, Result, ok, err, bind_ok,
  guard_ok, guard-not_ok, ok_injective, Bounded, fresh_cons, arith,
}
use assurectl.Platform.{Platform}
use assurectl.Domain.{work_unit_type_valid}
use assurectl.InputMeta.{TrustStatus, sha256}
use assurectl.Decision.Valid.{Canonical}
use assurectl.Contract.{AcceptanceCriterion, Contract, Loaded, schema_version}
use assurectl.Contract.Load.{
  Json, ContractError, present, unreadable, undecodable, local_contract_path,
  validate_bounded_string, check_references, check_criteria, validate, decode_contract, decoded,
  finish_contract, load_local, load_base,
}

pub record SoundCriterion (criterion : AcceptanceCriterion) : Type 0 where
  pub id_canonical : Canonical criterion.id
  pub statement_bounded : Bounded 4096 criterion.statement
  pub some_reference : is_empty criterion.requirements ≡ false
  pub references_canonical : All Canonical criterion.requirements
  pub references_distinct : Distinct criterion.requirements

abbrev pub criterion_ids : List AcceptanceCriterion → List String
criterion_ids [] = []
criterion_ids (criterion ∷ criteria) = criterion.id ∷ criterion_ids criteria

pub record SoundContract (value : Contract) : Type 0 where
  pub schema_supported : value.schema_version ≡ schema_version
  pub work_unit_bounded : Bounded 256 value.work_unit.id
  pub type_supported : work_unit_type_valid value.work_unit.type ≡ true
  pub objective_bounded : Bounded 4096 value.work_unit.objective
  pub some_criterion : is_empty value.acceptance_criteria ≡ false
  pub criteria_sound : All SoundCriterion value.acceptance_criteria
  pub ids_distinct : Distinct (criterion_ids value.acceptance_criteria)

within_limit :
    (e f : ContractError) (value : String) (max : ℕ)
    → validate_bounded_string e f value max ≡ ok tt
    → Bounded max value
unfolding validate_bounded_string
within_limit e f value max h = ground arith

check_references_sound :
    (i : ℕ) (id : String) (j : ℕ) (seen references : List String)
    → check_references i id j seen references ≡ ok tt
    → All Canonical references × (Distinct references × Unseen seen references)
unfolding check_references
check_references_sound i id j seen [] h = (tt, (tt, tt))
check_references_sound i id j seen (reference ∷ references) h =
    let (canonical, h1) = guard_ok (canonical_identifier reference) _ _ h in
    let (fresh, h2) = guard-not_ok (contains seen reference) _ _ h1 in
    let (rest, apart) = check_references_sound i id (suc j) (reference ∷ seen) references h2 in
    ((canonical, rest), fresh_cons seen reference references fresh apart)

check_criteria_sound :
    (i : ℕ) (seen : List String) (criteria : List AcceptanceCriterion)
    → check_criteria i seen criteria ≡ ok tt
    → All SoundCriterion criteria
      × (Distinct (criterion_ids criteria) × Unseen seen (criterion_ids criteria))
unfolding check_criteria
check_criteria_sound i seen [] h = (tt, (tt, tt))
check_criteria_sound i seen (criterion ∷ criteria) h =
    let (canonical, h1) = guard_ok (canonical_identifier criterion.id) _ _ h in
    let (fresh, h2) = guard-not_ok (contains seen criterion.id) _ _ h1 in
    let (u, bounded, h3) = bind_ok (validate_bounded_string _ _ criterion.statement 4096) _ h2 in
    let (given, h4) = guard-not_ok (is_empty criterion.requirements) _ _ h3 in
    let (v, references, h5) = bind_ok (check_references i criterion.id 0 [] _) _ h4 in
    let (all_canonical, (distinct, _)) = check_references_sound i _ 0 [] _ references in
    let (rest, apart) = check_criteria_sound (suc i) (criterion.id ∷ seen) criteria h5 in
    (
      (
        record {
          id_canonical = canonical;
          statement_bounded = within_limit _ _ criterion.statement 4096 bounded;
          some_reference = given;
          references_canonical = all_canonical;
          references_distinct = distinct;
        },
        rest,
      ),
      fresh_cons seen criterion.id (criterion_ids criteria) fresh apart,
    )

validate_sound : (value : Contract) → validate value ≡ ok tt → SoundContract value
unfolding validate
validate_sound value h =
    let (version, h1) = guard_ok (value.schema_version == schema_version) _ _ h in
    let (u, unit, h2) = bind_ok (validate_bounded_string _ _ value.work_unit.id 256) _ h1 in
    let (supported, h3) = guard_ok (work_unit_type_valid value.work_unit.type) _ _ h2 in
    let (v, objective, h4) =
      bind_ok (validate_bounded_string _ _ value.work_unit.objective 4096) _ h3 in
    let (given, h5) = guard-not_ok (is_empty value.acceptance_criteria) _ _ h4 in
    let (sound, (distinct, _)) = check_criteria_sound 0 [] value.acceptance_criteria h5 in
    record {
      schema_supported = (eq_iff value.schema_version schema_version).0 version;
      work_unit_bounded = within_limit _ _ value.work_unit.id 256 unit;
      type_supported = supported;
      objective_bounded = within_limit _ _ value.work_unit.objective 4096 objective;
      some_criterion = given;
      criteria_sound = sound;
      ids_distinct = distinct;
    }

decode_contract_sound :
    (json : Json) (content : String) (value : Contract)
    → decode_contract json content ≡ ok value
    → SoundContract value
unfolding decode_contract
decode_contract_sound json content value h =
    let (read, r, h1) = bind_ok (present undecodable (json.decode content)) _ h in
    let (u, valid, h2) = bind_ok (validate read) _ h1 in
    subst SoundContract (ok_injective h2) (validate_sound read valid)

decoded_ok :
    (r : Result ContractError Contract) {value : Contract} → decoded r ≡ ok value → r ≡ ok value
decoded_ok (ok a) h = cc
decoded_ok (err e) h = absurd (cc)

module _ (go : Platform) (json : Json) (loaded : Loaded) where
  -- The digest is the one of the canonical JSON.
  abbrev pub Digested : Type 0
  Digested = loaded.digest ≡ sha256 go (json.marshal loaded.contract)

  -- A contract of the workspace has supported and distinct criteria, at least one, each with
  -- references that are canonical and distinct; it is untrusted.
  pub contract_local_sound :
      (root : String) (read : String → Option String)
      → load_local go json root read ≡ ok loaded
      → SoundContract loaded.contract × Digested × (loaded.trust_status ≡ TrustStatus.untrusted)
  unfolding load_local finish_contract
  contract_local_sound root read h =
      let (given, h1) = guard-not_ok (is_blank root) _ _ h in
      let (content, c, h2) = bind_ok (present unreadable (read local_contract_path)) _ h1 in
      let (value, v, h3) = bind_ok (decoded (decode_contract json content)) _ h2 in
      subst
        (λ l.
          SoundContract l.contract
          × (l.digest ≡ sha256 go (json.marshal l.contract))
          × (l.trust_status ≡ TrustStatus.untrusted))
        (ok_injective h3) (decode_contract_sound json content value (decoded_ok _ v), refl, refl)

  -- A contract of a base revision is trusted, and its source names that revision.
  pub contract_base_sound :
      (blob : String → String → Option String) (revision : String)
      → load_base go json blob revision ≡ ok loaded
      → SoundContract loaded.contract
        × Digested
        × (loaded.trust_status ≡ TrustStatus.trusted)
        × (loaded.source ≡ "base:" <> revision <> ":" <> local_contract_path)
  unfolding load_base finish_contract
  contract_base_sound blob revision h =
      let (content, c, h1) = bind_ok (present unreadable (blob revision local_contract_path)) _ h in
      let (value, v, h2) = bind_ok (decoded (decode_contract json content)) _ h1 in
      subst
        (λ l.
          SoundContract l.contract
          × (l.digest ≡ sha256 go (json.marshal l.contract))
          × (l.trust_status ≡ TrustStatus.trusted)
          × (l.source ≡ "base:" <> revision <> ":" <> local_contract_path))
        (ok_injective h2)
        (decode_contract_sound json content value (decoded_ok _ v), refl, refl, refl)
