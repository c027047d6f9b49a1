-- ===== src/Policy/Load/Sound.antt =====
-- internal/policy/loader.go: what a policy has that the loader returns.
use assurectl.Prelude.{
  ℕ, suc, String, false, ◌≡◌, refl, subst, ◌==◌, ◌<>◌, eq_iff, Option, List, [], ◌∷◌, All, Distinct,
  Unseen, is_empty, is_blank, contains, canonical_identifier, Result, ok, err, bind_ok, guard_ok,
  guard-not_ok, ok_injective, Bounded, fresh_cons, arith,
}
use assurectl.Platform.{Platform}
use assurectl.InputMeta.{TrustStatus, AuthorityBasis, sha256}
use assurectl.Decision.Valid.{Canonical}
use assurectl.Policy.{Requirement, Policy, Loaded, schema_version}
use assurectl.Policy.Load.{
  Json, PolicyError, present, unreadable, undecodable, local_policy_path, normalize,
  validate_bounded_string, check_producer_types, check_requirements, validate, decode_policy,
  decoded, finish_policy, load_local, load_base,
}

pub record SoundRequirement (requirement : Requirement) : Type 0 where
  pub id_canonical : Canonical requirement.id
  pub evidence_type_bounded : Bounded 128 requirement.evidence_type
  pub some_producer : is_empty requirement.allowed_producer_types ≡ false
  pub producers_bounded : All (Bounded 128) requirement.allowed_producer_types
  pub producers_distinct : Distinct requirement.allowed_producer_types

abbrev pub requirement_ids : List Requirement → List String
requirement_ids [] = []
requirement_ids (requirement ∷ requirements) = requirement.id ∷ requirement_ids requirements

pub record SoundPolicy (value : Policy) : Type 0 where
  pub schema_supported : value.schema_version ≡ schema_version
  pub some_requirement : is_empty value.requirements ≡ false
  pub requirements_sound : All SoundRequirement value.requirements
  pub ids_distinct : Distinct (requirement_ids value.requirements)

within_limit :
    (e f : PolicyError) (value : String) (max : ℕ)
    → validate_bounded_string e f value max ≡ ok tt
    → Bounded max value
unfolding validate_bounded_string
within_limit e f value max h = ground arith

check_producer_types_sound :
    (i : ℕ) (id : String) (j : ℕ) (seen types : List String)
    → check_producer_types i id j seen types ≡ ok tt
    → All (Bounded 128) types × (Distinct types × Unseen seen types)
unfolding check_producer_types
check_producer_types_sound i id j seen [] h = (tt, (tt, tt))
check_producer_types_sound i id j seen (type ∷ types) h =
    let (u, bounded, h1) = bind_ok (validate_bounded_string _ _ type 128) _ h in
    let (fresh, h2) = guard-not_ok (contains seen type) _ _ h1 in
    let (rest, apart) = check_producer_types_sound i id (suc j) (type ∷ seen) types h2 in
    ((within_limit _ _ type 128 bounded, rest), fresh_cons seen type types fresh apart)

check_requirements_sound :
    (i : ℕ) (seen : List String) (requirements : List Requirement)
    → check_requirements i seen requirements ≡ ok tt
    → All SoundRequirement requirements
      × (Distinct (requirement_ids requirements) × Unseen seen (requirement_ids requirements))
unfolding check_requirements
check_requirements_sound i seen [] h = (tt, (tt, tt))
check_requirements_sound i seen (requirement ∷ requirements) h =
    let (canonical, h1) = guard_ok (canonical_identifier requirement.id) _ _ h in
    let (fresh, h2) = guard-not_ok (contains seen requirement.id) _ _ h1 in
    let (u, bounded, h3) =
      bind_ok (validate_bounded_string _ _ requirement.evidence_type 128) _ h2 in
    let (given, h4) = guard-not_ok (is_empty requirement.allowed_producer_types) _ _ h3 in
    let (v, producers, h5) = bind_ok (check_producer_types i requirement.id 0 [] _) _ h4 in
    let (all_bounded, (distinct, _)) = check_producer_types_sound i _ 0 [] _ producers in
    let (rest, apart) = check_requirements_sound (suc i) (requirement.id ∷ seen) requirements h5 in
    (
      (
        record {
          id_canonical = canonical;
          evidence_type_bounded = within_limit _ _ requirement.evidence_type 128 bounded;
          some_producer = given;
          producers_bounded = all_bounded;
          producers_distinct = distinct;
        },
        rest,
      ),
      fresh_cons seen requirement.id (requirement_ids requirements) fresh apart,
    )

validate_sound : (value : Policy) → validate value ≡ ok tt → SoundPolicy value
unfolding validate
validate_sound value h =
    let (version, h1) = guard_ok (value.schema_version == schema_version) _ _ h in
    let (given, h2) = guard-not_ok (is_empty value.requirements) _ _ h1 in
    let (sound, (distinct, _)) = check_requirements_sound 0 [] value.requirements h2 in
    record {
      schema_supported = (eq_iff value.schema_version schema_version).0 version;
      some_requirement = given;
      requirements_sound = sound;
      ids_distinct = distinct;
    }

decode_policy_sound :
    (json : Json) (content : String) (value : Policy)
    → decode_policy json content ≡ ok value
    → SoundPolicy value
unfolding decode_policy
decode_policy_sound json content value h =
    let (raw, r, h1) = bind_ok (present undecodable (json.decode content)) _ h in
    let (read, n, h2) = bind_ok (normalize json raw) _ h1 in
    let (u, valid, h3) = bind_ok (validate read) _ h2 in
    subst SoundPolicy (ok_injective h3) (validate_sound read valid)

decoded_ok : (r : Result PolicyError Policy) {value : Policy} → decoded r ≡ ok value → r ≡ ok value
decoded_ok (ok a) h = cc
decoded_ok (err e) h = absurd (cc)

module _ (go : Platform) (json : Json) (loaded : Loaded) where
  -- The digest is the one of the canonical JSON.
  abbrev pub Digested : Type 0
  Digested = loaded.digest ≡ sha256 go (json.marshal loaded.policy)

  -- A policy of the workspace has supported and distinct requirements, at least one, each with
  -- producers; it is untrusted and advisory.
  pub policy_local_sound :
      (root : String) (read : String → Option String)
      → load_local go json root read ≡ ok loaded
      → SoundPolicy loaded.policy
        × Digested
        × (loaded.trust_status ≡ TrustStatus.untrusted)
        × (loaded.authority_basis ≡ AuthorityBasis.advisory_workspace)
  unfolding load_local finish_policy
  policy_local_sound root read h =
      let (given, h1) = guard-not_ok (is_blank root) _ _ h in
      let (content, c, h2) = bind_ok (present unreadable (read local_policy_path)) _ h1 in
      let (value, v, h3) = bind_ok (decoded (decode_policy json content)) _ h2 in
      subst
        (λ l.
          SoundPolicy l.policy
          × (l.digest ≡ sha256 go (json.marshal l.policy))
          × (l.trust_status ≡ TrustStatus.untrusted)
          × (l.authority_basis ≡ AuthorityBasis.advisory_workspace))
        (ok_injective h3)
        (decode_policy_sound json content value (decoded_ok _ v), refl, refl, refl)

  -- A policy of a base revision is trusted, and its source names that revision.
  pub policy_base_sound :
      (blob : String → String → Option String) (revision : String)
      → load_base go json blob revision ≡ ok loaded
      → SoundPolicy loaded.policy
        × Digested
        × (loaded.trust_status ≡ TrustStatus.trusted)
        × (loaded.authority_basis ≡ AuthorityBasis.trusted_base)
        × (loaded.source ≡ "base:" <> revision <> ":" <> local_policy_path)
  unfolding load_base finish_policy
  policy_base_sound blob revision h =
      let (content, c, h1) = bind_ok (present unreadable (blob revision local_policy_path)) _ h in
      let (value, v, h2) = bind_ok (decoded (decode_policy json content)) _ h1 in
      subst
        (λ l.
          SoundPolicy l.policy
          × (l.digest ≡ sha256 go (json.marshal l.policy))
          × (l.trust_status ≡ TrustStatus.trusted)
          × (l.authority_basis ≡ AuthorityBasis.trusted_base)
          × (l.source ≡ "base:" <> revision <> ":" <> local_policy_path))
        (ok_injective h2)
        (decode_policy_sound json content value (decoded_ok _ v), refl, refl, refl, refl)
