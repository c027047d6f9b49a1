-- ===== src/Verify/Files/Total.antt =====
-- internal/verify/verify.go and internal/evaluation/evaluate.go: what the loaders return is never
-- refused by the evaluation.
use assurectl.Prelude.{
  ℕ, suc, String, true, false, ◌≡◌, refl, ◌∙◌, ap, subst, ◌⊎◌, inl, inr, ◌==◌, Option, none, some,
  List, [], ◌∷◌, All, Distinct, Unseen, Unseen-cons, Unseen-nil, Bool-cases, Result-cases,
  Option-cases, digest_pattern, is_blank, ok, bind_ok, ok_injective, arith,
}
use assurectl.Platform.{Platform, is_zero}
use assurectl.Domain
use assurectl.InputMeta.{Digest, TrustStatus, AuthorityBasis, sha256}
use assurectl.Decision.Valid.{Canonical}
use assurectl.GitSubject.Identity.{canonicalize_repository_identity}
use assurectl.Contract
use assurectl.Contract.Load.Sound.{
  SoundCriterion, SoundContract, contract_local_sound, contract_base_sound,
}
use assurectl.Policy
use assurectl.Policy.Load.Sound.{
  SoundRequirement, SoundPolicy, requirement_ids, policy_local_sound, policy_base_sound,
}
use assurectl.Evidence
use assurectl.Evidence.Load as EvidenceLoad
use assurectl.Evidence.Load.{within_load, subject_unresolved}
use assurectl.Evidence.Load.Sound.{within_ok, evidence_local_sound}
use assurectl.Evaluation.Requirement.Accepted.{IngestedEvidence}
use assurectl.Evidence.Binding.{validate_resolved_subject}
use assurectl.Waiver
use assurectl.Waiver.Load as WaiverLoad
use assurectl.Waiver.Load.Sound.{SoundRecord, load_records_sound}
use assurectl.Evaluation.Input.{
  Input, validate_digest, validate_contract_input, validate_policy_input, check_requirement_ids,
  check_references, check_criteria, check_waiver_subject, validate_input,
}
use assurectl.Evaluation.Waivers.Valid.{IngestedWaiver}
use assurectl.Evaluation.Evaluate.{Evaluated, evaluate}
use assurectl.Evaluation.Evaluate.Total.{evaluate_total}
use assurectl.Verify.{Options, load_contract, load_policy, load_waivers}
use assurectl.Verify.Files.{
  WaiverInput, missing, unreadable, decoded, Files, Codecs, worktree, load_waiver_input,
  load_waiver_file,
}
use assurectl.Verify.Files.Sound.{succeeded_ok, found_ok, ingested}

check_requirement_ids_complete :
    (i : ℕ) (seen : List String) (requirements : List Policy.Requirement)
    → All SoundRequirement requirements
    → Distinct (requirement_ids requirements)
    → Unseen seen (requirement_ids requirements)
    → check_requirement_ids i seen requirements ≡ ok tt
unfolding check_requirement_ids
check_requirement_ids_complete i seen [] s d u = refl
check_requirement_ids_complete i seen (requirement ∷ requirements) (s, ss) (apart, d) (fresh, u) =
    rw (s.id_canonical, fresh)
      (check_requirement_ids_complete (suc i) (requirement.id ∷ seen) requirements ss d
        (Unseen-cons requirement.id seen (requirement_ids requirements) u apart))

check_references_complete :
    (i j : ℕ) (references : List String)
    → All Canonical references
    → check_references i j references ≡ ok tt
unfolding check_references
check_references_complete i j [] h = refl
check_references_complete i j (reference ∷ references) (h, hs) =
    ground (arith, h, check_references_complete i (suc j) references hs)

check_criteria_complete :
    (i : ℕ) (criteria : List Contract.AcceptanceCriterion)
    → All SoundCriterion criteria
    → check_criteria i criteria ≡ ok tt
unfolding check_criteria
check_criteria_complete i [] h = refl
check_criteria_complete i (criterion ∷ criteria) (h, hs) =
    rw (check_references_complete i 0 criterion.requirements h.references_canonical)
      (check_criteria_complete (suc i) criteria hs)

-- A digest that `sha256` made, if the hexadecimal digits are those of a SHA-256.
validate_digest_complete :
    (go : Platform) (text : String) (digest : Digest)
    → digest_pattern (go.sha256_hex text) ≡ true
    → digest ≡ sha256 go text
    → validate_digest digest ≡ ok tt
unfolding validate_digest sha256
validate_digest_complete go text digest hex same = ap validate_digest same ∙ rw (hex) refl

contract_accepted :
    (loaded : Contract.Loaded)
    → SoundContract loaded.contract
    → validate_digest loaded.digest ≡ ok tt
    → (loaded.trust_status ≡ TrustStatus.untrusted) ⊎ (loaded.trust_status ≡ TrustStatus.trusted)
    → validate_contract_input loaded ≡ ok tt
unfolding validate_contract_input
contract_accepted loaded s d (inl t) = rw (s.schema_supported, d, t) refl
contract_accepted loaded s d (inr t) = rw (s.schema_supported, d, t) refl

-- Untrusted and advisory, or trusted and of a base revision.
abbrev Provenance : Policy.Loaded → Type 0
Provenance loaded =
    ((loaded.trust_status ≡ TrustStatus.untrusted)
      × (loaded.authority_basis ≡ AuthorityBasis.advisory_workspace))
    ⊎ ((loaded.trust_status ≡ TrustStatus.trusted)
        × (loaded.authority_basis ≡ AuthorityBasis.trusted_base))

policy_accepted :
    (loaded : Policy.Loaded)
    → SoundPolicy loaded.policy
    → validate_digest loaded.digest ≡ ok tt
    → Provenance loaded
    → validate_policy_input loaded ≡ ok tt
unfolding validate_policy_input
policy_accepted loaded s d (inl (t, b)) = rw (s.schema_supported, d, t, b) refl
policy_accepted loaded s d (inr (t, b)) = rw (s.schema_supported, d, t, b) refl

waiver_subject_accepted :
    (go : Platform) (input : Input)
    → validate_resolved_subject go input.subject ≡ ok tt
    → check_waiver_subject go input ≡ ok tt
unfolding validate_resolved_subject check_waiver_subject
waiver_subject_accepted go input h =
    elim (Result-cases (canonicalize_repository_identity go input.subject.repository_uri)) [
      | inr (e, failed) ↦ absurd (ground arith)
      | inl (canonical, found) ↦ ground arith
    ]

sound_Ingested :
    (go : Platform) (digest : Waiver.Record → Digest) (entries : List Waiver.Record)
    → All (SoundRecord go digest) entries
    → All IngestedWaiver entries
sound_Ingested go digest [] h = tt
sound_Ingested go digest (entry ∷ entries) (h, hs) =
    (h.target_canonical, sound_Ingested go digest entries hs)

abbrev records_or_none : Option Waiver.Loaded → List Waiver.Record
records_or_none none = []
records_or_none (some loaded) = loaded.records

module _ (go : Platform) (codecs : Codecs) (files : Files) (options : Options)
    (hex : (s : String) → digest_pattern (go.sha256_hex s) ≡ true) where
  contract_ready :
      (subject : Domain.Subject) (contract : Contract.Loaded)
      → load_contract (worktree go codecs files) options subject ≡ ok contract
      → (validate_contract_input contract ≡ ok tt) × SoundContract contract.contract
  unfolding load_contract worktree
  contract_ready subject contract h = elim (Bool-cases options.trusted_base) [
    | inl base ↦
        let (sound, digest, trust, _) =
          contract_base_sound go codecs.contract contract files.blob subject.base_revision
            (found_ok _ _ (rw base at h)) in
        (
          contract_accepted contract sound
              (validate_digest_complete go _ contract.digest (hex _) digest) (inr trust),
          sound,
        )
    | inr local ↦
        let (sound, digest, trust) =
          contract_local_sound go codecs.contract contract files.root files.read
            (found_ok _ _ (rw local at h)) in
        (
          contract_accepted contract sound
              (validate_digest_complete go _ contract.digest (hex _) digest) (inl trust),
          sound,
        )
  ]

  policy_ready :
      (subject : Domain.Subject) (policy : Policy.Loaded)
      → load_policy (worktree go codecs files) options subject ≡ ok policy
      → (validate_policy_input policy ≡ ok tt) × SoundPolicy policy.policy
  unfolding load_policy worktree
  policy_ready subject policy h = elim (Bool-cases options.trusted_base) [
    | inl base ↦
        let (sound, digest, trust, basis, _) =
          policy_base_sound go codecs.policy policy files.blob subject.base_revision
            (found_ok _ _ (rw base at h)) in
        (
          policy_accepted policy sound (validate_digest_complete go _ policy.digest (hex _) digest)
              (inr (trust, basis)),
          sound,
        )
    | inr local ↦
        let (sound, digest, trust, basis) =
          policy_local_sound go codecs.policy policy files.root files.read
            (found_ok _ _ (rw local at h)) in
        (
          policy_accepted policy sound (validate_digest_complete go _ policy.digest (hex _) digest)
              (inl (trust, basis)),
          sound,
        )
  ]

  evidence_ready :
      (subject : Domain.Subject) (evidence : List Evidence.Loaded)
      → (worktree go codecs files).evidence_local subject ≡ some evidence
      → (validate_resolved_subject go subject ≡ ok tt) × All IngestedEvidence evidence
  unfolding worktree EvidenceLoad.load_local
  evidence_ready subject evidence h =
      let read =
        succeeded_ok (EvidenceLoad.load_local go codecs.evidence files.evidence subject) h in
      let (u, resolved, rest) =
        bind_ok (within_load subject_unresolved (validate_resolved_subject go subject)) _ read in
      (
        within_ok _ _ resolved,
        ingested go codecs files subject evidence
            (evidence_local_sound go codecs.evidence files.evidence subject evidence read).0,
      )

  waiver_input_ready :
      (path : String) (input : WaiverInput) (loaded : Waiver.Loaded)
      → load_waiver_input go codecs path input ≡ some loaded
      → All IngestedWaiver loaded.records
  unfolding load_waiver_input
  waiver_input_ready path missing loaded h =
      subst (λ o. All IngestedWaiver (records_or_none o)) h tt
  waiver_input_ready path unreadable loaded h = absurd (cc)
  waiver_input_ready path (decoded file) loaded h =
      elim (Result-cases
        (WaiverLoad.load_records go codecs.waiver_digest file.version file.records)) [
          | inr (e, failed) ↦ absurd (ground arith)
          | inl (records, read) ↦
              let (same, sound, _) =
                load_records_sound go codecs.waiver_digest file.version file.records records read in
              subst (All IngestedWaiver) (ground arith)
                (sound_Ingested go codecs.waiver_digest file.records sound)
        ]

  waiver_file_ready :
      (path : String) (input : WaiverInput) (loaded : Waiver.Loaded)
      → load_waiver_file go codecs path input ≡ some loaded
      → All IngestedWaiver loaded.records
  unfolding load_waiver_file
  waiver_file_ready path input loaded h = elim (Bool-cases (is_blank path)) [
    | inl blank ↦ subst (λ o. All IngestedWaiver (records_or_none o)) (rw blank at h) tt
    | inr given ↦ waiver_input_ready path input loaded (rw given at h)
  ]

  waivers_ready :
      (entries : List Waiver.Record)
      → load_waivers (worktree go codecs files) options ≡ ok entries
      → All IngestedWaiver entries
  unfolding load_waivers worktree
  waivers_ready entries h = elim (Bool-cases (options.waivers_path == "")) [
    | inl no_path ↦ subst (All IngestedWaiver) (ok_injective (rw no_path at h)) tt
    | inr path ↦
        elim (Option-cases
          (load_waiver_file go codecs options.waivers_path (files.waivers options.waivers_path))) [
            | inl unread ↦ absurd (ground arith)
            | inr (loaded, read) ↦
                subst (All IngestedWaiver) (ground arith) (waiver_file_ready _ _ loaded read)
          ]
  ]

  -- The evaluation of what the loaders return never fails: if the contract, the policy, the
  -- evidence and the waivers of a work tree load and an evaluation instant is given, then
  -- `Evaluate` returns a result, provided that `sha256_hex` writes 64 hexadecimal digits.
  pub evaluate_loaded :
      (subject : Domain.Subject) (contract : Contract.Loaded) (policy : Policy.Loaded)
      (evidence : List Evidence.Loaded) (waivers : List Waiver.Record)
      → is_zero options.evaluated_at ≡ false
      → load_contract (worktree go codecs files) options subject ≡ ok contract
      → load_policy (worktree go codecs files) options subject ≡ ok policy
      → (worktree go codecs files).evidence_local subject ≡ some evidence
      → load_waivers (worktree go codecs files) options ≡ ok waivers
      → (out : Evaluated) × (evaluate go (record {
        contract = contract;
        policy = policy;
        evidence = evidence;
        subject = subject;
        waivers = waivers;
        evaluated_at = options.evaluated_at;
      })
          ≡ ok out)
  unfolding validate_input
  evaluate_loaded subject contract policy evidence waivers instant c p e w =
      let (contract_valid, contract_sound) = contract_ready subject contract c in
      let (policy_valid, policy_sound) = policy_ready subject policy p in
      let (resolved, items) = evidence_ready subject evidence e in
      evaluate_total go _
        (rw
          (
            instant,
            contract_valid,
            policy_valid,
            check_requirement_ids_complete 0 [] policy.policy.requirements
                policy_sound.requirements_sound policy_sound.ids_distinct (Unseen-nil _),
            check_criteria_complete 0 contract.contract.acceptance_criteria
                contract_sound.criteria_sound,
          )
          (waiver_subject_accepted go _ resolved))
        items (waivers_ready waivers w)
