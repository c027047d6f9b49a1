-- ===== src/Verify/Files/Sound.antt =====
-- internal/verify/verify.go: what a favourable receipt says of the files of the work tree.
use assurectl.Prelude.{
  String, false, ◌≡◌, refl, ap, inl, inr, some, List, [], ◌∷◌, All, Exists, is_empty, Result,
  ok_injective, ok, err,
}
use assurectl.Platform.{Platform}
use assurectl.Domain.{Subject, ObservedOutcome, VerificationVerdict, CompletionDecision}
use assurectl.Evidence
use assurectl.Evidence.Load as EvidenceLoad
use assurectl.Evidence.Load.Sound.{SoundEvidence, evidence_local_sound}
use assurectl.Policy.{Requirement}
use assurectl.Evaluation.Input.{Input}
use assurectl.Evaluation.Evaluate.Approval.{Shown}
use assurectl.Evaluation.Requirement.Accepted.{IngestedEvidence}
use assurectl.Evaluation.Requirement.Sound.{Establishes}
use assurectl.Evaluation.Universe.{known_ids}
use assurectl.Evaluation.Universe.Known.{KnownReferences}
use assurectl.Receipt.Model.{Receipt}
use assurectl.Verify.{VerifyError, Options, Resolution, found, run}
use assurectl.Verify.Sound.{Reads}
use assurectl.Verify.Approval.{Checked, run-approved}
use assurectl.Verify.Files.{Files, Codecs, succeeded, worktree}

pub succeeded_ok {ℓ κ} :
    {E : Type κ} {A : Type ℓ} (r : Result E A) {a : A} → succeeded r ≡ some a → r ≡ ok a
succeeded_ok (ok b) h = cc
succeeded_ok (err e) h = absurd (cc)

pub found_ok {ℓ κ} :
    {E : Type κ} {A : Type ℓ} (e : VerifyError) (r : Result E A) {a : A}
    → found e (succeeded r) ≡ ok a
    → r ≡ ok a
found_ok e (ok b) h = ap ok (ok_injective h)
found_ok e (err f) h = absurd (cc)

pub ingested :
    (go : Platform) (codecs : Codecs) (files : Files) (subject : Subject)
    (items : List Evidence.Loaded)
    → All (SoundEvidence go codecs.evidence files.evidence.hash subject) items
    → All IngestedEvidence items
ingested go codecs files subject [] h = tt
ingested go codecs files subject (item ∷ items) (s, ss) = (
  (s.envelope_sound.id_canonical, s.envelope_sound.outcome_supported),
  ingested go codecs files subject items ss,
)

pub loaded_Checked :
    (go : Platform) (codecs : Codecs) (files : Files) (subject : Subject)
    → Checked ((worktree go codecs files).evidence_local subject)
unfolding worktree
loaded_Checked go codecs files subject =
    go_on (EvidenceLoad.load_local go codecs.evidence files.evidence subject) refl
  where
    go_on :
        (r : Result _ (List Evidence.Loaded))
        → EvidenceLoad.load_local go codecs.evidence files.evidence subject ≡ r
        → Checked (succeeded r)
    go_on (err e) h = tt
    go_on (ok items) h =
        ingested go codecs files subject items
          (evidence_local_sound go codecs.evidence files.evidence subject items h).0

-- Some envelope is of the requirement's type, counts for it and has passed; it names the head
-- revision, and the file at its artifact's location hashes to the digest that it states.
abbrev pub BackedBy : Files → Input → Subject → Requirement → List Evidence.Loaded → Type 0
BackedBy files input subject requirement items =
    Exists
      (λ (item : Evidence.Loaded).
        Establishes requirement input.evaluated_at ObservedOutcome.passed item
        × (item.envelope.subject.revision ≡ subject.head_revision)
        × (files.evidence.hash item.envelope.artifact.uri
            ≡ some item.envelope.artifact.digest.value))
      items

abbrev pub Backed : Files → Input → Subject → Requirement → Type 0
Backed files input subject requirement = BackedBy files input subject requirement input.evidence

module _ (go : Platform) (version : String) (codecs : Codecs) (files : Files) (options : Options)
    (receipt : Receipt) where
  backed :
      (input : Input) (subject : Subject) (requirement : Requirement) (items : List Evidence.Loaded)
      → All (SoundEvidence go codecs.evidence files.evidence.hash subject) items
      → Exists (Establishes requirement input.evaluated_at ObservedOutcome.passed) items
      → BackedBy files input subject requirement items
  backed input subject requirement [] s e = absurd e
  backed input subject requirement (item ∷ items) (s, ss) (inl e) =
      inl (e, s.bound.1.0 e.1.exact_revision, s.artifact_verified)
  backed input subject requirement (item ∷ items) (s, ss) (inr es) =
      inr (backed input subject requirement items ss es)

  each_one :
      (input : Input) (subject : Subject) (requirements : List Requirement)
      → All (SoundEvidence go codecs.evidence files.evidence.hash subject) input.evidence
      → All (Shown input ObservedOutcome.passed) requirements
      → All (Backed files input subject) requirements
  each_one input subject [] s h = tt
  each_one input subject (requirement ∷ requirements) s (h, hs) = (
    backed input subject requirement input.evidence s h,
    each_one input subject requirements s hs,
  )

  -- If a receipt on documents that the loaders read says PASSED and APPROVED, then the policy has a
  -- requirement, and for every requirement of it some envelope counts and has passed, names the
  -- head revision, and states the digest that the file at its artifact's location hashes to; and
  -- the policy defines every requirement that the contract refers to.
  pub run_files-approved :
      run go version (worktree go codecs files) options ≡ ok receipt
      → receipt.verification_verdict ≡ VerificationVerdict.passed
      → receipt.completion_decision ≡ CompletionDecision.approved
      → (resolution : Resolution) × (input : Input) × Reads
          (worktree go codecs files)
          options
          resolution
          input
        × (is_empty input.policy.policy.requirements ≡ false)
        × All (Backed files input resolution.subject) input.policy.policy.requirements
        × KnownReferences
            (known_ids input.policy.policy.requirements)
            input.contract.contract.acceptance_criteria
  unfolding worktree
  run_files-approved h passed approved =
      let (resolution, input, reads, some_requirement, shown, known) =
        run-approved go version (worktree go codecs files) options receipt
          (loaded_Checked go codecs files) h passed approved in
      let read =
        succeeded_ok (EvidenceLoad.load_local go codecs.evidence files.evidence _)
          reads.evidence_read in
      let sound =
        (evidence_local_sound go codecs.evidence files.evidence _ input.evidence read).0 in
      (
        resolution,
        input,
        reads,
        some_requirement,
        each_one input resolution.subject input.policy.policy.requirements sound shown,
        known,
      )
