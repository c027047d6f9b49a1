-- ===== src/AppServer/Pipeline/Sound.antt =====
-- internal/appserver/pipeline.go: what a successful check and an authoritative one rest on.
use assurectl.Prelude.{
  ℕ, String, Bool, true, false, false≢true, ◌≡◌, refl, sym, ap, subst, ◌∙◌, ◌⊎◌, inl, inr, ◌==◌,
  eq_iff, Option, none, some, List, [], ◌∷◌, All, Result, ok, err, bind_ok, guard_ok, ok_injective,
  Bool-cases, Option-cases, Result-cases, arith,
}
use assurectl.Platform.{Platform}
use assurectl.Domain.{
  AuthorityTier, Subject, ObservedOutcome, VerificationVerdict, CompletionDecision,
  EvaluationResult, RequirementResult, Finding,
}
use assurectl.InputMeta.{Digest}
use assurectl.Decision
use assurectl.Decision.{
  conclude, blocked_indeterminate, every_failure_is_waived, scan_requirements, scan_findings,
}
use assurectl.Contract.Load as ContractLoad
use assurectl.Policy.Load as PolicyLoad
use assurectl.Policy.{Requirement}
use assurectl.Evidence
use assurectl.Evidence.Load as EvidenceLoad
use assurectl.Evidence.Load.Sound.{SoundEvidence, evidence_local_sound}
use assurectl.Evaluation.Input.{Input}
use assurectl.Evaluation.Evaluate
use assurectl.Evaluation.Evaluate.{Evaluated, EvaluationError}
use assurectl.Evaluation.Evaluate.Checked.{evaluate-reached_kernel}
use assurectl.Evaluation.Evaluate.Approval.{
  Shown, Accounted, evaluate-approved, evaluate-accepted_risk,
}
use assurectl.Evaluation.Requirement.Accepted.{IngestedEvidence}
use assurectl.Receipt.Model.{Receipt}
use assurectl.Receipt.Build.{BuildInput, assemble}
use assurectl.Receipt.Build.Sound.{build_sound}
use assurectl.Verify.{Resolution}
use assurectl.Verify.Files.{Codecs}
use assurectl.AppServer.{PullRequestEvent, ValidatedClaims, CheckPayload}
use assurectl.AppServer.Pipeline.{
  Dependencies, AppError, found, lifted, evidence_invalid, contract_invalid, policy_invalid,
  evaluation_failed, build_failed, conclusion_of, build_check_payload, earned_authority, tier_text,
  build_receipt, evaluate_pull_request, ports_not_wired, no_worktree, subject_unresolved,
  no_evidence,
}

found_ok {ℓ} : {A : Type ℓ} (e : AppError) (o : Option A) {a : A} → found e o ≡ ok a → o ≡ some a
found_ok e (some b) h = cc
found_ok e none h = absurd (cc)

lifted_ok {ℓ κ} :
    {E : Type κ} {A : Type ℓ} (f : E → AppError) (r : Result E A) {a : A}
    → lifted f r ≡ ok a
    → r ≡ ok a
lifted_ok f (ok b) h = ap ok (ok_injective h)
lifted_ok f (err e) h = absurd (cc)

-- The decision fixes the verdict where it is favourable.
abbrev Paired : EvaluationResult → Type 0
Paired v =
    (v.decision ≡ CompletionDecision.approved → v.verdict ≡ VerificationVerdict.passed)
    × (v.decision ≡ CompletionDecision.accepted_with_risk → v.verdict ≡ VerificationVerdict.failed)

blocked-Paired : Paired blocked_indeterminate
unfolding blocked_indeterminate
blocked-Paired = (λ e. absurd (cc), λ e. absurd (cc))

conclude-Paired :
    (results : List RequirementResult) (flags : Bool × Bool) (blocking : Bool)
    → Paired (conclude results flags blocking)
unfolding conclude
conclude-Paired [] flags blocking = blocked-Paired
conclude-Paired (r ∷ rs) (known_failure, indeterminate) blocking =
    (λ e. ground arith, λ e. ground arith)

evaluate-Paired :
    (results : List RequirementResult) (findings : List Finding)
    → Paired (Decision.evaluate results findings).0
unfolding Decision.evaluate
evaluate-Paired results findings =
    elim (Result-cases (scan_requirements 0 [] (false, false) results)) [
      | inr (e, failed) ↦ subst Paired (ground arith) blocked-Paired
      | inl (flags, scanned) ↦ elim (Result-cases (scan_findings 0 false findings)) [
        | inr (e, failed) ↦ subst Paired (ground arith) blocked-Paired
        | inl (blocking, found_all) ↦
            subst Paired (ground arith) (conclude-Paired results flags blocking)
      ]
    ]

-- Without waiver records nothing is excused.
Shown-without_waivers :
    (go : Platform) (input : Input) (requirements : List Requirement)
    → input.waivers ≡ []
    → All (Accounted go input) requirements
    → All (Shown input ObservedOutcome.passed) requirements
Shown-without_waivers go input [] none_given h = tt
Shown-without_waivers go input (requirement ∷ requirements) none_given (inl shown, hs) =
    (shown, Shown-without_waivers go input requirements none_given hs)
Shown-without_waivers go input (requirement ∷ requirements) none_given (inr (w, f, excused), hs) =
    absurd (rw none_given at excused)

-- A favourable decision on evidence alone.
favourable :
    (go : Platform) (input : Input) (out : Evaluated)
    → All IngestedEvidence input.evidence
    → input.waivers ≡ []
    → Evaluate.evaluate go input ≡ ok out
    → (out.verdict.decision ≡ CompletionDecision.approved)
      ⊎ (out.verdict.decision ≡ CompletionDecision.accepted_with_risk)
    → All (Shown input ObservedOutcome.passed) input.policy.policy.requirements
favourable go input out ingested no_waivers h decision =
    let (valid, kernel, _, _, _) = evaluate-reached_kernel go input out h in
    let paired = subst Paired (ap (λ p. p.0) kernel) (evaluate-Paired _ _) in
    elim decision [
      | inl approved ↦
          let (_, shown, _) =
            evaluate-approved go input ingested out h
              (same_verdict out.verdict _ (paired.0 approved) approved) in
          shown
      | inr accepted ↦
          Shown-without_waivers go input input.policy.policy.requirements no_waivers
            (evaluate-accepted_risk go input ingested out h
              (same_verdict out.verdict _ (paired.1 accepted) accepted)).0
    ]
  where
    same_verdict :
        (v w : EvaluationResult) → v.verdict ≡ w.verdict → v.decision ≡ w.decision → v ≡ w
    same_verdict v w e f = λ i. record { verdict = e i; decision = f i }

success-cases :
    (decision : CompletionDecision)
    → conclusion_of decision ≡ "success"
    → (decision ≡ CompletionDecision.approved) ⊎ (decision ≡ CompletionDecision.accepted_with_risk)
unfolding conclusion_of
success-cases CompletionDecision.approved h = inl refl
success-cases CompletionDecision.accepted_with_risk h = inr refl
success-cases CompletionDecision.rejected h = absurd (false≢true (ap (λ s. s == "success") h))
success-cases CompletionDecision.blocked h = absurd (false≢true (ap (λ s. s == "success") h))

ingested :
    (go : Platform) (codecs : Codecs) (hash : String → Option String) (subject : Subject)
    (items : List Evidence.Loaded)
    → All (SoundEvidence go codecs.evidence hash subject) items
    → All IngestedEvidence items
ingested go codecs hash subject [] h = tt
ingested go codecs hash subject (item ∷ items) (s, ss) = (
  (s.envelope_sound.id_canonical, s.envelope_sound.outcome_supported),
  ingested go codecs hash subject items ss,
)

module _ (go : Platform) (version : String) (codecs : Codecs) (deps : Dependencies)
    (digest : Receipt → Option Digest) where
  -- What a receipt of a pull request was made from: documents of the base revision, and evidence of
  -- the bundle.
  pub record Made (worktree bundle : String) (subject : Subject) (input : Input) : Type 0 where
    pub subject_taken : input.subject ≡ subject
    pub contract_read :
        ContractLoad.load_base go codecs.contract (deps.blob worktree) subject.base_revision
        ≡ ok input.contract
    pub policy_read :
        PolicyLoad.load_base go codecs.policy (deps.blob worktree) subject.base_revision
        ≡ ok input.policy
    pub evidence_read :
        EvidenceLoad.load_local go codecs.evidence (deps.evidence_root bundle) subject
        ≡ ok input.evidence
    pub no_waivers : input.waivers ≡ []
    pub instant_taken : input.evaluated_at ≡ deps.now

  -- What the ports gave for the event, and that the check was posted.
  pub record Taken (event : PullRequestEvent) (worktree : String) (resolution : Resolution)
      (bundle token : String) (payload : CheckPayload) : Type 0 where
    pub worktree_taken :
        (worktrees : ℕ → String → String → Option String) × (deps.worktree_source ≡ some worktrees)
        × (worktrees event.installation_id event.repository event.head_sha ≡ some worktree)
    pub subject_taken : deps.resolve worktree event.base_sha event.head_sha ≡ some resolution
    pub bundle_taken :
        (bundles : ℕ → String → ℕ → String → Option (String × String)) × (deps.evidence_source
          ≡ some bundles)
        × (bundles event.installation_id event.repository event.pr_number event.head_sha
            ≡ some (bundle, token))
    pub check_posted :
        (post : ℕ → String → ℕ → String → CheckPayload → Bool) × (deps.check_poster ≡ some post)
        × (post event.installation_id event.repository event.pr_number event.head_sha payload
            ≡ true)

  receipt-Made :
      (event : PullRequestEvent) (worktree : String) (resolution : Resolution)
      (bundle : String × String) (receipt : Receipt)
      → build_receipt go version codecs deps digest event worktree resolution bundle ≡ ok receipt
      → (input : Input) × (out : Evaluated) × Made worktree bundle.0 resolution.subject input
        × (Evaluate.evaluate go input ≡ ok out)
        × (receipt.completion_decision ≡ out.verdict.decision)
        × (receipt.authority ≡ earned_authority deps event resolution.subject bundle.1)
  unfolding build_receipt assemble
  receipt-Made event worktree resolution bundle receipt h =
      let (evidence, e, h1) =
        bind_ok
          (lifted evidence_invalid (
            EvidenceLoad.load_local go codecs.evidence (deps.evidence_root bundle.0)
              resolution.subject))
          _ h in
      let (contract, c, h2) =
        bind_ok
          (lifted contract_invalid (
            ContractLoad.load_base go codecs.contract (deps.blob worktree)
              resolution.subject.base_revision))
          _ h1 in
      let (policy, p, h3) =
        bind_ok
          (lifted policy_invalid (
            PolicyLoad.load_base go codecs.policy (deps.blob worktree)
              resolution.subject.base_revision))
          _ h2 in
      let input : Input = record {
        contract = contract;
        policy = policy;
        evidence = evidence;
        subject = resolution.subject;
        waivers = [];
        evaluated_at = deps.now;
      } in
      let (out, o, h4) = bind_ok (lifted evaluation_failed (Evaluate.evaluate go input)) _ h3 in
      let given : BuildInput = record {
        authority = earned_authority deps event resolution.subject bundle.1;
        subject = resolution.subject;
        contract = contract;
        policy = policy;
        evidence = evidence;
        evaluation = out;
        ci = none;
        evaluated_at = deps.now;
      } in
      let (same, _) = build_sound go version given receipt (lifted_ok build_failed _ h4) in
      (
        input,
        out,
        record {
          subject_taken = refl;
          contract_read = lifted_ok _ _ c;
          policy_read = lifted_ok _ _ p;
          evidence_read = lifted_ok _ _ e;
          no_waivers = refl;
          instant_taken = refl;
        },
        lifted_ok _ _ o,
        ap (λ r. r.completion_decision) same,
        ap (λ r. r.authority) same,
      )

  check_made :
      (event : PullRequestEvent) (payload : CheckPayload)
      → evaluate_pull_request go version codecs deps digest event ≡ ok payload
      → (worktree : String) × (resolution : Resolution) × (bundle : String × String)
        × (receipt : Receipt) × Taken event worktree resolution bundle.0 bundle.1 payload
        × (build_receipt go version codecs deps digest event worktree resolution bundle
            ≡ ok receipt)
        × (payload ≡ build_check_payload digest receipt)
  unfolding evaluate_pull_request
  check_made event payload h =
      let (worktrees, w, h1) = bind_ok (found ports_not_wired deps.worktree_source) _ h in
      let (bundles, b, h2) = bind_ok (found ports_not_wired deps.evidence_source) _ h1 in
      let (post, p, h3) = bind_ok (found ports_not_wired deps.check_poster) _ h2 in
      let (worktree, t, h4) =
        bind_ok
          (found no_worktree (worktrees event.installation_id event.repository event.head_sha)) _
          h3 in
      let (resolution, r, h5) =
        bind_ok (found subject_unresolved (deps.resolve worktree event.base_sha event.head_sha)) _
          h4 in
      let (bundle, e, h6) =
        bind_ok
          (found no_evidence
            (bundles event.installation_id event.repository event.pr_number event.head_sha))
          _ h5 in
      let (receipt, m, h7) =
        bind_ok (build_receipt go version codecs deps digest event worktree resolution bundle) _
          h6 in
      let (posted, h8) =
        guard_ok
          (post event.installation_id event.repository event.pr_number event.head_sha
            (build_check_payload digest receipt))
          _ _ h7 in
      let same = ok_injective h8 in
      (
        worktree,
        resolution,
        bundle,
        receipt,
        record {
          worktree_taken = (worktrees, found_ok _ _ w, found_ok _ _ t);
          subject_taken = found_ok _ _ r;
          bundle_taken = (bundles, found_ok _ _ b, found_ok _ _ e);
          check_posted = (
            post,
            found_ok _ _ p,
            subst
                (λ c.
                  post event.installation_id event.repository event.pr_number event.head_sha c
                  ≡ true)
                same posted,
          );
        },
        m,
        sym same,
      )

  -- A check concludes with success only if every requirement of the policy at the base revision of
  -- the resolved subject has an envelope that counts for it with the outcome PASSED, in the bundle
  -- that the evidence source gave for the head revision of the pull request; the subject was
  -- resolved in the work tree of that revision, and the check was posted for it. The App hands over
  -- no waivers, so no accepted risk is reported as a success.
  pub evaluate_pull_request-success :
      (event : PullRequestEvent) (payload : CheckPayload)
      → evaluate_pull_request go version codecs deps digest event ≡ ok payload
      → payload.conclusion ≡ "success"
      → (worktree : String) × (bundle : String) × (token : String) × (resolution : Resolution)
        × (input : Input) × Taken event worktree resolution bundle token payload
        × Made worktree bundle resolution.subject input
        × All (Shown input ObservedOutcome.passed) input.policy.policy.requirements
  unfolding build_check_payload
  evaluate_pull_request-success event payload h success =
      let (worktree, resolution, bundle, receipt, r, m, same) = check_made event payload h in
      let (input, out, made, evaluated, decision, tier) =
        receipt-Made event worktree resolution bundle receipt m in
      let concluded : conclusion_of out.verdict.decision ≡ "success" =
        ap conclusion_of (sym decision) ∙ ap (λ p. p.conclusion) (sym same) ∙ success in
      let read =
        evidence_local_sound go codecs.evidence (deps.evidence_root bundle.0) resolution.subject
          input.evidence made.evidence_read in
      (
        worktree,
        bundle.0,
        bundle.1,
        resolution,
        input,
        r,
        made,
        favourable go input out
            (ingested go codecs (deps.evidence_root bundle.0).hash resolution.subject input.evidence
              read.0)
            made.no_waivers evaluated (success-cases out.verdict.decision concluded),
      )

  earned_authority_sound :
      (event : PullRequestEvent) (subject : Subject) (token : String)
      → earned_authority deps event subject token ≡ AuthorityTier.authoritative
      → (claims : ValidatedClaims) × ((token == "") ≡ false)
        × (deps.validate_token token
              (record { repository = subject.repository_uri; sha = event.head_sha })
            ≡ some claims)
        × (claims.sha ≡ event.head_sha)
        × (claims.repository ≡ subject.repository_uri)
  unfolding earned_authority
  earned_authority_sound event subject token h = elim (Bool-cases (token == "")) [
    | inl none_given ↦ absurd (ground arith)
    | inr given ↦
        elim (Option-cases (
          deps.validate_token token
            (record { repository = subject.repository_uri; sha = event.head_sha }))) [
              | inl refused ↦ absurd (ground arith)
              | inr (claims, validated) ↦ (
                claims,
                given,
                validated,
                ground (arith, eq_iff claims.sha event.head_sha),
                ground (arith, eq_iff claims.repository subject.repository_uri),
              )
            ]
  ]

  earned-cases :
      (event : PullRequestEvent) (subject : Subject) (token : String)
      → (earned_authority deps event subject token ≡ AuthorityTier.authoritative)
        ⊎ (earned_authority deps event subject token ≡ AuthorityTier.advisory)
  unfolding earned_authority
  earned-cases event subject token = ground arith

  -- A check refers to an AUTHORITATIVE receipt only if a token came with the bundle of the pull
  -- request that validates, and whose claims are the head revision of the event and the repository
  -- that was resolved in the work tree of that revision.
  pub evaluate_pull_request-authoritative :
      (event : PullRequestEvent) (payload : CheckPayload)
      → evaluate_pull_request go version codecs deps digest event ≡ ok payload
      → payload.receipt_reference.authority ≡ "AUTHORITATIVE"
      → (worktree : String) × (bundle : String) × (token : String) × (resolution : Resolution)
        × (claims : ValidatedClaims) × Taken event worktree resolution bundle token payload
        × ((token == "") ≡ false)
        × (deps.validate_token token
              (record { repository = resolution.subject.repository_uri; sha = event.head_sha })
            ≡ some claims)
        × (claims.sha ≡ event.head_sha)
        × (claims.repository ≡ resolution.subject.repository_uri)
  unfolding build_check_payload
  evaluate_pull_request-authoritative event payload h tier_named =
      let (worktree, resolution, bundle, receipt, r, m, same) = check_made event payload h in
      let (input, out, made, evaluated, decision, tier) =
        receipt-Made event worktree resolution bundle receipt m in
      let named : tier_text (earned_authority deps event resolution.subject bundle.1)
          ≡ "AUTHORITATIVE" =
        ap tier_text (sym tier) ∙ ap (λ p. p.receipt_reference.authority) (sym same) ∙ tier_named in
      let highest : earned_authority deps event resolution.subject bundle.1
          ≡ AuthorityTier.authoritative =
        elim (earned-cases event resolution.subject bundle.1) [
          | inl highest ↦ highest
          | inr lowest ↦
              absurd
                (false≢true (ap (λ s. s == "AUTHORITATIVE") (ap tier_text (sym lowest) ∙ named)))
        ] in
      let (claims, given, validated, sha, repository) =
        earned_authority_sound event resolution.subject bundle.1 highest in
      (worktree, bundle.0, bundle.1, resolution, claims, r, given, validated, sha, repository)
