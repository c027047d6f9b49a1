-- ===== src/Receipt/Validate/Sound.antt =====
-- internal/receipt/validate.go: what a receipt has that `validateReceipt` accepts.
use assurectl.Prelude.{
  ◌||◌, ℕ, String, Bool, true, false, ◌≡◌, sym, ◌∙◌, ◌⊎◌, inl, inr, none, some, List, [], ◌∷◌,
  contains, All, Distinct, Bool-cases, Option-cases, Result-cases, ok, arith,
}
use assurectl.Platform.{Platform}
use assurectl.Domain.{RequirementResult, is_blocked}
use assurectl.Decision
use assurectl.Decision.Table.{requirement_ids}
use assurectl.Decision.Outcomes.{is_blocking}
use assurectl.Receipt.Model.{Receipt}
use assurectl.Receipt.Validate.{evidence_ids, validate_receipt}
use assurectl.Receipt.Validate.Checks.{
  reference_ids, Supplied, SoundWaiver, Provenance, uniqueness_sound, derivation_sound,
  evidence_ids_sound, binding_sound, quiet_sound, waivers_sound, authority_sound,
}

-- What the checks of a receipt are for.
pub record ValidReceipt (go : Platform) (receipt : Receipt) : Type 0 where
  pub requirements_distinct : Distinct (requirement_ids receipt.requirement_results)
  pub decision_derived : Decision.evaluate receipt.requirement_results receipt.findings ≡ (
    record { verdict = receipt.verification_verdict; decision = receipt.completion_decision },
    none,
  )
  pub evidence_distinct : Distinct (reference_ids receipt.evidence)
  pub evidence_supplied :
      All (Supplied (reference_ids receipt.evidence)) receipt.requirement_results
  pub waivers_sound :
      All
        (SoundWaiver receipt.subject.repository_uri receipt.work_unit.id
          receipt.requirement_results)
        receipt.waivers
  pub quiet :
      (is_blocked receipt.completion_decision ≡ true) ⊎ (is_blocking receipt.findings ≡ false)
  pub provenance : Provenance receipt
  pub instant : ℕ
  pub instant_parses : go.parse_time receipt.evaluated_at ≡ some instant

All-Supplied :
    (supplied ids : List String) (results : List RequirementResult)
    → ((id : String) → contains supplied id ≡ contains ids id)
    → All (Supplied supplied) results
    → All (Supplied ids) results
All-Supplied supplied ids [] same h = tt
All-Supplied supplied ids (result ∷ results) same (h, hs) =
    (each result.evidence_ids h, All-Supplied supplied ids results same hs)
  where
    each :
        (references : List String)
        → All (λ id. contains supplied id ≡ true) references
        → All (λ id. contains ids id ≡ true) references
    each [] h = tt
    each (id ∷ references) (h, hs) = (sym (same id) ∙ h, each references hs)

-- What `validateReceipt` accepts has unique requirement and evidence identifiers, records the pair
-- that the kernel derives from its own results and findings, references supplied evidence only,
-- lists waivers of failed requirements only, has no blocking finding unless it is BLOCKED, is
-- authoritative only with trusted inputs and a project layer bound to the base of the subject, and
-- has an instant that parses.
pub validate_receipt_sound :
    (go : Platform) (receipt : Receipt)
    → validate_receipt go receipt ≡ ok tt
    → ValidReceipt go receipt
unfolding validate_receipt
validate_receipt_sound go receipt h = elim (Result-cases (evidence_ids [] receipt.evidence)) [
  | inr (e, failed) ↦ absurd (ground arith)
  | inl (supplied, collected) ↦
      let ids = evidence_ids_sound [] receipt.evidence supplied collected in
      let (instant, parsed) = parsed_instant (ground arith) in
      record {
        requirements_distinct = (uniqueness_sound [] receipt.requirement_results (ground arith)).0;
        decision_derived = derivation_sound receipt (ground arith);
        evidence_distinct = ids.0;
        evidence_supplied =
            All-Supplied supplied (reference_ids receipt.evidence) receipt.requirement_results
              (λ id. ids.2 id ∙ or_false (contains (reference_ids receipt.evidence) id))
              (binding_sound supplied receipt.requirement_results (ground arith));
        waivers_sound =
            waivers_sound go receipt.subject.repository_uri receipt.work_unit.id
              receipt.requirement_results receipt.waivers (ground arith);
        quiet = elim (Bool-cases (is_blocked receipt.completion_decision)) [
          | inl blocked ↦ inl blocked
          | inr unblocked ↦ inr (quiet_sound receipt.findings (ground arith))
        ];
        provenance = authority_sound receipt (ground arith);
        instant = instant;
        instant_parses = parsed;
      }
]
  where
    or_false : (b : Bool) → (b || false) ≡ b
    or_false b = ground arith

    parsed_instant :
        validate_receipt go receipt ≡ ok tt
        → (t : ℕ) × (go.parse_time receipt.evaluated_at ≡ some t)
    parsed_instant e = elim (Option-cases (go.parse_time receipt.evaluated_at)) [
      | inl failed ↦ absurd (ground arith)
      | inr found ↦ found
    ]
