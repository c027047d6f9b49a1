-- ===== src/Evaluation/Facts/Candidates.antt =====
-- internal/evaluation/evaluate.go: what makes an envelope count for a requirement, and which check
-- an envelope that does not count fails first.
use assurectl.Prelude.{
  ℕ, ◌*◌, ◌≤◌, ◌<◌, String, true, false, ◌≡◌, ◌↔◌, Option, none, some, List, [], ◌∷◌, contains,
  arith, refl,
}
use assurectl.Platform.{second, sub}
use assurectl.Evidence.{exact, other_revision}
use assurectl.Evidence
use assurectl.Policy.{Requirement}
use assurectl.Evaluation.Facts.{
  EnvelopeFact, candidate, stale_revision, stale_future, stale_age, untrusted_producer,
  exceeds_max_age, allows_producer, derive_fact, is_expired,
}

-- The age is at most the limit, if there is one.
abbrev pub WithinAge : Option ℕ → ℕ → Type 0
WithinAge none age = Unit
WithinAge (some limit) age = age ≤ limit * second

-- There is a limit, and the age is past it.
abbrev pub Exceeds : Option ℕ → ℕ → Type 0
Exceeds none age = ⊥
Exceeds (some limit) age = limit * second < age

-- The envelope is bound to the exact revision, was finished by the evaluation instant, is within
-- the age limit, and has a producer on the allow list.
pub record Counts (requirement : Requirement) (evaluated_at : ℕ) (item : Evidence.Loaded)
    : Type 0 where
  pub exact_revision : item.subject_binding ≡ exact
  pub not_future : item.finished_at ≤ evaluated_at
  pub within_age : WithinAge requirement.max_age_seconds (sub evaluated_at item.finished_at)
  pub allowed : contains requirement.allowed_producer_types item.envelope.producer.type ≡ true

pub allows_producer-contains :
    (allowed : List String) (producer : String)
    → allows_producer allowed producer ≡ contains allowed producer
unfolding allows_producer
allows_producer-contains [] producer = refl
allows_producer-contains (a ∷ allowed) producer =
    ground (arith, allows_producer-contains allowed producer)

WithinAge-of : (limit : Option ℕ) (age : ℕ) → is_expired limit age ≡ false → WithinAge limit age
unfolding exceeds_max_age
WithinAge-of none age h = tt
WithinAge-of (some limit) age h = ground arith

of_WithinAge : (limit : Option ℕ) (age : ℕ) → WithinAge limit age → is_expired limit age ≡ false
unfolding exceeds_max_age
of_WithinAge none age h = refl
of_WithinAge (some limit) age h = ground arith

Exceeds-of : (limit : Option ℕ) (age : ℕ) → is_expired limit age ≡ true → Exceeds limit age
unfolding exceeds_max_age
Exceeds-of none age h = ground arith
Exceeds-of (some limit) age h = ground arith

of_Exceeds : (limit : Option ℕ) (age : ℕ) → Exceeds limit age → is_expired limit age ≡ true
unfolding exceeds_max_age
of_Exceeds none age h = absurd h
of_Exceeds (some limit) age h = ground arith

module _ (requirement : Requirement) (item : Evidence.Loaded) (evaluated_at : ℕ) where
  abbrev age : ℕ
  age = sub evaluated_at item.finished_at

  candidate-Counts :
      derive_fact requirement item evaluated_at ≡ candidate → Counts requirement evaluated_at item
  unfolding derive_fact
  candidate-Counts h = ground (
    arith,
    WithinAge-of requirement.max_age_seconds age,
    allows_producer-contains requirement.allowed_producer_types item.envelope.producer.type,
  )

  Counts-candidate :
      Counts requirement evaluated_at item → derive_fact requirement item evaluated_at ≡ candidate
  unfolding derive_fact
  Counts-candidate c = ground (
    arith,
    of_WithinAge requirement.max_age_seconds age c.within_age,
    allows_producer-contains requirement.allowed_producer_types item.envelope.producer.type,
  )

  -- An envelope counts as a candidate exactly when it is bound to the exact revision, was not
  -- finished after the evaluation instant, is within the age limit, and its producer is allowed.
  pub derive_fact_candidate :
      (derive_fact requirement item evaluated_at ≡ candidate) ↔ Counts requirement evaluated_at item
  derive_fact_candidate = (candidate-Counts, Counts-candidate)

  abbrev FactIs : EnvelopeFact → Type 0
  FactIs fact = derive_fact requirement item evaluated_at ≡ fact

  stale_revision_iff : FactIs stale_revision ↔ (item.subject_binding ≡ other_revision)
  unfolding derive_fact
  stale_revision_iff = (λ h. ground arith, λ h. ground arith)

  stale_future_iff :
      FactIs stale_future ↔ ((item.subject_binding ≡ exact) × (evaluated_at < item.finished_at))
  unfolding derive_fact
  stale_future_iff = (λ h. ground arith, λ h. ground arith)

  stale_age_iff : FactIs stale_age ↔ (
      (item.subject_binding ≡ exact)
      × (item.finished_at ≤ evaluated_at)
      × Exceeds requirement.max_age_seconds age)
  unfolding derive_fact
  stale_age_iff = (
    λ h. ground (arith, Exceeds-of requirement.max_age_seconds age),
    λ h. ground (arith, of_Exceeds requirement.max_age_seconds age h.2),
  )

  untrusted_producer_iff : FactIs untrusted_producer ↔ (
      (item.subject_binding ≡ exact)
      × (item.finished_at ≤ evaluated_at)
      × WithinAge requirement.max_age_seconds age
      × (contains requirement.allowed_producer_types item.envelope.producer.type ≡ false))
  unfolding derive_fact
  untrusted_producer_iff = (
    λ h. ground (
      arith,
      WithinAge-of requirement.max_age_seconds age,
      allows_producer-contains requirement.allowed_producer_types item.envelope.producer.type,
    ),
    λ h. ground (
      arith,
      of_WithinAge requirement.max_age_seconds age h.2,
      allows_producer-contains requirement.allowed_producer_types item.envelope.producer.type,
    ),
  )

  -- The checks take precedence in this order: an envelope of another revision has that fact and no
  -- other; of the rest, one finished after the evaluation instant; of the rest, one older than the
  -- age limit; of the rest, one whose producer is not on the allow list.
  pub derive_fact_precedence :
      ((derive_fact requirement item evaluated_at ≡ stale_revision)
        ↔ (item.subject_binding ≡ other_revision))
      × ((derive_fact requirement item evaluated_at ≡ stale_future)
          ↔ ((item.subject_binding ≡ exact) × (evaluated_at < item.finished_at)))
      × ((derive_fact requirement item evaluated_at ≡ stale_age) ↔ (
          (item.subject_binding ≡ exact)
          × (item.finished_at ≤ evaluated_at)
          × Exceeds requirement.max_age_seconds (sub evaluated_at item.finished_at)))
      × ((derive_fact requirement item evaluated_at ≡ untrusted_producer) ↔ (
          (item.subject_binding ≡ exact)
          × (item.finished_at ≤ evaluated_at)
          × WithinAge requirement.max_age_seconds (sub evaluated_at item.finished_at)
          × (contains requirement.allowed_producer_types item.envelope.producer.type ≡ false)))
  derive_fact_precedence =
      (stale_revision_iff, stale_future_iff, stale_age_iff, untrusted_producer_iff)
