-- ===== src/Evaluation/Facts.antt =====
-- internal/evaluation/evaluate.go: what one evidence envelope says about one requirement.
pub mod Candidates
use assurectl.Prelude.{
  ℕ, ◌*◌, String, Bool, false, not, ◌||◌, Option, none, some, List, [], ◌∷◌, select, ltb, ◌==◌,
  if◌then◌else◌,
}
use assurectl.Platform.{second, after, sub}
use assurectl.Evidence.{is_other_revision}
use assurectl.Evidence
use assurectl.Policy.{Requirement}

pub data EnvelopeFact : Type 0 where
  candidate stale_revision stale_future stale_age untrusted_producer : EnvelopeFact

-- The source returns the indexes of these entries, and its caller reads the entries there.
unfoldable pub match_envelopes : String → List Evidence.Loaded → List Evidence.Loaded
match_envelopes evidence_type evidence =
    select (λ item. item.envelope.type == evidence_type) evidence

unfoldable pub exceeds_max_age : ℕ → ℕ → Bool
exceeds_max_age limit age = ltb (limit * second) age

unfoldable pub allows_producer : List String → String → Bool
allows_producer [] producer_type = false
allows_producer (allowed ∷ rest) producer_type =
    allowed == producer_type || allows_producer rest producer_type

-- no limit, no expiry
abbrev pub is_expired : Option ℕ → ℕ → Bool
is_expired none age = false
is_expired (some limit) age = exceeds_max_age limit age

unfoldable pub derive_fact : Requirement → Evidence.Loaded → ℕ → EnvelopeFact
derive_fact requirement item evaluated_at =
    if is_other_revision item.subject_binding
    then stale_revision
    else if after item.finished_at evaluated_at
    then stale_future
    else if is_expired requirement.max_age_seconds (sub evaluated_at item.finished_at)
    then stale_age
    else if not (allows_producer requirement.allowed_producer_types item.envelope.producer.type)
    then untrusted_producer
    else candidate
