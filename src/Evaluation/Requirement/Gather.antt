-- ===== src/Evaluation/Requirement/Gather.antt =====
-- internal/evaluation/evaluate.go: what the loop of `evaluateRequirement` collects.
use mathlib.Core.List.{append_assoc, append-nil}
use assurectl.Prelude.{
  ℕ, String, Bool, true, false, ◌≡◌, refl, sym, ◌∙◌, List, [], ◌∷◌, ◌++◌, select,
}
use assurectl.Domain.{ObservedOutcome}
use assurectl.Evidence
use assurectl.Policy.{Requirement}
use assurectl.Evaluation.Facts.{EnvelopeFact, candidate, derive_fact}
use assurectl.Evaluation.Requirement.{Gathered, nothing_gathered, gather_fact, gather}

abbrev pub is_candidate : EnvelopeFact → Bool
is_candidate candidate = true
is_candidate _ = false

abbrev pub ids_of : List Evidence.Loaded → List String
ids_of [] = []
ids_of (item ∷ items) = item.envelope.id ∷ ids_of items

abbrev pub outcomes_of : List Evidence.Loaded → List ObservedOutcome
outcomes_of [] = []
outcomes_of (item ∷ items) = item.envelope.outcome.status ∷ outcomes_of items

-- The envelopes of the requirement's type that count for it.
abbrev pub candidates : Requirement → ℕ → List Evidence.Loaded → List Evidence.Loaded
candidates requirement evaluated_at items =
    select (λ item. is_candidate (derive_fact requirement item evaluated_at)) items

module _ (requirement : Requirement) (evaluated_at : ℕ) where
  abbrev chosen : List Evidence.Loaded → List Evidence.Loaded
  chosen items = candidates requirement evaluated_at items

  gather_fact-ids :
      (fact : EnvelopeFact) (item : Evidence.Loaded) (g : Gathered) (rest : List Evidence.Loaded)
      → (gather_fact fact item g).candidate_ids ++ ids_of rest
        ≡ g.candidate_ids ++ ids_of (elim (is_candidate fact) [ true ↦ item ∷ rest | false ↦ rest ])
  unfolding gather_fact
  gather_fact-ids candidate item g rest =
      append_assoc g.candidate_ids (item.envelope.id ∷ []) (ids_of rest)
  gather_fact-ids _ item g rest = refl

  gather_fact-outcomes :
      (fact : EnvelopeFact) (item : Evidence.Loaded) (g : Gathered) (rest : List Evidence.Loaded)
      → (gather_fact fact item g).candidate_outcomes ++ outcomes_of rest
        ≡ g.candidate_outcomes
          ++ outcomes_of (elim (is_candidate fact) [ true ↦ item ∷ rest | false ↦ rest ])
  unfolding gather_fact
  gather_fact-outcomes candidate item g rest =
      append_assoc g.candidate_outcomes (item.envelope.outcome.status ∷ []) (outcomes_of rest)
  gather_fact-outcomes _ item g rest = refl

  gather-ids :
      (g : Gathered) (items : List Evidence.Loaded)
      → (gather requirement evaluated_at g items).candidate_ids
        ≡ g.candidate_ids ++ ids_of (chosen items)
  unfolding gather
  gather-ids g [] = sym (append-nil g.candidate_ids)
  gather-ids g (item ∷ items) =
      let fact = derive_fact requirement item evaluated_at in
      gather-ids (gather_fact fact item g) items ∙ gather_fact-ids fact item g (chosen items)

  gather-outcomes :
      (g : Gathered) (items : List Evidence.Loaded)
      → (gather requirement evaluated_at g items).candidate_outcomes
        ≡ g.candidate_outcomes ++ outcomes_of (chosen items)
  unfolding gather
  gather-outcomes g [] = sym (append-nil g.candidate_outcomes)
  gather-outcomes g (item ∷ items) =
      let fact = derive_fact requirement item evaluated_at in
      gather-outcomes (gather_fact fact item g) items
      ∙ gather_fact-outcomes fact item g (chosen items)

  -- The candidates' identifiers and outcomes are those of the envelopes that count, in order.
  pub gathered_candidates :
      (items : List Evidence.Loaded)
      → ((gather requirement evaluated_at nothing_gathered items).candidate_ids
          ≡ ids_of (chosen items))
        × ((gather requirement evaluated_at nothing_gathered items).candidate_outcomes
            ≡ outcomes_of (chosen items))
  gathered_candidates items =
      (gather-ids nothing_gathered items, gather-outcomes nothing_gathered items)
