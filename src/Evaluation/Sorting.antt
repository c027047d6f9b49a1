-- ===== src/Evaluation/Sorting.antt =====
-- internal/evaluation/evaluate.go: `sortFindings` and `sortedCopy`. The library's stable sort is
-- modelled by an insertion sort: of two elements that the order does not tell apart, the earlier
-- one stays in front.
pub mod Order
pub mod Copy
pub mod Stable
use Prim.Native.String.{compare}
use text.Mathlib.Text.{is_lt}
use assurectl.Prelude.{String, Bool, not, List, [], ◌∷◌, ◌==◌, if◌then◌else◌, join}
use assurectl.Domain.{Finding}

-- `<` on texts
abbrev pub text_less : String → String → Bool
text_less s t = is_lt (compare s t)

module _ {ℓ} {A : Type ℓ} (less : A → A → Bool) where
  -- `x` was in front of all of the list
  unfoldable pub insert : A → List A → List A
  insert x [] = x ∷ []
  insert x (y ∷ ys) = let rest = insert x ys in if less y x then y ∷ rest else x ∷ (y ∷ ys)

  unfoldable pub sort_stable : List A → List A
  sort_stable [] = []
  sort_stable (x ∷ xs) = insert x (sort_stable xs)

unfoldable pub join_evidence_ids : List String → String
join_evidence_ids ids = join "," ids

unfoldable pub finding_less : Finding → Finding → Bool
finding_less left right =
    if not (left.code == right.code)
    then text_less left.code right.code
    else if not (left.requirement_id == right.requirement_id)
    then text_less left.requirement_id right.requirement_id
    else text_less (join_evidence_ids left.evidence_ids) (join_evidence_ids right.evidence_ids)

unfoldable pub sort_findings : List Finding → List Finding
sort_findings findings = sort_stable finding_less findings

-- The loop of `sortedCopy`, which writes over the front of the slice that it reads: what it writes
-- never passes what it has read, so `ordered[i-1]` is still the element before.
deduplicate_from : String → List String → List String
deduplicate_from previous [] = []
deduplicate_from previous (id ∷ ids) =
    let rest = deduplicate_from id ids in if previous == id then rest else id ∷ rest

unfoldable pub deduplicate : List String → List String
unfolding deduplicate_from
deduplicate [] = []
deduplicate (id ∷ ids) = id ∷ deduplicate_from id ids

unfoldable pub sorted_copy : List String → List String
sorted_copy ids = deduplicate (sort_stable text_less ids)
