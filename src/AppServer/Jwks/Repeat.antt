-- ===== src/AppServer/Jwks/Repeat.antt =====
-- internal/appserver/github_jwks.go: when the issuer is asked.
use assurectl.Prelude.{
  String, true, false, ◌≡◌, inl, inr, Option, none, some, List, ◌==◌, ap, ◌∙◌, eq_iff, ok,
  Option-cases, Result-cases, Bool-cases, arith,
}
use assurectl.AppServer.Jwks.{JsonWebKey, KeySource, key_at, fetch, refresh, lookup}

module _ {ℓ} (Key : Type ℓ) where
  fetch_marked :
      (document : Option (List (JsonWebKey Key))) (s t : KeySource Key)
      → fetch Key document s ≡ ok t
      → t.refreshed_for ≡ s.refreshed_for
  unfolding fetch
  fetch_marked none s t h = absurd (ground arith)
  fetch_marked (some document) s t h = ground arith

  already_tried :
      (document : Option (List (JsonWebKey Key))) (kid : String) (s : KeySource Key)
      → s.refreshed_for ≡ kid
      → (lookup Key document kid s).fetched ≡ false
  unfolding lookup
  already_tried document kid s h = elim (Option-cases (key_at Key kid s.keys)) [
    | inr (key, found) ↦ ground arith
    | inl missing ↦
        let tried : (s.refreshed_for == kid) ≡ true = (eq_iff s.refreshed_for kid).1 h in
        ground arith
  ]

  refresh_marks :
      (document : Option (List (JsonWebKey Key))) (kid : String) (s : KeySource Key)
      → (refresh Key document kid s).state.refreshed_for ≡ kid
  unfolding refresh
  refresh_marks document kid s =
      let marked = record s { refreshed_for = kid } in
      elim (Result-cases (fetch Key document marked)) [
        | inr (e, failed) ↦ ground arith
        | inl (t, fetched) ↦ let kept = fetch_marked document marked t fetched in ground arith
      ]

  -- A second lookup of an identifier right behind the first never asks the issuer, whatever the
  -- state before and whatever the issuer would answer, then or now.
  pub lookup-lookup :
      (first second : Option (List (JsonWebKey Key))) (kid : String) (s : KeySource Key)
      → (lookup Key second kid (lookup Key first kid s).state).fetched ≡ false
  unfolding lookup
  lookup-lookup first second kid s = elim (Option-cases (key_at Key kid s.keys)) [
    | inr (key, found) ↦ ground arith
    | inl missing ↦ elim (Bool-cases (s.refreshed_for == kid)) [
      | inl tried ↦ ground arith
      | inr untried ↦
          let same : (lookup Key first kid s).state ≡ (refresh Key first kid s).state =
            ground arith in
          already_tried second kid (lookup Key first kid s).state
            (ap (λ t. t.refreshed_for) same ∙ refresh_marks first kid s)
    ]
  ]
