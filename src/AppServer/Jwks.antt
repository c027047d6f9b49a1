-- ===== src/AppServer/Jwks.antt =====
-- internal/appserver/github_jwks.go: the cache of the issuer's keys as a state machine. The request
-- and the decoding of the document and of the keys are parameters: the outcome of each fetch.
pub mod Repeat
use assurectl.Prelude.{
  String, Bool, true, false, Option, none, some, List, [], ◌∷◌, ◌==◌, if◌then◌else◌, Result, ok,
  err,
}

-- a member of the document, with the modulus and the exponent if they decode
pub record JsonWebKey {ℓ} (Key : Type ℓ) : Type ℓ where
  pub kty : String
  pub kid : String
  pub key : Option Key

pub data KeyError : Type 0 where
  not_found not_found_after_refresh fetch_failed : KeyError
  key_malformed : String → KeyError

module _ {ℓ} (Key : Type ℓ) where
  -- The keys, the last of an identifier first, and the identifier that the last fetch was for.
  pub record KeySource : Type ℓ where
    pub keys : List (String × Key)
    pub refreshed_for : String

  unfoldable pub key_at : String → List (String × Key) → Option Key
  key_at kid [] = none
  key_at kid ((id, key) ∷ keys) = let rest = key_at kid keys in if id == kid then some key else rest

  -- The loop over the document: keys of another type are passed over.
  unfoldable pub collect :
      List (String × Key) → List (JsonWebKey Key) → Result KeyError (List (String × Key))
  collect keys [] = ok keys
  collect keys (member ∷ members) =
      let next = collect keys members in
      if member.kty == "RSA"
      then (elim member.key [
        | none ↦ err (key_malformed member.kid)
        | some key ↦ collect ((member.kid, key) ∷ keys) members
      ])
      else next

  -- `fetch`, where `document` is none if the request or the decoding fails: the keys are replaced
  -- only if all is well.
  unfoldable pub fetch : Option (List (JsonWebKey Key)) → KeySource → Result KeyError KeySource
  fetch none s = err fetch_failed
  fetch (some document) s = elim (collect [] document) [
    | err e ↦ err e
    | ok keys ↦ ok (record s { keys = keys })
  ]

  -- The answer, the state behind it, and whether the issuer was asked.
  pub record Lookup : Type ℓ where
    pub answer : Result KeyError Key
    pub state : KeySource
    pub fetched : Bool

  abbrev pub after_refresh : Option Key → Result KeyError Key
  after_refresh none = err not_found_after_refresh
  after_refresh (some key) = ok key

  unfoldable pub refresh : Option (List (JsonWebKey Key)) → String → KeySource → Lookup
  refresh document kid s =
      let marked = record s { refreshed_for = kid } in
      elim (fetch document marked) [
        | err e ↦ record { answer = err e; state = marked; fetched = true }
        | ok t ↦ record { answer = after_refresh (key_at kid t.keys); state = t; fetched = true }
      ]

  -- `Key`, if the issuer answers a fetch with `document`
  unfoldable pub lookup : Option (List (JsonWebKey Key)) → String → KeySource → Lookup
  lookup document kid s = elim (key_at kid s.keys) [
    | some key ↦ record { answer = ok key; state = s; fetched = false }
    | none ↦
        if s.refreshed_for == kid
        then record { answer = err not_found; state = s; fetched = false }
        else refresh document kid s
  ]
