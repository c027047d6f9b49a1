-- ===== src/AppServer/Webhook/Sound.antt =====
-- internal/appserver/webhook.go: which requests are evaluated, and what they are answered.
use assurectl.Prelude.{
  String, ◌≡◌, refl, ◌⊎◌, inl, inr, Option, some, ◌<>◌, Result, ok, err, eq_iff, Option-cases, ap,
  ◌∙◌, arith,
}
use assurectl.AppServer.{PullRequestEvent, CheckPayload}
use assurectl.AppServer.Webhook.{
  Request, evaluated, write, write_header, verify_signature, route_event, route_body, route,
  respond, handle,
}

module _ {E : Type 0} (hmac_sha256 : String → String) (decode : String → Option PullRequestEvent)
    (encode : CheckPayload → String) (evaluate : PullRequestEvent → Result E CheckPayload)
    (error_text : E → String) where
  -- A request is evaluated only if its body could be read, the header is the body's signature under
  -- the webhook secret, the event is a pull request that was opened or synchronized, and the body
  -- decodes to the event that is evaluated.
  pub route-evaluated :
      (request : Request) (event : PullRequestEvent)
      → route hmac_sha256 decode encode evaluate error_text request ≡ evaluated event
      → (body : String) × (request.body ≡ some body)
        × (request.signature ≡ "sha256=" <> hmac_sha256 body)
        × (request.event_type ≡ "pull_request")
        × (decode body ≡ some event)
        × ((event.action ≡ "opened") ⊎ (event.action ≡ "synchronize"))
  unfolding route route_body route_event verify_signature
  route-evaluated request event h = elim (Option-cases request.body) [
    | inl unread ↦ absurd (ground arith)
    | inr (body, read) ↦ elim (Option-cases (decode body)) [
      | inl failed ↦ absurd (ground arith)
      | inr (found, decoded) ↦ (
        body,
        read,
        ground (arith, eq_iff ("sha256=" <> hmac_sha256 body) request.signature),
        ground (arith, eq_iff request.event_type "pull_request"),
        ground arith,
        ground (arith, eq_iff found.action "opened", eq_iff found.action "synchronize"),
      )
    ]
  ]

  -- Every request that is evaluated is answered with the status 200, whether the evaluation
  -- succeeds or fails: the text of an error is written first, and the status 500 behind it is lost.
  pub handle-evaluated_status :
      (request : Request) (event : PullRequestEvent)
      → route hmac_sha256 decode encode evaluate error_text request ≡ evaluated event
      → (handle hmac_sha256 decode encode evaluate error_text request).status ≡ some 200
  unfolding handle respond write write_header
  handle-evaluated_status request event h =
      let handled : handle hmac_sha256 decode encode evaluate error_text request
          ≡ respond hmac_sha256 decode encode evaluate error_text (evaluate event) =
        ground (arith, h) in
      ap (λ r. r.status) handled ∙ answered (evaluate event)
    where
      answered :
          (r : Result E CheckPayload)
          → (respond hmac_sha256 decode encode evaluate error_text r).status ≡ some 200
      answered (ok payload) = refl
      answered (err e) = refl
