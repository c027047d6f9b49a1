-- ===== src/AppServer/Webhook.antt =====
-- internal/appserver/webhook.go: the webhook handler. The hash of the body under the secret, the
-- JSON decoder and encoder are parameters, and so is the evaluation.
pub mod Sound
use assurectl.Prelude.{
  ℕ, String, Bool, not, ◌&&◌, ◌||◌, Option, none, some, ◌==◌, ◌<>◌, has_prefix, if◌then◌else◌,
  Result, ok, err,
}
use assurectl.AppServer.{PullRequestEvent, CheckPayload}

-- The body up to the limit, nothing if it cannot be read, and the headers that are looked up.
pub record Request : Type 0 where
  pub body : Option String
  pub signature : String
  pub event_type : String

-- What an `http.ResponseWriter` has sent. The first write sends the status 200, if none was sent,
-- and a status is sent once.
pub record Response : Type 0 where
  pub status : Option ℕ
  pub content : String

abbrev pub unsent : Response
unsent = record { status = none; content = "" }

unfoldable pub write_header : ℕ → Response → Response
write_header status response = elim response.status [
  | none ↦ record response { status = some status }
  | some sent ↦ response
]

unfoldable pub write : String → Response → Response
write text response =
    let opened = write_header 200 response in record opened { content = opened.content <> text }

-- `http.Error`
abbrev pub http_error : String → ℕ → Response
http_error text status = write (text <> "\n") (write_header status unsent)

-- what the handler does with a request
pub data Routed : Type 0 where
  refused : Response → Routed
  ignored : Routed
  evaluated : PullRequestEvent → Routed

module _ {E : Type 0} (hmac_sha256 : String → String) (decode : String → Option PullRequestEvent)
    (encode : CheckPayload → String) (evaluate : PullRequestEvent → Result E CheckPayload)
    (error_text : E → String) where
  -- `verifySignature`, where `hmac_sha256` gives the hexadecimal digits under the webhook secret
  unfoldable pub verify_signature : String → String → Bool
  verify_signature body header =
      has_prefix header "sha256=" && "sha256=" <> hmac_sha256 body == header

  abbrev is_evaluated_action : String → Bool
  is_evaluated_action action = action == "opened" || action == "synchronize"

  unfoldable pub route_event : PullRequestEvent → Routed
  route_event event = if is_evaluated_action event.action then evaluated event else ignored

  unfoldable pub route_body : Request → String → Routed
  route_body request body =
      if not (verify_signature body request.signature)
      then refused (http_error "invalid signature" 401)
      else if not (request.event_type == "pull_request")
      then ignored
      else elim (decode body) [
        | none ↦ refused (http_error "parse event" 400)
        | some event ↦ route_event event
      ]

  unfoldable pub route : Request → Routed
  route request = elim request.body [
    | none ↦ refused (http_error "read body" 400)
    | some body ↦ route_body request body
  ]

  -- What follows the evaluation: an error is written before its status is set.
  unfoldable pub respond : Result E CheckPayload → Response
  respond (err e) = write_header 500 (write ("evaluate: " <> error_text e) unsent)
  respond (ok payload) = write (encode payload) unsent

  unfoldable pub handle : Request → Response
  handle request = elim (route request) [
    | refused response ↦ response
    | ignored ↦ write_header 200 unsent
    | evaluated event ↦ respond (evaluate event)
  ]
