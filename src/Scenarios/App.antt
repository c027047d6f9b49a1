-- ===== src/Scenarios/App.antt =====
-- Runs of internal/appserver: the pipeline on the work tree of the other runs, and the webhook and
-- the cache of keys with toy functions.
use assurectl.Prelude.{
  ℕ, ◌<◌, String, true, false, ◌≡◌, refl, ap, ◌⊎◌, Option, none, some, List, [], ◌∷◌, All, ◌==◌,
  ◌<>◌, object_id_pattern, strip_prefix, cut_at, split, has_prefix, is_blank, if◌then◌else◌, Result,
  ok, err,
}
use assurectl.InputMeta.{Digest}
use assurectl.Domain.{ObservedOutcome}
use assurectl.Evaluation.Input.{Input}
use assurectl.Evaluation.Evaluate.Approval.{Shown}
use assurectl.Receipt.Model.{Receipt}
use assurectl.Receipt.Build.{
  assemble, build, validate_build_input, check_tier, check_digests, previous_digest,
}
use assurectl.Receipt.Validate.{is_base_source}
use assurectl.Verify.{Resolution, authority_of}
use assurectl.AppServer.{PullRequestEvent, ExpectedClaims, ValidatedClaims, CheckPayload}
use assurectl.AppServer.Pipeline.{
  Dependencies, lifted, build_failed, conclusion_of, build_check_payload, earned_authority,
  build_receipt, evaluate_pull_request,
}
use assurectl.AppServer.Pipeline.Sound.{
  Made, Taken, evaluate_pull_request-success, evaluate_pull_request-authoritative,
}
use assurectl.AppServer.Webhook.{
  Request, evaluated, verify_signature, route_event, route_body, route, handle,
}
use assurectl.AppServer.Webhook.Sound.{route-evaluated, handle-evaluated_status}
use assurectl.AppServer.Jwks.{JsonWebKey, KeySource, lookup}
use assurectl.AppServer.Jwks.Repeat.{lookup-lookup}
use assurectl.AppServer.Oidc.{
  Header, Claims, rsa, Tokens, is_past, verified_header, accepted_claims, validate,
}
use assurectl.AppServer.Oidc.Sound.{granted, validate_sound}
use assurectl.Scenarios.Files.{
  demo_codecs, demo_files, contract_loads, policy_loads, evidence_loads,
}
use assurectl.Scenarios.Pipelines.{
  trusted-evaluates, app_build, app_receipt, trusted-receipts_validate,
}
use assurectl.Scenarios.{demo_platform, zero_hash, demo_head, demo_resolution, trusted_options}

abbrev demo_event : PullRequestEvent
demo_event = record {
  installation_id = 1;
  repository = "octo/app";
  action = "opened";
  pr_number = 7;
  base_sha = zero_hash;
  head_sha = demo_head;
}

abbrev demo_claims : ExpectedClaims → ValidatedClaims
demo_claims expect = record {
  repository = expect.repository;
  workflow_ref = "build";
  workflow_sha = demo_head;
  sha = expect.sha;
}

abbrev demo_dependencies : Dependencies
demo_dependencies = record {
  worktree_source = some (λ installation repository revision. some "tree");
  evidence_source = some (λ installation repository number head. some ("bundle", "token"));
  check_poster = some (λ installation repository number head payload. true);
  validate_token = λ token expect. some (demo_claims expect);
  now = trusted_options.evaluated_at;
  resolve = λ worktree base head. some demo_resolution;
  blob = λ worktree revision path. some "{}";
  evidence_root = λ bundle. demo_files.evidence;
}

abbrev no_digest : Receipt → Option Digest
no_digest built = none

app-builds : build demo_platform "v1" app_build ≡ ok app_receipt
unfolding build validate_build_input check_tier check_digests previous_digest is_base_source
    authority_of object_id_pattern strip_prefix cut_at
app-builds = rw (trusted-receipts_validate.1) refl

app-receipt_builds :
    build_receipt demo_platform "v1" demo_codecs demo_dependencies no_digest demo_event "tree"
      demo_resolution
      ("bundle", "token")
    ≡ ok app_receipt
unfolding build_receipt earned_authority authority_of
app-receipt_builds =
    rw (evidence_loads, contract_loads, policy_loads, trusted-evaluates)
      (ap (lifted build_failed) app-builds)

app-evaluates :
    evaluate_pull_request demo_platform "v1" demo_codecs demo_dependencies no_digest demo_event
    ≡ ok (build_check_payload no_digest app_receipt)
unfolding evaluate_pull_request
app-evaluates = rw app-receipt_builds refl

evaluate_pull_request-success_example :
    (worktree : String) × (bundle : String) × (token : String) × (resolution : Resolution)
    × (input : Input) × Taken demo_platform "v1" demo_codecs demo_dependencies no_digest demo_event
        worktree resolution bundle token
        (build_check_payload no_digest app_receipt)
    × Made demo_platform "v1" demo_codecs demo_dependencies no_digest worktree bundle
        resolution.subject input
    × All (Shown input ObservedOutcome.passed) input.policy.policy.requirements
unfolding build_check_payload conclusion_of assemble
evaluate_pull_request-success_example =
    evaluate_pull_request-success demo_platform "v1" demo_codecs demo_dependencies no_digest
      demo_event (build_check_payload no_digest app_receipt) app-evaluates refl

evaluate_pull_request-authoritative_example :
    (worktree : String) × (bundle : String) × (token : String) × (resolution : Resolution)
    × (claims : ValidatedClaims) × Taken demo_platform "v1" demo_codecs demo_dependencies no_digest
        demo_event worktree resolution bundle token
        (build_check_payload no_digest app_receipt)
    × ((token == "") ≡ false)
    × (demo_dependencies.validate_token token
          (record { repository = resolution.subject.repository_uri; sha = demo_head })
        ≡ some claims)
    × (claims.sha ≡ demo_head)
    × (claims.repository ≡ resolution.subject.repository_uri)
unfolding build_check_payload assemble authority_of
evaluate_pull_request-authoritative_example =
    evaluate_pull_request-authoritative demo_platform "v1" demo_codecs demo_dependencies no_digest
      demo_event (build_check_payload no_digest app_receipt) app-evaluates refl

abbrev demo_request : Request
demo_request = record { body = some "{}"; signature = "sha256=00"; event_type = "pull_request" }

abbrev demo_mac : String → String
demo_mac body = "00"

abbrev demo_decode : String → Option PullRequestEvent
demo_decode body = some demo_event

abbrev failing : PullRequestEvent → Result String CheckPayload
failing event = err "no worktree"

demo-route :
    route demo_mac demo_decode (λ p. p.conclusion) failing (λ e. e) demo_request
    ≡ evaluated demo_event
unfolding route route_body route_event verify_signature has_prefix strip_prefix
demo-route = refl

route-evaluated_example :
    (body : String) × (demo_request.body ≡ some body)
    × (demo_request.signature ≡ "sha256=" <> demo_mac body)
    × (demo_request.event_type ≡ "pull_request")
    × (demo_decode body ≡ some demo_event)
    × ((demo_event.action ≡ "opened") ⊎ (demo_event.action ≡ "synchronize"))
route-evaluated_example =
    route-evaluated demo_mac demo_decode (λ p. p.conclusion) failing (λ e. e) demo_request
      demo_event demo-route

handle-evaluated_status_example :
    (handle demo_mac demo_decode (λ p. p.conclusion) failing (λ e. e) demo_request).status
    ≡ some 200
handle-evaluated_status_example =
    handle-evaluated_status demo_mac demo_decode (λ p. p.conclusion) failing (λ e. e) demo_request
      demo_event demo-route

abbrev demo_source : KeySource ℕ
demo_source = record { keys = ("k1", 3) ∷ []; refreshed_for = "k1" }

abbrev demo_document : Option (List (JsonWebKey ℕ))
demo_document = some (record { kty = "RSA"; kid = "k2"; key = some 5 } ∷ [])

lookup-lookup_example :
    (lookup ℕ demo_document "k3" (lookup ℕ demo_document "k3" demo_source).state).fetched ≡ false
lookup-lookup_example = lookup-lookup ℕ demo_document demo_document "k3" demo_source

abbrev demo_tokens : Tokens ℕ
demo_tokens = record {
  decode = λ text. some text;
  header = λ text. some (record { alg = "RS256"; kid = "k1" });
  claims = λ text. some (record {
    issuer = "issuer";
    audience = "assurectl";
    expires_at = (false, 100);
    repository = "octo/app";
    workflow_ref = "build";
    workflow_sha = demo_head;
    sha = demo_head;
  });
  key = λ kid. if kid == "k1" then some (rsa 3) else none;
  verify = λ key message signature. signature == "s";
}

abbrev demo_expected : ExpectedClaims
demo_expected = record { repository = "octo/app"; sha = demo_head }

token-validates :
    validate demo_tokens "issuer" "assurectl" 50 "h.p.s" demo_expected
    ≡ ok (demo_claims demo_expected)
unfolding validate verified_header accepted_claims is_past split is_blank
token-validates = refl

validate_sound_example :
    (h : String) × (p : String) × (s : String) × (header_text : String) × (header : Header)
    × (key : ℕ) × (signature : String) × (payload : String) × (claims : Claims) × (split b'.'
          "h.p.s"
        ≡ h ∷ p ∷ s ∷ [])
    × (demo_tokens.decode h ≡ some header_text)
    × (demo_tokens.header header_text ≡ some header)
    × (header.alg ≡ "RS256")
    × (demo_tokens.key header.kid ≡ some (rsa key))
    × (demo_tokens.decode s ≡ some signature)
    × (demo_tokens.verify key (h <> "." <> p) signature ≡ true)
    × (demo_tokens.decode p ≡ some payload)
    × (demo_tokens.claims payload ≡ some claims)
    × (claims.issuer ≡ "issuer")
    × (claims.audience ≡ "assurectl")
    × (claims.expires_at.0 ≡ false)
    × (50 < claims.expires_at.1)
    × (demo_claims demo_expected ≡ granted claims)
validate_sound_example =
    validate_sound demo_tokens "issuer" "assurectl" 50 "h.p.s" demo_expected
      (demo_claims demo_expected) token-validates
