-- ===== src/Lib.antt =====
-- AssureCTL decides whether a unit of work may be completed. Loaders read a verification contract,
-- a policy, evidence envelopes and waiver records; the evaluation matches the evidence against the
-- policy's requirements, applies the waivers, and hands requirement results and findings to the
-- decision kernel, which reads verdict and completion decision off a precedence table.
--
-- Files and what they model:
--   Domain        internal/domain: enumerations (types), their methods Valid (functions *_valid),
--                 and the records that the packages exchange
--   Decision      internal/decision/evaluate.go: Evaluate (evaluate), validateRequirement,
--                 validateFinding, everyFailureIsWaived. Valid, Table, Outcomes, Risk and Order
--                 hold what is proved of it.
--   InputMeta     internal/inputmeta/meta.go
--   GitSubject    internal/gitsubject/identity.go (Identity): CanonicalizeRepositoryIdentity and
--                 the functions under it
--   LocalInput    internal/localinput/read.go: ReadWorkspaceFile, OpenWorkspaceRegularFile
--   Contract, Policy, Waiver
--                 internal/contract/loader.go, internal/policy/loader.go,
--                 internal/waiver/waiver.go; their children Load are the loaders (LoadLocal,
--                 LoadBase, and internal/waiver/load.go behind the decoding of the file)
--   Evidence      internal/evidence: the model (model.go), Discovery (discoverLocal), Envelopes
--                 (decodeEnvelope and what it calls), Timestamp (timestampPattern), Location
--                 (artifact.go), Binding (subject.go), Load (LoadLocal)
--   Evaluation    internal/evaluation/evaluate.go and waiver.go: Input (validateInput), Facts
--                 (matchEnvelopes, deriveFact), Requirement (evaluateRequirement,
--                 aggregateCandidates), Universe (universeFindings), Waivers (applyWaivers,
--                 classifyWaiver), Sorting (sortFindings, sortedCopy), Evaluate (Evaluate)
--   CiContext     internal/cicontext/cicontext.go: Read (read), CanonicalRepository
--   Receipt       internal/receipt: Model (model.go, waivers.go), Validate (validate.go),
--                 Build (build.go and validateBuildInput)
--   Verify        internal/verify/verify.go: Run (run). The record Worktree holds what Run calls on
--                 the work tree: the resolver and the loaders, as parameters. Files is the work
--                 tree that has the loaders of this library in their place.
--   Attestation   internal/attestation: Pae (PAE in dsse.go), Signing (envelopes in dsse.go, and
--                 signing.go: SignEnvelope, TrustedRoot.resolveKey, VerifyEnvelope), Statement
--                 (WrapReceipt)
--   AppServer     internal/appserver: the types of ports.go, Pipeline (EvaluatePullRequest,
--                 buildCheckPayload), Webhook (NewHandler), Oidc (OIDCValidator.Validate), Jwks
--                 (jwksKeySource as a state machine; what the issuer answers is a parameter)
--   Platform      what is used of Go's standard library, as parameters, and package time
--   Prelude       shared helpers
--   Scenarios     test data and runs
--
-- State and errors: a Go slice is a list, a set kept in a map is a list of its keys, and a loop is
-- a structural recursion over the list that it ranges over, so no fuel is needed but
-- for the decimal digits of a number n, where n + 1 rounds are enough. A function that returns an
-- error returns a Result or an Option of an error type with a constructor for each fmt.Errorf
-- call; its wording is left out. A Go string type with named constants is a data type
-- with a constructor `other` for every other text, but for the verdict and the decision. Instants are nanoseconds as natural numbers,
-- counted from before every instant that RFC 3339 can denote, and a difference of instants
-- saturates at the largest int64, as time.Duration does.
--
-- A function of package os or path/filepath, a JSON or number parser and the canonical JSON of a
-- value are parameters: a field of a record FileSystem, Json or Platform. Nothing is assumed of
-- them, but where a theorem says so. A text is a sequence of Unicode characters, so a text that is
-- not valid UTF-8 has no counterpart; path.Clean is written out (Prelude.Paths).
--
-- Not modelled: the git executable (internal/gitsubject/resolver.go, blob.go), the client of the
-- GitHub API (internal/appserver/github.go, github_worktree.go), JSON decoding
-- (internal/strictjson) and rendering, and the commands under cmd, which are input and output. A
-- validator of tokens is always there in the pipeline: without one the source panics on a token.
pub mod Prelude
pub mod Platform
pub mod LocalInput
pub mod Domain
pub mod Decision
pub mod InputMeta
pub mod GitSubject
pub mod Contract
pub mod Policy
pub mod Evidence
pub mod Waiver
pub mod Evaluation
pub mod CiContext
pub mod Receipt
pub mod Attestation
pub mod Verify
pub mod AppServer
pub mod Scenarios
