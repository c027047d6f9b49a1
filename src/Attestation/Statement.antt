-- ===== src/Attestation/Statement.antt =====
-- internal/attestation/statement.go: the in-toto statement around a receipt. The JSON decoder is a
-- parameter: it gives the member subject.repository_uri of a document.
use assurectl.Prelude.{
  String, not, Option, none, some, List, [], ◌∷◌, ◌==◌, Result, ok, err, guard, ◌>>=◌, ◌>>◌,
}

abbrev in_toto_statement_type : String
in_toto_statement_type = "https://in-toto.io/Statement/v1"

abbrev payload_type_receipt_v0 : String
payload_type_receipt_v0 = "https://assurectl.dev/attestations/receipt/v0"

pub record StatementSubject : Type 0 where
  pub name : String
  pub digest : List (String × String)

pub record Statement : Type 0 where
  pub type : String
  pub subject : List StatementSubject
  pub predicate_type : String
  pub predicate : String

pub data StatementError : Type 0 where
  document_malformed repository_missing : StatementError

abbrev probed : Option String → Result StatementError String
probed none = err document_malformed
probed (some repository) = ok repository

unfoldable pub wrap_receipt :
    (String → Option String) → String → String → Result StatementError Statement
wrap_receipt probe document change_set_digest = do
  repository ← probed (probe document)
  guard (not (repository == "")) repository_missing
  ok (record {
    type = in_toto_statement_type;
    subject = record { name = repository; digest = ("gitChangeSet", change_set_digest) ∷ [] } ∷ [];
    predicate_type = payload_type_receipt_v0;
    predicate = document;
  })
