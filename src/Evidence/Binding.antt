-- ===== src/Evidence/Binding.antt =====
-- internal/evidence/subject.go: evidence is of the resolved repository, at its head or elsewhere.
use assurectl.Prelude.{
  String, ◌==◌, object_id_pattern, if◌then◌else◌, Result, ok, err, guard, ◌>>=◌, ◌>>◌,
}
use assurectl.Platform.{Platform}
use assurectl.Domain
use assurectl.GitSubject.Identity.{IdentityError, canonicalize_repository_identity}
use assurectl.Evidence.{Subject, SubjectBinding}

pub data BindingError : Type 0 where
  resolved_repository evidence_repository : IdentityError → BindingError
  resolved_repository_not_canonical resolved_revision_invalid evidence_repository_differs
        evidence_revision_invalid :
      BindingError

abbrev pub identity :
    (IdentityError → BindingError) → Result IdentityError String → Result BindingError String
identity f (ok canonical) = ok canonical
identity f (err e) = err (f e)

unfoldable pub validate_resolved_subject :
    Platform → Domain.Subject → Result BindingError (Unit {0})
validate_resolved_subject go resolved = do
  canonical ←
      identity resolved_repository (canonicalize_repository_identity go resolved.repository_uri)
  guard (canonical == resolved.repository_uri) resolved_repository_not_canonical
  guard (object_id_pattern resolved.head_revision) resolved_revision_invalid

unfoldable pub bind_subject :
    Platform → Subject → Domain.Subject → Result BindingError SubjectBinding
bind_subject go subject resolved = do
  validate_resolved_subject go resolved
  canonical ←
      identity evidence_repository (canonicalize_repository_identity go subject.repository_uri)
  guard (canonical == resolved.repository_uri) evidence_repository_differs
  guard (object_id_pattern subject.revision) evidence_revision_invalid
  if subject.revision == resolved.head_revision
      then ok SubjectBinding.exact
      else ok SubjectBinding.other_revision
