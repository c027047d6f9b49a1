-- ===== src/GitSubject.antt =====
-- internal/gitsubject: the identity of repositories and revisions.
pub mod Identity
