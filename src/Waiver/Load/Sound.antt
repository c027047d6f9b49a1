-- ===== src/Waiver/Load/Sound.antt =====
-- internal/waiver/load.go: what the records have that the loader returns.
use assurectl.Prelude.{
  ℕ, suc, ◌≤◌, String, ◌≡◌, eq_iff, some, List, [], ◌∷◌, All, Distinct, Unseen, Unseen-of_cons,
  Option-cases, inl, inr, ok, arith,
}
use assurectl.Platform.{Platform}
use assurectl.InputMeta.{Digest}
use assurectl.Decision.Valid.{Canonical}
use assurectl.Waiver.{Record, target_requirement}
use assurectl.Waiver.Load.{parse_timestamp, validate_record, check_records, load_records}

-- The record names a requirement by a canonical identifier, its instants parse and are in order,
-- and its digest is the one of its contents.
pub record SoundRecord (go : Platform) (canonical_digest : Record → Digest) (entry : Record)
    : Type 0 where
  pub id_canonical : Canonical entry.id
  pub targets_requirement : entry.target.kind ≡ target_requirement
  pub target_canonical : Canonical entry.target.id
  pub work_unit_canonical : Canonical entry.scope.work_unit_id
  pub issued : ℕ
  pub expires : ℕ
  pub issued_parses : go.parse_time entry.issued_at ≡ some issued
  pub expires_parses : go.parse_time entry.expires_at ≡ some expires
  pub in_order : issued ≤ expires
  pub digest_algorithm : entry.digest.algorithm ≡ (canonical_digest entry).algorithm
  pub digest_value : entry.digest.value ≡ (canonical_digest entry).value

abbrev pub record_ids : List Record → List String
record_ids [] = []
record_ids (entry ∷ entries) = entry.id ∷ record_ids entries

module _ (go : Platform) (canonical_digest : Record → Digest) where
  record_sound :
      (entry : Record)
      → validate_record go entry ≡ ok tt
      → ((canonical_digest entry).algorithm ≡ entry.digest.algorithm)
      → ((canonical_digest entry).value ≡ entry.digest.value)
      → SoundRecord go canonical_digest entry
  unfolding validate_record parse_timestamp
  record_sound entry h a v = elim (Option-cases (go.parse_time entry.issued_at)) [
    | inl failed ↦ absurd (ground arith)
    | inr (issued, issued_parses) ↦ elim (Option-cases (go.parse_time entry.expires_at)) [
      | inl failed ↦ absurd (ground arith)
      | inr (expires, expires_parses) ↦ record {
        id_canonical = ground arith;
        targets_requirement = ground (arith, eq_iff entry.target.kind target_requirement);
        target_canonical = ground arith;
        work_unit_canonical = ground arith;
        issued = issued;
        expires = expires;
        issued_parses = issued_parses;
        expires_parses = expires_parses;
        in_order = ground arith;
        digest_algorithm = ground arith;
        digest_value = ground arith;
      }
    ]
  ]

  records_sound :
      (i : ℕ) (seen : List String) (entries : List Record)
      → check_records go canonical_digest i seen entries ≡ ok tt
      → All (SoundRecord go canonical_digest) entries
        × Distinct (record_ids entries)
        × Unseen seen (record_ids entries)
  unfolding check_records
  records_sound i seen [] h = (tt, tt, tt)
  records_sound i seen (entry ∷ entries) h =
      let (sound, distinct, unseen) =
        records_sound (suc i) (entry.id ∷ seen) entries (ground arith) in
      let (fresh, other) = Unseen-of_cons entry.id seen (record_ids entries) unseen in
      (
        (
          record_sound entry (ground arith)
              (ground (arith, eq_iff entry.digest.algorithm (canonical_digest entry).algorithm))
              (ground (arith, eq_iff entry.digest.value (canonical_digest entry).value)),
          sound,
        ),
        (other, distinct),
        (ground arith, fresh),
      )

  -- The loader returns the records as they are, and only if their identifiers are distinct and each
  -- names a requirement by a canonical identifier, has instants that parse and are in order, and
  -- has the digest of its contents.
  pub load_records_sound :
      (version : String) (entries loaded : List Record)
      → load_records go canonical_digest version entries ≡ ok loaded
      → (loaded ≡ entries)
        × All (SoundRecord go canonical_digest) entries
        × Distinct (record_ids entries)
  unfolding load_records
  load_records_sound version entries loaded h =
      let (sound, distinct, _) = records_sound 0 [] entries (ground arith) in
      (ground arith, sound, distinct)
