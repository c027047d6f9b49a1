-- ===== src/Scenarios/Loads.antt =====
-- Runs of internal/waiver/load.go.
use assurectl.Prelude.{
  ◌≡◌, refl, [], ◌∷◌, All, Distinct, ok, canonical_identifier, digest_pattern, object_id_pattern,
  is_blank,
}
use assurectl.Waiver.{schema_version}
use assurectl.Waiver.Load.{
  validate_bounded, parse_timestamp, validate_record, check_records, load_records,
}
use assurectl.Waiver.Load.Sound.{SoundRecord, record_ids, load_records_sound}
use assurectl.Scenarios.{demo_platform, demo_digest, demo_waiver}

loads :
    load_records demo_platform (λ r. demo_digest) schema_version (demo_waiver ∷ [])
    ≡ ok (demo_waiver ∷ [])
unfolding load_records check_records validate_record parse_timestamp validate_bounded
    canonical_identifier digest_pattern object_id_pattern is_blank
loads = refl

load_records_sound_example :
    ((demo_waiver ∷ []) ≡ (demo_waiver ∷ []))
    × All (SoundRecord demo_platform (λ r. demo_digest)) (demo_waiver ∷ [])
    × Distinct (record_ids (demo_waiver ∷ []))
load_records_sound_example =
    load_records_sound demo_platform (λ r. demo_digest) schema_version (demo_waiver ∷ [])
      (demo_waiver ∷ []) loads
