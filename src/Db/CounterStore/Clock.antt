-- ===== src/Db/CounterStore/Clock.antt =====
-- Times of day as bucket numbers.
use scouter_server_rust.Common.{ℕ, ◌+◌, ◌*◌, ◌/◌, ◌<◌, ◌≡◌, refl, arith, ◌==◌, if◌then◌else◌}
use scouter_server_rust.Word.{as_32, sign_extend, signed_div, signed_rem}
use scouter_server_rust.Db.CounterStore.{get_bucket_count, hhmm_to_bucket}

module _ (hours minutes : ℕ) (h : hours < 24) (m : minutes < 60) where
  hours_lem : signed_div 32 (hours * 100 + minutes) 100 ≡ hours
  hours_lem = ground arith

  minutes_lem : signed_rem 32 (hours * 100 + minutes) 100 ≡ minutes
  minutes_lem = ground arith

  total_lem : as_32 (hours * 60 + minutes) ≡ hours * 60 + minutes
  total_lem = omega arith

  -- The buckets of a time of day, by granularity.
  abbrev pub bucket_at : ℕ → ℕ
  bucket_at time_type =
      if time_type == 1
      then hours * 60 + minutes
      else if time_type == 5
      then (hours * 60 + minutes) / 5
      else if time_type == 10
      then (hours * 60 + minutes) / 10
      else if time_type == 60
      then hours
      else 0

  small : (v : ℕ) → v < 1440 → sign_extend 32 v ≡ v
  small v lt = ground arith

  fifth : (v : ℕ) → v < 1440 → sign_extend 32 (signed_div 32 v 5) ≡ v / 5
  fifth v lt = ground arith

  tenth : (v : ℕ) → v < 1440 → sign_extend 32 (signed_div 32 v 10) ≡ v / 10
  tenth v lt = ground arith

  hhmm_to_bucket_lem :
      (time_type : ℕ) → hhmm_to_bucket (hours * 100 + minutes) time_type ≡ bucket_at time_type
  unfolding hhmm_to_bucket
  hhmm_to_bucket_lem time_type =
      rw
        (
          hours_lem,
          minutes_lem,
          total_lem,
          small (hours * 60 + minutes) (omega arith),
          fifth (hours * 60 + minutes) (omega arith),
          tenth (hours * 60 + minutes) (omega arith),
          small hours (omega arith),
        )
        refl

  -- At a time of day, hours below 24 and minutes below 60, every granularity has its bucket in the
  -- record.
  pub hhmm_to_bucket-lt-get_bucket_count :
      (time_type : ℕ)
      → hhmm_to_bucket (hours * 100 + minutes) time_type < get_bucket_count time_type
  unfolding get_bucket_count
  hhmm_to_bucket-lt-get_bucket_count time_type = rw (hhmm_to_bucket_lem time_type) (ground arith)
