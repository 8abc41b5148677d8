-- ===== src/Db/IndexTimeFile/Ranges.antt =====
-- The loops over a range of times: what they hand over on an index that holds some points.
use scouter_server_rust.Common.{
  ℕ, zero, suc, ◌≡◌, refl, List, [], ◌∷◌, ◌++◌, Bool-cases, inl, inr, if◌then◌else◌,
}
use scouter_server_rust.Word.{signed_leb}
use scouter_server_rust.Outcome.{ok}
use scouter_server_rust.Db.MemTimeBlock.{bucket}
use scouter_server_rust.Db.IndexTimeFile.{
  IndexTimeFile, TimeToData, seconds_per_day_x2, later, earlier, sort_by_time, reverse, read_rounds,
  read, end_rounds, read_from_end,
}
use scouter_server_rust.Db.IndexTimeFile.Bucket.{Point, in_bucket}
use scouter_server_rust.Db.IndexTimeFile.Refinement.{Represents, get_bucket_entries-eq}

-- The times that a loop visits from `t` on, forward up to `to_ms` or backward down to `from_ms`.
unfoldable pub forward : ℕ → ℕ → ℕ → List ℕ
forward zero to_ms t = []
forward (suc n) to_ms t =
    let rest = forward n to_ms (later t) in if signed_leb t to_ms then t ∷ rest else []

unfoldable pub backward : ℕ → ℕ → ℕ → List ℕ
backward zero from_ms t = []
backward (suc n) from_ms t =
    let rest = backward n from_ms (earlier t) in if signed_leb from_ms t then t ∷ rest else []

module _ (date_millis : ℕ → ℕ) where
  -- The entries of the half second of a time, in order.
  abbrev pub at_time : List Point → ℕ → List TimeToData
  at_time xs t = sort_by_time (in_bucket (bucket date_millis) (bucket date_millis t) xs)

  unfoldable pub at_times : List Point → List ℕ → List TimeToData
  at_times xs [] = []
  at_times xs (t ∷ ts) = at_time xs t ++ at_times xs ts

  unfoldable pub at_times_reversed : List Point → List ℕ → List TimeToData
  at_times_reversed xs [] = []
  at_times_reversed xs (t ∷ ts) = reverse (at_time xs t) ++ at_times_reversed xs ts

  module _ (idx : IndexTimeFile) (xs : List Point) (r : Represents date_millis idx xs) where
    read_rounds_lem :
        (n to_ms t : ℕ)
        → read_rounds date_millis n idx to_ms t ≡ ok (at_times xs (forward n to_ms t))
    unfolding read_rounds at_times forward
    read_rounds_lem zero to_ms t = refl
    read_rounds_lem (suc n) to_ms t = elim (Bool-cases (signed_leb t to_ms)) [
      | inl more ↦
          rw (more, get_bucket_entries-eq date_millis idx xs r t, read_rounds_lem n to_ms (later t))
            refl
      | inr done ↦ rw done refl
    ]

    end_rounds_lem :
        (n from_ms t : ℕ)
        → end_rounds date_millis n idx from_ms t ≡ ok (at_times_reversed xs (backward n from_ms t))
    unfolding end_rounds at_times_reversed backward
    end_rounds_lem zero from_ms t = refl
    end_rounds_lem (suc n) from_ms t = elim (Bool-cases (signed_leb from_ms t)) [
      | inl more ↦
          rw
            (
              more,
              get_bucket_entries-eq date_millis idx xs r t,
              end_rounds_lem n from_ms (earlier t),
            )
            refl
      | inr done ↦ rw done refl
    ]

    -- On files that hold some points, read hands over the points of the half second of each time
    -- that it visits, at most 172800 of them from from_ms on in steps of 500 up to to_ms, those of a
    -- half second sorted by their times.
    pub read-eq-at_times :
        (from_ms to_ms : ℕ)
        → read date_millis idx from_ms to_ms
          ≡ ok (at_times xs (forward seconds_per_day_x2 to_ms from_ms))
    unfolding read
    read-eq-at_times from_ms to_ms = read_rounds_lem seconds_per_day_x2 to_ms from_ms

    -- On files that hold some points, read_from_end hands over the points of the half second of each
    -- time that it visits, at most 172800 of them from to_ms down in steps of 500 to from_ms, those
    -- of a half second from the latest to the earliest.
    pub read_from_end-eq-at_times_reversed :
        (from_ms to_ms : ℕ)
        → read_from_end date_millis idx from_ms to_ms
          ≡ ok (at_times_reversed xs (backward seconds_per_day_x2 from_ms to_ms))
    unfolding read_from_end
    read_from_end-eq-at_times_reversed from_ms to_ms =
        end_rounds_lem seconds_per_day_x2 from_ms to_ms
