-- ===== src/Db/IndexTimeFile/InOrder.antt =====
-- What `read` hands over of an index that holds some points: half second by half second, and by time
-- within each.
use scouter_server_rust.Common.{
  ℕ, zero, suc, ◌+◌, ◌-◌, ◌/◌, ◌^◌, ◌<◌, ◌≡◌, refl, sym, subst, arith, List, [], ◌∷◌, ◌++◌,
  Bool-cases, inl, inr, leb, if◌then◌else◌,
}
use mathlib.Core.List.{Perm}
use scouter_server_rust.Word.{signed_leb}
use scouter_server_rust.Outcome.{ok}
use scouter_server_rust.Db.MemTimeBlock.{bucket}
use scouter_server_rust.Db.IndexTimeFile.{IndexTimeFile, TimeToData, later, read, sort_by_time}
use scouter_server_rust.Db.IndexTimeFile.Bucket.{Point, in_bucket}
use scouter_server_rust.Db.IndexTimeFile.Refinement.{Represents}
use scouter_server_rust.Db.IndexTimeFile.Ranges.{forward, at_times, read-eq-at_times}
use scouter_server_rust.Db.IndexTimeFile.Sorting.{
  IsSorted, sort_by_time-IsSorted, sort_by_time-Perm, with_time, with_time-sort_by_time,
}

-- A rearrangement in the order of the times, in which entries of the same time keep their order.
pub record IsSortOf (row entries : List TimeToData) : Type 0 where
  pub sorted : IsSorted row
  pub same : Perm row entries
  pub stable : (t : ℕ) → with_time t row ≡ with_time t entries

-- How many times there are from `from_ms` up to `to_ms` in steps of 500, at most `n`.
abbrev pub visits : ℕ → ℕ → ℕ → ℕ
visits n from_ms to_ms = let k = (to_ms + 500 - from_ms) / 500 in if leb n k then n else k

module _ (date_millis : ℕ → ℕ) where
  -- One row for each of `n` times from `t` on in steps of 500: the points of its half second, sorted.
  abbrev pub InSlots : List Point → ℕ → ℕ → List TimeToData → Type 0
  InSlots xs t zero calls = calls ≡ []
  InSlots xs t (suc n) calls =
      (row : List TimeToData) × (rest : List TimeToData) × (calls ≡ row ++ rest)
      × IsSortOf row (in_bucket (bucket date_millis) (bucket date_millis t) xs)
      × InSlots xs (t + 500) n rest

  at_times-InSlots :
      (xs : List Point) (n to_ms t : ℕ)
      → to_ms + 500 < 2 ^ 63
      → t < 2 ^ 63
      → InSlots xs t (visits n t to_ms) (at_times date_millis xs (forward n to_ms t))
  unfolding at_times forward
  at_times-InSlots xs zero to_ms t h w =
      let none_left : visits zero t to_ms ≡ 0 = ground arith in
      subst (λ k. InSlots xs t k []) (sym none_left) refl
  at_times-InSlots xs (suc n) to_ms t h w = elim (Bool-cases (signed_leb t to_ms)) [
    | inl more ↦
        let next : later t ≡ t + 500 = ground arith in
        let one_more : visits (suc n) t to_ms ≡ suc (visits n (t + 500) to_ms) = ground arith in
        let soon : t + 500 < 2 ^ 63 = ground arith in
        let entries = in_bucket (bucket date_millis) (bucket date_millis t) xs in
        rw (more, next)
          (subst (λ k. InSlots xs t k (at_times date_millis xs (t ∷ forward n to_ms (t + 500))))
            (sym one_more)
            (
              sort_by_time entries,
              at_times date_millis xs (forward n to_ms (t + 500)),
              refl,
              record {
                sorted = sort_by_time-IsSorted entries;
                same = sort_by_time-Perm entries;
                stable = λ time. with_time-sort_by_time time entries;
              },
              at_times-InSlots xs n to_ms (t + 500) h soon,
            ))
    | inr done ↦
        let none_left : visits (suc n) t to_ms ≡ 0 = ground arith in
        rw done (subst (λ k. InSlots xs t k []) (sym none_left) refl)
  ]

  -- On files that hold some points, for times whose next half second is before 2 ^ 63: read hands
  -- over one row for each of the times from from_ms up to to_ms in steps of 500, of the first 172800
  -- of them if they are more, one behind the other. A row is all points of the half second of its
  -- time, in ascending order of their times, and of the same time the newest first. Points of these
  -- half seconds that are before from_ms or behind to_ms are handed over as well.
  pub read-InSlots :
      (idx : IndexTimeFile) (xs : List Point) (from_ms to_ms : ℕ)
      → Represents date_millis idx xs
      → from_ms < 2 ^ 63
      → to_ms + 500 < 2 ^ 63
      → (calls : List TimeToData) × (read date_millis idx from_ms to_ms ≡ ok calls)
        × InSlots xs from_ms (visits 172800 from_ms to_ms) calls
  read-InSlots idx xs from_ms to_ms r w h = (
    _,
    read-eq-at_times date_millis idx xs r from_ms to_ms,
    at_times-InSlots xs 172800 to_ms from_ms h w,
  )
