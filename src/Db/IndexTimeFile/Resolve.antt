-- ===== src/Db/IndexTimeFile/Resolve.antt =====
-- The loop with a reader: what it hands over on an index whose positions can all be read.
use scouter_server_rust.Common.{
  ℕ, zero, suc, ◌≡◌, refl, ap, ◌&&◌, List, [], ◌∷◌, ◌++◌, All, Bool-cases, inl, inr, if◌then◌else◌,
  ◌==◌,
}
use scouter_server_rust.Word.{Bytes, signed_leb}
use scouter_server_rust.Outcome.{Outcome, ◌>>=◌, ok}
use scouter_server_rust.Protocol.Output.{to_bytes5}
use scouter_server_rust.Protocol.Input.{to_long5}
use scouter_server_rust.Protocol.Numbers.{long5_of_digits}
use scouter_server_rust.Db.MemHashBlock.Slots.{long5_value}
use scouter_server_rust.Db.MemTimeBlock.{bucket}
use scouter_server_rust.Db.IndexTimeFile.{
  IndexTimeFile, TimeToData, seconds_per_day_x2, later, insert_by_time, sort_by_time,
  to_long5_from_slice, resolve_entry, resolve, reader_rounds, read_with_reader,
}
use scouter_server_rust.Db.IndexTimeFile.Bucket.{Point, in_bucket}
use scouter_server_rust.Db.IndexTimeFile.Refinement.{Represents, get_bucket_entries-eq}
use scouter_server_rust.Db.IndexTimeFile.Ranges.{forward, at_time, at_times}

pub to_long5_from_slice-to_bytes5 : (p : ℕ) → to_long5_from_slice (to_bytes5 p) ≡ ok (long5_value p)
unfolding to_long5_from_slice to_bytes5 to_long5
to_long5_from_slice-to_bytes5 p = ap ok (long5_of_digits p)

insert_by_time-All :
    (P : TimeToData → Type 0) (x : TimeToData) (ys : List TimeToData)
    → P x
    → All P ys
    → All P (insert_by_time x ys)
unfolding insert_by_time
insert_by_time-All P x [] h hs = (h, tt)
insert_by_time-All P x (y ∷ ys) h (k, hs) = elim (Bool-cases (signed_leb x.time y.time)) [
  | inl le ↦ rw le (h, (k, hs))
  | inr gt ↦ rw gt (k, insert_by_time-All P x ys h hs)
]

sort_by_time-All :
    (P : TimeToData → Type 0) (xs : List TimeToData) → All P xs → All P (sort_by_time xs)
unfolding sort_by_time
sort_by_time-All P [] h = tt
sort_by_time-All P (x ∷ xs) (h, hs) =
    insert_by_time-All P x (sort_by_time xs) h (sort_by_time-All P xs hs)

abbrev pub point : Point → TimeToData
point (t, p) = record { time = t; data_pos = to_bytes5 p }

in_bucket-All :
    (P : TimeToData → Type 0) (bucket_of : ℕ → ℕ) (b : ℕ) (xs : List Point)
    → All (λ (x : Point). P (point x)) xs
    → All P (in_bucket bucket_of b xs)
unfolding in_bucket
in_bucket-All P bucket_of b [] h = tt
in_bucket-All P bucket_of b ((t, p) ∷ xs) (h, hs) = elim (Bool-cases (bucket_of t == b)) [
  | inl here ↦ rw here (h, in_bucket-All P bucket_of b xs hs)
  | inr other ↦ rw other (in_bucket-All P bucket_of b xs hs)
]

-- `content` is what the reader returns for an entry.
module _ (content : TimeToData → Bytes) (from_ms to_ms : ℕ) where
  -- The entries in the range, with what is read for them.
  unfoldable pub calls_in_range : List TimeToData → List (ℕ × Bytes)
  calls_in_range [] = []
  calls_in_range (e ∷ es) =
      let rest = calls_in_range es in
      if signed_leb from_ms e.time && signed_leb e.time to_ms
      then (e.time, content e) ∷ rest
      else rest

  calls_in_range-append :
      (xs ys : List TimeToData) → calls_in_range (xs ++ ys) ≡ calls_in_range xs ++ calls_in_range ys
  unfolding calls_in_range
  calls_in_range-append [] ys = refl
  calls_in_range-append (x ∷ xs) ys =
      elim (Bool-cases (signed_leb from_ms x.time && signed_leb x.time to_ms)) [
        | inl within ↦ rw within (ap (◌∷◌ (x.time, content x)) (calls_in_range-append xs ys))
        | inr outside ↦ rw outside (calls_in_range-append xs ys)
      ]

  module _ (reader : ℕ → Outcome Bytes) where
    abbrev pub IsRead : TimeToData → Type 0
    IsRead e =
        (offset : ℕ) × (to_long5_from_slice e.data_pos ≡ ok offset)
        × (reader offset ≡ ok (content e))

    resolve_entry_lem :
        (e : TimeToData) (rest : Outcome (List (ℕ × Bytes)))
        → IsRead e
        → resolve_entry reader e rest ≡ (rest >>= λ calls. ok ((e.time, content e) ∷ calls))
    unfolding resolve_entry
    resolve_entry_lem e rest (offset, position, bytes) = rw (position, bytes) refl

    resolve_lem :
        (es : List TimeToData)
        → All IsRead es
        → resolve reader from_ms to_ms es ≡ ok (calls_in_range es)
    unfolding resolve calls_in_range
    resolve_lem [] h = refl
    resolve_lem (e ∷ es) (h, hs) =
        elim (Bool-cases (signed_leb from_ms e.time && signed_leb e.time to_ms)) [
          | inl within ↦
              rw
                (within, resolve_entry_lem e (resolve reader from_ms to_ms es) h, resolve_lem es hs)
                refl
          | inr outside ↦ rw outside (resolve_lem es hs)
        ]

    module _ (date_millis : ℕ → ℕ) (idx : IndexTimeFile) (xs : List Point) where
      rounds_lem :
          Represents date_millis idx xs
          → All (λ (x : Point). IsRead (point x)) xs
          → (n t : ℕ)
          → reader_rounds date_millis reader n idx from_ms to_ms t
            ≡ ok (calls_in_range (at_times date_millis xs (forward n to_ms t)))
      unfolding reader_rounds at_times forward
      rounds_lem r h zero t = unfold calls_in_range in refl
      rounds_lem r h (suc n) t = elim (Bool-cases (signed_leb t to_ms)) [
        | inl more ↦
            rw
              (
                more,
                get_bucket_entries-eq date_millis idx xs r t,
                resolve_lem (at_time date_millis xs t) (
                    sort_by_time-All IsRead _
                      (in_bucket-All IsRead (bucket date_millis) (bucket date_millis t) xs h)),
                rounds_lem r h n (later t),
                calls_in_range-append,
              )
              refl
        | inr done ↦ rw done (unfold calls_in_range in refl)
      ]

      -- On files that hold some points, with a reader that reads the position of each, read_with_reader
      -- hands over, of the points of the half seconds that it visits, those in the range with what
      -- is read for them.
      pub read_with_reader-eq-calls_in_range :
          Represents date_millis idx xs
          → All (λ (x : Point). IsRead (point x)) xs
          → read_with_reader date_millis idx from_ms to_ms reader
            ≡ ok (
                calls_in_range (at_times date_millis xs (forward seconds_per_day_x2 to_ms from_ms)))
      unfolding read_with_reader
      read_with_reader-eq-calls_in_range r h = rounds_lem r h seconds_per_day_x2 from_ms
