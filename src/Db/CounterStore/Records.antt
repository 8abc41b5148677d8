-- ===== src/Db/CounterStore/Records.antt =====
-- One record of the data file: writing it anew, changing a value in place, and reading it.
use scouter_server_rust.Common.{
  ℕ, ◌+◌, ◌-◌, ◌*◌, ◌%◌, ◌^◌, ◌≤◌, ◌<◌, ◌≡◌, refl, sym, ap, subst, ◌∙◌, arith, true, some, List, [],
  ◌∷◌, ◌++◌, append-nil, append_assoc, length, length-append, length-replicate, replicate, ltb,
}
use scouter_server_rust.Word.{Bytes, to_be_bytes}
use scouter_server_rust.Outcome.{ok}
use scouter_server_rust.Protocol.Output.{to_bytes5}
use scouter_server_rust.Protocol.Input.{read_n}
use scouter_server_rust.Protocol.Reads.{read_n-Reads}
use scouter_server_rust.Db.Buffer.{overwritten, copy_from_slice-ok}
use scouter_server_rust.Db.MemHashBlock.Slots.{to_long5-to_bytes5}
use scouter_server_rust.Db.RealKeyFile.{read_at, write_at}
use scouter_server_rust.Db.RealKeyFile.Records.{read_at-Reads}
use scouter_server_rust.Db.RealDataFile as DataFile
use scouter_server_rust.Db.RealDataFile.{RealDataFile}
use scouter_server_rust.Db.RealDataFile.Appends.{Holds, read-Holds}
use scouter_server_rust.Db.CounterStore.{
  get_bucket_count, hhmm_to_bucket, to_long5_from_bytes, new_record, write_from, update_value,
  value_size_of, read_record, values_of,
}
use scouter_server_rust.Db.CounterStore.Layout.{
  Counter, IsSound, counter_bytes, encode, length-encode, encode-zeros, set_at, length-set_at,
  write_value_lem, values_of-encode,
}

pub to_long5_from_bytes-to_bytes5 : (p : ℕ) → p < 2 ^ 39 → to_long5_from_bytes (to_bytes5 p) ≡ ok p
unfolding to_long5_from_bytes to_bytes5
to_long5_from_bytes-to_bytes5 p h = to_long5-to_bytes5 p h

pub bucket_count-le : (t : ℕ) → get_bucket_count t ≤ 1440
unfolding get_bucket_count
bucket_count-le t = ground arith

overwritten-write_at :
    (xs ys : Bytes) (pos : ℕ) → pos ≤ length xs → overwritten xs pos ys ≡ write_at xs pos ys
unfolding write_at
overwritten-write_at xs ys pos h = let no_gap : pos - length xs ≡ 0 = omega arith in rw no_gap refl

-- A new record, with its value in place.
pub new_record_lem :
    (hhmm v t : ℕ)
    → hhmm_to_bucket hhmm t < get_bucket_count t
    → new_record hhmm v t
      ≡ ok (counter_bytes t (set_at (hhmm_to_bucket hhmm t) v (replicate (get_bucket_count t) 0)))
unfolding new_record
new_record_lem hhmm v t within =
    let n = get_bucket_count t in
    let b = hhmm_to_bucket hhmm t in
    let blank : Bytes = 9 ∷ t ∷ replicate (n * 8) 0 in
    let test : ltb b n ≡ true = ground arith in
    let size : length blank ≡ 2 + n * 8 = omega (arith, length-replicate {A = ℕ} (n * 8) 0) in
    let zeros : length (replicate {A = ℕ} n 0) ≡ n = length-replicate {A = ℕ} n 0 in
    let is_blank : blank ≡ counter_bytes t (replicate n 0) =
      ap (λ (bs : Bytes). 9 ∷ t ∷ bs) (sym (encode-zeros n)) in
    rw test (
      copy_from_slice-ok blank (2 + b * 8) (to_be_bytes 8 v) (omega (arith, size))
      ∙ ap ok (
          overwritten-write_at blank (to_be_bytes 8 v) (2 + b * 8) (omega (arith, size))
          ∙ ap (λ (bs : Bytes). write_at bs (2 + b * 8) (to_be_bytes 8 v))
              (is_blank ∙ sym (append-nil (counter_bytes t (replicate n 0))))
          ∙ write_value_lem [] [] t b v (replicate n 0) (omega (arith, zeros))
          ∙ append-nil (counter_bytes t (set_at b v (replicate n 0)))))

-- A counter that is there, at a position of the file.
module _ (df : RealDataFile) (front behind : Bytes) (c : Counter)
    (h : Holds df (front ++ (counter_bytes c.time_type c.values ++ behind))) (s : IsSound c) where
  flushed_file : (DataFile.flush df).file ≡ front ++ (counter_bytes c.time_type c.values ++ behind)
  unfolding DataFile.flush
  flushed_file = h.content

  header_lem :
      read_at (DataFile.flush df).file (length front) (read_n 2) ≡ ok (9 ∷ c.time_type ∷ [])
  header_lem = rw flushed_file (
      read_at-Reads front (encode c.values ++ behind) (length front)
        (read_n-Reads (9 ∷ c.time_type ∷ []) (omega arith)) refl
        (omega (arith, h.low, length-append front (counter_bytes c.time_type c.values ++ behind))))

  same_size :
      (b v : ℕ)
      → length (front ++ (counter_bytes c.time_type (set_at b v c.values) ++ behind))
        ≡ length (front ++ (counter_bytes c.time_type c.values ++ behind))
  same_size b v =
      size (set_at b v c.values)
      ∙ ap (λ (n : ℕ). length front + (2 + n * 8 + length behind)) (length-set_at b v c.values)
      ∙ sym (size c.values)
    where
      size :
          (vs : List ℕ)
          → length (front ++ (counter_bytes c.time_type vs ++ behind))
            ≡ length front + (2 + length vs * 8 + length behind)
      size vs = omega (
        arith,
        length-append front (counter_bytes c.time_type vs ++ behind),
        length-append (counter_bytes c.time_type vs) behind,
        length-encode vs,
      )

  pub update_value_lem :
      (hhmm v : ℕ)
      → hhmm_to_bucket hhmm c.time_type < get_bucket_count c.time_type
      → (after : RealDataFile) × (update_value df (length front) hhmm v c.time_type ≡ ok after)
        × Holds after (
            front
            ++ (counter_bytes c.time_type (set_at (hhmm_to_bucket hhmm c.time_type) v c.values)
                ++ behind))
  unfolding update_value write_from value_size_of DataFile.flush
  update_value_lem hhmm v within =
      let b = hhmm_to_bucket hhmm c.time_type in
      let bound = bucket_count-le c.time_type in
      let front_short : length front < 2 ^ 62 =
        omega (arith, h.low, length-append front (counter_bytes c.time_type c.values ++ behind)) in
      let place : (length front + 2 + b * 8) % 2 ^ 64 ≡ length front + 2 + b * 8 = omega arith in
      let in_range : ltb (length front + 2 + b * 8) (2 ^ 63) ≡ true = ground arith in
      let changed =
        write_value_lem front behind c.time_type b v c.values (omega (arith, s.count)) in
      (
        record (DataFile.flush df) {
          file = front ++ (counter_bytes c.time_type (set_at b v c.values) ++ behind);
        },
        rw (header_lem, place, in_range, flushed_file, changed) refl,
        record {
          content = append-nil _;
          offset_end = h.offset_end ∙ sym (same_size b v);
          pending_fits = omega arith;
          low = rw (same_size b v) h.low;
        },
      )

  pub read_record_lem :
      (f32_to_f64 : ℕ → ℕ)
      → (after : RealDataFile) × (read_record f32_to_f64 df (length front)
          ≡ ok
              (some (record { value_type = 9; time_type = c.time_type; values = c.values }), after))
        × Holds after (front ++ (counter_bytes c.time_type c.values ++ behind))
  unfolding read_record value_size_of
  read_record_lem f =
      let header : Bytes = 9 ∷ c.time_type ∷ [] in
      let flushed = DataFile.flush df in
      let (read_header, h1) = read-Holds df front header (encode c.values ++ behind) h in
      let (read_values, h2) =
        read-Holds flushed (front ++ header) (encode c.values) behind (
          subst (Holds flushed) (sym (append_assoc front header (encode c.values ++ behind))) h1) in
      let place : (length front + 2) % 2 ^ 64 ≡ length (front ++ header) = omega (
        arith,
        h.low,
        length-append front header,
        length-append front (counter_bytes c.time_type c.values ++ behind),
      ) in
      let size : get_bucket_count c.time_type * 8 ≡ length (encode c.values) =
        omega (arith, s.count, length-encode c.values) in
      let values : values_of f 9 (get_bucket_count c.time_type) (encode c.values) ≡ c.values =
        ap (λ (n : ℕ). values_of f 9 n (encode c.values)) (sym s.count)
        ∙ values_of-encode f c.values s.words in
      (
        DataFile.flush flushed,
        rw (read_header, place, size, read_values, values) refl,
        subst (Holds (DataFile.flush flushed))
            (append_assoc front header (encode c.values ++ behind)) h2,
      )
