-- ===== src/Db/RealKeyFile/Records.antt =====
-- What the reading functions return at the position of a record, and what deleting one changes.
use scouter_server_rust.Common.{
  ℕ, ◌+◌, ◌-◌, ◌%◌, ◌^◌, ◌≤◌, ◌<◌, ◌≡◌, refl, ap, ◌∙◌, arith, Bool, true, false, [], ◌∷◌, ◌++◌,
  append_assoc, length, length-append, take-append_length, drop-append_length, take-append_ge,
  drop-append_behind, ltb, if◌then◌else◌,
}
use scouter_server_rust.Word.{Bytes, as_16, as_32, sign_extend}
use scouter_server_rust.Outcome as Outcome
use scouter_server_rust.Outcome.{Outcome, ok, err, panic, out_of_fuel, index}
use scouter_server_rust.Protocol.Output.{
  ◌▷◌, write_boolean, write_long5, write_short_bytes, write_blob,
}
use scouter_server_rust.Protocol.Input.{
  DataInputX, ◌>>=◌, lift, read_n, to_long5, Reader, read_blob, read_blob_body, read_unsigned_byte,
  from_bytes,
}
use scouter_server_rust.Protocol.Reads.{
  Reads, Reads-bind, Reads-then, Reads-pure, Reads-lift, Reads-value, read_n-Reads,
}
use scouter_server_rust.Protocol.Numbers.{
  long5_of_digits, read_boolean-Reads, read_short-Reads, read_long5-Reads,
}
use scouter_server_rust.Protocol.Blobs.{read_blob-write_blob, read_short_bytes-write_short_bytes}
use scouter_server_rust.Db.RealKeyFile.{
  read_at, read_deleted, is_deleted, read_prev_pos, get_prev_pos, read_key, get_key,
  read_blob_from_file, read_data_pos, get_data_pos, write_at, set_delete, parse_fields, key_record,
  get_record,
}

-- A record with its flag.
abbrev pub record_bytes : Bool → ℕ → Bytes → Bytes → Bytes
record_bytes deleted prev key pos =
    write_boolean deleted ▷ write_long5 prev ▷ write_short_bytes key ▷ write_blob pos

-- The key's length fits an i16, the data's a blob, and the position is a positive long5.
pub record Fits (prev : ℕ) (key : Bytes) (pos : Bytes) : Type 0 where
  pub prev_fits : prev < 2 ^ 39
  pub key_fits : length key < 2 ^ 15
  pub pos_fits : length pos < 2 ^ 31

pub read_at-Reads :
    {A : Type 0} {p : Reader A} {bs : Bytes} {a : A} (front rest : Bytes) (pos : ℕ)
    → Reads p bs a
    → pos ≡ length front
    → pos < 2 ^ 63
    → read_at (front ++ (bs ++ rest)) pos p ≡ ok a
unfolding read_at from_bytes
read_at-Reads {bs = bs} front rest pos r e h =
    let low : ltb pos (2 ^ 63) ≡ true = ground arith in
    rw (low, e, drop-append_length front (bs ++ rest), r.run rest 0) refl

read_key-Reads : (key : Bytes) → length key < 2 ^ 15 → Reads read_key (write_short_bytes key) key
unfolding read_key write_short_bytes
read_key-Reads key h =
    Reads-bind _ (read_short-Reads (as_32 (length key)))
      (rw length_back (read_n-Reads key (omega arith)))
  where
    length_back : sign_extend 16 (as_16 (as_32 (length key))) ≡ length key
    length_back = ground arith

-- The file's own blob reader is that of the protocol.
read_blob_from_file-eq-read_blob : (din : DataInputX) → read_blob_from_file din ≡ read_blob din
unfolding read_blob_from_file read_blob read_unsigned_byte ◌>>=◌
read_blob_from_file-eq-read_blob din = go (read_n 1 din)
  where
    go :
        (r : Outcome (Bytes × DataInputX))
        → Outcome.◌>>=◌ r (λ (buf, rest). (lift (index buf 0) >>= read_blob_body) rest)
          ≡ Outcome.◌>>=◌
              (Outcome.◌>>=◌ r (λ (buf, rest). lift (index buf 0) rest))
              (λ (b, rest). read_blob_body b rest)
    go (ok (buf, rest)) = refl
    go (err e) = refl
    go panic = refl
    go out_of_fuel = refl

read_blob_from_file-Reads :
    (pos : Bytes) → length pos < 2 ^ 31 → Reads read_blob_from_file (write_blob pos) pos
read_blob_from_file-Reads pos h = record {
  run = λ rest o. read_blob_from_file-eq-read_blob _ ∙ (read_blob-write_blob pos h).run rest o;
}

read_deleted-Reads : (d : Bool) → Reads read_deleted (write_boolean d) d
unfolding read_deleted write_boolean
read_deleted-Reads true =
    Reads-then _ (read_n-Reads (1 ∷ []) (omega arith))
      (Reads-then _ (Reads-lift 1) (Reads-pure true))
read_deleted-Reads false =
    Reads-then _ (read_n-Reads (0 ∷ []) (omega arith))
      (Reads-then _ (Reads-lift 0) (Reads-pure false))

read_prev_pos-Reads : (prev : ℕ) → prev < 2 ^ 39 → Reads read_prev_pos (write_long5 prev) prev
unfolding read_prev_pos write_long5 to_long5
read_prev_pos-Reads prev h =
    Reads-then _ (read_n-Reads (write_long5 prev) (omega arith))
      (Reads-value (long5_of_digits prev ∙ positive) (Reads-lift _))
  where
    positive : sign_extend 40 (prev % 2 ^ 40) ≡ prev
    positive = ground arith

parse_fields-Reads :
    (deleted : Bool) (prev : ℕ) (key data_pos : Bytes)
    → Fits prev key data_pos
    → Reads parse_fields (record_bytes deleted prev key data_pos) (deleted, prev, key, data_pos)
unfolding parse_fields
parse_fields-Reads deleted prev key data_pos fits = Reads-bind _ (read_boolean-Reads deleted) (
    Reads-bind _ (Reads-value positive (read_long5-Reads prev)) (
      Reads-bind _ (read_short_bytes-write_short_bytes key (omega (arith, fits.key_fits)))
        (Reads-then _ (read_blob-write_blob data_pos fits.pos_fits) (Reads-pure _))))
  where
    positive : sign_extend 40 (prev % 2 ^ 40) ≡ prev
    positive = ground (arith, fits.prev_fits)

-- Overwriting one byte behind `front`.
write_at-inside :
    (front rest : Bytes) (x b : ℕ)
    → write_at (front ++ (x ∷ rest)) (length front) (b ∷ []) ≡ front ++ (b ∷ rest)
unfolding write_at
write_at-inside front rest x b =
    rw (take-append_length front (x ∷ rest), no_gap, drop-append_behind front x rest) refl
  where
    no_gap : length front - length (front ++ (x ∷ rest)) ≡ 0
    no_gap = rw length-append (omega arith)

-- A record stands in a file behind `front`, and `more` stands behind it.
module _ (front more : Bytes) (deleted : Bool) (prev : ℕ) (key data_pos : Bytes) where
  abbrev file : Bytes
  file = front ++ (record_bytes deleted prev key data_pos ++ more)

  file_behind_flag :
      file
      ≡ (front ++ write_boolean deleted)
        ++ (write_long5 prev ++ ((write_short_bytes key ++ write_blob data_pos) ++ more))
  file_behind_flag = simp append_assoc

  file_behind_prev :
      file
      ≡ (front ++ (write_boolean deleted ++ write_long5 prev))
        ++ (write_short_bytes key ++ (write_blob data_pos ++ more))
  file_behind_prev = simp append_assoc

  length-behind_flag : length front + 1 ≡ length (front ++ write_boolean deleted)
  unfolding write_boolean
  length-behind_flag = rw length-append (omega arith)

  length-behind_prev :
      length front + 1 + 5 ≡ length (front ++ (write_boolean deleted ++ write_long5 prev))
  unfolding write_boolean write_long5
  length-behind_prev = rw length-append (omega arith)

  module _ (fits : Fits prev key data_pos) (low : length front < 2 ^ 62) where
    pub is_deleted_lem : is_deleted file (length front) ≡ ok deleted
    unfolding is_deleted
    is_deleted_lem =
        rw (append_assoc (write_boolean deleted))
          (read_at-Reads front _ _ (read_deleted-Reads deleted) refl (omega arith))

    pub get_prev_pos_lem : get_prev_pos file (length front) ≡ ok prev
    unfolding get_prev_pos
    get_prev_pos_lem =
        let word : (length front + 1) % 2 ^ 64 ≡ length front + 1 = omega (arith, low) in
        rw (word, file_behind_flag)
          (read_at-Reads (front ++ write_boolean deleted) _ _
            (read_prev_pos-Reads prev fits.prev_fits) length-behind_flag (omega arith))

    pub get_key_lem : get_key file (length front) ≡ ok key
    unfolding get_key
    get_key_lem =
        let word : (length front + 1 + 5) % 2 ^ 64 ≡ length front + 1 + 5 = omega (arith, low) in
        rw (word, file_behind_prev)
          (read_at-Reads (front ++ (write_boolean deleted ++ write_long5 prev)) _ _
            (read_key-Reads key fits.key_fits) length-behind_prev (omega arith))

    pub get_data_pos_lem : get_data_pos file (length front) ≡ ok data_pos
    unfolding get_data_pos read_data_pos
    get_data_pos_lem =
        let word : (length front + 1 + 5) % 2 ^ 64 ≡ length front + 1 + 5 = omega (arith, low) in
        rw (word, file_behind_prev, ← append_assoc (write_short_bytes key))
          (read_at-Reads (front ++ (write_boolean deleted ++ write_long5 prev)) _ _
            (Reads-bind _ (read_key-Reads key fits.key_fits)
              (read_blob_from_file-Reads data_pos fits.pos_fits))
            length-behind_prev (omega arith))

    -- On a file with a record that fits its fields at a position below 2 ^ 62, set_delete
    -- changes the flag of the record and nothing else of the file.
    pub set_delete_lem :
        (d : Bool)
        → set_delete file (length front) d
          ≡ ok (front ++ (record_bytes d prev key data_pos ++ more))
    unfolding set_delete write_boolean
    set_delete_lem d =
        let in_range : ltb (length front) (2 ^ 63) ≡ true = ground arith in
        rw in_range (
          ap ok (
            write_at-inside front
              ((write_long5 prev ++ (write_short_bytes key ++ write_blob data_pos)) ++ more)
              (if deleted then 1 else 0) (if d then 1 else 0)))

    -- On a file with a record that fits its fields and the buffer of 65536 bytes at a position below
    -- 2 ^ 62, get_record returns the fields of the record and the position behind it.
    pub get_record_lem :
        length (record_bytes deleted prev key data_pos) ≤ 65536
        → get_record file (length front)
          ≡ ok (record {
            deleted = deleted;
            prev_pos = prev;
            key = key;
            data_pos = data_pos;
            next_offset = length front + length (record_bytes deleted prev key data_pos);
          })
    unfolding get_record from_bytes key_record
    get_record_lem small =
        let in_range : ltb (length front) (2 ^ 63) ≡ true = ground arith in
        rw
          (
            in_range,
            drop-append_length front (record_bytes deleted prev key data_pos ++ more),
            take-append_ge 65536 (record_bytes deleted prev key data_pos) more small,
            (parse_fields-Reads deleted prev key data_pos fits).run _ 0,
          )
          (ground arith)
