-- ===== src/Db/RealKeyFile.antt =====
-- src/db/io/real_key_file.rs: the append-only file of key records. A file is its bytes; a call that
-- reads seeks to a position and reads from there. Positions are bit patterns of i64. Calls of the
-- file system succeed but for what is modelled: a read past the end, and a seek to a negative place.
pub mod Records
use scouter_server_rust.Common.{
  ℕ, ◌+◌, ◌-◌, ◌*◌, ◌%◌, ◌^◌, Bool, true, false, not, Option, none, some, List, [], ◌∷◌, ◌++◌,
  length, take, drop, replicate, ltb, ◌==◌, if◌then◌else◌,
}
use scouter_server_rust.Word.{Bytes, sign_extend}
use scouter_server_rust.Outcome as Outcome
use scouter_server_rust.Outcome.{Outcome, ok, err, panic, invalid_input, index}
use scouter_server_rust.Protocol.Output.{
  ◌▷◌, write_boolean, write_long5, write_short_bytes, write_blob,
}
use scouter_server_rust.Protocol.Input.{
  DataInputX, Reader, ◌>>=◌, pure, lift, from_bytes, read_n, read_boolean, read_long5, read_short,
  read_short_bytes, read_unsigned_byte, read_blob_body, read_blob, to_long5,
}

-- `KeyRecord`; `prev_pos` and `next_offset` are i64.
pub record KeyRecord : Type 0 where
  pub deleted : Bool
  pub prev_pos : ℕ
  pub key : Bytes
  pub data_pos : Bytes
  pub next_offset : ℕ

abbrev pub magic : Bytes
magic = 0xca ∷ 0xfe ∷ []

abbrev pub header_size : ℕ
header_size = 2

-- The file after `open`: `file` is what was there, if anything.
unfoldable pub open_file : Option Bytes → Bytes
open_file none = magic
open_file (some file) = if length file == 0 then magic else file

-- `seek(SeekFrom::Start(pos as u64))`, then `read`.
unfoldable pub read_at : {A : Type 0} → Bytes → ℕ → Reader A → Outcome A
read_at file pos read =
    if ltb pos (2 ^ 63)
    then Outcome.◌>>=◌ (read (from_bytes (drop pos file))) (λ (a, rest). ok a)
    else err invalid_input

-- The fields of a record in the order of the file.
abbrev pub Fields : Type 0
Fields = Bool × ℕ × Bytes × Bytes

unfoldable pub parse_fields : Reader Fields
parse_fields = do
  deleted ← read_boolean
  prev_pos ← read_long5
  key ← read_short_bytes
  data_pos ← read_blob
  pure (deleted, prev_pos, key, data_pos)

unfoldable pub key_record : ℕ → Fields → DataInputX → KeyRecord
key_record record_start (d, p, k, v) din = record {
  deleted = d;
  prev_pos = p;
  key = k;
  data_pos = v;
  next_offset = record_start + din.offset;
}

-- At most 65536 bytes of the file are looked at.
unfoldable pub get_record : Bytes → ℕ → Outcome KeyRecord
get_record file pos =
    if ltb pos (2 ^ 63)
    then Outcome.◌>>=◌ (parse_fields (from_bytes (take 65536 (drop pos file))))
        (λ (fields, din). ok (key_record pos fields din))
    else err invalid_input

unfoldable pub read_deleted : Reader Bool
read_deleted = do buf ← read_n 1; b ← lift (index buf 0); pure (not (b == 0))

unfoldable pub is_deleted : Bytes → ℕ → Outcome Bool
is_deleted file pos = read_at file pos read_deleted

unfoldable pub read_prev_pos : Reader ℕ
read_prev_pos = do buf ← read_n 5; lift (to_long5 buf 0)

unfoldable pub get_prev_pos : Bytes → ℕ → Outcome ℕ
get_prev_pos file pos = read_at file ((pos + 1) % 2 ^ 64) read_prev_pos

-- The length is read as an i16, so a longer key has a negative one.
unfoldable pub read_key : Reader Bytes
read_key = do len ← read_short; read_n (sign_extend 16 len)

unfoldable pub get_key : Bytes → ℕ → Outcome Bytes
get_key file pos = read_at file ((pos + 1 + 5) % 2 ^ 64) read_key

unfoldable pub read_blob_from_file : Reader Bytes
read_blob_from_file = do len_byte ← read_n 1; b ← lift (index len_byte 0); read_blob_body b

unfoldable pub read_data_pos : Reader Bytes
read_data_pos = do skip ← read_key; read_blob_from_file

unfoldable pub get_data_pos : Bytes → ℕ → Outcome Bytes
get_data_pos file pos = read_at file ((pos + 1 + 5) % 2 ^ 64) read_data_pos

unfoldable pub write_record : ℕ → Bytes → Bytes → Bytes
write_record prev_pos index_key data_pos =
    write_boolean false ▷ write_long5 prev_pos ▷ write_short_bytes index_key ▷ write_blob data_pos

-- The position of the new record, and the file.
unfoldable pub append : Bytes → ℕ → Bytes → Bytes → ℕ × Bytes
append file prev_pos index_key data_pos =
    (length file, file ++ write_record prev_pos index_key data_pos)

-- Writing behind the end fills the gap with zeros.
unfoldable pub write_at : Bytes → ℕ → Bytes → Bytes
write_at file pos bytes =
    take pos file ++ (replicate (pos - length file) 0 ++ (bytes ++ drop (pos + length bytes) file))

unfoldable pub set_delete : Bytes → ℕ → Bool → Outcome Bytes
set_delete file pos deleted =
    if ltb pos (2 ^ 63)
    then ok (write_at file pos ((if deleted then 1 else 0) ∷ []))
    else err invalid_input

unfoldable pub get_first_pos : ℕ
get_first_pos = header_size

unfoldable pub get_length : Bytes → ℕ
get_length file = length file
