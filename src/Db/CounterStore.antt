-- ===== src/Db/CounterStore.antt =====
-- src/db/counter_store.rs: a day of counters, one record for each key with a value for each stretch
-- of the day, behind an index. A value is the bit pattern of an f64; `f32_to_f64` is the conversion of
-- the processor. A call is taken as one step.
pub mod Clock
pub mod Layout
pub mod Find
pub mod Records
pub mod Refinement
use scouter_server_rust.Common.{
  ℕ, zero, suc, ◌+◌, ◌*◌, ◌/◌, ◌%◌, ◌^◌, Bool, ◌||◌, Option, none, some, List, [], ◌∷◌, ◌++◌,
  length, take, drop, replicate, ltb, ◌==◌, if◌then◌else◌,
}
use scouter_server_rust.Word.{
  Bytes, as_32, sign_extend, signed_div, signed_rem, to_be_bytes, from_be_bytes,
}
use scouter_server_rust.Outcome.{Outcome, ◌>>=◌, ok, err, invalid_input, index}
use scouter_server_rust.Util.Hash.{hash_bytes}
use scouter_server_rust.Protocol.Input.{read_n, to_long5}
use scouter_server_rust.Protocol.Output.{to_bytes5}
use scouter_server_rust.Db.Buffer.{copy_from_slice}
use scouter_server_rust.Db.RealKeyFile.{read_at, write_at}
use scouter_server_rust.Db.RealDataFile as DataFile
use scouter_server_rust.Db.RealDataFile.{RealDataFile}
use scouter_server_rust.Db.IndexKeyFile as Keys
use scouter_server_rust.Db.IndexKeyFile.{IndexKeyFile}

abbrev pub time_type_one_min : ℕ
time_type_one_min = 1

abbrev pub time_type_five_min : ℕ
time_type_five_min = 5

abbrev pub time_type_ten_min : ℕ
time_type_ten_min = 10

abbrev pub time_type_hour : ℕ
time_type_hour = 60

abbrev pub value_type_float : ℕ
value_type_float = 5

abbrev pub value_type_double : ℕ
value_type_double = 9

abbrev pub value_type_decimal : ℕ
value_type_decimal = 10

pub record CounterStore : Type 0 where
  pub index_file : IndexKeyFile
  pub data_file : RealDataFile

-- `time_type` is the bit pattern of an i8.
pub record CounterRecord : Type 0 where
  pub value_type : ℕ
  pub time_type : ℕ
  pub values : List ℕ

-- `obj_hash` is the bit pattern of an i32.
unfoldable pub make_counter_key : ℕ → Bytes → Bytes
make_counter_key obj_hash counter_name =
    to_be_bytes 4 obj_hash ++ to_be_bytes 4 (hash_bytes counter_name)

unfoldable pub open_store : Option Bytes → Option Bytes → Option Bytes → ℕ → Outcome CounterStore
open_store hfile kfile data_content index_mb = do
  keys ← Keys.open_index hfile kfile index_mb
  ok (record { index_file = keys; data_file = DataFile.open_file data_content })

unfoldable pub get_bucket_count : ℕ → ℕ
get_bucket_count time_type =
    if time_type == time_type_one_min
    then 1440
    else if time_type == time_type_five_min
    then 288
    else if time_type == time_type_ten_min
    then 144
    else if time_type == time_type_hour
    then 24
    else 1

-- `hhmm` is an i32, and so is all that is computed of it before the cast to usize.
unfoldable pub hhmm_to_bucket : ℕ → ℕ → ℕ
hhmm_to_bucket hhmm time_type =
    let hours = signed_div 32 hhmm 100 in
    let minutes = signed_rem 32 hhmm 100 in
    let total_minutes = as_32 (hours * 60 + minutes) in
    if time_type == time_type_one_min
    then sign_extend 32 total_minutes
    else if time_type == time_type_five_min
    then sign_extend 32 (signed_div 32 total_minutes 5)
    else if time_type == time_type_ten_min
    then sign_extend 32 (signed_div 32 total_minutes 10)
    else if time_type == time_type_hour
    then sign_extend 32 hours
    else 0

-- A slice too short for a long5 counts as 0.
unfoldable pub to_long5_from_bytes : Bytes → Outcome ℕ
to_long5_from_bytes buf = if ltb (length buf) 5 then ok 0 else to_long5 buf 0

unfoldable pub value_size_of : ℕ → ℕ
value_size_of value_type = if value_type == value_type_float then 4 else 8

-- The record of a new counter: zeros, but for the value if its bucket is in the record.
unfoldable pub new_record : ℕ → ℕ → ℕ → Outcome Bytes
new_record hhmm value time_type =
    let bucket_count = get_bucket_count time_type in
    let bucket_idx = hhmm_to_bucket hhmm time_type in
    let blank = value_type_double ∷ time_type ∷ replicate (bucket_count * 8) 0 in
    if ltb bucket_idx bucket_count
    then copy_from_slice blank (2 + bucket_idx * 8) (to_be_bytes 8 value)
    else ok blank

unfoldable pub write_new_record : RealDataFile → ℕ → ℕ → ℕ → Outcome (ℕ × RealDataFile)
write_new_record df hhmm value time_type = do
  bytes ← new_record hhmm value time_type
  ok (DataFile.write df bytes)

-- `seek` and `write_all` on a file opened for writing.
unfoldable pub write_from : Bytes → ℕ → Bytes → Outcome Bytes
write_from file pos bytes =
    if ltb pos (2 ^ 63) then ok (write_at file pos bytes) else err invalid_input

-- The place of a value is that of its bucket, in the record or not.
unfoldable pub update_value : RealDataFile → ℕ → ℕ → ℕ → ℕ → Outcome RealDataFile
update_value df record_offset hhmm value time_type = do
  let flushed = DataFile.flush df
  header ← read_at flushed.file record_offset (read_n 2)
  value_type ← index header 0
  let value_size = value_size_of value_type
  let value_offset = (record_offset + 2 + hhmm_to_bucket hhmm time_type * value_size) % 2 ^ 64
  file ← write_from flushed.file value_offset (take value_size (to_be_bytes 8 value))
  ok (record flushed { file = file })

unfoldable pub write : CounterStore → Bytes → ℕ → ℕ → ℕ → Outcome CounterStore
write store key hhmm value time_type = do
  offset_bytes ← Keys.get store.index_file key
  elim offset_bytes [
    | some ob ↦ (do
      offset ← to_long5_from_bytes ob
      df ← update_value store.data_file offset hhmm value time_type
      ok (record store { data_file = df }))
    | none ↦ (do
      (offset, df) ← write_new_record store.data_file hhmm value time_type
      keys ← Keys.put store.index_file key (to_bytes5 offset)
      ok (record { index_file = keys; data_file = df }))
  ]

module _ (f32_to_f64 : ℕ → ℕ) where
  -- A value of a slice of its size.
  unfoldable pub value_of : ℕ → Bytes → ℕ
  value_of value_type bytes =
      if value_type == value_type_float
      then f32_to_f64 (from_be_bytes 0 bytes)
      else from_be_bytes 0 bytes

  -- `for i in 0..bucket_count`: the slices lie one behind the other.
  unfoldable pub values_of : ℕ → ℕ → Bytes → List ℕ
  values_of value_type zero bytes = []
  values_of value_type (suc count) bytes =
      value_of value_type (take (value_size_of value_type) bytes)
      ∷ values_of value_type count (drop (value_size_of value_type) bytes)

  unfoldable pub read_record : RealDataFile → ℕ → Outcome (Option CounterRecord × RealDataFile)
  read_record df offset = do
    (header, flushed) ← DataFile.read df offset 2
    value_type ← index header 0
    time_type ← index header 1
    let bucket_count = get_bucket_count time_type
    (bytes, same) ←
        DataFile.read flushed ((offset + 2) % 2 ^ 64) (bucket_count * value_size_of value_type)
    ok (
      some (record {
        value_type = value_type;
        time_type = time_type;
        values = values_of value_type bucket_count bytes;
      }),
      same,
    )

  unfoldable pub read : CounterStore → Bytes → Outcome (Option CounterRecord × CounterStore)
  read store key = do
    offset_bytes ← Keys.get store.index_file key
    elim offset_bytes [
      | some ob ↦ (do
        offset ← to_long5_from_bytes ob
        (found, df) ← read_record store.data_file offset
        ok (found, record store { data_file = df }))
      | none ↦ ok (none, store)
    ]
