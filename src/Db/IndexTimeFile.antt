-- ===== src/Db/IndexTimeFile.antt =====
-- src/db/io/index_time_file.rs: a map from times to data positions, as a table of chain heads, one
-- for each half second, and a file of records. A loop along a chain takes fuel: positions fall along
-- it, so the length of the file is enough. A loop over times counts its rounds, at most 172800.
-- `date_millis` is get_date_millis of src/util/date.rs, which asks the time zone database.
pub mod Sorting
pub mod Bucket
pub mod Refinement
pub mod Ranges
pub mod InOrder
pub mod Resolve
use scouter_server_rust.Common.{
  ℕ, zero, suc, ◌+◌, ◌-◌, ◌*◌, ◌%◌, ◌^◌, Bool, true, false, ◌&&◌, Option, none, some, List, [], ◌∷◌,
  ◌++◌, length, ltb, ◌==◌, if◌then◌else◌,
}
use scouter_server_rust.Word.{Bytes, signed_ltb, signed_leb, from_be_bytes}
use scouter_server_rust.Outcome.{Outcome, ◌>>=◌, ok, err, panic, out_of_fuel, invalid_input, index}
use scouter_server_rust.Protocol.Output.{to_bytes_long, to_bytes5}
use scouter_server_rust.Protocol.Input.{to_long5}
use scouter_server_rust.Db.MemTimeBlock as Block
use scouter_server_rust.Db.MemTimeBlock.{MemTimeBlock, open_block}
use scouter_server_rust.Db.RealKeyFile.{
  open_file, get_record, is_deleted, get_prev_pos, get_data_pos, append,
}

pub record IndexTimeFile : Type 0 where
  pub time_block : MemTimeBlock
  pub key_file : Bytes

-- `time` is an i64.
pub record TimeToData : Type 0 where
  pub time : ℕ
  pub data_pos : Bytes

abbrev pub seconds_per_day_x2 : ℕ
seconds_per_day_x2 = 86400 * 2

-- The contents of the two files, if they exist.
unfoldable pub open_index : Option Bytes → Option Bytes → Outcome IndexTimeFile
open_index hfile kfile = do
  block ← open_block hfile
  ok (record { time_block = block; key_file = open_file kfile })

-- `i64::from_be_bytes` of the first eight bytes of a key.
unfoldable pub time_of_key : Bytes → Outcome ℕ
time_of_key key = do
  b0 ← index key 0
  b1 ← index key 1
  b2 ← index key 2
  b3 ← index key 3
  b4 ← index key 4
  b5 ← index key 5
  b6 ← index key 6
  b7 ← index key 7
  ok (from_be_bytes 0 (b0 ∷ b1 ∷ b2 ∷ b3 ∷ b4 ∷ b5 ∷ b6 ∷ b7 ∷ []))

-- The entry of the record at `pos`, unless it is deleted.
unfoldable pub entry_at : Bytes → ℕ → Outcome (List TimeToData)
entry_at file pos = do
  deleted ← is_deleted file pos
  if deleted then ok [] else (do
    r ← get_record file pos
    time ← time_of_key r.key
    ok (record { time = time; data_pos = r.data_pos } ∷ []))

-- `while pos > 0`
unfoldable pub entries_from : ℕ → Bytes → ℕ → Outcome (List TimeToData)
entries_from zero file pos = out_of_fuel
entries_from (suc fuel) file pos =
    let round = do
      here ← entry_at file pos
      prev ← get_prev_pos file pos
      rest ← entries_from fuel file prev
      ok (here ++ rest)
    in if signed_ltb 0 pos then round else ok []

-- `entries.sort_by_key(|e| e.time)`, a stable sort on i64.
unfoldable pub insert_by_time : TimeToData → List TimeToData → List TimeToData
insert_by_time x [] = x ∷ []
insert_by_time x (y ∷ ys) =
    let rest = insert_by_time x ys in if signed_leb x.time y.time then x ∷ y ∷ ys else y ∷ rest

unfoldable pub sort_by_time : List TimeToData → List TimeToData
sort_by_time [] = []
sort_by_time (x ∷ xs) = insert_by_time x (sort_by_time xs)

unfoldable pub reverse : List TimeToData → List TimeToData
reverse [] = []
reverse (x ∷ xs) = reverse xs ++ (x ∷ [])

-- A slice too short for a long5 counts as 0.
unfoldable pub to_long5_from_slice : Bytes → Outcome ℕ
to_long5_from_slice buf = if ltb (length buf) 5 then ok 0 else to_long5 buf 0

-- `if let Ok(data) = reader(offset) { handler(entry.time, data) }`, in front of the later calls.
unfoldable pub resolve_entry :
    (ℕ → Outcome Bytes) → TimeToData → Outcome (List (ℕ × Bytes)) → Outcome (List (ℕ × Bytes))
resolve_entry reader e rest = do
  offset ← to_long5_from_slice e.data_pos
  elim (reader offset) [
    | ok bytes ↦ (do calls ← rest; ok ((e.time, bytes) ∷ calls))
    | err x ↦ rest
    | panic ↦ panic
    | out_of_fuel ↦ out_of_fuel
  ]

-- The calls of `handler` for the entries in the range.
unfoldable pub resolve : (ℕ → Outcome Bytes) → ℕ → ℕ → List TimeToData → Outcome (List (ℕ × Bytes))
resolve reader from_ms to_ms [] = ok []
resolve reader from_ms to_ms (e ∷ es) =
    let rest = resolve reader from_ms to_ms es in
    if signed_leb from_ms e.time && signed_leb e.time to_ms
    then resolve_entry reader e rest
    else rest

-- `t += 500` and `t -= 500`, which wrap.
abbrev pub later : ℕ → ℕ
later t = (t + 500) % 2 ^ 64

abbrev pub earlier : ℕ → ℕ
earlier t = (t + (2 ^ 64 - 500)) % 2 ^ 64

module _ (date_millis : ℕ → ℕ) where
  unfoldable pub put : IndexTimeFile → ℕ → ℕ → Outcome IndexTimeFile
  put idx time_ms data_pos = if signed_leb time_ms 0 then err invalid_input else (do
    prev_pos ← Block.get date_millis idx.time_block time_ms
    let (new_pos, file) = append idx.key_file prev_pos (to_bytes_long time_ms) (to_bytes5 data_pos)
    block ← Block.put date_millis idx.time_block time_ms new_pos
    counted ← Block.add_count block 1
    ok (record { time_block = counted; key_file = file }))

  unfoldable pub get_bucket_entries : IndexTimeFile → ℕ → Outcome (List TimeToData)
  get_bucket_entries idx time_ms = do
    pos ← Block.get date_millis idx.time_block time_ms
    entries ← entries_from (length idx.key_file) idx.key_file pos
    ok (sort_by_time entries)

  -- The calls of the handler, in order, from `t` on for some rounds.
  unfoldable pub read_rounds : ℕ → IndexTimeFile → ℕ → ℕ → Outcome (List TimeToData)
  read_rounds zero idx to_ms t = ok []
  read_rounds (suc n) idx to_ms t =
      let round = do
        entries ← get_bucket_entries idx t
        calls ← read_rounds n idx to_ms (later t)
        ok (entries ++ calls)
      in if signed_leb t to_ms then round else ok []

  unfoldable pub read : IndexTimeFile → ℕ → ℕ → Outcome (List TimeToData)
  read idx from_ms to_ms = read_rounds seconds_per_day_x2 idx to_ms from_ms

  unfoldable pub reader_rounds :
      (ℕ → Outcome Bytes) → ℕ → IndexTimeFile → ℕ → ℕ → ℕ → Outcome (List (ℕ × Bytes))
  reader_rounds reader zero idx from_ms to_ms t = ok []
  reader_rounds reader (suc n) idx from_ms to_ms t =
      let round = do
        entries ← get_bucket_entries idx t
        found ← resolve reader from_ms to_ms entries
        calls ← reader_rounds reader n idx from_ms to_ms (later t)
        ok (found ++ calls)
      in if signed_leb t to_ms then round else ok []

  unfoldable pub read_with_reader :
      IndexTimeFile → ℕ → ℕ → (ℕ → Outcome Bytes) → Outcome (List (ℕ × Bytes))
  read_with_reader idx from_ms to_ms reader =
      reader_rounds reader seconds_per_day_x2 idx from_ms to_ms from_ms

  unfoldable pub end_rounds : ℕ → IndexTimeFile → ℕ → ℕ → Outcome (List TimeToData)
  end_rounds zero idx from_ms t = ok []
  end_rounds (suc n) idx from_ms t =
      let round = do
        entries ← get_bucket_entries idx t
        calls ← end_rounds n idx from_ms (earlier t)
        ok (reverse entries ++ calls)
      in if signed_leb from_ms t then round else ok []

  unfoldable pub read_from_end : IndexTimeFile → ℕ → ℕ → Outcome (List TimeToData)
  read_from_end idx from_ms to_ms = end_rounds seconds_per_day_x2 idx from_ms to_ms

  -- The inner loop: the data position of the oldest record of a chain, if it has a record.
  unfoldable pub oldest_from : ℕ → Bytes → ℕ → Outcome (Option Bytes)
  oldest_from zero file pos = out_of_fuel
  oldest_from (suc fuel) file pos =
      let round = do
        prev ← get_prev_pos file pos
        let deeper = oldest_from fuel file prev
        if prev == 0 then (do found ← get_data_pos file pos; ok (some found)) else deeper
      in if signed_ltb 0 pos then round else ok none

  unfoldable pub first_rounds : ℕ → IndexTimeFile → ℕ → ℕ → Outcome (Option Bytes)
  first_rounds zero idx to_ms t = ok none
  first_rounds (suc n) idx to_ms t =
      let later_rounds = first_rounds n idx to_ms (later t) in
      let round = do
        pos ← Block.get date_millis idx.time_block t
        found ← oldest_from (length idx.key_file) idx.key_file pos
        elim found [ none ↦ later_rounds | some bytes ↦ ok (some bytes) ]
      in if signed_leb t to_ms then round else ok none

  unfoldable pub get_data_pos_first : IndexTimeFile → ℕ → ℕ → Outcome (Option Bytes)
  get_data_pos_first idx from_ms to_ms = first_rounds seconds_per_day_x2 idx to_ms from_ms

  unfoldable pub last_rounds : ℕ → IndexTimeFile → ℕ → ℕ → Outcome (Option Bytes)
  last_rounds zero idx from_ms t = ok none
  last_rounds (suc n) idx from_ms t =
      let earlier_rounds = last_rounds n idx from_ms (earlier t) in
      let round = do
        pos ← Block.get date_millis idx.time_block t
        if signed_ltb 0 pos
            then (do found ← get_data_pos idx.key_file pos; ok (some found))
            else earlier_rounds
      in if signed_leb from_ms t then round else ok none

  unfoldable pub get_data_pos_last : IndexTimeFile → ℕ → ℕ → Outcome (Option Bytes)
  get_data_pos_last idx from_ms to_ms = last_rounds seconds_per_day_x2 idx from_ms to_ms

  unfoldable pub get_start_end_data_pos :
      IndexTimeFile → ℕ → ℕ → Outcome (Option Bytes × Option Bytes)
  get_start_end_data_pos idx from_ms to_ms = do
    start ← get_data_pos_first idx from_ms to_ms
    end ← get_data_pos_last idx from_ms to_ms
    ok (start, end)

-- What is written to the .hfile, if anything.
unfoldable pub flush : IndexTimeFile → IndexTimeFile × Option Bytes
flush idx =
    let (block, file) = Block.flush idx.time_block in (record idx { time_block = block }, file)
