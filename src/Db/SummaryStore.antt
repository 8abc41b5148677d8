-- ===== src/Db/SummaryStore.antt =====
-- src/db/summary_store.rs: the summaries of a day, in a data file with an index for each group of
-- kinds. A key is the time of day and the hash of what is summed up, both bit patterns of i32.
use scouter_server_rust.Common.{
  ℕ, ◌+◌, ◌%◌, ◌^◌, ◌&&◌, ◌||◌, List, [], ◌∷◌, ◌++◌, length, take, ltb, ◌==◌, if◌then◌else◌,
}
use scouter_server_rust.Word.{Bytes, as_32, sign_extend, to_be_bytes, from_be_bytes}
use scouter_server_rust.Outcome.{Outcome, ◌>>=◌, ok, err, panic, out_of_fuel}
use scouter_server_rust.Db.RealDataFile as DataFile
use scouter_server_rust.Db.RealDataFile.{RealDataFile}
use scouter_server_rust.Db.IndexKeyFile as Keys
use scouter_server_rust.Db.IndexKeyFile.{IndexKeyFile}

-- Kinds of summaries, of src/protocol/pack/mod.rs.
abbrev pub summary_app : ℕ
summary_app = 1

abbrev pub summary_sql : ℕ
summary_sql = 2

abbrev pub summary_ip : ℕ
summary_ip = 4

abbrev pub summary_user_agent : ℕ
summary_user_agent = 5

abbrev pub summary_service_error : ℕ
summary_service_error = 6

abbrev pub summary_alert : ℕ
summary_alert = 7

pub record SummaryStore : Type 0 where
  pub data_file : RealDataFile
  pub app_index : IndexKeyFile
  pub sql_index : IndexKeyFile
  pub enduser_index : IndexKeyFile
  pub other_index : IndexKeyFile

-- Which index a kind has.
pub data Group : Type 0 where
  app sql enduser other : Group

unfoldable pub index_for_stype : ℕ → Group
index_for_stype stype =
    if (stype == summary_app) || (stype == summary_service_error)
    then app
    else if stype == summary_sql
    then sql
    else if (stype == summary_ip) || (stype == summary_user_agent)
    then enduser
    else other

unfoldable pub index_of : SummaryStore → Group → IndexKeyFile
index_of store app = store.app_index
index_of store sql = store.sql_index
index_of store enduser = store.enduser_index
index_of store other = store.other_index

unfoldable pub with_index : SummaryStore → Group → IndexKeyFile → SummaryStore
with_index store app keys = record store { app_index = keys }
with_index store sql keys = record store { sql_index = keys }
with_index store enduser keys = record store { enduser_index = keys }
with_index store other keys = record store { other_index = keys }

unfoldable pub make_key : ℕ → ℕ → Bytes
make_key hhmm id_hash = to_be_bytes 4 hhmm ++ to_be_bytes 4 id_hash

unfoldable pub write : SummaryStore → ℕ → ℕ → ℕ → Bytes → Outcome SummaryStore
write store stype hhmm id_hash bytes = do
  let (offset, with_length) = DataFile.write store.data_file (to_be_bytes 4 (as_32 (length bytes)))
  let df = (DataFile.write with_length bytes).1
  let group = index_for_stype stype
  keys ← Keys.put (index_of store group) (make_key hhmm id_hash) (to_be_bytes 8 offset)
  ok (with_index (record store { data_file = df }) group keys)

-- `if let Ok(…)`: an error is nothing, a panic goes on.
unfoldable pub or_nothing : Outcome (List (Bytes × Bytes)) → Outcome (List (Bytes × Bytes))
or_nothing (ok calls) = ok calls
or_nothing (err e) = ok []
or_nothing panic = panic
or_nothing out_of_fuel = out_of_fuel

-- The calls of the handler for one entry of the index.
unfoldable pub read_summary : RealDataFile → Bytes × Bytes → Outcome (List (Bytes × Bytes))
read_summary df (key, data_pos_bytes) =
    let offset = from_be_bytes 0 (take 8 data_pos_bytes) in
    let found = do
      (len_bytes, flushed) ← DataFile.read df offset 4
      let len = sign_extend 32 (from_be_bytes 0 len_bytes)
      if ltb 0 len && ltb len 1000000
          then (do
            (bytes, same) ← DataFile.read flushed ((offset + 4) % 2 ^ 64) len
            ok ((key, bytes) ∷ []))
          else ok []
    in if ltb (length data_pos_bytes) 8 then ok [] else or_nothing found

unfoldable pub read_each : RealDataFile → List (Bytes × Bytes) → Outcome (List (Bytes × Bytes))
read_each df [] = ok []
read_each df (e ∷ es) = do calls ← read_summary df e; more ← read_each df es; ok (calls ++ more)

-- The calls of the handler, in order.
unfoldable pub read_by_type : SummaryStore → ℕ → Outcome (List (Bytes × Bytes))
read_by_type store stype = do
  entries ← Keys.read_all (index_of store (index_for_stype stype))
  read_each store.data_file entries
