-- ===== src/Db/AlertStore.antt =====
-- src/db/alert_store.rs: the alerts, in a data file with an index by time. `date_millis` is
-- get_date_millis of src/util/date.rs, which asks the time zone database.
use scouter_server_rust.Common.{ℕ, ◌+◌, ◌%◌, ◌^◌, Option, List, [], ◌∷◌, length}
use scouter_server_rust.Word.{Bytes, as_16, sign_extend, from_be_bytes}
use scouter_server_rust.Outcome.{Outcome, ◌>>=◌, ok, index}
use scouter_server_rust.Db.RealDataFile as DataFile
use scouter_server_rust.Db.RealDataFile.{RealDataFile}
use scouter_server_rust.Db.IndexTimeFile as Times
use scouter_server_rust.Db.IndexTimeFile.{IndexTimeFile}

pub record AlertStore : Type 0 where
  pub data_file : RealDataFile
  pub time_index : IndexTimeFile

unfoldable pub open_store : Option Bytes → Option Bytes → Option Bytes → Outcome AlertStore
open_store alerts hfile kfile = do
  times ← Times.open_index hfile kfile
  ok (record { data_file = DataFile.open_file alerts; time_index = times })

-- The closure that reads for the time index.
unfoldable pub read_alert : RealDataFile → ℕ → Outcome Bytes
read_alert df offset = do
  (len_bytes, flushed) ← DataFile.read df offset 2
  b0 ← index len_bytes 0
  b1 ← index len_bytes 1
  let len = sign_extend 16 (from_be_bytes 0 (b0 ∷ b1 ∷ []))
  (bytes, same) ← DataFile.read flushed ((offset + 2) % 2 ^ 64) len
  ok bytes

module _ (date_millis : ℕ → ℕ) where
  -- The length of the data is cut to an i16.
  unfoldable pub write : AlertStore → ℕ → Bytes → Outcome AlertStore
  write store time_ms bytes = do
    let (offset, with_length) = DataFile.write_short store.data_file (as_16 (length bytes))
    times ← Times.put date_millis store.time_index time_ms offset
    ok (record { data_file = (DataFile.write with_length bytes).1; time_index = times })

  -- The calls of the handler, in order.
  unfoldable pub read_by_time : AlertStore → ℕ → ℕ → Outcome (List (ℕ × Bytes))
  read_by_time store from_ms to_ms =
      Times.read_with_reader date_millis store.time_index from_ms to_ms (read_alert store.data_file)

-- What is written to the .hfile of the index, if anything.
unfoldable pub flush : AlertStore → AlertStore × Option Bytes
flush store =
    let (times, file) = Times.flush store.time_index in
    (record { data_file = DataFile.flush store.data_file; time_index = times }, file)
