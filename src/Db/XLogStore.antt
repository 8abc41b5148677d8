-- ===== src/Db/XLogStore.antt =====
-- src/db/xlog_store.rs: the records of calls, in a data file with three indexes: by time, by the
-- number of the call and by that of its group. A read of the data file empties its buffer into it, so
-- reads return the store as well. A call is taken as one step; each file has a lock of its own. An
-- error leaves out what a call has written before it, as the data in front of a time that is refused.
-- `date_millis` is get_date_millis of src/util/date.rs, which asks the time zone database.
pub mod Layout
pub mod Find
pub mod Refinement
pub mod Ranges
use scouter_server_rust.Common.{
  ℕ, ◌+◌, ◌%◌, ◌^◌, Bool, Option, none, some, List, [], ◌∷◌, length, ltb, ◌==◌, if◌then◌else◌,
}
use scouter_server_rust.Word.{Bytes, as_16, sign_extend, from_be_bytes}
use scouter_server_rust.Outcome.{Outcome, ◌>>=◌, ok, err, not_found, index}
use scouter_server_rust.Protocol.Output.{to_bytes_long, to_bytes5}
use scouter_server_rust.Protocol.Input.{to_long5}
use scouter_server_rust.Db.RealDataFile as DataFile
use scouter_server_rust.Db.RealDataFile.{RealDataFile}
use scouter_server_rust.Db.IndexKeyFile as Keys
use scouter_server_rust.Db.IndexKeyFile.{IndexKeyFile}
use scouter_server_rust.Db.IndexTimeFile as Times
use scouter_server_rust.Db.IndexTimeFile.{IndexTimeFile}

pub record XLogStore : Type 0 where
  pub data_file : RealDataFile
  pub time_index : IndexTimeFile
  pub txid_index : IndexKeyFile
  pub gxid_index : IndexKeyFile

-- What a directory holds: the data file, and the two files of each index.
pub record Files : Type 0 where
  pub service : Option Bytes
  pub time_hfile : Option Bytes
  pub time_kfile : Option Bytes
  pub txid_hfile : Option Bytes
  pub txid_kfile : Option Bytes
  pub gxid_hfile : Option Bytes
  pub gxid_kfile : Option Bytes

unfoldable pub open_store : Files → ℕ → Outcome XLogStore
open_store dir xlog_index_mb = do
  time ← Times.open_index dir.time_hfile dir.time_kfile
  txid ← Keys.open_index dir.txid_hfile dir.txid_kfile xlog_index_mb
  gxid ← Keys.open_index dir.gxid_hfile dir.gxid_kfile xlog_index_mb
  ok (record {
    data_file = DataFile.open_file dir.service;
    time_index = time;
    txid_index = txid;
    gxid_index = gxid;
  })

-- A slice too short for a long5 counts as 0.
unfoldable pub to_long5_from_bytes : Bytes → Outcome ℕ
to_long5_from_bytes buf = if ltb (length buf) 5 then ok 0 else to_long5 buf 0

-- The length of the data is cut to an i16.
unfoldable pub write_data : RealDataFile → Bytes → ℕ × RealDataFile
write_data df bytes =
    let (offset, with_length) = DataFile.write_short df (as_16 (length bytes)) in
    (offset, (DataFile.write with_length bytes).1)

-- A length that is negative as an i16 is a number of bytes that no vector can have.
unfoldable pub read_data_at : RealDataFile → ℕ → Outcome (Option Bytes × RealDataFile)
read_data_at df offset = do
  (len_bytes, flushed) ← DataFile.read df offset 2
  b0 ← index len_bytes 0
  b1 ← index len_bytes 1
  let len = sign_extend 16 (from_be_bytes 0 (b0 ∷ b1 ∷ []))
  if len == 0 then ok (some [], flushed) else (do
    (bytes, same) ← DataFile.read flushed ((offset + 2) % 2 ^ 64) len
    ok (some bytes, same))

-- The loop over the offsets that the index returns.
unfoldable pub read_each : RealDataFile → List Bytes → Outcome (List Bytes × RealDataFile)
read_each df [] = ok ([], df)
read_each df (offset_bytes ∷ more) = do
  offset ← to_long5_from_bytes offset_bytes
  (found, next) ← read_data_at df offset
  (results, last) ← read_each next more
  ok (elim found [ none ↦ results | some bytes ↦ bytes ∷ results ], last)

unfoldable pub read_by_txid : XLogStore → ℕ → Outcome (Option Bytes × XLogStore)
read_by_txid store txid = do
  position ← Keys.get store.txid_index (to_bytes_long txid)
  elim position [
    | none ↦ ok (none, store)
    | some offset_bytes ↦ (do
      offset ← to_long5_from_bytes offset_bytes
      (found, df) ← read_data_at store.data_file offset
      ok (found, record store { data_file = df }))
  ]

unfoldable pub read_by_gxid : XLogStore → ℕ → Outcome (List Bytes × XLogStore)
read_by_gxid store gxid = do
  offsets ← Keys.get_all store.gxid_index (to_bytes_long gxid)
  (results, df) ← read_each store.data_file offsets
  ok (results, record store { data_file = df })

unfoldable pub content_of : Option Bytes × RealDataFile → Outcome Bytes
content_of (none, df) = err not_found
content_of (some bytes, df) = ok bytes

-- The closure that reads for the time index. Every call empties the buffer first, so what an earlier
-- call did to the data file makes no difference.
unfoldable pub reader : RealDataFile → ℕ → Outcome Bytes
reader df offset = read_data_at df offset >>= content_of

module _ (date_millis : ℕ → ℕ) where
  unfoldable pub write : XLogStore → ℕ → ℕ → ℕ → Bytes → Outcome XLogStore
  write store time_ms txid gxid bytes = do
    let (offset, df) = write_data store.data_file bytes
    times ← Times.put date_millis store.time_index time_ms offset
    txids ← Keys.put store.txid_index (to_bytes_long txid) (to_bytes5 offset)
    gxids ←
        (if gxid == 0
          then ok store.gxid_index
          else Keys.put store.gxid_index (to_bytes_long gxid) (to_bytes5 offset))
    ok (record { data_file = df; time_index = times; txid_index = txids; gxid_index = gxids })

  -- The calls of the handler, in order.
  unfoldable pub read_by_time : XLogStore → ℕ → ℕ → Outcome (List (ℕ × Bytes))
  read_by_time store from_ms to_ms =
      Times.read_with_reader date_millis store.time_index from_ms to_ms (reader store.data_file)

-- What is written to the .hfile of each index, if anything.
unfoldable pub flush : XLogStore → XLogStore × (Option Bytes × Option Bytes × Option Bytes)
flush store =
    let (times, time_file) = Times.flush store.time_index in
    let (txids, txid_file) = Keys.flush store.txid_index in
    let (gxids, gxid_file) = Keys.flush store.gxid_index in
    (
      record {
        data_file = DataFile.flush store.data_file;
        time_index = times;
        txid_index = txids;
        gxid_index = gxids;
      },
      (time_file, txid_file, gxid_file),
    )
