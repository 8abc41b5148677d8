-- ===== src/Db/ProfileStore.antt =====
-- src/db/profile_store.rs: the profiles of calls, in a data file with an index by the number of the
-- call. A read of the data file empties its buffer into it, so reads return the store as well.
pub mod Laws
use scouter_server_rust.Common.{
  ℕ, ◌+◌, ◌%◌, ◌^◌, Bool, Option, none, some, List, [], ◌∷◌, length, ltb, if◌then◌else◌,
}
use scouter_server_rust.Word.{Bytes, as_32, sign_extend, from_be_bytes}
use scouter_server_rust.Outcome.{Outcome, ◌>>=◌, ok, index}
use scouter_server_rust.Protocol.Output.{to_bytes_long, to_bytes5}
use scouter_server_rust.Protocol.Input.{to_long5}
use scouter_server_rust.Db.RealDataFile as DataFile
use scouter_server_rust.Db.RealDataFile.{RealDataFile}
use scouter_server_rust.Db.IndexKeyFile as Keys
use scouter_server_rust.Db.IndexKeyFile.{IndexKeyFile}

pub record ProfileStore : Type 0 where
  pub data_file : RealDataFile
  pub txid_index : IndexKeyFile

unfoldable pub open_store : Option Bytes → Option Bytes → Option Bytes → Outcome ProfileStore
open_store profile hfile kfile = do
  keys ← Keys.open_index hfile kfile 1
  ok (record { data_file = DataFile.open_file profile; txid_index = keys })

-- A slice too short for a long5 counts as 0.
unfoldable pub to_long5_from_bytes : Bytes → Outcome ℕ
to_long5_from_bytes buf = if ltb (length buf) 5 then ok 0 else to_long5 buf 0

-- Without a length in front, which `read_by_txid` expects.
unfoldable pub write : ProfileStore → ℕ → Bytes → Outcome ProfileStore
write store txid bytes = do
  let (offset, df) = DataFile.write store.data_file bytes
  keys ← Keys.put store.txid_index (to_bytes_long txid) (to_bytes5 offset)
  ok (record { data_file = df; txid_index = keys })

unfoldable pub write_with_length : ProfileStore → ℕ → Bytes → Outcome ProfileStore
write_with_length store txid bytes = do
  let (offset, with_length) = DataFile.write_int store.data_file (as_32 (length bytes))
  keys ← Keys.put store.txid_index (to_bytes_long txid) (to_bytes5 offset)
  ok (record { data_file = (DataFile.write with_length bytes).1; txid_index = keys })

unfoldable pub read_profile : RealDataFile → ℕ → Outcome (Bytes × RealDataFile)
read_profile df offset = do
  (len_bytes, flushed) ← DataFile.read df offset 4
  b0 ← index len_bytes 0
  b1 ← index len_bytes 1
  b2 ← index len_bytes 2
  b3 ← index len_bytes 3
  let len = sign_extend 32 (from_be_bytes 0 (b0 ∷ b1 ∷ b2 ∷ b3 ∷ []))
  DataFile.read flushed ((offset + 4) % 2 ^ 64) len

unfoldable pub read_by_txid : ProfileStore → ℕ → Outcome (Option Bytes × ProfileStore)
read_by_txid store txid = do
  position ← Keys.get store.txid_index (to_bytes_long txid)
  elim position [
    | none ↦ ok (none, store)
    | some offset_bytes ↦ (do
      offset ← to_long5_from_bytes offset_bytes
      (bytes, df) ← read_profile store.data_file offset
      ok (some bytes, record store { data_file = df }))
  ]

-- What is written to the .hfile of the index, if anything.
unfoldable pub flush : ProfileStore → ProfileStore × Option Bytes
flush store =
    let (keys, file) = Keys.flush store.txid_index in
    (record { data_file = DataFile.flush store.data_file; txid_index = keys }, file)
