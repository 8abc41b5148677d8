-- ===== src/Db/TextStore.antt =====
-- src/db/text_store.rs: the texts by the hash of their kind and their own, in an index whose data
-- are the texts.
pub mod Dedup
use scouter_server_rust.Common.{ℕ, Bool, Option, none, some, ◌++◌, if◌then◌else◌}
use scouter_server_rust.Word.{Bytes, to_be_bytes}
use scouter_server_rust.Outcome.{Outcome, ◌>>=◌, ok}
use scouter_server_rust.Protocol.Utf8.{from_utf8_lossy}
use scouter_server_rust.Db.IndexKeyFile as Keys
use scouter_server_rust.Db.IndexKeyFile.{IndexKeyFile}

pub record TextStore : Type 0 where
  pub texts : IndexKeyFile

unfoldable pub open_store : Option Bytes → Option Bytes → ℕ → Outcome TextStore
open_store hfile kfile index_mb = do
  keys ← Keys.open_index hfile kfile index_mb
  ok (record { texts = keys })

-- `div` and `hash` are bit patterns of i32.
unfoldable pub make_key : ℕ → ℕ → Bytes
make_key div hash = to_be_bytes 4 div ++ to_be_bytes 4 hash

-- A text that is there stays.
unfoldable pub put : TextStore → ℕ → ℕ → Bytes → Outcome TextStore
put store div hash text = do
  known ← Keys.has_key store.texts (make_key div hash)
  if known
      then ok store
      else (do keys ← Keys.put store.texts (make_key div hash) text; ok (record { texts = keys }))

unfoldable pub get : TextStore → ℕ → ℕ → Outcome (Option Bytes)
get store div hash = do
  found ← Keys.get store.texts (make_key div hash)
  ok (elim found [ none ↦ none | some bytes ↦ some (from_utf8_lossy bytes) ])

-- What is written to the .hfile, if anything.
unfoldable pub flush : TextStore → TextStore × Option Bytes
flush store = let (keys, file) = Keys.flush store.texts in (record { texts = keys }, file)
