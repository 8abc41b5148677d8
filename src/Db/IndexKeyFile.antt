-- ===== src/Db/IndexKeyFile.antt =====
-- src/db/io/index_key_file.rs: a map from keys to data positions, as a hash table of chain heads and
-- a file of records. The chain loops take fuel: positions fall along a chain, so the length of the
-- file is enough.
pub mod Layout
pub mod Chain
pub mod Find
pub mod Delete
pub mod Scan
pub mod Refinement
pub mod Laws
use scouter_server_rust.Common.{
  ℕ, zero, suc, ◌+◌, ◌*◌, ◌%◌, ◌^◌, Bool, true, false, ◌&&◌, Option, none, some, List, [], ◌∷◌,
  length, if◌then◌else◌,
}
use scouter_server_rust.Word.{Bytes, as_32, signed_ltb}
use scouter_server_rust.Outcome.{Outcome, ◌>>=◌, ok, err, panic, out_of_fuel}
use scouter_server_rust.Util.Hash.{hash_bytes}
use scouter_server_rust.Protocol.Value.{bytes_eq}
use scouter_server_rust.Db.MemHashBlock as Block
use scouter_server_rust.Db.MemHashBlock.{MemHashBlock, open_block}
use scouter_server_rust.Db.RealKeyFile.{
  KeyRecord, open_file, get_record, is_deleted, get_prev_pos, get_key, get_data_pos, append,
  set_delete, get_first_pos, get_length,
}

pub record IndexKeyFile : Type 0 where
  pub hash_block : MemHashBlock
  pub key_file : Bytes

-- The contents of the two files, if they exist.
unfoldable pub open_index : Option Bytes → Option Bytes → ℕ → Outcome IndexKeyFile
open_index hfile kfile hash_size_mb = do
  block ← open_block hfile (hash_size_mb * 1024 * 1024)
  ok (record { hash_block = block; key_file = open_file kfile })

unfoldable pub put : IndexKeyFile → Bytes → Bytes → Outcome IndexKeyFile
put index key data_pos = do
  prev_pos ← Block.get index.hash_block (hash_bytes key)
  let (new_pos, file) = append index.key_file prev_pos key data_pos
  block ← Block.put index.hash_block (hash_bytes key) new_pos
  ok (record { hash_block = block; key_file = file })

-- Whether the record at `pos` is not deleted and has the key.
unfoldable pub matches : Bytes → Bytes → ℕ → Outcome Bool
matches file key pos = do
  deleted ← is_deleted file pos
  if deleted then ok false else (do stored_key ← get_key file pos; ok (bytes_eq stored_key key))

-- `while pos > 0`, up to the first match.
unfoldable pub find_from : ℕ → Bytes → Bytes → ℕ → Outcome (Option Bytes)
find_from zero file key pos = out_of_fuel
find_from (suc fuel) file key pos =
    let round = do
      hit ← matches file key pos
      if hit
          then (do data_pos ← get_data_pos file pos; ok (some data_pos))
          else (do prev ← get_prev_pos file pos; find_from fuel file key prev)
    in if signed_ltb 0 pos then round else ok none

unfoldable pub get : IndexKeyFile → Bytes → Outcome (Option Bytes)
get index key = do
  pos ← Block.get index.hash_block (hash_bytes key)
  find_from (length index.key_file) index.key_file key pos

unfoldable pub collect_from : ℕ → Bytes → Bytes → ℕ → Outcome (List Bytes)
collect_from zero file key pos = out_of_fuel
collect_from (suc fuel) file key pos =
    let round = do
      hit ← matches file key pos
      if hit
          then (do
            data_pos ← get_data_pos file pos
            prev ← get_prev_pos file pos
            rest ← collect_from fuel file key prev
            ok (data_pos ∷ rest))
          else (do prev ← get_prev_pos file pos; collect_from fuel file key prev)
    in if signed_ltb 0 pos then round else ok []

unfoldable pub get_all : IndexKeyFile → Bytes → Outcome (List Bytes)
get_all index key = do
  pos ← Block.get index.hash_block (hash_bytes key)
  collect_from (length index.key_file) index.key_file key pos

unfoldable pub has_key : IndexKeyFile → Bytes → Outcome Bool
has_key index key = do found ← get index key; ok (elim found [ none ↦ false | some v ↦ true ])

-- The file and the count of deleted records so far.
unfoldable pub delete_from : ℕ → Bytes → Bytes → ℕ → ℕ → Outcome (Bytes × ℕ)
delete_from zero file key pos deleted = out_of_fuel
delete_from (suc fuel) file key pos deleted =
    let round = do
      hit ← matches file key pos
      if hit
          then (do
            marked ← set_delete file pos true
            prev ← get_prev_pos marked pos
            delete_from fuel marked key prev (as_32 (deleted + 1)))
          else (do prev ← get_prev_pos file pos; delete_from fuel file key prev deleted)
    in if signed_ltb 0 pos then round else ok (file, deleted)

unfoldable pub delete : IndexKeyFile → Bytes → Outcome (IndexKeyFile × ℕ)
delete index key = do
  pos ← Block.get index.hash_block (hash_bytes key)
  (file, deleted) ← delete_from (length index.key_file) index.key_file key pos 0
  ok (record index { key_file = file }, deleted)

-- What `handler` is called with for one record, in front of the later calls.
unfoldable pub handled : KeyRecord → List (Bytes × Bytes) → List (Bytes × Bytes)
handled r calls = if r.deleted then calls else (r.key, r.data_pos) ∷ calls

-- `while pos < length && pos > 0`; an error of `get_record` ends the loop, a panic goes on.
unfoldable pub scan_from : ℕ → Bytes → ℕ → Outcome (List (Bytes × Bytes))
scan_from zero file pos = out_of_fuel
scan_from (suc fuel) file pos =
    let round : Outcome (List (Bytes × Bytes)) = elim (get_record file pos) [
      | ok r ↦ (do calls ← scan_from fuel file r.next_offset; ok (handled r calls))
      | err e ↦ ok []
      | panic ↦ panic
      | out_of_fuel ↦ out_of_fuel
    ] in
    if signed_ltb pos (get_length file) && signed_ltb 0 pos then round else ok []

-- The calls of the handler, in order.
unfoldable pub read_all : IndexKeyFile → Outcome (List (Bytes × Bytes))
read_all index = scan_from (length index.key_file) index.key_file get_first_pos

-- What is written to the .hfile, if anything.
unfoldable pub flush : IndexKeyFile → IndexKeyFile × Option Bytes
flush index =
    let (block, file) = Block.flush index.hash_block in (record index { hash_block = block }, file)
