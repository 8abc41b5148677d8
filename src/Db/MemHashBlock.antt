-- ===== src/Db/MemHashBlock.antt =====
-- src/db/io/mem_hash_block.rs: the hash table of an index, a byte buffer behind a header.
-- The lock makes every call atomic, so a call is a function of the state under the lock. Calls of
-- the file system are taken to succeed: `open` is given what the file holds, `flush` returns what it
-- writes.
pub mod Slots
use scouter_server_rust.Common.{
  ℕ, ◌+◌, ◌-◌, ◌*◌, ◌/◌, ◌%◌, ◌^◌, Bool, true, false, Option, none, some, List, [], ◌∷◌, ◌++◌,
  length, replicate, ltb, ◌==◌, if◌then◌else◌,
}
use scouter_server_rust.Word.{Bytes, as_32, to_be_bytes, from_be_bytes}
use scouter_server_rust.Outcome.{Outcome, ◌>>=◌, ok, panic, index}
use scouter_server_rust.Protocol.Input.{to_long5}
use scouter_server_rust.Protocol.Output.{to_bytes5}
use scouter_server_rust.Db.Buffer.{copy_from_slice}

abbrev pub count_pos : ℕ
count_pos = 4

abbrev pub mem_head_reserved : ℕ
mem_head_reserved = 1024

abbrev pub key_length : ℕ
key_length = 5

-- `MemHashBlockInner`; `count` is the bit pattern of an i32.
pub record MemHashBlock : Type 0 where
  pub buf : Bytes
  pub count : ℕ
  pub capacity : ℕ
  pub dirty : Bool

-- `i32::from_be_bytes([buf[pos], buf[pos + 1], buf[pos + 2], buf[pos + 3]])`
unfoldable pub to_int : Bytes → ℕ → Outcome ℕ
to_int buf pos = do
  b0 ← index buf pos
  b1 ← index buf (pos + 1)
  b2 ← index buf (pos + 2)
  b3 ← index buf (pos + 3)
  ok (from_be_bytes 0 (b0 ∷ b1 ∷ b2 ∷ b3 ∷ []))

unfoldable pub set_int : Bytes → ℕ → ℕ → Outcome Bytes
set_int buf pos v = copy_from_slice buf pos (to_be_bytes 4 v)

-- A table of `mem_size` bytes, all zero.
unfoldable pub fresh : ℕ → MemHashBlock
fresh mem_size = record {
  buf = 0xca ∷ 0xfe ∷ replicate (mem_head_reserved - 2 + mem_size) 0;
  count = 0;
  capacity = mem_size / key_length;
  dirty = false;
}

unfoldable pub loaded : Bytes → Outcome MemHashBlock
loaded buf = do
  count ← to_int buf count_pos
  ok (record {
    buf = buf;
    count = count;
    capacity = (length buf - mem_head_reserved) / key_length;
    dirty = false;
  })

-- `file` is the content of the .hfile, if there is one.
unfoldable pub open_block : Option Bytes → ℕ → Outcome MemHashBlock
open_block none mem_size = ok (fresh mem_size)
open_block (some file) mem_size =
    if ltb (length file) mem_head_reserved then ok (fresh mem_size) else loaded file

-- `key_hash as u32 & 0x7FFFFFFF`, then `% capacity`.
abbrev pub bucket : ℕ → ℕ → ℕ
bucket key_hash capacity = key_hash % 2 ^ 31 % capacity

abbrev pub slot_pos : ℕ → ℕ
slot_pos b = key_length * b + mem_head_reserved

-- A remainder by zero panics.
unfoldable pub offset : ℕ → ℕ → Outcome ℕ
offset key_hash capacity = if capacity == 0 then panic else ok (slot_pos (bucket key_hash capacity))

unfoldable pub get : MemHashBlock → ℕ → Outcome ℕ
get block key_hash = do pos ← offset key_hash block.capacity; to_long5 block.buf pos

-- A bucket that was empty counts one more; the sum wraps, as it does without overflow checks.
unfoldable pub count_new : MemHashBlock → ℕ → Outcome MemHashBlock
count_new block old =
    if old == 0
    then (do
      buf ← set_int block.buf count_pos (as_32 (block.count + 1))
      ok (record block { buf = buf; count = as_32 (block.count + 1) }))
    else ok block

unfoldable pub put : MemHashBlock → ℕ → ℕ → Outcome MemHashBlock
put block key_hash value = do
  pos ← offset key_hash block.capacity
  old ← to_long5 block.buf pos
  counted ← count_new block old
  buf ← copy_from_slice counted.buf pos (to_bytes5 value)
  ok (record counted { buf = buf; dirty = true })

unfoldable pub get_count : MemHashBlock → ℕ
get_count block = block.count

-- What is written to the .hfile, if anything.
unfoldable pub flush : MemHashBlock → MemHashBlock × Option Bytes
flush block =
    if block.dirty then (record block { dirty = false }, some block.buf) else (block, none)
