-- ===== src/Db/MemTimeBlock.antt =====
-- src/db/io/mem_time_block.rs: the table of chain heads of a time index, a buffer with a slot for
-- each half second of two days. The lock makes every call atomic. `date_millis` is get_date_millis of
-- src/util/date.rs, which asks the time zone database of the host; it is taken to return.
pub mod Slots
use scouter_server_rust.Common.{
  ℕ, ◌+◌, ◌-◌, ◌*◌, ◌/◌, ◌%◌, ◌^◌, Bool, true, false, Option, none, some, [], ◌∷◌, length,
  replicate, ltb, ◌==◌, if◌then◌else◌,
}
use scouter_server_rust.Word.{Bytes, as_32, sign_extend}
use scouter_server_rust.Outcome.{Outcome, ◌>>=◌, ok, panic}
use scouter_server_rust.Protocol.Input.{to_long5}
use scouter_server_rust.Protocol.Output.{to_bytes5}
use scouter_server_rust.Db.Buffer.{copy_from_slice}
use scouter_server_rust.Db.MemHashBlock.{
  to_int, set_int, count_pos, mem_head_reserved, key_length, slot_pos,
}

abbrev pub capacity : ℕ
capacity = 3600 * 24 * 2

abbrev pub mem_buffer_size : ℕ
mem_buffer_size = capacity * key_length

-- `MemTimeBlockInner`; `count` is the bit pattern of an i32.
pub record MemTimeBlock : Type 0 where
  pub buf : Bytes
  pub count : ℕ
  pub dirty : Bool

unfoldable pub fresh : MemTimeBlock
fresh = record {
  buf = 0xca ∷ 0xfe ∷ replicate (mem_head_reserved - 2 + mem_buffer_size) 0;
  count = 0;
  dirty = false;
}

unfoldable pub loaded : Bytes → Outcome MemTimeBlock
loaded buf = do
  count ← to_int buf count_pos
  ok (record { buf = buf; count = count; dirty = false })

-- `file` is the content of the .hfile, if there is one.
unfoldable pub open_block : Option Bytes → Outcome MemTimeBlock
open_block none = ok fresh
open_block (some file) = if ltb (length file) mem_head_reserved then ok fresh else loaded file

-- The sum wraps, as it does without overflow checks.
unfoldable pub add_count : MemTimeBlock → ℕ → Outcome MemTimeBlock
add_count block n = do
  buf ← set_int block.buf count_pos (as_32 (block.count + n))
  ok (record block { buf = buf; count = as_32 (block.count + n) })

-- A bucket that was empty counts one more.
unfoldable pub count_new : MemTimeBlock → ℕ → Outcome MemTimeBlock
count_new block old = if old == 0 then add_count block 1 else ok block

module _ (date_millis : ℕ → ℕ) where
  -- The half second of the day; the result of `date_millis` is an i32, cast to usize.
  abbrev pub bucket : ℕ → ℕ
  bucket time_ms = sign_extend 32 (date_millis time_ms) / 500 % capacity

  unfoldable pub offset : ℕ → ℕ
  offset time_ms = slot_pos (bucket time_ms)

  unfoldable pub get : MemTimeBlock → ℕ → Outcome ℕ
  get block time_ms =
      if ltb (length block.buf) (offset time_ms + key_length)
      then ok 0
      else to_long5 block.buf (offset time_ms)

  unfoldable pub put : MemTimeBlock → ℕ → ℕ → Outcome MemTimeBlock
  put block time_ms value =
      if ltb (length block.buf) (offset time_ms + key_length) then ok block else (do
        old ← to_long5 block.buf (offset time_ms)
        counted ← count_new block old
        buf ← copy_from_slice counted.buf (offset time_ms) (to_bytes5 value)
        ok (record counted { buf = buf; dirty = true }))

unfoldable pub get_count : MemTimeBlock → ℕ
get_count block = block.count

-- What is written to the .hfile, if anything.
unfoldable pub flush : MemTimeBlock → MemTimeBlock × Option Bytes
flush block =
    if block.dirty then (record block { dirty = false }, some block.buf) else (block, none)
