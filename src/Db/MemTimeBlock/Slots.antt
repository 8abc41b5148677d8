-- ===== src/Db/MemTimeBlock/Slots.antt =====
-- The table as a function from half seconds to values: what `get` reads and what `put` and
-- `add_count` change.
use scouter_server_rust.Common.{
  ℕ, ◌+◌, ◌-◌, ◌≤◌, ◌<◌, ◌≡◌, refl, ap, ◌∙◌, arith, true, false, ◌∷◌, length, length-replicate,
  replicate, ltb, ◌==◌, if◌then◌else◌, Bool-cases, inl, inr,
}
use scouter_server_rust.Word.{as_32}
use scouter_server_rust.Outcome.{Outcome, ok}
use scouter_server_rust.Protocol.Output.{to_bytes5}
use scouter_server_rust.Protocol.Input.{to_long5}
use scouter_server_rust.Db.Buffer.{overwritten, copy_from_slice-ok, length-copied}
use scouter_server_rust.Db.MemHashBlock.{slot_pos, mem_head_reserved}
use scouter_server_rust.Db.MemHashBlock.Slots.{
  long5_value, to_long5-ok, slot_written, set_int_lem, slot_empty, index-fresh,
}
use scouter_server_rust.Db.MemTimeBlock.{
  MemTimeBlock, capacity, mem_buffer_size, fresh, bucket, offset, get, add_count, count_new, put,
}

-- Every bucket lies in the buffer.
abbrev pub IsValid : MemTimeBlock → Type 0
IsValid block = 865024 ≤ length block.buf

abbrev pub slot : MemTimeBlock → ℕ → Outcome ℕ
slot block b = to_long5 block.buf (slot_pos b)

-- A table that differs from another one in its count.
pub record SameSlots (before after : MemTimeBlock) : Type 0 where
  pub same_length : length after.buf ≡ length before.buf
  pub same_slots : (b : ℕ) → slot after b ≡ slot before b

pub add_count_lem :
    (block : MemTimeBlock) (n : ℕ)
    → IsValid block
    → (after : MemTimeBlock) × (add_count block n ≡ ok after) × SameSlots block after
unfolding add_count
add_count_lem block n v =
    let (buf, done, len, same) =
      set_int_lem block.buf (as_32 (block.count + n)) (omega (arith, v)) in
    (
      record block { buf = buf; count = as_32 (block.count + n) },
      rw done refl,
      record { same_length = len; same_slots = same },
    )

count_new_lem :
    (block : MemTimeBlock) (old : ℕ)
    → IsValid block
    → (after : MemTimeBlock) × (count_new block old ≡ ok after) × SameSlots block after
unfolding count_new
count_new_lem block old v = elim (Bool-cases (old == 0)) [
  | inl new ↦ rw new (add_count_lem block 1 v)
  | inr used ↦ rw used (block, refl, record { same_length = refl; same_slots = λ b. refl })
]

module _ (date_millis : ℕ → ℕ) (block : MemTimeBlock) (time : ℕ) (v : IsValid block) where
  abbrev here : ℕ
  here = bucket date_millis time

  here-lt : here < 172800
  here-lt = omega arith

  in_range : ltb (length block.buf) (slot_pos here + 5) ≡ false
  in_range = ground (arith, here-lt, v)

  pub get_lem : get date_millis block time ≡ slot block here
  unfolding get offset
  get_lem = rw in_range refl

  -- `put` succeeds, keeps the table well-formed, sets the bucket of its time to the low 40 bits of
  -- the value, sign-extended, and leaves every other bucket.
  pub put_lem :
      (value : ℕ)
      → (after : MemTimeBlock) × (put date_millis block time value ≡ ok after)
        × IsValid after
        × ((b : ℕ) → slot after b ≡ (if b == here then ok (long5_value value) else slot block b))
  unfolding put offset to_bytes5
  put_lem value =
      let (old, e) = to_long5-ok block.buf (slot_pos here) (omega (arith, here-lt, v)) in
      let (counted, ec, same) = count_new_lem block old v in
      let room : slot_pos here + 5 ≤ length counted.buf =
        omega (arith, here-lt, v, same.same_length) in
      let len = length-copied counted.buf (slot_pos here) (to_bytes5 value) room in
      (
        record counted {
          buf = overwritten counted.buf (slot_pos here) (to_bytes5 value);
          dirty = true;
        },
        rw (in_range, e, ec, copy_from_slice-ok counted.buf (slot_pos here) (to_bytes5 value) room)
            refl,
        omega (arith, v, same.same_length, len),
        λ b.
            slot_written counted.buf value b here room
            ∙ ap (λ (s : Outcome ℕ). if b == here then ok (long5_value value) else s)
                (same.same_slots b),
      )

length-blank : (n : ℕ) → n + 2 ≤ length {A = ℕ} (0xca ∷ 0xfe ∷ replicate n 0)
length-blank n = omega (arith, length-replicate {A = ℕ} n 0)

pub fresh-IsValid : IsValid fresh
unfolding fresh
fresh-IsValid = length-blank (mem_head_reserved - 2 + mem_buffer_size)

pub slot-fresh : (b : ℕ) → b < capacity → slot fresh b ≡ ok 0
unfolding fresh
slot-fresh b h =
    slot_empty fresh.buf (slot_pos b)
      (λ i hi. index-fresh 865022 (slot_pos b + i) (omega arith) (omega arith))
