-- ===== src/Db/MemHashBlock/Slots.antt =====
-- The table as a function from buckets to values: what `get` reads and what `put` changes.
use scouter_server_rust.Common.{
  ℕ, zero, suc, ◌+◌, ◌*◌, ◌/◌, ◌%◌, ◌^◌, ◌≤◌, ◌<◌, ◌≡◌, ◌≢◌, refl, ap, ◌∙◌, arith, true, false,
  none, [], ◌∷◌, length, length-replicate, replicate, ◌==◌, if◌then◌else◌, Bool-cases, ==_iff, inl,
  inr,
}
use native.Mathlib.Decide.{dec_lt}
use scouter_server_rust.Word.{Bytes, as_32, sign_extend, to_be_bytes}
use scouter_server_rust.Outcome.{Outcome, ok, index}
use scouter_server_rust.Protocol.Output.{to_bytes5}
use scouter_server_rust.Protocol.Input.{to_long5, long5_of}
use scouter_server_rust.Protocol.Numbers.{long5_of_digits}
use scouter_server_rust.Db.Buffer.{
  overwritten, copy_from_slice-ok, length-copied, index-copied_inside, index-copied_before,
  index-copied_behind,
}
use scouter_server_rust.Db.MemHashBlock.{
  MemHashBlock, mem_head_reserved, key_length, count_pos, bucket, slot_pos, offset, get, put,
  count_new, set_int, fresh, open_block,
}

-- Every bucket lies in the buffer, and there is one.
pub record IsValid (block : MemHashBlock) : Type 0 where
  pub some_bucket : 0 < block.capacity
  pub in_buffer : mem_head_reserved + key_length * block.capacity ≤ length block.buf

abbrev pub slot : MemHashBlock → ℕ → Outcome ℕ
slot block b = to_long5 block.buf (slot_pos b)

-- The value that five bytes keep: the low 40 bits, sign-extended.
abbrev pub long5_value : ℕ → ℕ
long5_value v = sign_extend 40 (v % 2 ^ 40)

to_long5_same :
    (xs ys : Bytes) (p : ℕ)
    → ((i : ℕ) → p ≤ i → i < p + 5 → index xs i ≡ index ys i)
    → to_long5 xs p ≡ to_long5 ys p
unfolding to_long5
to_long5_same xs ys p h = rw (
  h p (omega arith) (omega arith),
  h (p + 1) (omega arith) (omega arith),
  h (p + 2) (omega arith) (omega arith),
  h (p + 3) (omega arith) (omega arith),
  h (p + 4) (omega arith) (omega arith),
)

to_long5-copied :
    (buf : Bytes) (pos v : ℕ)
    → pos + 5 ≤ length buf
    → to_long5 (overwritten buf pos (to_bytes5 v)) pos ≡ ok (long5_value v)
unfolding to_long5 to_bytes5
to_long5-copied buf pos v h =
    rw
      (
        first,
        index-copied_inside buf pos (to_bytes5 v) h 1 (omega arith),
        index-copied_inside buf pos (to_bytes5 v) h 2 (omega arith),
        index-copied_inside buf pos (to_bytes5 v) h 3 (omega arith),
        index-copied_inside buf pos (to_bytes5 v) h 4 (omega arith),
      )
      (ap ok (long5_of_digits v))
  where
    first : index (overwritten buf pos (to_bytes5 v)) pos ≡ index (to_bytes5 v) 0
    first =
        ap (index (overwritten buf pos (to_bytes5 v))) (omega arith)
        ∙ index-copied_inside buf pos (to_bytes5 v) h 0 (omega arith)

-- A position below 2 ^ 39 survives the five bytes.
pub to_long5-to_bytes5 : (p : ℕ) → p < 2 ^ 39 → to_long5 (to_bytes5 p) 0 ≡ ok p
unfolding to_bytes5 to_long5
to_long5-to_bytes5 p h = ap ok (long5_of_digits p ∙ positive)
  where
    positive : long5_value p ≡ p
    positive = ground arith

index-ok : (xs : Bytes) (i : ℕ) → i < length xs → (b : ℕ) × (index xs i ≡ ok b)
index-ok [] i h = absurd (omega arith)
index-ok (x ∷ xs) zero h = (x, refl)
index-ok (x ∷ xs) (suc i) h = index-ok xs i (omega arith)

pub to_long5-ok : (buf : Bytes) (p : ℕ) → p + 5 ≤ length buf → (v : ℕ) × (to_long5 buf p ≡ ok v)
unfolding to_long5
to_long5-ok buf p h =
    let (b0, e0) = index-ok buf p (omega arith) in
    let (b1, e1) = index-ok buf (p + 1) (omega arith) in
    let (b2, e2) = index-ok buf (p + 2) (omega arith) in
    let (b3, e3) = index-ok buf (p + 3) (omega arith) in
    let (b4, e4) = index-ok buf (p + 4) (omega arith) in
    (long5_of b0 b1 b2 b3 b4, rw (e0, e1, e2, e3, e4) refl)

bucket-lt : (h c : ℕ) → 0 < c → bucket h c < c
bucket-lt h c p = omega arith

slot_in_buffer :
    {block : MemHashBlock}
    → IsValid block
    → (b : ℕ) → b < block.capacity
    → slot_pos b + 5 ≤ length block.buf
slot_in_buffer v b h = omega arith

-- Counting touches four bytes of the header.
pub set_int_lem :
    (buf : Bytes) (v : ℕ)
    → 8 ≤ length buf
    → (after : Bytes) × (set_int buf count_pos v ≡ ok after)
      × (length after ≡ length buf)
      × ((b : ℕ) → to_long5 after (slot_pos b) ≡ to_long5 buf (slot_pos b))
unfolding set_int
set_int_lem buf v h = (
  overwritten buf count_pos (to_be_bytes 4 v),
  copy_from_slice-ok buf count_pos (to_be_bytes 4 v) (omega arith),
  length-copied buf count_pos (to_be_bytes 4 v) (omega arith),
  λ b. to_long5_same _ _ (slot_pos b) (λ i lo hi.
      index-copied_behind buf count_pos (to_be_bytes 4 v) (omega arith) i (omega arith)),
)

count_new_lem :
    (block : MemHashBlock) (old : ℕ)
    → IsValid block
    → (counted : MemHashBlock) × (count_new block old ≡ ok counted)
      × (counted.capacity ≡ block.capacity)
      × (length counted.buf ≡ length block.buf)
      × ((b : ℕ) → slot counted b ≡ slot block b)
unfolding count_new
count_new_lem block old v = elim (Bool-cases (old == 0)) [
  | inl new ↦
      let (buf, done, len, same) =
        set_int_lem block.buf (as_32 (block.count + 1)) (omega (arith, v.in_buffer)) in
      (
        record block { buf = buf; count = as_32 (block.count + 1) },
        rw (new, done) refl,
        refl,
        len,
        same,
      )
  | inr used ↦ (block, rw used refl, refl, refl, λ b. refl)
]

-- Writing one slot.
pub slot_written :
    (buf : Bytes) (value b c : ℕ)
    → slot_pos c + 5 ≤ length buf
    → to_long5 (overwritten buf (slot_pos c) (to_bytes5 value)) (slot_pos b)
      ≡ (if b == c then ok (long5_value value) else to_long5 buf (slot_pos b))
unfolding to_bytes5
slot_written buf value b c room = elim (Bool-cases (b == c)) [
  | inl here ↦ rw here (
      ap (λ (t : ℕ). to_long5 (overwritten buf (slot_pos c) (to_bytes5 value)) (slot_pos t))
        ((==_iff b c).0 here)
      ∙ to_long5-copied buf (slot_pos c) value room)
  | inr other ↦ rw other (to_long5_same _ buf (slot_pos b) (elsewhere (ground arith)))
]
  where
    elsewhere :
        b ≢ c
        → (i : ℕ) → slot_pos b ≤ i
        → i < slot_pos b + 5
        → index (overwritten buf (slot_pos c) (to_bytes5 value)) i ≡ index buf i
    elsewhere ne i lo hi = elim (dec_lt b c) [
      | yes before ↦ index-copied_before buf (slot_pos c) (to_bytes5 value) room i (omega arith)
      | no behind ↦ index-copied_behind buf (slot_pos c) (to_bytes5 value) room i (omega arith)
    ]

-- `put` succeeds, keeps the table well-formed, sets the bucket of its hash to the low 40 bits of the
-- value, sign-extended, and leaves every other bucket.
pub put_lem :
    (block : MemHashBlock) (h value : ℕ)
    → IsValid block
    → (after : MemHashBlock) × (put block h value ≡ ok after)
      × IsValid after
      × (after.capacity ≡ block.capacity)
      × ((b : ℕ)
          → b < block.capacity
          → slot after b
            ≡ (if b == bucket h block.capacity then ok (long5_value value) else slot block b))
unfolding put offset to_bytes5
put_lem block h value v =
    let pos = slot_pos (bucket h block.capacity) in
    let within = slot_in_buffer v (bucket h block.capacity) (omega (arith, v.some_bucket)) in
    let (old, e) = to_long5-ok block.buf pos within in
    let (counted, ec, cap, len, same) = count_new_lem block old v in
    let room : pos + 5 ≤ length counted.buf = omega (arith, len, within) in
    let some_slot : block.capacity == 0 ≡ false = ground (arith, v.some_bucket) in
    let len' = length-copied counted.buf pos (to_bytes5 value) room in
    (
      record counted { buf = overwritten counted.buf pos (to_bytes5 value); dirty = true },
      rw (some_slot, e, ec, copy_from_slice-ok counted.buf pos (to_bytes5 value) room) refl,
      record {
        some_bucket = omega (arith, v.some_bucket, cap);
        in_buffer = omega (arith, v.in_buffer, cap, len, len');
      },
      cap,
      λ b hb.
          slot_written counted.buf value b (bucket h block.capacity) room
          ∙ ap
              (λ (s : Outcome ℕ).
                if b == bucket h block.capacity then ok (long5_value value) else s)
              (same b),
    )

-- `get` reads the bucket of its hash.
pub get_lem :
    (block : MemHashBlock) (h : ℕ)
    → IsValid block
    → get block h ≡ slot block (bucket h block.capacity)
unfolding get offset
get_lem block h v =
    let some_slot : block.capacity == 0 ≡ false = ground (arith, v.some_bucket) in rw some_slot refl

index-replicate : (n i x : ℕ) → i < n → index (replicate n x) i ≡ ok x
index-replicate zero i x h = absurd (omega arith)
index-replicate (suc n) zero x h = refl
index-replicate (suc n) (suc i) x h = index-replicate n i x (omega arith)

pub index-fresh :
    (n i : ℕ) → 2 ≤ i → i < n + 2 → index {A = ℕ} (0xca ∷ 0xfe ∷ replicate n 0) i ≡ ok 0
index-fresh n zero lo hi = absurd (omega arith)
index-fresh n (suc zero) lo hi = absurd (omega arith)
index-fresh n (suc (suc i)) lo hi = index-replicate n i 0 (omega arith)

pub slot_empty :
    (buf : Bytes) (p : ℕ) → ((i : ℕ) → i < 5 → index buf (p + i) ≡ ok 0) → to_long5 buf p ≡ ok 0
unfolding to_long5 long5_of
slot_empty buf p h =
    rw (first, h 1 (omega arith), h 2 (omega arith), h 3 (omega arith), h 4 (omega arith))
  where
    first : index buf p ≡ ok 0
    first = ap (index buf) (omega arith) ∙ h 0 (omega arith)

pub fresh-IsValid : (mem_size : ℕ) → 5 ≤ mem_size → IsValid (fresh mem_size)
unfolding fresh
fresh-IsValid mem_size h = record {
  some_bucket = omega arith;
  in_buffer = omega (arith, length-replicate {A = ℕ} (1022 + mem_size) 0);
}

pub slot-fresh : (mem_size b : ℕ) → b < (fresh mem_size).capacity → slot (fresh mem_size) b ≡ ok 0
unfolding fresh
slot-fresh mem_size b h =
    slot_empty (fresh mem_size).buf (slot_pos b)
      (λ i hi. index-fresh (1022 + mem_size) (slot_pos b + i) (omega arith) (omega arith))

-- A new table of at least one slot is well-formed, and all its buckets hold zero.
pub open_block_new :
    (mem_size : ℕ)
    → 5 ≤ mem_size
    → (block : MemHashBlock) × (open_block none mem_size ≡ ok block)
      × (block.capacity ≡ mem_size / 5)
      × IsValid block
      × ((b : ℕ) → b < block.capacity → slot block b ≡ ok 0)
unfolding open_block fresh
open_block_new mem_size h =
    (fresh mem_size, refl, refl, fresh-IsValid mem_size h, slot-fresh mem_size)
