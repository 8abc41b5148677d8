-- ===== src/Db/RealDataFile/Appends.antt =====
-- The data file as the bytes written so far: what a write adds, and what a read finds.
use scouter_server_rust.Common.{
  ◌+◌, ◌-◌, ◌^◌, ◌≤◌, ◌<◌, ◌≡◌, refl, sym, ap, ◌∙◌, arith, true, false, none, [], ◌∷◌, ◌++◌,
  append-nil, append_assoc, length, length-append, ltb, leb, Bool-cases, inl, inr,
}
use scouter_server_rust.Word.{Bytes}
use scouter_server_rust.Outcome.{ok}
use scouter_server_rust.Protocol.Reads.{read_n-Reads}
use scouter_server_rust.Db.RealKeyFile.Records.{read_at-Reads}
use scouter_server_rust.Db.RealDataFile.{
  RealDataFile, capacity, open_file, flush, make_room, write_all, write, read,
}

-- The file and its buffer hold these bytes, fewer than 2 ^ 62, and the offset is behind them.
pub record Holds (df : RealDataFile) (bytes : Bytes) : Type 0 where
  pub content : df.file ++ df.pending ≡ bytes
  pub offset_end : df.offset ≡ length bytes
  pub pending_fits : length df.pending ≤ capacity
  pub low : length bytes < 2 ^ 62

pub open_file-Holds : Holds (open_file none) []
unfolding open_file
open_file-Holds = record {
  content = refl;
  offset_end = refl;
  pending_fits = omega arith;
  low = omega arith;
}

pub flush-Holds : (df : RealDataFile) (bytes : Bytes) → Holds df bytes → Holds (flush df) bytes
unfolding flush
flush-Holds df bytes h = record {
  content = append-nil _ ∙ h.content;
  offset_end = h.offset_end;
  pending_fits = omega arith;
  low = h.low;
}

-- What a write must keep: the bytes, in the file or in the buffer, and a buffer within its size.
record Stored (df : RealDataFile) (bytes : Bytes) : Type 0 where
  pub stored : df.file ++ df.pending ≡ bytes
  pub within : length df.pending ≤ capacity

make_room-Stored :
    (df : RealDataFile) (bytes more : Bytes) → Stored df bytes → Stored (make_room df more) bytes
unfolding make_room flush
make_room-Stored df bytes more h =
    elim (Bool-cases (ltb (capacity - length df.pending) (length more))) [
      | inl full ↦ rw full (record { stored = append-nil _ ∙ h.stored; within = omega arith })
      | inr room ↦ rw room h
    ]

-- After making room the buffer is empty or has room for the bytes.
make_room-room :
    (df : RealDataFile) (more : Bytes)
    → length df.pending ≤ capacity
    → leb capacity (length more) ≡ false
    → length ((make_room df more).pending ++ more) ≤ capacity
unfolding make_room flush
make_room-room df more h small =
    elim (Bool-cases (ltb (capacity - length df.pending) (length more))) [
      | inl full ↦ rw full (ground arith)
      | inr room ↦ rw (room, length-append df.pending more) (ground arith)
    ]

make_room-empty :
    (df : RealDataFile) (more : Bytes)
    → leb capacity (length more) ≡ true
    → length (make_room df more).pending ≡ 0
unfolding make_room flush
make_room-empty df more large =
    elim (Bool-cases (ltb (capacity - length df.pending) (length more))) [
      | inl full ↦ rw full refl
      | inr room ↦ rw room (ground arith)
    ]

pub length_zero : (xs : Bytes) → length xs ≡ 0 → xs ≡ []
length_zero [] h = refl
length_zero (x ∷ xs) h = absurd (omega arith)

write_all-Stored :
    (df : RealDataFile) (bytes more : Bytes)
    → Stored df bytes
    → Stored (write_all df more) (bytes ++ more)
unfolding write_all
write_all-Stored df bytes more h =
    let roomy = make_room-Stored df bytes more h in
    elim (Bool-cases (leb capacity (length more))) [
      | inl large ↦
          let empty : (make_room df more).pending ≡ [] =
            length_zero _ (make_room-empty df more large) in
          let before : (make_room df more).file ≡ bytes =
            sym (append-nil _)
            ∙ ap (λ (xs : Bytes). (make_room df more).file ++ xs) (sym empty)
            ∙ roomy.stored in
          rw large (record {
            stored =
                ap (λ (xs : Bytes). ((make_room df more).file ++ more) ++ xs) empty
                ∙ append-nil _
                ∙ ap (λ (xs : Bytes). xs ++ more) before;
            within = roomy.within;
          })
      | inr small ↦ rw small (record {
        stored =
            sym (append_assoc (make_room df more).file (make_room df more).pending more)
            ∙ ap (λ (xs : Bytes). xs ++ more) roomy.stored;
        within = make_room-room df more h.within small;
      })
    ]

-- A write that keeps the file below 2 ^ 62 bytes returns the number of bytes before, and adds its own
-- behind them.
pub write-Holds :
    (df : RealDataFile) (bytes more : Bytes)
    → Holds df bytes
    → length bytes + length more < 2 ^ 62
    → ((write df more).0 ≡ length bytes) × Holds (write df more).1 (bytes ++ more)
unfolding write
write-Holds df bytes more h room =
    let after =
      write_all-Stored df bytes more (record { stored = h.content; within = h.pending_fits }) in
    (
      h.offset_end,
      record {
        content = after.stored;
        offset_end = rw (h.offset_end, length-append bytes more) (omega arith);
        pending_fits = after.within;
        low = rw (length-append bytes more) room;
      },
    )

-- A read of bytes that were written returns them, wherever they are by then, and leaves the file
-- with the same bytes.
pub read-Holds :
    (df : RealDataFile) (front bytes more : Bytes)
    → Holds df (front ++ (bytes ++ more))
    → read df (length front) (length bytes) ≡ ok (bytes, flush df)
      × Holds (flush df) (front ++ (bytes ++ more))
unfolding read flush
read-Holds df front bytes more h =
    let split = length-append front (bytes ++ more) in
    let split' = length-append bytes more in
    (
      rw
          (
            h.content,
            read_at-Reads front more (length front)
                (read_n-Reads bytes (omega (arith, h.low, split, split'))) refl
                (omega (arith, h.low, split)),
          )
          refl,
      flush-Holds df _ h,
    )
