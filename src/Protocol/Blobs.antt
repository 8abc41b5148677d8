-- ===== src/Protocol/Blobs.antt =====
-- Byte strings and texts: the three length forms of a blob, and the two fixed ones.
use scouter_server_rust.Common.{
  ℕ, ◌^◌, ◌<◌, ◌≤◌, ◌≡◌, arith, true, false, leb, ◌==◌, length, [], ◌∷◌,
}
use scouter_server_rust.Word.{Bytes, as_32, as_8}
use scouter_server_rust.Protocol.Utf8.{is_utf8}
use scouter_server_rust.Protocol.Output.{write_blob, write_text, write_int_bytes, write_short_bytes}
use scouter_server_rust.Protocol.Input.{
  read_n, read_blob_body, read_blob, read_text, from_utf8, read_int_bytes, read_short_bytes,
}
use scouter_server_rust.Protocol.Reads.{
  Reads, Reads-bind, Reads-then, Reads-pure, Reads-if, read_n-Reads,
}
use scouter_server_rust.Protocol.Numbers.{
  read_unsigned_byte-Reads, read_unsigned_short-Reads, read_int-Reads,
}

-- `read_n` at a count that is the length.
read_count : (n : ℕ) (bs : Bytes) → n ≡ length bs → length bs < 2 ^ 31 → Reads (read_n n) bs bs
read_count n bs e h = rw e (read_n-Reads bs (omega arith))

inline_form :
    (bs : Bytes) → 1 ≤ length bs → length bs ≤ 253 → Reads (read_blob_body (as_8 (length bs))) bs bs
unfolding read_blob_body
inline_form bs lo hi =
    let e0 : as_8 (length bs) == 0 ≡ false = ground arith in
    let e1 : as_8 (length bs) == 255 ≡ false = ground arith in
    let e2 : as_8 (length bs) == 254 ≡ false = ground arith in
    rw (e0, e1, e2) (read_count _ bs (omega arith) (omega arith))

-- Reading a written blob of less than 2 ^ 31 bytes gives it back and leaves what follows, whichever
-- form its length takes.
pub read_blob-write_blob : (bs : Bytes) → length bs < 2 ^ 31 → Reads read_blob (write_blob bs) bs
unfolding read_blob write_blob read_blob_body
read_blob-write_blob [] h = Reads-then _ (read_unsigned_byte-Reads 0) (Reads-pure [])
read_blob-write_blob (b ∷ bs) h =
    let n = length (b ∷ bs) in
    Reads-if (leb n 253)
      (λ e. Reads-bind _ (read_unsigned_byte-Reads n) (inline_form _ (omega arith) (ground arith)))
      λ _.
        Reads-if (leb n 65535)
          (λ e. Reads-bind _ (read_unsigned_byte-Reads 255) (
            Reads-bind _ (read_unsigned_short-Reads (as_32 n))
              (read_count _ (b ∷ bs) (ground arith) h)))
          λ _. Reads-bind _ (read_unsigned_byte-Reads 254) (
            Reads-bind _ (read_int-Reads (as_32 n) (omega arith))
              (read_count _ (b ∷ bs) (ground arith) h))

-- So is a text.
pub read_text-write_text :
    (s : Bytes) → is_utf8 s ≡ true → length s < 2 ^ 31 → Reads read_text (write_text s) s
unfolding read_text write_text from_utf8
read_text-write_text s valid h = Reads-then _ (read_blob-write_blob s h) (rw valid (Reads-pure s))

pub read_int_bytes-write_int_bytes :
    (bs : Bytes) → length bs < 2 ^ 31 → Reads read_int_bytes (write_int_bytes bs) bs
unfolding read_int_bytes write_int_bytes
read_int_bytes-write_int_bytes bs h =
    Reads-bind _ (read_int-Reads (as_32 (length bs)) (omega arith))
      (read_count _ bs (ground arith) h)

pub read_short_bytes-write_short_bytes :
    (bs : Bytes) → length bs < 2 ^ 16 → Reads read_short_bytes (write_short_bytes bs) bs
unfolding read_short_bytes write_short_bytes
read_short_bytes-write_short_bytes bs h =
    Reads-bind _ (read_unsigned_short-Reads (as_32 (length bs)))
      (read_count _ bs (omega arith) (omega arith))
