-- ===== src/Protocol/Output.antt =====
-- src/protocol/data_output.rs. `DataOutputX` holds a vector that the write methods only extend, and
-- none of them fails: each is modelled by the bytes that it appends, and a sequence of them by `▷`.
use scouter_server_rust.Common.{
  ℕ, Bool, ◌&&◌, Option, none, some, [], ◌∷◌, ◌++◌, length, leb, ◌==◌, if◌then◌else◌,
}
use scouter_server_rust.Word.{Bytes, as_8, as_16, as_32, shift_right, signed_leb, to_be_bytes}

infixr 66 ◌▷◌
abbrev pub ◌▷◌ : Bytes → Bytes → Bytes
xs ▷ ys = xs ++ ys

abbrev pub int3_min : ℕ
int3_min = 0xffffffffff800000

abbrev pub int3_max : ℕ
int3_max = 0x007fffff

abbrev pub long5_min : ℕ
long5_min = 0xffffff8000000000

abbrev pub long5_max : ℕ
long5_max = 0x0000007fffffffff

-- `lo <= v && v <= hi` on i64.
abbrev pub within : ℕ → ℕ → ℕ → Bool
within lo hi v = signed_leb lo v && signed_leb v hi

unfoldable pub write_boolean : Bool → Bytes
write_boolean v = (if v then 1 else 0) ∷ []

unfoldable pub write_byte : ℕ → Bytes
write_byte v = as_8 v ∷ []

unfoldable pub write_short : ℕ → Bytes
write_short v = to_be_bytes 2 (as_16 v)

unfoldable pub write_int : ℕ → Bytes
write_int v = to_be_bytes 4 v

-- `((v >> 16) & 0xFF) as u8` and so on.
unfoldable pub write_int3 : ℕ → Bytes
write_int3 v = as_8 (shift_right 32 v 16) ∷ as_8 (shift_right 32 v 8) ∷ as_8 v ∷ []

unfoldable pub write_long : ℕ → Bytes
write_long v = to_be_bytes 8 v

unfoldable pub write_long5 : ℕ → Bytes
write_long5 v =
    as_8 (shift_right 64 v 32)
    ∷ as_8 (shift_right 64 v 24)
    ∷ as_8 (shift_right 64 v 16)
    ∷ as_8 (shift_right 64 v 8)
    ∷ as_8 v
    ∷ []

-- A float is its bit pattern, which is what `to_be_bytes` writes.
unfoldable pub write_float : ℕ → Bytes
write_float v = to_be_bytes 4 v

unfoldable pub write_double : ℕ → Bytes
write_double v = to_be_bytes 8 v

-- The shortest of the lengths 0, 1, 2, 3, 4, 5 and 8 that holds the value, and that many bytes.
unfoldable pub write_decimal : ℕ → Bytes
write_decimal v =
    if v == 0
    then write_byte 0
    else if within 0xffffffffffffff80 0x7f v
    then write_byte 1 ▷ write_byte (as_32 v)
    else if within 0xffffffffffff8000 0x7fff v
    then write_byte 2 ▷ write_short (as_32 v)
    else if within int3_min int3_max v
    then write_byte 3 ▷ write_int3 (as_32 v)
    else if within 0xffffffff80000000 0x7fffffff v
    then write_byte 4 ▷ write_int (as_32 v)
    else if within long5_min long5_max v
    then write_byte 5 ▷ write_long5 v
    else write_byte 8 ▷ write_long v

unfoldable pub write_blob : Bytes → Bytes
write_blob [] = write_byte 0
write_blob (b ∷ bs) =
    let value = b ∷ bs in
    let len = length value in
    if leb len 253
    then write_byte len ▷ value
    else if leb len 65535
    then write_byte 255 ▷ write_short (as_32 len) ▷ value
    else write_byte 254 ▷ write_int (as_32 len) ▷ value

-- A `String` is its UTF-8 bytes.
unfoldable pub write_text : Bytes → Bytes
write_text s = write_blob s

unfoldable pub write_text_opt : Option Bytes → Bytes
write_text_opt (some text) = write_text text
write_text_opt none = write_byte 0

unfoldable pub write_int_bytes : Bytes → Bytes
write_int_bytes b = write_int (as_32 (length b)) ▷ b

unfoldable pub write_short_bytes : Bytes → Bytes
write_short_bytes b = write_short (as_32 (length b)) ▷ b

-- The free functions of the file.
unfoldable pub to_bytes5 : ℕ → Bytes
to_bytes5 v =
    as_8 (shift_right 64 v 32)
    ∷ as_8 (shift_right 64 v 24)
    ∷ as_8 (shift_right 64 v 16)
    ∷ as_8 (shift_right 64 v 8)
    ∷ as_8 v
    ∷ []

unfoldable pub to_bytes_long : ℕ → Bytes
to_bytes_long v = to_be_bytes 8 v

unfoldable to_bytes_short : ℕ → Bytes
to_bytes_short v = to_be_bytes 2 v

unfoldable to_bytes_int : ℕ → Bytes
to_bytes_int v = to_be_bytes 4 v

unfoldable to_bytes3 : ℕ → Bytes
to_bytes3 v = as_8 (shift_right 32 v 16) ∷ as_8 (shift_right 32 v 8) ∷ as_8 v ∷ []

unfoldable pub write_raw : Bytes → Bytes
write_raw b = b
