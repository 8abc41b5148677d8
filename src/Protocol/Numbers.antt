-- ===== src/Protocol/Numbers.antt =====
-- Round trips of the fixed-width numbers of data_output.rs and data_input.rs.
use scouter_server_rust.Common.{ℕ, ◌+◌, ◌*◌, ◌%◌, ◌^◌, ◌≡◌, ◌∙◌, arith, Bool, true, false, [], ◌∷◌}
use scouter_server_rust.Common.Bits.{bit_or-multiple}
use scouter_server_rust.Word.{
  IsByte, IsWord32, IsWord64, as_8, as_16, sign_extend, sign_extend32, to_be_bytes, shift_left,
  shift_right,
}
use scouter_server_rust.Word.Codec.{from_be_bytes-to_be_bytes}
use scouter_server_rust.Protocol.Output.{
  write_boolean, write_byte, write_short, write_int, write_int3, write_long, write_long5,
  write_float, write_double,
}
use scouter_server_rust.Protocol.Input.{
  read_boolean, read_byte, read_unsigned_byte, read_short, read_unsigned_short, read_int, read_int3,
  read_long, read_long5, read_float, read_double, int3_of, to_int3, long5_of, to_long5,
}
use scouter_server_rust.Protocol.Reads.{
  Reads, Reads-then, Reads-pure, Reads-lift, Reads-value, read_n-Reads,
}

pub read_boolean-Reads : (v : Bool) → Reads read_boolean (write_boolean v) v
unfolding read_boolean write_boolean
read_boolean-Reads true =
    Reads-then _ (read_n-Reads (1 ∷ []) (omega arith))
      (Reads-then _ (Reads-lift 1) (Reads-pure true))
read_boolean-Reads false =
    Reads-then _ (read_n-Reads (0 ∷ []) (omega arith))
      (Reads-then _ (Reads-lift 0) (Reads-pure false))

pub read_byte-Reads : (v : ℕ) → Reads read_byte (write_byte v) (as_8 v)
unfolding read_byte write_byte
read_byte-Reads v = Reads-then _ (read_n-Reads (as_8 v ∷ []) (omega arith)) (Reads-lift _)

pub read_unsigned_byte-Reads : (v : ℕ) → Reads read_unsigned_byte (write_byte v) (as_8 v)
unfolding read_unsigned_byte write_byte
read_unsigned_byte-Reads v = Reads-then _ (read_n-Reads (as_8 v ∷ []) (omega arith)) (Reads-lift _)

pub read_short-Reads : (v : ℕ) → Reads read_short (write_short v) (as_16 v)
unfolding read_short write_short
read_short-Reads v =
    Reads-then _ (read_n-Reads (to_be_bytes 2 (as_16 v)) (omega arith))
      (Reads-value (omega (arith, from_be_bytes-to_be_bytes 2 0 (as_16 v))) (Reads-pure _))

pub read_unsigned_short-Reads : (v : ℕ) → Reads read_unsigned_short (write_short v) (as_16 v)
unfolding read_unsigned_short write_short
read_unsigned_short-Reads v =
    Reads-then _ (read_n-Reads (to_be_bytes 2 (as_16 v)) (omega arith))
      (Reads-value (omega (arith, from_be_bytes-to_be_bytes 2 0 (as_16 v))) (Reads-pure _))

pub read_int-Reads : (v : ℕ) → IsWord32 v → Reads read_int (write_int v) v
unfolding read_int write_int
read_int-Reads v h =
    Reads-then _ (read_n-Reads (to_be_bytes 4 v) (omega arith))
      (Reads-value (omega (arith, from_be_bytes-to_be_bytes 4 0 v)) (Reads-pure _))

pub read_float-Reads : (v : ℕ) → IsWord32 v → Reads read_float (write_float v) v
unfolding read_float write_float
read_float-Reads v h =
    Reads-then _ (read_n-Reads (to_be_bytes 4 v) (omega arith))
      (Reads-value (omega (arith, from_be_bytes-to_be_bytes 4 0 v)) (Reads-pure _))

pub read_long-Reads : (v : ℕ) → IsWord64 v → Reads read_long (write_long v) v
unfolding read_long write_long
read_long-Reads v h =
    Reads-then _ (read_n-Reads (to_be_bytes 8 v) (omega arith))
      (Reads-value (omega (arith, from_be_bytes-to_be_bytes 8 0 v)) (Reads-pure _))

pub read_double-Reads : (v : ℕ) → IsWord64 v → Reads read_double (write_double v) v
unfolding read_double write_double
read_double-Reads v h =
    Reads-then _ (read_n-Reads (to_be_bytes 8 v) (omega arith))
      (Reads-value (omega (arith, from_be_bytes-to_be_bytes 8 0 v)) (Reads-pure _))

-- The three low bytes of a value give its low 24 bits, sign-extended.
int3_of_digits :
    (v : ℕ)
    → int3_of (as_8 (shift_right 32 v 16)) (as_8 (shift_right 32 v 8)) (as_8 v)
      ≡ sign_extend32 24 (v % 2 ^ 24)
unfolding int3_of
int3_of_digits v = ground arith

-- Reading a written int3 gives the low 24 bits of the i32, sign-extended.
pub read_int3-Reads : (v : ℕ) → Reads read_int3 (write_int3 v) (sign_extend32 24 (v % 2 ^ 24))
unfolding read_int3 write_int3 to_int3
read_int3-Reads v =
    Reads-then _ (read_n-Reads (write_int3 v) (omega arith))
      (Reads-value (int3_of_digits v) (Reads-lift _))

-- Each `|` joins disjoint bits.
pub long5_of-sum :
    (b0 b1 b2 b3 b4 : ℕ)
    → IsByte b0
    → IsByte b1
    → IsByte b2
    → IsByte b3
    → IsByte b4
    → long5_of b0 b1 b2 b3 b4
      ≡ sign_extend 40 (b0 * 2 ^ 32 + b1 * 2 ^ 24 + b2 * 2 ^ 16 + b3 * 2 ^ 8 + b4)
unfolding long5_of
long5_of-sum b0 b1 b2 b3 b4 h0 h1 h2 h3 h4 =
    let x0 = shift_left 64 (sign_extend 8 b0) 32 in
    let x1 = x0 + shift_left 64 b1 24 in
    let x2 = x1 + shift_left 64 b2 16 in
    let x3 = x2 + shift_left 64 b3 8 in
    ground (
      arith,
      bit_or-multiple 32 x0 (shift_left 64 b1 24),
      bit_or-multiple 24 x1 (shift_left 64 b2 16),
      bit_or-multiple 16 x2 (shift_left 64 b3 8),
      bit_or-multiple 8 x3 b4,
    )

pub long5_of_digits :
    (v : ℕ)
    → long5_of
        (as_8 (shift_right 64 v 32))
        (as_8 (shift_right 64 v 24))
        (as_8 (shift_right 64 v 16))
        (as_8 (shift_right 64 v 8))
        (as_8 v)
      ≡ sign_extend 40 (v % 2 ^ 40)
long5_of_digits v =
    long5_of-sum _ _ _ _ _ (omega arith) (omega arith) (omega arith) (omega arith) (omega arith)
    ∙ ground arith

-- Reading a written long5 gives the low 40 bits of the i64, sign-extended.
pub read_long5-Reads : (v : ℕ) → Reads read_long5 (write_long5 v) (sign_extend 40 (v % 2 ^ 40))
unfolding read_long5 write_long5 to_long5
read_long5-Reads v =
    Reads-then _ (read_n-Reads (write_long5 v) (omega arith))
      (Reads-value (long5_of_digits v) (Reads-lift _))
