-- ===== src/Protocol/Decimal.antt =====
-- The variable-length decimal of data_output.rs and data_input.rs.
use scouter_server_rust.Common.{ℕ, ◌≡◌, arith, true, ◌==◌, []}
use scouter_server_rust.Word.{IsWord64, as_32}
use scouter_server_rust.Protocol.Output.{
  write_byte, write_short, write_int3, write_int, write_long5, write_long, write_decimal, within,
  int3_min, int3_max, long5_min, long5_max,
}
use scouter_server_rust.Protocol.Input.{read_digits, read_decimal}
use scouter_server_rust.Protocol.Reads.{
  Reads, Reads-bind, Reads-then, Reads-pure, Reads-value, Reads-if,
}
use scouter_server_rust.Protocol.Numbers.{
  read_byte-Reads, read_short-Reads, read_int3-Reads, read_int-Reads, read_long5-Reads,
  read_long-Reads,
}

-- `read_digits` undoes each of the seven forms on the values for which `write_decimal` picks it.
module _ (v : ℕ) (word : IsWord64 v) where
  byte_form :
      within 0xffffffffffffff80 0x7f v ≡ true → Reads (read_digits 1) (write_byte (as_32 v)) v
  unfolding read_digits
  byte_form h = Reads-then _ (read_byte-Reads (as_32 v)) (Reads-value (ground arith) (Reads-pure _))

  short_form :
      within 0xffffffffffff8000 0x7fff v ≡ true → Reads (read_digits 2) (write_short (as_32 v)) v
  unfolding read_digits
  short_form h =
      Reads-then _ (read_short-Reads (as_32 v)) (Reads-value (ground arith) (Reads-pure _))

  int3_form : within int3_min int3_max v ≡ true → Reads (read_digits 3) (write_int3 (as_32 v)) v
  unfolding read_digits
  int3_form h = Reads-then _ (read_int3-Reads (as_32 v)) (Reads-value (ground arith) (Reads-pure _))

  int_form :
      within 0xffffffff80000000 0x7fffffff v ≡ true → Reads (read_digits 4) (write_int (as_32 v)) v
  unfolding read_digits
  int_form h =
      Reads-then _ (read_int-Reads (as_32 v) (omega arith))
        (Reads-value (ground arith) (Reads-pure _))

  long5_form : within long5_min long5_max v ≡ true → Reads (read_digits 5) (write_long5 v) v
  unfolding read_digits
  long5_form h = Reads-value (ground arith) (read_long5-Reads v)

  zero_form : v == 0 ≡ true → Reads (read_digits 0) [] v
  unfolding read_digits
  zero_form e = Reads-value (ground arith) (Reads-pure 0)

  long_form : Reads (read_digits 8) (write_long v) v
  unfolding read_digits
  long_form = read_long-Reads v word

-- Reading a written decimal gives the value back and leaves what follows, for every i64.
pub read_decimal-write_decimal : (v : ℕ) → IsWord64 v → Reads read_decimal (write_decimal v) v
unfolding read_decimal write_decimal
read_decimal-write_decimal v word =
    Reads-if (v == 0) (λ e. Reads-then _ (read_byte-Reads 0) (zero_form v word e))
      λ _.
        Reads-if _ (λ h. Reads-bind _ (read_byte-Reads 1) (byte_form v word h))
          λ _.
            Reads-if _ (λ h. Reads-bind _ (read_byte-Reads 2) (short_form v word h))
              λ _.
                Reads-if _ (λ h. Reads-bind _ (read_byte-Reads 3) (int3_form v word h))
                  λ _.
                    Reads-if _ (λ h. Reads-bind _ (read_byte-Reads 4) (int_form v word h))
                      λ _.
                        Reads-if _ (λ h. Reads-bind _ (read_byte-Reads 5) (long5_form v word h))
                          λ _. Reads-bind _ (read_byte-Reads 8) (long_form v word)
