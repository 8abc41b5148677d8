-- ===== src/Protocol/Input.antt =====
-- src/protocol/data_input.rs. The reader keeps the bytes that it has not read yet and counts those
-- that it has. A `Vec` of more than isize::MAX bytes panics; a smaller one is taken to be allocated.
use scouter_server_rust.Common.{
  ℕ, ◌+◌, ◌-◌, ◌^◌, ◌≡◌, refl, Bool, [], ◌∷◌, not, length, take, drop, bit_or, ltb, ◌==◌,
  if◌then◌else◌,
}
use scouter_server_rust.Outcome.{Outcome, ok, err, panic, unexpected_eof, invalid_data, index}
use scouter_server_rust.Outcome as Outcome
use scouter_server_rust.Word.{Bytes, as_32, sign_extend, shift_left, shift_right, from_be_bytes}
use scouter_server_rust.Protocol.Utf8.{is_utf8}

pub record DataInputX : Type 0 where
  pub inner : Bytes
  pub offset : ℕ

abbrev pub Reader : Type 0 → Type 0
Reader A = DataInputX → Outcome (A × DataInputX)

infixl 5 ◌>>=◌
unfoldable pub ◌>>=◌ : {A B : Type 0} → Reader A → (A → Reader B) → Reader B
◌>>=◌ m f din = Outcome.◌>>=◌ (m din) λ (a, rest). f a rest

unfoldable pub pure : {A : Type 0} → A → Reader A
pure a din = ok (a, din)

unfoldable pub fail : {A : Type 0} → Outcome.Error → Reader A
fail e din = err e

-- A computation that does not read.
unfoldable pub lift : {A : Type 0} → Outcome A → Reader A
lift o din = Outcome.◌>>=◌ o λ a. ok (a, din)

abbrev pub isize_max : ℕ
isize_max = 0x7fff_ffff_ffff_ffff

unfoldable pub from_bytes : Bytes → DataInputX
from_bytes buf = record { inner = buf; offset = 0 }

unfoldable pub available : DataInputX → ℕ
available din = length din.inner

-- `vec![0u8; len]` and `read_exact`: all of the bytes, or an error.
unfoldable pub read_n : ℕ → Reader Bytes
read_n len din =
    if ltb isize_max len
    then panic
    else if ltb (length din.inner) len
    then err unexpected_eof
    else ok (take len din.inner, record { inner = drop len din.inner; offset = din.offset + len })

unfoldable pub read_boolean : Reader Bool
read_boolean = do buf ← read_n 1; b ← lift (index buf 0); pure (not (b == 0))

unfoldable pub read_byte : Reader ℕ
read_byte = do buf ← read_n 1; lift (index buf 0)

unfoldable pub read_unsigned_byte : Reader ℕ
read_unsigned_byte = do buf ← read_n 1; lift (index buf 0)

unfoldable pub read_short : Reader ℕ
read_short = do buf ← read_n 2; pure (from_be_bytes 0 buf)

unfoldable pub read_unsigned_short : Reader ℕ
read_unsigned_short = do buf ← read_n 2; pure (from_be_bytes 0 buf)

unfoldable pub read_int : Reader ℕ
read_int = do buf ← read_n 4; pure (from_be_bytes 0 buf)

unfoldable pub read_long : Reader ℕ
read_long = do buf ← read_n 8; pure (from_be_bytes 0 buf)

unfoldable pub read_float : Reader ℕ
read_float = do buf ← read_n 4; pure (from_be_bytes 0 buf)

unfoldable pub read_double : Reader ℕ
read_double = do buf ← read_n 8; pure (from_be_bytes 0 buf)

-- The three bytes fill the top of a u32, and the arithmetic shift brings them down with their sign.
unfoldable pub int3_of : ℕ → ℕ → ℕ → ℕ
int3_of b0 b1 b2 =
    shift_right 32 (as_32 (shift_left 32 b0 24 + shift_left 32 b1 16 + shift_left 32 b2 8)) 8

unfoldable pub to_int3 : Bytes → ℕ → Outcome ℕ
to_int3 buf pos = Outcome.◌>>=◌ (index buf pos) λ b0.
    Outcome.◌>>=◌ (index buf (pos + 1))
      λ b1. Outcome.◌>>=◌ (index buf (pos + 2)) λ b2. ok (int3_of b0 b1 b2)

-- `|` of the shifted bytes, the first of them sign-extended.
unfoldable pub long5_of : ℕ → ℕ → ℕ → ℕ → ℕ → ℕ
long5_of b0 b1 b2 b3 b4 =
    bit_or
      (bit_or
        (bit_or (bit_or (shift_left 64 (sign_extend 8 b0) 32) (shift_left 64 b1 24))
          (shift_left 64 b2 16))
        (shift_left 64 b3 8))
      b4

unfoldable pub to_long5 : Bytes → ℕ → Outcome ℕ
to_long5 buf pos = Outcome.◌>>=◌ (index buf pos) λ b0. Outcome.◌>>=◌ (index buf (pos + 1)) λ b1.
    Outcome.◌>>=◌ (index buf (pos + 2)) λ b2.
      Outcome.◌>>=◌ (index buf (pos + 3))
        λ b3. Outcome.◌>>=◌ (index buf (pos + 4)) λ b4. ok (long5_of b0 b1 b2 b3 b4)

unfoldable pub read_int3 : Reader ℕ
read_int3 = do buf ← read_n 3; lift (to_int3 buf 0)

unfoldable pub read_long5 : Reader ℕ
read_long5 = do buf ← read_n 5; lift (to_long5 buf 0)

-- The digits of a decimal that are announced by its length byte.
unfoldable pub read_digits : ℕ → Reader ℕ
read_digits len =
    if len == 0
    then pure 0
    else if len == 1
    then (do v ← read_byte; pure (sign_extend 8 v))
    else if len == 2
    then (do v ← read_short; pure (sign_extend 16 v))
    else if len == 3
    then (do v ← read_int3; pure (sign_extend 32 v))
    else if len == 4
    then (do v ← read_int; pure (sign_extend 32 v))
    else if len == 5
    then read_long5
    else read_long

unfoldable pub read_decimal : Reader ℕ
read_decimal = do len ← read_byte; read_digits len

-- The bytes of a blob behind its first length byte.
unfoldable pub read_blob_body : ℕ → Reader Bytes
read_blob_body base_len =
    if base_len == 0
    then pure []
    else if base_len == 255
    then (do len ← read_unsigned_short; read_n len)
    else if base_len == 254
    then (do len ← read_int; read_n (sign_extend 32 len))
    else read_n base_len

unfoldable pub read_blob : Reader Bytes
read_blob = do base_len ← read_unsigned_byte; read_blob_body base_len

unfoldable pub from_utf8 : Bytes → Reader Bytes
from_utf8 buf = if is_utf8 buf then pure buf else fail invalid_data

unfoldable pub read_text : Reader Bytes
read_text = do buf ← read_blob; from_utf8 buf

unfoldable pub read_int_bytes : Reader Bytes
read_int_bytes = do len ← read_int; read_n (sign_extend 32 len)

unfoldable pub read_short_bytes : Reader Bytes
read_short_bytes = do len ← read_unsigned_short; read_n len

-- A buffer of the caller's: its length, and what it is filled with.
unfoldable read_fully : ℕ → Reader Bytes
read_fully len din =
    if ltb (length din.inner) len
    then err unexpected_eof
    else ok (take len din.inner, record { inner = drop len din.inner; offset = din.offset + len })

unfoldable skip_bytes : ℕ → Reader (Unit {0})
skip_bytes n = do _ ← read_n n; pure tt

-- The conversions at a position of a buffer.
unfoldable to_short : Bytes → ℕ → Outcome ℕ
to_short buf pos =
    Outcome.◌>>=◌ (index buf pos)
      λ b0. Outcome.◌>>=◌ (index buf (pos + 1)) λ b1. ok (shift_left 16 b0 8 + b1)

unfoldable to_int : Bytes → ℕ → Outcome ℕ
to_int buf pos = Outcome.◌>>=◌ (index buf pos) λ b0. Outcome.◌>>=◌ (index buf (pos + 1)) λ b1.
    Outcome.◌>>=◌ (index buf (pos + 2)) λ b2.
      Outcome.◌>>=◌ (index buf (pos + 3))
        λ b3. ok (as_32 (shift_left 32 b0 24 + shift_left 32 b1 16 + shift_left 32 b2 8 + b3))

-- `|` of the shifted bytes; a byte that is shifted by 56 leaves no sign to extend.
unfoldable long_of : (b0 b1 b2 b3 b4 b5 b6 b7 : ℕ) → ℕ
long_of b0 b1 b2 b3 b4 b5 b6 b7 =
    bit_or
      (bit_or
        (bit_or
          (bit_or
            (bit_or
              (bit_or (bit_or (shift_left 64 (sign_extend 8 b0) 56) (shift_left 64 b1 48))
                (shift_left 64 b2 40))
              (shift_left 64 b3 32))
            (shift_left 64 b4 24))
          (shift_left 64 b5 16))
        (shift_left 64 b6 8))
      b7

unfoldable to_long : Bytes → ℕ → Outcome ℕ
unfolding long_of
to_long buf pos = Outcome.◌>>=◌ (index buf pos) λ b0. Outcome.◌>>=◌ (index buf (pos + 1)) λ b1.
    Outcome.◌>>=◌ (index buf (pos + 2)) λ b2. Outcome.◌>>=◌ (index buf (pos + 3)) λ b3.
      Outcome.◌>>=◌ (index buf (pos + 4)) λ b4. Outcome.◌>>=◌ (index buf (pos + 5)) λ b5.
        Outcome.◌>>=◌ (index buf (pos + 6))
          λ b6. Outcome.◌>>=◌ (index buf (pos + 7)) λ b7. ok (long_of b0 b1 b2 b3 b4 b5 b6 b7)

-- At the bytes of -2.
minus_two : to_long (255 ∷ 255 ∷ 255 ∷ 255 ∷ 255 ∷ 255 ∷ 255 ∷ 254 ∷ []) 0 ≡ ok (2 ^ 64 - 2)
unfolding to_long long_of
minus_two = refl

minus_two_int : to_int (255 ∷ 255 ∷ 255 ∷ 254 ∷ []) 0 ≡ ok (2 ^ 32 - 2)
unfolding to_int
minus_two_int = refl
