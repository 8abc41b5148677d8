-- ===== src/Word.antt =====
-- Machine integers as bit patterns: a value of a w-bit type, signed or not, is the number below
-- 2 ^ w of its two's complement pattern. The casts, shifts and comparisons below are those of Rust.
pub mod Codec
use scouter_server_rust.Common.{
  ℕ, zero, suc, ◌+◌, ◌-◌, ◌*◌, ◌/◌, ◌%◌, ◌^◌, ◌<◌, Bool, List, [], ◌∷◌, All, ltb, leb,
  if◌then◌else◌,
}

abbrev pub Bytes : Type 0
Bytes = List ℕ

abbrev pub IsByte : ℕ → Type 0
IsByte b = b < 2 ^ 8

abbrev pub AreBytes : Bytes → Type 0
AreBytes bs = All IsByte bs

abbrev pub IsWord16 : ℕ → Type 0
IsWord16 v = v < 2 ^ 16

abbrev pub IsWord32 : ℕ → Type 0
IsWord32 v = v < 2 ^ 32

abbrev pub IsWord64 : ℕ → Type 0
IsWord64 v = v < 2 ^ 64

-- `v as i8`, `v as u8`; `as i16`, `as u16`; `as i32`, `as u32`: the low bits.
abbrev pub as_8 : ℕ → ℕ
as_8 v = v % 2 ^ 8

abbrev pub as_16 : ℕ → ℕ
as_16 v = v % 2 ^ 16

abbrev pub as_32 : ℕ → ℕ
as_32 v = v % 2 ^ 32

-- `v as i64` (or `as usize`) from a signed type of w bits: sign extension.
abbrev pub sign_extend : ℕ → ℕ → ℕ
sign_extend w v = if ltb v (2 ^ (w - 1)) then v else v + (2 ^ 64 - 2 ^ w)

-- `v as i32` from a signed type of w bits.
abbrev pub sign_extend32 : ℕ → ℕ → ℕ
sign_extend32 w v = if ltb v (2 ^ (w - 1)) then v else v + (2 ^ 32 - 2 ^ w)

-- `v >> k` on a signed type of w bits.
abbrev pub shift_right : ℕ → ℕ → ℕ → ℕ
shift_right w v k = if ltb v (2 ^ (w - 1)) then v / 2 ^ k else v / 2 ^ k + (2 ^ w - 2 ^ (w - k))

-- `v << k` on a type of w bits.
abbrev pub shift_left : ℕ → ℕ → ℕ → ℕ
shift_left w v k = v * 2 ^ k % 2 ^ w

-- `a <= b` on i64: the order of the patterns with the top bit flipped.
abbrev pub signed_leb : ℕ → ℕ → Bool
signed_leb a b = leb ((a + 2 ^ 63) % 2 ^ 64) ((b + 2 ^ 63) % 2 ^ 64)

-- `a < b` on i64.
abbrev pub signed_ltb : ℕ → ℕ → Bool
signed_ltb a b = ltb ((a + 2 ^ 63) % 2 ^ 64) ((b + 2 ^ 63) % 2 ^ 64)

-- `v.to_be_bytes()` on a type of n bytes.
abbrev pub to_be_bytes : ℕ → ℕ → Bytes
to_be_bytes zero v = []
to_be_bytes (suc n) v = v / 256 ^ n % 256 ∷ to_be_bytes n v

-- `from_be_bytes`, from the digits read so far.
abbrev pub from_be_bytes : ℕ → Bytes → ℕ
from_be_bytes acc [] = acc
from_be_bytes acc (b ∷ bs) = from_be_bytes (acc * 256 + b) bs

-- `v / k` and `v % k` on a signed type of w bits, for a positive k: towards zero.
abbrev pub signed_div : ℕ → ℕ → ℕ → ℕ
signed_div w v k = if ltb v (2 ^ (w - 1)) then v / k else (2 ^ w - (2 ^ w - v) / k) % 2 ^ w

abbrev pub signed_rem : ℕ → ℕ → ℕ → ℕ
signed_rem w v k = if ltb v (2 ^ (w - 1)) then v % k else (2 ^ w - (2 ^ w - v) % k) % 2 ^ w
