-- ===== src/Word/Codec.antt =====
-- Big-endian digits: what `from_be_bytes` makes of `to_be_bytes`.
use scouter_server_rust.Common.{ℕ, zero, suc, ◌+◌, ◌*◌, ◌/◌, ◌%◌, ◌^◌, ◌≡◌, refl, ap, arith, length}
use scouter_server_rust.Word.{AreBytes, to_be_bytes, from_be_bytes}
use native.Mathlib.Nat.{pow-suc, div-add-mod, div-div-eq-div-mul}

pub length-to_be_bytes : (n v : ℕ) → length (to_be_bytes n v) ≡ n
length-to_be_bytes zero v = refl
length-to_be_bytes (suc n) v = ap suc (length-to_be_bytes n v)

pub to_be_bytes-AreBytes : (n v : ℕ) → AreBytes (to_be_bytes n v)
to_be_bytes-AreBytes zero v = tt
to_be_bytes-AreBytes (suc n) v = (omega arith, to_be_bytes-AreBytes n v)

-- The remainder by one more digit.
mod_digit : (p v : ℕ) → v % (p * 256) ≡ v / p % 256 * p + v % p
mod_digit p v = omega (
  arith,
  div-add-mod v (p * 256),
  ap (λ (t : ℕ). p * 256 * t) (div-div-eq-div-mul v p 256),
  div-add-mod v p,
  ap (λ (t : ℕ). p * t) (div-add-mod (v / p) 256),
)

pub from_be_bytes-to_be_bytes :
    (n acc v : ℕ) → from_be_bytes acc (to_be_bytes n v) ≡ acc * 256 ^ n + v % 256 ^ n
from_be_bytes-to_be_bytes zero acc v = omega arith
from_be_bytes-to_be_bytes (suc n) acc v = omega (
  arith,
  from_be_bytes-to_be_bytes n (acc * 256 + v / 256 ^ n % 256) v,
  ap (λ (t : ℕ). acc * t) (pow-suc 256 n),
  ap (λ (t : ℕ). v % t) (pow-suc 256 n),
  mod_digit (256 ^ n) v,
)
