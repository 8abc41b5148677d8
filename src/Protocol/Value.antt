-- ===== src/Protocol/Value.antt =====
-- src/protocol/value/mod.rs: the values, and how they are written. A `HashMap` is the list of its
-- entries in iteration order, each key once; a new key goes to the end.
pub mod Read
pub mod Valid
pub mod Maps
pub mod RoundTrip
pub mod Total
use scouter_server_rust.Common.{
  ℕ, zero, suc, Bool, true, false, ◌&&◌, ◌||◌, Option, none, some, List, [], ◌∷◌, length, ◌==◌,
  if◌then◌else◌,
}
use scouter_server_rust.Word.{Bytes, as_32, sign_extend}
use scouter_server_rust.Protocol.Output.{
  ◌▷◌, write_boolean, write_byte, write_int, write_long, write_float, write_double, write_decimal,
  write_blob, write_text,
}

-- Numbers are bit patterns: i64 in `decimal`, f32 in `float`, f64 in `double`. Texts are UTF-8.
mutual
  pub data Value : Type 0 where
    null : Value
    boolean : Bool → Value
    decimal : ℕ → Value
    float : ℕ → Value
    double : ℕ → Value
    double_summary : (count sum min max : ℕ) → Value
    long_summary : (count sum min max : ℕ) → Value
    text : Bytes → Value
    text_hash : ℕ → Value
    blob : Bytes → Value
    ip4 : Bytes → Value
    values : Values → Value
    int_array : List ℕ → Value
    float_array : List ℕ → Value
    text_array : List Bytes → Value
    long_array : List ℕ → Value
    map : MapValue → Value

  -- `Vec<Value>`
  pub data Values : Type 0 where
    nil : Values
    cons : Value → Values → Values

  pub data MapValue : Type 0 where
    empty : MapValue
    entry : Bytes → Value → MapValue → MapValue

abbrev pub count_values : Values → ℕ
count_values nil = 0
count_values (cons v vs) = suc (count_values vs)

-- `size`
abbrev pub size : MapValue → ℕ
size empty = 0
size (entry k v m) = suc (size m)

abbrev pub bytes_eq : Bytes → Bytes → Bool
bytes_eq [] [] = true
bytes_eq [] (y ∷ ys) = false
bytes_eq (x ∷ xs) [] = false
bytes_eq (x ∷ xs) (y ∷ ys) = x == y && bytes_eq xs ys

unfoldable pub put : Bytes → Value → MapValue → MapValue
put k v empty = entry k v empty
put k v (entry j w m) = if bytes_eq j k then entry j v m else entry j w (put k v m)

unfoldable pub get : Bytes → MapValue → Option Value
get k empty = none
get k (entry j w m) = if bytes_eq j k then some w else get k m

unfoldable pub get_text : Bytes → MapValue → Option Bytes
get_text k m = elim (get k m) [ some (text s) ↦ some s | _ ↦ none ]

unfoldable pub type_code : Value → ℕ
type_code null = 0
type_code (boolean v) = 10
type_code (decimal v) = 20
type_code (float v) = 30
type_code (double v) = 40
type_code (double_summary count sum min max) = 45
type_code (long_summary count sum min max) = 46
type_code (text v) = 50
type_code (text_hash v) = 51
type_code (blob v) = 60
type_code (ip4 v) = 61
type_code (values v) = 70
type_code (int_array v) = 71
type_code (float_array v) = 72
type_code (text_array v) = 73
type_code (long_array v) = 74
type_code (map v) = 80

-- `for v in arr { … }`
unfoldable pub write_each : {A : Type 0} → (A → Bytes) → List A → Bytes
write_each write_one [] = []
write_each write_one (x ∷ xs) = write_one x ▷ write_each write_one xs

-- `write_value`, over the bytes that `write` gives for the value.
unfoldable pub with_code : Value → Bytes → Bytes
with_code v body = write_byte (type_code v) ▷ body

-- `*v as i64` from i32, written as a decimal.
unfoldable pub write_i32 : ℕ → Bytes
write_i32 v = write_decimal (sign_extend 32 v)

unfoldable mutual
  pub write : Value → Bytes
  write null = []
  write (boolean v) = write_boolean v
  write (decimal v) = write_decimal v
  write (float v) = write_float v
  write (double v) = write_double v
  write (double_summary count sum min max) =
      write_int count ▷ write_double sum ▷ write_double min ▷ write_double max
  write (long_summary count sum min max) =
      write_int count ▷ write_long sum ▷ write_long min ▷ write_long max
  write (text v) = write_text v
  write (text_hash v) = write_int v
  write (blob v) = write_blob v
  write (ip4 v) = write_blob v
  write (values vs) = write_decimal (count_values vs) ▷ write_values vs
  write (int_array arr) = write_decimal (length arr) ▷ write_each write_i32 arr
  write (float_array arr) = write_decimal (length arr) ▷ write_each write_float arr
  write (text_array arr) = write_decimal (length arr) ▷ write_each write_text arr
  write (long_array arr) = write_decimal (length arr) ▷ write_each write_decimal arr
  write (map m) = write_decimal (size m) ▷ write_entries m

  pub write_values : Values → Bytes
  write_values nil = []
  write_values (cons v vs) = with_code v (write v) ▷ write_values vs

  pub write_entries : MapValue → Bytes
  write_entries empty = []
  write_entries (entry k v m) = write_text k ▷ with_code v (write v) ▷ write_entries m

unfoldable pub write_value : Value → Bytes
write_value v = with_code v (write v)

unfoldable pub as_map_value : Value → Option MapValue
as_map_value (map m) = some m
as_map_value _ = none

-- `into_map_value().unwrap_or_default()`
unfoldable pub into_map_or_default : Value → MapValue
into_map_or_default (map m) = m
into_map_or_default _ = empty
