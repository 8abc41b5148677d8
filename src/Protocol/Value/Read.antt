-- ===== src/Protocol/Value/Read.antt =====
-- `Value::read` and `read_value`. Reading nests as deep as the value does, so the reader takes fuel;
-- every level costs a byte of the input, and `read_value` gives one unit more than there are bytes.
use scouter_server_rust.Common.{ℕ, zero, suc, ◌*◌, ◌==◌, List, [], ◌∷◌, length, ltb, if◌then◌else◌}
use scouter_server_rust.Word.{as_32}
use scouter_server_rust.Outcome.{Outcome, ok, panic, out_of_fuel, unknown_value_type}
use scouter_server_rust.Protocol.Input.{
  Reader, ◌>>=◌, pure, fail, lift, isize_max, read_boolean, read_unsigned_byte, read_int, read_long,
  read_float, read_double, read_decimal, read_blob, read_text,
}
use scouter_server_rust.Protocol.Value.{
  Value, Values, MapValue, null, boolean, decimal, float, double, double_summary, long_summary,
  text, text_hash, blob, ip4, values, int_array, float_array, text_array, long_array, map, nil,
  cons, empty, put,
}

-- `Vec::with_capacity(count)` for elements of `width` bytes.
unfoldable pub with_capacity : ℕ → ℕ → Outcome (Unit {0})
with_capacity width count = if ltb isize_max (width * count) then panic else ok tt

-- `for _ in 0..count { arr.push(read_one()?) }`
unfoldable pub read_each : {A : Type 0} → Reader A → ℕ → Reader (List A)
read_each read_one zero = pure []
read_each read_one (suc n) = do x ← read_one; xs ← read_each read_one n; pure (x ∷ xs)

unfoldable pub read_i32 : Reader ℕ
read_i32 = do v ← read_decimal; pure (as_32 v)

unfoldable pub read_values : Reader Value → ℕ → Reader Values
read_values read_one zero = pure nil
read_values read_one (suc n) = do v ← read_one; vs ← read_values read_one n; pure (cons v vs)

unfoldable pub read_entries : Reader Value → ℕ → MapValue → Reader MapValue
read_entries read_one zero table = pure table
read_entries read_one (suc n) table = do
  key ← read_text
  value ← read_one
  read_entries read_one n (put key value table)

-- An array behind its count.
unfoldable pub read_array : {A : Type 0} → ℕ → Reader A → (List A → Value) → Reader Value
read_array width read_one wrap = do
  count ← read_decimal
  _ ← lift (with_capacity width count)
  arr ← read_each read_one count
  pure (wrap arr)

unfoldable pub read_map : Reader Value → Reader Value
read_map read_one = do count ← read_decimal; m ← read_entries read_one count empty; pure (map m)

unfoldable pub read_double_summary : Reader Value
read_double_summary = do
  count ← read_int
  sum ← read_double
  min ← read_double
  max ← read_double
  pure (double_summary count sum min max)

unfoldable pub read_long_summary : Reader Value
read_long_summary = do
  count ← read_int
  sum ← read_long
  min ← read_long
  max ← read_long
  pure (long_summary count sum min max)

-- The layout of `Value` is the compiler's choice: `value_size` is its size in bytes.
module _ (value_size : ℕ) where
  unfoldable pub read_list : Reader Value → Reader Value
  read_list read_one = do
    count ← read_decimal
    _ ← lift (with_capacity value_size count)
    vs ← read_values read_one count
    pure (values vs)

  -- `Value::read`, where `read_one` is `din.read_value()`.
  unfoldable pub read : Reader Value → ℕ → Reader Value
  read read_one code =
      if code == 0
      then pure null
      else if code == 10
      then (do v ← read_boolean; pure (boolean v))
      else if code == 20
      then (do v ← read_decimal; pure (decimal v))
      else if code == 30
      then (do v ← read_float; pure (float v))
      else if code == 40
      then (do v ← read_double; pure (double v))
      else if code == 45
      then read_double_summary
      else if code == 46
      then read_long_summary
      else if code == 50
      then (do v ← read_text; pure (text v))
      else if code == 51
      then (do v ← read_int; pure (text_hash v))
      else if code == 60
      then (do v ← read_blob; pure (blob v))
      else if code == 61
      then (do v ← read_blob; pure (ip4 v))
      else if code == 70
      then read_list read_one
      else if code == 71
      then read_array 4 read_i32 int_array
      else if code == 72
      then read_array 4 read_float float_array
      else if code == 73
      then read_array 24 read_text text_array
      else if code == 74
      then read_array 8 read_decimal long_array
      else if code == 80
      then read_map read_one
      else fail (unknown_value_type code)

  unfoldable pub read_value_within : ℕ → Reader Value
  read_value_within zero = lift out_of_fuel
  read_value_within (suc fuel) = do code ← read_unsigned_byte; read (read_value_within fuel) code

  unfoldable pub read_value : Reader Value
  read_value din = read_value_within (suc (length din.inner)) din
