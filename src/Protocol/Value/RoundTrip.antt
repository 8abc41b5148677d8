-- ===== src/Protocol/Value/RoundTrip.antt =====
-- A written value is read back.
use scouter_server_rust.Common.{
  ℕ, zero, suc, ◌*◌, ◌≤◌, ◌≡◌, refl, arith, false, List, [], ◌∷◌, ◌++◌, length, All, length-append,
  ltb,
}
use scouter_server_rust.Word.{Bytes, IsWord32, IsWord64, as_8}
use scouter_server_rust.Protocol.Output.{◌▷◌, write_byte, write_decimal}
use scouter_server_rust.Protocol.Input.{Reader, lift, isize_max}
use scouter_server_rust.Protocol.Reads.{
  Reads, Reads-bind, Reads-then, Reads-pure, Reads-lift, Reads-value,
}
use scouter_server_rust.Protocol.Numbers.{
  read_boolean-Reads, read_unsigned_byte-Reads, read_int-Reads, read_long-Reads, read_float-Reads,
  read_double-Reads,
}
use scouter_server_rust.Protocol.Decimal.{read_decimal-write_decimal}
use scouter_server_rust.Protocol.Blobs.{read_blob-write_blob, read_text-write_text}
use scouter_server_rust.Protocol.Value.{
  Value, Values, MapValue, null, boolean, decimal, float, double, double_summary, long_summary,
  text, text_hash, blob, ip4, values, int_array, float_array, text_array, long_array, map, nil,
  cons, empty, entry, count_values, size, put, type_code, write_each, with_code, write_i32, write,
  write_values, write_entries, write_value,
}
use scouter_server_rust.Protocol.Value.Read.{
  with_capacity, read_each, read_i32, read_values, read_entries, read_array, read_list, read_map,
  read_double_summary, read_long_summary, read, read_value_within, read_value,
}
use scouter_server_rust.Protocol.Value.Maps.{
  append_entries, append_entries-empty, put-new, Apart, Apart-put, Apart-empty,
}
use scouter_server_rust.Protocol.Value.Valid.{
  IsValid, AreValid, IsValidMap, FitsVec, IsText, depth, depth_values, depth_entries,
}

with_capacity-Reads : (width n : ℕ) → FitsVec width n → Reads (lift (with_capacity width n)) [] tt
unfolding with_capacity
with_capacity-Reads width n h = rw (fits) (Reads-lift tt)
  where
    fits : ltb isize_max (width * n) ≡ false
    fits = ground arith

read_each-write_each :
    {A : Type 0} {p : Reader A} {w : A → Bytes} (P : A → Type 0)
    → ((x : A) → P x → Reads p (w x) x)
    → (xs : List A) → All P xs
    → Reads (read_each p (length xs)) (write_each w xs) xs
unfolding read_each write_each
read_each-write_each P one [] h = Reads-pure []
read_each-write_each P one (x ∷ xs) (hx, hs) =
    Reads-bind _ (one x hx) (Reads-then _ (read_each-write_each P one xs hs) (Reads-pure _))

pub read_i32-write_i32 : (v : ℕ) → IsWord32 v → Reads read_i32 (write_i32 v) v
unfolding read_i32 write_i32
read_i32-write_i32 v h =
    Reads-then _ (read_decimal-write_decimal _ (ground arith))
      (Reads-value (ground arith) (Reads-pure _))

read_array-Reads :
    {A : Type 0} {p : Reader A} {w : A → Bytes} (P : A → Type 0)
    → ((x : A) → P x → Reads p (w x) x)
    → (width : ℕ) (wrap : List A → Value) (xs : List A) → 1 ≤ width
    → FitsVec width (length xs)
    → All P xs
    → Reads (read_array width p wrap) (write_decimal (length xs) ▷ write_each w xs) (wrap xs)
unfolding read_array
read_array-Reads P one width wrap xs pos fits h =
    Reads-bind _ (read_decimal-write_decimal (length xs) (grind arith)) (
      Reads-bind _ (with_capacity-Reads width (length xs) fits)
        (Reads-then _ (read_each-write_each P one xs h) (Reads-pure _)))

as_8-type_code : (v : Value) → as_8 (type_code v) ≡ type_code v
unfolding type_code
as_8-type_code null = refl
as_8-type_code _ = refl

module _ (value_size : ℕ) where
  -- `Value::read` with enough fuel for what is nested in `v`.
  abbrev ReadsBody : Value → ℕ → Type 0
  ReadsBody v fuel =
      Reads (read value_size (read_value_within value_size fuel) (type_code v)) (write v) v

  read_value_within-body :
      (v : Value) (fuel : ℕ)
      → suc (depth v) ≤ fuel
      → ((f : ℕ) → depth v ≤ f → ReadsBody v f)
      → Reads (read_value_within value_size fuel) (with_code v (write v)) v
  unfolding read_value_within with_code
  read_value_within-body v zero h body = absurd (omega arith)
  read_value_within-body v (suc f) h body =
      Reads-bind _ (read_unsigned_byte-Reads (type_code v))
        (rw (as_8-type_code v) (body f (omega arith)))

  mutual
    unfolding read write type_code read_list read_map read_double_summary read_long_summary
        read_values read_entries

    read-write : (v : Value) (f : ℕ) → depth v ≤ f → IsValid value_size v → ReadsBody v f
    read-write null f d h = Reads-pure null
    read-write (boolean v) f d h = Reads-then _ (read_boolean-Reads v) (Reads-pure _)
    read-write (decimal v) f d h = Reads-then _ (read_decimal-write_decimal v h) (Reads-pure _)
    read-write (float v) f d h = Reads-then _ (read_float-Reads v h) (Reads-pure _)
    read-write (double v) f d h = Reads-then _ (read_double-Reads v h) (Reads-pure _)
    read-write (double_summary count sum min max) f d (h0, h1, h2, h3) =
        Reads-bind _ (read_int-Reads count h0) (
          Reads-bind _ (read_double-Reads sum h1) (
            Reads-bind _ (read_double-Reads min h2)
              (Reads-then _ (read_double-Reads max h3) (Reads-pure _))))
    read-write (long_summary count sum min max) f d (h0, h1, h2, h3) =
        Reads-bind _ (read_int-Reads count h0) (
          Reads-bind _ (read_long-Reads sum h1) (
            Reads-bind _ (read_long-Reads min h2)
              (Reads-then _ (read_long-Reads max h3) (Reads-pure _))))
    read-write (text v) f d (u, h) = Reads-then _ (read_text-write_text v u h) (Reads-pure _)
    read-write (text_hash v) f d h = Reads-then _ (read_int-Reads v h) (Reads-pure _)
    read-write (blob v) f d h = Reads-then _ (read_blob-write_blob v h) (Reads-pure _)
    read-write (ip4 v) f d h = Reads-then _ (read_blob-write_blob v h) (Reads-pure _)
    read-write (values vs) f d (n, fits, h) =
        Reads-bind _ (read_decimal-write_decimal (count_values vs) (omega arith)) (
          Reads-bind _ (with_capacity-Reads value_size (count_values vs) fits)
            (Reads-then _ (read_values-write_values vs f d h) (Reads-pure _)))
    read-write (int_array arr) f d (fits, h) =
        read_array-Reads IsWord32 read_i32-write_i32 4 int_array arr (omega arith) fits h
    read-write (float_array arr) f d (fits, h) =
        read_array-Reads IsWord32 read_float-Reads 4 float_array arr (omega arith) fits h
    read-write (text_array arr) f d (fits, h) =
        read_array-Reads IsText (λ s t. read_text-write_text s t.0 t.1) 24 text_array arr
          (omega arith) fits h
    read-write (long_array arr) f d (fits, h) =
        read_array-Reads IsWord64 read_decimal-write_decimal 8 long_array arr (omega arith) fits h
    read-write (map m) f d (n, h) =
        Reads-bind _ (read_decimal-write_decimal (size m) (omega arith))
          (Reads-then _ (read_entries-write_entries m empty f d h (Apart-empty m)) (Reads-pure _))

    read_values-write_values :
        (vs : Values) (f : ℕ)
        → depth_values vs ≤ f
        → AreValid value_size vs
        → Reads
            (read_values (read_value_within value_size f) (count_values vs))
            (write_values vs)
            vs
    read_values-write_values nil f d h = Reads-pure nil
    read_values-write_values (cons v vs) f d (hv, hs) =
        Reads-bind _ (read_value_within-body v f (omega arith) (λ g le. read-write v g le hv))
          (Reads-then _ (read_values-write_values vs f (omega arith) hs) (Reads-pure _))

    read_entries-write_entries :
        (m t : MapValue) (f : ℕ)
        → depth_entries m ≤ f
        → IsValidMap value_size m
        → Apart t m
        → Reads
            (read_entries (read_value_within value_size f) (size m) t)
            (write_entries m)
            (append_entries t m)
    read_entries-write_entries empty t f d h a = Reads-value (append_entries-empty t) (Reads-pure t)
    read_entries-write_entries (entry k v m) t f d ((u, len), hv, new, hm) (a, as') =
        Reads-bind _ (read_text-write_text k u len) (
          Reads-bind _ (read_value_within-body v f (omega arith) (λ g le. read-write v g le hv)) (
            Reads-value (put-new k v t m a) (
              read_entries-write_entries m (put k v t) f (omega arith) hm
                (Apart-put k v t m new as'))))

-- Every level of nesting writes a byte at least.
mutual
  unfolding write with_code write_byte

  depth-le : (v : Value) → depth v ≤ length (write v)
  depth-le (values vs) = rw length-append (omega (arith, depth_values-le vs))
  depth-le (map m) = rw length-append (omega (arith, depth_entries-le m))
  depth-le _ = omega arith

  depth_values-le : (vs : Values) → depth_values vs ≤ length (write_values vs)
  depth_values-le nil = omega arith
  depth_values-le (cons v vs) = rw length-append (omega (arith, depth-le v, depth_values-le vs))

  depth_entries-le : (m : MapValue) → depth_entries m ≤ length (write_entries m)
  depth_entries-le empty = omega arith
  depth_entries-le (entry k v m) =
      simp length-append (omega (arith, depth-le v, depth_entries-le m))

depth-le-with_code : (v : Value) (rest : Bytes) → depth v ≤ length (with_code v (write v) ++ rest)
unfolding with_code write_byte
depth-le-with_code v rest = rw length-append (omega (arith, depth-le v))

-- Reading what `write_value` wrote gives the value back and leaves what follows, for every value
-- whose numbers, texts and counts are those of the Rust types, whose texts and blobs are below 2 ^ 31
-- bytes and whose maps hold a key once.
pub read_value-write_value :
    (value_size : ℕ) (v : Value)
    → IsValid value_size v
    → Reads (read_value value_size) (write_value v) v
unfolding read_value write_value
read_value-write_value value_size v h = record {
  run = λ rest o.
      (read_value_within-body value_size v (suc (length (with_code v (write v) ++ rest)))
          (omega (arith, depth-le-with_code v rest)) (λ f d. read-write value_size v f d h)).run
        rest o;
}
