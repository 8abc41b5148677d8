-- ===== src/Protocol/Value/Total.antt =====
-- `read_value` ends on every input: its fuel is enough, well-formed input or not.
use scouter_server_rust.Common.{ℕ, zero, suc, ◌≢◌, arith, List, length, ◌==◌}
use scouter_server_rust.Outcome.{out_of_fuel, unknown_value_type}
use scouter_server_rust.Protocol.Input.{DataInputX, Reader}
use scouter_server_rust.Protocol.Total.{
  Total, Ends-ne-out_of_fuel, Total-bind, Total-pure, Total-fail, Total-lift, Total-if, Total-byte,
  Total-read_boolean, Total-read_int, Total-read_long, Total-read_float, Total-read_double,
  Total-read_decimal, Total-read_blob, Total-read_text,
}
use scouter_server_rust.Protocol.Value.{
  Value, MapValue, put, empty, null, boolean, decimal, float, double, text, text_hash, blob, ip4,
  int_array, float_array, text_array, long_array,
}
use scouter_server_rust.Protocol.Value.Read.{
  with_capacity, read_each, read_i32, read_values, read_entries, read_array, read_list, read_map,
  read_double_summary, read_long_summary, read, read_value_within, read_value,
}

with_capacity-ne-out_of_fuel : (width n : ℕ) → with_capacity width n ≢ out_of_fuel
unfolding with_capacity
with_capacity-ne-out_of_fuel width n e = ground arith

module _ {k : ℕ} where
  pub Total-read_each : {A : Type 0} {p : Reader A} → Total k p → (n : ℕ) → Total k (read_each p n)
  unfolding read_each
  Total-read_each h zero = Total-pure _
  Total-read_each h (suc n) =
      Total-bind _ h (λ x. Total-bind _ (Total-read_each h n) (λ xs. Total-pure _))

  Total-read_i32 : Total k read_i32
  unfolding read_i32
  Total-read_i32 = Total-bind _ Total-read_decimal (λ v. Total-pure _)

  Total-read_array :
      {A : Type 0} {p : Reader A} (width : ℕ) (wrap : List A → Value)
      → Total k p
      → Total k (read_array width p wrap)
  unfolding read_array
  Total-read_array width wrap h = Total-bind _ Total-read_decimal λ n.
      Total-bind _ (Total-lift _ (with_capacity-ne-out_of_fuel width n))
        λ _. Total-bind _ (Total-read_each h n) λ xs. Total-pure _

  Total-read_values : {p : Reader Value} → Total k p → (n : ℕ) → Total k (read_values p n)
  unfolding read_values
  Total-read_values h zero = Total-pure _
  Total-read_values h (suc n) =
      Total-bind _ h (λ x. Total-bind _ (Total-read_values h n) (λ xs. Total-pure _))

  Total-read_entries :
      {p : Reader Value} → Total k p → (n : ℕ) (t : MapValue) → Total k (read_entries p n t)
  unfolding read_entries
  Total-read_entries h zero t = Total-pure _
  Total-read_entries h (suc n) t =
      Total-bind _ Total-read_text λ key. Total-bind _ h λ v. Total-read_entries h n (put key v t)

module _ {k : ℕ} where
  Total-read_map : {p : Reader Value} → Total k p → Total k (read_map p)
  unfolding read_map
  Total-read_map h =
      Total-bind _ Total-read_decimal
        λ n. Total-bind _ (Total-read_entries h n empty) λ m. Total-pure _

  Total-read_double_summary : Total k read_double_summary
  unfolding read_double_summary
  Total-read_double_summary = Total-bind _ Total-read_int λ _.
      Total-bind _ Total-read_double
        λ _. Total-bind _ Total-read_double λ _. Total-bind _ Total-read_double λ _. Total-pure _

  Total-read_long_summary : Total k read_long_summary
  unfolding read_long_summary
  Total-read_long_summary = Total-bind _ Total-read_int λ _.
      Total-bind _ Total-read_long
        λ _. Total-bind _ Total-read_long λ _. Total-bind _ Total-read_long λ _. Total-pure _

module _ (value_size : ℕ) where
  Total-read_list : {k : ℕ} {p : Reader Value} → Total k p → Total k (read_list value_size p)
  unfolding read_list
  Total-read_list h = Total-bind _ Total-read_decimal λ n.
      Total-bind _ (Total-lift _ (with_capacity-ne-out_of_fuel value_size n))
        λ _. Total-bind _ (Total-read_values h n) λ vs. Total-pure _

  Total-read :
      {k : ℕ} {p : Reader Value} → Total k p → (code : ℕ) → Total k (read value_size p code)
  unfolding read
  Total-read h code = Total-if (code == 0) (Total-pure null) (
      Total-if (code == 10) (Total-bind _ Total-read_boolean (λ v. Total-pure (boolean v))) (
        Total-if (code == 20) (Total-bind _ Total-read_decimal (λ v. Total-pure (decimal v))) (
          Total-if (code == 30) (Total-bind _ Total-read_float (λ v. Total-pure (float v))) (
            Total-if (code == 40) (Total-bind _ Total-read_double (λ v. Total-pure (double v))) (
              Total-if (code == 45) (Total-read_double_summary) (
                Total-if (code == 46) (Total-read_long_summary) (
                  Total-if (code == 50) (Total-bind _ Total-read_text (λ v. Total-pure (text v))) (
                    Total-if (code == 51)
                      (Total-bind _ Total-read_int (λ v. Total-pure (text_hash v)))
                      (Total-if (code == 60)
                        (Total-bind _ Total-read_blob (λ v. Total-pure (blob v)))
                        (Total-if (code == 61)
                          (Total-bind _ Total-read_blob (λ v. Total-pure (ip4 v)))
                          (Total-if (code == 70) (Total-read_list h) (
                            Total-if (code == 71) (Total-read_array 4 int_array Total-read_i32) (
                              Total-if (code == 72)
                                (Total-read_array 4 float_array Total-read_float)
                                (Total-if (code == 73)
                                  (Total-read_array 24 text_array Total-read_text)
                                  (Total-if (code == 74)
                                    (Total-read_array 8 long_array Total-read_decimal)
                                    (Total-if (code == 80) (Total-read_map h)
                                      (Total-fail (unknown_value_type code))))))))))))))))))

  Total-read_value_within : (k : ℕ) → Total k (read_value_within value_size k)
  unfolding read_value_within
  Total-read_value_within zero = record { run = λ din h. absurd (omega arith) }
  Total-read_value_within (suc k) = Total-byte _ (Total-read (Total-read_value_within k))

  -- Reading a value ends on every input, well formed or not: its fuel is never used up.
  pub read_value-ne-out_of_fuel : (din : DataInputX) → read_value value_size din ≢ out_of_fuel
  unfolding read_value
  read_value-ne-out_of_fuel din =
      Ends-ne-out_of_fuel ((Total-read_value_within (suc (length din.inner))).run din (omega arith))

  pub Total-read_value : {k : ℕ} → Total k (read_value value_size)
  unfolding read_value
  Total-read_value = record {
    run = λ din h. (Total-read_value_within (suc (length din.inner))).run din (omega arith);
  }
