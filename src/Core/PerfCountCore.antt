-- ===== src/Core/PerfCountCore.antt =====
-- src/core/perf_count_core.rs: what the worker does with the counters of an agent. `f32_to_f64` and
-- `i64_to_f64` are conversions of the processor, `hhmm_of` is hhmm of src/util/date.rs, which asks the
-- time zone database; `now` is the clock in milliseconds. The worker calls the store of the day once
-- for each element of the list, in order; an error is only printed.
use scouter_server_rust.Common.{
  ℕ, ◌^◌, not, ◌&&◌, ltb, Option, none, some, List, [], ◌∷◌, ◌==◌, if◌then◌else◌,
}
use scouter_server_rust.Word.{Bytes}
use scouter_server_rust.Util.Hash.{hash_bytes}
use scouter_server_rust.Protocol.Value.{Value, MapValue, decimal, float, double, empty, entry}
use scouter_server_rust.Protocol.Pack.{PerfCounterPack}
use scouter_server_rust.Core.CounterCache as Cache
use scouter_server_rust.Core.CounterCache.{CounterCache}
use scouter_server_rust.Db.CounterStore.{make_counter_key, time_type_five_min}

-- The arguments of `write`.
pub record CounterWrite : Type 0 where
  pub key : Bytes
  pub hhmm : ℕ
  pub value : ℕ
  pub time_type : ℕ

unfoldable pub put_values : CounterCache → ℕ → ℕ → MapValue → CounterCache
put_values cache obj_hash time_type empty = cache
put_values cache obj_hash time_type (entry name value table) =
    put_values (Cache.put cache obj_hash name time_type value) obj_hash time_type table

-- `if pack.time > 0`, for an i64.
unfoldable pub time_of : (now : ℕ) → PerfCounterPack → ℕ
time_of now pack = if not (pack.time == 0) && ltb pack.time (2 ^ 63) then pack.time else now

module _ (f32_to_f64 i64_to_f64 hhmm_of : ℕ → ℕ) where
  unfoldable pub f_value : Value → Option ℕ
  f_value (float v) = some (f32_to_f64 v)
  f_value (double v) = some v
  f_value (decimal v) = some (i64_to_f64 v)
  f_value other = none

  unfoldable pub with_write : ℕ → Bytes → ℕ → ℕ → Option ℕ → List CounterWrite → List CounterWrite
  with_write obj_hash name hhmm time_type none writes = writes
  with_write obj_hash name hhmm time_type (some v) writes =
      record { key = make_counter_key obj_hash name; hhmm = hhmm; value = v; time_type = time_type }
      ∷ writes

  unfoldable pub writes_of : ℕ → ℕ → ℕ → MapValue → List CounterWrite
  writes_of obj_hash hhmm time_type empty = []
  writes_of obj_hash hhmm time_type (entry name value table) =
      with_write obj_hash name hhmm time_type (f_value value)
        (writes_of obj_hash hhmm time_type table)

  unfoldable pub process :
      CounterCache → (now : ℕ) → PerfCounterPack → CounterCache × List CounterWrite
  process cache now pack = (
    put_values cache (hash_bytes pack.obj_name) pack.timetype pack.data_map,
    if pack.timetype == time_type_five_min
        then writes_of (hash_bytes pack.obj_name) (hhmm_of (time_of now pack)) pack.timetype
            pack.data_map
        else [],
  )
