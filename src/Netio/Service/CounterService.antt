-- ===== src/Netio/Service/CounterService.antt =====
-- src/netio/service/counter_service.rs: the latest values of counters, one of an agent, one of all
-- agents, or several of an agent.
pub mod Latest
use scouter_server_rust.Common.{ℕ, Option, none, some, List, [], ◌∷◌}
use scouter_server_rust.Word.{Bytes, as_32, sign_extend}
use scouter_server_rust.Outcome.{Outcome}
use scouter_server_rust.Protocol.Input.{Reader, ◌>>=◌, pure}
use scouter_server_rust.Protocol.Output.{◌▷◌}
use scouter_server_rust.Protocol.Value.{
  Value, Values, MapValue, empty, nil, cons, decimal, text, values, put, get,
}
use scouter_server_rust.Netio.Service.{read_table, number_or, write_table}
use scouter_server_rust.Core.CounterCache as Cache
use scouter_server_rust.Core.CounterCache.{CounterCache, get_all_for_counter}

abbrev pub obj_hash_key : Bytes
obj_hash_key = 111 ∷ 98 ∷ 106 ∷ 72 ∷ 97 ∷ 115 ∷ 104 ∷ []

abbrev pub counter_key : Bytes
counter_key = 99 ∷ 111 ∷ 117 ∷ 110 ∷ 116 ∷ 101 ∷ 114 ∷ []

abbrev pub value_key : Bytes
value_key = 118 ∷ 97 ∷ 108 ∷ 117 ∷ 101 ∷ []

-- `objHash` of a request, the bit pattern of an i32.
unfoldable pub obj_hash_of : MapValue → ℕ
obj_hash_of table = as_32 (number_or 0 obj_hash_key table)

unfoldable pub counter_of : MapValue → Bytes
counter_of table = elim (get counter_key table) [ some (text s) ↦ s | _ ↦ [] ]

-- The texts of a list of values.
unfoldable pub texts_of : Values → List Bytes
texts_of nil = []
texts_of (cons (text s) vs) = s ∷ texts_of vs
texts_of (cons v vs) = texts_of vs

unfoldable pub counters_of : MapValue → List Bytes
counters_of table = elim (get counter_key table) [ some (values vs) ↦ texts_of vs | _ ↦ [] ]

unfoldable pub write_counter : (order : MapValue → MapValue) → ℕ → Bytes → Value → Bytes
write_counter order obj_hash counter value = write_table order (
    put value_key value
      (put counter_key (text counter) (put obj_hash_key (decimal (sign_extend 32 obj_hash)) empty)))

-- Nothing is sent for a counter without a value.
unfoldable pub write_found : (order : MapValue → MapValue) → ℕ → Bytes → Option Value → Bytes
write_found order obj_hash counter none = []
write_found order obj_hash counter (some value) = write_counter order obj_hash counter value

unfoldable pub write_all : (order : MapValue → MapValue) → Bytes → List (ℕ × Value) → Bytes
write_all order counter [] = []
write_all order counter ((obj_hash, value) ∷ all) =
    write_counter order obj_hash counter value ▷ write_all order counter all

unfoldable pub put_found : Bytes → Option Value → MapValue → MapValue
put_found counter none result = result
put_found counter (some value) result = put counter value result

unfoldable pub put_counters : CounterCache → ℕ → List Bytes → MapValue → MapValue
put_counters cache obj_hash [] result = result
put_counters cache obj_hash (counter ∷ counters) result =
    put_counters cache obj_hash counters
      (put_found counter (Cache.get cache obj_hash counter 1) result)

-- `value_size` and `reserve` are those of the request's values, `order` that of the answer's tables.
module _ (value_size : ℕ) (reserve : ℕ → Outcome (Unit {0})) (order : MapValue → MapValue) where
  unfoldable pub counter_real_time : CounterCache → Reader Bytes
  counter_real_time cache = do
    table ← read_table value_size reserve
    pure (
        write_found order (obj_hash_of table) (counter_of table)
          (Cache.get cache (obj_hash_of table) (counter_of table) 1))

  unfoldable pub counter_real_time_all : CounterCache → Reader Bytes
  counter_real_time_all cache = do
    table ← read_table value_size reserve
    pure (write_all order (counter_of table) (get_all_for_counter cache (counter_of table) 1))

  unfoldable pub counter_real_time_multi : CounterCache → Reader Bytes
  counter_real_time_multi cache = do
    table ← read_table value_size reserve
    pure (
        write_table order (
          put_counters cache (obj_hash_of table) (counters_of table)
            (put obj_hash_key (decimal (sign_extend 32 (obj_hash_of table))) empty)))
