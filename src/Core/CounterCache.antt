-- ===== src/Core/CounterCache.antt =====
-- src/core/cache/counter_cache.rs: the latest value of every counter.
use scouter_server_rust.Common.{ℕ, Bool, ◌&&◌, Option, List, [], ◌∷◌, length, ◌==◌, if◌then◌else◌}
use scouter_server_rust.Word.{Bytes}
use scouter_server_rust.Protocol.Value.{Value, bytes_eq}
use scouter_server_rust.Core.Table.{lookup, insert}

pub record CounterKey : Type 0 where
  pub obj_hash : ℕ
  pub counter_name : Bytes
  pub time_type : ℕ

abbrev pub CounterCache : Type 0
CounterCache = List (CounterKey × Value)

abbrev pub same_counter : CounterKey → CounterKey → Bool
same_counter a b =
    (a.obj_hash == b.obj_hash)
    && bytes_eq a.counter_name b.counter_name
    && (a.time_type == b.time_type)

abbrev pub key_of : ℕ → Bytes → ℕ → CounterKey
key_of obj_hash counter_name time_type = record {
  obj_hash = obj_hash;
  counter_name = counter_name;
  time_type = time_type;
}

unfoldable pub put : CounterCache → ℕ → Bytes → ℕ → Value → CounterCache
put cache obj_hash counter_name time_type value =
    insert same_counter (key_of obj_hash counter_name time_type) value cache

unfoldable pub get : CounterCache → ℕ → Bytes → ℕ → Option Value
get cache obj_hash counter_name time_type =
    lookup same_counter (key_of obj_hash counter_name time_type) cache

unfoldable pub get_counters_by_obj : CounterCache → ℕ → ℕ → List (Bytes × Value)
get_counters_by_obj [] obj_hash time_type = []
get_counters_by_obj ((k, value) ∷ cache) obj_hash time_type =
    let rest = get_counters_by_obj cache obj_hash time_type in
    if (k.obj_hash == obj_hash) && (k.time_type == time_type)
    then (k.counter_name, value) ∷ rest
    else rest

unfoldable pub get_all_for_counter : CounterCache → Bytes → ℕ → List (ℕ × Value)
get_all_for_counter [] counter_name time_type = []
get_all_for_counter ((k, value) ∷ cache) counter_name time_type =
    let rest = get_all_for_counter cache counter_name time_type in
    if bytes_eq k.counter_name counter_name && (k.time_type == time_type)
    then (k.obj_hash, value) ∷ rest
    else rest

unfoldable pub size : CounterCache → ℕ
size cache = length cache
