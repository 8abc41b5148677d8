-- ===== src/Netio/Service/ObjectService.antt =====
-- src/netio/service/object_service.rs: the agents that are known.
use scouter_server_rust.Common.{ℕ, Option, none, some, List, [], ◌∷◌}
use scouter_server_rust.Word.{Bytes, sign_extend}
use scouter_server_rust.Outcome.{Outcome}
use scouter_server_rust.Protocol.Input.{Reader, ◌>>=◌, pure}
use scouter_server_rust.Protocol.Output.{◌▷◌}
use scouter_server_rust.Protocol.Value.{MapValue, empty, decimal, text, boolean, put}
use scouter_server_rust.Netio.Service.{read_table, write_table}
use scouter_server_rust.Protocol.Pack.{ObjectPack}
use scouter_server_rust.Netio.Service.CounterService.{obj_hash_key, obj_hash_of}
use scouter_server_rust.Core.ObjectCache as Cache
use scouter_server_rust.Core.ObjectCache.{ObjectCache, get_all_objects}

abbrev pub obj_name_key : Bytes
obj_name_key = 111 ∷ 98 ∷ 106 ∷ 78 ∷ 97 ∷ 109 ∷ 101 ∷ []

abbrev pub obj_type_key : Bytes
obj_type_key = 111 ∷ 98 ∷ 106 ∷ 84 ∷ 121 ∷ 112 ∷ 101 ∷ []

abbrev pub address_key : Bytes
address_key = 97 ∷ 100 ∷ 100 ∷ 114 ∷ 101 ∷ 115 ∷ 115 ∷ []

abbrev pub alive_key : Bytes
alive_key = 97 ∷ 108 ∷ 105 ∷ 118 ∷ 101 ∷ []

abbrev pub wakeup_key : Bytes
wakeup_key = 119 ∷ 97 ∷ 107 ∷ 101 ∷ 117 ∷ 112 ∷ []

abbrev pub version_key : Bytes
version_key = 118 ∷ 101 ∷ 114 ∷ 115 ∷ 105 ∷ 111 ∷ 110 ∷ []

unfoldable pub info_table : ObjectPack → MapValue
info_table obj = put wakeup_key (decimal obj.wakeup) (
    put alive_key (boolean obj.alive) (
      put address_key (text obj.address) (
        put obj_type_key (text obj.obj_type) (
          put obj_name_key (text obj.obj_name)
            (put obj_hash_key (decimal (sign_extend 32 obj.obj_hash)) empty)))))

unfoldable pub list_table : ObjectPack → MapValue
list_table obj = put version_key (text obj.version) (info_table obj)

unfoldable pub write_objects : (order : MapValue → MapValue) → List ObjectPack → Bytes
write_objects order [] = []
write_objects order (obj ∷ objects) =
    write_table order (list_table obj) ▷ write_objects order objects

-- No request is read.
unfoldable pub object_list_real_time : (order : MapValue → MapValue) → ObjectCache → Reader Bytes
object_list_real_time order cache = pure (write_objects order (get_all_objects cache))

unfoldable pub object_list_load_date : (order : MapValue → MapValue) → ObjectCache → Reader Bytes
object_list_load_date order cache = pure (write_objects order (get_all_objects cache))

unfoldable pub write_info : (order : MapValue → MapValue) → Option ObjectPack → Bytes
write_info order none = []
write_info order (some obj) = write_table order (info_table obj)

-- `value_size` and `reserve` are those of the request's values, `order` that of the answer's tables.
unfoldable pub object_info :
    (value_size : ℕ)
    → (reserve : ℕ → Outcome (Unit {0})) → (order : MapValue → MapValue) → ObjectCache
    → Reader Bytes
object_info value_size reserve order cache = do
  table ← read_table value_size reserve
  pure (write_info order (Cache.get cache (obj_hash_of table)))
