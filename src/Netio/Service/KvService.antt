-- ===== src/Netio/Service/KvService.antt =====
-- src/core/kv_store.rs and src/netio/service/kv_service.rs: texts that clients share by their keys.
use scouter_server_rust.Common.{ℕ, true, Option, none, some, [], ◌∷◌, ◌==◌, length, if◌then◌else◌}
use scouter_server_rust.Word.{Bytes}
use scouter_server_rust.Outcome.{Outcome}
use scouter_server_rust.Protocol.Input.{Reader, ◌>>=◌, pure}
use scouter_server_rust.Protocol.Value.{Value, MapValue, empty, text, boolean, put, get}
use scouter_server_rust.Netio.Service.{read_table, write_table}
use scouter_server_rust.Common.{List}
use scouter_server_rust.Protocol.Value.{bytes_eq}
use scouter_server_rust.Protocol.Pack.{Pack, map_pack}
use scouter_server_rust.Protocol.Pack.Read.{read_pack}
use scouter_server_rust.Core.Table.{lookup, insert}

abbrev pub KvStore : Type 0
KvStore = List (Bytes × Bytes)

unfoldable pub lookup_text : KvStore → Bytes → Option Bytes
lookup_text store k = lookup bytes_eq k store

unfoldable pub set : KvStore → Bytes → Bytes → KvStore
set store k v = insert bytes_eq k v store

unfoldable pub delete : KvStore → Bytes → KvStore
delete [] k = []
delete ((j, v) ∷ store) k =
    let rest = delete store k in if bytes_eq j k then store else (j, v) ∷ rest

abbrev pub kv_key : Bytes
kv_key = 107 ∷ 101 ∷ 121 ∷ []

abbrev pub value_key : Bytes
value_key = 118 ∷ 97 ∷ 108 ∷ 117 ∷ 101 ∷ []

abbrev pub result_key : Bytes
result_key = 114 ∷ 101 ∷ 115 ∷ 117 ∷ 108 ∷ 116 ∷ []

unfoldable pub text_or_empty : Option Value → Bytes
text_or_empty (some (text s)) = s
text_or_empty found = []

unfoldable pub found_table : Option Bytes → MapValue
found_table none = empty
found_table (some value) = put value_key (text value) empty

-- A request that is no map, or has no key, sets nothing.
unfoldable pub set_of : KvStore → Pack → KvStore
set_of store (map_pack p) =
    if length (text_or_empty (get kv_key p.table)) == 0
    then store
    else set store (text_or_empty (get kv_key p.table)) (text_or_empty (get value_key p.table))
set_of store p = store

-- `value_size` and `reserve` are those of the request's values, `order` that of the answer's tables.
module _ (value_size : ℕ) (reserve : ℕ → Outcome (Unit {0})) (order : MapValue → MapValue) where
  unfoldable pub get_global_kv : KvStore → Reader Bytes
  get_global_kv store = do
    table ← read_table value_size reserve
    pure (write_table order (found_table (lookup_text store (text_or_empty (get kv_key table)))))

  unfoldable pub set_global_kv : KvStore → Reader (KvStore × Bytes)
  set_global_kv store = do
    pack ← read_pack value_size reserve
    pure (set_of store pack, write_table order (put result_key (boolean true) empty))
