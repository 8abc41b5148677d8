-- ===== src/Netio/Service/StatusService.antt =====
-- src/netio/service/status_service.rs: the latest statuses of an agent.
use scouter_server_rust.Common.{ℕ, List, [], ◌∷◌}
use scouter_server_rust.Word.{Bytes, sign_extend}
use scouter_server_rust.Outcome.{Outcome}
use scouter_server_rust.Protocol.Input.{Reader, ◌>>=◌, pure}
use scouter_server_rust.Protocol.Output.{◌▷◌}
use scouter_server_rust.Protocol.Value.{MapValue, empty, entry, decimal, text, put}
use scouter_server_rust.Netio.Service.{read_table, write_table}
use scouter_server_rust.Protocol.Pack.{StatusPack}
use scouter_server_rust.Netio.Service.CounterService.{obj_hash_key, obj_hash_of}
use scouter_server_rust.Core.StatusCache.{StatusCache, get_by_obj}

abbrev pub status_key : Bytes
status_key = 107 ∷ 101 ∷ 121 ∷ []

-- An entry of a status replaces what the table has under its key.
unfoldable pub put_entries : MapValue → MapValue → MapValue
put_entries empty table = table
put_entries (entry k v m) table = put_entries m (put k v table)

unfoldable pub status_table : ℕ → StatusPack → MapValue
status_table obj_hash status =
    put_entries status.data_map (
      put status_key (text status.key) (put obj_hash_key (decimal (sign_extend 32 obj_hash)) empty))

unfoldable pub write_statuses : (order : MapValue → MapValue) → ℕ → List StatusPack → Bytes
write_statuses order obj_hash [] = []
write_statuses order obj_hash (status ∷ statuses) =
    write_table order (status_table obj_hash status) ▷ write_statuses order obj_hash statuses

-- `value_size` and `reserve` are those of the request's values, `order` that of the answer's tables.
unfoldable pub status_around_value :
    (value_size : ℕ)
    → (reserve : ℕ → Outcome (Unit {0})) → (order : MapValue → MapValue) → StatusCache
    → Reader Bytes
status_around_value value_size reserve order cache = do
  table ← read_table value_size reserve
  pure (write_statuses order (obj_hash_of table) (get_by_obj cache (obj_hash_of table)))
