-- ===== src/Netio/Service/AlertService.antt =====
-- src/netio/service/alert_service.rs: the recent alerts, which a client polls for with an index.
use scouter_server_rust.Common.{ℕ, Bool, false, Option, some, List, [], ◌∷◌, if◌then◌else◌}
use scouter_server_rust.Word.{Bytes}
use scouter_server_rust.Outcome.{Outcome}
use scouter_server_rust.Protocol.Input.{Reader, ◌>>=◌, pure}
use scouter_server_rust.Protocol.Output.{◌▷◌, write_byte, write_raw}
use scouter_server_rust.Protocol.Value.{MapValue, Value, empty, decimal, boolean, put, get}
use scouter_server_rust.Netio.Service.{has_next, read_table, number_or, write_table}
use scouter_server_rust.Protocol.Pack.{alert, write_pack}
use scouter_server_rust.Netio.Service.XLogService.{index_key}
use scouter_server_rust.Core.AlertCache.{AlertCache, AlertCacheEntry, get_since}

abbrev pub first_key : Bytes
first_key = 102 ∷ 105 ∷ 114 ∷ 115 ∷ 116 ∷ []

abbrev pub loop_key : Bytes
loop_key = 108 ∷ 111 ∷ 111 ∷ 112 ∷ []

abbrev pub boolean_or : Bool → Option Value → Bool
boolean_or other (some (boolean v)) = v
boolean_or other found = other

unfoldable pub write_alerts : List AlertCacheEntry → Bytes
write_alerts [] = []
write_alerts (e ∷ es) =
    write_byte has_next ▷ write_raw (write_pack (alert e.pack)) ▷ write_alerts es

-- The numbers to ask with come first; no alerts on the first poll.
unfoldable pub answer : (order : MapValue → MapValue) → Bool → List AlertCacheEntry × ℕ × ℕ → Bytes
answer order first (es, current_loop, current_index) =
    write_table order
      (put index_key (decimal current_index) (put loop_key (decimal current_loop) empty))
    ▷ (if first then [] else write_alerts es)

-- `value_size` and `reserve` are those of the request's values, `order` that of the answer's tables.
unfoldable pub alert_real_time :
    (value_size : ℕ)
    → (reserve : ℕ → Outcome (Unit {0})) → (order : MapValue → MapValue) → AlertCache
    → Reader Bytes
alert_real_time value_size reserve order cache = do
  table ← read_table value_size reserve
  pure (
      answer order (boolean_or false (get first_key table))
        (get_since cache (number_or 0 index_key table)))
