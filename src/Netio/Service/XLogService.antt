-- ===== src/Netio/Service/XLogService.antt =====
-- src/netio/service/xlog_service.rs: the recent xlogs, which a client polls for with the index of
-- its last answer.
pub mod Polling
use scouter_server_rust.Common.{ℕ, List, [], ◌∷◌}
use scouter_server_rust.Word.{Bytes}
use scouter_server_rust.Outcome.{Outcome}
use scouter_server_rust.Common.{none}
use scouter_server_rust.Protocol.Input.{Reader, ◌>>=◌, pure}
use scouter_server_rust.Protocol.Output.{◌▷◌, write_byte, write_raw}
use scouter_server_rust.Protocol.Value.{MapValue, empty, decimal, put}
use scouter_server_rust.Netio.Service.{has_next, read_table, number_or, write_table}
use scouter_server_rust.Core.XLogCache.{
  XLogCache, XLogCacheEntry, get_since, get_latest, latest_index,
}

abbrev pub index_key : Bytes
index_key = 105 ∷ 110 ∷ 100 ∷ 101 ∷ 120 ∷ []

abbrev pub count_key : Bytes
count_key = 99 ∷ 111 ∷ 117 ∷ 110 ∷ 116 ∷ []

unfoldable pub write_entries : List XLogCacheEntry → Bytes
write_entries [] = []
write_entries (e ∷ es) = write_byte has_next ▷ write_raw e.xlog.data_bytes ▷ write_entries es

-- The entries, then the index to ask with the next time.
unfoldable pub answer : (order : MapValue → MapValue) → List XLogCacheEntry → ℕ → Bytes
answer order es new_index =
    write_entries es ▷ write_table order (put index_key (decimal new_index) empty)

-- `value_size` and `reserve` are those of the request's values, `order` that of the answer's tables.
module _ (value_size : ℕ) (reserve : ℕ → Outcome (Unit {0})) (order : MapValue → MapValue) where
  -- The entries are under one lock and the index is under another: `cache` is the cache when
  -- get_since or get_latest reads the entries, `later` when latest_index reads the index.
  unfoldable pub xlog_real_time : (cache later : XLogCache) → Reader Bytes
  xlog_real_time cache later = do
    table ← read_table value_size reserve
    pure (answer order (get_since cache (number_or 0 index_key table) none) (latest_index later))

  unfoldable pub xlog_real_time_latest : (cache later : XLogCache) → Reader Bytes
  xlog_real_time_latest cache later = do
    table ← read_table value_size reserve
    pure (answer order (get_latest cache (number_or 100 count_key table)) (latest_index later))
