-- ===== src/Core/XLogCore.antt =====
-- src/core/xlog_core.rs: what the worker does with an xlog. `container` is the store of the day of
-- the xlog, which the database manager opens; an error is only printed, and here the outcome.
pub mod Lookup
use scouter_server_rust.Common.{ℕ, Bool, not, ◌==◌, if◌then◌else◌}
use scouter_server_rust.Word.{Bytes, signed_ltb}
use scouter_server_rust.Outcome.{Outcome, ◌>>=◌}
use scouter_server_rust.Protocol.Pack.{write_pack, xlog}
use scouter_server_rust.Protocol.Pack.XLog.{XLogPack}
use scouter_server_rust.Core.XLogCache as Cache
use scouter_server_rust.Core.XLogCache.{XLogCache}
use scouter_server_rust.Db.XLogStore as Store
use scouter_server_rust.Db.XLogStore.{XLogStore}

-- The time under which an xlog is stored.
unfoldable pub time_of : ℕ → XLogPack → ℕ
time_of now pack = if signed_ltb 0 pack.end_time then pack.end_time else now

-- The entry of the cache.
unfoldable pub cached : XLogPack → Cache.XLog
cached pack = record {
  obj_hash = pack.obj_hash;
  elapsed = pack.elapsed;
  has_error = not (pack.error == 0);
  data_bytes = write_pack (xlog pack);
}

unfoldable pub process :
    (date_millis : ℕ → ℕ)
    → XLogCache
    → Outcome XLogStore
    → (now : ℕ) → XLogPack
    → XLogCache × Outcome XLogStore
process date_millis cache container now pack = (
  (Cache.put cache (cached pack)).0,
  container >>= λ store.
      Store.write date_millis store (time_of now pack) pack.txid pack.gxid (write_pack (xlog pack)),
)
