-- ===== src/Protocol/Pack/Valid.antt =====
-- What Rust's types guarantee of the packs, and the lengths that the wire format holds.
use scouter_server_rust.Common.{ℕ, ◌≡◌, ◌<◌, ◌^◌, ◌++◌, length}
use scouter_server_rust.Word.{IsByte, IsWord32, IsWord64}
use scouter_server_rust.Outcome.{Outcome, ok}
use scouter_server_rust.Protocol.Output.{write_byte}
use scouter_server_rust.Protocol.Value.{MapValue, map, size, write_value}
use scouter_server_rust.Protocol.Value.Valid as Value
use scouter_server_rust.Protocol.Value.Valid.{IsText, IsBlob}
use scouter_server_rust.Protocol.Pack.{
  Pack, map_pack, xlog, dropped_xlog, xlog_profile, xlog_profile2, text_pack, perf_counter, status,
  stack, summary, batch, interaction_perf_counter, alert, object, span, span_container,
}
use scouter_server_rust.Protocol.Pack.XLog as XLog
use scouter_server_rust.Protocol.Pack.XLog.Fields as Fields

-- The pack as the other side sees it: `XLogProfilePack` keeps its service and elapsed time to itself.
abbrev pub as_sent : Pack → Pack
as_sent (xlog_profile p) = xlog_profile (record p { service = 0; elapsed = 0 })
as_sent (map_pack p) = map_pack p
as_sent (xlog p) = xlog p
as_sent (dropped_xlog p) = dropped_xlog p
as_sent (xlog_profile2 p) = xlog_profile2 p
as_sent (text_pack p) = text_pack p
as_sent (perf_counter p) = perf_counter p
as_sent (status p) = status p
as_sent (stack raw) = stack raw
as_sent (summary p) = summary p
as_sent (batch raw) = batch raw
as_sent (interaction_perf_counter raw) = interaction_perf_counter raw
as_sent (alert p) = alert p
as_sent (object p) = object p
as_sent (span raw) = span raw
as_sent (span_container raw) = span_container raw

-- `reserve n` is `HashMap::with_capacity(n)`; a map that is there was reserved once.
module _ (value_size : ℕ) (reserve : ℕ → Outcome (Unit {0})) where
  abbrev pub IsTable : MapValue → Type 0
  IsTable m = Value.IsValid value_size (map m)

  abbrev pub IsValid : Pack → Type 0
  IsValid (map_pack p) = IsTable p.table × (reserve (size p.table) ≡ ok tt)
  IsValid (xlog p) = Fields.IsValid p × (length (XLog.write_fields p) < 2 ^ 31)
  IsValid (dropped_xlog p) = IsWord64 p.txid × IsWord64 p.gxid
  IsValid (xlog_profile p) = IsWord64 p.txid × IsWord32 p.obj_hash × IsBlob p.profile
  IsValid (xlog_profile2 p) =
      IsWord64 p.txid
      × IsWord32 p.obj_hash
      × IsBlob p.profile
      × IsWord32 p.service
      × IsWord32 p.elapsed
  IsValid (text_pack p) = IsText p.xtype × IsWord32 p.hash × IsText p.text
  IsValid (perf_counter p) =
      IsWord64 p.time × IsText p.obj_name × IsByte p.timetype × IsTable p.data_map
  IsValid (status p) =
      IsWord64 p.time × IsText p.obj_type × IsWord32 p.obj_hash × IsText p.key × IsTable p.data_map
  IsValid (stack raw) = IsBlob raw
  IsValid (summary p) =
      IsByte p.stype
      × IsTable p.table
      × (length (write_byte p.stype ++ write_value (map p.table)) < 2 ^ 31)
  IsValid (batch raw) = IsBlob raw
  IsValid (interaction_perf_counter raw) = IsBlob raw
  IsValid (alert p) =
      IsWord64 p.time
      × IsText p.obj_type
      × IsWord32 p.obj_hash
      × IsByte p.level
      × IsText p.title
      × IsText p.message
      × IsTable p.tags
  IsValid (object p) =
      IsText p.obj_type
      × IsWord32 p.obj_hash
      × IsText p.obj_name
      × IsText p.address
      × IsText p.version
      × IsWord64 p.wakeup
      × IsTable p.tags
  IsValid (span raw) = IsBlob raw
  IsValid (span_container raw) = IsBlob raw
