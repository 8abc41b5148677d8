-- ===== src/Protocol/Pack.antt =====
-- src/protocol/pack/mod.rs: the packs that agents send, and how they are written. An i8 or a u8 is
-- its byte, an i32 or an i64 its bit pattern. `XLogPack` is in its own module.
pub mod XLog
pub mod Read
pub mod Valid
pub mod Envelope
pub mod RoundTrip
use scouter_server_rust.Common.{ℕ, Bool, List, [], ◌∷◌, ◌++◌}
use scouter_server_rust.Word.{Bytes, sign_extend32}
use scouter_server_rust.Protocol.Output.{
  ◌▷◌, write_boolean, write_byte, write_int, write_long, write_decimal, write_blob, write_text,
}
use scouter_server_rust.Protocol.Value.{MapValue, map, size, write_value, write_entries, write_i32}
use scouter_server_rust.Protocol.Pack.XLog as XLog
use scouter_server_rust.Protocol.Pack.XLog.{XLogPack}

-- `MapPack`, with its `HashMap` as for a `MapValue`.
pub record MapPack : Type 0 where
  pub table : MapValue

pub record PerfCounterPack : Type 0 where
  pub time : ℕ
  pub obj_name : Bytes
  pub timetype : ℕ
  pub data_map : MapValue

pub record DroppedXLogPack : Type 0 where
  pub txid : ℕ
  pub gxid : ℕ

pub record TextPack : Type 0 where
  pub xtype : Bytes
  pub hash : ℕ
  pub text : Bytes

pub record AlertPack : Type 0 where
  pub time : ℕ
  pub obj_type : Bytes
  pub obj_hash : ℕ
  pub level : ℕ
  pub title : Bytes
  pub message : Bytes
  pub tags : MapValue

pub record ObjectPack : Type 0 where
  pub obj_type : Bytes
  pub obj_hash : ℕ
  pub obj_name : Bytes
  pub address : Bytes
  pub version : Bytes
  pub alive : Bool
  pub wakeup : ℕ
  pub tags : MapValue

pub record StatusPack : Type 0 where
  pub time : ℕ
  pub obj_type : Bytes
  pub obj_hash : ℕ
  pub key : Bytes
  pub data_map : MapValue

-- `XLogProfilePack` and `XLogProfilePack2` have the same fields.
pub record XLogProfilePack : Type 0 where
  pub txid : ℕ
  pub obj_hash : ℕ
  pub profile : Bytes
  pub service : ℕ
  pub elapsed : ℕ

pub record SummaryPack : Type 0 where
  pub stype : ℕ
  pub table : MapValue

-- The last five variants hold raw bytes.
pub data Pack : Type 0 where
  map_pack : MapPack → Pack
  xlog : XLogPack → Pack
  dropped_xlog : DroppedXLogPack → Pack
  xlog_profile : XLogProfilePack → Pack
  xlog_profile2 : XLogProfilePack → Pack
  text_pack : TextPack → Pack
  perf_counter : PerfCounterPack → Pack
  status : StatusPack → Pack
  stack : Bytes → Pack
  summary : SummaryPack → Pack
  batch : Bytes → Pack
  interaction_perf_counter : Bytes → Pack
  alert : AlertPack → Pack
  object : ObjectPack → Pack
  span : Bytes → Pack
  span_container : Bytes → Pack

unfoldable pub type_code : Pack → ℕ
type_code (map_pack p) = 10
type_code (xlog p) = 21
type_code (dropped_xlog p) = 22
type_code (xlog_profile p) = 26
type_code (xlog_profile2 p) = 27
type_code (text_pack p) = 50
type_code (perf_counter p) = 60
type_code (status p) = 61
type_code (stack p) = 62
type_code (summary p) = 63
type_code (batch p) = 64
type_code (interaction_perf_counter p) = 65
type_code (alert p) = 70
type_code (object p) = 80
type_code (span p) = 31
type_code (span_container p) = 32

unfoldable pub write_map_pack : MapPack → Bytes
write_map_pack p = write_decimal (size p.table) ▷ write_entries p.table

unfoldable pub write_perf_counter : PerfCounterPack → Bytes
write_perf_counter p =
    write_long p.time
    ▷ write_text p.obj_name
    ▷ write_byte (sign_extend32 8 p.timetype)
    ▷ write_value (map p.data_map)

unfoldable pub write_dropped_xlog : DroppedXLogPack → Bytes
write_dropped_xlog p = write_blob (write_long p.txid ▷ write_long p.gxid)

unfoldable pub write_text_pack : TextPack → Bytes
write_text_pack p = write_text p.xtype ▷ write_int p.hash ▷ write_text p.text

unfoldable pub write_alert : AlertPack → Bytes
write_alert p =
    write_long p.time
    ▷ write_byte (sign_extend32 8 p.level)
    ▷ write_text p.obj_type
    ▷ write_int p.obj_hash
    ▷ write_text p.title
    ▷ write_text p.message
    ▷ write_value (map p.tags)

unfoldable pub write_object : ObjectPack → Bytes
write_object p =
    write_text p.obj_type
    ▷ write_i32 p.obj_hash
    ▷ write_text p.obj_name
    ▷ write_text p.address
    ▷ write_text p.version
    ▷ write_boolean p.alive
    ▷ write_decimal p.wakeup
    ▷ write_value (map p.tags)

unfoldable pub write_status : StatusPack → Bytes
write_status p =
    write_decimal p.time
    ▷ write_text p.obj_type
    ▷ write_i32 p.obj_hash
    ▷ write_text p.key
    ▷ write_value (map p.data_map)

unfoldable pub write_xlog_profile : XLogProfilePack → Bytes
write_xlog_profile p = write_long p.txid ▷ write_int p.obj_hash ▷ write_blob p.profile

unfoldable pub write_xlog_profile2 : XLogProfilePack → Bytes
write_xlog_profile2 p =
    write_long p.txid
    ▷ write_int p.obj_hash
    ▷ write_int p.service
    ▷ write_int p.elapsed
    ▷ write_blob p.profile

-- `stype` is a u8, widened to i32.
unfoldable pub write_summary : SummaryPack → Bytes
write_summary p = write_blob (write_byte p.stype ▷ write_value (map p.table))

unfoldable pub write : Pack → Bytes
write (map_pack p) = write_map_pack p
write (xlog p) = XLog.write p
write (dropped_xlog p) = write_dropped_xlog p
write (xlog_profile p) = write_xlog_profile p
write (xlog_profile2 p) = write_xlog_profile2 p
write (text_pack p) = write_text_pack p
write (perf_counter p) = write_perf_counter p
write (status p) = write_status p
write (stack raw) = write_blob raw
write (summary p) = write_summary p
write (batch raw) = write_blob raw
write (interaction_perf_counter raw) = write_blob raw
write (alert p) = write_alert p
write (object p) = write_object p
write (span raw) = write_blob raw
write (span_container raw) = write_blob raw

unfoldable pub write_pack : Pack → Bytes
write_pack p = write_byte (type_code p) ▷ write p
