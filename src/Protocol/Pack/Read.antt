-- ===== src/Protocol/Pack/Read.antt =====
-- src/protocol/pack/mod.rs: how the packs are read.
use scouter_server_rust.Common.{ℕ, ◌==◌, if◌then◌else◌}
use scouter_server_rust.Outcome.{Outcome, unknown_pack_type}
use scouter_server_rust.Protocol.Input.{
  Reader, ◌>>=◌, pure, fail, lift, read_boolean, read_byte, read_unsigned_byte, read_int, read_long,
  read_decimal, read_blob, read_text,
}
use scouter_server_rust.Protocol.Value.{MapValue, empty, into_map_or_default}
use scouter_server_rust.Protocol.Value.Read.{read_i32, read_entries, read_value}
use scouter_server_rust.Protocol.Pack.{
  Pack, MapPack, PerfCounterPack, DroppedXLogPack, TextPack, AlertPack, ObjectPack, StatusPack,
  XLogProfilePack, SummaryPack, map_pack, xlog, dropped_xlog, xlog_profile, xlog_profile2,
  text_pack, perf_counter, status, stack, summary, batch, interaction_perf_counter, alert, object,
  span, span_container,
}
use scouter_server_rust.Protocol.Pack.XLog as XLog
use scouter_server_rust.Protocol.Pack.Envelope.{read_envelope}

unfoldable pub read_dropped_xlog : Reader DroppedXLogPack
read_dropped_xlog =
    read_envelope
      (do txid ← read_long; gxid ← read_long; pure (record { txid = txid; gxid = gxid }))

unfoldable pub read_text_pack : Reader TextPack
read_text_pack = do
  xtype ← read_text
  hash ← read_int
  text ← read_text
  pure (record { xtype = xtype; hash = hash; text = text })

unfoldable pub read_xlog_profile : Reader XLogProfilePack
read_xlog_profile = do
  txid ← read_long
  obj_hash ← read_int
  profile ← read_blob
  pure (record { txid = txid; obj_hash = obj_hash; profile = profile; service = 0; elapsed = 0 })

unfoldable pub read_xlog_profile2 : Reader XLogProfilePack
read_xlog_profile2 = do
  txid ← read_long
  obj_hash ← read_int
  service ← read_int
  elapsed ← read_int
  profile ← read_blob
  pure (record {
    txid = txid;
    obj_hash = obj_hash;
    profile = profile;
    service = service;
    elapsed = elapsed;
  })

-- `reserve n` is `HashMap::with_capacity(n)`, which may panic.
module _ (value_size : ℕ) (reserve : ℕ → Outcome (Unit {0})) where
  -- `din.read_value()?.into_map_value().unwrap_or_default()`
  unfoldable pub read_table : Reader MapValue
  read_table = do v ← read_value value_size; pure (into_map_or_default v)

  unfoldable pub read_map_pack : Reader MapPack
  read_map_pack = do
    count ← read_decimal
    _ ← lift (reserve count)
    table ← read_entries (read_value value_size) count empty
    pure (record { table = table })

  unfoldable pub read_perf_counter : Reader PerfCounterPack
  read_perf_counter = do
    time ← read_long
    obj_name ← read_text
    timetype ← read_byte
    table ← read_table
    pure (record { time = time; obj_name = obj_name; timetype = timetype; data_map = table })

  unfoldable pub read_alert : Reader AlertPack
  read_alert = do
    time ← read_long
    level ← read_byte
    obj_type ← read_text
    obj_hash ← read_int
    title ← read_text
    message ← read_text
    tags ← read_table
    pure (record {
      time = time;
      obj_type = obj_type;
      obj_hash = obj_hash;
      level = level;
      title = title;
      message = message;
      tags = tags;
    })

  unfoldable pub read_object : Reader ObjectPack
  read_object = do
    obj_type ← read_text
    obj_hash ← read_i32
    obj_name ← read_text
    address ← read_text
    version ← read_text
    alive ← read_boolean
    wakeup ← read_decimal
    tags ← read_table
    pure (record {
      obj_type = obj_type;
      obj_hash = obj_hash;
      obj_name = obj_name;
      address = address;
      version = version;
      alive = alive;
      wakeup = wakeup;
      tags = tags;
    })

  unfoldable pub read_status : Reader StatusPack
  read_status = do
    time ← read_decimal
    obj_type ← read_text
    obj_hash ← read_i32
    key ← read_text
    table ← read_table
    pure (record {
      time = time;
      obj_type = obj_type;
      obj_hash = obj_hash;
      key = key;
      data_map = table;
    })

  unfoldable pub read_summary : Reader SummaryPack
  read_summary =
      read_envelope
        (do stype ← read_byte; table ← read_table; pure (record { stype = stype; table = table }))

  unfoldable pub read : ℕ → Reader Pack
  read code =
      if code == 10
      then (do p ← read_map_pack; pure (map_pack p))
      else if code == 21
      then (do p ← XLog.read; pure (xlog p))
      else if code == 22
      then (do p ← read_dropped_xlog; pure (dropped_xlog p))
      else if code == 26
      then (do p ← read_xlog_profile; pure (xlog_profile p))
      else if code == 27
      then (do p ← read_xlog_profile2; pure (xlog_profile2 p))
      else if code == 50
      then (do p ← read_text_pack; pure (text_pack p))
      else if code == 60
      then (do p ← read_perf_counter; pure (perf_counter p))
      else if code == 61
      then (do p ← read_status; pure (status p))
      else if code == 62
      then (do raw ← read_blob; pure (stack raw))
      else if code == 63
      then (do p ← read_summary; pure (summary p))
      else if code == 64
      then (do raw ← read_blob; pure (batch raw))
      else if code == 65
      then (do raw ← read_blob; pure (interaction_perf_counter raw))
      else if code == 70
      then (do p ← read_alert; pure (alert p))
      else if code == 80
      then (do p ← read_object; pure (object p))
      else if code == 31
      then (do raw ← read_blob; pure (span raw))
      else if code == 32
      then (do raw ← read_blob; pure (span_container raw))
      else fail (unknown_pack_type code)

  unfoldable pub read_pack : Reader Pack
  read_pack = do code ← read_unsigned_byte; read code
