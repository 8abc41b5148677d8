-- ===== src/Protocol/Pack/RoundTrip.antt =====
-- Packs read back as they were written.
use scouter_server_rust.Common.{ℕ, ◌<◌, ◌^◌, ◌≡◌, refl, ap, arith, [], ◌++◌, length, append-nil}
use scouter_server_rust.Word.{Bytes, as_8}
use scouter_server_rust.Outcome.{Outcome, ok}
use scouter_server_rust.Protocol.Input.{Reader, lift, read_text}
use scouter_server_rust.Protocol.Output.{write_blob, write_text, write_long}
use scouter_server_rust.Protocol.Reads.{
  Reads, Reads-bind, Reads-then, Reads-pure, Reads-lift, Reads-value, Reads-bytes,
}
use scouter_server_rust.Protocol.Numbers.{
  read_boolean-Reads, read_byte-Reads, read_int-Reads, read_long-Reads, read_unsigned_byte-Reads,
}
use scouter_server_rust.Protocol.Decimal.{read_decimal-write_decimal}
use scouter_server_rust.Protocol.Blobs.{read_blob-write_blob, read_text-write_text}
use scouter_server_rust.Protocol.Value.{
  MapValue, empty, entry, map, size, write_value, write_entries, put, into_map_or_default,
}
use scouter_server_rust.Protocol.Value.Read.{read_entries, read_value}
use scouter_server_rust.Protocol.Value.Maps.{
  append_entries, append_entries-empty, put-new, Apart, Apart-put, Apart-empty,
}
use scouter_server_rust.Protocol.Value.Valid.{IsText, IsValidMap}
use scouter_server_rust.Protocol.Value.RoundTrip.{read_value-write_value, read_i32-write_i32}
use scouter_server_rust.Protocol.Pack.{
  Pack, DroppedXLogPack, map_pack, xlog, dropped_xlog, xlog_profile, xlog_profile2, text_pack,
  perf_counter, status, stack, summary, batch, interaction_perf_counter, alert, object, span,
  span_container, type_code, write, write_pack, write_map_pack, write_perf_counter,
  write_dropped_xlog, write_text_pack, write_alert, write_object, write_status, write_xlog_profile,
  write_xlog_profile2, write_summary,
}
use scouter_server_rust.Protocol.Pack.Read.{
  read, read_pack, read_dropped_xlog, read_text_pack, read_xlog_profile, read_xlog_profile2,
  read_table, read_map_pack, read_perf_counter, read_alert, read_object, read_status, read_summary,
}
use scouter_server_rust.Protocol.Pack.Valid.{IsTable, IsValid, as_sent}
use scouter_server_rust.Protocol.Pack.Envelope.{Reads-envelope, read_i8-Reads, read_envelope}
use scouter_server_rust.Protocol.Pack.XLog.Fields as Fields

-- A text, by its validity.
text_Reads : (s : Bytes) → IsText s → Reads read_text (write_text s) s
text_Reads s t = read_text-write_text s t.0 t.1

whole_envelope :
    {A : Type 0} {p : Reader A} {a : A} (xs : Bytes)
    → Reads p xs a
    → length xs < 2 ^ 31
    → Reads (read_envelope p) (write_blob xs) a
whole_envelope xs r h =
    Reads-bytes (ap write_blob (append-nil xs)) (Reads-envelope [] r (rw (append-nil xs) h))

code_byte : (p : Pack) → as_8 (type_code p) ≡ type_code p
unfolding type_code
code_byte (map_pack p) = refl
code_byte (xlog p) = refl
code_byte (dropped_xlog p) = refl
code_byte (xlog_profile p) = refl
code_byte (xlog_profile2 p) = refl
code_byte (text_pack p) = refl
code_byte (perf_counter p) = refl
code_byte (status p) = refl
code_byte (stack p) = refl
code_byte (summary p) = refl
code_byte (batch p) = refl
code_byte (interaction_perf_counter p) = refl
code_byte (alert p) = refl
code_byte (object p) = refl
code_byte (span p) = refl
code_byte (span_container p) = refl

dropped_Fits : (p : DroppedXLogPack) → length (write_long p.txid ++ write_long p.gxid) < 2 ^ 31
unfolding write_long
dropped_Fits p = omega arith

Reads-ok : {A : Type 0} {o : Outcome A} {a : A} → o ≡ ok a → Reads (lift o) [] a
Reads-ok {a = a} e = rw e (Reads-lift a)

module _ (value_size : ℕ) (reserve : ℕ → Outcome (Unit {0})) where
  table_Reads :
      (m : MapValue)
      → IsTable value_size reserve m
      → Reads (read_table value_size reserve) (write_value (map m)) m
  unfolding read_table into_map_or_default
  table_Reads m h = Reads-then _ (read_value-write_value value_size (map m) h) (Reads-pure _)

  entries_Reads :
      (m t : MapValue)
      → IsValidMap value_size m
      → Apart t m
      → Reads
          (read_entries (read_value value_size) (size m) t)
          (write_entries m)
          (append_entries t m)
  unfolding read_entries write_entries write_value
  entries_Reads empty t h a = Reads-value (append_entries-empty t) (Reads-pure t)
  entries_Reads (entry k v m) t (kt, hv, new, hm) (a, as') = Reads-bind _ (text_Reads k kt) (
      Reads-bind _ (read_value-write_value value_size v hv) (
        Reads-value (put-new k v t m a)
          (entries_Reads m (put k v t) hm (Apart-put k v t m new as'))))

  -- Reading what `write` wrote, by the type code of the pack, gives the pack as it is sent.
  body_Reads :
      (p : Pack)
      → IsValid value_size reserve p
      → Reads (read value_size reserve (type_code p)) (write p) (as_sent p)
  unfolding read write type_code read_map_pack write_map_pack read_dropped_xlog write_dropped_xlog
      read_text_pack write_text_pack read_xlog_profile write_xlog_profile read_xlog_profile2
      write_xlog_profile2 read_perf_counter write_perf_counter read_alert write_alert read_object
      write_object read_status write_status read_summary write_summary
  body_Reads (map_pack p) ((n, h), reserved) =
      Reads-then _
        (Reads-bind _ (read_decimal-write_decimal (size p.table) (omega arith)) (
          Reads-bind _ (Reads-ok reserved)
            (Reads-then _ (entries_Reads p.table empty h (Apart-empty p.table)) (Reads-pure _))))
        (Reads-pure _)
  body_Reads (xlog p) (v, h) = Reads-then _ (Fields.read-write p v h) (Reads-pure _)
  body_Reads (dropped_xlog p) (t, g) =
      Reads-then _
        (whole_envelope _
          (Reads-bind _ (read_long-Reads p.txid t)
            (Reads-then _ (read_long-Reads p.gxid g) (Reads-pure _)))
          (dropped_Fits p))
        (Reads-pure _)
  body_Reads (xlog_profile p) (t, o, b) =
      Reads-then _
        (Reads-bind _ (read_long-Reads p.txid t) (
          Reads-bind _ (read_int-Reads p.obj_hash o)
            (Reads-then _ (read_blob-write_blob p.profile b) (Reads-pure _))))
        (Reads-pure _)
  body_Reads (xlog_profile2 p) (t, o, b, s, e) =
      Reads-then _
        (Reads-bind _ (read_long-Reads p.txid t) (
          Reads-bind _ (read_int-Reads p.obj_hash o) (
            Reads-bind _ (read_int-Reads p.service s) (
              Reads-bind _ (read_int-Reads p.elapsed e)
                (Reads-then _ (read_blob-write_blob p.profile b) (Reads-pure _))))))
        (Reads-pure _)
  body_Reads (text_pack p) (x, h, t) =
      Reads-then _
        (Reads-bind _ (text_Reads p.xtype x) (
          Reads-bind _ (read_int-Reads p.hash h)
            (Reads-then _ (text_Reads p.text t) (Reads-pure _))))
        (Reads-pure _)
  body_Reads (perf_counter p) (t, n, k, d) =
      Reads-then _
        (Reads-bind _ (read_long-Reads p.time t) (
          Reads-bind _ (text_Reads p.obj_name n) (
            Reads-bind _ (read_i8-Reads p.timetype k)
              (Reads-then _ (table_Reads p.data_map d) (Reads-pure _)))))
        (Reads-pure _)
  body_Reads (status p) (t, y, o, k, d) =
      Reads-then _
        (Reads-bind _ (read_decimal-write_decimal p.time t) (
          Reads-bind _ (text_Reads p.obj_type y) (
            Reads-bind _ (read_i32-write_i32 p.obj_hash o) (
              Reads-bind _ (text_Reads p.key k)
                (Reads-then _ (table_Reads p.data_map d) (Reads-pure _))))))
        (Reads-pure _)
  body_Reads (stack raw) h = Reads-then _ (read_blob-write_blob raw h) (Reads-pure _)
  body_Reads (summary p) (s, t, n) =
      Reads-then _
        (whole_envelope _
          (Reads-bind _ (Reads-value (omega arith) (read_byte-Reads p.stype))
            (Reads-then _ (table_Reads p.table t) (Reads-pure _)))
          n)
        (Reads-pure _)
  body_Reads (batch raw) h = Reads-then _ (read_blob-write_blob raw h) (Reads-pure _)
  body_Reads (interaction_perf_counter raw) h =
      Reads-then _ (read_blob-write_blob raw h) (Reads-pure _)
  body_Reads (alert p) (t, y, o, l, ti, m, d) =
      Reads-then _
        (Reads-bind _ (read_long-Reads p.time t) (
          Reads-bind _ (read_i8-Reads p.level l) (
            Reads-bind _ (text_Reads p.obj_type y) (
              Reads-bind _ (read_int-Reads p.obj_hash o) (
                Reads-bind _ (text_Reads p.title ti) (
                  Reads-bind _ (text_Reads p.message m)
                    (Reads-then _ (table_Reads p.tags d) (Reads-pure _))))))))
        (Reads-pure _)
  body_Reads (object p) (y, o, n, a, r, w, d) =
      Reads-then _
        (Reads-bind _ (text_Reads p.obj_type y) (
          Reads-bind _ (read_i32-write_i32 p.obj_hash o) (
            Reads-bind _ (text_Reads p.obj_name n) (
              Reads-bind _ (text_Reads p.address a) (
                Reads-bind _ (text_Reads p.version r) (
                  Reads-bind _ (read_boolean-Reads p.alive) (
                    Reads-bind _ (read_decimal-write_decimal p.wakeup w)
                      (Reads-then _ (table_Reads p.tags d) (Reads-pure _)))))))))
        (Reads-pure _)
  body_Reads (span raw) h = Reads-then _ (read_blob-write_blob raw h) (Reads-pure _)
  body_Reads (span_container raw) h = Reads-then _ (read_blob-write_blob raw h) (Reads-pure _)

  -- Reading what `write_pack` wrote gives the pack back and leaves what follows, but that the service
  -- and the elapsed time of an `XLogProfilePack`, which are not sent, are 0: for every pack whose
  -- numbers, texts and tables are those of the Rust types, whose texts, blobs and envelopes are below
  -- 2 ^ 31 bytes, whose table can be reserved and whose maps hold a key once.
  pub read_pack-write_pack :
      (p : Pack)
      → IsValid value_size reserve p
      → Reads (read_pack value_size reserve) (write_pack p) (as_sent p)
  unfolding read_pack write_pack
  read_pack-write_pack p h =
      Reads-bind _ (Reads-value (code_byte p) (read_unsigned_byte-Reads (type_code p)))
        (body_Reads p h)
