-- ===== src/Tests/Services.antt =====
-- src/core at concrete packs, together with the stores and the datagrams.
use scouter_server_rust.Common.{
  ℕ, ◌^◌, ◌<◌, ◌≡◌, ◌≢◌, refl, arith, true, some, [], ◌∷◌, ◌++◌, length, length-append,
}
use scouter_server_rust.Word.{Bytes}
use scouter_server_rust.Outcome.{Outcome, ok}
use scouter_server_rust.Protocol.Input.{DataInputX, from_bytes}
use scouter_server_rust.Protocol.Output.{
  ◌▷◌, write_decimal, write_long, write_blob, write_text, write_boolean, write_byte, write_short,
  write_int, write_int3, write_long5,
}
use scouter_server_rust.Protocol.Utf8.{is_utf8}
use scouter_server_rust.Protocol.Value.{empty, write_i32}
use scouter_server_rust.Protocol.Pack.{ObjectPack, object, xlog, type_code, write, write_pack}
use scouter_server_rust.Protocol.Pack.XLog as XLog
use scouter_server_rust.Protocol.Pack.XLog.{
  default, write_fields, write_required_part, write_country_part, write_x_type_part,
  write_login_part, write_web_part, write_has_dump_part, write_thread_part, write_texts12_part,
  write_queuing_part, write_texts345_part, write_profile_count_part, write_b3_mode_part,
  write_sampling_part,
}
use scouter_server_rust.Protocol.Pack.Read.{read_pack}
use scouter_server_rust.Core.ObjectCache as Cache
use scouter_server_rust.Core.AgentManager.{with_hash}
use scouter_server_rust.Core.Dispatcher.{with_address}
use scouter_server_rust.Core.Dispatcher.Agents.{received, get-received}
use scouter_server_rust.Core.XLogCache.{new}
use scouter_server_rust.Core.XLogCore.{time_of, process}
use scouter_server_rust.Core.XLogCore.Lookup.{written, read_by_txid-process}
use scouter_server_rust.Db.XLogStore.{XLogStore, read_by_txid}
use scouter_server_rust.Db.XLogStore.Layout.{file, points, by_txid, by_gxid}
use scouter_server_rust.Db.XLogStore.Refinement.{CanTake}
use scouter_server_rust.Db.IndexKeyFile.Layout.{layout}
use scouter_server_rust.Db.IndexKeyFile.Chain.{FitsFile}
use scouter_server_rust.Netio.NetCafe.{udp_java}
use scouter_server_rust.Tests.XLog.{p, p-IsValid, fields_Fit}
use scouter_server_rust.Tests.Stores.{date_millis, store, store_Represents, one_key}

abbrev reserve : ℕ → Outcome (Unit {0})
reserve n = ok tt

abbrev agent : ObjectPack
agent = record {
  obj_type = 106 ∷ [];
  obj_hash = 7;
  obj_name = 97 ∷ [];
  address = [];
  version = [];
  alive = true;
  wakeup = 1000;
  tags = empty;
}

abbrev ip : Bytes
ip = 49 ∷ 48 ∷ []

get-received_example :
    (Cache.get
        (received 32 reserve [] [] 5000 ip (write_int udp_java ▷ (write_pack (object agent) ++ [])))
        (with_hash (with_address ip agent)).obj_hash
      ≡ some (record (with_hash (with_address ip agent)) { wakeup = 5000; alive = true }))
    × ((h : ℕ)
        → h ≢ (with_hash (with_address ip agent)).obj_hash
        → Cache.get
            (received 32 reserve [] [] 5000 ip
              (write_int udp_java ▷ (write_pack (object agent) ++ [])))
            h
          ≡ Cache.get [] h)
unfolding is_utf8
get-received_example = get-received 32 reserve [] [] 5000 udp_java ip agent refl (
  (refl, omega arith),
  omega arith,
  (refl, omega arith),
  (refl, omega arith),
  (refl, omega arith),
  omega arith,
  (omega arith, tt),
)

pack-short : length (write_pack (xlog p)) < 2 ^ 15
unfolding default write_fields write_required_part write_country_part write_x_type_part
    write_login_part write_web_part write_has_dump_part write_thread_part write_texts12_part
    write_queuing_part write_texts345_part write_profile_count_part write_b3_mode_part
    write_sampling_part write_decimal write_i32 write_long write_blob write_text write_boolean
    write_byte write_short write_int write_int3 write_long5 write_pack write type_code XLog.write
pack-short = omega arith

no_keys : (home : Bytes → ℕ) → FitsFile home []
unfolding layout
no_keys home = record { entries = tt; file = omega arith }

p-CanTake : CanTake date_millis store [] (written 32 reserve date_millis 9 p)
unfolding points by_txid by_gxid file default time_of
p-CanTake = record {
  time_word = omega arith;
  positive = refl;
  sound = record { txid_word = omega arith; gxid_word = omega arith; short = pack-short };
  file_room = omega (arith, pack-short);
  time_room = (one_key _ 1700000000000 0).file;
  txid_room = one_key _ 0 0;
  gxid_room = no_keys _;
}

read_by_txid-process_example :
    (after : XLogStore) × (last : XLogStore) × (bytes : Bytes) × (rest : DataInputX) × ((process
        date_millis
        (new 20000)
        (ok store)
        9
        p).1
      ≡ ok after)
    × (read_by_txid after p.txid ≡ ok (some bytes, last))
    × (read_pack 32 reserve (from_bytes bytes) ≡ ok (xlog p, rest))
read_by_txid-process_example =
    read_by_txid-process 32 reserve date_millis (new 20000) store [] 9 p store_Represents p-CanTake
      (p-IsValid, omega (arith, fields_Fit, length-append (write_fields p) (1 ∷ 2 ∷ [])))
