-- ===== src/Protocol/Pack/XLog.antt =====
-- `XLogPack`: the record of one call of a service, in an envelope that may end before its later
-- groups of fields and may go on behind them.
pub mod Fields
use scouter_server_rust.Common.{ℕ, ◌==◌, ◌||◌, Bool, false, [], ◌∷◌, ◌++◌, if◌then◌else◌}
use scouter_server_rust.Word.{Bytes, sign_extend32}
use scouter_server_rust.Protocol.Output.{
  ◌▷◌, write_boolean, write_byte, write_long, write_decimal, write_blob, write_text,
}
use scouter_server_rust.Protocol.Input.{
  Reader, ◌>>=◌, pure, available, read_boolean, read_byte, read_long, read_decimal, read_blob,
  read_text,
}
use scouter_server_rust.Protocol.Value.{write_i32}
use scouter_server_rust.Protocol.Value.Read.{read_i32}
use scouter_server_rust.Protocol.Pack.Envelope.{read_envelope, when_available}

pub record XLogPack : Type 0 where
  pub end_time : ℕ
  pub obj_hash : ℕ
  pub service : ℕ
  pub txid : ℕ
  pub thread_name_hash : ℕ
  pub caller : ℕ
  pub gxid : ℕ
  pub elapsed : ℕ
  pub error : ℕ
  pub cpu : ℕ
  pub sql_count : ℕ
  pub sql_time : ℕ
  pub ipaddr : Bytes
  pub kbytes : ℕ
  pub status : ℕ
  pub userid : ℕ
  pub user_agent : ℕ
  pub referer : ℕ
  pub group : ℕ
  pub apicall_count : ℕ
  pub apicall_time : ℕ
  pub country_code : Bytes
  pub city : ℕ
  pub x_type : ℕ
  pub login : ℕ
  pub desc : ℕ
  pub web_hash : ℕ
  pub web_time : ℕ
  pub has_dump : ℕ
  pub text1 : Bytes
  pub text2 : Bytes
  pub queuing_host_hash : ℕ
  pub queuing_time : ℕ
  pub queuing_2nd_host_hash : ℕ
  pub queuing_2nd_time : ℕ
  pub text3 : Bytes
  pub text4 : Bytes
  pub text5 : Bytes
  pub profile_count : ℕ
  pub b3_mode : Bool
  pub profile_size : ℕ
  pub discard_type : ℕ
  pub ignore_global_consequent_sampling : Bool

unfoldable pub default : XLogPack
default = record {
  end_time = 0;
  obj_hash = 0;
  service = 0;
  txid = 0;
  thread_name_hash = 0;
  caller = 0;
  gxid = 0;
  elapsed = 0;
  error = 0;
  cpu = 0;
  sql_count = 0;
  sql_time = 0;
  ipaddr = [];
  kbytes = 0;
  status = 0;
  userid = 0;
  user_agent = 0;
  referer = 0;
  group = 0;
  apicall_count = 0;
  apicall_time = 0;
  country_code = [];
  city = 0;
  x_type = 0;
  login = 0;
  desc = 0;
  web_hash = 0;
  web_time = 0;
  has_dump = 0;
  text1 = [];
  text2 = [];
  queuing_host_hash = 0;
  queuing_time = 0;
  queuing_2nd_host_hash = 0;
  queuing_2nd_time = 0;
  text3 = [];
  text4 = [];
  text5 = [];
  profile_count = 0;
  b3_mode = false;
  profile_size = 0;
  discard_type = 0;
  ignore_global_consequent_sampling = false;
}

-- The fields that are always there.
unfoldable pub read_required_part : XLogPack → Reader XLogPack
read_required_part p = do
  end_time_read ← read_decimal
  obj_hash_read ← read_i32
  service_read ← read_i32
  txid_read ← read_long
  caller_read ← read_long
  gxid_read ← read_long
  elapsed_read ← read_i32
  error_read ← read_i32
  cpu_read ← read_i32
  sql_count_read ← read_i32
  sql_time_read ← read_i32
  ipaddr_read ← read_blob
  kbytes_read ← read_i32
  status_read ← read_i32
  userid_read ← read_decimal
  user_agent_read ← read_i32
  referer_read ← read_i32
  group_read ← read_i32
  apicall_count_read ← read_i32
  apicall_time_read ← read_i32
  pure (record p {
    end_time = end_time_read;
    obj_hash = obj_hash_read;
    service = service_read;
    txid = txid_read;
    caller = caller_read;
    gxid = gxid_read;
    elapsed = elapsed_read;
    error = error_read;
    cpu = cpu_read;
    sql_count = sql_count_read;
    sql_time = sql_time_read;
    ipaddr = ipaddr_read;
    kbytes = kbytes_read;
    status = status_read;
    userid = userid_read;
    user_agent = user_agent_read;
    referer = referer_read;
    group = group_read;
    apicall_count = apicall_count_read;
    apicall_time = apicall_time_read;
  })

-- The groups that are read only `if d.available() > 0`.
unfoldable pub read_country_part : XLogPack → Reader XLogPack
read_country_part p = do
  country_code_read ← read_text
  city_read ← read_i32
  pure (record p { country_code = country_code_read; city = city_read })

unfoldable pub read_x_type_part : XLogPack → Reader XLogPack
read_x_type_part p = do x_type_read ← read_byte; pure (record p { x_type = x_type_read })

unfoldable pub read_login_part : XLogPack → Reader XLogPack
read_login_part p = do
  login_read ← read_i32
  desc_read ← read_i32
  pure (record p { login = login_read; desc = desc_read })

unfoldable pub read_web_part : XLogPack → Reader XLogPack
read_web_part p = do
  web_hash_read ← read_i32
  web_time_read ← read_i32
  pure (record p { web_hash = web_hash_read; web_time = web_time_read })

unfoldable pub read_has_dump_part : XLogPack → Reader XLogPack
read_has_dump_part p = do has_dump_read ← read_byte; pure (record p { has_dump = has_dump_read })

unfoldable pub read_thread_part : XLogPack → Reader XLogPack
read_thread_part p = do
  thread_name_hash_read ← read_i32
  pure (record p { thread_name_hash = thread_name_hash_read })

unfoldable pub read_texts12_part : XLogPack → Reader XLogPack
read_texts12_part p = do
  text1_read ← read_text
  text2_read ← read_text
  pure (record p { text1 = text1_read; text2 = text2_read })

unfoldable pub read_queuing_part : XLogPack → Reader XLogPack
read_queuing_part p = do
  queuing_host_hash_read ← read_i32
  queuing_time_read ← read_i32
  queuing_2nd_host_hash_read ← read_i32
  queuing_2nd_time_read ← read_i32
  pure (record p {
    queuing_host_hash = queuing_host_hash_read;
    queuing_time = queuing_time_read;
    queuing_2nd_host_hash = queuing_2nd_host_hash_read;
    queuing_2nd_time = queuing_2nd_time_read;
  })

unfoldable pub read_texts345_part : XLogPack → Reader XLogPack
read_texts345_part p = do
  text3_read ← read_text
  text4_read ← read_text
  text5_read ← read_text
  pure (record p { text3 = text3_read; text4 = text4_read; text5 = text5_read })

unfoldable pub read_profile_count_part : XLogPack → Reader XLogPack
read_profile_count_part p = do
  profile_count_read ← read_i32
  pure (record p { profile_count = profile_count_read })

unfoldable pub read_b3_mode_part : XLogPack → Reader XLogPack
read_b3_mode_part p = do b3_mode_read ← read_boolean; pure (record p { b3_mode = b3_mode_read })

unfoldable pub read_sampling_part : XLogPack → Reader XLogPack
read_sampling_part p = do
  profile_size_read ← read_i32
  discard_type_read ← read_byte
  ignore_global_consequent_sampling_read ← read_boolean
  pure (record p {
    profile_size = profile_size_read;
    discard_type = discard_type_read;
    ignore_global_consequent_sampling = ignore_global_consequent_sampling_read;
  })

unfoldable pub read_fields : Reader XLogPack
read_fields = do
  p0 ← read_required_part default
  p1 ← when_available p0 (read_country_part p0)
  p2 ← when_available p1 (read_x_type_part p1)
  p3 ← when_available p2 (read_login_part p2)
  p4 ← when_available p3 (read_web_part p3)
  p5 ← when_available p4 (read_has_dump_part p4)
  p6 ← when_available p5 (read_thread_part p5)
  p7 ← when_available p6 (read_texts12_part p6)
  p8 ← when_available p7 (read_queuing_part p7)
  p9 ← when_available p8 (read_texts345_part p8)
  p10 ← when_available p9 (read_profile_count_part p9)
  p11 ← when_available p10 (read_b3_mode_part p10)
  when_available p11 (read_sampling_part p11)

unfoldable pub read : Reader XLogPack
read = read_envelope read_fields

unfoldable pub write_required_part : XLogPack → Bytes
write_required_part p =
    write_decimal p.end_time
    ▷ write_i32 p.obj_hash
    ▷ write_i32 p.service
    ▷ write_long p.txid
    ▷ write_long p.caller
    ▷ write_long p.gxid
    ▷ write_i32 p.elapsed
    ▷ write_i32 p.error
    ▷ write_i32 p.cpu
    ▷ write_i32 p.sql_count
    ▷ write_i32 p.sql_time
    ▷ write_blob p.ipaddr
    ▷ write_i32 p.kbytes
    ▷ write_i32 p.status
    ▷ write_decimal p.userid
    ▷ write_i32 p.user_agent
    ▷ write_i32 p.referer
    ▷ write_i32 p.group
    ▷ write_i32 p.apicall_count
    ▷ write_i32 p.apicall_time

unfoldable pub write_country_part : XLogPack → Bytes
write_country_part p = write_text p.country_code ▷ write_i32 p.city

unfoldable pub write_x_type_part : XLogPack → Bytes
write_x_type_part p = write_byte (sign_extend32 8 p.x_type)

unfoldable pub write_login_part : XLogPack → Bytes
write_login_part p = write_i32 p.login ▷ write_i32 p.desc

unfoldable pub write_web_part : XLogPack → Bytes
write_web_part p = write_i32 p.web_hash ▷ write_i32 p.web_time

unfoldable pub write_has_dump_part : XLogPack → Bytes
write_has_dump_part p = write_byte (sign_extend32 8 p.has_dump)

unfoldable pub write_thread_part : XLogPack → Bytes
write_thread_part p = write_i32 p.thread_name_hash

unfoldable pub write_texts12_part : XLogPack → Bytes
write_texts12_part p = write_text p.text1 ▷ write_text p.text2

unfoldable pub write_queuing_part : XLogPack → Bytes
write_queuing_part p =
    write_i32 p.queuing_host_hash
    ▷ write_i32 p.queuing_time
    ▷ write_i32 p.queuing_2nd_host_hash
    ▷ write_i32 p.queuing_2nd_time

unfoldable pub write_texts345_part : XLogPack → Bytes
write_texts345_part p = write_text p.text3 ▷ write_text p.text4 ▷ write_text p.text5

unfoldable pub write_profile_count_part : XLogPack → Bytes
write_profile_count_part p = write_i32 p.profile_count

unfoldable pub write_b3_mode_part : XLogPack → Bytes
write_b3_mode_part p = write_boolean p.b3_mode

unfoldable pub write_sampling_part : XLogPack → Bytes
write_sampling_part p =
    write_i32 p.profile_size
    ▷ write_byte (sign_extend32 8 p.discard_type)
    ▷ write_boolean p.ignore_global_consequent_sampling

unfoldable pub write_fields : XLogPack → Bytes
write_fields p =
    write_required_part p
    ▷ write_country_part p
    ▷ write_x_type_part p
    ▷ write_login_part p
    ▷ write_web_part p
    ▷ write_has_dump_part p
    ▷ write_thread_part p
    ▷ write_texts12_part p
    ▷ write_queuing_part p
    ▷ write_texts345_part p
    ▷ write_profile_count_part p
    ▷ write_b3_mode_part p
    ▷ write_sampling_part p

unfoldable pub write : XLogPack → Bytes
write p = write_blob (write_fields p)

unfoldable pub is_driving : XLogPack → Bool
is_driving p = p.gxid == p.txid || p.gxid == 0
