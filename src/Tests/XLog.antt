-- ===== src/Tests/XLog.antt =====
-- `XLogPack` at a concrete pack.
use scouter_server_rust.Common.{refl, arith, true, ◌<◌, ◌^◌, length, [], ◌∷◌, ◌++◌}
use scouter_server_rust.Protocol.Reads.{Reads}
use scouter_server_rust.Protocol.Value.{write_i32}
use scouter_server_rust.Protocol.Output.{
  write_decimal, write_long, write_blob, write_text, write_boolean, write_byte, write_short,
  write_int, write_int3, write_long5,
}
use scouter_server_rust.Protocol.Utf8.{is_utf8}
use scouter_server_rust.Protocol.Pack.XLog.{
  XLogPack, default, read, write_fields, write_required_part, write_country_part, write_x_type_part,
  write_login_part, write_web_part, write_has_dump_part, write_thread_part, write_texts12_part,
  write_queuing_part, write_texts345_part, write_profile_count_part, write_b3_mode_part,
  write_sampling_part,
}
use scouter_server_rust.Protocol.Pack.XLog.Fields.{IsValid, required_only, read_newer, read_older}

abbrev pub p : XLogPack
p = record default {
  end_time = 1700000000000;
  obj_hash = 77;
  elapsed = 1200;
  ipaddr = 127 ∷ 0 ∷ 0 ∷ 1 ∷ [];
  text1 = 97 ∷ [];
  b3_mode = true;
}

pub p-IsValid : IsValid p
unfolding default is_utf8
p-IsValid = record {
  end_time = omega arith;
  obj_hash = omega arith;
  service = omega arith;
  txid = omega arith;
  thread_name_hash = omega arith;
  caller = omega arith;
  gxid = omega arith;
  elapsed = omega arith;
  error = omega arith;
  cpu = omega arith;
  sql_count = omega arith;
  sql_time = omega arith;
  ipaddr = omega arith;
  kbytes = omega arith;
  status = omega arith;
  userid = omega arith;
  user_agent = omega arith;
  referer = omega arith;
  group = omega arith;
  apicall_count = omega arith;
  apicall_time = omega arith;
  country_code = (refl, omega arith);
  city = omega arith;
  x_type = omega arith;
  login = omega arith;
  desc = omega arith;
  web_hash = omega arith;
  web_time = omega arith;
  has_dump = omega arith;
  text1 = (refl, omega arith);
  text2 = (refl, omega arith);
  queuing_host_hash = omega arith;
  queuing_time = omega arith;
  queuing_2nd_host_hash = omega arith;
  queuing_2nd_time = omega arith;
  text3 = (refl, omega arith);
  text4 = (refl, omega arith);
  text5 = (refl, omega arith);
  profile_count = omega arith;
  profile_size = omega arith;
  discard_type = omega arith;
}

pub fields_Fit : length (write_fields p ++ (1 ∷ 2 ∷ [])) < 2 ^ 31
unfolding default write_fields write_required_part write_country_part write_x_type_part
    write_login_part write_web_part write_has_dump_part write_thread_part write_texts12_part
    write_queuing_part write_texts345_part write_profile_count_part write_b3_mode_part
    write_sampling_part write_decimal write_i32 write_long write_blob write_text write_boolean
    write_byte write_short write_int write_int3 write_long5
fields_Fit = omega arith

required_Fit : length (write_required_part p) < 2 ^ 31
unfolding default write_fields write_required_part write_country_part write_x_type_part
    write_login_part write_web_part write_has_dump_part write_thread_part write_texts12_part
    write_queuing_part write_texts345_part write_profile_count_part write_b3_mode_part
    write_sampling_part write_decimal write_i32 write_long write_blob write_text write_boolean
    write_byte write_short write_int write_int3 write_long5
required_Fit = omega arith

read_newer_example : Reads read (write_blob (write_fields p ++ (1 ∷ 2 ∷ []))) p
read_newer_example = read_newer p p-IsValid (1 ∷ 2 ∷ []) fields_Fit

read_older_example : Reads read (write_blob (write_required_part p)) (required_only p p-IsValid)
read_older_example = read_older p p-IsValid required_Fit
