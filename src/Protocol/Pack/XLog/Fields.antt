-- ===== src/Protocol/Pack/XLog/Fields.antt =====
-- The fields of an `XLogPack` read back, and what envelopes of other lengths give.
use scouter_server_rust.Common.{
  ℕ, ◌<◌, ◌^◌, ◌≡◌, ap, append-nil, arith, [], ◌++◌, length, length-append,
}
use scouter_server_rust.Word.{Bytes, sign_extend32, IsByte, IsWord32, IsWord64}
use scouter_server_rust.Protocol.Output.{write_blob, write_text}
use scouter_server_rust.Outcome.{ok}
use scouter_server_rust.Protocol.Input.{◌>>=◌}
use scouter_server_rust.Protocol.Reads.{Reads, Reads-bind, Reads-then, Reads-pure, Reads-bytes, at}
use scouter_server_rust.Protocol.Numbers.{read_boolean-Reads, read_long-Reads}
use scouter_server_rust.Protocol.Decimal.{read_decimal-write_decimal}
use scouter_server_rust.Protocol.Blobs.{read_blob-write_blob, read_text-write_text}
use scouter_server_rust.Protocol.Value.RoundTrip.{read_i32-write_i32}
use scouter_server_rust.Protocol.Value.Valid.{IsText, IsBlob}
use scouter_server_rust.Protocol.Pack.Envelope.{
  Reads-group, Reads-envelope, Reads-opened, when_available-nothing, read_i8-Reads, write_byte-pos,
  write_i32-pos, write_blob-pos, write_boolean-pos,
}
use scouter_server_rust.Protocol.Pack.XLog.{
  XLogPack, default, read, write, read_fields, write_fields, read_required_part,
  write_required_part, read_country_part, write_country_part, read_x_type_part, write_x_type_part,
  read_login_part, write_login_part, read_web_part, write_web_part, read_has_dump_part,
  write_has_dump_part, read_thread_part, write_thread_part, read_texts12_part, write_texts12_part,
  read_queuing_part, write_queuing_part, read_texts345_part, write_texts345_part,
  read_profile_count_part, write_profile_count_part, read_b3_mode_part, write_b3_mode_part,
  read_sampling_part, write_sampling_part,
}

-- The ranges of the Rust types of the fields.
pub record IsValid (p : XLogPack) : Type 0 where
  pub end_time : IsWord64 p.end_time
  pub obj_hash : IsWord32 p.obj_hash
  pub service : IsWord32 p.service
  pub txid : IsWord64 p.txid
  pub thread_name_hash : IsWord32 p.thread_name_hash
  pub caller : IsWord64 p.caller
  pub gxid : IsWord64 p.gxid
  pub elapsed : IsWord32 p.elapsed
  pub error : IsWord32 p.error
  pub cpu : IsWord32 p.cpu
  pub sql_count : IsWord32 p.sql_count
  pub sql_time : IsWord32 p.sql_time
  pub ipaddr : IsBlob p.ipaddr
  pub kbytes : IsWord32 p.kbytes
  pub status : IsWord32 p.status
  pub userid : IsWord64 p.userid
  pub user_agent : IsWord32 p.user_agent
  pub referer : IsWord32 p.referer
  pub group : IsWord32 p.group
  pub apicall_count : IsWord32 p.apicall_count
  pub apicall_time : IsWord32 p.apicall_time
  pub country_code : IsText p.country_code
  pub city : IsWord32 p.city
  pub x_type : IsByte p.x_type
  pub login : IsWord32 p.login
  pub desc : IsWord32 p.desc
  pub web_hash : IsWord32 p.web_hash
  pub web_time : IsWord32 p.web_time
  pub has_dump : IsByte p.has_dump
  pub text1 : IsText p.text1
  pub text2 : IsText p.text2
  pub queuing_host_hash : IsWord32 p.queuing_host_hash
  pub queuing_time : IsWord32 p.queuing_time
  pub queuing_2nd_host_hash : IsWord32 p.queuing_2nd_host_hash
  pub queuing_2nd_time : IsWord32 p.queuing_2nd_time
  pub text3 : IsText p.text3
  pub text4 : IsText p.text4
  pub text5 : IsText p.text5
  pub profile_count : IsWord32 p.profile_count
  pub profile_size : IsWord32 p.profile_size
  pub discard_type : IsByte p.discard_type

module _ (p : XLogPack) (v : IsValid p) where
  required_Reads :
      (q : XLogPack)
      → Reads (read_required_part q) (write_required_part p) (record q {
        end_time = p.end_time;
        obj_hash = p.obj_hash;
        service = p.service;
        txid = p.txid;
        caller = p.caller;
        gxid = p.gxid;
        elapsed = p.elapsed;
        error = p.error;
        cpu = p.cpu;
        sql_count = p.sql_count;
        sql_time = p.sql_time;
        ipaddr = p.ipaddr;
        kbytes = p.kbytes;
        status = p.status;
        userid = p.userid;
        user_agent = p.user_agent;
        referer = p.referer;
        group = p.group;
        apicall_count = p.apicall_count;
        apicall_time = p.apicall_time;
      })
  unfolding read_required_part write_required_part
  required_Reads q = Reads-bind _ (read_decimal-write_decimal p.end_time v.end_time) (
      Reads-bind _ (read_i32-write_i32 p.obj_hash v.obj_hash) (
        Reads-bind _ (read_i32-write_i32 p.service v.service) (
          Reads-bind _ (read_long-Reads p.txid v.txid) (
            Reads-bind _ (read_long-Reads p.caller v.caller) (
              Reads-bind _ (read_long-Reads p.gxid v.gxid) (
                Reads-bind _ (read_i32-write_i32 p.elapsed v.elapsed) (
                  Reads-bind _ (read_i32-write_i32 p.error v.error) (
                    Reads-bind _ (read_i32-write_i32 p.cpu v.cpu) (
                      Reads-bind _ (read_i32-write_i32 p.sql_count v.sql_count) (
                        Reads-bind _ (read_i32-write_i32 p.sql_time v.sql_time) (
                          Reads-bind _ (read_blob-write_blob p.ipaddr v.ipaddr) (
                            Reads-bind _ (read_i32-write_i32 p.kbytes v.kbytes) (
                              Reads-bind _ (read_i32-write_i32 p.status v.status) (
                                Reads-bind _ (read_decimal-write_decimal p.userid v.userid) (
                                  Reads-bind _ (read_i32-write_i32 p.user_agent v.user_agent) (
                                    Reads-bind _ (read_i32-write_i32 p.referer v.referer) (
                                      Reads-bind _ (read_i32-write_i32 p.group v.group) (
                                        Reads-bind _
                                          (read_i32-write_i32 p.apicall_count v.apicall_count)
                                          (Reads-then _
                                            (read_i32-write_i32 p.apicall_time v.apicall_time)
                                            (Reads-pure _))))))))))))))))))))

  country_Reads :
      (q : XLogPack)
      → Reads
          (read_country_part q)
          (write_country_part p)
          (record q { country_code = p.country_code; city = p.city })
  unfolding read_country_part write_country_part
  country_Reads q =
      Reads-bind _ (read_text-write_text p.country_code v.country_code.0 v.country_code.1)
        (Reads-then _ (read_i32-write_i32 p.city v.city) (Reads-pure _))

  x_type_Reads :
      (q : XLogPack)
      → Reads (read_x_type_part q) (write_x_type_part p) (record q { x_type = p.x_type })
  unfolding read_x_type_part write_x_type_part
  x_type_Reads q = Reads-then _ (read_i8-Reads p.x_type v.x_type) (Reads-pure _)

  login_Reads :
      (q : XLogPack)
      → Reads (read_login_part q) (write_login_part p) (record q { login = p.login; desc = p.desc })
  unfolding read_login_part write_login_part
  login_Reads q =
      Reads-bind _ (read_i32-write_i32 p.login v.login)
        (Reads-then _ (read_i32-write_i32 p.desc v.desc) (Reads-pure _))

  web_Reads :
      (q : XLogPack)
      → Reads
          (read_web_part q)
          (write_web_part p)
          (record q { web_hash = p.web_hash; web_time = p.web_time })
  unfolding read_web_part write_web_part
  web_Reads q =
      Reads-bind _ (read_i32-write_i32 p.web_hash v.web_hash)
        (Reads-then _ (read_i32-write_i32 p.web_time v.web_time) (Reads-pure _))

  has_dump_Reads :
      (q : XLogPack)
      → Reads (read_has_dump_part q) (write_has_dump_part p) (record q { has_dump = p.has_dump })
  unfolding read_has_dump_part write_has_dump_part
  has_dump_Reads q = Reads-then _ (read_i8-Reads p.has_dump v.has_dump) (Reads-pure _)

  thread_Reads :
      (q : XLogPack)
      → Reads
          (read_thread_part q)
          (write_thread_part p)
          (record q { thread_name_hash = p.thread_name_hash })
  unfolding read_thread_part write_thread_part
  thread_Reads q =
      Reads-then _ (read_i32-write_i32 p.thread_name_hash v.thread_name_hash) (Reads-pure _)

  texts12_Reads :
      (q : XLogPack)
      → Reads
          (read_texts12_part q)
          (write_texts12_part p)
          (record q { text1 = p.text1; text2 = p.text2 })
  unfolding read_texts12_part write_texts12_part
  texts12_Reads q =
      Reads-bind _ (read_text-write_text p.text1 v.text1.0 v.text1.1)
        (Reads-then _ (read_text-write_text p.text2 v.text2.0 v.text2.1) (Reads-pure _))

  queuing_Reads :
      (q : XLogPack)
      → Reads (read_queuing_part q) (write_queuing_part p) (record q {
        queuing_host_hash = p.queuing_host_hash;
        queuing_time = p.queuing_time;
        queuing_2nd_host_hash = p.queuing_2nd_host_hash;
        queuing_2nd_time = p.queuing_2nd_time;
      })
  unfolding read_queuing_part write_queuing_part
  queuing_Reads q = Reads-bind _ (read_i32-write_i32 p.queuing_host_hash v.queuing_host_hash) (
      Reads-bind _ (read_i32-write_i32 p.queuing_time v.queuing_time) (
        Reads-bind _ (read_i32-write_i32 p.queuing_2nd_host_hash v.queuing_2nd_host_hash)
          (Reads-then _ (read_i32-write_i32 p.queuing_2nd_time v.queuing_2nd_time) (Reads-pure _))))

  texts345_Reads :
      (q : XLogPack)
      → Reads
          (read_texts345_part q)
          (write_texts345_part p)
          (record q { text3 = p.text3; text4 = p.text4; text5 = p.text5 })
  unfolding read_texts345_part write_texts345_part
  texts345_Reads q = Reads-bind _ (read_text-write_text p.text3 v.text3.0 v.text3.1) (
      Reads-bind _ (read_text-write_text p.text4 v.text4.0 v.text4.1)
        (Reads-then _ (read_text-write_text p.text5 v.text5.0 v.text5.1) (Reads-pure _)))

  profile_count_Reads :
      (q : XLogPack)
      → Reads
          (read_profile_count_part q)
          (write_profile_count_part p)
          (record q { profile_count = p.profile_count })
  unfolding read_profile_count_part write_profile_count_part
  profile_count_Reads q =
      Reads-then _ (read_i32-write_i32 p.profile_count v.profile_count) (Reads-pure _)

  b3_mode_Reads :
      (q : XLogPack)
      → Reads (read_b3_mode_part q) (write_b3_mode_part p) (record q { b3_mode = p.b3_mode })
  unfolding read_b3_mode_part write_b3_mode_part
  b3_mode_Reads q = Reads-then _ (read_boolean-Reads p.b3_mode) (Reads-pure _)

  sampling_Reads :
      (q : XLogPack)
      → Reads (read_sampling_part q) (write_sampling_part p) (record q {
        profile_size = p.profile_size;
        discard_type = p.discard_type;
        ignore_global_consequent_sampling = p.ignore_global_consequent_sampling;
      })
  unfolding read_sampling_part write_sampling_part
  sampling_Reads q = Reads-bind _ (read_i32-write_i32 p.profile_size v.profile_size) (
      Reads-bind _ (read_i8-Reads p.discard_type v.discard_type)
        (Reads-then _ (read_boolean-Reads p.ignore_global_consequent_sampling) (Reads-pure _)))

  country_pos : 0 < length (write_country_part p)
  unfolding write_country_part write_text
  country_pos = rw length-append (omega (arith, write_blob-pos p.country_code))

  x_type_pos : 0 < length (write_x_type_part p)
  unfolding write_x_type_part
  x_type_pos = write_byte-pos (sign_extend32 8 p.x_type)

  login_pos : 0 < length (write_login_part p)
  unfolding write_login_part
  login_pos = rw length-append (omega (arith, write_i32-pos p.login))

  web_pos : 0 < length (write_web_part p)
  unfolding write_web_part
  web_pos = rw length-append (omega (arith, write_i32-pos p.web_hash))

  has_dump_pos : 0 < length (write_has_dump_part p)
  unfolding write_has_dump_part
  has_dump_pos = write_byte-pos (sign_extend32 8 p.has_dump)

  thread_pos : 0 < length (write_thread_part p)
  unfolding write_thread_part
  thread_pos = write_i32-pos p.thread_name_hash

  texts12_pos : 0 < length (write_texts12_part p)
  unfolding write_texts12_part write_text
  texts12_pos = rw length-append (omega (arith, write_blob-pos p.text1))

  queuing_pos : 0 < length (write_queuing_part p)
  unfolding write_queuing_part
  queuing_pos = rw length-append (omega (arith, write_i32-pos p.queuing_host_hash))

  texts345_pos : 0 < length (write_texts345_part p)
  unfolding write_texts345_part write_text
  texts345_pos = rw length-append (omega (arith, write_blob-pos p.text3))

  profile_count_pos : 0 < length (write_profile_count_part p)
  unfolding write_profile_count_part
  profile_count_pos = write_i32-pos p.profile_count

  b3_mode_pos : 0 < length (write_b3_mode_part p)
  unfolding write_b3_mode_part
  b3_mode_pos = write_boolean-pos p.b3_mode

  sampling_pos : 0 < length (write_sampling_part p)
  unfolding write_sampling_part
  sampling_pos = rw length-append (omega (arith, write_i32-pos p.profile_size))

  fields_Reads : Reads read_fields (write_fields p) p
  unfolding read_fields write_fields
  fields_Reads = Reads-bind _ (required_Reads default) (
      Reads-bind _ (Reads-group _ country_pos (country_Reads _)) (
        Reads-bind _ (Reads-group _ x_type_pos (x_type_Reads _)) (
          Reads-bind _ (Reads-group _ login_pos (login_Reads _)) (
            Reads-bind _ (Reads-group _ web_pos (web_Reads _)) (
              Reads-bind _ (Reads-group _ has_dump_pos (has_dump_Reads _)) (
                Reads-bind _ (Reads-group _ thread_pos (thread_Reads _)) (
                  Reads-bind _ (Reads-group _ texts12_pos (texts12_Reads _)) (
                    Reads-bind _ (Reads-group _ queuing_pos (queuing_Reads _)) (
                      Reads-bind _ (Reads-group _ texts345_pos (texts345_Reads _)) (
                        Reads-bind _ (Reads-group _ profile_count_pos (profile_count_Reads _)) (
                          Reads-bind _ (Reads-group _ b3_mode_pos (b3_mode_Reads _))
                            (Reads-group _ sampling_pos (sampling_Reads _)))))))))))))

  -- The fields that are always there, over the defaults.
  abbrev pub required_only : XLogPack
  required_only = record default {
    end_time = p.end_time;
    obj_hash = p.obj_hash;
    service = p.service;
    txid = p.txid;
    caller = p.caller;
    gxid = p.gxid;
    elapsed = p.elapsed;
    error = p.error;
    cpu = p.cpu;
    sql_count = p.sql_count;
    sql_time = p.sql_time;
    ipaddr = p.ipaddr;
    kbytes = p.kbytes;
    status = p.status;
    userid = p.userid;
    user_agent = p.user_agent;
    referer = p.referer;
    group = p.group;
    apicall_count = p.apicall_count;
    apicall_time = p.apicall_time;
  }

  fields_older :
      read_fields (at (write_required_part p) 0)
      ≡ ok (required_only, at [] (length (write_required_part p)))
  unfolding read_fields ◌>>=◌
  fields_older =
      rw (← append-nil (write_required_part p), (required_Reads default).run [] 0)
        (simp when_available-nothing (
          ap (λ (n : ℕ). ok (required_only, at [] n))
            (rw (append-nil (write_required_part p)) (omega arith))))

  -- Reading an envelope below 2 ^ 31 bytes of a newer sender, which writes anything behind the fields
  -- known here, gives every field back and leaves what follows the envelope, for fields in the ranges
  -- of their Rust types and texts and blobs below 2 ^ 31 bytes.
  pub read_newer :
      (extra : Bytes)
      → length (write_fields p ++ extra) < 2 ^ 31
      → Reads read (write_blob (write_fields p ++ extra)) p
  unfolding read
  read_newer extra h = Reads-envelope extra fields_Reads h

  -- Reading what `write` wrote gives every field back and leaves what follows.
  pub read-write : length (write_fields p) < 2 ^ 31 → Reads read (write p) p
  unfolding write
  read-write h =
      Reads-bytes (ap write_blob (append-nil (write_fields p)))
        (read_newer [] (rw (append-nil (write_fields p)) h))

  -- Reading an envelope below 2 ^ 31 bytes of an older sender, which stops behind the fields that are
  -- always there, gives those fields and the defaults of the others and leaves what follows the
  -- envelope, for fields in the ranges of their Rust types and texts and blobs below 2 ^ 31 bytes.
  pub read_older :
      length (write_required_part p) < 2 ^ 31
      → Reads read (write_blob (write_required_part p)) required_only
  unfolding read
  read_older h = Reads-opened _ (write_required_part p) fields_older h
