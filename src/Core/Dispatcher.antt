-- ===== src/Core/Dispatcher.antt =====
-- src/core/dispatcher.rs: where each pack goes. An agent's pack goes to the agent manager at once; the
-- other packs are handed to the cores by their `add`, which queues them. `ip` is the address of the
-- sender as a text, `now` the clock in milliseconds.
pub mod Agents
use scouter_server_rust.Common.{ℕ, List, [], ◌∷◌, ◌++◌, length, ◌==◌, if◌then◌else◌}
use scouter_server_rust.Word.{Bytes, sign_extend}
use scouter_server_rust.Util.Hash.{hash_bytes}
use scouter_server_rust.Protocol.Value.{decimal, put}
use scouter_server_rust.Protocol.Pack.{
  Pack, PerfCounterPack, DroppedXLogPack, TextPack, AlertPack, ObjectPack, StatusPack,
  XLogProfilePack, SummaryPack, map_pack, xlog, dropped_xlog, xlog_profile, xlog_profile2,
  text_pack, perf_counter, status, stack, summary, batch, interaction_perf_counter, alert, object,
  span, span_container,
}
use scouter_server_rust.Protocol.Pack.XLog.{XLogPack, default}
use scouter_server_rust.Core.ObjectCache.{ObjectCache}
use scouter_server_rust.Core.AgentManager.{active}

-- `ProfilePack` of src/core/profile_core.rs.
pub data ProfilePack : Type 0 where
  v1 v2 : XLogProfilePack → ProfilePack

unfoldable pub txid : ProfilePack → ℕ
txid (v1 p) = p.txid
txid (v2 p) = p.txid

unfoldable pub obj_hash : ProfilePack → ℕ
obj_hash (v1 p) = p.obj_hash
obj_hash (v2 p) = p.obj_hash

unfoldable pub profile_data : ProfilePack → Bytes
profile_data (v1 p) = p.profile
profile_data (v2 p) = p.profile

-- A call of the `add` of a core.
pub data Message : Type 0 where
  to_perf_count : PerfCounterPack → Message
  to_xlog : XLogPack → Message
  to_profile : ProfilePack → Message
  to_text : TextPack → Message
  to_alert : AlertPack → Message
  to_status : StatusPack → Message
  to_summary : SummaryPack → Message

-- "_objHash_" and "_time_".
abbrev pub obj_hash_key : Bytes
obj_hash_key = 95 ∷ 111 ∷ 98 ∷ 106 ∷ 72 ∷ 97 ∷ 115 ∷ 104 ∷ 95 ∷ []

abbrev pub time_key : Bytes
time_key = 95 ∷ 116 ∷ 105 ∷ 109 ∷ 101 ∷ 95 ∷ []

-- The defaults of a counter pack, and its object and time among its counters.
unfoldable pub completed : ℕ → PerfCounterPack → PerfCounterPack
completed now p =
    let time = if p.time == 0 then now else p.time in
    let hash = sign_extend 32 (hash_bytes p.obj_name) in
    record p {
      time = time;
      timetype = if p.timetype == 0 then 1 else p.timetype;
      data_map = put time_key (decimal time) (put obj_hash_key (decimal hash) p.data_map);
    }

-- The xlog that a dropped one leaves.
unfoldable pub minimal_xlog : DroppedXLogPack → XLogPack
minimal_xlog p = record default { gxid = p.gxid; txid = p.txid }

unfoldable pub with_address : Bytes → ObjectPack → ObjectPack
with_address ip p = if length p.address == 0 then record p { address = ip } else p

unfoldable pub dispatch : ObjectCache → (now : ℕ) (ip : Bytes) → Pack → ObjectCache × List Message
dispatch objects now ip (perf_counter p) = (objects, to_perf_count (completed now p) ∷ [])
dispatch objects now ip (xlog p) = (objects, to_xlog p ∷ [])
dispatch objects now ip (dropped_xlog p) = (objects, to_xlog (minimal_xlog p) ∷ [])
dispatch objects now ip (xlog_profile p) = (objects, to_profile (v1 p) ∷ [])
dispatch objects now ip (xlog_profile2 p) = (objects, to_profile (v2 p) ∷ [])
dispatch objects now ip (text_pack p) = (objects, to_text p ∷ [])
dispatch objects now ip (alert p) = (objects, to_alert p ∷ [])
dispatch objects now ip (object p) = (active objects now (with_address ip p), [])
dispatch objects now ip (status p) = (objects, to_status p ∷ [])
dispatch objects now ip (summary p) = (objects, to_summary p ∷ [])
dispatch objects now ip (stack raw) = (objects, [])
dispatch objects now ip (batch raw) = (objects, [])
dispatch objects now ip (interaction_perf_counter raw) = (objects, [])
dispatch objects now ip (span_container raw) = (objects, [])
dispatch objects now ip (map_pack p) = (objects, [])
dispatch objects now ip (span raw) = (objects, [])

-- The packs of a datagram, one after the other.
unfoldable pub dispatch_all :
    ObjectCache → (now : ℕ) (ip : Bytes) → List Pack → ObjectCache × List Message
dispatch_all objects now ip [] = (objects, [])
dispatch_all objects now ip (p ∷ ps) =
    let (after, messages) = dispatch objects now ip p in
    let (last, more) = dispatch_all after now ip ps in (last, messages ++ more)
