-- ===== src/Core/AgentManager.antt =====
-- src/core/agent_manager.rs: an agent is alive from its pack until it is silent for too long. The
-- clock, in milliseconds, is an argument, below 2 ^ 63.
pub mod LifeCycle
use scouter_server_rust.Common.{
  ℕ, ◌+◌, ◌-◌, ◌%◌, ◌^◌, ◌<◌, ◌≤◌, ◌≡◌, ◌≢◌, refl, sym, ap, ◌∙◌, arith, Bool, true, false, not,
  ◌&&◌, Option, none, some, List, [], ◌∷◌, length, ltb, ◌==◌, if◌then◌else◌, Bool-cases, inl, inr,
  All,
}
use scouter_server_rust.Word.{Bytes, signed_ltb}
use scouter_server_rust.Util.Hash.{hash_bytes}
use scouter_server_rust.Assoc.{find, insert, find-insert, find-insert_other}
use scouter_server_rust.Protocol.Pack.{ObjectPack}
use scouter_server_rust.Core.ObjectCache as Cache
use scouter_server_rust.Core.ObjectCache.{ObjectCache, get_all_objects}

abbrev pub dead_time : ℕ
dead_time = 8000

-- `hash::hash(&pack.obj_name)`, for a pack without a hash but with a name.
unfoldable pub with_hash : ObjectPack → ObjectPack
with_hash pack =
    if pack.obj_hash == 0 && not (length pack.obj_name == 0)
    then record pack { obj_hash = hash_bytes pack.obj_name }
    else pack

unfoldable pub active : ObjectCache → ℕ → ObjectPack → ObjectCache
active objects now pack = Cache.put objects (record (with_hash pack) { wakeup = now; alive = true })

-- `obj.alive && (now - obj.wakeup) > dead_time`, the difference wrapping in 64 bits.
abbrev pub is_silent : ℕ → ObjectPack → Bool
is_silent now pack = pack.alive && signed_ltb dead_time ((now + (2 ^ 64 - pack.wakeup)) % 2 ^ 64)

-- The loop over what `get_all_objects` returned at its start.
unfoldable pub mark_silent : ℕ → List ObjectPack → ObjectCache → ObjectCache
mark_silent now [] objects = objects
mark_silent now (pack ∷ packs) objects =
    mark_silent now packs
      (if is_silent now pack then Cache.put objects (record pack { alive = false }) else objects)

unfoldable pub check_inactive : ObjectCache → ℕ → ObjectCache
check_inactive objects now = mark_silent now (get_all_objects objects) objects
