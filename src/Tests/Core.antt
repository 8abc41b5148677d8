-- ===== src/Tests/Core.antt =====
-- src/core at concrete caches.
use scouter_server_rust.Common.{
  ℕ, ◌-◌, ◌≡◌, ◌≢◌, refl, arith, true, false, some, List, [], ◌∷◌, length, drop, if◌then◌else◌,
}
use scouter_server_rust.Assoc.{find}
use scouter_server_rust.Protocol.Value.{empty}
use scouter_server_rust.Protocol.Pack.{ObjectPack}
use scouter_server_rust.Core.XLogCache.{XLog, new, next}
use scouter_server_rust.Core.XLogCache.Recent.{number, put_all, put_all-new}
use scouter_server_rust.Core.XLogCache.Interleaved.{
  Reach, start, step, begins, State, IsSound, Reach-IsSound,
}
use scouter_server_rust.Core.ObjectCache as Cache
use scouter_server_rust.Core.ObjectCache.{ObjectCache}
use scouter_server_rust.Core.AgentManager.{with_hash, active, check_inactive, is_silent}
use scouter_server_rust.Core.AgentManager.LifeCycle.{IsValid, get-active, get-check_inactive}

abbrev xlog : ℕ → XLog
xlog h = record { obj_hash = h; elapsed = 12; has_error = false; data_bytes = h ∷ [] }

abbrev three : List XLog
three = xlog 1 ∷ xlog 2 ∷ xlog 3 ∷ []

put_all-new_example : put_all (new 2) three ≡ record {
  entries = drop (length (number 0 three) - 2) (number 0 three);
  max_size = 2;
  next_index = 3;
}
put_all-new_example = put_all-new 2 (omega arith) three (omega arith)

-- A put that has taken its index.
abbrev held : State
held = ((next (new 2) (xlog 1)).0, (next (new 2) (xlog 1)).1 ∷ [])

held-Reach : Reach 2 held
unfolding new
held-Reach = step start (begins (new 2) [] (xlog 1) (omega arith))

Reach-IsSound_example : IsSound 2 held
Reach-IsSound_example = Reach-IsSound 2 held (omega arith) held-Reach

abbrev agent : ObjectPack
agent = record {
  obj_type = 106 ∷ [];
  obj_hash = 7;
  obj_name = 97 ∷ [];
  address = [];
  version = [];
  alive = true;
  wakeup = 1000;
  tags = empty;
}

abbrev agents : ObjectCache
agents = (7, agent) ∷ []

get-active_example :
    (Cache.get (active agents 5000 agent) (with_hash agent).obj_hash
      ≡ some (record (with_hash agent) { wakeup = 5000; alive = true }))
    × ((h : ℕ)
        → h ≢ (with_hash agent).obj_hash
        → Cache.get (active agents 5000 agent) h ≡ Cache.get agents h)
get-active_example = get-active agents 5000 agent

agents-IsValid : IsValid agents
unfolding find
agents-IsValid = record { apart = (refl, tt); keyed = (refl, tt) }

agent_there : Cache.get agents 7 ≡ some agent
unfolding Cache.get find
agent_there = refl

get-check_inactive_example :
    Cache.get (check_inactive agents 20000) 7
    ≡ some (if is_silent 20000 agent then record agent { alive = false } else agent)
get-check_inactive_example = get-check_inactive agents 20000 7 agent agents-IsValid agent_there
