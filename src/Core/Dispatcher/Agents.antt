-- ===== src/Core/Dispatcher/Agents.antt =====
-- From the datagram of an agent to the map of agents.
use scouter_server_rust.Common.{ℕ, ◌≡◌, ◌≢◌, ap, true, ◌||◌, some, [], ◌++◌, ◌==◌}
use scouter_server_rust.Word.{Bytes}
use scouter_server_rust.Outcome.{Outcome}
use scouter_server_rust.Protocol.Output.{◌▷◌, write_int}
use scouter_server_rust.Protocol.Pack.{ObjectPack, object, write_pack}
use scouter_server_rust.Protocol.Pack.Valid.{IsValid}
use scouter_server_rust.Core.ObjectCache as Cache
use scouter_server_rust.Core.ObjectCache.{ObjectCache}
use scouter_server_rust.Core.AgentManager.{with_hash, active}
use scouter_server_rust.Core.AgentManager.LifeCycle.{get-active}
use scouter_server_rust.Core.Dispatcher.{with_address, dispatch, dispatch_all}
use scouter_server_rust.Netio.MultiPacket.{Entries}
use scouter_server_rust.Netio.NetCafe.{udp_cafe, udp_java}
use scouter_server_rust.Netio.NetDataProcessor.{Effects, process}
use scouter_server_rust.Netio.NetDataProcessor.Datagrams.{process-write_pack}

module _ (value_size : ℕ) (reserve : ℕ → Outcome (Unit {0})) where
  -- The agents after a datagram.
  unfoldable pub received : ObjectCache → Entries → (now : ℕ) (ip bytes : Bytes) → ObjectCache
  received objects entries now ip bytes =
      (dispatch_all objects now ip (process value_size reserve entries now now bytes).1.0).0

  received_lem :
      (objects : ObjectCache) (entries : Entries) (now cafe : ℕ) (ip : Bytes) (p : ObjectPack)
      → (cafe == udp_cafe) || (cafe == udp_java) ≡ true
      → IsValid value_size reserve (object p)
      → received objects entries now ip (write_int cafe ▷ (write_pack (object p) ++ []))
        ≡ active objects now (with_address ip p)
  unfolding received dispatch_all dispatch
  received_lem objects entries now cafe ip p known valid =
      ap (λ (r : Entries × Effects). (dispatch_all objects now ip r.1.0).0)
        (process-write_pack value_size reserve entries now now cafe (object p) [] known valid)

  -- A datagram with the number of a single pack and the pack of an agent, as written, makes that agent
  -- alive with the time of the clock, under its hash or that of its name, with the address of the
  -- sender if it gives none, and leaves every other agent as before.
  pub get-received :
      (objects : ObjectCache) (entries : Entries) (now cafe : ℕ) (ip : Bytes) (p : ObjectPack)
      → (cafe == udp_cafe) || (cafe == udp_java) ≡ true
      → IsValid value_size reserve (object p)
      → (Cache.get
            (received objects entries now ip (write_int cafe ▷ (write_pack (object p) ++ [])))
            (with_hash (with_address ip p)).obj_hash
          ≡ some (record (with_hash (with_address ip p)) { wakeup = now; alive = true }))
        × ((h : ℕ)
            → h ≢ (with_hash (with_address ip p)).obj_hash
            → Cache.get
                (received objects entries now ip (write_int cafe ▷ (write_pack (object p) ++ [])))
                h
              ≡ Cache.get objects h)
  get-received objects entries now cafe ip p known valid =
      rw (received_lem objects entries now cafe ip p known valid)
        (get-active objects now (with_address ip p))
