-- ===== src/Core/StatusCache.antt =====
-- src/core/cache/status_cache.rs: the latest status of an agent for each key.
use scouter_server_rust.Common.{ℕ, Bool, ◌&&◌, Option, List, [], ◌∷◌, length, ◌==◌, if◌then◌else◌}
use scouter_server_rust.Word.{Bytes}
use scouter_server_rust.Protocol.Value.{bytes_eq}
use scouter_server_rust.Protocol.Pack.{StatusPack}
use scouter_server_rust.Core.Table.{lookup, insert}

abbrev pub StatusCache : Type 0
StatusCache = List ((ℕ × Bytes) × StatusPack)

abbrev pub same_status : ℕ × Bytes → ℕ × Bytes → Bool
same_status (h, k) (i, l) = (h == i) && bytes_eq k l

unfoldable pub put : StatusCache → StatusPack → StatusCache
put cache pack = insert same_status (pack.obj_hash, pack.key) pack cache

unfoldable pub get : StatusCache → ℕ → Bytes → Option StatusPack
get cache obj_hash key = lookup same_status (obj_hash, key) cache

unfoldable pub get_by_obj : StatusCache → ℕ → List StatusPack
get_by_obj [] obj_hash = []
get_by_obj (((h, k), pack) ∷ cache) obj_hash =
    let rest = get_by_obj cache obj_hash in if h == obj_hash then pack ∷ rest else rest

unfoldable pub size : StatusCache → ℕ
size cache = length cache

-- `StatusCore::process` of src/core/status_core.rs; `now` is the clock in milliseconds.
unfoldable pub process : StatusCache → (now : ℕ) → StatusPack → StatusCache
process cache now pack =
    put cache (record pack { time = if pack.time == 0 then now else pack.time })
