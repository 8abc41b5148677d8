-- ===== src/Core/TextCore.antt =====
-- src/core/text_core.rs: a text goes to the cache at once, and through a queue to the store of the day.
-- `container` is that store, which the database manager opens; an error is only printed, and here the
-- outcome. What is printed is left out.
use scouter_server_rust.Common.{◌≡◌, some, if◌then◌else◌}
use scouter_server_rust.Outcome.{Outcome, ◌>>=◌}
use scouter_server_rust.Util.Hash.{hash_bytes}
use scouter_server_rust.Protocol.Pack.{TextPack}
use scouter_server_rust.Core.TextCache as Cache
use scouter_server_rust.Core.TextCache.{TextCache, get-put_cached}
use scouter_server_rust.Db.TextStore as Store
use scouter_server_rust.Db.TextStore.{TextStore}

-- The cache, and the pack that is queued.
unfoldable pub add : TextCache → TextPack → TextCache × TextPack
add cache pack = (Cache.put cache pack.xtype pack.hash pack.text, pack)

unfoldable pub process : TextCache → Outcome TextStore → TextPack → TextCache × Outcome TextStore
process cache container pack = (
  if Cache.contains cache pack.xtype pack.hash
      then cache
      else Cache.put cache pack.xtype pack.hash pack.text,
  container >>= λ store. Store.put store (hash_bytes pack.xtype) pack.hash pack.text,
)

-- A text is in the cache before it is in the store.
pub get-add :
    (cache : TextCache) (pack : TextPack)
    → Cache.get (add cache pack).0 pack.xtype pack.hash ≡ some pack.text
unfolding add
get-add cache pack = get-put_cached cache pack.xtype pack.hash pack.text
