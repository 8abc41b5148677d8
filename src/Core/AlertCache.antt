-- ===== src/Core/AlertCache.antt =====
-- src/core/cache/alert_cache.rs: the recent alerts. As for the xlogs, a put is two steps; the second
-- also counts the alerts that have gone.
use scouter_server_rust.Common.{
  ℕ, ◌+◌, ◌%◌, ◌^◌, List, [], ◌∷◌, ◌++◌, length, take, leb, ltb, if◌then◌else◌,
}
use scouter_server_rust.Protocol.Pack.{AlertPack}
use scouter_server_rust.Core.Queue.{push, filter}

pub record AlertCacheEntry : Type 0 where
  pub pack : AlertPack
  pub index : ℕ

pub record AlertCache : Type 0 where
  pub entries : List AlertCacheEntry
  pub max_size : ℕ
  pub next_index : ℕ
  pub loop_count : ℕ

unfoldable pub new : ℕ → AlertCache
new max_size = record { entries = []; max_size = max_size; next_index = 0; loop_count = 0 }

unfoldable pub next : AlertCache → AlertPack → AlertCache × AlertCacheEntry
next cache pack = (
  record cache { next_index = (cache.next_index + 1) % 2 ^ 64 },
  record { pack = pack; index = cache.next_index },
)

unfoldable pub store : AlertCache → AlertCacheEntry → AlertCache
store cache e = record cache {
  entries = push cache.max_size e cache.entries;
  loop_count =
      if leb cache.max_size (length cache.entries)
      then (cache.loop_count + 1) % 2 ^ 64
      else cache.loop_count;
}

unfoldable pub put : AlertCache → AlertPack → AlertCache
put cache pack = let (counted, e) = next cache pack in store counted e

unfoldable pub get_since : AlertCache → ℕ → List AlertCacheEntry × ℕ × ℕ
get_since cache since_index =
    (filter (λ e. ltb since_index e.index) cache.entries, cache.loop_count, cache.next_index)

unfoldable pub reverse_packs : List AlertCacheEntry → List AlertPack
reverse_packs [] = []
reverse_packs (e ∷ es) = reverse_packs es ++ (e.pack ∷ [])

-- The newest first.
unfoldable pub get_recent : AlertCache → ℕ → List AlertPack
get_recent cache count = take count (reverse_packs cache.entries)

unfoldable pub current_loop : AlertCache → ℕ
current_loop cache = cache.loop_count

unfoldable pub current_index : AlertCache → ℕ
current_index cache = cache.next_index

unfoldable pub size : AlertCache → ℕ
size cache = length cache.entries
