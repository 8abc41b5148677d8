-- ===== src/Core/XLogCache.antt =====
-- src/core/cache/xlog_cache.rs: the recent xlogs, a queue of bounded size. `put` takes its two locks
-- one after the other, so it is two steps: `next` gives the entry its index, `store` queues it.
pub mod Recent
pub mod Interleaved
pub mod Polling
use scouter_server_rust.Common.{
  ℕ, ◌+◌, ◌-◌, ◌%◌, ◌^◌, Bool, true, false, Option, none, some, List, [], ◌∷◌, length, drop, ltb,
  ◌==◌, if◌then◌else◌,
}
use scouter_server_rust.Word.{Bytes}
use scouter_server_rust.Core.Queue.{push, filter}

-- The arguments of `put`.
pub record XLog : Type 0 where
  pub obj_hash : ℕ
  pub elapsed : ℕ
  pub has_error : Bool
  pub data_bytes : Bytes

pub record XLogCacheEntry : Type 0 where
  pub xlog : XLog
  pub index : ℕ

pub record XLogCache : Type 0 where
  pub entries : List XLogCacheEntry
  pub max_size : ℕ
  pub next_index : ℕ

unfoldable pub new : ℕ → XLogCache
new max_size = record { entries = []; max_size = max_size; next_index = 0 }

-- Under the lock of the index; a u64 wraps, as it does without overflow checks.
unfoldable pub next : XLogCache → XLog → XLogCache × XLogCacheEntry
next cache x = (
  record cache { next_index = (cache.next_index + 1) % 2 ^ 64 },
  record { xlog = x; index = cache.next_index },
)

-- Under the lock of the entries.
unfoldable pub store : XLogCache → XLogCacheEntry → XLogCache
store cache e = record cache { entries = push cache.max_size e cache.entries }

unfoldable pub put : XLogCache → XLog → XLogCache × ℕ
put cache x = let (counted, e) = next cache x in (store counted e, e.index)

abbrev pub is_for : Option ℕ → XLogCacheEntry → Bool
is_for none e = true
is_for (some h) e = e.xlog.obj_hash == h

unfoldable pub get_since : XLogCache → ℕ → Option ℕ → List XLogCacheEntry
get_since cache since_index obj_hash =
    filter (is_for obj_hash) (filter (λ e. ltb since_index e.index) cache.entries)

unfoldable pub latest_index : XLogCache → ℕ
latest_index cache = if cache.next_index == 0 then 0 else cache.next_index - 1

unfoldable pub get_latest : XLogCache → ℕ → List XLogCacheEntry
get_latest cache count =
    drop (if ltb count (length cache.entries) then length cache.entries - count else 0)
      cache.entries

unfoldable pub size : XLogCache → ℕ
size cache = length cache.entries
