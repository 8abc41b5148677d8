-- ===== src/Core/TextCache.antt =====
-- src/core/cache/text_cache.rs: the texts by their kind and hash.
use scouter_server_rust.Common.{
  ℕ, ◌≡◌, arith, Bool, true, false, ◌&&◌, Option, none, some, List, length, ◌==◌,
}
use scouter_server_rust.Word.{Bytes}
use scouter_server_rust.Protocol.Value.{bytes_eq}
use scouter_server_rust.Protocol.Value.Maps.{bytes_eq_refl}
use scouter_server_rust.Core.Table.{lookup, insert, lookup-insert}

abbrev pub TextCache : Type 0
TextCache = List ((Bytes × ℕ) × Bytes)

abbrev pub same_text : Bytes × ℕ → Bytes × ℕ → Bool
same_text (t, h) (u, i) = bytes_eq t u && (h == i)

unfoldable pub put : TextCache → Bytes → ℕ → Bytes → TextCache
put cache text_type hash text = insert same_text (text_type, hash) text cache

unfoldable pub get : TextCache → Bytes → ℕ → Option Bytes
get cache text_type hash = lookup same_text (text_type, hash) cache

unfoldable pub contains : TextCache → Bytes → ℕ → Bool
contains cache text_type hash = elim (get cache text_type hash) [ none ↦ false | some t ↦ true ]

unfoldable pub size : TextCache → ℕ
size cache = length cache

-- A text that was put is there.
pub get-put_cached :
    (cache : TextCache) (text_type : Bytes) (hash : ℕ) (text : Bytes)
    → get (put cache text_type hash text) text_type hash ≡ some text
unfolding get put
get-put_cached cache text_type hash text =
    lookup-insert same_text (text_type, hash) text cache (ground (arith, bytes_eq_refl text_type))
