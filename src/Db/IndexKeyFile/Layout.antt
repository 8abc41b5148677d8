-- ===== src/Db/IndexKeyFile/Layout.antt =====
-- The abstract index: its entries, newest first, and how they lie in the key file.
use scouter_server_rust.Common.{
  ℕ, ◌+◌, ◌<◌, ◌^◌, Bool, true, not, ◌&&◌, Option, none, some, List, [], ◌∷◌, ◌++◌, length, ◌==◌,
  if◌then◌else◌,
}
use scouter_server_rust.Word.{Bytes}
use scouter_server_rust.Util.Hash.{hash_bytes}
use scouter_server_rust.Protocol.Value.{bytes_eq}
use scouter_server_rust.Db.MemHashBlock.{bucket}
use scouter_server_rust.Db.RealKeyFile.{magic}
use scouter_server_rust.Db.RealKeyFile.Records.{record_bytes}

pub record Entry : Type 0 where
  pub deleted : Bool
  pub key : Bytes
  pub data_pos : Bytes

abbrev pub is_hit : Bytes → Entry → Bool
is_hit key e = not e.deleted && bytes_eq e.key key

-- What the index promises, over its entries.
unfoldable pub lookup : Bytes → List Entry → Option Bytes
lookup key [] = none
lookup key (e ∷ es) = if is_hit key e then some e.data_pos else lookup key es

unfoldable pub lookup_all : Bytes → List Entry → List Bytes
lookup_all key [] = []
lookup_all key (e ∷ es) =
    let rest = lookup_all key es in if is_hit key e then e.data_pos ∷ rest else rest

unfoldable pub mark : Bytes → Entry → Entry
mark key e = if is_hit key e then record e { deleted = true } else e

unfoldable pub delete_all : Bytes → List Entry → List Entry
delete_all key [] = []
delete_all key (e ∷ es) = mark key e ∷ delete_all key es

unfoldable pub count_hits : Bytes → List Entry → ℕ
count_hits key [] = 0
count_hits key (e ∷ es) = if is_hit key e then count_hits key es + 1 else count_hits key es

-- The live entries, oldest first.
unfoldable pub live_entries : List Entry → List (Bytes × Bytes)
live_entries [] = []
live_entries (e ∷ es) = live_entries es ++ (if e.deleted then [] else (e.key, e.data_pos) ∷ [])

abbrev pub bucket_of : ℕ → Bytes → ℕ
bucket_of capacity key = bucket (hash_bytes key) capacity

-- The key file of the entries, whose keys have their buckets by `home`, and the position of the newest entry of a bucket (0 if none). Each
-- record carries the position of the newest entry of its bucket below it.
unfoldable mutual
  pub layout : (Bytes → ℕ) → List Entry → Bytes
  layout home [] = magic
  layout home (e ∷ es) =
      layout home es ++ record_bytes e.deleted (chain_head home (home e.key) es) e.key e.data_pos

  pub chain_head : (Bytes → ℕ) → ℕ → List Entry → ℕ
  chain_head home b [] = 0
  chain_head home b (e ∷ es) =
      if home e.key == b then length (layout home es) else chain_head home b es

abbrev pub EntryFits : Entry → Type 0
EntryFits e = (length e.key < 2 ^ 15) × (length e.data_pos < 2 ^ 31)
