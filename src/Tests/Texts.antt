-- ===== src/Tests/Texts.antt =====
-- The stores of texts and profiles at concrete writes.
use scouter_server_rust.Common.{ℕ, ◌≡◌, refl, arith, false, none, some, [], ◌∷◌}
use scouter_server_rust.Word.{Bytes}
use scouter_server_rust.Outcome.{ok}
use scouter_server_rust.Protocol.Output.{
  write_boolean, write_long5, write_short_bytes, write_short, write_blob, write_byte,
}
use scouter_server_rust.Protocol.Utf8.{is_utf8}
use scouter_server_rust.Protocol.Value.{bytes_eq}
use scouter_server_rust.Db.RealDataFile as DataFile
use scouter_server_rust.Db.RealDataFile.Appends.{open_file-Holds}
use scouter_server_rust.Db.IndexKeyFile.{IndexKeyFile}
use scouter_server_rust.Db.IndexKeyFile.Layout.{layout, chain_head, lookup}
use scouter_server_rust.Db.IndexKeyFile.Chain.{FitsFile}
use scouter_server_rust.Db.IndexKeyFile.Refinement.{Represents, open_index-Represents}
use scouter_server_rust.Db.TextStore.{TextStore, make_key, put, get}
use scouter_server_rust.Db.TextStore.Dedup.{kept, get-put_text}
use scouter_server_rust.Db.ProfileStore.{ProfileStore, write_with_length, read_by_txid}
use scouter_server_rust.Db.ProfileStore.Laws.{read_by_txid-write_with_length}
use scouter_server_rust.Tests.Stores.{one_key}

abbrev keys : IndexKeyFile
keys = (open_index-Represents 1 (omega arith)).0

keys_Represents : Represents keys []
keys_Represents = (open_index-Represents 1 (omega arith)).2

abbrev texts : TextStore
texts = record { texts = keys }

one_text :
    (home : Bytes → ℕ)
    → FitsFile home ((record { deleted = false; key = make_key 1 100; data_pos = 97 ∷ [] }) ∷ [])
unfolding layout chain_head write_boolean write_long5 write_short_bytes write_short write_blob
    write_byte make_key
one_text home = record { entries = ((omega arith, omega arith), tt); file = omega arith }

get-put_text_example :
    (after : TextStore) × (put texts 1 100 (97 ∷ []) ≡ ok after)
    × (get after 1 100 ≡ ok (some (kept (lookup (make_key 1 100) []) (97 ∷ []))))
    × ((d h : ℕ) → bytes_eq (make_key 1 100) (make_key d h) ≡ false → get after d h ≡ get texts d h)
unfolding lookup is_utf8
get-put_text_example = get-put_text texts [] 1 100 keys_Represents (97 ∷ []) (one_text _) refl

abbrev profiles : ProfileStore
profiles = record { data_file = DataFile.open_file none; txid_index = keys }

read_by_txid-write_with_length_example :
    (after : ProfileStore) × (last : ProfileStore) × (write_with_length profiles 77 (1 ∷ 2 ∷ [])
      ≡ ok after)
    × (read_by_txid after 77 ≡ ok (some (1 ∷ 2 ∷ []), last))
read_by_txid-write_with_length_example =
    read_by_txid-write_with_length profiles [] [] (1 ∷ 2 ∷ []) 77 keys_Represents open_file-Holds
      (omega arith) (omega arith) (one_key _ 77 0)
