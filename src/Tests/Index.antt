-- ===== src/Tests/Index.antt =====
-- src/db/io at concrete files: an index with two slots.
use scouter_server_rust.Common.{
  ℕ, ◌+◌, ◌<◌, ◌≤◌, ◌≡◌, refl, arith, true, false, none, some, [], ◌∷◌, ◌++◌, length, ◌==◌,
  if◌then◌else◌,
}
use scouter_server_rust.Word.{Bytes, as_32}
use scouter_server_rust.Outcome.{ok}
use scouter_server_rust.Protocol.Value.{bytes_eq}
use scouter_server_rust.Protocol.Output.{
  write_boolean, write_long5, write_short_bytes, write_short, write_blob, write_byte,
}
use scouter_server_rust.Db.MemHashBlock as Block
use scouter_server_rust.Db.MemHashBlock.{MemHashBlock, fresh, bucket, open_block}
use scouter_server_rust.Db.MemHashBlock.Slots as Slots
use scouter_server_rust.Db.MemHashBlock.Slots.{
  slot, long5_value, put_lem, open_block_new, fresh-IsValid, slot-fresh,
}
use scouter_server_rust.Db.RealKeyFile.{magic, get_record, set_delete}
use scouter_server_rust.Db.RealKeyFile.Records.{record_bytes, Fits, set_delete_lem, get_record_lem}
use scouter_server_rust.Db.IndexKeyFile.{
  IndexKeyFile, open_index, put, get, get_all, delete, read_all,
}
use scouter_server_rust.Db.IndexKeyFile.Layout.{
  Entry, lookup, lookup_all, delete_all, count_hits, live_entries, bucket_of, layout, chain_head,
}
use scouter_server_rust.Db.IndexKeyFile.Chain.{FitsFile}
use scouter_server_rust.Db.IndexKeyFile.Refinement.{
  Represents, get-eq-lookup, get_all-eq-lookup_all, delete-Represents, put-Represents,
  read_all-eq-live_entries, open_index-Represents,
}
use scouter_server_rust.Db.IndexKeyFile.Laws.{get-put, get-delete}

abbrev key : Bytes
key = 65 ∷ 66 ∷ []

abbrev pos : Bytes
pos = 0 ∷ 7 ∷ []

abbrev e : Entry
e = record { deleted = false; key = key; data_pos = pos }

abbrev empty_index : IndexKeyFile
empty_index = record { hash_block = fresh 10; key_file = magic }

fresh_capacity : (fresh 10).capacity ≡ 2
unfolding fresh
fresh_capacity = refl

no_entries : (home : Bytes → ℕ) → FitsFile home []
unfolding layout
no_entries home = record { entries = tt; file = omega arith }

one_entry : (home : Bytes → ℕ) → FitsFile home (e ∷ [])
unfolding layout write_boolean write_long5 write_short_bytes write_short write_blob write_byte
one_entry home = record { entries = ((omega arith, omega arith), tt); file = omega arith }

empty_Represents : Represents empty_index []
unfolding layout chain_head
empty_Represents = record {
  valid = fresh-IsValid 10 (omega arith);
  content = refl;
  heads = λ b h. slot-fresh 10 b h;
  fits = no_entries (bucket_of (fresh 10).capacity);
}

-- The index after one put.
abbrev one_index : IndexKeyFile
one_index =
    (put-Represents empty_index [] key empty_Represents pos
      (one_entry (bucket_of (fresh 10).capacity))).0

one_Represents : Represents one_index (e ∷ [])
one_Represents =
    (put-Represents empty_index [] key empty_Represents pos
      (one_entry (bucket_of (fresh 10).capacity))).2

put-Represents_example :
    (after : IndexKeyFile) × (put empty_index key pos ≡ ok after) × Represents after (e ∷ [])
put-Represents_example =
    put-Represents empty_index [] key empty_Represents pos
      (one_entry (bucket_of (fresh 10).capacity))

get-put_example :
    (after : IndexKeyFile) × (put empty_index key pos ≡ ok after)
    × (get after key ≡ ok (some pos))
    × ((other : Bytes) → bytes_eq key other ≡ false → get after other ≡ get empty_index other)
get-put_example =
    get-put empty_index [] key empty_Represents pos (one_entry (bucket_of (fresh 10).capacity))

get-delete_example :
    (after : IndexKeyFile) × (delete one_index key ≡ ok (after, as_32 (count_hits key (e ∷ []))))
    × (get after key ≡ ok none)
    × ((other : Bytes) → bytes_eq key other ≡ false → get after other ≡ get one_index other)
get-delete_example = get-delete one_index (e ∷ []) key one_Represents

get-eq-lookup_example : get one_index key ≡ ok (lookup key (e ∷ []))
get-eq-lookup_example = get-eq-lookup one_index (e ∷ []) key one_Represents

get_all-eq-lookup_all_example : get_all one_index key ≡ ok (lookup_all key (e ∷ []))
get_all-eq-lookup_all_example = get_all-eq-lookup_all one_index (e ∷ []) key one_Represents

delete-Represents_example :
    (after : IndexKeyFile) × (delete one_index key ≡ ok (after, as_32 (count_hits key (e ∷ []))))
    × Represents after (delete_all key (e ∷ []))
delete-Represents_example = delete-Represents one_index (e ∷ []) key one_Represents

read_all-eq-live_entries_example : read_all one_index ≡ ok (live_entries (e ∷ []))
read_all-eq-live_entries_example =
    read_all-eq-live_entries one_index (e ∷ []) one_Represents (omega arith, tt)

open_index-Represents_example :
    (index : IndexKeyFile) × (open_index none none 1 ≡ ok index) × Represents index []
open_index-Represents_example = open_index-Represents 1 (omega arith)

put_lem_example :
    (after : MemHashBlock) × (Block.put (fresh 10) 77 1234 ≡ ok after)
    × Slots.IsValid after
    × (after.capacity ≡ (fresh 10).capacity)
    × ((b : ℕ)
        → b < (fresh 10).capacity
        → slot after b ≡ (
            if b == bucket 77 (fresh 10).capacity
            then ok (long5_value 1234)
            else slot (fresh 10) b))
put_lem_example = put_lem (fresh 10) 77 1234 (fresh-IsValid 10 (omega arith))

record_Fits : Fits 0 key pos
record_Fits = record { prev_fits = omega arith; key_fits = omega arith; pos_fits = omega arith }

set_delete_lem_example :
    set_delete (magic ++ (record_bytes false 0 key pos ++ [])) 2 true
    ≡ ok (magic ++ (record_bytes true 0 key pos ++ []))
set_delete_lem_example = set_delete_lem magic [] false 0 key pos record_Fits (omega arith) true

record_small : length (record_bytes false 0 key pos) ≤ 65536
unfolding write_boolean write_long5 write_short_bytes write_short write_blob write_byte
record_small = omega arith

get_record_lem_example :
    get_record (magic ++ (record_bytes false 0 key pos ++ [])) 2
    ≡ ok (record {
      deleted = false;
      prev_pos = 0;
      key = key;
      data_pos = pos;
      next_offset = 2 + length (record_bytes false 0 key pos);
    })
get_record_lem_example =
    get_record_lem magic [] false 0 key pos record_Fits (omega arith) record_small
