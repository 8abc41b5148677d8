-- ===== src/Db/ProfileStore/Laws.antt =====
-- A profile that is written with its length is read back by the number of its call.
use scouter_server_rust.Common.{
  ℕ, ◌+◌, ◌%◌, ◌^◌, ◌<◌, ◌≡◌, refl, sym, ap, subst, ◌∙◌, arith, false, some, List, [], ◌∷◌, ◌++◌,
  append-nil, append_assoc, length, length-append,
}
use scouter_server_rust.Word.{Bytes, as_32, sign_extend, to_be_bytes, from_be_bytes}
use scouter_server_rust.Word.Codec.{from_be_bytes-to_be_bytes}
use scouter_server_rust.Outcome.{ok}
use scouter_server_rust.Protocol.Output.{to_bytes_long, to_bytes5}
use scouter_server_rust.Db.MemHashBlock.Slots.{to_long5-to_bytes5}
use scouter_server_rust.Db.RealDataFile as DataFile
use scouter_server_rust.Db.RealDataFile.{RealDataFile}
use scouter_server_rust.Db.RealDataFile.Appends.{Holds, read-Holds, write-Holds}
use scouter_server_rust.Db.IndexKeyFile.Layout.{Entry, bucket_of}
use scouter_server_rust.Db.IndexKeyFile.Chain.{FitsFile}
use scouter_server_rust.Db.IndexKeyFile.Refinement.{Represents}
use scouter_server_rust.Db.IndexKeyFile.Laws.{get-put}
use scouter_server_rust.Db.ProfileStore.{
  ProfileStore, to_long5_from_bytes, write_with_length, read_profile, read_by_txid,
}

abbrev profile_record : Bytes → Bytes
profile_record bytes = to_be_bytes 4 (as_32 (length bytes)) ++ bytes

length_back : (n : ℕ) → n < 2 ^ 31 → sign_extend 32 (from_be_bytes 0 (to_be_bytes 4 (as_32 n))) ≡ n
length_back n h = rw (from_be_bytes-to_be_bytes 4 0 (as_32 n)) (ground arith)

to_long5_from_bytes-to_bytes5 : (p : ℕ) → p < 2 ^ 39 → to_long5_from_bytes (to_bytes5 p) ≡ ok p
unfolding to_long5_from_bytes to_bytes5
to_long5_from_bytes-to_bytes5 p h = to_long5-to_bytes5 p h

read_profile_lem :
    (df : RealDataFile) (front bytes more : Bytes)
    → Holds df (front ++ (profile_record bytes ++ more))
    → length bytes < 2 ^ 31
    → (after : RealDataFile) × (read_profile df (length front) ≡ ok (bytes, after))
      × Holds after (front ++ (profile_record bytes ++ more))
unfolding read_profile
read_profile_lem df front bytes more h short =
    let len = to_be_bytes 4 (as_32 (length bytes)) in
    let flushed = DataFile.flush df in
    let (read_len, h1) = read-Holds df front len (bytes ++ more) h in
    let (read_bytes, h2) =
      read-Holds flushed (front ++ len) bytes more
        (subst (Holds flushed) (sym (append_assoc front len (bytes ++ more))) h1) in
    let place : (length front + 4) % 2 ^ 64 ≡ length (front ++ len) =
      omega (
        arith,
        h.low,
        length-append front len,
        length-append front (profile_record bytes ++ more),
      ) in
    (
      DataFile.flush flushed,
      rw (read_len, length_back (length bytes) short, place, read_bytes) refl,
      subst (Holds (DataFile.flush flushed)) (append_assoc front len (bytes ++ more)) h2,
    )

-- On a store whose index holds some entries and whose data file some bytes, writing a profile below
-- 2 ^ 31 bytes with its length succeeds when the files have room; then read_by_txid with the number of
-- the call returns the profile.
pub read_by_txid-write_with_length :
    (store : ProfileStore) (es : List Entry) (front bytes : Bytes) (txid : ℕ)
    → Represents store.txid_index es
    → Holds store.data_file front
    → length bytes < 2 ^ 31
    → length front < 2 ^ 39
    → FitsFile (bucket_of store.txid_index.hash_block.capacity) (
        (record { deleted = false; key = to_bytes_long txid; data_pos = to_bytes5 (length front) })
        ∷ es)
    → (after : ProfileStore) × (last : ProfileStore) × (write_with_length store txid bytes
        ≡ ok after)
      × (read_by_txid after txid ≡ ok (some bytes, last))
unfolding write_with_length read_by_txid DataFile.write_int
read_by_txid-write_with_length store es front bytes txid r h short low fits =
    let len = to_be_bytes 4 (as_32 (length bytes)) in
    let (offset, h1) = write-Holds store.data_file front len h (omega arith) in
    let with_length = (DataFile.write store.data_file len).1 in
    let (offset', h2) =
      write-Holds with_length (front ++ len) bytes h1
        (rw (length-append front len) (omega arith)) in
    let df = (DataFile.write with_length bytes).1 in
    let whole : Holds df (front ++ (profile_record bytes ++ [])) =
      subst (Holds df)
        (append_assoc front len bytes
          ∙ ap (λ (bs : Bytes). front ++ bs) (sym (append-nil (profile_record bytes))))
        h2 in
    let (keys, done, found, others) =
      get-put store.txid_index es (to_bytes_long txid) r (to_bytes5 (length front)) fits in
    let (last, reads, h3) = read_profile_lem df front bytes [] whole short in
    let after : ProfileStore = record { data_file = df; txid_index = keys } in
    (
      after,
      record after { data_file = last },
      rw (offset, done) refl,
      rw (found, to_long5_from_bytes-to_bytes5 (length front) low, reads) refl,
    )
