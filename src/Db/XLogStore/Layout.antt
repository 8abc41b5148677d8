-- ===== src/Db/XLogStore/Layout.antt =====
-- The abstract store: the writes, newest first, and how they lie in the data file.
use scouter_server_rust.Common.{
  ℕ, ◌+◌, ◌%◌, ◌^◌, ◌<◌, ◌≡◌, refl, sym, ap, subst, ◌∙◌, arith, false, not, ◌&&◌, Option, none,
  some, List, [], ◌∷◌, ◌++◌, append_assoc, length, length-append, ◌==◌, ==_iff, if◌then◌else◌,
  Bool-cases, inl, inr,
}
use scouter_server_rust.Word.{Bytes, IsWord64, as_16, sign_extend, to_be_bytes, from_be_bytes}
use scouter_server_rust.Word.Codec.{from_be_bytes-to_be_bytes}
use scouter_server_rust.Outcome.{ok}
use scouter_server_rust.Protocol.Output.{to_bytes_long, to_bytes5}
use scouter_server_rust.Db.RealDataFile as DataFile
use scouter_server_rust.Db.RealDataFile.{RealDataFile}
use scouter_server_rust.Db.RealDataFile.Appends.{Holds, length_zero, read-Holds, write-Holds}
use scouter_server_rust.Db.IndexKeyFile.Layout.{Entry}
use scouter_server_rust.Db.IndexTimeFile.Bucket.{Point}
use scouter_server_rust.Db.XLogStore.{write_data, read_data_at}

-- What one call of `write` stores.
pub record Written : Type 0 where
  pub time : ℕ
  pub txid : ℕ
  pub gxid : ℕ
  pub bytes : Bytes

abbrev pub data_record : Bytes → Bytes
data_record bytes = to_be_bytes 2 (as_16 (length bytes)) ++ bytes

-- The data file.
unfoldable pub file : List Written → Bytes
file [] = []
file (w ∷ ws) = file ws ++ data_record w.bytes

-- What the indexes hold: by time, by the number of the call, and by that of the group unless it is 0.
unfoldable pub points : List Written → List Point
points [] = []
points (w ∷ ws) = (w.time, length (file ws)) ∷ points ws

abbrev pub keyed : ℕ → List Written → Entry
keyed id ws = record {
  deleted = false;
  key = to_bytes_long id;
  data_pos = to_bytes5 (length (file ws));
}

unfoldable pub by_txid : List Written → List Entry
by_txid [] = []
by_txid (w ∷ ws) = keyed w.txid ws ∷ by_txid ws

unfoldable pub by_gxid : List Written → List Entry
by_gxid [] = []
by_gxid (w ∷ ws) = if w.gxid == 0 then by_gxid ws else keyed w.gxid ws ∷ by_gxid ws

-- What the store promises: the newest data of a call, and all the data of a group, newest first.
unfoldable pub newest : ℕ → List Written → Option Bytes
newest txid [] = none
newest txid (w ∷ ws) = if w.txid == txid then some w.bytes else newest txid ws

unfoldable pub of_group : ℕ → List Written → List Bytes
of_group gxid [] = []
of_group gxid (w ∷ ws) =
    let rest = of_group gxid ws in
    if not (w.gxid == 0) && (w.gxid == gxid) then w.bytes ∷ rest else rest

-- The numbers are those of 64 bits, and the length of the data fits an i16.
pub record IsSound (w : Written) : Type 0 where
  pub txid_word : IsWord64 w.txid
  pub gxid_word : IsWord64 w.gxid
  pub short : length w.bytes < 2 ^ 15

pub length-file :
    (w : Written) (ws : List Written)
    → length (file (w ∷ ws)) ≡ length (file ws) + (2 + length w.bytes)
unfolding file
length-file w ws = omega (arith, length-append (file ws) (data_record w.bytes))

pub file-split :
    (w : Written) (ws : List Written) (more : Bytes)
    → file (w ∷ ws) ++ more ≡ file ws ++ (data_record w.bytes ++ more)
unfolding file
file-split w ws more = append_assoc (file ws) (data_record w.bytes) more

-- Writing behind the bytes of a data file.
pub write_data_lem :
    (df : RealDataFile) (front bytes : Bytes)
    → Holds df front
    → length front + (2 + length bytes) < 2 ^ 62
    → ((write_data df bytes).0 ≡ length front)
      × Holds (write_data df bytes).1 (front ++ data_record bytes)
unfolding write_data DataFile.write_short
write_data_lem df front bytes h room =
    let len = to_be_bytes 2 (as_16 (length bytes)) in
    let (offset, h1) = write-Holds df front len h (omega (arith, room)) in
    let (offset', h2) =
      write-Holds (DataFile.write df len).1 (front ++ len) bytes h1
        (rw (length-append front len) (omega (arith, room))) in
    (
      offset,
      subst (λ (bs : Bytes). Holds (write_data df bytes).1 bs) (append_assoc front len bytes) h2,
    )

length_back : (n : ℕ) → n < 2 ^ 15 → sign_extend 16 (from_be_bytes 0 (to_be_bytes 2 (as_16 n))) ≡ n
length_back n h = rw (from_be_bytes-to_be_bytes 2 0 (as_16 n)) (ground arith)

-- Reading a record of the data file returns its data, and the file holds what it held.
pub read_data_at_lem :
    (df : RealDataFile) (front bytes more : Bytes)
    → Holds df (front ++ (data_record bytes ++ more))
    → length bytes < 2 ^ 15
    → (after : RealDataFile) × (read_data_at df (length front) ≡ ok (some bytes, after))
      × Holds after (front ++ (data_record bytes ++ more))
unfolding read_data_at
read_data_at_lem df front bytes more h short =
    let len = to_be_bytes 2 (as_16 (length bytes)) in
    let flushed = DataFile.flush df in
    let (read_len, h1) =
      read-Holds df front len (bytes ++ more)
        (subst (λ (bs : Bytes). Holds df (front ++ bs)) (append_assoc len bytes more) h) in
    let behind : (front ++ len) ++ (bytes ++ more) ≡ front ++ (data_record bytes ++ more) =
      append_assoc front len (bytes ++ more)
      ∙ ap (λ (bs : Bytes). front ++ bs) (sym (append_assoc len bytes more)) in
    let (read_bytes, h2) =
      read-Holds flushed (front ++ len) bytes more
        (subst (Holds flushed) (sym (append_assoc front len (bytes ++ more))) h1) in
    let place : (length front + 2) % 2 ^ 64 ≡ length (front ++ len) =
      omega
        (arith, h.low, length-append front len, length-append front (data_record bytes ++ more)) in
    elim (Bool-cases (length bytes == 0)) [
      | inl zero ↦ (
        flushed,
        rw (read_len, length_back (length bytes) short, zero)
            (ap (λ (bs : Bytes). ok (some bs, flushed))
              (sym (length_zero bytes ((==_iff (length bytes) 0).0 zero)))),
        subst (Holds flushed) (sym (append_assoc front len (bytes ++ more)) ∙ behind) h1,
      )
      | inr some_bytes ↦ (
        DataFile.flush flushed,
        rw (read_len, length_back (length bytes) short, some_bytes, place, read_bytes) refl,
        subst (Holds (DataFile.flush flushed)) behind h2,
      )
    ]
