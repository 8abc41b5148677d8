-- ===== src/Db/XLogStore/Ranges.antt =====
-- Reading the store by time: the time index hands over positions, which the data file resolves.
use scouter_server_rust.Common.{
  ℕ, ◌^◌, ◌<◌, ◌≡◌, refl, sym, ap, subst, ◌∙◌, arith, true, false, List, [], ◌∷◌, ◌++◌, append-nil,
  length, ◌==◌, if◌then◌else◌, All,
}
use scouter_server_rust.Word.{Bytes}
use scouter_server_rust.Outcome.{Outcome, ok, err, panic, out_of_fuel}
use scouter_server_rust.Protocol.Output.{to_bytes5}
use scouter_server_rust.Db.MemHashBlock.Slots.{long5_value}
use scouter_server_rust.Db.RealDataFile.{RealDataFile}
use scouter_server_rust.Db.RealDataFile.Appends.{Holds}
use scouter_server_rust.Db.IndexTimeFile.{TimeToData, seconds_per_day_x2, to_long5_from_slice}
use scouter_server_rust.Db.IndexTimeFile.Bucket.{Point}
use scouter_server_rust.Db.IndexTimeFile.Ranges.{forward, at_times}
use scouter_server_rust.Db.IndexTimeFile.Resolve.{
  IsRead, point, calls_in_range, to_long5_from_slice-to_bytes5, read_with_reader-eq-calls_in_range,
}
use scouter_server_rust.Db.XLogStore.{XLogStore, read_by_time, reader, content_of}
use scouter_server_rust.Db.XLogStore.Layout.{
  Written, IsSound, data_record, file, file-split, length-file, points, read_data_at_lem,
}
use scouter_server_rust.Db.XLogStore.Refinement.{Represents}

-- The data that was written at an offset of the data file.
unfoldable pub data_at : List Written → ℕ → Bytes
data_at [] offset = []
data_at (w ∷ ws) offset = if offset == length (file ws) then w.bytes else data_at ws offset

data_at_result : List Written → Outcome ℕ → Bytes
data_at_result ws (ok offset) = data_at ws offset
data_at_result ws (err e) = []
data_at_result ws panic = []
data_at_result ws out_of_fuel = []

-- What an entry of the time index stands for.
unfoldable pub data_of : List Written → TimeToData → Bytes
unfolding data_at_result
data_of ws e = data_at_result ws (to_long5_from_slice e.data_pos)

-- A position below a bound, at which the file has its data.
record IsStored (df : RealDataFile) (ws : List Written) (x : Point) : Type 0 where
  below : x.1 < length (file ws)
  reads : reader df x.1 ≡ ok (data_at ws x.1)

IsStored-cons :
    (df : RealDataFile) (w : Written) (ws : List Written) (xs : List Point)
    → All (IsStored df ws) xs
    → All (IsStored df (w ∷ ws)) xs
unfolding data_at
IsStored-cons df w ws [] h = tt
IsStored-cons df w ws (x ∷ xs) (h, hs) =
    let other : x.1 == length (file ws) ≡ false = ground (arith, h.below) in
    (
      record { below = omega (arith, h.below, length-file w ws); reads = h.reads ∙ rw other refl },
      IsStored-cons df w ws xs hs,
    )

points-IsStored :
    (df : RealDataFile) (ws : List Written) (more : Bytes)
    → Holds df (file ws ++ more)
    → All IsSound ws
    → All (IsStored df ws) (points ws)
unfolding points reader
points-IsStored df [] more h s = tt
points-IsStored df (w ∷ ws) more h (sw, s) =
    let below : Holds df (file ws ++ (data_record w.bytes ++ more)) =
      subst (Holds df) (file-split w ws more) h in
    let (after, reads, held) = read_data_at_lem df (file ws) w.bytes more below sw.short in
    let itself : length (file ws) == length (file ws) ≡ true = ground arith in
    (
      record {
        below = omega (arith, length-file w ws);
        reads = rw reads (unfold content_of data_at in rw itself refl);
      },
      IsStored-cons df w ws (points ws)
          (points-IsStored df ws (data_record w.bytes ++ more) below s),
    )

IsStored-IsRead :
    (df : RealDataFile) (ws : List Written) (from_ms to_ms : ℕ) (xs : List Point)
    → length (file ws) < 2 ^ 39
    → All (IsStored df ws) xs
    → All (λ (x : Point). IsRead (data_of ws) from_ms to_ms (reader df) (point x)) xs
IsStored-IsRead df ws from_ms to_ms [] low h = tt
IsStored-IsRead df ws from_ms to_ms (x ∷ xs) low (h, hs) =
    let positive : long5_value x.1 ≡ x.1 = ground (arith, h.below) in
    let position : to_long5_from_slice (to_bytes5 x.1) ≡ ok x.1 =
      to_long5_from_slice-to_bytes5 x.1 ∙ ap ok positive in
    let content : data_at ws x.1 ≡ data_of ws (point x) =
      unfold data_of data_at_result in ap (data_at_result ws) (sym position) in
    ((x.1, position, h.reads ∙ ap ok content), IsStored-IsRead df ws from_ms to_ms xs low hs)

-- On a store that holds some writes, read_by_time hands over, of the writes of the half seconds that
-- it visits (at most 172800, from from_ms on in steps of 500 up to to_ms), those with a time in the
-- range, each with its data, those of a half second sorted by their times.
pub read_by_time-eq-calls_in_range :
    (date_millis : ℕ → ℕ) (store : XLogStore) (ws : List Written) (from_ms to_ms : ℕ)
    → Represents date_millis store ws
    → read_by_time date_millis store from_ms to_ms
      ≡ ok (
          calls_in_range
            (data_of ws)
            from_ms
            to_ms
            (at_times date_millis (points ws) (forward seconds_per_day_x2 to_ms from_ms)))
unfolding read_by_time
read_by_time-eq-calls_in_range date_millis store ws from_ms to_ms r =
    read_with_reader-eq-calls_in_range (data_of ws) from_ms to_ms (reader store.data_file)
      date_millis store.time_index (points ws) r.times
      (IsStored-IsRead store.data_file ws from_ms to_ms (points ws) r.low (
        points-IsStored store.data_file ws []
          (subst (Holds store.data_file) (sym (append-nil (file ws))) r.content) r.sound))
