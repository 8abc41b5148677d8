-- ===== src/Tests/Stores.antt =====
-- The stores of src/db at concrete writes, on the files of a new directory.
use scouter_server_rust.Common.{ℕ, ◌%◌, ◌<◌, ◌≡◌, refl, arith, false, List, [], ◌∷◌}
use scouter_server_rust.Word.{Bytes}
use scouter_server_rust.Outcome.{ok}
use scouter_server_rust.Protocol.Output.{
  write_boolean, write_long5, write_short_bytes, write_short, write_blob, write_byte, to_bytes_long,
  to_bytes5,
}
use scouter_server_rust.Db.IndexKeyFile.Layout.{layout, chain_head}
use scouter_server_rust.Db.IndexKeyFile.Chain.{FitsFile}
use scouter_server_rust.Db.IndexTimeFile as Times
use scouter_server_rust.Db.IndexTimeFile.{IndexTimeFile, TimeToData, seconds_per_day_x2}
use scouter_server_rust.Db.IndexTimeFile.Refinement as TimesView
use scouter_server_rust.Db.IndexTimeFile.Ranges.{forward, at_times}
use scouter_server_rust.Db.IndexTimeFile.InOrder.{InSlots, read-InSlots}
use scouter_server_rust.Db.IndexTimeFile.Resolve.{calls_in_range}
use scouter_server_rust.Db.XLogStore as XLogs
use scouter_server_rust.Db.XLogStore.{XLogStore}
use scouter_server_rust.Db.XLogStore.Layout.{
  Written, points, by_txid, by_gxid, newest, of_group, file,
}
use scouter_server_rust.Db.XLogStore.Refinement as XLogsView
use scouter_server_rust.Db.XLogStore.Ranges.{data_of, read_by_time-eq-calls_in_range}
use scouter_server_rust.Db.CounterStore as Counters
use scouter_server_rust.Db.CounterStore.{CounterStore, get_bucket_count, hhmm_to_bucket}
use scouter_server_rust.Db.CounterStore.Clock.{hhmm_to_bucket-lt-get_bucket_count}
use scouter_server_rust.Db.CounterStore.Layout as CounterLayout
use scouter_server_rust.Db.CounterStore.Layout.{Counter, by_key, counter_of}
use scouter_server_rust.Db.CounterStore.Refinement as CountersView
use scouter_server_rust.Db.CounterStore.Refinement.{written, new_counter, seen}

-- A host in the time zone of Greenwich.
abbrev pub date_millis : ℕ → ℕ
date_millis t = t % 86400000

abbrev w : Written
w = record { time = 1700000000000; txid = 77; gxid = 5; bytes = 1 ∷ 2 ∷ 3 ∷ [] }

abbrev pub store : XLogStore
store = (XLogsView.open_store-Represents date_millis 1 (omega arith)).0

pub store_Represents : XLogsView.Represents date_millis store []
store_Represents = (XLogsView.open_store-Represents date_millis 1 (omega arith)).2

pub one_key :
    (home : Bytes → ℕ) (id p : ℕ)
    → FitsFile home
        ((record { deleted = false; key = to_bytes_long id; data_pos = to_bytes5 p }) ∷ [])
unfolding layout chain_head write_boolean write_long5 write_short_bytes write_short write_blob
    write_byte to_bytes_long to_bytes5
one_key home id p = record { entries = ((omega arith, omega arith), tt); file = omega arith }

w-CanTake : XLogsView.CanTake date_millis store [] w
unfolding points by_txid by_gxid file
w-CanTake = record {
  time_word = omega arith;
  positive = refl;
  sound = record { txid_word = omega arith; gxid_word = omega arith; short = omega arith };
  file_room = omega arith;
  time_room = (one_key _ 1700000000000 0).file;
  txid_room = one_key _ 77 0;
  gxid_room = one_key _ 5 0;
}

write-Represents_example :
    (after : XLogStore) × (XLogs.write date_millis store 1700000000000 77 5 (1 ∷ 2 ∷ 3 ∷ [])
      ≡ ok after)
    × XLogsView.Represents date_millis after (w ∷ [])
write-Represents_example =
    XLogsView.write-Represents date_millis store [] store_Represents w w-CanTake

abbrev one_store : XLogStore
one_store = (XLogsView.write-Represents date_millis store [] store_Represents w w-CanTake).0

one_Represents : XLogsView.Represents date_millis one_store (w ∷ [])
one_Represents = (XLogsView.write-Represents date_millis store [] store_Represents w w-CanTake).2

read_by_txid-eq-newest_example :
    (after : XLogStore) × (XLogs.read_by_txid one_store 77 ≡ ok (newest 77 (w ∷ []), after))
    × XLogsView.Represents date_millis after (w ∷ [])
read_by_txid-eq-newest_example =
    XLogsView.read_by_txid-eq-newest date_millis one_store (w ∷ []) one_Represents 77 (omega arith)

read_by_gxid-eq-of_group_example :
    (after : XLogStore) × (XLogs.read_by_gxid one_store 5 ≡ ok (of_group 5 (w ∷ []), after))
    × XLogsView.Represents date_millis after (w ∷ [])
read_by_gxid-eq-of_group_example =
    XLogsView.read_by_gxid-eq-of_group date_millis one_store (w ∷ []) one_Represents 5 (omega arith)

read_by_time-eq-calls_in_range_example :
    XLogs.read_by_time date_millis one_store 1699999999000 1700000001000
    ≡ ok (
        calls_in_range (data_of (w ∷ [])) 1699999999000 1700000001000 (
          at_times date_millis
            (points (w ∷ []))
            (forward seconds_per_day_x2 1700000001000 1699999999000)))
read_by_time-eq-calls_in_range_example =
    read_by_time-eq-calls_in_range date_millis one_store (w ∷ []) 1699999999000 1700000001000
      one_Represents

put_time-Represents_example :
    (after : IndexTimeFile) × (Times.put date_millis
        (TimesView.open_index-Represents date_millis).0
        1700000000000
        0
      ≡ ok after)
    × TimesView.Represents date_millis after ((1700000000000, 0) ∷ [])
put_time-Represents_example =
    TimesView.put_time-Represents date_millis (TimesView.open_index-Represents date_millis).0 []
      (TimesView.open_index-Represents date_millis).2 1700000000000 0 (omega arith) refl
      (one_key _ 1700000000000 0).file

abbrev one_time : IndexTimeFile
one_time =
    (TimesView.put_time-Represents date_millis (TimesView.open_index-Represents date_millis).0 []
      (TimesView.open_index-Represents date_millis).2 1700000000000 0 (omega arith) refl
      (one_key _ 1700000000000 0).file).0

one_time_Represents : TimesView.Represents date_millis one_time ((1700000000000, 0) ∷ [])
one_time_Represents =
    (TimesView.put_time-Represents date_millis (TimesView.open_index-Represents date_millis).0 []
      (TimesView.open_index-Represents date_millis).2 1700000000000 0 (omega arith) refl
      (one_key _ 1700000000000 0).file).2

-- Two half seconds, of which the second is that of the point.
read-InSlots_example :
    (calls : List TimeToData) × (Times.read date_millis one_time 1699999999500 1700000000400
      ≡ ok calls)
    × InSlots date_millis ((1700000000000, 0) ∷ []) 1699999999500 2 calls
read-InSlots_example =
    read-InSlots date_millis one_time ((1700000000000, 0) ∷ []) 1699999999500 1700000000400
      one_time_Represents (omega arith) (omega arith)

abbrev counters : CounterStore
counters = (CountersView.open_store-Represents 1 (omega arith)).0

counters_Represents : CountersView.Represents counters []
counters_Represents = (CountersView.open_store-Represents 1 (omega arith)).2

abbrev key : Bytes
key = to_bytes_long 9

counters-CanTake : CountersView.CanTake counters [] key counters_Represents 1030 7 5
unfolding by_key CounterLayout.file hhmm_to_bucket get_bucket_count
counters-CanTake = record {
  in_record = omega arith;
  word = omega arith;
  file_room = omega arith;
  key_room = one_key _ 9 0;
}

write_counter-Represents_example :
    (after : CounterStore) × (Counters.write counters key 1030 7 5 ≡ ok after)
    × CountersView.Represents after (written key 1030 7 5 [])
unfolding counter_of
write_counter-Represents_example =
    CountersView.write_counter-Represents counters [] key counters_Represents 1030 7 5
      counters-CanTake tt

read-eq-counter_of_example :
    (after : CounterStore) × (Counters.read (λ v. v) counters key
      ≡ ok (seen (counter_of key []), after))
    × CountersView.Represents after []
read-eq-counter_of_example =
    CountersView.read-eq-counter_of counters [] key counters_Represents (λ v. v)

hhmm_to_bucket-lt-get_bucket_count_example : hhmm_to_bucket 2359 1 < get_bucket_count 1
hhmm_to_bucket-lt-get_bucket_count_example =
    hhmm_to_bucket-lt-get_bucket_count 23 59 (omega arith) (omega arith) 1
