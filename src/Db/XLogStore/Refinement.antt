-- ===== src/Db/XLogStore/Refinement.antt =====
-- The store against its abstract view: the list of its writes, newest first.
use scouter_server_rust.Common.{
  ℕ, ◌^◌, ◌≤◌, ◌<◌, ◌≡◌, refl, sym, subst, arith, Bool, true, false, none, List, [], ◌∷◌, ◌++◌,
  append-nil, length, ◌==◌, if◌then◌else◌, All, inl, inr,
}
use scouter_server_rust.Word.{IsWord64, signed_leb}
use scouter_server_rust.Outcome.{ok}
use scouter_server_rust.Protocol.Output.{to_bytes_long, to_bytes5}
use scouter_server_rust.Db.RealDataFile as DataFile
use scouter_server_rust.Db.RealDataFile.{RealDataFile}
use scouter_server_rust.Db.RealDataFile.Appends.{Holds, open_file-Holds}
use scouter_server_rust.Db.IndexKeyFile as Keys
use scouter_server_rust.Db.IndexKeyFile.{IndexKeyFile}
use scouter_server_rust.Db.IndexKeyFile.Layout.{Entry, bucket_of}
use scouter_server_rust.Db.IndexKeyFile.Chain.{FitsFile}
use scouter_server_rust.Db.IndexKeyFile.Refinement as KeysView
use scouter_server_rust.Db.IndexKeyFile.Refinement.{
  get-eq-lookup, get_all-eq-lookup_all, put-Represents, open_index-Represents,
}
use scouter_server_rust.Db.IndexTimeFile.Refinement as TimesView
use scouter_server_rust.Db.IndexTimeFile.Refinement.{FitsPoints}
use scouter_server_rust.Db.XLogStore.{
  XLogStore, Files, open_store, write, read_by_txid, read_by_gxid, write_data,
}
use scouter_server_rust.Db.XLogStore.Layout.{
  Written, IsSound, file, points, keyed, by_txid, by_gxid, newest, of_group, length-file,
  write_data_lem,
}
use scouter_server_rust.Db.XLogStore.Find.{find_lem, group_lem, to_long5_from_bytes-to_bytes5}

-- A table of keys and its file have room for the entries.
abbrev pub KeysFit : IndexKeyFile → List Entry → Type 0
KeysFit index es = FitsFile (bucket_of index.hash_block.capacity) es

module _ (date_millis : ℕ → ℕ) where
  -- The four files of the store hold these writes.
  pub record Represents (store : XLogStore) (ws : List Written) : Type 0 where
    pub content : Holds store.data_file (file ws)
    pub low : length (file ws) < 2 ^ 39
    pub times : TimesView.Represents date_millis store.time_index (points ws)
    pub txids : KeysView.Represents store.txid_index (by_txid ws)
    pub gxids : KeysView.Represents store.gxid_index (by_gxid ws)
    pub sound : All IsSound ws

  -- A write that the store can take: its time is positive, its data short, and the files have room.
  pub record CanTake (store : XLogStore) (ws : List Written) (w : Written) : Type 0 where
    pub time_word : IsWord64 w.time
    pub positive : signed_leb w.time 0 ≡ false
    pub sound : IsSound w
    pub file_room : length (file (w ∷ ws)) < 2 ^ 39
    pub time_room : FitsPoints date_millis (points (w ∷ ws))
    pub txid_room : KeysFit store.txid_index (by_txid (w ∷ ws))
    pub gxid_room : KeysFit store.gxid_index (by_gxid (w ∷ ws))

  module _ (store : XLogStore) (ws : List Written) (r : Represents store ws) where
    put_gxid_lem :
        (w : Written)
        → CanTake store ws w
        → (after : IndexKeyFile) × ((if w.gxid == 0
              then ok store.gxid_index
              else Keys.put store.gxid_index (to_bytes_long w.gxid) (to_bytes5 (length (file ws))))
            ≡ ok after)
          × KeysView.Represents after (by_gxid (w ∷ ws))
    put_gxid_lem w c = go (w.gxid == 0) (unfold by_gxid in refl)
      where
        go :
            (t : Bool)
            → by_gxid (w ∷ ws) ≡ (if t then by_gxid ws else keyed w.gxid ws ∷ by_gxid ws)
            → (after : IndexKeyFile) × ((if t
                  then ok store.gxid_index
                  else Keys.put store.gxid_index
                      (to_bytes_long w.gxid)
                      (to_bytes5 (length (file ws))))
                ≡ ok after)
              × KeysView.Represents after (by_gxid (w ∷ ws))
        go true e =
            (store.gxid_index, refl, subst (KeysView.Represents store.gxid_index) (sym e) r.gxids)
        go false e =
            let (after, done, r') =
              put-Represents store.gxid_index (by_gxid ws) (to_bytes_long w.gxid) r.gxids
                (to_bytes5 (length (file ws))) (subst (KeysFit store.gxid_index) e c.gxid_room) in
            (after, done, subst (KeysView.Represents after) (sym e) r')

    -- On a store that holds some writes, a write that it can take succeeds and adds itself in front.
    pub write-Represents :
        (w : Written)
        → CanTake store ws w
        → (after : XLogStore) × (write date_millis store w.time w.txid w.gxid w.bytes ≡ ok after)
          × Represents after (w ∷ ws)
    unfolding write points by_txid file
    write-Represents w c =
        let (offset, content) =
          write_data_lem store.data_file (file ws) w.bytes r.content
            (omega (arith, c.file_room, length-file w ws)) in
        let (times, time_done, rt) =
          TimesView.put_time-Represents date_millis store.time_index (points ws) r.times w.time
            (length (file ws)) c.time_word c.positive c.time_room in
        let (txids, txid_done, rx) =
          put-Represents store.txid_index (by_txid ws) (to_bytes_long w.txid) r.txids
            (to_bytes5 (length (file ws))) c.txid_room in
        let (gxids, gxid_done, rg) = put_gxid_lem w c in
        (
          record {
            data_file = (write_data store.data_file w.bytes).1;
            time_index = times;
            txid_index = txids;
            gxid_index = gxids;
          },
          rw (offset, time_done, txid_done, gxid_done) refl,
          record {
            content = content;
            low = c.file_room;
            times = rt;
            txids = rx;
            gxids = rg;
            sound = (c.sound, r.sound);
          },
        )

    moved :
        (df : RealDataFile) → Holds df (file ws) → Represents (record store { data_file = df }) ws
    moved df h = record {
      content = h;
      low = r.low;
      times = r.times;
      txids = r.txids;
      gxids = r.gxids;
      sound = r.sound;
    }

    whole : Holds store.data_file (file ws ++ [])
    whole = subst (Holds store.data_file) (sym (append-nil (file ws))) r.content

    -- On a store that holds some writes, read_by_txid returns the data of the newest write of the
    -- call, if there is one, and the store holds the same writes.
    pub read_by_txid-eq-newest :
        (txid : ℕ)
        → IsWord64 txid
        → (after : XLogStore) × (read_by_txid store txid ≡ ok (newest txid ws, after))
          × Represents after ws
    unfolding read_by_txid
    read_by_txid-eq-newest txid word =
        let found = get-eq-lookup store.txid_index (by_txid ws) (to_bytes_long txid) r.txids in
        elim (find_lem txid word ws [] store.data_file whole r.sound r.low) [
          | inl hit ↦ (
            record store { data_file = hit.after },
            rw
                (
                  found,
                  hit.position_here,
                  to_long5_from_bytes-to_bytes5 hit.offset hit.offset_small,
                  hit.reads,
                  hit.data_here,
                )
                refl,
            moved hit.after (subst (Holds hit.after) (append-nil (file ws)) hit.holds),
          )
          | inr miss ↦ (store, rw (found, miss.no_position, miss.no_data) refl, r)
        ]

    -- On a store that holds some writes, read_by_gxid returns the data of all writes of the group,
    -- newest first (none for 0, which stands for no group), and the store holds the same writes.
    pub read_by_gxid-eq-of_group :
        (gxid : ℕ)
        → IsWord64 gxid
        → (after : XLogStore) × (read_by_gxid store gxid ≡ ok (of_group gxid ws, after))
          × Represents after ws
    unfolding read_by_gxid
    read_by_gxid-eq-of_group gxid word =
        let (df, done, h) = group_lem gxid word ws [] store.data_file whole r.sound r.low in
        (
          record store { data_file = df },
          rw
              (
                get_all-eq-lookup_all store.gxid_index (by_gxid ws) (to_bytes_long gxid) r.gxids,
                done,
              )
              refl,
          moved df (subst (Holds df) (append-nil (file ws)) h),
        )

  abbrev pub no_files : Files
  no_files = record {
    service = none;
    time_hfile = none;
    time_kfile = none;
    txid_hfile = none;
    txid_kfile = none;
    gxid_hfile = none;
    gxid_kfile = none;
  }

  -- A store in an empty directory, with at least a megabyte for each table, holds no writes.
  pub open_store-Represents :
      (xlog_index_mb : ℕ)
      → 1 ≤ xlog_index_mb
      → (store : XLogStore) × (open_store no_files xlog_index_mb ≡ ok store) × Represents store []
  unfolding open_store file points by_txid by_gxid
  open_store-Represents mb h =
      let (times, time_done, rt) = TimesView.open_index-Represents date_millis in
      let (keys, key_done, rk) = open_index-Represents mb h in
      (
        record {
          data_file = DataFile.open_file none;
          time_index = times;
          txid_index = keys;
          gxid_index = keys;
        },
        rw (time_done, key_done) refl,
        record {
          content = open_file-Holds;
          low = omega arith;
          times = rt;
          txids = rk;
          gxids = rk;
          sound = tt;
        },
      )
