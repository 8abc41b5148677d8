-- ===== src/Db/CounterStore/Refinement.antt =====
-- The store against its abstract view: the counters of the day, by key.
use scouter_server_rust.Common.{
  ℕ, ◌+◌, ◌^◌, ◌≤◌, ◌<◌, ◌≡◌, refl, sym, ap, subst, ◌∙◌, arith, Option, none, some, List, [], ◌∷◌,
  ◌++◌, append-nil, length, length-append, length-replicate, replicate, All, inl, inr,
}
use scouter_server_rust.Word.{Bytes, IsWord64}
use scouter_server_rust.Outcome.{ok}
use scouter_server_rust.Protocol.Output.{to_bytes5}
use scouter_server_rust.Db.RealDataFile as DataFile
use scouter_server_rust.Db.RealDataFile.{RealDataFile}
use scouter_server_rust.Db.RealDataFile.Appends.{Holds, open_file-Holds, write-Holds}
use scouter_server_rust.Db.IndexKeyFile.Layout.{bucket_of}
use scouter_server_rust.Db.IndexKeyFile.Chain.{FitsFile}
use scouter_server_rust.Db.IndexKeyFile.Refinement as KeysView
use scouter_server_rust.Db.IndexKeyFile.Refinement.{
  get-eq-lookup, put-Represents, open_index-Represents,
}
use scouter_server_rust.Db.CounterStore.{
  CounterStore, CounterRecord, get_bucket_count, hhmm_to_bucket, open_store, write_new_record,
  write, read,
}
use scouter_server_rust.Db.CounterStore.Layout.{
  Counter, IsSound, counter_bytes, length-encode, file, by_key, counter_of, with_values, set_at,
  length-set_at, set_at-words, zeros-words,
}
use scouter_server_rust.Db.CounterStore.Find.{Hit, Miss, find_lem, length-file}
use scouter_server_rust.Db.CounterStore.Records.{
  to_long5_from_bytes-to_bytes5, bucket_count-le, new_record_lem, update_value_lem, read_record_lem,
}

-- The files of the store hold these counters.
pub record Represents (store : CounterStore) (cs : List Counter) : Type 0 where
  pub content : Holds store.data_file (file cs)
  pub low : length (file cs) < 2 ^ 39
  pub keys : KeysView.Represents store.index_file (by_key cs)
  pub sound : All IsSound cs

-- The counter that a write of a key makes when there is none: zeros, but for the value.
abbrev pub new_counter : Bytes → ℕ → ℕ → ℕ → Counter
new_counter key hhmm v t = record {
  key = key;
  time_type = t;
  values = set_at (hhmm_to_bucket hhmm t) v (replicate (get_bucket_count t) 0);
}

-- What a write promises: the value in its place in the counter of the key, which is made if it is
-- not there.
abbrev pub written_to : Option Counter → Bytes → ℕ → ℕ → ℕ → List Counter → List Counter
written_to none key hhmm v t cs = new_counter key hhmm v t ∷ cs
written_to (some c) key hhmm v t cs = with_values key (set_at (hhmm_to_bucket hhmm t) v c.values) cs

abbrev pub written : Bytes → ℕ → ℕ → ℕ → List Counter → List Counter
written key hhmm v t cs = written_to (counter_of key cs) key hhmm v t cs

-- A counter that is there was made with the same granularity.
abbrev pub IsOfType : ℕ → Option Counter → Type 0
IsOfType t none = Unit {0}
IsOfType t (some c) = c.time_type ≡ t

-- What a reader sees of a counter.
abbrev pub seen : Option Counter → Option CounterRecord
seen none = none
seen (some c) = some (record { value_type = 9; time_type = c.time_type; values = c.values })

new_counter-IsSound : (key : Bytes) (hhmm v t : ℕ) → IsWord64 v → IsSound (new_counter key hhmm v t)
new_counter-IsSound key hhmm v t w = record {
  count =
      length-set_at (hhmm_to_bucket hhmm t) v (replicate (get_bucket_count t) 0)
      ∙ length-replicate {A = ℕ} (get_bucket_count t) 0;
  words = set_at-words (hhmm_to_bucket hhmm t) v _ w (zeros-words (get_bucket_count t));
}

module _ (store : CounterStore) (cs : List Counter) (key : Bytes) (r : Represents store cs) where
  -- A write that the store can take: its bucket is in the record, and the files have room for a new
  -- counter.
  pub record CanTake (hhmm v t : ℕ) : Type 0 where
    pub in_record : hhmm_to_bucket hhmm t < get_bucket_count t
    pub word : IsWord64 v
    pub file_room : length (file cs) + 11522 < 2 ^ 39
    pub key_room :
        FitsFile
          (bucket_of store.index_file.hash_block.capacity)
          (by_key (new_counter key hhmm v t ∷ cs))

  whole : Holds store.data_file (file cs ++ [])
  whole = subst (Holds store.data_file) (sym (append-nil (file cs))) r.content

  offset_small : (h : Hit key cs []) → length h.front < 2 ^ 39
  offset_small h = omega (
    arith,
    r.low,
    ap length h.splits,
    length-append (file cs) [],
    length-append h.front (counter_bytes h.counter.time_type h.counter.values ++ h.behind),
  )

  write_new :
      (hhmm v t : ℕ)
      → CanTake hhmm v t
      → Miss key cs
      → (after : CounterStore) × (write store key hhmm v t ≡ ok after)
        × Represents after (new_counter key hhmm v t ∷ cs)
  unfolding write write_new_record file by_key
  write_new hhmm v t c miss =
      let sound = new_counter-IsSound key hhmm v t c.word in
      let bytes = counter_bytes t (new_counter key hhmm v t).values in
      let size = length-file (new_counter key hhmm v t) cs in
      let bound = bucket_count-le t in
      let (offset, content) = write-Holds store.data_file (file cs) bytes r.content (
        omega (arith, c.file_room, sound.count, length-encode (new_counter key hhmm v t).values)) in
      let (keys, done, rk) =
        put-Represents store.index_file (by_key cs) key r.keys (to_bytes5 (length (file cs)))
          c.key_room in
      (
        record { index_file = keys; data_file = (DataFile.write store.data_file bytes).1 },
        rw
            (
              get-eq-lookup store.index_file (by_key cs) key r.keys,
              miss.no_position,
              new_record_lem hhmm v t c.in_record,
              offset,
              done,
            )
            refl,
        record {
          content = content;
          low = omega (arith, size, c.file_room, sound.count);
          keys = rk;
          sound = (sound, r.sound);
        },
      )

  write_there :
      (hhmm v : ℕ) (h : Hit key cs [])
      → CanTake hhmm v h.counter.time_type
      → (after : CounterStore) × (write store key hhmm v h.counter.time_type ≡ ok after)
        × Represents after (
            with_values key
              (set_at (hhmm_to_bucket hhmm h.counter.time_type) v h.counter.values)
              cs)
  unfolding write
  write_there hhmm v h c =
      let b = hhmm_to_bucket hhmm h.counter.time_type in
      let vs = set_at b v h.counter.values in
      let same_count = length-set_at b v h.counter.values in
      let located = subst (Holds store.data_file) h.splits whole in
      let (df, done, changed) =
        update_value_lem store.data_file h.front h.behind h.counter located h.sound hhmm v
          c.in_record in
      (
        record store { data_file = df },
        rw
            (
              get-eq-lookup store.index_file (by_key cs) key r.keys,
              h.position,
              to_long5_from_bytes-to_bytes5 (length h.front) (offset_small h),
              done,
            )
            refl,
        record {
          content =
              subst (Holds df)
                (sym (h.splits_changed vs) ∙ append-nil (file (with_values key vs cs))) changed;
          low = rw (h.same_length vs same_count) r.low;
          keys =
              subst (KeysView.Represents store.index_file) (sym (h.same_keys vs same_count)) r.keys;
          sound = h.all_sound vs (record {
            count = same_count ∙ h.sound.count;
            words = set_at-words b v h.counter.values c.word h.sound.words;
          });
        },
      )

  -- On a store that holds some counters, a write at a bucket of the day succeeds when the files have
  -- room and the counter of the key, if there is one, was made with the same granularity: it sets the
  -- value of the bucket in the counter of the key, a new one of zeros if there was none, and changes
  -- no other value.
  pub write_counter-Represents :
      (hhmm v t : ℕ)
      → CanTake hhmm v t
      → IsOfType t (counter_of key cs)
      → (after : CounterStore) × (write store key hhmm v t ≡ ok after)
        × Represents after (written key hhmm v t cs)
  write_counter-Represents hhmm v t c same = elim (find_lem key cs [] r.sound) [
    | inl h ↦
        let of_type : h.counter.time_type ≡ t = subst (IsOfType t) h.found same in
        subst (λ (o : Option Counter). Written o) (sym h.found)
          (subst
            (λ (n : ℕ).
              CanTake hhmm v n
              → (after : CounterStore) × (write store key hhmm v n ≡ ok after)
                × Represents after
                    (with_values key (set_at (hhmm_to_bucket hhmm n) v h.counter.values) cs))
            of_type (write_there hhmm v h) c)
    | inr miss ↦
        subst (λ (o : Option Counter). Written o) (sym miss.not_found) (write_new hhmm v t c miss)
  ]
    where
      Written : Option Counter → Type 0
      Written o =
          (after : CounterStore) × (write store key hhmm v t ≡ ok after)
          × Represents after (written_to o key hhmm v t cs)

  moved : (df : RealDataFile) → Holds df (file cs) → Represents (record store { data_file = df }) cs
  moved df h = record { content = h; low = r.low; keys = r.keys; sound = r.sound }

  -- On a store that holds some counters, read returns the counter of the key with all its values, if
  -- there is one, and the store holds the same counters.
  pub read-eq-counter_of :
      (f32_to_f64 : ℕ → ℕ)
      → (after : CounterStore) × (read f32_to_f64 store key ≡ ok (seen (counter_of key cs), after))
        × Represents after cs
  unfolding read
  read-eq-counter_of f =
      let entry = get-eq-lookup store.index_file (by_key cs) key r.keys in
      elim (find_lem key cs [] r.sound) [
        | inl h ↦
            let (df, done, held) =
              read_record_lem store.data_file h.front h.behind h.counter
                (subst (Holds store.data_file) h.splits whole) h.sound f in
            (
              record store { data_file = df },
              rw
                  (
                    entry,
                    h.position,
                    to_long5_from_bytes-to_bytes5 (length h.front) (offset_small h),
                    done,
                    h.found,
                  )
                  refl,
              moved df (subst (Holds df) (sym h.splits ∙ append-nil (file cs)) held),
            )
        | inr miss ↦ (store, rw (entry, miss.no_position, miss.not_found) refl, r)
      ]

-- A store of a new day, with at least a megabyte for its table, holds no counters.
pub open_store-Represents :
    (index_mb : ℕ)
    → 1 ≤ index_mb
    → (store : CounterStore) × (open_store none none none index_mb ≡ ok store) × Represents store []
unfolding open_store file by_key
open_store-Represents mb h =
    let (keys, done, rk) = open_index-Represents mb h in
    (
      record { index_file = keys; data_file = DataFile.open_file none },
      rw done refl,
      record { content = open_file-Holds; low = omega arith; keys = rk; sound = tt },
    )
