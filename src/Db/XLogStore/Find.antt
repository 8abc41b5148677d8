-- ===== src/Db/XLogStore/Find.antt =====
-- From the entries of an index to the data: what the lookups of the store find in its data file.
use scouter_server_rust.Common.{
  ℕ, ◌^◌, ◌<◌, ◌≡◌, refl, sym, ap, subst, ◌∙◌, arith, Bool, true, false, Option, none, some, List,
  [], ◌∷◌, ◌++◌, length, ◌==◌, ==_iff, if◌then◌else◌, All, Bool-cases, inl, inr, ◌⊎◌,
}
use scouter_server_rust.Word.{Bytes, IsWord64, to_be_bytes, from_be_bytes}
use scouter_server_rust.Word.Codec.{from_be_bytes-to_be_bytes}
use scouter_server_rust.Outcome.{ok}
use scouter_server_rust.Protocol.Output.{to_bytes_long, to_bytes5}
use scouter_server_rust.Protocol.Value.{bytes_eq}
use scouter_server_rust.Protocol.Value.Maps.{bytes_eq→eq, bytes_eq_refl}
use scouter_server_rust.Db.MemHashBlock.Slots.{to_long5-to_bytes5}
use scouter_server_rust.Db.RealDataFile.{RealDataFile}
use scouter_server_rust.Db.RealDataFile.Appends.{Holds}
use scouter_server_rust.Db.IndexKeyFile.Layout.{Entry, lookup, lookup_all}
use scouter_server_rust.Db.XLogStore.{to_long5_from_bytes, read_data_at, read_each}
use scouter_server_rust.Db.XLogStore.Layout.{
  Written, IsSound, data_record, file, file-split, length-file, keyed, by_txid, by_gxid, newest,
  of_group, read_data_at_lem,
}

-- Numbers of 64 bits are told apart by their keys.
pub key_test :
    (a b : ℕ) → IsWord64 a → IsWord64 b → bytes_eq (to_bytes_long a) (to_bytes_long b) ≡ (a == b)
unfolding to_bytes_long
key_test a b ha hb = elim (Bool-cases (a == b)) [
  | inl eq ↦
      ap (λ (n : ℕ). bytes_eq (to_be_bytes 8 n) (to_be_bytes 8 b)) ((==_iff a b).0 eq)
      ∙ bytes_eq_refl (to_be_bytes 8 b)
      ∙ sym eq
  | inr ne ↦ elim (Bool-cases (bytes_eq (to_be_bytes 8 a) (to_be_bytes 8 b))) [
    | inl same ↦ absurd (ground (arith, number same))
    | inr differ ↦ differ ∙ sym ne
  ]
]
  where
    number : bytes_eq (to_be_bytes 8 a) (to_be_bytes 8 b) ≡ true → a ≡ b
    number same = omega (
      arith,
      from_be_bytes-to_be_bytes 8 0 a,
      from_be_bytes-to_be_bytes 8 0 b,
      ap (from_be_bytes 0) (bytes_eq→eq (to_be_bytes 8 a) (to_be_bytes 8 b) same),
    )

pub to_long5_from_bytes-to_bytes5 : (p : ℕ) → p < 2 ^ 39 → to_long5_from_bytes (to_bytes5 p) ≡ ok p
unfolding to_long5_from_bytes to_bytes5
to_long5_from_bytes-to_bytes5 p h = to_long5-to_bytes5 p h

-- The newest data of a call: where the index says that it lies, and that it can be read there.
pub record Hit (df : RealDataFile) (whole : Bytes) (position : Option Bytes)
    (content : Option Bytes) : Type 0 where
  pub offset : ℕ
  pub bytes : Bytes
  pub after : RealDataFile
  pub position_here : position ≡ some (to_bytes5 offset)
  pub offset_small : offset < 2 ^ 39
  pub data_here : content ≡ some bytes
  pub reads : read_data_at df offset ≡ ok (some bytes, after)
  pub holds : Holds after whole

pub record Miss (position : Option Bytes) (content : Option Bytes) : Type 0 where
  pub no_position : position ≡ none
  pub no_data : content ≡ none

pub lookup_here :
    (key : Bytes) (e : Entry) (es : List Entry) (t : Bool)
    → e.deleted ≡ false
    → bytes_eq e.key key ≡ t
    → lookup key (e ∷ es) ≡ (if t then some e.data_pos else lookup key es)
unfolding lookup
lookup_here key e es t live test = rw (live, test) refl

lookup_all_here :
    (key : Bytes) (e : Entry) (es : List Entry) (t : Bool)
    → e.deleted ≡ false
    → bytes_eq e.key key ≡ t
    → lookup_all key (e ∷ es) ≡ (if t then e.data_pos ∷ lookup_all key es else lookup_all key es)
unfolding lookup_all
lookup_all_here key e es t live test = rw (live, test) refl

module _ (id : ℕ) (word : IsWord64 id) where
  pub find_lem :
      (ws : List Written) (more : Bytes) (df : RealDataFile)
      → Holds df (file ws ++ more)
      → All IsSound ws
      → length (file ws) < 2 ^ 39
      → Hit df (file ws ++ more) (lookup (to_bytes_long id) (by_txid ws)) (newest id ws)
        ⊎ Miss (lookup (to_bytes_long id) (by_txid ws)) (newest id ws)
  unfolding by_txid newest
  find_lem [] more df h s low = inr (record { no_position = unfold lookup in refl; no_data = refl })
  find_lem (w ∷ ws) more df h (sw, s) low =
      let step =
        lookup_here (to_bytes_long id) (keyed w.txid ws) (by_txid ws) (w.txid == id) refl
          (key_test w.txid id sw.txid_word word) in
      let below : Holds df (file ws ++ (data_record w.bytes ++ more)) =
        subst (Holds df) (file-split w ws more) h in
      let small : length (file ws) < 2 ^ 39 = omega (arith, low, length-file w ws) in
      elim (Bool-cases (w.txid == id)) [
        | inl here ↦
            let (after, reads, holds) = read_data_at_lem df (file ws) w.bytes more below sw.short in
            inl (record {
              offset = length (file ws);
              bytes = w.bytes;
              after = after;
              position_here = step ∙ rw here refl;
              offset_small = small;
              data_here = rw here refl;
              reads = reads;
              holds = subst (Holds after) (sym (file-split w ws more)) holds;
            })
        | inr other ↦
            rw (step, other, file-split w ws more)
              (find_lem ws (data_record w.bytes ++ more) df below s small)
      ]

  pub group_lem :
      (ws : List Written) (more : Bytes) (df : RealDataFile)
      → Holds df (file ws ++ more)
      → All IsSound ws
      → length (file ws) < 2 ^ 39
      → (after : RealDataFile) × (read_each df (lookup_all (to_bytes_long id) (by_gxid ws))
          ≡ ok (of_group id ws, after))
        × Holds after (file ws ++ more)
  unfolding by_gxid of_group read_each
  group_lem [] more df h s low = (df, unfold lookup_all in refl, h)
  group_lem (w ∷ ws) more df h (sw, s) low =
      let below : Holds df (file ws ++ (data_record w.bytes ++ more)) =
        subst (Holds df) (file-split w ws more) h in
      let small : length (file ws) < 2 ^ 39 = omega (arith, low, length-file w ws) in
      let step =
        lookup_all_here (to_bytes_long id) (keyed w.gxid ws) (by_gxid ws) (w.gxid == id) refl
          (key_test w.gxid id sw.gxid_word word) in
      rw (file-split w ws more) (elim (Bool-cases (w.gxid == 0)) [
        | inl ungrouped ↦ rw ungrouped (group_lem ws (data_record w.bytes ++ more) df below s small)
        | inr grouped ↦ elim (Bool-cases (w.gxid == id)) [
          | inl here ↦
              let (next, reads, holds) =
                read_data_at_lem df (file ws) w.bytes more below sw.short in
              let (after, rest, held) =
                group_lem ws (data_record w.bytes ++ more) next holds s small in
              (
                after,
                rw
                    (
                      grouped,
                      step,
                      here,
                      to_long5_from_bytes-to_bytes5 (length (file ws)) small,
                      reads,
                      rest,
                    )
                    refl,
                held,
              )
          | inr other ↦
              rw (grouped, step, other)
                (group_lem ws (data_record w.bytes ++ more) df below s small)
        ]
      ])
