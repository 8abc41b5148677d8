-- ===== src/Db/IndexKeyFile/Laws.antt =====
-- What a client of the index sees: puts, deletes and lookups of the same and of other keys.
use scouter_server_rust.Common.{
  ◌≡◌, refl, sym, ap, ◌∙◌, arith, true, false, none, some, List, [], ◌∷◌, Bool-cases, inl, inr,
}
use scouter_server_rust.Word.{Bytes, as_32}
use scouter_server_rust.Outcome.{ok}
use scouter_server_rust.Protocol.Value.{bytes_eq}
use scouter_server_rust.Protocol.Value.Maps.{bytes_eq→eq, bytes_eq_refl}
use scouter_server_rust.Db.IndexKeyFile.{IndexKeyFile, put, get, delete}
use scouter_server_rust.Db.IndexKeyFile.Layout.{
  Entry, is_hit, lookup, bucket_of, mark, delete_all, count_hits,
}
use scouter_server_rust.Db.IndexKeyFile.Chain.{FitsFile}
use scouter_server_rust.Db.IndexKeyFile.Refinement.{
  Represents, get-eq-lookup, put-Represents, delete-Represents,
}

lookup_new :
    (key data_pos : Bytes) (es : List Entry)
    → lookup key (record { deleted = false; key = key; data_pos = data_pos } ∷ es) ≡ some data_pos
unfolding lookup
lookup_new key data_pos es = rw (bytes_eq_refl key) refl

lookup_other :
    (key other data_pos : Bytes) (es : List Entry)
    → bytes_eq key other ≡ false
    → lookup other (record { deleted = false; key = key; data_pos = data_pos } ∷ es)
      ≡ lookup other es
unfolding lookup
lookup_other key other data_pos es h = rw h refl

lookup-delete_all : (key : Bytes) (es : List Entry) → lookup key (delete_all key es) ≡ none
unfolding lookup delete_all mark
lookup-delete_all key [] = refl
lookup-delete_all key (e ∷ es) = elim (Bool-cases (is_hit key e)) [
  | inl hit ↦ rw hit (lookup-delete_all key es)
  | inr miss ↦ rw (miss, miss) (lookup-delete_all key es)
]

not_hit_other :
    (key other : Bytes) (e : Entry)
    → bytes_eq key other ≡ false
    → is_hit key e ≡ true
    → is_hit other e ≡ false
not_hit_other key other e h hit =
    let same : bytes_eq e.key key ≡ true = ground arith in
    rw (bytes_eq→eq e.key key same, h) (ground arith)

lookup-delete_all_other :
    (key other : Bytes) (es : List Entry)
    → bytes_eq key other ≡ false
    → lookup other (delete_all key es) ≡ lookup other es
unfolding lookup delete_all mark
lookup-delete_all_other key other [] h = refl
lookup-delete_all_other key other (e ∷ es) h = elim (Bool-cases (is_hit key e)) [
  | inl hit ↦ rw (hit, not_hit_other key other e h hit) (lookup-delete_all_other key other es h)
  | inr miss ↦ rw (miss, lookup-delete_all_other key other es h) refl
]

module _ (index : IndexKeyFile) (es : List Entry) (key : Bytes) (r : Represents index es) where
  -- On files that hold some entries, put of an entry that fits succeeds; get then returns the new
  -- data for the key, and what it returned before for every other key.
  pub get-put :
      (data_pos : Bytes)
      → FitsFile
          (bucket_of index.hash_block.capacity)
          (record { deleted = false; key = key; data_pos = data_pos } ∷ es)
      → (after : IndexKeyFile) × (put index key data_pos ≡ ok after)
        × (get after key ≡ ok (some data_pos))
        × ((other : Bytes) → bytes_eq key other ≡ false → get after other ≡ get index other)
  get-put data_pos fits =
      let (after, done, r') = put-Represents index es key r data_pos fits in
      (
        after,
        done,
        get-eq-lookup after _ key r' ∙ ap ok (lookup_new key data_pos es),
        λ other h.
            get-eq-lookup after _ other r'
            ∙ ap ok (lookup_other key other data_pos es h)
            ∙ sym (get-eq-lookup index es other r),
      )

  -- On files that hold some entries, delete succeeds and returns how many live entries the key had,
  -- modulo 2 ^ 32; get then finds nothing for the key, and what it returned before for every other key.
  pub get-delete :
      (after : IndexKeyFile) × (delete index key ≡ ok (after, as_32 (count_hits key es)))
      × (get after key ≡ ok none)
      × ((other : Bytes) → bytes_eq key other ≡ false → get after other ≡ get index other)
  get-delete =
      let (after, done, r') = delete-Represents index es key r in
      (
        after,
        done,
        get-eq-lookup after _ key r' ∙ ap ok (lookup-delete_all key es),
        λ other h.
            get-eq-lookup after _ other r'
            ∙ ap ok (lookup-delete_all_other key other es h)
            ∙ sym (get-eq-lookup index es other r),
      )
