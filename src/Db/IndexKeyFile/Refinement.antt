-- ===== src/Db/IndexKeyFile/Refinement.antt =====
-- The index against its abstract view: a list of entries, newest first.
use scouter_server_rust.Common.{
  ℕ, ◌+◌, ◌*◌, ◌≤◌, ◌<◌, ◌^◌, ◌≡◌, refl, sym, ap, ◌∙◌, arith, true, false, none, some, List, [],
  ◌∷◌, length, append-nil, ◌==◌, if◌then◌else◌, All, subst,
}
use scouter_server_rust.Word.{Bytes, as_32}
use scouter_server_rust.Outcome.{Outcome, ok}
use scouter_server_rust.Util.Hash.{hash_bytes}
use scouter_server_rust.Db.MemHashBlock as Block
use scouter_server_rust.Db.MemHashBlock.{MemHashBlock, bucket, open_block}
use scouter_server_rust.Db.MemHashBlock.Slots as Slots
use scouter_server_rust.Db.MemHashBlock.Slots.{slot, long5_value, put_lem, get_lem, open_block_new}
use scouter_server_rust.Db.RealKeyFile.{append, write_record, get_first_pos, open_file, magic}
use scouter_server_rust.Db.IndexKeyFile.{
  IndexKeyFile, open_index, put, get, get_all, has_key, delete, read_all, delete_from, find_from,
  collect_from,
}
use scouter_server_rust.Db.IndexKeyFile.Layout.{
  Entry, lookup, lookup_all, delete_all, count_hits, live_entries, bucket_of, layout, chain_head,
  EntryFits,
}
use scouter_server_rust.Db.IndexKeyFile.Chain.{FitsFile, length-le-layout}
use scouter_server_rust.Db.IndexKeyFile.Find.{find_from_lem, collect_from_lem}
use scouter_server_rust.Db.IndexKeyFile.Delete.{
  mark_key, mark_data, delete_from_lem, length-delete_all, chain_head-delete_all,
}
use scouter_server_rust.Db.IndexKeyFile.Scan.{IsSmall, scan_lem}

-- The two files of the index hold these entries.
pub record Represents (index : IndexKeyFile) (es : List Entry) : Type 0 where
  pub valid : Slots.IsValid index.hash_block
  pub content : index.key_file ≡ layout (bucket_of index.hash_block.capacity) es
  pub heads :
      (b : ℕ)
      → b < index.hash_block.capacity
      → slot index.hash_block b ≡ ok (chain_head (bucket_of index.hash_block.capacity) b es)
  pub fits : FitsFile (bucket_of index.hash_block.capacity) es

bucket-lt : (h c : ℕ) → 0 < c → bucket h c < c
bucket-lt h c p = omega arith

-- A new record lies behind the layout of the entries before it.
append_lem :
    (c : ℕ) (es : List Entry) (key data_pos : Bytes)
    → append (layout (bucket_of c) es) (chain_head (bucket_of c) (bucket_of c key) es) key data_pos
      ≡ (
        length (layout (bucket_of c) es),
        layout (bucket_of c) (record { deleted = false; key = key; data_pos = data_pos } ∷ es),
      )
unfolding append write_record layout
append_lem c es key data_pos = refl

long5_value-small : (v : ℕ) → v < 2 ^ 39 → long5_value v ≡ v
long5_value-small v h = ground arith

-- The chain heads after a new entry.
pub heads_cons :
    (home : Bytes → ℕ) (b : ℕ) (e : Entry) (es : List Entry) (before : Outcome ℕ)
    → before ≡ ok (chain_head home b es)
    → length (layout home es) < 2 ^ 39
    → (if b == home e.key then ok (long5_value (length (layout home es))) else before)
      ≡ ok (chain_head home b (e ∷ es))
unfolding chain_head
heads_cons home b e es before same h =
    rw (same, long5_value-small (length (layout home es)) h) (ground arith)

delete_all-EntryFits :
    (key : Bytes) (es : List Entry) → All EntryFits es → All EntryFits (delete_all key es)
unfolding delete_all
delete_all-EntryFits key [] h = tt
delete_all-EntryFits key (e ∷ es) (h, hs) = (
  (rw (mark_key (λ k. 0) key e) h.0, rw (mark_data (λ k. 0) key e) h.1),
  delete_all-EntryFits key es hs,
)

Represents-of :
    (block : MemHashBlock) (c : ℕ) (es : List Entry)
    → block.capacity ≡ c
    → Slots.IsValid block
    → ((b : ℕ) → b < c → slot block b ≡ ok (chain_head (bucket_of c) b es))
    → FitsFile (bucket_of c) es
    → Represents (record { hash_block = block; key_file = layout (bucket_of c) es }) es
Represents-of block c es cap valid heads fits = record {
  valid = valid;
  content = ap (λ (n : ℕ). layout (bucket_of n) es) (sym cap);
  heads = λ b h.
      heads b (omega (arith, h, cap))
      ∙ ap (λ (n : ℕ). ok (chain_head (bucket_of n) b es)) (sym cap);
  fits = subst (λ (n : ℕ). FitsFile (bucket_of n) es) (sym cap) fits;
}

module _ (index : IndexKeyFile) (es : List Entry) (key : Bytes) (r : Represents index es) where
  abbrev c : ℕ
  c = index.hash_block.capacity

  head_lem :
      Block.get index.hash_block (hash_bytes key)
      ≡ ok (chain_head (bucket_of c) (bucket_of c key) es)
  head_lem =
      get_lem index.hash_block (hash_bytes key) r.valid
      ∙ r.heads _ (bucket-lt (hash_bytes key) c r.valid.some_bucket)

  enough : length es < length (layout (bucket_of c) es)
  enough = omega (arith, length-le-layout (bucket_of c) es)

  -- On files that hold some entries, get returns the newest live entry of the key, if there is one.
  pub get-eq-lookup : get index key ≡ ok (lookup key es)
  unfolding get
  get-eq-lookup =
      rw (head_lem, r.content)
        (subst
          (λ (file : Bytes).
            find_from (length (layout (bucket_of c) es)) file key
              (chain_head (bucket_of c) (bucket_of c key) es)
            ≡ ok (lookup key es))
          (append-nil (layout (bucket_of c) es))
          (find_from_lem (bucket_of c) key es [] _ enough r.fits))

  -- On files that hold some entries, get_all returns the live entries of the key, newest first.
  pub get_all-eq-lookup_all : get_all index key ≡ ok (lookup_all key es)
  unfolding get_all
  get_all-eq-lookup_all =
      rw (head_lem, r.content)
        (subst
          (λ (file : Bytes).
            collect_from (length (layout (bucket_of c) es)) file key
              (chain_head (bucket_of c) (bucket_of c key) es)
            ≡ ok (lookup_all key es))
          (append-nil (layout (bucket_of c) es))
          (collect_from_lem (bucket_of c) key es [] _ enough r.fits))

  -- On files that hold some entries, has_key tells whether the key has a live entry.
  pub has_key-eq-lookup :
      has_key index key ≡ ok (elim (lookup key es) [ none ↦ false | some v ↦ true ])
  unfolding has_key
  has_key-eq-lookup = rw get-eq-lookup refl

  marked_FitsFile : FitsFile (bucket_of c) (delete_all key es)
  marked_FitsFile = record {
    entries = delete_all-EntryFits key es r.fits.entries;
    file = rw (length-delete_all (bucket_of c) key es) r.fits.file;
  }

  -- On files that hold some entries, delete succeeds, marks the live entries of the key and nothing
  -- else, and returns how many they were, modulo 2 ^ 32.
  pub delete-Represents :
      (after : IndexKeyFile) × (delete index key ≡ ok (after, as_32 (count_hits key es)))
      × Represents after (delete_all key es)
  unfolding delete
  delete-Represents = (
    record index { key_file = layout (bucket_of c) (delete_all key es) },
    rw (head_lem, r.content, loop) refl,
    record {
      valid = r.valid;
      content = refl;
      heads = λ b h. r.heads b h ∙ ap ok (sym (chain_head-delete_all (bucket_of c) key es b));
      fits = marked_FitsFile;
    },
  )
    where
      loop :
          delete_from
            (length (layout (bucket_of c) es))
            (layout (bucket_of c) es)
            key
            (chain_head (bucket_of c) (bucket_of c key) es)
            0
          ≡ ok (layout (bucket_of c) (delete_all key es), as_32 (count_hits key es))
      loop =
          subst
            (λ (file : Bytes).
              delete_from (length (layout (bucket_of c) es)) file key
                (chain_head (bucket_of c) (bucket_of c key) es) 0
              ≡ ok (layout (bucket_of c) (delete_all key es), as_32 (count_hits key es)))
            (append-nil (layout (bucket_of c) es))
            (delete_from_lem (bucket_of c) key es [] _ 0 _ refl enough (omega arith) r.fits
              ∙ ap (λ (file : Bytes). ok (file, as_32 (0 + count_hits key es)))
                  (append-nil (layout (bucket_of c) (delete_all key es)))
              ∙ ap (λ (n : ℕ). ok (layout (bucket_of c) (delete_all key es), as_32 n))
                  (omega arith))

  -- On files that hold some entries, put of an entry that fits its fields and leaves the file its
  -- positions succeeds, and adds a live entry in front.
  pub put-Represents :
      (data_pos : Bytes)
      → FitsFile (bucket_of c) (record { deleted = false; key = key; data_pos = data_pos } ∷ es)
      → (after : IndexKeyFile) × (put index key data_pos ≡ ok after)
        × Represents after (record { deleted = false; key = key; data_pos = data_pos } ∷ es)
  unfolding put
  put-Represents data_pos fits =
      let (block, done, valid, cap, slots) =
        put_lem index.hash_block (hash_bytes key) (length (layout (bucket_of c) es)) r.valid in
      (
        record {
          hash_block = block;
          key_file =
              layout (bucket_of c)
                (record { deleted = false; key = key; data_pos = data_pos } ∷ es);
        },
        rw (head_lem, r.content, append_lem c es key data_pos, done) refl,
        Represents-of block c _ cap valid
            (λ b h. slots b h ∙ heads_cons (bucket_of c) b _ es _ (r.heads b h) r.fits.file) fits,
      )

-- On files that hold some entries, each small enough for the buffer of a record, read_all calls the
-- handler for the live entries, oldest first.
pub read_all-eq-live_entries :
    (index : IndexKeyFile) (es : List Entry)
    → Represents index es
    → All IsSmall es
    → read_all index ≡ ok (live_entries es)
unfolding read_all get_first_pos
read_all-eq-live_entries index es r small =
    rw r.content (scan_lem (bucket_of index.hash_block.capacity) es r.fits small)

-- New files of at least a megabyte of table hold no entries.
pub open_index-Represents :
    (hash_size_mb : ℕ)
    → 1 ≤ hash_size_mb
    → (index : IndexKeyFile) × (open_index none none hash_size_mb ≡ ok index) × Represents index []
unfolding open_index open_file
open_index-Represents mb h =
    let (block, done, cap, valid, slots) = open_block_new (mb * 1024 * 1024) (omega arith) in
    (
      record { hash_block = block; key_file = magic },
      rw done refl,
      record {
        valid = valid;
        content = unfold layout in refl;
        heads = λ b hb. unfold chain_head in slots b hb;
        fits = record { entries = tt; file = unfold layout in omega arith };
      },
    )
