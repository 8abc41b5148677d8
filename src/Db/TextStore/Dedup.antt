-- ===== src/Db/TextStore/Dedup.antt =====
-- A text is stored once: the first one stays.
use scouter_server_rust.Common.{
  ◌≡◌, refl, sym, ap, ◌∙◌, ℕ, true, false, Option, none, some, List, ◌∷◌, Option-cases, inl, inr,
}
use scouter_server_rust.Word.{Bytes}
use scouter_server_rust.Outcome.{ok}
use scouter_server_rust.Protocol.Utf8.{is_utf8, from_utf8_lossy, from_utf8_lossy-is_utf8}
use scouter_server_rust.Protocol.Value.{bytes_eq}
use scouter_server_rust.Db.IndexKeyFile as Keys
use scouter_server_rust.Db.IndexKeyFile.Layout.{Entry, lookup, bucket_of}
use scouter_server_rust.Db.IndexKeyFile.Chain.{FitsFile}
use scouter_server_rust.Db.IndexKeyFile.Refinement.{Represents, get-eq-lookup, has_key-eq-lookup}
use scouter_server_rust.Db.IndexKeyFile.Laws.{get-put}
use scouter_server_rust.Db.TextStore.{TextStore, make_key, put, get}

-- The text of a key after a put.
abbrev pub kept : Option Bytes → Bytes → Bytes
kept none text = text
kept (some old) text = old

module _ (store : TextStore) (es : List Entry) (div hash : ℕ) (r : Represents store.texts es) where
  abbrev key : Bytes
  key = make_key div hash

  abbrev shown : Option Bytes → Option Bytes
  shown none = none
  shown (some bytes) = some (from_utf8_lossy bytes)

  get_lem :
      (s : TextStore) (o : Option Bytes) (d h : ℕ)
      → Keys.get s.texts (make_key d h) ≡ ok o
      → get s d h ≡ ok (shown o)
  unfolding get
  get_lem s none d h e = rw e refl
  get_lem s (some bytes) d h e = rw e refl

  get_same :
      (s t : TextStore) (d h : ℕ)
      → Keys.get s.texts (make_key d h) ≡ Keys.get t.texts (make_key d h)
      → get s d h ≡ get t d h
  unfolding get
  get_same s t d h e = rw e refl

  shown-kept :
      (text bytes : Bytes)
      → kept (lookup key es) text ≡ bytes
      → is_utf8 (kept (lookup key es) text) ≡ true
      → ok (shown (some bytes)) ≡ ok (some (kept (lookup key es) text))
  shown-kept text bytes e valid =
      ap (λ (b : Bytes). ok (some b))
        (ap from_utf8_lossy (sym e) ∙ from_utf8_lossy-is_utf8 (kept (lookup key es) text) valid)

  -- On files that hold some entries, put of a text with a key that fits succeeds; get then returns
  -- the text that was there before, or the new one if there was none and it is well-formed, and what
  -- it returned before for every other key.
  pub get-put_text :
      (text : Bytes)
      → FitsFile
          (bucket_of store.texts.hash_block.capacity)
          (record { deleted = false; key = key; data_pos = text } ∷ es)
      → is_utf8 (kept (lookup key es) text) ≡ true
      → (after : TextStore) × (put store div hash text ≡ ok after)
        × (get after div hash ≡ ok (some (kept (lookup key es) text)))
        × ((d h : ℕ) → bytes_eq key (make_key d h) ≡ false → get after d h ≡ get store d h)
  unfolding put
  get-put_text text fits valid = elim (Option-cases (lookup key es)) [
    | inl new ↦
        let (keys, done, here, others) = get-put store.texts es key r text fits in
        (
          record { texts = keys },
          rw (has_key-eq-lookup store.texts es key r, new, done) refl,
          get_lem (record { texts = keys }) (some text) div hash here
              ∙ shown-kept text text (ap (λ o. kept o text) new) valid,
          λ d h other. get_same (record { texts = keys }) store d h (others (make_key d h) other),
        )
    | inr (old, there) ↦ (
      store,
      rw (has_key-eq-lookup store.texts es key r, there) refl,
      get_lem store (some old) div hash (get-eq-lookup store.texts es key r ∙ ap ok there)
          ∙ shown-kept text old (ap (λ o. kept o text) there) valid,
      λ d h other. refl,
    )
  ]
