-- ===== src/Db/IndexKeyFile/Chain.antt =====
-- The loops along a chain, on a file that is the layout of some entries and anything behind it.
use scouter_server_rust.Common.{
  ℕ, ◌+◌, ◌≤◌, ◌<◌, ◌^◌, ◌≡◌, refl, ap, arith, true, false, List, [], ◌∷◌, ◌++◌, append_assoc,
  length, length-append, ◌==◌, ==_iff, All, Bool-cases, inl, inr,
}
use scouter_server_rust.Word.{Bytes, signed_ltb}
use scouter_server_rust.Outcome.{ok}
use scouter_server_rust.Protocol.Value.{bytes_eq}
use scouter_server_rust.Protocol.Value.Maps.{bytes_eq→eq}
use scouter_server_rust.Protocol.Output.{write_boolean}
use scouter_server_rust.Db.RealKeyFile.{get_prev_pos, get_data_pos}
use scouter_server_rust.Db.RealKeyFile.Records.{
  record_bytes, Fits, is_deleted_lem, get_prev_pos_lem, get_key_lem, get_data_pos_lem,
}
use scouter_server_rust.Db.IndexKeyFile.{matches}
use scouter_server_rust.Db.IndexKeyFile.Layout.{Entry, is_hit, layout, chain_head, EntryFits}

-- The entries fit their fields, and the file its positions.
pub record FitsFile (home : Bytes → ℕ) (es : List Entry) : Type 0 where
  pub entries : All EntryFits es
  pub file : length (layout home es) < 2 ^ 39

module _ (home : Bytes → ℕ) where
  pub layout_pos : (es : List Entry) → 2 ≤ length (layout home es)
  unfolding layout
  layout_pos [] = omega arith
  layout_pos (e ∷ es) = rw length-append (omega (arith, layout_pos es))

  pub layout-le :
      (e : Entry) (es : List Entry) → length (layout home es) < length (layout home (e ∷ es))
  unfolding layout write_boolean
  layout-le e es = rw length-append (omega arith)

  -- A chain starts below the end of the file, and not in its header.
  pub chain_head-lt : (b : ℕ) (es : List Entry) → chain_head home b es < length (layout home es)
  unfolding chain_head
  chain_head-lt b [] = omega (arith, layout_pos [])
  chain_head-lt b (e ∷ es) = ground (arith, layout-le e es, chain_head-lt b es)

  pub length-le-layout : (es : List Entry) → length es + 2 ≤ length (layout home es)
  length-le-layout [] = omega (arith, layout_pos [])
  length-le-layout (e ∷ es) = omega (arith, length-le-layout es, layout-le e es)

  pub FitsFile-tail : (e : Entry) (es : List Entry) → FitsFile home (e ∷ es) → FitsFile home es
  FitsFile-tail e es f = record {
    entries = f.entries.1;
    file = omega (arith, f.file, layout-le e es);
  }

  -- The record of the newest entry.
  abbrev pub newest : Entry → List Entry → Bytes
  newest e es = record_bytes e.deleted (chain_head home (home e.key) es) e.key e.data_pos

  pub layout-split :
      (e : Entry) (es : List Entry) (more : Bytes)
      → layout home (e ∷ es) ++ more ≡ layout home es ++ (newest e es ++ more)
  unfolding layout
  layout-split e es more = append_assoc (layout home es) (newest e es) more

  pub pos_test :
      (es : List Entry)
      → length (layout home es) < 2 ^ 39
      → signed_ltb 0 (length (layout home es)) ≡ true
  pos_test es h = ground (arith, layout_pos es)

  module _ (e : Entry) (es : List Entry) (more : Bytes) (fits : FitsFile home (e ∷ es)) where
    pub newest_Fits : Fits (chain_head home (home e.key) es) e.key e.data_pos
    newest_Fits = record {
      prev_fits = omega (arith, chain_head-lt (home e.key) es, layout-le e es, fits.file);
      key_fits = fits.entries.0.0;
      pos_fits = fits.entries.0.1;
    }

    pub low : length (layout home es) < 2 ^ 62
    low = omega (arith, layout-le e es, fits.file)

    pub matches_newest :
        (key : Bytes)
        → matches (layout home (e ∷ es) ++ more) key (length (layout home es)) ≡ ok (is_hit key e)
    unfolding matches
    matches_newest key =
        rw
          (
            layout-split e es more,
            is_deleted_lem (layout home es) more e.deleted _ e.key e.data_pos newest_Fits low,
            get_key_lem (layout home es) more e.deleted _ e.key e.data_pos newest_Fits low,
          )
          (ground arith)

    pub prev_newest :
        get_prev_pos (layout home (e ∷ es) ++ more) (length (layout home es))
        ≡ ok (chain_head home (home e.key) es)
    prev_newest =
        rw (layout-split e es more)
          (get_prev_pos_lem (layout home es) more e.deleted _ e.key e.data_pos newest_Fits low)

    pub data_newest :
        get_data_pos (layout home (e ∷ es) ++ more) (length (layout home es)) ≡ ok e.data_pos
    data_newest =
        rw (layout-split e es more)
          (get_data_pos_lem (layout home es) more e.deleted _ e.key e.data_pos newest_Fits low)

  -- An entry of another bucket has another key.
  pub is_hit_elsewhere :
      (key : Bytes) (e : Entry) → home e.key == home key ≡ false → is_hit key e ≡ false
  is_hit_elsewhere key e h = elim (Bool-cases (bytes_eq e.key key)) [
    | inl same ↦ ground (arith, ap home (bytes_eq→eq e.key key same))
    | inr other ↦ rw other (ground arith)
  ]

  pub chain_head_here :
      (b : ℕ) (e : Entry) (es : List Entry)
      → home e.key == b ≡ true
      → chain_head home b (e ∷ es) ≡ length (layout home es)
  unfolding chain_head
  chain_head_here b e es h = rw h refl

  pub chain_head_below :
      (b : ℕ) (e : Entry) (es : List Entry)
      → home e.key == b ≡ false
      → chain_head home b (e ∷ es) ≡ chain_head home b es
  unfolding chain_head
  chain_head_below b e es h = rw h refl

  -- Along the chain of its bucket, a record's own bucket may be read for it.
  pub same_chain :
      (key : Bytes) (e : Entry) (es : List Entry)
      → home e.key == home key ≡ true
      → chain_head home (home e.key) es ≡ chain_head home (home key) es
  same_chain key e es h = ap (λ (b : ℕ). chain_head home b es) ((==_iff _ _).0 h)
