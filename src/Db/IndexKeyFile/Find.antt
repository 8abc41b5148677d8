-- ===== src/Db/IndexKeyFile/Find.antt =====
-- `get` and `get_all` walk the chain of a bucket: what the loops return on a layout.
use scouter_server_rust.Common.{
  ℕ, zero, suc, ◌<◌, ◌≡◌, refl, ◌∙◌, arith, false, some, List, [], ◌∷◌, ◌++◌, length, ◌==◌,
  if◌then◌else◌, Bool-cases, inl, inr,
}
use scouter_server_rust.Word.{Bytes}
use scouter_server_rust.Outcome.{ok}
use scouter_server_rust.Db.IndexKeyFile.{find_from, collect_from}
use scouter_server_rust.Db.IndexKeyFile.Layout.{
  Entry, is_hit, lookup, lookup_all, layout, chain_head,
}
use scouter_server_rust.Db.IndexKeyFile.Chain.{
  FitsFile, FitsFile-tail, newest, layout-split, pos_test, matches_newest, prev_newest, data_newest,
  is_hit_elsewhere, chain_head_here, chain_head_below, same_chain,
}

module _ (home : Bytes → ℕ) (key : Bytes) where
  -- One round at the newest entry.
  find_round :
      (e : Entry) (es : List Entry) (more : Bytes) (f : ℕ)
      → FitsFile home (e ∷ es)
      → find_from (suc f) (layout home (e ∷ es) ++ more) key (length (layout home es)) ≡ (
          if is_hit key e
          then ok (some e.data_pos)
          else find_from f (layout home (e ∷ es) ++ more) key (chain_head home (home e.key) es))
  unfolding find_from
  find_round e es more f fits =
      rw
        (
          pos_test home es (FitsFile-tail home e es fits).file,
          matches_newest home e es more fits key,
          data_newest home e es more fits,
          prev_newest home e es more fits,
        )
        refl

  lookup_cons :
      (e : Entry) (es : List Entry)
      → (if is_hit key e then ok (some e.data_pos) else ok (lookup key es))
        ≡ ok (lookup key (e ∷ es))
  unfolding lookup
  lookup_cons e es = ground arith

  lookup_skip :
      (e : Entry) (es : List Entry)
      → home e.key == home key ≡ false
      → lookup key (e ∷ es) ≡ lookup key es
  unfolding lookup
  lookup_skip e es other = rw (is_hit_elsewhere home key e other) refl

  -- The loop finds the newest live entry of the key.
  pub find_from_lem :
      (es : List Entry) (more : Bytes) (f : ℕ)
      → length es < f
      → FitsFile home es
      → find_from f (layout home es ++ more) key (chain_head home (home key) es)
        ≡ ok (lookup key es)
  find_from_lem es more zero h fits = absurd (omega arith)
  find_from_lem [] more (suc f) h fits = unfold find_from chain_head lookup in refl
  find_from_lem (e ∷ es) more (suc f) h fits = elim (Bool-cases (home e.key == home key)) [
    | inl here ↦
        let down : find_from f (layout home (e ∷ es) ++ more) key (chain_head home (home e.key) es)
            ≡ ok (lookup key es) =
          rw (same_chain home key e es here, layout-split home e es more)
            (find_from_lem es (newest home e es ++ more) f (omega arith)
              (FitsFile-tail home e es fits)) in
        rw (chain_head_here home (home key) e es here, find_round e es more f fits, down)
          (lookup_cons e es)
    | inr other ↦
        rw
          (
            chain_head_below home (home key) e es other,
            lookup_skip e es other,
            layout-split home e es more,
          )
          (find_from_lem es (newest home e es ++ more) (suc f) (omega arith)
            (FitsFile-tail home e es fits))
  ]

  collect_round :
      (e : Entry) (es : List Entry) (more : Bytes) (f : ℕ)
      → FitsFile home (e ∷ es)
      → (rest : List Bytes)
      → collect_from f (layout home (e ∷ es) ++ more) key (chain_head home (home e.key) es)
        ≡ ok rest
      → collect_from (suc f) (layout home (e ∷ es) ++ more) key (length (layout home es))
        ≡ ok (if is_hit key e then e.data_pos ∷ rest else rest)
  unfolding collect_from
  collect_round e es more f fits rest down =
      rw
        (
          pos_test home es (FitsFile-tail home e es fits).file,
          matches_newest home e es more fits key,
          data_newest home e es more fits,
          prev_newest home e es more fits,
          down,
        )
        (ground arith)

  lookup_all_skip :
      (e : Entry) (es : List Entry)
      → home e.key == home key ≡ false
      → lookup_all key (e ∷ es) ≡ lookup_all key es
  unfolding lookup_all
  lookup_all_skip e es other = rw (is_hit_elsewhere home key e other) refl

  -- The loop collects the live entries of the key, newest first.
  pub collect_from_lem :
      (es : List Entry) (more : Bytes) (f : ℕ)
      → length es < f
      → FitsFile home es
      → collect_from f (layout home es ++ more) key (chain_head home (home key) es)
        ≡ ok (lookup_all key es)
  collect_from_lem es more zero h fits = absurd (omega arith)
  collect_from_lem [] more (suc f) h fits = unfold collect_from chain_head lookup_all in refl
  collect_from_lem (e ∷ es) more (suc f) h fits = elim (Bool-cases (home e.key == home key)) [
    | inl here ↦ rw (chain_head_here home (home key) e es here) (
        collect_round e es more f fits (lookup_all key es) (
          rw (same_chain home key e es here, layout-split home e es more)
            (collect_from_lem es (newest home e es ++ more) f (omega arith)
              (FitsFile-tail home e es fits)))
        ∙ (unfold lookup_all in refl))
    | inr other ↦
        rw
          (
            chain_head_below home (home key) e es other,
            lookup_all_skip e es other,
            layout-split home e es more,
          )
          (collect_from_lem es (newest home e es ++ more) (suc f) (omega arith)
            (FitsFile-tail home e es fits))
  ]
