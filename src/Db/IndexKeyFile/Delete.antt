-- ===== src/Db/IndexKeyFile/Delete.antt =====
-- `delete` walks the chain of a bucket and marks the records of the key.
use scouter_server_rust.Common.{
  ℕ, zero, suc, ◌+◌, ◌<◌, ◌^◌, ◌≡◌, refl, ap, ◌∙◌, arith, Bool, true, false, List, [], ◌∷◌, ◌++◌,
  append_assoc, length, length-append, ◌==◌, ==_iff, Bool-cases, inl, inr,
}
use scouter_server_rust.Word.{Bytes, as_32}
use scouter_server_rust.Outcome.{Outcome, ok}
use scouter_server_rust.Protocol.Output.{write_boolean}
use scouter_server_rust.Db.RealKeyFile.Records.{record_bytes, get_prev_pos_lem, set_delete_lem}
use scouter_server_rust.Db.IndexKeyFile.{delete_from}
use scouter_server_rust.Db.IndexKeyFile.Layout.{
  Entry, is_hit, mark, delete_all, count_hits, layout, chain_head,
}
use scouter_server_rust.Db.IndexKeyFile.Chain.{
  FitsFile, FitsFile-tail, newest, layout-split, pos_test, matches_newest, prev_newest,
  is_hit_elsewhere, chain_head_here, chain_head_below, low, newest_Fits,
}

module _ (home : Bytes → ℕ) (key : Bytes) where
  pub mark_key : (e : Entry) → (mark key e).key ≡ e.key
  unfolding mark
  mark_key e = ground arith

  pub mark_data : (e : Entry) → (mark key e).data_pos ≡ e.data_pos
  unfolding mark
  mark_data e = ground arith

  mark_miss : (e : Entry) → is_hit key e ≡ false → mark key e ≡ e
  unfolding mark
  mark_miss e h = rw h refl

  mark_hit : (e : Entry) → is_hit key e ≡ true → mark key e ≡ record e { deleted = true }
  unfolding mark
  mark_hit e h = rw h refl

  -- Marking keeps every length and position of the file.
  mutual
    unfolding layout delete_all write_boolean

    pub length-delete_all :
        (es : List Entry) → length (layout home (delete_all key es)) ≡ length (layout home es)
    length-delete_all [] = refl
    length-delete_all (e ∷ es) =
        rw (mark_key e, mark_data e, chain_head-delete_all es (home e.key))
          (simp (length-append, length-delete_all es) refl)

    pub chain_head-delete_all :
        (es : List Entry) (b : ℕ) → chain_head home b (delete_all key es) ≡ chain_head home b es
    chain_head-delete_all [] b = refl
    chain_head-delete_all (e ∷ es) b =
        rw (mark_key e, length-delete_all es, chain_head-delete_all es b) refl

  -- The file of the marked entries, with its newest record split off.
  layout-mark :
      (e : Entry) (es : List Entry) (more : Bytes) (d : Bool)
      → (mark key e).deleted ≡ d
      → layout home (delete_all key es)
          ++ (record_bytes d (chain_head home (home e.key) es) e.key e.data_pos ++ more)
        ≡ layout home (delete_all key (e ∷ es)) ++ more
  unfolding layout delete_all
  layout-mark e es more d h =
      rw
        (
          mark_key e,
          mark_data e,
          h,
          chain_head-delete_all es (home e.key),
          append_assoc (layout home (delete_all key es)),
        )
        refl

  -- One round at a record that is marked: the flag is set, and the chain goes on below.
  delete_round_hit :
      (e : Entry) (es : List Entry) (more : Bytes) (f n : ℕ)
      → FitsFile home (e ∷ es)
      → is_hit key e ≡ true
      → delete_from (suc f) (layout home (e ∷ es) ++ more) key (length (layout home es)) n
        ≡ delete_from f
            (layout home es
              ++ (record_bytes true (chain_head home (home e.key) es) e.key e.data_pos ++ more))
            key
            (chain_head home (home e.key) es)
            (as_32 (n + 1))
  unfolding delete_from
  delete_round_hit e es more f n fits hit =
      rw
        (
          pos_test home es (FitsFile-tail home e es fits).file,
          matches_newest home e es more fits key,
          hit,
          layout-split home e es more,
          set_delete_lem (layout home es) more e.deleted _ e.key e.data_pos
              (newest_Fits home e es more fits) (low home e es more fits) true,
          get_prev_pos_lem (layout home es) more true _ e.key e.data_pos
              (newest_Fits home e es more fits) (low home e es more fits),
        )
        refl

  delete_round_miss :
      (e : Entry) (es : List Entry) (more : Bytes) (f n : ℕ)
      → FitsFile home (e ∷ es)
      → is_hit key e ≡ false
      → delete_from (suc f) (layout home (e ∷ es) ++ more) key (length (layout home es)) n
        ≡ delete_from f
            (layout home es ++ (newest home e es ++ more))
            key
            (chain_head home (home e.key) es)
            n
  unfolding delete_from
  delete_round_miss e es more f n fits miss =
      rw
        (
          pos_test home es (FitsFile-tail home e es fits).file,
          matches_newest home e es more fits key,
          miss,
          prev_newest home e es more fits,
          layout-split home e es more,
        )
        refl

  -- The file after the loop, and its count from `n`, which wraps as an i32.
  abbrev Deleted : List Entry → Bytes → ℕ → Outcome (Bytes × ℕ)
  Deleted es more n = ok (layout home (delete_all key es) ++ more, as_32 (n + count_hits key es))

  below_hit :
      (e : Entry) (es : List Entry) (more : Bytes) (n : ℕ)
      → is_hit key e ≡ true
      → Deleted es
          (record_bytes true (chain_head home (home e.key) es) e.key e.data_pos ++ more)
          (as_32 (n + 1))
        ≡ Deleted (e ∷ es) more n
  unfolding count_hits
  below_hit e es more n hit =
      rw (hit, layout-mark e es more true (ap (λ (x : Entry). x.deleted) (mark_hit e hit)))
        (ap (λ (m : ℕ). ok (layout home (delete_all key (e ∷ es)) ++ more, m)) (omega arith))

  below_miss :
      (e : Entry) (es : List Entry) (more : Bytes) (n : ℕ)
      → is_hit key e ≡ false
      → Deleted es (newest home e es ++ more) n ≡ Deleted (e ∷ es) more n
  unfolding count_hits
  below_miss e es more n miss =
      rw (miss, layout-mark e es more e.deleted (ap (λ (x : Entry). x.deleted) (mark_miss e miss)))
        refl

  -- The loop marks the live entries of the key and counts them; nothing else changes.
  pub delete_from_lem :
      (es : List Entry) (more : Bytes) (f n b : ℕ)
      → b ≡ home key
      → length es < f
      → n < 2 ^ 32
      → FitsFile home es
      → delete_from f (layout home es ++ more) key (chain_head home b es) n ≡ Deleted es more n
  delete_from_lem es more zero n b eb h w fits = absurd (omega arith)
  delete_from_lem [] more (suc f) n b eb h w fits =
      unfold delete_from chain_head count_hits delete_all in
      ap (λ (m : ℕ). ok (layout home [] ++ more, m)) (omega arith)
  delete_from_lem (e ∷ es) more (suc f) n b eb h w fits = elim (Bool-cases (home e.key == b)) [
    | inl here ↦
        let same : home e.key ≡ home key = (==_iff _ _).0 here ∙ eb in
        rw (chain_head_here home b e es here) (elim (Bool-cases (is_hit key e)) [
          | inl hit ↦
              delete_round_hit e es more f n fits hit
              ∙ delete_from_lem es _ f (as_32 (n + 1)) _ same (omega arith) (omega arith)
                  (FitsFile-tail home e es fits)
              ∙ below_hit e es more n hit
          | inr miss ↦
              delete_round_miss e es more f n fits miss
              ∙ delete_from_lem es _ f n _ same (omega arith) w (FitsFile-tail home e es fits)
              ∙ below_miss e es more n miss
        ])
    | inr other ↦
        rw (chain_head_below home b e es other, layout-split home e es more)
          (delete_from_lem es (newest home e es ++ more) (suc f) n b eb (omega arith) w
              (FitsFile-tail home e es fits)
            ∙ below_miss e es more n (is_hit_elsewhere home key e (rw (← eb) other)))
  ]
