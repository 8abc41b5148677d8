-- ===== src/Db/IndexTimeFile/Bucket.antt =====
-- The abstract time index: its times and positions, newest first, and what the loop along a chain
-- collects on the file of their records.
use scouter_server_rust.Common.{
  ℕ, zero, suc, ◌+◌, ◌≤◌, ◌<◌, ◌≡◌, refl, sym, ap, ◌∙◌, arith, true, false, List, [], ◌∷◌, ◌++◌,
  length, ◌==◌, ==_iff, if◌then◌else◌, All, Bool-cases, inl, inr,
}
use scouter_server_rust.Word.{Bytes, IsWord64, from_be_bytes}
use scouter_server_rust.Word.Codec.{from_be_bytes-to_be_bytes}
use scouter_server_rust.Outcome.{ok}
use scouter_server_rust.Protocol.Output.{to_bytes_long, to_bytes5}
use scouter_server_rust.Db.RealKeyFile.{is_deleted}
use scouter_server_rust.Db.RealKeyFile.Records.{is_deleted_lem}
use scouter_server_rust.Db.IndexKeyFile.Layout.{Entry, layout, chain_head, EntryFits}
use scouter_server_rust.Db.IndexKeyFile.Chain.{
  FitsFile, FitsFile-tail, newest, newest_Fits, low, layout-split, pos_test, prev_newest,
  chain_head_here, chain_head_below,
}
use scouter_server_rust.Db.IndexKeyFile.Scan.{record_newest}
use scouter_server_rust.Db.IndexTimeFile.{TimeToData, time_of_key, entry_at, entries_from}

-- A time and a data position.
abbrev pub Point : Type 0
Point = ℕ × ℕ

abbrev pub entry : Point → Entry
entry (t, p) = record { deleted = false; key = to_bytes_long t; data_pos = to_bytes5 p }

abbrev pub entries : List Point → List Entry
entries [] = []
entries (x ∷ xs) = entry x ∷ entries xs

abbrev pub AreTimes : List Point → Type 0
AreTimes xs = All (λ ((t, p) : Point). IsWord64 t) xs

-- The points of a half second, newest first.
unfoldable pub in_bucket : (ℕ → ℕ) → ℕ → List Point → List TimeToData
in_bucket bucket b [] = []
in_bucket bucket b ((t, p) ∷ xs) =
    let rest = in_bucket bucket b xs in
    if bucket t == b then record { time = t; data_pos = to_bytes5 p } ∷ rest else rest

time_of_key-to_bytes_long : (t : ℕ) → IsWord64 t → time_of_key (to_bytes_long t) ≡ ok t
unfolding time_of_key to_bytes_long
time_of_key-to_bytes_long t h = ap ok (from_be_bytes-to_be_bytes 8 0 t ∙ omega arith)

pub entries-EntryFits : (xs : List Point) → All EntryFits (entries xs)
unfolding to_bytes_long to_bytes5
entries-EntryFits [] = tt
entries-EntryFits (x ∷ xs) = ((omega arith, omega arith), entries-EntryFits xs)

-- `bucket` is the half second of a time.
module _ (bucket : ℕ → ℕ) where
  -- The half second of a key.
  abbrev pub home : Bytes → ℕ
  home key = bucket (from_be_bytes 0 key)

  pub home-to_bytes_long : (t : ℕ) → IsWord64 t → home (to_bytes_long t) ≡ bucket t
  unfolding to_bytes_long
  home-to_bytes_long t h = ap bucket (from_be_bytes-to_be_bytes 8 0 t ∙ omega arith)

  entry_newest :
      (t p : ℕ) (xs : List Point) (more : Bytes)
      → IsWord64 t
      → FitsFile home (entries ((t, p) ∷ xs))
      → entry_at (layout home (entries ((t, p) ∷ xs)) ++ more) (length (layout home (entries xs)))
        ≡ ok (record { time = t; data_pos = to_bytes5 p } ∷ [])
  unfolding entry_at
  entry_newest t p xs more h fits =
      rw
        (
          live,
          record_newest home (entry (t, p)) (entries xs) more fits small,
          time_of_key-to_bytes_long t h,
        )
        refl
    where
      small : length (to_bytes_long t) + length (to_bytes5 p) ≤ 65520
      small = unfold to_bytes_long to_bytes5 in omega arith

      live :
          is_deleted
            (layout home (entries ((t, p) ∷ xs)) ++ more)
            (length (layout home (entries xs)))
          ≡ ok false
      live = rw (layout-split home (entry (t, p)) (entries xs) more) (
          is_deleted_lem (layout home (entries xs)) more false _ (to_bytes_long t) (to_bytes5 p)
            (newest_Fits home (entry (t, p)) (entries xs) more fits)
            (low home (entry (t, p)) (entries xs) more fits))

  -- One round at the newest record.
  entries_round :
      (t p : ℕ) (xs : List Point) (more : Bytes) (f : ℕ) (rest : List TimeToData)
      → IsWord64 t
      → FitsFile home (entries ((t, p) ∷ xs))
      → entries_from f
          (layout home (entries ((t, p) ∷ xs)) ++ more)
          (chain_head home (home (to_bytes_long t)) (entries xs))
        ≡ ok rest
      → entries_from
          (suc f)
          (layout home (entries ((t, p) ∷ xs)) ++ more)
          (length (layout home (entries xs)))
        ≡ ok (record { time = t; data_pos = to_bytes5 p } ∷ rest)
  unfolding entries_from
  entries_round t p xs more f rest h fits down =
      rw
        (
          pos_test home (entries xs) (FitsFile-tail home (entry (t, p)) (entries xs) fits).file,
          entry_newest t p xs more h fits,
          prev_newest home (entry (t, p)) (entries xs) more fits,
          down,
        )
        refl

  in_bucket_skip :
      (b t p : ℕ) (xs : List Point)
      → bucket t == b ≡ false
      → in_bucket bucket b ((t, p) ∷ xs) ≡ in_bucket bucket b xs
  unfolding in_bucket
  in_bucket_skip b t p xs h = rw h refl

  in_bucket_take :
      (b t p : ℕ) (xs : List Point)
      → bucket t == b ≡ true
      → in_bucket bucket b ((t, p) ∷ xs)
        ≡ record { time = t; data_pos = to_bytes5 p } ∷ in_bucket bucket b xs
  unfolding in_bucket
  in_bucket_take b t p xs h = rw h refl

  -- The loop collects the points of the half second, newest first.
  pub entries_from_lem :
      (b : ℕ) (xs : List Point) (more : Bytes) (f : ℕ)
      → length xs < f
      → AreTimes xs
      → FitsFile home (entries xs)
      → entries_from f (layout home (entries xs) ++ more) (chain_head home b (entries xs))
        ≡ ok (in_bucket bucket b xs)
  entries_from_lem b xs more zero h ts fits = absurd (omega arith)
  entries_from_lem b [] more (suc f) h ts fits = unfold entries_from chain_head in_bucket in refl
  entries_from_lem b ((t, p) ∷ xs) more (suc f) h (w, ts) fits =
      let tail = FitsFile-tail home (entry (t, p)) (entries xs) fits in
      let es = entries xs in
      let record_here = newest home (entry (t, p)) es in
      elim (Bool-cases (home (to_bytes_long t) == b)) [
        | inl here ↦
            let down : entries_from f (layout home (entry (t, p) ∷ es) ++ more)
                  (chain_head home (home (to_bytes_long t)) es)
                ≡ ok (in_bucket bucket b xs) =
              rw
                (
                  (==_iff (home (to_bytes_long t)) b).0 here,
                  layout-split home (entry (t, p)) es more,
                )
                (entries_from_lem b xs (record_here ++ more) f (omega arith) ts tail) in
            rw (chain_head_here home b (entry (t, p)) es here) (
              entries_round t p xs more f (in_bucket bucket b xs) w fits down
              ∙ ap ok (sym (in_bucket_take b t p xs (rw (← home-to_bytes_long t w) here))))
        | inr other ↦
            rw
              (
                chain_head_below home b (entry (t, p)) es other,
                layout-split home (entry (t, p)) es more,
              )
              (entries_from_lem b xs (record_here ++ more) (suc f) (omega arith) ts tail
                ∙ ap ok (sym (in_bucket_skip b t p xs (rw (← home-to_bytes_long t w) other))))
      ]
