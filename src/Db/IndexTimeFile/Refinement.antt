-- ===== src/Db/IndexTimeFile/Refinement.antt =====
-- The time index against its abstract view: a list of points, newest first.
use scouter_server_rust.Common.{
  ℕ, suc, ◌<◌, ◌^◌, ◌≡◌, refl, sym, ap, subst, ◌∙◌, arith, false, none, List, [], ◌∷◌, length,
  append-nil, ◌==◌, if◌then◌else◌,
}
use scouter_server_rust.Word.{Bytes, IsWord64, signed_leb}
use scouter_server_rust.Outcome.{ok}
use scouter_server_rust.Protocol.Output.{to_bytes_long, to_bytes5}
use scouter_server_rust.Db.RealKeyFile.{append, write_record, open_file, magic}
use scouter_server_rust.Db.IndexKeyFile.Layout.{layout, chain_head}
use scouter_server_rust.Db.IndexKeyFile.Chain.{FitsFile, length-le-layout}
use scouter_server_rust.Db.IndexKeyFile.Refinement.{heads_cons}
use scouter_server_rust.Db.MemHashBlock.Slots.{long5_value}
use scouter_server_rust.Db.MemTimeBlock as Block
use scouter_server_rust.Db.MemTimeBlock.{MemTimeBlock, capacity, fresh, bucket, open_block}
use scouter_server_rust.Db.MemTimeBlock.Slots.{
  IsValid, slot, add_count_lem, get_lem, put_lem, fresh-IsValid, slot-fresh,
}
use scouter_server_rust.Db.IndexTimeFile.{
  IndexTimeFile, open_index, put, get_bucket_entries, entries_from, sort_by_time,
}
use scouter_server_rust.Db.IndexTimeFile.Bucket.{
  Point, entry, entries, AreTimes, in_bucket, home, home-to_bytes_long, entries-EntryFits,
  entries_from_lem,
}

module _ (date_millis : ℕ → ℕ) where
  abbrev pub home_of : Bytes → ℕ
  home_of = home (bucket date_millis)

  -- The room that the points take in the key file.
  abbrev pub FitsPoints : List Point → Type 0
  FitsPoints xs = length (layout home_of (entries xs)) < 2 ^ 39

  -- The two files of the index hold these points.
  pub record Represents (idx : IndexTimeFile) (xs : List Point) : Type 0 where
    pub valid : IsValid idx.time_block
    pub content : idx.key_file ≡ layout home_of (entries xs)
    pub heads :
        (b : ℕ) → b < capacity → slot idx.time_block b ≡ ok (chain_head home_of b (entries xs))
    pub times : AreTimes xs
    pub fits : FitsPoints xs

  FitsPoints-FitsFile : (xs : List Point) → FitsPoints xs → FitsFile home_of (entries xs)
  FitsPoints-FitsFile xs h = record { entries = entries-EntryFits xs; file = h }

  length-entries : (xs : List Point) → length (entries xs) ≡ length xs
  length-entries [] = refl
  length-entries (x ∷ xs) = ap suc (length-entries xs)

  module _ (idx : IndexTimeFile) (xs : List Point) (r : Represents idx xs) where
    head_lem :
        (time : ℕ)
        → Block.get date_millis idx.time_block time
          ≡ ok (chain_head home_of (bucket date_millis time) (entries xs))
    head_lem time =
        get_lem date_millis idx.time_block time r.valid
        ∙ r.heads (bucket date_millis time) (omega arith)

    -- On files that hold some points, get_bucket_entries returns those of the half second of the
    -- time, sorted by their times.
    pub get_bucket_entries-eq :
        (time : ℕ)
        → get_bucket_entries date_millis idx time
          ≡ ok (sort_by_time (in_bucket (bucket date_millis) (bucket date_millis time) xs))
    unfolding get_bucket_entries
    get_bucket_entries-eq time =
        rw
          (
            head_lem time,
            r.content,
            subst
                (λ (file : Bytes).
                  entries_from (length (layout home_of (entries xs))) file
                    (chain_head home_of (bucket date_millis time) (entries xs))
                  ≡ ok (in_bucket (bucket date_millis) (bucket date_millis time) xs))
                (append-nil (layout home_of (entries xs)))
                (entries_from_lem (bucket date_millis) (bucket date_millis time) xs [] _
                  (omega (arith, length-le-layout home_of (entries xs), length-entries xs)) r.times
                  (FitsPoints-FitsFile xs r.fits)),
          )
          refl

    append_lem :
        (time p : ℕ)
        → IsWord64 time
        → append
            (layout home_of (entries xs))
            (chain_head home_of (bucket date_millis time) (entries xs))
            (to_bytes_long time)
            (to_bytes5 p)
          ≡ (length (layout home_of (entries xs)), layout home_of (entries ((time, p) ∷ xs)))
    unfolding append write_record layout
    append_lem time p h = rw (home-to_bytes_long (bucket date_millis) time h) refl

    -- On files that hold some points, put of a positive time succeeds when the file keeps to its
    -- positions, and adds the time with the position in front.
    pub put_time-Represents :
        (time p : ℕ)
        → IsWord64 time
        → signed_leb time 0 ≡ false
        → FitsPoints ((time, p) ∷ xs)
        → (after : IndexTimeFile) × (put date_millis idx time p ≡ ok after)
          × Represents after ((time, p) ∷ xs)
    unfolding put
    put_time-Represents time p w positive fits =
        let (block, done, valid, slots) =
          put_lem date_millis idx.time_block time r.valid (length (layout home_of (entries xs))) in
        let (counted, done', same) = add_count_lem block 1 valid in
        (
          record { time_block = counted; key_file = layout home_of (entries ((time, p) ∷ xs)) },
          rw (positive, head_lem time, r.content, append_lem time p w, done, done') refl,
          record {
            valid = omega (arith, valid, same.same_length);
            content = refl;
            heads = λ b h.
                same.same_slots b
                ∙ slots b
                ∙ ap
                    (λ (n : ℕ).
                      if b == n
                      then ok (long5_value (length (layout home_of (entries xs))))
                      else slot idx.time_block b)
                    (sym (home-to_bytes_long (bucket date_millis) time w))
                ∙ heads_cons home_of b (entry (time, p)) (entries xs) _ (r.heads b h) r.fits;
            times = (w, r.times);
            fits = fits;
          },
        )

  -- New files hold no points.
  pub open_index-Represents :
      (idx : IndexTimeFile) × (open_index none none ≡ ok idx) × Represents idx []
  unfolding open_index open_file open_block
  open_index-Represents = (
    record { time_block = fresh; key_file = magic },
    refl,
    record {
      valid = fresh-IsValid;
      content = unfold layout in refl;
      heads = λ b h. unfold chain_head in slot-fresh b h;
      times = tt;
      fits = unfold layout in omega arith;
    },
  )
