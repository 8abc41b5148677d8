-- ===== src/Db/IndexKeyFile/Scan.antt =====
-- `read_all` walks the key file forward: what its loop hands to the handler on a layout.
use scouter_server_rust.Common.{
  ℕ, suc, ◌+◌, ◌-◌, ◌≤◌, ◌<◌, ◌^◌, ◌≡◌, refl, sym, ap, subst, ◌∙◌, arith, Bool, true, false, ◌&&◌,
  List, [], ◌∷◌, ◌++◌, append_assoc, append-nil, length, length-append, if◌then◌else◌, All,
}
use scouter_server_rust.Word.{Bytes, signed_ltb}
use scouter_server_rust.Outcome.{Outcome, ◌>>=◌, ok, err, panic, out_of_fuel}
use scouter_server_rust.Protocol.Output.{
  write_boolean, write_long5, write_short_bytes, write_short, write_blob, write_byte, write_int,
}
use scouter_server_rust.Db.RealKeyFile.{KeyRecord, get_record, get_length, magic}
use scouter_server_rust.Db.RealKeyFile.Records.{record_bytes, get_record_lem}
use scouter_server_rust.Db.IndexKeyFile.{scan_from, handled}
use scouter_server_rust.Db.IndexKeyFile.Layout.{Entry, live_entries, layout, chain_head}
use scouter_server_rust.Db.IndexKeyFile.Chain.{
  FitsFile, FitsFile-tail, newest, newest_Fits, low, layout-split, layout_pos, layout-le,
  length-le-layout,
}

-- A record that the buffer of `get_record` holds.
abbrev pub IsSmall : Entry → Type 0
IsSmall e = length e.key + length e.data_pos ≤ 65520

length-write_blob-le : (bs : Bytes) → length (write_blob bs) ≤ length bs + 5
unfolding write_blob write_byte write_short write_int
length-write_blob-le [] = omega arith
length-write_blob-le (b ∷ bs) = ground arith

length-record-le :
    (d : Bool) (prev : ℕ) (k v : Bytes)
    → length (record_bytes d prev k v) ≤ length k + length v + 13
unfolding write_boolean write_long5 write_short_bytes write_short
length-record-le d prev k v = simp length-append (omega (arith, length-write_blob-le v))

-- The calls for some records in front of those for the rest of the file.
abbrev prepend :
    List (Bytes × Bytes) → Outcome (List (Bytes × Bytes)) → Outcome (List (Bytes × Bytes))
prepend calls rest = rest >>= λ more. ok (calls ++ more)

prepend-prepend :
    (xs ys : List (Bytes × Bytes)) (o : Outcome (List (Bytes × Bytes)))
    → prepend xs (prepend ys o) ≡ prepend (xs ++ ys) o
prepend-prepend xs ys (ok zs) = ap ok (sym (append_assoc xs ys zs))
prepend-prepend xs ys (err e) = refl
prepend-prepend xs ys panic = refl
prepend-prepend xs ys out_of_fuel = refl

prepend-nil : (o : Outcome (List (Bytes × Bytes))) → prepend [] o ≡ o
prepend-nil (ok zs) = refl
prepend-nil (err e) = refl
prepend-nil panic = refl
prepend-nil out_of_fuel = refl

abbrev call_of : Entry → List (Bytes × Bytes)
call_of e = if e.deleted then [] else (e.key, e.data_pos) ∷ []

handled-call :
    (r : KeyRecord) (o : Outcome (List (Bytes × Bytes)))
    → (o >>= λ calls. ok (handled r calls))
      ≡ prepend (if r.deleted then [] else (r.key, r.data_pos) ∷ []) o
unfolding handled
handled-call r (ok zs) = ground arith
handled-call r (err e) = refl
handled-call r panic = refl
handled-call r out_of_fuel = refl

module _ (home : Bytes → ℕ) where
  length-newest :
      (e : Entry) (es : List Entry)
      → length (layout home es) + length (newest home e es) ≡ length (layout home (e ∷ es))
  unfolding layout
  length-newest e es = sym (length-append (layout home es) (newest home e es))

  scan_test :
      (e : Entry) (es : List Entry) (more : Bytes)
      → length (layout home (e ∷ es) ++ more) < 2 ^ 62
      → signed_ltb (length (layout home es)) (length (layout home (e ∷ es) ++ more))
          && signed_ltb 0 (length (layout home es))
        ≡ true
  scan_test e es more bound =
      ground
        (arith, length-append (layout home (e ∷ es)) more, layout-le home e es, layout_pos home es)

  pub record_newest :
      (e : Entry) (es : List Entry) (more : Bytes)
      → FitsFile home (e ∷ es)
      → IsSmall e
      → get_record (layout home (e ∷ es) ++ more) (length (layout home es))
        ≡ ok (record {
          deleted = e.deleted;
          prev_pos = chain_head home (home e.key) es;
          key = e.key;
          data_pos = e.data_pos;
          next_offset = length (layout home es) + length (newest home e es);
        })
  record_newest e es more fits small = rw (layout-split home e es more) (
      get_record_lem (layout home es) more e.deleted _ e.key e.data_pos
        (newest_Fits home e es more fits) (low home e es more fits)
        (omega (
          arith,
          small,
          length-record-le e.deleted (chain_head home (home e.key) es) e.key e.data_pos,
        )))

  -- One round at the record of the newest entry.
  scan_round :
      (e : Entry) (es : List Entry) (more : Bytes) (f : ℕ)
      → FitsFile home (e ∷ es)
      → IsSmall e
      → length (layout home (e ∷ es) ++ more) < 2 ^ 62
      → scan_from (suc f) (layout home (e ∷ es) ++ more) (length (layout home es))
        ≡ prepend
            (call_of e)
            (scan_from f (layout home (e ∷ es) ++ more) (length (layout home (e ∷ es))))
  unfolding scan_from get_length
  scan_round e es more f fits small bound =
      rw (scan_test e es more bound, record_newest e es more fits small, ← length-newest e es)
        (handled-call _ _)

  -- From the header, the loop hands over the live entries, oldest first, and goes on behind them.
  scan_prefix :
      (es : List Entry) (more : Bytes) (f : ℕ)
      → FitsFile home es
      → All IsSmall es
      → length (layout home es ++ more) < 2 ^ 62
      → scan_from (length es + f) (layout home es ++ more) 2
        ≡ prepend (live_entries es) (scan_from f (layout home es ++ more) (length (layout home es)))
  scan_prefix [] more f fits small bound =
      unfold live_entries layout in
      ap (λ (n : ℕ). scan_from n (magic ++ more) 2) (omega arith) ∙ sym (prepend-nil _)
  scan_prefix (e ∷ es) more f fits small bound =
      let below : scan_from (length es + suc f) (layout home (e ∷ es) ++ more) 2
          ≡ prepend (live_entries es)
              (scan_from (suc f) (layout home (e ∷ es) ++ more) (length (layout home es))) =
        rw (layout-split home e es more) (
          scan_prefix es (newest home e es ++ more) (suc f) (FitsFile-tail home e es fits) small.1
            (rw (← layout-split home e es more) bound)) in
      ap (λ (n : ℕ). scan_from n (layout home (e ∷ es) ++ more) 2) {y = length es + suc f}
        (omega arith)
      ∙ below
      ∙ ap (prepend (live_entries es)) (scan_round e es more f fits small.0 bound)
      ∙ prepend-prepend (live_entries es) (call_of e) _
      ∙ (unfold live_entries in refl)

  scan_end :
      (es : List Entry) (f : ℕ)
      → scan_from (suc f) (layout home es) (length (layout home es)) ≡ ok []
  unfolding scan_from get_length
  scan_end es f =
      let stop : signed_ltb (length (layout home es)) (length (layout home es)) ≡ false =
        ground arith in
      rw stop refl

  -- Over a whole file, with fuel for its length, the loop hands over the live entries.
  pub scan_lem :
      (es : List Entry)
      → FitsFile home es
      → All IsSmall es
      → scan_from (length (layout home es)) (layout home es) 2 ≡ ok (live_entries es)
  scan_lem es fits small =
      let spare = length (layout home es) - length es - 1 in
      ap (λ (n : ℕ). scan_from n (layout home es) 2) {y = length es + suc spare}
        (omega (arith, length-le-layout home es))
      ∙ whole (suc spare)
      ∙ ap (prepend (live_entries es)) (scan_end es spare)
      ∙ ap ok (append-nil (live_entries es))
    where
      whole :
          (f : ℕ)
          → scan_from (length es + f) (layout home es) 2
            ≡ prepend (live_entries es) (scan_from f (layout home es) (length (layout home es)))
      whole f =
          subst
            (λ (file : Bytes).
              scan_from (length es + f) file 2
              ≡ prepend (live_entries es) (scan_from f file (length (layout home es))))
            (append-nil (layout home es))
            (scan_prefix es [] f fits small
              (rw (append-nil (layout home es)) (omega (arith, fits.file))))
