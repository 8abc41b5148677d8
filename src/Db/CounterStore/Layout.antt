-- ===== src/Db/CounterStore/Layout.antt =====
-- The abstract store: the counters, newest first, and how they lie in the data file.
use scouter_server_rust.Common.{
  ℕ, zero, suc, ◌+◌, ◌-◌, ◌*◌, ◌<◌, ◌≡◌, refl, sym, ap, ◌∙◌, arith, false, Option, none, some, List,
  [], ◌∷◌, ◌++◌, append_assoc, length, length-append, drop, replicate, take-append_length,
  drop-append_length, if◌then◌else◌, All,
}
use scouter_server_rust.Word.{Bytes, IsWord64, to_be_bytes, from_be_bytes}
use scouter_server_rust.Word.Codec.{from_be_bytes-to_be_bytes}
use scouter_server_rust.Protocol.Output.{to_bytes5}
use scouter_server_rust.Protocol.Value.{bytes_eq}
use scouter_server_rust.Db.RealKeyFile.{write_at}
use scouter_server_rust.Db.IndexKeyFile.Layout.{Entry}
use scouter_server_rust.Db.CounterStore.{get_bucket_count, values_of, value_of, value_size_of}

pub record Counter : Type 0 where
  pub key : Bytes
  pub time_type : ℕ
  pub values : List ℕ

-- A value for each bucket.
pub record IsSound (c : Counter) : Type 0 where
  pub count : length c.values ≡ get_bucket_count c.time_type
  pub words : All IsWord64 c.values

unfoldable pub encode : List ℕ → Bytes
encode [] = []
encode (v ∷ vs) = to_be_bytes 8 v ++ encode vs

abbrev pub counter_bytes : ℕ → List ℕ → Bytes
counter_bytes time_type values = 9 ∷ time_type ∷ encode values

-- The data file, and what the index holds.
unfoldable pub file : List Counter → Bytes
file [] = []
file (c ∷ cs) = file cs ++ counter_bytes c.time_type c.values

abbrev pub keyed : Bytes → List Counter → Entry
keyed key cs = record { deleted = false; key = key; data_pos = to_bytes5 (length (file cs)) }

unfoldable pub by_key : List Counter → List Entry
by_key [] = []
by_key (c ∷ cs) = keyed c.key cs ∷ by_key cs

-- What the store promises: the counter of a key, and its values changed.
unfoldable pub counter_of : Bytes → List Counter → Option Counter
counter_of key [] = none
counter_of key (c ∷ cs) = if bytes_eq c.key key then some c else counter_of key cs

unfoldable pub with_values : Bytes → List ℕ → List Counter → List Counter
with_values key vs [] = []
with_values key vs (c ∷ cs) =
    let rest = with_values key vs cs in
    if bytes_eq c.key key then record c { values = vs } ∷ cs else c ∷ rest

unfoldable pub set_at : ℕ → ℕ → List ℕ → List ℕ
set_at b v [] = []
set_at zero v (x ∷ xs) = v ∷ xs
set_at (suc b) v (x ∷ xs) = x ∷ set_at b v xs

pub length-encode : (vs : List ℕ) → length (encode vs) ≡ length vs * 8
unfolding encode
length-encode [] = refl
length-encode (v ∷ vs) =
    length-append (to_be_bytes 8 v) (encode vs) ∙ omega (arith, length-encode vs)

encode-append : (xs ys : List ℕ) → encode (xs ++ ys) ≡ encode xs ++ encode ys
unfolding encode
encode-append [] ys = refl
encode-append (x ∷ xs) ys = ap (λ (bs : Bytes). to_be_bytes 8 x ++ bs) (encode-append xs ys)

-- A value in its place.
pub record Split (b v : ℕ) (vs : List ℕ) : Type 0 where
  pub before : List ℕ
  pub old : ℕ
  pub behind : List ℕ
  pub whole : vs ≡ before ++ (old ∷ behind)
  pub changed : set_at b v vs ≡ before ++ (v ∷ behind)
  pub place : length before ≡ b

place_lem : (b v : ℕ) (vs : List ℕ) → b < length vs → Split b v vs
unfolding set_at
place_lem b v [] h = absurd (omega arith)
place_lem zero v (x ∷ xs) h = record {
  before = [];
  old = x;
  behind = xs;
  whole = refl;
  changed = refl;
  place = refl;
}
place_lem (suc b) v (x ∷ xs) h =
    let s = place_lem b v xs (omega arith) in
    record {
      before = x ∷ s.before;
      old = s.old;
      behind = s.behind;
      whole = ap (λ (l : List ℕ). x ∷ l) s.whole;
      changed = ap (λ (l : List ℕ). x ∷ l) s.changed;
      place = ap suc s.place;
    }

pub length-set_at : (b v : ℕ) (vs : List ℕ) → length (set_at b v vs) ≡ length vs
unfolding set_at
length-set_at b v [] = refl
length-set_at zero v (x ∷ xs) = refl
length-set_at (suc b) v (x ∷ xs) = ap suc (length-set_at b v xs)

pub set_at-words :
    (b v : ℕ) (vs : List ℕ) → IsWord64 v → All IsWord64 vs → All IsWord64 (set_at b v vs)
unfolding set_at
set_at-words b v [] h hs = tt
set_at-words zero v (x ∷ xs) h (k, hs) = (h, hs)
set_at-words (suc b) v (x ∷ xs) h (k, hs) = (k, set_at-words b v xs h hs)

pub zeros-words : (n : ℕ) → All IsWord64 (replicate n 0)
zeros-words zero = tt
zeros-words (suc n) = (omega arith, zeros-words n)

pub encode-zeros : (n : ℕ) → encode (replicate n 0) ≡ replicate (n * 8) 0
unfolding encode
encode-zeros zero = refl
encode-zeros (suc n) =
    ap (λ (bs : Bytes). 0 ∷ 0 ∷ 0 ∷ 0 ∷ 0 ∷ 0 ∷ 0 ∷ 0 ∷ bs) (encode-zeros n)
    ∙ ap (λ (k : ℕ). replicate {A = ℕ} k 0)
        {x = suc (suc (suc (suc (suc (suc (suc (suc (n * 8))))))))} {y = suc n * 8} (omega arith)

-- Overwriting bytes behind `front` with as many.
pub write_at_lem :
    (front old more new : Bytes)
    → length new ≡ length old
    → write_at (front ++ (old ++ more)) (length front) new ≡ front ++ (new ++ more)
unfolding write_at
write_at_lem front old more new same =
    rw (take-append_length front (old ++ more), no_gap, behind) refl
  where
    no_gap : length front - length (front ++ (old ++ more)) ≡ 0
    no_gap = rw (length-append front (old ++ more)) (omega arith)

    behind : drop (length front + length new) (front ++ (old ++ more)) ≡ more
    behind =
        ap (λ (n : ℕ). drop n (front ++ (old ++ more)))
          (ap (λ (n : ℕ). length front + n) same ∙ sym (length-append front old))
        ∙ ap (drop (length (front ++ old))) (sym (append_assoc front old more))
        ∙ drop-append_length (front ++ old) more

-- Writing a value at its bucket.
pub write_value_lem :
    (front more : Bytes) (time_type b v : ℕ) (vs : List ℕ)
    → b < length vs
    → write_at
        (front ++ (counter_bytes time_type vs ++ more))
        (length front + 2 + b * 8)
        (to_be_bytes 8 v)
      ≡ front ++ (counter_bytes time_type (set_at b v vs) ++ more)
write_value_lem front more time_type b v vs h =
    let s = place_lem b v vs h in
    let head = front ++ (9 ∷ time_type ∷ encode s.before) in
    let place : length front + 2 + b * 8 ≡ length head = omega (
      arith,
      s.place,
      length-encode s.before,
      length-append front (9 ∷ time_type ∷ encode s.before),
    ) in
    ap (λ (n : ℕ). write_at (front ++ (counter_bytes time_type vs ++ more)) n (to_be_bytes 8 v))
      place
    ∙ ap
        (λ (l : List ℕ).
          write_at (front ++ (counter_bytes time_type l ++ more)) (length head) (to_be_bytes 8 v))
        s.whole
    ∙ ap (λ (bs : Bytes). write_at bs (length head) (to_be_bytes 8 v))
        (regroup s.before s.old s.behind)
    ∙ write_at_lem head (to_be_bytes 8 s.old) (encode s.behind ++ more) (to_be_bytes 8 v) refl
    ∙ sym (regroup s.before v s.behind)
    ∙ ap (λ (l : List ℕ). front ++ (counter_bytes time_type l ++ more)) (sym s.changed)
  where
    regroup :
        (xs : List ℕ) (x : ℕ) (ys : List ℕ)
        → front ++ (counter_bytes time_type (xs ++ (x ∷ ys)) ++ more)
          ≡ (front ++ (9 ∷ time_type ∷ encode xs)) ++ (to_be_bytes 8 x ++ (encode ys ++ more))
    regroup xs x ys =
        ap (λ (bs : Bytes). front ++ ((9 ∷ time_type ∷ bs) ++ more)) (encode-append xs (x ∷ ys))
        ∙ (unfold encode in simp append_assoc)

-- Reading the values back.
pub values_of-encode :
    (f32_to_f64 : ℕ → ℕ) (vs : List ℕ)
    → All IsWord64 vs
    → values_of f32_to_f64 9 (length vs) (encode vs) ≡ vs
unfolding values_of encode value_of value_size_of
values_of-encode f [] h = refl
values_of-encode f (v ∷ vs) (w, h) =
    let back : from_be_bytes 0 (to_be_bytes 8 v) ≡ v =
      from_be_bytes-to_be_bytes 8 0 v ∙ omega arith in
    rw back (ap (λ (l : List ℕ). v ∷ l) (values_of-encode f vs h))
