-- ===== src/Db/Buffer.antt =====
-- Byte buffers: overwriting a slice, and what an index reads afterwards.
use scouter_server_rust.Common.{
  ℕ, zero, suc, ◌+◌, ◌-◌, ◌≤◌, ◌<◌, ◌≡◌, refl, ap, ◌∙◌, arith, [], ◌∷◌, ◌++◌, length, length-append,
  take, drop, length-take, length-drop, ltb, if◌then◌else◌,
}
use scouter_server_rust.Outcome.{Outcome, ok, panic, index}
use scouter_server_rust.Word.{Bytes}

-- `buf[pos..pos + n].copy_from_slice(&bytes)` for n bytes, which panics out of range.
unfoldable pub copy_from_slice : Bytes → ℕ → Bytes → Outcome Bytes
copy_from_slice buf pos bytes =
    if ltb (length buf) (pos + length bytes)
    then panic
    else ok (take pos buf ++ (bytes ++ drop (pos + length bytes) buf))

pub index-append_left : (xs ys : Bytes) (i : ℕ) → i < length xs → index (xs ++ ys) i ≡ index xs i
index-append_left [] ys i h = absurd (omega arith)
index-append_left (x ∷ xs) ys zero h = refl
index-append_left (x ∷ xs) ys (suc i) h = index-append_left xs ys i (omega arith)

pub index-append_right :
    (xs ys : Bytes) (i : ℕ) → length xs ≤ i → index (xs ++ ys) i ≡ index ys (i - length xs)
index-append_right [] ys i h = ap (index ys) (omega arith)
index-append_right (x ∷ xs) ys zero h = absurd (omega arith)
index-append_right (x ∷ xs) ys (suc i) h =
    index-append_right xs ys i (omega arith) ∙ ap (index ys) (omega arith)

pub index-take : (n : ℕ) (xs : Bytes) (i : ℕ) → i < n → index (take n xs) i ≡ index xs i
index-take zero xs i h = absurd (omega arith)
index-take (suc n) [] i h = refl
index-take (suc n) (x ∷ xs) zero h = refl
index-take (suc n) (x ∷ xs) (suc i) h = index-take n xs i (omega arith)

pub index-drop : (n : ℕ) (xs : Bytes) (i : ℕ) → index (drop n xs) i ≡ index xs (n + i)
index-drop zero xs i = ap (index xs) (omega arith)
index-drop (suc n) [] i = refl
index-drop (suc n) (x ∷ xs) i = index-drop n xs i ∙ ap (index (x ∷ xs)) shift
  where
    shift : suc (n + i) ≡ suc n + i
    shift = omega arith

-- The buffer after a copy that fits.
abbrev pub overwritten : Bytes → ℕ → Bytes → Bytes
overwritten buf pos bytes = take pos buf ++ (bytes ++ drop (pos + length bytes) buf)

module _ (buf : Bytes) (pos : ℕ) (bytes : Bytes) (fits : pos + length bytes ≤ length buf) where
  abbrev copied : Bytes
  copied = overwritten buf pos bytes

  pub copy_from_slice-ok : copy_from_slice buf pos bytes ≡ ok copied
  unfolding copy_from_slice
  copy_from_slice-ok = ground arith

  pub length-copied : length copied ≡ length buf
  length-copied = simp (length-append, length-take, length-drop) (omega arith)

  length-before : length (take pos buf) ≡ pos
  length-before = rw (length-take pos buf) (omega arith)

  pub index-copied_inside : (i : ℕ) → i < length bytes → index copied (pos + i) ≡ index bytes i
  index-copied_inside i h =
      index-append_right (take pos buf) _ (pos + i) (omega (arith, length-before))
      ∙ ap (index (bytes ++ drop (pos + length bytes) buf)) (omega (arith, length-before))
      ∙ index-append_left bytes _ i h

  pub index-copied_before : (i : ℕ) → i < pos → index copied i ≡ index buf i
  index-copied_before i h =
      index-append_left (take pos buf) _ i (omega (arith, length-before)) ∙ index-take pos buf i h

  pub index-copied_behind : (i : ℕ) → pos + length bytes ≤ i → index copied i ≡ index buf i
  index-copied_behind i h =
      index-append_right (take pos buf) _ i (omega (arith, length-before))
      ∙ index-append_right bytes _ (i - length (take pos buf)) (omega (arith, length-before))
      ∙ index-drop (pos + length bytes) buf _
      ∙ ap (index buf) (omega (arith, length-before))
