-- ===== src/Protocol/Utf8.antt =====
-- `String::from_utf8` of the standard library: which byte sequences are well-formed UTF-8.
use scouter_server_rust.Common.{
  ℕ, zero, suc, ◌≡◌, refl, sym, ap, ◌∙◌, arith, Bool, true, false, ◌&&◌, ◌||◌, [], ◌∷◌, ◌++◌,
  append-nil, append_assoc, leb, ltb, ◌==◌, if◌then◌else◌,
}
use scouter_server_rust.Word.{Bytes}

-- How many bytes follow a first byte.
abbrev continuations : ℕ → ℕ
continuations b = if ltb b 0x80 then 0 else if ltb b 0xe0 then 1 else if ltb b 0xf0 then 2 else 3

-- The range of the byte after a first byte.
abbrev second_min : ℕ → ℕ
second_min b = if b == 0xe0 then 0xa0 else if b == 0xf0 then 0x90 else 0x80

abbrev second_max : ℕ → ℕ
second_max b = if b == 0xed then 0x9f else if b == 0xf4 then 0x8f else 0xbf

abbrev is_first : ℕ → Bool
is_first b = ltb b 0x80 || (leb 0xc2 b && leb b 0xf4)

-- `more` bytes of the present character are still to come, the next of them from `lo` to `hi`.
unfoldable pub utf8_from : ℕ → ℕ → ℕ → Bytes → Bool
utf8_from zero lo hi [] = true
utf8_from (suc more) lo hi [] = false
utf8_from zero lo hi (b ∷ bs) =
    is_first b && utf8_from (continuations b) (second_min b) (second_max b) bs
utf8_from (suc more) lo hi (b ∷ bs) = leb lo b && leb b hi && utf8_from more 0x80 0xbf bs

unfoldable pub is_utf8 : Bytes → Bool
unfolding utf8_from
is_utf8 bs = utf8_from 0 0x80 0xbf bs

-- `String::from_utf8_lossy`: what is no character, as far as it could be the start of one, becomes
-- U+FFFD. `pending` is what was read of the present character, all of it when no more is to come.
abbrev replacement : Bytes
replacement = 0xef ∷ 0xbf ∷ 0xbd ∷ []

-- `next` goes on behind a first byte.
abbrev lossy_first : (Bytes → ℕ → ℕ → ℕ → Bytes) → ℕ → Bytes
lossy_first next b =
    if is_first b
    then next (b ∷ []) (continuations b) (second_min b) (second_max b)
    else replacement ++ next [] 0 0x80 0xbf

lossy_from : Bytes → ℕ → ℕ → ℕ → Bytes → Bytes
lossy_from pending zero lo hi [] = pending
lossy_from pending (suc more) lo hi [] = replacement
lossy_from pending zero lo hi (b ∷ bs) = pending ++ lossy_first (λ p n l h. lossy_from p n l h bs) b
lossy_from pending (suc more) lo hi (b ∷ bs) =
    if leb lo b && leb b hi
    then lossy_from (pending ++ (b ∷ [])) more 0x80 0xbf bs
    else replacement ++ lossy_first (λ p n l h. lossy_from p n l h bs) b

unfoldable pub from_utf8_lossy : Bytes → Bytes
unfolding lossy_from
from_utf8_lossy bs = lossy_from [] 0 0x80 0xbf bs

-- The leftmost test of a conjunction that holds.
and_left : (a b : Bool) → a && b ≡ true → a ≡ true
and_left true b h = refl
and_left false b h = h

and_right : (a b : Bool) → a && b ≡ true → b ≡ true
and_right true b h = h
and_right false b h = absurd (ground (arith, h))

lossy_from_lem :
    (bs pending : Bytes) (more lo hi : ℕ)
    → utf8_from more lo hi bs ≡ true
    → lossy_from pending more lo hi bs ≡ pending ++ bs
unfolding utf8_from lossy_from
lossy_from_lem [] pending zero lo hi h = sym (append-nil pending)
lossy_from_lem [] pending (suc more) lo hi h = absurd (ground (arith, h))
lossy_from_lem (b ∷ bs) pending zero lo hi h = rw (and_left (is_first b) _ h) (
    ap (λ (rest : Bytes). pending ++ rest)
      (lossy_from_lem bs (b ∷ []) (continuations b) (second_min b) (second_max b)
        (and_right (is_first b) _ h)))
lossy_from_lem (b ∷ bs) pending (suc more) lo hi h =
    rw (and_left (leb lo b && leb b hi) _ (assoc h)) (
      lossy_from_lem bs (pending ++ (b ∷ [])) more 0x80 0xbf
        (and_right (leb lo b && leb b hi) _ (assoc h))
      ∙ append_assoc pending (b ∷ []) bs)
  where
    assoc :
        leb lo b && leb b hi && utf8_from more 0x80 0xbf bs ≡ true
        → (leb lo b && leb b hi) && utf8_from more 0x80 0xbf bs ≡ true
    assoc e = ground (arith, e)

-- Well-formed UTF-8 stays as it is.
pub from_utf8_lossy-is_utf8 : (bs : Bytes) → is_utf8 bs ≡ true → from_utf8_lossy bs ≡ bs
unfolding is_utf8 from_utf8_lossy
from_utf8_lossy-is_utf8 bs h = lossy_from_lem bs [] 0 0x80 0xbf h

cut_character : from_utf8_lossy (0xed ∷ 0x95 ∷ 0x41 ∷ []) ≡ 0xef ∷ 0xbf ∷ 0xbd ∷ 0x41 ∷ []
unfolding from_utf8_lossy
cut_character = refl

korean : is_utf8 (0xed ∷ 0x95 ∷ 0x9c ∷ 0x20 ∷ []) ≡ true
unfolding is_utf8
korean = refl

surrogate : is_utf8 (0xed ∷ 0xa0 ∷ 0x80 ∷ []) ≡ false
unfolding is_utf8
surrogate = refl

cut_off : is_utf8 (0xed ∷ 0x95 ∷ []) ≡ false
unfolding is_utf8
cut_off = refl
