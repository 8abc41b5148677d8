-- ===== src/Netio/MultiPacket/Assembly.antt =====
-- The fragments of a packet, put together: as many distinct numbers below the total as the total
-- are all of them.
use scouter_server_rust.Common.{
  ℕ, zero, suc, ◌+◌, ◌≤◌, ◌<◌, ◌≡◌, refl, ap, sym, ◌∙◌, arith, Bool, true, false, Option, none,
  some, List, [], ◌∷◌, ◌++◌, length, ltb, ◌==◌, ==_iff, if◌then◌else◌, Bool-cases, inl, inr, All,
}
use scouter_server_rust.Word.{Bytes}
use scouter_server_rust.Assoc.{find, find_here, find_below, Apart}
use scouter_server_rust.Netio.MultiPacket.{assemble}

-- The packet whose fragments are `frag i`, from `count` of them.
unfoldable pub whole : (ℕ → Bytes) → ℕ → ℕ → Bytes
whole frag zero i = []
whole frag (suc count) i = frag i ++ whole frag count (suc i)

abbrev pub IsFragment : ℕ → (ℕ → Bytes) → ℕ × Bytes → Type 0
IsFragment n frag (num, fragment) = (num < n) × (fragment ≡ frag num)

abbrev is_some : Option Bytes → Bool
is_some none = false
is_some (some v) = true

-- How many of the numbers below `n` are there.
present : ℕ → List (ℕ × Bytes) → ℕ
present zero m = 0
present (suc n) m = present n m + (if is_some (find n m) then 1 else 0)

present_cons :
    (n k : ℕ) (v : Bytes) (m : List (ℕ × Bytes))
    → find k m ≡ none
    → present n ((k, v) ∷ m) ≡ present n m + (if ltb k n then 1 else 0)
unfolding present
present_cons zero k v m new = ground arith
present_cons (suc n) k v m new = elim (Bool-cases (k == n)) [
  | inl last ↦
      let gone : find n m ≡ none = ap (λ (i : ℕ). find i m) (sym ((==_iff k n).0 last)) ∙ new in
      rw (present_cons n k v m new, find_here n k v m last, gone) (ground arith)
  | inr other ↦ rw (present_cons n k v m new, find_below n k v m other) (ground arith)
]

present_nil : (n : ℕ) → present n [] ≡ 0
unfolding present find
present_nil zero = refl
present_nil (suc n) = rw (present_nil n) refl

present-length :
    (n : ℕ) (frag : ℕ → Bytes) (m : List (ℕ × Bytes))
    → Apart m
    → All (IsFragment n frag) m
    → present n m ≡ length m
present-length n frag [] a h = present_nil n
present-length n frag ((k, v) ∷ m) (new, a) ((lt, e), h) =
    let below : ltb k n ≡ true = ground arith in
    rw (present_cons n k v m new, present-length n frag m a h, below) (omega arith)

present-le : (n : ℕ) (m : List (ℕ × Bytes)) → present n m ≤ n
unfolding present
present-le zero m = omega arith
present-le (suc n) m = ground (arith, present-le n m)

present_full :
    (n : ℕ) (m : List (ℕ × Bytes)) → present n m ≡ n → (i : ℕ) → i < n → is_some (find i m) ≡ true
unfolding present
present_full zero m h i lt = absurd (omega arith)
present_full (suc n) m h i lt = elim (Bool-cases (is_some (find n m))) [
  | inl there ↦ elim (Bool-cases (i == n)) [
    | inl last ↦ ap (λ (j : ℕ). is_some (find j m)) ((==_iff i n).0 last) ∙ there
    | inr below ↦ present_full n m (ground arith) i (ground arith)
  ]
  | inr missing ↦ absurd (ground (arith, present-le n m))
]

find_fragment :
    (n : ℕ) (frag : ℕ → Bytes) (i : ℕ) (m : List (ℕ × Bytes))
    → All (IsFragment n frag) m
    → is_some (find i m) ≡ true
    → find i m ≡ some (frag i)
unfolding find
find_fragment n frag i [] h f = absurd cc
find_fragment n frag i ((k, v) ∷ m) ((lt, e), h) f = elim (Bool-cases (k == i)) [
  | inl here ↦ rw here (ap some (e ∙ ap frag ((==_iff k i).0 here)))
  | inr other ↦ rw other (find_fragment n frag i m h (rw (← find_below i k v m other) f))
]

assemble-whole :
    (frag : ℕ → Bytes) (m : List (ℕ × Bytes)) (count i : ℕ)
    → ((j : ℕ) → i ≤ j → j < i + count → find j m ≡ some (frag j))
    → assemble count i m ≡ whole frag count i
unfolding assemble whole
assemble-whole frag m zero i h = refl
assemble-whole frag m (suc count) i h =
    rw
      (
        h i (omega arith) (omega arith),
        assemble-whole frag m count (suc i) (λ j lo hi. h j (omega arith) (omega arith)),
      )
      refl

-- As many distinct fragments as the packet has are put together to the packet, whatever their order.
pub assemble_complete :
    (n : ℕ) (frag : ℕ → Bytes) (m : List (ℕ × Bytes))
    → Apart m
    → All (IsFragment n frag) m
    → length m ≡ n
    → assemble n 0 m ≡ whole frag n 0
assemble_complete n frag m a h full = assemble-whole frag m n 0 (λ j lo hi.
    find_fragment n frag j m h
      (present_full n m (present-length n frag m a h ∙ full) j (omega arith)))

-- There are never more than the packet has.
pub fragments-le :
    (n : ℕ) (frag : ℕ → Bytes) (m : List (ℕ × Bytes))
    → Apart m
    → All (IsFragment n frag) m
    → length m ≤ n
fragments-le n frag m a h = omega (arith, present-length n frag m a h, present-le n m)
