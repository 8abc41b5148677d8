-- ===== src/Db/IndexTimeFile/Sorting.antt =====
-- The sort of the entries of a half second: a rearrangement in the order of their times.
use scouter_server_rust.Common.{
  ℕ, ◌≡◌, arith, true, false, List, [], ◌∷◌, All, ◌==◌, ◌∙◌, refl, ap, if◌then◌else◌, Bool-cases,
  inl, inr,
}
use mathlib.Core.List.{Perm}
use mathlib.Core.List.Perm
use scouter_server_rust.Word.{signed_leb}
use scouter_server_rust.Db.IndexTimeFile.{TimeToData, insert_by_time, sort_by_time}

abbrev IsBelow : TimeToData → List TimeToData → Type 0
IsBelow x ys = All (λ (y : TimeToData). signed_leb x.time y.time ≡ true) ys

-- Every entry is at most as late as those behind it.
abbrev pub IsSorted : List TimeToData → Type 0
IsSorted [] = Unit
IsSorted (x ∷ xs) = IsBelow x xs × IsSorted xs

signed_leb_trans :
    (a b c : ℕ) → signed_leb a b ≡ true → signed_leb b c ≡ true → signed_leb a c ≡ true
signed_leb_trans a b c h k = ground arith

signed_leb_total : (a b : ℕ) → signed_leb a b ≡ false → signed_leb b a ≡ true
signed_leb_total a b h = ground arith

IsBelow-trans :
    (x y : TimeToData) (zs : List TimeToData)
    → signed_leb x.time y.time ≡ true
    → IsBelow y zs
    → IsBelow x zs
IsBelow-trans x y [] h b = tt
IsBelow-trans x y (z ∷ zs) h (k, b) =
    (signed_leb_trans x.time y.time z.time h k, IsBelow-trans x y zs h b)

insert-IsBelow :
    (x y : TimeToData) (ys : List TimeToData)
    → signed_leb y.time x.time ≡ true
    → IsBelow y ys
    → IsBelow y (insert_by_time x ys)
unfolding insert_by_time
insert-IsBelow x y [] h b = (h, tt)
insert-IsBelow x y (z ∷ zs) h (k, b) = elim (Bool-cases (signed_leb x.time z.time)) [
  | inl le ↦ rw le (h, (k, b))
  | inr gt ↦ rw gt (k, insert-IsBelow x y zs h b)
]

insert_by_time-IsSorted :
    (x : TimeToData) (ys : List TimeToData) → IsSorted ys → IsSorted (insert_by_time x ys)
unfolding insert_by_time
insert_by_time-IsSorted x [] s = (tt, tt)
insert_by_time-IsSorted x (y ∷ ys) (b, s) = elim (Bool-cases (signed_leb x.time y.time)) [
  | inl le ↦ rw le ((le, IsBelow-trans x y ys le b), (b, s))
  | inr gt ↦
      rw gt (
        insert-IsBelow x y ys (signed_leb_total x.time y.time gt) b,
        insert_by_time-IsSorted x ys s,
      )
]

insert_by_time-Perm : (x : TimeToData) (ys : List TimeToData) → Perm (insert_by_time x ys) (x ∷ ys)
unfolding insert_by_time
insert_by_time-Perm x [] = Perm.rfl
insert_by_time-Perm x (y ∷ ys) = elim (Bool-cases (signed_leb x.time y.time)) [
  | inl le ↦ rw le Perm.rfl
  | inr gt ↦ rw gt (Perm.trans (Perm.cons y (insert_by_time-Perm x ys)) (Perm.swap x y ys))
]

-- The sort by time returns the entries in ascending order of their times, as numbers with a sign.
pub sort_by_time-IsSorted : (xs : List TimeToData) → IsSorted (sort_by_time xs)
unfolding sort_by_time
sort_by_time-IsSorted [] = tt
sort_by_time-IsSorted (x ∷ xs) = insert_by_time-IsSorted x _ (sort_by_time-IsSorted xs)

pub sort_by_time-Perm : (xs : List TimeToData) → Perm (sort_by_time xs) xs
unfolding sort_by_time
sort_by_time-Perm [] = Perm.rfl
sort_by_time-Perm (x ∷ xs) =
    Perm.trans (insert_by_time-Perm x (sort_by_time xs)) (Perm.cons x (sort_by_time-Perm xs))

-- The entries of one time.
unfoldable pub with_time : ℕ → List TimeToData → List TimeToData
with_time t [] = []
with_time t (x ∷ xs) = let rest = with_time t xs in if x.time == t then x ∷ rest else rest

with_time-insert :
    (t : ℕ) (x : TimeToData) (ys : List TimeToData)
    → with_time t (insert_by_time x ys) ≡ with_time t (x ∷ ys)
unfolding insert_by_time with_time
with_time-insert t x [] = refl
with_time-insert t x (y ∷ ys) = elim (Bool-cases (signed_leb x.time y.time)) [
  | inl le ↦ rw le refl
  | inr gt ↦ elim (Bool-cases (y.time == t)) [
    | inl here ↦
        let other : x.time == t ≡ false = ground arith in
        rw (gt, here, with_time-insert t x ys, other) refl
    | inr there ↦ rw (gt, there, with_time-insert t x ys) refl
  ]
]

-- Entries of the same time keep their order.
pub with_time-sort_by_time :
    (t : ℕ) (xs : List TimeToData) → with_time t (sort_by_time xs) ≡ with_time t xs
unfolding sort_by_time with_time
with_time-sort_by_time t [] = refl
with_time-sort_by_time t (x ∷ xs) =
    with_time-insert t x (sort_by_time xs)
    ∙ ap (λ (l : List TimeToData). if x.time == t then x ∷ l else l) (with_time-sort_by_time t xs)
