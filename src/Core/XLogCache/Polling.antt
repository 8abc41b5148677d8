-- ===== src/Core/XLogCache/Polling.antt =====
-- What a client that polls with the index of its last answer is given.
use scouter_server_rust.Common.{
  ℕ, zero, suc, ◌+◌, ◌-◌, ◌^◌, ◌≤◌, ◌<◌, ◌≡◌, refl, ap, ◌∙◌, arith, Bool, true, false, none, List,
  [], ◌∷◌, ◌++◌, length, length-append, drop, ltb, ◌==◌, Bool-cases, inl, inr,
}
use scouter_server_rust.Core.Queue.{filter, drop_nil}
use scouter_server_rust.Core.XLogCache.{XLog, XLogCacheEntry, new, get_since, latest_index}
use scouter_server_rust.Core.XLogCache.Recent.{number, put_all, put_all-new, length-number}

module _ {A : Type 0} where
  filter-append :
      (test : A → Bool) (xs ys : List A) → filter test (xs ++ ys) ≡ filter test xs ++ filter test ys
  unfolding filter
  filter-append test [] ys = refl
  filter-append test (x ∷ xs) ys = elim (Bool-cases (test x)) [
    | inl kept ↦ rw kept (ap (λ (l : List A). x ∷ l) (filter-append test xs ys))
    | inr gone ↦ rw gone (filter-append test xs ys)
  ]

  filter_all : (xs : List A) → filter (λ x. true) xs ≡ xs
  unfolding filter
  filter_all [] = refl
  filter_all (x ∷ xs) = ap (λ (l : List A). x ∷ l) (filter_all xs)

  drop-append : (k : ℕ) (xs ys : List A) → drop k (xs ++ ys) ≡ drop k xs ++ drop (k - length xs) ys
  drop-append zero xs ys = let nothing : 0 - length xs ≡ 0 = omega arith in rw nothing refl
  drop-append (suc k) [] ys = ap (λ (n : ℕ). drop n ys) {x = suc k} {y = suc k - 0} (omega arith)
  drop-append (suc k) (x ∷ xs) ys =
      drop-append k xs ys
      ∙ ap (λ (n : ℕ). drop k xs ++ drop n ys) {x = k - length xs} {y = suc k - length (x ∷ xs)}
          (omega arith)

number-append :
    (i : ℕ) (xs ys : List XLog) → number i (xs ++ ys) ≡ number i xs ++ number (i + length xs) ys
unfolding number
number-append i [] ys = ap (λ (n : ℕ). number n ys) (omega arith)
number-append i (x ∷ xs) ys =
    ap (λ (l : List XLogCacheEntry). record { xlog = x; index = i } ∷ l)
      (number-append (suc i) xs ys ∙ ap (λ (n : ℕ). number (suc i) xs ++ number n ys) (omega arith))

old_gone :
    (s k i : ℕ) (xs : List XLog)
    → i + length xs ≤ suc s
    → filter (λ e. ltb s e.index) (drop k (number i xs)) ≡ []
unfolding number filter
old_gone s k i [] h = rw (drop_nil {A = XLogCacheEntry} k) refl
old_gone s zero i (x ∷ xs) h =
    let gone : ltb s i ≡ false = ground arith in rw gone (old_gone s zero (suc i) xs (omega arith))
old_gone s (suc k) i (x ∷ xs) h = old_gone s k (suc i) xs (omega arith)

new_kept :
    (s k i : ℕ) (xs : List XLog)
    → s < i
    → filter (λ e. ltb s e.index) (drop k (number i xs)) ≡ drop k (number i xs)
unfolding number filter
new_kept s k i [] h = rw (drop_nil {A = XLogCacheEntry} k) refl
new_kept s zero i (x ∷ xs) h =
    let kept : ltb s i ≡ true = ground arith in
    rw kept (
      ap (λ (l : List XLogCacheEntry). record { xlog = x; index = i } ∷ l)
        (new_kept s zero (suc i) xs (omega arith)))
new_kept s (suc k) i (x ∷ xs) h = new_kept s k (suc i) xs (omega arith)

module _ (max_size : ℕ) (some_room : 1 ≤ max_size) where
  pub latest_index_lem :
      (xs : List XLog)
      → 1 ≤ length xs
      → length xs < 2 ^ 64
      → latest_index (put_all (new max_size) xs) ≡ length xs - 1
  unfolding latest_index
  latest_index_lem xs some_x h =
      let other : length xs == 0 ≡ false = ground arith in
      rw (put_all-new max_size some_room xs h, other) refl

  -- A cache of at least one place has got some xlogs, and a client knows its latest index. After more
  -- puts, fewer than 2 ^ 64 in all, get_since with that index gives those xlogs in order, each with
  -- its number, or the latest of them if they are more than there are places.
  pub get_since-put_all :
      (xs ys : List XLog)
      → 1 ≤ length xs
      → length xs + length ys < 2 ^ 64
      → get_since
          (put_all (new max_size) (xs ++ ys))
          (latest_index (put_all (new max_size) xs))
          none
        ≡ drop (length ys - max_size) (number (length xs) ys)
  unfolding get_since
  get_since-put_all xs ys some_x h =
      let both = length-append xs ys in
      let k : ℕ = length (number 0 (xs ++ ys)) - max_size in
      rw
        (
          latest_index_lem xs some_x (omega arith),
          put_all-new max_size some_room (xs ++ ys) (omega arith),
          filter_all (filter (λ e. ltb (length xs - 1) e.index) (drop k (number 0 (xs ++ ys)))),
        )
        (ap (λ (l : List XLogCacheEntry). filter (λ e. ltb (length xs - 1) e.index) (drop k l))
            (number-append 0 xs ys)
          ∙ ap (filter (λ e. ltb (length xs - 1) e.index))
              (drop-append k (number 0 xs) (number (0 + length xs) ys))
          ∙ filter-append (λ e. ltb (length xs - 1) e.index) (drop k (number 0 xs))
              (drop (k - length (number 0 xs)) (number (0 + length xs) ys))
          ∙ ap
              (λ (l : List XLogCacheEntry).
                l
                ++ filter (λ e. ltb (length xs - 1) e.index)
                    (drop (k - length (number 0 xs)) (number (0 + length xs) ys)))
              (old_gone (length xs - 1) k 0 xs (omega arith))
          ∙ new_kept (length xs - 1) (k - length (number 0 xs)) (0 + length xs) ys (omega arith)
          ∙ ap (λ (n : ℕ). drop n (number (0 + length xs) ys)) {y = length ys - max_size}
              (omega (arith, both, length-number 0 xs, length-number 0 (xs ++ ys)))
          ∙ ap (λ (n : ℕ). drop (length ys - max_size) (number n ys)) {y = length xs} (omega arith))
