-- ===== src/Core/XLogCache/Recent.antt =====
-- One put after another: the cache holds the latest xlogs, numbered in order.
use scouter_server_rust.Common.{
  ℕ, suc, ◌+◌, ◌-◌, ◌%◌, ◌^◌, ◌≤◌, ◌<◌, ◌≡◌, refl, sym, ap, ◌∙◌, arith, List, [], ◌∷◌, ◌++◌, length,
  length-append, append_assoc, drop, append-nil,
}
use scouter_server_rust.Core.Queue.{push, push-drop, drop_nil}
use scouter_server_rust.Core.XLogCache.{XLog, XLogCacheEntry, XLogCache, new, next, store, put}

-- The xlogs with their indices, the first of them `i`.
unfoldable pub number : ℕ → List XLog → List XLogCacheEntry
number i [] = []
number i (x ∷ xs) = record { xlog = x; index = i } ∷ number (suc i) xs

unfoldable pub put_all : XLogCache → List XLog → XLogCache
put_all cache [] = cache
put_all cache (x ∷ xs) = put_all (put cache x).0 xs

pub length-number : (i : ℕ) (xs : List XLog) → length (number i xs) ≡ length xs
unfolding number
length-number i [] = refl
length-number i (x ∷ xs) = ap suc (length-number (suc i) xs)

number-append_one :
    (i : ℕ) (xs : List XLog) (x : XLog)
    → number i (xs ++ (x ∷ [])) ≡ number i xs ++ (record { xlog = x; index = i + length xs } ∷ [])
unfolding number
number-append_one i [] x = ap (λ (n : ℕ). record { xlog = x; index = n } ∷ []) (omega arith)
number-append_one i (y ∷ xs) x =
    ap (λ (l : List XLogCacheEntry). record { xlog = y; index = i } ∷ l)
      (number-append_one (suc i) xs x
        ∙ ap (λ (n : ℕ). number (suc i) xs ++ (record { xlog = x; index = n } ∷ [])) (omega arith))

-- The cache after the puts of `xs`.
abbrev pub after : ℕ → List XLog → XLogCache
after max_size xs = record {
  entries = drop (length (number 0 xs) - max_size) (number 0 xs);
  max_size = max_size;
  next_index = length xs;
}

module _ (max_size : ℕ) (some_room : 1 ≤ max_size) where
  put-after :
      (xs : List XLog) (x : XLog)
      → length xs + 1 < 2 ^ 64
      → put (after max_size xs) x ≡ (after max_size (xs ++ (x ∷ [])), length xs)
  unfolding put next store
  put-after xs x h =
      let counted : (length xs + 1) % 2 ^ 64 ≡ length (xs ++ (x ∷ [])) =
        omega (arith, length-append xs (x ∷ [])) in
      rw
        (
          number-append_one 0 xs x,
          counted,
          ← push-drop max_size (record { xlog = x; index = 0 + length xs }) (number 0 xs) some_room,
        )
        (ap
          (λ (n : ℕ). (
            record {
              entries =
                  push max_size (record { xlog = x; index = n })
                    (drop (length (number 0 xs) - max_size) (number 0 xs));
              max_size = max_size;
              next_index = length (xs ++ (x ∷ []));
            },
            length xs,
          ))
          {x = length xs} {y = 0 + length xs} (omega arith))

  put_all-after :
      (xs ys : List XLog)
      → length xs + length ys < 2 ^ 64
      → put_all (after max_size xs) ys ≡ after max_size (xs ++ ys)
  unfolding put_all
  put_all-after xs [] h = ap (after max_size) (sym (append-nil xs))
  put_all-after xs (y ∷ ys) h = rw (put-after xs y (omega arith)) (
      put_all-after (xs ++ (y ∷ [])) ys (omega (arith, length-append xs (y ∷ [])))
      ∙ ap (after max_size) (append_assoc xs (y ∷ []) ys))

  -- After fewer than 2 ^ 64 puts into a new cache of at least one place, the cache holds the latest
  -- of them, as many as there are places, each with its number as its index, and the next index is
  -- the number of puts.
  pub put_all-new :
      (xs : List XLog)
      → length xs < 2 ^ 64
      → put_all (new max_size) xs ≡ record {
        entries = drop (length (number 0 xs) - max_size) (number 0 xs);
        max_size = max_size;
        next_index = length xs;
      }
  unfolding new number
  put_all-new xs h =
      ap
        (λ (l : List XLogCacheEntry).
          put_all (record { entries = l; max_size = max_size; next_index = 0 }) xs)
        (sym (drop_nil (0 - max_size)))
      ∙ put_all-after [] xs (omega arith)
