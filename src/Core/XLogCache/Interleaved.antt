-- ===== src/Core/XLogCache/Interleaved.antt =====
-- Puts of several threads at once: between its two locks, a put holds an entry that is in no queue.
use scouter_server_rust.Common.{
  ℕ, ◌+◌, ◌^◌, ◌≤◌, ◌<◌, ◌≡◌, refl, arith, List, [], ◌∷◌, ◌++◌, length, drop, leb, ◌==◌,
  if◌then◌else◌, Bool-cases, inl, inr,
}
use scouter_server_rust.Core.Queue.{push, length-push}
use scouter_server_rust.Core.XLogCache.{XLog, XLogCacheEntry, XLogCache, new, next, store}

-- The cache, and the entries of the puts that are between their locks.
abbrev pub State : Type 0
State = XLogCache × List XLogCacheEntry

-- Any put may begin, and any that has begun may store its entry. No index wraps.
pub data Step : State → State → Type 0 where
  begins :
      (cache : XLogCache) (held : List XLogCacheEntry) (x : XLog)
      → cache.next_index + 1 < 2 ^ 64
      → Step (cache, held) ((next cache x).0, (next cache x).1 ∷ held)
  stores :
      (cache : XLogCache) (before : List XLogCacheEntry) (e : XLogCacheEntry)
      (behind : List XLogCacheEntry)
      → Step (cache, before ++ (e ∷ behind)) (store cache e, before ++ behind)

pub data Reach (max_size : ℕ) : State → Type 0 where
  start : Reach max_size (new max_size, [])
  step : {s t : State} → Reach max_size s → Step s t → Reach max_size t

-- How many entries have the index.
unfoldable pub occurrences : ℕ → List XLogCacheEntry → ℕ
occurrences i [] = 0
occurrences i (e ∷ es) = (if e.index == i then 1 else 0) + occurrences i es

pub record IsSound (max_size : ℕ) (s : State) : Type 0 where
  pub bound : s.0.max_size ≡ max_size
  pub small : length s.0.entries ≤ max_size
  pub once : (i : ℕ) → occurrences i s.1 + occurrences i s.0.entries ≤ 1
  pub below : (i : ℕ) → s.0.next_index ≤ i → occurrences i s.1 + occurrences i s.0.entries ≡ 0

occurrences-append :
    (i : ℕ) (xs ys : List XLogCacheEntry)
    → occurrences i (xs ++ ys) ≡ occurrences i xs + occurrences i ys
unfolding occurrences
occurrences-append i [] ys = omega arith
occurrences-append i (x ∷ xs) ys = rw (occurrences-append i xs ys) (omega arith)

occurrences-push :
    (i max_size : ℕ) (e : XLogCacheEntry) (es : List XLogCacheEntry)
    → occurrences i (push max_size e es) ≤ occurrences i (e ∷ es)
unfolding occurrences push
occurrences-push i max_size e es = elim (Bool-cases (leb max_size (length es))) [
  | inl full ↦ rw (full, occurrences-append i (drop 1 es) (e ∷ [])) (omega (arith, dropped es))
  | inr room ↦ rw (room, occurrences-append i es (e ∷ [])) (omega arith)
]
  where
    dropped : (xs : List XLogCacheEntry) → occurrences i (drop 1 xs) ≤ occurrences i xs
    dropped [] = omega arith
    dropped (x ∷ xs) = omega arith

stored-le :
    (i max_size : ℕ) (before : List XLogCacheEntry) (e : XLogCacheEntry)
    (behind es : List XLogCacheEntry)
    → occurrences i (before ++ behind) + occurrences i (push max_size e es)
      ≤ occurrences i (before ++ (e ∷ behind)) + occurrences i es
unfolding occurrences
stored-le i max_size before e behind es =
    rw (occurrences-append i before behind, occurrences-append i before (e ∷ behind))
      (omega (arith, occurrences-push i max_size e es))

Step-IsSound :
    (max_size : ℕ) {s t : State} → 1 ≤ max_size → Step s t → IsSound max_size s → IsSound max_size t
unfolding next store occurrences
Step-IsSound max_size h (begins cache held x fits) v = record {
  bound = v.bound;
  small = v.small;
  once = λ i. ground (arith, v.once i, v.below i);
  below = λ i le. ground (arith, v.below i);
}
Step-IsSound max_size h (stores cache before e behind) v = record {
  bound = v.bound;
  small = rw v.bound (length-push max_size e cache.entries h v.small);
  once = λ i. omega (arith, v.once i, stored-le i cache.max_size before e behind cache.entries);
  below =
      λ i le. omega (arith, v.below i le, stored-le i cache.max_size before e behind cache.entries);
}

-- However the steps of the puts interleave, as long as no index wraps, the queue is never longer than
-- the size, at least 1, that the cache was made with; no index is given twice; and every index is
-- below the next one.
pub Reach-IsSound :
    (max_size : ℕ) (s : State) → 1 ≤ max_size → Reach max_size s → IsSound max_size s
unfolding new
Reach-IsSound max_size s h start = record {
  bound = refl;
  small = omega arith;
  once = λ i. unfold occurrences in omega arith;
  below = λ i le. unfold occurrences in omega arith;
}
Reach-IsSound max_size s h (step r t) = Step-IsSound max_size h t (Reach-IsSound max_size _ h r)
