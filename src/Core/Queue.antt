-- ===== src/Core/Queue.antt =====
-- The bounded queues behind the caches of xlogs and alerts: what the last of a numbered sequence are.
use scouter_server_rust.Common.{
  ℕ, zero, suc, ◌-◌, ◌≤◌, ◌<◌, ◌≡◌, refl, sym, ap, ◌∙◌, arith, Bool, List, [], ◌∷◌, ◌++◌, length,
  length-drop, leb→le, length-append, drop, leb, if◌then◌else◌, Bool-cases, inl, inr,
}

module _ {A : Type 0} where
  -- `if entries.len() >= max_size { entries.pop_front(); } entries.push_back(entry)`
  unfoldable pub push : ℕ → A → List A → List A
  push max_size x xs = (if leb max_size (length xs) then drop 1 xs else xs) ++ (x ∷ [])

  unfoldable pub filter : (A → Bool) → List A → List A
  filter test [] = []
  filter test (x ∷ xs) = if test x then x ∷ filter test xs else filter test xs

  pub drop_nil : (n : ℕ) → drop {A = A} n [] ≡ []
  drop_nil zero = refl
  drop_nil (suc n) = refl

  drop-suc : (n : ℕ) (xs : List A) → drop 1 (drop n xs) ≡ drop (suc n) xs
  drop-suc zero xs = refl
  drop-suc (suc n) [] = refl
  drop-suc (suc n) (x ∷ xs) = drop-suc n xs

  drop-append_le : (n : ℕ) (xs ys : List A) → n ≤ length xs → drop n (xs ++ ys) ≡ drop n xs ++ ys
  drop-append_le zero xs ys h = refl
  drop-append_le (suc n) [] ys h = absurd (omega arith)
  drop-append_le (suc n) (x ∷ xs) ys h = drop-append_le n xs ys (omega arith)

  -- Pushing onto the last `max_size` of a sequence gives the last of the longer sequence.
  pub push-drop :
      (max_size : ℕ) (x : A) (xs : List A)
      → 1 ≤ max_size
      → push max_size x (drop (length xs - max_size) xs)
        ≡ drop (length (xs ++ (x ∷ [])) - max_size) (xs ++ (x ∷ []))
  unfolding push
  push-drop max_size x xs h =
      let kept = length-drop (length xs - max_size) xs in
      let longer = length-append xs (x ∷ []) in
      elim (Bool-cases (leb max_size (length (drop (length xs - max_size) xs)))) [
        | inl full ↦
            let enough : max_size ≤ length xs =
              omega (arith, kept, leb→le max_size (length (drop (length xs - max_size) xs)) full) in
            rw (full, drop-suc (length xs - max_size) xs)
              (sym (drop-append_le (suc (length xs - max_size)) xs (x ∷ []) (omega arith))
                ∙ ap (λ (n : ℕ). drop n (xs ++ (x ∷ []))) {x = suc (length xs - max_size)}
                    {y = length (xs ++ (x ∷ [])) - max_size} (omega (arith, longer)))
        | inr room ↦
            let few : length xs < max_size = ground (arith, kept) in
            let none_gone : length xs - max_size ≡ 0 = omega arith in
            let none_goes : length (xs ++ (x ∷ [])) - max_size ≡ 0 = omega (arith, longer) in
            rw (room, none_gone, none_goes) refl
      ]

  pub length-push :
      (max_size : ℕ) (x : A) (xs : List A)
      → 1 ≤ max_size
      → length xs ≤ max_size
      → length (push max_size x xs) ≤ max_size
  unfolding push
  length-push max_size x xs h le = elim (Bool-cases (leb max_size (length xs))) [
    | inl full ↦ rw (full, length-append (drop 1 xs) (x ∷ [])) (omega (arith, length-drop 1 xs))
    | inr room ↦ rw (room, length-append xs (x ∷ [])) (ground arith)
  ]
