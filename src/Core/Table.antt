-- ===== src/Core/Table.antt =====
-- Concurrent hash maps whose keys have several parts, as the list of their entries in some order,
-- each call atomic for its key. `same` is the equality of the keys.
use scouter_server_rust.Common.{
  ◌≡◌, refl, Bool, true, false, Option, none, some, List, [], ◌∷◌, if◌then◌else◌, Bool-cases, inl,
  inr,
}

module _ {ℓ κ} {K : Type ℓ} {V : Type κ} (same : K → K → Bool) where
  unfoldable pub lookup : K → List (K × V) → Option V
  lookup k [] = none
  lookup k ((j, v) ∷ m) = if same j k then some v else lookup k m

  -- A new key goes to the end.
  unfoldable pub insert : K → V → List (K × V) → List (K × V)
  insert k v [] = (k, v) ∷ []
  insert k v ((j, w) ∷ m) =
      let rest = insert k v m in if same j k then (j, v) ∷ m else (j, w) ∷ rest

  -- The value of a key after an insertion of it.
  pub lookup-insert :
      (k : K) (v : V) (m : List (K × V)) → same k k ≡ true → lookup k (insert k v m) ≡ some v
  unfolding lookup insert
  lookup-insert k v [] h = rw h refl
  lookup-insert k v ((j, w) ∷ m) h = elim (Bool-cases (same j k)) [
    | inl here ↦ rw (here, here) refl
    | inr other ↦ rw (other, other) (lookup-insert k v m h)
  ]

  -- That of another key, for keys that are the same as no two others.
  pub lookup-insert_other :
      (k i : K) (v : V) (m : List (K × V))
      → same k i ≡ false
      → ((j : K) → same j k ≡ true → same j i ≡ same k i)
      → lookup i (insert k v m) ≡ lookup i m
  unfolding lookup insert
  lookup-insert_other k i v [] h e = rw h refl
  lookup-insert_other k i v ((j, w) ∷ m) h e = elim (Bool-cases (same j k)) [
    | inl here ↦ rw (here, e j here, h) refl
    | inr other ↦ elim (Bool-cases (same j i)) [
      | inl found ↦ rw (other, found) refl
      | inr below ↦ rw (other, below) (lookup-insert_other k i v m h e)
    ]
  ]
