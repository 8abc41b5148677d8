-- ===== src/Assoc.antt =====
-- Hash maps whose keys are numbers, as the list of their entries in some order.
use scouter_server_rust.Common.{
  ℕ, suc, ◌≡◌, ◌≢◌, refl, ap, sym, subst, ◌∙◌, arith, Bool, true, false, Option, none, some, List,
  [], ◌∷◌, length, ◌==◌, ==_iff, if◌then◌else◌, Bool-cases, inl, inr, All,
}

module _ {ℓ} {V : Type ℓ} where
  unfoldable pub find : ℕ → List (ℕ × V) → Option V
  find k [] = none
  find k ((j, v) ∷ m) = if j == k then some v else find k m

  -- A new key goes to the end.
  unfoldable pub insert : ℕ → V → List (ℕ × V) → List (ℕ × V)
  insert k v [] = (k, v) ∷ []
  insert k v ((j, w) ∷ m) = if j == k then (j, v) ∷ m else (j, w) ∷ insert k v m

  unfoldable pub remove : ℕ → List (ℕ × V) → List (ℕ × V)
  remove k [] = []
  remove k ((j, v) ∷ m) = if j == k then remove k m else (j, v) ∷ remove k m

  unfoldable pub retain : (V → Bool) → List (ℕ × V) → List (ℕ × V)
  retain keep [] = []
  retain keep ((j, v) ∷ m) = if keep v then (j, v) ∷ retain keep m else retain keep m

  -- Each key once.
  abbrev pub Apart : List (ℕ × V) → Type ℓ
  Apart [] = Unit
  Apart ((j, v) ∷ m) = (find j m ≡ none) × Apart m

  pub find_here :
      (k j : ℕ) (w : V) (m : List (ℕ × V)) → j == k ≡ true → find k ((j, w) ∷ m) ≡ some w
  unfolding find
  find_here k j w m h = rw h refl

  pub find_below :
      (k j : ℕ) (w : V) (m : List (ℕ × V)) → j == k ≡ false → find k ((j, w) ∷ m) ≡ find k m
  unfolding find
  find_below k j w m h = rw h refl

  pub some-inj : {x y : V} → some x ≡ some y → x ≡ y
  some-inj e = cc

  pub some-ne-none : {x : V} → some x ≢ none
  some-ne-none e = cc

  pub find_nil : (k : ℕ) {v : V} → find k [] ≢ some v
  unfolding find
  find_nil k h = cc

  pub find-insert : (k : ℕ) (v : V) (m : List (ℕ × V)) → find k (insert k v m) ≡ some v
  unfolding find insert
  find-insert k v [] = ground arith
  find-insert k v ((j, w) ∷ m) = elim (Bool-cases (j == k)) [
    | inl same ↦ rw (same, same) refl
    | inr other ↦ rw (other, other) (find-insert k v m)
  ]

  pub find-insert_other :
      (k i : ℕ) (v : V) (m : List (ℕ × V)) → i ≢ k → find i (insert k v m) ≡ find i m
  unfolding find insert
  find-insert_other k i v [] ne = ground arith
  find-insert_other k i v ((j, w) ∷ m) ne = elim (Bool-cases (j == k)) [
    | inl same ↦ let miss : j == i ≡ false = ground arith in rw (same, miss) refl
    | inr other ↦ rw (other, find-insert_other k i v m ne) refl
  ]

  pub find-remove : (k : ℕ) (m : List (ℕ × V)) → find k (remove k m) ≡ none
  unfolding find remove
  find-remove k [] = refl
  find-remove k ((j, v) ∷ m) = elim (Bool-cases (j == k)) [
    | inl same ↦ rw same (find-remove k m)
    | inr other ↦ rw (other, other) (find-remove k m)
  ]

  pub find-remove_other : (k i : ℕ) (m : List (ℕ × V)) → i ≢ k → find i (remove k m) ≡ find i m
  unfolding find remove
  find-remove_other k i [] ne = refl
  find-remove_other k i ((j, v) ∷ m) ne = elim (Bool-cases (j == k)) [
    | inl same ↦
        let miss : j == i ≡ false = ground arith in rw (same, miss) (find-remove_other k i m ne)
    | inr other ↦ rw (other, find-remove_other k i m ne) refl
  ]

  -- An entry that is kept is still found, when no key occurs twice.
  pub find-retain :
      (keep : V → Bool) (k : ℕ) (v : V) (m : List (ℕ × V))
      → find k m ≡ some v
      → keep v ≡ true
      → find k (retain keep m) ≡ some v
  unfolding find retain
  find-retain keep k v [] h kept = absurd cc
  find-retain keep k v ((j, w) ∷ m) h kept = elim (Bool-cases (j == k)) [
    | inl same ↦
        let here : w ≡ v = some-inj (sym (find_here k j w m same) ∙ h) in
        rw (ap keep here ∙ kept, same) (ap some here)
    | inr other ↦
        let below : find k m ≡ some v = sym (find_below k j w m other) ∙ h in
        elim (Bool-cases (keep w)) [
          | inl stays ↦ rw (stays, other) (find-retain keep k v m below kept)
          | inr goes ↦ rw goes (find-retain keep k v m below kept)
        ]
  ]

  pub find-retain-none :
      (keep : V → Bool) (k : ℕ) (m : List (ℕ × V)) → find k m ≡ none → find k (retain keep m) ≡ none
  unfolding find retain
  find-retain-none keep k [] h = refl
  find-retain-none keep k ((j, w) ∷ m) h = elim (Bool-cases (j == k)) [
    | inl same ↦ absurd (some-ne-none (sym (find_here k j w m same) ∙ h))
    | inr other ↦
        let below : find k m ≡ none = sym (find_below k j w m other) ∙ h in
        elim (Bool-cases (keep w)) [
          | inl stays ↦ rw (stays, other) (find-retain-none keep k m below)
          | inr goes ↦ rw goes (find-retain-none keep k m below)
        ]
  ]

  -- An entry that is not kept is gone, when no key occurs twice.
  pub find-retain-gone :
      (keep : V → Bool) (k : ℕ) (v : V) (m : List (ℕ × V))
      → find k m ≡ some v
      → keep v ≡ false
      → Apart m
      → find k (retain keep m) ≡ none
  unfolding find retain
  find-retain-gone keep k v [] h gone apart = refl
  find-retain-gone keep k v ((j, w) ∷ m) h gone (new, apart) = elim (Bool-cases (j == k)) [
    | inl same ↦
        let here : w ≡ v = some-inj (sym (find_here k j w m same) ∙ h) in
        rw (ap keep here ∙ gone)
          (find-retain-none keep k m (subst (λ i. find i m ≡ none) ((==_iff j k).0 same) new))
    | inr other ↦
        let below : find k m ≡ some v = sym (find_below k j w m other) ∙ h in
        elim (Bool-cases (keep w)) [
          | inl stays ↦ rw (stays, other) (find-retain-gone keep k v m below gone apart)
          | inr goes ↦ rw goes (find-retain-gone keep k v m below gone apart)
        ]
  ]

  pub Apart-retain : (keep : V → Bool) (m : List (ℕ × V)) → Apart m → Apart (retain keep m)
  unfolding retain
  Apart-retain keep [] h = tt
  Apart-retain keep ((j, w) ∷ m) (new, h) = elim (Bool-cases (keep w)) [
    | inl stays ↦ rw stays (find-retain-none keep j m new, Apart-retain keep m h)
    | inr goes ↦ rw goes (Apart-retain keep m h)
  ]

  pub length-insert_new :
      (k : ℕ) (v : V) (m : List (ℕ × V)) → find k m ≡ none → length (insert k v m) ≡ suc (length m)
  unfolding find insert
  length-insert_new k v [] h = refl
  length-insert_new k v ((j, w) ∷ m) h = elim (Bool-cases (j == k)) [
    | inl same ↦ absurd (some-ne-none (sym (find_here k j w m same) ∙ h))
    | inr other ↦ rw other (ap suc (length-insert_new k v m (sym (find_below k j w m other) ∙ h)))
  ]

  pub Apart-insert : (k : ℕ) (v : V) (m : List (ℕ × V)) → Apart m → Apart (insert k v m)
  unfolding find insert
  Apart-insert k v [] h = (refl, tt)
  Apart-insert k v ((j, w) ∷ m) (new, h) = elim (Bool-cases (j == k)) [
    | inl same ↦ rw same (new, h)
    | inr other ↦ rw other (find-insert_other k j v m (ground arith) ∙ new, Apart-insert k v m h)
  ]

  pub All-insert {κ} :
      (P : ℕ × V → Type κ) (k : ℕ) (v : V) (m : List (ℕ × V))
      → P (k, v)
      → All P m
      → All P (insert k v m)
  unfolding insert
  All-insert P k v [] p h = (p, tt)
  All-insert P k v ((j, w) ∷ m) p (q, h) = elim (Bool-cases (j == k)) [
    | inl same ↦
        let key : (j, v) ≡ (k, v) = ap (λ (i : ℕ). (i, v)) ((==_iff j k).0 same) in
        rw same (subst P (sym key) p, h)
    | inr other ↦ rw other (q, All-insert P k v m p h)
  ]
