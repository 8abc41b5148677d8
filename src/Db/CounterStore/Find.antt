-- ===== src/Db/CounterStore/Find.antt =====
-- Where the counter of a key lies, and what the data file is after a change of its values.
use scouter_server_rust.Common.{
  ℕ, ◌+◌, ◌*◌, ◌≡◌, refl, sym, ap, ◌∙◌, arith, true, false, none, some, List, [], ◌∷◌, ◌++◌,
  append_assoc, length, length-append, All, Bool-cases, inl, inr, ◌⊎◌,
}
use scouter_server_rust.Word.{Bytes}
use scouter_server_rust.Protocol.Output.{to_bytes5}
use scouter_server_rust.Protocol.Value.{bytes_eq}
use scouter_server_rust.Db.IndexKeyFile.Layout.{Entry, lookup}
use scouter_server_rust.Db.XLogStore.Find.{lookup_here}
use scouter_server_rust.Db.CounterStore.Layout.{
  Counter, IsSound, counter_bytes, length-encode, file, keyed, by_key, counter_of, with_values,
}

-- The counter of a key is this one, and the data file and the index have it at `front`.
pub record Hit (key : Bytes) (cs : List Counter) (more : Bytes) : Type 0 where
  pub counter : Counter
  pub front : Bytes
  pub behind : Bytes
  pub found : counter_of key cs ≡ some counter
  pub position : lookup key (by_key cs) ≡ some (to_bytes5 (length front))
  pub sound : IsSound counter
  pub splits : file cs ++ more ≡ front ++ (counter_bytes counter.time_type counter.values ++ behind)
  pub splits_changed :
      (vs : List ℕ)
      → file (with_values key vs cs) ++ more
        ≡ front ++ (counter_bytes counter.time_type vs ++ behind)
  pub same_length :
      (vs : List ℕ)
      → length vs ≡ length counter.values
      → length (file (with_values key vs cs)) ≡ length (file cs)
  pub same_keys :
      (vs : List ℕ) → length vs ≡ length counter.values → by_key (with_values key vs cs) ≡ by_key cs
  pub all_sound :
      (vs : List ℕ) → IsSound (record counter { values = vs }) → All IsSound (with_values key vs cs)

-- No counter has the key.
pub record Miss (key : Bytes) (cs : List Counter) : Type 0 where
  pub not_found : counter_of key cs ≡ none
  pub no_position : lookup key (by_key cs) ≡ none

pub length-file :
    (c : Counter) (cs : List Counter)
    → length (file (c ∷ cs)) ≡ length (file cs) + (2 + length c.values * 8)
unfolding file
length-file c cs =
    omega
      (arith, length-append (file cs) (counter_bytes c.time_type c.values), length-encode c.values)

module _ (key : Bytes) where
  here_lem :
      (c : Counter) (cs : List Counter) (more : Bytes)
      → bytes_eq c.key key ≡ true
      → IsSound c
      → All IsSound cs
      → Hit key (c ∷ cs) more
  unfolding counter_of by_key with_values file
  here_lem c cs more here sc s = record {
    counter = c;
    front = file cs;
    behind = more;
    found = rw here refl;
    position = lookup_here key (keyed c.key cs) (by_key cs) true refl here;
    sound = sc;
    splits = append_assoc (file cs) (counter_bytes c.time_type c.values) more;
    splits_changed = λ vs. rw here (append_assoc (file cs) (counter_bytes c.time_type vs) more);
    same_length = λ vs e. rw here (
        length-file (record c { values = vs }) cs
        ∙ ap (λ (n : ℕ). length (file cs) + (2 + n * 8)) e
        ∙ sym (length-file c cs));
    same_keys = λ vs e. rw here refl;
    all_sound = λ vs h. rw here (h, s);
  }

  below_lem :
      (c : Counter) (cs : List Counter) (more : Bytes)
      → bytes_eq c.key key ≡ false
      → IsSound c
      → Hit key cs (counter_bytes c.time_type c.values ++ more)
      → Hit key (c ∷ cs) more
  unfolding counter_of by_key with_values file
  below_lem c cs more other sc h = record {
    counter = h.counter;
    front = h.front;
    behind = h.behind;
    found = rw other h.found;
    position = lookup_here key (keyed c.key cs) (by_key cs) false refl other ∙ h.position;
    sound = h.sound;
    splits = append_assoc (file cs) (counter_bytes c.time_type c.values) more ∙ h.splits;
    splits_changed = λ vs. rw other (
        append_assoc (file (with_values key vs cs)) (counter_bytes c.time_type c.values) more
        ∙ h.splits_changed vs);
    same_length = λ vs e. rw other (
        length-file c (with_values key vs cs)
        ∙ ap (λ (n : ℕ). n + (2 + length c.values * 8)) (h.same_length vs e)
        ∙ sym (length-file c cs));
    same_keys = λ vs e. rw other (
        ap
          (λ (n : ℕ).
            (record { deleted = false; key = c.key; data_pos = to_bytes5 n })
            ∷ by_key (with_values key vs cs))
          (h.same_length vs e)
        ∙ ap (λ (es : List Entry). keyed c.key cs ∷ es) (h.same_keys vs e));
    all_sound = λ vs g. rw other (sc, h.all_sound vs g);
  }

  pub find_lem : (cs : List Counter) (more : Bytes) → All IsSound cs → Hit key cs more ⊎ Miss key cs
  unfolding counter_of by_key
  find_lem [] more s = inr (record { not_found = refl; no_position = unfold lookup in refl })
  find_lem (c ∷ cs) more (sc, s) = elim (Bool-cases (bytes_eq c.key key)) [
    | inl here ↦ inl (here_lem c cs more here sc s)
    | inr other ↦ elim (find_lem cs (counter_bytes c.time_type c.values ++ more) s) [
      | inl hit ↦ inl (below_lem c cs more other sc hit)
      | inr miss ↦ inr (record {
        not_found = rw other miss.not_found;
        no_position =
            lookup_here key (keyed c.key cs) (by_key cs) false refl other ∙ miss.no_position;
      })
    ]
  ]
