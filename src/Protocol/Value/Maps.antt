-- ===== src/Protocol/Value/Maps.antt =====
-- The entries of a `MapValue`: filling a table by `put` with keys that it does not hold.
use scouter_server_rust.Common.{
  ◌≡◌, refl, ap, arith, true, false, ◌||◌, [], ◌∷◌, some, if◌then◌else◌,
}
use scouter_server_rust.Word.{Bytes}
use scouter_server_rust.Protocol.Value.{Value, MapValue, empty, entry, bytes_eq, put, get}
use scouter_server_rust.Protocol.Value.Valid.{has_key}

pub bytes_eq_comm : (xs ys : Bytes) → bytes_eq xs ys ≡ bytes_eq ys xs
bytes_eq_comm [] [] = refl
bytes_eq_comm [] (y ∷ ys) = refl
bytes_eq_comm (x ∷ xs) [] = refl
bytes_eq_comm (x ∷ xs) (y ∷ ys) = ground (arith, bytes_eq_comm xs ys)

pub bytes_eq_refl : (xs : Bytes) → bytes_eq xs xs ≡ true
bytes_eq_refl [] = refl
bytes_eq_refl (x ∷ xs) = ground (arith, bytes_eq_refl xs)

pub bytes_eq→eq : (xs ys : Bytes) → bytes_eq xs ys ≡ true → xs ≡ ys
bytes_eq→eq [] [] h = refl
bytes_eq→eq [] (y ∷ ys) h = cc
bytes_eq→eq (x ∷ xs) [] h = cc
bytes_eq→eq (x ∷ xs) (y ∷ ys) h = ground (arith, bytes_eq→eq xs ys)

-- Looking a key up after a `put`: the new value at its key, the old one at any other.
pub get-put_map :
    (k j : Bytes) (v : Value) (m : MapValue)
    → get j (put k v m) ≡ (if bytes_eq k j then some v else get j m)
unfolding get put
get-put_map k j v empty = refl
get-put_map k j v (entry i w m) =
    ground (
      arith,
      get-put_map k j v m,
      bytes_eq→eq i k,
      bytes_eq→eq i j,
      bytes_eq→eq k j,
      bytes_eq_refl i,
    )

abbrev pub append_entries : MapValue → MapValue → MapValue
append_entries empty m = m
append_entries (entry k v t) m = entry k v (append_entries t m)

pub put-new :
    (k : Bytes) (v : Value) (t m : MapValue)
    → has_key k t ≡ false
    → append_entries (put k v t) m ≡ append_entries t (entry k v m)
unfolding put
put-new k v empty m h = refl
put-new k v (entry j w t) m h = ground (arith, put-new k v t m)

-- No key of `m` is in the table `t`.
abbrev pub Apart : MapValue → MapValue → Type 0
Apart t empty = Unit {0}
Apart t (entry k v m) = (has_key k t ≡ false) × Apart t m

has_key-put :
    (k j : Bytes) (v : Value) (t : MapValue) → has_key j (put k v t) ≡ (bytes_eq k j || has_key j t)
unfolding put
has_key-put k j v empty = refl
has_key-put k j v (entry i w t) = ground (arith, has_key-put k j v t, bytes_eq→eq i k)

pub Apart-put :
    (k : Bytes) (v : Value) (t m : MapValue) → has_key k m ≡ false → Apart t m → Apart (put k v t) m
Apart-put k v t empty fresh h = tt
Apart-put k v t (entry j w m) fresh (h, hs) =
    (ground (arith, has_key-put k j v t, bytes_eq_comm k j), Apart-put k v t m (ground arith) hs)

pub Apart-empty : (m : MapValue) → Apart empty m
Apart-empty empty = tt
Apart-empty (entry k v m) = (refl, Apart-empty m)

pub append_entries-empty : (t : MapValue) → t ≡ append_entries t empty
append_entries-empty empty = refl
append_entries-empty (entry k v t) = ap (entry k v) (append_entries-empty t)
