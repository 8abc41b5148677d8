-- ===== src/Protocol/Total.antt =====
-- Readers that end: on an input of fewer than `k` bytes they return, fail or panic, never run out of
-- fuel, and what they return leaves no more input than there was.
use scouter_server_rust.Common.{
  ℕ, zero, suc, ◌+◌, ◌≤◌, ◌<◌, ◌≡◌, ◌≢◌, refl, arith, Bool, true, false, [], ◌∷◌, length, drop, ltb,
  if◌then◌else◌,
}
use scouter_server_rust.Word.{Bytes}
use scouter_server_rust.Outcome as Outcome
use scouter_server_rust.Outcome.{Outcome, Error, ok, err, panic, out_of_fuel, index}
use scouter_server_rust.Protocol.Input.{
  DataInputX, Reader, ◌>>=◌, pure, fail, lift, isize_max, read_n, read_boolean, read_byte,
  read_unsigned_byte, read_short, read_unsigned_short, read_int, read_int3, read_long, read_long5,
  read_float, read_double, read_digits, read_decimal, read_blob_body, read_blob, from_utf8,
  read_text, to_int3, to_long5,
}

pub data Ends {A : Type 0} (n : ℕ) : Outcome (A × DataInputX) → Type 0 where
  returned : {a : A} {din : DataInputX} → length din.inner ≤ n → Ends n (ok (a, din))
  failed : {e : Error} → Ends n (err e)
  panicked : Ends n panic

pub Ends-ne-out_of_fuel :
    {A : Type 0} {n : ℕ} {r : Outcome (A × DataInputX)} → Ends n r → r ≢ out_of_fuel
Ends-ne-out_of_fuel (returned h) = cc
Ends-ne-out_of_fuel failed = cc
Ends-ne-out_of_fuel panicked = cc

pub record Total {A : Type 0} (k : ℕ) (p : Reader A) : Type 0 where
  pub run : (din : DataInputX) → length din.inner < k → Ends (length din.inner) (p din)

Ends-weaken : {A : Type 0} {m n : ℕ} {r : Outcome (A × DataInputX)} → m ≤ n → Ends m r → Ends n r
Ends-weaken le (returned h) = returned (omega arith)
Ends-weaken le failed = failed
Ends-weaken le panicked = panicked

-- The continuation may count on `slack` bytes having been taken by the first reader.
bind-Ends :
    {A B : Type 0} {n : ℕ} {r : Outcome (A × DataInputX)} (f : A → Reader B)
    → Ends n r
    → ((a : A) (din : DataInputX) → length din.inner ≤ n → Ends (length din.inner) (f a din))
    → Ends n (Outcome.◌>>=◌ r (λ (a, rest). f a rest))
bind-Ends f (returned {a = a} {din = din} h) k = Ends-weaken h (k a din h)
bind-Ends f failed k = failed
bind-Ends f panicked k = panicked

module _ {A : Type 0} {k : ℕ} where
  pub Total-bind :
      {B : Type 0} {p : Reader B} (f : B → Reader A)
      → Total k p
      → ((b : B) → Total k (f b))
      → Total k (p >>= f)
  unfolding ◌>>=◌
  Total-bind f p g = record {
    run = λ din h. bind-Ends f (p.run din h) (λ b rest le. (g b).run rest (omega arith));
  }

  pub Total-pure : (a : A) → Total k (pure a)
  unfolding pure
  Total-pure a = record { run = λ din h. returned (omega arith) }

  pub Total-fail : (e : Error) → Total k (fail {A = A} e)
  unfolding fail
  Total-fail e = record { run = λ din h. failed }

  pub Total-lift : (o : Outcome A) → o ≢ out_of_fuel → Total k (lift o)
  unfolding lift
  Total-lift (ok a) h = record { run = λ din le. returned (omega arith) }
  Total-lift (err e) h = record { run = λ din le. failed }
  Total-lift panic h = record { run = λ din le. panicked }
  Total-lift out_of_fuel h = absurd (h refl)

  pub Total-if : (b : Bool) {p q : Reader A} → Total k p → Total k q → Total k (if b then p else q)
  Total-if true hp hq = hp
  Total-if false hp hq = hq

length-drop-le : (n : ℕ) (xs : Bytes) → length (drop n xs) ≤ length xs
length-drop-le zero xs = omega arith
length-drop-le (suc n) [] = omega arith
length-drop-le (suc n) (x ∷ xs) = omega (arith, length-drop-le n xs)

pub index-ne-out_of_fuel : (xs : Bytes) (i : ℕ) → index xs i ≢ out_of_fuel
index-ne-out_of_fuel [] i = λ e. cc
index-ne-out_of_fuel (x ∷ xs) zero = λ e. cc
index-ne-out_of_fuel (x ∷ xs) (suc i) = index-ne-out_of_fuel xs i

if_Ends :
    {A : Type 0} {n : ℕ} (b : Bool) {r s : Outcome (A × DataInputX)}
    → Ends n r
    → Ends n s
    → Ends n (if b then r else s)
if_Ends true hr hs = hr
if_Ends false hr hs = hs

module _ {k : ℕ} where
  pub Total-read_n : (n : ℕ) → Total k (read_n n)
  unfolding read_n
  Total-read_n n = record {
    run = λ din h.
        if_Ends (ltb isize_max n) panicked
          (if_Ends (ltb (length din.inner) n) failed (returned (length-drop-le n din.inner)));
  }

  pub Total-read_boolean : Total k read_boolean
  unfolding read_boolean
  Total-read_boolean =
      Total-bind _ (Total-read_n 1)
        (λ buf. Total-bind _ (Total-lift _ (index-ne-out_of_fuel buf 0)) (λ b. Total-pure _))

  pub Total-read_byte : Total k read_byte
  unfolding read_byte
  Total-read_byte = Total-bind _ (Total-read_n 1) (λ buf. Total-lift _ (index-ne-out_of_fuel buf 0))

  pub Total-read_short : Total k read_short
  unfolding read_short
  Total-read_short = Total-bind _ (Total-read_n 2) (λ buf. Total-pure _)

  pub Total-read_unsigned_short : Total k read_unsigned_short
  unfolding read_unsigned_short
  Total-read_unsigned_short = Total-bind _ (Total-read_n 2) (λ buf. Total-pure _)

  pub Total-read_int : Total k read_int
  unfolding read_int
  Total-read_int = Total-bind _ (Total-read_n 4) (λ buf. Total-pure _)

  pub Total-read_float : Total k read_float
  unfolding read_float
  Total-read_float = Total-bind _ (Total-read_n 4) (λ buf. Total-pure _)

  pub Total-read_long : Total k read_long
  unfolding read_long
  Total-read_long = Total-bind _ (Total-read_n 8) (λ buf. Total-pure _)

  pub Total-read_double : Total k read_double
  unfolding read_double
  Total-read_double = Total-bind _ (Total-read_n 8) (λ buf. Total-pure _)

-- Indexing a buffer several times does not need fuel either.
index_bind-ne-out_of_fuel :
    {A : Type 0} (buf : Bytes) (i : ℕ) (f : ℕ → Outcome A)
    → ((b : ℕ) → f b ≢ out_of_fuel)
    → Outcome.◌>>=◌ (index buf i) f ≢ out_of_fuel
index_bind-ne-out_of_fuel [] i f h = λ e. cc
index_bind-ne-out_of_fuel (b ∷ bs) zero f h = h b
index_bind-ne-out_of_fuel (b ∷ bs) (suc i) f h = index_bind-ne-out_of_fuel bs i f h

ok-ne-out_of_fuel : {A : Type 0} (a : A) → ok a ≢ out_of_fuel
ok-ne-out_of_fuel a e = cc

pub to_int3-ne-out_of_fuel : (buf : Bytes) (pos : ℕ) → to_int3 buf pos ≢ out_of_fuel
unfolding to_int3
to_int3-ne-out_of_fuel buf pos = index_bind-ne-out_of_fuel buf pos _ λ b0.
    index_bind-ne-out_of_fuel buf (pos + 1) _
      λ b1. index_bind-ne-out_of_fuel buf (pos + 2) _ λ b2. ok-ne-out_of_fuel _

pub to_long5-ne-out_of_fuel : (buf : Bytes) (pos : ℕ) → to_long5 buf pos ≢ out_of_fuel
unfolding to_long5
to_long5-ne-out_of_fuel buf pos = index_bind-ne-out_of_fuel buf pos _ λ b0.
    index_bind-ne-out_of_fuel buf (pos + 1) _ λ b1. index_bind-ne-out_of_fuel buf (pos + 2) _ λ b2.
      index_bind-ne-out_of_fuel buf (pos + 3) _
        λ b3. index_bind-ne-out_of_fuel buf (pos + 4) _ λ b4. ok-ne-out_of_fuel _

module _ {k : ℕ} where
  pub Total-read_int3 : Total k read_int3
  unfolding read_int3
  Total-read_int3 =
      Total-bind _ (Total-read_n 3) (λ buf. Total-lift _ (to_int3-ne-out_of_fuel buf 0))

  pub Total-read_long5 : Total k read_long5
  unfolding read_long5
  Total-read_long5 =
      Total-bind _ (Total-read_n 5) (λ buf. Total-lift _ (to_long5-ne-out_of_fuel buf 0))

  Total-read_digits : (len : ℕ) → Total k (read_digits len)
  unfolding read_digits
  Total-read_digits len = Total-if _ (Total-pure _) (
      Total-if _ (Total-bind _ Total-read_byte (λ v. Total-pure _)) (
        Total-if _ (Total-bind _ Total-read_short (λ v. Total-pure _)) (
          Total-if _ (Total-bind _ Total-read_int3 (λ v. Total-pure _)) (
            Total-if _ (Total-bind _ Total-read_int (λ v. Total-pure _))
              (Total-if _ Total-read_long5 Total-read_long)))))

  pub Total-read_decimal : Total k read_decimal
  unfolding read_decimal
  Total-read_decimal = Total-bind _ Total-read_byte Total-read_digits

  Total-read_blob_body : (len : ℕ) → Total k (read_blob_body len)
  unfolding read_blob_body
  Total-read_blob_body len = Total-if _ (Total-pure _) (
      Total-if _ (Total-bind _ Total-read_unsigned_short Total-read_n)
        (Total-if _ (Total-bind _ Total-read_int (λ n. Total-read_n _)) (Total-read_n len)))

  pub Total-read_unsigned_byte : Total k read_unsigned_byte
  unfolding read_unsigned_byte
  Total-read_unsigned_byte =
      Total-bind _ (Total-read_n 1) (λ buf. Total-lift _ (index-ne-out_of_fuel buf 0))

  pub Total-read_blob : Total k read_blob
  unfolding read_blob
  Total-read_blob = Total-bind _ Total-read_unsigned_byte Total-read_blob_body

  pub Total-read_text : Total k read_text
  unfolding read_text from_utf8
  Total-read_text = Total-bind _ Total-read_blob (λ buf. Total-if _ (Total-pure buf) (Total-fail _))

byte-Ends :
    {A : Type 0} {k : ℕ} (f : ℕ → Reader A)
    → ((b : ℕ) → Total k (f b))
    → (bs : Bytes) (o : ℕ) → length bs < suc k
    → Ends (length bs) ((read_unsigned_byte >>= f) (record { inner = bs; offset = o }))
unfolding ◌>>=◌ read_unsigned_byte read_n lift
byte-Ends f g [] o h = failed
byte-Ends f g (b ∷ bs) o h =
    let long : ltb (suc (length bs)) 1 ≡ false = ground arith in
    rw long
      (Ends-weaken (omega arith) ((g b).run (record { inner = bs; offset = o + 1 }) (omega arith)))

-- Behind a byte there is less input.
pub Total-byte :
    {A : Type 0} {k : ℕ} (f : ℕ → Reader A)
    → ((b : ℕ) → Total k (f b))
    → Total (suc k) (read_unsigned_byte >>= f)
Total-byte f g = record { run = λ din h. byte-Ends f g din.inner din.offset h }
