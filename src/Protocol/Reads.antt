-- ===== src/Protocol/Reads.antt =====
-- The relation in which round trips are stated, with a rule for each way to build a reader.
use scouter_server_rust.Common.{
  Bool, true, if◌then◌else◌, ℕ, ◌+◌, ◌≤◌, ◌≡◌, refl, subst, arith, false, [], ◌++◌, append_assoc,
  length, length-append, take-append_length, drop-append_length, ltb,
}
use scouter_server_rust.Word.{Bytes}
use scouter_server_rust.Outcome.{ok}
use scouter_server_rust.Protocol.Input.{DataInputX, Reader, ◌>>=◌, pure, lift, isize_max, read_n}

-- A reader at the front of `bs`, after `o` bytes.
abbrev pub at : Bytes → ℕ → DataInputX
at bs o = record { inner = bs; offset = o }

-- Whatever follows `bs`, the reader takes just `bs` and returns `a`.
pub record Reads {A : Type 0} (p : Reader A) (bs : Bytes) (a : A) : Type 0 where
  pub run : (rest : Bytes) (o : ℕ) → p (at (bs ++ rest) o) ≡ ok (a, at rest (o + length bs))

not_short : (xs ys : Bytes) → ltb (length (xs ++ ys)) (length xs) ≡ false
not_short xs ys = rw (length-append xs ys) (ground arith)

pub read_n-Reads : (bs : Bytes) → length bs ≤ isize_max → Reads (read_n (length bs)) bs bs
unfolding read_n
read_n-Reads bs h = record {
  run = λ rest o.
      let fits : ltb isize_max (length bs) ≡ false = ground arith in
      rw (fits, not_short bs rest, take-append_length bs rest, drop-append_length bs rest);
}

module _ {A B : Type 0} {a : A} {b : B} where
  pub Reads-bind :
      {m : Reader A} (f : A → Reader B) {xs ys : Bytes}
      → Reads m xs a
      → Reads (f a) ys b
      → Reads (m >>= f) (xs ++ ys) b
  unfolding ◌>>=◌
  Reads-bind f {xs = xs} {ys = ys} p q = record {
    run = λ rest o.
        rw
          (
            append_assoc xs ys rest,
            p.run (ys ++ rest) o,
            q.run rest (o + length xs),
            length-append xs ys,
          )
          (ground arith);
  }

  -- The last step of a reader may take nothing.
  pub Reads-then :
      {m : Reader A} (f : A → Reader B) {xs : Bytes}
      → Reads m xs a
      → Reads (f a) [] b
      → Reads (m >>= f) xs b
  unfolding ◌>>=◌
  Reads-then f {xs = xs} p q = record {
    run = λ rest o. rw (p.run rest o, q.run rest (o + length xs)) (ground arith);
  }

pub Reads-pure : {A : Type 0} (a : A) → Reads (pure a) [] a
unfolding pure
Reads-pure a = record { run = λ rest o. ground arith }

pub Reads-lift : {A : Type 0} (a : A) → Reads (lift (ok a)) [] a
unfolding lift
Reads-lift a = record { run = λ rest o. ground arith }

pub Reads-value :
    {A : Type 0} {p : Reader A} {bs : Bytes} {a b : A} → a ≡ b → Reads p bs a → Reads p bs b
Reads-value {p = p} {bs = bs} e r = subst (λ x. Reads p bs x) e r

pub Reads-bytes :
    {A : Type 0} {p : Reader A} {bs cs : Bytes} {a : A} → bs ≡ cs → Reads p bs a → Reads p cs a
Reads-bytes {p = p} {a = a} e r = subst (λ x. Reads p x a) e r

-- Where the writer branches.
pub Reads-if :
    {A : Type 0} {p : Reader A} {xs ys : Bytes} {a : A} (b : Bool)
    → (b ≡ true → Reads p xs a)
    → (b ≡ false → Reads p ys a)
    → Reads p (if b then xs else ys) a
Reads-if true f g = f refl
Reads-if false f g = g refl
