-- ===== src/Protocol/Pack/Envelope.antt =====
-- Fields behind a blob's length, in src/protocol/pack/mod.rs: `read_blob`, then a reader over the
-- blob, in which later fields are read only if there is something left.
use scouter_server_rust.Common.{
  ℕ, ◌<◌, ◌^◌, ◌≡◌, refl, arith, Bool, true, [], ◌∷◌, ◌++◌, length, length-append, ltb,
  if◌then◌else◌,
}
use scouter_server_rust.Word.{Bytes, sign_extend32, IsByte}
use scouter_server_rust.Outcome as Outcome
use scouter_server_rust.Outcome.{ok}
use scouter_server_rust.Protocol.Input.{
  DataInputX, Reader, ◌>>=◌, lift, from_bytes, available, read_blob, read_byte,
}
use scouter_server_rust.Protocol.Output.{write_blob, write_byte, write_boolean, write_decimal}
use scouter_server_rust.Protocol.Reads.{Reads, Reads-then, Reads-value, at, Reads-lift}
use scouter_server_rust.Protocol.Numbers.{read_byte-Reads}
use scouter_server_rust.Protocol.Blobs.{read_blob-write_blob}
use scouter_server_rust.Protocol.Value.{write_i32}

-- What is left of the blob is dropped.
unfoldable pub read_envelope : {A : Type 0} → Reader A → Reader A
read_envelope inside = do
  blob ← read_blob
  lift (Outcome.◌>>=◌ (inside (from_bytes blob)) λ (a, left). ok a)

unfoldable pub when_available : {A : Type 0} → A → Reader A → Reader A
when_available unread more d = if ltb 0 (available d) then more d else ok (unread, d)

module _ {A : Type 0} {a : A} where
  pub Reads-group :
      (b : A) {p : Reader A} {xs : Bytes}
      → 0 < length xs
      → Reads p xs a
      → Reads (when_available b p) xs a
  unfolding when_available available
  Reads-group b {xs = xs} some r = record {
    run = λ rest o.
        let left : ltb 0 (length (xs ++ rest)) ≡ true = rw length-append (ground arith) in
        rw left (r.run rest o);
  }

  -- What the reader of the blob returns is what the reader of the envelope returns.
  pub Reads-opened :
      (p : Reader A) (blob : Bytes) {left : DataInputX}
      → p (at blob 0) ≡ ok (a, left)
      → length blob < 2 ^ 31
      → Reads (read_envelope p) (write_blob blob) a
  unfolding read_envelope from_bytes
  Reads-opened p blob r h = Reads-then _ (read_blob-write_blob blob h) (rw r (Reads-lift a))

  pub Reads-envelope :
      {p : Reader A} {xs : Bytes} (extra : Bytes)
      → Reads p xs a
      → length (xs ++ extra) < 2 ^ 31
      → Reads (read_envelope p) (write_blob (xs ++ extra)) a
  Reads-envelope {xs = xs} extra r h = Reads-opened _ (xs ++ extra) (r.run extra 0) h

-- Nothing is read from nothing.
pub when_available-nothing :
    {A : Type 0} (b : A) (p : Reader A) (o : ℕ) → when_available b p (at [] o) ≡ ok (b, at [] o)
unfolding when_available available
when_available-nothing b p o = refl

pub read_i8-Reads : (v : ℕ) → IsByte v → Reads read_byte (write_byte (sign_extend32 8 v)) v
read_i8-Reads v h = Reads-value (ground arith) (read_byte-Reads (sign_extend32 8 v))

pub write_byte-pos : (v : ℕ) → 0 < length (write_byte v)
unfolding write_byte
write_byte-pos v = omega arith

pub write_boolean-pos : (v : Bool) → 0 < length (write_boolean v)
unfolding write_boolean
write_boolean-pos v = omega arith

pub write_blob-pos : (bs : Bytes) → 0 < length (write_blob bs)
unfolding write_blob write_byte
write_blob-pos [] = omega arith
write_blob-pos (b ∷ bs) = ground arith

pub write_i32-pos : (v : ℕ) → 0 < length (write_i32 v)
unfolding write_i32 write_decimal write_byte
write_i32-pos v = ground arith
