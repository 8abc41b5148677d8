-- ===== src/Netio/Service/Answer.antt =====
-- How a client reads an answer: a pack behind every HAS_NEXT, up to the NO_NEXT that
-- src/netio/tcp/service_worker.rs writes behind the answer.
use scouter_server_rust.Common.{
  ℕ, zero, suc, ◌≡◌, sym, append_assoc, List, [], ◌∷◌, ◌++◌, ◌==◌, if◌then◌else◌,
}
use scouter_server_rust.Word.{Bytes}
use scouter_server_rust.Outcome.{Outcome, out_of_fuel, unknown_pack_type}
use scouter_server_rust.Protocol.Input.{Reader, ◌>>=◌, pure, fail, lift, read_unsigned_byte}
use scouter_server_rust.Protocol.Output.{◌▷◌, write_byte}
use scouter_server_rust.Protocol.Reads.{Reads, Reads-bind, Reads-bytes, Reads-then, Reads-pure}
use scouter_server_rust.Protocol.Numbers.{read_unsigned_byte-Reads}
use scouter_server_rust.Protocol.Value.{MapValue, get}
use scouter_server_rust.Protocol.Pack.{Pack, map_pack, write_pack}
use scouter_server_rust.Protocol.Pack.Read.{read_pack}
use scouter_server_rust.Protocol.Pack.Valid.{IsValid, as_sent}
use scouter_server_rust.Protocol.Pack.RoundTrip.{read_pack-write_pack}
use scouter_server_rust.Netio.Service.{has_next, no_next, write_table}

module _ (value_size : ℕ) (reserve : ℕ → Outcome (Unit {0})) where
  -- An order in which the entries of a map are gone through: it neither adds nor loses one.
  pub record IsOrder (order : MapValue → MapValue) : Type 0 where
    pub same : (k : Bytes) (m : MapValue) → get k (order m) ≡ get k m
    pub valid :
        (m : MapValue)
        → IsValid value_size reserve (map_pack (record { table = m }))
        → IsValid value_size reserve (map_pack (record { table = order m }))

  -- The fuel is the number of flags.
  unfoldable pub read_answer : ℕ → Reader (List Pack)
  read_answer zero = lift out_of_fuel
  read_answer (suc n) = do
    flag ← read_unsigned_byte
    if flag == 3
        then (do p ← read_pack value_size reserve; ps ← read_answer n; pure (p ∷ ps))
        else if flag == 4
        then pure []
        else fail (unknown_pack_type flag)

  pub read_answer-end : (n : ℕ) → Reads (read_answer (suc n)) (write_byte no_next) []
  unfolding read_answer
  read_answer-end n = Reads-then _ (read_unsigned_byte-Reads no_next) (Reads-pure [])

  pub read_answer-next :
      (n : ℕ) (p : Pack) (bs : Bytes) (ps : List Pack)
      → IsValid value_size reserve p
      → Reads (read_answer n) bs ps
      → Reads (read_answer (suc n)) (write_byte has_next ▷ (write_pack p ++ bs)) (as_sent p ∷ ps)
  unfolding read_answer
  read_answer-next n p bs ps valid r = Reads-bind _ (read_unsigned_byte-Reads has_next) (
      Reads-bind _ (read_pack-write_pack value_size reserve p valid)
        (Reads-then _ r (Reads-pure (as_sent p ∷ ps))))

  -- A table at the end of an answer.
  pub read_answer-table :
      (order : MapValue → MapValue) (m : MapValue)
      → IsOrder order
      → IsValid value_size reserve (map_pack (record { table = m }))
      → Reads
          (read_answer 2)
          (write_table order m ++ write_byte no_next)
          (map_pack (record { table = order m }) ∷ [])
  unfolding write_table
  read_answer-table order m o valid =
      let table = map_pack (record { table = order m }) in
      Reads-bytes (sym (append_assoc (write_byte has_next) (write_pack table) (write_byte no_next)))
        (read_answer-next 1 table (write_byte no_next) [] (o.valid m valid) (read_answer-end 0))
