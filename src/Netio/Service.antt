-- ===== src/Netio/Service.antt =====
-- src/netio/service: what a client asks for and what it is sent. A handler reads its request and
-- returns the bytes that it appends to the answer; it fails only where reading does.
pub mod Request
pub mod Answer
pub mod XLogService
pub mod CounterService
pub mod ObjectService
pub mod StatusService
pub mod AlertService
pub mod KvService
use scouter_server_rust.Common.{ℕ, Option, some}
use scouter_server_rust.Word.{Bytes}
use scouter_server_rust.Outcome.{Outcome}
use scouter_server_rust.Protocol.Input.{Reader, ◌>>=◌, pure}
use scouter_server_rust.Protocol.Output.{◌▷◌, write_byte}
use scouter_server_rust.Protocol.Value.{MapValue, Value, empty, decimal, get}
use scouter_server_rust.Protocol.Pack.{Pack, map_pack, write_pack}
use scouter_server_rust.Protocol.Pack.Read.{read_pack}

abbrev pub has_next : ℕ
has_next = 3

abbrev pub no_next : ℕ
no_next = 4

unfoldable pub table_of : Pack → MapValue
table_of (map_pack p) = p.table
table_of p = empty

unfoldable pub read_table : (value_size : ℕ) → (reserve : ℕ → Outcome (Unit {0})) → Reader MapValue
read_table value_size reserve = do pack ← read_pack value_size reserve; pure (table_of pack)

-- `Some(Value::Decimal(v)) => *v`, or `other`.
abbrev pub decimal_or : ℕ → Option Value → ℕ
decimal_or other (some (decimal v)) = v
decimal_or other found = other

unfoldable pub number_or : ℕ → Bytes → MapValue → ℕ
number_or other key table = decimal_or other (get key table)

-- A table on its own in the answer. The entries of its `HashMap` are written in the order in which
-- it iterates over them: `order` gives them in that order.
unfoldable pub write_table : (order : MapValue → MapValue) → MapValue → Bytes
write_table order table =
    write_byte has_next ▷ write_pack (map_pack (record { table = order table }))
