-- ===== src/Netio/Service/Request.antt =====
-- What a handler reads of a well-formed request.
use scouter_server_rust.Common.{ℕ}
use scouter_server_rust.Outcome.{Outcome}
use scouter_server_rust.Protocol.Reads.{Reads, Reads-then, Reads-pure}
use scouter_server_rust.Protocol.Value.{MapValue}
use scouter_server_rust.Protocol.Pack.{map_pack, write_pack}
use scouter_server_rust.Protocol.Pack.Valid.{IsValid}
use scouter_server_rust.Protocol.Pack.RoundTrip.{read_pack-write_pack}
use scouter_server_rust.Netio.Service.{read_table, table_of}

module _ (value_size : ℕ) (reserve : ℕ → Outcome (Unit {0})) where
  pub read_table-Reads :
      (table : MapValue)
      → IsValid value_size reserve (map_pack (record { table = table }))
      → Reads
          (read_table value_size reserve)
          (write_pack (map_pack (record { table = table })))
          table
  unfolding read_table table_of
  read_table-Reads table valid =
      Reads-then _
        (read_pack-write_pack value_size reserve (map_pack (record { table = table })) valid)
        (Reads-pure table)
