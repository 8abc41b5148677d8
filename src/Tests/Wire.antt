-- ===== src/Tests/Wire.antt =====
-- src/protocol at concrete bytes.
use scouter_server_rust.Common.{ℕ, ◌≢◌, refl, arith, [], ◌∷◌}
use scouter_server_rust.Outcome.{Outcome, ok, out_of_fuel}
use scouter_server_rust.Protocol.Input.{from_bytes, read_decimal, read_blob}
use scouter_server_rust.Protocol.Output.{write_decimal, write_blob}
use scouter_server_rust.Protocol.Reads.{Reads}
use scouter_server_rust.Protocol.Utf8.{is_utf8}
use scouter_server_rust.Protocol.Decimal.{read_decimal-write_decimal}
use scouter_server_rust.Protocol.Blobs.{read_blob-write_blob}
use scouter_server_rust.Protocol.Value.{
  MapValue, map, entry, empty, decimal, values, cons, nil, text, write_value,
}
use scouter_server_rust.Protocol.Value.Read.{read_value}
use scouter_server_rust.Protocol.Value.RoundTrip.{read_value-write_value}
use scouter_server_rust.Protocol.Value.Total.{read_value-ne-out_of_fuel}
use scouter_server_rust.Protocol.Pack.{Pack, alert, write_pack}
use scouter_server_rust.Protocol.Pack.Read.{read_pack}
use scouter_server_rust.Protocol.Pack.Valid.{as_sent}
use scouter_server_rust.Protocol.Pack.RoundTrip.{read_pack-write_pack}

abbrev tags : MapValue
tags = entry (97 ∷ []) (values (cons (decimal 300) (cons (text (98 ∷ [])) nil))) empty

read_value-write_value_example : Reads (read_value 32) (write_value (map tags)) (map tags)
unfolding is_utf8
read_value-write_value_example = read_value-write_value 32 (map tags) (
  omega arith,
  (
    (refl, omega arith),
    (omega arith, omega arith, (omega arith, ((refl, omega arith), tt))),
    refl,
    tt,
  ),
)

read_value-ne-out_of_fuel_example : read_value 32 (from_bytes (80 ∷ 1 ∷ [])) ≢ out_of_fuel
read_value-ne-out_of_fuel_example = read_value-ne-out_of_fuel 32 (from_bytes (80 ∷ 1 ∷ []))

read_decimal-write_decimal_example : Reads read_decimal (write_decimal 40000) 40000
read_decimal-write_decimal_example = read_decimal-write_decimal 40000 (omega arith)

read_blob-write_blob_example : Reads read_blob (write_blob (1 ∷ 2 ∷ [])) (1 ∷ 2 ∷ [])
read_blob-write_blob_example = read_blob-write_blob (1 ∷ 2 ∷ []) (omega arith)

abbrev an_alert : Pack
an_alert = alert (record {
  time = 1700000000000;
  obj_type = 106 ∷ [];
  obj_hash = 77;
  level = 2;
  title = 116 ∷ [];
  message = [];
  tags = empty;
})

-- A map that can be reserved.
abbrev reserve : ℕ → Outcome (Unit {0})
reserve n = ok tt

read_pack-write_pack_example : Reads (read_pack 32 reserve) (write_pack an_alert) (as_sent an_alert)
unfolding is_utf8
read_pack-write_pack_example = read_pack-write_pack 32 reserve an_alert (
  omega arith,
  (refl, omega arith),
  omega arith,
  omega arith,
  (refl, omega arith),
  (refl, omega arith),
  (omega arith, tt),
)
