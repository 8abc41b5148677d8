-- ===== src/Netio/NetDataProcessor.antt =====
-- src/netio/net_data_processor.rs: what a datagram does. Datagrams are processed by tasks that share
-- the map of fragments, which each of them changes by one call of `add`: an order of these calls is
-- an order of the datagrams. `process_pack` prints and dispatches; what is printed is left out.
pub mod Datagrams
pub mod Fragments
use scouter_server_rust.Common.{
  ℕ, zero, suc, Bool, ◌||◌, Option, none, some, List, [], ◌∷◌, ◌++◌, ◌==◌, if◌then◌else◌,
}
use scouter_server_rust.Word.{Bytes}
use scouter_server_rust.Outcome.{Outcome, ok, err, panic, out_of_fuel}
use scouter_server_rust.Protocol.Input.{
  DataInputX, Reader, ◌>>=◌, pure, from_bytes, read_int, read_long, read_short, read_blob,
}
use scouter_server_rust.Protocol.Pack.{Pack}
use scouter_server_rust.Protocol.Pack.Read.{read_pack}
use scouter_server_rust.Netio.MultiPacket.{Entries, rounds, add}
use scouter_server_rust.Netio.NetCafe.{
  udp_cafe, udp_cafe_n, udp_cafe_mtu, udp_java, udp_java_n, udp_java_mtu,
}

-- The packs that are dispatched, in order, and how the processing ends: an error leaves those before it
-- dispatched.
abbrev pub Effects : Type 0
Effects = List Pack × Outcome (Unit {0})

-- The numbers of a fragment, and its bytes.
pub record Fragment : Type 0 where
  pub packet_id : ℕ
  pub total : ℕ
  pub num : ℕ
  pub bytes : Bytes

-- `let pack = din.read_pack()?; self.process_pack(pack, addr).await;`, and what follows.
unfoldable pub process_pack : (DataInputX → Effects) → Outcome (Pack × DataInputX) → Effects
process_pack next (ok (pack, din)) = let (packs, result) = next din in (pack ∷ packs, result)
process_pack next (err e) = ([], err e)
process_pack next panic = ([], panic)
process_pack next out_of_fuel = ([], out_of_fuel)

abbrev pub done : DataInputX → Effects
done din = ([], ok tt)

unfoldable pub read_fragment : Reader Fragment
read_fragment = do
  obj_hash ← read_int
  packet_id ← read_long
  total ← read_short
  num ← read_short
  bytes ← read_blob
  pure (record { packet_id = packet_id; total = total; num = num; bytes = bytes })

-- `value_size` and `reserve` are those of the packs' values.
module _ (value_size : ℕ) (reserve : ℕ → Outcome (Unit {0})) where
  unfoldable pub process_cafe : DataInputX → Effects
  process_cafe din = process_pack done (read_pack value_size reserve din)

  -- `for _ in 0..n`
  unfoldable pub process_packs : ℕ → DataInputX → Effects
  process_packs zero din = done din
  process_packs (suc n) din = process_pack (process_packs n) (read_pack value_size reserve din)

  unfoldable pub process_count : Outcome (ℕ × DataInputX) → Effects
  process_count (ok (n, din)) = process_packs (rounds n) din
  process_count (err e) = ([], err e)
  process_count panic = ([], panic)
  process_count out_of_fuel = ([], out_of_fuel)

  unfoldable pub process_cafe_n : DataInputX → Effects
  process_cafe_n din = process_count (read_short din)

  unfoldable pub process_assembled : Option Bytes → Effects
  process_assembled none = ([], ok tt)
  process_assembled (some assembled) = process_cafe (from_bytes assembled)

  -- `now` and `created` are the two readings of the clock.
  unfoldable pub process_fragment :
      Entries → (now created : ℕ) → Outcome (Fragment × DataInputX) → Entries × Effects
  process_fragment entries now created (ok (f, din)) =
      let (after, assembled) = add entries now created f.packet_id f.total f.num f.bytes in
      (after, process_assembled assembled)
  process_fragment entries now created (err e) = (entries, ([], err e))
  process_fragment entries now created panic = (entries, ([], panic))
  process_fragment entries now created out_of_fuel = (entries, ([], out_of_fuel))

  unfoldable pub process_cafe_mtu : Entries → (now created : ℕ) → DataInputX → Entries × Effects
  process_cafe_mtu entries now created din =
      process_fragment entries now created (read_fragment din)

  -- The `match` on the number in front; one that is not known does nothing.
  unfoldable pub process_kind :
      Entries → (now created : ℕ) → Outcome (ℕ × DataInputX) → Entries × Effects
  process_kind entries now created (ok (cafe, din)) =
      if (cafe == udp_cafe) || (cafe == udp_java)
      then (entries, process_cafe din)
      else if (cafe == udp_cafe_n) || (cafe == udp_java_n)
      then (entries, process_cafe_n din)
      else if (cafe == udp_cafe_mtu) || (cafe == udp_java_mtu)
      then process_cafe_mtu entries now created din
      else (entries, ([], ok tt))
  process_kind entries now created (err e) = (entries, ([], err e))
  process_kind entries now created panic = (entries, ([], panic))
  process_kind entries now created out_of_fuel = (entries, ([], out_of_fuel))

  unfoldable pub process : Entries → (now created : ℕ) → Bytes → Entries × Effects
  process entries now created bytes = process_kind entries now created (read_int (from_bytes bytes))

  -- Datagrams one after the other, each with its two readings of the clock.
  unfoldable pub process_all : Entries → List (ℕ × ℕ × Bytes) → Entries × List Pack
  process_all entries [] = (entries, [])
  process_all entries ((now, created, bytes) ∷ more) =
      let (after, (packs, result)) = process entries now created bytes in
      let (last, later) = process_all after more in (last, packs ++ later)
