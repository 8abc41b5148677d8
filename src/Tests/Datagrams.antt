-- ===== src/Tests/Datagrams.antt =====
-- src/netio/net_data_processor.rs at concrete datagrams.
use scouter_server_rust.Common.{
  ℕ, ◌^◌, ◌<◌, ◌≡◌, refl, arith, none, [], ◌∷◌, ◌++◌, length, ◌==◌, if◌then◌else◌,
}
use scouter_server_rust.Word.{Bytes}
use scouter_server_rust.Outcome.{Outcome, ok}
use scouter_server_rust.Assoc.{find}
use scouter_server_rust.Protocol.Output.{◌▷◌, write_int, write_short, write_blob, write_byte}
use scouter_server_rust.Protocol.Pack.{Pack, dropped_xlog, stack, type_code, write, write_pack}
use scouter_server_rust.Protocol.Pack.Valid.{as_sent}
use scouter_server_rust.Netio.MultiPacket.Assembly.{whole}
use scouter_server_rust.Netio.NetCafe.{udp_cafe_n}
use scouter_server_rust.Netio.NetDataProcessor.{process, process_all}
use scouter_server_rust.Netio.NetDataProcessor.Datagrams.{
  write_packs, all_sent, process-write_packs,
}
use scouter_server_rust.Netio.NetDataProcessor.Fragments.{datagrams, Fits, process_all-datagrams}

abbrev reserve : ℕ → Outcome (Unit {0})
reserve n = ok tt

abbrev a_drop : Pack
a_drop = dropped_xlog (record { txid = 7; gxid = 8 })

process-write_packs_example :
    process 32 reserve [] 1 2
      (write_int udp_cafe_n ▷ (write_short 2 ++ (write_packs (a_drop ∷ stack (1 ∷ []) ∷ []) ++ [])))
    ≡ ([], (all_sent (a_drop ∷ stack (1 ∷ []) ∷ []), ok tt))
process-write_packs_example =
    process-write_packs 32 reserve [] 1 2 udp_cafe_n (a_drop ∷ stack (1 ∷ []) ∷ []) [] refl
      (omega arith) ((omega arith, omega arith), (omega arith, tt))

-- A pack of three bytes in two fragments.
abbrev frag : ℕ → Bytes
frag i = if i == 0 then 62 ∷ 1 ∷ [] else 1 ∷ []

frag-short : (i : ℕ) → length (frag i) < 2 ^ 31
frag-short i = ground arith

fits : Fits 9 5 2 frag
fits = record {
  hash_word = omega arith;
  id_word = omega arith;
  small = omega arith;
  blobs = λ i h. frag-short i;
}

parts : whole frag 2 0 ≡ write_pack (stack (1 ∷ []))
unfolding whole write_pack type_code write_byte write write_blob
parts = refl

process_all-datagrams_example :
    ((process_all 32 reserve [] (datagrams 9 5 2 frag ((10, 11, 1) ∷ (20, 21, 0) ∷ []))).1
      ≡ as_sent (stack (1 ∷ [])) ∷ [])
    × (find 5 (process_all 32 reserve [] (datagrams 9 5 2 frag ((10, 11, 1) ∷ (20, 21, 0) ∷ []))).0
        ≡ none)
unfolding find
process_all-datagrams_example =
    process_all-datagrams 9 5 2 frag 32 reserve 0 (omega arith) fits (stack (1 ∷ [])) (omega arith)
      parts [] (10, 11, 1) ((20, 21, 0) ∷ []) refl
      ((omega arith, omega arith, omega arith), ((omega arith, omega arith, omega arith), tt))
      ((omega arith, tt), (tt, tt)) (omega arith)
