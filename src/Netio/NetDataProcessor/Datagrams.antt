-- ===== src/Netio/NetDataProcessor/Datagrams.antt =====
-- Datagrams of whole packs: what is dispatched is what was sent.
use scouter_server_rust.Common.{
  ℕ, ◌+◌, ◌^◌, ◌<◌, ◌≡◌, refl, ap, ◌∙◌, arith, true, false, ◌||◌, List, [], ◌∷◌, ◌++◌, append_assoc,
  length, ◌==◌, All,
}
use scouter_server_rust.Word.{Bytes, as_16}
use scouter_server_rust.Outcome.{Outcome, ok}
use scouter_server_rust.Protocol.Input.{DataInputX, from_bytes}
use scouter_server_rust.Protocol.Output.{◌▷◌, write_int, write_short}
use scouter_server_rust.Protocol.Reads.{at}
use scouter_server_rust.Protocol.Numbers.{read_int-Reads, read_short-Reads}
use scouter_server_rust.Protocol.Pack.{Pack, write_pack}
use scouter_server_rust.Protocol.Pack.Read.{read_pack}
use scouter_server_rust.Protocol.Pack.Valid.{as_sent, IsValid}
use scouter_server_rust.Protocol.Pack.RoundTrip.{read_pack-write_pack}
use scouter_server_rust.Netio.MultiPacket.{Entries, rounds}
use scouter_server_rust.Netio.NetCafe.{udp_cafe, udp_cafe_n, udp_java, udp_java_n}
use scouter_server_rust.Netio.NetDataProcessor.{
  Effects, process_pack, done, process_cafe, process_packs, process_count, process_cafe_n,
  process_kind, process,
}

abbrev pub all_sent : List Pack → List Pack
all_sent [] = []
all_sent (p ∷ ps) = as_sent p ∷ all_sent ps

unfoldable pub write_packs : List Pack → Bytes
write_packs [] = []
write_packs (p ∷ ps) = write_pack p ▷ write_packs ps

module _ (value_size : ℕ) (reserve : ℕ → Outcome (Unit {0})) where
  -- What `process` does once it has read the number in front.
  pub process-kind :
      (entries : Entries) (now created cafe : ℕ) (rest : Bytes)
      → cafe < 2 ^ 32
      → process value_size reserve entries now created (write_int cafe ▷ rest)
        ≡ process_kind value_size reserve entries now created (ok (cafe, at rest 4))
  unfolding process from_bytes write_int
  process-kind entries now created cafe rest h =
      ap (process_kind value_size reserve entries now created) ((read_int-Reads cafe h).run rest 0)

  pub process_cafe_lem :
      (p : Pack) (rest : Bytes) (o : ℕ)
      → IsValid value_size reserve p
      → process_cafe value_size reserve (at (write_pack p ++ rest) o) ≡ (as_sent p ∷ [], ok tt)
  unfolding process_cafe process_pack
  process_cafe_lem p rest o h =
      ap (process_pack done) ((read_pack-write_pack value_size reserve p h).run rest o)

  process_packs_lem :
      (ps : List Pack) (rest : Bytes) (o : ℕ)
      → All (IsValid value_size reserve) ps
      → process_packs value_size reserve (length ps) (at (write_packs ps ++ rest) o)
        ≡ (all_sent ps, ok tt)
  unfolding process_packs write_packs process_pack
  process_packs_lem [] rest o h = refl
  process_packs_lem (p ∷ ps) rest o (h, hs) =
      ap
        (λ (bs : Bytes).
          process_pack (process_packs value_size reserve (length ps))
            (read_pack value_size reserve (at bs o)))
        (append_assoc (write_pack p) (write_packs ps) rest)
      ∙ ap (process_pack (process_packs value_size reserve (length ps)))
          ((read_pack-write_pack value_size reserve p h).run (write_packs ps ++ rest) o)
      ∙ ap (λ (r : Effects). (as_sent p ∷ r.0, r.1))
          (process_packs_lem ps rest (o + length (write_pack p)) hs)

  -- A datagram with the number of a single pack and a pack, as written, dispatches the pack as it is
  -- sent, whatever follows it, and leaves the fragments alone.
  pub process-write_pack :
      (entries : Entries) (now created cafe : ℕ) (p : Pack) (rest : Bytes)
      → (cafe == udp_cafe) || (cafe == udp_java) ≡ true
      → IsValid value_size reserve p
      → process value_size reserve entries now created (write_int cafe ▷ (write_pack p ++ rest))
        ≡ (entries, (as_sent p ∷ [], ok tt))
  unfolding process_kind
  process-write_pack entries now created cafe p rest known h =
      process-kind entries now created cafe _ (ground arith)
      ∙ rw known (ap (λ (r : Effects). (entries, r)) (process_cafe_lem p rest 4 h))

  -- A datagram with the number of several packs, a count below 2 ^ 15 and as many packs, as written,
  -- dispatches all of them in their order.
  pub process-write_packs :
      (entries : Entries) (now created cafe : ℕ) (ps : List Pack) (rest : Bytes)
      → (cafe == udp_cafe_n) || (cafe == udp_java_n) ≡ true
      → length ps < 2 ^ 15
      → All (IsValid value_size reserve) ps
      → process value_size reserve entries now created
          (write_int cafe ▷ (write_short (length ps) ++ (write_packs ps ++ rest)))
        ≡ (entries, (all_sent ps, ok tt))
  unfolding process_kind process_cafe_n process_count
  process-write_packs entries now created cafe ps rest known short h =
      let single : (cafe == udp_cafe) || (cafe == udp_java) ≡ false = ground arith in
      let count : as_16 (length ps) ≡ length ps = omega arith in
      let all : rounds (length ps) ≡ length ps = ground arith in
      process-kind entries now created cafe _ (ground arith)
      ∙ rw (single, known)
          (ap (λ (r : Outcome (ℕ × DataInputX)). (entries, process_count value_size reserve r))
              ((read_short-Reads (length ps)).run (write_packs ps ++ rest) 4)
            ∙ rw (count, all) (ap (λ (r : Effects). (entries, r)) (process_packs_lem ps rest _ h)))
