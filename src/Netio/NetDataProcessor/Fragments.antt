-- ===== src/Netio/NetDataProcessor/Fragments.antt =====
-- Datagrams with the fragments of a pack: the pack is dispatched once, when the last one arrives.
use scouter_server_rust.Common.{
  ℕ, zero, suc, ◌^◌, ◌<◌, ◌≡◌, refl, sym, ap, ◌∙◌, arith, Option, none, List, [], ◌∷◌, ◌++◌,
  append-nil, length, All,
}
use scouter_server_rust.Word.{Bytes, IsWord32, IsWord64, as_16}
use scouter_server_rust.Outcome.{Outcome}
use scouter_server_rust.Assoc.{find}
use scouter_server_rust.Protocol.Input.{from_bytes}
use scouter_server_rust.Protocol.Output.{◌▷◌, write_int, write_long, write_short, write_blob}
use scouter_server_rust.Protocol.Reads.{Reads, at, Reads-bind, Reads-then, Reads-pure, Reads-value}
use scouter_server_rust.Protocol.Numbers.{read_int-Reads, read_long-Reads, read_short-Reads}
use scouter_server_rust.Protocol.Blobs.{read_blob-write_blob}
use scouter_server_rust.Protocol.Pack.{Pack, write_pack}
use scouter_server_rust.Protocol.Pack.Valid.{as_sent, IsValid}
use scouter_server_rust.Netio.MultiPacket.{Entries, add}
use scouter_server_rust.Netio.MultiPacket.Assembly.{whole}
use scouter_server_rust.Netio.MultiPacket.Collect.{feed, answers, Timely, Distinct, feed_lem}
use scouter_server_rust.Netio.NetCafe.{udp_cafe_mtu}
use scouter_server_rust.Netio.NetDataProcessor.{
  Effects, read_fragment, process_cafe, process_assembled, process_fragment, process_cafe_mtu,
  process_kind, process, process_all,
}
use scouter_server_rust.Netio.NetDataProcessor.Datagrams.{process-kind, process_cafe_lem}

module _ (obj_hash id n : ℕ) (frag : ℕ → Bytes) where
  abbrev fragment_bytes : ℕ → Bytes
  fragment_bytes num =
      write_int obj_hash
      ++ (write_long id ++ (write_short n ++ (write_short num ++ write_blob (frag num))))

  -- The datagram of a fragment, as an agent sends it.
  unfoldable pub datagram : ℕ → Bytes
  datagram num = write_int udp_cafe_mtu ▷ fragment_bytes num

  -- The datagrams of the fragments that arrive, in their order.
  unfoldable pub datagrams : List (ℕ × ℕ × ℕ) → List (ℕ × ℕ × Bytes)
  datagrams [] = []
  datagrams ((now, created, num) ∷ more) = (now, created, datagram num) ∷ datagrams more

  -- The numbers fit their fields.
  pub record Fits : Type 0 where
    pub hash_word : IsWord32 obj_hash
    pub id_word : IsWord64 id
    pub small : n < 2 ^ 15
    pub blobs : (i : ℕ) → i < n → length (frag i) < 2 ^ 31

  read_fragment-Reads :
      (num : ℕ)
      → Fits
      → num < n
      → Reads read_fragment
          (fragment_bytes num)
          (record { packet_id = id; total = n; num = num; bytes = frag num })
  unfolding read_fragment
  read_fragment-Reads num fits lt =
      let total : as_16 n ≡ n = omega (arith, fits.small) in
      let number : as_16 num ≡ num = omega (arith, fits.small) in
      Reads-bind _ (read_int-Reads obj_hash fits.hash_word) (
        Reads-bind _ (read_long-Reads id fits.id_word) (
          Reads-bind _ (Reads-value total (read_short-Reads n)) (
            Reads-bind _ (Reads-value number (read_short-Reads num))
              (Reads-then _ (read_blob-write_blob (frag num) (fits.blobs num lt)) (Reads-pure _)))))

  module _ (value_size : ℕ) (reserve : ℕ → Outcome (Unit {0})) where
    -- A datagram of a fragment adds it to the map.
    process-datagram :
        (entries : Entries) (now created num : ℕ)
        → Fits
        → num < n
        → process value_size reserve entries now created (datagram num) ≡ (
          (add entries now created id n num (frag num)).0,
          process_assembled value_size reserve (add entries now created id n num (frag num)).1,
        )
    unfolding datagram process_kind process_cafe_mtu process_fragment
    process-datagram entries now created num fits lt =
        process-kind value_size reserve entries now created udp_cafe_mtu (fragment_bytes num)
          (omega arith)
        ∙ ap (process_fragment value_size reserve entries now created) (
            ap (λ (bs : Bytes). read_fragment (at bs 4)) (sym (append-nil (fragment_bytes num)))
            ∙ (read_fragment-Reads num fits lt).run [] 4)

    -- What is dispatched for the results of the map.
    dispatched : List (Option Bytes) → List Pack
    dispatched [] = []
    dispatched (o ∷ os) = (process_assembled value_size reserve o).0 ++ dispatched os

    module _ (start : ℕ) (small : n < 2 ^ 15) (fits : Fits) where
      process_all-feed :
          (entries : Entries) (arrivals : List (ℕ × ℕ × ℕ))
          → All (Timely n frag start small) arrivals
          → process_all value_size reserve entries (datagrams arrivals) ≡ (
            (feed n frag start small entries id arrivals).0,
            dispatched (feed n frag start small entries id arrivals).1,
          )
      unfolding process_all datagrams feed dispatched
      process_all-feed entries [] h = refl
      process_all-feed entries ((now, created, num) ∷ more) ((lt, t, s), h) =
          rw
            (
              process-datagram entries now created num fits lt,
              process_all-feed (add entries now created id n num (frag num)).0 more h,
            )
            refl

      module _ (p : Pack) (valid : IsValid value_size reserve p)
          (parts : whole frag n 0 ≡ write_pack p) where
        dispatched-answers : (k : ℕ) → dispatched (answers n frag start small k) ≡ as_sent p ∷ []
        unfolding dispatched process_assembled from_bytes
        dispatched-answers zero =
            ap (λ (bs : Bytes). (process_cafe value_size reserve (at bs 0)).0 ++ [])
              (parts ∙ sym (append-nil (write_pack p)))
            ∙ ap (λ (r : Effects). r.0 ++ []) (process_cafe_lem value_size reserve p [] 0 valid)
        dispatched-answers (suc k) = dispatched-answers k

        -- A pack whose written bytes are cut into n fragments, 0 < n < 2 ^ 15, none of which was
        -- there: their datagrams, each once, in any order and within a second, dispatch the pack as
        -- it is sent, once, and leave nothing of it in the map.
        pub process_all-datagrams :
            (entries : Entries) (a : ℕ × ℕ × ℕ) (more : List (ℕ × ℕ × ℕ))
            → find id entries ≡ none
            → All (Timely n frag start small) (a ∷ more)
            → Distinct n frag start small (a ∷ more)
            → suc (length more) ≡ n
            → ((process_all value_size reserve entries (datagrams (a ∷ more))).1 ≡ as_sent p ∷ [])
              × (find id (process_all value_size reserve entries (datagrams (a ∷ more))).0 ≡ none)
        process_all-datagrams entries a more new timely distinct count =
            let (results, gone) =
              feed_lem n frag start small entries id a more new timely distinct count in
            let run = process_all-feed entries (a ∷ more) timely in
            (
              ap (λ (r : Entries × List Pack). r.1) run
                  ∙ ap dispatched results
                  ∙ dispatched-answers (length more),
              ap (λ (r : Entries × List Pack). find id r.0) run ∙ gone,
            )
