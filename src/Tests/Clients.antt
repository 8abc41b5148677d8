-- ===== src/Tests/Clients.antt =====
-- The services for clients at concrete requests.
use scouter_server_rust.Common.{ℕ, ◌≡◌, refl, sym, ap, arith, some, [], ◌∷◌, ◌++◌, length-append}
use scouter_server_rust.Word.{Bytes, sign_extend}
use scouter_server_rust.Outcome.{Outcome, ok}
use scouter_server_rust.Util.Hash.{hash_bytes, crc_bytes, crc_byte}
use scouter_server_rust.Protocol.Utf8.{is_utf8}
use scouter_server_rust.Protocol.Output.{write_byte}
use scouter_server_rust.Protocol.Reads.{Reads}
use scouter_server_rust.Protocol.Value.{MapValue, empty, entry, decimal, text, get}
use scouter_server_rust.Protocol.Value.Valid.{IsValidMap}
use scouter_server_rust.Protocol.Pack.{PerfCounterPack, map_pack, xlog, write_pack}
use scouter_server_rust.Protocol.Pack.XLog.{write_fields}
use scouter_server_rust.Protocol.Pack.Valid.{IsValid}
use scouter_server_rust.Core.XLogCache.{latest_index}
use scouter_server_rust.Core.XLogCache.Polling.{latest_index_lem}
use scouter_server_rust.Core.XLogCore.{cached}
use scouter_server_rust.Netio.Service.{number_or, no_next}
use scouter_server_rust.Netio.Service.Answer.{IsOrder, read_answer}
use scouter_server_rust.Netio.Service.XLogService.{index_key, xlog_real_time}
use scouter_server_rust.Netio.Service.XLogService.Polling.{cache_of, packs, xlog_real_time_lem}
use scouter_server_rust.Netio.Service.CounterService.{
  obj_hash_key, counter_key, value_key, obj_hash_of, counter_of, counter_real_time,
}
use scouter_server_rust.Netio.Service.CounterService.Latest.{process_all, counter_real_time-process}
use scouter_server_rust.Tests.XLog.{p, p-IsValid, fields_Fit}

abbrev reserve : ℕ → Outcome (Unit {0})
reserve n = ok tt

abbrev since_first : MapValue
since_first = entry index_key (decimal 0) empty

-- A request with the index of the only xlog so far.
since_first_asks : get index_key since_first ≡ some (decimal (latest_index (cache_of 2 (p ∷ []))))
unfolding get
since_first_asks =
    ap (λ (n : ℕ). some (decimal n))
      (sym (latest_index_lem 2 (omega arith) (cached p ∷ []) (omega arith) (omega arith)))

since_first-IsValid : IsValid 32 reserve (map_pack (record { table = since_first }))
unfolding is_utf8
since_first-IsValid = ((omega arith, ((refl, omega arith), omega arith, refl, tt)), refl)

p_pack-IsValid : IsValid 32 reserve (xlog p)
p_pack-IsValid = (p-IsValid, omega (arith, fields_Fit, length-append (write_fields p) (1 ∷ 2 ∷ [])))

as_stored-IsOrder : IsOrder 32 reserve (λ m. m)
as_stored-IsOrder = record { same = λ k m. refl; valid = λ m h. h }

xlog_real_time_lem_example :
    (sent : Bytes) × (meta : MapValue) × Reads
      (xlog_real_time 32 reserve
        (λ m. m)
        (cache_of 2 (p ∷ p ∷ p ∷ []))
        (cache_of 2 (p ∷ p ∷ p ∷ p ∷ [])))
      (write_pack (map_pack (record { table = since_first })))
      sent
    × Reads
        (read_answer 32 reserve 4)
        (sent ++ write_byte no_next)
        (packs (p ∷ p ∷ []) ++ (map_pack (record { table = meta }) ∷ []))
    × (get index_key meta ≡ some (decimal 3))
xlog_real_time_lem_example =
    xlog_real_time_lem 32 reserve (λ m. m) as_stored-IsOrder 2 (p ∷ []) (p ∷ p ∷ []) (p ∷ [])
      since_first (omega arith) (omega arith) (omega arith) refl
      (p_pack-IsValid, (p_pack-IsValid, tt)) since_first_asks since_first-IsValid

abbrev counters : PerfCounterPack
counters = record {
  time = 1000;
  obj_name = 97 ∷ [];
  timetype = 1;
  data_map = entry (98 ∷ []) (decimal 7) (entry (99 ∷ []) (decimal 8) empty);
}

abbrev for_c : MapValue
for_c = entry obj_hash_key (decimal 3904355907) (entry counter_key (text (99 ∷ [])) empty)

for_agent : obj_hash_of for_c ≡ hash_bytes counters.obj_name
unfolding obj_hash_of number_or get hash_bytes crc_bytes crc_byte
for_agent = refl

for_c_counter : counter_of for_c ≡ 99 ∷ []
unfolding counter_of get
for_c_counter = refl

counters_c : get (99 ∷ []) counters.data_map ≡ some (decimal 8)
unfolding get
counters_c = refl

counters-IsValidMap : IsValidMap 32 counters.data_map
unfolding is_utf8
counters-IsValidMap =
    ((refl, omega arith), omega arith, refl, ((refl, omega arith), omega arith, refl, tt))

for_c-IsValid : IsValid 32 reserve (map_pack (record { table = for_c }))
unfolding is_utf8
for_c-IsValid = (
  (
    omega arith,
    ((refl, omega arith), omega arith, refl, ((refl, omega arith), (refl, omega arith), refl, tt)),
  ),
  refl,
)

-- A later pack of the agent, without the counter.
abbrev only_b : PerfCounterPack
only_b = record {
  time = 2000;
  obj_name = 97 ∷ [];
  timetype = 1;
  data_map = entry (98 ∷ []) (decimal 9) empty;
}

counter_real_time-process_example :
    (sent : Bytes) × (result : MapValue) × Reads
      (counter_real_time 32 reserve
        (λ m. m)
        (process_all (λ v. v) (λ v. v) (λ v. 0) [] ((5000, counters) ∷ (6000, only_b) ∷ [])))
      (write_pack (map_pack (record { table = for_c })))
      sent
    × Reads
        (read_answer 32 reserve 2)
        (sent ++ write_byte no_next)
        (map_pack (record { table = result }) ∷ [])
    × (get value_key result ≡ some (decimal 8))
    × (get counter_key result ≡ some (text (99 ∷ [])))
    × (get obj_hash_key result ≡ some (decimal (sign_extend 32 (hash_bytes (97 ∷ [])))))
counter_real_time-process_example =
    counter_real_time-process 32 reserve (λ m. m) (λ v. v) (λ v. v) (λ v. 0) [] 5000 counters
      ((6000, only_b) ∷ []) (99 ∷ []) (decimal 8) for_c as_stored-IsOrder refl counters-IsValidMap
      counters_c (ground arith, tt) refl for_c-IsValid for_agent for_c_counter
