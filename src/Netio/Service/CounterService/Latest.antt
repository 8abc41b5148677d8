-- ===== src/Netio/Service/CounterService/Latest.antt =====
-- From the counters that an agent sent to those that a client is sent.
use scouter_server_rust.Common.{
  ℕ, ◌<◌, ◌^◌, ◌==◌, ◌&&◌, List, [], ◌∷◌, ◌++◌, All, ◌≡◌, refl, sym, subst, ap, ◌∙◌, arith, Bool,
  true, false, some, Bool-cases, if◌then◌else◌, inl, inr,
}
use scouter_server_rust.Word.{Bytes, sign_extend}
use scouter_server_rust.Outcome.{Outcome, ok}
use scouter_server_rust.Assoc.{some-inj}
use scouter_server_rust.Protocol.Utf8.{is_utf8}
use scouter_server_rust.Protocol.Output.{write_byte}
use scouter_server_rust.Protocol.Value.Valid as Value
use scouter_server_rust.Netio.Service.Answer.{IsOrder, read_answer, read_answer-table}
use scouter_server_rust.Netio.Service.{no_next}
use scouter_server_rust.Util.Hash.{hash_bytes}
use scouter_server_rust.Protocol.Reads.{Reads, Reads-then, Reads-pure}
use scouter_server_rust.Protocol.Value.{
  Value, MapValue, empty, entry, decimal, text, bytes_eq, get, put,
}
use scouter_server_rust.Protocol.Value.Valid.{IsText, IsValidMap, has_key}
use scouter_server_rust.Protocol.Value.Maps.{bytes_eq_refl, bytes_eq→eq}
use scouter_server_rust.Protocol.Pack.{PerfCounterPack, map_pack, write_pack}
use scouter_server_rust.Protocol.Pack.Valid.{IsValid}
use scouter_server_rust.Core.Table.{lookup-insert, lookup-insert_other}
use scouter_server_rust.Core.CounterCache as Cache
use scouter_server_rust.Core.CounterCache.{CounterCache, CounterKey, same_counter, key_of}
use scouter_server_rust.Core.PerfCountCore.{put_values, process}
use scouter_server_rust.Netio.Service.Request.{read_table-Reads}
use scouter_server_rust.Netio.Service.CounterService.{
  obj_hash_key, counter_key, value_key, obj_hash_of, counter_of, write_found, write_counter,
  counter_real_time,
}

get-put_counter :
    (cache : CounterCache) (h t : ℕ) (name : Bytes) (v : Value)
    → Cache.get (Cache.put cache h name t v) h name t ≡ some v
unfolding Cache.get Cache.put
get-put_counter cache h t name v =
    lookup-insert same_counter (key_of h name t) v cache (ground (arith, bytes_eq_refl name))

same_as : (k i j : CounterKey) → same_counter j k ≡ true → same_counter j i ≡ same_counter k i
same_as k i j e = ground (arith, bytes_eq→eq j.counter_name k.counter_name)

get-put_other :
    (cache : CounterCache) (h t g u : ℕ) (name other : Bytes) (v : Value)
    → same_counter (key_of h name t) (key_of g other u) ≡ false
    → Cache.get (Cache.put cache h name t v) g other u ≡ Cache.get cache g other u
unfolding Cache.get Cache.put
get-put_other cache h t g u name other v apart =
    lookup-insert_other same_counter (key_of h name t) (key_of g other u) v cache apart
      (same_as (key_of h name t) (key_of g other u))

-- A counter that a table of `h` and `t` does not set keeps its value.
get-put_values_other :
    (cache : CounterCache) (h t g u : ℕ) (m : MapValue) (name : Bytes)
    → (h == g) && (t == u) && has_key name m ≡ false
    → Cache.get (put_values cache h t m) g name u ≡ Cache.get cache g name u
unfolding put_values
get-put_values_other cache h t g u empty name gone = refl
get-put_values_other cache h t g u (entry k w m) name gone =
    get-put_values_other (Cache.put cache h k t w) h t g u m name (ground arith)
    ∙ get-put_other cache h t g u k name w (ground arith)

get-put_values :
    (value_size : ℕ) (cache : CounterCache) (h t : ℕ) (m : MapValue) (name : Bytes) (v : Value)
    → IsValidMap value_size m
    → get name m ≡ some v
    → Cache.get (put_values cache h t m) h name t ≡ some v
unfolding put_values get
get-put_values value_size cache h t empty name v valid found = cc
get-put_values value_size cache h t (entry k w m) name v (kt, vv, fresh, rest) found =
    elim (Bool-cases (bytes_eq k name)) [
      | inl here ↦
          let same = bytes_eq→eq k name here in
          let missing : has_key name m ≡ false = subst (λ n. has_key n m ≡ false) same fresh in
          get-put_values_other (Cache.put cache h k t w) h t h t m name (ground (arith, missing))
          ∙ subst (λ n. Cache.get (Cache.put cache h k t w) h n t ≡ some w) same
              (get-put_counter cache h t k w)
          ∙ sym (ap (λ (b : Bool). if b then some w else get name m) here)
          ∙ found
      | inr other ↦
          get-put_values value_size (Cache.put cache h k t w) h t m name v rest
            (sym (ap (λ (b : Bool). if b then some w else get name m) other) ∙ found)
    ]

valid_at :
    (value_size : ℕ) (m : MapValue) (name : Bytes) (v : Value)
    → IsValidMap value_size m
    → get name m ≡ some v
    → IsText name × Value.IsValid value_size v
unfolding get
valid_at value_size empty name v valid found = absurd cc
valid_at value_size (entry k w m) name v (kt, vv, fresh, rest) found =
    elim (Bool-cases (bytes_eq k name)) [
      | inl here ↦
          let same : some w ≡ some v =
            sym (ap (λ (b : Bool). if b then some w else get name m) here) ∙ found in
          (
            subst IsText (bytes_eq→eq k name here) kt,
            subst (Value.IsValid value_size) (some-inj same) vv,
          )
      | inr other ↦
          valid_at value_size m name v rest
            (sym (ap (λ (b : Bool). if b then some w else get name m) other) ∙ found)
    ]

-- Whether a pack has a real-time value for a counter of the agent with the hash `h`.
abbrev pub sets : ℕ → Bytes → PerfCounterPack → Bool
sets h counter p = (hash_bytes p.obj_name == h) && (p.timetype == 1) && has_key counter p.data_map

module _ (f32_to_f64 i64_to_f64 hhmm_of : ℕ → ℕ) where
  -- The cache after packs, each at its time.
  abbrev pub process_all : CounterCache → List (ℕ × PerfCounterPack) → CounterCache
  process_all cache [] = cache
  process_all cache ((now, p) ∷ ps) =
      process_all (process f32_to_f64 i64_to_f64 hhmm_of cache now p).0 ps

  get-process_all :
      (cache : CounterCache) (h : ℕ) (counter : Bytes) (ps : List (ℕ × PerfCounterPack))
      → All (λ ((now, p) : ℕ × PerfCounterPack). sets h counter p ≡ false) ps
      → Cache.get (process_all cache ps) h counter 1 ≡ Cache.get cache h counter 1
  unfolding process
  get-process_all cache h counter [] others = refl
  get-process_all cache h counter ((now, p) ∷ ps) (other, others) =
      get-process_all (put_values cache (hash_bytes p.obj_name) p.timetype p.data_map) h counter ps
        others
      ∙ get-put_values_other cache (hash_bytes p.obj_name) p.timetype h 1 p.data_map counter other

module _ (value_size : ℕ) (reserve : ℕ → Outcome (Unit {0})) where
  abbrev value_table : ℕ → Bytes → Value → MapValue
  value_table h counter value =
      put value_key value
        (put counter_key (text counter) (put obj_hash_key (decimal (sign_extend 32 h)) empty))

  value_table-IsValid :
      (h : ℕ) (counter : Bytes) (value : Value)
      → h < 2 ^ 32
      → IsText counter
      → Value.IsValid value_size value
      → reserve 3 ≡ ok tt
      → IsValid value_size reserve (map_pack (record { table = value_table h counter value }))
  unfolding put is_utf8
  value_table-IsValid h counter value small c v room = (
    (
      omega arith,
      (
        (refl, omega arith),
        ground arith,
        refl,
        ((refl, omega arith), c, refl, ((refl, omega arith), v, refl, tt)),
      ),
    ),
    room,
  )

  get-value_table :
      (h : ℕ) (counter : Bytes) (value : Value)
      → (get value_key (value_table h counter value) ≡ some value)
        × (get counter_key (value_table h counter value) ≡ some (text counter))
        × (get obj_hash_key (value_table h counter value) ≡ some (decimal (sign_extend 32 h)))
  unfolding get put
  get-value_table h counter value = (refl, refl, refl)

  -- The worker has processed a counter pack of the real-time kind, whose table is well-formed and has
  -- a value for a counter, and then packs without a real-time value for this counter of this agent. A
  -- well-formed request has the agent's hash and the counter. The handler reads just the request, and
  -- of its answer, closed by NO_NEXT, the client reads one table, with the value, the counter and the
  -- agent's hash, in whichever order its entries are written.
  pub counter_real_time-process :
      (order : MapValue → MapValue) (f32_to_f64 i64_to_f64 hhmm_of : ℕ → ℕ) (cache : CounterCache)
      (now : ℕ) (p : PerfCounterPack) (later : List (ℕ × PerfCounterPack)) (counter : Bytes)
      (value : Value) (table : MapValue)
      → IsOrder value_size reserve order
      → p.timetype ≡ 1
      → IsValidMap value_size p.data_map
      → get counter p.data_map ≡ some value
      → All
          (λ ((time, q) : ℕ × PerfCounterPack). sets (hash_bytes p.obj_name) counter q ≡ false)
          later
      → reserve 3 ≡ ok tt
      → IsValid value_size reserve (map_pack (record { table = table }))
      → obj_hash_of table ≡ hash_bytes p.obj_name
      → counter_of table ≡ counter
      → (sent : Bytes) × (result : MapValue) × Reads
          (counter_real_time value_size reserve order
            (process_all f32_to_f64 i64_to_f64 hhmm_of cache ((now, p) ∷ later)))
          (write_pack (map_pack (record { table = table })))
          sent
        × Reads
            (read_answer value_size reserve 2)
            (sent ++ write_byte no_next)
            (map_pack (record { table = result }) ∷ [])
        × (get value_key result ≡ some value)
        × (get counter_key result ≡ some (text counter))
        × (get obj_hash_key result ≡ some (decimal (sign_extend 32 (hash_bytes p.obj_name))))
  unfolding counter_real_time process write_found write_counter obj_hash_of
  counter_real_time-process order f32_to_f64 i64_to_f64 hhmm_of cache now p later counter value
        table orders kind valid found others room asked for_agent for_counter =
      let h = hash_bytes p.obj_name in
      let small : h < 2 ^ 32 = omega (arith, for_agent) in
      let after = put_values cache h p.timetype p.data_map in
      let stored : Cache.get (process_all f32_to_f64 i64_to_f64 hhmm_of after later) h counter 1
          ≡ some value =
        get-process_all f32_to_f64 i64_to_f64 hhmm_of after h counter later others
        ∙ subst (λ t. Cache.get (put_values cache h p.timetype p.data_map) h counter t ≡ some value)
            kind
            (get-put_values value_size cache h p.timetype p.data_map counter value valid found) in
      let (c, v) = valid_at value_size p.data_map counter value valid found in
      let (at_value, at_counter, at_hash) = get-value_table h counter value in
      let m = value_table h counter value in
      (
        write_counter order h counter value,
        order m,
        Reads-then _ (read_table-Reads value_size reserve table asked) (
            rw (for_agent, for_counter, stored) (Reads-pure (write_counter order h counter value))),
        read_answer-table value_size reserve order m orders
            (value_table-IsValid h counter value small c v room),
        orders.same value_key m ∙ at_value,
        orders.same counter_key m ∙ at_counter,
        orders.same obj_hash_key m ∙ at_hash,
      )
