-- ===== src/Netio/Service/XLogService/Polling.antt =====
-- From the xlogs that were cached to those that a polling client reads from its answer.
use scouter_server_rust.Common.{
  ℕ, zero, suc, ◌+◌, ◌-◌, ◌^◌, ◌≤◌, ◌<◌, ◌≡◌, refl, sym, ap, ◌∙◌, arith, none, some, List, [], ◌∷◌,
  ◌++◌, length, length-append, append_assoc, drop, All,
}
use scouter_server_rust.Word.{Bytes}
use scouter_server_rust.Outcome.{Outcome, ok}
use scouter_server_rust.Protocol.Utf8.{is_utf8}
use scouter_server_rust.Protocol.Output.{write_byte, write_raw}
use scouter_server_rust.Protocol.Reads.{Reads, Reads-bytes, Reads-then, Reads-pure}
use scouter_server_rust.Protocol.Value.{MapValue, empty, decimal, get, put}
use scouter_server_rust.Protocol.Pack.{Pack, map_pack, xlog, write_pack}
use scouter_server_rust.Protocol.Pack.XLog.{XLogPack}
use scouter_server_rust.Protocol.Pack.Valid.{IsValid}
use scouter_server_rust.Netio.Service.Request.{read_table-Reads}
use scouter_server_rust.Netio.Service.Answer.{
  IsOrder, read_answer, read_answer-next, read_answer-table,
}
use scouter_server_rust.Netio.Service.{number_or, decimal_or, has_next, no_next, write_table}
use scouter_server_rust.Netio.Service.XLogService.{index_key, answer, write_entries, xlog_real_time}
use scouter_server_rust.Core.XLogCache.{XLog, XLogCache, new, latest_index, get_since}
use scouter_server_rust.Core.XLogCache.Recent.{number, put_all}
use scouter_server_rust.Core.XLogCache.Polling.{get_since-put_all, latest_index_lem}
use scouter_server_rust.Core.XLogCore.{cached}

number_or_lem :
    (other v : ℕ) (key : Bytes) (table : MapValue)
    → get key table ≡ some (decimal v)
    → number_or other key table ≡ v
unfolding number_or
number_or_lem other v key table h = ap (decimal_or other) h

-- What the worker puts into the cache for each xlog.
abbrev pub all_cached : List XLogPack → List XLog
all_cached [] = []
all_cached (p ∷ ps) = cached p ∷ all_cached ps

abbrev pub packs : List XLogPack → List Pack
packs [] = []
packs (p ∷ ps) = xlog p ∷ packs ps

-- A new cache after these xlogs.
abbrev pub cache_of : ℕ → List XLogPack → XLogCache
cache_of max_size ps = put_all (new max_size) (all_cached ps)

length-all_cached : (ps : List XLogPack) → length (all_cached ps) ≡ length ps
length-all_cached [] = refl
length-all_cached (p ∷ ps) = ap suc (length-all_cached ps)

all_cached-append : (ps qs : List XLogPack) → all_cached (ps ++ qs) ≡ all_cached ps ++ all_cached qs
all_cached-append [] qs = refl
all_cached-append (p ∷ ps) qs = ap (λ (l : List XLog). cached p ∷ l) (all_cached-append ps qs)

drop-number_cached :
    (k i : ℕ) (ps : List XLogPack)
    → (j : ℕ) × (drop k (number i (all_cached ps)) ≡ number j (all_cached (drop k ps)))
unfolding number
drop-number_cached zero i ps = (i, refl)
drop-number_cached (suc k) i [] = (i, refl)
drop-number_cached (suc k) i (p ∷ ps) = drop-number_cached k (suc i) ps

All-drop {ℓ κ} : {A : Type ℓ} (P : A → Type κ) (k : ℕ) (xs : List A) → All P xs → All P (drop k xs)
All-drop P zero xs h = h
All-drop P (suc k) [] h = tt
All-drop P (suc k) (x ∷ xs) (p, h) = All-drop P k xs h

module _ (value_size : ℕ) (reserve : ℕ → Outcome (Unit {0})) where
  read_answer-write_entries :
      (n i : ℕ) (ps : List XLogPack) (bs : Bytes) (rest : List Pack)
      → All (λ p. IsValid value_size reserve (xlog p)) ps
      → Reads (read_answer value_size reserve n) bs rest
      → Reads
          (read_answer value_size reserve (length ps + n))
          (write_entries (number i (all_cached ps)) ++ bs)
          (packs ps ++ rest)
  unfolding write_entries number write_raw cached
  read_answer-write_entries n i [] bs rest valid r =
      let none_more : 0 + n ≡ n = omega arith in rw none_more r
  read_answer-write_entries n i (p ∷ ps) bs rest (v, valid) r =
      let one_more : suc (length ps) + n ≡ suc (length ps + n) = omega arith in
      let below = read_answer-write_entries n (suc i) ps bs rest valid r in
      let es = write_entries (number (suc i) (all_cached ps)) in
      rw one_more (
        Reads-bytes
          (sym (
            append_assoc (write_byte has_next) (write_pack (xlog p) ++ es) bs
            ∙ ap (λ (l : Bytes). write_byte has_next ++ l)
                (append_assoc (write_pack (xlog p)) es bs)))
          (read_answer-next value_size reserve (length ps + n) (xlog p) (es ++ bs)
            (packs ps ++ rest) v below))

  index_table-IsValid :
      (n : ℕ)
      → n < 2 ^ 64
      → reserve 1 ≡ ok tt
      → IsValid value_size reserve (map_pack (record { table = put index_key (decimal n) empty }))
  unfolding put is_utf8
  index_table-IsValid n h room = ((omega arith, ((refl, omega arith), h, refl, tt)), room)

  get-index_table : (n : ℕ) → get index_key (put index_key (decimal n) empty) ≡ some (decimal n)
  unfolding get put
  get-index_table n = refl

  module _ (order : MapValue → MapValue) (orders : IsOrder value_size reserve order) where
    -- What the client reads of the bytes of an answer.
    read_answer-answer :
        (k i n : ℕ) (qs : List XLogPack)
        → n < 2 ^ 64
        → reserve 1 ≡ ok tt
        → All (λ p. IsValid value_size reserve (xlog p)) qs
        → Reads
            (read_answer value_size reserve (length (drop k qs) + 2))
            (answer order (drop k (number i (all_cached qs))) n ++ write_byte no_next)
            (packs (drop k qs)
              ++ (map_pack (record { table = order (put index_key (decimal n) empty) }) ∷ []))
    unfolding answer
    read_answer-answer k i n qs h room valid =
        let (j, same) = drop-number_cached k i qs in
        let table = write_table order (put index_key (decimal n) empty) in
        rw same (
          Reads-bytes
            (sym (
              append_assoc (write_entries (number j (all_cached (drop k qs)))) table
                (write_byte no_next)))
            (read_answer-write_entries 2 j (drop k qs) (table ++ write_byte no_next) _
              (All-drop (λ p. IsValid value_size reserve (xlog p)) k qs valid)
              (read_answer-table value_size reserve order _ orders (index_table-IsValid n h room))))

    -- A new cache of at least one place has got the xlogs `ps`, at least one, and a client asks with
    -- the index that it was told then, in a well-formed table. The well-formed `qs` come before the
    -- handler reads the entries, and `rs` before it reads the index, fewer than 2 ^ 64 in all. Then
    -- the handler reads just the request, and of its answer, closed by NO_NEXT, the client reads the
    -- packs `qs` in order, or the latest of them if they are more than there are places, and last a
    -- table with the number of all xlogs less one as its index: it counts `rs`, which are not sent.
    pub xlog_real_time_lem :
        (max_size : ℕ) (ps qs rs : List XLogPack) (table : MapValue)
        → 1 ≤ max_size
        → 1 ≤ length ps
        → length ps + length qs + length rs < 2 ^ 64
        → reserve 1 ≡ ok tt
        → All (λ p. IsValid value_size reserve (xlog p)) qs
        → get index_key table ≡ some (decimal (latest_index (cache_of max_size ps)))
        → IsValid value_size reserve (map_pack (record { table = table }))
        → (sent : Bytes) × (meta : MapValue) × Reads
            (xlog_real_time value_size reserve order
              (cache_of max_size (ps ++ qs))
              (cache_of max_size (ps ++ (qs ++ rs))))
            (write_pack (map_pack (record { table = table })))
            sent
          × Reads
              (read_answer value_size reserve (length (drop (length qs - max_size) qs) + 2))
              (sent ++ write_byte no_next)
              (packs (drop (length qs - max_size) qs) ++ (map_pack (record { table = meta }) ∷ []))
          × (get index_key meta ≡ some (decimal (length ps + length qs + length rs - 1)))
    unfolding xlog_real_time
    xlog_real_time_lem max_size ps qs rs table room some_p h small valid asks asked =
        let n = length ps + length qs + length rs - 1 in
        let k = length qs - max_size in
        let xs = all_cached ps in
        let ys = all_cached qs in
        let lp = length-all_cached ps in
        let lq = length-all_cached qs in
        let lall = length-all_cached (ps ++ (qs ++ rs)) in
        let l1 = length-append ps (qs ++ rs) in
        let l2 = length-append qs rs in
        let entries : get_since (cache_of max_size (ps ++ qs)) (number_or 0 index_key table) none
            ≡ drop k (number (length xs) ys) =
          ap (λ (s : ℕ). get_since (cache_of max_size (ps ++ qs)) s none)
            (number_or_lem 0 (latest_index (cache_of max_size ps)) index_key table asks)
          ∙ ap
              (λ (l : List XLog).
                get_since (put_all (new max_size) l) (latest_index (cache_of max_size ps)) none)
              (all_cached-append ps qs)
          ∙ get_since-put_all max_size room xs ys (omega arith) (omega arith)
          ∙ ap (λ (m : ℕ). drop (m - max_size) (number (length xs) ys)) lq in
        let index : latest_index (cache_of max_size (ps ++ (qs ++ rs))) ≡ n =
          latest_index_lem max_size room (all_cached (ps ++ (qs ++ rs))) (omega arith) (omega arith)
          ∙ omega arith in
        let sent = answer order (drop k (number (length xs) ys)) n in
        (
          sent,
          order (put index_key (decimal n) empty),
          Reads-then _ (read_table-Reads value_size reserve table asked)
              (rw (entries, index) (Reads-pure sent)),
          read_answer-answer k (length xs) n qs (omega arith) small valid,
          orders.same index_key (put index_key (decimal n) empty) ∙ get-index_table n,
        )
