-- ===== src/Core/AlertCore.antt =====
-- src/core/alert_core.rs and alert_summary.rs: an alert is counted in a window of five minutes, and goes
-- to the cache and to the store of the day. `container` is that store, which the database manager
-- opens; an error is only printed, and here the outcome. `now` is the clock in milliseconds.
use scouter_server_rust.Common.{
  ℕ, zero, suc, ◌+◌, ◌-◌, ◌/◌, ◌%◌, ◌^◌, ◌≡◌, refl, not, ◌&&◌, ltb, Option, none, some, List, [],
  ◌∷◌, ◌++◌, length, ◌==◌, if◌then◌else◌,
}
use scouter_server_rust.Word.{Bytes, as_32, sign_extend, signed_leb}
use scouter_server_rust.Outcome.{Outcome, ◌>>=◌}
use scouter_server_rust.Assoc.{find, insert}
use scouter_server_rust.Util.Hash.{hash_bytes}
use scouter_server_rust.Protocol.Value.{MapValue, empty, decimal, put}
use scouter_server_rust.Protocol.Pack.{AlertPack, SummaryPack, alert, write_pack}
use scouter_server_rust.Core.AlertCache as Cache
use scouter_server_rust.Core.AlertCache.{AlertCache}
use scouter_server_rust.Db.AlertStore as Store
use scouter_server_rust.Db.AlertStore.{AlertStore}
use scouter_server_rust.Db.SummaryStore.{summary_alert}

abbrev pub window_ms : ℕ
window_ms = 300000

-- The start of the window, and the count of each hash, an i32.
pub record AlertWindow : Type 0 where
  pub start_time : ℕ
  pub counts : List (ℕ × ℕ)

-- `to_string` of an i32: the digits of its size, with a sign in front. Ten digits are enough.
unfoldable pub digits : ℕ → ℕ → Bytes → Bytes
digits zero n acc = acc
digits (suc fuel) n acc =
    let rest = digits fuel (n / 10) ((48 + n % 10) ∷ acc) in
    if ltb n 10 then (48 + n) ∷ acc else rest

unfoldable pub i32_to_string : ℕ → Bytes
i32_to_string v = if ltb v (2 ^ 31) then digits 10 v [] else 45 ∷ digits 10 (2 ^ 32 - v) []

minus_three_hundred : i32_to_string (2 ^ 32 - 300) ≡ 45 ∷ 51 ∷ 48 ∷ 48 ∷ []
unfolding i32_to_string digits
minus_three_hundred = refl

unfoldable pub count_table : List (ℕ × ℕ) → MapValue → MapValue
count_table [] table = table
count_table ((key_hash, count) ∷ counts) table =
    count_table counts (put (i32_to_string key_hash) (decimal (sign_extend 32 count)) table)

unfoldable pub flush_window : List (ℕ × ℕ) → SummaryPack
flush_window counts = record { stype = summary_alert; table = count_table counts empty }

-- The summary that is handed on if the window is over and counted something.
unfoldable pub close_window : AlertWindow → (now : ℕ) → AlertWindow × Option SummaryPack
close_window window now =
    if signed_leb window_ms ((now + (2 ^ 64 - window.start_time)) % 2 ^ 64)
      && not (length window.counts == 0)
    then (record { start_time = now; counts = [] }, some (flush_window window.counts))
    else (window, none)

unfoldable pub count_of : Option ℕ → ℕ
count_of none = 0
count_of (some n) = n

unfoldable pub add : AlertWindow → (now : ℕ) → AlertPack → AlertWindow × Option SummaryPack
add window now pack =
    let (open_window, summary) = close_window window now in
    let key_hash = hash_bytes (pack.obj_type ++ pack.title) in
    let count = as_32 (count_of (find key_hash open_window.counts) + 1) in
    (record open_window { counts = insert key_hash count open_window.counts }, summary)

-- The time of an alert that gives none.
unfoldable pub timed : (now : ℕ) → AlertPack → AlertPack
timed now pack = record pack { time = if pack.time == 0 then now else pack.time }

unfoldable pub process :
    (date_millis : ℕ → ℕ)
    → AlertCache
    → Outcome AlertStore
    → (now : ℕ) → AlertPack
    → AlertCache × Outcome AlertStore
process date_millis cache container now pack = (
  Cache.put cache (timed now pack),
  container >>= λ store.
      Store.write date_millis store (timed now pack).time (write_pack (alert (timed now pack))),
)
