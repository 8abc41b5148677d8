-- ===== src/Netio/MultiPacket.antt =====
-- src/netio/multi_packet.rs: packets that arrive in fragments. The lock makes every call atomic, so a
-- call is a function of the map under it. Instants are nanoseconds of the monotonic clock, an
-- argument of the calls; a packet id is the bit pattern of an i64, a fragment number that of an i16.
pub mod Assembly
pub mod Collect
use scouter_server_rust.Common.{
  ℕ, zero, suc, ◌+◌, ◌-◌, ◌/◌, Bool, Option, none, some, List, [], ◌∷◌, ◌++◌, length, ltb, ◌==◌,
  if◌then◌else◌,
}
use scouter_server_rust.Word.{Bytes, sign_extend}
use scouter_server_rust.Assoc.{find, insert, remove, retain}

pub record MultiPacketEntry : Type 0 where
  pub total : ℕ
  pub received : List (ℕ × Bytes)
  pub created_at : ℕ

abbrev pub Entries : Type 0
Entries = List (ℕ × MultiPacketEntry)

-- `now.duration_since(v.created_at).as_millis() < 1000`; the duration is zero if `now` is earlier.
abbrev pub is_recent : ℕ → MultiPacketEntry → Bool
is_recent now v = ltb ((now - v.created_at) / 1000000) 1000

-- `entry(packet_id).or_insert_with(…)`
unfoldable pub entry_or_new : Option MultiPacketEntry → ℕ → ℕ → MultiPacketEntry
entry_or_new (some e) total created = e
entry_or_new none total created = record { total = total; received = []; created_at = created }

unfoldable pub with_fragment : MultiPacketEntry → ℕ → Bytes → MultiPacketEntry
with_fragment e num data_bytes = record e { received = insert num data_bytes e.received }

-- `for i in 0..entry.total`, `count` rounds from `i`; a fragment that is missing adds nothing.
unfoldable pub assemble : ℕ → ℕ → List (ℕ × Bytes) → Bytes
assemble zero i received = []
assemble (suc count) i received =
    elim (find i received) [ some fragment ↦ fragment | none ↦ [] ]
    ++ assemble count (suc i) received

-- The rounds of `0..total` for an i16: none if it is negative.
abbrev pub rounds : ℕ → ℕ
rounds total = if ltb total 0x8000 then total else 0

-- After the insertion: complete packets leave the map.
unfoldable pub settle : Entries → ℕ → MultiPacketEntry → Entries × Option Bytes
settle entries packet_id e =
    if length e.received == sign_extend 16 e.total
    then (remove packet_id entries, some (assemble (rounds e.total) 0 e.received))
    else (entries, none)

-- `now` and `created` are the two readings of the clock.
unfoldable pub add :
    Entries → (now created packet_id total num : ℕ) → Bytes → Entries × Option Bytes
add entries now created packet_id total num data_bytes =
    let kept = retain (is_recent now) entries in
    let e = with_fragment (entry_or_new (find packet_id kept) total created) num data_bytes in
    settle (insert packet_id e kept) packet_id e
