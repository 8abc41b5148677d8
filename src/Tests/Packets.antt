-- ===== src/Tests/Packets.antt =====
-- src/netio at concrete fragments.
use scouter_server_rust.Common.{ℕ, ◌≡◌, refl, arith, none, [], ◌∷◌}
use scouter_server_rust.Word.{Bytes}
use scouter_server_rust.Assoc.{find, retain}
use scouter_server_rust.Netio.MultiPacket.{Entries, is_recent, add}
use scouter_server_rust.Netio.MultiPacket.Collect.{feed, answers, feed_lem, add_other}

abbrev frag : ℕ → Bytes
frag i = i ∷ 9 ∷ []

feed_lem_example :
    ((feed 2 frag 0 (omega arith) [] 5 ((10, 11, 1) ∷ (20, 21, 0) ∷ [])).1
      ≡ answers 2 frag 0 (omega arith) 1)
    × (find 5 (feed 2 frag 0 (omega arith) [] 5 ((10, 11, 1) ∷ (20, 21, 0) ∷ [])).0 ≡ none)
unfolding find
feed_lem_example =
    feed_lem 2 frag 0 (omega arith) [] 5 (10, 11, 1) ((20, 21, 0) ∷ []) refl
      ((omega arith, omega arith, omega arith), ((omega arith, omega arith, omega arith), tt))
      ((omega arith, tt), (tt, tt)) (omega arith)

abbrev waiting : Entries
waiting = (6, record { total = 3; received = []; created_at = 10 }) ∷ []

add_other_example :
    find 6 (add waiting 20 20 5 2 0 (7 ∷ [])).0 ≡ find 6 (retain (is_recent 20) waiting)
add_other_example = add_other waiting 20 20 5 2 0 (7 ∷ []) 6 (omega arith)
