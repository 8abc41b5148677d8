-- ===== src/Netio/MultiPacket/Collect.antt =====
-- What `add` returns while the fragments of a packet arrive, in any order, within a second.
use scouter_server_rust.Common.{
  ℕ, zero, suc, ◌+◌, ◌≤◌, ◌<◌, ◌^◌, ◌≡◌, ◌≢◌, refl, ap, sym, subst, ◌∙◌, arith, true, false, Option,
  none, some, List, [], ◌∷◌, length, ◌==◌, Bool-cases, inl, inr, All,
}
use scouter_server_rust.Word.{Bytes, sign_extend}
use scouter_server_rust.Assoc.{
  find, insert, remove, retain, Apart, find-insert, find-insert_other, find-remove,
  find-remove_other, find-retain, find-retain-none, length-insert_new, Apart-insert, All-insert,
}
use scouter_server_rust.Netio.MultiPacket.{
  MultiPacketEntry, Entries, is_recent, entry_or_new, with_fragment, rounds, settle, add,
}
use scouter_server_rust.Netio.MultiPacket.Assembly.{whole, IsFragment, assemble_complete}

-- The entry holds distinct fragments of the packet and was created at `start` or later.
pub record Collecting (n : ℕ) (frag : ℕ → Bytes) (start : ℕ) (e : MultiPacketEntry) : Type 0 where
  pub total_is : e.total ≡ n
  pub apart : Apart e.received
  pub fragments : All (IsFragment n frag) e.received
  pub since : start ≤ e.created_at

module _ (n : ℕ) (frag : ℕ → Bytes) (start : ℕ) (small : n < 2 ^ 15) where
  with_fragment_received :
      (e : MultiPacketEntry) (num : ℕ)
      → (with_fragment e num (frag num)).received ≡ insert num (frag num) e.received
  unfolding with_fragment
  with_fragment_received e num = refl

  filled_length :
      (e : MultiPacketEntry) (num : ℕ) (r : List (ℕ × Bytes))
      → e.received ≡ r
      → find num r ≡ none
      → length (with_fragment e num (frag num)).received ≡ suc (length r)
  filled_length e num r got new =
      rw (with_fragment_received e num, got) (length-insert_new num (frag num) r new)

  filled_Collecting :
      (e : MultiPacketEntry) (num : ℕ)
      → num < n
      → Collecting n frag start e
      → Collecting n frag start (with_fragment e num (frag num))
  unfolding with_fragment
  filled_Collecting e num lt c = record {
    total_is = c.total_is;
    apart = Apart-insert num (frag num) e.received c.apart;
    fragments = All-insert (IsFragment n frag) num (frag num) e.received (lt, refl) c.fragments;
    since = c.since;
  }

  -- Settling an entry of the packet: all fragments there, or not.
  settle_full :
      (entries : Entries) (id : ℕ) (e : MultiPacketEntry)
      → Collecting n frag start e
      → length e.received ≡ n
      → settle entries id e ≡ (remove id entries, some (whole frag n 0))
  unfolding settle
  settle_full entries id e c full =
      let test : length e.received == sign_extend 16 e.total ≡ true = ground (arith, c.total_is) in
      let count : rounds e.total ≡ n = ground (arith, c.total_is) in
      rw (test, count, assemble_complete n frag e.received c.apart c.fragments full) refl

  settle_more :
      (entries : Entries) (id : ℕ) (e : MultiPacketEntry)
      → Collecting n frag start e
      → length e.received < n
      → settle entries id e ≡ (entries, none)
  unfolding settle
  settle_more entries id e c more =
      let test : length e.received == sign_extend 16 e.total ≡ false = ground (arith, c.total_is) in
      rw test refl

  -- Fragments that arrive one by one: the two readings of the clock for each, and its number.
  abbrev pub Arrivals : Type 0
  Arrivals = List (ℕ × ℕ × ℕ)

  unfoldable pub feed : Entries → ℕ → Arrivals → Entries × List (Option Bytes)
  feed entries id [] = (entries, [])
  feed entries id ((now, created, num) ∷ more) =
      let (after, result) = add entries now created id n num (frag num) in
      let (final, results) = feed after id more in (final, result ∷ results)

  -- What has arrived for the packet.
  abbrev pub so_far : Option MultiPacketEntry → List (ℕ × Bytes)
  so_far none = []
  so_far (some e) = e.received

  abbrev pub IsProgress : Option MultiPacketEntry → Type 0
  IsProgress none = Unit {0}
  IsProgress (some e) = Collecting n frag start e

  recent :
      (now : ℕ) (e : MultiPacketEntry)
      → now < start + 1000000000
      → Collecting n frag start e
      → is_recent now e ≡ true
  recent now e h c = ground (arith, c.since)

  -- The entry that the next fragment goes to.
  next_entry :
      (entries : Entries) (now created id : ℕ) (o : Option MultiPacketEntry)
      → find id entries ≡ o
      → now < start + 1000000000
      → start ≤ created
      → IsProgress o
      → (e : MultiPacketEntry) × (entry_or_new (find id (retain (is_recent now) entries)) n created
          ≡ e)
        × (e.received ≡ so_far o)
        × Collecting n frag start e
  unfolding entry_or_new
  next_entry entries now created id none h t s p = (
    _,
    rw (find-retain-none (is_recent now) id entries h) refl,
    refl,
    record { total_is = refl; apart = tt; fragments = tt; since = s },
  )
  next_entry entries now created id (some e) h t s p =
      (e, rw (find-retain (is_recent now) id e entries h (recent now e t p)) refl, refl, p)

  module _ (entries : Entries) (now created id num : ℕ) (o : Option MultiPacketEntry)
      (h : find id entries ≡ o) (t : now < start + 1000000000) (s : start ≤ created)
      (p : IsProgress o) (lt : num < n) (new : find num (so_far o) ≡ none) where
    -- The last fragment of a packet gives the whole packet, and its entry is gone.
    pub add_last :
        suc (length (so_far o)) ≡ n
        → (after : Entries) × (add entries now created id n num (frag num)
            ≡ (after, some (whole frag n 0)))
          × (find id after ≡ none)
    unfolding add
    add_last full =
        let (e, opened, got, c) = next_entry entries now created id o h t s p in
        let count : length (with_fragment e num (frag num)).received ≡ n =
          rw (filled_length e num (so_far o) got new) full in
        (
          remove id (insert id (with_fragment e num (frag num)) (retain (is_recent now) entries)),
          rw opened (
              settle_full _ id (with_fragment e num (frag num)) (filled_Collecting e num lt c)
                count),
          find-remove id _,
        )

    -- An earlier fragment gives nothing, and is added to what has arrived.
    pub add_more :
        suc (length (so_far o)) < n
        → (after : Entries) × (e : MultiPacketEntry) × (add entries now created id n num (frag num)
            ≡ (after, none))
          × (find id after ≡ some e)
          × (e.received ≡ insert num (frag num) (so_far o))
          × Collecting n frag start e
    unfolding add
    add_more less =
        let (e, opened, got, c) = next_entry entries now created id o h t s p in
        (
          insert id (with_fragment e num (frag num)) (retain (is_recent now) entries),
          with_fragment e num (frag num),
          rw opened (
              settle_more _ id (with_fragment e num (frag num)) (filled_Collecting e num lt c)
                (rw (filled_length e num (so_far o) got new) less)),
          find-insert id _ _,
          with_fragment_received e num ∙ ap (insert num (frag num)) got,
          filled_Collecting e num lt c,
        )

  abbrev pub Timely : ℕ × ℕ × ℕ → Type 0
  Timely (now, created, num) = (num < n) × (now < start + 1000000000) × (start ≤ created)

  abbrev pub Distinct : Arrivals → Type 0
  Distinct [] = Unit {0}
  Distinct ((now, created, num) ∷ more) = All (λ (_, _, other). other ≢ num) more × Distinct more

  abbrev IsNew : List (ℕ × Bytes) → ℕ × ℕ × ℕ → Type 0
  IsNew r (now, created, num) = find num r ≡ none

  -- Nothing for the first arrivals, the packet for the last.
  abbrev pub answers : ℕ → List (Option Bytes)
  answers zero = some (whole frag n 0) ∷ []
  answers (suc k) = none ∷ answers k

  insert-IsNew :
      (num : ℕ) (r : List (ℕ × Bytes)) (more : Arrivals)
      → All (λ (_, _, other). other ≢ num) more
      → All (IsNew r) more
      → All (IsNew (insert num (frag num) r)) more
  insert-IsNew num r [] d h = tt
  insert-IsNew num r ((_, _, k) ∷ more) (ne, d) (new, h) =
      (find-insert_other num k (frag num) r ne ∙ new, insert-IsNew num r more d h)

  feed_from :
      (entries : Entries) (id : ℕ) (o : Option MultiPacketEntry) (a : ℕ × ℕ × ℕ) (more : Arrivals)
      → find id entries ≡ o
      → IsProgress o
      → All Timely (a ∷ more)
      → Distinct (a ∷ more)
      → All (IsNew (so_far o)) (a ∷ more)
      → length (so_far o) + suc (length more) ≡ n
      → ((feed entries id (a ∷ more)).1 ≡ answers (length more))
        × (find id (feed entries id (a ∷ more)).0 ≡ none)
  unfolding feed
  feed_from entries id o (now, created, num) [] h p ((lt, t, s), _) d (new, _) count =
      let (after, gives, gone) =
        add_last entries now created id num o h t s p lt new (omega arith) in
      (rw gives refl, rw gives gone)
  feed_from entries id o (now, created, num) (b ∷ more) h p ((lt, t, s), timely) (ne, d)
        (new, fresh) count =
      let (after, e, gives, there, got, c) =
        add_more entries now created id num o h t s p lt new (omega arith) in
      let (results, gone) =
        feed_from after id (some e) b more there c timely d
          (subst (λ r. All (IsNew r) (b ∷ more)) (sym got)
            (insert-IsNew num (so_far o) (b ∷ more) ne fresh))
          (rw (got, length-insert_new num (frag num) (so_far o) new) (omega arith)) in
      (rw gives (ap (λ (l : List (Option Bytes)). none ∷ l) results), rw gives gone)

  All-IsNew : (more : Arrivals) → All (IsNew []) more
  unfolding find
  All-IsNew [] = tt
  All-IsNew (a ∷ more) = (refl, All-IsNew more)

  -- A packet of `n` fragments, for 0 < n < 2 ^ 15, none of which was there, all of them once, in any
  -- order and within a second: every fragment but the last gives nothing, and the last gives the
  -- fragments put together in order of their numbers and leaves nothing of the packet behind.
  pub feed_lem :
      (entries : Entries) (id : ℕ) (a : ℕ × ℕ × ℕ) (more : Arrivals)
      → find id entries ≡ none
      → All Timely (a ∷ more)
      → Distinct (a ∷ more)
      → suc (length more) ≡ n
      → ((feed entries id (a ∷ more)).1 ≡ answers (length more))
        × (find id (feed entries id (a ∷ more)).0 ≡ none)
  feed_lem entries id a more none_there timely distinct count =
      feed_from entries id none a more none_there tt timely distinct (All-IsNew (a ∷ more))
        (omega arith)

settle_other :
    (entries : Entries) (id : ℕ) (e : MultiPacketEntry) (other : ℕ)
    → other ≢ id
    → find other (settle entries id e).0 ≡ find other entries
unfolding settle
settle_other entries id e other ne =
    elim (Bool-cases (length e.received == sign_extend 16 e.total)) [
      | inl full ↦ rw full (find-remove_other id other entries ne)
      | inr more ↦ rw more refl
    ]

-- A fragment of one packet changes nothing of another, but that entries that are too old go.
pub add_other :
    (entries : Entries) (now created id total num : ℕ) (bs : Bytes) (other : ℕ)
    → other ≢ id
    → find other (add entries now created id total num bs).0
      ≡ find other (retain (is_recent now) entries)
unfolding add
add_other entries now created id total num bs other ne =
    settle_other _ id _ other ne ∙ find-insert_other id other _ (retain (is_recent now) entries) ne
