-- ===== src/Core/XLogCore/Lookup.antt =====
-- From an xlog that an agent sent to the same xlog read back by the number of its call.
use scouter_server_rust.Common.{
  ℕ, ◌≡◌, refl, sym, ap, ◌∙◌, arith, true, some, List, [], ◌∷◌, append-nil, ◌==◌,
}
use scouter_server_rust.Word.{Bytes}
use scouter_server_rust.Outcome.{Outcome, ok}
use scouter_server_rust.Protocol.Input.{DataInputX, from_bytes}
use scouter_server_rust.Protocol.Reads.{at}
use scouter_server_rust.Protocol.Pack.{write_pack, xlog}
use scouter_server_rust.Protocol.Pack.XLog.{XLogPack}
use scouter_server_rust.Protocol.Pack.Read.{read_pack}
use scouter_server_rust.Protocol.Pack.Valid.{IsValid}
use scouter_server_rust.Protocol.Pack.RoundTrip.{read_pack-write_pack}
use scouter_server_rust.Core.XLogCache.{XLogCache}
use scouter_server_rust.Core.XLogCore.{time_of, process}
use scouter_server_rust.Db.XLogStore.{XLogStore, read_by_txid}
use scouter_server_rust.Db.XLogStore.Layout.{Written, newest}
use scouter_server_rust.Db.XLogStore.Refinement.{
  Represents, CanTake, write-Represents, read_by_txid-eq-newest,
}

newest_here : (w : Written) (ws : List Written) → newest w.txid (w ∷ ws) ≡ some w.bytes
unfolding newest
newest_here w ws = let same : w.txid == w.txid ≡ true = ground arith in rw same refl

-- `written` is the write that the store gets for the xlog.
module _ (value_size : ℕ) (reserve : ℕ → Outcome (Unit {0})) (date_millis : ℕ → ℕ) where
  abbrev pub written : ℕ → XLogPack → Written
  written now p = record {
    time = time_of now p;
    txid = p.txid;
    gxid = p.gxid;
    bytes = write_pack (xlog p);
  }

  parses :
      (p : XLogPack)
      → IsValid value_size reserve (xlog p)
      → (rest : DataInputX) × (read_pack value_size reserve (from_bytes (write_pack (xlog p)))
          ≡ ok (xlog p, rest))
  unfolding from_bytes
  parses p valid = (
    _,
    ap (λ (bs : Bytes). read_pack value_size reserve (at bs 0))
          (sym (append-nil (write_pack (xlog p))))
        ∙ (read_pack-write_pack value_size reserve (xlog p) valid).run [] 0,
  )

  -- An xlog that the store of its day can take is written without an error; then read_by_txid with
  -- the number of its call finds bytes from which read_pack reads the same xlog.
  pub read_by_txid-process :
      (cache : XLogCache) (store : XLogStore) (ws : List Written) (now : ℕ) (p : XLogPack)
      → Represents date_millis store ws
      → CanTake date_millis store ws (written now p)
      → IsValid value_size reserve (xlog p)
      → (after : XLogStore) × (last : XLogStore) × (bytes : Bytes) × (rest : DataInputX) × ((process
            date_millis cache
            (ok store)
            now
            p).1
          ≡ ok after)
        × (read_by_txid after p.txid ≡ ok (some bytes, last))
        × (read_pack value_size reserve (from_bytes bytes) ≡ ok (xlog p, rest))
  unfolding process
  read_by_txid-process cache store ws now p r c valid =
      let (after, done, r') = write-Represents date_millis store ws r (written now p) c in
      let (last, found, r'') =
        read_by_txid-eq-newest date_millis after (written now p ∷ ws) r' p.txid c.sound.txid_word in
      (
        after,
        last,
        write_pack (xlog p),
        (parses p valid).0,
        done,
        found ∙ ap (λ o. ok (o, last)) (newest_here (written now p) ws),
        (parses p valid).1,
      )
