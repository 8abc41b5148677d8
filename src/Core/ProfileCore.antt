-- ===== src/Core/ProfileCore.antt =====
-- src/core/profile_core.rs: what the worker does with a profile. `container` is the store of the day,
-- which the database manager opens; an error is only printed, and here the outcome.
use scouter_server_rust.Common.{length, ◌==◌, if◌then◌else◌}
use scouter_server_rust.Outcome.{Outcome, ◌>>=◌}
use scouter_server_rust.Core.Dispatcher.{ProfilePack, txid, profile_data}
use scouter_server_rust.Db.ProfileStore.{ProfileStore, write_with_length}

-- An empty profile is not stored.
unfoldable pub process : Outcome ProfileStore → ProfilePack → Outcome ProfileStore
process container pack =
    if length (profile_data pack) == 0
    then container
    else container >>= λ store. write_with_length store (txid pack) (profile_data pack)
