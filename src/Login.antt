-- ===== src/Login.antt =====
-- src/login/mod.rs: sessions of logged-in clients. The map is concurrent, a call on it atomic; the
-- counter of sessions and the clock are part of the state and an argument. Numbers are i64 patterns.
pub mod Sessions
use scouter_server_rust.Common.{
  ℕ, ◌+◌, ◌-◌, ◌*◌, ◌%◌, ◌^◌, Bool, true, false, Option, none, some, List, [], ◌∷◌, ◌==◌,
  if◌then◌else◌,
}
use scouter_server_rust.Word.{Bytes, signed_ltb}
use scouter_server_rust.Assoc.{find, insert, retain}

pub record LoginUser : Type 0 where
  pub id : Bytes
  pub ip : Bytes
  pub session : ℕ
  pub group : Bytes
  pub logintime : ℕ
  pub hostname : Bytes
  pub version : Bytes
  pub internal : Bool

pub record LoginManager : Type 0 where
  pub sessions : List (ℕ × LoginUser)
  pub session_counter : ℕ
  pub default_ttl_ms : ℕ

unfoldable pub new : LoginManager
new = record { sessions = []; session_counter = 1; default_ttl_ms = 3 * 60 * 60 * 1000 }

abbrev pub login_user : LoginManager → ℕ → (id ip : Bytes) → Bool → LoginUser
login_user m now id ip internal = record {
  id = id;
  ip = ip;
  session = m.session_counter;
  group = [];
  logintime = now;
  hostname = [];
  version = [];
  internal = internal;
}

-- The manager, and the session; every login is accepted. `fetch_add` wraps.
unfoldable pub login : LoginManager → ℕ → (id password ip : Bytes) → Bool → LoginManager × ℕ
login m now id password ip internal = (
  record m {
    session_counter = (m.session_counter + 1) % 2 ^ 64;
    sessions = insert m.session_counter (login_user m now id ip internal) m.sessions;
  },
  m.session_counter,
)

unfoldable pub ok_session : LoginManager → ℕ → Bool
ok_session m session = elim (find session m.sessions) [ none ↦ false | some user ↦ true ]

unfoldable pub valid_session : LoginManager → ℕ → ℕ
valid_session m session = if ok_session m session then session else 0

unfoldable pub get_user : LoginManager → ℕ → Option LoginUser
get_user m session = find session m.sessions

unfoldable pub update_user : LoginManager → ℕ → (LoginUser → LoginUser) → LoginManager
update_user m session f = elim (find session m.sessions) [
  | none ↦ m
  | some user ↦ record m { sessions = insert session (f user) m.sessions }
]

unfoldable users : List (ℕ × LoginUser) → List LoginUser
users [] = []
users ((session, user) ∷ rest) = user ∷ users rest

unfoldable pub get_login_user_list : LoginManager → List LoginUser
unfolding users
get_login_user_list m = users m.sessions

-- `now - user.logintime < ttl`
abbrev pub is_fresh : ℕ → ℕ → LoginUser → Bool
is_fresh now ttl user = signed_ltb ((now + (2 ^ 64 - user.logintime)) % 2 ^ 64) ttl

-- One round of the cleaner.
unfoldable pub clean : LoginManager → ℕ → LoginManager
clean m now = record m { sessions = retain (is_fresh now m.default_ttl_ms) m.sessions }
