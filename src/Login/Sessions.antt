-- ===== src/Login/Sessions.antt =====
-- What the sessions are: new at every login, and gone only when they are too old.
use scouter_server_rust.Common.{
  ℕ, ◌+◌, ◌^◌, ◌≤◌, ◌<◌, ◌≡◌, ◌≢◌, ap, ◌∙◌, arith, Bool, true, false, Option, none, some,
  if◌then◌else◌, ◌-◌, ◌%◌, ltb, Bool-cases, inl, inr,
}
use scouter_server_rust.Word.{Bytes}
use scouter_server_rust.Assoc.{
  find, find-insert, find-insert_other, find-retain, find-retain-none, find-retain-gone, Apart,
  Apart-retain,
}
use scouter_server_rust.Login.{
  LoginUser, LoginManager, login, login_user, ok_session, valid_session, get_user, is_fresh, clean,
}

-- Sessions are positive and below the counter, which has not wrapped.
pub record IsValid (m : LoginManager) : Type 0 where
  pub low : 1 ≤ m.session_counter
  pub high : m.session_counter < 2 ^ 63
  pub issued : (s : ℕ) → m.session_counter ≤ s → find s m.sessions ≡ none
  pub zero_free : find 0 m.sessions ≡ none

valid_session-gone : (m : LoginManager) (s : ℕ) → find s m.sessions ≡ none → valid_session m s ≡ 0
unfolding valid_session ok_session
valid_session-gone m s h =
    ap (λ (o : Option LoginUser). if elim o [ none ↦ false | some user ↦ true ] then s else 0) h

valid_session-there :
    (m : LoginManager) (s : ℕ) (user : LoginUser)
    → find s m.sessions ≡ some user
    → valid_session m s ≡ s
unfolding valid_session ok_session
valid_session-there m s user h =
    ap (λ (o : Option LoginUser). if elim o [ none ↦ false | some user ↦ true ] then s else 0) h

-- For a well-formed manager whose counter has not come to its last value, a login gives a session
-- that was not valid before and is valid right after it, leaves every other session as it was, and
-- keeps the manager well-formed.
pub login_lem :
    (m : LoginManager) (now : ℕ) (id password ip : Bytes) (internal : Bool)
    → IsValid m
    → m.session_counter + 1 < 2 ^ 63
    → (valid_session m (login m now id password ip internal).1 ≡ 0)
      × (valid_session
            (login m now id password ip internal).0
            (login m now id password ip internal).1
          ≡ (login m now id password ip internal).1)
      × ((s : ℕ)
          → s ≢ (login m now id password ip internal).1
          → get_user (login m now id password ip internal).0 s ≡ get_user m s)
      × IsValid (login m now id password ip internal).0
unfolding login get_user
login_lem m now id password ip internal v next_fits = (
  valid_session-gone m m.session_counter (v.issued m.session_counter (omega arith)),
  valid_session-there (login m now id password ip internal).0 m.session_counter
      (login_user m now id ip internal)
      (find-insert m.session_counter (login_user m now id ip internal) m.sessions),
  λ s ne. find-insert_other m.session_counter s (login_user m now id ip internal) m.sessions ne,
  record {
    low = omega (arith, v.low, next_fits);
    high = omega (arith, next_fits);
    issued = λ s le.
        find-insert_other m.session_counter s (login_user m now id ip internal) m.sessions
          (λ same. omega (arith, le, next_fits, same))
        ∙ v.issued s (omega (arith, le, next_fits));
    zero_free =
        find-insert_other m.session_counter 0 (login_user m now id ip internal) m.sessions
          (λ same. omega (arith, v.low, same))
        ∙ v.zero_free;
  },
)

-- When no number occurs twice, at a time before 2 ^ 63: a round of the cleaner keeps a session whose
-- login is less than the time to live ago and removes it otherwise, makes no session valid that was
-- not, and again no number occurs twice.
pub clean_lem :
    (m : LoginManager) (now s : ℕ) (user : LoginUser)
    → Apart m.sessions
    → m.default_ttl_ms < 2 ^ 63
    → now < 2 ^ 63
    → user.logintime ≤ now
    → get_user m s ≡ some user
    → (get_user (clean m now) s
        ≡ (if ltb (now - user.logintime) m.default_ttl_ms then some user else none))
      × ((t : ℕ) → get_user m t ≡ none → get_user (clean m now) t ≡ none)
      × Apart (clean m now).sessions
unfolding clean get_user
clean_lem m now s user apart ttl word past there =
    let keep = is_fresh now m.default_ttl_ms in
    let age : (now + (2 ^ 64 - user.logintime)) % 2 ^ 64 ≡ now - user.logintime = omega arith in
    let tested : keep user ≡ ltb (now - user.logintime) m.default_ttl_ms = rw age (ground arith) in
    (
      elim (Bool-cases (ltb (now - user.logintime) m.default_ttl_ms)) [
        | inl young ↦ rw young (find-retain keep s user m.sessions there (tested ∙ young))
        | inr old ↦ rw old (find-retain-gone keep s user m.sessions there (tested ∙ old) apart)
      ],
      λ t gone. find-retain-none keep t m.sessions gone,
      Apart-retain keep m.sessions apart,
    )
