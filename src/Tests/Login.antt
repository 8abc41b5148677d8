-- ===== src/Tests/Login.antt =====
-- src/login at a concrete manager.
use scouter_server_rust.Common.{
  ℕ, ◌+◌, ◌<◌, ◌^◌, ◌≡◌, ◌≢◌, refl, arith, true, none, some, ltb, ◌-◌, if◌then◌else◌, [], ◌∷◌,
}
use scouter_server_rust.Word.{Bytes}
use scouter_server_rust.Assoc.{find, insert, Apart}
use scouter_server_rust.Login.{
  LoginUser, LoginManager, new, login, login_user, valid_session, get_user, clean,
}
use scouter_server_rust.Login.Sessions.{IsValid, login_lem, clean_lem}

abbrev name : Bytes
name = 97 ∷ []

new-IsValid : IsValid new
unfolding new find
new-IsValid = record {
  low = omega arith;
  high = omega arith;
  issued = λ s le. refl;
  zero_free = refl;
}

counter_fits : new.session_counter + 1 < 2 ^ 63
unfolding new
counter_fits = omega arith

login_lem_example :
    (valid_session new (login new 5 name [] [] true).1 ≡ 0)
    × (valid_session (login new 5 name [] [] true).0 (login new 5 name [] [] true).1
        ≡ (login new 5 name [] [] true).1)
    × ((s : ℕ)
        → s ≢ (login new 5 name [] [] true).1
        → get_user (login new 5 name [] [] true).0 s ≡ get_user new s)
    × IsValid (login new 5 name [] [] true).0
login_lem_example = login_lem new 5 name [] [] true new-IsValid counter_fits

abbrev one : LoginManager
one = (login new 5 name [] [] true).0

abbrev someone : LoginUser
someone = login_user new 5 name [] true

one_there : get_user one 1 ≡ some someone
unfolding get_user login new insert find
one_there = refl

one-Apart : Apart one.sessions
unfolding login new insert find
one-Apart = (refl, tt)

one_ttl : one.default_ttl_ms < 2 ^ 63
unfolding login new
one_ttl = omega arith

-- After three hours, to the millisecond.
clean_lem_example :
    (get_user (clean one 10800005) 1
      ≡ (if ltb (10800005 - someone.logintime) one.default_ttl_ms then some someone else none))
    × ((t : ℕ) → get_user one t ≡ none → get_user (clean one 10800005) t ≡ none)
    × Apart (clean one 10800005).sessions
clean_lem_example =
    clean_lem one 10800005 1 someone one-Apart one_ttl (omega arith) (omega arith) one_there
