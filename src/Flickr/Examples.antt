-- ===== src/Flickr/Examples.antt =====
-- A session, as an instance of the theorems on services/flickr/flickr-credentials-manager.c.
use libsocialweb_flickr_oaut.Flickr.Answers.{
  account-run, account, requested, requested_in, held_back, answered,
}
use libsocialweb_flickr_oaut.Prelude.{refl, ◌+◌, none, [], true, ◌≡◌, ◌∷◌, false, some, List}
use libsocialweb_flickr_oaut.Flickr.{
  no_keys_provided, is_check, is_load, take_closure, is_stat_ok, is_successful, root_ok,
  token_looked_up, has_all, check, look_up_token, call_back, load, step, run, Event,
  credentials_checked, credentials_ok, new, Response, loads, checks, looked_up, checked,
}

abbrev good_reply : Response
good_reply = record {
  status = 200;
  root = some (record { name = "rsp"; stat = some "ok"; has_err = false });
}

-- Caller 1 loads, caller 2 checks too early, and then again with the token there.
abbrev session : List Event
session =
    loads 1 (some "key") (some "secret")
    ∷ checks 2 true
    ∷ looked_up 1 true (some "token") (some "token secret")
    ∷ checks 2 true
    ∷ checked 2 false (some good_reply)
    ∷ []

account-run_example : account 2 (run session new) ≡ 0 + 2
unfolding new answered held_back requested_in requested
account-run_example = account-run 2 session new

session_answers :
    (run session new).answers
    ≡ record { user = 2; ok = false; error = some no_keys_provided }
      ∷ record { user = 1; ok = true; error = none }
      ∷ record { user = 2; ok = true; error = none }
      ∷ []
unfolding new run step load look_up_token check has_all call_back token_looked_up
    credentials_checked credentials_ok root_ok is_successful is_stat_ok take_closure is_load
    is_check
session_answers = refl
