-- ===== src/Goa/Examples.antt =====
-- Loads from Online Accounts, as instances of the theorems on
-- services/flickr/flickr-credentials-manager-goa.c.
use libsocialweb_flickr_oaut.Goa.Overlap.{overlapping_loads, load_alone}
use libsocialweb_flickr_oaut.Goa.Answers.{
  account-goa_run, asked_in, any_flickr, forgotten, forgotten_in, goa_account,
}
use libsocialweb_flickr_oaut.Prelude.{refl, ◌≡◌, [], ◌+◌, ◌∷◌, List, none, some, true}
use libsocialweb_flickr_oaut.Goa.{
  goa_call_back, access_token, keys_of, get_access_data, managed_objects, answering, find_account,
  objects_closure, clear, goa_load, token_arrives, goa_step, objects_arrive, goa_new, is_flickr,
  same_closure, token_closure, goa_run, GoaEvent, first_flickr, take_waiting, ManagerGoa, Object,
  loads,
}

abbrev mail : Object
mail = record { path = "/1"; account = some (some "google"); oauth = none }

abbrev account : Object
account = record {
  path = "/2";
  account = some (some "flickr");
  oauth = some (some "key", some "secret");
}

-- The first load of caller 1 meets an account, the second does not.
abbrev session : List GoaEvent
session =
    loads 1 true true
    ∷ objects_arrive 1 (some (mail ∷ account ∷ [])) true
    ∷ token_arrives 1 (some ("token", "token secret"))
    ∷ loads 1 true true
    ∷ objects_arrive 1 (some (mail ∷ [])) true
    ∷ []

account-goa_run_example :
    goa_account 1 (goa_run session goa_new) + forgotten_in 1 session goa_new
    ≡ goa_account 1 goa_new + asked_in 1 session
account-goa_run_example = account-goa_run 1 session goa_new

one_forgotten : forgotten_in 1 session goa_new ≡ 0 + 1
unfolding forgotten_in forgotten any_flickr is_flickr goa_step goa_load clear find_account goa_new
    answering take_waiting same_closure managed_objects first_flickr get_access_data keys_of
    access_token goa_call_back
one_forgotten = refl

abbrev connected : ManagerGoa
connected = record {
  connected = true;
  object_path = none;
  consumer_key = some "key";
  consumer_secret = some "secret";
  token = none;
  token_secret = none;
  waiting = token_closure 1 ∷ [];
  answers = [];
}

overlapping_loads_example :
    goa_run (loads 2 true true ∷ token_arrives 1 (some ("token", "token secret")) ∷ []) connected
    ≡ record connected {
      object_path = none;
      consumer_key = none;
      consumer_secret = none;
      token = some "token";
      token_secret = some "token secret";
      waiting = objects_closure 2 ∷ [];
      answers = record { user = 1; ok = true; error = none } ∷ [];
    }
unfolding take_waiting same_closure
overlapping_loads_example = overlapping_loads 1 2 true "token" "token secret" connected [] refl refl

load_alone_example :
    goa_run
      (loads 1 true true
        ∷ objects_arrive 1 (some (mail ∷ account ∷ [])) true
        ∷ token_arrives 1 (some ("token", "token secret"))
        ∷ [])
      connected
    ≡ record connected {
      object_path = some "/2";
      consumer_key = some "key";
      consumer_secret = some "secret";
      token = some "token";
      token_secret = some "token secret";
      answers = record { user = 1; ok = true; error = none } ∷ [];
    }
unfolding first_flickr is_flickr
load_alone_example =
    load_alone 1 connected (mail ∷ account ∷ []) account "key" "secret" "token" "token secret" refl
      refl refl
