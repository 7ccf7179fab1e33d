-- ===== src/FlickrService/Examples.antt =====
-- A service in use, as an instance of the theorems on services/flickr/flickr.c.
use libsocialweb_flickr_oaut.Goa.Answers.{any_flickr}
use libsocialweb_flickr_oaut.FlickrService.Settled.{capabilities_told, IsSettled}
use libsocialweb_flickr_oaut.FlickrService.OnlineAccounts.{
  account_gone_unnoticed, goa_manager, there, GoaOutside,
}
use libsocialweb_flickr_oaut.Goa.{objects_arrive, ensured, clear, ManagerGoa}
use libsocialweb_flickr_oaut.FlickrService.Told.{announced}
use libsocialweb_flickr_oaut.Prelude.{refl, ◌≡◌, ◌∷◌, [], List, none, some, true, false}
use libsocialweb_flickr_oaut.Flickr.{call_back, Manager, new, Response, loads, looked_up, checked}
use libsocialweb_flickr_oaut.FlickrService.{
  get_dynamic_caps, emit_user, emit_caps, on_credentials_checked, check_answered, ask_check,
  check_tokens, configure, on_credentials_available, resume, load_answered, ask_load, notified,
  forget, arrived, credentials_updated, initable_init, initialised, service_init, run, step, Event,
  World,
}
use libsocialweb_flickr_oaut.FlickrService.Keystore.{Outside, manager, manager-IsAnswering}

abbrev good_reply : Response
good_reply = record {
  status = 200;
  root = some (record { name = "rsp"; stat = some "ok"; has_err = false });
}

abbrev with_keys : Outside
with_keys = record {
  key = some "key";
  secret = some "secret";
  starts = true;
  event = looked_up 0 true (some "token") (some "token secret");
}

abbrev accepts : Outside
accepts = record {
  key = some "key";
  secret = some "secret";
  starts = true;
  event = checked 1 false (some good_reply);
}

-- The service starts, has its tokens, and has them checked.
abbrev session : List (Event Outside)
session =
    initialised with_keys with_keys ∷ arrived with_keys with_keys ∷ arrived accepts accepts ∷ []

abbrev begun : World Manager
begun = record { service = service_init; credentials = new; online = true }

session_told :
    announced (run manager session begun).service.emitted
    ≡ "is-configured" ∷ "credentials-valid" ∷ []
unfolding announced run step initable_init credentials_updated forget ask_load load_answered resume
    call_back on_credentials_available configure check_tokens ask_check check_answered
    on_credentials_checked emit_caps emit_user get_dynamic_caps manager service_init new
    libsocialweb_flickr_oaut.FlickrService.Keystore.newest
    libsocialweb_flickr_oaut.FlickrService.Keystore.ok_of libsocialweb_flickr_oaut.Flickr.load
    libsocialweb_flickr_oaut.Flickr.look_up_token
    libsocialweb_flickr_oaut.FlickrService.Keystore.arrives libsocialweb_flickr_oaut.Flickr.step
    libsocialweb_flickr_oaut.Flickr.take_closure libsocialweb_flickr_oaut.Flickr.is_load
    libsocialweb_flickr_oaut.Flickr.token_looked_up libsocialweb_flickr_oaut.Flickr.check
    libsocialweb_flickr_oaut.Flickr.has_all libsocialweb_flickr_oaut.Flickr.is_check
    libsocialweb_flickr_oaut.Flickr.credentials_checked
    libsocialweb_flickr_oaut.Flickr.credentials_ok
session_told = refl

capabilities_told_example : IsSettled manager (run manager session begun)
unfolding service_init
capabilities_told_example = capabilities_told manager manager-IsAnswering session new true

-- An account that was there
abbrev authorised_world : World ManagerGoa
authorised_world = record {
  service = record {
    inited = true;
    configured = true;
    authorised = true;
    proxy = none;
    upload_proxy = none;
    emitted = [];
  };
  credentials = record {
    connected = true;
    object_path = some "/org/gnome/OnlineAccounts/Accounts/1";
    consumer_key = some "key";
    consumer_secret = some "secret";
    token = some "token";
    token_secret = some "token secret";
    waiting = [];
    answers = [];
  };
  online = true;
}

abbrev quiet : GoaOutside
quiet = there (ensured 1 none)

account_gone_unnoticed_example :
    run goa_manager
      (notified quiet quiet true ∷ arrived (there (objects_arrive 0 (some []) true)) quiet ∷ [])
      authorised_world
    ≡ record {
      service = authorised_world.service;
      credentials = record (clear authorised_world.credentials) { connected = true };
      online = true;
    }
unfolding clear any_flickr
account_gone_unnoticed_example =
    account_gone_unnoticed authorised_world [] quiet quiet quiet refl refl
