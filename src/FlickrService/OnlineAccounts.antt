-- ===== src/FlickrService/OnlineAccounts.antt =====
-- The manager for Online Accounts (services/flickr/flickr-credentials-manager-goa.c) as an
-- implementation of the interface that the service uses, and a request that it never answers.
use libsocialweb_flickr_oaut.Goa.Answers.{any-first_flickr, any_flickr, held_goa}
use libsocialweb_flickr_oaut.FlickrService.{
  arrived, notified, World, resume, load_answered, ask_load, online_notify,
}
use libsocialweb_flickr_oaut.Goa.{
  managed_objects, same_closure, take_waiting, answering, Object, clear, find_account, ensured,
  token_arrives, goa_step, objects_arrive, goa_check, goa_load, ManagerGoa, GoaEvent,
}
use libsocialweb_flickr_oaut.Prelude.{
  arith, [], ◌∷◌, ◌≡◌, List, length, Option, Bool, some, true, false,
}
use libsocialweb_flickr_oaut.Credentials.{Credentials}
use libsocialweb_flickr_oaut.Flickr.{call_back, Answer}
use libsocialweb_flickr_oaut.Goa.{loads, checks}
use libsocialweb_flickr_oaut.FlickrService.{run, step}
use libsocialweb_flickr_oaut.FlickrService.Keystore.{newest, ok_of, newest_same}

-- What is outside on a call: whether the bus is there, whether a proxy is made, and what arrives.
pub record GoaOutside : Type 0 where
  pub connects : Bool
  pub proxied : Bool
  pub event : GoaEvent

-- An event that no request is made by
unfoldable pub goa_arrives : GoaEvent → ManagerGoa → ManagerGoa
goa_arrives (loads user connects proxied) m = m
goa_arrives (checks user proxied) m = m
goa_arrives (objects_arrive user reply proxied) m = goa_step (objects_arrive user reply proxied) m
goa_arrives (token_arrives user answer) m = goa_step (token_arrives user answer) m
goa_arrives (ensured user attention) m = goa_step (ensured user attention) m

abbrev called : (ManagerGoa → ManagerGoa) → ManagerGoa → ManagerGoa × Option Answer
called f m = (f m, newest (length m.answers) (f m).answers)

unfoldable pub goa_manager : Credentials ManagerGoa GoaOutside
goa_manager = record {
  load = λ user i m.
      let (next, answer) = called (goa_load user i.connects i.proxied) m in (next, ok_of answer);
  check =
      λ user i m. let (next, answer) = called (goa_check user i.proxied) m in (next, ok_of answer);
  resume = λ i m. called (goa_arrives i.event) m;
  held = λ user m. held_goa user m.waiting;
  get_consumer_key = λ m. m.consumer_key;
  get_consumer_secret = λ m. m.consumer_secret;
  get_token = λ m. m.token;
  get_token_secret = λ m. m.token_secret;
}

-- A bus and a proxy that are there, and an event.
abbrev pub there : GoaEvent → GoaOutside
there e = record { connects = true; proxied = true; event = e }

-- A service that has tokens learns that it is online, and so loads them again; but the account of Flickr
-- is gone from the objects that the bus lists. The manager drops its keys and tokens and calls no
-- callback: the service is as before, configured and perhaps authorised, and no request of it waits.
pub account_gone_unnoticed :
    (w : World ManagerGoa) (objects : List Object) (i j k : GoaOutside)
    → w.service.configured ≡ true
    → any_flickr objects ≡ false
    → run goa_manager
        (notified (there i.event) j true
          ∷ arrived (there (objects_arrive 0 (some objects) true)) k
          ∷ [])
        w
      ≡ record {
        service = w.service;
        credentials = record (clear w.credentials) { connected = true };
        online = true;
      }
unfolding run step online_notify ask_load load_answered resume call_back goa_manager goa_load
    find_account goa_arrives ok_of clear goa_step answering take_waiting same_closure
    managed_objects
account_gone_unnoticed w objects i j k c f =
    ground (arith, c, f, newest_same w.credentials.answers, any-first_flickr objects f)
