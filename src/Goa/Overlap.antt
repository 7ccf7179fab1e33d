-- ===== src/Goa/Overlap.antt =====
-- One load, and two at a time (services/flickr/flickr-credentials-manager-goa.c).
use libsocialweb_flickr_oaut.Goa.{
  objects_closure, token_arrives, objects_arrive, loads, token_closure, first_flickr, Closure,
  Object, ManagerGoa, keys_of, goa_call_back, get_access_data, access_token, managed_objects,
  same_closure, take_waiting, answering, find_account, clear, goa_load, goa_step, goa_run,
}
use libsocialweb_flickr_oaut.Prelude.{
  arith, ◌++◌, [], ◌∷◌, ◌≡◌, String, List, Bool, ℕ, none, some, true,
}

-- A load that no other interrupts: where the first account of Flickr among the objects has both keys,
-- it is answered once, with TRUE, and the manager has the account's path, its keys and its token.
pub load_alone :
    (u : ℕ) (m : ManagerGoa) (objects : List Object) (o : Object)
    (key secret token token_secret : String)
    → m.connected ≡ true
    → first_flickr objects ≡ some o
    → o.oauth ≡ some (some key, some secret)
    → goa_run
        (loads u true true
          ∷ objects_arrive u (some objects) true
          ∷ token_arrives u (some (token, token_secret))
          ∷ [])
        m
      ≡ record m {
        object_path = some o.path;
        consumer_key = some key;
        consumer_secret = some secret;
        token = some token;
        token_secret = some token_secret;
        answers = m.answers ++ record { user = u; ok = true; error = none } ∷ [];
      }
unfolding goa_run goa_step goa_load clear find_account answering take_waiting same_closure
    managed_objects get_access_data keys_of access_token goa_call_back
load_alone u m objects o key secret token token_secret c f k = ground (arith, c, f, k)

-- While a load waits for its token, another load starts, and then the token arrives: the first is
-- answered with TRUE, although the second has cleared the consumer key and secret.
pub overlapping_loads :
    (u v : ℕ) (connects : Bool) (token token_secret : String) (m : ManagerGoa) (rest : List Closure)
    → m.connected ≡ true
    → take_waiting (token_closure u) m.waiting ≡ some rest
    → goa_run (loads v connects true ∷ token_arrives u (some (token, token_secret)) ∷ []) m
      ≡ record m {
        object_path = none;
        consumer_key = none;
        consumer_secret = none;
        token = some token;
        token_secret = some token_secret;
        waiting = objects_closure v ∷ rest;
        answers = m.answers ++ record { user = u; ok = true; error = none } ∷ [];
      }
unfolding goa_run goa_step goa_load clear find_account answering take_waiting same_closure
    access_token goa_call_back
overlapping_loads u v connects token token_secret m rest c t = ground (arith, c, t)
