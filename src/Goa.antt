-- ===== src/Goa.antt =====
-- services/flickr/flickr-credentials-manager-goa.c: the keys and tokens of the Flickr service from GNOME
-- Online Accounts. What the bus answers, and whether GIO makes a proxy, are arguments. As in Flickr, a
-- closure that waits is an entry of `waiting`, and the callbacks that were called are recorded in
-- order, each with the closure's `user_data`.
pub mod Answers
pub mod Overlap
mod Examples
use libsocialweb_flickr_oaut.Prelude.{
  not, true, str_eq, ◌==◌, if◌then◌else◌, ◌&&◌, ◌∷◌, some, ◌||◌, ◌++◌, [], Option, List, String,
  none, false, Bool, ℕ,
}
use libsocialweb_flickr_oaut.Flickr.{
  Answer, Error, failure, no_keys_provided, not_authorized, is_set,
}

pub data Closure : Type 0 where
  -- for GetManagedObjects, GetAccessToken and EnsureCredentials
  objects_closure token_closure ensure_closure : ℕ → Closure

pub record ManagerGoa : Type 0 where
  pub connected : Bool
  pub object_path : Option String
  pub consumer_key : Option String
  pub consumer_secret : Option String
  pub token : Option String
  pub token_secret : Option String
  pub waiting : List Closure
  pub answers : List Answer

-- `flickr_credentials_mgr_goa_instance_init`
unfoldable pub goa_new : ManagerGoa
goa_new = record {
  connected = false;
  object_path = none;
  consumer_key = none;
  consumer_secret = none;
  token = none;
  token_secret = none;
  waiting = [];
  answers = [];
}

unfoldable pub goa_call_back : ℕ → Bool → Option Error → ManagerGoa → ManagerGoa
goa_call_back user ok error m = record m {
  answers = m.answers ++ record { user = user; ok = ok; error = error } ∷ [];
}

unfoldable pub clear : ManagerGoa → ManagerGoa
clear m = record m {
  object_path = none;
  consumer_key = none;
  consumer_secret = none;
  token = none;
  token_secret = none;
}

-- `find_account`; `connects` is whether the session bus is there when it is asked for, `proxied`
-- whether a proxy is made over a connection.
unfoldable pub find_account : ℕ → Bool → Bool → ManagerGoa → ManagerGoa
unfolding goa_call_back
find_account user connects proxied m =
    let c : ManagerGoa = record m { connected = m.connected || connects } in
    if c.connected && proxied
    then record c { waiting = objects_closure user ∷ c.waiting }
    else goa_call_back user false none c

-- `flickr_credentials_mgr_goa_load_im`
unfoldable pub goa_load : ℕ → Bool → Bool → ManagerGoa → ManagerGoa
unfolding clear find_account
goa_load user connects proxied m = find_account user connects proxied (clear m)

-- An object of the bus: its path; the provider type of its interface Account; and the consumer key
-- and secret of its interface OAuthBased.
pub record Object : Type 0 where
  pub path : String
  pub account : Option (Option String)
  pub oauth : Option (Option String × Option String)

unfoldable pub is_flickr : Object → Bool
is_flickr o = elim o.account [
  | none ↦ false
  | some none ↦ false
  | some (some provider) ↦ str_eq provider "flickr"
]

-- The first account of the walk that is one of Flickr.
unfoldable pub first_flickr : List Object → Option Object
unfolding is_flickr
first_flickr [] = none
first_flickr (o ∷ objects) = let rest = first_flickr objects in if is_flickr o then some o else rest

-- The key and the secret, where both are there
unfoldable pub keys_of : Option (Option String × Option String) → Option (String × String)
keys_of none = none
keys_of (some (none, secret)) = none
keys_of (some (some key, none)) = none
keys_of (some (some key, some secret)) = some (key, secret)

-- `get_access_data`, with the callback that follows where it sets an error
unfoldable pub get_access_data : ℕ → Bool → Object → ManagerGoa → ManagerGoa
unfolding keys_of goa_call_back
get_access_data user proxied o m = elim (keys_of o.oauth) [
  | none ↦ goa_call_back user false (some failure) m
  | some (key, secret) ↦
      let k : ManagerGoa = record m { consumer_key = some key; consumer_secret = some secret } in
      if proxied
      then record k { waiting = token_closure user ∷ k.waiting }
      else goa_call_back user false (some failure) k
]

-- `on_managed_objects`; the reply is NULL where the call has failed. Without an account of Flickr
-- nothing is called.
unfoldable pub managed_objects : ℕ → Option (List Object) → Bool → ManagerGoa → ManagerGoa
unfolding first_flickr get_access_data
managed_objects user none proxied m = goa_call_back user false none m
managed_objects user (some objects) proxied m = elim (first_flickr objects) [
  | none ↦ m
  | some o ↦ get_access_data user proxied o (record m { object_path = some o.path })
]

-- `on_access_token`
unfoldable pub access_token : ℕ → Option (String × String) → ManagerGoa → ManagerGoa
unfolding goa_call_back
access_token user none m = goa_call_back user false none m
access_token user (some (token, secret)) m =
    goa_call_back user true none (record m { token = some token; token_secret = some secret })

unfoldable pub has_keys : ManagerGoa → Bool
has_keys m =
    is_set m.consumer_key && is_set m.consumer_secret && is_set m.token && is_set m.token_secret

-- `flickr_credentials_mgr_goa_check_im`
unfoldable pub goa_check : ℕ → Bool → ManagerGoa → ManagerGoa
unfolding has_keys goa_call_back
goa_check user proxied m =
    if not (is_set m.object_path)
    then goa_call_back user false (some failure) m
    else (if not (has_keys m)
        then goa_call_back user false (some no_keys_provided) m
        else (if proxied
            then record m { waiting = ensure_closure user ∷ m.waiting }
            else goa_call_back user false none m))

-- `on_ensure_credentials`, with the cached property "AttentionNeeded"
unfoldable pub ensure_credentials : ℕ → Option Bool → ManagerGoa → ManagerGoa
unfolding goa_call_back
ensure_credentials user (some false) m = goa_call_back user true none m
ensure_credentials user (some true) m = goa_call_back user false (some not_authorized) m
ensure_credentials user none m = goa_call_back user false (some not_authorized) m

-- What happens to a manager.
pub data GoaEvent : Type 0 where
  loads : ℕ → Bool → Bool → GoaEvent
  checks : ℕ → Bool → GoaEvent
  objects_arrive : ℕ → Option (List Object) → Bool → GoaEvent
  token_arrives : ℕ → Option (String × String) → GoaEvent
  ensured : ℕ → Option Bool → GoaEvent

-- The closure that an answer is for.
unfoldable pub same_closure : Closure → Closure → Bool
same_closure (objects_closure u) (objects_closure v) = u == v
same_closure (token_closure u) (token_closure v) = u == v
same_closure (ensure_closure u) (ensure_closure v) = u == v
same_closure c d = false

unfoldable pub take_waiting : Closure → List Closure → Option (List Closure)
unfolding same_closure
take_waiting c [] = none
take_waiting c (d ∷ ds) =
    let rest = take_waiting c ds in
    if same_closure d c then some ds else (elim rest [ none ↦ none | some es ↦ some (d ∷ es) ])

-- An answer is for a closure that waits; with none there is no answer.
unfoldable pub answering : Closure → (ManagerGoa → ManagerGoa) → ManagerGoa → ManagerGoa
unfolding take_waiting
answering c f m = elim (take_waiting c m.waiting) [
  | none ↦ m
  | some rest ↦ f (record m { waiting = rest })
]

unfoldable pub goa_step : GoaEvent → ManagerGoa → ManagerGoa
unfolding goa_load goa_check answering managed_objects access_token ensure_credentials
goa_step (loads user connects proxied) m = goa_load user connects proxied m
goa_step (checks user proxied) m = goa_check user proxied m
goa_step (objects_arrive user reply proxied) m =
    answering (objects_closure user) (managed_objects user reply proxied) m
goa_step (token_arrives user answer) m = answering (token_closure user) (access_token user answer) m
goa_step (ensured user attention) m =
    answering (ensure_closure user) (ensure_credentials user attention) m

unfoldable pub goa_run : List GoaEvent → ManagerGoa → ManagerGoa
unfolding goa_step
goa_run [] m = m
goa_run (e ∷ es) m = goa_run es (goa_step e m)
