-- ===== src/Twitter.antt =====
-- services/twitter/twitter.c: the credentials of the service and the capabilities that it announces. The
-- calls of the site, the lookups of the keyring and the online state are events; a call that is made
-- waits until its reply comes. A document that verifies credentials has the three elements that are read.
pub mod Settled
mod Examples
use libsocialweb_flickr_oaut.Prelude.{
  ◌-◌, ◌+◌, str_eq, none, ltb, true, some, [], ◌&&◌, false, ℕ, if◌then◌else◌, String, ◌∷◌, List,
  Bool, Option,
}

-- The enumeration of `credentials`
pub data CredentialState : Type 0 where
  offline creds_invalid creds_valid : CredentialState

pub data TwitterCap : Type 0 where
  is_configured credentials_valid credentials_invalid can_update_status can_request_avatar
        can_update_status_with_geotag can_geotag :
      TwitterCap

-- `SwServiceTwitterPrivate`: whether the proxy has a token and whether there is a proxy for TwitPic, the
-- calls for a token and for the account that wait, and the capabilities announced, the newest first.
pub record Twitter : Type 0 where
  pub credentials : CredentialState
  pub user_id : Option String
  pub image_url : Option String
  pub username : Option String
  pub password : Option String
  pub geotag_enabled : Bool
  pub has_token : Bool
  pub has_twitpic : Bool
  pub token_calls : ℕ
  pub verify_calls : ℕ
  pub announced : List (List TwitterCap)

abbrev pub is_set : Option String → Bool
is_set none = false
is_set (some text) = true

abbrev pub has_password : Twitter → Bool
has_password o = is_set o.username && is_set o.password

-- `sw_service_twitter_initable`, where there are keys
unfoldable pub twitter_new : Twitter
twitter_new = record {
  credentials = offline;
  user_id = none;
  image_url = none;
  username = none;
  password = none;
  geotag_enabled = false;
  has_token = false;
  has_twitpic = false;
  token_calls = 0;
  verify_calls = 0;
  announced = [];
}

-- `get_dynamic_caps`
unfoldable pub dynamic_caps : Twitter → List TwitterCap
dynamic_caps o = elim o.credentials [
  | creds_valid ↦
      if o.geotag_enabled
      then is_configured ∷ credentials_valid ∷ can_update_status ∷ can_request_avatar
        ∷ can_update_status_with_geotag ∷ can_geotag ∷ []
      else is_configured ∷ credentials_valid ∷ can_update_status ∷ can_request_avatar ∷ []
  | creds_invalid ↦ is_configured ∷ credentials_invalid ∷ []
  | offline ↦ if has_password o then is_configured ∷ [] else []
]

-- `sw_service_emit_capabilities_changed` of `get_dynamic_caps`
unfoldable pub announce : Twitter → Twitter
unfolding dynamic_caps
announce o = record o { announced = dynamic_caps o ∷ o.announced }

-- What `verify_cb` reads of a document
pub record Account : Type 0 where
  pub id : String
  pub profile_image_url : String
  pub geo_enabled : String

-- `verify_cb`, with none where `node_from_call` gives no document
unfoldable pub verify : Option Account → Twitter → Twitter
unfolding announce
verify none o = o
verify (some account) o = announce (record o {
  credentials = creds_valid;
  user_id = some account.id;
  image_url = some account.profile_image_url;
  geotag_enabled = str_eq account.geo_enabled "true";
})

-- `_oauth_access_token_cb`, given whether there is no error
unfoldable pub oauth_access_token : Bool → Twitter → Twitter
unfolding announce
oauth_access_token ok o =
    if ok
    then record o { has_token = true; has_twitpic = true; verify_calls = o.verify_calls + 1 }
    else announce (record o { credentials = creds_invalid })

-- `online_notify`
unfoldable pub online_notify : Bool → Twitter → Twitter
unfolding announce
online_notify online o =
    if online
    then record o {
      has_token = false;
      credentials = offline;
      token_calls = if has_password o then o.token_calls + 1 else o.token_calls;
    }
    else announce
        (record o { has_token = false; user_id = none; has_twitpic = false; credentials = offline })

-- `found_password_cb`, with what `sw_is_online` says, and none where nothing is found
unfoldable pub found_password : Bool → Option (Option String × Option String) → Twitter → Twitter
unfolding announce online_notify
found_password online none o =
    announce (record o { username = none; password = none; credentials = offline })
found_password online (some (user, password)) o =
    let known = record o { username = user; password = password } in
    announce (if online then online_notify true (online_notify false known) else known)

pub data TwitterEvent : Type 0 where
  goes_online : Bool → TwitterEvent
  password_found : Bool → Option (Option String × Option String) → TwitterEvent
  token_replied : Bool → TwitterEvent
  verified : Option Account → TwitterEvent

-- A reply comes only to a call that waits.
unfoldable pub twitter_step : TwitterEvent → Twitter → Twitter
unfolding online_notify found_password oauth_access_token verify
twitter_step (goes_online online) o = online_notify online o
twitter_step (password_found online found) o = found_password online found o
twitter_step (token_replied ok) o =
    if ltb 0 o.token_calls
    then oauth_access_token ok (record o { token_calls = o.token_calls - 1 })
    else o
twitter_step (verified account) o =
    if ltb 0 o.verify_calls
    then verify account (record o { verify_calls = o.verify_calls - 1 })
    else o

unfoldable pub twitter_run : List TwitterEvent → Twitter → Twitter
unfolding twitter_step
twitter_run [] o = o
twitter_run (e ∷ es) o = twitter_run es (twitter_step e o)
