-- ===== src/FlickrService.antt =====
-- services/flickr/flickr.c: the state of the Flickr service on top of an object that gets its
-- credentials, given by the interface of services/flickr/flickr-credentials.c. The service's requests
-- have the user_data 0 for `_on_credentials_available` and 1 for `_on_credentials_checked`; its views
-- share the object, and have others. `sw_is_online` answers what was last notified, as with ConnMan.
pub mod Told
pub mod Settled
pub mod Keystore
pub mod OnlineAccounts
mod Examples
use libsocialweb_flickr_oaut.Prelude.{
  not, ℕ, true, ◌||◌, ◌&&◌, ◌==◌, some, [], String, ◌+◌, if◌then◌else◌, none, ◌∷◌, false, Bool,
  List, Option,
}
use libsocialweb_flickr_oaut.Credentials.{Credentials}
use libsocialweb_flickr_oaut.Flickr.{Answer}

-- An `OAuthProxy`, without its URL.
pub record Proxy : Type 0 where
  pub consumer_key : Option String
  pub consumer_secret : Option String
  pub token : Option String
  pub token_secret : Option String

pub data Signal : Type 0 where
  user_changed : Signal
  capabilities_changed : List String → Signal

pub record SwServiceFlickr : Type 0 where
  pub inited : Bool
  pub configured : Bool
  pub authorised : Bool
  pub proxy : Option Proxy
  pub upload_proxy : Option Proxy
  -- what was emitted, the latest first
  pub emitted : List Signal

-- `sw_service_flickr_init`
unfoldable pub service_init : SwServiceFlickr
service_init = record {
  inited = false;
  configured = false;
  authorised = false;
  proxy = none;
  upload_proxy = none;
  emitted = [];
}

unfoldable pub get_static_caps : List String
get_static_caps =
    "can-verify-credentials" ∷ "has-photo-upload-iface" ∷ "has-video-upload-iface"
    ∷ "has-banishable-iface" ∷ "has-query-iface" ∷ "has-contacts-query-iface" ∷ []

unfoldable pub get_dynamic_caps : SwServiceFlickr → List String
get_dynamic_caps s =
    if s.configured
    then (if s.authorised
        then "is-configured" ∷ "credentials-valid" ∷ []
        else "is-configured" ∷ "credentials-invalid" ∷ [])
    else []

unfoldable pub emit_caps : SwServiceFlickr → SwServiceFlickr
unfolding get_dynamic_caps
emit_caps s = record s { emitted = capabilities_changed (get_dynamic_caps s) ∷ s.emitted }

unfoldable pub emit_user : SwServiceFlickr → SwServiceFlickr
emit_user s = record s { emitted = user_changed ∷ s.emitted }

-- The part of `credentials_updated` before the load.
unfoldable pub forget : SwServiceFlickr → SwServiceFlickr
unfolding emit_caps emit_user
forget s =
    if s.configured || s.authorised
    then emit_caps (emit_user (record s { configured = false; authorised = false }))
    else s

-- `oauth_proxy_set_token` and `oauth_proxy_set_token_secret`, which do nothing to NULL
unfoldable pub set_token : Option String → Option String → Option Proxy → Option Proxy
set_token token token_secret none = none
set_token token token_secret (some p) =
    some (record p { token = token; token_secret = token_secret })

-- `==` on `gboolean`
abbrev pub same_gboolean : Bool → Bool → Bool
same_gboolean a b = if a then b else not b

-- The service, its credentials, and the state of the network.
pub record World (M : Type 0) : Type 0 where
  pub service : SwServiceFlickr
  pub credentials : M
  pub online : Bool

module _ {M I : Type 0} (c : Credentials M I) where
  unfoldable pub on_credentials_checked : Bool → World M → World M
  unfolding emit_caps set_token
  on_credentials_checked ok w =
      let s : SwServiceFlickr = record w.service { authorised = ok } in
      let token = c.get_token w.credentials in
      let token_secret = c.get_token_secret w.credentials in
      let t : SwServiceFlickr =
        if ok
        then record s {
          proxy = set_token token token_secret s.proxy;
          upload_proxy = set_token token token_secret s.upload_proxy;
        }
        else s in
      record w { service = emit_caps t }

  -- The callback of a check, where it is called
  unfoldable pub check_answered : Option Bool → World M → World M
  unfolding on_credentials_checked
  check_answered none w = w
  check_answered (some ok) w = on_credentials_checked ok w

  -- `flickr_credentials_check (priv->credentials, _on_credentials_checked, self)`
  unfoldable pub ask_check : I → World M → World M
  unfolding check_answered
  ask_check i w =
      let (m, answer) = c.check 1 i w.credentials in
      check_answered answer (record w { credentials = m })

  -- `oauth_proxy_new`
  unfoldable pub proxy_new : World M → Proxy
  proxy_new w = record {
    consumer_key = c.get_consumer_key w.credentials;
    consumer_secret = c.get_consumer_secret w.credentials;
    token = none;
    token_secret = none;
  }

  -- The part of `_on_credentials_available` before the check.
  unfoldable pub configure : Bool → World M → SwServiceFlickr
  unfolding emit_caps emit_user proxy_new
  configure available w =
      let s : SwServiceFlickr =
        if same_gboolean w.service.configured available
        then w.service
        else emit_caps (emit_user (record w.service { configured = available })) in
      let t : SwServiceFlickr =
        if available
        then record s { proxy = some (proxy_new w); upload_proxy = some (proxy_new w) }
        else s in
      record t { authorised = false }

  -- The part after it: the new state, and the check.
  unfoldable pub check_tokens : I → World M → World M
  unfolding ask_check
  check_tokens i w = if w.service.configured && w.online then ask_check i w else w

  unfoldable pub on_credentials_available : I → Bool → World M → World M
  unfolding configure check_tokens
  on_credentials_available i available w =
      check_tokens i (record w { service = configure available w })

  -- The callback of a load, where it is called; `i` is outside of the check that it may make
  unfoldable pub load_answered : I → Option Bool → World M → World M
  unfolding on_credentials_available
  load_answered i none w = w
  load_answered i (some ok) w = on_credentials_available i ok w

  -- `flickr_credentials_load (priv->credentials, _on_credentials_available, service)`
  unfoldable pub ask_load : I → I → World M → World M
  unfolding load_answered
  ask_load i j w =
      let (m, answer) = c.load 0 i w.credentials in
      load_answered j answer (record w { credentials = m })

  unfoldable pub credentials_updated : I → I → World M → World M
  unfolding forget ask_load
  credentials_updated i j w = ask_load i j (record w { service = forget w.service })

  -- `sw_service_flickr_initable`
  unfoldable pub initable_init : I → I → World M → World M
  unfolding credentials_updated
  initable_init i j w =
      if w.service.inited
      then w
      else credentials_updated i j (record w { service = record w.service { inited = true } })

  -- `online_notify`, when the state has changed
  unfoldable pub online_notify : I → I → Bool → World M → World M
  unfolding ask_load ask_check emit_caps
  online_notify i j online w =
      let x : World M = record w { online = online } in
      if online
      then (if x.service.configured then ask_load i j x else ask_check i x)
      else record x { service = emit_caps (record x.service { authorised = false }) }

  -- A callback that is called when an answer arrives; that of a view is not the service's.
  unfoldable pub call_back : I → Option Answer → World M → World M
  unfolding on_credentials_available on_credentials_checked
  call_back j none w = w
  call_back j (some a) w =
      if a.user == 0
      then on_credentials_available j a.ok w
      else (if a.user == 1 then on_credentials_checked a.ok w else w)

  unfoldable pub resume : I → I → World M → World M
  unfolding call_back
  resume i j w =
      let (m, answer) = c.resume i w.credentials in
      call_back j answer (record w { credentials = m })

-- What happens to a service.
pub data Event (I : Type 0) : Type 0 where
  initialised updated arrived : I → I → Event I
  notified : I → I → Bool → Event I
  -- a view loads
  view_loads : ℕ → I → Event I

module _ {M I : Type 0} (c : Credentials M I) where
  unfoldable pub step : Event I → World M → World M
  unfolding initable_init credentials_updated online_notify resume
  step (initialised i j) w = initable_init c i j w
  step (updated i j) w = credentials_updated c i j w
  step (arrived i j) w = resume c i j w
  step (notified i j online) w = online_notify c i j online w
  step (view_loads view i) w = record w { credentials = (c.load (2 + view) i w.credentials).0 }

  unfoldable pub run : List (Event I) → World M → World M
  run [] w = w
  run (e ∷ es) w = run es (step e w)
