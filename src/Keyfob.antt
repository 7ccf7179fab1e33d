-- ===== src/Keyfob.antt =====
-- libsocialweb-keyfob: the tokens of a proxy from the keyring, in sw-keyfob-oauth.c, sw-keyfob-oauth2.c
-- and sw-keyfob-flickr.c. The keyring and base 64 are arguments: the keyring gives the text of the item
-- that a search finds, or none for a result other than OK; a decoded text is what its block holds.
pub mod Tokens
mod Examples
use libsocialweb_flickr_oaut.Prelude.{
  List, [], true, ◌==◌, false, some, if◌then◌else◌, Bool, ◌∷◌, none, ℕ, ◌++◌, Option, String,
}
use libsocialweb_flickr_oaut.Service.{Bytes}

-- What `gnome_keyring_find_password` is given: the attributes of the schema, the server, and one more
-- attribute with its value
pub record Search : Type 0 where
  pub schema : List String
  pub server : String
  pub attribute : String
  pub value : String

abbrev pub Keyring : Type 0
Keyring = Search → Option Bytes

-- The properties of a proxy
pub record Proxy : Type 0 where
  -- "url-format"
  pub url_format : String
  -- "consumer-key", "client-id" or the API key
  pub key : String
  pub token : Option Bytes
  pub token_secret : Option Bytes

-- The searches of `sw_keyfob_oauth`, which `sw_keyfob_oauth_sync` makes too, of `sw_keyfob_oauth2`, of
-- `sw_keyfob_oauth2_sync`, and of `sw_keyfob_flickr`, which `sw_keyfob_flickr_sync` makes too
unfoldable pub oauth_search : Proxy → Search
oauth_search proxy = record {
  schema = "server" ∷ "consumer-key" ∷ [];
  server = proxy.url_format;
  attribute = "consumer-key";
  value = proxy.key;
}

unfoldable pub oauth2_search : Proxy → Search
oauth2_search proxy = record {
  schema = "server" ∷ "client-id" ∷ [];
  server = proxy.url_format;
  attribute = "client-id";
  value = proxy.key;
}

unfoldable pub oauth2_sync_search : Proxy → Search
unfolding oauth2_search
oauth2_sync_search proxy = record (oauth2_search proxy) { attribute = "consumer-key" }

unfoldable pub flickr_search : Proxy → Search
flickr_search proxy = record {
  schema = "server" ∷ "api-key" ∷ [];
  server = "http://flickr.com/";
  attribute = "api-key";
  value = proxy.key;
}

-- `g_strsplit` at " " in two at most: what stands before the first space, and after it
unfoldable pub split_space : Bytes → Option (Bytes × Bytes)
split_space [] = none
split_space (c ∷ cs) =
    let rest = split_space cs in
    if c == 32 then some ([], cs) else (elim rest [ none ↦ none | some (x, y) ↦ some (c ∷ x, y) ])

module _ (base64_encode base64_decode : Bytes → Bytes) where
  -- `decode`: the token and its secret
  unfoldable pub decode : Bytes → Option (Bytes × Bytes)
  unfolding split_space
  decode string = elim (split_space string) [
    | none ↦ none
    | some (x, y) ↦ some (base64_decode x, base64_decode y)
  ]

  -- `encode`, which the tests build
  unfoldable pub encode : Bytes → Bytes → Bytes
  encode token secret = base64_encode token ++ (32 ∷ base64_encode secret)

  -- `find_oauth_key_cb`: what its callback is given, and the proxy
  unfoldable pub find_oauth_key : Option Bytes → Proxy → Bool × Proxy
  unfolding decode
  find_oauth_key none proxy = (false, proxy)
  find_oauth_key (some string) proxy = elim (decode string) [
    | none ↦ (false, proxy)
    | some (token, secret) ↦ (true, record proxy { token = some token; token_secret = some secret })
  ]

  -- `sw_keyfob_oauth_sync`
  unfoldable pub keyfob_oauth_sync : Keyring → Proxy → Bool × Proxy
  unfolding decode oauth_search
  keyfob_oauth_sync keyring proxy = elim (keyring (oauth_search proxy)) [
    | none ↦ (false, proxy)
    | some password ↦ elim (decode password) [
      | none ↦ (false, proxy)
      | some (token, secret) ↦
          (true, record proxy { token = some token; token_secret = some secret })
    ]
  ]

  -- `find_oauth2_key_cb`, whose decoding gives NULL for no text
  unfoldable pub find_oauth2_key : Option Bytes → Proxy → Bool × Proxy
  find_oauth2_key none proxy = (false, proxy)
  find_oauth2_key (some password) proxy =
      (true, record proxy { token = some (base64_decode password) })

  -- `sw_keyfob_oauth2_sync`
  unfoldable pub keyfob_oauth2_sync : Keyring → Proxy → Bool × Proxy
  unfolding find_oauth2_key oauth2_sync_search
  keyfob_oauth2_sync keyring proxy = find_oauth2_key (keyring (oauth2_sync_search proxy)) proxy

-- `find_flickr_key_cb`
unfoldable pub find_flickr_key : Option Bytes → Proxy → Bool × Proxy
find_flickr_key none proxy = (false, proxy)
find_flickr_key (some string) proxy = (true, record proxy { token = some string })

-- `sw_keyfob_flickr_sync`
unfoldable pub keyfob_flickr_sync : Keyring → Proxy → Bool × Proxy
unfolding flickr_search
keyfob_flickr_sync keyring proxy = elim (keyring (flickr_search proxy)) [
  | none ↦ (false, proxy)
  | some password ↦ (true, record proxy { token = some password })
]
