-- ===== src/Keyfob/Examples.antt =====
-- Stored tokens, as instances of the theorems on libsocialweb-keyfob/sw-keyfob-oauth.c and
-- libsocialweb-keyfob/sw-keyfob-oauth2.c.
use libsocialweb_flickr_oaut.Keyfob.{
  find_oauth_key, keyfob_oauth2_sync, encode, find_oauth2_key, keyfob_oauth_sync, oauth2_search,
  oauth_search, Search, Proxy,
}
use libsocialweb_flickr_oaut.Keyfob.Tokens.{
  stored_token, oauth2_sync_misses, has_attribute, has_space,
}
use libsocialweb_flickr_oaut.Prelude.{
  str_eq, ◌&&◌, if◌then◌else◌, [], Option, arith, ◌-◌, ◌+◌, ◌≡◌, ◌∷◌, none, some, true, false, refl,
}
use libsocialweb_flickr_oaut.Service.{Bytes}

-- Codes for bytes that no space is among
abbrev above : Bytes → Bytes
above [] = []
above (c ∷ cs) = (c + 33) ∷ above cs

abbrev below : Bytes → Bytes
below [] = []
below (c ∷ cs) = (c - 33) ∷ below cs

below-above : (x : Bytes) → below (above x) ≡ x
below-above [] = refl
below-above (c ∷ cs) = ground (arith, below-above cs)

above-has_space : (x : Bytes) → has_space (above x) ≡ false
above-has_space [] = refl
above-has_space (c ∷ cs) = ground (arith, above-has_space cs)

abbrev proxy : Proxy
proxy = record { url_format = "http://site/"; key = "k"; token = none; token_secret = none }

-- A keyring with one item, for whatever schema has the attribute
abbrev holds : Bytes → Search → Option Bytes
holds item s = if has_attribute s.attribute s.schema && str_eq s.value "k" then some item else none

holds-lacks :
    (item : Bytes) (s : Search) → has_attribute s.attribute s.schema ≡ false → holds item s ≡ none
holds-lacks item s h = ground (arith, h)

stored_token_example :
    (keyfob_oauth_sync above below (holds (encode above below (1 ∷ []) (2 ∷ []))) proxy
      ≡ (true, record proxy { token = some (1 ∷ []); token_secret = some (2 ∷ []) }))
    × (find_oauth_key above below
          (holds (encode above below (1 ∷ []) (2 ∷ [])) (oauth_search proxy))
          proxy
        ≡ (true, record proxy { token = some (1 ∷ []); token_secret = some (2 ∷ []) }))
unfolding oauth_search has_attribute
stored_token_example =
    stored_token above below (holds (encode above below (1 ∷ []) (2 ∷ []))) proxy (1 ∷ []) (2 ∷ [])
      below-above above-has_space refl

oauth2_sync_misses_example :
    (find_oauth2_key above below (holds (34 ∷ []) (oauth2_search proxy)) proxy
      ≡ (true, record proxy { token = some (1 ∷ []) }))
    × (keyfob_oauth2_sync above below (holds (34 ∷ [])) proxy ≡ (false, proxy))
unfolding oauth2_search has_attribute
oauth2_sync_misses_example =
    oauth2_sync_misses above below (holds (34 ∷ [])) proxy (34 ∷ []) (holds-lacks (34 ∷ [])) refl
