-- ===== src/Keyfob/Tokens.antt =====
-- What a proxy has of a stored token (libsocialweb-keyfob/sw-keyfob-oauth.c).
use libsocialweb_flickr_oaut.Keyfob.{
  Search, oauth_search, oauth2_search, Proxy, oauth2_sync_search, Keyring, find_oauth2_key,
  find_oauth_key, keyfob_oauth2_sync, keyfob_oauth_sync, encode, decode, split_space,
}
use libsocialweb_flickr_oaut.Service.{Bytes}
use libsocialweb_flickr_oaut.Prelude.{
  str_eq, List, String, [], ◌||◌, arith, ◌==◌, ◌∷◌, ◌≡◌, Bool, none, some, true, false, refl, ◌++◌,
}

-- No byte of the text is a space.
abbrev pub has_space : Bytes → Bool
has_space [] = false
has_space (c ∷ cs) = (c == 32) || has_space cs

split_space_at : (x y : Bytes) → has_space x ≡ false → split_space (x ++ (32 ∷ y)) ≡ some (x, y)
unfolding split_space
split_space_at [] y h = refl
split_space_at (c ∷ x) y h = ground (arith, h, split_space_at x y)

unfoldable pub has_attribute : String → List String → Bool
has_attribute a [] = false
has_attribute a (b ∷ names) = str_eq a b || has_attribute a names

module _ (base64_encode base64_decode : Bytes → Bytes) where
  decode-encode :
      (token secret : Bytes)
      → ((x : Bytes) → base64_decode (base64_encode x) ≡ x)
      → ((x : Bytes) → has_space (base64_encode x) ≡ false)
      → decode base64_encode base64_decode (encode base64_encode base64_decode token secret)
        ≡ some (token, secret)
  unfolding decode encode
  decode-encode token secret inverse spaceless =
      rw
        (
          encode,
          decode,
          split_space_at (base64_encode token) (base64_encode secret) (spaceless token),
          inverse token,
          inverse secret,
        )
        refl

  -- With a base 64 whose decoding undoes its encoding and that has no spaces: where the keyring has the
  -- item of a proxy as `encode` makes it of a token and a secret, both lookups report TRUE and give the
  -- proxy exactly these, and change nothing else.
  pub stored_token :
      (keyring : Keyring) (proxy : Proxy) (token secret : Bytes)
      → ((x : Bytes) → base64_decode (base64_encode x) ≡ x)
      → ((x : Bytes) → has_space (base64_encode x) ≡ false)
      → keyring (oauth_search proxy) ≡ some (encode base64_encode base64_decode token secret)
      → let given = record proxy { token = some token; token_secret = some secret } in
        (keyfob_oauth_sync base64_encode base64_decode keyring proxy ≡ (true, given))
        × (find_oauth_key base64_encode base64_decode (keyring (oauth_search proxy)) proxy
            ≡ (true, given))
  unfolding keyfob_oauth_sync find_oauth_key
  stored_token keyring proxy token secret inverse spaceless stored = (
    rw (keyfob_oauth_sync, stored, decode-encode token secret inverse spaceless) refl,
    rw (stored, find_oauth_key, decode-encode token secret inverse spaceless) refl,
  )

  -- With a keyring that finds nothing for an attribute that the schema lacks: where it has the item of
  -- a proxy of OAuth 2, `sw_keyfob_oauth2` reports TRUE and gives the proxy its token, while
  -- `sw_keyfob_oauth2_sync` reports FALSE and gives it none.
  pub oauth2_sync_misses :
      (keyring : Keyring) (proxy : Proxy) (password : Bytes)
      → ((s : Search) → has_attribute s.attribute s.schema ≡ false → keyring s ≡ none)
      → keyring (oauth2_search proxy) ≡ some password
      → (find_oauth2_key base64_encode base64_decode (keyring (oauth2_search proxy)) proxy
          ≡ (true, record proxy { token = some (base64_decode password) }))
        × (keyfob_oauth2_sync base64_encode base64_decode keyring proxy ≡ (false, proxy))
  unfolding keyfob_oauth2_sync find_oauth2_key oauth2_sync_search oauth2_search has_attribute
  oauth2_sync_misses keyring proxy password lacks stored = (
    rw (stored, find_oauth2_key) refl,
    rw (lacks (oauth2_sync_search proxy) refl, find_oauth2_key) refl,
  )
