-- ===== src/Twitter/Settled.antt =====
-- What the service of Twitter has announced (services/twitter/twitter.c).
use libsocialweb_flickr_oaut.Prelude.{
  ◌≤◌, ltb, String, if◌then◌else◌, arith, Option, [], ◌&&◌, not, ◌==◌, ◌∷◌, ◌≡◌, Bool, List, none,
  some, true, false, refl,
}
use libsocialweb_flickr_oaut.Twitter.{
  Account, twitter_new, twitter_run, verify, oauth_access_token, found_password, token_replied,
  password_found, twitter_step, has_password, goes_online, is_set, TwitterCap, verified,
  dynamic_caps, online_notify, announce, Twitter, TwitterEvent, CredentialState, offline,
  creds_valid, creds_invalid,
}

abbrev pub is_offline : CredentialState → Bool
is_offline offline = true
is_offline creds_valid = false
is_offline creds_invalid = false

-- An event after which the capabilities may have changed, or may never be announced, though no call is
-- made: a verification that fails, and a word that the computer is online where there are credentials in
-- use but no password.
abbrev pub silent : TwitterEvent → Twitter → Bool
silent (verified none) o = true
silent (verified (some account)) o = false
silent (goes_online true) o = not (has_password o) && not (is_offline o.credentials)
silent (goes_online false) o = false
silent (password_found online found) o = false
silent (token_replied ok) o = false

unfoldable pub speaks : List TwitterEvent → Twitter → Bool
speaks [] o = true
speaks (e ∷ es) o = not (silent e o) && speaks es (twitter_step e o)

-- No call waits.
abbrev pub settled : Twitter → Bool
settled o = (o.token_calls == 0) && (o.verify_calls == 0)

abbrev pub last_announced : List (List TwitterCap) → Option (List TwitterCap)
last_announced [] = none
last_announced (caps ∷ rest) = some caps

-- Where no call waits, the last announcement is what `get_dynamic_caps` says.
pub record IsAnnounced (o : Twitter) : Type 0 where
  pub told : settled o ≡ true → last_announced o.announced ≡ some (dynamic_caps o)
  pub identified : o.credentials ≡ creds_valid → is_set o.user_id ≡ true

announce-IsAnnounced :
    (o : Twitter)
    → (o.credentials ≡ creds_valid → is_set o.user_id ≡ true)
    → IsAnnounced (announce o)
unfolding announce dynamic_caps
announce-IsAnnounced o h = record { told = λ s. refl; identified = h }

online_notify-IsAnnounced :
    (online : Bool) (o : Twitter)
    → silent (goes_online online) o ≡ false
    → IsAnnounced o
    → IsAnnounced (online_notify online o)
unfolding online_notify dynamic_caps
online_notify-IsAnnounced false o quiet a = announce-IsAnnounced _ (λ e. cc)
online_notify-IsAnnounced true o quiet a = record {
  told = λ s. ground (arith, s, quiet, a.told);
  identified = λ e. cc;
}

found_password-IsAnnounced :
    (online : Bool) (found : Option (Option String × Option String)) (o : Twitter)
    → (o.credentials ≡ creds_valid → is_set o.user_id ≡ true)
    → IsAnnounced (found_password online found o)
unfolding found_password online_notify announce
found_password-IsAnnounced online none o a = announce-IsAnnounced _ (λ e. cc)
found_password-IsAnnounced true (some (user, password)) o a = announce-IsAnnounced _ (λ e. cc)
found_password-IsAnnounced false (some (user, password)) o a = announce-IsAnnounced _ a

oauth_access_token-IsAnnounced :
    (ok : Bool) (o : Twitter)
    → (o.credentials ≡ creds_valid → is_set o.user_id ≡ true)
    → IsAnnounced (oauth_access_token ok o)
unfolding oauth_access_token
oauth_access_token-IsAnnounced true o h = record { told = λ s. ground (arith, s); identified = h }
oauth_access_token-IsAnnounced false o h = announce-IsAnnounced _ (λ e. cc)

if_IsAnnounced :
    (b : Bool) (o p : Twitter) → IsAnnounced o → IsAnnounced p → IsAnnounced (if b then o else p)
if_IsAnnounced true o p x y = x
if_IsAnnounced false o p x y = y

twitter_step-IsAnnounced :
    (e : TwitterEvent) (o : Twitter)
    → silent e o ≡ false
    → IsAnnounced o
    → IsAnnounced (twitter_step e o)
unfolding twitter_step verify
twitter_step-IsAnnounced (goes_online online) o quiet a = online_notify-IsAnnounced online o quiet a
twitter_step-IsAnnounced (password_found online found) o quiet a =
    found_password-IsAnnounced online found o a.identified
twitter_step-IsAnnounced (token_replied ok) o quiet a =
    if_IsAnnounced (ltb 0 o.token_calls) _ o (oauth_access_token-IsAnnounced ok _ a.identified) a
twitter_step-IsAnnounced (verified none) o quiet a = cc
twitter_step-IsAnnounced (verified (some account)) o quiet a =
    if_IsAnnounced (ltb 0 o.verify_calls) _ o (announce-IsAnnounced _ (λ e. refl)) a

twitter_run-IsAnnounced :
    (es : List TwitterEvent) (o : Twitter)
    → speaks es o ≡ true
    → IsAnnounced o
    → IsAnnounced (twitter_run es o)
unfolding twitter_run speaks
twitter_run-IsAnnounced [] o loud a = a
twitter_run-IsAnnounced (e ∷ es) o loud a =
    twitter_run-IsAnnounced es (twitter_step e o) (ground (arith, loud))
      (twitter_step-IsAnnounced e o (ground (arith, loud)) a)

abbrev IsIdentified : Twitter → Type 0
IsIdentified o = o.credentials ≡ creds_valid → is_set o.user_id ≡ true

if_IsIdentified :
    (b : Bool) (o p : Twitter) → IsIdentified o → IsIdentified p → IsIdentified (if b then o else p)
if_IsIdentified true o p x y = x
if_IsIdentified false o p x y = y

twitter_step-IsIdentified :
    (e : TwitterEvent) (o : Twitter) → IsIdentified o → IsIdentified (twitter_step e o)
unfolding twitter_step online_notify oauth_access_token verify announce
twitter_step-IsIdentified (goes_online true) o h = λ e. cc
twitter_step-IsIdentified (goes_online false) o h = λ e. cc
twitter_step-IsIdentified (password_found online found) o h =
    (found_password-IsAnnounced online found o h).identified
twitter_step-IsIdentified (token_replied true) o h = if_IsIdentified (ltb 0 o.token_calls) _ o h h
twitter_step-IsIdentified (token_replied false) o h =
    if_IsIdentified (ltb 0 o.token_calls) _ o (λ e. cc) h
twitter_step-IsIdentified (verified none) o h = if_IsIdentified (ltb 0 o.verify_calls) _ o h h
twitter_step-IsIdentified (verified (some account)) o h =
    if_IsIdentified (ltb 0 o.verify_calls) _ o (λ e. refl) h

twitter_run-IsIdentified :
    (es : List TwitterEvent) (o : Twitter) → IsIdentified o → IsIdentified (twitter_run es o)
unfolding twitter_run
twitter_run-IsIdentified [] o h = h
twitter_run-IsIdentified (e ∷ es) o h =
    twitter_run-IsIdentified es (twitter_step e o) (twitter_step-IsIdentified e o h)

-- Whatever happens to a new service before the keyring answers, and after: if no event since that answer
-- is silent, valid credentials come with a user, and where no call waits, the last capabilities
-- announced are those of the service.
pub twitter_settled :
    (before : List TwitterEvent) (online : Bool) (found : Option (Option String × Option String))
    (es : List TwitterEvent)
    → speaks es (found_password online found (twitter_run before twitter_new)) ≡ true
    → IsAnnounced (twitter_run es (found_password online found (twitter_run before twitter_new)))
unfolding twitter_new
twitter_settled before online found es loud = twitter_run-IsAnnounced es _ loud (
    found_password-IsAnnounced online found _
      (twitter_run-IsIdentified before twitter_new (λ e. cc)))

-- A service that waits for a verification when the computer goes offline: if the reply still comes, the
-- service announces valid credentials and what they allow, offline and with no token.
pub stale_verification :
    (o : Twitter) (account : Account)
    → 1 ≤ o.verify_calls
    → let now = twitter_run (goes_online false ∷ verified (some account) ∷ []) o in
      (now.has_token ≡ false)
      × (now.credentials ≡ creds_valid)
      × (last_announced now.announced ≡ some (dynamic_caps now))
unfolding twitter_run twitter_step online_notify verify announce
stale_verification o account waits = ground (arith, waits)
