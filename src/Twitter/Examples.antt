-- ===== src/Twitter/Examples.antt =====
-- A service of Twitter, as instances of the theorems on services/twitter/twitter.c.
use libsocialweb_flickr_oaut.Twitter.Settled.{
  twitter_settled, IsAnnounced, speaks, stale_verification, last_announced,
}
use libsocialweb_flickr_oaut.Prelude.{arith, ◌∷◌, [], ◌≡◌, List, none, some, true, false, refl}
use libsocialweb_flickr_oaut.Twitter.{
  twitter_new, announce, verify, oauth_access_token, found_password, verified, dynamic_caps,
  online_notify, token_replied, goes_online, twitter_step, TwitterEvent, Twitter, twitter_run,
  Account, offline, creds_valid,
}

abbrev account : Account
account = record { id = "7"; profile_image_url = "http://site/7.png"; geo_enabled = "true" }

-- The computer goes offline while the first account is verified, and comes back.
abbrev session : List TwitterEvent
session =
    token_replied true
    ∷ verified (some account)
    ∷ goes_online false
    ∷ goes_online true
    ∷ token_replied false
    ∷ []

twitter_settled_example : IsAnnounced (
    twitter_run session (
      found_password true
        (some (some "user", some "password"))
        (twitter_run (goes_online true ∷ []) twitter_new)))
unfolding twitter_run twitter_step online_notify found_password oauth_access_token verify announce
    twitter_new speaks
twitter_settled_example =
    twitter_settled (goes_online true ∷ []) true (some (some "user", some "password")) session refl

abbrev verifying : Twitter
verifying = record {
  credentials = offline;
  user_id = none;
  image_url = none;
  username = some "user";
  password = some "password";
  geotag_enabled = false;
  has_token = true;
  has_twitpic = true;
  token_calls = 0;
  verify_calls = 1;
  announced = [];
}

abbrev afterwards : Twitter
afterwards = twitter_run (goes_online false ∷ verified (some account) ∷ []) verifying

stale_verification_example :
    (afterwards.has_token ≡ false)
    × (afterwards.credentials ≡ creds_valid)
    × (last_announced afterwards.announced ≡ some (dynamic_caps afterwards))
stale_verification_example = stale_verification verifying account (omega arith)
