-- ===== src/Credentials.antt =====
-- services/flickr/flickr-credentials.c: the interface of the classes that get the Flickr keys and
-- tokens, and what its users rely on. `M` is the state of such an object and `I` what is outside of it
-- on a call: a keyring, a bus, the site. Requests are told apart by the `user_data` of their callback.
use libsocialweb_flickr_oaut.Prelude.{
  none, String, ◌≡◌, some, ◌==◌, Bool, ◌+◌, if◌then◌else◌, Option, ℕ,
}
use libsocialweb_flickr_oaut.Flickr.{Answer}

pub record Credentials (M I : Type 0) : Type 0 where
  -- `flickr_credentials_load` and `flickr_credentials_check`, with the answer where the callback is
  -- called before they return
  pub load : ℕ → I → M → M × Option Bool
  pub check : ℕ → I → M → M × Option Bool
  -- an answer from outside arrives, and perhaps a callback is called
  pub resume : I → M → M × Option Answer
  -- how many requests of a user wait for their callback
  pub held : ℕ → M → ℕ
  pub get_consumer_key : M → Option String
  pub get_consumer_secret : M → Option String
  pub get_token : M → Option String
  pub get_token_secret : M → Option String

-- One request, if it is of the user.
abbrev pub one_of : ℕ → ℕ → ℕ
one_of user u = if u == user then 1 else 0

-- A request that a callback has answered on the spot no longer waits.
abbrev pub at_once : ℕ → ℕ → Option Bool → ℕ
at_once user u none = 0
at_once user u (some ok) = one_of user u

abbrev pub answer_for : ℕ → Option Answer → ℕ
answer_for user none = 0
answer_for user (some a) = one_of user a.user

-- Every request is answered: it waits until its callback is called, and is not called twice.
pub record IsAnswering {M I : Type 0} (c : Credentials M I) : Type 0 where
  pub held-load :
      (user u : ℕ) (i : I) (m : M)
      → c.held user (c.load u i m).0 + at_once user u (c.load u i m).1
        ≡ c.held user m + one_of user u
  pub held-check :
      (user u : ℕ) (i : I) (m : M)
      → c.held user (c.check u i m).0 + at_once user u (c.check u i m).1
        ≡ c.held user m + one_of user u
  pub held-resume :
      (user : ℕ) (i : I) (m : M)
      → c.held user (c.resume i m).0 + answer_for user (c.resume i m).1 ≡ c.held user m
