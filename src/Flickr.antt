-- ===== src/Flickr.antt =====
-- services/flickr/flickr-credentials-manager.c: the keys and tokens of the Flickr service. The
-- keystore's answer, the keyfob's answer, and what the REST library reports of a call and of its XML
-- are arguments. A closure that waits for an answer is an entry of `waiting`; the callbacks that were
-- called are recorded in order, each with the closure's `user_data`.
pub mod Answers
pub mod Tokens
mod Examples
use libsocialweb_flickr_oaut.Prelude.{
  str_eq, ltb, not, true, ◌∷◌, ◌==◌, leb, ◌&&◌, false, if◌then◌else◌, some, ◌++◌, [], List, String,
  Bool, none, Option, ℕ,
}

-- The codes of services/flickr/flickr-credentials-error.h, and an error of the REST library.
pub data Error : Type 0 where
  failure no_keys_provided not_authorized transport : Error

pub record Answer : Type 0 where
  pub user : ℕ
  pub ok : Bool
  pub error : Option Error

pub data Closure : Type 0 where
  load_closure check_closure : ℕ → Closure

pub record Manager : Type 0 where
  pub consumer_key : Option String
  pub consumer_secret : Option String
  pub token : Option String
  pub token_secret : Option String
  pub waiting : List Closure
  pub answers : List Answer

-- `flickr_credentials_mgr_new`
unfoldable pub new : Manager
new = record {
  consumer_key = none;
  consumer_secret = none;
  token = none;
  token_secret = none;
  waiting = [];
  answers = [];
}

unfoldable pub call_back : ℕ → Bool → Option Error → Manager → Manager
call_back user ok error m = record m {
  answers = m.answers ++ record { user = user; ok = ok; error = error } ∷ [];
}

-- The branch of `load` where the keystore has both keys.
unfoldable pub look_up_token : ℕ → String → String → Manager → Manager
look_up_token user key secret m = record m {
  consumer_key = some key;
  consumer_secret = some secret;
  token = none;
  token_secret = none;
  waiting = load_closure user ∷ m.waiting;
}

-- `flickr_credentials_mgr_load_im`, with the keystore's key and secret
unfoldable pub load : ℕ → Option String → Option String → Manager → Manager
load user (some key) (some secret) m = look_up_token user key secret m
load user _ _ m = call_back user false (some no_keys_provided) m

-- `flickr_credentials_mgr_on_token_looked_up`, with the proxy's token and secret
unfoldable pub token_looked_up : ℕ → Bool → Option String → Option String → Manager → Manager
token_looked_up user found token token_secret m =
    if found
    then call_back user true none (record m { token = token; token_secret = token_secret })
    else call_back user false (some no_keys_provided) m

abbrev pub is_set : Option String → Bool
is_set none = false
is_set (some s) = true

unfoldable pub has_all : Manager → Bool
has_all m =
    is_set m.consumer_key && is_set m.consumer_secret && is_set m.token && is_set m.token_secret

-- `flickr_credentials_mgr_check_im`; `starts` is false where `rest_proxy_call_async` fails at once.
unfoldable pub check : ℕ → Bool → Manager → Manager
check user starts m =
    if not (has_all m)
    then call_back user false (some no_keys_provided) m
    else (if starts
        then record m { waiting = check_closure user ∷ m.waiting }
        else call_back user false (some transport) m)

-- The root of a response: its name, its attribute "stat", and whether it has an element "err".
pub record Node : Type 0 where
  pub name : String
  pub stat : Option String
  pub has_err : Bool

-- A call that came back: the status, and the root of its XML if it parses.
pub record Response : Type 0 where
  pub status : ℕ
  pub root : Option Node

-- `SOUP_STATUS_IS_SUCCESSFUL`
unfoldable pub is_successful : ℕ → Bool
is_successful status = leb 200 status && ltb status 300

-- `g_strcmp0 (stat, "ok") == 0`
unfoldable pub is_stat_ok : Option String → Bool
is_stat_ok none = false
is_stat_ok (some s) = str_eq s "ok"

unfoldable pub root_ok : Option Node → Bool × Option Error
unfolding is_stat_ok
root_ok none = (false, some failure)
root_ok (some node) =
    if not (str_eq node.name "rsp")
    then (false, some failure)
    else (if not (is_stat_ok node.stat)
        then (false, if node.has_err then some failure else none)
        else (true, none))

-- `flickr_credentials_mgr_credentials_ok`, on a call or NULL
unfoldable pub credentials_ok : Option Response → Bool × Option Error
unfolding is_successful root_ok
credentials_ok none = (false, none)
credentials_ok (some response) =
    if not (is_successful response.status) then (false, some failure) else root_ok response.root

-- `flickr_credentials_mgr_on_credentials_checked`
unfoldable pub credentials_checked : ℕ → Bool → Option Response → Manager → Manager
credentials_checked user failed call m =
    if failed
    then call_back user false (some transport) m
    else (let (ok, error) = credentials_ok call in call_back user ok error m)

-- What happens to a manager.
pub data Event : Type 0 where
  loads : ℕ → Option String → Option String → Event
  checks : ℕ → Bool → Event
  -- the answer to the closure at a place in `waiting`
  looked_up : ℕ → Bool → Option String → Option String → Event
  checked : ℕ → Bool → Option Response → Event

unfoldable pub is_load : ℕ → Closure → Bool
is_load user (load_closure u) = u == user
is_load user (check_closure u) = false

unfoldable pub is_check : ℕ → Closure → Bool
is_check user (load_closure u) = false
is_check user (check_closure u) = u == user

-- The closures without the first that fits, if there is one.
unfoldable pub take_closure : (Closure → Bool) → List Closure → Option (List Closure)
take_closure fits [] = none
take_closure fits (c ∷ cs) =
    let rest = take_closure fits cs in
    if fits c then some cs else (elim rest [ none ↦ none | some ds ↦ some (c ∷ ds) ])

-- An answer frees its closure; with no such closure there is no answer.
unfoldable pub step : Event → Manager → Manager
step (loads user key secret) m = load user key secret m
step (checks user starts) m = check user starts m
step (looked_up user found token token_secret) m = elim (take_closure (is_load user) m.waiting) [
  | none ↦ m
  | some rest ↦ token_looked_up user found token token_secret (record m { waiting = rest })
]
step (checked user failed call) m = elim (take_closure (is_check user) m.waiting) [
  | none ↦ m
  | some rest ↦ credentials_checked user failed call (record m { waiting = rest })
]

unfoldable pub run : List Event → Manager → Manager
run [] m = m
run (e ∷ es) m = run es (step e m)
