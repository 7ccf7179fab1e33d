-- ===== src/Flickr/Answers.antt =====
-- Every request is answered once (services/flickr/flickr-credentials-manager.c).
use libsocialweb_flickr_oaut.Flickr.{
  transport, credentials_ok, no_keys_provided, Response, look_up_token, run, step,
  credentials_checked, token_looked_up, check, load, Error, Answer, is_check, is_load, Manager,
  Event, take_closure, call_back, Closure, loads, checks, looked_up, checked, load_closure,
  check_closure,
}
use libsocialweb_flickr_oaut.Prelude.{
  none, String, false, true, inr, inl, Option-cases, arith, ◌++◌, ◌==◌, ◌≡◌, Option, ◌+◌,
  if◌then◌else◌, Bool, List, ℕ, [], ◌∷◌, some,
}

unfoldable pub answered : ℕ → List Answer → ℕ
answered user [] = 0
answered user (a ∷ as') = (if a.user == user then 1 else 0) + answered user as'

abbrev owner : Closure → ℕ
owner (load_closure u) = u
owner (check_closure u) = u

unfoldable pub held_back : ℕ → List Closure → ℕ
held_back user [] = 0
held_back user (c ∷ cs) = (if owner c == user then 1 else 0) + held_back user cs

-- How often an event is a request of the user.
unfoldable pub requested : ℕ → Event → ℕ
requested user (loads u key secret) = if u == user then 1 else 0
requested user (checks u starts) = if u == user then 1 else 0
requested user (looked_up u found token token_secret) = 0
requested user (checked u failed call) = 0

unfoldable pub requested_in : ℕ → List Event → ℕ
requested_in user [] = 0
requested_in user (e ∷ es) = requested user e + requested_in user es

abbrev pub account : ℕ → Manager → ℕ
account user m = answered user m.answers + held_back user m.waiting

pub answered-snoc :
    (user : ℕ) (xs : List Answer) (a : Answer)
    → answered user (xs ++ a ∷ []) ≡ answered user xs + (if a.user == user then 1 else 0)
unfolding answered
answered-snoc user [] a = omega arith
answered-snoc user (x ∷ xs) a = omega (arith, answered-snoc user xs a)

answered-call_back :
    (user u : ℕ) (ok : Bool) (error : Option Error) (m : Manager)
    → account user (call_back u ok error m) ≡ account user m + (if u == user then 1 else 0)
unfolding call_back
answered-call_back user u ok error m =
    omega (arith, answered-snoc user m.answers (record { user = u; ok = ok; error = error }))

take_one :
    (fits : Closure → Bool) (user u : ℕ) (cs rest : List Closure)
    → ((c : Closure) → fits c ≡ true → owner c ≡ u)
    → take_closure fits cs ≡ some rest
    → held_back user cs ≡ held_back user rest + (if u == user then 1 else 0)
unfolding take_closure held_back
take_one fits user u [] rest own e = ground arith
take_one fits user u (c ∷ cs) rest own e = elim (Option-cases (take_closure fits cs)) [
  | inl missing ↦ ground (arith, own c)
  | inr (ds, found) ↦ ground (arith, own c, take_one fits user u cs ds own found)
]

is_load-owner : (u : ℕ) (c : Closure) → is_load u c ≡ true → owner c ≡ u
unfolding is_load
is_load-owner u (load_closure w) h = ground arith
is_load-owner u (check_closure w) h = ground arith

is_check-owner : (u : ℕ) (c : Closure) → is_check u c ≡ true → owner c ≡ u
unfolding is_check
is_check-owner u (load_closure w) h = ground arith
is_check-owner u (check_closure w) h = ground arith

pub account-load :
    (user u : ℕ) (key secret : Option String) (m : Manager)
    → account user (load u key secret m) ≡ account user m + (if u == user then 1 else 0)
unfolding load look_up_token held_back
account-load user u none none m = answered-call_back user u false _ m
account-load user u none (some s) m = answered-call_back user u false _ m
account-load user u (some k) none m = answered-call_back user u false _ m
account-load user u (some k) (some s) m = omega arith

pub account-check :
    (user u : ℕ) (starts : Bool) (m : Manager)
    → account user (check u starts m) ≡ account user m + (if u == user then 1 else 0)
unfolding check held_back
account-check user u starts m = ground (
  arith,
  answered-call_back user u false (some no_keys_provided) m,
  answered-call_back user u false (some transport) m,
)

account-token_looked_up :
    (user u : ℕ) (found : Bool) (token token_secret : Option String) (m : Manager)
    → account user (token_looked_up u found token token_secret m)
      ≡ account user m + (if u == user then 1 else 0)
unfolding token_looked_up
account-token_looked_up user u true token token_secret m =
    answered-call_back user u true none (record m { token = token; token_secret = token_secret })
account-token_looked_up user u false token token_secret m = answered-call_back user u false _ m

account-credentials_checked :
    (user u : ℕ) (failed : Bool) (call : Option Response) (m : Manager)
    → account user (credentials_checked u failed call m)
      ≡ account user m + (if u == user then 1 else 0)
unfolding credentials_checked
account-credentials_checked user u true call m = answered-call_back user u false _ m
account-credentials_checked user u false call m =
    answered-call_back user u (credentials_ok call).0 (credentials_ok call).1 m

pub account-step :
    (user : ℕ) (e : Event) (m : Manager)
    → account user (step e m) ≡ account user m + requested user e
unfolding step requested
account-step user (loads u key secret) m = account-load user u key secret m
account-step user (checks u starts) m = account-check user u starts m
account-step user (looked_up u found token token_secret) m =
    elim (Option-cases (take_closure (is_load u) m.waiting)) [
      | inl missing ↦ rw (missing, step) (omega arith)
      | inr (rest, e) ↦
          rw (e, step)
            (omega (
              arith,
              account-token_looked_up user u found token token_secret (record m { waiting = rest }),
              take_one (is_load u) user u m.waiting rest (is_load-owner u) e,
            ))
    ]
account-step user (checked u failed call) m =
    elim (Option-cases (take_closure (is_check u) m.waiting)) [
      | inl missing ↦ rw (missing, step) (omega arith)
      | inr (rest, e) ↦
          rw (e, step)
            (omega (
              arith,
              account-credentials_checked user u failed call (record m { waiting = rest }),
              take_one (is_check u) user u m.waiting rest (is_check-owner u) e,
            ))
    ]

-- However requests and answers follow one another from any state, for each caller the answers given
-- and the requests that still wait grow together by exactly the requests made: none is answered
-- twice, and none is lost.
pub account-run :
    (user : ℕ) (es : List Event) (m : Manager)
    → account user (run es m) ≡ account user m + requested_in user es
unfolding run requested_in
account-run user [] m = omega arith
account-run user (e ∷ es) m = omega (arith, account-run user es (step e m), account-step user e m)
