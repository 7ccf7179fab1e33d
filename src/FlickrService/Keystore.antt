-- ===== src/FlickrService/Keystore.antt =====
-- The credentials manager of services/flickr/flickr-credentials-manager.c as an implementation of the
-- interface that the service uses.
use libsocialweb_flickr_oaut.Flickr.Answers.{
  account-step, account-check, account, account-load, requested, answered-snoc, answered, held_back,
}
use libsocialweb_flickr_oaut.Prelude.{
  false, true, Option-cases, inr, arith, inl, ◌+◌, Bool-cases, ◌⊎◌, zero, refl, suc, [], ◌∷◌, none,
  ◌≡◌, ◌++◌, some, length, Bool, String, List, ℕ, Option,
}
use libsocialweb_flickr_oaut.Credentials.{Credentials, IsAnswering, at_once, answer_for}
use libsocialweb_flickr_oaut.Flickr.{
  is_check, is_load, take_closure, Response, credentials_checked, token_looked_up, has_all,
  look_up_token, checked, looked_up, checks, loads, Answer, Manager, Event, load, check, step,
  call_back,
}

-- What is outside on a call: the keystore's keys, whether a call starts, and what arrives.
pub record Outside : Type 0 where
  pub key : Option String
  pub secret : Option String
  pub starts : Bool
  pub event : Event

-- The first answer behind as many as there were.
unfoldable pub newest : ℕ → List Answer → Option Answer
newest zero [] = none
newest zero (a ∷ answers) = some a
newest (suc n) [] = none
newest (suc n) (a ∷ answers) = newest n answers

unfoldable pub ok_of : Option Answer → Option Bool
ok_of none = none
ok_of (some a) = some a.ok

-- A call of the manager, with the answer that it gives.
abbrev called : (Manager → Manager) → Manager → Manager × Option Answer
called f m = (f m, newest (length m.answers) (f m).answers)

-- An event that no request is made by
unfoldable pub arrives : Event → Manager → Manager
arrives (loads user key secret) m = m
arrives (checks user starts) m = m
arrives (looked_up user found token token_secret) m =
    step (looked_up user found token token_secret) m
arrives (checked user failed call) m = step (checked user failed call) m

unfoldable pub manager : Credentials Manager Outside
manager = record {
  load =
      λ user i m. let (next, answer) = called (load user i.key i.secret) m in (next, ok_of answer);
  check = λ user i m. let (next, answer) = called (check user i.starts) m in (next, ok_of answer);
  resume = λ i m. called (arrives i.event) m;
  held = λ user m. held_back user m.waiting;
  get_consumer_key = λ m. m.consumer_key;
  get_consumer_secret = λ m. m.consumer_secret;
  get_token = λ m. m.token;
  get_token_secret = λ m. m.token_secret;
}

newest-snoc :
    (answers : List Answer) (a : Answer) → newest (length answers) (answers ++ a ∷ []) ≡ some a
unfolding newest
newest-snoc [] a = refl
newest-snoc (b ∷ answers) a = newest-snoc answers a

pub newest_same : (answers : List Answer) → newest (length answers) answers ≡ none
unfolding newest
newest_same [] = refl
newest_same (b ∷ answers) = newest_same answers

-- No answer was given, or one to the user.
abbrev GrowsBy : ℕ → List Answer → List Answer → Type 0
GrowsBy u before after =
    (after ≡ before) ⊎ ((a : Answer) × (a.user ≡ u) × (after ≡ before ++ a ∷ []))

grows-answered :
    (user u : ℕ) (before after : List Answer)
    → GrowsBy u before after
    → (answered user after
        ≡ answered user before + at_once user u (ok_of (newest (length before) after)))
      × (at_once user u (ok_of (newest (length before) after))
          ≡ answer_for user (newest (length before) after))
unfolding ok_of
grows-answered user u before after (inl e) = rw (e, newest_same before) (omega arith, refl)
grows-answered user u before after (inr (a, own, e)) =
    rw (e, newest-snoc before a) (rw (answered-snoc user before a, own) refl, rw (own) refl)

load-Grows :
    (u : ℕ) (key secret : Option String) (m : Manager)
    → GrowsBy u m.answers (load u key secret m).answers
unfolding load look_up_token call_back
load-Grows u (some key) (some secret) m = inl refl
load-Grows u (some key) none m = inr (_, refl, refl)
load-Grows u none (some secret) m = inr (_, refl, refl)
load-Grows u none none m = inr (_, refl, refl)

check-Grows : (u : ℕ) (starts : Bool) (m : Manager) → GrowsBy u m.answers (check u starts m).answers
unfolding check call_back
check-Grows u starts m = elim (Bool-cases (has_all m)) [
  | inr missing ↦ rw (missing, check) (inr (_, refl, refl))
  | inl has ↦ elim (Bool-cases starts) [
    | inl on ↦ rw (has, on, check) (inl refl)
    | inr off ↦ rw (has, off, check) (inr (_, refl, refl))
  ]
]

token_looked_up-Grows :
    (u : ℕ) (found : Bool) (token token_secret : Option String) (m : Manager)
    → GrowsBy u m.answers (token_looked_up u found token token_secret m).answers
unfolding token_looked_up call_back
token_looked_up-Grows u true token token_secret m = inr (_, refl, refl)
token_looked_up-Grows u false token token_secret m = inr (_, refl, refl)

credentials_checked-Grows :
    (u : ℕ) (failed : Bool) (call : Option Response) (m : Manager)
    → GrowsBy u m.answers (credentials_checked u failed call m).answers
unfolding credentials_checked call_back
credentials_checked-Grows u true call m = inr (_, refl, refl)
credentials_checked-Grows u false call m = inr (_, refl, refl)

abbrev user_of : Event → ℕ
user_of (loads user key secret) = user
user_of (checks user starts) = user
user_of (looked_up user found token token_secret) = user
user_of (checked user failed call) = user

arrives-Grows : (e : Event) (m : Manager) → GrowsBy (user_of e) m.answers (arrives e m).answers
unfolding arrives step
arrives-Grows (loads user key secret) m = inl refl
arrives-Grows (checks user starts) m = inl refl
arrives-Grows (looked_up user found token token_secret) m =
    elim (Option-cases (take_closure (is_load user) m.waiting)) [
      | inl missing ↦ rw (missing, step) (inl refl)
      | inr (rest, e) ↦
          rw (e, step)
            (token_looked_up-Grows user found token token_secret (record m { waiting = rest }))
    ]
arrives-Grows (checked user failed call) m =
    elim (Option-cases (take_closure (is_check user) m.waiting)) [
      | inl missing ↦ rw (missing, step) (inl refl)
      | inr (rest, e) ↦
          rw (e, step) (credentials_checked-Grows user failed call (record m { waiting = rest }))
    ]

account-arrives : (user : ℕ) (e : Event) (m : Manager) → account user (arrives e m) ≡ account user m
unfolding arrives requested
account-arrives user (loads u key secret) m = refl
account-arrives user (checks u starts) m = refl
account-arrives user (looked_up u found token token_secret) m =
    omega (arith, account-step user (looked_up u found token token_secret) m)
account-arrives user (checked u failed call) m =
    omega (arith, account-step user (checked u failed call) m)

-- The credentials manager answers every request, once.
pub manager-IsAnswering : IsAnswering manager
unfolding manager
manager-IsAnswering = record {
  held-load = λ user u i m. omega (
    arith,
    grows-answered user u m.answers (load u i.key i.secret m).answers
        (load-Grows u i.key i.secret m),
    account-load user u i.key i.secret m,
  );
  held-check = λ user u i m. omega (
    arith,
    grows-answered user u m.answers (check u i.starts m).answers (check-Grows u i.starts m),
    account-check user u i.starts m,
  );
  held-resume = λ user i m. omega (
    arith,
    grows-answered user (user_of i.event) m.answers (arrives i.event m).answers
        (arrives-Grows i.event m),
    account-arrives user i.event m,
  );
}
