-- ===== src/Goa/Answers.antt =====
-- Which requests to the manager for Online Accounts are answered
-- (services/flickr/flickr-credentials-manager-goa.c).
use libsocialweb_flickr_oaut.Prelude.{String, Bool-cases, refl, none, some, true, false}
use libsocialweb_flickr_oaut.Flickr.{no_keys_provided, failure, Error}
use libsocialweb_flickr_oaut.Prelude.{
  inr, inl, Option-cases, ◌||◌, arith, [], some, true, Option, false, ◌+◌, ◌==◌, ◌≡◌, Bool, ◌∷◌,
  if◌then◌else◌, List, ℕ,
}
use libsocialweb_flickr_oaut.Goa.{
  clear, goa_run, goa_load, managed_objects, keys_of, ensure_credentials, access_token, goa_check,
  find_account, first_flickr, get_access_data, ensured, token_arrives, goa_step, is_flickr, checks,
  ensure_closure, objects_arrive, loads, token_closure, Object, GoaEvent, ManagerGoa,
  objects_closure, answering, take_waiting, same_closure, goa_call_back, Closure,
}
use libsocialweb_flickr_oaut.Flickr.Answers.{answered, answered-snoc}

abbrev owner : Closure → ℕ
owner (objects_closure u) = u
owner (token_closure u) = u
owner (ensure_closure u) = u

-- One request, if it is of the user
abbrev mine : ℕ → ℕ → ℕ
mine user u = if u == user then 1 else 0

unfoldable pub held_goa : ℕ → List Closure → ℕ
held_goa user [] = 0
held_goa user (c ∷ cs) = mine user (owner c) + held_goa user cs

abbrev pub goa_account : ℕ → ManagerGoa → ℕ
goa_account user m = answered user m.answers + held_goa user m.waiting

-- How often an event is a request of the user.
unfoldable pub asked : ℕ → GoaEvent → ℕ
asked user (loads u connects proxied) = mine user u
asked user (checks u proxied) = mine user u
asked user (objects_arrive u reply proxied) = 0
asked user (token_arrives u answer) = 0
asked user (ensured u attention) = 0

unfoldable pub asked_in : ℕ → List GoaEvent → ℕ
asked_in user [] = 0
asked_in user (e ∷ es) = asked user e + asked_in user es

-- Some object is an account of Flickr.
unfoldable pub any_flickr : List Object → Bool
any_flickr [] = false
any_flickr (o ∷ objects) = is_flickr o || any_flickr objects

-- As many, where a closure was there.
abbrev pub lost_with : Option (List Closure) → ℕ → ℕ
lost_with none n = 0
lost_with (some rest) n = n

-- The requests of the user that an event ends with no answer: where the objects arrive that a load
-- waits for, and none of them is an account of Flickr.
unfoldable pub forgotten : ℕ → GoaEvent → ManagerGoa → ℕ
unfolding any_flickr
forgotten user (objects_arrive u (some objects) proxied) m =
    if any_flickr objects
    then 0
    else lost_with (take_waiting (objects_closure u) m.waiting) (mine user u)
forgotten user (objects_arrive u none proxied) m = 0
forgotten user (loads u connects proxied) m = 0
forgotten user (checks u proxied) m = 0
forgotten user (token_arrives u answer) m = 0
forgotten user (ensured u attention) m = 0

unfoldable pub forgotten_in : ℕ → List GoaEvent → ManagerGoa → ℕ
forgotten_in user [] m = 0
forgotten_in user (e ∷ es) m = forgotten user e m + forgotten_in user es (goa_step e m)

account-goa_call_back :
    (user u : ℕ) (ok : Bool) (error : Option Error) (m : ManagerGoa)
    → goa_account user (goa_call_back u ok error m) ≡ goa_account user m + mine user u
unfolding goa_call_back
account-goa_call_back user u ok error m =
    omega (arith, answered-snoc user m.answers (record { user = u; ok = ok; error = error }))

same_closure-owner : (d c : Closure) → same_closure d c ≡ true → owner d ≡ owner c
unfolding same_closure
same_closure-owner d c h = ground arith

held-take_waiting :
    (user : ℕ) (c : Closure) (cs rest : List Closure)
    → take_waiting c cs ≡ some rest
    → held_goa user cs ≡ held_goa user rest + mine user (owner c)
unfolding take_waiting held_goa
held-take_waiting user c [] rest e = ground arith
held-take_waiting user c (d ∷ ds) rest e = elim (Option-cases (take_waiting c ds)) [
  | inl missing ↦ ground (arith, e, missing, same_closure-owner d c)
  | inr (es, found) ↦
      ground (arith, e, found, same_closure-owner d c, held-take_waiting user c ds es found)
]

-- An answer to a closure takes one from what waits; it is told or forgotten.
account-answering :
    (user : ℕ) (c : Closure) (f : ManagerGoa → ManagerGoa) (lost : ℕ) (m : ManagerGoa)
    → ((k : ManagerGoa) → goa_account user (f k) + lost ≡ goa_account user k + mine user (owner c))
    → goa_account user (answering c f m) + lost_with (take_waiting c m.waiting) lost
      ≡ goa_account user m
unfolding answering
account-answering user c f lost m h = elim (Option-cases (take_waiting c m.waiting)) [
  | inl missing ↦ rw (missing, answering) (omega arith)
  | inr (rest, found) ↦
      rw (found, answering)
        (omega
          (arith, h (record m { waiting = rest }), held-take_waiting user c m.waiting rest found))
]

account-get_access_data :
    (user u : ℕ) (proxied : Bool) (o : Object) (m : ManagerGoa)
    → goa_account user (get_access_data u proxied o m) ≡ goa_account user m + mine user u
unfolding get_access_data held_goa
account-get_access_data user u proxied o m = elim (Option-cases (keys_of o.oauth)) [
  | inl missing ↦
      rw (missing, get_access_data) (account-goa_call_back user u false (some failure) m)
  | inr ((key, secret), found) ↦ elim (Bool-cases proxied) [
    | inl made ↦ rw (found, made, get_access_data) (omega arith)
    | inr failed ↦
        rw (found, failed, get_access_data)
          (account-goa_call_back user u false (some failure)
            (record m { consumer_key = some key; consumer_secret = some secret }))
  ]
]

pub any-first_flickr :
    (objects : List Object) → any_flickr objects ≡ false → first_flickr objects ≡ none
unfolding any_flickr first_flickr
any-first_flickr [] h = refl
any-first_flickr (o ∷ objects) h = ground (arith, any-first_flickr objects)

first-any_flickr :
    (objects : List Object)
    → any_flickr objects ≡ true
    → (o : Object) × (first_flickr objects ≡ some o)
unfolding any_flickr first_flickr
first-any_flickr [] h = cc
first-any_flickr (o ∷ objects) h = elim (Bool-cases (is_flickr o)) [
  | inl here ↦ (o, ground (arith, here))
  | inr other ↦
      let (p, found) = first-any_flickr objects (ground (arith, other, h)) in
      (p, ground (arith, other, found))
]

account-find_account :
    (user u : ℕ) (connects proxied : Bool) (m : ManagerGoa)
    → goa_account user (find_account u connects proxied m) ≡ goa_account user m + mine user u
unfolding find_account held_goa
account-find_account user u connects proxied m = ground (
  arith,
  account-goa_call_back user u false none (record m { connected = m.connected || connects }),
)

account-goa_check :
    (user u : ℕ) (proxied : Bool) (m : ManagerGoa)
    → goa_account user (goa_check u proxied m) ≡ goa_account user m + mine user u
unfolding goa_check held_goa
account-goa_check user u proxied m = ground (
  arith,
  account-goa_call_back user u false (some failure) m,
  account-goa_call_back user u false (some no_keys_provided) m,
  account-goa_call_back user u false none m,
)

account-access_token :
    (user u : ℕ) (answer : Option (String × String)) (m : ManagerGoa)
    → goa_account user (access_token u answer m) ≡ goa_account user m + mine user u
unfolding access_token
account-access_token user u none m = account-goa_call_back user u false none m
account-access_token user u (some (token, secret)) m =
    account-goa_call_back user u true none
      (record m { token = some token; token_secret = some secret })

account-ensure_credentials :
    (user u : ℕ) (attention : Option Bool) (m : ManagerGoa)
    → goa_account user (ensure_credentials u attention m) ≡ goa_account user m + mine user u
unfolding ensure_credentials
account-ensure_credentials user u none m = account-goa_call_back user u false _ m
account-ensure_credentials user u (some true) m = account-goa_call_back user u false _ m
account-ensure_credentials user u (some false) m = account-goa_call_back user u true none m

account-managed_objects :
    (user u : ℕ) (objects : List Object) (proxied : Bool) (m : ManagerGoa)
    → goa_account user (managed_objects u (some objects) proxied m)
        + (if any_flickr objects then 0 else mine user u)
      ≡ goa_account user m + mine user u
unfolding managed_objects
account-managed_objects user u objects proxied m = elim (Bool-cases (any_flickr objects)) [
  | inr nowhere ↦ rw (any-first_flickr objects nowhere, nowhere, managed_objects) refl
  | inl somewhere ↦
      let (o, found) = first-any_flickr objects somewhere in
      rw (found, somewhere, managed_objects)
        (omega (
          arith,
          account-get_access_data user u proxied o (record m { object_path = some o.path }),
        ))
]

account-objects_none :
    (user u : ℕ) (proxied : Bool) (m : ManagerGoa)
    → goa_account user (managed_objects u none proxied m) ≡ goa_account user m + mine user u
unfolding managed_objects
account-objects_none user u proxied m = account-goa_call_back user u false none m

lost_none : (o : Option (List Closure)) → lost_with o 0 ≡ 0
lost_none none = refl
lost_none (some rest) = refl

account-goa_step :
    (user : ℕ) (e : GoaEvent) (m : ManagerGoa)
    → goa_account user (goa_step e m) + forgotten user e m ≡ goa_account user m + asked user e
unfolding goa_step goa_load clear forgotten asked
account-goa_step user (loads u connects proxied) m =
    omega (arith, account-find_account user u connects proxied (clear m))
account-goa_step user (checks u proxied) m = omega (arith, account-goa_check user u proxied m)
account-goa_step user (token_arrives u answer) m = omega (
  arith,
  lost_none (take_waiting (token_closure u) m.waiting),
  account-answering user (token_closure u) (access_token u answer) 0 m
      (λ k. omega (arith, account-access_token user u answer k)),
)
account-goa_step user (ensured u attention) m = omega (
  arith,
  lost_none (take_waiting (ensure_closure u) m.waiting),
  account-answering user (ensure_closure u) (ensure_credentials u attention) 0 m
      (λ k. omega (arith, account-ensure_credentials user u attention k)),
)
account-goa_step user (objects_arrive u none proxied) m = omega (
  arith,
  lost_none (take_waiting (objects_closure u) m.waiting),
  account-answering user (objects_closure u) (managed_objects u none proxied) 0 m
      (λ k. omega (arith, account-objects_none user u proxied k)),
)
account-goa_step user (objects_arrive u (some objects) proxied) m = ground (
  arith,
  lost_none (take_waiting (objects_closure u) m.waiting),
  account-answering user (objects_closure u) (managed_objects u (some objects) proxied)
      (if any_flickr objects then 0 else mine user u) m
      (account-managed_objects user u objects proxied),
)

-- However requests and answers follow one another from any state, for each caller the requests made are
-- answered once, or still wait, but for those whose load has met no account of Flickr: these are
-- forgotten, and their callback is never called.
pub account-goa_run :
    (user : ℕ) (es : List GoaEvent) (m : ManagerGoa)
    → goa_account user (goa_run es m) + forgotten_in user es m
      ≡ goa_account user m + asked_in user es
unfolding goa_run asked_in forgotten_in
account-goa_run user [] m = omega arith
account-goa_run user (e ∷ es) m =
    omega (arith, account-goa_run user es (goa_step e m), account-goa_step user e m)
