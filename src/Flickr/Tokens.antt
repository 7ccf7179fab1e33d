-- ===== src/Flickr/Tokens.antt =====
-- Keys, tokens and what Flickr's answer is taken for
-- (services/flickr/flickr-credentials-manager.c).
use libsocialweb_flickr_oaut.Flickr.{
  is_check, token_looked_up, check, call_back, new, look_up_token, run, load, Event, step, is_load,
  credentials_checked, Node, Response, is_stat_ok, is_successful, is_set, Closure, root_ok,
  take_closure, Manager, credentials_ok, loads, checks, looked_up, checked, load_closure,
  check_closure,
}
use libsocialweb_flickr_oaut.Prelude.{
  refl, inr, ◌≢◌, inl, ℕ, eq_iff, String, Option-cases, Option, ◌<◌, ◌≤◌, arith, ◌&&◌, ◌↔◌, true,
  ◌≡◌, false, ◌||◌, Bool, List, [], ◌∷◌, none, some,
}

is_stat_ok_iff : (stat : Option String) → (is_stat_ok stat ≡ true) ↔ (stat ≡ some "ok")
unfolding is_stat_ok
is_stat_ok_iff none = ground arith
is_stat_ok_iff (some s) = ground (arith, eq_iff s "ok")

-- The root says that the token is good.
abbrev pub IsAccepting : Option Node → Type 0
IsAccepting root = (n : Node) × (root ≡ some n) × (n.name ≡ "rsp") × (n.stat ≡ some "ok")

root_ok_iff : (root : Option Node) → ((root_ok root).0 ≡ true) ↔ IsAccepting root
unfolding root_ok
root_ok_iff none = (λ h. ground arith, λ (n, e, a, b). ground arith)
root_ok_iff (some n) = (
  λ h. (
    n,
    refl,
    ground (arith, eq_iff n.name "rsp", is_stat_ok_iff n.stat),
    ground (arith, eq_iff n.name "rsp", is_stat_ok_iff n.stat),
  ),
  λ (k, e, a, b). ground (arith, e, eq_iff n.name "rsp", is_stat_ok_iff n.stat),
)

root_ok_error : (root : Option Node) → (root_ok root).0 ≡ true → (root_ok root).1 ≡ none
unfolding root_ok
root_ok_error none h = ground arith
root_ok_error (some n) h = ground arith

-- A reply to the check of a token is accepted exactly if its status is from 200 to 299, its XML parses
-- with the root "rsp", and the root's "stat" is "ok"; and then there is no error.
pub credentials_ok_iff :
    (r : Response)
    → (((credentials_ok (some r)).0 ≡ true)
        ↔ ((200 ≤ r.status) × (r.status < 300) × IsAccepting r.root))
      × ((credentials_ok (some r)).0 ≡ true → (credentials_ok (some r)).1 ≡ none)
unfolding credentials_ok is_successful
credentials_ok_iff r = (
  (
    λ h. (ground arith, ground arith, (root_ok_iff r.root).0 (ground arith)),
    λ (a, b, n). ground (arith, (root_ok_iff r.root).1 n),
  ),
  λ h. ground (arith, root_ok_error r.root),
)

-- A refusal in which Flickr puts no element "err" is reported to the caller as a failure without an
-- error: the callback gets FALSE and NULL.
pub refused_without_error :
    (user : ℕ) (status : ℕ) (n : Node) (m : Manager)
    → 200 ≤ status
    → status < 300
    → n.name ≡ "rsp"
    → n.stat ≢ some "ok"
    → n.has_err ≡ false
    → credentials_checked user false (some (record { status = status; root = some n })) m
      ≡ call_back user false none m
unfolding credentials_checked credentials_ok root_ok is_successful
refused_without_error user status n m a b e s h =
    ground (arith, eq_iff n.name "rsp", is_stat_ok_iff n.stat)

abbrev pub has_load : List Closure → Bool
has_load [] = false
has_load (load_closure u ∷ cs) = true
has_load (check_closure u ∷ cs) = has_load cs

-- A token, and a lookup of one, come with both keys.
pub record HasKeys (m : Manager) : Type 0 where
  pub keys :
      is_set m.token || (is_set m.token_secret || has_load m.waiting) ≡ true
      → is_set m.consumer_key && is_set m.consumer_secret ≡ true

take_closure-has_load :
    (fits : Closure → Bool) (cs rest : List Closure)
    → take_closure fits cs ≡ some rest
    → has_load rest ≡ true
    → has_load cs ≡ true
unfolding take_closure
take_closure-has_load fits [] rest e h = ground arith
take_closure-has_load fits (load_closure u ∷ cs) rest e h = refl
take_closure-has_load fits (check_closure u ∷ cs) rest e h =
    elim (Option-cases (take_closure fits cs)) [
      | inl missing ↦ ground arith
      | inr (ds, found) ↦ ground (arith, take_closure-has_load fits cs ds found)
    ]

is_load-has_load :
    (u : ℕ) (cs rest : List Closure) → take_closure (is_load u) cs ≡ some rest → has_load cs ≡ true
unfolding take_closure is_load
is_load-has_load u [] rest e = ground arith
is_load-has_load u (load_closure w ∷ cs) rest e = refl
is_load-has_load u (check_closure w ∷ cs) rest e =
    elim (Option-cases (take_closure (is_load u) cs)) [
      | inl missing ↦ ground arith
      | inr (ds, found) ↦ is_load-has_load u cs ds found
    ]

step-HasKeys : (e : Event) (m : Manager) → HasKeys m → HasKeys (step e m)
unfolding step load look_up_token check call_back token_looked_up credentials_checked
step-HasKeys (loads u none none) m k = record { keys = λ h. k.keys h }
step-HasKeys (loads u none (some s)) m k = record { keys = λ h. k.keys h }
step-HasKeys (loads u (some c) none) m k = record { keys = λ h. k.keys h }
step-HasKeys (loads u (some c) (some s)) m k = record { keys = λ h. refl }
step-HasKeys (checks u starts) m k = record { keys = λ h. ground (arith, k.keys) }
step-HasKeys (looked_up u found token token_secret) m k =
    elim (Option-cases (take_closure (is_load u) m.waiting)) [
      | inl missing ↦ rw (missing, step) k
      | inr (rest, e) ↦
          rw (e, step)
            (record {
              keys = λ h. ground (
                arith,
                k.keys,
                take_closure-has_load (is_load u) m.waiting rest e,
                is_load-has_load u m.waiting rest e,
              );
            })
    ]
step-HasKeys (checked u failed call) m k =
    elim (Option-cases (take_closure (is_check u) m.waiting)) [
      | inl missing ↦ rw (missing, step) k
      | inr (rest, e) ↦
          rw (e, step)
            (record {
              keys =
                  λ h. ground (arith, k.keys, take_closure-has_load (is_check u) m.waiting rest e);
            })
    ]

run_keeps-HasKeys : (es : List Event) (m : Manager) → HasKeys m → HasKeys (run es m)
unfolding run
run_keeps-HasKeys [] m k = k
run_keeps-HasKeys (e ∷ es) m k = run_keeps-HasKeys es (step e m) (step-HasKeys e m k)

-- Whatever happens to a new manager, it has a token or waits for one only while it has both the
-- consumer key and the consumer secret.
pub run-HasKeys : (es : List Event) → HasKeys (run es new)
unfolding new
run-HasKeys es = run_keeps-HasKeys es new (record { keys = λ h. ground arith })
