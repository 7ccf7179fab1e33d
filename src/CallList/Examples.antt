-- ===== src/CallList/Examples.antt =====
-- A list of two calls (libsocialweb/sw-call-list.c).
use libsocialweb_flickr_oaut.Prelude.{ℕ, true, ◌≡◌, [], arith, ◌∷◌}
use libsocialweb_flickr_oaut.CallList.Weak.{cancel_all_lem, IsTracked, count}
use libsocialweb_flickr_oaut.CallList.{call_died, cancel_all, is_empty, CallList}

abbrev two_calls : CallList
two_calls = record { calls = 5 ∷ 4 ∷ []; weak = 4 ∷ 5 ∷ []; cancelled = [] }

two_calls-IsTracked : IsTracked two_calls
unfolding count
two_calls-IsTracked c = ground arith

cancel_all_lem_example :
    (is_empty (cancel_all two_calls) ≡ true)
    × ((cancel_all two_calls).cancelled ≡ 5 ∷ 4 ∷ [])
    × ((c : ℕ) → call_died c (cancel_all two_calls) ≡ cancel_all two_calls)
cancel_all_lem_example = cancel_all_lem two_calls two_calls-IsTracked
