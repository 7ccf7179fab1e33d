-- ===== src/CallList/Weak.antt =====
-- The weak references to a call list (libsocialweb/sw-call-list.c) are those of the calls on it.
use mathlib.Core.List.{append_assoc, append-nil}
use libsocialweb_flickr_oaut.CallList.{
  call_died, is_empty, remove, cancel_all, add, cancel_each, listed, remove_one, CallList,
}
use libsocialweb_flickr_oaut.Prelude.{
  ◌∙◌, ap, sym, refl, ◌<◌, ◌+◌, ◌++◌, arith, ◌↔◌, ◌==◌, [], true, ◌-◌, if◌then◌else◌, ◌≡◌, ◌∷◌,
  List, ℕ,
}

unfoldable pub count : ℕ → List ℕ → ℕ
count c [] = 0
count c (x ∷ xs) = (if x == c then 1 else 0) + count c xs

-- Each call is on the list as often as it has a weak reference to it.
abbrev pub IsTracked : CallList → Type 0
IsTracked s = (c : ℕ) → count c s.calls ≡ count c s.weak

count-remove_one :
    (c d : ℕ) (l : List ℕ) → count d (remove_one c l) ≡ count d l - (if c == d then 1 else 0)
unfolding count remove_one
count-remove_one c d [] = ground arith
count-remove_one c d (x ∷ l) = ground (arith, count-remove_one c d l)

listed-count : (c : ℕ) (l : List ℕ) → (listed c l ≡ true) ↔ (0 < count c l)
unfolding count listed
listed-count c [] = ground arith
listed-count c (x ∷ l) = ground (arith, listed-count c l)

none_left : (l : List ℕ) → ((c : ℕ) → count c l ≡ 0) → l ≡ []
unfolding count
none_left [] h = refl
none_left (x ∷ l) h = ground (arith, h x)

cancel_each_lem :
    (l : List ℕ) (s : CallList)
    → ((c : ℕ) → count c l ≡ count c s.weak)
    → ((cancel_each l s).calls ≡ [])
      × ((cancel_each l s).weak ≡ [])
      × ((cancel_each l s).cancelled ≡ s.cancelled ++ l)
unfolding cancel_each
cancel_each_lem [] s h =
    (refl, none_left s.weak (λ c. sym (h c) ∙ (unfold count in refl)), sym (append-nil s.cancelled))
cancel_each_lem (x ∷ l) s h =
    let next : CallList = record s {
      calls = l;
      weak = remove_one x s.weak;
      cancelled = s.cancelled ++ x ∷ [];
    } in
    let more =
      cancel_each_lem l next
        (λ c. unfold count in ground (arith, h c, count-remove_one x c s.weak)) in
    (more.0, more.1, more.2 ∙ append_assoc s.cancelled (x ∷ []) l)

-- Every operation keeps the calls on the list and its weak references in step, also the removal of a
-- call that is not on the list and the death of any call.
pub operations-IsTracked :
    (c : ℕ) (s : CallList)
    → IsTracked s
    → IsTracked (add c s)
      × IsTracked (remove c s)
      × IsTracked (call_died c s)
      × IsTracked (cancel_all s)
unfolding add remove call_died cancel_all
operations-IsTracked c s t = (
  λ d. unfold count in ground (arith, t d),
  λ d. ground (arith, t d, count-remove_one c d s.calls, count-remove_one c d s.weak),
  λ d. ground (arith, t d, count-remove_one c d s.calls, count-remove_one c d s.weak),
  λ d. let (a, b, _) = cancel_each_lem s.calls s t in ap (count d) a ∙ ap (count d) (sym b),
)

-- Cancelling cancels exactly the calls on the list, each as often as it is there and the newest
-- first, and leaves neither a call on the list nor a weak reference to it, so that no dying call
-- reaches a list that was freed.
pub cancel_all_lem :
    (s : CallList)
    → IsTracked s
    → (is_empty (cancel_all s) ≡ true)
      × ((cancel_all s).cancelled ≡ s.cancelled ++ s.calls)
      × ((c : ℕ) → call_died c (cancel_all s) ≡ cancel_all s)
unfolding cancel_all is_empty call_died
cancel_all_lem s t =
    let (a, b, k) = cancel_each_lem s.calls s t in
    (ground (arith, a), k, λ c. unfold listed in ground (arith, b))
