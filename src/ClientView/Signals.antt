-- ===== src/ClientView/Signals.antt =====
-- What a client's copy has when it has received the signals of a view
-- (libsocialweb-client/sw-client-item-view.c).
use libsocialweb_flickr_oaut.ItemView.Emitted.{stale_items, only_in, expected, unless_empty}
use libsocialweb_flickr_oaut.ClientView.Table.{
  held-change_each, held-remove_each_uid, changed_to, held-add_each, held, array,
}
use libsocialweb_flickr_oaut.Set.{contains, SwSet}
use libsocialweb_flickr_oaut.ItemView.{
  is_stale, removed_pairs, items_changed, items_removed, items_added, BusSignal, ready_arrays,
  ref_equal,
}
use libsocialweb_flickr_oaut.Prelude.Int.{ℤ}
use libsocialweb_flickr_oaut.Set.Find.{keep-IsDistinct, find-Respects, contains-find, keep, find}
use libsocialweb_flickr_oaut.Set.Laws.{IsDistinct, IsEquivalence}
use libsocialweb_flickr_oaut.ItemView.Index.{ref_equal-IsEquivalence, HasIds}
use libsocialweb_flickr_oaut.Prelude.{
  not, ◌++◌, true, Bool-cases, All, Bool, ℕ, String, Option, none, some, List, [], ◌∷◌, map, ◌≡◌,
  refl, ap, ◌∙◌, arith, if◌then◌else◌, inl, inr,
}
use libsocialweb_flickr_oaut.ClientView.{receive, receive_all, ClientView}
use libsocialweb_flickr_oaut.Item.{get_ready, Item, ValueArray}

All-keep {ℓ} : (P : ℕ → Type ℓ) (p : ℕ → Bool) (xs : List ℕ) → All P xs → All P (keep p xs)
All-keep P p [] a = tt
All-keep P p (x ∷ xs) a = elim (Bool-cases (p x)) [
  | inl kept ↦ rw kept (a.0, All-keep P p xs a.1)
  | inr left ↦ rw left (All-keep P p xs a.1)
]

abbrev pub found_if : (ℕ → Bool) → Option ℕ → Option ℕ
found_if p none = none
found_if p (some n) = if p n then some n else none

module _ {heap : ℕ → Item} (ids : HasIds heap) where
  abbrev pub same : IsEquivalence (ref_equal heap)
  same = ref_equal-IsEquivalence ids

  pub find-is_equal :
      (xs : List ℕ) (z n : ℕ) → find (ref_equal heap) xs z ≡ some n → ref_equal heap n z ≡ true
  find-is_equal [] z n h = ground arith
  find-is_equal (x ∷ xs) z n h =
      ground (arith, find-is_equal xs z n, ap (λ k. ref_equal heap k z) {x = x} {y = n})

  pub find-keep_distinct :
      (p : ℕ → Bool) (xs : List ℕ) (z : ℕ)
      → IsDistinct (ref_equal heap) xs
      → find (ref_equal heap) (keep p xs) z ≡ found_if p (find (ref_equal heap) xs z)
  find-keep_distinct p [] z d = refl
  find-keep_distinct p (x ∷ xs) z d = ground (
    arith,
    find-keep_distinct p xs z d.1,
    contains-find (ref_equal heap) xs x,
    find-Respects same xs x z,
  )

  module _ (name_of : ℕ → String) (time_of_string : String → ℤ) where
    ready_arrays-map :
        (rs : List ℕ)
        → All (λ r. get_ready (heap r) ≡ true) rs
        → ready_arrays heap name_of time_of_string rs ≡ map (array ids name_of time_of_string) rs
    unfolding ready_arrays
    ready_arrays-map [] a = refl
    ready_arrays-map (r ∷ rs) a =
        rw a.0 (ap (◌∷◌ (array ids name_of time_of_string r)) (ready_arrays-map rs a.1))

    receive_all-append :
        (xs ys : List BusSignal) (c : ClientView)
        → receive_all (xs ++ ys) c ≡ receive_all ys (receive_all xs c)
    unfolding receive_all
    receive_all-append [] ys c = refl
    receive_all-append (x ∷ xs) ys c = receive_all-append xs ys (receive x c)

    held-removed_signal :
        (rs : List ℕ) (c : ClientView) (z : ℕ)
        → held ids name_of time_of_string
            (receive_all
              (unless_empty (λ l. items_removed (removed_pairs heap name_of time_of_string l)) rs)
              c)
            z
          ≡ (if contains (ref_equal heap) rs z then none else held ids name_of time_of_string c z)
    unfolding receive_all receive contains
    held-removed_signal [] c z = refl
    held-removed_signal (r ∷ rs) c z = held-remove_each_uid ids name_of time_of_string (r ∷ rs) c z

    held-changed_signal :
        (rs : List ℕ) (c : ClientView) (z : ℕ)
        → IsDistinct (ref_equal heap) rs
        → held ids name_of time_of_string
            (receive_all (unless_empty items_changed (map (array ids name_of time_of_string) rs)) c)
            z
          ≡ changed_to ids name_of time_of_string
              (held ids name_of time_of_string c z)
              (find (ref_equal heap) rs z)
    unfolding receive_all receive
    held-changed_signal [] c z d = ground arith
    held-changed_signal (r ∷ rs) c z d = held-change_each ids name_of time_of_string (r ∷ rs) c z d

    abbrev pub added_to : Option ValueArray → Option ℕ → Option ValueArray
    added_to old none = old
    added_to old (some r) = some (array ids name_of time_of_string r)

    pub held-added :
        (rs : List ℕ) (c : ClientView) (z : ℕ)
        → IsDistinct (ref_equal heap) rs
        → All (λ r. get_ready (heap r) ≡ true) rs
        → held ids name_of time_of_string
            (receive (items_added (ready_arrays heap name_of time_of_string rs)) c)
            z
          ≡ added_to (held ids name_of time_of_string c z) (find (ref_equal heap) rs z)
    unfolding receive
    held-added rs c z d a =
        rw (ready_arrays-map rs a)
          (held-add_each ids name_of time_of_string rs c z d ∙ ground arith)

    held-added_signal :
        (rs : List ℕ) (c : ClientView) (z : ℕ)
        → IsDistinct (ref_equal heap) rs
        → All (λ r. get_ready (heap r) ≡ true) rs
        → held ids name_of time_of_string
            (receive_all
              (unless_empty (λ l. items_added (ready_arrays heap name_of time_of_string l)) rs)
              c)
            z
          ≡ added_to (held ids name_of time_of_string c z) (find (ref_equal heap) rs z)
    unfolding receive_all
    held-added_signal [] c z d a = refl
    held-added_signal (r ∷ rs) c z d a = held-added (r ∷ rs) c z d a

    abbrev pub IsReady : ℕ → Type 0
    IsReady r = get_ready (heap r) ≡ true

    -- The three signals one after the other, on an arbitrary copy.
    pub held-expected :
        (set current : SwSet ℕ) (c : ClientView) (z : ℕ)
        → IsDistinct (ref_equal heap) set.keys
        → All IsReady set.keys
        → held ids name_of time_of_string
            (receive_all (expected heap name_of time_of_string set current) c)
            z
          ≡ added_to
              (changed_to ids name_of time_of_string
                (if contains (ref_equal heap) (only_in heap current set) z
                  then none
                  else held ids name_of time_of_string c z)
                (find (ref_equal heap) (stale_items heap set current) z))
              (find (ref_equal heap) (only_in heap set current) z)
    unfolding expected
    held-expected set current c z d a =
        let stale : ℕ → Bool = λ r. is_stale heap r (find (ref_equal heap) current.keys r) in
        let new : ℕ → Bool = λ r. not (contains (ref_equal heap) current.keys r) in
        let removed : List BusSignal =
          unless_empty (λ l. items_removed (removed_pairs heap name_of time_of_string l))
            (only_in heap current set) in
        let changed : List BusSignal =
          unless_empty items_changed
            (ready_arrays heap name_of time_of_string (stale_items heap set current)) in
        let added : List BusSignal =
          unless_empty (λ l. items_added (ready_arrays heap name_of time_of_string l))
            (only_in heap set current) in
        let c1 = receive_all removed c in
        let stale_ready = All-keep IsReady stale set.keys a in
        ap (λ (w : ClientView). held ids name_of time_of_string w z)
          (receive_all-append removed (changed ++ added) c ∙ receive_all-append changed added c1)
        ∙ held-added_signal (only_in heap set current) (receive_all changed c1) z
            (keep-IsDistinct same new set.keys d) (All-keep IsReady new set.keys a)
        ∙ ap (λ o. added_to o (find (ref_equal heap) (only_in heap set current) z))
            (ap
                (λ arrays.
                  held ids name_of time_of_string
                    (receive_all (unless_empty items_changed arrays) c1) z)
                (ready_arrays-map (stale_items heap set current) stale_ready)
              ∙ held-changed_signal (stale_items heap set current) c1 z
                  (keep-IsDistinct same stale set.keys d)
              ∙ ap
                  (λ o.
                    changed_to ids name_of time_of_string o
                      (find (ref_equal heap) (stale_items heap set current) z))
                  (held-removed_signal (only_in heap current set) c z))
