-- ===== src/ItemView/Emitted.antt =====
-- What `sw_item_view_set_from_set` sends over the bus (libsocialweb/sw-item-view.c).
use mathlib.Core.Path.{ap₂}
use mathlib.Core.List.{append_assoc, append-nil}
use libsocialweb_flickr_oaut.ItemView.Merge.{Content-removal, Content, track_items_lem}
use libsocialweb_flickr_oaut.ItemView.Difference.{keys-difference, find-difference}
use libsocialweb_flickr_oaut.ItemView.Content.{Coherent-set_add}
use libsocialweb_flickr_oaut.Dict.{Dict}
use libsocialweb_flickr_oaut.ItemView.{
  update_existing, remove_items, add_from_set, remove_from_set, same_ref, set_from_set, View,
  update_items, add_items, index_item, items_added, uid, ready_arrays, find_indexed, items_changed,
  removed_pairs, items_removed, ref_equal, BusSignal, is_stale, replace_stale,
}
use libsocialweb_flickr_oaut.Set.Laws.{IsDistinct, IsEquivalence}
use libsocialweb_flickr_oaut.Prelude.Int.{ℤ}
use libsocialweb_flickr_oaut.Set.Find.{contains-find, find-replace, find, keep}
use libsocialweb_flickr_oaut.ItemView.Index.{Coherent, ref_equal-IsEquivalence, HasIds}
use libsocialweb_flickr_oaut.Set.{
  set_as_list, set_difference, set_is_empty, set_add, contains, SwSet,
}
use libsocialweb_flickr_oaut.Item.{Item}
use libsocialweb_flickr_oaut.Prelude.{
  none, if◌then◌else◌, refl, inr, ap, inl, Bool-cases, ◌∙◌, sym, arith, All, ◌++◌, true, false, ◌≡◌,
  Option, not, String, [], ◌∷◌, List, ℕ,
}

-- The items of a set that the view holds in a version that is not `sw_item_equal`.
abbrev pub stale_items : (ℕ → Item) → SwSet ℕ → SwSet ℕ → List ℕ
stale_items heap set current =
    keep (λ r. is_stale heap r (find (ref_equal heap) current.keys r)) set.keys

-- The items of the first set whose ids the second does not have.
abbrev pub only_in : (ℕ → Item) → SwSet ℕ → SwSet ℕ → List ℕ
only_in heap a b = keep (λ r. not (contains (ref_equal heap) b.keys r)) a.keys

abbrev pub unless_empty {ℓ κ} : {A : Type ℓ} {B : Type κ} → (List A → B) → List A → List B
unless_empty f [] = []
unless_empty f (x ∷ xs) = f (x ∷ xs) ∷ []

-- Nothing is said where there is nothing to say of an item that is gone, changed or new.
unfoldable pub expected :
    (ℕ → Item) → (ℕ → String) → (String → ℤ) → SwSet ℕ → SwSet ℕ → List BusSignal
expected heap name_of time_of_string set current =
    unless_empty (λ rs. items_removed (removed_pairs heap name_of time_of_string rs))
      (only_in heap current set)
    ++ (unless_empty items_changed
          (ready_arrays heap name_of time_of_string (stale_items heap set current))
        ++ unless_empty (λ rs. items_added (ready_arrays heap name_of time_of_string rs))
            (only_in heap set current))

All-map {ℓ κ μ} :
    {A : Type ℓ} {P : A → Type κ} {Q : A → Type μ} (xs : List A)
    → All P xs
    → ((x : A) → P x → Q x)
    → All Q xs
All-map [] a f = tt
All-map (x ∷ xs) a f = (f x a.0, All-map xs a.1 f)

regroup {ℓ} : {A : Type ℓ} (a b c d : List A) → ((a ++ b) ++ c) ++ d ≡ a ++ (b ++ (c ++ d))
regroup a b c d = simp append_assoc

module _ {heap : ℕ → Item} (ids : HasIds heap) where
  abbrev same : IsEquivalence (ref_equal heap)
  same = ref_equal-IsEquivalence ids

  All-replace :
      (current : SwSet ℕ) (g : ℕ → Option ℕ) (x : ℕ) (xs : List ℕ)
      → contains (ref_equal heap) xs x ≡ false
      → All (λ n. find (ref_equal heap) current.keys n ≡ g n) xs
      → All (λ n. find (ref_equal heap) (set_add (ref_equal heap) current x).keys n ≡ g n) xs
  unfolding contains set_add
  All-replace current g x [] h a = tt
  All-replace current g x (n ∷ xs) h a =
      ground
        (arith, All-replace current g x xs, find-replace same current.keys x n, same.symmetric x n)

  -- The items that are sent as changed are those that were stale at the start of the loop.
  sent-replace_stale :
      (xs : List ℕ) (current : SwSet ℕ) (d : Dict ℕ) (g : ℕ → Option ℕ)
      → Coherent heap current d
      → IsDistinct (ref_equal heap) xs
      → All (λ n. find (ref_equal heap) current.keys n ≡ g n) xs
      → (replace_stale heap xs current d).2 ≡ keep (λ r. is_stale heap r (g r)) xs
  unfolding replace_stale
  sent-replace_stale [] current d g c u a = refl
  sent-replace_stale (x ∷ xs) current d g c u a =
      let known : find_indexed (uid heap x) d ≡ g x = sym (c.indexed x) ∙ a.0 in
      rw (known, replace_stale)
        (elim (Bool-cases (is_stale heap x (g x))) [
          | inl stale ↦ rw stale (
              ap (◌∷◌ x) (
                sent-replace_stale xs (set_add (ref_equal heap) current x)
                  (index_item (uid heap x) x d) g (Coherent-set_add ids c x) u.1
                  (All-replace current g x xs u.0 a.1)))
          | inr fresh ↦ rw fresh (sent-replace_stale xs current d g c u.1 a.1)
        ])

  All-contains :
      (ys xs : List ℕ)
      → ((z : ℕ) → contains (ref_equal heap) xs z ≡ true → contains (ref_equal heap) ys z ≡ true)
      → All (λ n. contains (ref_equal heap) ys n ≡ true) xs
  unfolding contains
  All-contains ys [] h = tt
  All-contains ys (x ∷ xs) h =
      (h x (ground (arith, same.reflexive x)), All-contains ys xs (λ z k. h z (ground arith)))

  module _ (name_of : ℕ → String) (time_of_string : String → ℤ) where
    bus-add_items :
        (items : List ℕ) (v : View)
        → (add_items heap name_of time_of_string items v).bus
          ≡ v.bus ++ items_added (ready_arrays heap name_of time_of_string items) ∷ []
    unfolding add_items
    bus-add_items items v = rw (track_items_lem heap items v)

    bus-update_items :
        (items : List ℕ) (v : View)
        → (update_items heap name_of time_of_string items v).bus
          ≡ v.bus ++ unless_empty items_changed (ready_arrays heap name_of time_of_string items)
    unfolding update_items
    bus-update_items items v = ground (arith, append-nil v.bus)

    -- The three steps of the merge, each skipped where its set is empty.
    bus-if_nonempty :
        (s : SwSet ℕ) (f : List ℕ → BusSignal) (v w : View)
        → w.bus ≡ v.bus ++ f s.keys ∷ []
        → (if not (set_is_empty s) then w else v).bus ≡ v.bus ++ unless_empty f s.keys
    unfolding set_is_empty
    bus-if_nonempty s f v w e = ground (arith, append-nil v.bus)

    bus-add_from_set :
        (s : SwSet ℕ) (v : View)
        → (add_from_set heap name_of time_of_string s v).bus
          ≡ v.bus ++ items_added (ready_arrays heap name_of time_of_string s.keys) ∷ []
    unfolding add_from_set set_as_list
    bus-add_from_set s v = bus-add_items s.keys _

    bus-remove_from_set :
        (s : SwSet ℕ) (v : View)
        → (remove_from_set heap name_of time_of_string s v).bus
          ≡ v.bus ++ items_removed (removed_pairs heap name_of time_of_string s.keys) ∷ []
    unfolding remove_from_set remove_items set_as_list
    bus-remove_from_set s v = refl

    bus-update_existing :
        (s : SwSet ℕ) (v : View) {sent : List ℕ}
        → (replace_stale heap s.keys v.current_items_set v.uid_to_items).2 ≡ sent
        → (update_existing heap name_of time_of_string s v).bus
          ≡ v.bus ++ unless_empty items_changed (ready_arrays heap name_of time_of_string sent)
    unfolding update_existing set_as_list
    bus-update_existing s v e = rw (← e) (bus-update_items _ _)

    sent_after_removal :
        (set : SwSet ℕ) (v w : View)
        → IsDistinct (ref_equal heap) set.keys
        → IsDistinct (ref_equal heap) v.current_items_set.keys
        → Content ids name_of time_of_string w (λ z.
          if contains
            (ref_equal heap)
            (set_difference same_ref (ref_equal heap) v.current_items_set set).keys
            z
          then none
          else find (ref_equal heap) v.current_items_set.keys z)
        → (replace_stale heap set.keys w.current_items_set w.uid_to_items).2
          ≡ stale_items heap set v.current_items_set
    sent_after_removal set v w d u c =
        let removed = set_difference same_ref (ref_equal heap) v.current_items_set set in
        sent-replace_stale set.keys w.current_items_set w.uid_to_items
          (find (ref_equal heap) v.current_items_set.keys) c.coherent d
          (All-map set.keys (All-contains set.keys set.keys (λ z h. h)) (λ n h.
            c.held n
            ∙ ground (
              arith,
              find-difference ids v.current_items_set set n u,
              contains-find (ref_equal heap) removed.keys n,
            )))

    -- From any view whose set and index agree, `sw_item_view_set_from_set` adds to what was sent: for
    -- an empty view one "ItemsAdded", with those items of the set that are ready, even if there are
    -- none; otherwise, in this order and each only if it has an entry to report, "ItemsRemoved" for
    -- the items whose ids the set lacks, "ItemsChanged" with the ready ones of those that
    -- `sw_item_equal` does not find equal to the view's of the same id, and "ItemsAdded", which also goes out with no entry where none of the new
    -- items is ready.
    pub bus-set_from_set :
        (set : SwSet ℕ) (v : View)
        → Coherent heap v.current_items_set v.uid_to_items
        → IsDistinct (ref_equal heap) set.keys
        → (set_from_set heap name_of time_of_string set v).bus
          ≡ v.bus
            ++ (if set_is_empty v.current_items_set
                then items_added (ready_arrays heap name_of time_of_string set.keys) ∷ []
                else expected heap name_of time_of_string set v.current_items_set)
    unfolding set_from_set expected
    bus-set_from_set set v c d =
        let current = v.current_items_set in
        let removed = set_difference same_ref (ref_equal heap) current set in
        let added = set_difference same_ref (ref_equal heap) set current in
        let removed_signal : List ℕ → BusSignal =
          λ rs. items_removed (removed_pairs heap name_of time_of_string rs) in
        let added_signal : List ℕ → BusSignal =
          λ rs. items_added (ready_arrays heap name_of time_of_string rs) in
        let changed =
          unless_empty items_changed
            (ready_arrays heap name_of time_of_string (stale_items heap set current)) in
        let w =
          if not (set_is_empty removed)
          then remove_from_set heap name_of time_of_string removed v
          else v in
        elim (Bool-cases (set_is_empty current)) [
          | inl empty ↦ rw (empty, set_from_set) (bus-add_from_set set v)
          | inr some_keys ↦
              rw (some_keys, set_from_set)
                (bus-if_nonempty added
                    (λ rs. items_added (ready_arrays heap name_of time_of_string rs)) _ _
                    (bus-add_from_set added _)
                  ∙ ap (λ b. b ++ unless_empty added_signal added.keys)
                      (bus-update_existing set w (
                          sent_after_removal set v w d c.distinct
                            (Content-removal ids name_of time_of_string set v c))
                        ∙ ap (λ b. b ++ changed)
                            (bus-if_nonempty removed removed_signal v _
                              (bus-remove_from_set removed v)))
                  ∙ regroup v.bus _ changed _
                  ∙ ap₂
                      (λ r a.
                        v.bus
                        ++ (unless_empty removed_signal r
                            ++ (changed ++ unless_empty added_signal a)))
                      (keys-difference ids current set c.distinct)
                      (keys-difference ids set current d))
        ]
