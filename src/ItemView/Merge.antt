-- ===== src/ItemView/Merge.antt =====
-- `sw_item_view_set_from_set`: what the view holds after it, whatever it held before
-- (libsocialweb/sw-item-view.c).
use libsocialweb_flickr_oaut.ItemView.Difference.{difference-IsDistinct, find-difference, no_keys}
use libsocialweb_flickr_oaut.ItemView.Content.{
  replace_stale-Refreshes, Coherent-remove_each, Coherent-add_each, refreshed,
}
use libsocialweb_flickr_oaut.Prelude.Int.{ℤ}
use libsocialweb_flickr_oaut.Set.Find.{
  contains-find, find-remove_each, find-add_each, or_else, find,
}
use libsocialweb_flickr_oaut.Set.{
  set_remove_from, set_as_list, set_add_from, set_is_empty, contains, set_difference, SwSet,
}
use libsocialweb_flickr_oaut.ItemView.{
  is_stale, remove_items, set_from_set, update_existing, remove_from_set, add_from_set,
  ready_arrays, track_item, update_items, add_items, View, track_items, ref_equal, same_ref,
}
use libsocialweb_flickr_oaut.Set.Laws.{IsDistinct}
use libsocialweb_flickr_oaut.ItemView.Index.{Coherent, ref_equal-IsEquivalence, HasIds}
use libsocialweb_flickr_oaut.Item.{item_equal, Item}
use libsocialweb_flickr_oaut.Prelude.{
  ◌==◌, refl, inr, inl, length, [], ltb, Bool-cases, ◌∷◌, List, String, ◌∙◌, ap, not, none, ◌≡◌,
  arith, if◌then◌else◌, some, Option, ℕ,
}

-- What a view that is set from a set holds for one id: nothing if the set has none, the set's item if
-- the view had none or had one that is not `sw_item_equal` to it, and else the item that it had.
abbrev pub merged : (ℕ → Item) → Option ℕ → Option ℕ → Option ℕ
merged heap none old = none
merged heap (some new) none = some new
merged heap (some new) (some old) = if item_equal (heap new) (heap old) then some old else some new

-- The loop over new items leaves alone what the view holds and what it has sent.
pub track_items_lem :
    (heap : ℕ → Item) (rs : List ℕ) (v : View)
    → track_items heap rs v ≡ record v {
      pending_items_set = (track_items heap rs v).pending_items_set;
      ready_handlers = (track_items heap rs v).ready_handlers;
      changed_handlers = (track_items heap rs v).changed_handlers;
    }
unfolding track_items
track_items_lem heap [] v = refl
track_items_lem heap (r ∷ rs) v = track_items_lem heap rs (track_item heap r v)

module _ {heap : ℕ → Item} (ids : HasIds heap) (name_of : ℕ → String)
    (time_of_string : String → ℤ) where
  -- The view's set and index are coherent and hold, for each id, what `f` says.
  pub record Content (v : View) (f : ℕ → Option ℕ) : Type 0 where
    pub coherent : Coherent heap v.current_items_set v.uid_to_items
    pub held : (z : ℕ) → find (ref_equal heap) v.current_items_set.keys z ≡ f z

  Content-add_items :
      {v : View} {f : ℕ → Option ℕ} (items : List ℕ)
      → Content v f
      → Content (add_items heap name_of time_of_string items v) f
  unfolding add_items
  Content-add_items {v} items c =
      rw (track_items_lem heap items v) (record { coherent = c.coherent; held = c.held })

  Content-update_items :
      {v : View} {f : ℕ → Option ℕ} (items : List ℕ)
      → Content v f
      → Content (update_items heap name_of time_of_string items v) f
  unfolding update_items
  Content-update_items {v} items c =
      elim (Bool-cases (ltb 0 (length (ready_arrays heap name_of time_of_string items)))) [
        | inl some_ready ↦
            rw (some_ready, update_items) (record { coherent = c.coherent; held = c.held })
        | inr none_ready ↦ rw (none_ready, update_items) c
      ]

  Content-add_from_set :
      {v : View} {f : ℕ → Option ℕ} (s : SwSet ℕ)
      → IsDistinct (ref_equal heap) s.keys
      → Content v f
      → Content
          (add_from_set heap name_of time_of_string s v)
          (λ z. or_else (find (ref_equal heap) s.keys z) (f z))
  unfolding add_from_set set_add_from set_as_list
  Content-add_from_set {v} {f} s d c = Content-add_items s.keys (record {
    coherent = Coherent-add_each ids c.coherent s.keys d;
    held = λ z. ground (
      arith,
      find-add_each (ref_equal-IsEquivalence ids) v.current_items_set s.keys z d,
      c.held z,
    );
  })

  Content-remove_from_set :
      {v : View} {f : ℕ → Option ℕ} (s : SwSet ℕ)
      → Content v f
      → Content
          (remove_from_set heap name_of time_of_string s v)
          (λ z. if contains (ref_equal heap) s.keys z then none else f z)
  unfolding remove_from_set remove_items set_remove_from set_as_list
  Content-remove_from_set {v} {f} s c = record {
    coherent = Coherent-remove_each ids c.coherent s.keys;
    held = λ z. ground (
      arith,
      find-remove_each (ref_equal-IsEquivalence ids) v.current_items_set s.keys z
          c.coherent.distinct,
      c.held z,
    );
  }

  Content-update_existing :
      {v : View} {f : ℕ → Option ℕ} (s : SwSet ℕ)
      → IsDistinct (ref_equal heap) s.keys
      → Content v f
      → Content
          (update_existing heap name_of time_of_string s v)
          (λ z. refreshed heap (find (ref_equal heap) s.keys z) (f z))
  unfolding update_existing set_as_list
  Content-update_existing {v} {f} s d c =
      let r = replace_stale-Refreshes ids s.keys v.current_items_set v.uid_to_items c.coherent d in
      Content-update_items _ (record {
        coherent = r.coherent;
        held = λ z. r.held z ∙ ap (refreshed heap (find (ref_equal heap) s.keys z)) (c.held z);
      })

  module _ {v : View} {f : ℕ → Option ℕ} where
    -- A step that is skipped where its set is empty does the same as the step.
    Content-if_nonempty :
        (s : SwSet ℕ) {g : ℕ → Option ℕ} (w : View)
        → Content v f
        → ((s.keys ≡ []) → (z : ℕ) → f z ≡ g z)
        → Content w g
        → Content (if not (set_is_empty s) then w else v) g
    unfolding set_is_empty
    Content-if_nonempty s w c e k = elim (Bool-cases (length s.keys == 0)) [
      | inl empty ↦
          rw empty
            (record { coherent = c.coherent; held = λ z. c.held z ∙ e (no_keys s.keys empty) z })
      | inr some_keys ↦ rw some_keys k
    ]

  Content-ext : {v : View} {f g : ℕ → Option ℕ} → Content v f → ((z : ℕ) → f z ≡ g z) → Content v g
  Content-ext c e = record { coherent = c.coherent; held = λ z. c.held z ∙ e z }

  -- Removal, refresh and addition, one after the other, merge.
  merged_by_steps :
      (set current : SwSet ℕ) (z : ℕ)
      → IsDistinct (ref_equal heap) set.keys
      → IsDistinct (ref_equal heap) current.keys
      → or_else
          (find (ref_equal heap) (set_difference same_ref (ref_equal heap) set current).keys z)
          (refreshed heap (find (ref_equal heap) set.keys z) (
            if contains
              (ref_equal heap)
              (set_difference same_ref (ref_equal heap) current set).keys
              z
            then none
            else find (ref_equal heap) current.keys z))
        ≡ merged heap (find (ref_equal heap) set.keys z) (find (ref_equal heap) current.keys z)
  unfolding is_stale
  merged_by_steps set current z d c = ground (
    arith,
    find-difference ids set current z d,
    find-difference ids current set z c,
    contains-find (ref_equal heap) (set_difference same_ref (ref_equal heap) current set).keys z,
    contains-find (ref_equal heap) current.keys z,
    contains-find (ref_equal heap) set.keys z,
  )

  -- What is left when the items that the set lacks are gone.
  pub Content-removal :
      (set : SwSet ℕ) (v : View)
      → Coherent heap v.current_items_set v.uid_to_items
      → let removed = set_difference same_ref (ref_equal heap) v.current_items_set set in
        Content
          (if not (set_is_empty removed)
            then remove_from_set heap name_of time_of_string removed v
            else v)
          (λ z.
            if contains (ref_equal heap) removed.keys z
            then none
            else find (ref_equal heap) v.current_items_set.keys z)
  unfolding contains
  Content-removal set v c =
      let removed = set_difference same_ref (ref_equal heap) v.current_items_set set in
      let c0 : Content v (find (ref_equal heap) v.current_items_set.keys) = record {
        coherent = c;
        held = λ z. refl;
      } in
      Content-if_nonempty removed (remove_from_set heap name_of time_of_string removed v) c0
        (λ e z. rw e refl) (Content-remove_from_set removed c0)

  -- From any view whose set and index agree, and with a set of items in which no two have one id,
  -- `sw_item_view_set_from_set` leaves a view whose set and index agree again, and which for each
  -- id holds what the set and the old view say together: nothing if the set has no such item, and
  -- else the set's item, unless the view had one that `sw_item_equal` finds equal, which then stays.
  pub set_from_set_lem :
      (set : SwSet ℕ) (v : View)
      → Coherent heap v.current_items_set v.uid_to_items
      → IsDistinct (ref_equal heap) set.keys
      → Content (set_from_set heap name_of time_of_string set v) (λ z.
        merged heap
          (find (ref_equal heap) set.keys z)
          (find (ref_equal heap) v.current_items_set.keys z))
  unfolding set_from_set set_is_empty
  set_from_set_lem set v c d =
      let current = v.current_items_set in
      let removed = set_difference same_ref (ref_equal heap) current set in
      let added = set_difference same_ref (ref_equal heap) set current in
      let held = find (ref_equal heap) current.keys in
      let c0 : Content v held = record { coherent = c; held = λ z. refl } in
      let c1 = Content-removal set v c in
      let c2 = Content-update_existing set d c1 in
      let c3 =
        Content-if_nonempty added (add_from_set heap name_of time_of_string added _) c2
          (λ e z. rw e refl)
          (Content-add_from_set added (difference-IsDistinct ids set current d) c2) in
      elim (Bool-cases (set_is_empty current)) [
        | inl empty ↦
            rw (empty, set_from_set)
              (Content-ext (Content-add_from_set set d c0) (λ z. ground (
                arith,
                ap (λ (l : List ℕ). find (ref_equal heap) l z) (no_keys current.keys empty),
              )))
        | inr some_keys ↦
            rw (some_keys, set_from_set)
              (Content-ext c3 (λ z. merged_by_steps set current z d c.distinct))
      ]
