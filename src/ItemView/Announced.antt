-- ===== src/ItemView/Announced.antt =====
-- The operations of a view on the items that wait, and what comes of them
-- (libsocialweb/sw-item-view.c).
use libsocialweb_flickr_oaut.Set.Laws.{replace-IsDistinct, IsDistinct}
use mathlib.Core.Path.{subst, fun_ext}
use libsocialweb_flickr_oaut.ItemView.Waiting.{IsWaiting-Keeps, Keeps, same_name, IsWaiting}
use libsocialweb_flickr_oaut.ItemView.Index.{ref_equal-IsEquivalence, ref_equal-uid, HasIds}
use libsocialweb_flickr_oaut.Item.{get_ready, get, Item}
use libsocialweb_flickr_oaut.Set.Find.{keep}
use libsocialweb_flickr_oaut.Prelude.Int.{ℤ}
use libsocialweb_flickr_oaut.Set.{
  set_is_empty, set_as_list, set_difference, set_add_from, SwSet, set_add, replace,
}
use libsocialweb_flickr_oaut.ItemView.{
  same_ref, index_all, replace_stale, add_items, remove_items, set_from_set, update_existing,
  remove_from_set, add_from_set, remove_by_uid, item_changed_timeout, update_items, track_items,
  ref_equal, View, track_item, listed,
}
use libsocialweb_flickr_oaut.Prelude.{
  false, not, if◌then◌else◌, sym, inr, inl, Bool-cases, some, ◌||◌, ==_iff, ◌==◌, true, List,
  String, Bool, ℕ, ◌≡◌, [], ◌∷◌, arith, ap,
}

listed-replace :
    (eq : ℕ → ℕ → Bool) (q x : ℕ) (l : List ℕ)
    → listed q (replace eq l x) ≡ true
    → (q == x) || listed q l ≡ true
unfolding listed replace
listed-replace eq q x [] h = ground (arith, ==_iff q x, ==_iff x q)
listed-replace eq q x (y ∷ l) h = ground (arith, ==_iff q x, ==_iff x q, listed-replace eq q x l)

pub listed-keep :
    (p : ℕ → Bool) (q : ℕ) (l : List ℕ)
    → listed q (keep p l) ≡ true
    → (listed q l ≡ true) × (p q ≡ true)
unfolding listed
listed-keep p q [] h = ground arith
listed-keep p q (x ∷ l) h = ground (arith, listed-keep p q l, ==_iff x q, ap p {x = x} {y = q})

module _ (name : ℕ → String) (name_of : ℕ → String) (time_of_string : String → ℤ) (source : ℕ) where
  module _ (heap : ℕ → Item) (h : (r : ℕ) → get (heap r) "id" ≡ some (name r)) where
    abbrev pub named_ids : HasIds heap
    named_ids = record { name = name; named = h }

    -- By their ids, items are compared by name.
    ref_equal-same_name : ref_equal heap ≡ same_name name
    ref_equal-same_name = fun_ext (λ a. fun_ext (λ b. ref_equal-uid named_ids a b))

    pub IsDistinct-ref_equal :
        (l : List ℕ) → IsDistinct (same_name name) l → IsDistinct (ref_equal heap) l
    IsDistinct-ref_equal l = subst (λ eq. IsDistinct eq l) (sym ref_equal-same_name)

    pub IsDistinct-same_name :
        (l : List ℕ) → IsDistinct (ref_equal heap) l → IsDistinct (same_name name) l
    IsDistinct-same_name l = subst (λ eq. IsDistinct eq l) ref_equal-same_name

  track_item-IsWaiting :
      (heap : ℕ → Item) (r : ℕ) (v : View)
      → IsWaiting name (record { heap = heap; view = v })
      → IsWaiting name (record { heap = heap; view = track_item heap r v })
  unfolding track_item set_add
  track_item-IsWaiting heap r v h = elim (Bool-cases (get_ready (heap r))) [
    | inl ready ↦
        rw (ready, track_item) (record { named = h.named; distinct = h.distinct; each = h.each })
    | inr unready ↦
        let keys = v.pending_items_set.keys in
        let d =
          replace-IsDistinct (ref_equal-IsEquivalence (named_ids heap h.named)) keys r
            (IsDistinct-ref_equal heap h.named keys h.distinct) in
        rw (unready, track_item)
          (record {
            named = h.named;
            distinct = IsDistinct-same_name heap h.named (replace (ref_equal heap) keys r) d;
            each = λ q l.
                unfold listed in
                ground (
                  arith,
                  unready,
                  listed-replace (ref_equal heap) q r keys l,
                  h.each q,
                  ==_iff q r,
                  ==_iff r q,
                  ap (λ k. get_ready (heap k)) {x = q} {y = r},
                );
          })
  ]

  track_items-IsWaiting :
      (heap : ℕ → Item) (rs : List ℕ) (v : View)
      → IsWaiting name (record { heap = heap; view = v })
      → IsWaiting name (record { heap = heap; view = track_items heap rs v })
  unfolding track_items
  track_items-IsWaiting heap [] v h = h
  track_items-IsWaiting heap (r ∷ rs) v h =
      track_items-IsWaiting heap rs (track_item heap r v) (track_item-IsWaiting heap r v h)

  module _ (heap : ℕ → Item) where
    abbrev Waits : View → Type 0
    Waits v = IsWaiting name (record { heap = heap; view = v })

    Waits-Keeps : (v w : View) → Keeps v w → Waits v → Waits w
    Waits-Keeps v w k h = IsWaiting-Keeps name name_of time_of_string source heap v w k h

    Keeps-update_items :
        (items : List ℕ) (v : View) → Keeps v (update_items heap name_of time_of_string items v)
    unfolding update_items
    Keeps-update_items items v = record {
      pending = ground arith;
      timeout = ground arith;
      handlers = ground arith;
    }

    pub Keeps-item_changed_timeout :
        (v : View) → Keeps v (item_changed_timeout heap name_of time_of_string v)
    unfolding item_changed_timeout
    Keeps-item_changed_timeout v =
        let k = Keeps-update_items v.changed_items v in
        record { pending = k.pending; timeout = k.timeout; handlers = k.handlers }

    pub Keeps-remove_by_uid :
        (k : String) (v : View) → Keeps v (remove_by_uid heap name_of time_of_string k v)
    unfolding remove_by_uid remove_items
    Keeps-remove_by_uid k v = record {
      pending = ground arith;
      timeout = ground arith;
      handlers = ground arith;
    }

    Waits-add_from_set :
        (set : SwSet ℕ) (v : View)
        → Waits v
        → Waits (add_from_set heap name_of time_of_string set v)
    unfolding add_from_set add_items
    Waits-add_from_set set v h =
        let indexed : View = record v {
          current_items_set = set_add_from (ref_equal heap) v.current_items_set set;
          uid_to_items = index_all heap (set_as_list set) v.uid_to_items;
        } in
        let t =
          track_items-IsWaiting heap (set_as_list set) indexed
            (record { named = h.named; distinct = h.distinct; each = h.each }) in
        record { named = t.named; distinct = t.distinct; each = t.each }

    Waits-remove_from_set :
        (set : SwSet ℕ) (v : View)
        → Waits v
        → Waits (remove_from_set heap name_of time_of_string set v)
    unfolding remove_from_set remove_items
    Waits-remove_from_set set v h = record { named = h.named; distinct = h.distinct; each = h.each }

    Waits-update_existing :
        (set : SwSet ℕ) (v : View)
        → Waits v
        → Waits (update_existing heap name_of time_of_string set v)
    unfolding update_existing
    Waits-update_existing set v h =
        let changed : View = record v {
          current_items_set =
              (replace_stale heap (set_as_list set) v.current_items_set v.uid_to_items).0;
          uid_to_items =
              (replace_stale heap (set_as_list set) v.current_items_set v.uid_to_items).1;
        } in
        Waits-Keeps changed _ (Keeps-update_items _ changed)
          (record { named = h.named; distinct = h.distinct; each = h.each })

    if_either : (b : Bool) (v w : View) → Waits v → Waits w → Waits (if b then v else w)
    if_either true v w h k = h
    if_either false v w h k = k

    pub Waits-set_from_set :
        (set : SwSet ℕ) (v : View)
        → Waits v
        → Waits (set_from_set heap name_of time_of_string set v)
    unfolding set_from_set
    Waits-set_from_set set v h =
        let removed = set_difference same_ref (ref_equal heap) v.current_items_set set in
        let added = set_difference same_ref (ref_equal heap) set v.current_items_set in
        let w =
          if not (set_is_empty removed)
          then remove_from_set heap name_of time_of_string removed v
          else v in
        let u = update_existing heap name_of time_of_string set w in
        let hw : Waits w =
          if_either (not (set_is_empty removed)) _ v (Waits-remove_from_set removed v h) h in
        let hu : Waits u = Waits-update_existing set w hw in
        if_either (set_is_empty v.current_items_set) _ _ (Waits-add_from_set set v h)
          (if_either (not (set_is_empty added)) _ u (Waits-add_from_set added u hu) hu)
