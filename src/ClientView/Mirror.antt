-- ===== src/ClientView/Mirror.antt =====
-- The daemon's view and the client's copy of it (libsocialweb/sw-item-view.c,
-- libsocialweb-client/sw-client-item-view.c).
use libsocialweb_flickr_oaut.ClientView.Signals.{
  find-is_equal, find-keep_distinct, held-expected, same, held-added, added_to,
}
use libsocialweb_flickr_oaut.ItemView.Difference.{no_keys}
use mathlib.Core.List.{append_cancel_left}
use libsocialweb_flickr_oaut.ItemView.Merge.{set_from_set_lem, merged}
use libsocialweb_flickr_oaut.ItemView.Emitted.{bus-set_from_set, stale_items, only_in, expected}
use libsocialweb_flickr_oaut.ClientView.Table.{changed_to, shown, held}
use libsocialweb_flickr_oaut.Set.{set_is_empty, contains, SwSet}
use libsocialweb_flickr_oaut.ItemView.{
  set_from_set, View, is_stale, items_added, BusSignal, ready_arrays, ref_equal,
}
use libsocialweb_flickr_oaut.Prelude.Int.{ℤ}
use libsocialweb_flickr_oaut.Set.Find.{find-keep, find-Respects, contains-find, find}
use libsocialweb_flickr_oaut.Set.Laws.{contains-Respects, IsDistinct}
use libsocialweb_flickr_oaut.ItemView.Index.{Coherent, HasIds}
use libsocialweb_flickr_oaut.Prelude.{
  Option-cases, not, ◌++◌, true, Bool-cases, All, Bool, ℕ, String, none, List, [], ◌∷◌, ◌≡◌, refl,
  sym, ap, ◌∙◌, arith, if◌then◌else◌, inl, inr,
}
use libsocialweb_flickr_oaut.ClientView.{receive_all, ClientView}
use libsocialweb_flickr_oaut.Item.{get_ready, Item}

module _ {heap : ℕ → Item} (ids : HasIds heap) (name_of : ℕ → String)
    (time_of_string : String → ℤ) where
  -- The client has, for each id, the array of the item that the view has.
  abbrev pub Mirrors : SwSet ℕ → ClientView → Type 0
  Mirrors current c =
      (z : ℕ)
      → held ids name_of time_of_string c z
        ≡ shown ids name_of time_of_string (find (ref_equal heap) current.keys z)

  -- What the steps of the copy come to is what the view holds.
  merged_by_signals :
      (set current : SwSet ℕ) (z : ℕ)
      → IsDistinct (ref_equal heap) set.keys
      → IsDistinct (ref_equal heap) current.keys
      → added_to ids name_of time_of_string
          (changed_to ids name_of time_of_string
            (if contains (ref_equal heap) (only_in heap current set) z
              then none
              else shown ids name_of time_of_string (find (ref_equal heap) current.keys z))
            (find (ref_equal heap) (stale_items heap set current) z))
          (find (ref_equal heap) (only_in heap set current) z)
        ≡ shown ids name_of time_of_string
            (merged heap (find (ref_equal heap) set.keys z) (find (ref_equal heap) current.keys z))
  unfolding is_stale
  merged_by_signals set current z d c =
      let stale : ℕ → Bool = λ r. is_stale heap r (find (ref_equal heap) current.keys r) in
      let new : ℕ → Bool = λ r. not (contains (ref_equal heap) current.keys r) in
      let gone : ℕ → Bool = λ r. not (contains (ref_equal heap) set.keys r) in
      let left =
        find-keep (same ids) gone current.keys z
          (λ x y h. ap not (contains-Respects (same ids) set.keys x y h)) in
      let come =
        find-keep (same ids) new set.keys z
          (λ x y h. ap not (contains-Respects (same ids) current.keys x y h)) in
      let sent = find-keep_distinct ids stale set.keys z d in
      elim (Option-cases (find (ref_equal heap) set.keys z)) [
        | inl none_set ↦ ground (
          arith,
          none_set,
          left,
          come,
          sent,
          contains-find (ref_equal heap) (only_in heap current set) z,
          contains-find (ref_equal heap) set.keys z,
        )
        | inr (n, in_set) ↦
            let as_new =
              find-Respects (same ids) current.keys n z (find-is_equal ids set.keys z n in_set) in
            ground (
              arith,
              in_set,
              left,
              come,
              sent,
              as_new,
              contains-find (ref_equal heap) (only_in heap current set) z,
              contains-find (ref_equal heap) set.keys z,
              contains-find (ref_equal heap) current.keys z,
            )
      ]

  -- From any view whose set and index agree, with a set of ready items of which no two have one id,
  -- and a client's copy that mirrors the view: when the client has received what
  -- `sw_item_view_set_from_set` has sent, the copy mirrors the view again.
  pub receive_all-set_from_set :
      (set : SwSet ℕ) (v : View) (c : ClientView) (signals : List BusSignal)
      → Coherent heap v.current_items_set v.uid_to_items
      → IsDistinct (ref_equal heap) set.keys
      → All (λ r. get_ready (heap r) ≡ true) set.keys
      → Mirrors v.current_items_set c
      → (set_from_set heap name_of time_of_string set v).bus ≡ v.bus ++ signals
      → Mirrors
          (set_from_set heap name_of time_of_string set v).current_items_set
          (receive_all signals c)
  unfolding set_is_empty receive_all
  receive_all-set_from_set set v c signals k d a m b z =
      let current = v.current_items_set in
      let sent = bus-set_from_set ids name_of time_of_string set v k d in
      let content = set_from_set_lem ids name_of time_of_string set v k d in
      elim (Bool-cases (set_is_empty current)) [
        | inl empty ↦
            let same_signals : signals
                ≡ items_added (ready_arrays heap name_of time_of_string set.keys) ∷ [] =
              append_cancel_left v.bus signals _ (sym b ∙ sent ∙ rw empty refl) in
            ap (λ l. held ids name_of time_of_string (receive_all l c) z) same_signals
            ∙ held-added ids name_of time_of_string set.keys c z d a
            ∙ ground (
              arith,
              m z,
              content.held z,
              ap (λ (l : List ℕ). find (ref_equal heap) l z) (no_keys current.keys empty),
            )
        | inr some_keys ↦
            let same_signals : signals ≡ expected heap name_of time_of_string set current =
              append_cancel_left v.bus signals _ (sym b ∙ sent ∙ rw some_keys refl) in
            ap (λ l. held ids name_of time_of_string (receive_all l c) z) same_signals
            ∙ held-expected ids name_of time_of_string set current c z d a
            ∙ ap
                (λ o.
                  added_to ids name_of time_of_string
                    (changed_to ids name_of time_of_string
                      (if contains (ref_equal heap) (only_in heap current set) z then none else o)
                      (find (ref_equal heap) (stale_items heap set current) z))
                    (find (ref_equal heap) (only_in heap set current) z))
                (m z)
            ∙ merged_by_signals set current z d k.distinct
            ∙ ap (shown ids name_of time_of_string) (sym (content.held z))
      ]
