-- ===== src/ClientView/Table.antt =====
-- The client's table after the arrays and pairs of a signal
-- (libsocialweb-client/sw-client-item-view.c).
use libsocialweb_flickr_oaut.Set.{contains}
use libsocialweb_flickr_oaut.Set.Find.{find-Respects, contains-find, find}
use libsocialweb_flickr_oaut.Set.Laws.{IsDistinct}
use libsocialweb_flickr_oaut.ItemView.{removed_pairs, uid, ref_equal}
use libsocialweb_flickr_oaut.Dict.{lookup-remove, lookup-insert, Dict, lookup}
use libsocialweb_flickr_oaut.Prelude.Int.{ℤ}
use libsocialweb_flickr_oaut.ItemView.Index.{ref_equal-IsEquivalence, ref_equal-uid, HasIds}
use libsocialweb_flickr_oaut.Prelude.{
  inr, ◌∙◌, eq_iff, inl, sym, Option-cases, ap, true, suc, ℕ, String, Option, none, some, List, [],
  ◌∷◌, map, ◌≡◌, refl, arith, if◌then◌else◌,
}
use libsocialweb_flickr_oaut.ClientView.{
  remove_each_uid, remove_uid, change_each, lookup_uid, item_from, add_each, insert_uid, ClientView,
  ClientItem,
}
use libsocialweb_flickr_oaut.Item.{to_value_array, Item, ValueArray}

abbrev pub value_of : Option ClientItem → Option ValueArray
value_of none = none
value_of (some i) = some i.value

module _ {heap : ℕ → Item} (ids : HasIds heap) (name_of : ℕ → String)
    (time_of_string : String → ℤ) where
  abbrev pub array : ℕ → ValueArray
  array r = to_value_array name_of time_of_string (heap r)

  abbrev pub shown : Option ℕ → Option ValueArray
  shown none = none
  shown (some r) = some (array r)

  array-id : (r : ℕ) → (array r).id ≡ some (ids.name r)
  unfolding to_value_array
  array-id r = ids.named r

  -- What the client has for the id of an item.
  abbrev pub held : ClientView → ℕ → Option ValueArray
  held v z = value_of (lookup (ids.name z) v.uuid_to_items)

  held-insert :
      (x z : ℕ) (i : ClientItem) (d : Dict ClientItem)
      → value_of (lookup (ids.name z) (insert_uid (array x).id i d))
        ≡ (if ref_equal heap x z then some i.value else value_of (lookup (ids.name z) d))
  unfolding insert_uid
  held-insert x z i d =
      rw (array-id x, ref_equal-uid ids x z)
        (ground (arith, lookup-insert (ids.name x) (ids.name z) i d))

  pub held-add_each :
      (rs : List ℕ) (v : ClientView) (z : ℕ)
      → IsDistinct (ref_equal heap) rs
      → held (add_each (map array rs) v).0 z
        ≡ (elim (find (ref_equal heap) rs z) [ none ↦ held v z | some r ↦ some (array r) ])
  unfolding add_each item_from
  held-add_each [] v z d = refl
  held-add_each (x ∷ rs) v z d =
      let i = item_from v.created (array x) in
      let next : ClientView = record v {
        uuid_to_items = insert_uid (array x).id i v.uuid_to_items;
        created = suc v.created;
      } in
      ground (
        arith,
        held-add_each rs next z d.1,
        held-insert x z i v.uuid_to_items,
        contains-find (ref_equal heap) rs x,
        find-Respects (ref_equal-IsEquivalence ids) rs x z,
      )

  abbrev pub changed_to : Option ValueArray → Option ℕ → Option ValueArray
  changed_to none new = none
  changed_to (some old) none = some old
  changed_to (some old) (some r) = some (array r)

  lookup-array : (x : ℕ) (d : Dict ClientItem) → lookup_uid (array x).id d ≡ lookup (ids.name x) d
  unfolding lookup_uid
  lookup-array x d = rw (array-id x) refl

  held-same : (x z : ℕ) (v : ClientView) → ref_equal heap x z ≡ true → held v z ≡ held v x
  held-same x z v h =
      ap (λ k. value_of (lookup k v.uuid_to_items))
        (sym ((eq_iff (ids.name x) (ids.name z)).0 (sym (ref_equal-uid ids x z) ∙ h)))

  pub held-change_each :
      (rs : List ℕ) (v : ClientView) (z : ℕ)
      → IsDistinct (ref_equal heap) rs
      → held (change_each (map array rs) v).0 z ≡ changed_to (held v z) (find (ref_equal heap) rs z)
  unfolding change_each
  held-change_each [] v z d = ground arith
  held-change_each (x ∷ rs) v z d = elim (Option-cases (lookup (ids.name x) v.uuid_to_items)) [
    | inl missing ↦
        rw (lookup-array x v.uuid_to_items ∙ missing, change_each)
          (ground (
            arith,
            missing,
            held-change_each rs v z d.1,
            held-same x z v,
            contains-find (ref_equal heap) rs x,
            find-Respects (ref_equal-IsEquivalence ids) rs x z,
          ))
    | inr (old, there) ↦
        let i : ClientItem = record old { value = array x } in
        let next : ClientView = record v {
          uuid_to_items = insert_uid (array x).id i v.uuid_to_items;
        } in
        rw (lookup-array x v.uuid_to_items ∙ there, change_each)
          (ground (
            arith,
            there,
            held-change_each rs next z d.1,
            held-insert x z i v.uuid_to_items,
            held-same x z v,
            contains-find (ref_equal heap) rs x,
            find-Respects (ref_equal-IsEquivalence ids) rs x z,
          ))
  ]

  named_lookup : (x : ℕ) (d : Dict ClientItem) → lookup_uid (uid heap x) d ≡ lookup (ids.name x) d
  unfolding lookup_uid
  named_lookup x d = rw (ids.named x) refl

  held-removed :
      (x z : ℕ) (d : Dict ClientItem)
      → value_of (lookup (ids.name z) (remove_uid (uid heap x) d))
        ≡ (if ref_equal heap x z then none else value_of (lookup (ids.name z) d))
  unfolding remove_uid
  held-removed x z d =
      rw (ids.named x, ref_equal-uid ids x z)
        (ground (arith, lookup-remove (ids.name x) (ids.name z) d))

  pub held-remove_each_uid :
      (rs : List ℕ) (v : ClientView) (z : ℕ)
      → held (remove_each_uid (removed_pairs heap name_of time_of_string rs) v).0 z
        ≡ (if contains (ref_equal heap) rs z then none else held v z)
  unfolding remove_each_uid removed_pairs contains
  held-remove_each_uid [] v z = refl
  held-remove_each_uid (x ∷ rs) v z = elim (Option-cases (lookup (ids.name x) v.uuid_to_items)) [
    | inl missing ↦
        rw (named_lookup x v.uuid_to_items ∙ missing, remove_each_uid)
          (ground (arith, missing, held-remove_each_uid rs v z, held-same x z v))
    | inr (old, there) ↦
        let next : ClientView = record v {
          uuid_to_items = remove_uid (uid heap x) v.uuid_to_items;
        } in
        rw (named_lookup x v.uuid_to_items ∙ there, remove_each_uid)
          (ground (arith, held-remove_each_uid rs next z, held-removed x z v.uuid_to_items))
  ]
