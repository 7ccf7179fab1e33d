-- ===== src/Cache/Reload.antt =====
-- An item that is saved and loaded again (libsocialweb/sw-cache.c, libsocialweb/sw-item.c).
use libsocialweb_flickr_oaut.Dict.Agree.{lookup_of_Includes}
use mathlib.Core.Path.{subst}
use libsocialweb_flickr_oaut.Item.Equality.{equal_lengths, item_equal-Carries}
use libsocialweb_flickr_oaut.Cache.Fields.{
  load_fields-IsTable, lookup-save_fields, lookup-load_fields, over, save_fields-IsTable,
}
use libsocialweb_flickr_oaut.Prelude.{
  inr, inl, false, Option-cases, Bool-cases, ℕ, String, ◌≡◌, refl, none, some, [], arith, eq_iff,
  str_eq, if◌then◌else◌, Option, ◌∙◌, ap,
}
use libsocialweb_flickr_oaut.Prelude.Int.{ℤ}
use libsocialweb_flickr_oaut.Dict.{Dict, IsTable, lookup, insert, lookup-insert, insert-IsTable}
use libsocialweb_flickr_oaut.Item.{get, Item, item_equal, set_service, item_new}
use libsocialweb_flickr_oaut.Cache.{save_item, load_fields, relative, absolute, is_path_key}

module _ (basename thumbnail_path : String → String) where
  -- Every path in the table is the one that its last component is put back to.
  abbrev pub IsPortable : Dict String → Type 0
  IsPortable hash =
      (k v : String)
      → lookup k hash ≡ some v
      → absolute thumbnail_path k (relative basename k v) ≡ v

  -- The item that is loaded from what one item alone has saved.
  unfoldable pub reloaded : ℤ → ℕ → Item → Item
  reloaded now service i =
      load_fields thumbnail_path now (save_item basename i []) (set_service service item_new)

  -- What saving adds to a table.
  unfoldable pub mark : String → Option String
  mark j = if str_eq "type" j then some "item" else if str_eq "cached" j then some "1" else none

  abbrev pub or_mark : Option String → Option String → Option String
  or_mark none other = other
  or_mark (some v) other = some v

  pub save_item-IsTable : (i : Item) → IsTable (save_item basename i [])
  unfolding save_item
  save_item-IsTable i =
      save_fields-IsTable basename i.hash _
        (insert-IsTable "type" "item" _ (insert-IsTable "cached" "1" [] tt))

  reloaded-IsTable : (now : ℤ) (service : ℕ) (i : Item) → IsTable (reloaded now service i).hash
  unfolding reloaded set_service item_new
  reloaded-IsTable now service i =
      load_fields-IsTable thumbnail_path now (save_item basename i [])
        (set_service service item_new) tt

  -- The group that saving starts from.
  abbrev marked : Dict String
  marked = insert "type" "item" (insert "cached" "1" [])

  marks : (j : String) → lookup j marked ≡ mark j
  unfolding lookup mark
  marks j =
      lookup-insert {V = String} "type" j "item" (insert "cached" "1" [])
      ∙ ap (λ o. if str_eq "type" j then some "item" else o)
          (lookup-insert {V = String} "cached" j "1" [])

  mark-absolute : (j : String) → over (absolute thumbnail_path j) (mark j) none ≡ mark j
  unfolding mark absolute is_path_key
  mark-absolute j = elim (Bool-cases (str_eq "type" j)) [
    | inl is_type ↦
        subst (λ k. over (absolute thumbnail_path k) (mark k) none ≡ mark k)
          ((eq_iff "type" j).0 is_type) refl
    | inr other ↦ elim (Bool-cases (str_eq "cached" j)) [
      | inl is_cached ↦
          subst (λ k. over (absolute thumbnail_path k) (mark k) none ≡ mark k)
            ((eq_iff "cached" j).0 is_cached) refl
      | inr neither ↦ ground arith
    ]
  ]

  -- A table comes back as it was, with the two marks that saving adds where it had no such keys.
  pub lookup-reloaded :
      (now : ℤ) (service : ℕ) (i : Item) (j : String)
      → IsTable i.hash
      → IsPortable i.hash
      → lookup j (reloaded now service i).hash ≡ or_mark (lookup j i.hash) (mark j)
  unfolding reloaded save_item set_service item_new lookup
  lookup-reloaded now service i j t p =
      let loaded =
        lookup-load_fields thumbnail_path now (save_item basename i [])
          (set_service service item_new) j (save_item-IsTable i) in
      let saved = lookup-save_fields basename i.hash marked j t in
      elim (Option-cases (lookup j i.hash)) [
        | inl missing ↦ ground (arith, loaded, saved, marks j, mark-absolute j)
        | inr (v, found) ↦ ground (arith, loaded, saved, p j v found)
      ]

  pub saved_type :
      (i : Item)
      → IsTable i.hash
      → lookup "type" i.hash ≡ none
      → lookup "type" (save_item basename i []) ≡ some "item"
  unfolding save_item mark
  saved_type i t h =
      lookup-save_fields basename i.hash marked "type" t ∙ ground (arith, h, marks "type")

  pub reloaded_id :
      (now : ℤ) (service : ℕ) (i : Item) {id : String}
      → IsTable i.hash
      → IsPortable i.hash
      → get i "id" ≡ some id
      → lookup "id" (reloaded now service i).hash ≡ some id
  unfolding get
  reloaded_id now service i t p h =
      lookup-reloaded now service i "id" t p ∙ ap (λ o. or_mark o (mark "id")) h

  -- Whatever an item's service and fetches: if it has no key "type" of its own, its loaded version and
  -- the item are not `sw_item_equal`, in either order. Saving adds "type", which the comparison counts.
  pub reloaded_differs :
      (now : ℤ) (service : ℕ) (i : Item)
      → IsTable i.hash
      → IsPortable i.hash
      → lookup "type" i.hash ≡ none
      → (item_equal (reloaded now service i) i ≡ false)
        × (item_equal i (reloaded now service i) ≡ false)
  unfolding mark
  reloaded_differs now service i t p h =
      let typed : lookup "type" (reloaded now service i).hash ≡ some "item" =
        lookup-reloaded now service i "type" t p ∙ ap (λ o. or_mark o (mark "type")) h in
      (
        elim (Bool-cases (item_equal (reloaded now service i) i)) [
          | inl same ↦ ground (
            arith,
            item_equal-Carries (reloaded now service i) i same "type" "item" typed refl,
            h,
          )
          | inr differs ↦ differs
        ],
        elim (Bool-cases (item_equal i (reloaded now service i))) [
          | inl same ↦
              let all =
                lookup_of_Includes i.hash (reloaded now service i).hash t
                  (reloaded-IsTable now service i) (equal_lengths i (reloaded now service i) same)
                  (λ k v e. lookup-reloaded now service i k t p ∙ ap (λ o. or_mark o (mark k)) e)
                  "type" in
              ground (arith, all, typed, h)
          | inr differs ↦ differs
        ],
      )
