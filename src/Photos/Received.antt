-- ===== src/Photos/Received.antt =====
-- The set of items that a response of Flickr becomes (services/flickr/flickr-item-view.c).
use libsocialweb_flickr_oaut.Photos.Ids.{
  complete_node, incomplete_page, id-dated_item, incomplete_date, unmade, all_complete, made,
}
use mathlib.Core.Path.{subst}
use libsocialweb_flickr_oaut.Photos.{
  photos_received, add_photos, dated_item, construct_photo_page_url, photo_item, Node,
}
use libsocialweb_flickr_oaut.Service.{is_uid_banned, Service, Bytes}
use libsocialweb_flickr_oaut.Prelude.Int.{ℤ}
use libsocialweb_flickr_oaut.Set.{set_new, set_add, SwSet, replace}
use libsocialweb_flickr_oaut.Prelude.{
  sym, Bool-cases, ap, false, refl, ◌∙◌, eq_iff, not, inr, ◌&&◌, inl, Option-cases, arith, [],
  str_eq, if◌then◌else◌, ℕ, some, ◌∷◌, ◌≡◌, Option, none, List, String,
}
use libsocialweb_flickr_oaut.Item.{Item, get, item_id_equal}

-- The first item of a list that has the id.
unfoldable pub with_id : String → List Item → Option Item
with_id id [] = none
with_id id (i ∷ items) = elim (get i "id") [
  | none ↦ with_id id items
  | some j ↦ if str_eq j id then some i else with_id id items
]

with_id-replace :
    (id j : String) (items : List Item) (x : Item)
    → get x "id" ≡ some j
    → with_id id (replace item_id_equal items x)
      ≡ (if str_eq j id then some x else with_id id items)
unfolding with_id replace item_id_equal
with_id-replace id j [] x e = ground (arith, e)
with_id-replace id j (y ∷ ys) x e = elim (Option-cases (get y "id")) [
  | inl missing ↦ ground (arith, missing, e, with_id-replace id j ys x e)
  | inr (k, found) ↦
      ground (arith, found, e, eq_iff k j, eq_iff k id, eq_iff j id, with_id-replace id j ys x e)
]

abbrev held : String → Option (SwSet Item) → Option (Option Item)
held page none = none
held page (some set) = some (with_id page set.keys)

abbrev or_held : Option Item → Option Item → Option Item
or_held none other = other
or_held (some item) other = some item

or_held_assoc : (a b c : Option Item) → or_held a (or_held b c) ≡ or_held (or_held a b) c
or_held_assoc none b c = refl
or_held_assoc (some item) b c = refl

or_held-none : (a : Option Item) → or_held a none ≡ a
or_held-none none = refl
or_held-none (some item) = refl

-- What the set that is handed on has for a page; `none` is a crash.
abbrev pub shown : String → Option (Option (SwSet Item)) → Option (Option Item)
shown page none = none
shown page (some none) = some none
shown page (some (some set)) = some (with_id page set.keys)

shown-held :
    (page : String) (o : Option (SwSet Item))
    → shown page (elim o [ none ↦ none | some set ↦ some (some set) ]) ≡ held page o
shown-held page none = refl
shown-held page (some set) = refl

module _ (atoi : String → ℤ) (time_t_to_string : ℤ → String) (cached : String → Option String)
    (service : ℕ) (now : ℤ) (bytes : String → Bytes) (banned : Service) where
  -- The item of a node, where it has the date.
  abbrev pub item_of : Node → Option Item
  item_of node = elim (photo_item atoi time_t_to_string cached service now node) [
    | none ↦ none
    | some (item, queued) ↦ some item
  ]

  -- The last photo of the response with the page, unless its address is banned.
  unfoldable pub last_photo : String → List Node → Option Item
  last_photo page [] = none
  last_photo page (node ∷ nodes) = elim (last_photo page nodes) [
    | some item ↦ some item
    | none ↦ elim (construct_photo_page_url node) [
      | none ↦ none
      | some url ↦
          if str_eq url page && not (is_uid_banned banned (bytes page)) then item_of node else none
    ]
  ]

  abbrev made_for : String → String → Item → Option Item
  made_for page url item =
      if str_eq url page && not (is_uid_banned banned (bytes page)) then some item else none

  last_photo-node :
      (node : Node) (nodes : List Node) (page url date : String)
      → construct_photo_page_url node ≡ some url
      → node "dateupload" ≡ some date
      → last_photo page (node ∷ nodes)
        ≡ or_held
            (last_photo page nodes)
            (made_for page url (dated_item atoi time_t_to_string cached service now node date).0)
  unfolding last_photo
  last_photo-node node nodes page url date u d = elim (Option-cases (last_photo page nodes)) [
    | inl missing ↦
        rw (missing, u)
          (ap
            (λ o.
              if str_eq url page && not (is_uid_banned banned (bytes page))
              then (elim o [ none ↦ none | some (item, queued) ↦ some item ])
              else none)
            (made atoi time_t_to_string cached service now node date d))
    | inr (item, found) ↦ rw (found) refl
  ]

  with_id-add :
      (set : SwSet Item) (item : Item) (page url : String)
      → get item "id" ≡ some url
      → with_id page
          (if not (is_uid_banned banned (bytes url))
            then set_add item_id_equal set item
            else set).keys
        ≡ or_held (made_for page url item) (with_id page set.keys)
  unfolding set_add
  with_id-add set item page url e = elim (Bool-cases (str_eq url page)) [
    | inl here ↦
        subst
          (λ u.
            with_id page
              (if not (is_uid_banned banned (bytes url))
                then set_add item_id_equal set item
                else set).keys
            ≡ or_held
                (if str_eq url page && not (is_uid_banned banned (bytes u))
                  then some item
                  else none)
                (with_id page set.keys))
          ((eq_iff url page).0 here)
          (ground (arith, here, with_id-replace page url set.keys item e))
    | inr other ↦ ground (arith, other, with_id-replace page url set.keys item e)
  ]

  add_photos_lem :
      (nodes : List Node) (set : SwSet Item) (page : String)
      → held page (add_photos atoi time_t_to_string cached service now bytes banned nodes set) ≡ (
          if all_complete nodes
          then some (or_held (last_photo page nodes) (with_id page set.keys))
          else none)
  unfolding add_photos all_complete last_photo
  add_photos_lem [] set page = refl
  add_photos_lem (node ∷ nodes) set page = elim (Option-cases (node "dateupload")) [
    | inl missing ↦
        rw
          (
            unmade atoi time_t_to_string cached service now node missing,
            incomplete_date atoi time_t_to_string cached service now node missing,
            add_photos,
          )
          refl
    | inr (date, d) ↦ elim (Option-cases (construct_photo_page_url node)) [
      | inl nowhere ↦
          let id = id-dated_item atoi time_t_to_string cached service now node date ∙ nowhere in
          rw
            (
              made atoi time_t_to_string cached service now node date d,
              id,
              incomplete_page atoi time_t_to_string cached service now node nowhere,
              add_photos,
            )
            refl
      | inr (url, u) ↦
          let id = id-dated_item atoi time_t_to_string cached service now node date ∙ u in
          rw
            (
              made atoi time_t_to_string cached service now node date d,
              id,
              complete_node atoi time_t_to_string cached service now node url date u d,
              add_photos,
            )
            (add_photos_lem nodes _ page
              ∙ ap (λ o. if all_complete nodes then some o else none)
                  (ap (or_held (last_photo page nodes)) (with_id-add set _ page url id)
                    ∙ or_held_assoc (last_photo page nodes) _ _
                    ∙ ap (λ o. or_held o (with_id page set.keys))
                        (sym (last_photo-node node nodes page url date u d))))
    ]
  ]

  -- Where every node of a response has an owner, an id and a date, the callback does not crash, and the
  -- set that it makes has for each page the item of the last photo with that page, or none if there is
  -- no such photo or the page is banned. Where a node lacks one of these attributes it crashes.
  pub photos_received_lem :
      (nodes : List Node) (page : String)
      → shown page
          (photos_received atoi time_t_to_string cached service now bytes banned false nodes)
        ≡ (if all_complete nodes then some (last_photo page nodes) else none)
  unfolding photos_received set_new with_id
  photos_received_lem nodes page =
      shown-held page
        (add_photos atoi time_t_to_string cached service now bytes banned nodes set_new)
      ∙ add_photos_lem nodes set_new page
      ∙ ap (λ o. if all_complete nodes then some o else none) (or_held-none (last_photo page nodes))
