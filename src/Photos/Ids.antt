-- ===== src/Photos/Ids.antt =====
-- The id of a photo's item, and the nodes that have one (services/flickr/flickr-item-view.c).
use libsocialweb_flickr_oaut.Dict.{lookup-insert, lookup-remove}
use libsocialweb_flickr_oaut.Prelude.Int.{ℤ}
use libsocialweb_flickr_oaut.Prelude.{
  inr, ◌∙◌, inl, refl, Option-cases, ◌&&◌, [], none, some, false, ◌∷◌, ℕ, arith, str_eq, true, ◌≡◌,
  Option, Bool, String, List,
}
use libsocialweb_flickr_oaut.Photos.{
  construct_buddy_icon_url, authoricon, thumbnail, photo_item, construct_photo_page_url, dated_item,
  photo_fields, check_attrs, extract_location, request, Node,
}
use libsocialweb_flickr_oaut.Item.{
  Item, get, put, store, push_pending, request_image_fetch, image_downloaded, pop_pending, touch,
  Fetch,
}

-- The node has the attributes that its page is made of, and the date.
unfoldable pub is_complete : Node → Bool
is_complete node = check_attrs node ("owner" ∷ "id" ∷ "dateupload" ∷ [])

unfoldable pub all_complete : List Node → Bool
all_complete [] = true
all_complete (node ∷ nodes) = is_complete node && all_complete nodes

-- A change of another key leaves the id.
id-put :
    (now : ℤ) (key : String) (value : Option String) (item : Item)
    → str_eq key "id" ≡ false
    → get (put now key value item).0 "id" ≡ get item "id"
unfolding get put store
id-put now key none item n = ground (arith, n, lookup-remove key "id" item.hash)
id-put now key (some v) item n = ground (arith, n, lookup-insert key "id" v item.hash)

id-put_id :
    (now : ℤ) (value : Option String) (item : Item) → get (put now "id" value item).0 "id" ≡ value
unfolding get put store
id-put_id now none item = lookup-remove "id" "id" item.hash
id-put_id now (some v) item = lookup-insert "id" "id" v item.hash

id-request :
    (now : ℤ) (cached : String → Option String) (f : Fetch) (url : Option String) (item : Item)
    (queued : List Fetch)
    → str_eq f.key "id" ≡ false
    → get (request now cached f url (item, queued)).0 "id" ≡ get item "id"
unfolding request request_image_fetch image_downloaded pop_pending push_pending touch get
id-request now cached f none item queued n = ground arith
id-request now cached f (some url) item queued n = elim (Option-cases (cached url)) [
  | inl missing ↦ ground (arith, missing)
  | inr (file, found) ↦ ground (
    arith,
    found,
    id-put now f.key (some file) item n,
    id-put now f.key (some file) (push_pending item) n,
  )
]

id-extract_location :
    (atoi : String → ℤ) (now : ℤ) (node : Node) (item : Item)
    → get (extract_location atoi now node item) "id" ≡ get item "id"
unfolding extract_location
id-extract_location atoi now node item = ground (
  arith,
  id-put now "longitude" (node "longitude") (put now "latitude" (node "latitude") item).0 refl,
  id-put now "latitude" (node "latitude") item refl,
)

module _ (atoi : String → ℤ) (time_t_to_string : ℤ → String) (cached : String → Option String)
    (service : ℕ) (now : ℤ) where
  id-photo_fields :
      (node : Node) (date : String)
      → get (photo_fields atoi time_t_to_string cached service now node date) "id"
        ≡ construct_photo_page_url node
  unfolding photo_fields
  id-photo_fields node date =
      id-put now "date" _ _ refl
      ∙ id-put now "x-flickr-photo-url" _ _ refl
      ∙ id-put now "url" _ _ refl
      ∙ id-put now "author" _ _ refl
      ∙ id-put now "authorid" _ _ refl
      ∙ id-put now "title" _ _ refl
      ∙ id-put_id now _ _

  pub id-dated_item :
      (node : Node) (date : String)
      → get (dated_item atoi time_t_to_string cached service now node date).0 "id"
        ≡ construct_photo_page_url node
  unfolding dated_item
  id-dated_item node date =
      let fields = photo_fields atoi time_t_to_string cached service now node date in
      let asked = request now cached thumbnail (node "url_m") (fields, []) in
      id-extract_location atoi now node _
      ∙ id-request now cached authoricon (some (construct_buddy_icon_url atoi node)) asked.0 asked.1
          refl
      ∙ id-request now cached thumbnail (node "url_m") fields [] refl
      ∙ id-photo_fields node date

  -- The two ways in which a node makes the callback crash, and the one in which it does not
  pub incomplete_date : (node : Node) → node "dateupload" ≡ none → is_complete node ≡ false
  unfolding is_complete check_attrs
  incomplete_date node e = ground (arith, e)

  pub incomplete_page :
      (node : Node) → construct_photo_page_url node ≡ none → is_complete node ≡ false
  unfolding is_complete check_attrs construct_photo_page_url
  incomplete_page node e = ground (arith, e)

  pub complete_node :
      (node : Node) (url date : String)
      → construct_photo_page_url node ≡ some url
      → node "dateupload" ≡ some date
      → is_complete node ≡ true
  unfolding is_complete check_attrs construct_photo_page_url
  complete_node node url date e d = ground (arith, e, d)

  pub made :
      (node : Node) (date : String)
      → node "dateupload" ≡ some date
      → photo_item atoi time_t_to_string cached service now node
        ≡ some (dated_item atoi time_t_to_string cached service now node date)
  unfolding photo_item
  made node date d = rw (d, photo_item) refl

  pub unmade :
      (node : Node)
      → node "dateupload" ≡ none
      → photo_item atoi time_t_to_string cached service now node ≡ none
  unfolding photo_item
  unmade node d = rw (d, photo_item) refl
