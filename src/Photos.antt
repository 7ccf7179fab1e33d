-- ===== src/Photos.antt =====
-- services/flickr/flickr-item-view.c: the photos of a response of Flickr become items, the set of which
-- goes to the view and to the cache. A node of the XML is the function from the names of its
-- attributes to their values (`rest_xml_node_get_attr`); the parser is an argument in that the nodes
-- are given as a list, as are `atoi`, libsoup's text of a date, and the images in the cache by URL.
-- `none` stands for the crash of a NULL that is passed to `atoi` or to `g_str_hash`.
pub mod Ids
pub mod Received
pub mod Waiting
mod Examples
use libsocialweb_flickr_oaut.Service.{is_uid_banned, Service, Bytes}
use libsocialweb_flickr_oaut.Prelude.Int.{is_zero_ℤ, ℤ}
use libsocialweb_flickr_oaut.Prelude.{
  ◌||◌, str_eq, [], ◌++◌, false, not, ◌∷◌, none, true, ℕ, if◌then◌else◌, some, Bool, Option, List,
  String,
}
use Prim.Native.String.{◌++◌ as str_append}
use libsocialweb_flickr_oaut.Item.{
  Item, get, put, item_new, set_service, Fetch, push_pending, request_image_fetch, item_id_equal,
}
use libsocialweb_flickr_oaut.Set.{set_add, set_new, SwSet}

abbrev pub Node : Type 0
Node = String → Option String

-- `check_attrs`: each attribute of the list is there.
unfoldable pub check_attrs : Node → List String → Bool
check_attrs node [] = true
check_attrs node (name ∷ names) = elim (node name) [
  | none ↦ false
  | some value ↦ check_attrs node names
]

-- The text of an attribute that a check has found
abbrev pub text : Option String → String
text none = ""
text (some value) = value

unfoldable pub construct_photo_page_url : Node → Option String
unfolding check_attrs
construct_photo_page_url node =
    if not (check_attrs node ("owner" ∷ "id" ∷ []))
    then none
    else some (
        str_append "http://www.flickr.com/photos/"
          (str_append (text (node "owner")) (str_append "/" (str_append (text (node "id")) "/"))))

module _ (atoi : String → ℤ) where
  unfoldable pub construct_buddy_icon_url : Node → String
  unfolding check_attrs
  construct_buddy_icon_url node =
      if not (check_attrs node ("iconfarm" ∷ "iconserver" ∷ "owner" ∷ []))
      then "http://www.flickr.com/images/buddyicon.jpg"
      else (if is_zero_ℤ (atoi (text (node "iconserver")))
          then "http://www.flickr.com/images/buddyicon.jpg"
          else str_append "http://farm" (
              str_append (text (node "iconfarm")) (
                str_append ".static.flickr.com/" (
                  str_append (text (node "iconserver"))
                    (str_append "/buddyicons/" (str_append (text (node "owner")) ".jpg"))))))

  -- An accuracy that is there and not zero
  unfoldable pub is_accurate : Option String → Bool
  is_accurate none = false
  is_accurate (some acc) = not (is_zero_ℤ (atoi acc))

  -- A coordinate that is there and not empty
  unfoldable pub is_given : Option String → Bool
  is_given none = false
  is_given (some value) = not (str_eq value "")

  unfoldable pub extract_location : ℤ → Node → Item → Item
  extract_location now node item =
      if not (is_accurate (node "accuracy"))
      then item
      else (if not (is_given (node "latitude")) || not (is_given (node "longitude"))
          then item
          else (put now "longitude" (node "longitude")
              (put now "latitude" (node "latitude") item).0).0)

-- The address of the photo itself: the original, else the large one, else the middle one.
unfoldable pub largest : Node → Option String
largest node = elim (node "url_o") [
  | some url ↦ some url
  | none ↦ elim (node "url_l") [ some url ↦ some url | none ↦ node "url_m" ]
]

-- `sw_item_request_image_fetch` of a URL. For NULL, `sw_web_download_image_async` returns at its check:
-- no download is queued, and the callback is never called. The last part is the downloads queued
-- after those given. No one is connected to the signals of an item that is being made.
unfoldable pub request :
    ℤ → (String → Option String) → Fetch → Option String → Item × List Fetch → Item × List Fetch
request now cached fetch none (item, queued) =
    (if fetch.delays_ready then push_pending item else item, queued)
request now cached fetch (some url) (item, queued) =
    let (asked, emitted, more) = request_image_fetch now (cached url) fetch item in
    (asked, elim more [ none ↦ queued | some f ↦ queued ++ f ∷ [] ])

abbrev pub thumbnail : Fetch
thumbnail = record { key = "thumbnail"; delays_ready = true }

abbrev pub authoricon : Fetch
authoricon = record { key = "authoricon"; delays_ready = false }

module _ (atoi : String → ℤ) (time_t_to_string : ℤ → String) (cached : String → Option String)
    (service : ℕ) (now : ℤ) where
  -- The fields of an item but for its images and its place; `date` is the attribute "dateupload".
  unfoldable pub photo_fields : Node → String → Item
  unfolding construct_photo_page_url largest
  photo_fields node date =
      let url = construct_photo_page_url node in
      let i1 : Item = (put now "id" url (set_service service item_new)).0 in
      let i2 : Item = (put now "title" (node "title") i1).0 in
      let i3 : Item = (put now "authorid" (node "owner") i2).0 in
      let i4 : Item = (put now "author" (node "username") i3).0 in
      let i5 : Item = (put now "url" url i4).0 in
      let i6 : Item = (put now "x-flickr-photo-url" (largest node) i5).0 in
      (put now "date" (some (time_t_to_string (atoi date))) i6).0

  -- The item of a node that has the date, and the downloads that are queued for it
  unfoldable pub dated_item : Node → String → Item × List Fetch
  unfolding photo_fields request extract_location construct_buddy_icon_url
  dated_item node date =
      let (item, queued) =
        request now cached authoricon (some (construct_buddy_icon_url atoi node))
          (request now cached thumbnail (node "url_m") (photo_fields node date, [])) in
      (extract_location atoi now node item, queued)

  -- `_flickr_item_from_from_photo_node`
  unfoldable pub photo_item : Node → Option (Item × List Fetch)
  unfolding dated_item
  photo_item node = elim (node "dateupload") [
    | none ↦ none
    | some date ↦ some (dated_item node date)
  ]

  module _ (bytes : String → Bytes) (banned : Service) where
    -- The loop of `_photos_received_cb` over the nodes.
    unfoldable pub add_photos : List Node → SwSet Item → Option (SwSet Item)
    add_photos [] set = some set
    add_photos (node ∷ nodes) set = elim (photo_item node) [
      | none ↦ none
      | some (item, queued) ↦ elim (get item "id") [
        | none ↦ none
        | some id ↦
            add_photos nodes (
              if not (is_uid_banned banned (bytes id)) then set_add item_id_equal set item else set)
      ]
    ]

    -- `_photos_received_cb`, up to `sw_item_view_set_from_set`: the set that the view and the cache are
    -- given, where a failed call gives them none.
    unfoldable pub photos_received : Bool → List Node → Option (Option (SwSet Item))
    unfolding add_photos
    photos_received error nodes =
        if error
        then some none
        else (elim (add_photos nodes set_new) [ none ↦ none | some set ↦ some (some set) ])
