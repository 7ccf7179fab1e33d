-- ===== src/Photos/Examples.antt =====
-- Two photos, as instances of the theorems on services/flickr/flickr-item-view.c.
use libsocialweb_flickr_oaut.Photos.Waiting.{photo_ready_lem}
use libsocialweb_flickr_oaut.Item.Ready.{complete, delayed}
use libsocialweb_flickr_oaut.Photos.Ids.{is_complete, all_complete}
use libsocialweb_flickr_oaut.Photos.Received.{photos_received_lem, last_photo, shown}
use libsocialweb_flickr_oaut.Service.{Bytes, Service}
use libsocialweb_flickr_oaut.Prelude.Int.{pos, ℤ}
use libsocialweb_flickr_oaut.Prelude.{
  refl, true, some, ◌∷◌, false, ◌≡◌, none, str_eq, [], Option, if◌then◌else◌, List, String,
}
use libsocialweb_flickr_oaut.Photos.{
  authoricon, request, photos_received, check_attrs, dated_item, photo_item,
  construct_photo_page_url, Node,
}
use libsocialweb_flickr_oaut.Item.{request_image_fetch, Item, get_ready, Fetch}

abbrev photo : Node
photo name =
    if str_eq name "id"
    then some "12"
    else (if str_eq name "owner"
        then some "7@N01"
        else (if str_eq name "dateupload"
            then some "1300000000"
            else (if str_eq name "url_m" then some "http://m/12.jpg" else none)))

-- The same without the address of a thumbnail.
abbrev small : Node
small name = if str_eq name "url_m" then none else photo name

abbrev number : String → ℤ
number s = pos 0

abbrev date_text : ℤ → String
date_text t = "Sun, 13 Mar 2011 07:06:40 GMT"

abbrev not_cached : String → Option String
not_cached url = none

abbrev code : String → Bytes
code s = []

abbrev nothing_banned : Service
nothing_banned = record {
  banned_uids = record { ref_count = 1; keys = [] };
  file = none;
  hidden = [];
}

page_of_photo : construct_photo_page_url photo ≡ some "http://www.flickr.com/photos/7@N01/12/"
unfolding construct_photo_page_url check_attrs
page_of_photo = refl

photos_received_lem_example :
    shown "http://www.flickr.com/photos/7@N01/12/" (
      photos_received number date_text not_cached 1
        (pos 5)
        code
        nothing_banned
        false
        (photo ∷ small ∷ []))
    ≡ (if all_complete (photo ∷ small ∷ [])
        then some (
            last_photo number date_text not_cached 1
              (pos 5)
              code
              nothing_banned
              "http://www.flickr.com/photos/7@N01/12/"
              (photo ∷ small ∷ []))
        else none)
photos_received_lem_example =
    photos_received_lem number date_text not_cached 1 (pos 5) code nothing_banned
      (photo ∷ small ∷ []) "http://www.flickr.com/photos/7@N01/12/"

both_complete : all_complete (photo ∷ small ∷ []) ≡ true
unfolding all_complete is_complete check_attrs
both_complete = refl

abbrev small_item : Item × List Fetch
small_item = dated_item number date_text not_cached 1 (pos 5) small "1300000000"

small_item_made :
    photo_item number date_text not_cached 1 (pos 5) small ≡ some (small_item.0, small_item.1)
unfolding photo_item
small_item_made = refl

photo_ready_lem_example :
    get_ready (complete (pos 9) ((authoricon, none) ∷ []) small_item.0).0 ≡ false
unfolding dated_item delayed request request_image_fetch
photo_ready_lem_example =
    photo_ready_lem number date_text not_cached 1 (pos 5) small small_item.0 small_item.1 (pos 9)
      ((authoricon, none) ∷ []) small_item_made refl
