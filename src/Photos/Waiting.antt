-- ===== src/Photos/Waiting.antt =====
-- Whether the item of a photo becomes ready (services/flickr/flickr-item-view.c).
use mathlib.Core.Path.{subst}
use mathlib.Core.Option.{some-injective}
use libsocialweb_flickr_oaut.Prelude.Int.{ℤ}
use libsocialweb_flickr_oaut.Prelude.{
  map, Bool, false, ◌∙◌, ◌≤◌, true, refl, none, inr, inl, Option-cases, some, ◌^◌, ◌<◌, ℕ, arith,
  Option, ◌+◌, String, ◌≡◌, [], ◌∷◌, ◌++◌, List,
}
use libsocialweb_flickr_oaut.Photos.{
  authoricon, photo_item, thumbnail, construct_buddy_icon_url, dated_item, photo_fields, Node,
  extract_location, request,
}
use libsocialweb_flickr_oaut.Item.Ready.{complete_lem, complete, delayed}
use libsocialweb_flickr_oaut.Item.{
  get_ready, item_new, set_service, store, touch, pop_pending, image_downloaded, Item, put, Fetch,
  push_pending, request_image_fetch,
}

delayed-append :
    (fs : List Fetch) (f : Fetch) → delayed (fs ++ f ∷ []) ≡ delayed fs + delayed (f ∷ [])
unfolding delayed
delayed-append [] f = omega arith
delayed-append (g ∷ fs) f = omega (arith, delayed-append fs f)

-- A request of an address adds as much to the count as to the queue.
request-some :
    (now : ℤ) (cached : String → Option String) (f : Fetch) (url : String) (item : Item)
    (queued : List Fetch) (d : ℕ)
    → item.remaining_fetches ≡ delayed queued + d
    → item.remaining_fetches + 1 < 2 ^ 32
    → (request now cached f (some url) (item, queued)).0.remaining_fetches
      ≡ delayed (request now cached f (some url) (item, queued)).1 + d
unfolding request request_image_fetch image_downloaded pop_pending push_pending put touch delayed
request-some now cached f url item queued d e b = elim (Option-cases (cached url)) [
  | inl missing ↦ ground (arith, missing, delayed-append queued f)
  | inr (file, found) ↦ ground (arith, found)
]

put-remaining :
    (now : ℤ) (key : String) (value : Option String) (item : Item)
    → (put now key value item).0.remaining_fetches ≡ item.remaining_fetches
unfolding put store
put-remaining now key none item = refl
put-remaining now key (some v) item = refl

-- A request that holds nothing back leaves the count.
request-free :
    (now : ℤ) (cached : String → Option String) (f : Fetch) (url : String) (item : Item)
    (queued : List Fetch)
    → f.delays_ready ≡ false
    → (request now cached f (some url) (item, queued)).0.remaining_fetches ≡ item.remaining_fetches
unfolding request request_image_fetch image_downloaded put touch
request-free now cached f url item queued h = elim (Option-cases (cached url)) [
  | inl missing ↦ ground (arith, missing, h)
  | inr (file, found) ↦ ground (arith, found, h, put-remaining now f.key (some file) item)
]

extract_location-remaining :
    (atoi : String → ℤ) (now : ℤ) (node : Node) (item : Item)
    → (extract_location atoi now node item).remaining_fetches ≡ item.remaining_fetches
unfolding extract_location
extract_location-remaining atoi now node item = ground (
  arith,
  put-remaining now "longitude" (node "longitude") (put now "latitude" (node "latitude") item).0,
  put-remaining now "latitude" (node "latitude") item,
)

-- One where the address of the thumbnail is missing
abbrev stuck : Option String → ℕ
stuck none = 1
stuck (some url) = 0

request-stuck :
    (now : ℤ) (cached : String → Option String) (f : Fetch) (url : Option String) (item : Item)
    → f.delays_ready ≡ true
    → item.remaining_fetches ≡ 0
    → ((request now cached f url (item, [])).0.remaining_fetches
        ≡ delayed (request now cached f url (item, [])).1 + stuck url)
      × ((request now cached f url (item, [])).0.remaining_fetches ≤ 1)
unfolding request request_image_fetch image_downloaded pop_pending push_pending put touch delayed
request-stuck now cached f none item h e = ground arith
request-stuck now cached f (some url) item h e = elim (Option-cases (cached url)) [
  | inl missing ↦ ground (arith, missing)
  | inr (file, found) ↦ ground (arith, found)
]

-- Whether an address is there.
abbrev pub has_address : Option String → Bool
has_address none = false
has_address (some url) = true

ready_of_stuck :
    (o : Option String) (item : Item)
    → item.remaining_fetches ≡ stuck o
    → get_ready item ≡ has_address o
unfolding get_ready
ready_of_stuck none item e = ground arith
ready_of_stuck (some url) item e = ground arith

module _ (atoi : String → ℤ) (time_t_to_string : ℤ → String) (cached : String → Option String)
    (service : ℕ) (now : ℤ) where
  fields-remaining :
      (node : Node) (date : String)
      → (photo_fields atoi time_t_to_string cached service now node date).remaining_fetches ≡ 0
  unfolding photo_fields set_service item_new
  fields-remaining node date =
      put-remaining now "date" _ _
      ∙ put-remaining now "x-flickr-photo-url" _ _
      ∙ put-remaining now "url" _ _
      ∙ put-remaining now "author" _ _
      ∙ put-remaining now "authorid" _ _
      ∙ put-remaining now "title" _ _
      ∙ put-remaining now "id" _ _

  -- What the count of a new photo's item is: the downloads that hold it back, and one more where there
  -- is no address for the thumbnail.
  dated_count :
      (node : Node) (date : String)
      → ((dated_item atoi time_t_to_string cached service now node date).0.remaining_fetches
          ≡ delayed (dated_item atoi time_t_to_string cached service now node date).1
            + stuck (node "url_m"))
        × ((dated_item atoi time_t_to_string cached service now node date).0.remaining_fetches ≤ 1)
  unfolding dated_item
  dated_count node date =
      let fields = photo_fields atoi time_t_to_string cached service now node date in
      let first =
        request-stuck now cached thumbnail (node "url_m") fields refl
          (fields-remaining node date) in
      let asked = request now cached thumbnail (node "url_m") (fields, []) in
      let address = construct_buddy_icon_url atoi node in
      let kept = extract_location-remaining atoi now node _ in
      (
        kept
            ∙ request-some now cached authoricon address asked.0 asked.1 (stuck (node "url_m"))
                first.0 (omega (arith, first.1)),
        omega
            (arith, kept, request-free now cached authoricon address asked.0 asked.1 refl, first.1),
      )

  -- When as many of the downloads that hold the item of a photo back have ended as were queued for it,
  -- in whatever order and with whatever result, the item is ready exactly where the node has the
  -- address of its thumbnail, the attribute "url_m".
  pub photo_ready_lem :
      (node : Node) (item : Item) (queued : List Fetch) (later : ℤ)
      (l : List (Fetch × Option String))
      → photo_item atoi time_t_to_string cached service now node ≡ some (item, queued)
      → delayed (map (λ e. e.0) l) ≡ delayed queued
      → get_ready (complete later l item).0 ≡ has_address (node "url_m")
  unfolding photo_item get_ready
  photo_ready_lem node item queued later l e d = elim (Option-cases (node "dateupload")) [
    | inl missing ↦ ground (arith, missing, e)
    | inr (date, found) ↦
        let made : dated_item atoi time_t_to_string cached service now node date ≡ (item, queued) =
          some-injective _ _ (ground (arith, e, found)) in
        let counted = dated_count node date in
        let count : item.remaining_fetches ≡ delayed queued + stuck (node "url_m") =
          subst (λ p. p.0.remaining_fetches ≡ delayed p.1 + stuck (node "url_m")) made counted.0 in
        let bound : item.remaining_fetches ≤ 1 =
          subst (λ p. p.0.remaining_fetches ≤ 1) made counted.1 in
        let left : (complete later l item).0.remaining_fetches ≡ stuck (node "url_m") =
          omega (
            arith,
            (complete_lem later l item (omega (arith, d, count)) (omega (arith, bound))).0,
          ) in
        ready_of_stuck (node "url_m") (complete later l item).0 left
  ]
