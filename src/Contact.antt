-- ===== src/Contact.antt =====
-- libsocialweb/sw-contact.c: a contact is a table of lists of texts by key, with the number of image
-- fetches that it still waits for. An operation returns the contact and the signals that it emits, in
-- order. Services are pointers, given by numbers; the clock, the date parser of libsoup and the
-- services' virtual `get_name` are arguments. A `GStrv` is the list of the texts before its NULL.
pub mod Values
use libsocialweb_flickr_oaut.Item.{same_pointer, time_from_string}
use libsocialweb_flickr_oaut.Dict.{insert, lookup, Dict}
use libsocialweb_flickr_oaut.Prelude.Int.{pos, ℤ}
use libsocialweb_flickr_oaut.Prelude.{
  ◌||◌, not, ◌&&◌, str_eq, ◌-◌, ◌++◌, length, true, false, if◌then◌else◌, ◌^◌, ◌%◌, ◌==◌, ◌∷◌, some,
  [], ◌+◌, Bool, String, List, ℕ, none, Option,
}
pub mod Equality
pub mod Asymmetry
mod Examples

pub record Contact : Type 0 where
  pub service : Option ℕ
  pub hash : Dict (List String)
  pub mtime : ℤ
  -- a `gint`, as its 32-bit pattern
  pub remaining_fetches : ℕ

pub data Signal : Type 0 where
  notify_ready changed : Signal

unfoldable pub contact_new : Contact
contact_new = record { service = none; hash = []; mtime = pos 0; remaining_fetches = 0 }

unfoldable pub set_service : ℕ → Contact → Contact
set_service service contact = record contact { service = some service }

-- The first text of an array, NULL where it has none.
unfoldable pub first : List String → Option String
first [] = none
first (value ∷ values) = some value

unfoldable pub get : Contact → String → Option String
get contact key = elim (lookup key contact.hash) [ none ↦ none | some values ↦ first values ]

unfoldable pub get_all : Contact → String → Option (List String)
get_all contact key = lookup key contact.hash

-- `now` is what `time (NULL)` returns.
unfoldable pub touch : ℤ → Contact → Contact × List Signal
touch now contact = (record contact { mtime = now }, changed ∷ [])

-- The new array: the old texts, then the value. A NULL value ends the array where it stands.
unfoldable pub append_value : Option (List String) → Option String → List String
append_value none none = []
append_value none (some value) = value ∷ []
append_value (some old) none = old
append_value (some old) (some value) = old ++ value ∷ []

-- `sw_contact_put` and `sw_contact_take`, which differ only in who frees the text
unfoldable pub put : ℤ → String → Option String → Contact → Contact × List Signal
unfolding append_value touch
put now key value contact = touch now (record contact {
  hash = insert key (append_value (lookup key contact.hash) value) contact.hash;
})

unfoldable pub get_ready : Contact → Bool
get_ready contact = contact.remaining_fetches == 0

unfoldable pub push_pending : Contact → Contact
push_pending contact = record contact {
  remaining_fetches = (contact.remaining_fetches + 1) % 2 ^ 32;
}

-- `g_atomic_int_dec_and_test` is true when the count falls to 0.
unfoldable pub pop_pending : ℤ → Contact → Contact × List Signal
unfolding touch get_ready
pop_pending now contact =
    let down : Contact = record contact {
      remaining_fetches = (contact.remaining_fetches + (2 ^ 32 - 1)) % 2 ^ 32;
    } in
    let (touched, emitted) = touch now down in
    (touched, (if get_ready down then notify_ready ∷ [] else []) ++ emitted)

-- `RequestImageFetchClosure`
pub record Fetch : Type 0 where
  pub key : String
  pub delays_ready : Bool

-- `_image_download_cb`: the file is NULL where the download failed.
unfoldable pub image_downloaded : ℤ → Fetch → Option String → Contact → Contact × List Signal
unfolding put pop_pending
image_downloaded now fetch file contact =
    let (stored, emitted) = put now fetch.key file contact in
    if fetch.delays_ready
    then (let (popped, more) = pop_pending now stored in (popped, emitted ++ more))
    else (stored, emitted)

-- `sw_contact_request_image_fetch` with `sw_web_download_image_async` of libsocialweb/sw-web.c: an
-- image that is already in the cache, at `cached`, is delivered at once; else the download is queued,
-- which the returned fetch records.
unfoldable pub request_image_fetch :
    ℤ → Option String → Fetch → Contact → Contact × List Signal × Option Fetch
unfolding push_pending image_downloaded
request_image_fetch now cached fetch contact =
    let waiting : Contact = if fetch.delays_ready then push_pending contact else contact in
    elim cached [
      | none ↦ (waiting, [], some fetch)
      | some file ↦
          let (done, emitted) = image_downloaded now fetch (some file) waiting in
          (done, emitted, none)
    ]

-- `contact_equal`, the equality of contact sets. Where an id is missing the code passes NULL to
-- `g_str_equal`; the model says false there.
unfoldable pub contact_id_equal : Contact → Contact → Bool
unfolding get
contact_id_equal a b = elim (get a "id") [
  | none ↦ false
  | some i ↦ elim (get b "id") [ none ↦ false | some j ↦ str_eq i j ]
]

-- `g_strv_length`, which answers 0 for NULL
unfoldable pub strv_length : Option (List String) → ℕ
strv_length none = 0
strv_length (some values) = length values

-- The loop over the texts of two arrays of one length.
unfoldable pub same_texts : List String → List String → Bool
same_texts [] ws = true
same_texts (v ∷ vs) [] = false
same_texts (v ∷ vs) (w ∷ ws) = let rest = same_texts vs ws in if str_eq v w then rest else false

-- One round of the loop over the first table: the other table's array, NULL where it has none, has
-- the same length and the same texts.
unfoldable pub same_values : List String → Option (List String) → Bool
unfolding strv_length same_texts
same_values values other =
    if length values == strv_length other
    then same_texts values (elim other [ none ↦ [] | some ws ↦ ws ])
    else false

-- The loop of `sw_contact_equal` over the first table.
unfoldable pub each_in : Dict (List String) → Dict (List String) → Bool
each_in [] b = true
each_in ((key, values) ∷ rest) b =
    each_in rest b && (str_eq key "cached" || same_values values (lookup key b))

-- The size of a contact's table, less one where "cached" has a text.
unfoldable pub size_but_cached : Contact → ℕ
unfolding get
size_but_cached contact = elim (get contact "cached") [
  | none ↦ length contact.hash
  | some _ ↦ length contact.hash - 1
]

-- `sw_contact_equal`
unfoldable pub contact_equal : Contact → Contact → Bool
unfolding size_but_cached each_in
contact_equal a b =
    if not (same_pointer a.service b.service)
    then false
    else (if not (a.remaining_fetches == b.remaining_fetches)
        then false
        else (if not (size_but_cached a == size_but_cached b)
            then false
            else each_in a.hash b.hash))

-- What goes over the bus for one contact: the service's name, the id, the date and the whole table.
pub record ValueArray : Type 0 where
  pub service : Option String
  pub id : Option String
  pub time : ℤ
  pub hash : Dict (List String)

-- `_sw_contact_to_value_array`
unfoldable pub to_value_array : (ℕ → String) → (String → ℤ) → Contact → ValueArray
unfolding get time_from_string
to_value_array name_of time_of_string contact = record {
  service = elim contact.service [ none ↦ none | some s ↦ some (name_of s) ];
  id = get contact "id";
  time = time_from_string time_of_string (get contact "date");
  hash = contact.hash;
}
