-- ===== src/Item.antt =====
-- libsocialweb/sw-item.c: an item is a table of texts by key, with the number of image fetches that
-- it still waits for. An operation returns the item and the signals that it emits, in order.
-- Services are pointers, given by numbers; the clock, the date parser of libsoup and the services'
-- virtual `get_name` are arguments.
pub mod Ready
pub mod Equality
pub mod Dates
mod Examples
use libsocialweb_flickr_oaut.Prelude.{
  ℕ, ◌+◌, ◌-◌, ◌^◌, ◌%◌, String, Bool, true, false, ◌&&◌, ◌||◌, not, Option, none, some, List, [],
  ◌∷◌, ◌++◌, ◌==◌, str_eq, if◌then◌else◌, length,
}
use libsocialweb_flickr_oaut.Prelude.Int.{ℤ, pos, ◌-ℤ◌, is_zero_ℤ, to_int32}
use libsocialweb_flickr_oaut.Dict.{Dict, lookup, insert, remove}

pub record Item : Type 0 where
  pub service : Option ℕ
  pub hash : Dict String
  pub cached_date : ℤ
  pub mtime : ℤ
  -- a `gint`, as its 32-bit pattern
  pub remaining_fetches : ℕ

pub data Signal : Type 0 where
  notify_ready changed : Signal

unfoldable pub item_new : Item
item_new = record {
  service = none;
  hash = [];
  cached_date = pos 0;
  mtime = pos 0;
  remaining_fetches = 0;
}

unfoldable pub set_service : ℕ → Item → Item
set_service service item = record item { service = some service }

unfoldable pub get : Item → String → Option String
get item key = lookup key item.hash

-- `now` is what `time (NULL)` returns.
unfoldable pub touch : ℤ → Item → Item × List Signal
touch now item = (record item { mtime = now }, changed ∷ [])

-- A NULL value takes the key away.
unfoldable pub store : String → Option String → Item → Item
store key none item = record item { hash = remove key item.hash }
store key (some value) item = record item { hash = insert key value item.hash }

-- `sw_item_put` and `sw_item_take`, which differ only in who frees the text
unfoldable pub put : ℤ → String → Option String → Item → Item × List Signal
unfolding store touch
put now key value item = touch now (store key value item)

unfoldable pub get_ready : Item → Bool
get_ready item = item.remaining_fetches == 0

unfoldable pub push_pending : Item → Item
push_pending item = record item { remaining_fetches = (item.remaining_fetches + 1) % 2 ^ 32 }

-- `g_atomic_int_dec_and_test` is true when the count falls to 0.
unfoldable pub pop_pending : ℤ → Item → Item × List Signal
unfolding touch get_ready
pop_pending now item =
    let down : Item = record item {
      remaining_fetches = (item.remaining_fetches + (2 ^ 32 - 1)) % 2 ^ 32;
    } in
    let (touched, emitted) = touch now down in
    (touched, (if get_ready down then notify_ready ∷ [] else []) ++ emitted)

-- What `sw_item_request_image_fetch` passes along with the download.
pub record Fetch : Type 0 where
  pub key : String
  pub delays_ready : Bool

-- `_image_download_cb`: the file is NULL where the download failed.
unfoldable pub image_downloaded : ℤ → Fetch → Option String → Item → Item × List Signal
unfolding put pop_pending
image_downloaded now fetch file item =
    let (stored, first) = put now fetch.key file item in
    if fetch.delays_ready
    then (let (popped, second) = pop_pending now stored in (popped, first ++ second))
    else (stored, first)

-- `sw_item_request_image_fetch` with `sw_web_download_image_async` of libsocialweb/sw-web.c: an image
-- that is already in the cache, at `cached`, is delivered at once; else the download is queued, which
-- the returned fetch records.
unfoldable pub request_image_fetch :
    ℤ → Option String → Fetch → Item → Item × List Signal × Option Fetch
unfolding push_pending image_downloaded
request_image_fetch now cached fetch item =
    let waiting : Item = if fetch.delays_ready then push_pending item else item in
    elim cached [
      | none ↦ (waiting, [], some fetch)
      | some file ↦
          let (done, emitted) = image_downloaded now fetch (some file) waiting in
          (done, emitted, none)
    ]

-- `item_equal`, the equality of item sets. Where an id is missing the code passes NULL to
-- `g_str_equal`; the model says false there.
unfoldable pub item_id_equal : Item → Item → Bool
unfolding get
item_id_equal a b = elim (get a "id") [
  | none ↦ false
  | some i ↦ elim (get b "id") [ none ↦ false | some j ↦ str_eq i j ]
]

-- Equality of two service pointers.
abbrev pub same_pointer : Option ℕ → Option ℕ → Bool
same_pointer none none = true
same_pointer none (some b) = false
same_pointer (some a) none = false
same_pointer (some a) (some b) = a == b

-- `value_b` is found, and is the same text.
unfoldable pub same_value : String → Option String → Bool
same_value value none = false
same_value value (some w) = str_eq value w

-- The loop of `sw_item_equal` over the first table, whose `g_str_equal` compares the key as a text.
unfoldable pub each_in : Dict String → Dict String → Bool
each_in [] b = true
each_in ((key, value) ∷ rest) b =
    each_in rest b && (str_eq key "cached" || same_value value (lookup key b))

-- The two lookups of the literal "cached" give NULL, whatever the tables hold: the keys are compared as
-- pointers, to texts that `g_intern_string` has copied. So the sizes are those of the whole tables.
unfoldable pub item_equal : Item → Item → Bool
unfolding each_in
item_equal a b =
    if not (same_pointer a.service b.service)
    then false
    else (if not (a.remaining_fetches == b.remaining_fetches)
        then false
        else (if not (length a.hash == length b.hash) then false else each_in a.hash b.hash))

module _ (time_of_string : String → ℤ) where
  -- `sw_time_t_from_string` of libsocialweb/sw-utils.c: NULL is answered by 0, anything else by
  -- libsoup's parser.
  unfoldable pub time_from_string : Option String → ℤ
  time_from_string none = pos 0
  time_from_string (some s) = time_of_string s

  -- `cache_date`: the date is parsed once, and a zero means that it is not parsed yet.
  unfoldable pub cache_date : Item → Item
  unfolding time_from_string
  cache_date item =
      if is_zero_ℤ item.cached_date
      then (elim (lookup "date" item.hash) [
        | none ↦ item
        | some s ↦ record item { cached_date = time_from_string (some s) }
      ])
      else item

  -- `sw_item_compare_date_older` and `_newer`: the difference of two `time_t`, returned as an `int`.
  unfoldable pub compare_date_older : Item → Item → ℤ
  unfolding cache_date ◌-ℤ◌ to_int32
  compare_date_older a b = to_int32 ((cache_date a).cached_date -ℤ (cache_date b).cached_date)

  unfoldable pub compare_date_newer : Item → Item → ℤ
  unfolding cache_date ◌-ℤ◌ to_int32
  compare_date_newer a b = to_int32 ((cache_date b).cached_date -ℤ (cache_date a).cached_date)

-- What goes over the bus for one item: the service's name, the id, the date and the whole table.
pub record ValueArray : Type 0 where
  pub service : Option String
  pub id : Option String
  pub time : ℤ
  pub hash : Dict String

module _ (name_of : ℕ → String) where
  -- the name of an item's service
  unfoldable pub service_name : Item → Option String
  service_name item = elim item.service [ none ↦ none | some s ↦ some (name_of s) ]

  -- `_sw_item_to_value_array`
  unfoldable pub to_value_array : (String → ℤ) → Item → ValueArray
  unfolding service_name get time_from_string
  to_value_array time_of_string item = record {
    service = service_name item;
    id = get item "id";
    time = time_from_string time_of_string (get item "date");
    hash = item.hash;
  }
