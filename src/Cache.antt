-- ===== src/Cache.antt =====
-- libsocialweb/sw-cache.c, libsocialweb/sw-cacheable.c and the saving of an item in
-- libsocialweb/sw-item.c: the sets of items that a service keeps on disk. A GKeyFile is the table of
-- its groups; its text, GLib's functions on paths, the list syntax of a value and the encoding of a
-- uid are arguments. The path of a file stands for the file, which is `none` where there is none.
pub mod Fields
pub mod Reload
pub mod RoundTrip
pub mod Contacts
pub mod Files
pub mod Resaved
mod Examples
mod ContactExamples
use libsocialweb_flickr_oaut.Prelude.{
  false, ℕ, String, ◌||◌, ◌∷◌, none, str_eq, if◌then◌else◌, some, Option, ◌++◌, [], Bool, List, not,
}
use libsocialweb_flickr_oaut.Prelude.Int.{ℤ}
use libsocialweb_flickr_oaut.Dict.{Dict, insert, lookup}
use libsocialweb_flickr_oaut.Item.{Item, get, get_ready, put, item_new, set_service}
use libsocialweb_flickr_oaut.Contact.{
  Contact, contact_new, get as contact_get, put as contact_put, set_service as contact_set_service,
}
use libsocialweb_flickr_oaut.Service.{Bytes, Service, is_uid_banned}
use libsocialweb_flickr_oaut.Set.{SwSet, set_is_empty, set_as_list, set_add, set_new}

abbrev pub KeyFile : Type 0
KeyFile = Dict (Dict String)

-- The keys whose values are paths.
unfoldable pub is_path_key : String → Bool
is_path_key key = str_eq key "authoricon" || str_eq key "thumbnail"

-- What is loaded for one group.
pub data Cacheable : Type 0 where
  item : Item → Cacheable
  contact : Contact → Cacheable

-- `sw_cacheable_get_id`
unfoldable pub cacheable_id : Cacheable → Option String
cacheable_id (item i) = get i "id"
cacheable_id (contact c) = contact_get c "id"

module _ (basename : String → String) where
  -- `make_relative_path`, with the value itself where that returns NULL
  unfoldable pub relative : String → String → String
  relative key value = if is_path_key key then basename value else value

  -- The loop of `sw_item_save_into_cache`.
  unfoldable pub save_fields : Dict String → Dict String → Dict String
  save_fields [] group = group
  save_fields ((key, value) ∷ hash) group = save_fields hash (insert key (relative key value) group)

  -- `sw_item_save_into_cache`, on what the group holds already
  unfoldable pub save_item : Item → Dict String → Dict String
  save_item i group = save_fields i.hash (insert "type" "item" (insert "cached" "1" group))

  -- `sw_cacheable_save_into_cache`: an item without an id or that is not ready is left out.
  unfoldable pub save_into_cache : Item → KeyFile → KeyFile
  save_into_cache i keys = elim (get i "id") [
    | none ↦ keys
    | some group ↦
        let old : Dict String = elim (lookup group keys) [ none ↦ [] | some fields ↦ fields ] in
        if not (get_ready i) then keys else insert group (save_item i old) keys
  ]

  -- `sw_set_foreach (set, set_keyfile_from_item, keys)`
  unfoldable pub save_each : List Item → KeyFile → KeyFile
  save_each [] keys = keys
  save_each (i ∷ items) keys = save_each items (save_into_cache i keys)

  -- `sw_cache_save`: the file afterwards, from the file before; an empty set or NULL removes it.
  unfoldable pub cache_save {ℓ} :
      {File : Type ℓ} → (KeyFile → File) → Bool → Option (SwSet Item) → Option File → Option File
  cache_save to_data writable none file = none
  cache_save to_data writable (some set) file =
      if set_is_empty set
      then none
      else (if writable then some (to_data (save_each (set_as_list set) [])) else file)

module _ (thumbnail_path : String → String) where
  -- `make_absolute_path`, with the value itself where that returns NULL
  unfoldable pub absolute : String → String → String
  absolute key value = if is_path_key key then thumbnail_path value else value

  -- The loop over the keys of an item's group, at the time `now`.
  unfoldable pub load_fields : ℤ → Dict String → Item → Item
  load_fields now [] i = i
  load_fields now ((key, value) ∷ fields) i =
      load_fields now fields (put now key (some (absolute key value)) i).0

module _ (string_list : String → List String) where
  -- The loop over the values of one key of a contact's group, at the time `now`.
  unfoldable pub put_each : ℤ → String → List String → Contact → Contact
  put_each now key [] c = c
  put_each now key (value ∷ values) c =
      put_each now key values (contact_put now key (some value) c).0

  -- The loop over the keys of a contact's group.
  unfoldable pub load_contact : ℤ → Dict String → Contact → Contact
  load_contact now [] c = c
  load_contact now ((key, value) ∷ fields) c =
      load_contact now fields (put_each now key (string_list value) c)

module _ (thumbnail_path : String → String) (string_list : String → List String)
    (bytes : String → Bytes) (banned : Service) (service : ℕ) (now : ℤ) where
  -- `load_item_from_keyfile`, before the test of the ban list; `service` points at `banned`.
  unfoldable pub load_group : Dict String → Option Cacheable
  load_group fields =
      let as_item : Cacheable =
        item (load_fields thumbnail_path now fields (set_service service item_new)) in
      elim (lookup "type" fields) [
        | none ↦ some as_item
        | some type ↦
            if str_eq type "item"
            then some as_item
            else (if str_eq type "contact"
                then some (
                    contact (
                      load_contact string_list now fields
                        (contact_set_service service contact_new)))
                else none)
      ]

  -- `sw_service_is_uid_banned` on a loaded id. Where there is none the code looks NULL up; the model
  -- says that it is not banned.
  unfoldable pub is_banned : Option String → Bool
  is_banned none = false
  is_banned (some id) = is_uid_banned banned (bytes id)

  unfoldable pub load_item : Dict String → Option Cacheable
  load_item fields = elim (load_group fields) [
    | none ↦ none
    | some c ↦ if is_banned (cacheable_id c) then none else some c
  ]

  -- The loop of `sw_cache_load`, into a set with the equality `eq` of `set_constr`.
  unfoldable pub load_each :
      (Cacheable → Cacheable → Bool) → KeyFile → SwSet Cacheable → SwSet Cacheable
  load_each eq [] set = set
  load_each eq ((group, fields) ∷ groups) set = elim (load_item fields) [
    | none ↦ load_each eq groups set
    | some c ↦ load_each eq groups (set_add eq set c)
  ]

  -- `sw_cache_load`: no set where there is no file, or it does not parse, or has no group.
  unfoldable pub cache_load {ℓ} :
      {File : Type ℓ}
      → (File → Option KeyFile)
      → (Cacheable → Cacheable → Bool)
      → Option File
      → Option (SwSet Cacheable)
  cache_load parse eq none = none
  cache_load parse eq (some file) = elim (parse file) [
    | none ↦ none
    | some [] ↦ none
    | some (g ∷ groups) ↦ some (load_each eq (g ∷ groups) set_new)
  ]
