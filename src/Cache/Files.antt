-- ===== src/Cache/Files.antt =====
-- The files of the cache: the names that libsocialweb/sw-cache.c gives them, with `sw_hash_string_dict`
-- of libsocialweb/sw-utils.c, and their removal. The files of the cache's directory are a table by
-- their names; MD5 is an argument, and `strcmp` is the order of texts by their bytes.
pub mod Dropped
pub mod Shared
mod Examples
use libsocialweb_flickr_oaut.Item.{Item}
use libsocialweb_flickr_oaut.Set.{SwSet}
use libsocialweb_flickr_oaut.Cache.{cache_save, KeyFile}
use libsocialweb_flickr_oaut.Dict.{insert, lookup, remove, keys, Dict}
use libsocialweb_flickr_oaut.Prelude.{
  none, Bool, some, if◌then◌else◌, ◌∷◌, [], Option, ◌∷◌, List, String,
}
use Prim.Native.Nat.{Ordering}
use Prim.Native.String.{◌++◌ as str_append, compare as compare_text}
use text.Mathlib.Text.{starts_with, is_lt}

-- `g_list_sort` with `strcmp`
unfoldable pub insert_key : String → List String → List String
insert_key key [] = key ∷ []
insert_key key (k ∷ keys) =
    let rest = insert_key key keys in
    if is_lt (compare_text k key) then k ∷ rest else key ∷ k ∷ keys

unfoldable pub sort_keys : List String → List String
unfolding insert_key
sort_keys [] = []
sort_keys (key ∷ keys) = insert_key key (sort_keys keys)

-- What the loop of `sw_hash_string_dict` gives the checksum
unfoldable pub update_each : Dict String → List String → String
update_each hash [] = ""
update_each hash (key ∷ keys) =
    str_append key (
      str_append (elim (lookup key hash) [ none ↦ "" | some value ↦ value ])
        (update_each hash keys))

module _ (md5 : String → String) where
  -- `sw_hash_string_dict`
  unfoldable pub hash_string_dict : Dict String → String
  unfolding sort_keys update_each
  hash_string_dict hash = md5 (update_each hash (sort_keys (keys hash)))

  -- `get_cache_filename` for the name of a service, without the directory; "feed" is the query of NULL.
  unfoldable pub get_cache_filename : String → Option String → Dict String → String
  unfolding hash_string_dict
  get_cache_filename service query params = str_append service (
      str_append "-" (
        str_append (elim query [ none ↦ "feed" | some q ↦ q ])
          (str_append "-" (hash_string_dict params))))

module _ {ℓ} {File : Type ℓ} where
  -- `sw_cache_drop`, on the name of the file
  unfoldable pub cache_drop : String → Dict File → Dict File
  cache_drop filename files = remove filename files

  -- The loop of `sw_cache_drop_all`
  unfoldable pub drop_each : String → Dict File → Dict File
  drop_each prefix [] = []
  drop_each prefix ((name, file) ∷ files) =
      let rest = drop_each prefix files in
      if starts_with name prefix then rest else (name, file) ∷ rest

  -- `sw_cache_drop_all`, for the name of a service
  unfoldable pub cache_drop_all : String → Dict File → Dict File
  unfolding drop_each
  cache_drop_all service files = drop_each (str_append service "-") files

  -- A file that is written, or removed
  unfoldable pub set_file : String → Option File → Dict File → Dict File
  set_file name none files = remove name files
  set_file name (some file) files = insert name file files

  -- `sw_cache_save` on the directory: the file of that name is what `cache_save` leaves of it.
  unfoldable pub save_file :
      (String → String)
      → (KeyFile → File)
      → Bool
      → String
      → Option (SwSet Item)
      → Dict File
      → Dict File
  unfolding set_file
  save_file basename to_data writable name set files =
      set_file name (cache_save basename to_data writable set (lookup name files)) files
