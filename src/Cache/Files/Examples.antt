-- ===== src/Cache/Files/Examples.antt =====
-- Files of the cache, as instances of the theorems on libsocialweb/sw-cache.c.
use libsocialweb_flickr_oaut.Set.{set_new, SwSet}
use libsocialweb_flickr_oaut.Item.{Item}
use libsocialweb_flickr_oaut.Prelude.Int.{pos}
use libsocialweb_flickr_oaut.Cache.Files.Shared.{one_file_for_two}
use libsocialweb_flickr_oaut.Cache.Files.Dropped.{cache_dropped}
use libsocialweb_flickr_oaut.Cache.Files.{save_file, cache_drop_all, get_cache_filename}
use libsocialweb_flickr_oaut.Dict.{lookup, Dict}
use libsocialweb_flickr_oaut.Cache.{cache_save, KeyFile}
use libsocialweb_flickr_oaut.Prelude.{some, ◌≡◌, ◌∷◌, [], String, none, true, refl}

-- A checksum that is the text itself
abbrev plain : String → String
plain text = text

abbrev whole : String → String
whole path = path

abbrev groups : KeyFile → KeyFile
groups file = file

abbrev two_files : Dict KeyFile
two_files = ("flickr-feed-", []) ∷ ("twitter-own-", []) ∷ []

abbrev photo : Item
photo = record {
  service = some 1;
  hash = ("id", "1") ∷ [];
  cached_date = pos 0;
  mtime = pos 0;
  remaining_fetches = 0;
}

abbrev photos : SwSet Item
photos = record set_new { keys = photo ∷ [] }

cache_dropped_example :
    (lookup (get_cache_filename plain "flickr" none []) (cache_drop_all "flickr" two_files) ≡ none)
    × (lookup "twitter-own-" (cache_drop_all "flickr" two_files) ≡ lookup "twitter-own-" two_files)
cache_dropped_example = cache_dropped plain "flickr" "twitter-own-" none [] two_files refl

one_file_for_two_example :
    lookup (get_cache_filename plain "flickr" none (("user", "id7") ∷ [])) (
      save_file whole groups true
        (get_cache_filename plain "flickr" none (("userid", "7") ∷ []))
        (some photos)
        two_files)
    ≡ cache_save whole groups true
        (some photos)
        (lookup (get_cache_filename plain "flickr" none (("userid", "7") ∷ [])) two_files)
one_file_for_two_example =
    one_file_for_two plain whole groups true "flickr" none "user" "id" "7" (some photos) two_files
