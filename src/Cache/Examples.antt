-- ===== src/Cache/Examples.antt =====
-- Two items in the cache, as an instance of the theorems on libsocialweb/sw-cache.c.
use mathlib.Core.Option.{some-injective}
use libsocialweb_flickr_oaut.Cache.RoundTrip.{
  AllRestored, cache_load-cache_save, IsCached, same_name,
}
use libsocialweb_flickr_oaut.Set.Laws.{IsDistinct}
use libsocialweb_flickr_oaut.Cache.Reload.{IsPortable, reloaded_differs, reloaded}
use libsocialweb_flickr_oaut.Prelude.Int.{pos}
use libsocialweb_flickr_oaut.Cache.{
  item, is_path_key, cache_save, relative, cache_load, absolute, Cacheable, KeyFile,
}
use libsocialweb_flickr_oaut.Set.{set_new, add_each, set_has, set_is_empty, contains, SwSet}
use libsocialweb_flickr_oaut.Service.{is_uid_banned, Bytes, Service}
use libsocialweb_flickr_oaut.Dict.{IsTable, lookup}
use libsocialweb_flickr_oaut.Item.{item_id_equal, get_ready, item_equal, get, Item}
use libsocialweb_flickr_oaut.Prelude.{
  map, inr, sym, inl, Bool-cases, true, false, Bool, List, String, ◌≡◌, refl, none, some, [], ◌∷◌,
  arith, eq_iff, str_eq, if◌then◌else◌,
}
use mathlib.Core.Path.{subst}

-- One thumbnail, and where the cache keeps it.
abbrev basename : String → String
basename path = if str_eq path "/cache/1234" then "1234" else path

abbrev thumbnail_path : String → String
thumbnail_path file = if str_eq file "1234" then "/cache/1234" else file

abbrev photo : String → Item
photo id = record {
  service = some 1;
  hash = ("id", id) ∷ ("thumbnail", "/cache/1234") ∷ [];
  cached_date = pos 0;
  mtime = pos 0;
  remaining_fetches = 0;
}

photo-IsPortable : (id : String) → IsPortable basename thumbnail_path (photo id).hash
unfolding lookup absolute relative is_path_key
photo-IsPortable id k v h = elim (Bool-cases (str_eq k "thumbnail")) [
  | inl is_thumbnail ↦
      let e = (eq_iff k "thumbnail").0 is_thumbnail in
      let at : some "/cache/1234" ≡ some v = subst (λ j. lookup j (photo id).hash ≡ some v) e h in
      subst (λ w. absolute thumbnail_path k (relative basename k w) ≡ w)
        (some-injective "/cache/1234" v at)
        (subst (λ j. absolute thumbnail_path j (relative basename j "/cache/1234") ≡ "/cache/1234")
          (sym e) refl)
  | inr other ↦ elim (Bool-cases (str_eq k "authoricon")) [
    | inl is_icon ↦
        let none_there : none ≡ some v =
          subst (λ j. lookup j (photo id).hash ≡ some v) ((eq_iff k "authoricon").0 is_icon) h in
        cc
    | inr neither ↦ ground arith
  ]
]

photo-IsTable : (id : String) → IsTable (photo id).hash
unfolding lookup
photo-IsTable id = (refl, (refl, tt))

photo_id : (id : String) → get (photo id) "id" ≡ some id
unfolding get lookup
photo_id id = refl

photo_untyped : (id : String) → lookup "type" (photo id).hash ≡ none
unfolding lookup
photo_untyped id = refl

reloaded_differs_example :
    (item_equal (reloaded basename thumbnail_path (pos 5) 1 (photo "a")) (photo "a") ≡ false)
    × (item_equal (photo "a") (reloaded basename thumbnail_path (pos 5) 1 (photo "a")) ≡ false)
reloaded_differs_example =
    reloaded_differs basename thumbnail_path (pos 5) 1 (photo "a") (photo-IsTable "a")
      (photo-IsPortable "a") (photo_untyped "a")

abbrev nothing_banned : Service
nothing_banned = record {
  banned_uids = record { ref_count = 1; keys = [] };
  file = none;
  hidden = [];
}

abbrev one_value : String → List String
one_value s = s ∷ []

abbrev code : String → Bytes
code s = if str_eq s "a" then 97 ∷ [] else 98 ∷ []

abbrev id_of : Item → String
id_of i = elim (get i "id") [ none ↦ "" | some id ↦ id ]

photo-IsCached :
    (id : String)
    → IsCached basename thumbnail_path one_value code nothing_banned 1 (pos 5) id_of (photo id)
unfolding get lookup get_ready is_uid_banned contains set_has
photo-IsCached id = record {
  ready = refl;
  named = refl;
  untyped = refl;
  table = photo-IsTable id;
  portable = photo-IsPortable id;
  allowed = refl;
}

abbrev photos : SwSet Item
photos = record { ref_count = 1; keys = photo "a" ∷ photo "b" ∷ [] }

abbrev to_data : KeyFile → KeyFile
to_data groups = groups

abbrev same_cacheable : Cacheable → Cacheable → Bool
same_cacheable (item a) (item b) = item_id_equal a b
same_cacheable c d = false

photos-IsDistinct :
    IsDistinct
      (same_name basename thumbnail_path one_value code nothing_banned 1 (pos 5) id_of)
      photos.keys
unfolding contains get lookup
photos-IsDistinct = (refl, (refl, tt))

cache_load-cache_save_example :
    (back : List Item) × (cache_load thumbnail_path one_value code nothing_banned 1
        (pos 5)
        some
        same_cacheable
        (cache_save basename to_data true (some photos) none)
      ≡ some (add_each same_cacheable set_new (map item back)))
    × AllRestored basename thumbnail_path one_value code nothing_banned 1
        (pos 5)
        id_of
        photos.keys
        back
unfolding set_is_empty
cache_load-cache_save_example =
    cache_load-cache_save basename thumbnail_path one_value code nothing_banned 1 (pos 5) id_of
      to_data some same_cacheable photos none (photo-IsCached "a", (photo-IsCached "b", tt))
      photos-IsDistinct refl refl
