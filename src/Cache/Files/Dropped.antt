-- ===== src/Cache/Files/Dropped.antt =====
-- What `sw_cache_drop_all` removes (libsocialweb/sw-cache.c).
use libsocialweb_flickr_oaut.Cache.Files.{get_cache_filename, drop_each, cache_drop_all}
use libsocialweb_flickr_oaut.Dict.{Dict, lookup}
use libsocialweb_flickr_oaut.Prelude.{
  eq_iff, ◌∷◌, [], arith, ◌∙◌, if◌then◌else◌, ◌≡◌, Option, String, none, false, refl,
}
use Prim.Native.String.{◌++◌ as str_append}
use text.Mathlib.Text.{starts_with}
use text.Mathlib.TextPositions.{starts_with_of_prefix}
use text.Mathlib.TextLemmas.{append_assoc as text_append_assoc}

module _ {ℓ} {File : Type ℓ} where
  lookup-drop_each :
      (prefix name : String) (files : Dict File)
      → lookup name (drop_each prefix files)
        ≡ (if starts_with name prefix then none else lookup name files)
  unfolding lookup drop_each
  lookup-drop_each prefix name [] = ground arith
  lookup-drop_each prefix name ((n, file) ∷ files) =
      ground (arith, eq_iff n name, lookup-drop_each prefix name files)

  -- When the cache of a service is dropped, the service has no file left, whatever the query and the
  -- parameters, and every file whose name does not begin with the service's and a dash is as before.
  pub cache_dropped :
      (md5 : String → String) (service other : String) (query : Option String)
      (params : Dict String) (files : Dict File)
      → starts_with other (str_append service "-") ≡ false
      → (lookup (get_cache_filename md5 service query params) (cache_drop_all service files) ≡ none)
        × (lookup other (cache_drop_all service files) ≡ lookup other files)
  unfolding cache_drop_all get_cache_filename
  cache_dropped md5 service other query params files apart =
      let name = get_cache_filename md5 service query params in
      let prefix = str_append service "-" in
      (
        lookup-drop_each prefix name files
            ∙ rw (starts_with_of_prefix prefix name (_, text_append_assoc service "-" _)) refl,
        lookup-drop_each prefix other files ∙ rw apart refl,
      )
