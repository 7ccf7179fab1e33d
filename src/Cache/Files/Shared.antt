-- ===== src/Cache/Files/Shared.antt =====
-- Two tables of parameters with one file (libsocialweb/sw-utils.c, libsocialweb/sw-cache.c).
use libsocialweb_flickr_oaut.Item.{Item}
use libsocialweb_flickr_oaut.Set.{SwSet}
use libsocialweb_flickr_oaut.Dict.{lookup-insert, lookup-remove, lookup, Dict}
use libsocialweb_flickr_oaut.Cache.{cache_save, KeyFile}
use libsocialweb_flickr_oaut.Cache.Files.{
  insert_key, sort_keys, get_cache_filename, update_each, save_file, set_file, hash_string_dict,
}
use libsocialweb_flickr_oaut.Prelude.{
  sym, ap, eq_refl, eq_iff, arith, ◌∙◌, [], ◌≡◌, ◌∷◌, Bool, Option, String, none, some, refl,
}
use Prim.Native.String.{◌++◌ as str_append}
use text.Mathlib.TextLemmas.{append_assoc as text_append_assoc}

update_each_one :
    (key value : String)
    → update_each ((key, value) ∷ []) (key ∷ []) ≡ str_append key (str_append value "")
unfolding update_each lookup
update_each_one key value = rw (eq_refl key) refl

-- The checksum sees keys and values with nothing between them.
hash_string_dict_split :
    (md5 : String → String) (x y z : String)
    → hash_string_dict md5 ((str_append x y, z) ∷ [])
      ≡ hash_string_dict md5 ((x, str_append y z) ∷ [])
unfolding hash_string_dict sort_keys insert_key
hash_string_dict_split md5 x y z = ap md5 (
    update_each_one (str_append x y) z
    ∙ text_append_assoc x y (str_append z "")
    ∙ ap (str_append x) (sym (text_append_assoc y z ""))
    ∙ sym (update_each_one x (str_append y z)))

module _ {ℓ} {File : Type ℓ} where
  lookup-set_file :
      (name : String) (file : Option File) (files : Dict File)
      → lookup name (set_file name file files) ≡ file
  unfolding set_file
  lookup-set_file name none files = lookup-remove name name files ∙ ground (arith, eq_iff name name)
  lookup-set_file name (some file) files =
      lookup-insert name name file files ∙ ground (arith, eq_iff name name)

  -- Where the key and the value of one parameter join to the same text as those of another: what is
  -- saved for the one is the file that is loaded for the other.
  pub one_file_for_two :
      (md5 : String → String) (basename : String → String) (to_data : KeyFile → File)
      (writable : Bool) (service : String) (query : Option String) (x y z : String)
      (set : Option (SwSet Item)) (files : Dict File)
      → let saved = get_cache_filename md5 service query ((str_append x y, z) ∷ []) in
        lookup
          (get_cache_filename md5 service query ((x, str_append y z) ∷ []))
          (save_file basename to_data writable saved set files)
        ≡ cache_save basename to_data writable set (lookup saved files)
  unfolding save_file get_cache_filename
  one_file_for_two md5 basename to_data writable service query x y z set files =
      let saved = get_cache_filename md5 service query ((str_append x y, z) ∷ []) in
      ap
        (λ h.
          lookup
            (str_append service (
              str_append "-"
                (str_append (elim query [ none ↦ "feed" | some q ↦ q ]) (str_append "-" h))))
            (save_file basename to_data writable saved set files))
        (sym (hash_string_dict_split md5 x y z))
      ∙ lookup-set_file saved (cache_save basename to_data writable set (lookup saved files)) files
