-- ===== src/Keystore/Lookup/Examples.antt =====
-- The keys of a service, as an instance of the theorems on libsocialweb-keystore/sw-keystore.c.
use libsocialweb_flickr_oaut.Keystore.Lookup.Answers.{configured_keys}
use libsocialweb_flickr_oaut.Keystore.Lookup.{get_keys, get_key_secret}
use libsocialweb_flickr_oaut.Keystore.{load_keys, stripped, key_data, Entry}
use libsocialweb_flickr_oaut.Prelude.{
  ◌≡◌, [], ◌∷◌, Option, List, String, none, some, true, false, refl,
}
use libsocialweb_flickr_oaut.Service.{Bytes}

abbrev entry : String → String → Entry
entry name key = record {
  name = name;
  is_regular = true;
  is_backup = false;
  is_readable = true;
  first_line = some key;
  second_line = none;
}

abbrev locked : Entry
locked = record (entry "lastfm" "l") { is_readable = false }

abbrev no_spaces : String → String
no_spaces line = line

abbrev some_text : Bytes → String
some_text payload = "text"

-- The kernel has two lines for whatever service.
abbrev kernel : String → Option Bytes
kernel service = some (65 ∷ 10 ∷ 66 ∷ [])

abbrev system : List (Option (List Entry))
system =
    some (entry "flickr" "local" ∷ locked ∷ entry "twitter" "hidden" ∷ [])
    ∷ some (entry "flickr" "shared" ∷ [])
    ∷ []

configured_keys_example :
    get_key_secret some_text kernel "flickr" (
      get_keys some_text
        ((kernel, "twitter") ∷ (kernel, "flickr") ∷ [])
        (load_keys no_spaces system none))
    ≡ record {
      known = true;
      keys = record { key = some "shared"; secret = none };
      hash =
          get_keys some_text
            ((kernel, "twitter") ∷ (kernel, "flickr") ∷ [])
            (load_keys no_spaces system none);
    }
unfolding key_data stripped
configured_keys_example =
    configured_keys some_text no_spaces system none ((kernel, "twitter") ∷ (kernel, "flickr") ∷ [])
      kernel "flickr" (record { key = some "shared"; secret = none }) refl
