-- ===== src/Core/Examples.antt =====
-- Two modules of one name and one without a type, as instances of the theorems on
-- libsocialweb/sw-core.c.
use libsocialweb_flickr_oaut.Core.Reload.{load_each_lem, first_offer, or_else, all_named, type_of}
use libsocialweb_flickr_oaut.Dict.{insert, lookup}
use libsocialweb_flickr_oaut.Core.{start_service, load_type, load_module, Module, load_each, SwCore}
use libsocialweb_flickr_oaut.Prelude.{
  refl, true, if◌then◌else◌, none, some, ◌≡◌, ◌∷◌, [], List, Option,
}

abbrev flickr : Option Module
flickr = some (record { get_name = some (some "flickr"); get_type = some 7; initable_init = true })

abbrev other_flickr : Option Module
other_flickr =
    some (record { get_name = some (some "flickr"); get_type = some 9; initable_init = true })

abbrev twitter : Option Module
twitter = some (record { get_name = some (some "twitter"); get_type = none; initable_init = true })

abbrev started : SwCore
started = record { service_types = []; bus_services = []; registered = []; next = 1 }

abbrev running : SwCore
running = record {
  service_types = ("flickr", 7) ∷ [];
  bus_services = ("flickr", 1) ∷ [];
  registered = ("flickr", 1) ∷ [];
  next = 2;
}

abbrev files : List (Option Module)
files = flickr ∷ none ∷ other_flickr ∷ twitter ∷ []

load_each_lem_example :
    type_of "flickr" (load_each files started)
    ≡ (if all_named files then some (or_else none (first_offer "flickr" files)) else none)
unfolding lookup
load_each_lem_example = load_each_lem files started "flickr"

files_loaded : load_each files started ≡ some running
unfolding load_each load_module load_type start_service lookup insert
files_loaded = refl
