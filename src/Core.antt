-- ===== src/Core.antt =====
-- libsocialweb/sw-core.c: the modules of the services, loaded from a directory. What GModule finds in a
-- file, what its functions return, and whether the instance can be initialised are the fields of a
-- record, which stand for that file on every call; the directory is the list of its files. `none` as a
-- result stands for the crash of a NULL that is looked up in a table of texts. Object pointers are
-- numbers, handed out in order.
pub mod Reload
mod Examples
use libsocialweb_flickr_oaut.Prelude.{
  ◌+◌, [], ◌==◌, not, none, ◌∷◌, if◌then◌else◌, some, Bool, List, String, ℕ, Option,
}
use libsocialweb_flickr_oaut.Dict.{Dict, lookup, insert}

pub record Module : Type 0 where
  -- the name's symbol, and what it returns
  pub get_name : Option (Option String)
  -- the type's symbol, and what it returns
  pub get_type : Option ℕ
  -- `g_initable_init`, or true where the type is not initable
  pub initable_init : Bool

pub record SwCore : Type 0 where
  pub service_types : Dict ℕ
  pub bus_services : Dict ℕ
  -- the names whose object paths are registered on the bus, with the objects, the latest first
  pub registered : List (String × ℕ)
  -- the next object
  pub next : ℕ

-- The part of `load_module` from `g_module_make_resident` on.
unfoldable pub start_service : String → ℕ → Bool → SwCore → SwCore
start_service name type initialised core =
    if not initialised then record core { next = core.next + 1 } else record {
      service_types = insert name type core.service_types;
      bus_services = insert name core.next core.bus_services;
      registered = (name, core.next) ∷ core.registered;
      next = core.next + 1;
    }

-- The part of `load_module` after the look-up of the name.
unfoldable pub load_type : String → Module → SwCore → SwCore
unfolding start_service
load_type name m core = elim m.get_type [
  | none ↦ core
  | some type ↦ if type == 0 then core else start_service name type m.initable_init core
]

-- `load_module` of what `g_module_open` gives.
unfoldable pub load_module : Option Module → SwCore → Option SwCore
unfolding load_type
load_module none core = some core
load_module (some m) core = elim m.get_name [
  | none ↦ some core
  | some none ↦ none
  | some (some name) ↦ elim (lookup name core.service_types) [
    | none ↦ some (load_type name m core)
    | some type ↦ some core
  ]
]

-- The loops of `load_modules_from_dir`, over the files that end in ".so", and of
-- `load_modules_from_string`
unfoldable pub load_each : List (Option Module) → SwCore → Option SwCore
unfolding load_module
load_each [] core = some core
load_each (file ∷ files) core = elim (load_module file core) [
  | none ↦ none
  | some next ↦ load_each files next
]

-- `load_modules_from_dir`: each file with whether its name ends in ".so", or none where the directory
-- cannot be read
unfoldable pub so_files : List (Bool × Option Module) → List (Option Module)
so_files [] = []
so_files ((ends, file) ∷ files) = let rest = so_files files in if ends then file ∷ rest else rest

unfoldable pub load_modules_from_dir : Option (List (Bool × Option Module)) → SwCore → Option SwCore
unfolding so_files load_each
load_modules_from_dir none core = some core
load_modules_from_dir (some files) core = load_each (so_files files) core
