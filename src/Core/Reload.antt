-- ===== src/Core/Reload.antt =====
-- What is loaded from a directory, and what a second reading of it changes (libsocialweb/sw-core.c).
use mathlib.Core.Option.{some-injective}
use libsocialweb_flickr_oaut.Dict.{Dict, lookup-insert, lookup}
use libsocialweb_flickr_oaut.Core.{load_each, start_service, load_type, SwCore, Module, load_module}
use libsocialweb_flickr_oaut.Prelude.{
  Bool-cases, ◌∙◌, sym, ap, eq_refl, refl, eq_iff, inr, inl, Option-cases, ◌==◌, not, arith, false,
  ◌&&◌, [], str_eq, ◌≡◌, true, ◌∷◌, if◌then◌else◌, Bool, none, some, ℕ, List, Option, String,
}

-- The type that a file can add under a name.
unfoldable pub offers : String → Option Module → Option ℕ
offers name none = none
offers name (some m) = elim m.get_name [
  | none ↦ none
  | some none ↦ none
  | some (some own) ↦ elim m.get_type [
    | none ↦ none
    | some type ↦
        if str_eq own name && (not (type == 0) && m.initable_init) then some type else none
  ]
]

-- The first of two that is there
abbrev pub or_else : Option ℕ → Option ℕ → Option ℕ
or_else none other = other
or_else (some type) other = some type

-- The first type that the files offer under a name.
unfoldable pub first_offer : String → List (Option Module) → Option ℕ
first_offer name [] = none
first_offer name (file ∷ files) = or_else (offers name file) (first_offer name files)

-- A module's name is not NULL.
unfoldable pub is_named : Option Module → Bool
is_named none = true
is_named (some m) = elim m.get_name [ none ↦ true | some none ↦ false | some (some own) ↦ true ]

unfoldable pub all_named : List (Option Module) → Bool
all_named [] = true
all_named (file ∷ files) = is_named file && all_named files

-- The type under a name; `none` is a crash.
abbrev pub type_of : String → Option SwCore → Option (Option ℕ)
type_of name none = none
type_of name (some core) = some (lookup name core.service_types)

load_module_lem :
    (name : String) (file : Option Module) (core : SwCore)
    → type_of name (load_module file core) ≡ (
        if is_named file
        then some (or_else (lookup name core.service_types) (offers name file))
        else none)
unfolding load_module load_type start_service offers is_named
load_module_lem name none core = ground arith
load_module_lem name (some m) core = elim (Option-cases m.get_name) [
  | inl e ↦ ground (arith, e)
  | inr (none, e) ↦ ground (arith, e)
  | inr (some own, e) ↦ elim (Option-cases (lookup own core.service_types)) [
    | inr (old, found) ↦ ground (arith, e, found, eq_iff own name)
    | inl missing ↦ elim (Option-cases m.get_type) [
      | inl t ↦ ground (arith, e, missing, t)
      | inr (type, t) ↦
          ground
            (arith, e, missing, t, eq_iff own name, lookup-insert own name type core.service_types)
    ]
  ]
]

or_else_assoc : (a b c : Option ℕ) → or_else (or_else a b) c ≡ or_else a (or_else b c)
or_else_assoc none b c = refl
or_else_assoc (some type) b c = refl

or_else-none : (a : Option ℕ) → or_else a none ≡ a
or_else-none none = refl
or_else-none (some type) = refl

-- Where every module has a name, loading a list of files leaves under each name the type that was
-- there, and else the first that a file offers: a module whose symbols and type are there and which
-- can be initialised. A module whose name is NULL makes it crash.
pub load_each_lem :
    (files : List (Option Module)) (core : SwCore) (name : String)
    → type_of name (load_each files core) ≡ (
        if all_named files
        then some (or_else (lookup name core.service_types) (first_offer name files))
        else none)
unfolding load_each first_offer all_named
load_each_lem [] core name = ap some (sym (or_else-none (lookup name core.service_types)))
load_each_lem (file ∷ files) core name = elim (Option-cases (load_module file core)) [
  | inl crashed ↦ ground (arith, crashed, load_module_lem name file core)
  | inr (next, loaded) ↦ ground (
    arith,
    loaded,
    load_module_lem name file core,
    load_each_lem files next name,
    or_else_assoc (lookup name core.service_types) (offers name file) (first_offer name files),
  )
]

-- All of the core but the number of the next object.
abbrev pub services : SwCore → Dict ℕ × Dict ℕ × List (String × ℕ)
services core = (core.service_types, core.bus_services, core.registered)

-- The same of a result; `none` is a crash.
abbrev pub services_of : Option SwCore → Option (Dict ℕ × Dict ℕ × List (String × ℕ))
services_of none = none
services_of (some core) = some (services core)

-- A file that offers nothing new adds nothing.
load_module_quiet :
    (file : Option Module) (core : SwCore)
    → is_named file ≡ true
    → ((name : String) → lookup name core.service_types ≡ none → offers name file ≡ none)
    → services_of (load_module file core) ≡ some (services core)
unfolding load_module load_type start_service offers is_named
load_module_quiet none core n h = refl
load_module_quiet (some m) core n h = elim (Option-cases m.get_name) [
  | inl e ↦ ground (arith, e)
  | inr (none, e) ↦ ground (arith, e, n)
  | inr (some own, e) ↦ elim (Option-cases (lookup own core.service_types)) [
    | inr (old, found) ↦ ground (arith, e, found)
    | inl missing ↦ elim (Option-cases m.get_type) [
      | inl t ↦ ground (arith, e, missing, t)
      | inr (type, t) ↦ ground (arith, e, missing, t, h own missing, eq_refl own)
    ]
  ]
]

first_offer-none :
    (name : String) (file : Option Module) (files : List (Option Module))
    → first_offer name (file ∷ files) ≡ none
    → (offers name file ≡ none) × (first_offer name files ≡ none)
unfolding first_offer
first_offer-none name file files e = elim (Option-cases (offers name file)) [
  | inl missing ↦ (missing, ground (arith, e, missing))
  | inr (type, found) ↦ ground (arith, e, found)
]

load_each_quiet :
    (files : List (Option Module)) (core : SwCore)
    → all_named files ≡ true
    → ((name : String) → lookup name core.service_types ≡ none → first_offer name files ≡ none)
    → services_of (load_each files core) ≡ some (services core)
unfolding load_each all_named
load_each_quiet [] core n h = refl
load_each_quiet (file ∷ files) core n h =
    let quiet =
      load_module_quiet file core (ground (arith, n))
        (λ name e. (first_offer-none name file files (h name e)).0) in
    elim (Option-cases (load_module file core)) [
      | inl crashed ↦ ground (arith, crashed, quiet)
      | inr (next, loaded) ↦
          let same : services next ≡ services core =
            some-injective _ _ (sym (ap services_of loaded) ∙ quiet) in
          let types : next.service_types ≡ core.service_types = ap (λ s. s.0) same in
          rw (loaded, load_each)
            (load_each_quiet files next (ground (arith, n)) (λ name e.
                (first_offer-none name file files (h name (sym (ap (lookup name) types) ∙ e))).1)
              ∙ ap some same)
    ]

or_else-right : (a b : Option ℕ) → or_else a b ≡ none → b ≡ none
or_else-right none b e = e
or_else-right (some type) b e = cc

loaded_names :
    (files : List (Option Module)) (core after : SwCore)
    → load_each files core ≡ some after
    → all_named files ≡ true
loaded_names files core after e = elim (Bool-cases (all_named files)) [
  | inl named ↦ named
  | inr unnamed ↦ ground (arith, unnamed, e, load_each_lem files core "")
]

loaded_types :
    (files : List (Option Module)) (core after : SwCore) (name : String)
    → load_each files core ≡ some after
    → lookup name after.service_types
      ≡ or_else (lookup name core.service_types) (first_offer name files)
loaded_types files core after name e = some-injective _ _ (
    sym (ap (type_of name) e)
    ∙ load_each_lem files core name
    ∙ ground (arith, loaded_names files core after e))

-- When a list of files has been loaded, loading it again, as the core does each time that a file of the
-- directory is created, registers no service and replaces none.
pub load_again :
    (files : List (Option Module)) (core after : SwCore)
    → load_each files core ≡ some after
    → services_of (load_each files after) ≡ some (services after)
load_again files core after e =
    load_each_quiet files after (loaded_names files core after e) (λ name missing.
      or_else-right (lookup name core.service_types) (first_offer name files)
        (sym (loaded_types files core after name e) ∙ missing))
