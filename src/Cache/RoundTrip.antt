-- ===== src/Cache/RoundTrip.antt =====
-- A set of items that is saved to a file and loaded from it (libsocialweb/sw-cache.c).
use mathlib.Core.Path.{subst}
use mathlib.Core.List.{append_assoc, append-nil}
use libsocialweb_flickr_oaut.Set.Laws.{IsDistinct}
use libsocialweb_flickr_oaut.Cache.Reload.{
  lookup-reloaded, or_mark, mark, reloaded_id, saved_type, IsPortable, reloaded,
}
use libsocialweb_flickr_oaut.Set.{
  set_new, set_is_empty, set_as_list, set_add, SwSet, add_each, contains,
}
use libsocialweb_flickr_oaut.Cache.{
  absolute, load_fields, cache_save, cache_load, cacheable_id, is_banned, load_group, item, KeyFile,
  load_each, load_item, Cacheable, save_each, save_into_cache, save_item,
}
use libsocialweb_flickr_oaut.Item.{touch, store, item_new, put, set_service, get, get_ready, Item}
use libsocialweb_flickr_oaut.Prelude.Int.{ℤ}
use libsocialweb_flickr_oaut.Service.{is_uid_banned, Service, Bytes}
use libsocialweb_flickr_oaut.Dict.{insert_absent, lookup-insert, IsTable, Dict, lookup, insert}
use libsocialweb_flickr_oaut.Prelude.{
  if◌then◌else◌, ◌==◌, length, Option, sym, map, All, false, true, Bool, ℕ, ◌++◌, List, String, ◌≡◌,
  refl, none, some, [], ◌∷◌, arith, eq_iff, str_eq, ◌∙◌, ap,
}

module _ (basename thumbnail_path : String → String) (string_list : String → List String)
    (bytes : String → Bytes) (banned : Service) (service : ℕ) (now : ℤ) (name : Item → String) where
  -- An item that comes back: it is ready, its id is not banned, it has no key "type", and its paths
  -- are those that the cache makes.
  pub record IsCached (i : Item) : Type 0 where
    pub ready : get_ready i ≡ true
    pub named : get i "id" ≡ some (name i)
    pub untyped : lookup "type" i.hash ≡ none
    pub table : IsTable i.hash
    pub portable : IsPortable basename thumbnail_path i.hash
    pub allowed : is_uid_banned banned (bytes (name i)) ≡ false

  abbrev pub same_name : Item → Item → Bool
  same_name a b = str_eq (name a) (name b)

  abbrev pub no_groups : KeyFile
  no_groups = []

  abbrev group_of : Item → String × Dict String
  group_of i = (name i, save_item basename i [])

  save_one :
      (i : Item) (file : KeyFile)
      → IsCached i
      → lookup (name i) file ≡ none
      → save_into_cache basename i file ≡ insert (name i) (save_item basename i []) file
  unfolding save_into_cache
  save_one i file c h = rw (c.named, h, c.ready, save_into_cache) refl

  Absent-insert :
      (i : Item) (file : KeyFile) (items : List Item)
      → contains same_name items i ≡ false
      → All (λ j. lookup (name j) file ≡ none) items
      → All (λ j. lookup (name j) (insert (name i) (save_item basename i []) file) ≡ none) items
  unfolding contains
  Absent-insert i file [] h a = tt
  Absent-insert i file (j ∷ items) h a = (
    ground (
      arith,
      a.0,
      lookup-insert (name i) (name j) (save_item basename i []) file,
      eq_iff (name i) (name j),
      eq_iff (name j) (name i),
    ),
    Absent-insert i file items (ground arith) a.1,
  )

  save_each_lem :
      (items : List Item) (file : KeyFile)
      → All IsCached items
      → IsDistinct same_name items
      → All (λ i. lookup (name i) file ≡ none) items
      → save_each basename items file ≡ file ++ map group_of items
  unfolding save_each
  save_each_lem [] file c d a = sym (append-nil file)
  save_each_lem (i ∷ items) file c d a =
      ap (save_each basename items) (save_one i file c.0 a.0)
      ∙ save_each_lem items _ c.1 d.1 (Absent-insert i file items d.0 a.1)
      ∙ ap (λ f. f ++ map group_of items) (insert_absent (name i) _ file a.0)
      ∙ append_assoc file (group_of i ∷ []) (map group_of items)

  abbrev restored : Item → Item
  restored i = reloaded basename thumbnail_path now service i

  abbrev pub loaded : Item → Cacheable
  loaded i = item (restored i)

  map-loaded : (items : List Item) → map loaded items ≡ map item (map restored items)
  map-loaded [] = refl
  map-loaded (i ∷ items) = ap (λ l. loaded i ∷ l) (map-loaded items)

  -- What the table of a loaded item has at a key, given what the saved one has there.
  abbrev pub restored_value : String → Option String → Option String
  restored_value j (some v) = some v
  restored_value j none =
      if str_eq "type" j then some "item" else if str_eq "cached" j then some "1" else none

  pub record IsRestored (i b : Item) : Type 0 where
    pub service_set : b.service ≡ some service
    pub is_ready : get_ready b ≡ true
    pub content : (j : String) → lookup j b.hash ≡ restored_value j (lookup j i.hash)

  abbrev pub AllRestored : List Item → List Item → Type 0
  AllRestored [] [] = Unit
  AllRestored [] (b ∷ back) = ⊥
  AllRestored (i ∷ items) [] = ⊥
  AllRestored (i ∷ items) (b ∷ back) = IsRestored i b × AllRestored items back

  -- Loading fields sets neither the service nor the count.
  load_fields_rest :
      (fields : Dict String) (i : Item)
      → ((load_fields thumbnail_path now fields i).service ≡ i.service)
        × ((load_fields thumbnail_path now fields i).remaining_fetches ≡ i.remaining_fetches)
  unfolding load_fields put store touch
  load_fields_rest [] i = (refl, refl)
  load_fields_rest ((key, value) ∷ fields) i =
      load_fields_rest fields (put now key (some (absolute thumbnail_path key value)) i).0

  or_mark-restored_value :
      (j : String) (o : Option String)
      → or_mark basename thumbnail_path o (mark basename thumbnail_path j) ≡ restored_value j o
  unfolding mark
  or_mark-restored_value j none = refl
  or_mark-restored_value j (some v) = refl

  restored-IsRestored : (i : Item) → IsCached i → IsRestored i (restored i)
  unfolding reloaded set_service item_new mark get_ready
  restored-IsRestored i c =
      let rest = load_fields_rest (save_item basename i []) (set_service service item_new) in
      record {
        service_set = rest.0;
        is_ready = ground (arith, rest.1);
        content = λ j.
            lookup-reloaded basename thumbnail_path now service i j c.table c.portable
            ∙ or_mark-restored_value j (lookup j i.hash);
      }

  restored-AllRestored :
      (items : List Item) → All IsCached items → AllRestored items (map restored items)
  restored-AllRestored [] c = tt
  restored-AllRestored (i ∷ items) c = (restored-IsRestored i c.0, restored-AllRestored items c.1)

  load_type :
      (i : Item)
      → IsCached i
      → load_group thumbnail_path string_list bytes banned service now (save_item basename i [])
        ≡ some (loaded i)
  unfolding load_group reloaded
  load_type i c = rw (saved_type basename thumbnail_path i c.table c.untyped, load_group) refl

  load_allowed :
      (i : Item)
      → IsCached i
      → is_banned thumbnail_path string_list bytes banned service now (cacheable_id (loaded i))
        ≡ false
  unfolding is_banned cacheable_id get
  load_allowed i c =
      ap (is_banned thumbnail_path string_list bytes banned service now)
        (reloaded_id basename thumbnail_path now service i c.table c.portable c.named)
      ∙ c.allowed

  load_one :
      (i : Item)
      → IsCached i
      → load_item thumbnail_path string_list bytes banned service now (save_item basename i [])
        ≡ some (loaded i)
  unfolding load_item
  load_one i c = rw (load_type i c, load_allowed i c, load_item) refl

  load_each_lem :
      (eq : Cacheable → Cacheable → Bool) (items : List Item) (set : SwSet Cacheable)
      → All IsCached items
      → load_each thumbnail_path string_list bytes banned service now eq (map group_of items) set
        ≡ add_each eq set (map loaded items)
  unfolding load_each add_each
  load_each_lem eq [] set c = refl
  load_each_lem eq (i ∷ items) set c =
      rw (load_one i c.0, load_each) (load_each_lem eq items (set_add eq set (loaded i)) c.1)

  Absent-nil : (items : List Item) → All (λ i. lookup (name i) no_groups ≡ none) items
  unfolding lookup
  Absent-nil [] = tt
  Absent-nil (i ∷ items) = (refl, Absent-nil items)

  module _ {ℓ} {File : Type ℓ} (to_data : KeyFile → File) (parse : File → Option KeyFile) where
    load_groups :
        (eq : Cacheable → Cacheable → Bool) (items : List Item) (file : File)
        → All IsCached items
        → (length items == 0) ≡ false
        → parse file ≡ some (map group_of items)
        → cache_load thumbnail_path string_list bytes banned service now parse eq (some file)
          ≡ some (add_each eq set_new (map loaded items))
    unfolding cache_load
    load_groups eq [] file c e p = ground arith
    load_groups eq (i ∷ items) file c e p =
        rw (p, cache_load) (ap some (load_each_lem eq (i ∷ items) set_new c))

    -- A set of one or more items with distinct ids, each ready, not banned, with no key "type" and
    -- with the paths that the cache makes, is written and, if GLib parses what was written to the same
    -- groups, read back: the set is made of one item for each, in order, which is ready and of the
    -- service, and has at each key the value that the saved item has there; where that has none, it
    -- has "item" for "type", "1" for "cached", and nothing at any other key.
    pub cache_load-cache_save :
        (eq : Cacheable → Cacheable → Bool) (set : SwSet Item) (file : Option File)
        → All IsCached set.keys
        → IsDistinct same_name set.keys
        → set_is_empty set ≡ false
        → parse (to_data (save_each basename set.keys no_groups))
          ≡ some (save_each basename set.keys no_groups)
        → (back : List Item) × (cache_load thumbnail_path string_list bytes banned service now parse
              eq
              (cache_save basename to_data true (some set) file)
            ≡ some (add_each eq set_new (map item back)))
          × AllRestored set.keys back
    unfolding cache_save set_as_list set_is_empty
    cache_load-cache_save eq set file c d e h =
        let saved = save_each_lem set.keys no_groups c d (Absent-nil set.keys) in
        (
          map restored set.keys,
          rw (e, saved, cache_save)
                (load_groups eq set.keys (to_data (map group_of set.keys)) c e
                  (subst (λ g. parse (to_data g) ≡ some g) saved h))
              ∙ ap (λ items. some (add_each eq set_new items)) (map-loaded set.keys),
          restored-AllRestored set.keys c,
        )
