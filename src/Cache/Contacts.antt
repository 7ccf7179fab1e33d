-- ===== src/Cache/Contacts.antt =====
-- Contacts in the cache: `sw_contact_save_into_cache` of libsocialweb/sw-contact.c, with the loading
-- of a contact in libsocialweb/sw-cache.c. The list syntax of a GKeyFile is an argument in both
-- directions: `format_list` for `g_key_file_set_string_list`, `string_list` for
-- `g_key_file_get_string_list`.
use libsocialweb_flickr_oaut.Contact.Values.{put-IsTable, get_all-put}
use mathlib.Core.List.{append_assoc}
use libsocialweb_flickr_oaut.Prelude.Int.{ℤ}
use libsocialweb_flickr_oaut.Cache.{load_contact, put_each, KeyFile}
use libsocialweb_flickr_oaut.Dict.{lookup-insert, insert-IsTable, IsTable, insert, lookup, Dict}
use libsocialweb_flickr_oaut.Prelude.{
  ◌∙◌, ap, refl, eq_iff, str_eq, arith, not, ◌++◌, ◌≡◌, if◌then◌else◌, none, some, ◌∷◌, [], Option,
  String, List,
}
use libsocialweb_flickr_oaut.Contact.{touch, put, Contact, get, get_ready, get_all, append_value}

module _ (format_list : List String → String) where
  -- The loop of `sw_contact_save_into_cache`.
  unfoldable pub save_lists : Dict (List String) → Dict String → Dict String
  save_lists [] group = group
  save_lists ((key, values) ∷ hash) group = save_lists hash (insert key (format_list values) group)

  -- `sw_contact_save_into_cache`, on what the group holds already
  unfoldable pub save_contact : Contact → Dict String → Dict String
  save_contact c group = save_lists c.hash (insert "type" "contact" (insert "cached" "1" group))

  -- `sw_cacheable_save_into_cache` of a contact: one without an id or that is not ready is left out.
  unfoldable pub save_contact_into_cache : Contact → KeyFile → KeyFile
  save_contact_into_cache c keys = elim (get c "id") [
    | none ↦ keys
    | some group ↦
        let old : Dict String = elim (lookup group keys) [ none ↦ [] | some fields ↦ fields ] in
        if not (get_ready c) then keys else insert group (save_contact c old) keys
  ]

  abbrev pub written : Option (List String) → Option String → Option String
  written none other = other
  written (some values) other = some (format_list values)

  pub lookup-save_lists :
      (hash : Dict (List String)) (group : Dict String) (j : String)
      → IsTable hash
      → lookup j (save_lists hash group) ≡ written (lookup j hash) (lookup j group)
  unfolding lookup save_lists
  lookup-save_lists [] group j t = refl
  lookup-save_lists ((k, vs) ∷ hash) group j t = ground (
    arith,
    lookup-save_lists hash (insert k (format_list vs) group) j t.1,
    lookup-insert k j (format_list vs) group,
    eq_iff k j,
    t.0,
  )

  pub save_lists-IsTable :
      (hash : Dict (List String)) (group : Dict String)
      → IsTable group
      → IsTable (save_lists hash group)
  unfolding save_lists
  save_lists-IsTable [] group t = t
  save_lists-IsTable ((k, vs) ∷ hash) group t =
      save_lists-IsTable hash (insert k (format_list vs) group)
        (insert-IsTable k (format_list vs) group t)

-- An array after some texts are put behind its own.
abbrev pub extended : Option (List String) → List String → Option (List String)
extended o [] = o
extended none (v ∷ vs) = some (v ∷ vs)
extended (some old) (v ∷ vs) = some (old ++ v ∷ vs)

-- The array that a list of texts is put as: a list without texts is not put at all.
abbrev pub listed : List String → Option (List String)
listed values = extended none values

module _ (string_list : String → List String) where
  extended-append_value :
      (o : Option (List String)) (v : String) (vs : List String)
      → extended (some (append_value o (some v))) vs ≡ extended o (v ∷ vs)
  unfolding append_value
  extended-append_value none v [] = refl
  extended-append_value none v (w ∷ vs) = refl
  extended-append_value (some old) v [] = refl
  extended-append_value (some old) v (w ∷ vs) = ap some (append_assoc old (v ∷ []) (w ∷ vs))

  get_all-put_each :
      (now : ℤ) (key : String) (values : List String) (c : Contact) (j : String)
      → get_all (put_each string_list now key values c) j
        ≡ (if str_eq key j then extended (get_all c j) values else get_all c j)
  unfolding put_each append_value
  get_all-put_each now key [] c j = ground arith
  get_all-put_each now key (v ∷ vs) c j = ground (
    arith,
    get_all-put_each now key vs (put now key (some v) c).0 j,
    get_all-put now key (some v) c j,
    extended-append_value (get_all c j) v vs,
  )

  pub get_all-load_contact :
      (now : ℤ) (fields : Dict String) (c : Contact) (j : String)
      → IsTable fields
      → get_all (load_contact string_list now fields c) j ≡ (elim (lookup j fields) [
        | none ↦ get_all c j
        | some text ↦ extended (get_all c j) (string_list text)
      ])
  unfolding load_contact lookup
  get_all-load_contact now [] c j t = refl
  get_all-load_contact now ((k, text) ∷ fields) c j t = ground (
    arith,
    get_all-load_contact now fields (put_each string_list now k (string_list text) c) j t.1,
    get_all-put_each now k (string_list text) c j,
    eq_iff k j,
    t.0,
  )

  put_each_rest :
      (now : ℤ) (key : String) (values : List String) (c : Contact)
      → ((put_each string_list now key values c).service ≡ c.service)
        × ((put_each string_list now key values c).remaining_fetches ≡ c.remaining_fetches)
        × (IsTable c.hash → IsTable (put_each string_list now key values c).hash)
  unfolding put_each put touch
  put_each_rest now key [] c = (refl, refl, λ t. t)
  put_each_rest now key (v ∷ vs) c =
      let rest = put_each_rest now key vs (put now key (some v) c).0 in
      (rest.0, rest.1, λ t. rest.2 (put-IsTable now key (some v) c t))

  -- Loading fills the table and leaves the rest.
  pub load_contact_rest :
      (now : ℤ) (fields : Dict String) (c : Contact)
      → ((load_contact string_list now fields c).service ≡ c.service)
        × ((load_contact string_list now fields c).remaining_fetches ≡ c.remaining_fetches)
        × (IsTable c.hash → IsTable (load_contact string_list now fields c).hash)
  unfolding load_contact
  load_contact_rest now [] c = (refl, refl, λ t. t)
  load_contact_rest now ((k, text) ∷ fields) c =
      let rest = load_contact_rest now fields (put_each string_list now k (string_list text) c) in
      let here = put_each_rest now k (string_list text) c in
      (rest.0 ∙ here.0, rest.1 ∙ here.1, λ t. rest.2 (here.2 t))
