-- ===== src/Cache/Resaved.antt =====
-- A contact that is saved and loaded, once and twice (libsocialweb/sw-cache.c,
-- libsocialweb/sw-contact.c).
use libsocialweb_flickr_oaut.Cache.{contact, load_item, load_group, load_contact}
use libsocialweb_flickr_oaut.Service.{Service, Bytes}
use libsocialweb_flickr_oaut.Cache.Contacts.{
  save_lists-IsTable, load_contact_rest, written, get_all-load_contact, lookup-save_lists, listed,
  save_contact,
}
use libsocialweb_flickr_oaut.Dict.{insert-IsTable, lookup-insert, IsTable, insert, lookup, Dict}
use libsocialweb_flickr_oaut.Prelude.Int.{ℤ}
use libsocialweb_flickr_oaut.Prelude.{
  inr, inl, Option-cases, refl, ap, false, ◌∙◌, none, true, arith, [], str_eq, ◌∷◌, some,
  if◌then◌else◌, ◌≡◌, ℕ, Option, String, List,
}
use libsocialweb_flickr_oaut.Contact.{contact_new, set_service, Contact, get_ready, get_all}

module _ (format_list : List String → String) (string_list : String → List String) where
  -- The contact that is loaded from what one contact alone has saved.
  unfoldable pub reloaded : ℤ → ℕ → Contact → Contact
  reloaded now service c =
      load_contact string_list now (save_contact format_list c []) (set_service service contact_new)

  -- GLib reads every array of the table back as it was written, and a plain text without separators
  -- as a list of one.
  abbrev pub IsReadBack : Dict (List String) → Type 0
  IsReadBack hash =
      ((k : String) (vs : List String)
        → lookup k hash ≡ some vs
        → string_list (format_list vs) ≡ vs)
      × (string_list "1" ≡ "1" ∷ [])
      × (string_list "contact" ≡ "contact" ∷ [])

  -- What saving adds to a table.
  unfoldable pub mark : String → Option (List String)
  mark j =
      if str_eq "type" j
      then some ("contact" ∷ [])
      else (if str_eq "cached" j then some ("1" ∷ []) else none)

  -- The array of a key in the loaded contact, from the array in the saved one.
  abbrev pub came_back : String → Option (List String) → Option (List String)
  came_back j none = mark j
  came_back j (some vs) = listed vs

  abbrev marked : Dict String
  marked = insert "type" "contact" (insert "cached" "1" [])

  abbrev read : Option String → Option (List String)
  read o = elim o [ none ↦ none | some text ↦ listed (string_list text) ]

  read-marked :
      (hash : Dict (List String)) (j : String) → IsReadBack hash → read (lookup j marked) ≡ mark j
  unfolding mark lookup
  read-marked hash j b = ground (
    arith,
    b.1,
    b.2,
    lookup-insert {V = String} "type" j "contact" (insert "cached" "1" []),
    lookup-insert {V = String} "cached" j "1" [],
  )

  get_all-reloaded :
      (now : ℤ) (service : ℕ) (c : Contact) (j : String)
      → IsTable c.hash
      → IsReadBack c.hash
      → get_all (reloaded now service c) j ≡ came_back j (get_all c j)
  unfolding reloaded save_contact set_service contact_new get_all lookup
  get_all-reloaded now service c j t b =
      let saved = lookup-save_lists format_list c.hash marked j t in
      get_all-load_contact string_list now (save_contact format_list c [])
        (set_service service contact_new) j
        (save_lists-IsTable format_list c.hash marked
          (insert-IsTable "type" "contact" _ (insert-IsTable "cached" "1" [] tt)))
      ∙ ap read saved
      ∙ (elim (Option-cases (lookup j c.hash)) [
        | inl missing ↦ ground (arith, missing, read-marked c.hash j b)
        | inr (vs, found) ↦ ground (arith, found, b.0 j vs found)
      ])

  saved_type :
      (c : Contact)
      → IsTable c.hash
      → lookup "type" (save_contact format_list c [])
        ≡ written format_list (lookup "type" c.hash) (some "contact")
  unfolding save_contact
  saved_type c t =
      lookup-save_lists format_list c.hash marked "type" t
      ∙ ap (written format_list (lookup "type" c.hash))
          (lookup-insert {V = String} "type" "type" "contact" (insert "cached" "1" []))

  loaded_rest :
      (now : ℤ) (service : ℕ) (c : Contact)
      → ((reloaded now service c).service ≡ some service)
        × (get_ready (reloaded now service c) ≡ true)
        × IsTable (reloaded now service c).hash
  unfolding reloaded set_service contact_new get_ready
  loaded_rest now service c =
      let rest =
        load_contact_rest string_list now (save_contact format_list c [])
          (set_service service contact_new) in
      (rest.0, ground (arith, rest.1), rest.2 tt)

  typed :
      (now : ℤ) (service : ℕ) (c : Contact)
      → IsTable c.hash
      → lookup "type" c.hash ≡ none
      → IsReadBack c.hash
      → lookup "type" (reloaded now service c).hash ≡ some ("contact" ∷ [])
  unfolding get_all mark
  typed now service c t h b = get_all-reloaded now service c "type" t b ∙ ap (came_back "type") h

  module _ (thumbnail_path : String → String) (bytes : String → Bytes) (banned : Service) where
    -- A contact without a key "type", each key once in its table, is saved as a group that loads as a
    -- contact of the loading service that is ready, if GLib reads back the lists that it writes. Each
    -- array with texts comes back as it was, and one without texts is lost; saving adds "type" and
    -- "cached" where the contact has no such keys.
    pub load_group-save_contact :
        (now : ℤ) (service : ℕ) (c : Contact)
        → IsTable c.hash
        → lookup "type" c.hash ≡ none
        → IsReadBack c.hash
        → (load_group thumbnail_path string_list bytes banned service now
              (save_contact format_list c [])
            ≡ some (contact (reloaded now service c)))
          × ((j : String) → get_all (reloaded now service c) j ≡ came_back j (get_all c j))
          × ((reloaded now service c).service ≡ some service)
          × (get_ready (reloaded now service c) ≡ true)
    unfolding load_group reloaded
    load_group-save_contact now service c t h b = (
      rw (saved_type c t, h, load_group) refl,
      λ j. get_all-reloaded now service c j t b,
      (loaded_rest now service c).0,
      (loaded_rest now service c).1,
    )

    -- A contact that was loaded from the cache is lost when it is saved again: its key "type" is now
    -- one of its arrays, and is written as the list of the one text "contact". Where GLib writes that
    -- list as anything but the plain word, and not as the word "item", no contact and no item is
    -- loaded from the group.
    pub resaved_contact_lost :
        (now later : ℤ) (service : ℕ) (c : Contact)
        → IsTable c.hash
        → lookup "type" c.hash ≡ none
        → IsReadBack c.hash
        → str_eq (format_list ("contact" ∷ [])) "contact" ≡ false
        → str_eq (format_list ("contact" ∷ [])) "item" ≡ false
        → load_item thumbnail_path string_list bytes banned service later
            (save_contact format_list (reloaded now service c) [])
          ≡ none
    unfolding load_item load_group mark
    resaved_contact_lost now later service c t h b nc ni =
        let saved =
          saved_type (reloaded now service c) (loaded_rest now service c).2
          ∙ ap (λ o. written format_list o (some "contact")) (typed now service c t h b) in
        rw (saved, ni, nc, load_group, load_item) refl
