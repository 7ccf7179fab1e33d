-- ===== src/Cache/ContactExamples.antt =====
-- A contact in the cache, as an instance of the theorems on libsocialweb/sw-contact.c.
use mathlib.Core.Option.{some-injective}
use mathlib.Core.Path.{subst}
use libsocialweb_flickr_oaut.Prelude.Int.{pos}
use libsocialweb_flickr_oaut.Cache.{contact, load_group}
use libsocialweb_flickr_oaut.Dict.{IsTable, lookup}
use libsocialweb_flickr_oaut.Service.{Bytes, Service}
use libsocialweb_flickr_oaut.Prelude.{
  arith, inr, Bool-cases, inl, ◌⊎◌, true, none, str_eq, refl, ◌≡◌, [], if◌then◌else◌, ◌∷◌, String,
  List, some,
}
use libsocialweb_flickr_oaut.Cache.Resaved.{
  load_group-save_contact, IsReadBack, reloaded, came_back,
}
use libsocialweb_flickr_oaut.Cache.Contacts.{save_contact}
use libsocialweb_flickr_oaut.Contact.{Contact, get_ready, get_all}

abbrev ann : Contact
ann = record {
  service = some 1;
  hash = ("id", "ann" ∷ []) ∷ ("icon", []) ∷ [];
  mtime = pos 0;
  remaining_fetches = 0;
}

-- A list syntax on three words: each text is followed by a separator, which a reader need not see.
abbrev format_list : List String → String
format_list [] = ""
format_list (v ∷ vs) =
    if str_eq v "ann" then "ann;" else (if str_eq v "contact" then "contact;" else "1;")

abbrev string_list : String → List String
string_list s =
    if str_eq s ""
    then []
    else (if str_eq s "ann;"
        then "ann" ∷ []
        else (if str_eq s "contact" then "contact" ∷ [] else "1" ∷ []))

abbrev as_it_is : String → String
as_it_is s = s

abbrev no_code : String → Bytes
no_code s = []

abbrev nothing_banned : Service
nothing_banned = record {
  banned_uids = record { ref_count = 1; keys = [] };
  file = none;
  hidden = [];
}

ann-IsTable : IsTable ann.hash
unfolding lookup
ann-IsTable = (refl, (refl, tt))

ann_untyped : lookup "type" ann.hash ≡ none
unfolding lookup
ann_untyped = refl

ann_texts :
    (k : String) (vs : List String) → lookup k ann.hash ≡ some vs → ("ann" ∷ [] ≡ vs) ⊎ ([] ≡ vs)
unfolding lookup
ann_texts k vs e = elim (Bool-cases (str_eq "id" k)) [
  | inl is_id ↦ inl (some-injective ("ann" ∷ []) vs (ground (arith, e)))
  | inr other ↦ elim (Bool-cases (str_eq "icon" k)) [
    | inl is_icon ↦ inr (some-injective [] vs (ground (arith, e)))
    | inr neither ↦ ground (arith, e)
  ]
]

ann-IsReadBack : IsReadBack format_list string_list ann.hash
unfolding lookup
ann-IsReadBack = (
  λ k vs e. elim (ann_texts k vs e) [
    | inl is_ann ↦ subst (λ ws. string_list (format_list ws) ≡ ws) is_ann refl
    | inr is_empty ↦ subst (λ ws. string_list (format_list ws) ≡ ws) is_empty refl
  ],
  refl,
  refl,
)

load_group-save_contact_example :
    (load_group as_it_is string_list no_code nothing_banned 1
        (pos 5)
        (save_contact format_list ann [])
      ≡ some (contact (reloaded format_list string_list (pos 5) 1 ann)))
    × ((j : String)
        → get_all (reloaded format_list string_list (pos 5) 1 ann) j
          ≡ came_back format_list string_list j (get_all ann j))
    × ((reloaded format_list string_list (pos 5) 1 ann).service ≡ some 1)
    × (get_ready (reloaded format_list string_list (pos 5) 1 ann) ≡ true)
load_group-save_contact_example =
    load_group-save_contact format_list string_list as_it_is no_code nothing_banned (pos 5) 1 ann
      ann-IsTable ann_untyped ann-IsReadBack
