-- ===== src/Service/Examples.antt =====
-- A service, as an instance of the theorems on libsocialweb/sw-service.c and sw-banned.c.
use libsocialweb_flickr_oaut.Service.Reload.{hide_all_survives, hide_all}
use libsocialweb_flickr_oaut.Prelude.{refl, ◌≡◌, none, [], String, true, ◌∷◌, List}
use libsocialweb_flickr_oaut.Set.{
  add_each, replace, set_new, set_as_list, set_add, set_has, contains,
}
use libsocialweb_flickr_oaut.Service.{
  read_lines, write_lines, constructed, bytes_eq, hide_item, is_uid_banned, Service,
}

abbrev started : Service
started = record {
  banned_uids = record { ref_count = 1; keys = (7 ∷ []) ∷ [] };
  file = none;
  hidden = [];
}

hide_all_survives_example :
    is_uid_banned
      (constructed (hide_all ((9 ∷ []) ∷ []) (hide_item true (8 ∷ []) started)).file)
      (8 ∷ [])
    ≡ true
unfolding contains bytes_eq is_uid_banned set_has
hide_all_survives_example =
    hide_all_survives (8 ∷ []) ((9 ∷ []) ∷ []) started (8 ∷ []) ((refl, tt), ((refl, tt), tt))
      ((refl, tt), tt)

-- The file that hiding such a uid leaves bans two others.
banned_by_parts :
    is_uid_banned (constructed (hide_item true (8 ∷ 10 ∷ 9 ∷ []) started).file) (9 ∷ []) ≡ true
unfolding hide_item constructed is_uid_banned set_has set_add set_as_list set_new replace contains
    add_each write_lines read_lines bytes_eq
banned_by_parts = refl

abbrev mapping : List (String × String)
mapping = ("keywords", "text") ∷ ("count", "per_page") ∷ []
