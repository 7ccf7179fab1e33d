-- ===== src/Service.antt =====
-- libsocialweb/sw-service.c and libsocialweb/sw-banned.c: a service's list of hidden items, kept in
-- a table and in a file, and its capabilities and parameter names. A uid and a file are byte strings;
-- whether the file can be opened for writing is an argument.
pub mod Reload
pub mod Params
mod Examples
use libsocialweb_flickr_oaut.Dict.{lookup, Dict}
use libsocialweb_flickr_oaut.Set.{set_as_list, add_each, set_has, set_add, set_new, SwSet}
use libsocialweb_flickr_oaut.Prelude.{
  ◌||◌, ◌&&◌, none, str_eq, ◌==◌, false, ◌++◌, some, length, true, String, [], ◌∷◌, if◌then◌else◌,
  ℕ, Option, Bool, List,
}

abbrev pub Bytes : Type 0
Bytes = List ℕ

-- `g_str_equal`
unfoldable pub bytes_eq : Bytes → Bytes → Bool
bytes_eq [] [] = true
bytes_eq [] (y ∷ ys) = false
bytes_eq (x ∷ xs) [] = false
bytes_eq (x ∷ xs) (y ∷ ys) = x == y && bytes_eq xs ys

-- `g_data_input_stream_read_line` until it returns NULL: lines end at a line feed, and what follows
-- the last one is a line unless it is empty.
unfoldable pub read_lines : Bytes → Bytes → List Bytes
read_lines line [] = if length line == 0 then [] else line ∷ []
read_lines line (b ∷ bs) =
    let ended = line ∷ read_lines [] bs in
    let goes_on = read_lines (line ++ b ∷ []) bs in if b == 10 then ended else goes_on

-- `sw_ban_load`: a missing file bans nothing.
unfoldable pub ban_load : Option Bytes → SwSet Bytes
unfolding read_lines
ban_load none = set_new
ban_load (some file) = add_each bytes_eq set_new (read_lines [] file)

-- The loop of `sw_ban_save`.
unfoldable pub write_lines : List Bytes → Bytes
write_lines [] = []
write_lines (uid ∷ rest) = uid ++ 10 ∷ write_lines rest

pub record Service : Type 0 where
  pub banned_uids : SwSet Bytes
  pub file : Option Bytes
  -- the uids of "ItemHidden", newest last
  pub hidden : List Bytes

-- `sw_ban_save`: nothing is written where the file cannot be replaced.
unfoldable pub ban_save : Bool → SwSet Bytes → Option Bytes → Option Bytes
unfolding write_lines
ban_save writable banned file = if writable then some (write_lines (set_as_list banned)) else file

-- `sw_service_constructed`
unfoldable pub constructed : Option Bytes → Service
unfolding ban_load
constructed file = record { banned_uids = ban_load file; file = file; hidden = [] }

-- `banishable_hide_item`
unfoldable pub hide_item : Bool → Bytes → Service → Service
unfolding ban_save
hide_item writable uid s =
    let banned = set_add bytes_eq s.banned_uids uid in
    record s {
      banned_uids = banned;
      hidden = s.hidden ++ uid ∷ [];
      file = ban_save writable banned s.file;
    }

unfoldable pub is_uid_banned : Service → Bytes → Bool
is_uid_banned s uid = set_has bytes_eq s.banned_uids uid

-- `sw_service_has_cap`; the list ends where the array has its NULL.
unfoldable pub has_cap : Option (List String) → String → Bool
has_cap none cap = false
has_cap (some []) cap = false
has_cap (some (c ∷ caps)) cap = str_eq c cap || has_cap (some caps) cap

-- `sw_service_get_dynamic_caps` and `sw_service_get_static_caps`: a class without the method has no
-- capabilities.
unfoldable pub get_caps : Option (Option (List String)) → Option (List String)
get_caps none = some []
get_caps (some caps) = caps

unfoldable pub has_dynamic_cap : Option (Option (List String)) → String → Bool
unfolding has_cap get_caps
has_dynamic_cap method cap = has_cap (get_caps method) cap

-- `sw_service_map_params`: the calls of `set_param_func`, in order.
unfoldable pub map_params : List (String × String) → Dict String → List (String × String)
map_params [] parameters = []
map_params ((lsw_param, service_param) ∷ mapping) parameters =
    let rest = map_params mapping parameters in
    elim (lookup lsw_param parameters) [ none ↦ rest | some value ↦ (service_param, value) ∷ rest ]
