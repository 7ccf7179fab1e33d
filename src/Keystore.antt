-- ===== src/Keystore.antt =====
-- libsocialweb-keystore/sw-keystore.c: the keys of the services, one file for each in several
-- directories. What GIO says of a directory's files, in the order in which it lists them, and
-- `g_strstrip` are arguments.
pub mod Directories
pub mod Lookup
use libsocialweb_flickr_oaut.Prelude.{
  String, Option, none, some, List, [], ◌∷◌, Bool, true, false, not, ◌||◌, str_eq, if◌then◌else◌,
}
use libsocialweb_flickr_oaut.Dict.{Dict, insert, lookup}

pub record KeyData : Type 0 where
  pub key : Option String
  pub secret : Option String

-- One entry of a directory: its type, whether `g_file_read` opens it, and its first two lines.
pub record Entry : Type 0 where
  pub name : String
  pub is_regular : Bool
  pub is_backup : Bool
  pub is_readable : Bool
  pub first_line : Option String
  pub second_line : Option String

module _ (strip : String → String) where
  unfoldable pub stripped : Option String → Option String
  stripped none = none
  stripped (some line) = if str_eq (strip line) "" then none else some (strip line)

  unfoldable pub key_data : Entry → KeyData
  key_data e = record { key = stripped e.first_line; secret = stripped e.second_line }

  -- The loop of `load_keys_from_dir`; `has_error` says that `error` is set, which nothing clears.
  unfoldable pub load_entries : Bool → List Entry → Dict KeyData → Dict KeyData
  load_entries has_error [] hash = hash
  load_entries has_error (e ∷ entries) hash =
      load_entries
        (if not e.is_regular || e.is_backup then has_error else (has_error || not e.is_readable))
        entries
        (if not e.is_regular || e.is_backup
          then hash
          else (if has_error || not e.is_readable then hash else insert e.name (key_data e) hash))

  -- `load_keys_from_dir`: a directory that cannot be opened has no entries to give.
  unfoldable pub load_keys_from_dir : Option (List Entry) → Dict KeyData → Dict KeyData
  load_keys_from_dir none hash = hash
  load_keys_from_dir (some entries) hash = load_entries false entries hash

  unfoldable pub load_dirs : List (Option (List Entry)) → Dict KeyData → Dict KeyData
  load_dirs [] hash = hash
  load_dirs (dir ∷ dirs) hash = load_dirs dirs (load_keys_from_dir dir hash)

  -- `load_keys`: the system's directories, then the user's.
  unfoldable pub load_keys : List (Option (List Entry)) → Option (List Entry) → Dict KeyData
  load_keys system user = load_keys_from_dir user (load_dirs system [])
