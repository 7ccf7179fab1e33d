-- ===== src/Keystore/Directories.antt =====
-- Which file a service's keys come from (libsocialweb-keystore/sw-keystore.c).
use libsocialweb_flickr_oaut.Prelude.{
  str_eq, inr, inl, Bool-cases, String, Option, none, some, List, [], ◌∷◌, ◌++◌, Bool, true, false,
  not, ◌||◌, ◌≡◌, refl, if◌then◌else◌, arith, ◌∙◌, ap,
}
use libsocialweb_flickr_oaut.Dict.{Dict, insert, lookup, lookup-insert}
use libsocialweb_flickr_oaut.Keystore.{
  KeyData, Entry, key_data, load_entries, load_keys_from_dir, load_dirs, load_keys,
}

abbrev pub second_of : Option KeyData → Option KeyData → Option KeyData
second_of old none = old
second_of old (some new) = some new

module _ (strip : String → String) where
  load_entries-error :
      (entries : List Entry) (hash : Dict KeyData) → load_entries strip true entries hash ≡ hash
  unfolding load_entries
  load_entries-error [] hash = refl
  load_entries-error (e ∷ entries) hash = ground (arith, load_entries-error entries hash)

  load_entries-unreadable :
      (before after : List Entry) (has_error : Bool) (e : Entry) (hash : Dict KeyData)
      → e.is_regular ≡ true
      → e.is_backup ≡ false
      → e.is_readable ≡ false
      → load_entries strip has_error (before ++ e ∷ after) hash
        ≡ load_entries strip has_error before hash
  unfolding load_entries
  load_entries-unreadable [] after has_error e hash r b u =
      rw (r, b, u)
        (elim (Bool-cases has_error) [
          | inl set ↦ rw set (load_entries-error after hash)
          | inr unset ↦ rw unset (load_entries-error after hash)
        ])
  load_entries-unreadable (x ∷ before) after has_error e hash r b u =
      load_entries-unreadable before after _ e _ r b u

  -- Once a file of a directory cannot be read, no file that GIO lists after it is loaded, whether it
  -- could be read or not.
  pub unreadable_hides_rest :
      (before after : List Entry) (e : Entry) (hash : Dict KeyData)
      → e.is_regular ≡ true
      → e.is_backup ≡ false
      → e.is_readable ≡ false
      → load_keys_from_dir strip (some (before ++ e ∷ after)) hash
        ≡ load_keys_from_dir strip (some before) hash
  unfolding load_keys_from_dir
  unreadable_hides_rest before after e hash r b u =
      load_entries-unreadable before after false e hash r b u

  -- What the files of a directory say of a name: the keys of a file are its first two lines, a folder or
  -- a backup is passed over, and the list counts up to the first file that cannot be read.
  abbrev pub found_among : List Entry → String → Option KeyData
  found_among [] name = none
  found_among (e ∷ entries) name =
      if not e.is_regular || e.is_backup
      then found_among entries name
      else (if not e.is_readable
          then none
          else second_of (if str_eq e.name name then some (key_data strip e) else none)
              (found_among entries name))

  abbrev pub found_in : Option (List Entry) → String → Option KeyData
  found_in none name = none
  found_in (some entries) name = found_among entries name

  -- The last directory that has the name
  abbrev pub last_found : List (Option (List Entry)) → String → Option KeyData → Option KeyData
  last_found [] name found = found
  last_found (dir ∷ dirs) name found = last_found dirs name (second_of found (found_in dir name))

  lookup-found_among :
      (entries : List Entry) (hash : Dict KeyData) (name : String)
      → lookup name (load_entries strip false entries hash)
        ≡ second_of (lookup name hash) (found_among entries name)
  unfolding load_entries
  lookup-found_among [] hash name = refl
  lookup-found_among (e ∷ entries) hash name = ground (
    arith,
    load_entries-error entries hash,
    lookup-found_among entries hash name,
    lookup-found_among entries (insert e.name (key_data strip e) hash) name,
    lookup-insert e.name name (key_data strip e) hash,
  )

  lookup-found_in :
      (dir : Option (List Entry)) (hash : Dict KeyData) (name : String)
      → lookup name (load_keys_from_dir strip dir hash)
        ≡ second_of (lookup name hash) (found_in dir name)
  unfolding load_keys_from_dir
  lookup-found_in none hash name = refl
  lookup-found_in (some entries) hash name = lookup-found_among entries hash name

  lookup-last_found :
      (dirs : List (Option (List Entry))) (hash : Dict KeyData) (name : String)
      → lookup name (load_dirs strip dirs hash) ≡ last_found dirs name (lookup name hash)
  unfolding load_dirs
  lookup-last_found [] hash name = refl
  lookup-last_found (dir ∷ dirs) hash name =
      lookup-last_found dirs (load_keys_from_dir strip dir hash) name
      ∙ ap (last_found dirs name) (lookup-found_in dir hash name)

  pub lookup-load_keys :
      (system : List (Option (List Entry))) (user : Option (List Entry)) (name : String)
      → lookup name (load_keys strip system user)
        ≡ second_of (last_found system name none) (found_in user name)
  unfolding load_keys lookup
  lookup-load_keys system user name =
      lookup-found_in user (load_dirs strip system []) name
      ∙ ap (λ o. second_of o (found_in user name)) (lookup-last_found system [] name)
