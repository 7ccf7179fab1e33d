-- ===== src/Keystore/Lookup/Answers.antt =====
-- Which keys a service gets (libsocialweb-keystore/sw-keystore.c).
use libsocialweb_flickr_oaut.Keystore.{load_keys, Entry, KeyData}
use libsocialweb_flickr_oaut.Keystore.Lookup.{
  line_value, kernel_data, lookup_key_in_kernel, split_line, get_keys, get_key_secret,
}
use libsocialweb_flickr_oaut.Service.{Bytes}
use libsocialweb_flickr_oaut.Prelude.{
  eq_iff, inl, ◌||◌, inr, [], Option-cases, arith, ◌==◌, ◌≡◌, ◌∷◌, Option, Bool, List, String, none,
  some, true, false, refl, ◌++◌, ◌∙◌,
}
use libsocialweb_flickr_oaut.Dict.{insert, lookup, Dict, lookup-insert}
use libsocialweb_flickr_oaut.Keystore.Directories.{
  second_of, last_found, found_in, lookup-load_keys,
}

module _ (text : Bytes → String) where
  -- A lookup changes nothing for a service that has keys.
  lookup-get_key_secret :
      (kernel : String → Option Bytes) (service name : String) (hash : Dict KeyData) (d : KeyData)
      → lookup name hash ≡ some d
      → lookup name (get_key_secret text kernel service hash).hash ≡ some d
  unfolding get_key_secret lookup_key_in_kernel
  lookup-get_key_secret kernel service name hash d found =
      elim (Option-cases (lookup service hash)) [
        | inr (e, there) ↦ rw (there, get_key_secret) found
        | inl missing ↦ elim (Option-cases (kernel service)) [
          | inl nothing ↦ rw (missing, nothing, get_key_secret) found
          | inr (payload, given) ↦
              rw (missing, given, get_key_secret)
                (ground (
                  arith,
                  lookup-insert service name (kernel_data text payload) hash,
                  eq_iff service name,
                  missing,
                  found,
                ))
        ]
      ]

  lookup-get_keys :
      (lookups : List ((String → Option Bytes) × String)) (name : String) (hash : Dict KeyData)
      (d : KeyData)
      → lookup name hash ≡ some d
      → lookup name (get_keys text lookups hash) ≡ some d
  unfolding get_keys
  lookup-get_keys [] name hash d found = found
  lookup-get_keys ((kernel, service) ∷ lookups) name hash d found =
      lookup-get_keys lookups name (get_key_secret text kernel service hash).hash d
        (lookup-get_key_secret kernel service name hash d found)

  get_key_secret_there :
      (kernel : String → Option Bytes) (name : String) (hash : Dict KeyData) (d : KeyData)
      → lookup name hash ≡ some d
      → get_key_secret text kernel name hash ≡ record { known = true; keys = d; hash = hash }
  unfolding get_key_secret
  get_key_secret_there kernel name hash d found = rw (found, get_key_secret) refl

  -- A service whose keys are in the user's directory has these, and else those of the last of the
  -- system's directories that has them, whatever lookups come before and whatever the kernel has. Of each
  -- directory only those files count that GIO lists before the first that cannot be read; of several of
  -- one name there, the last.
  pub configured_keys :
      (strip : String → String) (system : List (Option (List Entry))) (user : Option (List Entry))
      (lookups : List ((String → Option Bytes) × String)) (kernel : String → Option Bytes)
      (name : String) (d : KeyData)
      → second_of (last_found strip system name none) (found_in strip user name) ≡ some d
      → let hash = get_keys text lookups (load_keys strip system user) in
        get_key_secret text kernel name hash ≡ record { known = true; keys = d; hash = hash }
  configured_keys strip system user lookups kernel name d given =
      get_key_secret_there kernel name (get_keys text lookups (load_keys strip system user)) d (
        lookup-get_keys lookups name (load_keys strip system user) d
          (lookup-load_keys strip system user name ∙ given))

  has_line : Bytes → Bool
  has_line [] = false
  has_line (c ∷ cs) = (c == 10) || has_line cs

  -- A payload of two lines
  split_line-append : (x y : Bytes) → has_line x ≡ false → split_line (x ++ (10 ∷ y)) ≡ some (x, y)
  unfolding split_line has_line
  split_line-append [] y h = refl
  split_line-append (c ∷ x) y h = ground (arith, h, split_line-append x y)

  kernel_data_lines :
      (x y : Bytes)
      → has_line x ≡ false
      → kernel_data text (x ++ (10 ∷ y))
        ≡ record { key = line_value text x; secret = line_value text y }
  unfolding kernel_data
  kernel_data_lines x y one = rw (split_line-append x y one, kernel_data) refl

  -- A service without keys that the kernel has with a payload of two lines gets these, and an empty
  -- line as NULL; they are kept for later.
  lookup-kernel :
      (kernel : String → Option Bytes) (service : String) (hash : Dict KeyData) (x y : Bytes)
      → lookup service hash ≡ none
      → kernel service ≡ some (x ++ (10 ∷ y))
      → has_line x ≡ false
      → let d : KeyData = record { key = line_value text x; secret = line_value text y } in
        get_key_secret text kernel service hash
        ≡ record { known = true; keys = d; hash = insert service d hash }
  unfolding get_key_secret lookup_key_in_kernel
  lookup-kernel kernel service hash x y missing given one =
      rw (missing, given, kernel_data_lines x y one, get_key_secret) refl
