-- ===== src/Keystore/Lookup.antt =====
-- The lookups of libsocialweb-keystore/sw-keystore.c, with and without the kernel's keyring. The payload
-- that the kernel has for a service is an argument, and so is the text of bytes that `g_strndup` copies.
pub mod Answers
mod Examples
use libsocialweb_flickr_oaut.Prelude.{
  false, true, ◌==◌, [], if◌then◌else◌, List, some, ◌∷◌, String, none, Bool, Option,
}
use libsocialweb_flickr_oaut.Dict.{insert, lookup, Dict}
use libsocialweb_flickr_oaut.Service.{Bytes}
use libsocialweb_flickr_oaut.Keystore.{KeyData}

-- `memchr` for a line feed: what stands before the first, and after it
unfoldable pub split_line : Bytes → Option (Bytes × Bytes)
split_line [] = none
split_line (c ∷ cs) =
    let rest = split_line cs in
    if c == 10 then some ([], cs) else (elim rest [ none ↦ none | some (x, y) ↦ some (c ∷ x, y) ])

-- What a lookup answers, with the keys as they are then
pub record Answer : Type 0 where
  pub known : Bool
  pub keys : KeyData
  pub hash : Dict KeyData

abbrev pub no_keys : KeyData
no_keys = record { key = none; secret = none }

module _ (text : Bytes → String) where
  -- An empty line is NULL.
  unfoldable pub line_value : Bytes → Option String
  line_value [] = none
  line_value (c ∷ cs) = some (text (c ∷ cs))

  -- The payload of a key in the kernel
  unfoldable pub kernel_data : Bytes → KeyData
  unfolding split_line line_value
  kernel_data payload = elim (split_line payload) [
    | none ↦ record { key = line_value payload; secret = none }
    | some (x, y) ↦ record { key = line_value x; secret = line_value y }
  ]

  -- `lookup_key_in_kernel`
  unfoldable pub lookup_key_in_kernel :
      (String → Option Bytes) → String → Dict KeyData → Option Answer
  unfolding kernel_data
  lookup_key_in_kernel kernel service hash = elim (kernel service) [
    | none ↦ none
    | some payload ↦ some (record {
      known = true;
      keys = kernel_data payload;
      hash = insert service (kernel_data payload) hash;
    })
  ]

  -- `sw_keystore_get_key_secret`; without kernel keys, the kernel has none.
  unfoldable pub get_key_secret : (String → Option Bytes) → String → Dict KeyData → Answer
  unfolding lookup_key_in_kernel
  get_key_secret kernel service hash = elim (lookup service hash) [
    | some found ↦ record { known = true; keys = found; hash = hash }
    | none ↦ elim (lookup_key_in_kernel kernel service hash) [
      | some answer ↦ answer
      | none ↦ record { known = false; keys = no_keys; hash = hash }
    ]
  ]

  -- `sw_keystore_get_key`
  unfoldable pub get_key : (String → Option Bytes) → String → Dict KeyData → Option String
  unfolding get_key_secret
  get_key kernel service hash = (get_key_secret kernel service hash).keys.key

  -- Lookups one after the other, each with what the kernel has then
  unfoldable pub get_keys : List ((String → Option Bytes) × String) → Dict KeyData → Dict KeyData
  unfolding get_key_secret
  get_keys [] hash = hash
  get_keys ((kernel, service) ∷ lookups) hash =
      get_keys lookups (get_key_secret kernel service hash).hash
