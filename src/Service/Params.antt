-- ===== src/Service/Params.antt =====
-- Capabilities and parameter names (libsocialweb/sw-service.c).
use libsocialweb_flickr_oaut.Dict.{lookup, Dict}
use libsocialweb_flickr_oaut.Service.{map_params}
use libsocialweb_flickr_oaut.Prelude.{
  refl, eq_iff, arith, if◌then◌else◌, ◌∷◌, [], false, some, str_eq, none, ◌≡◌, All, Option, List,
  String,
}

-- The last value that the calls set under a name.
unfoldable pub last_set : String → List (String × String) → Option String
last_set k [] = none
last_set k ((j, v) ∷ calls) = elim (last_set k calls) [
  | some w ↦ some w
  | none ↦ if str_eq j k then some v else none
]

-- No two entries of a mapping have one name on the service's side.
abbrev pub IsMapping : List (String × String) → Type 0
IsMapping [] = Unit {0}
IsMapping ((l, s) ∷ rest) = All (λ e. str_eq s e.1 ≡ false) rest × IsMapping rest

other_name :
    (service_param : String) (mapping : List (String × String)) (parameters : Dict String)
    → All (λ e. str_eq service_param e.1 ≡ false) mapping
    → last_set service_param (map_params mapping parameters) ≡ none
unfolding map_params last_set
other_name s [] parameters a = refl
other_name s ((l, t) ∷ mapping) parameters a =
    ground (arith, other_name s mapping parameters a.1, eq_iff s t, eq_iff t s)

-- The entry of the mapping with a service-side name.
abbrev pub mapped_from : String → List (String × String) → Option String
mapped_from k [] = none
mapped_from k ((l, s) ∷ rest) = if str_eq s k then some l else mapped_from k rest

abbrev pub at_key : Dict String → Option String → Option String
at_key parameters none = none
at_key parameters (some l) = lookup l parameters

-- For a mapping whose service-side names are distinct, `sw_service_map_params` sets a name exactly if
-- the mapping has it and the parameter mapped to it is given, and then to that parameter's value.
pub map_params_lem :
    (k : String) (mapping : List (String × String)) (parameters : Dict String)
    → IsMapping mapping
    → last_set k (map_params mapping parameters) ≡ at_key parameters (mapped_from k mapping)
unfolding map_params last_set
map_params_lem k [] parameters d = refl
map_params_lem k ((l, s) ∷ mapping) parameters d = ground (
  arith,
  map_params_lem k mapping parameters d.1,
  other_name s mapping parameters d.0,
  eq_iff s k,
)
