-- ===== src/CallList.antt =====
-- libsocialweb/sw-call-list.c: the outstanding calls of a service. A call that dies takes itself
-- off by a weak reference, which is an entry of `weak`; `cancelled` records the calls of
-- `rest_proxy_call_cancel`.
pub mod Weak
mod Examples
use libsocialweb_flickr_oaut.Prelude.{
  ◌||◌, ◌++◌, ◌==◌, length, if◌then◌else◌, false, ◌∷◌, Bool, [], ℕ, List,
}

pub record CallList : Type 0 where
  pub calls : List ℕ
  -- the calls with a weak reference to this list
  pub weak : List ℕ
  pub cancelled : List ℕ

-- `g_list_remove`, `g_list_delete_link` at a found link, and `g_object_weak_unref`: one entry goes.
unfoldable pub remove_one : ℕ → List ℕ → List ℕ
remove_one c [] = []
remove_one c (x ∷ xs) = if x == c then xs else x ∷ remove_one c xs

-- `g_list_find`
unfoldable pub listed : ℕ → List ℕ → Bool
listed c [] = false
listed c (x ∷ xs) = x == c || listed c xs

unfoldable pub new : CallList
new = record { calls = []; weak = []; cancelled = [] }

unfoldable pub add : ℕ → CallList → CallList
add c s = record s { calls = c ∷ s.calls; weak = c ∷ s.weak }

unfoldable pub remove : ℕ → CallList → CallList
remove c s =
    if listed c s.calls
    then record s { calls = remove_one c s.calls; weak = remove_one c s.weak }
    else s

-- `call_weak_notify`: GLib drops the weak reference that it reports.
unfoldable pub call_died : ℕ → CallList → CallList
call_died c s =
    if listed c s.weak
    then record s { calls = remove_one c s.calls; weak = remove_one c s.weak }
    else s

unfoldable pub is_empty : CallList → Bool
is_empty s = length s.calls == 0

-- The loop of `sw_call_list_cancel_all`.
unfoldable pub cancel_each : List ℕ → CallList → CallList
cancel_each [] s = record s { calls = [] }
cancel_each (c ∷ rest) s =
    cancel_each rest
      (record s { calls = rest; weak = remove_one c s.weak; cancelled = s.cancelled ++ c ∷ [] })

-- Also `sw_call_list_free`, which then frees the list.
unfoldable pub cancel_all : CallList → CallList
cancel_all s = cancel_each s.calls s
