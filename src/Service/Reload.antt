-- ===== src/Service/Reload.antt =====
-- The ban list survives a restart (libsocialweb/sw-service.c, libsocialweb/sw-banned.c).
use mathlib.Core.Path.{subst}
use mathlib.Core.List.{append_assoc, append-nil}
use libsocialweb_flickr_oaut.Prelude.{
  length, none, Option, Bool, ℕ, ◌||◌, inr, arith, refl, inl, ap, false, ◌↔◌, some, Bool-cases, [],
  ◌==◌, ◌∙◌, true, ◌∷◌, ◌++◌, All, sym, ◌≡◌, List,
}
use libsocialweb_flickr_oaut.Set.{set_new, contains, set_as_list, set_has, set_add, replace}
use libsocialweb_flickr_oaut.Set.Laws.{contains-add_each, contains-replace, IsEquivalence}
use libsocialweb_flickr_oaut.Service.{
  ban_load, is_uid_banned, constructed, Service, hide_item, write_lines, read_lines, Bytes,
  bytes_eq,
}

bytes_eq_iff : (a b : Bytes) → (bytes_eq a b ≡ true) ↔ (a ≡ b)
unfolding bytes_eq
bytes_eq_iff [] [] = (λ h. refl, λ h. refl)
bytes_eq_iff [] (y ∷ ys) = ground arith
bytes_eq_iff (x ∷ xs) [] = ground arith
bytes_eq_iff (x ∷ xs) (y ∷ ys) = ground (arith, bytes_eq_iff xs ys)

pub bytes_eq-IsEquivalence : IsEquivalence bytes_eq
bytes_eq-IsEquivalence = record {
  reflexive = λ a. (bytes_eq_iff a a).1 refl;
  symmetric = λ a b h. (bytes_eq_iff b a).1 (sym ((bytes_eq_iff a b).0 h));
  transitive = λ a b c h k. (bytes_eq_iff a c).1 ((bytes_eq_iff a b).0 h ∙ (bytes_eq_iff b c).0 k);
}

-- A uid with no line feed in it.
abbrev pub IsLine : Bytes → Type 0
IsLine u = All (λ b. (b == 10) ≡ false) u

read_line :
    (line u rest : Bytes)
    → IsLine u
    → read_lines line (u ++ 10 ∷ rest) ≡ (line ++ u) ∷ read_lines [] rest
unfolding read_lines
read_line line [] rest h = ap (λ l. l ∷ read_lines [] rest) (sym (append-nil line))
read_line line (b ∷ u) rest h =
    ground (arith, read_line (line ++ b ∷ []) u rest h.1, append_assoc line (b ∷ []) u)

-- What is written line by line is read back.
pub read_lines-write_lines : (us : List Bytes) → All IsLine us → read_lines [] (write_lines us) ≡ us
unfolding write_lines
read_lines-write_lines [] h = unfold read_lines in refl
read_lines-write_lines (u ∷ us) h =
    read_line [] u (write_lines us) h.0 ∙ ap (◌∷◌ u) (read_lines-write_lines us h.1)

-- `hide_item` for each uid, with the file writable.
unfoldable pub hide_all : List Bytes → Service → Service
unfolding hide_item
hide_all [] s = s
hide_all (u ∷ us) s = hide_all us (hide_item true u s)

All-replace :
    (ys : List Bytes) (u : Bytes) → All IsLine ys → IsLine u → All IsLine (replace bytes_eq ys u)
unfolding replace
All-replace [] u a h = (h, tt)
All-replace (y ∷ ys) u a h = elim (Bool-cases (bytes_eq y u)) [
  | inl same ↦ rw (same, replace) (h, a.1)
  | inr other ↦ rw (other, replace) (a.0, All-replace ys u a.1 h)
]

-- What the file holds is what the table holds.
pub record IsSaved (s : Service) : Type 0 where
  pub lines : All IsLine s.banned_uids.keys
  pub saved : s.file ≡ some (write_lines s.banned_uids.keys)

pub hide_item-IsSaved :
    (u : Bytes) (s : Service)
    → IsLine u
    → All IsLine s.banned_uids.keys
    → IsSaved (hide_item true u s)
unfolding hide_item set_add set_as_list
hide_item-IsSaved u s h a = record { lines = All-replace s.banned_uids.keys u a h; saved = refl }

hide_all-IsSaved :
    (us : List Bytes) (s : Service) → All IsLine us → IsSaved s → IsSaved (hide_all us s)
unfolding hide_all
hide_all-IsSaved [] s h i = i
hide_all-IsSaved (u ∷ us) s h i =
    hide_all-IsSaved us (hide_item true u s) h.1 (hide_item-IsSaved u s h.0 i.lines)

reload_banned :
    (s : Service) (z : Bytes) → IsSaved s → is_uid_banned (constructed s.file) z ≡ is_uid_banned s z
unfolding constructed is_uid_banned set_has set_new contains
reload_banned s z i =
    rw (i.saved, ban_load)
      (rw (read_lines-write_lines s.banned_uids.keys i.lines)
        (ground (arith, contains-add_each bytes_eq-IsEquivalence set_new s.banned_uids.keys z)))

banned-hide_all :
    (us : List Bytes) (s : Service) (z : Bytes)
    → is_uid_banned (hide_all us s) z ≡ contains bytes_eq us z || is_uid_banned s z
unfolding hide_all is_uid_banned set_has set_add contains
banned-hide_all [] s z = refl
banned-hide_all (u ∷ us) s z = ground (
  arith,
  banned-hide_all us (hide_item true u s) z,
  contains-replace bytes_eq-IsEquivalence s.banned_uids.keys u z,
)

-- After one or more uids without line feeds are hidden in a service that bans no uid with a line feed,
-- with the file writable, a service that is started from the file bans exactly those uids and the ones
-- that were banned before.
pub hide_all_survives :
    (u : Bytes) (us : List Bytes) (s : Service) (z : Bytes)
    → All IsLine (u ∷ us)
    → All IsLine s.banned_uids.keys
    → is_uid_banned (constructed (hide_all us (hide_item true u s)).file) z
      ≡ contains bytes_eq (u ∷ us) z || is_uid_banned s z
unfolding hide_all
hide_all_survives u us s z h a =
    let saved = hide_all-IsSaved us (hide_item true u s) h.1 (hide_item-IsSaved u s h.0 a) in
    reload_banned (hide_all us (hide_item true u s)) z saved ∙ banned-hide_all (u ∷ us) s z

IsLine-append : (u : Bytes) (b : ℕ) → IsLine u → (b == 10) ≡ false → IsLine (u ++ b ∷ [])
IsLine-append [] b h k = (k, tt)
IsLine-append (x ∷ u) b h k = (h.0, IsLine-append u b h.1 k)

read_lines-IsLine : (line file : Bytes) → IsLine line → All IsLine (read_lines line file)
unfolding read_lines
read_lines-IsLine line [] h = elim (Bool-cases (length line == 0)) [
  | inl empty ↦ rw (empty, read_lines) tt
  | inr some_bytes ↦ rw (some_bytes, read_lines) (h, tt)
]
read_lines-IsLine line (b ∷ bs) h = elim (Bool-cases (b == 10)) [
  | inl ends ↦ rw (ends, read_lines) (h, read_lines-IsLine [] bs tt)
  | inr goes_on ↦
      rw (goes_on, read_lines)
        (read_lines-IsLine (line ++ b ∷ []) bs (IsLine-append line b h goes_on))
]

not_among :
    (ys : List Bytes) (u : Bytes) → ¬ IsLine u → All IsLine ys → contains bytes_eq ys u ≡ false
unfolding contains
not_among [] u n a = refl
not_among (y ∷ ys) u n a = elim (Bool-cases (bytes_eq y u)) [
  | inl same ↦ absurd (n (subst IsLine ((bytes_eq_iff y u).0 same) a.0))
  | inr other ↦ rw other (not_among ys u n a.1)
]

-- A uid with a line feed in it is banned as soon as it is hidden, but by no service that is started
-- from a file, whatever the file holds: it was written as several lines.
pub line_feed_forgotten :
    (u : Bytes) (writable : Bool) (s : Service) (file : Option Bytes)
    → ¬ IsLine u
    → (is_uid_banned (hide_item writable u s) u ≡ true)
      × (is_uid_banned (constructed file) u ≡ false)
unfolding hide_item constructed is_uid_banned set_has set_add ban_load set_new contains
line_feed_forgotten u writable s none n = (
  ground (
    arith,
    contains-replace bytes_eq-IsEquivalence s.banned_uids.keys u u,
    (bytes_eq_iff u u).1 refl,
  ),
  refl,
)
line_feed_forgotten u writable s (some file) n = (
  ground (
    arith,
    contains-replace bytes_eq-IsEquivalence s.banned_uids.keys u u,
    (bytes_eq_iff u u).1 refl,
  ),
  ground (
    arith,
    contains-add_each bytes_eq-IsEquivalence set_new (read_lines [] file) u,
    not_among (read_lines [] file) u n (read_lines-IsLine [] file tt),
  ),
)
