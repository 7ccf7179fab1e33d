-- ===== src/Contact/Values.antt =====
-- What the values of a contact are after a run of `sw_contact_put` (libsocialweb/sw-contact.c).
use mathlib.Core.List.{append-nil, append_assoc}
use libsocialweb_flickr_oaut.Dict.{insert-IsTable, IsTable, lookup, lookup-insert}
use libsocialweb_flickr_oaut.Contact.{append_value, put, Contact, get_all}
use libsocialweb_flickr_oaut.Prelude.{
  refl, sym, ◌∙◌, eq_iff, ap, arith, true, ◌||◌, none, str_eq, ◌++◌, false, if◌then◌else◌, ◌≡◌,
  Bool, some, ◌∷◌, [], Option, String, List,
}
use libsocialweb_flickr_oaut.Prelude.Int.{ℤ}

-- The puts of a run, each with the time of its call, its key and its value.
abbrev pub Put : Type 0
Put = ℤ × String × Option String

unfoldable pub put_all : List Put → Contact → Contact
put_all [] contact = contact
put_all ((now, key, value) ∷ puts) contact = put_all puts (put now key value contact).0

-- The texts of a run that go to one key, in order.
unfoldable pub texts_of : String → List Put → List String
texts_of key [] = []
texts_of key ((now, j, none) ∷ puts) = texts_of key puts
texts_of key ((now, j, some value) ∷ puts) =
    let rest = texts_of key puts in if str_eq j key then value ∷ rest else rest

-- A put of the run, of whatever value, is for the key.
unfoldable pub mentions : String → List Put → Bool
mentions key [] = false
mentions key ((now, j, value) ∷ puts) = str_eq j key || mentions key puts

-- The array of a key after a run, from the array before it: NULL only where there was none and the
-- run did not mention the key.
unfoldable pub array_after : Option (List String) → Bool → List String → Option (List String)
array_after none false texts = none
array_after none true texts = some texts
array_after (some old) named texts = some (old ++ texts)

-- One more put, with or without a text, before the rest of a run.
array_after-put :
    (o : Option (List String)) (here named : Bool) (value : Option String) (texts : List String)
    → array_after (if here then some (append_value o value) else o) named texts
      ≡ array_after o
          (here || named)
          (elim value [ none ↦ texts | some v ↦ if here then v ∷ texts else texts ])
unfolding array_after append_value
array_after-put none false named none texts = refl
array_after-put none false named (some v) texts = refl
array_after-put none true false none texts = refl
array_after-put none true false (some v) texts = refl
array_after-put none true true none texts = refl
array_after-put none true true (some v) texts = refl
array_after-put (some old) false named none texts = refl
array_after-put (some old) false named (some v) texts = refl
array_after-put (some old) true named none texts = refl
array_after-put (some old) true named (some v) texts = ap some (append_assoc old (v ∷ []) texts)

array_after_nothing : (o : Option (List String)) → o ≡ array_after o false []
unfolding array_after
array_after_nothing none = refl
array_after_nothing (some old) = ap some (sym (append-nil old))

pub get_all-put :
    (now : ℤ) (key : String) (value : Option String) (contact : Contact) (j : String)
    → get_all (put now key value contact).0 j
      ≡ (if str_eq key j then some (append_value (get_all contact j) value) else get_all contact j)
unfolding get_all put
get_all-put now key value contact j = ground (
  arith,
  lookup-insert key j (append_value (lookup key contact.hash) value) contact.hash,
  eq_iff key j,
)

pub put-IsTable :
    (now : ℤ) (key : String) (value : Option String) (c : Contact)
    → IsTable c.hash
    → IsTable (put now key value c).0.hash
unfolding put
put-IsTable now key value c t = insert-IsTable key _ c.hash t

-- After any run of puts, the array of a key is the one before the run followed by the run's non-NULL
-- values for that key, in order. There is none exactly where there was none and no put was for the
-- key: a NULL value alone leaves an array without texts.
pub get_all-put_all :
    (puts : List Put) (contact : Contact) (key : String)
    → get_all (put_all puts contact) key
      ≡ array_after (get_all contact key) (mentions key puts) (texts_of key puts)
unfolding put_all mentions texts_of
get_all-put_all [] contact key = array_after_nothing (get_all contact key)
get_all-put_all ((now, j, none) ∷ puts) contact key =
    get_all-put_all puts (put now j none contact).0 key
    ∙ rw (get_all-put now j none contact key) (
        array_after-put (get_all contact key) (str_eq j key) (mentions key puts) none
          (texts_of key puts))
get_all-put_all ((now, j, some value) ∷ puts) contact key =
    get_all-put_all puts (put now j (some value) contact).0 key
    ∙ rw (get_all-put now j (some value) contact key) (
        array_after-put (get_all contact key) (str_eq j key) (mentions key puts) (some value)
          (texts_of key puts))
