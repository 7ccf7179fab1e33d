-- ===== src/Item/Ready.antt =====
-- When an item is ready: the count of outstanding image fetches (libsocialweb/sw-item.c).
use mathlib.Core.Path.{ap₂}
use libsocialweb_flickr_oaut.Item.{notify_ready, changed}
use libsocialweb_flickr_oaut.Prelude.Int.{ℤ}
use libsocialweb_flickr_oaut.Item.{Item, Signal, Fetch, image_downloaded, request_image_fetch}
use libsocialweb_flickr_oaut.Prelude.{
  some, refl, ap, ◌∙◌, Bool, false, true, ◌==◌, ltb, ◌&&◌, ◌-◌, ◌≤◌, ◌^◌, map, [], ◌<◌, arith, none,
  suc, if◌then◌else◌, ◌+◌, ◌≡◌, String, ◌∷◌, ◌++◌, Option, ℕ, List,
}

-- How many of the fetches hold the item back.
unfoldable pub delayed : List Fetch → ℕ
delayed [] = 0
delayed (f ∷ fs) = (if f.delays_ready then 1 else 0) + delayed fs

-- How often "notify::ready" is emitted.
unfoldable pub notified : List Signal → ℕ
notified [] = 0
notified (notify_ready ∷ es) = suc (notified es)
notified (changed ∷ es) = notified es

-- `sw_item_request_image_fetch` for each fetch, with the path of its image where the cache has it
unfoldable pub request_all : ℤ → List (Fetch × Option String) → Item → Item × List Signal
unfolding request_image_fetch
request_all now [] item = (item, [])
request_all now ((f, cached) ∷ fs) item =
    let (next, first, download) = request_image_fetch now cached f item in
    let (last, second) = request_all now fs next in (last, first ++ second)

-- The fetches whose image is still to be downloaded
unfoldable pub outstanding : List (Fetch × Option String) → List Fetch
outstanding [] = []
outstanding ((f, none) ∷ fs) = f ∷ outstanding fs
outstanding ((f, some file) ∷ fs) = outstanding fs

-- The downloads end in the order of the list, each with its file or with none.
unfoldable pub complete : ℤ → List (Fetch × Option String) → Item → Item × List Signal
complete now [] item = (item, [])
complete now ((f, file) ∷ rest) item =
    let (next, first) = image_downloaded now f file item in
    let (last, second) = complete now rest next in (last, first ++ second)

pub notified-append : (xs ys : List Signal) → notified (xs ++ ys) ≡ notified xs + notified ys
unfolding notified
notified-append [] ys = omega arith
notified-append (notify_ready ∷ xs) ys = omega (arith, notified-append xs ys)
notified-append (changed ∷ xs) ys = omega (arith, notified-append xs ys)

remaining-image_downloaded :
    (now : ℤ) (f : Fetch) (file : Option String) (item : Item)
    → delayed (f ∷ []) ≤ item.remaining_fetches
    → item.remaining_fetches < 2 ^ 32
    → ((image_downloaded now f file item).0.remaining_fetches
        ≡ item.remaining_fetches - delayed (f ∷ []))
      × (notified (image_downloaded now f file item).1
          ≡ (if f.delays_ready && (item.remaining_fetches == 1) then 1 else 0))
unfolding image_downloaded delayed notified
remaining-image_downloaded now f file item h b = ground arith

-- Of two counts in a row, the one that passes zero tells.
one_tells :
    (c : Bool) (r d : ℕ)
    → (if c then 1 else 0) + d ≤ r
    → (if c && (r == 1) then 1 else 0)
        + (if ltb 0 d && (r - (if c then 1 else 0) == d) then 1 else 0)
      ≡ (if ltb 0 ((if c then 1 else 0) + d) && (r == (if c then 1 else 0) + d) then 1 else 0)
one_tells true r d h = ground arith
one_tells false r d h = ground arith

-- As downloads end, in any order and whether or not they succeed, each one that holds the item back
-- takes one from the count, and "notify::ready" is emitted once, by the last of them if nothing
-- else is outstanding, and otherwise never.
pub complete_lem :
    (now : ℤ) (l : List (Fetch × Option String)) (item : Item)
    → delayed (map (λ e. e.0) l) ≤ item.remaining_fetches
    → item.remaining_fetches < 2 ^ 32
    → ((complete now l item).0.remaining_fetches
        ≡ item.remaining_fetches - delayed (map (λ e. e.0) l))
      × (notified (complete now l item).1 ≡ (
          if ltb 0 (delayed (map (λ e. e.0) l))
            && (item.remaining_fetches == delayed (map (λ e. e.0) l))
          then 1
          else 0))
unfolding complete delayed notified
complete_lem now [] item h b = (omega arith, refl)
complete_lem now ((f, file) ∷ l) item h b =
    let c : ℕ = if f.delays_ready then 1 else 0 in
    let d : ℕ = delayed (map (λ e. e.0) l) in
    let next : Item = (image_downloaded now f file item).0 in
    let here = remaining-image_downloaded now f file item (omega arith) b in
    let down : next.remaining_fetches ≡ item.remaining_fetches - c = omega (arith, here) in
    let there = complete_lem now l next (omega (arith, down)) (omega (arith, down)) in
    (
      omega (arith, down, there),
      notified-append (image_downloaded now f file item).1 (complete now l next).1
          ∙ ap₂ ◌+◌ here.1 (there.1 ∙ ap (λ (r : ℕ). if ltb 0 d && (r == d) then 1 else 0) down)
          ∙ one_tells f.delays_ready item.remaining_fetches d h,
    )
