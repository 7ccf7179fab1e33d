-- ===== src/Vimeo/Examples.antt =====
-- Uploads to Vimeo, as instances of the theorems on services/vimeo/vimeo.c.
use libsocialweb_flickr_oaut.Service.{Bytes}
use libsocialweb_flickr_oaut.Prelude.Int.{negsuc, pos, ℤ}
use libsocialweb_flickr_oaut.Vimeo.{
  asks_site, on_added, complete, add_video, verify_chunks, create_album_done, post_file,
  from_placeholder, waiting, get_quota, on_created, on_ticket, Reply, create_album, get_ticket,
  asks, upload_video, chain, collections_create, upload_get_quota, UploadCtx,
}
use libsocialweb_flickr_oaut.Dict.{lookup, Dict}
use Prim.Native.Char.{code}
use Prim.Native.String.append
use Prim.Native.String.{[] as no_text, ◌∷◌ as char_cons, ◌++◌ as str_append}
use libsocialweb_flickr_oaut.Prelude.{
  arith, drop, ◌∙◌, ◌≤◌, ap, str_eq, ◌++◌, if◌then◌else◌, Option, ◌≡◌, length, String, none, some,
  refl, ◌∷◌, [],
}
use libsocialweb_flickr_oaut.Vimeo.Chain.{
  collection_calls, good_upload, good, described, CompletesWith,
}
use libsocialweb_flickr_oaut.Vimeo.Ends.{upload_ends, quota_lem}
use libsocialweb_flickr_oaut.Vimeo.Album.{created_album, uses}

-- A number that the tests use
abbrev number : String → ℤ
number text = if str_eq text "100" then pos 100 else (if str_eq text "-1" then negsuc 0 else pos 0)

-- One character, one code
abbrev codes : String → Bytes
codes no_text = []
codes (char_cons c s) = code c ∷ codes s

codes_append : (x y : String) → codes (str_append x y) ≡ codes x ++ codes y
codes_append no_text y = ap codes (append.nil y)
codes_append (char_cons c s) y =
    ap codes (append.cons c s y) ∙ ap (λ cs. code c ∷ cs) (codes_append s y)

-- A document with one value for whatever attribute
abbrev document : String → String → String → Option String
document value element attribute = some value

abbrev fields : Dict String
fields = ("title", "Cat") ∷ ("collection", "vimeo-7") ∷ []

abbrev cat : UploadCtx
cat = record {
  length = 100;
  ticket_id = some "t";
  video_id = some "9";
  title = some "Cat";
  description = none;
  collection_id = some "vimeo-7";
}

good_upload_example :
    CompletesWith
      (chain number codes
        (good (document "100")
          ∷ good (document "t")
          ∷ good (λ element attribute. none)
          ∷ good (document "100")
          ∷ good (document "9")
          ∷ good (document "")
          ∷ good (document "")
          ∷ good (document "")
          ∷ [])
        (upload_video 100 fields, []))
      (get_quota
          ∷ get_ticket
          ∷ post_file "t" (some "t")
          ∷ verify_chunks (some "t")
          ∷ complete (some "t")
          ∷ described (lookup "title" fields) (lookup "description" fields) (some "9")
        ++ collection_calls number codes [] (lookup "collection" fields) (some "9"))
unfolding lookup
good_upload_example =
    good_upload number codes 100 100 fields [] (document "100") (document "t") (document "100")
      (document "9") (document "") (document "") (document "") "100" "t" "t" "100" "9" refl refl
      (omega arith) (omega arith) refl refl refl refl refl refl

upload_ends_example :
    (length (chain number codes [] (upload_video 100 fields, [])).requests ≤ 8)
    × (8 ≤ length {A = Reply} []
        → ¬ ((chain number codes [] (upload_video 100 fields, [])).ending ≡ waiting))
upload_ends_example = upload_ends number codes 100 fields [] []

-- A negative quota
quota_lem_example :
    upload_get_quota number codes (good (document "-1")) cat ≡ asks get_ticket on_ticket cat
quota_lem_example = quota_lem number codes (document "-1") "-1" cat refl (omega arith) (omega arith)

created_album_example :
    (uses number codes "vimeo-placeholder-7"
        (collections_create (λ n. "7") "Pets" [] 7 []).1
        (record cat { collection_id = some "vimeo-placeholder-7" })
      ≡ (
        asks
            (create_album "Pets" none (some "9"))
            on_created
            (record cat { collection_id = some "vimeo-placeholder-7" }),
        from_placeholder (record { title = "Pets"; description = none; real_id = none }),
      ))
    × (uses number codes "vimeo-placeholder-7"
          (create_album_done number codes
            (good (document "31"))
            (collections_create (λ n. "7") "Pets" [] 7 []).1
            (record cat { collection_id = some "vimeo-placeholder-7" })).1
          cat
        ≡ (asks (add_video (codes "31") (some "9")) on_added cat, asks_site "vimeo-31"))
unfolding collections_create lookup
created_album_example =
    created_album number codes (λ n. "7") "Pets" [] 7 [] (document "31") "31"
      (record cat { collection_id = some "vimeo-placeholder-7" }) cat codes_append refl refl refl

-- What that upload's last call is
last_call :
    collection_calls number codes [] (lookup "collection" fields) (some "9")
    ≡ add_video (codes "7") (some "9") ∷ []
unfolding lookup drop
last_call = refl
