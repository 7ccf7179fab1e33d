-- ===== src/Vimeo/Album.antt =====
-- The life of an album that a client creates, from its placeholder to the site's album
-- (services/vimeo/vimeo.c).
use libsocialweb_flickr_oaut.Dict.{insert, Dict, lookup-insert, lookup}
use libsocialweb_flickr_oaut.Vimeo.{
  Reply, collections_create, create_album_done, from_placeholder, on_created, on_added,
  create_album, add_video, asks_site, asks, Details, Placeholder, Effect, collections_get_details,
  UploadCtx, add_video_to_album, add_to, Albums,
}
use libsocialweb_flickr_oaut.Service.{Bytes}
use libsocialweb_flickr_oaut.Prelude.Int.{ℤ}
use libsocialweb_flickr_oaut.Prelude.{
  eq_iff, ◌∙◌, ℕ, Option, arith, length, ◌++◌, ◌≡◌, String, none, some, false, refl, length-append,
  drop-append,
}
use Prim.Native.String.{◌++◌ as str_append}

-- What an upload to a collection and a question for its details come to.
abbrev pub uses : (String → ℤ) → (String → Bytes) → String → Albums → UploadCtx → Effect × Details
uses strtoll bytes id albums ctx =
    (add_video_to_album strtoll bytes albums id ctx, collections_get_details id albums)

module _ (strtoll : String → ℤ) (bytes : String → Bytes) where
  -- The album's id without the prefix
  add_to-prefix :
      (album : String) (ctx : UploadCtx)
      → ((x y : String) → bytes (str_append x y) ≡ bytes x ++ bytes y)
      → length (bytes "vimeo-") ≡ 6
      → add_to strtoll bytes (str_append "vimeo-" album) ctx
        ≡ asks (add_video (bytes album) ctx.video_id) on_added ctx
  unfolding add_to
  add_to-prefix album ctx joined six = rw (joined "vimeo-" album) (
      ground (
        arith,
        six,
        length-append (bytes "vimeo-") (bytes album),
        drop-append (bytes "vimeo-") (bytes album),
      ))

  uses-waiting :
      (id title : String) (description : Option String) (albums : Albums) (ctx : UploadCtx)
      → let p : Placeholder = record { title = title; description = description; real_id = none } in
        lookup id albums ≡ some p
        → uses strtoll bytes id albums ctx
          ≡ (asks (create_album title description ctx.video_id) on_created ctx, from_placeholder p)
  unfolding add_video_to_album collections_get_details
  uses-waiting id title description albums ctx known =
      rw (known, add_video_to_album, collections_get_details) refl

  uses-created :
      (id real : String) (albums : Albums) (ctx : UploadCtx) (p : Placeholder)
      → lookup id albums ≡ some p
      → p.real_id ≡ some real
      → uses strtoll bytes id albums ctx ≡ (add_to strtoll bytes real ctx, asks_site real)
  unfolding add_video_to_album collections_get_details
  uses-created id real albums ctx p known made =
      rw (known, made, add_video_to_album, collections_get_details) refl

  -- The placeholder has the album's id when `_create_album_cb` has run.
  lookup-create_album_done :
      (root : String → String → Option String) (albums : Albums) (ctx : UploadCtx) (p : Placeholder)
      (id album : String)
      → ctx.collection_id ≡ some id
      → lookup id albums ≡ some p
      → root "album" "id" ≡ some album
      → lookup id
          (create_album_done strtoll bytes
            (record { failed = false; root = some root })
            albums
            ctx).1
        ≡ some (record p { real_id = some (str_append "vimeo-" album) })
  unfolding create_album_done
  lookup-create_album_done root albums ctx p id album to known given =
      rw (to, known, given, create_album_done)
        (lookup-insert id id (record p { real_id = some (str_append "vimeo-" album) }) albums
          ∙ ground (arith, eq_iff id id))

  -- With an encoding that takes a joined text to the joined bytes and "vimeo-" to six bytes: a
  -- collection that a client creates is known by its placeholder, and the first upload to it creates
  -- an album of that name and description; when the site has answered with the album's id, later
  -- uploads are added to that album, and the details asked of the site are that album's.
  pub created_album :
      (printed : ℕ → String) (name : String) (parameters : Dict String) (random : ℕ)
      (albums : Albums) (root : String → String → Option String) (album : String)
      (ctx later : UploadCtx)
      → ((x y : String) → bytes (str_append x y) ≡ bytes x ++ bytes y)
      → length (bytes "vimeo-") ≡ 6
      → root "album" "id" ≡ some album
      → ctx.collection_id ≡ some (collections_create printed name parameters random albums).0
      → let (id, made) = collections_create printed name parameters random albums in
        let reply : Reply = record { failed = false; root = some root } in
        (uses strtoll bytes id made ctx ≡ (
          asks (create_album name (lookup "description" parameters) ctx.video_id) on_created ctx,
          from_placeholder (record {
            title = name;
            description = lookup "description" parameters;
            real_id = none;
          }),
        ))
        × (uses strtoll bytes id (create_album_done strtoll bytes reply made ctx).1 later ≡ (
          asks (add_video (bytes album) later.video_id) on_added later,
          asks_site (str_append "vimeo-" album),
        ))
  unfolding collections_create
  created_album printed name parameters random albums root album ctx later joined six given to =
      let id = str_append "vimeo-placeholder-" (printed random) in
      let p : Placeholder = record {
        title = name;
        description = lookup "description" parameters;
        real_id = none;
      } in
      let known = lookup-insert id id p albums ∙ ground (arith, eq_iff id id) in
      let done = lookup-create_album_done root (insert id p albums) ctx p id album to known given in
      (
        uses-waiting id name (lookup "description" parameters) (insert id p albums) ctx known,
        uses-created id (str_append "vimeo-" album) _ later _ done refl
            ∙ rw (add_to-prefix album later joined six) refl,
      )
