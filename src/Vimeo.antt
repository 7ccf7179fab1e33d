-- ===== src/Vimeo.antt =====
-- services/vimeo/vimeo.c: the upload of a video, a chain of calls of the site. Each callback reads the
-- reply to one call and makes the next. The site's replies and `g_ascii_strtoll` are arguments, as is
-- the encoding of a text in bytes. A reply is what `node_from_call` makes of it and whether the REST
-- library passed an error; a root is the function from an element and an attribute to the value.
pub mod Chain
pub mod Ends
pub mod Album
mod Examples
use libsocialweb_flickr_oaut.Dict.{insert, lookup, Dict}
use Prim.Native.String.{◌++◌ as str_append}
use libsocialweb_flickr_oaut.Prelude.{
  drop, ◌+◌, length, ◌-◌, [], ◌==◌, ltb, ◌^◌, ◌∷◌, if◌then◌else◌, ◌%◌, Option, List, Bool, ℕ,
  String, none, some,
}
use libsocialweb_flickr_oaut.Prelude.Int.{ℤ, pos, negsuc}
use libsocialweb_flickr_oaut.Service.{Bytes}

-- `VimeoAlbumPlaceholder`
pub record Placeholder : Type 0 where
  pub title : String
  pub description : Option String
  pub real_id : Option String

-- `VimeoUploadCtx`; `length` is the size of the mapped file, a `gsize` of 64 bits.
pub record UploadCtx : Type 0 where
  pub length : ℕ
  pub ticket_id : Option String
  pub video_id : Option String
  pub title : Option String
  pub description : Option String
  pub collection_id : Option String

pub data Request : Type 0 where
  get_quota get_ticket : Request
  -- the endpoint and the ticket
  post_file : String → Option String → Request
  verify_chunks complete : Option String → Request
  -- the text and the video
  set_title set_description : String → Option String → Request
  -- the album and the video
  add_video : Bytes → Option String → Request
  create_album : String → Option String → Option String → Request

-- The callback that waits for a reply.
pub data Stage : Type 0 where
  on_quota on_ticket on_file on_verify on_complete on_title on_description on_added on_created :
      Stage

pub record Reply : Type 0 where
  -- `error != NULL`
  pub failed : Bool
  -- none where `node_from_call` sets an error
  pub root : Option (String → String → Option String)

-- What a callback comes to: another call, with the callback that waits for it; a report of -1, after
-- which the context is kept by no one; a report of 100; or an access to memory that is not the text's.
pub data Effect : Type 0 where
  asks : Request → Stage → UploadCtx → Effect
  fails completes crashes : Effect

abbrev pub Albums : Type 0
Albums = Dict Placeholder

-- A `gint64` that is compared with a `gsize`
unfoldable pub to_gsize : ℤ → ℕ
to_gsize (pos n) = n % 2 ^ 64
to_gsize (negsuc n) = (2 ^ 64 - (n + 1) % 2 ^ 64) % 2 ^ 64

-- `_vimeo_collections_create`, with what `%u` prints of the random number; the id goes to the caller.
unfoldable pub collections_create :
    (ℕ → String) → String → Dict String → ℕ → Albums → String × Albums
collections_create printed name parameters random albums =
    let id = str_append "vimeo-placeholder-" (printed random) in
    (
      id,
      insert id
          (record { title = name; description = lookup "description" parameters; real_id = none })
          albums,
    )

-- What the details of a collection come from: the placeholder, or the site's albums, of which the
-- first is taken whose id is that of the collection without its prefix.
pub data Details : Type 0 where
  from_placeholder : Placeholder → Details
  asks_site : String → Details

-- `_vimeo_collections_get_details`
unfoldable pub collections_get_details : String → Albums → Details
collections_get_details id albums = elim (lookup id albums) [
  | none ↦ asks_site id
  | some placeholder ↦ elim placeholder.real_id [
    | none ↦ from_placeholder placeholder
    | some real ↦ asks_site real
  ]
]

-- The placeholders that `_list_albums_cb` puts after the site's albums
unfoldable pub listed_placeholders : Albums → List (String × Placeholder)
listed_placeholders [] = []
listed_placeholders ((id, placeholder) ∷ albums) =
    let rest = listed_placeholders albums in
    elim placeholder.real_id [ none ↦ (id, placeholder) ∷ rest | some real ↦ rest ]

-- `_vimeo_upload_video`, of a file that can be mapped
unfoldable pub upload_video : ℕ → Dict String → Effect
upload_video length fields = asks get_quota on_quota (record {
  length = length;
  ticket_id = none;
  video_id = none;
  title = lookup "title" fields;
  description = lookup "description" fields;
  collection_id = lookup "collection" fields;
})

module _ (strtoll : String → ℤ) (bytes : String → Bytes) where
  -- `real_collection_id + strlen (ALBUM_PREFIX)`: the pointer is beyond the text where that is shorter.
  unfoldable pub add_to : String → UploadCtx → Effect
  add_to id ctx =
      if ltb (length (bytes id)) 6
      then crashes
      else asks (add_video (drop 6 (bytes id)) ctx.video_id) on_added ctx

  -- `_add_video_to_album`, of a collection that is not NULL
  unfoldable pub add_video_to_album : Albums → String → UploadCtx → Effect
  unfolding add_to
  add_video_to_album albums id ctx = elim (lookup id albums) [
    | none ↦ add_to id ctx
    | some placeholder ↦ elim placeholder.real_id [
      | some real ↦ add_to real ctx
      | none ↦
          asks (create_album placeholder.title placeholder.description ctx.video_id) on_created ctx
    ]
  ]

  -- What follows the title and the description.
  unfoldable pub after_description : Albums → UploadCtx → Effect
  unfolding add_video_to_album
  after_description albums ctx = elim ctx.collection_id [
    | none ↦ completes
    | some id ↦ add_video_to_album albums id ctx
  ]

  unfoldable pub after_title : Albums → UploadCtx → Effect
  unfolding after_description
  after_title albums ctx = elim ctx.description [
    | none ↦ after_description albums ctx
    | some text ↦ asks (set_description text ctx.video_id) on_description ctx
  ]

  unfoldable pub after_complete : Albums → UploadCtx → Effect
  unfolding after_title
  after_complete albums ctx = elim ctx.title [
    | none ↦ after_title albums ctx
    | some text ↦ asks (set_title text ctx.video_id) on_title ctx
  ]

  -- `_upload_get_quota_cb`
  unfoldable pub upload_get_quota : Reply → UploadCtx → Effect
  unfolding to_gsize
  upload_get_quota reply ctx = if reply.failed then fails else (elim reply.root [
    | none ↦ fails
    | some root ↦ elim (root "upload_space" "free") [
      | none ↦ fails
      | some free ↦
          if ltb (to_gsize (strtoll free)) ctx.length then fails else asks get_ticket on_ticket ctx
    ]
  ])

  -- `_upload_get_ticket_cb`, with `_upload_video`
  unfoldable pub upload_get_ticket : Reply → UploadCtx → Effect
  upload_get_ticket reply ctx = elim reply.root [
    | none ↦ fails
    | some root ↦ elim (root "ticket" "id") [
      | none ↦ fails
      | some ticket ↦ elim (root "ticket" "endpoint") [
        | none ↦ fails
        | some endpoint ↦
            asks (post_file endpoint (some ticket)) on_file (record ctx { ticket_id = some ticket })
      ]
    ]
  ]

  -- `_upload_file_cb`
  unfoldable pub upload_file : Reply → UploadCtx → Effect
  upload_file reply ctx =
      if reply.failed then fails else asks (verify_chunks ctx.ticket_id) on_verify ctx

  -- `_upload_verify_cb`
  unfoldable pub upload_verify : Reply → UploadCtx → Effect
  unfolding to_gsize
  upload_verify reply ctx = elim reply.root [
    | none ↦ fails
    | some root ↦ elim (root "chunk" "size") [
      | none ↦ fails
      | some size ↦
          if to_gsize (strtoll size) == ctx.length
          then asks (complete ctx.ticket_id) on_complete ctx
          else fails
    ]
  ]

  -- `_upload_complete_cb`
  unfoldable pub upload_complete : Reply → Albums → UploadCtx → Effect
  unfolding after_complete
  upload_complete reply albums ctx = elim reply.root [
    | none ↦ fails
    | some root ↦ after_complete albums (record ctx { video_id = root "ticket" "video_id" })
  ]

  -- `_create_album_cb`: the placeholder gets the album's id, which `%s` prints as "(null)" for NULL.
  unfoldable pub create_album_done : Reply → Albums → UploadCtx → Effect × Albums
  create_album_done reply albums ctx = elim reply.root [
    | none ↦ (fails, albums)
    | some root ↦ elim ctx.collection_id [
      | none ↦ (crashes, albums)
      | some id ↦ elim (lookup id albums) [
        | none ↦ (crashes, albums)
        | some placeholder ↦
            let album : String = elim (root "album" "id") [ none ↦ "(null)" | some a ↦ a ] in
            (
              completes,
              insert id (record placeholder { real_id = some (str_append "vimeo-" album) }) albums,
            )
      ]
    ]
  ]

  -- The callback of a stage.
  unfoldable pub handle : Stage → Reply → Albums → UploadCtx → Effect × Albums
  unfolding upload_get_quota upload_get_ticket upload_file upload_verify upload_complete
      create_album_done after_title after_description
  handle on_quota reply albums ctx = (upload_get_quota reply ctx, albums)
  handle on_ticket reply albums ctx = (upload_get_ticket reply ctx, albums)
  handle on_file reply albums ctx = (upload_file reply ctx, albums)
  handle on_verify reply albums ctx = (upload_verify reply ctx, albums)
  handle on_complete reply albums ctx = (upload_complete reply albums ctx, albums)
  -- `_set_title_cb`, `_set_description_cb` and `_add_to_album_cb`
  handle on_title reply albums ctx =
      (elim reply.root [ none ↦ fails | some root ↦ after_title albums ctx ], albums)
  handle on_description reply albums ctx =
      (elim reply.root [ none ↦ fails | some root ↦ after_description albums ctx ], albums)
  handle on_added reply albums ctx =
      (elim reply.root [ none ↦ fails | some root ↦ completes ], albums)
  handle on_created reply albums ctx = create_album_done reply albums ctx

-- What becomes of an upload
pub data Ending : Type 0 where
  waiting failed completed crashed : Ending

pub record Trace : Type 0 where
  pub requests : List Request
  pub ending : Ending
  pub albums : Albums

module _ (strtoll : String → ℤ) (bytes : String → Bytes) where
  -- An upload, with the replies in order; one that waits with no reply left goes on to wait.
  unfoldable pub chain : List Reply → Effect × Albums → Trace
  unfolding handle
  chain [] (asks q stage ctx, albums) = record {
    requests = q ∷ [];
    ending = waiting;
    albums = albums;
  }
  chain (reply ∷ replies) (asks q stage ctx, albums) =
      let t = chain replies (handle strtoll bytes stage reply albums ctx) in
      record { requests = q ∷ t.requests; ending = t.ending; albums = t.albums }
  chain replies (fails, albums) = record { requests = []; ending = failed; albums = albums }
  chain replies (completes, albums) = record { requests = []; ending = completed; albums = albums }
  chain replies (crashes, albums) = record { requests = []; ending = crashed; albums = albums }
