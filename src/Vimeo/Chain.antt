-- ===== src/Vimeo/Chain.antt =====
-- An upload to Vimeo that goes well (services/vimeo/vimeo.c).
use libsocialweb_flickr_oaut.Dict.{Dict, lookup}
use libsocialweb_flickr_oaut.Service.{Bytes}
use libsocialweb_flickr_oaut.Prelude.Int.{pos, ℤ}
use libsocialweb_flickr_oaut.Vimeo.{
  create_album, add_video, to_gsize, complete, verify_chunks, post_file, get_ticket, get_quota,
  upload_complete, upload_verify, upload_file, upload_get_ticket, upload_get_quota, upload_video,
  after_complete, after_title, after_description, UploadCtx, create_album_done, Albums, handle,
  fails, completes, set_description, chain, completed, set_title, add_video_to_album, add_to, asks,
  Request, Reply, Trace, Effect,
}
use libsocialweb_flickr_oaut.Prelude.{
  drop, not, Bool, ◌==◌, ◌≤◌, ◌^◌, ◌<◌, ℕ, ap, arith, inr, inl, length, ltb, Option-cases,
  Bool-cases, ◌∷◌, ◌≡◌, [], List, Option, String, none, some, true, false, ◌++◌,
}
use libsocialweb_flickr_oaut.Vimeo.{crashes, completes, fails}

abbrev pub good : (String → String → Option String) → Reply
good root = record { failed = false; root = some root }

-- What an upload asks to describe its video, in order
abbrev pub described : Option String → Option String → Option String → List Request
described title description video =
    (elim title [ none ↦ [] | some text ↦ set_title text video ∷ [] ])
    ++ (elim description [ none ↦ [] | some text ↦ set_description text video ∷ [] ])

-- The calls that a step comes to, unless it fails
abbrev pub calls : Effect → Option (List Request)
calls (asks q stage ctx) = some (q ∷ [])
calls completes = some []
calls fails = none
calls crashes = none

abbrev pub CompletesWith : Trace → List Request → Type 0
CompletesWith t qs = (t.requests ≡ qs) × (t.ending ≡ completed)

module _ (strtoll : String → ℤ) (text : String) (space size : ℕ) where
  within_quota :
      strtoll text ≡ pos space
      → space < 2 ^ 63
      → size ≤ space
      → ltb (to_gsize (strtoll text)) size ≡ false
  unfolding to_gsize
  within_quota e small fits = rw (e, to_gsize) (ground (arith, small, fits))

  confirmed_size :
      strtoll text ≡ pos size
      → space < 2 ^ 63
      → size ≤ space
      → (to_gsize (strtoll text) == size) ≡ true
  unfolding to_gsize
  confirmed_size e small fits = rw (e, to_gsize) (ground (arith, small, fits))

module _ (strtoll : String → ℤ) (bytes : String → Bytes) where
  added-CompletesWith :
      (root : String → String → Option String) (rest : List Reply) (albums : Albums) (id : String)
      (ctx : UploadCtx) (last : List Request)
      → calls (add_to strtoll bytes id ctx) ≡ some last
      → CompletesWith
          (chain strtoll bytes (good root ∷ rest) (add_to strtoll bytes id ctx, albums))
          last
  unfolding add_to chain handle
  added-CompletesWith root rest albums id ctx last e =
      elim (Bool-cases (ltb (length (bytes id)) 6)) [
        | inl short ↦ ground (arith, short, e)
        | inr long ↦ ground (arith, long, e)
      ]

  -- The step that adds the video to its collection is answered well once.
  abbrev LastStep : Albums → Effect → Type 0
  LastStep albums step =
      (root : String → String → Option String) (rest : List Reply) (last : List Request)
      → calls step ≡ some last
      → CompletesWith (chain strtoll bytes (good root ∷ rest) (step, albums)) last

  album-LastStep :
      (albums : Albums) (id : String) (ctx : UploadCtx)
      → ctx.collection_id ≡ some id
      → LastStep albums (add_video_to_album strtoll bytes albums id ctx)
  unfolding add_video_to_album chain handle create_album_done
  album-LastStep albums id ctx to = elim (Option-cases (lookup id albums)) [
    | inl missing ↦
        rw (missing, add_video_to_album)
          (λ root rest last e. added-CompletesWith root rest albums id ctx last e)
    | inr (p, found) ↦ elim (Option-cases p.real_id) [
      | inl waits ↦ λ root rest last e. ground (arith, found, waits, to, e)
      | inr (real, made) ↦
          rw (found, made, add_video_to_album)
            (λ root rest last e. added-CompletesWith root rest albums real ctx last e)
    ]
  ]

  description-LastStep :
      (albums : Albums) (ctx : UploadCtx)
      → LastStep albums (after_description strtoll bytes albums ctx)
  unfolding after_description chain
  description-LastStep albums ctx = elim (Option-cases ctx.collection_id) [
    | inl nowhere ↦ rw (nowhere, after_description) (λ root rest last e. ground (arith, e))
    | inr (id, to) ↦ rw (to, after_description) (album-LastStep albums id ctx to)
  ]

  title-CompletesWith :
      (a b : String → String → Option String) (rest : List Reply) (albums : Albums)
      (ctx : UploadCtx) (last : List Request)
      → calls (after_description strtoll bytes albums ctx) ≡ some last
      → CompletesWith
          (chain strtoll bytes
            (good a ∷ good b ∷ rest)
            (after_title strtoll bytes albums ctx, albums))
          (described none ctx.description ctx.video_id ++ last)
  unfolding after_title chain handle
  title-CompletesWith a b rest albums ctx last e = elim (Option-cases ctx.description) [
    | inl unset ↦ rw (unset, after_title) (description-LastStep albums ctx a (good b ∷ rest) last e)
    | inr (text, set) ↦
        let (asked, ended) = description-LastStep albums ctx b rest last e in
        rw (set, after_title) (ap (λ qs. set_description text ctx.video_id ∷ qs) asked, ended)
  ]

  complete-CompletesWith :
      (a b c : String → String → Option String) (albums : Albums) (ctx : UploadCtx)
      (last : List Request)
      → calls (after_description strtoll bytes albums ctx) ≡ some last
      → CompletesWith
          (chain strtoll bytes
            (good a ∷ good b ∷ good c ∷ [])
            (after_complete strtoll bytes albums ctx, albums))
          (described ctx.title ctx.description ctx.video_id ++ last)
  unfolding after_complete chain handle
  complete-CompletesWith a b c albums ctx last e = elim (Option-cases ctx.title) [
    | inl unset ↦
        rw (unset, after_complete) (title-CompletesWith a b (good c ∷ []) albums ctx last e)
    | inr (text, set) ↦
        let (asked, ended) = title-CompletesWith b c [] albums ctx last e in
        rw (set, after_complete) (ap (λ qs. set_title text ctx.video_id ∷ qs) asked, ended)
  ]

  upload_named :
      (root : String → String → Option String) (albums : Albums) (ctx : UploadCtx) (video : String)
      → root "ticket" "video_id" ≡ some video
      → upload_complete strtoll bytes (good root) albums ctx
        ≡ after_complete strtoll bytes albums (record ctx { video_id = some video })
  unfolding upload_complete
  upload_named root albums ctx video e =
      ap (λ v. after_complete strtoll bytes albums (record ctx { video_id = v })) e

  -- The id of a collection on the site: its own, or the one that its placeholder has; none for a
  -- placeholder whose album is not created yet.
  abbrev pub site_album : Albums → String → Option String
  site_album albums id = elim (lookup id albums) [ none ↦ some id | some p ↦ p.real_id ]

  -- The id has the six bytes of the prefix, which the code skips without a test.
  abbrev pub is_prefixed : Option String → Bool
  is_prefixed none = true
  is_prefixed (some id) = not (ltb (length (bytes id)) 6)

  abbrev pub is_readable : Albums → Option String → Bool
  is_readable albums none = true
  is_readable albums (some id) = is_prefixed (site_album albums id)

  -- The call that a collection needs: the video is added to the album on the site, or an album like
  -- the placeholder is created with it.
  abbrev pub collection_calls : Albums → Option String → Option String → List Request
  collection_calls albums none video = []
  collection_calls albums (some id) video = elim (site_album albums id) [
    | some real ↦ add_video (drop 6 (bytes real)) video ∷ []
    | none ↦ elim (lookup id albums) [
      | none ↦ []
      | some p ↦ create_album p.title p.description video ∷ []
    ]
  ]

  calls-add_to :
      (id : String) (ctx : UploadCtx)
      → is_prefixed (some id) ≡ true
      → calls (add_to strtoll bytes id ctx) ≡ some (add_video (drop 6 (bytes id)) ctx.video_id ∷ [])
  unfolding add_to
  calls-add_to id ctx h = ground (arith, h)

  calls-add_video_to_album :
      (albums : Albums) (id : String) (ctx : UploadCtx)
      → is_readable albums (some id) ≡ true
      → calls (add_video_to_album strtoll bytes albums id ctx)
        ≡ some (collection_calls albums (some id) ctx.video_id)
  unfolding add_video_to_album
  calls-add_video_to_album albums id ctx h = elim (Option-cases (lookup id albums)) [
    | inl missing ↦ ground (arith, missing, h, calls-add_to id ctx)
    | inr (p, found) ↦ elim (Option-cases p.real_id) [
      | inl waits ↦ ground (arith, found, waits, h)
      | inr (real, made) ↦ ground (arith, found, made, h, calls-add_to real ctx)
    ]
  ]

  calls-after_description :
      (albums : Albums) (ctx : UploadCtx)
      → is_readable albums ctx.collection_id ≡ true
      → calls (after_description strtoll bytes albums ctx)
        ≡ some (collection_calls albums ctx.collection_id ctx.video_id)
  unfolding after_description
  calls-after_description albums ctx h = elim (Option-cases ctx.collection_id) [
    | inl nowhere ↦ ground (arith, nowhere)
    | inr (id, to) ↦ ground (arith, to, h, calls-add_video_to_album albums id ctx)
  ]

  -- When the site grants at least the size of the file, gives a ticket with an endpoint, takes the file,
  -- confirms as many bytes and names the video, and answers what follows with a document, and the
  -- collection, if the client gave one, is a placeholder without an album or has an id of six bytes or
  -- more on the site: the upload asks for the quota and for a ticket, posts the file to the endpoint, has
  -- the ticket verified and completed, and sets the title and the description that the client gave. Last,
  -- where there is a collection, it adds the video to the album of that id less six bytes, or has an album
  -- with the placeholder's title and description created for the video. It makes no other call, and
  -- completes.
  pub good_upload :
      (size space : ℕ) (fields : Dict String) (albums : Albums)
      (quota site confirmed done a b c : String → String → Option String)
      (free ticket endpoint chunk video : String)
      → quota "upload_space" "free" ≡ some free
      → strtoll free ≡ pos space
      → space < 2 ^ 63
      → size ≤ space
      → site "ticket" "id" ≡ some ticket
      → site "ticket" "endpoint" ≡ some endpoint
      → confirmed "chunk" "size" ≡ some chunk
      → strtoll chunk ≡ pos size
      → done "ticket" "video_id" ≡ some video
      → is_readable albums (lookup "collection" fields) ≡ true
      → CompletesWith
          (chain strtoll bytes
            (good quota
              ∷ good site
              ∷ good (λ element attribute. none)
              ∷ good confirmed
              ∷ good done
              ∷ good a
              ∷ good b
              ∷ good c
              ∷ [])
            (upload_video size fields, albums))
          (get_quota
              ∷ get_ticket
              ∷ post_file endpoint (some ticket)
              ∷ verify_chunks (some ticket)
              ∷ complete (some ticket)
              ∷ described (lookup "title" fields) (lookup "description" fields) (some video)
            ++ collection_calls albums (lookup "collection" fields) (some video))
  unfolding chain handle upload_video upload_get_quota upload_get_ticket upload_file upload_verify
  good_upload size space fields albums quota site confirmed done a b c free ticket endpoint chunk
        video granted free_number small fits given_id given_endpoint checked chunk_number named
        prefixed =
      let ctx : UploadCtx = record {
        length = size;
        ticket_id = some ticket;
        video_id = some video;
        title = lookup "title" fields;
        description = lookup "description" fields;
        collection_id = lookup "collection" fields;
      } in
      let sent : UploadCtx = record ctx { video_id = none } in
      let (asked, ended) =
        complete-CompletesWith a b c albums ctx
          (collection_calls albums (lookup "collection" fields) (some video))
          (calls-after_description albums ctx prefixed) in
      rw
        (
          granted,
          within_quota strtoll free space size free_number small fits,
          given_id,
          given_endpoint,
          checked,
          confirmed_size strtoll chunk space size chunk_number small fits,
          upload_named done albums sent video named,
        )
        (
          ap
              (λ qs.
                get_quota
                ∷ get_ticket
                ∷ post_file endpoint (some ticket)
                ∷ verify_chunks (some ticket)
                ∷ complete (some ticket)
                ∷ qs)
              asked,
          ended,
        )
