-- ===== src/Vimeo/Ends.antt =====
-- How long an upload to Vimeo can go on, and what its check of the quota accepts
-- (services/vimeo/vimeo.c).
use libsocialweb_flickr_oaut.Vimeo.{
  get_ticket, to_gsize, on_created, on_added, crashes, completes, fails,
}
use libsocialweb_flickr_oaut.Dict.{Dict}
use libsocialweb_flickr_oaut.Service.{Bytes}
use libsocialweb_flickr_oaut.Prelude.Int.{negsuc, pos, ℤ}
use libsocialweb_flickr_oaut.Vimeo.{
  create_album_done, waiting, upload_complete, upload_verify, upload_file, Reply, upload_get_ticket,
  upload_get_quota, Albums, UploadCtx, upload_video, chain, handle, after_complete, after_title,
  after_description, add_video_to_album, add_to, completes, fails, asks, on_added, on_description,
  on_title, on_complete, on_verify, on_file, on_ticket, on_quota, Effect, Stage,
}
use libsocialweb_flickr_oaut.Prelude.{
  if◌then◌else◌, false, ltb, true, some, ◌^◌, leb, Option, Bool, [], ◌∷◌, ◌<◌, ◌≡◌, length, arith,
  ◌≤◌, List, ℕ, String,
}

-- How many calls an upload can still make while it waits in a stage.
abbrev calls_left : Stage → ℕ
calls_left on_quota = 8
calls_left on_ticket = 7
calls_left on_file = 6
calls_left on_verify = 5
calls_left on_complete = 4
calls_left on_title = 3
calls_left on_description = 2
calls_left on_added = 1
calls_left on_created = 1

stage_left : (stage : Stage) → 1 ≤ calls_left stage
stage_left stage = ground arith

abbrev calls_of : Effect → ℕ
calls_of (asks q stage ctx) = calls_left stage
calls_of fails = 0
calls_of completes = 0
calls_of crashes = 0

module _ (strtoll : String → ℤ) (bytes : String → Bytes) where
  calls-add_to : (id : String) (ctx : UploadCtx) → calls_of (add_to strtoll bytes id ctx) ≤ 1
  unfolding add_to
  calls-add_to id ctx = ground arith

  calls-add_video_to_album :
      (albums : Albums) (id : String) (ctx : UploadCtx)
      → calls_of (add_video_to_album strtoll bytes albums id ctx) ≤ 1
  unfolding add_video_to_album
  calls-add_video_to_album albums id ctx =
      ground (arith, calls-add_to id ctx, λ (real : String). calls-add_to real ctx)

  calls-after_description :
      (albums : Albums) (ctx : UploadCtx)
      → calls_of (after_description strtoll bytes albums ctx) ≤ 1
  unfolding after_description
  calls-after_description albums ctx =
      ground (arith, λ (id : String). calls-add_video_to_album albums id ctx)

  calls-after_title :
      (albums : Albums) (ctx : UploadCtx) → calls_of (after_title strtoll bytes albums ctx) ≤ 2
  unfolding after_title
  calls-after_title albums ctx = ground (arith, calls-after_description albums ctx)

  calls-after_complete :
      (albums : Albums) (ctx : UploadCtx) → calls_of (after_complete strtoll bytes albums ctx) ≤ 3
  unfolding after_complete
  calls-after_complete albums ctx = ground (arith, calls-after_title albums ctx)

  -- Each reply leaves an upload with fewer calls to make.
  calls-handle :
      (stage : Stage) (reply : Reply) (albums : Albums) (ctx : UploadCtx)
      → calls_of (handle strtoll bytes stage reply albums ctx).0 < calls_left stage
  unfolding handle upload_get_quota upload_get_ticket upload_file upload_verify upload_complete
      create_album_done
  calls-handle on_quota reply albums ctx = ground arith
  calls-handle on_ticket reply albums ctx = ground arith
  calls-handle on_file reply albums ctx = ground arith
  calls-handle on_verify reply albums ctx = ground arith
  calls-handle on_complete reply albums ctx =
      ground (arith, λ (c : UploadCtx). calls-after_complete albums c)
  calls-handle on_title reply albums ctx = ground (arith, calls-after_title albums ctx)
  calls-handle on_description reply albums ctx = ground (arith, calls-after_description albums ctx)
  calls-handle on_added reply albums ctx = ground arith
  calls-handle on_created reply albums ctx = ground arith

  calls-chain :
      (replies : List Reply) (effect : Effect) (albums : Albums)
      → (length (chain strtoll bytes replies (effect, albums)).requests ≤ calls_of effect)
        × (calls_of effect ≤ length replies
            → ¬ ((chain strtoll bytes replies (effect, albums)).ending ≡ waiting))
  unfolding chain
  calls-chain [] (asks q stage ctx) albums =
      (stage_left stage, λ enough e. ground (arith, stage_left stage, enough))
  calls-chain (reply ∷ replies) (asks q stage ctx) albums =
      let (effect, more) = handle strtoll bytes stage reply albums ctx in
      let rest = calls-chain replies effect more in
      let fewer = calls-handle stage reply albums ctx in
      (omega (arith, rest.0, fewer), λ enough. rest.1 (omega (arith, enough, fewer)))
  calls-chain [] fails albums = (omega arith, λ enough e. cc)
  calls-chain (reply ∷ replies) fails albums = (omega arith, λ enough e. cc)
  calls-chain [] completes albums = (omega arith, λ enough e. cc)
  calls-chain (reply ∷ replies) completes albums = (omega arith, λ enough e. cc)
  calls-chain [] crashes albums = (omega arith, λ enough e. cc)
  calls-chain (reply ∷ replies) crashes albums = (omega arith, λ enough e. cc)

  -- Whatever the site replies, and whether or not it does: the upload of a file makes at most eight
  -- calls of the site, and once it has had eight replies it no longer waits for one.
  pub upload_ends :
      (size : ℕ) (fields : Dict String) (albums : Albums) (replies : List Reply)
      → (length (chain strtoll bytes replies (upload_video size fields, albums)).requests ≤ 8)
        × (8 ≤ length replies
            → ¬ ((chain strtoll bytes replies (upload_video size fields, albums)).ending ≡ waiting))
  unfolding upload_video
  upload_ends size fields albums replies = calls-chain replies (upload_video size fields) albums

-- n for n and for -(n + 1): a `gint64` is one below 2^63.
abbrev magnitude : ℤ → ℕ
magnitude (pos n) = n
magnitude (negsuc n) = n

-- Whether a file of that size passes, with that much free.
abbrev passes : ℤ → ℕ → Bool
passes (pos n) size = leb size n
passes (negsuc n) size = true

passes-to_gsize :
    (z : ℤ) (size : ℕ)
    → magnitude z < 2 ^ 63
    → size < 2 ^ 63
    → ltb (to_gsize z) size ≡ (if passes z size then false else true)
unfolding to_gsize
passes-to_gsize (pos n) size small fits = ground (arith, small, fits)
passes-to_gsize (negsuc n) size small fits = ground (arith, small, fits)

-- With a well-formed reply to the question for the quota, and a file of less than 2^63 bytes: the
-- upload goes on exactly if the file is no larger than what is free, or what is free is negative.
pub quota_lem :
    (strtoll : String → ℤ) (bytes : String → Bytes) (root : String → String → Option String)
    (free : String) (ctx : UploadCtx)
    → root "upload_space" "free" ≡ some free
    → magnitude (strtoll free) < 2 ^ 63
    → ctx.length < 2 ^ 63
    → upload_get_quota strtoll bytes (record { failed = false; root = some root }) ctx
      ≡ (if passes (strtoll free) ctx.length then asks get_ticket on_ticket ctx else fails)
unfolding upload_get_quota
quota_lem strtoll bytes root free ctx found small fits =
    rw (found, upload_get_quota)
      (ground (arith, passes-to_gsize (strtoll free) ctx.length small fits))
