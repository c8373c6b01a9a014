-- ===== src/Worker/Leftover.antt =====
-- What a download that is broken off leaves in memory when its message has been handled.
use worker_thoth.Base.{
  ℕ, ◌+◌, ◌^◌, ◌<◌, ◌≡◌, refl, ap, ◌∙◌, false, Option, none, some, List, [], ◌∷◌, ◌++◌, arith, Text,
  codes, length, length-take, take, pos, ltb_ℤ, GoError, too_large, ok, err,
}
use worker_thoth.Job.{Job}
use worker_thoth.Outside.{Outside, Response}
use worker_thoth.Redis.{Ops}
use worker_thoth.Audio
use worker_thoth.Audio.Memory.{Heap, zero_slice, drop_slice}
use worker_thoth.Store
use worker_thoth.Store.{QueuedMessage}
use worker_thoth.Download.{
  get_request, read_limit, read_limited, body_within, left_behind, download,
}
use worker_thoth.Worker.{Pool, Process, is_terminal, fetch_audio, fail, process_job, ack, handle}

body_within-over :
    (max_bytes : ℕ) (resp : Response)
    → max_bytes + 1 < 2 ^ 63
    → resp.status_code ≡ 200
    → ltb_ℤ (pos max_bytes) resp.content_length ≡ false
    → max_bytes < length resp.body.bytes
    → body_within max_bytes resp ≡ err (too_large max_bytes)
unfolding body_within read_limited
body_within-over max_bytes resp small status announced over =
    ground (arith, length-take (max_bytes + 1) resp.body.bytes)

read_limit-small : (max_bytes : ℕ) → max_bytes + 1 < 2 ^ 63 → read_limit max_bytes ≡ max_bytes + 1
read_limit-small max_bytes small = ground arith

left_behind-over :
    (max_bytes : ℕ) (resp : Response)
    → max_bytes + 1 < 2 ^ 63
    → resp.status_code ≡ 200
    → ltb_ℤ (pos max_bytes) resp.content_length ≡ false
    → max_bytes < length resp.body.bytes
    → left_behind max_bytes resp ≡ take (max_bytes + 1) resp.body.bytes ∷ []
unfolding left_behind
left_behind-over max_bytes resp small status announced over = rw (
  body_within-over max_bytes resp small status announced over,
  status,
  announced,
  read_limit-small max_bytes small,
)

zero_slice-abandoned : (r : Option ℕ) (h : Heap) → (zero_slice r h).abandoned ≡ h.abandoned
unfolding zero_slice
zero_slice-abandoned none h = refl
zero_slice-abandoned (some a) h = refl

zero-abandoned : (r : Option ℕ) (h : Heap) → (Audio.zero r h).abandoned ≡ h.abandoned
unfolding Audio.zero drop_slice
zero-abandoned none h = refl
zero-abandoned (some p) h = zero_slice-abandoned _ h

module _ (o : Ops) (x : Outside) (pool : Pool) (m : QueuedMessage) where
  -- Nothing behind a broken download touches what it left.
  broken-abandoned :
      (j : Job) (p : Process o x) (e : GoError) (left : List Text) (w : x.World)
      → Store.get o m.job_id p.db ≡ ok j
      → is_terminal j ≡ false
      → j.source ≡ codes "url"
      → download x j.url pool.max_audio_bytes pool.download_timeout p.world ≡ (err e, left, w)
      → (handle o x pool m p).heap.abandoned ≡ p.heap.abandoned ++ left
  unfolding handle process_job fetch_audio fail ack Audio.drop
  broken-abandoned j p e left w got pending source broken =
      rw (got, pending, source, broken) (zero-abandoned _ _)

  download-left :
      (url : Text) (w w' : x.World) (resp : Response)
      → x.request_error url ≡ none
      → x.send pool.download_timeout (get_request x url) w ≡ (ok resp, w')
      → body_within pool.max_audio_bytes resp ≡ err (too_large pool.max_audio_bytes)
      → download x url pool.max_audio_bytes pool.download_timeout w
        ≡ (err (too_large pool.max_audio_bytes), left_behind pool.max_audio_bytes resp, w')
  unfolding download
  download-left url w w' resp fine sent over = rw (fine, download, sent, over)

  -- A job by URL that is handled, whose download has status 200, announces no more than
  -- MAX_AUDIO_BYTES, and sends more: when handle is done, the first MAX_AUDIO_BYTES + 1 bytes of it
  -- are in memory, not overwritten, in an array that nothing refers to.
  pub download_abandoned :
      (j : Job) (p : Process o x) (resp : Response) (w : x.World)
      → Store.get o m.job_id p.db ≡ ok j
      → is_terminal j ≡ false
      → j.source ≡ codes "url"
      → x.request_error j.url ≡ none
      → x.send pool.download_timeout (get_request x j.url) p.world ≡ (ok resp, w)
      → pool.max_audio_bytes + 1 < 2 ^ 63
      → resp.status_code ≡ 200
      → ltb_ℤ (pos pool.max_audio_bytes) resp.content_length ≡ false
      → pool.max_audio_bytes < length resp.body.bytes
      → (handle o x pool m p).heap.abandoned
        ≡ p.heap.abandoned ++ take (pool.max_audio_bytes + 1) resp.body.bytes ∷ []
  download_abandoned j p resp w got pending source fine sent small status announced over =
      let refused = body_within-over pool.max_audio_bytes resp small status announced over in
      broken-abandoned j p _ _ w got pending source
        (download-left j.url p.world w resp fine sent refused)
      ∙ ap (λ left. p.heap.abandoned ++ left)
          (left_behind-over pool.max_audio_bytes resp small status announced over)
