-- ===== src/Worker.antt =====
-- internal/worker/pool.go: the pool of workers, and how one message is handled. What the workers
-- share is passed from step to step: Redis, the audio store, the heap, the surroundings and the
-- counter of jobs in flight. Log lines are left out.
pub mod Retry
pub mod Release
pub mod Zeroing
pub mod Settle
pub mod Leftover
pub mod Duplicate
pub mod Uploads
pub mod Pause
pub mod Loops
pub mod Tests
use worker_thoth.Base.{
  List, ℕ, zero, suc, ◌+◌, ◌-◌, ◌*◌, ◌^◌, Bool, true, false, ◌||◌, Option, none, some, ◌++◌, Text,
  codes, [], decimal, is_empty, text_eq, if◌then◌else◌, GoError, message, wrap, error_text, Result,
  ok, err,
}
use worker_thoth.Job.{Job, status_completed, status_failed, source_upload, source_url}
use worker_thoth.Outside.{Outside}
use worker_thoth.Redis.{Ops}
use worker_thoth.Audio.Memory.{Heap, slice_bytes, zero_slice, load_clip, new_array, abandon}
use worker_thoth.Audio
use worker_thoth.Store
use worker_thoth.Store.{QueuedMessage}
use worker_thoth.Whisper.{Client, is_transient, transcribe}
use worker_thoth.Download.{download}

abbrev pub max_retries : ℕ
max_retries = 2

-- One second, in nanoseconds.
abbrev pub retry_base_delay : ℕ
retry_base_delay = 1_000_000_000

-- The settings of the struct Pool that handling a message reads.
pub record Pool : Type 0 where
  pub store : Store.Store
  pub whisper : Client
  pub max_audio_bytes : ℕ
  pub download_timeout : ℕ
  pub default_language : Text

abbrev pub is_terminal : Job → Bool
is_terminal j = text_eq j.status status_completed || text_eq j.status status_failed

abbrev pub language_or : Text → Text → Text
language_or language default = if is_empty language then default else language

abbrev pub audio_lost : GoError
audio_lost = message (codes "uploaded audio no longer in memory (instance restarted?)")

module _ (x : Outside) where
  open x use {World, sleep, ctx_err}

  -- The wait in front of an attempt: none for the first, then one second, doubled each time.
  abbrev pub backoff : ℕ → World → Bool × World
  backoff zero w = (true, w)
  backoff (suc k) w = sleep (retry_base_delay * 2 ^ k) w

  -- The end of the wait: `sleep` says whether the time is over.
  abbrev pub after_wait :
      Bool × World → (World → Result GoError Text × World) → Result GoError Text × World
  after_wait (false, w) attempt =
      (err (wrap (codes "cancelled during retry backoff") (ctx_err w)), w)
  after_wait (true, w) attempt = attempt w

  -- The end of an attempt: only a transient error leads to the next round.
  abbrev pub after_attempt :
      Result GoError Text × World
      → (GoError → World → Result GoError Text × World)
      → Result GoError Text × World
  after_attempt (ok body, w) again = (ok body, w)
  after_attempt (err e, w) again = if is_transient e then again e w else (err e, w)

  abbrev pub retries_failed : GoError → GoError
  retries_failed last =
      wrap (codes "transcription failed after " ++ decimal max_retries ++ codes " retries") last

  module _ (c : Client) (filename audio language : Text) where
    -- The loop of transcribeWithRetry: the rounds left, the number of the attempt, and lastErr.
    unfoldable pub retry_from : ℕ → ℕ → GoError → World → Result GoError Text × World
    retry_from zero attempt last w = (err (retries_failed last), w)
    retry_from (suc n) attempt last w = after_wait (backoff attempt w) (λ w1.
        after_attempt (transcribe x c filename audio language w1)
          (λ e w2. retry_from n (suc attempt) e w2))

    -- transcribeWithRetry. With at least one round lastErr is not nil where it is wrapped.
    unfoldable pub transcribe_with_retry : World → Result GoError Text × World
    transcribe_with_retry w = retry_from (suc max_retries) 0 (message []) w

module _ (o : Ops) (x : Outside) where
  open o use {Db}
  open x use {World, now, quote}

  -- What the workers share.
  pub record Process : Type 0 where
    pub db : Db
    pub audio : Audio.Store
    pub heap : Heap
    pub world : World
    pub in_flight : ℕ

  abbrev pub uploaded : Option ℕ → Process → Result GoError (Text × Option ℕ)
  uploaded none p = err audio_lost
  uploaded (some clip) p = ok ((load_clip clip p.heap).filename, (load_clip clip p.heap).data_slice)

  -- The bytes that download returns are a new array; an error leaves what was read.
  abbrev pub downloaded :
      List Text
      → Result GoError (Text × Text)
      → Process
      → Result GoError (Text × Option ℕ) × Process
  downloaded left (err e) p = (err e, record p { heap = abandon left p.heap })
  downloaded left (ok (filename, bytes)) p =
      let (a, h) = new_array bytes p.heap in (ok (filename, some a), record p { heap = h })

  unfoldable pub fetch_audio :
      Pool → Text → Job → Process → Result GoError (Text × Option ℕ) × Process
  fetch_audio pool id j p =
      if text_eq j.source source_upload
      then (let (clip, s) = Audio.take id p.audio in (uploaded clip p, record p { audio = s }))
      else if text_eq j.source source_url
      then (let (r, left, w) =
            download x j.url pool.max_audio_bytes pool.download_timeout p.world in
          downloaded left r (record p { world = w }))
      else (err (message (codes "unknown job source " ++ quote j.source)), p)

  unfoldable pub ack : QueuedMessage → Process → Process
  ack m p = record p { db = (Store.ack o m.message_id p.db).1 }

  unfoldable pub fail : Pool → QueuedMessage → GoError → Process → Process
  fail pool m cause p = ack m (record p {
    db = (Store.set_failed o pool.store m.job_id (error_text cause) (now p.world) p.db).1;
  })

  unfoldable pub complete : Pool → QueuedMessage → Text → Process → Process
  complete pool m body p =
      ack m
        (record p { db = (Store.set_completed o pool.store m.job_id body (now p.world) p.db).1 })

  -- What handle does with the result of the transcription. Before it the audio is overwritten.
  abbrev pub conclude : Pool → QueuedMessage → Result GoError Text → Process → Process
  conclude pool m (err e) p = fail pool m e p
  conclude pool m (ok body) p = complete pool m body p

  abbrev pub transcribe_audio :
      Pool → QueuedMessage → Job → Result GoError (Text × Option ℕ) → Process → Process
  transcribe_audio pool m j (err e) p = fail pool m (wrap (codes "fetch audio") e) p
  transcribe_audio pool m j (ok (filename, slice)) p =
      let (result, w) =
        transcribe_with_retry x pool.whisper filename (slice_bytes slice p.heap)
          (language_or j.language pool.default_language) p.world in
      conclude pool m result (record p { world = w; heap = zero_slice slice p.heap })

  unfoldable pub process_job : Pool → QueuedMessage → Job → Process → Process
  process_job pool m j p =
      let p1 = record p { db = (Store.set_processing o pool.store m.job_id p.db).1 } in
      let (fetched, p2) = fetch_audio pool m.job_id j p1 in transcribe_audio pool m j fetched p2

  abbrev pub dispatch : Pool → QueuedMessage → Result GoError Job → Process → Process
  dispatch pool m (err e) p = ack m p
  dispatch pool m (ok j) p = if is_terminal j then ack m p else process_job pool m j p

  -- The deferred calls, last first: audio.Drop, then the counter.
  abbrev pub release : QueuedMessage → Process → Process
  release m p =
      let (s, h) = Audio.drop m.job_id p.audio p.heap in
      record p { audio = s; heap = h; in_flight = p.in_flight - 1 }

  unfoldable pub handle : Pool → QueuedMessage → Process → Process
  handle pool m p =
      let entered = record p { in_flight = p.in_flight + 1 } in
      release m (dispatch pool m (Store.get o m.job_id entered.db) entered)
