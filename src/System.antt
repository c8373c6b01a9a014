-- ===== src/System.antt =====
-- The goroutines of one process, interleaved: handlers of messages (internal/worker/pool.go) and
-- requests of handleUpload (internal/server/server.go), on the memory and the Redis that they
-- share. What one goroutine does between two accesses to shared state is one step.
pub mod Alone
pub mod Uploads
pub mod Threads
pub mod Ownership
pub mod Accounts
pub mod Invariant
pub mod Safety
pub mod Counter
pub mod Progress
pub mod Waiting
pub mod Delivery
pub mod Crew
mod Tests
use worker_thoth.Base.{
  ℕ, zero, suc, ◌+◌, ◌-◌, ◌≡◌, Bool, true, false, Option, none, some, List, [], ◌∷◌, ◌++◌, Text,
  codes, get_elem?, set, if◌then◌else◌, GoError, message, wrap, error_text, Result, ok, err,
}
use worker_thoth.Base.Dict.{lookup}
use worker_thoth.Job.{Job, source_upload}
use worker_thoth.Outside.{Outside}
use worker_thoth.Redis.{Ops}
use worker_thoth.Audio
use worker_thoth.Audio.Memory.{slice_bytes, zero_slice, abandon}
use worker_thoth.Store
use worker_thoth.Store.{QueuedMessage}
use worker_thoth.Whisper.{is_transient, transcribe}
use worker_thoth.Worker.{
  Pool, Process, max_retries, backoff, retries_failed, is_terminal, language_or, fetch_audio, ack,
}
use worker_thoth.Server.{
  Config, UploadForm, Reply, Service, first_non_empty, new_queued_job, received, left_behind, stash,
  accepted_reply, handle_enqueue_error,
}

-- Where a handler is.
pub data Phase : Type 0 where
  start entered : Phase
  -- behind Get
  got : Result GoError Job → Phase
  -- behind SetProcessing
  marked : Job → Phase
  -- behind fetchAudio
  fetched : Job → Result GoError (Text × Option ℕ) → Phase
  -- in the loop of transcribeWithRetry: the name, the slice, the rounds left, the number of the
  -- attempt, and lastErr
  attempting : Job → Text → Option ℕ → ℕ → ℕ → GoError → Phase
  -- behind the loop, with the slice that is still to be overwritten
  answered : Option ℕ → Result GoError Text → Phase
  -- in front of SetCompleted or SetFailed
  concluding : Result GoError Text → Phase
  -- in front of Ack, of the deferred Drop, and of the deferred Add
  written acked dropped : Phase
  finished : Phase

-- What one round of the loop comes to.
pub data Round : Type 0 where
  done : Result GoError Text → Round
  again : GoError → Round

module _ (x : Outside) where
  open x use {World, ctx_err}

  abbrev pub tried : Result GoError Text × World → Round × World
  tried (ok body, w) = (done (ok body), w)
  tried (err e, w) = if is_transient e then (again e, w) else (done (err e), w)

  abbrev pub waited : Bool × World → (World → Round × World) → Round × World
  waited (false, w) attempt =
      (done (err (wrap (codes "cancelled during retry backoff") (ctx_err w))), w)
  waited (true, w) attempt = attempt w

  -- One round of transcribeWithRetry: the wait, and the call of Transcribe.
  abbrev pub round : Pool → Text → Text → Text → ℕ → World → Round × World
  round pool filename audio language attempt w =
      waited (backoff x attempt w)
        (λ w1. tried (transcribe x pool.whisper filename audio language w1))

module _ (o : Ops) (x : Outside) where
  abbrev pub drop_audio : Text → Process o x → Process o x
  drop_audio id p = let (s, h) = Audio.drop id p.audio p.heap in record p { audio = s; heap = h }

module _ (o : Ops) (x : Outside) (pool : Pool) where
  abbrev pub next_round : Job → Text → Option ℕ → ℕ → ℕ → Round → Phase
  next_round j filename slice rounds attempt (done r) = answered slice r
  next_round j filename slice rounds attempt (again e) =
      attempting j filename slice rounds (suc attempt) e

  -- SetFailed or SetCompleted.
  abbrev pub record_result : QueuedMessage → Result GoError Text → Process o x → Process o x
  record_result m (err e) p = record p {
    db = (Store.set_failed o pool.store m.job_id (error_text e) (x.now p.world) p.db).1;
  }
  record_result m (ok body) p = record p {
    db = (Store.set_completed o pool.store m.job_id body (x.now p.world) p.db).1;
  }

  -- One step of handle.
  unfoldable pub advance : QueuedMessage → Phase → Process o x → Phase × Process o x
  advance m start p = (entered, record p { in_flight = p.in_flight + 1 })
  advance m entered p = (got (Store.get o m.job_id p.db), p)
  advance m (got (err e)) p = (written, p)
  advance m (got (ok j)) p =
      if is_terminal j
      then (written, p)
      else (marked j, record p { db = (Store.set_processing o pool.store m.job_id p.db).1 })
  advance m (marked j) p = let (r, q) = fetch_audio o x pool m.job_id j p in (fetched j r, q)
  advance m (fetched j (err e)) p = (concluding (err (wrap (codes "fetch audio") e)), p)
  advance m (fetched j (ok (filename, slice))) p =
      (attempting j filename slice (suc max_retries) 0 (message []), p)
  advance m (attempting j filename slice zero attempt last) p =
      (answered slice (err (retries_failed x last)), p)
  advance m (attempting j filename slice (suc rounds) attempt last) p =
      let (r, w) =
        round x pool filename (slice_bytes slice p.heap)
          (language_or j.language pool.default_language) attempt p.world in
      (next_round j filename slice rounds attempt r, record p { world = w })
  advance m (answered slice r) p = (concluding r, record p { heap = zero_slice slice p.heap })
  advance m (concluding r) p = (written, record_result m r p)
  advance m written p = (acked, ack o x m p)
  advance m acked p = (dropped, drop_audio o x m.job_id p)
  advance m dropped p = (finished, record p { in_flight = p.in_flight - 1 })
  advance m finished p = (finished, p)

-- Where a request of handleUpload is.
pub data UploadPhase : Type 0 where
  -- in front of Put
  arrived : UploadPhase
  -- in front of CreateAndEnqueue, and of the Drop that rolls back
  stashed : UploadPhase
  refused : GoError → UploadPhase
  replied : Reply → UploadPhase

-- A request, with the ID of newID and the time of nowRFC3339.
pub record Upload : Type 0 where
  pub form : UploadForm
  pub id : Text
  pub now : Text

module _ (o : Ops) (x : Outside) where
  abbrev pub service_of : Process o x → Service o
  service_of p = record { db = p.db; audio = p.audio; heap = p.heap }

  abbrev pub with_service : Process o x → Service o → Process o x
  with_service p s = record p { db = s.db; audio = s.audio; heap = s.heap }

  abbrev pub put_received :
      Text → List Text → Result Reply (Text × Text) → Process o x → UploadPhase × Process o x
  put_received id left (err r) p = (replied r, record p { heap = abandon left p.heap })
  put_received id left (ok (filename, bytes)) p =
      (stashed, with_service p (stash o id filename bytes (service_of p)))

  abbrev pub enqueued : Text → Option GoError × o.Db → Process o x → UploadPhase × Process o x
  enqueued id (none, db) p = (replied (accepted_reply id), record p { db = db })
  enqueued id (some e, db) p = (refused e, record p { db = db })

-- The job that handleUpload creates.
abbrev pub upload_job : Config → Upload → Job
upload_job c u =
    new_queued_job u.id source_upload []
      (first_non_empty (u.form.language ∷ c.default_language ∷ [])) u.now

module _ (o : Ops) (x : Outside) (c : Config) (st : Store.Store) where
  -- One step of handleUpload.
  unfoldable pub advance_upload : Upload → UploadPhase → Process o x → UploadPhase × Process o x
  advance_upload u arrived p =
      put_received o x u.id (left_behind c.max_audio_bytes u.form)
        (received c.max_audio_bytes u.form) p
  advance_upload u stashed p =
      enqueued o x u.id (Store.create_and_enqueue o st (upload_job c u) p.db) p
  advance_upload u (refused e) p = (replied (handle_enqueue_error e), drop_audio o x u.id p)
  advance_upload u (replied r) p = (replied r, p)
