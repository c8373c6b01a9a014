-- ===== src/System/Delivery.antt =====
-- From the store to the worker: the audio of an upload waits there while goroutines of other jobs
-- move, and the handler of its job fetches it.
use worker_thoth.Base.{
  List, ℕ, zero, suc, ◌≡◌, ◌≢◌, refl, inl, inr, Bool-cases, Option, none, some, [], ◌∷◌, ◌++◌, Text,
  length, get_elem?, GoError, Result, ok, err,
}
use worker_thoth.Base.Dict.{lookup, delete}
use worker_thoth.Job.{Job, source_upload}
use worker_thoth.Outside.{Outside}
use worker_thoth.Redis.{Ops}
use worker_thoth.Audio
use worker_thoth.Audio.Memory.{slice_bytes, new_array, new_clip}
use worker_thoth.Store
use worker_thoth.Store.{QueuedMessage}
use worker_thoth.Worker.{Pool, Process, is_terminal, downloaded, fetch_audio, ack}
use worker_thoth.Worker.Release.{fetch_cases}
use worker_thoth.Server.{Config, Reply, received, left_behind, stash}
use worker_thoth.System.{
  Phase, start, entered, got, marked, fetched, attempting, answered, concluding, written, acked,
  dropped, finished, record_result, advance, UploadPhase, arrived, stashed, refused, replied,
  Upload, put_received, enqueued, upload_job, advance_upload,
}
use worker_thoth.System.Threads.{Thread, handler, uploader, System, advance_thread, Reach}
use worker_thoth.System.Invariant.{held_by, held_but, Sound-Owned}
use worker_thoth.System.Safety.{boot, Reach-boot}
use worker_thoth.System.Ownership.{Owned}
use worker_thoth.System.Accounts.{holds}
use worker_thoth.System.Waiting.{
  abandon-IsWaiting, IsWaiting, zero_slice-IsWaiting, delete-IsWaiting, drop-IsWaiting,
  new_array-IsWaiting, insert-IsWaiting,
}

-- The job that a goroutine is about.
abbrev pub thread_job : Thread → Text
thread_job (handler m ph) = m.job_id
thread_job (uploader u ph) = u.id

module _ (o : Ops) (x : Outside) (id filename bytes : Text) where
  abbrev pub Waits : Process o x → Type 0
  Waits p = IsWaiting id filename bytes p.audio.m p.heap

  module _ (pool : Pool) (m : QueuedMessage) (differ : m.job_id ≢ id) where
    uploaded-IsWaiting :
        (p : Process o x)
        → Waits p
        → Waits (record p { audio = record { m = delete m.job_id p.audio.m } })
    uploaded-IsWaiting p v = delete-IsWaiting id filename bytes p.audio.m p.heap m.job_id differ v

    downloaded-IsWaiting :
        (left : List Text) (r : Result GoError (Text × Text)) (p : Process o x)
        → Waits p
        → Waits (downloaded o x left r p).1
    unfolding new_array
    downloaded-IsWaiting left (err e) p v =
        abandon-IsWaiting id filename bytes p.audio.m p.heap left v
    downloaded-IsWaiting left (ok (name, data_read)) p v =
        new_array-IsWaiting id filename bytes p.audio.m p.heap data_read v

    record-IsWaiting :
        (r : Result GoError Text) (p : Process o x) → Waits p → Waits (record_result o x pool m r p)
    record-IsWaiting (err e) p v = v
    record-IsWaiting (ok body) p v = v

    advance-IsWaiting :
        (ph : Phase) (p : Process o x) (others : ℕ → ℕ)
        → Owned p.audio.m p.heap others (holds ph)
        → Waits p
        → Waits (advance o x pool m ph p).1
    unfolding advance ack Audio.drop
    advance-IsWaiting start p others owned v = v
    advance-IsWaiting entered p others owned v = v
    advance-IsWaiting (got (err e)) p others owned v = v
    advance-IsWaiting (got (ok j)) p others owned v = elim (Bool-cases (is_terminal j)) [
      | inl over ↦ rw over v
      | inr pending ↦ rw pending v
    ]
    advance-IsWaiting (marked j) p others owned v =
        fetch_cases o x pool m (λ r. Waits r.1) j p (uploaded-IsWaiting p v)
          (λ left r w. downloaded-IsWaiting left r (record p { world = w }) v) (λ e. v)
    advance-IsWaiting (fetched j (err e)) p others owned v = v
    advance-IsWaiting (fetched j (ok (name, slice))) p others owned v = v
    advance-IsWaiting (attempting j name slice zero attempt last) p others owned v = v
    advance-IsWaiting (attempting j name slice (suc rounds) attempt last) p others owned v = v
    advance-IsWaiting (answered slice r) p others owned v =
        zero_slice-IsWaiting id filename bytes p.audio.m p.heap others slice owned v
    advance-IsWaiting (concluding r) p others owned v = record-IsWaiting r p v
    advance-IsWaiting written p others owned v = v
    advance-IsWaiting acked p others owned v =
        drop-IsWaiting id filename bytes p.audio.m p.heap others m.job_id
          (lookup m.job_id p.audio.m) refl differ owned v
    advance-IsWaiting dropped p others owned v = v
    advance-IsWaiting finished p others owned v = v

  module _ (c : Config) (st : Store.Store) (u : Upload) (differ : u.id ≢ id) where
    put_received-IsWaiting :
        (left : List Text) (r : Result Reply (Text × Text)) (p : Process o x)
        → Waits p
        → Waits (put_received o x u.id left r p).1
    unfolding stash new_array new_clip Audio.put
    put_received-IsWaiting left (err r) p v =
        abandon-IsWaiting id filename bytes p.audio.m p.heap left v
    put_received-IsWaiting left (ok (name, data_read)) p v =
        insert-IsWaiting id filename bytes p.audio.m
          (record p.heap { arrays = p.heap.arrays ++ data_read ∷ [] }) u.id (length p.heap.clips)
          (record { filename = name; data_slice = some (length p.heap.arrays) }) differ
          (new_array-IsWaiting id filename bytes p.audio.m p.heap data_read v)

    enqueued-IsWaiting :
        (r : Option GoError × o.Db) (p : Process o x) → Waits p → Waits (enqueued o x u.id r p).1
    enqueued-IsWaiting (none, db) p v = v
    enqueued-IsWaiting (some e, db) p v = v

    upload-IsWaiting :
        (ph : UploadPhase) (p : Process o x) (others : ℕ → ℕ)
        → Owned p.audio.m p.heap others none
        → Waits p
        → Waits (advance_upload o x c st u ph p).1
    unfolding advance_upload Audio.drop
    upload-IsWaiting arrived p others owned v =
        put_received-IsWaiting (left_behind c.max_audio_bytes u.form)
          (received c.max_audio_bytes u.form) p v
    upload-IsWaiting stashed p others owned v =
        enqueued-IsWaiting (Store.create_and_enqueue o st (upload_job c u) p.db) p v
    upload-IsWaiting (refused e) p others owned v =
        drop-IsWaiting id filename bytes p.audio.m p.heap others u.id (lookup u.id p.audio.m) refl
          differ owned v
    upload-IsWaiting (replied r) p others owned v = v

  thread-IsWaiting :
      (pool : Pool) (c : Config) (th : Thread) (p : Process o x) (others : ℕ → ℕ)
      → thread_job th ≢ id
      → Owned p.audio.m p.heap others (held_by th)
      → Waits p
      → Waits (advance_thread o x pool c th p).1
  thread-IsWaiting pool c (handler m ph) p others differ owned v =
      advance-IsWaiting pool m differ ph p others owned v
  thread-IsWaiting pool c (uploader u ph) p others differ owned v =
      upload-IsWaiting c pool.store u differ ph p others owned v

  -- What the fetch of a waiting upload gives.
  abbrev pub Fetches : Pool → QueuedMessage → Job → Process o x → Type 0
  Fetches pool m j p =
      (a : ℕ) × ((advance o x pool m (marked j) p).0 ≡ fetched j (ok (filename, some a)))
      × (slice_bytes (some a) (advance o x pool m (marked j) p).1.heap ≡ bytes)

  fetch_waiting :
      (pool : Pool) (m : QueuedMessage) (j : Job) (p : Process o x)
      → m.job_id ≡ id
      → j.source ≡ source_upload
      → Waits p
      → Fetches pool m j p
  unfolding advance fetch_audio Audio.take
  fetch_waiting pool m j p same is_upload v =
      (v.array_at, rw (is_upload, same, v.entry, v.clip) refl, rw (is_upload, v.array) refl)

  -- From the start of the process on, however the steps of handlers, of uploads and of the
  -- surroundings follow each other, with the ID of an upload not in the store when its clip is put
  -- there: while the store has a clip with a name and bytes under an ID, a step of a goroutine of
  -- another job leaves the clip there, with its name and its bytes; and the fetch of a handler of
  -- an upload job with that ID gets that name and those bytes.
  pub audio_delivered :
      (pool : Pool) (c : Config) (db : o.Db) (w : x.World) (s : System o x)
      → Reach o x pool c (boot o x db w) s
      → Waits s.shared
      → ((i : ℕ) (th : Thread)
          → get_elem? s.threads i ≡ some th
          → thread_job th ≢ id
          → Waits (advance_thread o x pool c th s.shared).1)
        × ((m : QueuedMessage) (j : Job)
            → m.job_id ≡ id
            → j.source ≡ source_upload
            → Fetches pool m j s.shared)
  audio_delivered pool c db w s r v = (
    λ i th at_i differ.
        thread-IsWaiting pool c th s.shared (held_but s.threads th) differ
          (Sound-Owned o x s i th at_i (Reach-boot o x pool c db w s r)) v,
    λ m j same is_upload. fetch_waiting pool m j s.shared same is_upload v,
  )
