-- ===== src/System/Counter.antt =====
-- The counter of jobs in flight (InFlight of internal/worker/pool.go), with any number of
-- handlers at once.
use worker_thoth.Base.{
  List, ℕ, zero, suc, ◌+◌, ◌-◌, ◌≡◌, refl, sym, ◌∙◌, subst, Option, none, some, [], ◌∷◌, ◌++◌,
  arith, Text, inl, inr, Result, GoError, ok, err, Bool-cases,
}
use worker_thoth.Base.Sums.{total, total-append, total-set, weight-le-total}
use worker_thoth.Job.{Job}
use worker_thoth.Outside.{Outside}
use worker_thoth.Redis.{Ops}
use worker_thoth.Store
use worker_thoth.Store.{QueuedMessage}
use worker_thoth.Worker.{Pool, Process, is_terminal, language_or, downloaded, fetch_audio, ack}
use worker_thoth.Worker.Release.{fetch_cases}
use worker_thoth.Server.{Config, Reply, received, left_behind}
use worker_thoth.Audio.Memory.{slice_bytes, new_array}
use worker_thoth.System.{
  Phase, start, entered, got, marked, fetched, attempting, answered, concluding, written, acked,
  dropped, finished, Round, done, again, round, next_round, record_result, UploadPhase, arrived,
  stashed, refused, replied, Upload, put_received, enqueued, upload_job, advance, advance_upload,
}
use worker_thoth.System.Threads.{
  Thread, handler, uploader, System, advance_thread, Step, receive, request, move, environment,
  Reach, here, next,
}
use worker_thoth.System.Safety.{boot}

-- 1 between Add(1) and the deferred Add(-1).
abbrev pub phase_counted : Phase → ℕ
phase_counted start = 0
phase_counted finished = 0
phase_counted ph = 1

abbrev pub thread_counted : Thread → ℕ
thread_counted (handler m ph) = phase_counted ph
thread_counted (uploader u ph) = 0

module _ (o : Ops) (x : Outside) (pool : Pool) (rest : ℕ) where
  abbrev Counts : Phase × Process o x → Type 0
  Counts (ph, p) = p.in_flight ≡ rest + phase_counted ph

  downloaded-Counts :
      (j : Job) (left : List Text) (r : Result GoError (Text × Text)) (p : Process o x)
      → p.in_flight ≡ rest + 1
      → let (fetch, q) = downloaded o x left r p in Counts (fetched j fetch, q)
  unfolding new_array
  downloaded-Counts j left (err e) p h = h
  downloaded-Counts j left (ok (filename, bytes)) p h = h

  fetch-Counts :
      (m : QueuedMessage) (j : Job) (p : Process o x)
      → p.in_flight ≡ rest + 1
      → let (fetch, q) = fetch_audio o x pool m.job_id j p in Counts (fetched j fetch, q)
  fetch-Counts m j p h =
      fetch_cases o x pool m (λ r. Counts (fetched j r.0, r.1)) j p h
        (λ left r w. downloaded-Counts j left r (record p { world = w }) h) (λ e. h)

  next_round-Counts :
      (j : Job) (filename : Text) (slice : Option ℕ) (rounds attempt : ℕ) (r : Round)
      (p : Process o x)
      → p.in_flight ≡ rest + 1
      → Counts (next_round o x pool j filename slice rounds attempt r, p)
  next_round-Counts j filename slice rounds attempt (done r) p h = h
  next_round-Counts j filename slice rounds attempt (again e) p h = h

  record-Counts :
      (m : QueuedMessage) (r : Result GoError Text) (p : Process o x)
      → p.in_flight ≡ rest + 1
      → Counts (written, record_result o x pool m r p)
  record-Counts m (err e) p h = h
  record-Counts m (ok body) p h = h

  pub advance-Counts :
      (m : QueuedMessage) (ph : Phase) (p : Process o x)
      → Counts (ph, p)
      → Counts (advance o x pool m ph p)
  unfolding advance ack
  advance-Counts m start p h = omega arith
  advance-Counts m entered p h = h
  advance-Counts m (got (err e)) p h = h
  advance-Counts m (got (ok j)) p h = elim (Bool-cases (is_terminal j)) [
    | inl over ↦ rw over h
    | inr pending ↦ rw pending h
  ]
  advance-Counts m (marked j) p h = fetch-Counts m j p h
  advance-Counts m (fetched j (err e)) p h = h
  advance-Counts m (fetched j (ok (filename, slice))) p h = h
  advance-Counts m (attempting j filename slice zero attempt last) p h = h
  advance-Counts m (attempting j filename slice (suc rounds) attempt last) p h =
      let (r, w) =
        round x pool filename (slice_bytes slice p.heap)
          (language_or j.language pool.default_language) attempt p.world in
      next_round-Counts j filename slice rounds attempt r (record p { world = w }) h
  advance-Counts m (answered slice r) p h = h
  advance-Counts m (concluding r) p h = record-Counts m r p h
  advance-Counts m written p h = h
  advance-Counts m acked p h = h
  advance-Counts m dropped p h = omega arith
  advance-Counts m finished p h = h

module _ (o : Ops) (x : Outside) (pool : Pool) (c : Config) where
  put_received-in_flight :
      (id : Text) (left : List Text) (r : Result Reply (Text × Text)) (p : Process o x)
      → (put_received o x id left r p).1.in_flight ≡ p.in_flight
  put_received-in_flight id left (err r) p = refl
  put_received-in_flight id left (ok (filename, bytes)) p = refl

  enqueued-in_flight :
      (id : Text) (r : Option GoError × o.Db) (p : Process o x)
      → (enqueued o x id r p).1.in_flight ≡ p.in_flight
  enqueued-in_flight id (none, db) p = refl
  enqueued-in_flight id (some e, db) p = refl

  upload-in_flight :
      (u : Upload) (ph : UploadPhase) (p : Process o x)
      → (advance_upload o x c pool.store u ph p).1.in_flight ≡ p.in_flight
  unfolding advance_upload
  upload-in_flight u arrived p =
      put_received-in_flight u.id (left_behind c.max_audio_bytes u.form)
        (received c.max_audio_bytes u.form) p
  upload-in_flight u stashed p =
      enqueued-in_flight u.id (Store.create_and_enqueue o pool.store (upload_job c u) p.db) p
  upload-in_flight u (refused e) p = refl
  upload-in_flight u (replied r) p = refl

  advance_thread-Counts :
      (rest : ℕ) (th : Thread) (p : Process o x)
      → p.in_flight ≡ rest + thread_counted th
      → let (th', q) = advance_thread o x pool c th p in q.in_flight ≡ rest + thread_counted th'
  advance_thread-Counts rest (handler m ph) p h = advance-Counts o x pool rest m ph p h
  advance_thread-Counts rest (uploader u ph) p h = upload-in_flight u ph p ∙ h

  abbrev pub IsCounted : System o x → Type 0
  IsCounted s = s.shared.in_flight ≡ total thread_counted s.threads

  begin-IsCounted :
      (s : System o x) (th : Thread)
      → thread_counted th ≡ 0
      → IsCounted s
      → IsCounted (record s { threads = s.threads ++ th ∷ [] })
  begin-IsCounted s th none_yet h = omega (arith, total-append thread_counted s.threads (th ∷ []))

  Step-IsCounted : (s t : System o x) → Step o x pool c s t → IsCounted s → IsCounted t
  Step-IsCounted s t (receive m e) h =
      subst IsCounted (sym e) (begin-IsCounted s (handler m start) refl h)
  Step-IsCounted s t (request u e) h =
      subst IsCounted (sym e) (begin-IsCounted s (uploader u arrived) refl h)
  Step-IsCounted s t (move i th at_i fresh e) h =
      let (th', q) = advance_thread o x pool c th s.shared in
      let rest = total thread_counted s.threads - thread_counted th in
      let part = weight-le-total thread_counted s.threads i th at_i in
      subst IsCounted (sym e) (
        omega (
          arith,
          part,
          total-set thread_counted s.threads i th th' at_i,
          advance_thread-Counts rest th s.shared (omega (arith, part)),
        ))
  Step-IsCounted s t (environment db w e) h = subst IsCounted (sym e) h

  -- From the start of the process on, however the steps of handlers, of uploads and of the
  -- surroundings follow each other, with the ID of an upload not in the store when its clip is put
  -- there: the counter of jobs in flight is the number of handlers that are between its increment
  -- and its deferred decrement.
  pub in_flight-thread_counted :
      (db : o.Db) (w : x.World) (s : System o x)
      → Reach o x pool c (boot o x db w) s
      → s.shared.in_flight ≡ total thread_counted s.threads
  unfolding boot
  in_flight-thread_counted db w s here = refl
  in_flight-thread_counted db w s (next {t = u} r step) =
      Step-IsCounted u s step (in_flight-thread_counted db w u r)
