-- ===== src/System/Progress.antt =====
-- Each step that a goroutine takes brings it nearer to its end.
use worker_thoth.Base.{
  List, ℕ, zero, suc, ◌+◌, ◌<◌, ◌≡◌, refl, inl, inr, ◌⊎◌, Bool-cases, Option, none, some, arith,
  Text, get_elem?, set, GoError, Result, ok, err,
}
use worker_thoth.Base.Sums.{total, total-set}
use worker_thoth.Job.{Job}
use worker_thoth.Outside.{Outside}
use worker_thoth.Redis.{Ops}
use worker_thoth.Audio.Memory.{slice_bytes}
use worker_thoth.Store
use worker_thoth.Store.{QueuedMessage}
use worker_thoth.Worker.{Pool, Process, is_terminal, language_or}
use worker_thoth.Server.{Config, Reply, received, left_behind}
use worker_thoth.System.{
  Phase, start, entered, got, marked, fetched, attempting, answered, concluding, written, acked,
  dropped, finished, Round, done, again, round, next_round, advance, UploadPhase, arrived, stashed,
  refused, replied, Upload, put_received, enqueued, upload_job, advance_upload,
}
use worker_thoth.System.Threads.{Thread, handler, uploader, System, advance_thread}
use worker_thoth.System.Safety.{IsOver}

-- The most steps that are left.
abbrev pub steps_left : Phase → ℕ
steps_left start = 14
steps_left entered = 13
steps_left (got r) = 12
steps_left (marked j) = 11
steps_left (fetched j r) = 10
steps_left (attempting j filename slice rounds attempt last) = 6 + rounds
steps_left (answered slice r) = 5
steps_left (concluding r) = 4
steps_left written = 3
steps_left acked = 2
steps_left dropped = 1
steps_left finished = 0

abbrev pub upload_steps_left : UploadPhase → ℕ
upload_steps_left arrived = 3
upload_steps_left stashed = 2
upload_steps_left (refused e) = 1
upload_steps_left (replied r) = 0

abbrev pub thread_steps_left : Thread → ℕ
thread_steps_left (handler m ph) = steps_left ph
thread_steps_left (uploader u ph) = upload_steps_left ph

module _ (o : Ops) (x : Outside) (pool : Pool) (c : Config) where
  next_round-fewer :
      (j : Job) (filename : Text) (slice : Option ℕ) (rounds attempt : ℕ) (r : Round)
      → steps_left (next_round o x pool j filename slice rounds attempt r) < 6 + suc rounds
  next_round-fewer j filename slice rounds attempt (done r) = omega arith
  next_round-fewer j filename slice rounds attempt (again e) = omega arith

  advance-fewer :
      (m : QueuedMessage) (ph : Phase) (p : Process o x)
      → IsOver (handler m ph) ⊎ (steps_left (advance o x pool m ph p).0 < steps_left ph)
  unfolding advance
  advance-fewer m start p = inr (omega arith)
  advance-fewer m entered p = inr (omega arith)
  advance-fewer m (got (err e)) p = inr (omega arith)
  advance-fewer m (got (ok j)) p = elim (Bool-cases (is_terminal j)) [
    | inl over ↦ inr (rw over (omega arith))
    | inr pending ↦ inr (rw pending (omega arith))
  ]
  advance-fewer m (marked j) p = inr (omega arith)
  advance-fewer m (fetched j (err e)) p = inr (omega arith)
  advance-fewer m (fetched j (ok (filename, slice))) p = inr (omega arith)
  advance-fewer m (attempting j filename slice zero attempt last) p = inr (omega arith)
  advance-fewer m (attempting j filename slice (suc rounds) attempt last) p =
      let (r, w) =
        round x pool filename (slice_bytes slice p.heap)
          (language_or j.language pool.default_language) attempt p.world in
      inr (next_round-fewer j filename slice rounds attempt r)
  advance-fewer m (answered slice r) p = inr (omega arith)
  advance-fewer m (concluding r) p = inr (omega arith)
  advance-fewer m written p = inr (omega arith)
  advance-fewer m acked p = inr (omega arith)
  advance-fewer m dropped p = inr (omega arith)
  advance-fewer m finished p = inl refl

  put_received-fewer :
      (id : Text) (left : List Text) (r : Result Reply (Text × Text)) (p : Process o x)
      → upload_steps_left (put_received o x id left r p).0 < 3
  put_received-fewer id left (err r) p = omega arith
  put_received-fewer id left (ok (filename, bytes)) p = omega arith

  enqueued-fewer :
      (id : Text) (r : Option GoError × o.Db) (p : Process o x)
      → upload_steps_left (enqueued o x id r p).0 < 2
  enqueued-fewer id (none, db) p = omega arith
  enqueued-fewer id (some e, db) p = omega arith

  upload-fewer :
      (u : Upload) (ph : UploadPhase) (p : Process o x)
      → IsOver (uploader u ph)
        ⊎ (upload_steps_left (advance_upload o x c pool.store u ph p).0 < upload_steps_left ph)
  unfolding advance_upload
  upload-fewer u arrived p = inr (
      put_received-fewer u.id (left_behind c.max_audio_bytes u.form)
        (received c.max_audio_bytes u.form) p)
  upload-fewer u stashed p =
      inr (enqueued-fewer u.id (Store.create_and_enqueue o pool.store (upload_job c u) p.db) p)
  upload-fewer u (refused e) p = inr (omega arith)
  upload-fewer u (replied r) p = inl (r, refl)

  advance_thread-fewer :
      (th : Thread) (p : Process o x)
      → IsOver th ⊎ (thread_steps_left (advance_thread o x pool c th p).0 < thread_steps_left th)
  advance_thread-fewer (handler m ph) p = advance-fewer m ph p
  advance_thread-fewer (uploader u ph) p = upload-fewer u ph p

  -- In any state, a goroutine that moves is at its end already, or the number of steps that all
  -- goroutines have left at most, 14 for a handler at its start and 3 for an upload, gets less. A
  -- step may wait, as a round of transcribeWithRetry does for the gate and for the upstream; that
  -- such a step returns is not stated.
  pub move-progress :
      (s : System o x) (i : ℕ) (th : Thread)
      → get_elem? s.threads i ≡ some th
      → IsOver th
        ⊎ (total thread_steps_left (set s.threads i (advance_thread o x pool c th s.shared).0)
            < total thread_steps_left s.threads)
  move-progress s i th at_i = elim (advance_thread-fewer th s.shared) [
    | inl over ↦ inl over
    | inr fewer ↦ inr (
        omega (
          arith,
          fewer,
          total-set thread_steps_left s.threads i th (advance_thread o x pool c th s.shared).0 at_i,
        ))
  ]
