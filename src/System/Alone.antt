-- ===== src/System/Alone.antt =====
-- The steps of one goroutine, with no other in between, come to the function that stands for the
-- whole handler.
use worker_thoth.Base.{
  ℕ, zero, suc, ◌+◌, ◌≤◌, ◌≡◌, refl, ap, ◌∙◌, inl, inr, Bool, true, false, Bool-cases, Option, [],
  arith, Text, codes, GoError, message, wrap, Result, ok, err,
}
use worker_thoth.Job.{Job}
use worker_thoth.Outside.{Outside}
use worker_thoth.Redis.{Ops}
use worker_thoth.Audio.Memory.{slice_bytes, zero_slice}
use worker_thoth.Store
use worker_thoth.Store.{QueuedMessage}
use worker_thoth.Whisper.{transcribe}
use worker_thoth.Worker.{
  Pool, Process, max_retries, backoff, after_wait, after_attempt, retry_from, transcribe_with_retry,
  is_terminal, language_or, fetch_audio, fail, complete, conclude, transcribe_audio, process_job,
  dispatch, release, ack, handle,
}
use worker_thoth.System.{
  Phase, start, entered, got, marked, fetched, attempting, answered, concluding, written, acked,
  dropped, finished, Round, done, again, round, tried, waited, next_round, record_result,
  drop_audio, advance,
}

module _ (o : Ops) (x : Outside) (pool : Pool) (m : QueuedMessage) where
  open x use {World}

  -- `n` steps of the handler.
  pub run : ℕ → Phase × Process o x → Phase × Process o x
  run zero c = c
  run (suc n) c = run n (advance o x pool m c.0 c.1)

  run-add : (n k : ℕ) (c : Phase × Process o x) → run (n + k) c ≡ run k (run n c)
  unfolding run
  run-add zero k c = let e : 0 + k ≡ k = omega arith in ap (λ i. run i c) e
  run-add (suc n) k c =
      let e : suc n + k ≡ suc (n + k) = omega arith in
      ap (λ i. run i c) e ∙ run-add n k (advance o x pool m c.0 c.1)

  -- At most `n` steps lead from `c` to `d`.
  abbrev Within : ℕ → Phase × Process o x → Phase × Process o x → Type 0
  Within n c d = (k : ℕ) × (k ≤ n) × (run k c ≡ d)

  step_then :
      (n : ℕ) (c d : Phase × Process o x)
      → Within n (advance o x pool m c.0 c.1) d
      → Within (suc n) c d
  unfolding run
  step_then n c d (k, le, e) = (suc k, omega arith, e)

  here : (c : Phase × Process o x) → Within 0 c c
  unfolding run
  here c = (0, omega arith, refl)

  then-Within :
      (n k : ℕ) (c d e : Phase × Process o x) → Within n c d → Within k d e → Within (n + k) c e
  then-Within n k c d e (i, i_le, ci) (j, j_le, dj) =
      (i + j, omega arith, run-add i j c ∙ ap (run j) ci ∙ dj)

  -- One round of the loop, as a part of the loop.
  abbrev continue :
      Round × World → (GoError → World → Result GoError Text × World) → Result GoError Text × World
  continue (done r, w) rest = (r, w)
  continue (again e, w) rest = rest e w

  tried-continue :
      (r : Result GoError Text × World) (rest : GoError → World → Result GoError Text × World)
      → after_attempt x r rest ≡ continue (tried x r) rest
  tried-continue (ok body, w) rest = refl
  tried-continue (err e, w) rest = ground arith

  waited-continue :
      (r : Bool × World) (attempt : World → Result GoError Text × World)
      (rest : GoError → World → Result GoError Text × World)
      → after_wait x r (λ w1. after_attempt x (attempt w1) rest)
        ≡ continue (waited x r (λ w1. tried x (attempt w1))) rest
  waited-continue (false, w) attempt rest = refl
  waited-continue (true, w) attempt rest = tried-continue (attempt w) rest

  round-continue :
      (filename audio language : Text) (n attempt : ℕ) (last : GoError) (w : World)
      → retry_from x pool.whisper filename audio language (suc n) attempt last w
        ≡ continue
            (round x pool filename audio language attempt w)
            (λ e w'. retry_from x pool.whisper filename audio language n (suc attempt) e w')
  unfolding retry_from
  round-continue filename audio language n attempt last w =
      waited-continue (backoff x attempt w)
        (λ w1. transcribe x pool.whisper filename audio language w1) _

  module _ (j : Job) (filename : Text) (slice : Option ℕ) where
    abbrev spoken : Text
    spoken = language_or j.language pool.default_language

    abbrev looped : ℕ → ℕ → GoError → Process o x → Result GoError Text × World
    looped n attempt last p =
        retry_from x pool.whisper filename (slice_bytes slice p.heap) spoken n attempt last p.world

    abbrev LoopEnds : ℕ → ℕ → GoError → Process o x → Type 0
    LoopEnds n attempt last p =
        Within (suc n) (attempting j filename slice n attempt last, p)
          (
            answered slice (looped n attempt last p).0,
            record p { world = (looped n attempt last p).1 },
          )

    next_ends :
        (n attempt : ℕ) (p : Process o x) (r : Round × World)
        → ((e : GoError) (w : World) → LoopEnds n (suc attempt) e (record p { world = w }))
        → let s = continue r (λ e w. looped n (suc attempt) e (record p { world = w })) in
          Within
            (suc n)
            (next_round o x pool j filename slice n attempt r.0, record p { world = r.1 })
            (answered slice s.0, record p { world = s.1 })
    next_ends n attempt p (done r, w) rest =
        let (k, le, e) = here (answered slice r, record p { world = w }) in (k, omega arith, e)
    next_ends n attempt p (again e, w) rest = rest e w

    -- The rounds that are left lead to what the loop returns.
    loop_ends : (n attempt : ℕ) (last : GoError) (p : Process o x) → LoopEnds n attempt last p
    unfolding advance retry_from
    loop_ends zero attempt last p =
        step_then 0 (attempting j filename slice zero attempt last, p) _ (here _)
    loop_ends (suc n) attempt last p =
        let bytes = slice_bytes slice p.heap in
        step_then (suc n) (attempting j filename slice (suc n) attempt last, p) _
          (rw (round-continue filename bytes spoken n attempt last p.world) (
            next_ends n attempt p (round x pool filename bytes spoken attempt p.world)
              (λ e w. loop_ends n (suc attempt) e (record p { world = w }))))

  -- From in front of Ack to the end.
  written_ends : (p : Process o x) → Within 3 (written, p) (finished, release o x m (ack o x m p))
  unfolding advance
  written_ends p =
      step_then 2 (written, p) _
        (step_then 1 (acked, ack o x m p) _
          (step_then 0 (dropped, drop_audio o x m.job_id (ack o x m p)) _ (here _)))

  concluding_ends :
      (r : Result GoError Text) (p : Process o x)
      → Within 4 (concluding r, p) (finished, release o x m (conclude o x pool m r p))
  unfolding advance fail complete
  concluding_ends (err e) p =
      step_then 3 (concluding (err e), p) _ (written_ends (record_result o x pool m (err e) p))
  concluding_ends (ok body) p =
      step_then 3 (concluding (ok body), p) _ (written_ends (record_result o x pool m (ok body) p))

  fetched_ends :
      (j : Job) (r : Result GoError (Text × Option ℕ)) (p : Process o x)
      → Within 10 (fetched j r, p) (finished, release o x m (transcribe_audio o x pool m j r p))
  unfolding advance transcribe_with_retry
  fetched_ends j (err e) p =
      let (k, le, ends) = concluding_ends (err (wrap (codes "fetch audio") e)) p in
      step_then 9 (fetched j (err e), p) _ (k, omega arith, ends)
  fetched_ends j (ok (filename, slice)) p =
      let (r, w) = looped j filename slice (suc max_retries) 0 (message []) p in
      let q = record p { world = w; heap = zero_slice slice p.heap } in
      step_then 9 (fetched j (ok (filename, slice)), p) _
        (then-Within 4 5 _ _ _ (loop_ends j filename slice (suc max_retries) 0 (message []) p)
          (step_then 4 (answered slice r, record p { world = w }) _ (concluding_ends r q)))

  got_ends :
      (r : Result GoError Job) (p : Process o x)
      → Within 12 (got r, p) (finished, release o x m (dispatch o x pool m r p))
  unfolding advance process_job
  got_ends (err e) p =
      let (k, le, ends) = written_ends p in step_then 11 (got (err e), p) _ (k, omega arith, ends)
  got_ends (ok j) p = elim (Bool-cases (is_terminal j)) [
    | inl over ↦
        let (k, le, ends) = written_ends p in
        step_then 11 (got (ok j), p) _ (rw over (k, omega arith, ends))
    | inr pending ↦
        let p1 = record p { db = (Store.set_processing o pool.store m.job_id p.db).1 } in
        let (r, q) = fetch_audio o x pool m.job_id j p1 in
        step_then 11 (got (ok j), p) _
          (rw pending (step_then 10 (marked j, p1) _ (fetched_ends j r q)))
  ]

  -- The steps of one handler, with no other goroutine in between, end after at most 14 with the
  -- state that handle computes.
  pub handle-run :
      (p : Process o x) → (n : ℕ) × (n ≤ 14) × (run n (start, p) ≡ (finished, handle o x pool m p))
  unfolding advance handle
  handle-run p =
      let entered_p = record p { in_flight = p.in_flight + 1 } in
      step_then 13 (start, p) _
        (step_then 12 (entered, entered_p) _ (got_ends (Store.get o m.job_id p.db) entered_p))
