-- ===== src/Worker/Release.antt =====
-- What is left of uploaded audio, and of the counter, when a message has been handled.
use worker_thoth.Base.{
  List, ℕ, ◌+◌, ◌≡◌, refl, ◌≢◌, ◌∙◌, ap, inl, inr, Bool-cases, Option, none, arith, Text, text_eq,
  GoError, wrap, codes, Result, ok, err,
}
use worker_thoth.Base.Dict.{lookup, delete, lookup-delete_self, lookup-delete_ne}
use worker_thoth.Job.{Job, source_upload, source_url}
use worker_thoth.Outside.{Outside}
use worker_thoth.Redis.{Ops}
use worker_thoth.Audio
use worker_thoth.Audio.Memory.{zero_slice, new_array}
use worker_thoth.Store
use worker_thoth.Store.{QueuedMessage}
use worker_thoth.Download.{download}
use worker_thoth.Worker.{
  Pool, Process, is_terminal, uploaded, downloaded, fetch_audio, ack, fail, complete, conclude,
  transcribe_audio, process_job, dispatch, handle,
}

module _ (o : Ops) (x : Outside) (pool : Pool) (m : QueuedMessage) where
  open x use {World}

  -- `p` and `q` hold the same audio, and count the same jobs.
  pub record SameAudio (p q : Process o x) : Type 0 where
    pub audio : q.audio ≡ p.audio
    pub heap : q.heap ≡ p.heap
    pub in_flight : q.in_flight ≡ p.in_flight

  pub ack-SameAudio : (p : Process o x) → SameAudio p (ack o x m p)
  unfolding ack
  ack-SameAudio p = record { audio = refl; heap = refl; in_flight = refl }

  pub fail-SameAudio : (e : GoError) (p : Process o x) → SameAudio p (fail o x pool m e p)
  unfolding fail ack
  fail-SameAudio e p = record { audio = refl; heap = refl; in_flight = refl }

  pub conclude-SameAudio :
      (r : Result GoError Text) (p : Process o x) → SameAudio p (conclude o x pool m r p)
  unfolding fail complete ack
  conclude-SameAudio (ok body) p = record { audio = refl; heap = refl; in_flight = refl }
  conclude-SameAudio (err e) p = record { audio = refl; heap = refl; in_flight = refl }

  -- The entries of other jobs, and the counter, are the same in `p` and `q`.
  pub record SameOthers (p q : Process o x) : Type 0 where
    pub others : (j : Text) → m.job_id ≢ j → lookup j q.audio.m ≡ lookup j p.audio.m
    pub in_flight : q.in_flight ≡ p.in_flight

  downloaded-SameOthers :
      (left : List Text) (r : Result GoError (Text × Text)) (p : Process o x)
      → SameOthers p (downloaded o x left r p).1
  unfolding new_array
  downloaded-SameOthers left (ok (f, b)) p = record { others = λ j ne. refl; in_flight = refl }
  downloaded-SameOthers left (err e) p = record { others = λ j ne. refl; in_flight = refl }

  -- The three ways in which fetchAudio ends.
  pub fetch_cases :
      (P : Result GoError (Text × Option ℕ) × Process o x → Type 0) (j : Job) (p : Process o x)
      → P (
        uploaded o x (lookup m.job_id p.audio.m) p,
        record p { audio = record { m = delete m.job_id p.audio.m } },
      )
      → ((left : List Text) (r : Result GoError (Text × Text)) (w : World)
          → P (downloaded o x left r (record p { world = w })))
      → ((e : GoError) → P (err e, p))
      → P (fetch_audio o x pool m.job_id j p)
  unfolding fetch_audio Audio.take
  fetch_cases P j p upload url unknown = elim (Bool-cases (text_eq j.source source_upload)) [
    | inl is_upload ↦ rw is_upload upload
    | inr no_upload ↦ elim (Bool-cases (text_eq j.source source_url)) [
      | inl is_url ↦
          let (r, left, w) = download x j.url pool.max_audio_bytes pool.download_timeout p.world in
          rw (no_upload, is_url) (url left r w)
      | inr neither ↦ rw (no_upload, neither) (unknown _)
    ]
  ]

  fetch-SameOthers :
      (j : Job) (p : Process o x) → SameOthers p (fetch_audio o x pool m.job_id j p).1
  fetch-SameOthers j p =
      fetch_cases (λ r. SameOthers p r.1) j p
        (record { others = λ k ne. lookup-delete_ne m.job_id k p.audio.m ne; in_flight = refl })
        (λ left r w.
          let s = downloaded-SameOthers left r (record p { world = w }) in
          record { others = s.others; in_flight = s.in_flight })
        (λ e. record { others = λ k ne. refl; in_flight = refl })

  transcribe-SameOthers :
      (j : Job) (r : Result GoError (Text × Option ℕ)) (p : Process o x)
      → SameOthers p (transcribe_audio o x pool m j r p)
  transcribe-SameOthers j (err e) p =
      let s = fail-SameAudio (wrap (codes "fetch audio") e) p in
      record { others = λ k ne. ap (λ a. lookup k a.m) s.audio; in_flight = s.in_flight }
  transcribe-SameOthers j (ok (filename, slice)) p =
      let s = conclude-SameAudio _ (record p { world = _; heap = zero_slice slice p.heap }) in
      record { others = λ k ne. ap (λ a. lookup k a.m) s.audio; in_flight = s.in_flight }

  process-SameOthers : (j : Job) (p : Process o x) → SameOthers p (process_job o x pool m j p)
  unfolding process_job
  process-SameOthers j p =
      let fetched = fetch_audio o x pool m.job_id j (record p { db = _ }) in
      let s = fetch-SameOthers j (record p { db = _ }) in
      let t = transcribe-SameOthers j fetched.0 fetched.1 in
      record {
        others = λ k ne. t.others k ne ∙ s.others k ne;
        in_flight = t.in_flight ∙ s.in_flight;
      }

  dispatch-SameOthers :
      (r : Result GoError Job) (p : Process o x) → SameOthers p (dispatch o x pool m r p)
  dispatch-SameOthers (err e) p =
      let s = ack-SameAudio p in
      record { others = λ k ne. ap (λ a. lookup k a.m) s.audio; in_flight = s.in_flight }
  dispatch-SameOthers (ok j) p = elim (Bool-cases (is_terminal j)) [
    | inl over ↦
        let s = ack-SameAudio p in
        rw over
          (record { others = λ k ne. ap (λ a. lookup k a.m) s.audio; in_flight = s.in_flight })
    | inr open_job ↦ rw open_job (process-SameOthers j p)
  ]

  -- However a message is handled, afterwards the job has no clip in the audio store, every other
  -- job still has its own, and the counter of jobs in flight is back at its value.
  pub handle_leaves :
      (p : Process o x)
      → let q = handle o x pool m p in
        (lookup m.job_id q.audio.m ≡ none)
        × ((j : Text) → m.job_id ≢ j → lookup j q.audio.m ≡ lookup j p.audio.m)
        × (q.in_flight ≡ p.in_flight)
  unfolding handle Audio.drop
  handle_leaves p =
      let entered = record p { in_flight = p.in_flight + 1 } in
      let mid = dispatch o x pool m (Store.get o m.job_id p.db) entered in
      let s = dispatch-SameOthers (Store.get o m.job_id p.db) entered in
      (
        lookup-delete_self m.job_id mid.audio.m,
        λ j ne. lookup-delete_ne m.job_id j mid.audio.m ne ∙ s.others j ne,
        omega (arith, s.in_flight),
      )
