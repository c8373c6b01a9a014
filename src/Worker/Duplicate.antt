-- ===== src/Worker/Duplicate.antt =====
-- A message that is claimed again while a worker is still handling it. The claim loop takes over
-- what has been idle for two minutes, which is less than the time that the upstream may take.
use worker_thoth.Base.{
  ◌≡◌, refl, ap, subst, ◌∙◌, true, false, none, some, List, Text, codes, text_eq, text_eq_refl, pos,
  ltb_ℤ, wrap, error_text, ok, err,
}
use worker_thoth.Base.Dict.{lookup, delete, lookup-delete_self}
use worker_thoth.Job.{Job, status_processing, status_completed, status_failed, source_upload}
use worker_thoth.Outside.{Outside}
use worker_thoth.Redis.{Ops, Laws}
use worker_thoth.Audio
use worker_thoth.Store
use worker_thoth.Store.{QueuedMessage, job_key}
use worker_thoth.Store.Fields.{field-update}
use worker_thoth.Store.Jobs.{processing, get-perform}
use worker_thoth.Worker.{Pool, Process, is_terminal, audio_lost, fetch_audio, complete, handle}
use worker_thoth.Worker.Settle.{
  IsReliable, Recorded, started, verdict, handle_settles, ack-field, conclude-Recorded,
  wrap_reply-done,
}

module _ (o : Ops) (l : Laws o) (x : Outside) (pool : Pool) (m : QueuedMessage) where
  open o use {field, hgetall}

  fetch_audio-taken :
      (j : Job) (p : Process o x)
      → text_eq j.source source_upload ≡ true
      → (fetch_audio o x pool m.job_id j p).1
        ≡ record p { audio = record { m = delete m.job_id p.audio.m } }
  unfolding fetch_audio Audio.take
  fetch_audio-taken j p upload = rw upload

  fetch_audio-lost :
      (j : Job) (p : Process o x)
      → text_eq j.source source_upload ≡ true
      → lookup m.job_id p.audio.m ≡ none
      → (fetch_audio o x pool m.job_id j p).0 ≡ err audio_lost
  unfolding fetch_audio Audio.take
  fetch_audio-lost j p upload gone = rw (upload, gone)

  module _ (lives : ltb_ℤ (pos 0) pool.store.job_ttl ≡ true) (reliable : IsReliable o) where
    complete-error :
        (body v : Text) (p : Process o x)
        → field p.db (job_key m.job_id) (codes "error") ≡ some v
        → field (complete o x pool m body p).db (job_key m.job_id) (codes "error") ≡ some v
    unfolding complete Store.set_completed Store.update
    complete-error body v p h =
        ack-field o l x pool m lives reliable _ _ _
        ∙ field-update o l pool.store m.job_id _ p.db _ (job_key m.job_id) (codes "error") lives
            (wrap_reply-done _ _ (reliable _ p.db))
        ∙ rw (text_eq_refl m.job_id) h

    -- The claimer finds no audio.
    lost-Recorded :
        (j : Job) (p : Process o x)
        → Store.get o m.job_id p.db ≡ ok j
        → is_terminal j ≡ false
        → text_eq j.source source_upload ≡ true
        → lookup m.job_id p.audio.m ≡ none
        → Recorded o m.job_id (err (wrap (codes "fetch audio") audio_lost)) (handle o x pool m p).db
    lost-Recorded j p got pending upload gone =
        let q = started o x pool m p in
        subst
          (λ r.
            Recorded o m.job_id (verdict o x pool j (r, (fetch_audio o x pool m.job_id j q).1))
              (handle o x pool m p).db)
          (fetch_audio-lost j q upload gone)
          (handle_settles o l x pool m lives reliable j p got pending)

    get-started :
        (j : Job) (p : Process o x) (kvs : List (Text × Text))
        → Store.get o m.job_id p.db ≡ ok j
        → hgetall (started o x pool m p).db (job_key m.job_id) ≡ ok kvs
        → Store.get o m.job_id (started o x pool m p).db
          ≡ ok (record j { status = status_processing })
    unfolding Store.set_processing Store.update
    get-started j p kvs got reply =
        get-perform o l pool.store lives processing m.job_id j p.db (started o x pool m p).db kvs
          got (wrap_reply-done _ _ (reliable _ p.db)) reply

    second-Recorded :
        (j : Job) (p first : Process o x) (kvs : List (Text × Text))
        → first ≡ record (started o x pool m p) { audio = record { m = delete m.job_id p.audio.m } }
        → Store.get o m.job_id p.db ≡ ok j
        → text_eq j.source source_upload ≡ true
        → hgetall (started o x pool m p).db (job_key m.job_id) ≡ ok kvs
        → Recorded o m.job_id
            (err (wrap (codes "fetch audio") audio_lost))
            (handle o x pool m first).db
    second-Recorded j p first kvs taken got upload reply =
        lost-Recorded (record j { status = status_processing }) first
          (ap (λ q. Store.get o m.job_id q.db) taken ∙ get-started j p kvs got reply) refl upload
          (ap (λ q. lookup m.job_id q.audio.m) taken ∙ lookup-delete_self m.job_id p.audio.m)

    -- With a time to live that is positive and a Redis that carries out every transaction: a worker
    -- has marked an upload job as being processed, has fetched its audio, and waits for the
    -- upstream. A second worker that handles the same message then records the job as failed, with
    -- the audio lost; an answer that the first one still gets is recorded as completed, with that
    -- error beside it.
    pub reclaim_overlap :
        (j : Job) (p : Process o x) (kvs : List (Text × Text)) (body : Text)
        → Store.get o m.job_id p.db ≡ ok j
        → text_eq j.source source_upload ≡ true
        → hgetall (started o x pool m p).db (job_key m.job_id) ≡ ok kvs
        → let first = (fetch_audio o x pool m.job_id j (started o x pool m p)).1 in
          let second = handle o x pool m first in
          let last = complete o x pool m body second in
          let lost = error_text (wrap (codes "fetch audio") audio_lost) in
          (field second.db (job_key m.job_id) (codes "status") ≡ some status_failed)
          × (field second.db (job_key m.job_id) (codes "error") ≡ some lost)
          × (field last.db (job_key m.job_id) (codes "status") ≡ some status_completed)
          × (field last.db (job_key m.job_id) (codes "error") ≡ some lost)
    reclaim_overlap j p kvs body got upload reply =
        let first = (fetch_audio o x pool m.job_id j (started o x pool m p)).1 in
        let (status, error) =
          second-Recorded j p first kvs (fetch_audio-taken j (started o x pool m p) upload) got
            upload reply in
        (
          status,
          error,
          (conclude-Recorded o l x pool m lives reliable (ok body) (handle o x pool m first)).0,
          complete-error body _ (handle o x pool m first) error,
        )
