-- ===== src/Worker/Settle.antt =====
-- What handling a message makes of the job's state in Redis, and that the message is acknowledged.
use worker_thoth.Base.{
  ◌⊎◌, ℕ, ◌+◌, ◌≡◌, refl, ap, ◌∙◌, true, false, Bool-cases, inl, inr, Option, none, some, List,
  Text, codes, text_eq_refl, pos, ltb_ℤ, GoError, wrap, error_text, Result, ok, err, map_err, ◌>>=◌,
}
use worker_thoth.Base.Dict.{lookup}
use worker_thoth.Job.{Job, status_completed, status_failed}
use worker_thoth.Outside.{Outside}
use worker_thoth.Redis.{Ops, Laws, Command, without}
use worker_thoth.Audio.Memory.{slice_bytes}
use worker_thoth.Store
use worker_thoth.Store.{QueuedMessage, job_key, stream_key, wrap_reply}
use worker_thoth.Store.Fields.{field-update}
use worker_thoth.Store.Queue.{ack-without}
use worker_thoth.Worker.{
  Pool, Process, is_terminal, language_or, transcribe_with_retry, fetch_audio, ack, fail, complete,
  conclude, transcribe_audio, process_job, dispatch, handle,
}

module _ (o : Ops) (x : Outside) (pool : Pool) (m : QueuedMessage) where
  -- The state of Redis is what an acknowledgement of the message made of another state.
  abbrev Acked : Process o x → Type 0
  Acked q = (db : o.Db) × (q.db ≡ (Store.ack o m.message_id db).1)

  conclude-Acked : (r : Result GoError Text) (p : Process o x) → Acked (conclude o x pool m r p)
  unfolding fail complete ack
  conclude-Acked (err e) p = (_, refl)
  conclude-Acked (ok body) p = (_, refl)

  transcribe-Acked :
      (j : Job) (r : Result GoError (Text × Option ℕ)) (p : Process o x)
      → Acked (transcribe_audio o x pool m j r p)
  unfolding fail ack
  transcribe-Acked j (err e) p = (_, refl)
  transcribe-Acked j (ok (filename, slice)) p = conclude-Acked _ _

  dispatch-Acked : (r : Result GoError Job) (p : Process o x) → Acked (dispatch o x pool m r p)
  unfolding ack process_job
  dispatch-Acked (err e) p = (_, refl)
  dispatch-Acked (ok j) p = elim (Bool-cases (is_terminal j)) [
    | inl over ↦ rw over (_, refl)
    | inr open_job ↦ rw open_job (transcribe-Acked j _ _)
  ]

  -- The last call to Redis in handle is the acknowledgement of the message, whatever the outcome.
  pub handle_acks : (p : Process o x) → Acked (handle o x pool m p)
  unfolding handle
  handle_acks p = dispatch-Acked (Store.get o m.job_id p.db) _

pub wrap_reply-done :
    {D : Type 0} (p : Text) (r : Option GoError × D)
    → r.0 ≡ none
    → wrap_reply p r ≡ (none, (wrap_reply p r).1)
wrap_reply-done p (none, db) h = refl
wrap_reply-done p (some e, db) h = absurd (cc)

-- Redis carries out every transaction.
abbrev pub IsReliable : Ops → Type 0
IsReliable o = (cs : List Command) (db : o.Db) → (o.exec cs db).0 ≡ none

-- The state that handle passes to fetchAudio.
abbrev pub started : (o : Ops) (x : Outside) → Pool → QueuedMessage → Process o x → Process o x
started o x pool m p = record p {
  db = (Store.set_processing o pool.store m.job_id p.db).1;
  in_flight = p.in_flight + 1;
}

-- The verdict on a job: the transcription of the audio that was fetched for it, or the first error.
abbrev pub verdict :
    (o : Ops) (x : Outside)
    → Pool
    → Job
    → Result GoError (Text × Option ℕ) × Process o x
    → Result GoError Text
verdict o x pool j (fetched, q) = do
  (filename, slice) ← map_err (wrap (codes "fetch audio")) fetched
  (transcribe_with_retry x pool.whisper filename (slice_bytes slice q.heap)
      (language_or j.language pool.default_language) q.world).0

-- What is to stand in the hash of the job.
abbrev pub Recorded : (o : Ops) → Text → Result GoError Text → o.Db → Type 0
Recorded o id (ok body) db =
    (o.field db (job_key id) (codes "status") ≡ some status_completed)
    × (o.field db (job_key id) (codes "result") ≡ some body)
Recorded o id (err e) db =
    (o.field db (job_key id) (codes "status") ≡ some status_failed)
    × (o.field db (job_key id) (codes "error") ≡ some (error_text e))

module _ (o : Ops) (l : Laws o) (x : Outside) (pool : Pool) (m : QueuedMessage) where
  module _ (lives : ltb_ℤ (pos 0) pool.store.job_ttl ≡ true) (reliable : IsReliable o) where
    open o use {field}

    pub ack-field : (p : Process o x) (k f : Text) → field (ack o x m p).db k f ≡ field p.db k f
    unfolding ack Store.ack
    ack-field p k f =
        (ack-without o l m.message_id p.db (Store.ack o m.message_id p.db).1
            (wrap_reply-done _ _ (reliable _ p.db))).1
          k f

    updated-field :
        (fields : List (Text × Text)) (db : o.Db) (f v : Text)
        → lookup f fields ≡ some v
        → field (Store.update o pool.store m.job_id fields db).1 (job_key m.job_id) f ≡ some v
    unfolding Store.update
    updated-field fields db f v h =
        field-update o l pool.store m.job_id fields db
          (Store.update o pool.store m.job_id fields db).1 (job_key m.job_id) f lives
          (wrap_reply-done _ _ (reliable _ db))
        ∙ rw (text_eq_refl m.job_id, h)

    pub conclude-Recorded :
        (r : Result GoError Text) (p : Process o x)
        → Recorded o m.job_id r (conclude o x pool m r p).db
    unfolding fail complete Store.set_failed Store.set_completed
    conclude-Recorded (err e) p = (
      ack-field _ _ _ ∙ updated-field _ p.db (codes "status") status_failed refl,
      ack-field _ _ _ ∙ updated-field _ p.db (codes "error") (error_text e) refl,
    )
    conclude-Recorded (ok body) p = (
      ack-field _ _ _ ∙ updated-field _ p.db (codes "status") status_completed refl,
      ack-field _ _ _ ∙ updated-field _ p.db (codes "result") body refl,
    )

    transcribe-Recorded :
        (j : Job) (r : Result GoError (Text × Option ℕ)) (q : Process o x)
        → Recorded o m.job_id (verdict o x pool j (r, q)) (transcribe_audio o x pool m j r q).db
    transcribe-Recorded j (err e) q = conclude-Recorded (err (wrap (codes "fetch audio") e)) q
    transcribe-Recorded j (ok (filename, slice)) q = conclude-Recorded _ _

    -- With a time to live that is positive, and a Redis that carries out every transaction, a job
    -- that handle reads and that is not terminal gets its verdict recorded: status completed with
    -- the answer of the upstream, verbatim, or status failed with the text of the error.
    pub handle_settles :
        (j : Job) (p : Process o x)
        → Store.get o m.job_id p.db ≡ ok j
        → is_terminal j ≡ false
        → Recorded o m.job_id
            (verdict o x pool j (fetch_audio o x pool m.job_id j (started o x pool m p)))
            (handle o x pool m p).db
    unfolding handle process_job
    handle_settles j p got pending =
        rw (got, pending)
          (transcribe-Recorded j (fetch_audio o x pool m.job_id j (started o x pool m p)).0
            (fetch_audio o x pool m.job_id j (started o x pool m p)).1)

  module _ (reliable : IsReliable o) where
    open o use {field}

    -- The job is left alone: Get fails, or its status is one of the two that are final.
    abbrev pub IsLeftAlone : Result GoError Job → Type 0
    IsLeftAlone (err e) = Unit
    IsLeftAlone (ok j) = (j.status ≡ codes "completed") ⊎ (j.status ≡ codes "failed")

    final-is_terminal :
        (j : Job)
        → (j.status ≡ codes "completed") ⊎ (j.status ≡ codes "failed")
        → is_terminal j ≡ true
    final-is_terminal j (inl completed) = rw completed
    final-is_terminal j (inr failed) = rw failed

    dispatch-skips :
        (r : Result GoError Job) (p : Process o x)
        → IsLeftAlone r
        → dispatch o x pool m r p ≡ ack o x m p
    dispatch-skips (err e) p h = refl
    dispatch-skips (ok j) p h = rw (final-is_terminal j h)

    -- Only the message is gone.
    pub record OnlyAcked (p q : Process o x) : Type 0 where
      pub fields : (k f : Text) → field q.db k f ≡ field p.db k f
      pub entries : o.entries q.db stream_key ≡ without m.message_id (o.entries p.db stream_key)
      pub world : q.world ≡ p.world

    ack-OnlyAcked : (p : Process o x) → OnlyAcked p (ack o x m p)
    unfolding ack Store.ack
    ack-OnlyAcked p =
        let (left, kept) =
          ack-without o l m.message_id p.db (Store.ack o m.message_id p.db).1
            (wrap_reply-done _ _ (reliable _ p.db)) in
        record { fields = kept; entries = left; world = refl }

    -- With a Redis that carries out every transaction: where Get fails, for whatever reason, or the
    -- status of the job is completed or failed, handle changes no field of any hash, takes the
    -- message off the stream and leaves the other messages there, in their order, and sends,
    -- downloads and waits for nothing.
    pub handle_skips :
        (p : Process o x)
        → IsLeftAlone (Store.get o m.job_id p.db)
        → OnlyAcked p (handle o x pool m p)
    unfolding handle
    handle_skips p alone =
        let entered = record p { in_flight = p.in_flight + 1 } in
        let v = ack-OnlyAcked entered in
        let same = dispatch-skips (Store.get o m.job_id p.db) entered alone in
        record {
          fields = λ k f. ap (λ q. field q.db k f) same ∙ v.fields k f;
          entries = ap (λ q. o.entries q.db stream_key) same ∙ v.entries;
          world = ap (λ q. q.world) same ∙ v.world;
        }
