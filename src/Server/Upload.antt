-- ===== src/Server/Upload.antt =====
-- What handleUpload leaves in memory, on acceptance and on every refusal.
use worker_thoth.Base.{
  List, ◌++◌, replicate, ◌⊎◌, get_elem?-snoc, ℕ, ◌<◌, ◌≡◌, refl, ap, ◌≢◌, subst, sym, inl, inr,
  Option, none, some, Result-cases, [], ◌∷◌, Text, length, get_elem?, GoError,
}
use worker_thoth.Base.Dict.{lookup, lookup-insert_self}
use worker_thoth.Job.{Job, source_upload}
use worker_thoth.Redis.{Ops}
use worker_thoth.Audio
use worker_thoth.Audio.Memory.{slice_bytes, new_array, new_clip}
use worker_thoth.Store
use worker_thoth.Server.{
  Config, UploadForm, first_non_empty, new_queued_job, received, Service, stash, admitted,
  handle_upload,
}
use worker_thoth.Server.Left.{IsLeft}
use worker_thoth.Server.Received.{
  IsReceived, IsRefusal, received-IsReceived, received-IsRefusal, enqueue_error-status,
}

module _ (o : Ops) (c : Config) (st : Store.Store) (form : UploadForm) (id now : Text) where
  -- The job that handleUpload creates.
  abbrev pub upload_job : Job
  upload_job =
      new_queued_job id source_upload [] (first_non_empty (form.language ∷ c.default_language ∷ []))
        now

  -- The queue refused a file that was read whole: its bytes are overwritten.
  pub record IsRolledBack (s q : Service o) : Type 0 where
    pub filename : Text
    pub bytes : Text
    pub taken : IsReceived c.max_audio_bytes form filename bytes
    pub zeroed : slice_bytes (some (length s.heap.arrays)) q.heap ≡ replicate (length bytes) 0
    pub nothing_left : q.heap.abandoned ≡ s.heap.abandoned

  -- The form was refused: what had been read of its file, if anything, stays as it is.
  pub record IsBrokenOff (s q : Service o) : Type 0 where
    pub same_arrays : q.heap.arrays ≡ s.heap.arrays
    pub left : List Text
    pub left_there : q.heap.abandoned ≡ s.heap.abandoned ++ left
    pub of_file : (left ≡ []) ⊎ IsLeft form left

  -- `q` holds the audio that `s` holds, and none under `id`.
  pub record Refusal (s q : Service o) : Type 0 where
    pub no_entry : lookup id q.audio.m ≡ none
    pub others : (j : Text) → id ≢ j → lookup j q.audio.m ≡ lookup j s.audio.m
    pub arrays_kept :
        (b : ℕ) → b < length s.heap.arrays → get_elem? q.heap.arrays b ≡ get_elem? s.heap.arrays b
    pub rest : IsRolledBack s q ⊎ IsBrokenOff s q

  -- The job is in the queue, and the whole file is in the store under its ID.
  pub record IsStashed (s q : Service o) (filename bytes : Text) : Type 0 where
    pub taken : IsReceived c.max_audio_bytes form filename bytes
    pub queued : Store.create_and_enqueue o st upload_job s.db ≡ (none, q.db)
    pub entry : lookup id q.audio.m ≡ some (length s.heap.clips)
    pub clip :
        get_elem? q.heap.clips (length s.heap.clips)
        ≡ some (record { filename = filename; data_slice = some (length s.heap.arrays) })
    pub array : get_elem? q.heap.arrays (length s.heap.arrays) ≡ some bytes

  admitted-IsStashed :
      (filename bytes : Text) (s : Service o) (r : Option GoError × o.Db)
      → IsReceived c.max_audio_bytes form filename bytes
      → Store.create_and_enqueue o st upload_job s.db ≡ r
      → (admitted o id r (stash o id filename bytes s)).0.status ≡ 202
      → IsStashed s (admitted o id r (stash o id filename bytes s)).1 filename bytes
  unfolding stash new_array new_clip Audio.put
  admitted-IsStashed filename bytes s (none, db) taken queued accepted = record {
    taken = taken;
    queued = queued;
    entry = lookup-insert_self id (length s.heap.clips) s.audio.m;
    clip = get_elem?-snoc s.heap.clips _;
    array = get_elem?-snoc s.heap.arrays bytes;
  }
  admitted-IsStashed filename bytes s (some e, db) taken queued accepted =
      absurd (enqueue_error-status e accepted)

  stash-db : (filename bytes : Text) (s : Service o) → (stash o id filename bytes s).db ≡ s.db
  unfolding stash new_array new_clip
  stash-db filename bytes s = refl

  -- If handleUpload replies 202, the job is in the queue, with the language of the form or else the
  -- default, and the part "audio" of the form, whole, under its file name and within
  -- MAX_AUDIO_BYTES, is in the audio store under the job's ID.
  pub upload_accepted :
      (s : Service o)
      → (handle_upload o c st form id now s).0.status ≡ 202
      → (filename : Text) × (bytes : Text) × IsStashed s
          (handle_upload o c st form id now s).1
          filename
          bytes
  unfolding handle_upload
  upload_accepted s accepted = elim (Result-cases (received c.max_audio_bytes form)) [
    | inl ((filename, bytes), got) ↦ (
      filename,
      bytes,
      rw (got, handle_upload)
          (admitted-IsStashed filename bytes s
            (Store.create_and_enqueue o st upload_job (stash o id filename bytes s).db)
            (received-IsReceived c.max_audio_bytes form got)
            (ap (Store.create_and_enqueue o st upload_job) (sym (stash-db filename bytes s)))
            (rw (got, handle_upload) at accepted)),
    )
    | inr (r, got) ↦ absurd (
        subst IsRefusal got (received-IsRefusal c.max_audio_bytes form)
          (rw (got, handle_upload) at accepted))
  ]
