-- ===== src/System/Accounts.antt =====
-- Each step of a handler, and of a request, keeps the account of the memory.
use worker_thoth.Base.{
  List, ℕ, zero, suc, ◌≡◌, refl, inl, inr, Bool-cases, Option, none, some, [], ◌∷◌, ◌++◌, arith,
  Text, get_elem?-append_left, length, GoError, Result, ok, err,
}
use native.Mathlib.Decide.{dec_lt}
use worker_thoth.Base.Dict.{lookup, delete}
use worker_thoth.Job.{Job}
use worker_thoth.Outside.{Outside}
use worker_thoth.Redis.{Ops}
use worker_thoth.Audio
use worker_thoth.Audio.Memory.{
  Heap, slice_at, slice_bytes, zero_slice, drop_slice, new_array, new_clip,
}
use worker_thoth.Store
use worker_thoth.Store.{QueuedMessage}
use worker_thoth.Worker.{
  Pool, Process, is_terminal, language_or, uploaded, downloaded, fetch_audio, ack,
}
use worker_thoth.Worker.Release.{fetch_cases}
use worker_thoth.Server.{Config, Reply, received, left_behind, stash}
use worker_thoth.System.{
  Phase, start, entered, got, marked, fetched, attempting, answered, concluding, written, acked,
  dropped, finished, Round, done, again, round, next_round, record_result, advance, UploadPhase,
  arrived, stashed, refused, replied, Upload, put_received, enqueued, upload_job, advance_upload,
}
use worker_thoth.System.Threads.{uploader, IsNew}
use worker_thoth.System.Ownership.{
  Owned, Keeps, zero_slice-Owned, drop_slice-Owned, delete-Owned, delete_missing-Owned,
  new_array-Owned, insert-Owned, abandon-Owned,
}

-- The slice that a handler has fetched and not yet overwritten.
abbrev pub holds : Phase → Option ℕ
holds (fetched j (ok (filename, slice))) = slice
holds (attempting j filename slice rounds attempt last) = slice
holds (answered slice r) = slice
holds ph = none

module _ (o : Ops) (x : Outside) (others : ℕ → ℕ) where
  abbrev pub OwnedBy : Option ℕ → Process o x → Type 0
  OwnedBy own p = Owned p.audio.m p.heap others own

  Keeps-refl : (h : Heap) → Keeps others h h
  Keeps-refl h a some_a = refl

  Keeps-append :
      (p : Process o x) (bytes : Text)
      → OwnedBy none p
      → Keeps others p.heap (record p.heap { arrays = p.heap.arrays ++ bytes ∷ [] })
  Keeps-append p bytes v a some_a = elim (dec_lt a (length p.heap.arrays)) [
    | yes lt ↦ get_elem?-append_left p.heap.arrays (bytes ∷ []) a lt
    | no ge ↦ absurd (omega (arith, v.known a (omega arith)))
  ]

  -- Drop overwrites what it takes out.
  drop-Owned :
      (id : Text) (p : Process o x) (r : Option ℕ)
      → lookup id p.audio.m ≡ r
      → OwnedBy none p
      → let h' = Audio.zero r p.heap in
        Owned (delete id p.audio.m) h' others none × Keeps others p.heap h'
  unfolding Audio.zero drop_slice
  drop-Owned id p none missing v =
      (delete_missing-Owned p.audio.m p.heap others id none missing v, Keeps-refl p.heap)
  drop-Owned id p (some clip) found v =
      let (taken, unused) = delete-Owned p.audio.m p.heap others id clip found v in
      let slice = slice_at p.heap.clips clip in
      let (cleared, kept) = zero_slice-Owned (delete id p.audio.m) p.heap others slice taken in
      (
        drop_slice-Owned (delete id p.audio.m) (zero_slice slice p.heap) others none clip unused
            cleared,
        kept,
      )

  module _ (pool : Pool) (m : QueuedMessage) where
    abbrev pub Accounted : Process o x → Phase × Process o x → Type 0
    Accounted p (ph, q) = OwnedBy (holds ph) q × Keeps others p.heap q.heap

    uploaded-Accounted :
        (j : Job) (p : Process o x) (r : Option ℕ)
        → lookup m.job_id p.audio.m ≡ r
        → OwnedBy none p
        → Accounted p (
          fetched j (uploaded o x r p),
          record p { audio = record { m = delete m.job_id p.audio.m } },
        )
    uploaded-Accounted j p none missing v =
        (delete_missing-Owned p.audio.m p.heap others m.job_id none missing v, Keeps-refl p.heap)
    uploaded-Accounted j p (some clip) found v =
        ((delete-Owned p.audio.m p.heap others m.job_id clip found v).0, Keeps-refl p.heap)

    downloaded-Accounted :
        (j : Job) (left : List Text) (r : Result GoError (Text × Text)) (p : Process o x)
        → OwnedBy none p
        → let (fetch, q) = downloaded o x left r p in Accounted p (fetched j fetch, q)
    unfolding new_array
    downloaded-Accounted j left (err e) p v =
        (abandon-Owned p.audio.m p.heap others left v, Keeps-refl p.heap)
    downloaded-Accounted j left (ok (filename, bytes)) p v =
        (new_array-Owned p.audio.m p.heap others bytes v, Keeps-append p bytes v)

    fetch-Accounted :
        (j : Job) (p : Process o x)
        → OwnedBy none p
        → let (fetch, q) = fetch_audio o x pool m.job_id j p in Accounted p (fetched j fetch, q)
    fetch-Accounted j p v =
        fetch_cases o x pool m (λ r. Accounted p (fetched j r.0, r.1)) j p
          (uploaded-Accounted j p (lookup m.job_id p.audio.m) refl v)
          (λ left r w. downloaded-Accounted j left r (record p { world = w }) v)
          (λ e. (v, Keeps-refl p.heap))

    next_round-Accounted :
        (j : Job) (filename : Text) (slice : Option ℕ) (rounds attempt : ℕ) (r : Round)
        (p q : Process o x)
        → Keeps others p.heap q.heap
        → OwnedBy slice q
        → Accounted p (next_round o x pool j filename slice rounds attempt r, q)
    next_round-Accounted j filename slice rounds attempt (done r) p q k v = (v, k)
    next_round-Accounted j filename slice rounds attempt (again e) p q k v = (v, k)

    record-Accounted :
        (r : Result GoError Text) (p : Process o x)
        → OwnedBy none p
        → Accounted p (written, record_result o x pool m r p)
    record-Accounted (err e) p v = (v, Keeps-refl p.heap)
    record-Accounted (ok body) p v = (v, Keeps-refl p.heap)

    pub advance-Accounted :
        (ph : Phase) (p : Process o x)
        → OwnedBy (holds ph) p
        → Accounted p (advance o x pool m ph p)
    unfolding advance ack Audio.drop
    advance-Accounted start p v = (v, Keeps-refl p.heap)
    advance-Accounted entered p v = (v, Keeps-refl p.heap)
    advance-Accounted (got (err e)) p v = (v, Keeps-refl p.heap)
    advance-Accounted (got (ok j)) p v = elim (Bool-cases (is_terminal j)) [
      | inl over ↦ rw over (v, Keeps-refl p.heap)
      | inr pending ↦ rw pending (v, Keeps-refl p.heap)
    ]
    advance-Accounted (marked j) p v = fetch-Accounted j p v
    advance-Accounted (fetched j (err e)) p v = (v, Keeps-refl p.heap)
    advance-Accounted (fetched j (ok (filename, slice))) p v = (v, Keeps-refl p.heap)
    advance-Accounted (attempting j filename slice zero attempt last) p v = (v, Keeps-refl p.heap)
    advance-Accounted (attempting j filename slice (suc rounds) attempt last) p v =
        let (r, w) =
          round x pool filename (slice_bytes slice p.heap)
            (language_or j.language pool.default_language) attempt p.world in
        next_round-Accounted j filename slice rounds attempt r p (record p { world = w })
          (Keeps-refl p.heap) v
    advance-Accounted (answered slice r) p v = zero_slice-Owned p.audio.m p.heap others slice v
    advance-Accounted (concluding r) p v = record-Accounted r p v
    advance-Accounted written p v = (v, Keeps-refl p.heap)
    advance-Accounted acked p v = drop-Owned m.job_id p (lookup m.job_id p.audio.m) refl v
    advance-Accounted dropped p v = (v, Keeps-refl p.heap)
    advance-Accounted finished p v = (v, Keeps-refl p.heap)

  module _ (c : Config) (st : Store.Store) (u : Upload) where
    -- A request refers to no array from outside the store.
    abbrev pub UploadAccounted : Process o x → UploadPhase × Process o x → Type 0
    UploadAccounted p (ph, q) = OwnedBy none q × Keeps others p.heap q.heap

    put_received-Accounted :
        (left : List Text) (r : Result Reply (Text × Text)) (p : Process o x)
        → lookup u.id p.audio.m ≡ none
        → OwnedBy none p
        → UploadAccounted p (put_received o x u.id left r p)
    unfolding stash new_array new_clip Audio.put
    put_received-Accounted left (err r) p fresh v =
        (abandon-Owned p.audio.m p.heap others left v, Keeps-refl p.heap)
    put_received-Accounted left (ok (filename, bytes)) p fresh v = (
      insert-Owned p.audio.m (record p.heap { arrays = p.heap.arrays ++ bytes ∷ [] }) others u.id
          filename (length p.heap.arrays) fresh (new_array-Owned p.audio.m p.heap others bytes v),
      Keeps-append p bytes v,
    )

    enqueued-Accounted :
        (r : Option GoError × o.Db) (p : Process o x)
        → OwnedBy none p
        → UploadAccounted p (enqueued o x u.id r p)
    enqueued-Accounted (none, db) p v = (v, Keeps-refl p.heap)
    enqueued-Accounted (some e, db) p v = (v, Keeps-refl p.heap)

    pub advance_upload-Accounted :
        (ph : UploadPhase) (p : Process o x)
        → IsNew o x (uploader u ph) p
        → OwnedBy none p
        → UploadAccounted p (advance_upload o x c st u ph p)
    unfolding advance_upload Audio.drop
    advance_upload-Accounted arrived p fresh v =
        put_received-Accounted (left_behind c.max_audio_bytes u.form)
          (received c.max_audio_bytes u.form) p fresh v
    advance_upload-Accounted stashed p fresh v =
        enqueued-Accounted (Store.create_and_enqueue o st (upload_job c u) p.db) p v
    advance_upload-Accounted (refused e) p fresh v =
        drop-Owned u.id p (lookup u.id p.audio.m) refl v
    advance_upload-Accounted (replied r) p fresh v = (v, Keeps-refl p.heap)
