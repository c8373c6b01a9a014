-- ===== src/Worker/Zeroing.antt =====
-- Uploaded audio is overwritten when its message has been handled, whatever the outcome.
use worker_thoth.Base.{
  List, ℕ, ◌+◌, ◌≡◌, ◌≢◌, ◌∙◌, sym, ap, subst, ◌⊎◌, inl, inr, Bool-cases, Option, none, some, arith,
  Text, length, get_elem?, get_elem?-set_self, get_elem?-set_ne, get_elem?-lt,
  get_elem?-append_left, replicate, GoError, wrap, codes, ok-injective, Result, ok, err, [], ◌∷◌,
}
use worker_thoth.Base.Dict.{lookup, lookup-delete_self}
use worker_thoth.Job.{Job}
use worker_thoth.Outside.{Outside}
use worker_thoth.Redis.{Ops}
use worker_thoth.Audio
use worker_thoth.Audio.Memory.{
  Heap, slice_bytes, zero_slice, zero_array, zero_array-replicate, new_array,
}
use worker_thoth.Audio.Release.{Points, drop-IsCleared}
use worker_thoth.Store
use worker_thoth.Store.{QueuedMessage}
use worker_thoth.Worker.{
  Pool, Process, is_terminal, downloaded, fetch_audio, transcribe_audio, process_job, dispatch,
  release, handle,
}
use worker_thoth.Worker.Release.{
  SameAudio, ack-SameAudio, fail-SameAudio, conclude-SameAudio, fetch_cases,
}

module _ (o : Ops) (x : Outside) (pool : Pool) (m : QueuedMessage) (clip a : ℕ) (bytes : Text) where
  open x use {World}

  -- The clip is in the store still, with its bytes.
  record Kept (q : Process o x) : Type 0 where
    stored : lookup m.job_id q.audio.m ≡ some clip
    points : Points q.heap clip a bytes

  -- The clip is out of the store, and its bytes are overwritten.
  record Cleared (q : Process o x) : Type 0 where
    gone : lookup m.job_id q.audio.m ≡ none
    zeroed : slice_bytes (some a) q.heap ≡ replicate (length bytes) 0

  -- The fetched slice is of another array.
  abbrev Spares : Result GoError (Text × Option ℕ) → Type 0
  Spares (err e) = Unit
  Spares (ok (filename, none)) = Unit
  Spares (ok (filename, some b)) = a ≢ b

  -- The clip is out of the store, and the fetched slice is that of its bytes.
  record Taken (r : Result GoError (Text × Option ℕ)) (q : Process o x) : Type 0 where
    filename : Text
    gone : lookup m.job_id q.audio.m ≡ none
    fetched : r ≡ ok (filename, some a)
    array : get_elem? q.heap.arrays a ≡ some bytes

  abbrev Fetched : Result GoError (Text × Option ℕ) × Process o x → Type 0
  Fetched (r, q) = (Kept q × Spares r) ⊎ Taken r q

  SameAudio-Kept : {p q : Process o x} → SameAudio o x pool m p q → Kept p → Kept q
  SameAudio-Kept s k = record {
    stored = ap (λ t. lookup m.job_id t.m) s.audio ∙ k.stored;
    points = subst (λ h. Points h clip a bytes) (sym s.heap) k.points;
  }

  SameAudio-Cleared : {p q : Process o x} → SameAudio o x pool m p q → Cleared p → Cleared q
  SameAudio-Cleared s c = record {
    gone = ap (λ t. lookup m.job_id t.m) s.audio ∙ c.gone;
    zeroed = ap (slice_bytes (some a)) s.heap ∙ c.zeroed;
  }

  downloaded-Fetched :
      (left : List Text) (r : Result GoError (Text × Text)) (p : Process o x)
      → Kept p
      → Fetched (downloaded o x left r p)
  unfolding new_array
  downloaded-Fetched left (err e) p k = inl (
    record {
      stored = k.stored;
      points = record {
        filename = k.points.filename;
        clip = k.points.clip;
        array = k.points.array;
      };
    },
    tt,
  )
  downloaded-Fetched left (ok (filename, got)) p k =
      let at = get_elem?-lt p.heap.arrays a k.points.array in
      inl (
        record {
          stored = k.stored;
          points = record {
            filename = k.points.filename;
            clip = k.points.clip;
            array = get_elem?-append_left p.heap.arrays (got ∷ []) a at ∙ k.points.array;
          };
        },
        λ same. omega arith,
      )

  fetch-Fetched : (j : Job) (p : Process o x) → Kept p → Fetched (fetch_audio o x pool m.job_id j p)
  fetch-Fetched j p k =
      fetch_cases o x pool m Fetched j p
        (inr (record {
          filename = k.points.filename;
          gone = lookup-delete_self m.job_id p.audio.m;
          fetched = rw (k.stored, k.points.clip);
          array = k.points.array;
        }))
        (λ left r w.
          downloaded-Fetched left r (record p { world = w })
            (record { stored = k.stored; points = k.points }))
        (λ e. inl (k, tt))

  abbrev Fate : Process o x → Type 0
  Fate q = Kept q ⊎ Cleared q

  SameAudio-Fate : {p q : Process o x} → SameAudio o x pool m p q → Fate p → Fate q
  SameAudio-Fate s (inl k) = inl (SameAudio-Kept s k)
  SameAudio-Fate s (inr c) = inr (SameAudio-Cleared s c)

  -- Overwriting another slice keeps the clip.
  spare-Points :
      (slice : Option ℕ) (filename : Text) (h : Heap)
      → Spares (ok (filename, slice))
      → Points h clip a bytes
      → Points (zero_slice slice h) clip a bytes
  unfolding zero_slice
  spare-Points none filename h s v = v
  spare-Points (some b) filename h s v = record {
    filename = v.filename;
    clip = v.clip;
    array = get_elem?-set_ne h.arrays b a _ (λ e. s (sym e)) ∙ v.array;
  }

  zero_slice_self :
      (h : Heap)
      → get_elem? h.arrays a ≡ some bytes
      → slice_bytes (some a) (zero_slice (some a) h) ≡ replicate (length bytes) 0
  unfolding zero_slice
  zero_slice_self h at =
      rw (at, get_elem?-set_self h.arrays a (zero_array bytes) (get_elem?-lt h.arrays a at))
        (zero_array-replicate bytes)

  transcribe-Fate :
      (j : Job) (r : Result GoError (Text × Option ℕ)) (q : Process o x)
      → Fetched (r, q)
      → Fate (transcribe_audio o x pool m j r q)
  transcribe-Fate j (err e) q (inl (k, s)) =
      inl (SameAudio-Kept (fail-SameAudio o x pool m (wrap (codes "fetch audio") e) q) k)
  transcribe-Fate j (err e) q (inr t) = absurd (cc (t.fetched))
  transcribe-Fate j (ok (filename, slice)) q (inl (k, s)) =
      SameAudio-Fate (conclude-SameAudio o x pool m _ _)
        (inl (record { stored = k.stored; points = spare-Points slice filename q.heap s k.points }))
  transcribe-Fate j (ok (filename, slice)) q (inr t) =
      let same : slice ≡ some a = ap (λ f. f.1) (ok-injective t.fetched) in
      SameAudio-Fate (conclude-SameAudio o x pool m _ _)
        (inr (record { gone = t.gone; zeroed = rw same (zero_slice_self q.heap t.array) }))

  dispatch-Fate :
      (r : Result GoError Job) (p : Process o x) → Kept p → Fate (dispatch o x pool m r p)
  unfolding process_job
  dispatch-Fate (err e) p k = inl (SameAudio-Kept (ack-SameAudio o x pool m p) k)
  dispatch-Fate (ok j) p k = elim (Bool-cases (is_terminal j)) [
    | inl over ↦ rw over (inl (SameAudio-Kept (ack-SameAudio o x pool m p) k))
    | inr open_job ↦
        let p1 = record p { db = (Store.set_processing o pool.store m.job_id p.db).1 } in
        let fetched = fetch_audio o x pool m.job_id j p1 in
        rw open_job (
          transcribe-Fate j fetched.0 fetched.1
            (fetch-Fetched j p1 (record { stored = k.stored; points = k.points })))
  ]

  release-zeroed :
      (q : Process o x)
      → Fate q
      → slice_bytes (some a) (release o x m q).heap ≡ replicate (length bytes) 0
  unfolding Audio.drop Audio.zero
  release-zeroed q (inl k) =
      (drop-IsCleared q.audio q.heap m.job_id clip a bytes k.stored k.points).2.zeroed
  release-zeroed q (inr c) = rw c.gone c.zeroed

  -- However a message is handled, the uploaded audio of its job, if a clip was in the store, has
  -- been overwritten with zeros at the end: no branch leaves the bytes of the clip in memory.
  pub handle_zeroes :
      (p : Process o x)
      → lookup m.job_id p.audio.m ≡ some clip
      → Points p.heap clip a bytes
      → slice_bytes (some a) (handle o x pool m p).heap ≡ replicate (length bytes) 0
  unfolding handle
  handle_zeroes p stored points =
      let entered = record p { in_flight = p.in_flight + 1 } in
      release-zeroed (dispatch o x pool m (Store.get o m.job_id p.db) entered) (
        dispatch-Fate (Store.get o m.job_id p.db) entered
          (record { stored = stored; points = points }))
