-- ===== src/Store/Queue.antt =====
-- The depth of the queue: what CreateAndEnqueue and Ack do to the stream, alone and when several
-- requests run at once.
use worker_thoth.Base.{
  ℕ, suc, ◌≡◌, refl, ap, ◌∙◌, ◌↔◌, ◌≢◌, inl, inr, true, Option, none, some, Option-cases, [], ◌∷◌,
  arith, Text, length, length-append, ℤ, pos, ◌≤ℤ◌, leb_ℤ, GoError, queue_full, ok, err, Result,
  subst,
}
use worker_thoth.Job.{Job}
use worker_thoth.Redis.{Ops, Laws, xack, xdel, without, apply_all, SameView}
use worker_thoth.Store.{
  Store, wrap_reply, stream_key, group_name, create_commands, depth_error, check_depth, push_job,
  create_and_enqueue, ack,
}
use worker_thoth.Store.Fields.{create-Created, push-view, wrap_reply-eq-none}

depth_error-eq-none :
    (size : ℤ) (r : Result GoError ℕ)
    → depth_error size r ≡ none
    → (n : ℕ) × (r ≡ ok n) × (pos (suc n) ≤ℤ size)
depth_error-eq-none size (ok n) h = (n, refl, ground arith)
depth_error-eq-none size (err e) h = absurd (cc)

depth_error-eq-full :
    (size : ℤ) (r : Result GoError ℕ)
    → depth_error size r ≡ some queue_full
    → (n : ℕ) × (r ≡ ok n) × (size ≤ℤ pos n)
depth_error-eq-full size (ok n) h = (n, refl, ground arith)
depth_error-eq-full size (err e) h = absurd (cc)

le→leb_ℤ : (size : ℤ) (n : ℕ) → size ≤ℤ pos n → leb_ℤ size (pos n) ≡ true
le→leb_ℤ size n h = ground arith

wrap_reply-ne-full :
    {D : Type 0} (p : Text) (r : Option GoError × D) → (wrap_reply p r).0 ≢ some queue_full
wrap_reply-ne-full p (none, db) h = cc
wrap_reply-ne-full p (some e, db) h = cc

pub wrap_reply-state : {D : Type 0} (p : Text) (r : Option GoError × D) → (wrap_reply p r).1 ≡ r.1
wrap_reply-state p (none, db) = refl
wrap_reply-state p (some e, db) = refl

-- The number of entries that Redis holds in the stream.
abbrev pub depth : (o : Ops) → o.Db → ℕ
depth o db = length (o.entries db stream_key)

module _ (o : Ops) (l : Laws o) where
  open o use {Db, entries, new_id, apply, xlen, exec, field}

  -- The entry that XADD appends.
  pub create_commands-entries :
      (s : Store) (j : Job) (db : Db)
      → length (entries (apply_all o (create_commands s j) db) stream_key) ≡ suc (depth o db)
  create_commands-entries s j db =
      rw (l.xadd-entries, l.expire-entries _ _ _ stream_key refl, l.hset-entries)
        (omega (arith, length-append (entries db stream_key) (_ ∷ [])))

  pub check_depth-room :
      (s : Store) (db : Db) → check_depth o s db ≡ none → pos (suc (depth o db)) ≤ℤ s.queue_size
  unfolding check_depth
  check_depth-room s db h =
      let (n, reply, room) = depth_error-eq-none s.queue_size (xlen db stream_key) h in
      omega (arith, l.xlen-entries db stream_key n reply)

  pub push-depth :
      (s : Store) (j : Job) (db db' : Db)
      → push_job o s j db ≡ (none, db')
      → depth o db' ≡ suc (depth o db)
  push-depth s j db db' h =
      ap length ((push-view o l s j db db' h).same_entries stream_key)
      ∙ create_commands-entries s j db

  -- A call of CreateAndEnqueue that succeeds adds exactly one entry to the stream, and, run alone,
  -- does not take it past the queue's size.
  pub create-depth :
      (s : Store) (j : Job) (db db' : Db)
      → create_and_enqueue o s j db ≡ (none, db')
      → (depth o db' ≡ suc (depth o db)) × (pos (depth o db') ≤ℤ s.queue_size)
  create-depth s j db db' h =
      let c = create-Created o l s j db db' h in
      let grown = ap length (c.view.same_entries stream_key) ∙ create_commands-entries s j db in
      (grown, omega (arith, check_depth-room s db c.room))

  -- CreateAndEnqueue returns ErrQueueFull exactly when XLEN answers with a depth that is at least
  -- the size.
  pub create_full_iff :
      (s : Store) (j : Job) (db : Db)
      → ((create_and_enqueue o s j db).0 ≡ some queue_full)
        ↔ ((n : ℕ) × (xlen db stream_key ≡ ok n) × (s.queue_size ≤ℤ pos n))
  unfolding create_and_enqueue check_depth push_job
  create_full_iff s j db = (full, refuse)
    where
      full :
          (create_and_enqueue o s j db).0 ≡ some queue_full
          → (n : ℕ) × (xlen db stream_key ≡ ok n) × (s.queue_size ≤ℤ pos n)
      full h = elim (Option-cases (depth_error s.queue_size (xlen db stream_key))) [
        | inl room ↦ absurd (
            wrap_reply-ne-full _ (exec (create_commands s j) db)
              (rw (room, create_and_enqueue) at h))
        | inr (e, refused) ↦
            depth_error-eq-full s.queue_size (xlen db stream_key)
              (refused ∙ rw (refused, create_and_enqueue) at h)
      ]

      refuse :
          ((n : ℕ) × (xlen db stream_key ≡ ok n) × (s.queue_size ≤ℤ pos n))
          → (create_and_enqueue o s j db).0 ≡ some queue_full
      refuse (n, reply, full) = rw (reply, create_and_enqueue) (rw (le→leb_ℤ s.queue_size n full))

  -- An Ack that succeeds takes the entries with the message's ID off the stream, leaves the others
  -- in their order, and leaves the fields of every hash.
  pub ack-without :
      (i : Text) (db db' : Db)
      → ack o i db ≡ (none, db')
      → (entries db' stream_key ≡ without i (entries db stream_key))
        × ((k f : Text) → field db' k f ≡ field db k f)
  unfolding ack
  ack-without i db db' h =
      let commands = xack stream_key group_name i ∷ xdel stream_key i ∷ [] in
      let (done, same) = wrap_reply-eq-none o l _ (exec commands db) db' h in
      let view = subst (SameView o (apply_all o commands db)) same (l.exec_done commands db done) in
      let acked = l.xack-view stream_key group_name i db in
      (
        view.same_entries stream_key
            ∙ l.xdel-entries stream_key i _ stream_key
            ∙ ap (without i) (acked.same_entries stream_key),
        λ k f. view.same_field k f ∙ l.xdel-field stream_key i _ k f ∙ acked.same_field k f,
      )
