-- ===== src/Store/Fields.antt =====
-- What the methods of the store leave in the hashes of Redis.
use mathlib.Core.Path.{fun_ext}
use worker_thoth.Base.{
  ◌≡◌, refl, ap, ◌∙◌, inl, inr, true, Option, none, some, Option-cases, subst, List, [], ◌∷◌, arith,
  Text, codes, text_eq, text_eq_refl, if◌then◌else◌, pos, ltb_ℤ, GoError, not_found, ok, err,
}
use worker_thoth.Base.Dict.{lookup}
use worker_thoth.Job.{Job}
use worker_thoth.Redis.{Ops, Laws, hset, expire, or_else, apply_all, SameView}
use worker_thoth.Store.{
  Store, job_key, job_of_fields, create_commands, wrap_reply, check_depth, push_job,
  create_and_enqueue, get, update,
}

-- The fields that a new job has.
abbrev pub initial_fields : Job → List (Text × Text)
initial_fields j =
    (codes "status", j.status)
    ∷ (codes "source", j.source)
    ∷ (codes "url", j.url)
    ∷ (codes "language", j.language)
    ∷ (codes "createdAt", j.created_at)
    ∷ []

module _ (o : Ops) (l : Laws o) where
  open o use {Db, field, hgetall, exec, entries}

  -- The state of a job is the fields of its hash, where it has a status.
  pub get-found :
      (id : Text) (db : Db) (kvs : List (Text × Text)) (v : Text)
      → hgetall db (job_key id) ≡ ok kvs
      → field db (job_key id) (codes "status") ≡ some v
      → get o id db ≡ ok (job_of_fields id (field db (job_key id)))
  unfolding get
  get-found id db [] v e h =
      absurd (ground (arith, l.hgetall-field db (job_key id) [] e (codes "status")))
  get-found id db (kv ∷ kvs) v e h = rw e (
      ap (λ vals. ok (job_of_fields id vals))
        (fun_ext (l.hgetall-field db (job_key id) (kv ∷ kvs) e)))

  pub get-missing :
      (id : Text) (db : Db) (kvs : List (Text × Text))
      → hgetall db (job_key id) ≡ ok kvs
      → ((f : Text) → field db (job_key id) f ≡ none)
      → get o id db ≡ err not_found
  unfolding get
  get-missing id db [] e h = rw e
  get-missing id db ((k, v) ∷ kvs) e h =
      absurd
        (ground (arith, l.hgetall-field db (job_key id) ((k, v) ∷ kvs) e k, h k, text_eq_refl k))

  create_commands-field :
      (s : Store) (j : Job) (db : Db) (k f : Text)
      → ltb_ℤ (pos 0) s.job_ttl ≡ true
      → field (apply_all o (create_commands s j) db) k f ≡ (
          if text_eq (job_key j.id) k
          then or_else (lookup f (initial_fields j)) (field db k f)
          else field db k f)
  create_commands-field s j db k f h = rw (l.xadd-field, l.expire-field, l.hset-field, h)

  pub wrap_reply-eq-none :
      (p : Text) (r : Option GoError × Db) (db' : Db)
      → wrap_reply p r ≡ (none, db')
      → (r.0 ≡ none) × (r.1 ≡ db')
  wrap_reply-eq-none p (none, db) db' h = (refl, ap (λ x. x.1) h)
  wrap_reply-eq-none p (some e, db) db' h = absurd (cc (ap (λ x. x.0) h))

  -- What CreateAndEnqueue did if it returned nil: the queue had room, and all was written.
  pub record Created (s : Store) (j : Job) (db db' : Db) : Type 0 where
    pub room : check_depth o s db ≡ none
    pub view : SameView o (apply_all o (create_commands s j) db) db'

  pub push-view :
      (s : Store) (j : Job) (db db' : Db)
      → push_job o s j db ≡ (none, db')
      → SameView o (apply_all o (create_commands s j) db) db'
  unfolding push_job
  push-view s j db db' pushed =
      let (done, same) = wrap_reply-eq-none _ (exec (create_commands s j) db) db' pushed in
      subst (SameView o (apply_all o (create_commands s j) db)) same
        (l.exec_done (create_commands s j) db done)

  pub create-Created :
      (s : Store) (j : Job) (db db' : Db)
      → create_and_enqueue o s j db ≡ (none, db')
      → Created s j db db'
  unfolding create_and_enqueue
  create-Created s j db db' h = elim (Option-cases (check_depth o s db)) [
    | inl room ↦ record {
      room = room;
      view = push-view s j db db' (rw (room, create_and_enqueue) at h);
    }
    | inr (e, refused) ↦ absurd (cc (ap (λ x. x.0) (rw (refused, create_and_enqueue) at h)))
  ]

  pub update-view :
      (s : Store) (id : Text) (kvs : List (Text × Text)) (db db' : Db)
      → update o s id kvs db ≡ (none, db')
      → SameView o (apply_all o (hset (job_key id) kvs ∷ expire (job_key id) s.job_ttl ∷ []) db) db'
  unfolding update
  update-view s id kvs db db' h =
      let commands = hset (job_key id) kvs ∷ expire (job_key id) s.job_ttl ∷ [] in
      let (done, same) = wrap_reply-eq-none _ (exec commands db) db' h in
      subst (SameView o (apply_all o commands db)) same (l.exec_done commands db done)

  pub field-create :
      (s : Store) (j : Job) (db db' : Db) (k f : Text)
      → ltb_ℤ (pos 0) s.job_ttl ≡ true
      → create_and_enqueue o s j db ≡ (none, db')
      → field db' k f ≡ (
          if text_eq (job_key j.id) k
          then or_else (lookup f (initial_fields j)) (field db k f)
          else field db k f)
  field-create s j db db' k f h e =
      (create-Created s j db db' e).view.same_field k f ∙ create_commands-field s j db k f h

  pub field-update :
      (s : Store) (id : Text) (kvs : List (Text × Text)) (db db' : Db) (k f : Text)
      → ltb_ℤ (pos 0) s.job_ttl ≡ true
      → update o s id kvs db ≡ (none, db')
      → field db' k f
        ≡ (if text_eq (job_key id) k then or_else (lookup f kvs) (field db k f) else field db k f)
  field-update s id kvs db db' k f h e =
      (update-view s id kvs db db' e).same_field k f ∙ rw (l.expire-field, l.hset-field, h)
