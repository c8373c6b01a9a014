-- ===== src/Store/Jobs.antt =====
-- What Get answers after the other methods of the store.
use mathlib.Core.Path.{fun_ext}
use worker_thoth.Base.{
  ◌≡◌, refl, sym, ap, ◌∙◌, ◌≢◌, true, Option, none, some, List, [], ◌∷◌, arith, Text, codes,
  text_eq_refl, text_eq_iff, pos, ltb_ℤ, GoError, ok-injective, ok, err, Result,
}
use worker_thoth.Base.Dict.{lookup}
use worker_thoth.Job.{Job, status_processing, status_completed, status_failed}
use worker_thoth.Redis.{Ops, Laws, or_else, or_else-none}
use worker_thoth.Store.{
  Store, job_key, job_of_reply, job_of_fields, create_and_enqueue, get, update, set_processing,
  set_completed, set_failed,
}
use worker_thoth.Store.Fields.{initial_fields, get-found, field-create, field-update}

-- The three writes of the worker, and what each is to make of a job.
pub data Write : Type 0 where
  processing : Write
  completed failed : Text → Text → Write

abbrev pub written : Write → Job → Job
written processing j = record j { status = status_processing }
written (completed result now) j = record j {
  status = status_completed;
  result = result;
  completed_at = now;
}
written (failed err_msg now) j = record j {
  status = status_failed;
  error = err_msg;
  completed_at = now;
}

abbrev pub perform : (o : Ops) → Store → Text → Write → o.Db → Option GoError × o.Db
perform o s id processing db = set_processing o s id db
perform o s id (completed result now) db = set_completed o s id result now db
perform o s id (failed err_msg now) db = set_failed o s id err_msg now db

job_of_reply-eq-ok :
    (id : Text) (r : Result GoError (List (Text × Text))) (j : Job)
    → job_of_reply id r ≡ ok j
    → (kvs : List (Text × Text)) × (r ≡ ok kvs) × (job_of_fields id (λ f. lookup f kvs) ≡ j)
job_of_reply-eq-ok id (ok []) j h = absurd (cc)
job_of_reply-eq-ok id (ok (kv ∷ kvs)) j h = (kv ∷ kvs, refl, ok-injective h)
job_of_reply-eq-ok id (err e) j h = absurd (cc)

module _ (o : Ops) (l : Laws o) (s : Store) (lives : ltb_ℤ (pos 0) s.job_ttl ≡ true) where
  open o use {Db, field, hgetall}

  -- With a time to live that is positive: a job that CreateAndEnqueue accepted under an ID with no
  -- fields is returned by Get, when HGETALL answers, as it was given, with the result, the error
  -- and the time of completion empty.
  pub get-create :
      (j : Job) (db db' : Db) (kvs : List (Text × Text))
      → ((f : Text) → field db (job_key j.id) f ≡ none)
      → create_and_enqueue o s j db ≡ (none, db')
      → hgetall db' (job_key j.id) ≡ ok kvs
      → get o j.id db' ≡ ok (record j { result = []; error = []; completed_at = [] })
  get-create j db db' kvs unused created reply =
      let found : (f : Text) → field db' (job_key j.id) f ≡ lookup f (initial_fields j) = λ f.
        field-create o l s j db db' (job_key j.id) f lives created
        ∙ rw (text_eq_refl j.id, unused f) (or_else-none (lookup f (initial_fields j))) in
      get-found o l j.id db' kvs j.status reply (found (codes "status"))
      ∙ ap (λ vals. ok (job_of_fields j.id vals)) (fun_ext found)

  -- What Get returns is read from the hash.
  get-eq-ok :
      (id : Text) (db : Db) (j : Job)
      → get o id db ≡ ok j
      → job_of_fields id (field db (job_key id)) ≡ j
  unfolding get
  get-eq-ok id db j h =
      let (kvs, reply, read) = job_of_reply-eq-ok id (hgetall db (job_key id)) j h in
      ap (job_of_fields id) (sym (fun_ext (l.hgetall-field db (job_key id) kvs reply))) ∙ read

  get-update :
      (id : Text) (fields : List (Text × Text)) (v : Text) (db db' : Db) (kvs : List (Text × Text))
      → lookup (codes "status") fields ≡ some v
      → update o s id fields db ≡ (none, db')
      → hgetall db' (job_key id) ≡ ok kvs
      → get o id db'
        ≡ ok (job_of_fields id (λ f. or_else (lookup f fields) (field db (job_key id) f)))
  get-update id fields v db db' kvs has_status updated reply =
      let found : (f : Text)
          → field db' (job_key id) f ≡ or_else (lookup f fields) (field db (job_key id) f) =
        λ f.
          field-update o l s id fields db db' (job_key id) f lives updated ∙ rw (text_eq_refl id) in
      get-found o l id db' kvs v reply (found (codes "status") ∙ rw has_status)
      ∙ ap (λ vals. ok (job_of_fields id vals)) (fun_ext found)

  get-set_processing :
      (id : Text) (j : Job) (db db' : Db) (kvs : List (Text × Text))
      → get o id db ≡ ok j
      → hgetall db' (job_key id) ≡ ok kvs
      → set_processing o s id db ≡ (none, db')
      → get o id db' ≡ ok (record j { status = status_processing })
  unfolding set_processing
  get-set_processing id j db db' kvs h reply e =
      get-update id _ status_processing db db' kvs refl e reply
      ∙ ap (λ (k : Job). ok (record k { status = status_processing })) (get-eq-ok id db j h)

  get-set_completed :
      (id result now : Text) (j : Job) (db db' : Db) (kvs : List (Text × Text))
      → get o id db ≡ ok j
      → hgetall db' (job_key id) ≡ ok kvs
      → set_completed o s id result now db ≡ (none, db')
      → get o id db'
        ≡ ok (record j { status = status_completed; result = result; completed_at = now })
  unfolding set_completed
  get-set_completed id result now j db db' kvs h reply e =
      get-update id _ status_completed db db' kvs refl e reply
      ∙ ap
          (λ (k : Job).
            ok (record k { status = status_completed; result = result; completed_at = now }))
          (get-eq-ok id db j h)

  get-set_failed :
      (id err_msg now : Text) (j : Job) (db db' : Db) (kvs : List (Text × Text))
      → get o id db ≡ ok j
      → hgetall db' (job_key id) ≡ ok kvs
      → set_failed o s id err_msg now db ≡ (none, db')
      → get o id db' ≡ ok (record j { status = status_failed; error = err_msg; completed_at = now })
  unfolding set_failed
  get-set_failed id err_msg now j db db' kvs h reply e =
      get-update id _ status_failed db db' kvs refl e reply
      ∙ ap
          (λ (k : Job).
            ok (record k { status = status_failed; error = err_msg; completed_at = now }))
          (get-eq-ok id db j h)

  -- With a time to live that is positive: a job that Get returned is, once SetProcessing,
  -- SetCompleted or SetFailed has succeeded and HGETALL answers, returned by Get with the fields
  -- set that the method writes, and with no other change.
  pub get-perform :
      (w : Write) (id : Text) (j : Job) (db db' : Db) (kvs : List (Text × Text))
      → get o id db ≡ ok j
      → perform o s id w db ≡ (none, db')
      → hgetall db' (job_key id) ≡ ok kvs
      → get o id db' ≡ ok (written w j)
  get-perform processing id j db db' kvs h e reply = get-set_processing id j db db' kvs h reply e
  get-perform (completed result now) id j db db' kvs h e reply =
      get-set_completed id result now j db db' kvs h reply e
  get-perform (failed err_msg now) id j db db' kvs h e reply =
      get-set_failed id err_msg now j db db' kvs h reply e

  -- With a time to live that is positive: an update of a job that succeeds leaves the hash of every
  -- other job as it is.
  pub update-other :
      (id other f : Text) (fields : List (Text × Text)) (db db' : Db)
      → id ≢ other
      → update o s id fields db ≡ (none, db')
      → field db' (job_key other) f ≡ field db (job_key other) f
  update-other id other f fields db db' ne updated =
      field-update o l s id fields db db' (job_key other) f lives updated
      ∙ ground (arith, text_eq_iff id other)
