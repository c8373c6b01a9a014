-- ===== src/Store/Expiry.antt =====
-- The time to live of job states.
use worker_thoth.Base.{
  ◌≡◌, refl, ◌∙◌, true, false, none, some, List, Text, codes, text_eq_refl, pos, ltb_ℤ, not_found,
  ok, err,
}
use worker_thoth.Base.Dict.{lookup}
use worker_thoth.Job.{Job}
use worker_thoth.Redis.{Ops, Laws}
use worker_thoth.Store.{Store, job_key, create_and_enqueue, get, update}
use worker_thoth.Store.Fields.{initial_fields, create-Created, update-view, get-missing}

module _ (o : Ops) (l : Laws o) (s : Store) where
  open o use {Db, field, ttl, hgetall, seconds}

  -- With a time to live that is positive: an update that succeeds, and writes some field, starts
  -- the time to live of the job anew.
  pub ttl-update :
      (id f v : Text) (fields : List (Text × Text)) (db db' : Db)
      → ltb_ℤ (pos 0) s.job_ttl ≡ true
      → lookup f fields ≡ some v
      → update o s id fields db ≡ (none, db')
      → ttl db' (job_key id) ≡ some (seconds s.job_ttl)
  ttl-update id f v fields db db' lives writes updated =
      (update-view o l s id fields db db' updated).same_ttl (job_key id)
      ∙ l.expire-ttl (job_key id) s.job_ttl _ f v lives
          (l.hset-field (job_key id) fields db (job_key id) f ∙ rw (text_eq_refl id, writes))

  -- With a time to live that is positive: a job that CreateAndEnqueue accepted has that time to
  -- live.
  pub ttl-create :
      (j : Job) (db db' : Db)
      → ltb_ℤ (pos 0) s.job_ttl ≡ true
      → create_and_enqueue o s j db ≡ (none, db')
      → ttl db' (job_key j.id) ≡ some (seconds s.job_ttl)
  ttl-create j db db' lives created =
      (create-Created o l s j db db' created).view.same_ttl (job_key j.id)
      ∙ l.xadd-ttl _ _ _ (job_key j.id) refl
      ∙ l.expire-ttl (job_key j.id) s.job_ttl _ (codes "status") j.status lives (
          l.hset-field (job_key j.id) (initial_fields j) db (job_key j.id) (codes "status")
          ∙ rw (text_eq_refl j.id))

  -- With a time to live that is not positive: a job that CreateAndEnqueue accepted is gone at once,
  -- and Get, when HGETALL answers, returns ErrNotFound.
  pub get-create_expired :
      (j : Job) (db db' : Db) (kvs : List (Text × Text))
      → ltb_ℤ (pos 0) s.job_ttl ≡ false
      → create_and_enqueue o s j db ≡ (none, db')
      → hgetall db' (job_key j.id) ≡ ok kvs
      → get o j.id db' ≡ err not_found
  get-create_expired j db db' kvs dead created reply = get-missing o l j.id db' kvs reply (λ f.
      (create-Created o l s j db db' created).view.same_field (job_key j.id) f
      ∙ rw (l.xadd-field, l.expire-field, dead, text_eq_refl j.id))
