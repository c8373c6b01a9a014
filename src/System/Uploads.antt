-- ===== src/System/Uploads.antt =====
-- The steps of one request, with no other in between, come to handleUpload.
use worker_thoth.Base.{◌≡◌, refl, inl, inr, Option, none, some, Result-cases, GoError}
use worker_thoth.Outside.{Outside}
use worker_thoth.Redis.{Ops}
use worker_thoth.Store
use worker_thoth.Worker.{Process}
use worker_thoth.Server.{Config, received, stash, admitted, handle_upload}
use worker_thoth.System.{
  UploadPhase, arrived, replied, Upload, service_of, with_service, upload_job, enqueued,
  advance_upload,
}

module _ (o : Ops) (x : Outside) (c : Config) (st : Store.Store) (u : Upload) where
  abbrev pub after_upload : UploadPhase × Process o x → UploadPhase × Process o x
  after_upload (ph, p) = advance_upload o x c st u ph p

  -- The two steps behind Put.
  enqueued-admitted :
      (r : Option GoError × o.Db) (p : Process o x)
      → after_upload (enqueued o x u.id r p) ≡ (
        replied (admitted o u.id r (service_of o x p)).0,
        with_service o x p (admitted o u.id r (service_of o x p)).1,
      )
  unfolding advance_upload
  enqueued-admitted (none, db) p = refl
  enqueued-admitted (some e, db) p = refl

  -- Three steps of one upload, with no other goroutine in between, come to the reply and the state
  -- that handleUpload computes.
  pub upload-run :
      (p : Process o x)
      → let (reply, s) = handle_upload o c st u.form u.id u.now (service_of o x p) in
        after_upload (after_upload (after_upload (arrived, p)))
        ≡ (replied reply, with_service o x p s)
  unfolding advance_upload handle_upload
  upload-run p = elim (Result-cases (received c.max_audio_bytes u.form)) [
    | inl ((filename, bytes), got) ↦
        let q = with_service o x p (stash o u.id filename bytes (service_of o x p)) in
        rw (got, handle_upload, advance_upload)
          (enqueued-admitted (Store.create_and_enqueue o st (upload_job c u) q.db) q)
    | inr (r, got) ↦ rw (got, handle_upload, advance_upload)
  ]
