-- ===== src/Server/Jobs.antt =====
-- internal/server: handleURL and handleGetJob, with jobView.
pub mod Views
use worker_thoth.Base.{
  Bool, true, false, ◌&&◌, ◌||◌, not, Option, none, some, List, [], ◌∷◌, ◌++◌, Text, codes,
  is_empty, text_eq, if◌then◌else◌, GoError, Result, ok, err,
}
use worker_thoth.Job.{Job, source_url}
use worker_thoth.Redis.{Ops}
use worker_thoth.Store
use worker_thoth.Server.{
  Config, Reply, Value, string, raw, error_reply, first_non_empty, new_queued_job, is_not_found,
  handle_enqueue_error, accepted_reply,
}

-- The scheme and the host that url.Parse finds, `none` for its error.
abbrev pub http_parts : Option (Text × Text) → Bool
http_parts none = false
http_parts (some (scheme, host)) =
    (text_eq scheme (codes "http") || text_eq scheme (codes "https")) && not (is_empty host)

-- rawOrString; `valid` is json.Valid.
abbrev pub raw_or_string : (Text → Bool) → Text → Value
raw_or_string valid s = if valid s then raw s else string s

abbrev optional_field : Text → Text → Value → List (Text × Value)
optional_field name s value = if is_empty s then [] else (name, value) ∷ []

-- jobView. The order of the fields does not count: in Go it is a map.
abbrev pub job_view : (Text → Bool) → Job → List (Text × Value)
job_view valid j =
    (codes "jobId", string j.id)
    ∷ (codes "status", string j.status)
    ∷ (codes "createdAt", string j.created_at)
    ∷ (optional_field (codes "completedAt") j.completed_at (string j.completed_at)
        ++ optional_field (codes "error") j.error (string j.error)
        ++ optional_field (codes "result") j.result (raw_or_string valid j.result))

abbrev pub get_job_reply : (Text → Bool) → Result GoError Job → Reply
get_job_reply valid (err e) =
    if is_not_found e
    then error_reply 404 (codes "job not found or expired")
    else error_reply 500 (codes "internal error")
get_job_reply valid (ok j) = record { status = 200; headers = []; body = job_view valid j }

module _ (o : Ops) where
  open o use {Db}

  -- handleGetJob, of the ID in the path.
  unfoldable pub handle_get_job : (Text → Bool) → Text → Db → Reply
  handle_get_job valid id db = get_job_reply valid (Store.get o id db)

  abbrev pub url_admitted : Text → Option GoError × Db → Reply × Db
  url_admitted id (none, db) = (accepted_reply id, db)
  url_admitted id (some e, db) = (handle_enqueue_error e, db)

  -- handleURL. `parse_url` is url.Parse; `decoded` is the URL and the language that the JSON
  -- decoder found under the limit of MaxBytesReader, `none` for its error.
  unfoldable pub handle_url :
      Config
      → Store.Store
      → (Text → Option (Text × Text))
      → Option (Text × Text)
      → Text
      → Text
      → Db
      → Reply × Db
  handle_url c st parse_url none id now db = (error_reply 400 (codes "invalid JSON body"), db)
  handle_url c st parse_url (some (url, language)) id now db =
      let j =
        new_queued_job id source_url url (first_non_empty (language ∷ c.default_language ∷ []))
          now in
      if is_empty url
      then (error_reply 400 (codes "missing required 'url' field"), db)
      else if not (http_parts (parse_url url))
      then (error_reply 400 (codes "url must be an absolute http(s) URL"), db)
      else url_admitted id (Store.create_and_enqueue o st j db)
