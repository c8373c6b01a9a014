-- ===== src/Store.antt =====
-- internal/redisstore/store.go: the job queue (a Redis stream) and the job states (hashes).
-- A method is a function on the state of Redis; it returns its error, nil as `none`.
pub mod Fields
pub mod Jobs
pub mod Queue
pub mod Race
pub mod Connect
pub mod Expiry
mod Tests
use worker_thoth.Base.{
  ℕ, ◌≡◌, Bool, true, false, Option, none, some, List, [], ◌∷◌, ◌++◌, map, Text, codes, text_eq,
  if◌then◌else◌, ℤ, pos, leb_ℤ, GoError, error_text, wrap, queue_full, not_found, Result, ok, err,
}
use worker_thoth.Base.Dict.{lookup}
use worker_thoth.Job.{Job, status_processing, status_completed, status_failed}
use worker_thoth.Redis.{
  Ops, Command, hset, expire, xadd, xack, xdel, XMessage, XStream, ReadReply, nil, failed, streams,
}

abbrev pub stream_key : Text
stream_key = codes "transcription:queue"

abbrev pub group_name : Text
group_name = codes "workers"

abbrev pub field_job_id : Text
field_job_id = codes "jobId"

abbrev pub job_key : Text → Text
job_key id = codes "job:" ++ id

-- The struct Store, less the client.
pub record Store : Type 0 where
  pub job_ttl : ℤ
  pub queue_size : ℤ

-- The struct QueuedMessage.
pub record QueuedMessage : Type 0 where
  pub message_id : Text
  pub job_id : Text

-- `vals[f]`, the empty string for a missing field.
abbrev pub value_or_empty : Option Text → Text
value_or_empty none = []
value_or_empty (some v) = v

abbrev pub job_of_fields : Text → (Text → Option Text) → Job
job_of_fields id vals = record {
  id = id;
  status = value_or_empty (vals (codes "status"));
  source = value_or_empty (vals (codes "source"));
  url = value_or_empty (vals (codes "url"));
  language = value_or_empty (vals (codes "language"));
  result = value_or_empty (vals (codes "result"));
  error = value_or_empty (vals (codes "error"));
  created_at = value_or_empty (vals (codes "createdAt"));
  completed_at = value_or_empty (vals (codes "completedAt"));
}

-- The test of CreateAndEnqueue, behind the call of XLEN.
abbrev pub depth_error : ℤ → Result GoError ℕ → Option GoError
depth_error size (err e) = some (wrap (codes "queue length") e)
depth_error size (ok n) = if leb_ℤ size (pos n) then some queue_full else none

-- Get, behind the call of HGETALL.
abbrev pub job_of_reply : Text → Result GoError (List (Text × Text)) → Result GoError Job
job_of_reply id (err e) = err (wrap (codes "get job") e)
job_of_reply id (ok []) = err not_found
job_of_reply id (ok (v ∷ vs)) = ok (job_of_fields id (λ f. lookup f (v ∷ vs)))

abbrev pub wrap_reply : {D : Type 0} → Text → Option GoError × D → Option GoError × D
wrap_reply p (none, db) = (none, db)
wrap_reply p (some e, db) = (some (wrap p e), db)

-- The commands of CreateAndEnqueue.
abbrev pub create_commands : Store → Job → List Command
create_commands s j =
    hset (job_key j.id) (
      (codes "status", j.status)
      ∷ (codes "source", j.source)
      ∷ (codes "url", j.url)
      ∷ (codes "language", j.language)
      ∷ (codes "createdAt", j.created_at)
      ∷ [])
    ∷ expire (job_key j.id) s.job_ttl
    ∷ xadd stream_key ((field_job_id, j.id) ∷ [])
    ∷ []

-- toXMessages.
unfoldable pub to_x_messages : List XMessage → List QueuedMessage
to_x_messages [] = []
to_x_messages (m ∷ ms) =
    record { message_id = m.id; job_id = value_or_empty (lookup field_job_id m.values) }
    ∷ to_x_messages ms

-- toMessages.
unfoldable pub to_messages : List XStream → List QueuedMessage
unfolding to_x_messages
to_messages [] = []
to_messages (st ∷ sts) = to_x_messages st.messages ++ to_messages sts

-- Read: redis.Nil means that the wait ended with no message.
abbrev pub read_result : ReadReply → Result GoError (List QueuedMessage)
read_result nil = ok []
read_result (failed e) = err (wrap (codes "read group") e)
read_result (streams sts) = ok (to_messages sts)

abbrev pub claim_result : Result GoError (List XMessage) → Result GoError (List QueuedMessage)
claim_result (err e) = err (wrap (codes "autoclaim") e)
claim_result (ok ms) = ok (to_x_messages ms)

-- BUSYGROUP means that the group is there already.
abbrev pub group_error : Option GoError → Option GoError
group_error none = none
group_error (some e) =
    if text_eq (error_text e) (codes "BUSYGROUP Consumer Group name already exists")
    then none
    else some (wrap (codes "create consumer group") e)

module _ (o : Ops) where
  open o use {Db, ping, group_create, xlen, hgetall, exec, read_group, auto_claim}

  -- The first half of CreateAndEnqueue: the test of the depth.
  unfoldable pub check_depth : Store → Db → Option GoError
  check_depth s db = depth_error s.queue_size (xlen db stream_key)

  -- The second half: the transaction.
  unfoldable pub push_job : Store → Job → Db → Option GoError × Db
  push_job s j db = wrap_reply (codes "enqueue job") (exec (create_commands s j) db)

  unfoldable pub create_and_enqueue : Store → Job → Db → Option GoError × Db
  create_and_enqueue s j db = elim (check_depth s db) [
    | some e ↦ (some e, db)
    | none ↦ push_job s j db
  ]

  unfoldable pub get : Text → Db → Result GoError Job
  get id db = job_of_reply id (hgetall db (job_key id))

  unfoldable pub update : Store → Text → List (Text × Text) → Db → Option GoError × Db
  update s id fields db =
      wrap_reply (codes "update job " ++ id)
        (exec (hset (job_key id) fields ∷ expire (job_key id) s.job_ttl ∷ []) db)

  unfoldable pub set_processing : Store → Text → Db → Option GoError × Db
  set_processing s id = update s id ((codes "status", status_processing) ∷ [])

  unfoldable pub set_completed : Store → Text → Text → Text → Db → Option GoError × Db
  set_completed s id result completed_at = update s id (
      (codes "status", status_completed)
      ∷ (codes "result", result)
      ∷ (codes "completedAt", completed_at)
      ∷ [])

  unfoldable pub set_failed : Store → Text → Text → Text → Db → Option GoError × Db
  set_failed s id err_msg completed_at = update s id (
      (codes "status", status_failed)
      ∷ (codes "error", err_msg)
      ∷ (codes "completedAt", completed_at)
      ∷ [])

  unfoldable pub read : Text → ℕ → ℕ → Db → Result GoError (List QueuedMessage) × Db
  read consumer count block db =
      let (reply, db') = read_group group_name consumer stream_key count block db in
      (read_result reply, db')

  unfoldable pub claim : Text → ℕ → ℕ → Db → Result GoError (List QueuedMessage) × Db
  claim consumer min_idle count db =
      let (reply, db') =
        auto_claim stream_key group_name consumer min_idle (codes "0-0") count db in
      (claim_result reply, db')

  unfoldable pub ack : Text → Db → Option GoError × Db
  ack message_id db =
      wrap_reply (codes "ack message " ++ message_id)
        (exec (xack stream_key group_name message_id ∷ xdel stream_key message_id ∷ []) db)

  unfoldable pub queue_len : Db → Result GoError ℕ
  queue_len db = xlen db stream_key

  unfoldable pub ensure_group : Db → Option GoError × Db
  ensure_group db =
      let (reply, db') = group_create stream_key group_name (codes "0") db in
      (group_error reply, db')
