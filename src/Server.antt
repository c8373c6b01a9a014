-- ===== src/Server.antt =====
-- internal/server/server.go and helpers.go: the HTTP handlers that accept jobs and report on them.
-- A handler gets what the packages net/http and encoding/json have made of the request, and returns
-- its reply with the new state. Log lines are left out.
pub mod Auth
pub mod Received
pub mod Left
pub mod Upload
pub mod Jobs
pub mod Health
pub mod Routes
mod Tests
use worker_thoth.Base.{
  ℕ, ◌+◌, ◌-◌, ◌^◌, Bool, true, false, not, ◌&&◌, Option, none, some, List, [], ◌∷◌, ◌++◌, map,
  Text, codes, is_empty, text_eq, trim_space, length, take, drop, ltb, leb, if◌then◌else◌, ℤ, pos,
  negsuc, ltb_ℤ, GoError, message, wrap, transient, queue_full, not_found, too_large, Result, ok,
  err, ◌>>=◌,
}
use worker_thoth.Job.{Job, Source, status_queued, source_upload, source_url}
use worker_thoth.Redis.{Ops}
use worker_thoth.Audio.Memory.{Heap, new_array, new_clip, abandon}
use worker_thoth.Audio
use worker_thoth.Store

-- The settings that the handlers read.
pub record Config : Type 0 where
  pub api_key : Text
  pub max_audio_bytes : ℕ
  pub default_language : Text

-- A value of a JSON object: a string, raw JSON, a number that is not negative, a Boolean, null, or
-- an object, of which the order of the fields does not count.
mutual
  pub data Value : Type 0 where
    string raw : Text → Value
    number : ℕ → Value
    boolean : Bool → Value
    null : Value
    object : Fields → Value

  pub data Fields : Type 0 where
    no_field : Fields
    field : Text → Value → Fields → Fields

-- A status code, headers besides the content type, and the object of the body.
pub record Reply : Type 0 where
  pub status : ℕ
  pub headers : List (Text × Text)
  pub body : List (Text × Value)

abbrev pub error_reply : ℕ → Text → Reply
error_reply status msg = record {
  status = status;
  headers = [];
  body = (codes "error", string msg) ∷ [];
}

-- firstNonEmpty.
abbrev pub first_non_empty : List Text → Text
first_non_empty [] = []
first_non_empty (v ∷ vs) = if is_empty v then first_non_empty vs else v

abbrev pub lower_letter : ℕ → ℕ
lower_letter c = if leb b'A' c && leb c b'Z' then c + 32 else c

-- strings.EqualFold against a text of ASCII characters with no k and no s, the two letters that
-- have a third form in Unicode.
abbrev pub equal_fold : Text → Text → Bool
equal_fold s t = text_eq (map lower_letter s) (map lower_letter t)

abbrev pub bearer : Text
bearer = codes "Bearer "

abbrev pub bearer_token : Text → Text
bearer_token value =
    if ltb 7 (length value) && equal_fold (take 7 value) bearer
    then trim_space (drop 7 value)
    else []

-- extractAPIKey; `header` is Header.Get, which is empty for a header that is missing.
unfoldable pub extract_api_key : (Text → Text) → Text
extract_api_key header =
    if is_empty (header (codes "X-API-Key"))
    then (if is_empty (header (codes "Authorization"))
        then []
        else bearer_token (header (codes "Authorization")))
    else header (codes "X-API-Key")

abbrev pub unauthorized : Reply
unauthorized =
    error_reply 401 (codes "invalid or missing API key (X-API-Key or Authorization: Bearer)")

-- auth, around a handler. subtle.ConstantTimeCompare gives 1 for equal byte slices.
unfoldable pub auth : {S : Type 0} → Config → (Text → Text) → (S → Reply × S) → S → Reply × S
auth c header next s =
    if text_eq (extract_api_key header) c.api_key then next s else (unauthorized, s)

-- newQueuedJob.
abbrev pub new_queued_job : Text → Source → Text → Text → Text → Job
new_queued_job id source url language now = record {
  id = id;
  status = status_queued;
  source = source;
  url = url;
  language = language;
  result = [];
  error = [];
  created_at = now;
  completed_at = [];
}

abbrev pub is_queue_full : GoError → Bool
is_queue_full (message t) = false
is_queue_full (wrap p e) = is_queue_full e
is_queue_full (transient e) = is_queue_full e
is_queue_full queue_full = true
is_queue_full not_found = false
is_queue_full (too_large n) = false

abbrev pub is_not_found : GoError → Bool
is_not_found (message t) = false
is_not_found (wrap p e) = is_not_found e
is_not_found (transient e) = is_not_found e
is_not_found queue_full = false
is_not_found not_found = true
is_not_found (too_large n) = false

-- handleEnqueueError.
unfoldable pub handle_enqueue_error : GoError → Reply
handle_enqueue_error e =
    if is_queue_full e
    then record (error_reply 429 (codes "queue is full, retry later")) {
      headers = (codes "Retry-After", codes "30") ∷ [];
    }
    else error_reply 500 (codes "failed to enqueue job")

abbrev pub accepted_reply : Text → Reply
accepted_reply id = record {
  status = 202;
  headers = [];
  body = (codes "jobId", string id) ∷ (codes "status", string status_queued) ∷ [];
}

-- What the calls of Read on an uploaded file return: some bytes, with no error, with io.EOF, or
-- with another error.
pub data Reads : Type 0 where
  more : Text → Reads → Reads
  end_of_file broken : Text → Reads

-- A file part of the form: the header's name and size, and the contents.
pub record AudioFile : Type 0 where
  pub filename : Text
  pub size : ℤ
  pub reads : Reads

-- What ParseMultipartForm and FormFile give: whether the form is parsed under a limit of bytes,
-- which MaxBytesReader enforces, the part "audio", and the value "language".
pub record UploadForm : Type 0 where
  pub parsed : ℤ → Bool
  pub audio_file : Option AudioFile
  pub language : Text

abbrev pub too_big : Reply
too_big = error_reply 413 (codes "audio exceeds MAX_AUDIO_BYTES")

-- `if n > 0`: the bytes are appended, and the sum is tested.
abbrev pub append_read : ℕ → Text → Text → Result Reply Text
append_read max_bytes data_read bytes =
    if is_empty bytes
    then ok data_read
    else if ltb max_bytes (length (data_read ++ bytes))
    then err too_big
    else ok (data_read ++ bytes)

-- The loop that reads the file.
unfoldable pub read_audio : ℕ → Text → Reads → Result Reply Text
read_audio max_bytes data_read (more bytes rest) =
    append_read max_bytes data_read bytes >>= λ grown. read_audio max_bytes grown rest
read_audio max_bytes data_read (end_of_file bytes) = append_read max_bytes data_read bytes
read_audio max_bytes data_read (broken bytes) = append_read max_bytes data_read bytes >>= λ grown.
    err (error_reply 400 (codes "failed to read audio"))

abbrev pub received_file : ℕ → Option AudioFile → Result Reply (Text × Text)
received_file max_bytes none = err (error_reply 400 (codes "missing required 'audio' file field"))
received_file max_bytes (some f) =
    if ltb_ℤ (pos max_bytes) f.size
    then err too_big
    else read_audio max_bytes [] f.reads >>= λ bytes. ok (f.filename, bytes)

-- MaxAudioBytes + (1 << 20) as an int64: it wraps to a negative limit.
unfoldable pub form_limit : ℕ → ℤ
form_limit max_bytes =
    let sum = max_bytes + 2 ^ 20 in if ltb sum (2 ^ 63) then pos sum else negsuc (2 ^ 64 - sum - 1)

-- `data`, where the loop that reads the file returns: it is not overwritten.
unfoldable pub read_left : ℕ → Text → Reads → List Text
read_left max_bytes data_read (more bytes rest) = elim (append_read max_bytes data_read bytes) [
  | err r ↦ (data_read ++ bytes) ∷ []
  | ok grown ↦ read_left max_bytes grown rest
]
read_left max_bytes data_read (end_of_file bytes) = elim (append_read max_bytes data_read bytes) [
  | err r ↦ (data_read ++ bytes) ∷ []
  | ok grown ↦ []
]
read_left max_bytes data_read (broken bytes) = elim (append_read max_bytes data_read bytes) [
  | err r ↦ (data_read ++ bytes) ∷ []
  | ok grown ↦ grown ∷ []
]

abbrev pub file_left : ℕ → Option AudioFile → List Text
file_left max_bytes none = []
file_left max_bytes (some f) =
    if ltb_ℤ (pos max_bytes) f.size then [] else read_left max_bytes [] f.reads

-- What a form that is refused leaves in memory.
unfoldable pub left_behind : ℕ → UploadForm → List Text
left_behind max_bytes form =
    if form.parsed (form_limit max_bytes) then file_left max_bytes form.audio_file else []

-- The first half of handleUpload: the name and the bytes of the audio.
unfoldable pub received : ℕ → UploadForm → Result Reply (Text × Text)
received max_bytes form =
    if form.parsed (form_limit max_bytes)
    then received_file max_bytes form.audio_file
    else err (error_reply 413 (codes "audio exceeds MAX_AUDIO_BYTES or malformed form"))

module _ (o : Ops) where
  open o use {Db}

  -- The state that the handlers share with the workers.
  pub record Service : Type 0 where
    pub db : Db
    pub audio : Audio.Store
    pub heap : Heap

  -- The clip is in memory before the job is in the queue. The bytes were read into a new array.
  unfoldable pub stash : Text → Text → Text → Service → Service
  stash id filename bytes s =
      let (a, h1) = new_array bytes s.heap in
      let (clip, h2) = new_clip (record { filename = filename; data_slice = some a }) h1 in
      record s { audio = Audio.put id clip s.audio; heap = h2 }

  -- The end of handleUpload: the audio of a job that was not accepted is dropped.
  abbrev pub admitted : Text → Option GoError × Db → Service → Reply × Service
  admitted id (none, db) s = (accepted_reply id, record s { db = db })
  admitted id (some e, db) s =
      let (audio, heap) = Audio.drop id s.audio s.heap in
      (handle_enqueue_error e, record { db = db; audio = audio; heap = heap })

  abbrev pub enqueue_upload :
      Config → Store.Store → Text → Text → Text → Text → Text → Service → Reply × Service
  enqueue_upload c st language id now filename bytes s =
      let j =
        new_queued_job id source_upload [] (first_non_empty (language ∷ c.default_language ∷ []))
          now in
      let stashed = stash id filename bytes s in
      admitted id (Store.create_and_enqueue o st j stashed.db) stashed

  -- handleUpload, with the ID that newID gives and the time that nowRFC3339 gives.
  unfoldable pub handle_upload :
      Config → Store.Store → UploadForm → Text → Text → Service → Reply × Service
  handle_upload c st form id now s = elim (received c.max_audio_bytes form) [
    | err r ↦ (r, record s { heap = abandon (left_behind c.max_audio_bytes form) s.heap })
    | ok (filename, bytes) ↦ enqueue_upload c st form.language id now filename bytes s
  ]
