-- ===== src/Whisper.antt =====
-- internal/whisper/client.go: the HTTP client of the hosted Whisper service.
pub mod Gate
pub mod Answer
mod Tests
use worker_thoth.Base.{
  ℕ, ◌≡◌, Bool, true, false, Option, none, some, List, [], ◌∷◌, ◌++◌, Text, codes, decimal,
  is_empty, take, length, ltb, leb, ◌==◌, if◌then◌else◌, GoError, message, wrap, transient,
  queue_full, not_found, too_large, Result, ok, err, ◌>>=◌, map_err,
}
use worker_thoth.Outside.{Outside, HttpRequest, Response, Body}

abbrev pub max_error_body : ℕ
max_error_body = 4096

-- The struct Client, less the http.Client, of which the timeout is left, and the gate.
pub record Client : Type 0 where
  pub base_url : Text
  pub api_key : Text
  pub timeout : ℕ

-- New. The gate is made with room for one.
abbrev pub new_client : Text → Text → ℕ → Client
new_client base_url api_key timeout = record {
  base_url = base_url;
  api_key = api_key;
  timeout = timeout;
}

-- IsTransient: errors.As finds a transientError in the chain.
unfoldable pub is_transient : GoError → Bool
is_transient (message t) = false
is_transient (wrap p e) = is_transient e
is_transient (transient e) = true
is_transient queue_full = false
is_transient not_found = false
is_transient (too_large n) = false

-- upstreamErr.
unfoldable pub upstream_err : ℕ → Text → GoError
upstream_err status body = message (
    codes "whisper upstream returned "
    ++ decimal status
    ++ codes ": "
    ++ (if ltb max_error_body (length body) then take max_error_body body else body))

-- safeFilename.
abbrev pub safe_filename : Text → Text
safe_filename name = if is_empty name then codes "audio" else name

-- The switch on the status code.
unfoldable pub classify : ℕ → Text → Result GoError Text
unfolding upstream_err
classify status body =
    if status == 200
    then ok body
    else if leb 500 status
    then err (transient (upstream_err status body))
    else err (upstream_err status body)

-- What io.ReadAll makes of a body.
abbrev pub read_all : Body → Result GoError Text
read_all b = elim b.fault [ none ↦ ok b.bytes | some e ↦ err e ]

-- What Transcribe makes of the answer of http.Client.Do. The string is Result.Body.
unfoldable pub answer_of : Result GoError Response → Result GoError Text
unfolding classify
answer_of (err e) = err (transient (wrap (codes "whisper request") e))
answer_of (ok resp) = elim (read_all resp.body) [
  | err e ↦ err (transient (wrap (codes "read whisper response") e))
  | ok body ↦ classify resp.status_code body
]

abbrev pub request_or_err : Option GoError → HttpRequest → Result GoError HttpRequest
request_or_err none r = ok r
request_or_err (some e) r = err (wrap (codes "build request") e)

module _ (x : Outside) where
  open x use {
    World, enter_gate, leave_gate, request_error, send, Form, new_form, create_form_file,
    write_part, write_field, close_form, form_bytes, content_type,
  }

  -- The part of Transcribe in front of the gate.
  unfoldable pub build_request : Client → Text → Text → Text → World → Result GoError HttpRequest
  build_request c filename audio language w = do
    part ←
        map_err (wrap (codes "build multipart"))
          (create_form_file (codes "audio") (safe_filename filename) (new_form w))
    written ← map_err (wrap (codes "write audio part")) (write_part audio part)
    field ←
        map_err (wrap (codes "write language field"))
          (write_field (codes "language") language written)
    form ← map_err (wrap (codes "close multipart")) (close_form field)
    request_or_err (request_error (c.base_url ++ codes "/transcribe")) (record {
      method = codes "POST";
      url = c.base_url ++ codes "/transcribe";
      body = form_bytes form;
      headers = (codes "Content-Type", content_type form) ∷ (codes "X-API-Key", c.api_key) ∷ [];
    })

  -- The part behind it: the gate is left whatever the answer is.
  unfoldable pub send_gated : Client → HttpRequest → World → Result GoError Text × World
  send_gated c r w =
      let (refused, w1) = enter_gate w in
      elim refused [
        | some e ↦ (err (transient (wrap (codes "whisper gate wait") e)), w1)
        | none ↦ let (reply, w2) = send c.timeout r w1 in (answer_of reply, leave_gate w2)
      ]

  unfoldable pub transcribe : Client → Text → Text → Text → World → Result GoError Text × World
  transcribe c filename audio language w = elim (build_request c filename audio language w) [
    | err e ↦ (err e, w)
    | ok r ↦ send_gated c r w
  ]
