-- ===== src/Server/Tests.antt =====
-- Requests to a server with Redis in memory.
use worker_thoth.Store.Connect
use worker_thoth.Server.Health.{handle_health, health_reports}
use worker_thoth.Server.{number, null}
use worker_thoth.Base.{
  ◌↔◌, false, ℕ, ◌≡◌, none, refl, true, Option, some, [], ◌∷◌, Text, codes, text_eq, trim_space,
  pos, if◌then◌else◌, ok,
}
use worker_thoth.Base.Dict.{lookup}
use worker_thoth.Job.{Job, source_url, status_completed}
use worker_thoth.Redis.Memory.{Server, memory, empty_server}
use worker_thoth.Redis.Memory.Lawful.{memory-Laws}
use worker_thoth.Store
use worker_thoth.Server.{
  Config, Reply, string, extract_api_key, raw, new_queued_job, more, end_of_file, UploadForm,
  Service, error_reply, auth, received, read_audio, stash, handle_upload,
}
use worker_thoth.Server.Jobs.{handle_get_job, handle_url}
use worker_thoth.Server.Jobs.Views.{IsQueued, url_accepted, get_job-completed}
use worker_thoth.Server.Auth.{auth-bearer}
use worker_thoth.Server.Routes.{
  Request, Outer, Moment, dispatch, routes, serve, access_log, AccessEntry,
}
use worker_thoth.Server.Routes
use worker_thoth.Server.Routes.Guarded.{Untouched, serve-Untouched}
use worker_thoth.Window.Tests.{utc_only, night, evening}
use worker_thoth.Server.Upload.{IsStashed, upload_accepted}

abbrev settings : Config
settings = record { api_key = codes "secret"; max_audio_bytes = 4; default_language = codes "pt" }

abbrev headers : Text → Text → Text
headers authorization name = if text_eq name (codes "Authorization") then authorization else []

abbrev teapot : ℕ → Reply × ℕ
teapot n = (error_reply 418 (codes "teapot"), n)

auth-bearer_example : auth settings (headers (codes "bearer secret")) teapot 7 ≡ teapot 7
unfolding trim_space
auth-bearer_example =
    auth-bearer settings (headers (codes "bearer secret")) teapot 7 (codes "bearer ") refl refl refl
      refl (λ e. cc e) refl

abbrev room_for : ℕ → Store.Store
room_for n = record { job_ttl = pos 3_600_000_000_000; queue_size = pos n }

-- Three bytes, in two reads.
abbrev form : UploadForm
form = record {
  parsed = λ limit. true;
  audio_file = some (record {
    filename = codes "a.wav";
    size = pos 3;
    reads = more (7 ∷ 8 ∷ []) (end_of_file (9 ∷ []));
  });
  language = [];
}

abbrev service : Service memory
service = record {
  db = empty_server;
  audio = record { m = [] };
  heap = record { arrays = []; clips = []; abandoned = [] };
}

accepted_status :
    (handle_upload memory settings (room_for 1) form (codes "a1") (codes "now") service).0.status
    ≡ 202
unfolding handle_upload received read_audio Store.create_and_enqueue Store.check_depth stash
    Store.push_job
accepted_status = refl

upload_accepted_example :
    (filename : Text) × (bytes : Text) × IsStashed memory settings
      (room_for 1)
      form
      (codes "a1")
      (codes "now")
      service
      (handle_upload memory settings (room_for 1) form (codes "a1") (codes "now") service).1
      filename
      bytes
upload_accepted_example =
    upload_accepted memory settings (room_for 1) form (codes "a1") (codes "now") service
      accepted_status

abbrev link : Job
link = new_queued_job (codes "a1") source_url (codes "http://x/a.mp3") (codes "pt") (codes "now")

abbrev parsed_url : Text → Option (Text × Text)
parsed_url url = some (codes "http", codes "x")

abbrev after_link : Server
after_link = (Store.create_and_enqueue memory (room_for 1) link empty_server).1

link_status :
    (handle_url memory settings
      (room_for 1)
      parsed_url
      (some (codes "http://x/a.mp3", []))
      (codes "a1")
      (codes "now")
      empty_server).0.status
    ≡ 202
unfolding handle_url Store.create_and_enqueue Store.check_depth Store.push_job
link_status = refl

url_accepted_example :
    let r =
      handle_url memory settings
        (room_for 1)
        parsed_url
        (some (codes "http://x/a.mp3", []))
        (codes "a1")
        (codes "now")
        empty_server in
    (r.0.status ≡ 202)
    ↔ IsQueued memory settings
        (room_for 1)
        parsed_url
        (some (codes "http://x/a.mp3", []))
        (codes "a1")
        (codes "now")
        empty_server
        r.1
url_accepted_example =
    url_accepted memory settings (room_for 1) parsed_url (some (codes "http://x/a.mp3", []))
      (codes "a1") (codes "now") empty_server

got_link : Store.get memory (codes "a1") after_link ≡ ok link
unfolding Store.get Store.create_and_enqueue Store.check_depth Store.push_job
got_link = refl

abbrev after_answer : Server
after_answer =
    (Store.set_completed memory (room_for 1) (codes "a1") (codes "{}") (codes "later") after_link).1

get_job-completed_example :
    let reply = handle_get_job memory (λ s. true) (codes "a1") after_answer in
    (reply.status ≡ 200)
    × (lookup (codes "status") reply.body ≡ some (string status_completed))
    × (lookup (codes "result") reply.body ≡ some (raw (codes "{}")))
unfolding Store.set_completed Store.update Store.create_and_enqueue Store.check_depth Store.push_job
get_job-completed_example =
    get_job-completed memory memory-Laws (λ s. true) (room_for 1) (codes "a1") (codes "{}")
      (codes "later") link after_link after_answer _ refl got_link refl refl refl

-- A mux that knows the two paths of an upload.
abbrev outer : Outer
outer = record {
  mux = λ patterns method path.
      if text_eq path (codes "/transcribe")
      then some (1, [])
      else if text_eq path (codes "/v1/audio/transcriptions")
      then some (4, [])
      else none;
  missed = λ method path. error_reply 404 (codes "404 page not found");
  parse_url = parsed_url;
  valid = λ s. true;
}

abbrev http_server : Routes.Server memory utc_only
http_server = record {
  config = settings;
  store = room_for 1;
  upstream = codes "http://w";
  window = night;
}

abbrev moment : Moment memory utc_only
moment = record {
  id = codes "a1";
  now = codes "now";
  time = evening;
  heap_alloc = 0;
  in_flight = 0;
}

abbrev post : Text → Text → Request
post path key = record {
  method = codes "POST";
  path = path;
  header = λ name. if text_eq name (codes "X-API-Key") then key else [];
  remote_addr = codes "10.0.0.1:9";
  user_agent = codes "curl";
  form = form;
  decoded = none;
}

abbrev at_server : Request → Service memory → Reply × Service memory
at_server = serve memory utc_only http_server outer moment

serve-Untouched_example :
    Untouched memory utc_only http_server outer
      (post (codes "/transcribe") (codes "guess"))
      moment
      service
      (at_server (post (codes "/transcribe") (codes "guess")) service)
unfolding extract_api_key
serve-Untouched_example =
    serve-Untouched memory utc_only http_server outer moment
      (post (codes "/transcribe") (codes "guess")) service refl

-- The gateway's path of an upload, and the log of a request with a wrong key.
alias-status :
    (at_server (post (codes "/v1/audio/transcriptions") (codes "secret")) service).0.status ≡ 202
unfolding serve dispatch auth extract_api_key handle_upload received read_audio
    Store.create_and_enqueue Store.check_depth stash Store.push_job
alias-status = refl

logged : (access_log at_server (post (codes "/transcribe") (codes "guess")) service).0 ≡ record {
  method = codes "POST";
  path = codes "/transcribe";
  status = 401;
  has_api_key = true;
  has_bearer = false;
  remote_addr = codes "10.0.0.1:9";
  user_agent = codes "curl";
}
unfolding serve dispatch auth extract_api_key access_log
logged = refl

healthy : (handle_health memory utc_only (codes "http://w") night 0 0 evening service).status ≡ 200
unfolding handle_health Connect.ping
healthy = refl

health_reports_example :
    let reply = handle_health memory utc_only (codes "http://w") night 0 0 evening service in
    ((reply.status ≡ 200) ↔ (Connect.ping memory empty_server ≡ none))
    × (lookup (codes "queueDepth") reply.body ≡ some (number 0))
    × (lookup (codes "queueError") reply.body ≡ some null)
    × (lookup (codes "audioInMemory") reply.body ≡ some (number 0))
health_reports_example =
    health_reports memory utc_only memory-Laws (codes "http://w") night 0 0 0 evening service refl
