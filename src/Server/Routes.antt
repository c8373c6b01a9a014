-- ===== src/Server/Routes.antt =====
-- internal/server/server.go: Handler with its routes, accessLog, and the struct Server.
pub mod Guarded
pub mod Logged
use worker_thoth.Base.{
  ℕ, ◌≡◌, Bool, not, Option, none, some, List, [], ◌∷◌, ◌++◌, map, Text, codes, is_empty, text_eq,
  take, get_elem?,
}
use worker_thoth.Redis.{Ops}
use worker_thoth.Store
use worker_thoth.Window.{Zones, Window}
use worker_thoth.Server.{Config, Reply, UploadForm, Service, lower_letter, auth, handle_upload}
use worker_thoth.Server.Jobs.{handle_get_job, handle_url}
use worker_thoth.Server.Health.{handle_health}

-- A request, as net/http and encoding/json give it: `form` and `decoded` are what the two handlers
-- that accept jobs find in it.
pub record Request : Type 0 where
  pub method : Text
  pub path : Text
  pub header : Text → Text
  pub remote_addr : Text
  pub user_agent : Text
  pub form : UploadForm
  pub decoded : Option (Text × Text)

-- The four handlers.
pub data Endpoint : Type 0 where
  health transcribe transcribe_url job_status : Endpoint

abbrev pub gateway_prefix : Text
gateway_prefix = codes "/v1/audio/transcriptions"

-- The patterns of the mux with their handlers.
abbrev pub routes : List (Text × Endpoint)
routes =
    (codes "GET /health", health)
    ∷ (codes "POST /transcribe", transcribe)
    ∷ (codes "POST /transcribe/url", transcribe_url)
    ∷ (codes "GET /jobs/{jobId}", job_status)
    ∷ (codes "POST " ++ gateway_prefix, transcribe)
    ∷ (codes "POST " ++ gateway_prefix ++ codes "/url", transcribe_url)
    ∷ (codes "GET " ++ gateway_prefix ++ codes "/jobs/{jobId}", job_status)
    ∷ []

-- What the server calls outside: ServeMux, which picks a pattern and the path value "jobId", and
-- replies by itself where none fits; url.Parse; and json.Valid.
pub record Outer : Type 0 where
  pub mux : List Text → Text → Text → Option (ℕ × Text)
  pub missed : Text → Text → Reply
  pub parse_url : Text → Option (Text × Text)
  pub valid : Text → Bool

module _ (o : Ops) (z : Zones) where
  -- The struct Server, less the state that the handlers share.
  pub record Server : Type 0 where
    pub config : Config
    pub store : Store.Store
    pub upstream : Text
    pub window : Window z.Location

  -- What a request meets: newID, nowRFC3339, time.Now, HeapAlloc, and InFlight.
  pub record Moment : Type 0 where
    pub id : Text
    pub now : Text
    pub time : z.Time
    pub heap_alloc : ℕ
    pub in_flight : ℕ

  abbrev on_db : Service o → Reply × o.Db → Reply × Service o
  on_db s (reply, db) = (reply, record s { db = db })

  module _ (v : Server) (u : Outer) where
    -- The handler of a pattern: all but the first stand behind auth.
    unfoldable pub dispatch : Endpoint → Text → Moment → Request → Service o → Reply × Service o
    dispatch health job_id n r s =
        (handle_health o z v.upstream v.window n.in_flight n.heap_alloc n.time s, s)
    dispatch transcribe job_id n r s =
        auth v.config r.header (handle_upload o v.config v.store r.form n.id n.now) s
    dispatch transcribe_url job_id n r s =
        auth v.config r.header
          (λ t. on_db t (handle_url o v.config v.store u.parse_url r.decoded n.id n.now t.db)) s
    dispatch job_status job_id n r s =
        auth v.config r.header (λ t. (handle_get_job o u.valid job_id t.db, t)) s

    abbrev pub routed :
        Option (Text × Endpoint) → Text → Moment → Request → Service o → Reply × Service o
    routed none job_id n r s = (u.missed r.method r.path, s)
    routed (some (pattern, e)) job_id n r s = dispatch e job_id n r s

    abbrev pub picked : Option (ℕ × Text) → Moment → Request → Service o → Reply × Service o
    picked none n r s = (u.missed r.method r.path, s)
    picked (some (i, job_id)) n r s = routed (get_elem? routes i) job_id n r s

    -- Handler, inside accessLog.
    unfoldable pub serve : Moment → Request → Service o → Reply × Service o
    serve n r s = picked (u.mux (map (λ p. p.0) routes) r.method r.path) n r s

-- The log line of a request, less the duration.
pub record AccessEntry : Type 0 where
  pub method : Text
  pub path : Text
  pub status : ℕ
  pub has_api_key : Bool
  pub has_bearer : Bool
  pub remote_addr : Text
  pub user_agent : Text

-- HasPrefix of ToLower. No letter beyond ASCII is the capital of one in "bearer ".
abbrev pub has_bearer_prefix : Text → Bool
has_bearer_prefix value = text_eq (map lower_letter (take 7 value)) (codes "bearer ")

-- accessLog. The statusRecorder keeps the code of WriteHeader.
unfoldable pub access_log :
    {S : Type 0} → (Request → S → Reply × S) → Request → S → AccessEntry × (Reply × S)
access_log next r s =
    let (reply, t) = next r s in
    (
      record {
        method = r.method;
        path = r.path;
        status = reply.status;
        has_api_key = not (is_empty (r.header (codes "X-API-Key")));
        has_bearer = has_bearer_prefix (r.header (codes "Authorization"));
        remote_addr = r.remote_addr;
        user_agent = r.user_agent;
      },
      (reply, t),
    )
