-- ===== src/Main.antt =====
-- cmd/server/main.go: how run puts the parts together, and newJobID.
pub mod Ready
pub mod JobId
mod Tests
use worker_thoth.Base.{
  ℕ, ◌+◌, ◌-◌, ◌/◌, ◌%◌, Option, none, some, [], ◌∷◌, ◌++◌, Text, codes, ltb, if◌then◌else◌, ℤ,
  pos_part, GoError, Result, ok, err,
}
use worker_thoth.Redis.{Ops}
use worker_thoth.Store
use worker_thoth.Store.Connect
use worker_thoth.Whisper.{new_client}
use worker_thoth.Window.{Zones}
use worker_thoth.Config.{Config, ConfigError, load}
use worker_thoth.Worker.Loops.{WorkerConfig, Workers, new_pool}
use worker_thoth.Server.Routes.{Server}

-- A digit of encoding/hex.
abbrev pub hex_digit : ℕ → ℕ
hex_digit d = if ltb d 10 then b'0' + d else b'a' + (d - 10)

-- hex.EncodeToString.
abbrev pub hex_encode : Text → Text
hex_encode [] = []
hex_encode (b ∷ bytes) = hex_digit (b / 16) ∷ hex_digit (b % 16) ∷ hex_encode bytes

-- newJobID, with the bytes of rand.Read, `none` for its error, and the time as text.
unfoldable pub new_job_id : Option Text → Text → Text
new_job_id none now = hex_encode now
new_job_id (some bytes) now = hex_encode bytes

-- The errors of run.
pub data StartError : Type 0 where
  bad_config : ConfigError → StartError
  no_store : GoError → StartError

module _ (o : Ops) (z : Zones) where
  -- What run has made when it starts the goroutines.
  pub record Started : Type 0 where
    pub workers : Workers z
    pub server : Server o z
    pub address : Text

  -- server.New. The state that the handlers share, the pool and newID are given to a request.
  abbrev pub new_server : Config z.Location → Store.Store → Server o z
  new_server cfg store = record {
    config = record {
      api_key = cfg.api_key;
      max_audio_bytes = pos_part cfg.max_audio_bytes;
      default_language = cfg.default_language;
    };
    store = store;
    upstream = cfg.whisper_upstream_url;
    window = cfg.whisper_window;
  }

  -- A duration that is not positive is 0 for the pool and the client.
  abbrev pub worker_config : Config z.Location → Store.Store → WorkerConfig z
  worker_config cfg store = record {
    store = store;
    whisper =
        new_client cfg.whisper_upstream_url cfg.whisper_api_key (pos_part cfg.upstream_timeout);
    concurrency = cfg.max_concurrency;
    max_audio_bytes = pos_part cfg.max_audio_bytes;
    download_timeout = pos_part cfg.download_timeout;
    default_language = cfg.default_language;
    window = cfg.whisper_window;
  }

  abbrev pub wired :
      Config z.Location → Result GoError Store.Store × o.Db → Result StartError Started × o.Db
  wired cfg (err e, db) = (err (no_store e), db)
  wired cfg (ok store, db) = (
    ok (record {
      workers = new_pool (worker_config cfg store);
      server = new_server cfg store;
      address = b':' ∷ cfg.port;
    }),
    db,
  )

  abbrev pub configured :
      (Text → Option GoError)
      → Result ConfigError (Config z.Location)
      → o.Db
      → Result StartError Started × o.Db
  configured parse_url (err e) db = (err (bad_config e), db)
  configured parse_url (ok cfg) db =
      wired cfg (Connect.new o parse_url cfg.redis_url cfg.job_ttl cfg.queue_size db)

  -- The first half of run. `parse_duration` is time.ParseDuration and `parse_url` redis.ParseURL.
  unfoldable pub start :
      (Text → Option ℤ)
      → (Text → Option GoError)
      → (Text → Text)
      → o.Db
      → Result StartError Started × o.Db
  start parse_duration parse_url env db = configured parse_url (load z parse_duration env) db
