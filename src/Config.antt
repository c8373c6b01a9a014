-- ===== src/Config.antt =====
-- internal/config/config.go: the settings, read from the environment and checked.
-- `env` is os.Getenv, which is empty for a variable that is not set.
pub mod Checked
pub mod Tests
use worker_thoth.Base.{
  ◌≡◌, Bool, true, false, Option, none, some, Text, codes, is_empty, atoi, if◌then◌else◌, ℤ, pos,
  ltb_ℤ, Result, ok, err, ◌>>=◌, map_err,
}
use worker_thoth.Window.{Zones, Window, ParseError, parse}

-- The struct Config.
pub record Config (Location : Type 0) : Type 0 where
  pub port : Text
  pub api_key : Text
  pub redis_url : Text
  pub whisper_upstream_url : Text
  pub whisper_api_key : Text
  pub max_concurrency : ℤ
  pub queue_size : ℤ
  pub job_ttl : ℤ
  pub max_audio_bytes : ℤ
  pub download_timeout : ℤ
  pub upstream_timeout : ℤ
  pub default_language : Text
  pub whisper_window : Window Location

-- The errors of Load, with what their messages tell.
pub data ConfigError : Type 0 where
  invalid : Text → Text → ConfigError
  bad_window : ParseError → ConfigError
  is_required : Text → ConfigError
  below_one : Text → ℤ → ConfigError

abbrev pub get_env : (Text → Text) → Text → Text → Text
get_env env key fallback = if is_empty (env key) then fallback else env key

abbrev pub parsed : (Text → Option ℤ) → (Text → Text) → Text → ℤ → Result ConfigError ℤ
parsed parse_value env key fallback =
    if is_empty (env key)
    then ok fallback
    else elim (parse_value (env key)) [ none ↦ err (invalid key (env key)) | some n ↦ ok n ]

-- getEnvInt and getEnvInt64, where an int has 64 bits.
abbrev pub get_env_int : (Text → Text) → Text → ℤ → Result ConfigError ℤ
get_env_int = parsed atoi

-- One check of validate on a text, and one on a number.
abbrev pub required : Text → Text → Result ConfigError (Unit {0})
required name value = if is_empty value then err (is_required name) else ok tt

abbrev pub at_least_one : Text → ℤ → Result ConfigError (Unit {0})
at_least_one name n = if ltb_ℤ n (pos 1) then err (below_one name n) else ok tt

-- validate.
unfoldable pub validate : {L : Type 0} → Config L → Result ConfigError (Unit {0})
validate c = do
  _ ← required (codes "API_KEY") c.api_key
  _ ← required (codes "WHISPER_API_KEY") c.whisper_api_key
  _ ← required (codes "REDIS_URL") c.redis_url
  _ ← required (codes "WHISPER_UPSTREAM_URL") c.whisper_upstream_url
  _ ← at_least_one (codes "MAX_CONCURRENCY") c.max_concurrency
  _ ← at_least_one (codes "QUEUE_SIZE") c.queue_size
  at_least_one (codes "MAX_AUDIO_BYTES") c.max_audio_bytes

abbrev pub one_hour : ℤ
one_hour = pos 3_600_000_000_000

abbrev pub ten_minutes : ℤ
ten_minutes = pos 600_000_000_000

-- The processing window.
unfoldable pub load_window : (z : Zones) → (Text → Text) → Result ParseError (Window z.Location)
load_window z env =
    parse z (env (codes "WHISPER_WINDOW_START")) (env (codes "WHISPER_WINDOW_END"))
      (get_env env (codes "WHISPER_WINDOW_TZ") (codes "America/Sao_Paulo"))

module _ (z : Zones) (parse_duration : Text → Option ℤ) where
  open z use {Location}

  -- Load. `parse_duration` is time.ParseDuration, in nanoseconds.
  unfoldable pub load : (Text → Text) → Result ConfigError (Config Location)
  load env = do
    max_concurrency ← get_env_int env (codes "MAX_CONCURRENCY") (pos 2)
    queue_size ← get_env_int env (codes "QUEUE_SIZE") (pos 5000)
    max_audio_bytes ← get_env_int env (codes "MAX_AUDIO_BYTES") (pos 104_857_600)
    job_ttl ← parsed parse_duration env (codes "JOB_TTL") one_hour
    download_timeout ← parsed parse_duration env (codes "DOWNLOAD_TIMEOUT") ten_minutes
    upstream_timeout ← parsed parse_duration env (codes "UPSTREAM_TIMEOUT") ten_minutes
    whisper_window ← map_err bad_window (load_window z env)
    let cfg : Config Location = record {
      port = get_env env (codes "PORT") (codes "8770");
      api_key = env (codes "API_KEY");
      redis_url = get_env env (codes "REDIS_URL") (codes "redis://localhost:6379/0");
      whisper_upstream_url =
          get_env env (codes "WHISPER_UPSTREAM_URL") (codes "https://whisper.lai.ia.br");
      whisper_api_key = env (codes "WHISPER_API_KEY");
      max_concurrency = max_concurrency;
      queue_size = queue_size;
      job_ttl = job_ttl;
      max_audio_bytes = max_audio_bytes;
      download_timeout = download_timeout;
      upstream_timeout = upstream_timeout;
      default_language = get_env env (codes "DEFAULT_LANGUAGE") (codes "pt");
      whisper_window = whisper_window;
    }
    _ ← validate cfg
    ok cfg
