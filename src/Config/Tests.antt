-- ===== src/Config/Tests.antt =====
-- An environment with the two secrets, and no other variable.
use worker_thoth.Base.{
  ℕ, ◌≡◌, refl, ◌||◌, Option, none, [], Text, codes, text_eq, trim_space, if◌then◌else◌, ℤ, pos, ok,
  arith,
}
use worker_thoth.Window.{Zones, parse, disabled}
use worker_thoth.Config.{Config, load, load_window, validate}

-- Zones in which it is always midnight.
abbrev pub midnight : Zones
midnight = record {
  Location = Unit;
  Time = ℕ;
  load_location = λ name. none;
  clock = λ l t. record { hour = 0; minute = 0; second = 0; nanosecond = 0 };
  later = λ t n. t;
  clock-IsClock = λ l t. record {
    hour_lt = omega arith;
    minute_lt = omega arith;
    second_lt = omega arith;
    nanosecond_lt = omega arith;
  };
}

abbrev pub secrets : Text → Text
secrets name =
    if text_eq name (codes "API_KEY") || text_eq name (codes "WHISPER_API_KEY")
    then codes "secret"
    else []

abbrev pub no_duration : Text → Option ℤ
no_duration s = none

abbrev pub defaults : Config Unit
defaults = record {
  port = codes "8770";
  api_key = codes "secret";
  redis_url = codes "redis://localhost:6379/0";
  whisper_upstream_url = codes "https://whisper.lai.ia.br";
  whisper_api_key = codes "secret";
  max_concurrency = pos 2;
  queue_size = pos 5000;
  job_ttl = pos 3_600_000_000_000;
  max_audio_bytes = pos 104_857_600;
  download_timeout = pos 600_000_000_000;
  upstream_timeout = pos 600_000_000_000;
  default_language = codes "pt";
  whisper_window = disabled;
}

pub loaded : load midnight no_duration secrets ≡ ok defaults
unfolding load load_window parse validate trim_space
loaded = refl
