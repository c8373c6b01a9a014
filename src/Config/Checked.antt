-- ===== src/Config/Checked.antt =====
-- What a configuration that Load returns guarantees to the other parts.
use worker_thoth.Base.{
  ◌≡◌, ◌≢◌, subst, Option, arith, Text, codes, map_err, [], ℤ, pos, ◌≤ℤ◌, ok, >>=-eq-ok,
  map_err-eq-ok, ok-injective,
}
use worker_thoth.Window.{Zones, Window}
use worker_thoth.Window.Hours.{IsValid, parse-IsValid}
use worker_thoth.Config.{
  Config, get_env_int, parsed, one_hour, ten_minutes, load_window, bad_window, required,
  at_least_one, validate, load,
}

required-eq-ok : (name value : Text) {u : Unit {0}} → required name value ≡ ok u → value ≢ []
required-eq-ok name value h = ground arith

at_least_one-eq-ok : (name : Text) (n : ℤ) {u : Unit {0}} → at_least_one name n ≡ ok u → pos 1 ≤ℤ n
at_least_one-eq-ok name n h = ground arith

module _ (z : Zones) where
  open z use {Location}

  -- The keys and the addresses are given, the numbers positive, and the window is valid.
  pub record IsChecked (c : Config Location) : Type 0 where
    pub api_key : c.api_key ≢ []
    pub whisper_api_key : c.whisper_api_key ≢ []
    pub redis_url : c.redis_url ≢ []
    pub whisper_upstream_url : c.whisper_upstream_url ≢ []
    pub max_concurrency : pos 1 ≤ℤ c.max_concurrency
    pub queue_size : pos 1 ≤ℤ c.queue_size
    pub max_audio_bytes : pos 1 ≤ℤ c.max_audio_bytes
    pub whisper_window : IsValid z c.whisper_window

  validate-IsChecked :
      (c : Config Location) {u : Unit {0}}
      → validate c ≡ ok u
      → IsValid z c.whisper_window
      → IsChecked c
  unfolding validate
  validate-IsChecked c h window =
      let (u1, api_key, h1) = >>=-eq-ok (required (codes "API_KEY") c.api_key) _ h in
      let (u2, whisper_api_key, h2) =
        >>=-eq-ok (required (codes "WHISPER_API_KEY") c.whisper_api_key) _ h1 in
      let (u3, redis_url, h3) = >>=-eq-ok (required (codes "REDIS_URL") c.redis_url) _ h2 in
      let (u4, whisper_upstream_url, h4) =
        >>=-eq-ok (required (codes "WHISPER_UPSTREAM_URL") c.whisper_upstream_url) _ h3 in
      let (u5, max_concurrency, h5) =
        >>=-eq-ok (at_least_one (codes "MAX_CONCURRENCY") c.max_concurrency) _ h4 in
      let (u6, queue_size, max_audio_bytes) =
        >>=-eq-ok (at_least_one (codes "QUEUE_SIZE") c.queue_size) _ h5 in
      record {
        api_key = required-eq-ok _ c.api_key api_key;
        whisper_api_key = required-eq-ok _ c.whisper_api_key whisper_api_key;
        redis_url = required-eq-ok _ c.redis_url redis_url;
        whisper_upstream_url = required-eq-ok _ c.whisper_upstream_url whisper_upstream_url;
        max_concurrency = at_least_one-eq-ok _ c.max_concurrency max_concurrency;
        queue_size = at_least_one-eq-ok _ c.queue_size queue_size;
        max_audio_bytes = at_least_one-eq-ok _ c.max_audio_bytes max_audio_bytes;
        whisper_window = window;
      }

  load_window-IsValid :
      (env : Text → Text) (w : Window Location) → load_window z env ≡ ok w → IsValid z w
  unfolding load_window
  load_window-IsValid env w h = parse-IsValid z _ _ _ w h

  -- A configuration that Load returns has both keys and both addresses, a concurrency, a queue size
  -- and an audio limit of at least one, and a valid window.
  pub load-IsChecked :
      (parse_duration : Text → Option ℤ) (env : Text → Text) (c : Config Location)
      → load z parse_duration env ≡ ok c
      → IsChecked c
  unfolding load
  load-IsChecked parse_duration env c h =
      let (n1, is1, h1) = >>=-eq-ok (get_env_int env (codes "MAX_CONCURRENCY") (pos 2)) _ h in
      let (n2, is2, h2) = >>=-eq-ok (get_env_int env (codes "QUEUE_SIZE") (pos 5000)) _ h1 in
      let (n3, is3, h3) =
        >>=-eq-ok (get_env_int env (codes "MAX_AUDIO_BYTES") (pos 104_857_600)) _ h2 in
      let (n4, is4, h4) = >>=-eq-ok (parsed parse_duration env (codes "JOB_TTL") one_hour) _ h3 in
      let (n5, is5, h5) =
        >>=-eq-ok (parsed parse_duration env (codes "DOWNLOAD_TIMEOUT") ten_minutes) _ h4 in
      let (n6, is6, h6) =
        >>=-eq-ok (parsed parse_duration env (codes "UPSTREAM_TIMEOUT") ten_minutes) _ h5 in
      let (w, is_window, h7) = >>=-eq-ok (map_err bad_window (load_window z env)) _ h6 in
      let (u, checked, same) = >>=-eq-ok (validate _) _ h7 in
      subst IsChecked (ok-injective same) (
        validate-IsChecked _ checked
          (load_window-IsValid env w (map_err-eq-ok bad_window (load_window z env) is_window)))
