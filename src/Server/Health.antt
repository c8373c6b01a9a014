-- ===== src/Server/Health.antt =====
-- internal/server/server.go and helpers.go: handleHealth.
use worker_thoth.Base.{
  ℕ, ◌/◌, ◌^◌, ◌≡◌, refl, ap, arith, ◌↔◌, Bool, true, false, Option, none, some, [], ◌∷◌, Text,
  codes, if◌then◌else◌, GoError, error_text, Result, ok, err, length,
}
use worker_thoth.Base.Dict.{lookup}
use worker_thoth.Redis.{Ops, Laws}
use worker_thoth.Audio
use worker_thoth.Store
use worker_thoth.Store.{stream_key}
use worker_thoth.Store.Connect.{ping}
use worker_thoth.Window.{Zones, Window, is_open, next_open}
use worker_thoth.Server.{
  Reply, Value, string, number, boolean, null, object, no_field, field, Service,
}

-- errString, of an error that may be nil.
abbrev pub err_string : Option GoError → Value
err_string none = null
err_string (some e) = string (error_text e)

-- The length and the error of QueueLen. The client gives 0 beside an error.
abbrev pub length_of : Result GoError ℕ → ℕ
length_of (ok n) = n
length_of (err e) = 0

abbrev pub error_of : {A : Type 0} → Result GoError A → Option GoError
error_of (ok a) = none
error_of (err e) = some e

abbrev pub is_none : Option GoError → Bool
is_none none = true
is_none (some e) = false

module _ (o : Ops) (z : Zones) where
  -- The field "whisperWindow". Seconds are float64, of which int64 takes the whole part.
  abbrev pub window_report : Window z.Location → z.Time → Value
  window_report window t = object (
      field (codes "enabled") (boolean window.enabled) (
        field (codes "open") (boolean (is_open z window t)) (
          field (codes "nextOpenSeconds") (number (next_open z window t / 1_000_000_000))
            no_field)))

  -- The status code.
  abbrev pub health_code : Option GoError → ℕ
  health_code pinged = if is_none pinged then 200 else 503

  -- handleHealth, with the address of the upstream, InFlight of the pool, HeapAlloc of
  -- runtime.MemStats, and the time of time.Now.
  unfoldable pub handle_health : Text → Window z.Location → ℕ → ℕ → z.Time → Service o → Reply
  handle_health upstream window in_flight heap_alloc t s =
      let queued = Store.queue_len o s.db in
      let redis_ok = is_none (ping o s.db) in
      record {
        status = health_code (ping o s.db);
        headers = [];
        body =
            (codes "status", string (if redis_ok then codes "ok" else codes "degraded"))
            ∷ (codes "queueDepth", number (length_of queued))
            ∷ (codes "queueError", err_string (error_of queued))
            ∷ (codes "inFlight", number in_flight)
            ∷ (codes "audioInMemory", number (Audio.len s.audio))
            ∷ (codes "redisOk", boolean redis_ok)
            ∷ (codes "upstream", string upstream)
            ∷ (codes "heapAllocMB", number (heap_alloc / 2 ^ 20))
            ∷ (codes "whisperWindow", window_report window t)
            ∷ [];
      }

  redis_ok_iff : (r : Option GoError) → (health_code r ≡ 200) ↔ (r ≡ none)
  redis_ok_iff none = (λ e. refl, λ e. refl)
  redis_ok_iff (some e) = (λ f. absurd (omega (arith, f)), λ f. absurd (cc f))

  -- If XLEN answers: the status is 200 exactly if Redis answers the ping, and the body tells the
  -- number of entries in the stream, no error, and the number of clips in memory.
  pub health_reports :
      (l : Laws o) (upstream : Text) (window : Window z.Location) (in_flight heap_alloc n : ℕ)
      (t : z.Time) (s : Service o)
      → o.xlen s.db stream_key ≡ ok n
      → let reply = handle_health upstream window in_flight heap_alloc t s in
        ((reply.status ≡ 200) ↔ (ping o s.db ≡ none))
        × (lookup (codes "queueDepth") reply.body
            ≡ some (number (length (o.entries s.db stream_key))))
        × (lookup (codes "queueError") reply.body ≡ some null)
        × (lookup (codes "audioInMemory") reply.body ≡ some (number (length s.audio.m)))
  unfolding handle_health Store.queue_len Audio.len
  health_reports l upstream window in_flight heap_alloc n t s answered = (
    redis_ok_iff (ping o s.db),
    rw answered (ap (λ k. some (number k)) (l.xlen-entries s.db stream_key n answered)),
    rw answered refl,
    refl,
  )
