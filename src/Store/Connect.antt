-- ===== src/Store/Connect.antt =====
-- internal/redisstore/store.go: New, with ensureGroup, and Ping.
use worker_thoth.Base.{
  ◌≡◌, refl, ◌↔◌, inl, inr, Bool-cases, Option, none, some, Text, codes, text_eq, text_eq_iff, ℤ,
  GoError, wrap, error_text, Result, ok, err,
}
use worker_thoth.Redis.{Ops}
use worker_thoth.Store.{Store, group_name, stream_key, group_error, ensure_group}

module _ (o : Ops) where
  open o use {Db}

  -- Ping.
  unfoldable pub ping : Db → Option GoError
  ping db = o.ping db

  abbrev pub with_group : ℤ → ℤ → Option GoError × Db → Result GoError Store × Db
  with_group job_ttl queue_size (none, db) =
      (ok (record { job_ttl = job_ttl; queue_size = queue_size }), db)
  with_group job_ttl queue_size (some e, db) = (err e, db)

  -- Behind redis.ParseURL, of which only the error counts here.
  unfoldable pub connect : ℤ → ℤ → Option GoError → Option GoError → Db → Result GoError Store × Db
  connect job_ttl queue_size (some e) pinged db = (err (wrap (codes "parse REDIS_URL") e), db)
  connect job_ttl queue_size none (some e) db = (err (wrap (codes "ping redis") e), db)
  connect job_ttl queue_size none none db = with_group job_ttl queue_size (ensure_group o db)

  -- New. `parse_url` is redis.ParseURL: the error, if any.
  unfoldable pub new : (Text → Option GoError) → Text → ℤ → ℤ → Db → Result GoError Store × Db
  new parse_url redis_url job_ttl queue_size db =
      connect job_ttl queue_size (parse_url redis_url) (ping db) db

  abbrev pub busy_group : Text
  busy_group = codes "BUSYGROUP Consumer Group name already exists"

  -- XGROUP CREATE has made the group, or found that it is there.
  abbrev pub IsGrouped : Option GoError → Type 0
  IsGrouped none = Unit
  IsGrouped (some e) = error_text e ≡ busy_group

  group_error_iff : (r : Option GoError) → (group_error r ≡ none) ↔ IsGrouped r
  group_error_iff none = (λ e. tt, λ e. refl)
  group_error_iff (some e) = elim (Bool-cases (text_eq (error_text e) busy_group)) [
    | inl busy ↦ rw busy (λ h. (text_eq_iff (error_text e) busy_group).0 busy, λ h. refl)
    | inr other ↦
        rw other (
          λ h. absurd (cc h),
          λ h. absurd (cc ((text_eq_iff (error_text e) busy_group).1 h, other)),
        )
  ]

  -- The store of New holds the two settings.
  abbrev pub store_of : ℤ → ℤ → Store
  store_of job_ttl queue_size = record { job_ttl = job_ttl; queue_size = queue_size }

  with_group_iff :
      (job_ttl queue_size : ℤ) (r : Option GoError) (db : Db) (s : Store)
      → ((with_group job_ttl queue_size (r, db)).0 ≡ ok s)
        ↔ ((r ≡ none) × (s ≡ store_of job_ttl queue_size))
  with_group_iff job_ttl queue_size none db s = (λ e. (refl, cc e), λ (e, f). cc f)
  with_group_iff job_ttl queue_size (some g) db s = (λ e. absurd (cc e), λ (e, f). absurd (cc e))

  connect_iff :
      (job_ttl queue_size : ℤ) (parsed pinged : Option GoError) (db : Db) (s : Store)
      → ((connect job_ttl queue_size parsed pinged db).0 ≡ ok s) ↔ (
          (parsed ≡ none)
          × (pinged ≡ none)
          × IsGrouped (o.group_create stream_key group_name (codes "0") db).0
          × (s ≡ store_of job_ttl queue_size))
  unfolding connect ensure_group
  connect_iff job_ttl queue_size (some e) pinged db s = (λ h. absurd (cc h), λ h. absurd (cc (h.0)))
  connect_iff job_ttl queue_size none (some e) db s = (λ h. absurd (cc h), λ h. absurd (cc (h.1)))
  connect_iff job_ttl queue_size none none db s =
      let (reply, after) = o.group_create stream_key group_name (codes "0") db in
      let made = group_error_iff reply in
      let whole = with_group_iff job_ttl queue_size (group_error reply) after s in
      (λ h. let (a, b) = whole.0 h in (refl, refl, made.0 a, b), λ h. whole.1 (made.1 h.2, h.3))

  -- New returns a store exactly if the URL is parsed, Redis answers the ping, and the consumer
  -- group is made or is there already; the store then holds the given time to live and queue size.
  pub new_iff :
      (parse_url : Text → Option GoError) (redis_url : Text) (job_ttl queue_size : ℤ) (db : Db)
      (s : Store)
      → ((new parse_url redis_url job_ttl queue_size db).0 ≡ ok s) ↔ (
          (parse_url redis_url ≡ none)
          × (ping db ≡ none)
          × IsGrouped (o.group_create stream_key group_name (codes "0") db).0
          × (s ≡ store_of job_ttl queue_size))
  unfolding new
  new_iff parse_url redis_url job_ttl queue_size db s =
      connect_iff job_ttl queue_size (parse_url redis_url) (ping db) db s
