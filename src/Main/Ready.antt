-- ===== src/Main/Ready.antt =====
-- What holds of the parts when run starts its goroutines.
use worker_thoth.Base.{
  ◌≤◌, ◌<◌, ◌≡◌, ◌≢◌, refl, subst, inl, inr, false, Option, [], ◌∷◌, Text, text_eq, length, arith,
  ℤ, pos, pos_part, ◌≤ℤ◌, GoError, Result, Result-cases, ok, err, ok-injective,
}
use worker_thoth.Redis.{Ops}
use worker_thoth.Store
use worker_thoth.Store.Connect
use worker_thoth.Store.Connect.{new_iff, store_of}
use worker_thoth.Window.{Zones}
use worker_thoth.Window.Hours.{IsValid}
use worker_thoth.Config.{Config, load}
use worker_thoth.Config.Checked.{IsChecked, load-IsChecked}
use worker_thoth.Worker.Loops.{consumers, new_pool}
use worker_thoth.Worker.Loops.Names.{AllDifferent, consumers-AllDifferent}
use worker_thoth.Server.{extract_api_key, Service}
use worker_thoth.Server.Routes.{Request, Outer, Moment, serve}
use worker_thoth.Server.Routes.Guarded.{Untouched, serve-Untouched}
use worker_thoth.Main.{Started, wired, start, new_server}

module _ (o : Ops) (z : Zones) where
  pub record IsReady (s : Started o z) : Type 0 where
    -- a worker, beside the claimer, and no two consumers of one name
    pub consumer : 2 ≤ length (consumers s.workers.concurrency)
    pub names : AllDifferent (consumers s.workers.concurrency)
    pub window : IsValid z s.workers.window
    -- the server and the workers have one queue, and one limit
    pub store : s.server.store ≡ s.workers.pool.store
    pub queue_size : pos 1 ≤ℤ s.server.store.queue_size
    pub limit : s.server.config.max_audio_bytes ≡ s.workers.pool.max_audio_bytes
    pub some_audio : 0 < s.server.config.max_audio_bytes
    -- a request without a key is turned away
    pub keyless :
        (u : Outer) (n : Moment o z) (r : Request) (t : Service o)
        → extract_api_key r.header ≡ []
        → Untouched o z s.server u r n t (serve o z s.server u n r t)

  no_key : (key : Text) → key ≢ [] → text_eq [] key ≡ false
  no_key [] given = absurd (given refl)
  no_key (c ∷ key) given = refl

  positive : (n : ℤ) → pos 1 ≤ℤ n → 1 ≤ pos_part n
  positive n le = ground arith

  made-IsReady :
      (cfg : Config z.Location) (db : o.Db)
      → IsChecked z cfg
      → (s : Started o z)
      → (wired o z cfg (ok (store_of o cfg.job_ttl cfg.queue_size), db)).0 ≡ ok s
      → IsReady s
  unfolding new_pool
  made-IsReady cfg db v s e = subst IsReady (ok-injective e) (record {
    consumer = omega (
      arith,
      (consumers-AllDifferent cfg.max_concurrency).0,
      positive cfg.max_concurrency v.max_concurrency,
    );
    names = (consumers-AllDifferent cfg.max_concurrency).1;
    window = v.whisper_window;
    store = refl;
    queue_size = v.queue_size;
    limit = refl;
    some_audio = positive cfg.max_audio_bytes v.max_audio_bytes;
    keyless = λ u n r t empty.
        serve-Untouched o z (new_server o z cfg (store_of o cfg.job_ttl cfg.queue_size)) u n r t
          (rw empty (no_key cfg.api_key v.api_key));
  })

  wired-eq-ok :
      (cfg : Config z.Location) (r : Result GoError Store.Store × o.Db) (s : Started o z)
      → (wired o z cfg r).0 ≡ ok s
      → (st : Store.Store) × (r.0 ≡ ok st) × ((wired o z cfg (ok st, r.1)).0 ≡ ok s)
  wired-eq-ok cfg (err f, db) s e = absurd (cc e)
  wired-eq-ok cfg (ok st, db) s e = (st, refl, e)

  wired-IsReady :
      (cfg : Config z.Location) (parse_url : Text → Option GoError) (db : o.Db)
      → IsChecked z cfg
      → (s : Started o z)
      → (wired o z cfg (Connect.new o parse_url cfg.redis_url cfg.job_ttl cfg.queue_size db)).0
        ≡ ok s
      → IsReady s
  wired-IsReady cfg parse_url db v s e =
      let reply = Connect.new o parse_url cfg.redis_url cfg.job_ttl cfg.queue_size db in
      let (st, made, again) = wired-eq-ok cfg reply s e in
      let (parsed, pinged, grouped, same) =
        (new_iff o parse_url cfg.redis_url cfg.job_ttl cfg.queue_size db st).0 made in
      made-IsReady cfg reply.1 v s
        (subst (λ st'. (wired o z cfg (ok st', reply.1)).0 ≡ ok s) same again)

  -- When run starts its goroutines, there is a worker beside the claimer and no two consumers have
  -- one name; the window is valid; the server and the workers have the same queue, with room for a
  -- job, and the same limit of bytes, which is positive; and a request that carries no key changes
  -- nothing, whatever its route.
  pub start-IsReady :
      (parse_duration : Text → Option ℤ) (parse_url : Text → Option GoError) (env : Text → Text)
      (db : o.Db) (s : Started o z)
      → (start o z parse_duration parse_url env db).0 ≡ ok s
      → IsReady s
  unfolding start
  start-IsReady parse_duration parse_url env db s e =
      elim (Result-cases (load z parse_duration env)) [
        | inl (cfg, got) ↦
            wired-IsReady cfg parse_url db (load-IsChecked z parse_duration env cfg got) s
              (rw got at e)
        | inr (f, failed) ↦ absurd (cc (rw failed at e))
      ]
