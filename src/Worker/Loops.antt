-- ===== src/Worker/Loops.antt =====
-- internal/worker/pool.go: the loops consume and claimLoop, and Run, which starts them. A loop is
-- given round by round; what one goroutine of the pool does is a sequence of rounds. Log lines are
-- left out.
pub mod Guard
pub mod Batch
pub mod Names
mod Tests
use worker_thoth.Base.{
  ℕ, zero, suc, ◌+◌, ◌≡◌, Bool, true, false, List, [], ◌∷◌, ◌++◌, Text, codes, decimal,
  if◌then◌else◌, ℤ, pos_part, GoError, Result, ok, err,
}
use worker_thoth.Outside.{Outside}
use worker_thoth.Redis.{Ops}
use worker_thoth.Store
use worker_thoth.Store.{QueuedMessage}
use worker_thoth.Window.{Zones, Window, is_open}
use worker_thoth.Whisper.{Client}
use worker_thoth.Worker.{Pool, Process, retry_base_delay, handle}
use worker_thoth.Worker.Pause.{window_sleep}

-- Five seconds, and two minutes, in nanoseconds.
abbrev pub read_block : ℕ
read_block = 5_000_000_000

abbrev pub claim_min_idle : ℕ
claim_min_idle = 120_000_000_000

-- The clock, the context and the ticker: time.Now; whether ctx.Err is not nil; what goes by in the
-- surroundings while a blocking read waits; and `select` on the context and the ticker, `false` for
-- the context.
pub record Runtime (z : Zones) (x : Outside) : Type 0 where
  pub wall : x.World → z.Time × x.World
  pub cancelled : x.World → Bool
  pub block : x.World → x.World
  pub wait_tick : x.World → Bool × x.World

-- A wait that is ended by the context leaves it cancelled.
pub record RuntimeLaws (z : Zones) (x : Outside) (r : Runtime z x) : Type 0 where
  pub sleep-cancelled :
      (d : ℕ) (w : x.World) → (x.sleep d w).0 ≡ false → r.cancelled (x.sleep d w).1 ≡ true
  pub tick-cancelled :
      (w : x.World) → (r.wait_tick w).0 ≡ false → r.cancelled (r.wait_tick w).1 ≡ true

-- What follows a round: the loop returns, or it goes on, with the variable `closed`.
pub data Next : Type 0 where
  returned : Next
  go_on : Bool → Next

-- The name of the consumer of a worker, and the names of all that Run starts, the claimer last.
abbrev pub worker_name : ℕ → Text
worker_name i = codes "worker-" ++ decimal i

abbrev pub names_from : ℕ → ℕ → List Text
names_from i zero = codes "claimer" ∷ []
names_from i (suc n) = worker_name i ∷ names_from (suc i) n

unfoldable pub consumers : ℤ → List Text
consumers concurrency = names_from 0 (pos_part concurrency)

-- The structs Config and Pool: beside the settings of a handler, what Run and the loops read. The
-- audio store and the counter are state of the process.
pub record WorkerConfig (z : Zones) : Type 0 where
  pub store : Store.Store
  pub whisper : Client
  pub concurrency : ℤ
  pub max_audio_bytes : ℕ
  pub download_timeout : ℕ
  pub default_language : Text
  pub window : Window z.Location

pub record Workers (z : Zones) : Type 0 where
  pub pool : Pool
  pub concurrency : ℤ
  pub window : Window z.Location

-- New.
unfoldable pub new_pool : {z : Zones} → WorkerConfig z → Workers z
new_pool cfg = record {
  pool = record {
    store = cfg.store;
    whisper = cfg.whisper;
    max_audio_bytes = cfg.max_audio_bytes;
    download_timeout = cfg.download_timeout;
    default_language = cfg.default_language;
  };
  concurrency = cfg.concurrency;
  window = cfg.window;
}

module _ (o : Ops) (x : Outside) (pool : Pool) where
  -- `for _, m := range msgs`.
  unfoldable pub handle_all : List QueuedMessage → Process o x → Process o x
  handle_all [] p = p
  handle_all (m ∷ ms) p = handle_all ms (handle o x pool m p)

module _ (o : Ops) (x : Outside) (z : Zones) (r : Runtime z x) where
  open x use {World, sleep}
  open r use {wall, cancelled, block, wait_tick}

  module _ (pool : Pool) (window : Window z.Location) where
    -- What follows a read. The result of the sleep behind a failed one is not looked at.
    abbrev pub after_read : Result GoError (List QueuedMessage) → Process o x → Next × Process o x
    after_read (err e) p =
        if cancelled p.world
        then (returned, p)
        else (go_on false, record p { world = (sleep retry_base_delay p.world).1 })
    after_read (ok ms) p = (go_on false, handle_all o x pool ms p)

    unfoldable pub read_round : Text → Process o x → Next × Process o x
    read_round consumer p =
        let (reply, db) = Store.read o consumer 1 read_block p.db in
        after_read reply (record p { db = db; world = block p.world })

    -- The end of the sleep.
    abbrev pub after_sleep : Process o x → Bool × World → Next × Process o x
    after_sleep p (true, w) = (go_on true, record p { world = w })
    after_sleep p (false, w) = (returned, record p { world = w })

    -- While the window is closed; the first log line asks for the time too.
    unfoldable pub closed_round : Bool → Process o x → Next × Process o x
    closed_round closed p =
        let logged = if closed then p.world else (wall p.world).1 in
        let (t, w) = wall logged in after_sleep p (sleep (window_sleep z window t) w)

    -- A round of consume.
    unfoldable pub consume_round : Text → Bool → Process o x → Next × Process o x
    consume_round consumer closed p =
        let (t, w) = wall p.world in
        if cancelled p.world
        then (returned, p)
        else if is_open z window t
        then read_round consumer (record p { world = w })
        else closed_round closed (record p { world = w })

    abbrev pub after_claim : Result GoError (List QueuedMessage) → Process o x → Process o x
    after_claim (err e) p = p
    after_claim (ok ms) p = handle_all o x pool ms p

    unfoldable pub claim : Text → Process o x → Process o x
    claim consumer p =
        let (reply, db) = Store.claim o consumer claim_min_idle 10 p.db in
        after_claim reply (record p { db = db })

    -- Behind a tick.
    abbrev pub ticked : Text → Process o x → Process o x
    ticked consumer p =
        let (t, w) = wall p.world in
        let q = record p { world = w } in if is_open z window t then claim consumer q else q

    abbrev pub after_tick : Text → Process o x → Bool × World → Next × Process o x
    after_tick consumer p (true, w) = (go_on false, ticked consumer (record p { world = w }))
    after_tick consumer p (false, w) = (returned, record p { world = w })

    -- A round of claimLoop.
    unfoldable pub claim_round : Text → Process o x → Next × Process o x
    claim_round consumer p = after_tick consumer p (wait_tick p.world)
