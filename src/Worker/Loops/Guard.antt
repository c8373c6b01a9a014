-- ===== src/Worker/Loops/Guard.antt =====
-- The processing window as the guard of the two loops, and when they return.
use worker_thoth.Base.{
  ◌≡◌, refl, inl, inr, ◌⊎◌, Bool, Bool-cases, true, false, List, Text, if◌then◌else◌, GoError,
  Result, ok, err,
}
use worker_thoth.Outside.{Outside}
use worker_thoth.Redis.{Ops}
use worker_thoth.Store.{QueuedMessage}
use worker_thoth.Window.{Zones, Window, is_open}
use worker_thoth.Worker.{Pool, Process}
use worker_thoth.Worker.Pause.{window_sleep}
use worker_thoth.Worker.Loops.{
  Runtime, RuntimeLaws, Next, returned, after_read, read_round, after_sleep, closed_round,
  consume_round, after_tick, claim_round,
}

module _ (o : Ops) (x : Outside) where
  -- `p` and `q` share everything but the surroundings.
  pub record SameShared (p q : Process o x) : Type 0 where
    pub db : q.db ≡ p.db
    pub audio : q.audio ≡ p.audio
    pub heap : q.heap ≡ p.heap
    pub in_flight : q.in_flight ≡ p.in_flight

  same : (p : Process o x) (w : x.World) → SameShared p (record p { world = w })
  same p w = record { db = refl; audio = refl; heap = refl; in_flight = refl }

  module _ (z : Zones) (r : Runtime z x) (pool : Pool) (window : Window z.Location) where
    open x use {World}
    open r use {wall, cancelled, wait_tick}

    sleep-SameShared :
        (p : Process o x) (s : Bool × World) → SameShared p (after_sleep o x z r pool window p s).1
    sleep-SameShared p (true, w) = same p w
    sleep-SameShared p (false, w) = same p w

    closed-SameShared :
        (closed : Bool) (p : Process o x) (w : World)
        → SameShared p (closed_round o x z r pool window closed (record p { world = w })).1
    unfolding closed_round
    closed-SameShared closed p w =
        let (t, v) = wall (if closed then w else (wall w).1) in
        sleep-SameShared p (x.sleep (window_sleep z window t) v)

    pub consume_guarded :
        (consumer : Text) (closed : Bool) (p : Process o x)
        → SameShared p (consume_round o x z r pool window consumer closed p).1
          ⊎ ((cancelled p.world ≡ false) × (is_open z window (wall p.world).0 ≡ true))
    unfolding consume_round
    consume_guarded consumer closed p = elim (Bool-cases (cancelled p.world)) [
      | inl over ↦ inl (rw over (same p p.world))
      | inr live ↦ elim (Bool-cases (is_open z window (wall p.world).0)) [
        | inl is_now ↦ inr (live, is_now)
        | inr shut ↦ inl (rw (live, shut) (closed-SameShared closed p (wall p.world).1))
      ]
    ]

    tick-guarded :
        (consumer : Text) (p : Process o x) (s : Bool × World)
        → SameShared p (after_tick o x z r pool window consumer p s).1
          ⊎ ((s.0 ≡ true) × (is_open z window (wall s.1).0 ≡ true))
    tick-guarded consumer p (false, w) = inl (same p w)
    tick-guarded consumer p (true, w) = elim (Bool-cases (is_open z window (wall w).0)) [
      | inl is_now ↦ inr (refl, is_now)
      | inr shut ↦ inl (rw shut (same p (wall w).1))
    ]

    -- A round of consume that changes Redis, the audio, the heap or the counter began with the
    -- context alive and the window open; a round of claimLoop that changes one of them came from a
    -- tick at which the window was open.
    pub loops_guarded :
        (consumer claimer : Text) (closed : Bool) (p : Process o x)
        → (SameShared p (consume_round o x z r pool window consumer closed p).1
            ⊎ ((cancelled p.world ≡ false) × (is_open z window (wall p.world).0 ≡ true)))
          × (SameShared p (claim_round o x z r pool window claimer p).1
              ⊎ (((wait_tick p.world).0 ≡ true)
                  × (is_open z window (wall (wait_tick p.world).1).0 ≡ true)))
    unfolding claim_round
    loops_guarded consumer claimer closed p =
        (consume_guarded consumer closed p, tick-guarded claimer p (wait_tick p.world))

    module _ (laws : RuntimeLaws z x r) where
      abbrev ReturnsCancelled : Next × Process o x → Type 0
      ReturnsCancelled s = s.0 ≡ returned → cancelled s.1.world ≡ true

      sleep-ReturnsCancelled :
          (p : Process o x) (s : Bool × World)
          → (s.0 ≡ false → cancelled s.1 ≡ true)
          → ReturnsCancelled (after_sleep o x z r pool window p s)
      sleep-ReturnsCancelled p (true, w) h e = absurd (cc e)
      sleep-ReturnsCancelled p (false, w) h e = h refl

      read-ReturnsCancelled :
          (reply : Result GoError (List QueuedMessage)) (p : Process o x)
          → ReturnsCancelled (after_read o x z r pool window reply p)
      read-ReturnsCancelled (err e) p stop = elim (Bool-cases (cancelled p.world)) [
        | inl over ↦ rw over over
        | inr live ↦ absurd (cc (rw live at stop))
      ]
      read-ReturnsCancelled (ok ms) p stop = absurd (cc stop)

      tick-ReturnsCancelled :
          (consumer : Text) (p : Process o x) (s : Bool × World)
          → (s.0 ≡ false → cancelled s.1 ≡ true)
          → ReturnsCancelled (after_tick o x z r pool window consumer p s)
      tick-ReturnsCancelled consumer p (true, w) h e = absurd (cc e)
      tick-ReturnsCancelled consumer p (false, w) h e = h refl

      closed-ReturnsCancelled :
          (closed : Bool) (p : Process o x)
          → ReturnsCancelled (closed_round o x z r pool window closed p)
      unfolding closed_round
      closed-ReturnsCancelled closed p =
          let (t, w) = wall (if closed then p.world else (wall p.world).1) in
          sleep-ReturnsCancelled p (x.sleep (window_sleep z window t) w)
            (laws.sleep-cancelled (window_sleep z window t) w)

      consume-ReturnsCancelled :
          (consumer : Text) (closed : Bool) (p : Process o x)
          → ReturnsCancelled (consume_round o x z r pool window consumer closed p)
      unfolding consume_round read_round
      consume-ReturnsCancelled consumer closed p = elim (Bool-cases (cancelled p.world)) [
        | inl over ↦ rw over (λ stop. over)
        | inr live ↦ elim (Bool-cases (is_open z window (wall p.world).0)) [
          | inl is_now ↦ rw (live, is_now) (read-ReturnsCancelled _ _)
          | inr shut ↦
              rw (live, shut)
                (closed-ReturnsCancelled closed (record p { world = (wall p.world).1 }))
        ]
      ]

      -- If a wait that the context ends leaves it cancelled: consume returns at once when the
      -- context is cancelled, and a loop that returns leaves the context cancelled.
      pub loops_return :
          (consumer claimer : Text) (closed : Bool) (p : Process o x)
          → (cancelled p.world ≡ true
              → consume_round o x z r pool window consumer closed p ≡ (returned, p))
            × ((consume_round o x z r pool window consumer closed p).0 ≡ returned
                → cancelled (consume_round o x z r pool window consumer closed p).1.world ≡ true)
            × ((claim_round o x z r pool window claimer p).0 ≡ returned
                → cancelled (claim_round o x z r pool window claimer p).1.world ≡ true)
      unfolding consume_round claim_round
      loops_return consumer claimer closed p = (
        λ over. rw over refl,
        consume-ReturnsCancelled consumer closed p,
        tick-ReturnsCancelled claimer p (wait_tick p.world) (laws.tick-cancelled p.world),
      )
