-- ===== src/Worker/Pause.antt =====
-- internal/worker/pool.go: how long the loop consume sleeps while the window is closed.
use worker_thoth.Base.{ℕ, ◌≤◌, ◌<◌, ◌≡◌, false, ◌||◌, some, arith, ltb, ◌==◌, if◌then◌else◌}
use worker_thoth.Window.{Zones, Window, is_open, next_open}
use worker_thoth.Window.Hours.{IsValid}
use worker_thoth.Window.Reopen.{RunsOn, next_open-OpensAfter}

-- A minute, in nanoseconds.
abbrev pub window_poll : ℕ
window_poll = 60_000_000_000

module _ (z : Zones) where
  open z use {Location, Time, later}

  -- windowSleep, at the time that time.Now gives. NextOpen is never negative.
  unfoldable pub window_sleep : Window Location → Time → ℕ
  window_sleep w t =
      let d = next_open z w t in if d == 0 || ltb window_poll d then window_poll else d

  window_sleep-bounds :
      (w : Window Location) (t : Time)
      → 0 < next_open z w t
      → (0 < window_sleep w t)
        × (window_sleep w t ≤ window_poll)
        × (window_sleep w t ≤ next_open z w t)
  unfolding window_sleep
  window_sleep-bounds w t h = ground arith

  -- For a valid window that is closed at a time, whose location's clock runs on without a jump for
  -- the duration that NextOpen returns: windowSleep is positive and at most a minute, and the
  -- window is closed at every nanosecond before its end.
  pub window_sleep-shut :
      (w : Window Location) (t : Time) (l : Location)
      → IsValid z w
      → w.loc ≡ some l
      → is_open z w t ≡ false
      → RunsOn z l t (next_open z w t)
      → (0 < window_sleep w t)
        × (window_sleep w t ≤ window_poll)
        × ((k : ℕ) → k < window_sleep w t → is_open z w (later t k) ≡ false)
  window_sleep-shut w t l v here shut runs =
      let opens = next_open-OpensAfter z w t l v here shut runs in
      let (some_time, short, before) = window_sleep-bounds w t opens.positive in
      (some_time, short, λ k lt. opens.stays_shut k (omega arith))
