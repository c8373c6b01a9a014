-- ===== src/Window/Reopen.antt =====
-- How long a closed window stays closed: NextOpen against IsOpen at later times.
use worker_thoth.Base.{
  ℕ, ◌+◌, ◌-◌, ◌*◌, ◌/◌, ◌%◌, ◌≤◌, ◌<◌, ◌≡◌, ◌≢◌, subst, Bool, true, false, some, arith, ltb, leb,
  if◌then◌else◌, ◌&&◌, ◌||◌,
}
use worker_thoth.Window.{
  Zones, Window, Clock, IsClock, minute_of_day, nanos_per_minute, is_open, next_open,
}
use worker_thoth.Window.Hours.{IsValid}

abbrev pub nanos_per_day : ℕ
nanos_per_day = 86_400_000_000_000

abbrev pub nanos_of_day : Clock → ℕ
nanos_of_day c = minute_of_day c * nanos_per_minute + c.second * 1_000_000_000 + c.nanosecond

-- The test of IsOpen on the minute of the day.
abbrev open_at : ℕ → ℕ → ℕ → Bool
open_at start end m = if ltb start end then leb start m && ltb m end else leb start m || ltb m end

abbrev delta_at : ℕ → ℕ → ℕ
delta_at start m = if ltb m start then start - m else 24 * 60 - m + start

-- On minutes: the window is closed until the next start, and open at it.
stays_closed :
    (start end m k : ℕ)
    → start < 1440
    → end < 1440
    → m < 1440
    → start ≢ end
    → open_at start end m ≡ false
    → k < delta_at start m
    → open_at start end ((m + k) % 1440) ≡ false
stays_closed start end m k hs he hm ne shut h = ground arith

delta_at-bounds :
    (start m : ℕ) → start < 1440 → m < 1440 → (0 < delta_at start m) × (delta_at start m ≤ 1440)
delta_at-bounds start m hs hm = ground arith

delta_at-start : (start m : ℕ) → start < 1440 → m < 1440 → (m + delta_at start m) % 1440 ≡ start
delta_at-start start m hs hm = ground arith

reaches : (start m delta k : ℕ) → (m + delta) % 1440 ≡ start → k ≡ delta → start ≡ (m + k) % 1440
reaches start m delta k e f = omega arith

opens_at_start : (start end : ℕ) → start ≢ end → open_at start end start ≡ true
opens_at_start start end ne = ground arith

-- The minute that is read `x` nanoseconds after the nanosecond `n` of a day.
minute_after :
    (n x : ℕ)
    → n < nanos_per_day
    → (n + x) % nanos_per_day / nanos_per_minute
      ≡ (n / nanos_per_minute + (n % nanos_per_minute + x) / nanos_per_minute) % 1440
minute_after n x h = omega arith

minute-nanos :
    (c : Clock)
    → IsClock c
    → (minute_of_day c ≡ nanos_of_day c / nanos_per_minute)
      × (c.second * 1_000_000_000 + c.nanosecond ≡ nanos_of_day c % nanos_per_minute)
      × (nanos_of_day c < nanos_per_day)
minute-nanos c v = (omega arith, omega arith, omega arith)

less_elapsed :
    (start m elapsed : ℕ)
    → m < 1440
    → elapsed < nanos_per_minute
    → let ahead = delta_at start m * nanos_per_minute in
      (if ltb ahead elapsed then 0 else ahead - elapsed) + elapsed ≡ ahead
less_elapsed start m elapsed hm he = ground arith

module _ (z : Zones) where
  open z use {Location, Time, clock, later, clock-IsClock}

  -- The clock of `l` runs on without a jump for `n` nanoseconds behind `t`.
  abbrev pub RunsOn : Location → Time → ℕ → Type 0
  RunsOn l t n =
      (x : ℕ)
      → x ≤ n
      → nanos_of_day (clock (some l) (later t x))
        ≡ (nanos_of_day (clock (some l) t) + x) % nanos_per_day

  -- The window opens `n` nanoseconds behind `t`, and not before, within a day.
  pub record OpensAfter (w : Window Location) (t : Time) (n : ℕ) : Type 0 where
    pub positive : 0 < n
    pub within_day : n ≤ nanos_per_day
    pub stays_shut : (x : ℕ) → x < n → is_open z w (later t x) ≡ false
    pub opens : is_open z w (later t n) ≡ true

  is_open-open_at :
      (w : Window Location) (t : Time)
      → w.enabled ≡ true
      → is_open z w t ≡ open_at w.start_min w.end_min (minute_of_day (clock w.loc t))
  unfolding is_open
  is_open-open_at w t on = rw on

  enabled_of_shut : (w : Window Location) (t : Time) → is_open z w t ≡ false → w.enabled ≡ true
  unfolding is_open
  enabled_of_shut w t h = ground arith

  -- Of a closed window the duration is the minutes to the start, less what has passed of this one.
  next_open-delta :
      (w : Window Location) (t : Time) (l : Location)
      → w.loc ≡ some l
      → is_open z w t ≡ false
      → let c = clock (some l) t in
        next_open z w t + (c.second * 1_000_000_000 + c.nanosecond)
        ≡ delta_at w.start_min (minute_of_day c) * nanos_per_minute
  unfolding next_open
  next_open-delta w t l here shut =
      let v = clock-IsClock l t in
      rw (shut, here)
        (less_elapsed w.start_min (minute_of_day (clock (some l) t)) _ (omega arith) (omega arith))

  -- The minute that is read later, by the minutes that have passed.
  later_minute :
      (t : Time) (l : Location) (x : ℕ)
      → RunsOn l t x
      → let n = nanos_of_day (clock (some l) t) in
        minute_of_day (clock (some l) (later t x))
        ≡ (minute_of_day (clock (some l) t) + (n % nanos_per_minute + x) / nanos_per_minute) % 1440
  later_minute t l x runs = omega (
    arith,
    minute-nanos _ (clock-IsClock l t),
    minute-nanos _ (clock-IsClock l (later t x)),
    minute_after (nanos_of_day (clock (some l) t)) x,
    runs x,
  )

  opens_after :
      (w : Window Location) (t : Time) (l : Location) (n : ℕ)
      → IsValid z w
      → w.loc ≡ some l
      → is_open z w t ≡ false
      → let c = clock (some l) t in
        n + (c.second * 1_000_000_000 + c.nanosecond)
          ≡ delta_at w.start_min (minute_of_day c) * nanos_per_minute
        → RunsOn l t n
        → OpensAfter w t n
  opens_after w t l n v here shut d runs =
      let on = enabled_of_shut w t shut in
      let m = minute_of_day (clock (some l) t) in
      let day = minute-nanos (clock (some l) t) (clock-IsClock l t) in
      let m_lt : m < 1440 = omega arith in
      let bounds = delta_at-bounds w.start_min m v.start_lt m_lt in
      let starts = delta_at-start w.start_min m v.start_lt m_lt in
      let closed = subst (λ b. b ≡ false) (is_open-open_at w t on) shut in
      record {
        positive = omega (arith, clock-IsClock l t);
        within_day = omega arith;
        stays_shut = λ x h.
            rw (is_open-open_at w _ on, here, later_minute t l x (λ y le. runs y (omega arith)))
              (stays_closed w.start_min w.end_min _ _ v.start_lt v.end_lt m_lt (v.distinct on)
                (rw here at closed) (omega arith));
        opens =
            rw (is_open-open_at w _ on, here, later_minute t l n runs)
              (subst (λ k. open_at w.start_min w.end_min k ≡ true)
                (reaches _ m _ _ starts (omega arith))
                (opens_at_start w.start_min w.end_min (v.distinct on)));
      }

  -- For a valid window that is closed at a time, whose location's clock runs on without a jump
  -- until the end of the duration that NextOpen returns: that duration is positive and at most a
  -- day, the window is closed at every nanosecond before its end, and open at its end.
  pub next_open-OpensAfter :
      (w : Window Location) (t : Time) (l : Location)
      → IsValid z w
      → w.loc ≡ some l
      → is_open z w t ≡ false
      → RunsOn l t (next_open z w t)
      → OpensAfter w t (next_open z w t)
  next_open-OpensAfter w t l v here shut runs =
      opens_after w t l (next_open z w t) v here shut (next_open-delta w t l here shut) runs
