-- ===== src/Window/Tests.antt =====
-- Concrete windows, in a zone database with one zone and days without clock changes.
use worker_thoth.Base.{
  ℕ, ◌+◌, ◌-◌, ◌/◌, ◌%◌, ◌<◌, ◌≡◌, refl, ◌↔◌, [], true, false, none, some, codes, arith, text_eq,
  trim_space, cut, atoi, if◌then◌else◌, ok,
}
use worker_thoth.Window.{Zones, Clock, IsClock, Window, parse_hhmm, parse, is_open, next_open}
use worker_thoth.Window.Hours.{IsValid, parse-IsValid, is_open_iff}
use worker_thoth.Window.Reopen.{OpensAfter, RunsOn, next_open-OpensAfter}
use worker_thoth.Window.Bounds.{hhmm, parse-hhmm}

-- The wall clock, `n` nanoseconds behind a midnight.
abbrev pub clock_at : ℕ → Clock
clock_at n = record {
  hour = n / 3_600_000_000_000 % 24;
  minute = n / 60_000_000_000 % 60;
  second = n / 1_000_000_000 % 60;
  nanosecond = n % 1_000_000_000;
}

pub clock_at-IsClock : (n : ℕ) → IsClock (clock_at n)
clock_at-IsClock n = record {
  hour_lt = omega arith;
  minute_lt = omega arith;
  second_lt = omega arith;
  nanosecond_lt = omega arith;
}

abbrev pub utc_only : Zones
utc_only = record {
  Location = Unit;
  Time = ℕ;
  load_location = λ name. if text_eq name (codes "UTC") then some tt else none;
  clock = λ l t. clock_at t;
  later = λ t n. t + n;
  clock-IsClock = λ l t. clock_at-IsClock t;
}

-- From 22:00 to 06:00.
abbrev pub night : Window Unit
night = record { enabled = true; start_min = 1320; end_min = 360; loc = some tt }

parsed_night : parse utc_only (codes " 22:00") (codes "6:00") [] ≡ ok night
unfolding parse trim_space parse_hhmm cut atoi
parsed_night = refl

pub night-IsValid : IsValid utc_only night
night-IsValid = parse-IsValid utc_only (codes " 22:00") (codes "6:00") [] night parsed_night

-- 23:30, and 21:58 with half a minute gone.
abbrev late_evening : ℕ
late_evening = 84_600_000_000_000

abbrev pub evening : ℕ
evening = 79_110_000_000_000

is_open_iff_example :
    (is_open utc_only night late_evening ≡ true)
    ↔ ((1410 + 1440 - 1320) % 1440 < (360 + 1440 - 1320) % 1440)
is_open_iff_example = is_open_iff utc_only night late_evening night-IsValid refl

open_late : is_open utc_only night late_evening ≡ true
unfolding is_open
open_late = refl

pub shut_in_the_evening : is_open utc_only night evening ≡ false
unfolding is_open
shut_in_the_evening = refl

next_open-test : next_open utc_only night evening ≡ 90_000_000_000
unfolding next_open is_open
next_open-test = refl

pub clock_at-runs : (n : ℕ) → RunsOn utc_only tt evening n
clock_at-runs n x le = omega arith

next_open-OpensAfter_example : OpensAfter utc_only night evening (next_open utc_only night evening)
next_open-OpensAfter_example =
    next_open-OpensAfter utc_only night evening tt night-IsValid refl shut_in_the_evening
      (clock_at-runs (next_open utc_only night evening))

parse-hhmm_example : parse utc_only (hhmm 1320) (hhmm 360) [] ≡ ok night
parse-hhmm_example =
    parse-hhmm utc_only 1320 360 [] tt (omega arith) (omega arith) (omega arith) refl
