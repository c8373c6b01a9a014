-- ===== src/Window.antt =====
-- internal/window/window.go: the daily window in which the worker may process jobs.
-- The time zone database is a parameter: it loads a location and reads the wall clock there.
pub mod Hours
pub mod Reopen
mod Bounds
pub mod Tests
use worker_thoth.Base.{
  ℕ, ◌+◌, ◌-◌, ◌*◌, ◌<◌, ◌≡◌, Bool, true, false, not, ◌&&◌, ◌||◌, Option, none, some, ltb, leb,
  ◌==◌, if◌then◌else◌, Text, codes, is_empty, trim_space, cut, atoi, ℤ, pos, pos_part, ltb_ℤ,
  Result, ok, err, ◌>>=◌, map_err,
}

-- A reading of the wall clock.
pub record Clock : Type 0 where
  pub hour : ℕ
  pub minute : ℕ
  pub second : ℕ
  pub nanosecond : ℕ

pub record IsClock (c : Clock) : Type 0 where
  pub hour_lt : c.hour < 24
  pub minute_lt : c.minute < 60
  pub second_lt : c.second < 60
  pub nanosecond_lt : c.nanosecond < 1_000_000_000

-- What the package time gives: time.LoadLocation, Time.In, and Time.Add of nanoseconds.
-- The answer of `clock` at a nil location is not specified.
pub record Zones : Type 1 where
  pub Location : Type 0
  pub Time : Type 0
  pub load_location : Text → Option Location
  pub clock : Option Location → Time → Clock
  pub later : Time → ℕ → Time
  pub clock-IsClock : (l : Location) (t : Time) → IsClock (clock (some l) t)

-- The struct Window, over the locations of the zone database. The minutes are ints that Parse
-- keeps from 0 to 1439.
pub record Window (Location : Type 0) : Type 0 where
  pub enabled : Bool
  pub start_min : ℕ
  pub end_min : ℕ
  pub loc : Option Location

-- The errors of parseHHMM and of Parse, with what their messages quote.
pub data HhmmError : Type 0 where
  expected_hhmm invalid_hour invalid_minute : Text → HhmmError

pub data ParseError : Type 0 where
  needs_both : Text → Text → ParseError
  invalid_start invalid_end : HhmmError → ParseError
  equal_bounds : Text → ParseError
  invalid_timezone : Text → ParseError

-- One field of "HH:MM", an integer from 0 to `hi`; the sign is still to be tested.
abbrev pub field_value : HhmmError → ℕ → Option ℤ → Result HhmmError ℕ
field_value e hi none = err e
field_value e hi (some n) = if ltb_ℤ n (pos 0) || ltb_ℤ (pos hi) n then err e else ok (pos_part n)

-- parseHHMM, behind the call of strings.Cut.
abbrev pub minutes_of : Text → Option (Text × Text) → Result HhmmError ℕ
minutes_of s none = err (expected_hhmm s)
minutes_of s (some (h, m)) = do
  hour ← field_value (invalid_hour s) 23 (atoi h)
  min ← field_value (invalid_minute s) 59 (atoi m)
  ok (hour * 60 + min)

unfoldable pub parse_hhmm : Text → Result HhmmError ℕ
parse_hhmm s = minutes_of s (cut b':' s)

abbrev pub disabled : {Location : Type 0} → Window Location
disabled = record { enabled = false; start_min = 0; end_min = 0; loc = none }

-- minuteOfDay.
abbrev pub minute_of_day : Clock → ℕ
minute_of_day c = c.hour * 60 + c.minute

abbrev pub nanos_per_minute : ℕ
nanos_per_minute = 60_000_000_000

abbrev pub or_utc : Text → Text
or_utc tz = if is_empty tz then codes "UTC" else tz

-- What Parse does behind the two times: it compares them, and takes what LoadLocation gave.
abbrev pub located_window :
    {L : Type 0} → Text → Text → ℕ → ℕ → Option L → Result ParseError (Window L)
located_window start tz a b none =
    if a == b then err (equal_bounds start) else err (invalid_timezone tz)
located_window start tz a b (some l) =
    if a == b
    then err (equal_bounds start)
    else ok (record { enabled = true; start_min = a; end_min = b; loc = some l })

module _ (z : Zones) where
  open z use {Location, Time, load_location, clock}

  -- The second half of Parse, on trimmed texts of which neither is empty.
  parse_bounds : Text → Text → Text → Result ParseError (Window Location)
  parse_bounds start end tz = do
    start_min ← map_err invalid_start (parse_hhmm start)
    end_min ← map_err invalid_end (parse_hhmm end)
    located_window start (or_utc tz) start_min end_min (load_location (or_utc tz))

  unfoldable pub parse : Text → Text → Text → Result ParseError (Window Location)
  unfolding parse_bounds
  parse start end tz =
      let s = trim_space start in
      let e = trim_space end in
      if is_empty s && is_empty e
      then ok disabled
      else if is_empty s || is_empty e
      then err (needs_both s e)
      else parse_bounds s e tz

  -- IsOpen.
  unfoldable pub is_open : Window Location → Time → Bool
  is_open w t =
      let m = minute_of_day (clock w.loc t) in
      if not w.enabled
      then true
      else if ltb w.start_min w.end_min
      then leb w.start_min m && ltb m w.end_min
      else leb w.start_min m || ltb m w.end_min

  -- Minutes from the minute `m` of the day to the next start.
  abbrev delta_min : Window Location → ℕ → ℕ
  delta_min w m = if ltb m w.start_min then w.start_min - m else 24 * 60 - m + w.start_min

  -- NextOpen, in nanoseconds. The source subtracts what has passed of the minute, and returns 0
  -- for a negative difference.
  unfoldable pub next_open : Window Location → Time → ℕ
  next_open w t =
      let c = clock w.loc t in
      let ahead = delta_min w (minute_of_day c) * nanos_per_minute in
      let elapsed = c.second * 1_000_000_000 + c.nanosecond in
      if is_open w t then 0 else if ltb ahead elapsed then 0 else ahead - elapsed
