-- ===== src/Window/Hours.antt =====
-- When a window is open, and what Parse guarantees.
use worker_thoth.Base.{
  ℕ, ◌+◌, ◌-◌, ◌%◌, ◌≤◌, ◌<◌, ◌≡◌, refl, ◌≢◌, ◌↔◌, inl, inr, Option, true, some, none, arith, ltb,
  leb, if◌then◌else◌, ◌&&◌, ◌||◌, ℤ, cut, atoi, trim_space, Text, ok, ◌==◌, Bool-cases, >>=-eq-ok,
  ok-injective, subst, map_err-eq-ok,
}
use worker_thoth.Window.{
  Zones, Window, field_value, invalid_hour, invalid_minute, HhmmError, located_window, parse_bounds,
  invalid_start, invalid_end, minutes_of, parse_hhmm, minute_of_day, parse, is_open, or_utc,
}

pub circular :
    (start end m : ℕ)
    → start < 1440
    → end < 1440
    → m < 1440
    → start ≢ end
    → ((if ltb start end then leb start m && ltb m end else leb start m || ltb m end) ≡ true)
      ↔ ((m + 1440 - start) % 1440 < (end + 1440 - start) % 1440)
circular start end m hs he hm ne = ground arith

pub field_value-le :
    (e : HhmmError) (hi : ℕ) (o : Option ℤ) {n : ℕ} → field_value e hi o ≡ ok n → n ≤ hi
field_value-le e hi o h = ground arith

minutes_of-lt : (s : Text) (o : Option (Text × Text)) {m : ℕ} → minutes_of s o ≡ ok m → m < 1440
minutes_of-lt s none h = cc
minutes_of-lt s (some (a, b)) h =
    let (hour, is_hour, h') = >>=-eq-ok _ _ h in
    let (min, is_min, h'') = >>=-eq-ok _ _ h' in
    let hour_le = field_value-le (invalid_hour s) 23 (atoi a) is_hour in
    let min_le = field_value-le (invalid_minute s) 59 (atoi b) is_min in ground arith

-- A minute that parse_hhmm returns is one of the day.
pub parse_hhmm-lt : (s : Text) {m : ℕ} → parse_hhmm s ≡ ok m → m < 1440
unfolding parse_hhmm
parse_hhmm-lt s h = minutes_of-lt s (cut b':' s) h

module _ (z : Zones) where
  open z use {Location, Time, load_location, clock, clock-IsClock}

  -- The windows that Parse makes.
  pub record IsValid (w : Window Location) : Type 0 where
    pub start_lt : w.start_min < 1440
    pub end_lt : w.end_min < 1440
    pub located : w.enabled ≡ true → (l : Location) × (w.loc ≡ some l)
    pub distinct : w.enabled ≡ true → w.start_min ≢ w.end_min

  located_window-IsValid :
      (start tz : Text) (a b : ℕ) (o : Option Location) (w : Window Location)
      → a < 1440
      → b < 1440
      → located_window start tz a b o ≡ ok w
      → IsValid w
  located_window-IsValid start tz a b none w ha hb h = absurd (ground arith)
  located_window-IsValid start tz a b (some l) w ha hb h = elim (Bool-cases (a == b)) [
    | inl same ↦ absurd (ground arith)
    | inr differ ↦ subst IsValid (ok-injective (rw differ at h)) (record {
      start_lt = ha;
      end_lt = hb;
      located = λ _. (l, refl);
      distinct = λ _. ground arith;
    })
  ]

  parse_bounds-IsValid :
      (start end tz : Text) (w : Window Location) → parse_bounds z start end tz ≡ ok w → IsValid w
  unfolding parse_bounds
  parse_bounds-IsValid start end tz w h =
      let (a, is_a, h1) = >>=-eq-ok _ _ h in
      let (b, is_b, h2) = >>=-eq-ok _ _ h1 in
      located_window-IsValid start (or_utc tz) a b (load_location (or_utc tz)) w
        (parse_hhmm-lt start (map_err-eq-ok invalid_start (parse_hhmm start) is_a))
        (parse_hhmm-lt end (map_err-eq-ok invalid_end (parse_hhmm end) is_b)) h2

  -- A window that Parse returns has bounds within the day; if it is enabled, it has a location and
  -- its bounds differ.
  pub parse-IsValid :
      (start end tz : Text) (w : Window Location) → parse z start end tz ≡ ok w → IsValid w
  unfolding parse
  parse-IsValid start end tz w h =
      ground (arith, parse_bounds-IsValid (trim_space start) (trim_space end) tz w)

  minute-lt : (l : Location) (t : Time) → minute_of_day (clock (some l) t) < 1440
  minute-lt l t = omega (arith, clock-IsClock l t)

  -- A valid and enabled window is open at a time exactly if the minutes from its start to that
  -- time, counted around the day, are fewer than those from its start to its end.
  pub is_open_iff :
      (w : Window Location) (t : Time)
      → IsValid w
      → w.enabled ≡ true
      → (is_open z w t ≡ true) ↔ (
          (minute_of_day (clock w.loc t) + 1440 - w.start_min) % 1440
          < (w.end_min + 1440 - w.start_min) % 1440)
  unfolding is_open
  is_open_iff w t v on =
      let (l, here) = v.located on in
      let lt = minute-lt l t in
      rw (here, on) (circular w.start_min w.end_min _ v.start_lt v.end_lt lt (v.distinct on))
