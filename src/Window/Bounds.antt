-- ===== src/Window/Bounds.antt =====
-- What Parse accepts: every pair of distinct times written "HH:MM", in a known time zone.
use worker_thoth.Base.{
  ℕ, ◌+◌, ◌/◌, ◌%◌, ◌<◌, ◌≡◌, ◌≢◌, refl, true, [], ◌∷◌, ◌++◌, some, arith, Text, cut, atoi,
  digits_value, trim_space, pos, ok,
}
use worker_thoth.Base.Strings.Trim.{trim_space-visible}
use worker_thoth.Window.{Zones, parse_hhmm, parse, parse_bounds, or_utc}

-- "HH", and "HH:MM" of a minute of the day.
abbrev pub two_digits : ℕ → Text
two_digits n = (b'0' + n / 10) ∷ (b'0' + n % 10) ∷ []

abbrev pub hhmm : ℕ → Text
hhmm m = two_digits (m / 60) ++ b':' ∷ two_digits (m % 60)

atoi-two_digits : (n : ℕ) → n < 100 → atoi (two_digits n) ≡ some (pos n)
unfolding atoi digits_value
atoi-two_digits n h = ground arith

cut-hhmm : (m : ℕ) → m < 1440 → cut b':' (hhmm m) ≡ some (two_digits (m / 60), two_digits (m % 60))
unfolding cut
cut-hhmm m h = ground arith

pub parse_hhmm-hhmm : (m : ℕ) → m < 1440 → parse_hhmm (hhmm m) ≡ ok m
unfolding parse_hhmm
parse_hhmm-hhmm m h =
    rw
      (cut-hhmm m h, atoi-two_digits (m / 60) (omega arith), atoi-two_digits (m % 60) (omega arith))
      (ground arith)

trim_space-hhmm : (m : ℕ) → m < 1440 → trim_space (hhmm m) ≡ hhmm m
trim_space-hhmm m h =
    trim_space-visible (b'0' + m / 60 / 10) (b'0' + m % 60 % 10) _ _ (omega arith) (omega arith)
      refl

module _ (z : Zones) where
  open z use {Location, load_location}

  -- Two distinct minutes of the day, written as HH:MM, in a zone that is known, are parsed to the
  -- enabled window between them.
  pub parse-hhmm :
      (start end : ℕ) (tz : Text) (l : Location)
      → start < 1440
      → end < 1440
      → start ≢ end
      → load_location (or_utc tz) ≡ some l
      → parse z (hhmm start) (hhmm end) tz
        ≡ ok (record { enabled = true; start_min = start; end_min = end; loc = some l })
  unfolding parse parse_bounds
  parse-hhmm start end tz l hs he ne known =
      rw
        (
          trim_space-hhmm start hs,
          trim_space-hhmm end he,
          parse_hhmm-hhmm start hs,
          parse_hhmm-hhmm end he,
          known,
        )
        (ground arith)
