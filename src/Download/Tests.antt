-- ===== src/Download/Tests.antt =====
-- Downloads of three bytes.
use worker_thoth.Base.{◌-◌, ◌^◌, ◌≡◌, refl, ◌↔◌, none, some, [], ◌∷◌, Text, codes, arith, pos, ok}
use worker_thoth.Outside.{Response}
use worker_thoth.Download.{read_limited, body_within, path_base, filename_of_path}
use worker_thoth.Download.Limits.{IsTaken, body_ok_iff, body_lost_at_max}

abbrev tune : Text
tune = 7 ∷ 8 ∷ 9 ∷ []

abbrev three_bytes : Response
three_bytes = record {
  status_code = 200;
  content_length = pos 3;
  body = record { bytes = tune; fault = none };
}

taken : body_within 4 three_bytes ≡ ok tune
unfolding body_within read_limited
taken = refl

body_ok_iff_example : (body_within 4 three_bytes ≡ ok tune) ↔ IsTaken 4 three_bytes tune
body_ok_iff_example = body_ok_iff 4 three_bytes tune (omega arith)

body_lost_at_max_example : body_within (2 ^ 63 - 1) three_bytes ≡ ok []
body_lost_at_max_example = body_lost_at_max three_bytes refl refl

name-test : filename_of_path (some (codes "/music/a.mp3/")) ≡ codes "a.mp3"
unfolding filename_of_path path_base
name-test = refl
