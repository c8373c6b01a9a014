-- ===== src/Whisper/Answer.antt =====
-- Which answers of Whisper count as a success, as worth a retry, and as final.
use worker_thoth.Base.{◌≤◌, ◌≡◌, ◌≢◌, ◌↔◌, ◌⊎◌, true, none, arith, Text, GoError, Result, ok, err}
use worker_thoth.Outside.{Response}
use worker_thoth.Whisper.{is_transient, answer_of}

-- A complete answer with status 200 and this text.
abbrev pub IsAnswered : Result GoError Response → Text → Type 0
IsAnswered (err e) text = ⊥
IsAnswered (ok resp) text =
    (resp.status_code ≡ 200) × (resp.body.fault ≡ none) × (resp.body.bytes ≡ text)

-- No complete answer, or one with a status of 500 or more.
abbrev pub IsTroubled : Result GoError Response → Type 0
IsTroubled (err e) = Unit
IsTroubled (ok resp) = (resp.body.fault ≢ none) ⊎ (500 ≤ resp.status_code)

-- The answer of the upstream is a success exactly if it is complete and its status is 200, and the
-- result is then its body as it is.
pub answer_ok_iff :
    (r : Result GoError Response) (text : Text) → (answer_of r ≡ ok text) ↔ IsAnswered r text
unfolding answer_of
answer_ok_iff (err e) text = ground arith
answer_ok_iff (ok resp) text = ground arith

-- A failure of the upstream call is worth a retry exactly if no complete answer came, or one with a
-- status of 500 or more.
pub answer-transient_iff :
    (r : Result GoError Response) (e : GoError)
    → answer_of r ≡ err e
    → (is_transient e ≡ true) ↔ IsTroubled r
unfolding answer_of is_transient
answer-transient_iff (err cause) e h = ground arith
answer-transient_iff (ok resp) e h = ground arith
