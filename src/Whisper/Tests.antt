-- ===== src/Whisper/Tests.antt =====
-- Two callers at the gate, and an answer with an error status.
use worker_thoth.Base.{
  ℕ, suc, ◌≡◌, refl, ◌↔◌, ◌⊎◌, true, none, some, [], ◌∷◌, codes, arith, pos, GoError, transient,
  Result, ok, get_elem?, set,
}
use worker_thoth.Outside.{Response}
use worker_thoth.Whisper.{is_transient, upstream_err, answer_of}
use worker_thoth.Whisper.Gate.{
  idle, waiting, sending, Callers, Step, arrive, enter, Reach, here, next, Inv, one_sending,
  gate_moves,
}
use worker_thoth.Whisper.Answer.{IsTroubled, answer-transient_iff}

abbrev resting : Callers
resting = record { tokens = 0; phases = idle ∷ idle ∷ [] }

resting-Inv : Inv resting
resting-Inv = record { counted = refl; bounded = omega arith }

abbrev one_in : Callers
one_in = record { tokens = 1; phases = waiting ∷ sending ∷ [] }

to_one_in : Reach resting one_in
to_one_in =
    next (next (next here (arrive 1 refl refl)) (enter 1 refl (omega arith) refl))
      (arrive 0 refl refl)

one_sending_example : ◌≡◌ {A = ℕ} 1 1
one_sending_example = one_sending resting one_in 1 1 resting-Inv to_one_in refl refl

gate_moves_example :
    Step one_in (record { tokens = 2; phases = sending ∷ sending ∷ [] })
    ⊎ ((j n : ℕ) × (get_elem? one_in.phases j ≡ some sending)
        × (1 ≡ suc n)
        × Step one_in (record { tokens = n; phases = set one_in.phases j idle }))
gate_moves_example = gate_moves resting one_in 0 resting-Inv to_one_in refl

abbrev reply : ℕ → Result GoError Response
reply status = ok (record {
  status_code = status;
  content_length = pos 2;
  body = record { bytes = codes "{}"; fault = none };
})

answer-transient_iff_example :
    (is_transient (transient (upstream_err 503 (codes "{}"))) ≡ true) ↔ IsTroubled (reply 503)
unfolding answer_of
answer-transient_iff_example =
    answer-transient_iff (reply 503) (transient (upstream_err 503 (codes "{}"))) refl
