-- ===== src/Worker/Loops/Tests.antt =====
-- The loops in the evening, with a window that opens at night, and without a window.
use worker_thoth.Base.{
  refl, pos, decimal, ◌≡◌, ◌⊎◌, true, false, none, inl, inr, Bool-cases, [], ◌∷◌, Text, codes, leb,
  if◌then◌else◌,
}
use worker_thoth.Base.Dict.{lookup}
use worker_thoth.Redis.Memory.{steady}
use worker_thoth.Window.{is_open}
use worker_thoth.Window.Tests.{utc_only, night, evening}
use worker_thoth.Worker.{Process}
use worker_thoth.Worker.Tests.{answering, pool, delivery, accepted}
use worker_thoth.Worker.Loops.{
  returned, consumers, Runtime, RuntimeLaws, Next, handle_all, consume_round, claim_round,
}
use worker_thoth.Worker.Loops.Guard.{SameShared, loops_guarded}
use worker_thoth.Worker.Loops.Batch.{is_about, handle_all_leaves}

-- The context is cancelled when three requests have been sent.
abbrev runtime : Runtime utc_only (answering 200)
runtime = record {
  wall = λ w. (evening, w);
  cancelled = λ w. leb 3 w;
  block = λ w. w;
  wait_tick = λ w. if leb 3 w then (false, w) else (true, w);
}

runtime-RuntimeLaws : RuntimeLaws utc_only (answering 200) runtime
runtime-RuntimeLaws = record {
  sleep-cancelled = λ d w early. absurd (cc early);
  tick-cancelled = λ w stop. elim (Bool-cases (leb 3 w)) [
    | inl over ↦ rw over over
    | inr live ↦ absurd (cc (rw live at stop))
  ];
}

abbrev idle : Process steady (answering 200) → Next × Process steady (answering 200)
idle = consume_round steady (answering 200) utc_only runtime pool night (codes "worker-0") false

abbrev claimed : Process steady (answering 200) → Next × Process steady (answering 200)
claimed = claim_round steady (answering 200) utc_only runtime pool night (codes "claimer")

loops_guarded_example :
    (SameShared steady (answering 200) (accepted 200) (idle (accepted 200)).1
      ⊎ ((leb 3 0 ≡ false) × (is_open utc_only night evening ≡ true)))
    × (SameShared steady (answering 200) (accepted 200) (claimed (accepted 200)).1
        ⊎ ((true ≡ true) × (is_open utc_only night evening ≡ true)))
loops_guarded_example =
    loops_guarded steady (answering 200) utc_only runtime pool night (codes "worker-0")
      (codes "claimer") false (accepted 200)

-- With the context cancelled.
abbrev late : Process steady (answering 200)
late = record (accepted 200) { world = 3 }

idle-late : idle late ≡ (returned, late)
unfolding consume_round
idle-late = refl

claimed-late : claimed late ≡ (returned, late)
unfolding claim_round
claimed-late = refl

consumers-two : consumers (pos 2) ≡ codes "worker-0" ∷ codes "worker-1" ∷ codes "claimer" ∷ []
unfolding consumers decimal
consumers-two = refl

handle_all_leaves_example :
    let q = handle_all steady (answering 200) pool (delivery ∷ []) (accepted 200) in
    (q.in_flight ≡ 0)
    × ((j : Text)
        → lookup j q.audio.m
          ≡ (if is_about j (delivery ∷ []) then none else lookup j (accepted 200).audio.m))
handle_all_leaves_example =
    handle_all_leaves steady (answering 200) pool (delivery ∷ []) (accepted 200)
