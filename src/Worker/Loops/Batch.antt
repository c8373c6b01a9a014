-- ===== src/Worker/Loops/Batch.antt =====
-- What the messages of one read leave behind, one after the other.
use worker_thoth.Base.{
  ℕ, ◌≡◌, refl, subst, ◌∙◌, inl, inr, ◌||◌, Bool, Bool-cases, true, false, Option, none, List, [],
  ◌∷◌, Text, text_eq, text_eq_iff, text_eq_refl, if◌then◌else◌,
}
use worker_thoth.Base.Dict.{lookup}
use worker_thoth.Outside.{Outside}
use worker_thoth.Redis.{Ops}
use worker_thoth.Store.{QueuedMessage}
use worker_thoth.Worker.{Pool, Process, handle}
use worker_thoth.Worker.Release.{handle_leaves}
use worker_thoth.Worker.Loops.{handle_all}

-- Whether a message is about the job `j`.
abbrev pub is_about : Text → List QueuedMessage → Bool
is_about j [] = false
is_about j (m ∷ ms) = text_eq m.job_id j || is_about j ms

none_of_either :
    (a b : Bool) (q v : Option ℕ)
    → q ≡ (if a then none else v)
    → (if b then none else q) ≡ (if a || b then none else v)
none_of_either true true q v e = refl
none_of_either true false q v e = e
none_of_either false true q v e = refl
none_of_either false false q v e = e

module _ (o : Ops) (x : Outside) (pool : Pool) where
  handle-lookup :
      (m : QueuedMessage) (p : Process o x) (j : Text)
      → lookup j (handle o x pool m p).audio.m
        ≡ (if text_eq m.job_id j then none else lookup j p.audio.m)
  handle-lookup m p j =
      let (gone, kept, counter) = handle_leaves o x pool m p in
      elim (Bool-cases (text_eq m.job_id j)) [
        | inl mine ↦ rw mine (
            subst (λ k. lookup k (handle o x pool m p).audio.m ≡ none)
              ((text_eq_iff m.job_id j).0 mine) gone)
        | inr other ↦ rw other (
            kept j
              (λ e. cc (other, subst (λ k. text_eq m.job_id k ≡ true) e (text_eq_refl m.job_id))))
      ]

  -- After the messages of one read, or of one claim, have been handled one after the other, the
  -- audio store has no clip for any of their jobs, every other job still has its own, and the
  -- counter of jobs in flight is back at its value.
  pub handle_all_leaves :
      (ms : List QueuedMessage) (p : Process o x)
      → let q = handle_all o x pool ms p in
        (q.in_flight ≡ p.in_flight)
        × ((j : Text) → lookup j q.audio.m ≡ (if is_about j ms then none else lookup j p.audio.m))
  unfolding handle_all
  handle_all_leaves [] p = (refl, λ j. refl)
  handle_all_leaves (m ∷ ms) p =
      let q = handle o x pool m p in
      let (counter, left) = handle_all_leaves ms q in
      (
        counter ∙ (handle_leaves o x pool m p).2,
        λ j. left j ∙ none_of_either (text_eq m.job_id j) (is_about j ms) _ _ (handle-lookup m p j),
      )
