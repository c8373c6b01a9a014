-- ===== src/System/Invariant.antt =====
-- What every step of the goroutines keeps: the account of the memory, and the counter of jobs in
-- flight.
use worker_thoth.Base.{
  ℕ, ◌+◌, ◌-◌, ◌≡◌, refl, ap, sym, subst, Option, none, some, List, [], ◌∷◌, ◌++◌, arith, Text,
  get_elem?, set,
}
use worker_thoth.Base.Sums.{refers, total, total-append, total-set, weight-le-total}
use worker_thoth.Outside.{Outside}
use worker_thoth.Redis.{Ops}
use worker_thoth.Audio.Memory.{Heap}
use worker_thoth.Worker.{Pool, Process}
use worker_thoth.Server.{Config}
use worker_thoth.System.{start, arrived}
use worker_thoth.System.Threads.{
  Thread, handler, uploader, System, advance_thread, IsNew, Step, receive, request, move,
  environment, Reach, here, next,
}
use worker_thoth.System.Ownership.{Owned, Keeps}
use worker_thoth.System.Accounts.{holds, advance-Accounted, advance_upload-Accounted}

abbrev pub held_by : Thread → Option ℕ
held_by (handler m ph) = holds ph
held_by (uploader u ph) = none

-- The references to the array `a` from the goroutines.
abbrev pub held : List Thread → ℕ → ℕ
held threads a = total (λ th. refers a (held_by th)) threads

Owned-congr :
    (m : List (Text × ℕ)) (h : Heap) (f g : ℕ → ℕ) (own own' : Option ℕ)
    → ((a : ℕ) → g a + refers a own' ≡ f a + refers a own)
    → Owned m h f own
    → Owned m h g own'
Owned-congr m h f g own own' e v = record {
  keys = v.keys;
  clips_once = v.clips_once;
  clips_known = v.clips_known;
  once = λ a. omega (arith, v.once a, e a);
  known = λ a le. omega (arith, v.known a le, e a);
  clean = λ a unused. v.clean a (omega (arith, e a));
}

-- The references from all goroutines but one.
abbrev pub held_but : List Thread → Thread → ℕ → ℕ
held_but threads th a = held threads a - refers a (held_by th)

pub held_but-split :
    (threads : List Thread) (i : ℕ) (th : Thread) (a : ℕ)
    → get_elem? threads i ≡ some th
    → held_but threads th a + refers a (held_by th) ≡ held threads a
held_but-split threads i th a at_i =
    omega (arith, weight-le-total (λ t. refers a (held_by t)) threads i th at_i)

held-set :
    (threads : List Thread) (i : ℕ) (th new : Thread) (a : ℕ)
    → get_elem? threads i ≡ some th
    → held (set threads i new) a ≡ held_but threads th a + refers a (held_by new)
held-set threads i th new a at_i = omega (
  arith,
  total-set (λ t. refers a (held_by t)) threads i th new at_i,
  held_but-split threads i th a at_i,
)

module _ (o : Ops) (x : Outside) where
  abbrev pub Sound : System o x → Type 0
  Sound s = Owned s.shared.audio.m s.shared.heap (held s.threads) none

  -- A new goroutine refers to nothing.
  begin-Sound :
      (s : System o x) (th : Thread)
      → held_by th ≡ none
      → Sound s
      → Sound (record s { threads = s.threads ++ th ∷ [] })
  begin-Sound s th none_held v =
      Owned-congr s.shared.audio.m s.shared.heap (held s.threads) (held (s.threads ++ th ∷ [])) none
        none
        (λ a. omega (
          arith,
          total-append (λ t. refers a (held_by t)) s.threads (th ∷ []),
          ap (refers a) none_held,
        ))
        v

  -- The account, seen from one goroutine.
  pub Sound-Owned :
      (s : System o x) (i : ℕ) (th : Thread)
      → get_elem? s.threads i ≡ some th
      → Sound s
      → Owned s.shared.audio.m s.shared.heap (held_but s.threads th) (held_by th)
  Sound-Owned s i th at_i v =
      Owned-congr s.shared.audio.m s.shared.heap (held s.threads) (held_but s.threads th) none
        (held_by th) (λ a. omega (arith, held_but-split s.threads i th a at_i)) v

  module _ (pool : Pool) (c : Config) where
    -- A step of one goroutine, seen from it.
    pub advance_thread-Owned :
        (th : Thread) (p : Process o x) (others : ℕ → ℕ)
        → IsNew o x th p
        → Owned p.audio.m p.heap others (held_by th)
        → let (th', q) = advance_thread o x pool c th p in
          Owned q.audio.m q.heap others (held_by th') × Keeps others p.heap q.heap
    advance_thread-Owned (handler m ph) p others fresh v =
        advance-Accounted o x others pool m ph p v
    advance_thread-Owned (uploader u ph) p others fresh v =
        advance_upload-Accounted o x others c pool.store u ph p fresh v

    Step-Sound : (s t : System o x) → Step o x pool c s t → Sound s → Sound t
    Step-Sound s t (receive m e) v = subst Sound (sym e) (begin-Sound s (handler m start) refl v)
    Step-Sound s t (request u e) v = subst Sound (sym e) (begin-Sound s (uploader u arrived) refl v)
    Step-Sound s t (move i th at_i fresh e) v =
        let (th', q) = advance_thread o x pool c th s.shared in
        let kept =
          (advance_thread-Owned th s.shared (held_but s.threads th) fresh
            (Sound-Owned s i th at_i v)).0 in
        subst Sound (sym e) (
          Owned-congr q.audio.m q.heap (held_but s.threads th) (held (set s.threads i th'))
            (held_by th') none (λ a. omega (arith, held-set s.threads i th th' a at_i)) kept)
    Step-Sound s t (environment db w e) v = subst Sound (sym e) v

    pub Reach-Sound : (s t : System o x) → Reach o x pool c s t → Sound s → Sound t
    Reach-Sound s t here v = v
    Reach-Sound s t (next {t = u} r step) v = Step-Sound u t step (Reach-Sound s u r v)
