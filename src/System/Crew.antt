-- ===== src/System/Crew.antt =====
-- The goroutines that Run starts (internal/worker/pool.go), at work: each handles the messages of
-- its last read, or of its last claim, one after the other.
use worker_thoth.Base.{
  ◌≢◌, ok, codes, ℕ, ◌+◌, ◌-◌, ◌≤◌, ◌≡◌, refl, ap, sym, ◌∙◌, subst, some, List, [], ◌∷◌, Bool, true,
  false, if◌then◌else◌, arith, Text, get_elem?, set, length, length-set, ℤ, pos_part,
}
use worker_thoth.Base.Sums.{total, total-set, weight-le-total}
use worker_thoth.Outside.{Outside}
use worker_thoth.Redis.{Ops}
use worker_thoth.Store
use worker_thoth.Store.{QueuedMessage}
use worker_thoth.Worker.{Pool, Process}
use worker_thoth.Worker.Loops.{consumers, read_block, claim_min_idle}
use worker_thoth.Worker.Loops.Names.{consumers-AllDifferent}
use worker_thoth.System.{Phase, start, finished, advance}
use worker_thoth.System.Counter.{phase_counted, advance-Counts}

-- The consumer of claimLoop.
abbrev pub claimer : Text
claimer = codes "claimer"

-- Where a goroutine is in `for _, m := range msgs`: the messages left, and the one at hand.
pub data Hand : Type 0 where
  free : List QueuedMessage → Hand
  busy : List QueuedMessage → QueuedMessage → Phase → Hand

abbrev pub hand_counted : Hand → ℕ
hand_counted (free ms) = 0
hand_counted (busy ms m ph) = phase_counted ph

phase_counted-le : (ph : Phase) → phase_counted ph ≤ 1
phase_counted-le ph = ground arith

-- Behind a step of handle.
abbrev pub is_finished : Phase → Bool
is_finished finished = true
is_finished ph = false

abbrev pub busy_until : List QueuedMessage → QueuedMessage → Phase → Hand
busy_until ms m ph = if is_finished ph then free ms else busy ms m ph

busy_until-hand_counted :
    (ms : List QueuedMessage) (m : QueuedMessage) (ph : Phase)
    → hand_counted (busy_until ms m ph) ≡ phase_counted ph
busy_until-hand_counted ms m ph = ground arith

hand_counted-le : (h : Hand) → hand_counted h ≤ 1
hand_counted-le (free ms) = omega arith
hand_counted-le (busy ms m ph) = phase_counted-le ph

-- A goroutine for each consumer, without a message.
abbrev pub all_free : List Text → List Hand
all_free [] = []
all_free (name ∷ names) = free [] ∷ all_free names

all_free-counted : (names : List Text) → total hand_counted (all_free names) ≡ 0
all_free-counted [] = refl
all_free-counted (name ∷ names) = omega (arith, all_free-counted names)

length-all_free : (names : List Text) → length (all_free names) ≡ length names
length-all_free [] = refl
length-all_free (name ∷ names) = omega (arith, length-all_free names)

total-le-length : (hands : List Hand) → total hand_counted hands ≤ length hands
total-le-length [] = omega arith
total-le-length (h ∷ hands) = omega (arith, hand_counted-le h, total-le-length hands)

module _ (o : Ops) where
  -- The messages that a goroutine gets from Redis, by its name: a worker reads one message at a
  -- time, and the claimer takes over up to ten.
  pub data IsGiven (name : Text) (db : o.Db) (ms : List QueuedMessage) (db' : o.Db) : Type 0 where
    read :
        name ≢ claimer → Store.read o name 1 read_block db ≡ (ok ms, db') → IsGiven name db ms db'
    claimed :
        name ≡ claimer
        → Store.claim o name claim_min_idle 10 db ≡ (ok ms, db')
        → IsGiven name db ms db'

module _ (o : Ops) (x : Outside) (pool : Pool) (names : List Text) where
  -- The next message, or the next step of handle.
  unfoldable pub work : Hand → Process o x → Hand × Process o x
  work (free []) p = (free [], p)
  work (free (m ∷ ms)) p = (busy ms m start, p)
  work (busy ms m ph) p = let (ph', q) = advance o x pool m ph p in (busy_until ms m ph', q)

  pub record Crew : Type 0 where
    pub shared : Process o x
    pub hands : List Hand

  -- A goroutine that has no message gets those that Redis gives to its name; a goroutine works on;
  -- or what is shared is changed by others, which do not touch the counter.
  pub data CrewStep (s t : Crew) : Type 0 where
    receive :
        (i : ℕ) (name : Text) (ms : List QueuedMessage) (db : o.Db)
        → get_elem? names i ≡ some name
        → get_elem? s.hands i ≡ some (free [])
        → IsGiven o name s.shared.db ms db
        → t ≡ record { shared = record s.shared { db = db }; hands = set s.hands i (free ms) }
        → CrewStep s t
    move :
        (i : ℕ) (h : Hand)
        → get_elem? s.hands i ≡ some h
        → t ≡ record { shared = (work h s.shared).1; hands = set s.hands i (work h s.shared).0 }
        → CrewStep s t
    others :
        (p : Process o x)
        → p.in_flight ≡ s.shared.in_flight
        → t ≡ record s { shared = p }
        → CrewStep s t

  pub data CrewReach (s : Crew) : Crew → Type 0 where
    here : CrewReach s s
    next : {t u : Crew} → CrewReach s t → CrewStep t u → CrewReach s u

  work-Counts :
      (rest : ℕ) (h : Hand) (p : Process o x)
      → p.in_flight ≡ rest + hand_counted h
      → let (h', q) = work h p in q.in_flight ≡ rest + hand_counted h'
  unfolding work
  work-Counts rest (free []) p e = e
  work-Counts rest (free (m ∷ ms)) p e = e
  work-Counts rest (busy ms m ph) p e =
      advance-Counts o x pool rest m ph p e
      ∙ ap (λ n. rest + n) (sym (busy_until-hand_counted ms m (advance o x pool m ph p).0))

  -- The counter, and the number of goroutines.
  abbrev IsManned : ℕ → Crew → Type 0
  IsManned n s = (s.shared.in_flight ≡ total hand_counted s.hands) × (length s.hands ≡ n)

  Step-IsManned : (n : ℕ) (s t : Crew) → CrewStep s t → IsManned n s → IsManned n t
  Step-IsManned n s t (receive i name ms db named at_i given e) (counter, size) =
      subst (IsManned n) (sym e) (
        omega (arith, total-set hand_counted s.hands i (free []) (free ms) at_i),
        length-set s.hands i (free ms) ∙ size,
      )
  Step-IsManned n s t (move i h at_i e) (counter, size) =
      let (h', q) = work h s.shared in
      let rest = total hand_counted s.hands - hand_counted h in
      let part = weight-le-total hand_counted s.hands i h at_i in
      subst (IsManned n) (sym e) (
        omega (
          arith,
          part,
          total-set hand_counted s.hands i h h' at_i,
          work-Counts rest h s.shared (omega (arith, part)),
        ),
        length-set s.hands i h' ∙ size,
      )
  Step-IsManned n s t (others p same e) (counter, size) =
      subst (IsManned n) (sym e) (same ∙ counter, size)

  Reach-IsManned : (n : ℕ) (s t : Crew) → CrewReach s t → IsManned n s → IsManned n t
  Reach-IsManned n s t here v = v
  Reach-IsManned n s t (next {t = u} r step) v = Step-IsManned n u t step (Reach-IsManned n s u r v)

-- From a start of Run with no job in flight, with workers that read one message at a time and a
-- claimer that takes over up to ten, however these goroutines, the steps of their handlers and the
-- rest of the program interleave: at most MAX_CONCURRENCY + 1 jobs are in flight at once, one for
-- each worker and one for the goroutine of the claim loop.
pub in_flight-le :
    (o : Ops) (x : Outside) (pool : Pool) (concurrency : ℤ) (p : Process o x)
    (t : Crew o x pool (consumers concurrency))
    → p.in_flight ≡ 0
    → CrewReach o x pool
        (consumers concurrency)
        (record { shared = p; hands = all_free (consumers concurrency) })
        t
    → t.shared.in_flight ≤ pos_part concurrency + 1
in_flight-le o x pool concurrency p t none_yet r =
    let names = consumers concurrency in
    let (counter, size) =
      Reach-IsManned o x pool names (length names) (record { shared = p; hands = all_free names }) t
        r (none_yet ∙ sym (all_free-counted names), length-all_free names) in
    omega (arith, counter, size, total-le-length t.hands, (consumers-AllDifferent concurrency).0)
