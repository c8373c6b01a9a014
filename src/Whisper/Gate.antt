-- ===== src/Whisper/Gate.antt =====
-- The gate of the whisper client, a channel of capacity 1, under any number of callers of
-- Transcribe. A caller puts a token in before it sends, and takes one out when Transcribe returns.
use native.Mathlib.Decide.{ℕ_discrete, dec_lt}
use worker_thoth.Base.{
  ℕ, zero, suc, ◌+◌, ◌≤◌, ◌<◌, ◌≡◌, refl, ◌≢◌, ◌⊎◌, inl, inr, some, List, [], ◌∷◌, arith, get_elem?,
  set, ◌∙◌, get_elem?-set_ne,
}

-- Where a caller is: outside the select and the request, at the select, or in between the two
-- channel operations.
pub data Phase : Type 0 where
  idle waiting sending : Phase

pub record Callers : Type 0 where
  pub tokens : ℕ
  pub phases : List Phase

abbrev pub capacity : ℕ
capacity = 1

-- One step of the caller `i`.
pub data Step (x y : Callers) : Type 0 where
  -- Transcribe has built its request.
  arrive :
      (i : ℕ)
      → get_elem? x.phases i ≡ some idle
      → y ≡ record x { phases = set x.phases i waiting }
      → Step x y
  -- The send on the channel goes ahead when there is room.
  enter :
      (i : ℕ)
      → get_elem? x.phases i ≡ some waiting
      → x.tokens < capacity
      → y ≡ record { tokens = suc x.tokens; phases = set x.phases i sending }
      → Step x y
  -- The context is done first.
  give_up :
      (i : ℕ)
      → get_elem? x.phases i ≡ some waiting
      → y ≡ record x { phases = set x.phases i idle }
      → Step x y
  -- The deferred receive, on every return behind the gate. It waits for a token.
  leave :
      (i n : ℕ)
      → get_elem? x.phases i ≡ some sending
      → x.tokens ≡ suc n
      → y ≡ record { tokens = n; phases = set x.phases i idle }
      → Step x y

pub data Reach (x : Callers) : Callers → Type 0 where
  here : Reach x x
  next : {y z : Callers} → Reach x y → Step y z → Reach x z

abbrev weight : Phase → ℕ
weight idle = 0
weight waiting = 0
weight sending = 1

abbrev pub sending_count : List Phase → ℕ
sending_count [] = 0
sending_count (p ∷ ps) = weight p + sending_count ps

sending_count-set :
    (ps : List Phase) (i : ℕ) (old new : Phase)
    → get_elem? ps i ≡ some old
    → sending_count (set ps i new) + weight old ≡ sending_count ps + weight new
sending_count-set [] i old new h = absurd (cc)
sending_count-set (p ∷ ps) zero old new h = ground arith
sending_count-set (p ∷ ps) (suc i) old new h = omega (arith, sending_count-set ps i old new h)

-- The tokens are those of the callers that send, within the capacity.
pub record Inv (x : Callers) : Type 0 where
  pub counted : sending_count x.phases ≡ x.tokens
  pub bounded : x.tokens ≤ capacity

Step-Inv : {x y : Callers} → Step x y → Inv x → Inv y
Step-Inv {x} (arrive i at e) v = rw e (omega (arith, sending_count-set x.phases i idle waiting at))
Step-Inv {x} (enter i at room e) v =
    rw e (omega (arith, sending_count-set x.phases i waiting sending at))
Step-Inv {x} (give_up i at e) v = rw e (omega (arith, sending_count-set x.phases i waiting idle at))
Step-Inv {x} (leave i n at some_token e) v =
    rw e (omega (arith, sending_count-set x.phases i sending idle at))

Reach-Inv : {x y : Callers} → Inv x → Reach x y → Inv y
Reach-Inv v here = v
Reach-Inv v (next r st) = Step-Inv st (Reach-Inv v r)

sending-pos : (ps : List Phase) (i : ℕ) → get_elem? ps i ≡ some sending → 0 < sending_count ps
sending-pos ps i h = omega (arith, sending_count-set ps i sending idle h)

two-sending :
    (ps : List Phase) (i j : ℕ)
    → i ≢ j
    → get_elem? ps i ≡ some sending
    → get_elem? ps j ≡ some sending
    → 2 ≤ sending_count ps
two-sending ps i j ne hi hj = omega (
  arith,
  sending_count-set ps i sending idle hi,
  sending-pos (set ps i idle) j (get_elem?-set_ne ps i j idle ne ∙ hj),
)

-- However the callers of Transcribe interleave, from a state whose tokens are those of its sending
-- callers and within the capacity of one: at most one caller is between entering and leaving the
-- gate.
pub one_sending :
    (x y : Callers) (i j : ℕ)
    → Inv x
    → Reach x y
    → get_elem? y.phases i ≡ some sending
    → get_elem? y.phases j ≡ some sending
    → i ≡ j
one_sending x y i j v r hi hj = elim (ℕ_discrete i j) [
  | yes same ↦ same
  | no differ ↦ absurd (omega (arith, Reach-Inv v r, two-sending y.phases i j differ hi hj))
]

find_sending : (ps : List Phase) → 0 < sending_count ps → (j : ℕ) × (get_elem? ps j ≡ some sending)
find_sending [] h = absurd (omega arith)
find_sending (sending ∷ ps) h = (0, refl)
find_sending (idle ∷ ps) h = let (j, e) = find_sending ps (omega arith) in (suc j, e)
find_sending (waiting ∷ ps) h = let (j, e) = find_sending ps (omega arith) in (suc j, e)

-- However the callers of Transcribe interleave, from a state whose tokens are those of its sending
-- callers and within the capacity: while some caller waits at the gate, that caller can enter, or
-- some caller is sending and can leave.
pub gate_moves :
    (x y : Callers) (i : ℕ)
    → Inv x
    → Reach x y
    → get_elem? y.phases i ≡ some waiting
    → Step y (record { tokens = suc y.tokens; phases = set y.phases i sending })
      ⊎ ((j n : ℕ) × (get_elem? y.phases j ≡ some sending)
          × (y.tokens ≡ suc n)
          × Step y (record { tokens = n; phases = set y.phases j idle }))
gate_moves x y i v r at =
    let inv = Reach-Inv v r in
    elim (dec_lt y.tokens capacity) [
      | yes room ↦ inl (enter i at room refl)
      | no full ↦
          let (j, sends) = find_sending y.phases (omega arith) in
          let one : y.tokens ≡ suc 0 = omega arith in
          inr (j, 0, sends, one, leave j 0 sends one refl)
    ]
