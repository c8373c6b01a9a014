-- ===== src/Worker/Loops/Names.antt =====
-- The consumers that Run starts.
use worker_thoth.Base.{
  ℕ, zero, suc, ◌+◌, ◌<◌, ◌≡◌, ◌≢◌, refl, ap, true, false, text_eq, arith, All, List, [], ◌∷◌, Text,
  codes, drop, length, ℤ, pos_part,
}
use worker_thoth.Base.Strings.Decimal.{decimal-injective}
use worker_thoth.Worker.Loops.{worker_name, names_from, consumers}

-- No text occurs twice.
abbrev pub AllDifferent : List Text → Type 0
AllDifferent [] = Unit
AllDifferent (s ∷ ss) = All (λ t. t ≢ s) ss × AllDifferent ss

worker_name-injective : (i j : ℕ) → worker_name i ≡ worker_name j → i ≡ j
worker_name-injective i j e = decimal-injective i j (ap (drop 7) e)

claimer_ne : (i : ℕ) → codes "claimer" ≢ worker_name i
claimer_ne i e = let apart : true ≡ false = ap (λ s. text_eq s (codes "claimer")) e in cc apart

others_ne : (j i n : ℕ) → j < i → All (λ t. t ≢ worker_name j) (names_from i n)
others_ne j i zero lt = (claimer_ne j, tt)
others_ne j i (suc n) lt =
    (λ e. omega (arith, worker_name-injective i j e), others_ne j (suc i) n (omega arith))

names_from-AllDifferent : (i n : ℕ) → AllDifferent (names_from i n)
names_from-AllDifferent i zero = (tt, tt)
names_from-AllDifferent i (suc n) =
    (others_ne i (suc i) n (omega arith), names_from-AllDifferent (suc i) n)

length-names_from : (i n : ℕ) → length (names_from i n) ≡ suc n
length-names_from i zero = refl
length-names_from i (suc n) = omega (arith, length-names_from (suc i) n)

-- Run starts as many workers as MAX_CONCURRENCY says, and the claimer, under names of which no
-- two are the same.
pub consumers-AllDifferent :
    (concurrency : ℤ)
    → (length (consumers concurrency) ≡ pos_part concurrency + 1)
      × AllDifferent (consumers concurrency)
unfolding consumers
consumers-AllDifferent concurrency = (
  omega (arith, length-names_from 0 (pos_part concurrency)),
  names_from-AllDifferent 0 (pos_part concurrency),
)
