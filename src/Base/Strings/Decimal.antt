-- ===== src/Base/Strings/Decimal.antt =====
-- Decimal digits and the number that they spell.
use Prim.Native.Nat.{ℕ, zero, suc, ◌+◌, ◌-◌, ◌*◌, ◌/◌, ◌%◌, ◌<◌}
use mathlib.Core.Path.{◌≡◌, ap, sym, ◌∙◌}
use mathlib.Core.Logic.{inl, inr}
use mathlib.Core.Bool.{true}
use mathlib.Core.List.{[], ◌∷◌, ◌++◌}
use mathlib.Core.Option.{some, some-injective}
use native.Mathlib.Omega.{arith}
use worker_thoth.Base.Tests.{Bool-cases, ltb}
use worker_thoth.Base.Bytes.{Text, decimal, decimal_from}
use worker_thoth.Base.Strings.{is_digit, digits_value}

digit-is_digit : (d : ℕ) → d < 10 → is_digit (b'0' + d) ≡ true
digit-is_digit d lt = ground arith

-- One more digit.
digits_value-snoc :
    (s : Text) (a d v : ℕ)
    → d < 10
    → digits_value a s ≡ some v
    → digits_value a (s ++ (b'0' + d) ∷ []) ≡ some (v * 10 + d)
unfolding digits_value
digits_value-snoc [] a d v lt e =
    rw (digit-is_digit d lt) (ap some (omega (arith, some-injective a v e)))
digits_value-snoc (c ∷ s) a d v lt e = elim (Bool-cases (is_digit c)) [
  | inl yes_digit ↦
      rw yes_digit (digits_value-snoc s (a * 10 + (c - b'0')) d v lt (rw yes_digit at e))
  | inr other ↦ absurd (cc (rw other at e))
]

decimal_from-value : (f n : ℕ) → n < f → digits_value 0 (decimal_from f n) ≡ some n
unfolding decimal_from digits_value
decimal_from-value zero n lt = absurd (omega arith)
decimal_from-value (suc f) n lt = elim (Bool-cases (ltb n 10)) [
  | inl short ↦ rw short (rw (digit-is_digit n (ground arith)) (ap some (omega arith)))
  | inr long ↦ rw long (
      digits_value-snoc (decimal_from f (n / 10)) 0 (n % 10) (n / 10) (omega arith)
        (decimal_from-value f (n / 10) (ground arith))
      ∙ ap some (omega arith))
]

pub decimal-injective : (m n : ℕ) → decimal m ≡ decimal n → m ≡ n
unfolding decimal
decimal-injective m n e = some-injective m n (
    sym (decimal_from-value (suc m) m (omega arith))
    ∙ ap (digits_value 0) e
    ∙ decimal_from-value (suc n) n (omega arith))
