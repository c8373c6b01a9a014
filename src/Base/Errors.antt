-- ===== src/Base/Errors.antt =====
-- Go's `error` values, as the packages of the worker build them, and calls that may fail.
use Prim.Native.Nat.{ℕ}
use mathlib.Core.Path.{◌≡◌, refl}
use mathlib.Core.Logic.{◌⊎◌, inl, inr}
use mathlib.Core.List.{◌++◌}
use native.Mathlib.Omega.{arith}
use worker_thoth.Base.Bytes.{Text, codes, decimal}

-- `wrap p e` is `fmt.Errorf("p: %w", e)`. The next three are whisper.transientError,
-- redisstore.ErrQueueFull and ErrNotFound; the last is worker.errTooLarge.
pub data GoError : Type 0 where
  message : Text → GoError
  wrap : Text → GoError → GoError
  transient : GoError → GoError
  queue_full : GoError
  not_found : GoError
  too_large : ℕ → GoError

-- The method `Error`.
unfoldable pub error_text : GoError → Text
unfolding decimal
error_text (message t) = t
error_text (wrap p e) = p ++ codes ": " ++ error_text e
error_text (transient e) = error_text e
error_text queue_full = codes "queue is full"
error_text not_found = codes "job not found"
error_text (too_large n) = codes "audio exceeds MAX_AUDIO_BYTES (" ++ decimal n ++ codes ")"

-- A pair of a value and an error: one of the two counts.
pub data Result {ℓ} (E : Type 0) (A : Type ℓ) : Type ℓ where
  ok : A → Result E A
  err : E → Result E A

-- The rest of a function, behind a call that may have returned an error.
infixl 5 ◌>>=◌
abbrev pub ◌>>=◌ {ℓ κ} :
    {E : Type 0} {A : Type ℓ} {B : Type κ} → Result E A → (A → Result E B) → Result E B
err failure >>= rest = err failure
ok value >>= rest = rest value

-- `if err != nil { return …, g(err) }`.
abbrev pub map_err {ℓ} : {E F : Type 0} {A : Type ℓ} → (E → F) → Result E A → Result F A
map_err g (ok a) = ok a
map_err g (err e) = err (g e)

-- A function that succeeds got past the call, and its rest succeeds.
pub >>=-eq-ok {ℓ κ} :
    {E : Type 0} {A : Type ℓ} {B : Type κ} (call : Result E A) (rest : A → Result E B) {result : B}
    → (call >>= rest) ≡ ok result
    → (value : A) × (call ≡ ok value) × (rest value ≡ ok result)
>>=-eq-ok (err failure) rest returns = cc
>>=-eq-ok (ok value) rest returns = (value, refl, returns)

pub map_err-eq-ok {ℓ} :
    {E F : Type 0} {A : Type ℓ} (g : E → F) (m : Result E A) {a : A} → map_err g m ≡ ok a → m ≡ ok a
map_err-eq-ok g (ok b) h = ground arith
map_err-eq-ok g (err e) h = cc

pub ok-injective {ℓ} :
    {E : Type 0} {A : Type ℓ} {a b : A} → ◌≡◌ {A = Result E A} (ok a) (ok b) → a ≡ b
ok-injective h = cc

pub Result-cases {ℓ} :
    {E : Type 0} {A : Type ℓ} (m : Result E A) → ((a : A) × (m ≡ ok a)) ⊎ ((e : E) × (m ≡ err e))
Result-cases (ok a) = inl (a, refl)
Result-cases (err e) = inr (e, refl)
