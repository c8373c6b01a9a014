-- ===== src/Base/Sums.antt =====
-- Sums of a weight over a list, and over the values of an association list.
use Prim.Native.Nat.{ℕ, zero, suc, ◌+◌, ◌≤◌, ◌<◌}
use mathlib.Core.Path.{◌≡◌, refl, ap, subst}
use mathlib.Core.Logic.{◌≢◌}
use mathlib.Core.Logic.{inl, inr}
use mathlib.Core.List.{List, [], ◌∷◌, ◌++◌}
use mathlib.Core.Option.{Option, none, some, some-injective}
use native.Mathlib.Omega.{arith}
use worker_thoth.Base.Tests.{Bool-cases, if◌then◌else◌, ◌==◌}
use worker_thoth.Base.Lists.{get_elem?, set}
use worker_thoth.Base.Bytes.{Text, text_eq, text_eq_iff}
use worker_thoth.Base.Dict.{lookup, insert, delete, IsFresh, DistinctKeys, delete_fresh}

module _ {ℓ} {A : Type ℓ} (weight : A → ℕ) where
  abbrev pub total : List A → ℕ
  total [] = 0
  total (x ∷ xs) = weight x + total xs

  pub total-append : (xs ys : List A) → total (xs ++ ys) ≡ total xs + total ys
  total-append [] ys = omega arith
  total-append (x ∷ xs) ys = omega (arith, total-append xs ys)

  pub total-set :
      (xs : List A) (i : ℕ) (old new : A)
      → get_elem? xs i ≡ some old
      → total (set xs i new) + weight old ≡ total xs + weight new
  total-set [] i old new h = absurd (cc)
  total-set (x ∷ xs) zero old new h = ground arith
  total-set (x ∷ xs) (suc i) old new h = omega (arith, total-set xs i old new h)

-- How often `a` is referred to.
abbrev pub refers : ℕ → Option ℕ → ℕ
refers a none = 0
refers a (some b) = if b == a then 1 else 0

module _ (weight : ℕ → ℕ) where
  abbrev pub total_values : List (Text × ℕ) → ℕ
  total_values [] = 0
  total_values ((k, v) ∷ m) = weight v + total_values m

  pub total_values-insert :
      (k : Text) (v : ℕ) (m : List (Text × ℕ))
      → lookup k m ≡ none
      → total_values (insert k v m) ≡ total_values m + weight v
  total_values-insert k v [] h = omega arith
  total_values-insert k v ((j, w) ∷ m) h = ground (arith, total_values-insert k v m)

  pub total_values-delete :
      (k : Text) (v : ℕ) (m : List (Text × ℕ))
      → DistinctKeys m
      → lookup k m ≡ some v
      → total_values m ≡ weight v + total_values (delete k m)
  total_values-delete k v [] d h = absurd (cc)
  total_values-delete k v ((j, w) ∷ m) d h = elim (Bool-cases (text_eq j k)) [
    | inl same ↦
        let fresh = subst (λ i. IsFresh i m) ((text_eq_iff j k).0 same) d.0 in
        rw (same, delete_fresh k m fresh) (ground arith)
    | inr other ↦ rw other (ground (arith, total_values-delete k v m d.1))
  ]

-- The entries whose value is `v`.
abbrev pub count_value : ℕ → List (Text × ℕ) → ℕ
count_value v = total_values (λ w. refers v (some w))

-- A sum depends on the weights of the values that occur.
pub total_values-congr :
    (f g : ℕ → ℕ) (m : List (Text × ℕ))
    → ((v : ℕ) → 0 < count_value v m → f v ≡ g v)
    → total_values f m ≡ total_values g m
total_values-congr f g [] h = refl
total_values-congr f g ((k, v) ∷ m) h =
    omega (arith, h v (ground arith), total_values-congr f g m (λ w some_w. h w (omega arith)))

-- The weight of a value that is looked up is part of the sum.
pub weight-le-total_values :
    (f : ℕ → ℕ) (k : Text) (v : ℕ) (m : List (Text × ℕ))
    → lookup k m ≡ some v
    → f v ≤ total_values f m
weight-le-total_values f k v [] h = absurd (cc)
weight-le-total_values f k v ((j, w) ∷ m) h = ground (arith, weight-le-total_values f k v m)

-- The weight of an element is part of the sum.
pub weight-le-total {ℓ} :
    {A : Type ℓ} (weight : A → ℕ) (xs : List A) (i : ℕ) (x : A)
    → get_elem? xs i ≡ some x
    → weight x ≤ total weight xs
weight-le-total weight [] i x h = absurd (cc)
weight-le-total weight (y ∷ xs) zero x h = ground arith
weight-le-total weight (y ∷ xs) (suc i) x h = omega (arith, weight-le-total weight xs i x h)

-- So are the weights of two elements.
pub weights-le-total {ℓ} :
    {A : Type ℓ} (weight : A → ℕ) (xs : List A) (i j : ℕ) (x y : A)
    → i ≢ j
    → get_elem? xs i ≡ some x
    → get_elem? xs j ≡ some y
    → weight x + weight y ≤ total weight xs
weights-le-total weight [] i j x y d h k = absurd (cc)
weights-le-total weight (z ∷ xs) zero zero x y d h k = absurd (d refl)
weights-le-total weight (z ∷ xs) zero (suc j) x y d h k =
    omega (arith, weight-le-total weight xs j y k, ap weight (some-injective z x h))
weights-le-total weight (z ∷ xs) (suc i) zero x y d h k =
    omega (arith, weight-le-total weight xs i x h, ap weight (some-injective z y k))
weights-le-total weight (z ∷ xs) (suc i) (suc j) x y d h k =
    omega (arith, weights-le-total weight xs i j x y (λ e. d (ap suc e)) h k)
