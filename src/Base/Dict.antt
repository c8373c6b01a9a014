-- ===== src/Base/Dict.antt =====
-- Go maps and Redis hashes with text keys, as association lists.
use Prim.Native.Nat.{suc}
use mathlib.Core.Path.{◌≡◌, refl, ap, subst}
use mathlib.Core.Logic.{◌≢◌, inl, inr}
use mathlib.Core.Bool.{false}
use mathlib.Core.Option.{Option, none, some}
use mathlib.Core.List.{List, [], ◌∷◌}
use native.Mathlib.Omega.{arith}
use worker_thoth.Base.Tests.{Bool-cases, if◌then◌else◌}
use worker_thoth.Base.Lists.{length}
use worker_thoth.Base.Bytes.{Text, text_eq, text_eq_iff, text_eq_refl}

module _ {ℓ} {V : Type ℓ} where
  abbrev pub lookup : Text → List (Text × V) → Option V
  lookup k [] = none
  lookup k ((j, v) ∷ m) = if text_eq j k then some v else lookup k m

  abbrev pub insert : Text → V → List (Text × V) → List (Text × V)
  insert k v [] = (k, v) ∷ []
  insert k v ((j, w) ∷ m) = if text_eq j k then (k, v) ∷ m else (j, w) ∷ insert k v m

  abbrev pub delete : Text → List (Text × V) → List (Text × V)
  delete k [] = []
  delete k ((j, w) ∷ m) = if text_eq j k then delete k m else (j, w) ∷ delete k m

  pub lookup-insert :
      (k j : Text) (v : V) (m : List (Text × V))
      → lookup j (insert k v m) ≡ (if text_eq k j then some v else lookup j m)
  lookup-insert k j v [] = refl
  lookup-insert k j v ((i, w) ∷ m) =
      ground (arith, text_eq_iff k j, text_eq_iff i k, text_eq_iff i j, lookup-insert k j v m)

  pub lookup-delete :
      (k j : Text) (m : List (Text × V))
      → lookup j (delete k m) ≡ (if text_eq k j then none else lookup j m)
  lookup-delete k j [] = ground arith
  lookup-delete k j ((i, w) ∷ m) =
      ground (arith, text_eq_iff k j, text_eq_iff i k, text_eq_iff i j, lookup-delete k j m)

  pub lookup-insert_self :
      (k : Text) (v : V) (m : List (Text × V)) → lookup k (insert k v m) ≡ some v
  lookup-insert_self k v m = ground (arith, lookup-insert k k v m, text_eq_refl k)

  pub lookup-delete_self : (k : Text) (m : List (Text × V)) → lookup k (delete k m) ≡ none
  lookup-delete_self k m = ground (arith, lookup-delete k k m, text_eq_refl k)

  pub lookup-insert_ne :
      (k j : Text) (v : V) (m : List (Text × V)) → k ≢ j → lookup j (insert k v m) ≡ lookup j m
  lookup-insert_ne k j v m h = ground (arith, lookup-insert k j v m, text_eq_iff k j)

  pub lookup-delete_ne :
      (k j : Text) (m : List (Text × V)) → k ≢ j → lookup j (delete k m) ≡ lookup j m
  lookup-delete_ne k j m h = ground (arith, lookup-delete k j m, text_eq_iff k j)

  abbrev pub IsFresh : Text → List (Text × V) → Type 0
  IsFresh k [] = Unit
  IsFresh k ((j, v) ∷ m) = (text_eq j k ≡ false) × IsFresh k m

  -- No key stands twice.
  abbrev pub DistinctKeys : List (Text × V) → Type 0
  DistinctKeys [] = Unit
  DistinctKeys ((k, v) ∷ m) = IsFresh k m × DistinctKeys m

  lookup_fresh : (k : Text) (m : List (Text × V)) → IsFresh k m → lookup k m ≡ none
  lookup_fresh k [] h = refl
  lookup_fresh k ((j, v) ∷ m) h = ground (arith, lookup_fresh k m h.1)

  pub IsFresh-of_none : (k : Text) (m : List (Text × V)) → lookup k m ≡ none → IsFresh k m
  IsFresh-of_none k [] h = tt
  IsFresh-of_none k ((j, v) ∷ m) h = ground (arith, IsFresh-of_none k m)

  insert-IsFresh :
      (k j : Text) (v : V) (m : List (Text × V))
      → text_eq k j ≡ false
      → IsFresh j m
      → IsFresh j (insert k v m)
  insert-IsFresh k j v [] ne h = (ne, tt)
  insert-IsFresh k j v ((i, w) ∷ m) ne h = ground (arith, insert-IsFresh k j v m ne h.1)

  delete-IsFresh : (k j : Text) (m : List (Text × V)) → IsFresh j m → IsFresh j (delete k m)
  delete-IsFresh k j [] h = tt
  delete-IsFresh k j ((i, w) ∷ m) h = ground (arith, delete-IsFresh k j m h.1)

  pub insert-DistinctKeys :
      (k : Text) (v : V) (m : List (Text × V)) → DistinctKeys m → DistinctKeys (insert k v m)
  insert-DistinctKeys k v [] h = (tt, tt)
  insert-DistinctKeys k v ((i, w) ∷ m) h = ground (
    arith,
    insert-DistinctKeys k v m h.1,
    insert-IsFresh k i v m,
    text_eq_iff i k,
    text_eq_iff k i,
  )

  pub delete-DistinctKeys :
      (k : Text) (m : List (Text × V)) → DistinctKeys m → DistinctKeys (delete k m)
  delete-DistinctKeys k [] h = tt
  delete-DistinctKeys k ((i, w) ∷ m) h =
      ground (arith, delete-DistinctKeys k m h.1, delete-IsFresh k i m h.0)

  pub delete_fresh : (k : Text) (m : List (Text × V)) → IsFresh k m → delete k m ≡ m
  delete_fresh k [] h = refl
  delete_fresh k ((i, w) ∷ m) h = ground (arith, delete_fresh k m h.1)

  -- A map with distinct keys loses exactly one entry for a key that it holds.
  pub length-delete :
      (k : Text) (m : List (Text × V)) (v : V)
      → DistinctKeys m
      → lookup k m ≡ some v
      → length m ≡ suc (length (delete k m))
  length-delete k [] v h e = absurd (ground arith)
  length-delete k ((i, w) ∷ m) v h e = elim (Bool-cases (text_eq i k)) [
    | inl same ↦
        let fresh = subst (λ j. IsFresh j m) ((text_eq_iff i k).0 same) h.0 in
        rw (same, delete_fresh k m fresh)
    | inr other ↦ rw other (ap suc (length-delete k m v h.1 (rw other at e)))
  ]
