-- ===== src/System/Ownership.antt =====
-- Who refers to which byte array of the heap: an entry of the audio store, through its clip, or a
-- goroutine that has fetched it. Each kind of access to the memory keeps the account.
use worker_thoth.Base.{
  ℕ, ◌+◌, ◌≤◌, ◌<◌, ◌≡◌, refl, ap, sym, subst, ◌≢◌, Option, none, some, List, [], ◌∷◌, ◌++◌, arith,
  Text, length, length-append, get_elem?, get_elem?-append_left, get_elem?-set_ne,
  get_elem?-set_self, get_elem?-snoc, get_elem?_beyond, length-set,
}
use native.Mathlib.Decide.{ℕ_discrete, dec_lt}
use worker_thoth.Base.Dict.{
  lookup, insert, delete, DistinctKeys, insert-DistinctKeys, delete-DistinctKeys, IsFresh-of_none,
  delete_fresh,
}
use worker_thoth.Base.Sums.{
  refers, total_values, total_values-insert, total_values-delete, count_value, total_values-congr,
}
use worker_thoth.Audio.Memory.{
  Heap, Clip, slice_bytes, slice_of, slice_at, zero_slice, drop_slice, zero_array, IsZeros,
  zero_array-IsZeros, abandon,
}

-- The references to the array `a` from the clips of the store.
abbrev pub stored : ℕ → List Clip → List (Text × ℕ) → ℕ
stored a clips = total_values (λ p. refers a (slice_at clips p))

-- The account, seen from one goroutine with the slice `own`; `others a` are the references to `a`
-- from the other goroutines. No array has two references, and one with none holds zeros only.
pub record Owned (m : List (Text × ℕ)) (h : Heap) (others : ℕ → ℕ) (own : Option ℕ) : Type 0 where
  pub keys : DistinctKeys m
  pub clips_once : (p : ℕ) → count_value p m ≤ 1
  pub clips_known : (p : ℕ) → length h.clips ≤ p → count_value p m ≡ 0
  pub once : (a : ℕ) → stored a h.clips m + others a + refers a own ≤ 1
  pub known : (a : ℕ) → length h.arrays ≤ a → stored a h.clips m + others a + refers a own ≡ 0
  pub clean :
      (a : ℕ) → stored a h.clips m + others a + refers a own ≡ 0 → IsZeros (slice_bytes (some a) h)

-- The arrays of the other goroutines are as they were.
abbrev pub Keeps : (ℕ → ℕ) → Heap → Heap → Type 0
Keeps others h h' = (a : ℕ) → 0 < others a → get_elem? h'.arrays a ≡ get_elem? h.arrays a

pub refers_self : (a : ℕ) → refers a (some a) ≡ 1
refers_self a = ground arith

refers_ne : (a b : ℕ) → a ≢ b → refers a (some b) ≡ 0
refers_ne a b h = ground arith

refers-le : (a b : ℕ) → refers a (some b) ≤ 1
refers-le a b = ground arith

pub refers_ne_of_zero : (a b : ℕ) → refers a (some b) ≡ 0 → a ≢ b
refers_ne_of_zero a b h = ground arith

-- An entry that counts is another than one that does not.
differs : (m : List (Text × ℕ)) (p q : ℕ) → count_value p m ≡ 0 → 0 < count_value q m → p ≢ q
differs m p q unused used same = omega (arith, ap (λ r. count_value r m) same)

used-lt :
    (m : List (Text × ℕ)) (h : Heap) (others : ℕ → ℕ) (own : Option ℕ) (q : ℕ)
    → Owned m h others own
    → 0 < count_value q m
    → q < length h.clips
used-lt m h others own q v used = elim (dec_lt q (length h.clips)) [
  | yes lt ↦ lt
  | no ge ↦ absurd (omega (arith, v.clips_known q (omega arith)))
]

beyond-IsZeros : (h : Heap) (a : ℕ) → length h.arrays ≤ a → IsZeros (slice_bytes (some a) h)
beyond-IsZeros h a le = rw (get_elem?_beyond h.arrays a le) tt

module _ (m : List (Text × ℕ)) (h : Heap) (others : ℕ → ℕ) where
  not_shared : (a b : ℕ) → Owned m h others (some a) → 0 < others b → a ≢ b
  not_shared a b v some_b same =
      omega (arith, v.once b, subst (λ c. refers c (some a) ≡ 1) same (refers_self a))

  own-lt : (a : ℕ) → Owned m h others (some a) → a < length h.arrays
  own-lt a v = elim (dec_lt a (length h.arrays)) [
    | yes lt ↦ lt
    | no le ↦ absurd (omega (arith, v.known a (omega arith), refers_self a))
  ]

  zeroed :
      (a : ℕ) → Owned m h others (some a) → IsZeros (slice_bytes (some a) (zero_slice (some a) h))
  unfolding zero_slice
  zeroed a v =
      rw (get_elem?-set_self h.arrays a (zero_array (slice_bytes (some a) h)) (own-lt a v))
        (zero_array-IsZeros (slice_bytes (some a) h))

  -- Overwriting the own slice gives it back.
  pub zero_slice-Owned :
      (own : Option ℕ)
      → Owned m h others own
      → Owned m (zero_slice own h) others none × Keeps others h (zero_slice own h)
  unfolding zero_slice
  zero_slice-Owned none v = (v, λ a some_a. refl)
  zero_slice-Owned (some a) v = (
    record {
      keys = v.keys;
      clips_once = v.clips_once;
      clips_known = v.clips_known;
      once = λ b. omega (arith, v.once b);
      known = λ b le.
          omega (arith, v.known b, length-set h.arrays a (zero_array (slice_bytes (some a) h)));
      clean = λ b unused. elim (ℕ_discrete a b) [
        | yes same ↦
            subst (λ c. IsZeros (slice_bytes (some c) (zero_slice (some a) h))) same (zeroed a v)
        | no differ ↦
            rw (get_elem?-set_ne h.arrays a b (zero_array (slice_bytes (some a) h)) differ)
              (v.clean b (omega (arith, refers_ne b a (λ e. differ (sym e)))))
      ];
    },
    λ b some_b. get_elem?-set_ne h.arrays a b _ (not_shared a b v some_b),
  )

-- A clip that no entry points to may lose its slice.
pub drop_slice-Owned :
    (m : List (Text × ℕ)) (h : Heap) (others : ℕ → ℕ) (own : Option ℕ) (p : ℕ)
    → count_value p m ≡ 0
    → Owned m h others own
    → Owned m (drop_slice p h) others own
unfolding drop_slice
drop_slice-Owned m h others own p unused v =
    let clips' = (drop_slice p h).clips in
    let same : (a : ℕ) → stored a clips' m ≡ stored a h.clips m = λ a.
      total_values-congr (λ q. refers a (slice_at clips' q)) (λ q. refers a (slice_at h.clips q)) m
        (λ q used.
          ap (λ c. refers a (slice_of c))
            (get_elem?-set_ne h.clips p q _ (differs m p q unused used))) in
    record {
      keys = v.keys;
      clips_once = v.clips_once;
      clips_known = λ q le. v.clips_known q (omega (arith, length-set h.clips p _));
      once = λ a. omega (arith, v.once a, same a);
      known = λ a le. omega (arith, v.known a le, same a);
      clean = λ a none_left. v.clean a (omega (arith, same a));
    }

-- Take hands the slice of a clip over to the goroutine.
pub delete-Owned :
    (m : List (Text × ℕ)) (h : Heap) (others : ℕ → ℕ) (id : Text) (p : ℕ)
    → lookup id m ≡ some p
    → Owned m h others none
    → Owned (delete id m) h others (slice_at h.clips p) × (count_value p (delete id m) ≡ 0)
delete-Owned m h others id p found v =
    let moved = λ (w : ℕ → ℕ). total_values-delete w id p m v.keys found in
    let counted = λ (q : ℕ). moved (λ w. refers q (some w)) in
    let stored_moved = λ (a : ℕ). moved (λ q. refers a (slice_at h.clips q)) in
    (
      record {
        keys = delete-DistinctKeys id m v.keys;
        clips_once = λ q. omega (arith, v.clips_once q, counted q);
        clips_known = λ q le. omega (arith, v.clips_known q le, counted q);
        once = λ a. omega (arith, v.once a, stored_moved a);
        known = λ a le. omega (arith, v.known a le, stored_moved a);
        clean = λ a unused. v.clean a (omega (arith, stored_moved a));
      },
      omega (arith, v.clips_once p, counted p, refers_self p),
    )

pub delete_missing-Owned :
    (m : List (Text × ℕ)) (h : Heap) (others : ℕ → ℕ) (id : Text) (own : Option ℕ)
    → lookup id m ≡ none
    → Owned m h others own
    → Owned (delete id m) h others own
delete_missing-Owned m h others id own missing v =
    rw (delete_fresh id m (IsFresh-of_none id m missing)) v

-- What a read that was broken off leaves is referred to by nobody.
pub abandon-Owned :
    (m : List (Text × ℕ)) (h : Heap) (others : ℕ → ℕ) (left : List Text)
    → Owned m h others none
    → Owned m (abandon left h) others none
abandon-Owned m h others left v = record {
  keys = v.keys;
  clips_once = v.clips_once;
  clips_known = v.clips_known;
  once = v.once;
  known = v.known;
  clean = v.clean;
}

-- A new array, which the goroutine refers to.
pub new_array-Owned :
    (m : List (Text × ℕ)) (h : Heap) (others : ℕ → ℕ) (bytes : Text)
    → Owned m h others none
    → Owned m (record h { arrays = h.arrays ++ bytes ∷ [] }) others (some (length h.arrays))
new_array-Owned m h others bytes v =
    let n = length h.arrays in
    let grown = length-append h.arrays (bytes ∷ []) in
    record {
      keys = v.keys;
      clips_once = v.clips_once;
      clips_known = v.clips_known;
      once = λ a. elim (ℕ_discrete n a) [
        | yes same ↦ omega (arith, v.known a (omega arith), refers-le a n)
        | no differ ↦ omega (arith, v.once a, refers_ne a n (λ e. differ (sym e)))
      ];
      known = λ a le. omega (arith, v.known a (omega arith), refers_ne a n (λ e. omega arith));
      clean = λ a unused. elim (dec_lt a n) [
        | yes lt ↦ rw (get_elem?-append_left h.arrays (bytes ∷ []) a lt) (v.clean a (omega arith))
        | no ge ↦
            beyond-IsZeros (record h { arrays = h.arrays ++ bytes ∷ [] }) a
              (omega (arith, refers_ne_of_zero a n (omega arith)))
      ];
    }

-- An array of which the goroutine had the only reference, put into the store by a new clip.
pub insert-Owned :
    (m : List (Text × ℕ)) (h : Heap) (others : ℕ → ℕ) (id filename : Text) (a : ℕ)
    → lookup id m ≡ none
    → Owned m h others (some a)
    → Owned
        (insert id (length h.clips) m)
        (record h { clips = h.clips ++ record { filename = filename; data_slice = some a } ∷ [] })
        others
        none
insert-Owned m h others id filename a fresh v =
    let k = length h.clips in
    let clips' = h.clips ++ record { filename = filename; data_slice = some a } ∷ [] in
    let counted = λ (q : ℕ). total_values-insert (λ w. refers q (some w)) id k m fresh in
    let same : (b : ℕ) → stored b clips' m ≡ stored b h.clips m = λ b.
      total_values-congr (λ q. refers b (slice_at clips' q)) (λ q. refers b (slice_at h.clips q)) m
        (λ q used.
          ap (λ c. refers b (slice_of c))
            (get_elem?-append_left h.clips (_ ∷ []) q (used-lt m h others (some a) q v used))) in
    let entry : (b : ℕ) → refers b (slice_at clips' k) ≡ refers b (some a) = λ b.
      ap (λ c. refers b (slice_of c))
        (get_elem?-snoc h.clips (record { filename = filename; data_slice = some a })) in
    let moved = λ (b : ℕ). total_values-insert (λ q. refers b (slice_at clips' q)) id k m fresh in
    let grown = length-append h.clips (record { filename = filename; data_slice = some a } ∷ []) in
    record {
      keys = insert-DistinctKeys id k m v.keys;
      clips_once = λ q. elim (ℕ_discrete q k) [
        | yes same_k ↦ omega (arith, v.clips_known q (omega arith), counted q, refers-le q k)
        | no differ ↦ omega (arith, v.clips_once q, counted q, refers_ne q k differ)
      ];
      clips_known = λ q le.
          omega (arith, v.clips_known q (omega arith), counted q, refers_ne q k (λ e. omega arith));
      once = λ b. omega (arith, v.once b, same b, moved b, entry b);
      known = λ b le. omega (arith, v.known b le, same b, moved b, entry b);
      clean = λ b unused. v.clean b (omega (arith, same b, moved b, entry b));
    }
