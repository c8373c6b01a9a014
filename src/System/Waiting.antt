-- ===== src/System/Waiting.antt =====
-- The audio of an upload that waits in the store, while other goroutines move.
use worker_thoth.Base.{
  ℕ, ◌≡◌, ◌≢◌, ap, sym, ◌∙◌, Option, none, some, [], ◌∷◌, ◌++◌, List, arith, Text, get_elem?,
  get_elem?-append_left, get_elem?-set_ne, get_elem?-lt,
}
use worker_thoth.Base.Dict.{lookup, delete, insert, lookup-delete_ne, lookup-insert_ne}
use worker_thoth.Base.Sums.{refers, count_value, weight-le-total_values}
use worker_thoth.Audio
use worker_thoth.Audio.Memory.{Heap, Clip, slice_of, slice_at, zero_slice, drop_slice, abandon}
use worker_thoth.System.Ownership.{Owned, refers_self, refers_ne_of_zero, delete-Owned}

-- The store has a clip with this name and these bytes under the ID.
pub record IsWaiting (id filename bytes : Text) (m : List (Text × ℕ)) (h : Heap) : Type 0 where
  pub clip_at : ℕ
  pub array_at : ℕ
  pub entry : lookup id m ≡ some clip_at
  pub clip :
      get_elem? h.clips clip_at ≡ some (record { filename = filename; data_slice = some array_at })
  pub array : get_elem? h.arrays array_at ≡ some bytes

module _ (id filename bytes : Text) where
  not_own :
      (m : List (Text × ℕ)) (h : Heap) (others : ℕ → ℕ) (own : Option ℕ)
      → Owned m h others own
      → (v : IsWaiting id filename bytes m h) → refers v.array_at own ≡ 0
  not_own m h others own owned v = omega (
    arith,
    owned.once v.array_at,
    weight-le-total_values (λ q. refers v.array_at (slice_at h.clips q)) id v.clip_at m v.entry,
    ap (λ c. refers v.array_at (slice_of c)) v.clip,
    refers_self v.array_at,
  )

  pub zero_slice-IsWaiting :
      (m : List (Text × ℕ)) (h : Heap) (others : ℕ → ℕ) (own : Option ℕ)
      → Owned m h others own
      → IsWaiting id filename bytes m h
      → IsWaiting id filename bytes m (zero_slice own h)
  unfolding zero_slice
  zero_slice-IsWaiting m h others none owned v = v
  zero_slice-IsWaiting m h others (some b) owned v = record {
    clip_at = v.clip_at;
    array_at = v.array_at;
    entry = v.entry;
    clip = v.clip;
    array =
        get_elem?-set_ne h.arrays b v.array_at _
          (λ e. refers_ne_of_zero v.array_at b (not_own m h others (some b) owned v) (sym e))
        ∙ v.array;
  }

  pub abandon-IsWaiting :
      (m : List (Text × ℕ)) (h : Heap) (left : List Text)
      → IsWaiting id filename bytes m h
      → IsWaiting id filename bytes m (abandon left h)
  abandon-IsWaiting m h left v = record {
    clip_at = v.clip_at;
    array_at = v.array_at;
    entry = v.entry;
    clip = v.clip;
    array = v.array;
  }

  pub delete-IsWaiting :
      (m : List (Text × ℕ)) (h : Heap) (k : Text)
      → k ≢ id
      → IsWaiting id filename bytes m h
      → IsWaiting id filename bytes (delete k m) h
  delete-IsWaiting m h k differ v = record {
    clip_at = v.clip_at;
    array_at = v.array_at;
    entry = lookup-delete_ne k id m differ ∙ v.entry;
    clip = v.clip;
    array = v.array;
  }

  drop_slice-IsWaiting :
      (m : List (Text × ℕ)) (h : Heap) (q : ℕ)
      → count_value q m ≡ 0
      → IsWaiting id filename bytes m h
      → IsWaiting id filename bytes m (drop_slice q h)
  unfolding drop_slice
  drop_slice-IsWaiting m h q unused v = record {
    clip_at = v.clip_at;
    array_at = v.array_at;
    entry = v.entry;
    clip =
        get_elem?-set_ne h.clips q v.clip_at _ (λ e. omega (
          arith,
          unused,
          ap (λ c. count_value c m) e,
          weight-le-total_values (λ w. refers v.clip_at (some w)) id v.clip_at m v.entry,
          refers_self v.clip_at,
        ))
        ∙ v.clip;
    array = v.array;
  }

  pub drop-IsWaiting :
      (m : List (Text × ℕ)) (h : Heap) (others : ℕ → ℕ) (k : Text) (r : Option ℕ)
      → lookup k m ≡ r
      → k ≢ id
      → Owned m h others none
      → IsWaiting id filename bytes m h
      → IsWaiting id filename bytes (delete k m) (Audio.zero r h)
  unfolding Audio.zero
  drop-IsWaiting m h others k none missing differ owned v = delete-IsWaiting m h k differ v
  drop-IsWaiting m h others k (some q) found differ owned v =
      let (taken, unused) = delete-Owned m h others k q found owned in
      let left = delete-IsWaiting m h k differ v in
      drop_slice-IsWaiting (delete k m) (zero_slice (slice_at h.clips q) h) q unused
        (zero_slice-IsWaiting (delete k m) h others (slice_at h.clips q) taken left)

  pub new_array-IsWaiting :
      (m : List (Text × ℕ)) (h : Heap) (data_read : Text)
      → IsWaiting id filename bytes m h
      → IsWaiting id filename bytes m (record h { arrays = h.arrays ++ data_read ∷ [] })
  new_array-IsWaiting m h data_read v = record {
    clip_at = v.clip_at;
    array_at = v.array_at;
    entry = v.entry;
    clip = v.clip;
    array =
        get_elem?-append_left h.arrays (data_read ∷ []) v.array_at
          (get_elem?-lt h.arrays v.array_at v.array)
        ∙ v.array;
  }

  pub insert-IsWaiting :
      (m : List (Text × ℕ)) (h : Heap) (k : Text) (q : ℕ) (c : Clip)
      → k ≢ id
      → IsWaiting id filename bytes m h
      → IsWaiting id filename bytes (insert k q m) (record h { clips = h.clips ++ c ∷ [] })
  insert-IsWaiting m h k q c differ v = record {
    clip_at = v.clip_at;
    array_at = v.array_at;
    entry = lookup-insert_ne k id q m differ ∙ v.entry;
    clip =
        get_elem?-append_left h.clips (c ∷ []) v.clip_at (get_elem?-lt h.clips v.clip_at v.clip)
        ∙ v.clip;
    array = v.array;
  }
