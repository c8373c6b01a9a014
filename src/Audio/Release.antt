-- ===== src/Audio/Release.antt =====
-- What Put, Take and Drop do to the map and to the audio bytes.
use worker_thoth.Base.{
  ℕ, suc, ◌≡◌, refl, ◌≢◌, none, some, Text, length, set, ◌∙◌, get_elem?, get_elem?-set_self,
  get_elem?-set_ne, get_elem?-lt, replicate,
}
use worker_thoth.Base.Dict.{
  lookup, insert, lookup-insert_self, lookup-delete_self, lookup-insert_ne, lookup-delete_ne,
  DistinctKeys, insert-DistinctKeys, delete-DistinctKeys, length-delete,
}
use worker_thoth.Audio.{Store, put, take, drop, zero, len}
use worker_thoth.Audio.Memory.{
  Heap, slice_bytes, load_clip, zero_array, zero_slice, drop_slice, zero_array-replicate,
}

-- The pointer `p` is to a clip whose bytes are in the array `a`.
pub record Points (h : Heap) (p a : ℕ) (bytes : Text) : Type 0 where
  pub filename : Text
  pub clip : get_elem? h.clips p ≡ some (record { filename = filename; data_slice = some a })
  pub array : get_elem? h.arrays a ≡ some bytes

-- The audio behind a pointer is cleared, and nothing else of the heap is touched.
pub record IsCleared (h h' : Heap) (p a : ℕ) (bytes : Text) : Type 0 where
  pub zeroed : slice_bytes (some a) h' ≡ replicate (length bytes) 0
  pub no_slice : (load_clip p h').data_slice ≡ none
  pub arrays_kept : (b : ℕ) → a ≢ b → get_elem? h'.arrays b ≡ get_elem? h.arrays b
  pub clips_kept : (q : ℕ) → p ≢ q → get_elem? h'.clips q ≡ get_elem? h.clips q
  pub abandoned_kept : h'.abandoned ≡ h.abandoned

cleared : Heap → ℕ → ℕ → Text → Text → Heap
cleared h p a filename bytes = record {
  arrays = set h.arrays a (zero_array bytes);
  clips = set h.clips p (record { filename = filename; data_slice = none });
  abandoned = h.abandoned;
}

zero-cleared :
    (h : Heap) (p a : ℕ) (bytes : Text) (v : Points h p a bytes)
    → zero (some p) h ≡ cleared h p a v.filename bytes
unfolding zero zero_slice drop_slice cleared
zero-cleared h p a bytes v = rw (v.clip, v.array, zero_slice, v.clip)

cleared-IsCleared :
    (h : Heap) (p a : ℕ) (bytes : Text) (v : Points h p a bytes)
    → IsCleared h (cleared h p a v.filename bytes) p a bytes
unfolding cleared
cleared-IsCleared h p a bytes v = record {
  zeroed =
      rw (get_elem?-set_self h.arrays a (zero_array bytes) (get_elem?-lt h.arrays a v.array))
        (zero_array-replicate bytes);
  no_slice = rw (get_elem?-set_self h.clips p _ (get_elem?-lt h.clips p v.clip));
  arrays_kept = λ b ne. get_elem?-set_ne h.arrays a b (zero_array bytes) ne;
  clips_kept = λ q ne. get_elem?-set_ne h.clips p q _ ne;
  abandoned_kept = refl;
}

pub zero-IsCleared :
    (h : Heap) (p a : ℕ) (bytes : Text)
    → Points h p a bytes
    → IsCleared h (zero (some p) h) p a bytes
zero-IsCleared h p a bytes v = rw (zero-cleared h p a bytes v) (cleared-IsCleared h p a bytes v)

-- Drop of a stored clip removes its entry, overwrites its bytes with zeros and sets its slice to
-- nil, keeps the entry of every other ID, and touches no other array and no other clip.
pub drop-IsCleared :
    (s : Store) (h : Heap) (id : Text) (p a : ℕ) (bytes : Text)
    → lookup id s.m ≡ some p
    → Points h p a bytes
    → (lookup id (drop id s h).0.m ≡ none)
      × ((j : Text) → id ≢ j → lookup j (drop id s h).0.m ≡ lookup j s.m)
      × IsCleared h (drop id s h).1 p a bytes
unfolding drop
drop-IsCleared s h id p a bytes here v = (
  lookup-delete_self id s.m,
  λ j ne. lookup-delete_ne id j s.m ne,
  rw here (zero-IsCleared h p a bytes v),
)

-- Take returns the clip that Put stored last under the ID, and leaves no entry for it; the entries
-- of other IDs stay as they were.
pub take-put :
    (s : Store) (id : Text) (p : ℕ)
    → ((take id (put id p s)).0 ≡ some p)
      × (lookup id (take id (put id p s)).1.m ≡ none)
      × ((j : Text) → id ≢ j → lookup j (take id (put id p s)).1.m ≡ lookup j s.m)
unfolding take put
take-put s id p = (
  lookup-insert_self id p s.m,
  lookup-delete_self id (insert id p s.m),
  λ j ne. lookup-delete_ne id j (insert id p s.m) ne ∙ lookup-insert_ne id j p s.m ne,
)

-- The map holds an ID once, whatever is put, taken and dropped.
abbrev pub IsValid : Store → Type 0
IsValid s = DistinctKeys s.m

-- Put, Take and Drop keep the IDs in the store distinct.
pub store-IsValid :
    (s : Store) (h : Heap) (id : Text) (p : ℕ)
    → IsValid s
    → IsValid (put id p s) × IsValid (take id s).1 × IsValid (drop id s h).0
unfolding put take drop
store-IsValid s h id p v =
    (insert-DistinctKeys id p s.m v, delete-DistinctKeys id s.m v, delete-DistinctKeys id s.m v)

-- In a store with distinct IDs, a Take that finds a clip makes Len one less.
pub len-take :
    (s : Store) (id : Text) (p : ℕ)
    → IsValid s
    → (take id s).0 ≡ some p
    → len s ≡ suc (len (take id s).1)
unfolding len take
len-take s id p v h = length-delete id s.m p v h
