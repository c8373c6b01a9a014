-- ===== src/Audio/Memory.antt =====
-- The part of the Go heap that holds audio: the structs audio.Clip and their byte arrays.
use mathlib.Core.List.{append_assoc}
use worker_thoth.Base.{
  All, ℕ, zero, suc, ◌≡◌, refl, Option, none, some, List, [], ◌∷◌, ◌++◌, arith, Text, length,
  length-append, set, get_elem?, replicate, ap, sym, ◌∙◌,
}

-- `data` is `none` for a nil slice, else the index of its array.
pub record Clip : Type 0 where
  pub filename : Text
  pub data_slice : Option ℕ

-- `arrays` are the byte arrays that a clip, or a goroutine, got from a read that was finished.
-- `abandoned` are the arrays of reads that were broken off: nothing refers to one, and nothing
-- writes to it.
pub record Heap : Type 0 where
  pub arrays : List Text
  pub clips : List Clip
  pub abandoned : List Text

-- A read that was broken off leaves what it had read.
abbrev pub abandon : List Text → Heap → Heap
abandon left h = record h { abandoned = h.abandoned ++ left }

abbrev array_or_empty : Option Text → Text
array_or_empty none = []
array_or_empty (some bytes) = bytes

abbrev clip_or_empty : Option Clip → Clip
clip_or_empty none = record { filename = []; data_slice = none }
clip_or_empty (some c) = c

-- The bytes of a slice; a nil slice has none. An index that was never allocated does not occur.
abbrev pub slice_bytes : Option ℕ → Heap → Text
slice_bytes none h = []
slice_bytes (some a) h = array_or_empty (get_elem? h.arrays a)

abbrev pub load_clip : ℕ → Heap → Clip
load_clip p h = clip_or_empty (get_elem? h.clips p)

-- `for i := range data { data[i] = 0 }`: from the index `i` on, for `n` more rounds.
unfoldable pub zero_from : ℕ → ℕ → Text → Text
zero_from zero i bytes = bytes
zero_from (suc n) i bytes = zero_from n (suc i) (set bytes i 0)

abbrev pub zero_array : Text → Text
zero_array bytes = zero_from (length bytes) 0 bytes

-- The loop over a slice, on the heap.
unfoldable pub zero_slice : Option ℕ → Heap → Heap
zero_slice none h = h
zero_slice (some a) h = record h { arrays = set h.arrays a (zero_array (slice_bytes (some a) h)) }

-- `clip.Data = nil`.
unfoldable pub drop_slice : ℕ → Heap → Heap
drop_slice p h = record h { clips = set h.clips p (record (load_clip p h) { data_slice = none }) }

-- New objects stand behind the old ones.
unfoldable pub new_array : Text → Heap → ℕ × Heap
new_array bytes h = (length h.arrays, record h { arrays = h.arrays ++ bytes ∷ [] })

unfoldable pub new_clip : Clip → Heap → ℕ × Heap
new_clip c h = (length h.clips, record h { clips = h.clips ++ c ∷ [] })

set-append :
    (front back : Text) (x v : ℕ) → set (front ++ x ∷ back) (length front) v ≡ front ++ v ∷ back
set-append [] back x v = refl
set-append (y ∷ front) back x v = ap (◌∷◌ y) (set-append front back x v)

length-snoc : (front : Text) (v : ℕ) → length (front ++ v ∷ []) ≡ suc (length front)
length-snoc front v = omega (arith, length-append front (v ∷ []))

-- The loop writes 0 at the positions from `i` on, and at no other.
zero_from-split :
    (front back : Text) (i : ℕ)
    → i ≡ length front
    → zero_from (length back) i (front ++ back) ≡ front ++ replicate (length back) 0
unfolding zero_from
zero_from-split front [] i h = refl
zero_from-split front (x ∷ back) i h =
    let written : set (front ++ x ∷ back) i 0 ≡ (front ++ 0 ∷ []) ++ back =
      rw h (set-append front back x 0 ∙ sym (append_assoc front (0 ∷ []) back)) in
    ap (zero_from (length back) (suc i)) written
    ∙ zero_from-split (front ++ 0 ∷ []) back (suc i) (omega (arith, length-snoc front 0))
    ∙ append_assoc front (0 ∷ []) _

-- The loop clears every byte and keeps the length.
pub zero_array-replicate : (bytes : Text) → zero_array bytes ≡ replicate (length bytes) 0
zero_array-replicate bytes = zero_from-split [] bytes 0 refl

abbrev pub IsZeros : Text → Type 0
IsZeros = All (λ b. b ≡ 0)

pub replicate-IsZeros : (n : ℕ) → IsZeros (replicate n 0)
replicate-IsZeros zero = tt
replicate-IsZeros (suc n) = (refl, replicate-IsZeros n)

pub zero_array-IsZeros : (bytes : Text) → IsZeros (zero_array bytes)
zero_array-IsZeros bytes = rw (zero_array-replicate bytes) (replicate-IsZeros (length bytes))

abbrev pub slice_of : Option Clip → Option ℕ
slice_of c = (clip_or_empty c).data_slice

-- The slice of the clip that `p` points to.
abbrev pub slice_at : List Clip → ℕ → Option ℕ
slice_at clips p = slice_of (get_elem? clips p)
