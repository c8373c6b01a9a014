-- ===== src/Audio.antt =====
-- internal/audio/store.go: uploaded audio held in the memory of the process.
-- Clips and byte arrays are shared objects, so the Go heap is explicit: a pointer to a clip and a
-- slice are indices. Every slice here spans the contents of its array. A method that takes the
-- lock is one step.
pub mod Memory
pub mod Release
mod Tests
use worker_thoth.Base.{ℕ, ◌≡◌, Option, none, some, List, [], Bool, true, false, Text, length}
use worker_thoth.Base.Dict.{lookup, insert, delete}
use Memory.{Heap, Clip, load_clip, zero_slice, drop_slice}

-- The struct Store: job ID to the pointer of its clip.
pub record Store : Type 0 where
  pub m : List (Text × ℕ)

-- NewStore.
unfoldable pub new_store : Store
new_store = record { m = [] }

-- Put.
unfoldable pub put : Text → ℕ → Store → Store
put job_id clip s = record s { m = insert job_id clip s.m }

-- Take: the clip that was present, if any, and the store without it.
unfoldable pub take : Text → Store → Option ℕ × Store
take job_id s = (lookup job_id s.m, record s { m = delete job_id s.m })

-- Zero: `none` is the nil pointer.
unfoldable pub zero : Option ℕ → Heap → Heap
zero none h = h
zero (some p) h = drop_slice p (zero_slice (load_clip p h).data_slice h)

-- Drop.
unfoldable pub drop : Text → Store → Heap → Store × Heap
unfolding zero
drop job_id s h = (record s { m = delete job_id s.m }, zero (lookup job_id s.m) h)

-- Len.
unfoldable pub len : Store → ℕ
len s = length s.m
