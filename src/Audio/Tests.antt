-- ===== src/Audio/Tests.antt =====
-- A store with one clip of three bytes.
use worker_thoth.Base.{◌≡◌, refl, some, [], ◌∷◌, codes}
use worker_thoth.Audio.{Store, new_store, put}
use worker_thoth.Audio.Memory.{Heap, new_array, new_clip}

abbrev heap : Heap
heap = record {
  arrays = (7 ∷ 8 ∷ 9 ∷ []) ∷ [];
  clips = record { filename = codes "a.wav"; data_slice = some 0 } ∷ [];
  abandoned = [];
}

allocated :
    (let (a, h) = new_array (7 ∷ 8 ∷ 9 ∷ []) (record { arrays = []; clips = []; abandoned = [] }) in
      (new_clip (record { filename = codes "a.wav"; data_slice = some a }) h).1)
    ≡ heap
unfolding new_array new_clip
allocated = refl

abbrev one_clip : Store
one_clip = record { m = (codes "a1", 0) ∷ [] }

put-test : put (codes "a1") 0 new_store ≡ one_clip
unfolding put new_store
put-test = refl
