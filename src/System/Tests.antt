-- ===== src/System/Tests.antt =====
-- A process with one upload and one worker, and one whose queue is full.
use worker_thoth.Base.{
  decimal, List, ℕ, zero, suc, ◌≤◌, ◌<◌, ◌≢◌, ◌⊎◌, ◌≡◌, refl, true, Option, none, some, [], ◌∷◌,
  ◌++◌, Text, codes, get_elem?, set, pos, All, arith,
}
use worker_thoth.Base.Sums.{total}
use worker_thoth.Redis.Memory.{steady, empty_server}
use worker_thoth.Audio
use worker_thoth.Audio.Memory.{IsZeros, slice_bytes, new_array, new_clip}
use worker_thoth.Store
use worker_thoth.Worker.{Process, Pool, fetch_audio}
use worker_thoth.Worker.Tests.{answering, pool, delivery, tune}
use worker_thoth.Server.{Config, end_of_file, received, read_audio, stash}
use worker_thoth.System.{start, arrived, Upload, advance, advance_upload}
use worker_thoth.System.Threads.{
  Thread, handler, uploader, System, advance_thread, IsNew, Reach, here, next, receive, request,
  move,
}
use worker_thoth.System.Safety.{boot, references, audio_owned, IsOver, no_audio_left, audio_private}
use worker_thoth.System.Progress.{thread_steps_left, move-progress}
use worker_thoth.System.Delivery.{thread_job, Waits, Fetches, audio_delivered}
use worker_thoth.Job.{Job, source_upload}
use worker_thoth.Store.{QueuedMessage}
use worker_thoth.Redis.{Ops, streams}
use worker_thoth.Store.{field_job_id}
use worker_thoth.System.{entered}
use worker_thoth.System.Crew.{
  Crew, CrewReach, Hand, free, busy, work, read, here, next, receive, move, in_flight-le,
}
use worker_thoth.Worker.Loops.{consumers}
use worker_thoth.System.Counter.{thread_counted, in_flight-thread_counted}

abbrev settings : Config
settings = record { api_key = codes "k"; max_audio_bytes = 100; default_language = codes "pt" }

abbrev upload_of : Text → Upload
upload_of id = record {
  form = record {
    parsed = λ limit. true;
    audio_file = some (record { filename = codes "a.wav"; size = pos 3; reads = end_of_file tune });
    language = [];
  };
  id = id;
  now = codes "2024-01-01T00:00:00Z";
}

abbrev full : Pool
full = record pool { store = record { job_ttl = pos 3_600_000_000_000; queue_size = pos 0 } }

abbrev thread_or : Option Thread → Thread
thread_or none = handler delivery start
thread_or (some th) = th

-- The goroutine at an index, and the system behind its step.
abbrev thread_at : ℕ → System steady (answering 200) → Thread
thread_at i s = thread_or (get_elem? s.threads i)

abbrev after : Pool → ℕ → System steady (answering 200) → System steady (answering 200)
after p i s =
    let (th, q) = advance_thread steady (answering 200) p settings (thread_at i s) s.shared in
    record { shared = q; threads = set s.threads i th }

go :
    (p : Pool) (i : ℕ) (s0 s : System steady (answering 200))
    → Reach steady (answering 200) p settings s0 s
    → get_elem? s.threads i ≡ some (thread_at i s)
    → IsNew steady (answering 200) (thread_at i s) s.shared
    → Reach steady (answering 200) p settings s0 (after p i s)
go p i s0 s r at_i fresh = next r (move i (thread_at i s) at_i fresh refl)

abbrev booted : System steady (answering 200)
booted = boot steady (answering 200) empty_server 0

abbrev with_upload : Text → System steady (answering 200) → System steady (answering 200)
with_upload id s = record s { threads = s.threads ++ uploader (upload_of id) arrived ∷ [] }

abbrev refused_at : ℕ → System steady (answering 200)
refused_at zero = with_upload (codes "a1") booted
refused_at (suc n) = after full 0 (refused_at n)

refused-Reach : Reach steady (answering 200) full settings booted (refused_at 3)
unfolding boot advance_upload stash received read_audio new_array new_clip Audio.put Audio.drop
    Audio.zero Audio.new_store Store.create_and_enqueue Store.check_depth
refused-Reach =
    go full 0 booted (refused_at 2)
      (go full 0 booted (refused_at 1)
        (go full 0 booted (refused_at 0) (next here (request (upload_of (codes "a1")) refl)) refl
          refl)
        refl tt)
      refl tt

refused-IsOver : All IsOver (refused_at 3).threads
unfolding boot advance_upload stash received read_audio new_array new_clip Audio.put Audio.drop
    Audio.zero Audio.new_store Store.create_and_enqueue Store.check_depth
refused-IsOver = ((_, refl), tt)

refused_empty : (refused_at 3).shared.audio.m ≡ []
unfolding boot advance_upload stash received read_audio new_array new_clip Audio.put Audio.drop
    Audio.zero Audio.new_store Store.create_and_enqueue Store.check_depth
refused_empty = refl

no_audio_left_example : IsZeros (slice_bytes (some 0) (refused_at 3).shared.heap)
no_audio_left_example =
    no_audio_left steady (answering 200) full settings empty_server 0 (refused_at 3) refused-Reach
      refused-IsOver refused_empty 0

-- One upload that is accepted, its handler, which has fetched the audio, and a second upload.
abbrev accepted_at : ℕ → System steady (answering 200)
accepted_at zero = with_upload (codes "a1") booted
accepted_at (suc n) = after pool 0 (accepted_at n)

abbrev with_handler : System steady (answering 200) → System steady (answering 200)
with_handler s = record s { threads = s.threads ++ handler delivery start ∷ [] }

abbrev handled_at : ℕ → System steady (answering 200)
handled_at zero = with_handler (accepted_at 2)
handled_at (suc n) = after pool 1 (handled_at n)

accepted-Reach : Reach steady (answering 200) pool settings booted (accepted_at 2)
unfolding boot advance_upload stash received read_audio new_array new_clip Audio.put Audio.new_store
    Store.create_and_enqueue Store.check_depth Store.push_job
accepted-Reach =
    go pool 0 booted (accepted_at 1)
      (go pool 0 booted (accepted_at 0) (next here (request (upload_of (codes "a1")) refl)) refl
        refl)
      refl tt

fetched-Reach : Reach steady (answering 200) pool settings booted (handled_at 4)
unfolding boot advance_upload stash received read_audio new_array new_clip Audio.put Audio.new_store
    Store.create_and_enqueue Store.check_depth Store.push_job Store.get Store.set_processing
    Store.update advance fetch_audio Audio.take
fetched-Reach =
    go pool 1 booted (handled_at 3)
      (go pool 1 booted (handled_at 2)
        (go pool 1 booted (handled_at 1)
          (go pool 1 booted (handled_at 0) (next accepted-Reach (receive delivery refl)) refl tt)
          refl tt)
        refl tt)
      refl tt

abbrev second : System steady (answering 200)
second = with_upload (codes "b2") (handled_at 4)

second-Reach : Reach steady (answering 200) pool settings booted second
second-Reach = next fetched-Reach (request (upload_of (codes "b2")) refl)

audio_owned_example :
    (references steady (answering 200) second 0 ≤ 1)
    × (references steady (answering 200) second 0 ≡ 0
        → IsZeros (slice_bytes (some 0) second.shared.heap))
audio_owned_example =
    audio_owned steady (answering 200) pool settings empty_server 0 second second-Reach 0

audio_private_example :
    get_elem?
      (advance_thread steady
        (answering 200)
        pool
        settings
        (uploader (upload_of (codes "b2")) arrived)
        second.shared).1.heap.arrays
      0
    ≡ get_elem? second.shared.heap.arrays 0
unfolding boot advance_upload stash received read_audio new_array new_clip Audio.put Audio.new_store
    Store.create_and_enqueue Store.check_depth Store.push_job Store.get Store.set_processing
    Store.update advance fetch_audio Audio.take
audio_private_example =
    audio_private steady (answering 200) pool settings empty_server 0 second second-Reach 1 2
      (thread_at 1 second) (uploader (upload_of (codes "b2")) arrived) 0 (λ e. omega (arith, e))
      refl refl refl refl

in_flight-thread_counted_example : second.shared.in_flight ≡ total thread_counted second.threads
in_flight-thread_counted_example =
    in_flight-thread_counted steady (answering 200) pool settings empty_server 0 second second-Reach

move-progress_example :
    IsOver (thread_at 1 second)
    ⊎ (total thread_steps_left (
          set second.threads 1
            (advance_thread steady
              (answering 200)
              pool
              settings
              (thread_at 1 second)
              second.shared).0)
        < total thread_steps_left second.threads)
unfolding boot advance_upload stash received read_audio new_array new_clip Audio.put Audio.new_store
    Store.create_and_enqueue Store.check_depth Store.push_job Store.get Store.set_processing
    Store.update advance fetch_audio Audio.take
move-progress_example =
    move-progress steady (answering 200) pool settings second 1 (thread_at 1 second) refl

-- The first upload waits, and a second one arrives.
abbrev waiting : System steady (answering 200)
waiting = with_upload (codes "b2") (accepted_at 2)

tune-Waits : Waits steady (answering 200) (codes "a1") (codes "a.wav") tune waiting.shared
unfolding boot advance_upload stash received read_audio new_array new_clip Audio.put Audio.new_store
    Store.create_and_enqueue Store.check_depth Store.push_job
tune-Waits = record { clip_at = 0; array_at = 0; entry = refl; clip = refl; array = refl }

audio_delivered_example :
    ((i : ℕ) (th : Thread)
      → get_elem? waiting.threads i ≡ some th
      → thread_job th ≢ codes "a1"
      → Waits steady
          (answering 200)
          (codes "a1")
          (codes "a.wav")
          tune
          (advance_thread steady (answering 200) pool settings th waiting.shared).1)
    × ((m : QueuedMessage) (j : Job)
        → m.job_id ≡ codes "a1"
        → j.source ≡ source_upload
        → Fetches steady (answering 200) (codes "a1") (codes "a.wav") tune pool m j waiting.shared)
audio_delivered_example =
    audio_delivered steady (answering 200) (codes "a1") (codes "a.wav") tune pool settings
      empty_server 0 waiting (next accepted-Reach (request (upload_of (codes "b2")) refl))
      tune-Waits

-- A Redis that has the message for each worker that reads.
abbrev giving : Ops
giving = record steady {
  read_group = λ g c k n block db. (
    streams (
        record {
          stream = k;
          messages = record { id = codes "1"; values = (field_job_id, codes "a1") ∷ [] } ∷ [];
        }
        ∷ []),
    db,
  );
}

abbrev idle : Process giving (answering 200)
idle = record {
  db = empty_server;
  audio = record { m = [] };
  heap = record { arrays = []; clips = []; abandoned = [] };
  world = 0;
  in_flight = 0;
}

-- One worker, and the claimer.
abbrev pair : List Text
pair = consumers (pos 1)

abbrev crew_of : Process giving (answering 200) → Hand → Crew giving (answering 200) pool pair
crew_of p h = record { shared = p; hands = h ∷ free [] ∷ [] }

abbrev counted : Process giving (answering 200)
counted = record idle { in_flight = 1 }

begun-CrewReach :
    CrewReach giving
      (answering 200)
      pool
      pair
      (crew_of idle (free []))
      (crew_of counted (busy [] delivery entered))
unfolding work advance consumers decimal Store.read Store.to_messages
begun-CrewReach =
    next
      (next
        (next here (
          receive 0 (codes "worker-0") (delivery ∷ []) empty_server refl refl
            (read (λ e. cc e) refl) refl))
        (move 0 (free (delivery ∷ [])) refl refl))
      (move 0 (busy [] delivery start) refl refl)

in_flight-le_example : counted.in_flight ≤ 2
unfolding consumers
in_flight-le_example =
    in_flight-le giving (answering 200) pool (pos 1) idle
      (crew_of counted (busy [] delivery entered)) refl begun-CrewReach
