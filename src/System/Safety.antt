-- ===== src/System/Safety.antt =====
-- What holds at any time after the start of the process (run of cmd/server/main.go), however the
-- goroutines are interleaved.
use worker_thoth.Base.{
  ℕ, ◌+◌, ◌≤◌, ◌<◌, ◌≡◌, ◌≢◌, refl, ap, ◌∙◌, none, some, List, [], ◌∷◌, arith, get_elem?, All,
}
use worker_thoth.Base.Sums.{refers, weights-le-total}
use worker_thoth.Outside.{Outside}
use worker_thoth.Redis.{Ops}
use worker_thoth.Audio
use worker_thoth.Audio.Memory.{IsZeros, slice_bytes}
use worker_thoth.Worker.{Pool}
use worker_thoth.Server.{Config}
use worker_thoth.System.{finished, replied}
use worker_thoth.System.Threads.{Thread, handler, uploader, System, advance_thread, IsNew, Reach}
use worker_thoth.System.Ownership.{stored, refers_self}
use worker_thoth.System.Accounts.{holds}
use worker_thoth.System.Invariant.{
  held_by, held, held_but, Sound, Sound-Owned, advance_thread-Owned, Reach-Sound,
}

-- A goroutine that has come to its end.
abbrev pub IsOver : Thread → Type 0
IsOver (handler m ph) = ph ≡ finished
IsOver (uploader u ph) = (r : _) × (ph ≡ replied r)

module _ (o : Ops) (x : Outside) where
  -- The process at its start: no audio, nothing in flight, no goroutine of the two kinds.
  unfoldable pub boot : o.Db → x.World → System o x
  boot db w = record {
    shared = record {
      db = db;
      audio = Audio.new_store;
      heap = record { arrays = []; clips = []; abandoned = [] };
      world = w;
      in_flight = 0;
    };
    threads = [];
  }

  -- All references to the array `a`, from the audio store and from the goroutines.
  abbrev pub references : System o x → ℕ → ℕ
  references s a = stored a s.shared.heap.clips s.shared.audio.m + held s.threads a

  boot-Sound : (db : o.Db) (w : x.World) → Sound o x (boot db w)
  unfolding boot Audio.new_store
  boot-Sound db w = record {
    keys = tt;
    clips_once = λ p. omega arith;
    clips_known = λ p le. refl;
    once = λ a. omega arith;
    known = λ a le. refl;
    clean = λ a unused. tt;
  }

  module _ (pool : Pool) (c : Config) where
    pub Reach-boot :
        (db : o.Db) (w : x.World) (s : System o x) → Reach o x pool c (boot db w) s → Sound o x s
    Reach-boot db w s r = Reach-Sound o x pool c (boot db w) s r (boot-Sound db w)

    -- From the start of the process on, however the steps of handlers, of uploads and of the
    -- surroundings follow each other, with the ID of an upload not in the store when its clip is
    -- put there: of the byte arrays that an upload put into a clip, or that a finished download
    -- gave to a handler, none is referred to twice, from clips of the audio store or from
    -- goroutines that hold it, and one that nothing refers to holds only zeros. What a read that
    -- was broken off left is not among these arrays.
    pub audio_owned :
        (db : o.Db) (w : x.World) (s : System o x)
        → Reach o x pool c (boot db w) s
        → (a : ℕ)
        → (references s a ≤ 1) × (references s a ≡ 0 → IsZeros (slice_bytes (some a) s.shared.heap))
    audio_owned db w s r a =
        let v = Reach-boot db w s r in (omega (arith, v.once a), λ unused. v.clean a (omega arith))

    over_holds_none : (th : Thread) → IsOver th → held_by th ≡ none
    over_holds_none (handler m ph) e = ap holds e
    over_holds_none (uploader u ph) e = refl

    over-held : (threads : List Thread) (a : ℕ) → All IsOver threads → held threads a ≡ 0
    over-held [] a e = refl
    over-held (th ∷ threads) a e =
        omega (arith, ap (refers a) (over_holds_none th e.0), over-held threads a e.1)

    -- From the start of the process on, however the steps of handlers, of uploads and of the
    -- surroundings follow each other, with the ID of an upload not in the store when its clip is
    -- put there: once every goroutine is at its end and the audio store is empty, every byte array
    -- that an upload put into a clip, or that a finished download gave to a handler, holds only
    -- zeros. What a read that was broken off left is not among these arrays.
    pub no_audio_left :
        (db : o.Db) (w : x.World) (s : System o x)
        → Reach o x pool c (boot db w) s
        → All IsOver s.threads
        → s.shared.audio.m ≡ []
        → (a : ℕ) → IsZeros (slice_bytes (some a) s.shared.heap)
    no_audio_left db w s r over empty a =
        (audio_owned db w s r a).1
          (omega (arith, over-held s.threads a over, ap (stored a s.shared.heap.clips) empty))

    others-positive :
        (threads : List Thread) (i j : ℕ) (th mover : Thread) (a : ℕ)
        → i ≢ j
        → get_elem? threads i ≡ some th
        → get_elem? threads j ≡ some mover
        → held_by th ≡ some a
        → 0 < held_but threads mover a
    others-positive threads i j th mover a differ at_i at_j holds_a = omega (
      arith,
      weights-le-total (λ t. refers a (held_by t)) threads i j th mover differ at_i at_j,
      ap (refers a) holds_a ∙ refers_self a,
    )

    -- From the start of the process on, however the steps of handlers, of uploads and of the
    -- surroundings follow each other, with the ID of an upload not in the store when its clip is
    -- put there: while one goroutine holds audio that it has fetched, a step of any other goroutine
    -- leaves the bytes of that audio as they are.
    pub audio_private :
        (db : o.Db) (w : x.World) (s : System o x)
        → Reach o x pool c (boot db w) s
        → (i j : ℕ) (th mover : Thread) (a : ℕ) → i ≢ j
        → get_elem? s.threads i ≡ some th
        → get_elem? s.threads j ≡ some mover
        → held_by th ≡ some a
        → IsNew o x mover s.shared
        → get_elem? (advance_thread o x pool c mover s.shared).1.heap.arrays a
          ≡ get_elem? s.shared.heap.arrays a
    audio_private db w s r i j th mover a differ at_i at_j holds_a fresh =
        (advance_thread-Owned o x pool c mover s.shared (held_but s.threads mover) fresh
            (Sound-Owned o x s j mover at_j (Reach-boot db w s r))).1
          a (others-positive s.threads i j th mover a differ at_i at_j holds_a)
