-- ===== src/System/Threads.antt =====
-- Any number of goroutines at once.
use worker_thoth.Base.{ℕ, ◌≡◌, none, some, List, [], ◌∷◌, ◌++◌, get_elem?, set}
use worker_thoth.Base.Dict.{lookup}
use worker_thoth.Outside.{Outside}
use worker_thoth.Redis.{Ops}
use worker_thoth.Store.{QueuedMessage}
use worker_thoth.Worker.{Pool, Process}
use worker_thoth.Server.{Config}
use worker_thoth.System.{Phase, start, UploadPhase, arrived, Upload, advance, advance_upload}

pub data Thread : Type 0 where
  handler : QueuedMessage → Phase → Thread
  uploader : Upload → UploadPhase → Thread

-- The shared state, and the goroutines that have begun.
pub record System (o : Ops) (x : Outside) : Type 0 where
  pub shared : Process o x
  pub threads : List Thread

module _ (o : Ops) (x : Outside) where
  -- The IDs of newID are new: none is in the store when it is put there.
  abbrev pub IsNew : Thread → Process o x → Type 0
  IsNew (handler m ph) p = Unit
  IsNew (uploader u arrived) p = lookup u.id p.audio.m ≡ none
  IsNew (uploader u ph) p = Unit

module _ (o : Ops) (x : Outside) (pool : Pool) (c : Config) where
  abbrev as_handler : QueuedMessage → Phase × Process o x → Thread × Process o x
  as_handler m (ph, p) = (handler m ph, p)

  abbrev as_uploader : Upload → UploadPhase × Process o x → Thread × Process o x
  as_uploader u (ph, p) = (uploader u ph, p)

  abbrev pub advance_thread : Thread → Process o x → Thread × Process o x
  advance_thread (handler m ph) p = as_handler m (advance o x pool m ph p)
  advance_thread (uploader u ph) p = as_uploader u (advance_upload o x c pool.store u ph p)

  -- One step: a goroutine begins, or moves on, or Redis and the surroundings change by themselves.
  pub data Step (s t : System o x) : Type 0 where
    receive :
        (m : QueuedMessage)
        → t ≡ record s { threads = s.threads ++ handler m start ∷ [] }
        → Step s t
    request :
        (u : Upload) → t ≡ record s { threads = s.threads ++ uploader u arrived ∷ [] } → Step s t
    move :
        (i : ℕ) (th : Thread)
        → get_elem? s.threads i ≡ some th
        → IsNew o x th s.shared
        → t ≡ record {
          shared = (advance_thread th s.shared).1;
          threads = set s.threads i (advance_thread th s.shared).0;
        }
        → Step s t
    environment :
        (db : o.Db) (w : x.World)
        → t ≡ record s { shared = record s.shared { db = db; world = w } }
        → Step s t

  pub data Reach (s : System o x) : System o x → Type 0 where
    here : Reach s s
    next : {t u : System o x} → Reach s t → Step t u → Reach s u
