-- ===== src/Main/Tests.antt =====
-- A start with the default settings, and an ID.
use worker_thoth.Base.{◌∷◌, [], some, ◌≡◌, refl, Option, none, Text, codes, trim_space, GoError, ok}
use worker_thoth.Redis.Memory.{memory, empty_server}
use worker_thoth.Store.Connect
use worker_thoth.Store
use worker_thoth.Window.{parse}
use worker_thoth.Config.{load, load_window, validate}
use worker_thoth.Config.Tests.{midnight, secrets, no_duration, defaults}
use worker_thoth.Worker.Loops.{new_pool}
use worker_thoth.Main.{new_job_id, Started, start, worker_config, new_server}
use worker_thoth.Main.Ready.{IsReady, start-IsReady}

abbrev any_url : Text → Option GoError
any_url url = none

abbrev room : Store.Store
room = Connect.store_of memory defaults.job_ttl defaults.queue_size

abbrev ready : Started memory midnight
ready = record {
  workers = new_pool (worker_config memory midnight defaults room);
  server = new_server memory midnight defaults room;
  address = codes ":8770";
}

started : (start memory midnight no_duration any_url secrets empty_server).0 ≡ ok ready
unfolding start load load_window parse validate trim_space Connect.new Connect.connect Connect.ping
    Store.ensure_group
started = refl

start-IsReady_example : IsReady memory midnight ready
start-IsReady_example =
    start-IsReady memory midnight no_duration any_url secrets empty_server ready started

job_id : new_job_id (some (0 ∷ 171 ∷ 255 ∷ [])) [] ≡ codes "00abff"
unfolding new_job_id
job_id = refl
