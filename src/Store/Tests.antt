-- ===== src/Store/Tests.antt =====
-- Runs of the store on small servers in memory.
use worker_thoth.Base.{
  ℕ, suc, ◌+◌, ◌<◌, ◌≡◌, refl, ◌↔◌, none, some, List, [], ◌∷◌, Text, codes, arith, pos, negsuc,
  ◌≤ℤ◌, ok, err, Option, GoError, message, queue_full, not_found,
}
use worker_thoth.Job.{Job, status_queued, status_processing, source_url}
use worker_thoth.Redis.{apply_all}
use worker_thoth.Redis.Memory.{Server, memory, empty_server}
use worker_thoth.Redis.Memory.Lawful.{memory-Laws}
use worker_thoth.Store.{
  Store, group_name, ensure_group, stream_key, create_commands, check_depth, push_job,
  create_and_enqueue, get, update, set_completed,
}
use worker_thoth.Store.Jobs.{Write, completed, written, perform, get-create, get-perform}
use worker_thoth.Store.Queue.{depth, create-depth, create_full_iff}
use worker_thoth.Store.Race.{
  Requests, Reach, here, next, pass, push, depth-lt, two_requests_overshoot,
}
use worker_thoth.Store.Connect
use worker_thoth.Store.Connect.{IsGrouped, store_of, new_iff}
use worker_thoth.Store.Expiry.{get-create_expired}

-- An hour, and room for two jobs.
abbrev settings : Store
settings = record { job_ttl = pos 3_600_000_000_000; queue_size = pos 2 }

abbrev never_kept : Store
never_kept = record { job_ttl = negsuc 0; queue_size = pos 2 }

abbrev new_job : Text → Job
new_job id = record {
  id = id;
  status = status_queued;
  source = source_url;
  url = codes "http://x/a.mp3";
  language = codes "pt";
  result = [];
  error = [];
  created_at = codes "2024-01-01T00:00:00Z";
  completed_at = [];
}

abbrev first : Job
first = new_job (codes "a1")

abbrev second : Job
second = new_job (codes "b2")

abbrev after_first : Server
after_first = apply_all memory (create_commands settings first) empty_server

abbrev after_second : Server
after_second = apply_all memory (create_commands settings second) after_first

abbrev after_expired : Server
after_expired = apply_all memory (create_commands never_kept first) empty_server

created : create_and_enqueue memory settings first empty_server ≡ (none, after_first)
unfolding create_and_enqueue check_depth push_job
created = refl

get-create_example : get memory (codes "a1") after_first ≡ ok first
get-create_example =
    get-create memory memory-Laws settings refl first empty_server after_first _ (λ f. refl) created
      refl

got : get memory (codes "a1") after_first ≡ ok first
got =
    get-create memory memory-Laws settings refl first empty_server after_first _ (λ f. refl) created
      refl

abbrev completion : Write
completion = completed (codes "{}") (codes "2024-01-01T00:01:00Z")

abbrev after_completion : Server
after_completion = (perform memory settings (codes "a1") completion after_first).1

get-perform_example : get memory (codes "a1") after_completion ≡ ok (written completion first)
unfolding set_completed update
get-perform_example =
    get-perform memory memory-Laws settings refl completion (codes "a1") first after_first
      after_completion _ got refl refl

-- The job b2 is marked as being processed; a1 is not touched.
abbrev processing_fields : List (Text × Text)
processing_fields = (codes "status", status_processing) ∷ []

create-depth_example :
    (depth memory after_first ≡ suc (depth memory empty_server))
    × (pos (depth memory after_first) ≤ℤ settings.queue_size)
create-depth_example =
    create-depth memory memory-Laws settings first empty_server after_first created

create_full_iff_example :
    ((create_and_enqueue memory settings first after_second).0 ≡ some queue_full)
    ↔ ((n : ℕ) × (memory.xlen after_second stream_key ≡ ok n) × (settings.queue_size ≤ℤ pos n))
create_full_iff_example = create_full_iff memory memory-Laws settings first after_second

-- The first entry has the ID 1.
abbrev idle_at : Server → Requests memory settings
idle_at db = record { db = db; passed = [] }

room_for_one : check_depth memory settings after_first ≡ none
unfolding check_depth
room_for_one = refl

pushed : push_job memory settings second after_first ≡ (none, after_second)
unfolding push_job
pushed = refl

one_request : Reach memory settings 1 (idle_at after_first) (idle_at after_second)
unfolding push_job
one_request =
    next (next here (pass second room_for_one (omega arith) refl refl))
      (push [] [] second refl refl refl)

depth-lt_example : depth memory after_second < 2 + 1
depth-lt_example =
    depth-lt memory memory-Laws settings 2 1 (idle_at after_first) (idle_at after_second) refl
      (omega arith) (omega arith) refl one_request

abbrev third : Job
third = new_job (codes "c3")

abbrev after_third : Server
after_third = apply_all memory (create_commands settings third) after_second

two_requests_overshoot_example :
    Reach memory settings 2 (idle_at after_first) (idle_at after_third)
    × (2 < depth memory after_third)
unfolding push_job
two_requests_overshoot_example =
    two_requests_overshoot memory memory-Laws settings 2 second third after_first after_second
      after_third refl refl room_for_one pushed refl

created_expired : create_and_enqueue memory never_kept first empty_server ≡ (none, after_expired)
unfolding create_and_enqueue check_depth push_job
created_expired = refl

get-create_expired_example : get memory (codes "a1") after_expired ≡ err not_found
get-create_expired_example =
    get-create_expired memory memory-Laws never_kept first empty_server after_expired _ refl
      created_expired refl

-- A URL that is not empty is parsed.
abbrev parse_url : Text → Option GoError
parse_url [] = some (message (codes "invalid URL scheme"))
parse_url (c ∷ url) = none

connected :
    (Connect.new memory parse_url (codes "redis://h:1") (pos 9) (pos 2) empty_server).0
    ≡ ok (Connect.store_of memory (pos 9) (pos 2))
unfolding Connect.new Connect.connect Connect.ping ensure_group
connected = refl

-- A URL that redis.ParseURL takes, and a server that is up.
abbrev taken_url : Text → Option GoError
taken_url url = none

new_iff_example :
    ((Connect.new memory taken_url (codes "redis://r:6379") (pos 1) (pos 2) empty_server).0
      ≡ ok (store_of memory (pos 1) (pos 2)))
    ↔ ((taken_url (codes "redis://r:6379") ≡ none)
        × (Connect.ping memory empty_server ≡ none)
        × IsGrouped memory (memory.group_create stream_key group_name (codes "0") empty_server).0
        × (store_of memory (pos 1) (pos 2) ≡ store_of memory (pos 1) (pos 2)))
new_iff_example =
    new_iff memory taken_url (codes "redis://r:6379") (pos 1) (pos 2) empty_server
      (store_of memory (pos 1) (pos 2))
