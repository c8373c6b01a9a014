-- ===== src/Worker/Tests.antt =====
-- Messages handled with Redis in memory, and an upstream that always gives the same answer.
use worker_thoth.Base.{
  negsuc, arith, inl, ◌<◌, ◌≤◌, false, ℕ, ◌+◌, ◌≡◌, refl, ◌++◌, true, none, some, [], ◌∷◌, Text,
  codes, pos, message, wrap, error_text, ok, length, replicate,
}
use worker_thoth.Job.{
  Job, status_queued, status_completed, status_failed, source_upload, source_url,
}
use worker_thoth.Outside.{Outside, Response}
use worker_thoth.Redis.{apply_all}
use worker_thoth.Redis.Memory.{steady, empty_server}
use worker_thoth.Redis.Memory.Lawful.{steady-Laws, steady-exec}
use worker_thoth.Audio
use worker_thoth.Audio.Memory.{slice_bytes}
use worker_thoth.Store
use worker_thoth.Store.{QueuedMessage, job_key, create_commands}
use worker_thoth.Whisper.{Client, transcribe, build_request, send_gated, answer_of}
use worker_thoth.Worker.{
  Pool, Process, audio_lost, fetch_audio, retry_from, transcribe_with_retry, complete, handle,
}
use worker_thoth.Worker.Retry.{Ends, transcribe_with_retry-Ends}
use worker_thoth.Worker.Zeroing.{handle_zeroes}
use worker_thoth.Worker.Settle.{OnlyAcked, handle_skips, Recorded, started, handle_settles}
use worker_thoth.Worker.Duplicate.{reclaim_overlap}
use worker_thoth.Worker.Leftover.{download_abandoned}
use worker_thoth.Worker.Pause.{window_poll, window_sleep, window_sleep-shut}
use worker_thoth.Window.{is_open, next_open}
use worker_thoth.Window.Tests.{
  utc_only, night, evening, night-IsValid, shut_in_the_evening, clock_at-runs,
}
use worker_thoth.Server.{
  Config, UploadForm, more, end_of_file, Service, received, read_audio, stash, handle_upload,
}

-- An answer of the upstream. The state of the surroundings counts what was sent.
abbrev upstream : ℕ → Response
upstream status = record {
  status_code = status;
  content_length = pos 2;
  body = record { bytes = codes "{}"; fault = none };
}

-- A form is the list of its parts, run together.
abbrev pub answering : ℕ → Outside
answering status = record {
  World = ℕ;
  now = λ w. codes "2024-01-01T00:01:00Z";
  sleep = λ d w. (true, w);
  ctx_err = λ w. message (codes "context canceled");
  enter_gate = λ w. (none, w);
  leave_gate = λ w. w;
  request_error = λ url. none;
  send = λ timeout r w. (ok (upstream status), w + 1);
  Form = Text;
  new_form = λ w. [];
  create_form_file = λ name file form. ok form;
  write_part = λ bytes form. ok (form ++ bytes);
  write_field = λ name value form. ok (form ++ value);
  close_form = λ form. ok form;
  form_bytes = λ form. form;
  content_type = λ form. codes "multipart/form-data; boundary=x";
  url_path = λ url. none;
  quote = λ s. s;
}

abbrev client : Client
client = record { base_url = codes "http://w"; api_key = codes "k"; timeout = 600_000_000_000 }

abbrev pub pool : Pool
pool = record {
  store = record { job_ttl = pos 3_600_000_000_000; queue_size = pos 2 };
  whisper = client;
  max_audio_bytes = 100;
  download_timeout = 600_000_000_000;
  default_language = codes "pt";
}

abbrev upload : Text → Job
upload status = record {
  id = codes "a1";
  status = status;
  source = source_upload;
  url = [];
  language = [];
  result = [];
  error = [];
  created_at = codes "2024-01-01T00:00:00Z";
  completed_at = [];
}

abbrev pub delivery : QueuedMessage
delivery = record { message_id = codes "1"; job_id = codes "a1" }

abbrev pub tune : Text
tune = 7 ∷ 8 ∷ 9 ∷ []

-- The process with an upload job that was just accepted.
abbrev process_at : (status : ℕ) → Text → Process steady (answering status)
process_at status job_status = record {
  db = apply_all steady (create_commands pool.store (upload job_status)) empty_server;
  audio = record { m = (codes "a1", 0) ∷ (codes "b2", 1) ∷ [] };
  heap = record {
    arrays = tune ∷ [];
    clips = record { filename = codes "a.wav"; data_slice = some 0 } ∷ [];
    abandoned = [];
  };
  world = 0;
  in_flight = 0;
}

abbrev pub accepted : (status : ℕ) → Process steady (answering status)
accepted status = process_at status status_queued

transcribe_with_retry-Ends_example :
    let r = transcribe_with_retry (answering 503) client (codes "a.wav") tune (codes "pt") 0 in
    Ends (answering 503) client (codes "a.wav") tune (codes "pt") 0 (message []) r.0 r.1
transcribe_with_retry-Ends_example =
    transcribe_with_retry-Ends (answering 503) client (codes "a.wav") tune (codes "pt") 0

handle_zeroes_example :
    slice_bytes (some 0) (handle steady (answering 503) pool delivery (accepted 503)).heap
    ≡ replicate (length tune) 0
handle_zeroes_example =
    handle_zeroes steady (answering 503) pool delivery 0 0 tune (accepted 503) refl
      (record { filename = codes "a.wav"; clip = refl; array = refl })

-- A job that is over, delivered again.
abbrev finished : Process steady (answering 200)
finished = process_at 200 status_completed

handle_skips_example :
    OnlyAcked steady steady-Laws
      (answering 200)
      pool
      delivery
      steady-exec
      finished
      (handle steady (answering 200) pool delivery finished)
unfolding Store.get
handle_skips_example =
    handle_skips steady steady-Laws (answering 200) pool delivery steady-exec finished (inl refl)

got : Store.get steady (codes "a1") (accepted 200).db ≡ ok (upload status_queued)
unfolding Store.get
got = refl

handle_settles_example :
    Recorded steady
      (codes "a1")
      (ok (codes "{}"))
      (handle steady (answering 200) pool delivery (accepted 200)).db
unfolding fetch_audio Audio.take transcribe_with_retry retry_from transcribe build_request
    send_gated answer_of
handle_settles_example =
    handle_settles steady steady-Laws (answering 200) pool delivery refl steady-exec
      (upload status_queued) (accepted 200) got refl

reclaim_overlap_example :
    let first =
      (fetch_audio steady
        (answering 200)
        pool
        (codes "a1")
        (upload status_queued)
        (started steady (answering 200) pool delivery (accepted 200))).1 in
    let second = handle steady (answering 200) pool delivery first in
    let last = complete steady (answering 200) pool delivery (codes "{}") second in
    let lost = error_text (wrap (codes "fetch audio") audio_lost) in
    (steady.field second.db (job_key (codes "a1")) (codes "status") ≡ some status_failed)
    × (steady.field second.db (job_key (codes "a1")) (codes "error") ≡ some lost)
    × (steady.field last.db (job_key (codes "a1")) (codes "status") ≡ some status_completed)
    × (steady.field last.db (job_key (codes "a1")) (codes "error") ≡ some lost)
reclaim_overlap_example =
    reclaim_overlap steady steady-Laws (answering 200) pool delivery refl steady-exec
      (upload status_queued) (accepted 200) _ (codes "{}") got refl refl

abbrev settings : Config
settings = record { api_key = codes "secret"; max_audio_bytes = 4; default_language = codes "pt" }

-- An upload of three bytes, to a server with nothing in it.
abbrev form : UploadForm
form = record {
  parsed = λ limit. true;
  audio_file = some (record {
    filename = codes "a.wav";
    size = pos 3;
    reads = more (7 ∷ 8 ∷ []) (end_of_file (9 ∷ []));
  });
  language = [];
}

abbrev service : Service steady
service = record {
  db = empty_server;
  audio = record { m = [] };
  heap = record { arrays = []; clips = []; abandoned = [] };
}

abbrev served : Service steady
served = (handle_upload steady settings pool.store form (codes "a1") (codes "now") service).1

upload_status :
    (handle_upload steady settings pool.store form (codes "a1") (codes "now") service).0.status
    ≡ 202
unfolding handle_upload received read_audio Store.create_and_enqueue Store.check_depth stash
    Store.push_job
upload_status = refl

abbrev after_upload : Process steady (answering 200)
after_upload = record {
  db = served.db;
  audio = served.audio;
  heap = served.heap;
  world = 0;
  in_flight = 0;
}

fetched_tune :
    (fetch_audio steady (answering 200) pool (codes "a1") (upload status_queued) after_upload).0
    ≡ ok (codes "a.wav", some 0)
unfolding handle_upload received read_audio Store.create_and_enqueue Store.check_depth stash
    Store.push_job fetch_audio Audio.take Audio.put Audio.Memory.new_clip Audio.Memory.new_array
fetched_tune = refl

-- The window of the night, closed in the evening.
window_sleep-shut_example :
    (0 < window_sleep utc_only night evening)
    × (window_sleep utc_only night evening ≤ window_poll)
    × ((k : ℕ)
        → k < window_sleep utc_only night evening
        → is_open utc_only night (utc_only.later evening k) ≡ false)
window_sleep-shut_example =
    window_sleep-shut utc_only night evening tt night-IsValid refl shut_in_the_evening
      (clock_at-runs (next_open utc_only night evening))

-- A server that announces nothing and sends three bytes, where two are the limit.
abbrev flood : Response
flood = record {
  status_code = 200;
  content_length = negsuc 0;
  body = record { bytes = tune; fault = none };
}

abbrev flooding : Outside
flooding = record (answering 200) { send = λ timeout r w. (ok flood, w + 1) }

abbrev narrow : Pool
narrow = record pool { max_audio_bytes = 2 }

abbrev link : Job
link = record (upload status_queued) { source = source_url; url = codes "http://x/a" }

abbrev with_link : Process steady flooding
with_link = record {
  db = apply_all steady (create_commands pool.store link) empty_server;
  audio = record { m = [] };
  heap = record { arrays = []; clips = []; abandoned = [] };
  world = 0;
  in_flight = 0;
}

got_job : Store.get steady (codes "a1") with_link.db ≡ ok link
unfolding Store.get
got_job = refl

download_abandoned_example :
    (handle steady flooding narrow delivery with_link).heap.abandoned ≡ tune ∷ []
download_abandoned_example =
    download_abandoned steady flooding narrow delivery link with_link flood 1 got_job refl refl refl
      refl (omega arith) refl refl (omega arith)
