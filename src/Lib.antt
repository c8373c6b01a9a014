-- ===== src/Lib.antt =====
-- The transcription worker (Go): what its parts compute and promise.
--
-- An HTTP server accepts audio, as an upload or as a URL, and puts a job into a queue in Redis. A
-- pool of workers reads the queue while the daily processing window is open, fetches the audio,
-- sends it to a hosted Whisper service, and records the answer in the job's hash in Redis.
--
--   Base      shared: Boolean tests, lists, byte strings, Go's strings and strconv, errors and
--             results, association lists for maps, signed integers
--   Outside   what is called outside the repository besides Redis: clock, timers, contexts, network,
--             multipart encoder, URL parser. All of it is a parameter (record Outside)
--   Job       internal/job/job.go: Job, the constants of Status and Source
--   Window    internal/window/window.go: parse (Parse), parse_hhmm (parseHHMM), is_open (IsOpen),
--             next_open (NextOpen). Hours: when a window is open. Reopen: NextOpen against IsOpen at
--             later times. Bounds: what Parse accepts
--   Config    internal/config/config.go: load (Load), validate. Checked: what it guarantees
--   Audio     internal/audio/store.go: put, take, drop, zero, len (Put, Take, Drop, Zero, Len).
--             Memory: the heap of clips and byte arrays, with the arrays of reads that were broken
--             off apart (abandoned). Release: what is cleared
--   Redis     the client library as a parameter (records Ops and Laws). Memory: a server that meets
--             the laws, for the concrete runs (Memory.Lawful)
--   Store     internal/redisstore/store.go: create_and_enqueue (CreateAndEnqueue), get, update,
--             set_processing, set_completed, set_failed, read, claim, ack, queue_len, ensure_group.
--             Fields, Jobs, Expiry: hashes. Queue: the stream. Race: requests at the same time.
--             Connect: new, ping (New, Ping)
--   Whisper   internal/whisper/client.go: transcribe (Transcribe), is_transient (IsTransient).
--             Answer: the classes of answers. Gate: the gate under many callers
--   Download  internal/worker/download.go: download, filename_from_url. Limits, Names
--   Server    internal/server/server.go and helpers.go: auth, extract_api_key (extractAPIKey),
--             handle_upload (handleUpload), Jobs: handle_url, handle_get_job, job_view (handleURL,
--             handleGetJob, jobView). Health: handle_health (handleHealth). Routes: serve (Handler),
--             access_log (accessLog). Auth, Received, Left, Upload, Jobs.Views, Routes.Guarded and
--             Routes.Logged: what they guarantee
--   Worker    internal/worker/pool.go: handle, fetch_audio (fetchAudio), transcribe_with_retry
--             (transcribeWithRetry), fail, ack. Retry: the retries. Release and Zeroing: the audio.
--             Settle: the job's state and the message. Duplicate: two workers on one message.
--             Leftover: what a download that is too long leaves.
--             Uploads: from the server's handleUpload to fetchAudio. Pause: windowSleep. Loops:
--             consume_round, claim_round (the rounds of consume and claimLoop), consumers (Run),
--             new_pool (New); with Guard, Batch, Names
--   System    handlers of messages and uploads, interleaved on one memory and one Redis: advance (a
--             step of handle), advance_upload (a step of handleUpload). Alone, Uploads: the steps
--             against handle and handleUpload. Threads: any number of goroutines. Ownership,
--             Accounts, Invariant: who refers to which audio. Safety, Waiting, Delivery: what the audio
--             is safe from. Counter, Progress. Crew: the goroutines of Run, each with the messages that
--             Redis gave it last
--   Main      cmd/server/main.go: start (run, up to its goroutines), new_job_id (newJobID). Ready,
--             JobId: what they guarantee
--
-- State is passed explicitly: Process holds the state of Redis, the audio store, the heap, the state
-- of the surroundings and the counter of jobs in flight. Calls that may fail return a Result, or an
-- Option of the error where Go returns only an error. What runs at the same time is a step relation
-- with reachability (Store.Race, Whisper.Gate, System.Threads). In System a step is what a goroutine
-- does up to its next access to what others may change; a round of transcribeWithRetry is one step,
-- for it reads only audio that the handler holds. Redis and the surroundings may change at any time.
-- An upload puts its clip into the store only under an ID that is not there: newJobID draws 16 random
-- bytes.
--
-- Redis is not code of the repository. A value of Db is the state of the server and of the
-- connection, so any call may fail in any state; the laws state what the documentation of the
-- commands says: a transaction that is answered without an error was carried out whole, and of one
-- whose call failed some of the commands may have been. Laws holds of the server in Redis.Memory. A time to live is an integer of nanoseconds and may be negative. Observed are the
-- fields of a hash, its time to live and the entries of a stream, not the passing of time.
--
-- Numbers are natural numbers; a limit of bytes is below 2^63, and the two sums of it that
-- can wrap are written with their wrap: maxBytes+1 (Download.read_limit) and MaxAudioBytes+(1<<20)
-- (Server.form_limit). Strings are lists of bytes. The loop of
-- transcribeWithRetry has as its bound the three attempts of the source; trim_space has a byte of
-- the text as fuel for each space that it removes.
--
-- A read that is broken off (a download that fails behind its first byte or is too long, an upload
-- that is refused in the loop that reads it) leaves its bytes in memory, not overwritten. The heap
-- lists these arrays apart, for nothing refers to them any more; what is said of the arrays of clips
-- and of finished downloads does not cover them. Handlers wait for each other at the gate of
-- whisper.Transcribe, and for the upstream as long as it takes if UPSTREAM_TIMEOUT is not positive:
-- in System that wait is inside a step, and no theorem says that it ends.
--
-- Not modelled: log lines, but for the access log; copies of audio that are neither the array of a
-- clip or of a download nor what a broken read left (the arrays that append and io.ReadAll outgrow,
-- the multipart body of whisper.Transcribe, which is not overwritten, and what net/http holds of a
-- request); the redirects, time-outs and protocol of HTTP, which are the
-- network's; the way in which ServeMux picks a pattern, a parameter; redisstore.Close, which only
-- closes the connection; signals, the start of the goroutines and the shutdown (the second half of run
-- in cmd/server/main.go); what a cancelled context does to a call of Redis, beyond that any
-- call may fail. Of a request the server gets what net/http, encoding/json and net/url have made of
-- it; the configuration has time.ParseDuration as a parameter.
pub mod Base
pub mod Outside
pub mod Job
pub mod Window
pub mod Config
pub mod Audio
pub mod Redis
pub mod Store
pub mod Whisper
pub mod Download
pub mod Server
pub mod Worker
pub mod System
pub mod Main
