-- ===== src/Worker/Uploads.antt =====
-- From handleUpload of the server to fetchAudio of a worker.
use worker_thoth.Base.{◌≡◌, some, Text, length, ok}
use worker_thoth.Job.{Job, source_upload}
use worker_thoth.Outside.{Outside}
use worker_thoth.Redis.{Ops}
use worker_thoth.Audio
use worker_thoth.Audio.Memory.{slice_bytes}
use worker_thoth.Store
use worker_thoth.Server.{Config, UploadForm, Service, handle_upload}
use worker_thoth.Server.Received.{IsReceived}
use worker_thoth.Server.Upload.{upload_accepted}
use worker_thoth.Worker.{Pool, Process, fetch_audio}

module _ (o : Ops) (c : Config) (st : Store.Store) (form : UploadForm) (id now : Text) where
  -- Right behind a handleUpload that replied 202, fetchAudio of a worker gets for that upload job
  -- the file name and the very bytes of the part "audio".
  pub upload-fetched :
      (x : Outside) (pool : Pool) (j : Job) (s : Service o) (p : Process o x)
      → (handle_upload o c st form id now s).0.status ≡ 202
      → j.source ≡ source_upload
      → p.audio ≡ (handle_upload o c st form id now s).1.audio
      → p.heap ≡ (handle_upload o c st form id now s).1.heap
      → (filename : Text) × (bytes : Text) × IsReceived c.max_audio_bytes form filename bytes
        × ((fetch_audio o x pool id j p).0 ≡ ok (filename, some (length s.heap.arrays)))
        × (slice_bytes (some (length s.heap.arrays)) (fetch_audio o x pool id j p).1.heap ≡ bytes)
  unfolding fetch_audio Audio.take
  upload-fetched x pool j s p accepted upload same_audio same_heap =
      let (filename, bytes, v) = upload_accepted o c st form id now s accepted in
      (
        filename,
        bytes,
        v.taken,
        rw (upload, same_audio, v.entry, same_heap, v.clip),
        rw (upload, same_heap, v.array),
      )
