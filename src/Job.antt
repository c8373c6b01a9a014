-- ===== src/Job.antt =====
-- internal/job/job.go: a job's status and source, which are strings, and its persisted state.
use worker_thoth.Base.{Text, codes}

abbrev pub Status : Type 0
Status = Text

abbrev pub status_queued : Status
status_queued = codes "queued"

abbrev pub status_processing : Status
status_processing = codes "processing"

abbrev pub status_completed : Status
status_completed = codes "completed"

abbrev pub status_failed : Status
status_failed = codes "failed"

abbrev pub Source : Type 0
Source = Text

abbrev pub source_upload : Source
source_upload = codes "upload"

abbrev pub source_url : Source
source_url = codes "url"

pub record Job : Type 0 where
  pub id : Text
  pub status : Status
  pub source : Source
  pub url : Text
  pub language : Text
  pub result : Text
  pub error : Text
  pub created_at : Text
  pub completed_at : Text
