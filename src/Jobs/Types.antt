-- ===== src/Jobs/Types.antt =====
-- The types of pkg/mcp/jobs.go. A time is the number of nanoseconds since Go's zero time, so that
-- 0 is the time for which `IsZero` holds.
use Prim.Native.String.{String}
use doc_scraper.Prelude.{ℕ, Bool, true, false, List, Option}
use doc_scraper.Prelude.Int.{ℤ}
use doc_scraper.Crawler.Failures.{FailureClass}

-- `other` is any further text that a jobs file holds in place of a status.
pub data JobStatus : Type 0 where
  pending running completed failed cancelled : JobStatus
  other : String → JobStatus

abbrev pub restart_failed_msg : String
restart_failed_msg = "MCP server restarted during crawl"

abbrev pub shutdown_cancelled_msg : String
shutdown_cancelled_msg = "MCP server shut down during crawl"

abbrev pub max_terminal_jobs : ℕ
max_terminal_jobs = 100

abbrev pub jobs_file_version : ℕ
jobs_file_version = 1

-- `isTerminalStatus`
unfoldable pub is_terminal_status : JobStatus → Bool
is_terminal_status completed = true
is_terminal_status failed = true
is_terminal_status cancelled = true
is_terminal_status _ = false

-- `job.Status == JobStatusPending || job.Status == JobStatusRunning`
unfoldable pub is_active_status : JobStatus → Bool
is_active_status pending = true
is_active_status running = true
is_active_status _ = false

-- A job's context: none in a copy, and otherwise whether it was cancelled.
pub data Context : Type 0 where
  no_context live dead : Context

pub record JobProgress : Type 0 where
  pub processed : ℤ
  pub queued : ℤ
  pub unchanged : ℤ
  pub saved : ℤ
  pub failed_pages : ℤ
  pub carried_forward : ℤ
  pub failures : List FailureClass

-- `progress` names the crawl whose counters the closure reads.
pub record Job : Type 0 where
  pub id : String
  pub site_key : String
  pub status : JobStatus
  pub seq : ℕ
  pub started_at : ℕ
  pub completed_at : ℕ
  pub pages_processed : ℤ
  pub pages_queued : ℤ
  pub pages_unchanged : ℤ
  pub pages_saved : ℤ
  pub pages_failed : ℤ
  pub pages_carried_forward : ℤ
  pub failures : List FailureClass
  pub refused : String
  pub error_message : String
  pub incremental : Bool
  pub ctx : Context
  pub progress : Option ℕ

-- `siteWorker`: the job is named by its id, the channel `done` by a number. There is no job while a
-- config save holds the slot.
pub record SiteWorker : Type 0 where
  pub job : Option String
  pub done : ℕ

-- `JobManager`. `retired` holds the jobs that left `jobs`, which a worker may still point to;
-- `closed` the channels that were closed; `disk` the file at `persist_path`.
pub record JobManager : Type 0 where
  pub jobs : List (String × Job)
  pub bysite : List (String × String)
  pub workers : List (String × SiteWorker)
  pub retired : List (String × Job)
  pub seq : ℕ
  pub dirty : Bool
  pub persist_path : String
  pub disk : Option (List Job)
  pub next_channel : ℕ
  pub closed : List ℕ

-- The counters of the running crawls at the time of a call.
abbrev pub Counters : Type 0
Counters = ℕ → JobProgress
