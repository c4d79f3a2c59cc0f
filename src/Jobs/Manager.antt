-- ===== src/Jobs/Manager.antt =====
-- The methods of `JobManager` on jobs.
use Prim.Native.String.{String}
use text.Mathlib.Text.{◌==◌ as str_eq}
use doc_scraper.Prelude.{
  ℕ, ◌+◌, ◌%◌, ◌^◌, Bool, true, false, List, [], ◌∷◌, Option, none, some, if◌then◌else◌,
}
use doc_scraper.Prelude.Int.{ℤ, pos}
use doc_scraper.Prelude.Assoc.{lookup, insert, delete}
use doc_scraper.Jobs.Types.{
  JobStatus, pending, cancelled, is_terminal_status, is_active_status, Context, live, dead, Job,
  JobManager, Counters, shutdown_cancelled_msg,
}
use doc_scraper.Jobs.Table.{apply_progress, view, snapshot, prune_terminal}

-- What a call meets of the world: a fresh UUID and the time.
pub record Call : Type 0 where
  pub uuid : String
  pub now : ℕ

unfoldable pub job_of : List (String × Job) → Option String → Option Job
job_of jobs none = none
job_of jobs (some id) = lookup id jobs

unfoldable pub if_active : Option Job → Option Job
if_active none = none
if_active (some j) = if is_active_status j.status then some j else none

-- `activeJobLocked`
unfoldable pub active_job : JobManager → String → Option Job
unfolding job_of if_active
active_job m site = if_active (job_of m.jobs (lookup site m.bysite))

-- The job that `newJobLocked` makes.
unfoldable pub fresh_job : Call → ℕ → String → Bool → Job
fresh_job c seq site incremental = record {
  id = c.uuid;
  site_key = site;
  status = pending;
  seq = seq;
  started_at = c.now;
  completed_at = 0;
  pages_processed = pos 0;
  pages_queued = pos 0;
  pages_unchanged = pos 0;
  pages_saved = pos 0;
  pages_failed = pos 0;
  pages_carried_forward = pos 0;
  failures = [];
  refused = "";
  error_message = "";
  incremental = incremental;
  ctx = live;
  progress = none;
}

-- `newJobLocked`
unfoldable pub new_job : Call → JobManager → String → Bool → JobManager × Job
unfolding fresh_job
new_job c m site incremental =
    let seq = (m.seq + 1) % 2 ^ 64 in
    let job = fresh_job c seq site incremental in
    (
      record m { seq = seq; jobs = insert c.uuid job m.jobs; bysite = insert site c.uuid m.bysite },
      job,
    )

unfoldable pub create_or : Option Job → JobManager × Job → JobManager → JobManager × Job
create_or (some j) made m = (m, j)
create_or none made m = made

-- The locked part of `CreateJob`.
unfoldable pub create_job : Call → JobManager → String → Bool → JobManager × Job
unfolding create_or
create_job c m site incremental = create_or (active_job m site) (new_job c m site incremental) m

-- `GetJob`
unfoldable pub get_job : Counters → JobManager → String → Option Job
get_job read m id = elim (lookup id m.jobs) [ none ↦ none | some j ↦ some (view read j) ]

-- `GetJobBySite`
unfoldable pub get_job_by_site : Counters → JobManager → String → Option Job
unfolding job_of
get_job_by_site read m site = elim (job_of m.jobs (lookup site m.bysite)) [
  | none ↦ none
  | some j ↦ some (view read j)
]

unfoldable pub is_some {ℓ} : {A : Type ℓ} → Option A → Bool
is_some none = false
is_some (some a) = true

-- `IsRunning`
unfoldable pub is_running : JobManager → String → Bool
unfolding is_some
is_running m site = is_some (active_job m site)

unfoldable pub names : Option String → String → Bool
names none id = false
names (some k) id = str_eq k id

-- `releaseSiteLocked`
unfoldable pub release_site : List (String × String) → Job → List (String × String)
unfolding names
release_site bysite j =
    if names (lookup j.site_key bysite) j.id then delete j.site_key bysite else bysite

-- The job after a status change: a finished one gets its time, and a text replaces the message.
unfoldable pub with_status : Call → JobStatus → String → Job → Job
with_status c status msg j = record j {
  status = status;
  completed_at = if is_terminal_status status then c.now else j.completed_at;
  error_message = if str_eq msg "" then j.error_message else msg;
}

-- The locked part of `UpdateStatus`, for the job that was found.
unfoldable pub set_status : Call → JobManager → String → JobStatus → String → Job → JobManager
unfolding with_status release_site
set_status c m id status msg j =
    let stored = insert id (with_status c status msg j) m.jobs in
    if is_terminal_status status
    then prune_terminal (record m { jobs = stored; bysite = release_site m.bysite j })
    else record m { jobs = stored }

unfoldable pub update_status : Call → JobManager → String → JobStatus → String → JobManager
unfolding set_status
update_status c m id status msg = elim (lookup id m.jobs) [
  | none ↦ m
  | some j ↦ set_status c m id status msg j
]

-- `AttachProgress`
unfoldable pub attach_progress : JobManager → String → ℕ → JobManager
attach_progress m id source = elim (lookup id m.jobs) [
  | none ↦ m
  | some j ↦ record m { jobs = insert id (record j { progress = some source }) m.jobs }
]

unfoldable pub detach : Counters → JobManager → String → Job → Option ℕ → JobManager
detach read m id j none = m
detach read m id j (some source) = record m {
  jobs = insert id (record (apply_progress j (read source)) { progress = none }) m.jobs;
  dirty = true;
}

-- `DetachProgress`
unfoldable pub detach_progress : Counters → JobManager → String → JobManager
unfolding detach apply_progress
detach_progress read m id = elim (lookup id m.jobs) [
  | none ↦ m
  | some j ↦ detach read m id j j.progress
]

-- `SetRefused`
unfoldable pub set_refused : JobManager → String → String → JobManager
set_refused m id reason = elim (lookup id m.jobs) [
  | none ↦ m
  | some j ↦ record m { jobs = insert id (record j { refused = reason }) m.jobs; dirty = true }
]

-- `UpdateProgress`
unfoldable pub update_progress : JobManager → String → ℤ → ℤ → JobManager
update_progress m id processed queued = elim (lookup id m.jobs) [
  | none ↦ m
  | some j ↦ record m {
    jobs = insert id (record j { pages_processed = processed; pages_queued = queued }) m.jobs;
    dirty = true;
  }
]

unfoldable pub as_cancelled : Call → Job → Job
as_cancelled c j = record j { ctx = dead; status = cancelled; completed_at = c.now }

-- The locked part of `CancelJob`, for the job that was found.
unfoldable pub cancel_found : Call → JobManager → String → Job → JobManager × Bool
unfolding as_cancelled release_site
cancel_found c m id j =
    if is_active_status j.status
    then (
      prune_terminal (record m {
        jobs = insert id (as_cancelled c j) m.jobs;
        bysite = release_site m.bysite j;
      }),
      true,
    )
    else (m, false)

unfoldable pub cancel_job : Call → JobManager → String → JobManager × Bool
unfolding cancel_found
cancel_job c m id = elim (lookup id m.jobs) [ none ↦ (m, false) | some j ↦ cancel_found c m id j ]

unfoldable pub shut_down : Call → Job → Job
unfolding as_cancelled
shut_down c j =
    if is_active_status j.status
    then record (as_cancelled c j) { error_message = shutdown_cancelled_msg }
    else j

-- The loop of `CancelAll`.
unfoldable pub shut_down_all : Call → List (String × Job) → List (String × Job)
unfolding shut_down
shut_down_all c [] = []
shut_down_all c ((id, j) ∷ jobs) = (id, shut_down c j) ∷ shut_down_all c jobs

-- The locked part of `CancelAll`.
unfoldable pub cancel_all : Call → JobManager → JobManager
unfolding shut_down_all
cancel_all c m = prune_terminal (record m { jobs = shut_down_all c m.jobs; bysite = [] })

-- `ListJobs`
unfoldable pub list_jobs : Counters → JobManager → List Job
list_jobs read m = snapshot read m

-- `GetContext`; an unknown job has the background context, which is never cancelled.
unfoldable pub get_context : JobManager → String → Context
get_context m id = elim (lookup id m.jobs) [ none ↦ live | some j ↦ j.ctx ]
