-- ===== src/Jobs/Table.antt =====
-- The job table: copies with live counters, the display order, and the pruning of finished jobs.
use Prim.Native.String.{String}
use doc_scraper.Prelude.{
  ℕ, ◌-◌, Bool, List, [], ◌∷◌, map, length, take, Option, none, some, ltb, leb, ◌==◌, if◌then◌else◌,
}
use doc_scraper.Prelude.Assoc.{insert, delete}
use doc_scraper.Prelude.Sort.{sort_by}
use doc_scraper.Crawler.Failures.{str_less}
use doc_scraper.Jobs.Types.{
  Job, JobManager, JobProgress, no_context, is_terminal_status, max_terminal_jobs, Counters,
}

-- `Job.applyProgress`
unfoldable pub apply_progress : Job → JobProgress → Job
apply_progress j p = record j {
  pages_processed = p.processed;
  pages_queued = p.queued;
  pages_unchanged = p.unchanged;
  pages_saved = p.saved;
  pages_failed = p.failed_pages;
  pages_carried_forward = p.carried_forward;
  failures = p.failures;
}

unfoldable pub with_progress : Counters → Option ℕ → Job → Job
with_progress read none j = j
with_progress read (some source) j = apply_progress j (read source)

-- `viewLocked`
unfoldable pub view : Counters → Job → Job
unfolding with_progress apply_progress
view read j = with_progress read j.progress (record j { ctx = no_context; progress = none })

abbrev pub values : List (String × Job) → List Job
values = map (λ (e : String × Job). e.1)

-- `snapshotLocked`, and the loop of `ListJobs`
unfoldable pub snapshot : Counters → JobManager → List Job
snapshot read m = map (view read) (values m.jobs)

-- The comparison of `sortJobsNewestFirst`.
unfoldable pub newer : Job → Job → Bool
newer a b =
    if a.started_at == b.started_at
    then (if a.seq == b.seq then str_less a.id b.id else ltb b.seq a.seq)
    else ltb b.started_at a.started_at

-- `sortJobsNewestFirst`
unfoldable pub sort_jobs_newest_first : List Job → List Job
sort_jobs_newest_first = sort_by newer

-- The comparison of `pruneTerminalLocked`: oldest first.
unfoldable pub finished_before : Job → Job → Bool
finished_before a b =
    if a.completed_at == b.completed_at
    then (if a.seq == b.seq then str_less a.id b.id else ltb a.seq b.seq)
    else ltb a.completed_at b.completed_at

-- The jobs that are finished, in the order of the map.
unfoldable pub terminal : List Job → List Job
terminal [] = []
terminal (j ∷ js) = if is_terminal_status j.status then j ∷ terminal js else terminal js

-- The jobs that pruning drops: the oldest of the finished ones, past the limit.
unfoldable pub excess : List (String × Job) → List Job
excess jobs =
    let done = terminal (values jobs) in
    if leb (length done) max_terminal_jobs
    then []
    else take (length done - max_terminal_jobs) (sort_by finished_before done)

unfoldable pub delete_jobs : List Job → List (String × Job) → List (String × Job)
delete_jobs [] jobs = jobs
delete_jobs (j ∷ js) jobs = delete_jobs js (delete j.id jobs)

-- A dropped job stays reachable from a worker that holds it.
unfoldable pub retire_jobs : List Job → List (String × Job) → List (String × Job)
retire_jobs [] old = old
retire_jobs (j ∷ js) old = retire_jobs js (insert j.id j old)

-- `pruneTerminalLocked`
unfoldable pub prune_terminal : JobManager → JobManager
unfolding excess delete_jobs retire_jobs
prune_terminal m = record m {
  jobs = delete_jobs (excess m.jobs) m.jobs;
  retired = retire_jobs (excess m.jobs) m.retired;
}
