-- ===== src/Jobs/Revival.antt =====
-- A cancellation that comes before the crawl's goroutine reports that it runs: `runCrawlJob` in
-- pkg/mcp/handlers.go sets the status to running without a look at the job.
use Prim.Native.String.{String}
use text.Mathlib.TextEquality.{eq_iff}
use doc_scraper.Prelude.{◌≡◌, true, false, none, some, arith}
use doc_scraper.Prelude.Assoc.{lookup, lookup-insert}
use doc_scraper.Jobs.Types.{running, Job, JobManager, is_terminal_status}
use doc_scraper.Jobs.Manager.{Call, active_job, is_running, update_status}

-- A job that has ended, on a site that names no job, is made running by a status change, and yet
-- the manager says that nothing runs for the site: its bookkeeping no longer knows the job.
pub update_status_revives :
    (c : Call) (m : JobManager) (id : String) (j : Job)
    → lookup id m.jobs ≡ some j
    → is_terminal_status j.status ≡ true
    → lookup j.site_key m.bysite ≡ none
    → let n = update_status c m id running "" in
      (lookup id n.jobs ≡ some (record j { status = running })) × (is_running n j.site_key ≡ false)
unfolding update_status is_running active_job is_terminal_status
update_status_revives c m id j f t b =
    ground (arith, f, b, lookup-insert id id (record j { status = running }) m.jobs, eq_iff id id)
