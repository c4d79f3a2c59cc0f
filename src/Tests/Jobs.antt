-- ===== src/Tests/Jobs.antt =====
-- The job manager on examples.
use Prim.Native.String.{String, ◌++◌}
use doc_scraper.Prelude.{ℕ, zero, suc, List, ◌≡◌, refl, true, false, [], ◌∷◌, some}
use doc_scraper.Prelude.Int.{pos}
use doc_scraper.Prelude.Assoc.{lookup, insert, delete, UniqueKeys}
use doc_scraper.Prelude.Sort.{sort_by, insert_by}
use doc_scraper.Jobs.Types.{
  running, completed, Job, JobManager, SiteWorker, Counters, is_active_status, is_terminal_status,
}
use doc_scraper.Jobs.Table.{terminal, excess, finished_before, delete_jobs, prune_terminal}
use doc_scraper.Jobs.Manager.{
  Call, active_job, is_running, update_status, job_of, if_active, new_job, create_job, create_or,
  fresh_job, names,
}
use doc_scraper.Jobs.Persist.{unreadable, new_job_manager, empty_manager, load}
use doc_scraper.Jobs.Prune.{Keyed}
use doc_scraper.Jobs.Prune.Order.{Outlasts, prune_terminal-oldest}
use doc_scraper.Jobs.History.{finishes, creates, step, Reach, here, next}
use doc_scraper.Jobs.Exclusion.{Holds, step-Holds}
use doc_scraper.Jobs.Restart.{one_active_job}
use doc_scraper.Jobs.Revival.{update_status_revives}

abbrev call : Call
call = record { uuid = "j1"; now = 7 }

abbrev idle_counters : Counters
idle_counters n = record {
  processed = pos 0;
  queued = pos 0;
  unchanged = pos 0;
  saved = pos 0;
  failed_pages = pos 0;
  carried_forward = pos 0;
  failures = [];
}

abbrev made : Job
made = fresh_job call 1 "docs" false

abbrev done_job : Job
done_job = record made { id = "j0"; status = completed; completed_at = 3 }

abbrev table : JobManager
table = record (empty_manager "") {
  jobs = ("j0", done_job) ∷ ("j1", made) ∷ [];
  bysite = ("docs", "j1") ∷ [];
  workers = ("docs", record { job = some "j1"; done = 0 }) ∷ [];
}

table-Keyed : Keyed table.jobs
unfolding empty_manager fresh_job
table-Keyed = (refl, (refl, tt))

table-UniqueKeys : UniqueKeys table.jobs
unfolding empty_manager fresh_job lookup
table-UniqueKeys = (refl, (refl, tt))

made_found : lookup "j1" table.jobs ≡ some made
unfolding empty_manager lookup
made_found = refl

made_unfinished : is_terminal_status made.status ≡ false
unfolding fresh_job is_terminal_status
made_unfinished = refl

-- Finished jobs, each with an id of its own: the n-th finished at n.
unfoldable id_of : ℕ → String
id_of zero = "j"
id_of (suc n) = "i" ++ id_of n

abbrev finished : ℕ → Job
finished n = record made { id = id_of n; status = completed; completed_at = n }

unfoldable finished_jobs : ℕ → List (String × Job)
finished_jobs zero = []
finished_jobs (suc n) = (id_of n, finished n) ∷ finished_jobs n

finished_jobs-Keyed : (n : ℕ) → Keyed (finished_jobs n)
unfolding finished_jobs
finished_jobs-Keyed zero = tt
finished_jobs-Keyed (suc n) = (refl, finished_jobs-Keyed n)

-- One more than is kept.
abbrev full_table : JobManager
full_table = record (empty_manager "") { jobs = finished_jobs 101 }

oldest_dropped : excess full_table.jobs ≡ finished 0 ∷ []
unfolding excess terminal is_terminal_status finished_jobs id_of fresh_job sort_by insert_by
    finished_before empty_manager
oldest_dropped = refl

newest_kept : lookup (id_of 100) (prune_terminal full_table).jobs ≡ some (finished 100)
unfolding prune_terminal excess terminal is_terminal_status finished_jobs id_of fresh_job sort_by
    insert_by finished_before empty_manager lookup delete delete_jobs
newest_kept = refl

done_ended : is_terminal_status done_job.status ≡ true
unfolding is_terminal_status
done_ended = refl

newest_ended : is_terminal_status (finished 100).status ≡ true
unfolding is_terminal_status
newest_ended = refl

prune_terminal-oldest_example : Outlasts (excess full_table.jobs) (finished 100)
unfolding empty_manager
prune_terminal-oldest_example =
    prune_terminal-oldest full_table (id_of 100) (finished 100) (finished_jobs-Keyed 101)
      newest_kept newest_ended

abbrev fresh : JobManager
fresh = new_job_manager 0 unreadable "f"

abbrev after : JobManager
after = step fresh (creates call "docs" false)

reached : Reach fresh after
reached = next here (creates call "docs" false) (λ h. h)

after_found : lookup "j1" after.jobs ≡ some made
unfolding step create_job create_or new_job new_job_manager empty_manager load active_job job_of
    if_active lookup insert
after_found = refl

made_active : is_active_status made.status ≡ true
unfolding fresh_job is_active_status
made_active = refl

abbrev first_id : String
first_id = "j1"

one_active_job_example : first_id ≡ first_id
one_active_job_example =
    one_active_job 0 unreadable "f" after reached "j1" "j1" made made after_found after_found
      made_active made_active refl

abbrev held_slot : SiteWorker
held_slot = record { job = some "j1"; done = 0 }

slot_held : lookup "docs" table.workers ≡ some held_slot
unfolding empty_manager lookup
slot_held = refl

held_slot-Holds : Holds "docs" held_slot table
unfolding empty_manager lookup
held_slot-Holds = ((refl, tt), refl)

step-Holds_example : Holds "docs" held_slot (step table (finishes "j2"))
unfolding names
step-Holds_example = step-Holds "docs" held_slot table (finishes "j2") held_slot-Holds (λ e. cc e)

abbrev released : JobManager
released = record table { bysite = [] }

update_status_revives_example :
    let n = update_status call released "j0" running "" in
    (lookup "j0" n.jobs ≡ some (record done_job { status = running }))
    × (is_running n "docs" ≡ false)
unfolding lookup fresh_job
update_status_revives_example =
    update_status_revives call released "j0" done_job refl done_ended refl
