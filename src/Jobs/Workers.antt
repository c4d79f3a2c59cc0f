-- ===== src/Jobs/Workers.antt =====
-- The methods that leave the crawl slots as they are.
use Prim.Native.String.{String}
use doc_scraper.Prelude.{ℕ, ◌≡◌, refl, Bool, Option, none, some, arith, Option-cases, inl, inr}
use doc_scraper.Prelude.Assoc.{lookup}
use doc_scraper.Prelude.Int.{ℤ}
use doc_scraper.Jobs.Types.{JobStatus, Job, JobManager, Counters}
use doc_scraper.Jobs.Table.{prune_terminal}
use doc_scraper.Jobs.Manager.{
  Call, new_job, create_job, update_status, attach_progress, detach, detach_progress, set_refused,
  update_progress, cancel_job, cancel_all,
}
use doc_scraper.Jobs.Persist.{Io, flush}

-- The methods on jobs leave the slots alone, a cancellation too.
pub create_job-workers :
    (c : Call) (m : JobManager) (site : String) (incremental : Bool)
    → (create_job c m site incremental).0.workers ≡ m.workers
unfolding create_job new_job
create_job-workers c m site incremental = ground arith

pub update_status-workers :
    (c : Call) (m : JobManager) (id : String) (status : JobStatus) (msg : String)
    → (update_status c m id status msg).workers ≡ m.workers
unfolding update_status prune_terminal
update_status-workers c m id status msg = ground arith

pub cancel_job-workers :
    (c : Call) (m : JobManager) (id : String) → (cancel_job c m id).0.workers ≡ m.workers
unfolding cancel_job prune_terminal
cancel_job-workers c m id = ground arith

pub detach-workers :
    (read : Counters) (m : JobManager) (id : String) (j : Job) (o : Option ℕ)
    → (detach read m id j o).workers ≡ m.workers
unfolding detach
detach-workers read m id j none = refl
detach-workers read m id j (some source) = refl

pub detach_progress-workers :
    (m : JobManager) (id : String) (read : Counters)
    → (detach_progress read m id).workers ≡ m.workers
unfolding detach_progress
detach_progress-workers m id read = elim (Option-cases (lookup id m.jobs)) [
  | inl e ↦ rw (e, detach_progress)
  | inr (j, e) ↦ rw (e, detach_progress) (detach-workers read m id j j.progress)
]

pub attach_progress-workers :
    (m : JobManager) (id : String) (source : ℕ) → (attach_progress m id source).workers ≡ m.workers
unfolding attach_progress
attach_progress-workers m id source = ground arith

pub set_refused-workers :
    (m : JobManager) (id reason : String) → (set_refused m id reason).workers ≡ m.workers
unfolding set_refused
set_refused-workers m id reason = ground arith

pub update_progress-workers :
    (m : JobManager) (id : String) (processed queued : ℤ)
    → (update_progress m id processed queued).workers ≡ m.workers
unfolding update_progress
update_progress-workers m id processed queued = ground arith

pub cancel_all-workers : (c : Call) (m : JobManager) → (cancel_all c m).workers ≡ m.workers
unfolding cancel_all prune_terminal
cancel_all-workers c m = refl

pub flush-workers :
    (io : Io) (read : Counters) (m : JobManager) → (flush io read m).workers ≡ m.workers
unfolding flush
flush-workers io read m = ground arith
