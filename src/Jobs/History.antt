-- ===== src/Jobs/History.antt =====
-- Histories of the job manager: the calls in any order, from a manager that was just made.
use Prim.Native.String.{String}
use doc_scraper.Prelude.{
  ℕ, ◌≡◌, refl, Bool, true, false, some, arith, Bool-cases, Option-cases, inl, inr,
}
use doc_scraper.Prelude.Int.{ℤ}
use doc_scraper.Prelude.Assoc.{lookup}
use doc_scraper.Jobs.Types.{JobStatus, Job, JobManager, Counters, is_active_status}
use doc_scraper.Jobs.Manager.{
  Call, active_job, create_job, update_status, attach_progress, detach_progress, set_refused,
  update_progress, cancel_job, cancel_all,
}
use doc_scraper.Jobs.Slots.{try_start, reserve_site, release_reservation, finish_job}
use doc_scraper.Jobs.Persist.{Io, flush}
use doc_scraper.Jobs.Ownership.{Inv}
use doc_scraper.Jobs.Shutdown.{cancel_all-Inv}
use doc_scraper.Jobs.Operations.{
  new_job-Inv, create_job-Inv, update_status-Inv, attach_progress-Inv, detach_progress-Inv,
  set_refused-Inv, update_progress-Inv, cancel_job-Inv,
}

-- A call of the manager. A start is one round of StartJob's loop.
pub data Op : Type 0 where
  creates : Call → String → Bool → Op
  starts : Call → Counters → String → Bool → Op
  reserves : String → Op
  releases : String → ℕ → Bool → Op
  finishes : String → Op
  statuses : Call → String → JobStatus → String → Op
  attaches : String → ℕ → Op
  detaches : Counters → String → Op
  refuses : String → String → Op
  progresses : String → ℤ → ℤ → Op
  cancels : Call → String → Op
  cancels_all : Call → Op
  flushes : Io → Counters → Op

unfoldable pub step : JobManager → Op → JobManager
step m (creates c site incremental) = (create_job c m site incremental).0
step m (starts c read site incremental) = (try_start c read m site incremental).0
step m (reserves site) = (reserve_site m site).0
step m (releases site channel before) = (release_reservation m site channel before).0
step m (finishes id) = finish_job m id
step m (statuses c id status msg) = update_status c m id status msg
step m (attaches id source) = attach_progress m id source
step m (detaches read id) = detach_progress read m id
step m (refuses id reason) = set_refused m id reason
step m (progresses id processed queued) = update_progress m id processed queued
step m (cancels c id) = (cancel_job c m id).0
step m (cancels_all c) = cancel_all c m
step m (flushes io read) = flush io read m

-- A status change that does not make a job active again once it has ended; any other call.
abbrev pub Revives : JobManager → Op → Type 0
Revives m (statuses c id status msg) =
    (j : Job) × (lookup id m.jobs ≡ some j)
    × (is_active_status status ≡ true)
    × (is_active_status j.status ≡ false)
Revives m op = ⊥

try_start-Inv :
    (c : Call) (read : Counters) (m : JobManager) (site : String) (incremental : Bool)
    → Inv m
    → Inv (try_start c read m site incremental).0
unfolding try_start
try_start-Inv c read m site incremental v = elim (Option-cases (active_job m site)) [
  | inr (j, e) ↦ rw (e, try_start) v
  | inl e ↦ elim (Option-cases (lookup site m.workers)) [
    | inr (w, f) ↦ rw (e, f, try_start) v
    | inl f ↦
        let made = new_job-Inv c m site incremental v e in
        rw (e, f, try_start)
          (record { keyed = made.keyed; unique = made.unique; owned = made.owned })
  ]
]

same_jobs-Inv : (m n : JobManager) → n.jobs ≡ m.jobs → n.bysite ≡ m.bysite → Inv m → Inv n
same_jobs-Inv m n e f v = record {
  keyed = rw e v.keyed;
  unique = rw e v.unique;
  owned = λ k j found a. rw f (v.owned k j (rw e at found) a);
}

reserve_site-Inv : (m : JobManager) (site : String) → Inv m → Inv (reserve_site m site).0
unfolding reserve_site
reserve_site-Inv m site v = same_jobs-Inv m _ (ground arith) (ground arith) v

finish_job-Inv : (m : JobManager) (id : String) → Inv m → Inv (finish_job m id)
unfolding finish_job
finish_job-Inv m id v = same_jobs-Inv m _ (ground arith) (ground arith) v

flush-Inv : (io : Io) (read : Counters) (m : JobManager) → Inv m → Inv (flush io read m)
unfolding flush
flush-Inv io read m v = same_jobs-Inv m _ (ground arith) (ground arith) v

release-Inv :
    (m : JobManager) (site : String) (channel : ℕ) (before : Bool)
    → Inv m
    → Inv (release_reservation m site channel before).0
unfolding release_reservation
release-Inv m site channel true v = v
release-Inv m site channel false v = same_jobs-Inv m _ refl refl v

-- Where each active job is the one that its site names, it is so after every call that does not
-- make an ended job active again.
pub step-Inv : (m : JobManager) (op : Op) → ¬ Revives m op → Inv m → Inv (step m op)
unfolding step
step-Inv m (creates c site incremental) h v = create_job-Inv c m site incremental v
step-Inv m (starts c read site incremental) h v = try_start-Inv c read m site incremental v
step-Inv m (reserves site) h v = reserve_site-Inv m site v
step-Inv m (releases site channel before) h v = release-Inv m site channel before v
step-Inv m (finishes id) h v = finish_job-Inv m id v
step-Inv m (statuses c id status msg) h v = update_status-Inv c m id status msg v λ j f a.
    elim (Bool-cases (is_active_status j.status)) [ inl e ↦ e | inr e ↦ absurd (h (j, f, a, e)) ]
step-Inv m (attaches id source) h v = attach_progress-Inv m id source v
step-Inv m (detaches read id) h v = detach_progress-Inv read m id v
step-Inv m (refuses id reason) h v = set_refused-Inv m id reason v
step-Inv m (progresses id processed queued) h v = update_progress-Inv m id processed queued v
step-Inv m (cancels c id) h v = cancel_job-Inv c m id v
step-Inv m (cancels_all c) h v = cancel_all-Inv c m v
step-Inv m (flushes io read) h v = flush-Inv io read m v

-- The states that calls reach, none of them a revival.
pub data Reach (m : JobManager) : JobManager → Type 0 where
  here : Reach m m
  next : {n : JobManager} → Reach m n → (op : Op) → ¬ Revives n op → Reach m (step n op)

pub Reach-Inv : {m n : JobManager} → Inv m → Reach m n → Inv n
Reach-Inv v here = v
Reach-Inv v (next {n} r op h) = step-Inv n op h (Reach-Inv v r)
