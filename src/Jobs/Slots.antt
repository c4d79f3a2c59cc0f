-- ===== src/Jobs/Slots.antt =====
-- The crawl slot of a site: StartJob, ReserveSite, FinishJob and WaitIdle. A wait on a channel ends
-- a round; what other goroutines do meanwhile is a function on the manager's state.
use Prim.Native.String.{String}
use doc_scraper.Prelude.{
  ℕ, ◌+◌, Bool, true, false, List, [], ◌∷◌, Option, none, some, if◌then◌else◌,
}
use doc_scraper.Prelude.Assoc.{lookup, insert, delete}
use doc_scraper.Jobs.Types.{Job, JobManager, SiteWorker, Counters}
use doc_scraper.Jobs.Table.{view}
use doc_scraper.Jobs.Manager.{Call, active_job, new_job, names}

-- How one round of `StartJob` under the lock ends.
pub data Attempt : Type 0 where
  found : Job → Attempt
  created : Job → Attempt
  busy : SiteWorker → Attempt

-- The slot that a new job takes.
unfoldable pub take_slot : String → JobManager × Job → JobManager × Attempt
take_slot site (m, j) = (
  record m {
    workers = insert site (record { job = some j.id; done = m.next_channel }) m.workers;
    next_channel = m.next_channel + 1;
  },
  created j,
)

-- The locked part of `StartJob`'s loop.
unfoldable pub try_start : Call → Counters → JobManager → String → Bool → JobManager × Attempt
unfolding take_slot
try_start c read m site incremental = elim (active_job m site) [
  | some j ↦ (m, found (view read j))
  | none ↦ elim (lookup site m.workers) [
    | none ↦ take_slot site (new_job c m site incremental)
    | some w ↦ (m, busy w)
  ]
]

-- What ends a wait in `StartJob`: the slot's channel, the timer, or the caller's context.
pub data Wake : Type 0 where
  slot_freed timed_out context_ended : Wake

-- `existing` is a job returned with `created` false, `waiting` a call that still waits.
pub data StartResult : Type 0 where
  started : Job → StartResult
  existing : Option Job → StartResult
  site_reserved context_error waiting : StartResult

unfoldable pub or_else {ℓ} : {A : Type ℓ} → Option A → Option A → Option A
or_else none b = b
or_else (some a) b = some a

-- The object that a worker's job pointer names.
unfoldable pub worker_job : JobManager → String → Option Job
unfolding or_else
worker_job m id = or_else (lookup id m.jobs) (lookup id m.retired)

unfoldable pub existing_view : Counters → Option Job → StartResult
existing_view read none = existing none
existing_view read (some j) = existing (some (view read j))

unfoldable pub timeout_result : Counters → JobManager → Option String → StartResult
unfolding existing_view worker_job
timeout_result read m none = site_reserved
timeout_result read m (some id) = existing_view read (worker_job m id)

-- The `select` of `StartJob`; `none` goes round the loop again.
unfoldable pub woken : Counters → JobManager → SiteWorker → Wake → Option StartResult
unfolding timeout_result
woken read m w slot_freed = none
woken read m w timed_out = some (timeout_result read m w.job)
woken read m w context_ended = some context_error

-- One wait: what the others do, what ends it, and what the next round meets.
pub record Round : Type 0 where
  pub others : JobManager → JobManager
  pub wake : Wake
  pub call : Call
  pub read : Counters

-- `StartJob`, over the waits that it comes to.
unfoldable pub start_job :
    List Round → Call → Counters → JobManager → String → Bool → JobManager × StartResult
start_job [] c read m site incremental =
    let (m', a) = try_start c read m site incremental in
    elim a [
      | found j ↦ (m', existing (some j))
      | created j ↦ (m', started j)
      | busy w ↦ (m', waiting)
    ]
start_job (r ∷ rs) c read m site incremental =
    let (m', a) = try_start c read m site incremental in
    elim a [
      | found j ↦ (m', existing (some j))
      | created j ↦ (m', started j)
      | busy w ↦
          let after = r.others m' in
          elim (woken r.read after w r.wake) [
            | some result ↦ (after, result)
            | none ↦ start_job rs r.call r.read after site incremental
          ]
    ]

pub data ReserveResult : Type 0 where
  reserved : ℕ → ReserveResult
  being_saved crawl_running : ReserveResult

unfoldable pub refusal : Option String → ReserveResult
refusal none = being_saved
refusal (some id) = crawl_running

-- `ReserveSite`; the number is the channel that its release closes.
unfoldable pub reserve_site : JobManager → String → JobManager × ReserveResult
unfolding refusal
reserve_site m site = elim (lookup site m.workers) [
  | some w ↦ (m, refusal w.job)
  | none ↦ (
    record m {
      workers = insert site (record { job = none; done = m.next_channel }) m.workers;
      next_channel = m.next_channel + 1;
    },
    reserved m.next_channel,
  )
]

-- The function that `ReserveSite` returns; the Bool says whether it ran before.
unfoldable pub release_reservation : JobManager → String → ℕ → Bool → JobManager × Bool
release_reservation m site channel true = (m, true)
release_reservation m site channel false =
    (record m { workers = delete site m.workers; closed = channel ∷ m.closed }, true)

-- The loop of `FinishJob`: the first slot that the job holds.
unfoldable pub find_worker : String → List (String × SiteWorker) → Option (String × SiteWorker)
unfolding names
find_worker id [] = none
find_worker id ((site, w) ∷ ws) = if names w.job id then some (site, w) else find_worker id ws

unfoldable pub free_slot : JobManager → Option (String × SiteWorker) → JobManager
free_slot m none = m
free_slot m (some (site, w)) = record m {
  workers = delete site m.workers;
  closed = w.done ∷ m.closed;
}

-- `FinishJob`
unfoldable pub finish_job : JobManager → String → JobManager
unfolding free_slot
finish_job m id = free_slot m (find_worker id m.workers)

pub data IdleResult : Type 0 where
  idle idle_context_error still_waiting : IdleResult

-- One wait of `WaitIdle`: what the others do, and whether the context ended it.
pub record IdleRound : Type 0 where
  pub others : JobManager → JobManager
  pub context_ended : Bool

-- `WaitIdle`
unfoldable pub wait_idle : List IdleRound → JobManager → JobManager × IdleResult
wait_idle [] m = elim m.workers [ [] ↦ (m, idle) | e ∷ es ↦ (m, still_waiting) ]
wait_idle (r ∷ rs) m = elim m.workers [
  | [] ↦ (m, idle)
  | e ∷ es ↦
      let after = r.others m in
      elim r.context_ended [ true ↦ (after, idle_context_error) | false ↦ wait_idle rs after ]
]
