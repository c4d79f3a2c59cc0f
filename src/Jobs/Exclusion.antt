-- ===== src/Jobs/Exclusion.antt =====
-- A site's crawl slot: who holds it keeps it until FinishJob, or the release of the reservation.
use Prim.Native.String.{String}
use text.Mathlib.TextEquality.{eq_iff}
use doc_scraper.Prelude.{
  ℕ, ◌≡◌, ◌⊎◌, refl, Bool, true, false, List, [], ◌∷◌, Option, none, some, arith, Bool-cases,
  Option-cases, inl, inr,
}
use doc_scraper.Prelude.Assoc.{
  lookup, insert, lookup-insert, lookup-delete, UniqueKeys, insert-UniqueKeys, delete-UniqueKeys,
}
use doc_scraper.Jobs.Types.{Job, JobManager, SiteWorker, Counters}
use doc_scraper.Jobs.Table.{view}
use doc_scraper.Jobs.Manager.{Call, active_job, new_job, names}
use doc_scraper.Jobs.Slots.{
  busy, found, try_start, reserve_site, refusal, release_reservation, find_worker, free_slot,
  finish_job,
}
use doc_scraper.Jobs.History.{
  Op, creates, starts, reserves, releases, finishes, statuses, attaches, detaches, refuses,
  progresses, cancels, cancels_all, flushes, step,
}
use doc_scraper.Jobs.Workers.{
  create_job-workers, update_status-workers, cancel_job-workers, detach_progress-workers,
  attach_progress-workers, set_refused-workers, update_progress-workers, cancel_all-workers,
  flush-workers,
}

-- The calls that end the hold of `w` on a site: FinishJob for its job, and the first release of a
-- reservation of the site.
abbrev pub Frees : String → SiteWorker → Op → Type 0
Frees site w (finishes id) = names w.job id ≡ true
Frees site w (releases s channel false) = s ≡ site
Frees site w op = ⊥

abbrev pub Holds : String → SiteWorker → JobManager → Type 0
Holds site w m = UniqueKeys m.workers × (lookup site m.workers ≡ some w)

same_workers :
    (site : String) (w : SiteWorker) (m : JobManager) {ws : List (String × SiteWorker)}
    → ws ≡ m.workers
    → Holds site w m
    → UniqueKeys ws × (lookup site ws ≡ some w)
same_workers site w m e h = (rw e h.0, rw e h.1)

find_worker-found :
    (id : String) (ws : List (String × SiteWorker)) (s : String) (w : SiteWorker)
    → UniqueKeys ws
    → find_worker id ws ≡ some (s, w)
    → (lookup s ws ≡ some w) × (names w.job id ≡ true)
unfolding find_worker lookup
find_worker-found id [] s w u f = absurd (cc f)
find_worker-found id ((t, x) ∷ ws) s w u f = elim (Bool-cases (names x.job id)) [
  | inl e ↦ (ground (arith, f, eq_iff t s), ground (arith, f))
  | inr e ↦
      let rest = find_worker-found id ws s w u.1 (ground (arith, f)) in
      (ground (arith, rest.0, u.0, eq_iff t s), rest.1)
]

free_slot-Holds :
    (site : String) (w : SiteWorker) (m : JobManager) (id : String)
    (o : Option (String × SiteWorker))
    → find_worker id m.workers ≡ o
    → Holds site w m
    → names w.job id ≡ false
    → Holds site w (free_slot m o)
unfolding free_slot
free_slot-Holds site w m id none f h n = h
free_slot-Holds site w m id (some (s, x)) f h n =
    let hit = find_worker-found id m.workers s x h.0 f in
    (
      delete-UniqueKeys s m.workers h.0,
      ground (arith, hit.0, hit.1, h.1, n, lookup-delete s site m.workers, eq_iff s site),
    )

finish_job-Holds :
    (site : String) (w : SiteWorker) (m : JobManager) (id : String)
    → Holds site w m
    → names w.job id ≡ false
    → Holds site w (finish_job m id)
unfolding finish_job
finish_job-Holds site w m id h n = free_slot-Holds site w m id (find_worker id m.workers) refl h n

release-Holds :
    (site : String) (w : SiteWorker) (m : JobManager) (s : String) (channel : ℕ) (before : Bool)
    → Holds site w m
    → ¬ Frees site w (releases s channel before)
    → Holds site w (release_reservation m s channel before).0
unfolding release_reservation
release-Holds site w m s channel true h n = h
release-Holds site w m s channel false h n = (
  delete-UniqueKeys s m.workers h.0,
  ground (arith, h.1, n, lookup-delete s site m.workers, eq_iff s site),
)

-- A held slot is not given away, and nothing changes: a start finds the site's active job or waits
-- for the slot, and a config save is refused.
pub try_start-Holds :
    (site : String) (w : SiteWorker) (m : JobManager) (c : Call) (read : Counters)
    (incremental : Bool)
    → lookup site m.workers ≡ some w
    → ((try_start c read m site incremental ≡ (m, busy w))
        ⊎ ((j : Job) × (try_start c read m site incremental ≡ (m, found j))))
      × (reserve_site m site ≡ (m, refusal w.job))
unfolding try_start reserve_site
try_start-Holds site w m c read incremental h = (
  (elim (Option-cases (active_job m site)) [
    | inl e ↦ inl (rw (e, h, try_start) refl)
    | inr (j, e) ↦ inr (view read j, rw (e, try_start) refl)
  ]),
  rw (h, reserve_site) refl,
)

insert_slot-Holds :
    (site s : String) (w x : SiteWorker) (m : JobManager)
    → Holds site w m
    → lookup s m.workers ≡ none
    → UniqueKeys (insert s x m.workers) × (lookup site (insert s x m.workers) ≡ some w)
insert_slot-Holds site s w x m h f = (
  insert-UniqueKeys s x m.workers h.0,
  ground (arith, h.1, f, lookup-insert s site x m.workers, eq_iff s site),
)

start-Holds :
    (site : String) (w : SiteWorker) (m : JobManager) (c : Call) (read : Counters) (s : String)
    (incremental : Bool)
    → Holds site w m
    → Holds site w (try_start c read m s incremental).0
unfolding try_start
start-Holds site w m c read s incremental h = elim (Option-cases (active_job m s)) [
  | inr (j, e) ↦ rw (e, try_start) h
  | inl e ↦ elim (Option-cases (lookup s m.workers)) [
    | inr (x, f) ↦ rw (e, f, try_start) h
    | inl f ↦ rw (e, f, try_start) (unfold new_job in insert_slot-Holds site s w _ m h f)
  ]
]

reserve-Holds :
    (site : String) (w : SiteWorker) (m : JobManager) (s : String)
    → Holds site w m
    → Holds site w (reserve_site m s).0
unfolding reserve_site
reserve-Holds site w m s h = elim (Option-cases (lookup s m.workers)) [
  | inr (x, f) ↦ rw (f, reserve_site) h
  | inl f ↦ rw (f, reserve_site) (insert_slot-Holds site s w _ m h f)
]

-- With one slot for a site at most, any call but two leaves a slot with its holder: FinishJob for
-- the holder's job, and a first release of the site's reservation.
pub step-Holds :
    (site : String) (w : SiteWorker) (m : JobManager) (op : Op)
    → Holds site w m
    → ¬ Frees site w op
    → Holds site w (step m op)
unfolding step
step-Holds site w m (creates c s incremental) h n =
    same_workers site w m (create_job-workers c m s incremental) h
step-Holds site w m (starts c read s incremental) h n = start-Holds site w m c read s incremental h
step-Holds site w m (reserves s) h n = reserve-Holds site w m s h
step-Holds site w m (releases s channel before) h n = release-Holds site w m s channel before h n
step-Holds site w m (finishes id) h n = finish_job-Holds site w m id h (ground (arith, n))
step-Holds site w m (statuses c id status msg) h n =
    same_workers site w m (update_status-workers c m id status msg) h
step-Holds site w m (attaches id source) h n =
    same_workers site w m (attach_progress-workers m id source) h
step-Holds site w m (detaches read id) h n =
    same_workers site w m (detach_progress-workers m id read) h
step-Holds site w m (refuses id reason) h n =
    same_workers site w m (set_refused-workers m id reason) h
step-Holds site w m (progresses id processed queued) h n =
    same_workers site w m (update_progress-workers m id processed queued) h
step-Holds site w m (cancels c id) h n = same_workers site w m (cancel_job-workers c m id) h
step-Holds site w m (cancels_all c) h n = same_workers site w m (cancel_all-workers c m) h
step-Holds site w m (flushes io read) h n = same_workers site w m (flush-workers io read m) h
