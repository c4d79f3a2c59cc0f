-- ===== src/Jobs/Operations.antt =====
-- Every method of `JobManager` on jobs keeps each active job the owner of its site.
use Prim.Native.String.{String}
use text.Mathlib.Text.{◌==◌ as str_eq}
use text.Mathlib.TextEquality.{eq_iff}
use doc_scraper.Prelude.{
  ℕ, ◌≡◌, refl, Bool, true, false, Option, none, some, arith, Bool-cases, Option-cases, inl, inr,
}
use doc_scraper.Prelude.Int.{ℤ}
use doc_scraper.Prelude.Assoc.{
  lookup, insert, lookup-insert, insert-UniqueKeys, insert-All, lookup-All,
}
use doc_scraper.Jobs.Types.{
  JobStatus, cancelled, Job, JobManager, Counters, is_terminal_status, is_active_status,
}
use doc_scraper.Jobs.Table.{apply_progress}
use doc_scraper.Jobs.Manager.{
  Call, active_job, new_job, create_job, create_or, release_site, set_status, update_status,
  attach_progress, detach, detach_progress, set_refused, update_progress, cancel_job, cancel_found,
  as_cancelled,
}
use doc_scraper.Jobs.Ownership.{
  IsOwned, Inv, active_not_terminal, prune_terminal-Inv, insert-Inv, update-Inv, release-IsOwned,
}

ended_status : (s : JobStatus) → is_terminal_status s ≡ true → is_active_status s ≡ false
ended_status s h = elim (Bool-cases (is_active_status s)) [
  | inl e ↦ absurd (cc (active_not_terminal s e, h))
  | inr e ↦ e
]

new_job-IsOwned :
    (c : Call) (m : JobManager) (site : String) (j : Job)
    → Inv m
    → active_job m site ≡ none
    → j.site_key ≡ site
    → IsOwned (insert c.uuid j m.jobs) (insert site c.uuid m.bysite)
unfolding active_job
new_job-IsOwned c m site j v idle on k x f a = elim (Bool-cases (str_eq c.uuid k)) [
  | inl e ↦
      let same : x ≡ j = ground (arith, lookup-insert c.uuid k j m.jobs, f) in
      ground (
        arith,
        same,
        on,
        lookup-insert site x.site_key c.uuid m.bysite,
        eq_iff site x.site_key,
        eq_iff c.uuid k,
      )
  | inr e ↦
      let old : lookup k m.jobs ≡ some x = ground (arith, lookup-insert c.uuid k j m.jobs, f) in
      let owner : lookup x.site_key m.bysite ≡ some k = v.owned k x old a in
      ground (
        arith,
        old,
        owner,
        idle,
        a,
        lookup-insert site x.site_key c.uuid m.bysite,
        eq_iff site x.site_key,
      )
]

-- A new job takes over a site that has no active job.
pub new_job-Inv :
    (c : Call) (m : JobManager) (site : String) (incremental : Bool)
    → Inv m
    → active_job m site ≡ none
    → Inv (new_job c m site incremental).0
unfolding new_job
new_job-Inv c m site incremental v idle = record {
  keyed = insert-All (λ (x : String × Job). x.1.id ≡ x.0) c.uuid _ m.jobs refl v.keyed;
  unique = insert-UniqueKeys c.uuid _ m.jobs v.unique;
  owned = new_job-IsOwned c m site _ v idle refl;
}

pub create_job-Inv :
    (c : Call) (m : JobManager) (site : String) (incremental : Bool)
    → Inv m
    → Inv (create_job c m site incremental).0
unfolding create_job
create_job-Inv c m site incremental v = elim (Option-cases (active_job m site)) [
  | inl e ↦ rw (e, create_or) (new_job-Inv c m site incremental v e)
  | inr (j, e) ↦ rw (e, create_or) v
]

set_status-Inv :
    (c : Call) (m : JobManager) (id : String) (status : JobStatus) (msg : String) (j : Job)
    → Inv m
    → lookup id m.jobs ≡ some j
    → (is_active_status status ≡ true → is_active_status j.status ≡ true)
    → Inv (set_status c m id status msg j)
unfolding set_status
set_status-Inv c m id status msg j v found keeps =
    let under : j.id ≡ id =
      lookup-All (λ (x : String × Job). x.1.id ≡ x.0) id j m.jobs v.keyed found in
    elim (Bool-cases (is_terminal_status status)) [
      | inl e ↦
          rw (e, set_status)
            (prune_terminal-Inv _ (
              insert-Inv m id _ (release_site m.bysite j) v under
                (release-IsOwned m id j _ v found (ended_status status e))))
      | inr e ↦ rw (e, set_status) (update-Inv m id j _ v found refl refl keeps)
    ]

-- A status change keeps the ownership, unless it makes a job that has ended active again.
pub update_status-Inv :
    (c : Call) (m : JobManager) (id : String) (status : JobStatus) (msg : String)
    → Inv m
    → ((j : Job)
        → lookup id m.jobs ≡ some j
        → is_active_status status ≡ true
        → is_active_status j.status ≡ true)
    → Inv (update_status c m id status msg)
unfolding update_status
update_status-Inv c m id status msg v keeps = elim (Option-cases (lookup id m.jobs)) [
  | inl e ↦ rw (e, update_status) v
  | inr (j, e) ↦ rw (e, update_status) (set_status-Inv c m id status msg j v e (keeps j e))
]

pub cancelled_ended : is_active_status cancelled ≡ false
unfolding is_active_status
cancelled_ended = refl

cancel_found-Inv :
    (c : Call) (m : JobManager) (id : String) (j : Job)
    → Inv m
    → lookup id m.jobs ≡ some j
    → Inv (cancel_found c m id j).0
unfolding cancel_found
cancel_found-Inv c m id j v e = elim (Bool-cases (is_active_status j.status)) [
  | inl a ↦
      rw (a, cancel_found)
        (prune_terminal-Inv _ (
          insert-Inv m id (as_cancelled c j) (release_site m.bysite j) v
            (lookup-All (λ (x : String × Job). x.1.id ≡ x.0) id j m.jobs v.keyed e)
            (release-IsOwned m id j (as_cancelled c j) v e cancelled_ended)))
  | inr a ↦ rw (a, cancel_found) v
]

pub cancel_job-Inv : (c : Call) (m : JobManager) (id : String) → Inv m → Inv (cancel_job c m id).0
unfolding cancel_job
cancel_job-Inv c m id v = elim (Option-cases (lookup id m.jobs)) [
  | inl e ↦ rw (e, cancel_job) v
  | inr (j, e) ↦ rw (e, cancel_job) (cancel_found-Inv c m id j v e)
]

-- A change of a job's counters, progress source or refusal keeps the ownership.
pub attach_progress-Inv :
    (m : JobManager) (id : String) (source : ℕ) → Inv m → Inv (attach_progress m id source)
unfolding attach_progress
attach_progress-Inv m id source v = elim (Option-cases (lookup id m.jobs)) [
  | inl e ↦ rw (e, attach_progress) v
  | inr (j, e) ↦ rw (e, attach_progress) (update-Inv m id j _ v e refl refl (λ a. a))
]

mark_dirty-Inv : (m : JobManager) → Inv m → Inv (record m { dirty = true })
mark_dirty-Inv m v = record { keyed = v.keyed; unique = v.unique; owned = v.owned }

detach-Inv :
    (read : Counters) (m : JobManager) (id : String) (j : Job) (source : Option ℕ)
    → Inv m
    → lookup id m.jobs ≡ some j
    → Inv (detach read m id j source)
unfolding detach apply_progress
detach-Inv read m id j none v e = v
detach-Inv read m id j (some source) v e =
    mark_dirty-Inv _ (update-Inv m id j _ v e refl refl (λ a. a))

pub detach_progress-Inv :
    (read : Counters) (m : JobManager) (id : String) → Inv m → Inv (detach_progress read m id)
unfolding detach_progress
detach_progress-Inv read m id v = elim (Option-cases (lookup id m.jobs)) [
  | inl e ↦ rw (e, detach_progress) v
  | inr (j, e) ↦ rw (e, detach_progress) (detach-Inv read m id j j.progress v e)
]

pub set_refused-Inv : (m : JobManager) (id reason : String) → Inv m → Inv (set_refused m id reason)
unfolding set_refused
set_refused-Inv m id reason v = elim (Option-cases (lookup id m.jobs)) [
  | inl e ↦ rw (e, set_refused) v
  | inr (j, e) ↦ rw (e, set_refused) (mark_dirty-Inv _ (update-Inv m id j _ v e refl refl (λ a. a)))
]

pub update_progress-Inv :
    (m : JobManager) (id : String) (processed queued : ℤ)
    → Inv m
    → Inv (update_progress m id processed queued)
unfolding update_progress
update_progress-Inv m id processed queued v = elim (Option-cases (lookup id m.jobs)) [
  | inl e ↦ rw (e, update_progress) v
  | inr (j, e) ↦
      rw (e, update_progress) (mark_dirty-Inv _ (update-Inv m id j _ v e refl refl (λ a. a)))
]
