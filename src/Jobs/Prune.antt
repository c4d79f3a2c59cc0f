-- ===== src/Jobs/Prune.antt =====
-- Pruning the finished jobs: which jobs are left alone.
pub mod Bound
pub mod Order
use Prim.Native.String.{String}
use text.Mathlib.Text.{◌==◌ as str_eq}
use text.Mathlib.TextEquality.{eq_iff}
use text.Mathlib.TextPositions.{eq_refl}
use doc_scraper.Prelude.{
  ℕ, suc, ◌-◌, ◌≤◌, ◌≡◌, refl, Bool, true, false, List, [], ◌∷◌, none, some, length, take, drop,
  arith, leb, leb→le, if◌then◌else◌, Bool-cases, inl, inr, ap, subst, sym, ◌∙◌, length-drop,
  take-append-drop,
}
use doc_scraper.Prelude.Assoc.{
  lookup, delete, lookup-delete, UniqueKeys, delete-UniqueKeys, delete-All, lookup-All,
  entries_found,
}
use doc_scraper.Prelude.Sort.{
  All, All-map, All-tt, All-zip, All-take, All-append, Rises, Rises-split, sort_by, sort_by-All,
  All-sort_by, sort_by-Rises, count_if, count_if-append, count_if-le-length, count_if_none,
  count_if-sort_by,
}
use doc_scraper.Jobs.Types.{Job, JobManager, is_terminal_status, max_terminal_jobs}
use doc_scraper.Jobs.Table.{values, terminal, finished_before, excess, delete_jobs, prune_terminal}

-- Every job stands under its own id.
abbrev pub Keyed : List (String × Job) → Type 0
Keyed = All (λ (e : String × Job). e.1.id ≡ e.0)

-- No job of the list has this id.
abbrev pub spared : List Job → String → Bool
spared [] id = true
spared (d ∷ ds) id = if str_eq d.id id then false else spared ds id

pub lookup-delete_jobs :
    (ds : List Job) (k : String) (jobs : List (String × Job))
    → lookup k (delete_jobs ds jobs) ≡ (if spared ds k then lookup k jobs else none)
unfolding delete_jobs
lookup-delete_jobs [] k jobs = refl
lookup-delete_jobs (d ∷ ds) k jobs =
    ground (arith, lookup-delete_jobs ds k (delete d.id jobs), lookup-delete d.id k jobs)

pub delete_jobs-Keyed :
    (ds : List Job) (jobs : List (String × Job)) → Keyed jobs → Keyed (delete_jobs ds jobs)
unfolding delete_jobs
delete_jobs-Keyed [] jobs h = h
delete_jobs-Keyed (d ∷ ds) jobs h =
    delete_jobs-Keyed ds (delete d.id jobs)
      (delete-All (λ (e : String × Job). e.1.id ≡ e.0) d.id jobs h)

pub delete_jobs-UniqueKeys :
    (ds : List Job) (jobs : List (String × Job))
    → UniqueKeys jobs
    → UniqueKeys (delete_jobs ds jobs)
unfolding delete_jobs
delete_jobs-UniqueKeys [] jobs h = h
delete_jobs-UniqueKeys (d ∷ ds) jobs h =
    delete_jobs-UniqueKeys ds (delete d.id jobs) (delete-UniqueKeys d.id jobs h)

-- A property of every entry's job is one of the finished jobs, which are finished besides.
terminal-All :
    (P : Job → Type 0) (js : List Job)
    → All P js
    → All (λ j. P j × (is_terminal_status j.status ≡ true)) (terminal js)
unfolding terminal
terminal-All P [] h = tt
terminal-All P (j ∷ js) h = elim (Bool-cases (is_terminal_status j.status)) [
  | inl e ↦ rw (e, terminal) ((h.0, e), terminal-All P js h.1)
  | inr e ↦ rw (e, terminal) (terminal-All P js h.1)
]

values-All :
    (P : Job → Type 0) (jobs : List (String × Job))
    → All (λ (e : String × Job). P e.1) jobs
    → All P (values jobs)
values-All P [] h = tt
values-All P ((k, j) ∷ jobs) h = (h.0, values-All P jobs h.1)

-- A finished job of the table, found under its id.
abbrev pub IsFinishedIn : List (String × Job) → Job → Type 0
IsFinishedIn jobs j = (lookup j.id jobs ≡ some j) × (is_terminal_status j.status ≡ true)

found_values :
    (jobs : List (String × Job))
    → Keyed jobs
    → UniqueKeys jobs
    → All (λ j. lookup j.id jobs ≡ some j) (values jobs)
found_values jobs k u =
    values-All (λ j. lookup j.id jobs ≡ some j) jobs
      (All-map (λ (e : String × Job). (e.1.id ≡ e.0) × (lookup e.0 jobs ≡ some e.1))
        (λ (e : String × Job). lookup e.1.id jobs ≡ some e.1) jobs
        (λ e h. ap (λ (i : String). lookup i jobs) h.0 ∙ h.1)
        (All-zip (λ (e : String × Job). e.1.id ≡ e.0)
          (λ (e : String × Job). lookup e.0 jobs ≡ some e.1) jobs k (entries_found jobs u)))

-- What pruning drops is finished.
pub excess-All :
    (jobs : List (String × Job))
    → Keyed jobs
    → UniqueKeys jobs
    → All (IsFinishedIn jobs) (excess jobs)
unfolding excess
excess-All jobs k u =
    let all = terminal-All (λ j. lookup j.id jobs ≡ some j) (values jobs) (found_values jobs k u) in
    elim (Bool-cases (leb (length (terminal (values jobs))) max_terminal_jobs)) [
      | inl e ↦ rw (e, excess) tt
      | inr e ↦
          rw (e, excess)
            (All-take (IsFinishedIn jobs) _ (sort_by finished_before (terminal (values jobs)))
              (sort_by-All finished_before (IsFinishedIn jobs) (terminal (values jobs)) all))
    ]

spared_active :
    (ds : List Job) (jobs : List (String × Job)) (k : String) (j : Job)
    → All (IsFinishedIn jobs) ds
    → lookup k jobs ≡ some j
    → is_terminal_status j.status ≡ false
    → spared ds k ≡ true
spared_active [] jobs k j h f a = refl
spared_active (d ∷ ds) jobs k j h f a = elim (Bool-cases (str_eq d.id k)) [
  | inl e ↦ absurd (ground (arith, h.0, eq_iff d.id k, f, a))
  | inr e ↦ rw e (spared_active ds jobs k j h.1 f a)
]

-- In a table with one entry for an id, every job under its own, pruning keeps each job that is not
-- finished, as it is.
pub prune_terminal-unfinished :
    (m : JobManager) (k : String) (j : Job)
    → Keyed m.jobs
    → UniqueKeys m.jobs
    → lookup k m.jobs ≡ some j
    → is_terminal_status j.status ≡ false
    → lookup k (prune_terminal m).jobs ≡ some j
unfolding prune_terminal
prune_terminal-unfinished m k j h u f a =
    rw
      (
        lookup-delete_jobs (excess m.jobs) k m.jobs,
        spared_active (excess m.jobs) m.jobs k j (excess-All m.jobs h u) f a,
      )
      f

abbrev spares : List Job → Job → Bool
spares ds j = spared ds j.id
