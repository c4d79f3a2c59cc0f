-- ===== src/Jobs/Prune/Order.antt =====
-- Which finished jobs pruning drops.
use Prim.Native.String.{String}
use doc_scraper.Prelude.{
  ℕ, ◌-◌, ◌≤◌, ◌≡◌, true, false, List, [], ◌∷◌, some, length, take, drop, arith, leb, Bool-cases,
  inl, inr, ap, subst, ◌∙◌, take-append-drop,
}
use doc_scraper.Prelude.Assoc.{lookup, lookup-All}
use doc_scraper.Prelude.Sort.{
  All, All-map, All-tt, All-append, Rises, Rises-split, sort_by, All-sort_by, sort_by-Rises,
}
use doc_scraper.Jobs.Types.{Job, JobManager, is_terminal_status, max_terminal_jobs}
use doc_scraper.Jobs.Table.{values, terminal, finished_before, excess, prune_terminal}
use doc_scraper.Jobs.Prune.{Keyed, spared, lookup-delete_jobs, spares}
use doc_scraper.Jobs.Prune.Bound.{named-All}

finished_before-le : (a b : Job) → finished_before a b ≡ true → a.completed_at ≤ b.completed_at
unfolding finished_before
finished_before-le a b h = ground (arith, h)

finished_before-ge : (a b : Job) → finished_before a b ≡ false → b.completed_at ≤ a.completed_at
unfolding finished_before
finished_before-ge a b h = ground (arith, h)

-- No job of the list finished after this one.
abbrev pub Outlasts : List Job → Job → Type 0
Outlasts ds j = All (λ d. d.completed_at ≤ j.completed_at) ds

spared-Outlasts :
    (n : ℕ) (js : List Job)
    → Rises (λ j. j.completed_at) js
    → All (λ j. spares (take n js) j ≡ true → Outlasts (take n js) j) js
spared-Outlasts n js r =
    subst (All (λ j. spares (take n js) j ≡ true → Outlasts (take n js) j)) (take-append-drop n js)
      (All-append (λ j. spares (take n js) j ≡ true → Outlasts (take n js) j) (take n js)
        (drop n js)
        (All-map (λ j. spares (take n js) j ≡ false)
          (λ j. spares (take n js) j ≡ true → Outlasts (take n js) j) (take n js)
          (λ j h k. absurd (cc (h, k))) (named-All (take n js)))
        (All-map (Outlasts (take n js)) (λ j. spares (take n js) j ≡ true → Outlasts (take n js) j)
          (drop n js) (λ j h _. h) (Rises-split (λ j. j.completed_at) n js r)))

excess_outlasted :
    (jobs : List (String × Job))
    → All (λ j. spares (excess jobs) j ≡ true → Outlasts (excess jobs) j) (terminal (values jobs))
unfolding excess
excess_outlasted jobs =
    let done = terminal (values jobs) in
    let n = length done - max_terminal_jobs in
    let ds = take n (sort_by finished_before done) in
    elim (Bool-cases (leb (length done) max_terminal_jobs)) [
      | inl e ↦ rw (e, excess) (All-map (λ j. Unit {0}) _ done (λ j _ _. tt) (All-tt done))
      | inr e ↦
          rw (e, excess)
            (All-sort_by finished_before (λ j. spares ds j ≡ true → Outlasts ds j) done
              (spared-Outlasts n (sort_by finished_before done) (
                sort_by-Rises finished_before (λ j. j.completed_at) finished_before-le
                  finished_before-ge done)))
    ]

terminal-entries :
    (P : Job → Type 0) (jobs : List (String × Job))
    → All P (terminal (values jobs))
    → All (λ (e : String × Job). is_terminal_status e.1.status ≡ true → P e.1) jobs
unfolding terminal
terminal-entries P [] h = tt
terminal-entries P ((k, j) ∷ jobs) h = elim (Bool-cases (is_terminal_status j.status)) [
  | inl e ↦
      let hs : P j × All P (terminal (values jobs)) = rw (e, terminal) at h in
      (λ _. hs.0, terminal-entries P jobs hs.1)
  | inr e ↦
      let hs : All P (terminal (values jobs)) = rw (e, terminal) at h in
      (λ t. absurd (cc (e, t)), terminal-entries P jobs hs)
]

-- Where every job stands under its own id, a finished job that pruning keeps did not finish before
-- any that it drops.
pub prune_terminal-oldest :
    (m : JobManager) (k : String) (j : Job)
    → Keyed m.jobs
    → lookup k (prune_terminal m).jobs ≡ some j
    → is_terminal_status j.status ≡ true
    → Outlasts (excess m.jobs) j
unfolding prune_terminal
prune_terminal-oldest m k j h f t =
    let ds = excess m.jobs in
    let kept : (spared ds k ≡ true) × (lookup k m.jobs ≡ some j) = (
      ground (arith, lookup-delete_jobs ds k m.jobs, f),
      ground (arith, lookup-delete_jobs ds k m.jobs, f),
    ) in
    let under : j.id ≡ k = lookup-All (λ (e : String × Job). e.1.id ≡ e.0) k j m.jobs h kept.1 in
    lookup-All
      (λ (e : String × Job).
        is_terminal_status e.1.status ≡ true → spares ds e.1 ≡ true → Outlasts ds e.1)
      k j m.jobs
      (terminal-entries (λ j. spares ds j ≡ true → Outlasts ds j) m.jobs (excess_outlasted m.jobs))
      kept.1 t (ap (spared ds) under ∙ kept.0)
