-- ===== src/Jobs/Prune/Bound.antt =====
-- How many finished jobs are left after pruning.
use Prim.Native.String.{String}
use text.Mathlib.TextEquality.{eq_iff}
use text.Mathlib.TextPositions.{eq_refl}
use doc_scraper.Prelude.{
  ℕ, suc, ◌-◌, ◌≤◌, ◌≡◌, refl, false, List, [], ◌∷◌, length, take, drop, arith, leb, leb→le,
  Bool-cases, inl, inr, ap, sym, ◌∙◌, length-drop, take-append-drop,
}
use doc_scraper.Prelude.Assoc.{delete, delete-All}
use doc_scraper.Prelude.Sort.{
  All, All-map, sort_by, count_if, count_if-append, count_if-le-length, count_if_none,
  count_if-sort_by,
}
use doc_scraper.Jobs.Types.{Job, JobManager, max_terminal_jobs}
use doc_scraper.Jobs.Table.{values, terminal, finished_before, excess, delete_jobs, prune_terminal}
use doc_scraper.Jobs.Prune.{Keyed, spares}

terminal-delete :
    (d : Job) (ds : List Job) (jobs : List (String × Job))
    → Keyed jobs
    → count_if (spares ds) (terminal (values (delete d.id jobs)))
      ≡ count_if (spares (d ∷ ds)) (terminal (values jobs))
unfolding delete terminal
terminal-delete d ds [] h = refl
terminal-delete d ds ((k, j) ∷ jobs) h =
    ground (arith, h.0, eq_iff k d.id, eq_iff d.id j.id, terminal-delete d ds jobs h.1)

count_if-spares_nil : (js : List Job) → count_if (spares []) js ≡ length js
count_if-spares_nil [] = refl
count_if-spares_nil (j ∷ js) = ap suc (count_if-spares_nil js)

length-terminal-delete_jobs :
    (ds : List Job) (jobs : List (String × Job))
    → Keyed jobs
    → length (terminal (values (delete_jobs ds jobs)))
      ≡ count_if (spares ds) (terminal (values jobs))
unfolding delete_jobs
length-terminal-delete_jobs [] jobs h = sym (count_if-spares_nil (terminal (values jobs)))
length-terminal-delete_jobs (d ∷ ds) jobs h =
    length-terminal-delete_jobs ds (delete d.id jobs)
      (delete-All (λ (e : String × Job). e.1.id ≡ e.0) d.id jobs h)
    ∙ terminal-delete d ds jobs h

pub named-All : (ds : List Job) → All (λ j. spares ds j ≡ false) ds
named-All [] = tt
named-All (d ∷ ds) = (
  rw (eq_refl d.id),
  All-map (λ j. spares ds j ≡ false) (λ j. spares (d ∷ ds) j ≡ false) ds (λ j h. ground (arith, h))
      (named-All ds),
)

length-sort_by : (js : List Job) → length (sort_by finished_before js) ≡ length js
length-sort_by js =
    sym (count_if-spares_nil (sort_by finished_before js))
    ∙ count_if-sort_by finished_before (spares []) js
    ∙ count_if-spares_nil js

-- Of the jobs in order, those behind the first `n` are left once the first `n` are dropped.
count_if-spares-take : (n : ℕ) (js : List Job) → count_if (spares (take n js)) js ≤ length js - n
count_if-spares-take n js =
    let ds = take n js in
    omega (
      arith,
      ap (count_if (spares ds)) (take-append-drop n js),
      count_if-append (spares ds) ds (drop n js),
      count_if_none (spares ds) ds (named-All ds),
      count_if-le-length (spares ds) (drop n js),
      length-drop n js,
    )

-- Where every job stands under its own id, at most a hundred jobs are finished after pruning.
pub prune_terminal-bounded :
    (m : JobManager)
    → Keyed m.jobs
    → length (terminal (values (prune_terminal m).jobs)) ≤ max_terminal_jobs
unfolding prune_terminal excess
prune_terminal-bounded m h =
    let done = terminal (values m.jobs) in
    let left = length-terminal-delete_jobs (excess m.jobs) m.jobs h in
    elim (Bool-cases (leb (length done) max_terminal_jobs)) [
      | inl e ↦ rw (e, excess) (leb→le _ _ e)
      | inr e ↦
          rw (e, excess)
            (omega (
              arith,
              length-terminal-delete_jobs
                  (take (length done - max_terminal_jobs) (sort_by finished_before done)) m.jobs h,
              count_if-sort_by finished_before
                  (spares (take (length done - max_terminal_jobs) (sort_by finished_before done)))
                  done,
              count_if-spares-take (length done - max_terminal_jobs) (sort_by finished_before done),
              length-sort_by done,
            ))
    ]
