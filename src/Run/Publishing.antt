-- ===== src/Run/Publishing.antt =====
-- What finish of pkg/crawler/crawler.go does to the live corpus.
use doc_scraper.Prelude.{
  Bool, true, false, Option, none, some, ◌≡◌, ◌≢◌, refl, if◌then◌else◌, Bool-cases, Option-cases,
  inl, inr, ◌⊎◌, ◌∙◌,
}
use doc_scraper.PageTask.State.{Crawl}
use doc_scraper.Stage.Files.{Part, output, database, staging, Disk, SysWorld, dirs_of, path_exists}
use doc_scraper.Stage.Swap.{
  CommitEnd, committed, clearing, moving_aside, promoting, CommitResult, commit,
}
use doc_scraper.Stage.Outcomes.{commit-committed, commit_restores}
use doc_scraper.Crawler.Loss.{decide_loss}
use doc_scraper.Run.Finish.{
  loss_input, check_loss, LossFacts, swap_failed, run_error, swap_result, commit_stage_of,
  write_output, finish,
}

CommitEnd-cases : (e : CommitEnd) → (e ≡ committed) ⊎ (e ≢ committed)
CommitEnd-cases committed = inl refl
CommitEnd-cases (clearing p) = inr (λ h. cc h)
CommitEnd-cases (moving_aside p) = inr (λ h. cc h)
CommitEnd-cases (promoting p) = inr (λ h. cc h)

run_error-none :
    (ran : Bool) (facts : LossFacts) (c : Crawl)
    → run_error ran facts c ≡ none
    → (ran ≡ true) × ((decide_loss (loss_input facts c)).refused ≡ false)
unfolding run_error check_loss
run_error-none false facts c h = absurd (cc h)
run_error-none true facts c h = elim (Bool-cases (decide_loss (loss_input facts c)).refused) [
  | inl e ↦ absurd (let k = rw (e, check_loss) at h in cc k)
  | inr e ↦ (refl, e)
]

module _ {ℓ} {C : Type ℓ} (world : SysWorld C) where
  write_output-live :
      (finalize : Bool → Option C → Option C) (completed : Bool) (disk : Disk C) (q : Part)
      → (dirs_of q (write_output finalize true completed disk)).live_dir ≡ (dirs_of q disk).live_dir
  unfolding write_output
  write_output-live finalize completed disk output = refl
  write_output-live finalize completed disk database = refl

  swap_failed_lem :
      (e : CommitEnd) (r : CommitResult C)
      → e ≢ committed
      → swap_result e r ≡ record {
        disk = r.disk;
        err = some (swap_failed e);
        published = false;
        unrestored = r.unrestored;
      }
  unfolding swap_result
  swap_failed_lem committed r h = absurd (h refl)
  swap_failed_lem (clearing p) r h = refl
  swap_failed_lem (moving_aside p) r h = refl
  swap_failed_lem (promoting p) r h = refl

  commit_stage_cases :
      (closes : Bool) (disk : Disk C)
      → ((commit_stage_of world closes disk).err ≢ none)
      → (commit_stage_of world closes disk).unrestored ≡ 0
      → (q : Part)
      → ((dirs_of q (commit_stage_of world closes disk).disk).live_dir ≡ (dirs_of q disk).live_dir)
        × ((commit_stage_of world closes disk).published ≡ false)
  unfolding commit_stage_of swap_result
  commit_stage_cases false disk h k q = (refl, refl)
  commit_stage_cases true disk h k q = elim (CommitEnd-cases (commit world disk).end) [
    | inl e ↦ absurd (h (rw (e, swap_result) refl))
    | inr e ↦
        let r = commit world disk in
        let eq = swap_failed_lem r.end r e in
        let back = commit_restores world disk q e (rw eq at k) in rw eq (back.0, refl)
  ]

  -- The live corpus survives a crawl that is not published: if a staged crawl ends with an error, be it
  -- interrupted, kept back as lossy, or not swapped in with every rename of the rollback done, then
  -- each live directory is what it was, and neither history nor index has the crawl.
  pub finish_keeps_live :
      (finalize : Bool → Option C → Option C) (ran closes : Bool) (facts : LossFacts) (c : Crawl)
      (disk : Disk C) (q : Part)
      → (finish world finalize true ran closes facts c disk).err ≢ none
      → (finish world finalize true ran closes facts c disk).unrestored ≡ 0
      → ((dirs_of q (finish world finalize true ran closes facts c disk).disk).live_dir
          ≡ (dirs_of q disk).live_dir)
        × ((finish world finalize true ran closes facts c disk).published ≡ false)
  unfolding finish
  finish_keeps_live finalize ran closes facts c disk q h k =
      elim (Option-cases (run_error ran facts c)) [
        | inr (e, r) ↦ rw (r, finish) (write_output-live finalize false disk q, refl)
        | inl r ↦
            let written = write_output finalize true true disk in
            let both =
              commit_stage_cases closes written (rw (r, finish) at h) (rw (r, finish) at k) q in
            rw (r, finish) (both.0 ∙ write_output-live finalize true disk q, both.1)
      ]

  commit_stage_done :
      (closes : Bool) (disk : Disk C)
      → (commit_stage_of world closes disk).err ≡ none
      → (q : Part)
      → (dirs_of q (commit_stage_of world closes disk).disk).live_dir ≡ (
          if path_exists q staging disk
          then (dirs_of q disk).staging_dir
          else (dirs_of q disk).live_dir)
  unfolding commit_stage_of swap_result
  commit_stage_done false disk h q = absurd (cc h)
  commit_stage_done true disk h q = elim (CommitEnd-cases (commit world disk).end) [
    | inl e ↦ rw (e, swap_result) (commit-committed world disk q e)
    | inr e ↦
        absurd
          (let k = rw (swap_failed_lem (commit world disk).end (commit world disk) e) at h in cc k)
  ]

  -- A staged crawl that ends without an error ran to its end, was not refused by the loss check, and
  -- has made each staged directory live, the output as it was written last.
  pub finish_publishes :
      (finalize : Bool → Option C → Option C) (ran closes : Bool) (facts : LossFacts) (c : Crawl)
      (disk : Disk C) (q : Part)
      → (finish world finalize true ran closes facts c disk).err ≡ none
      → (ran ≡ true)
        × ((decide_loss (loss_input facts c)).refused ≡ false)
        × ((dirs_of q (finish world finalize true ran closes facts c disk).disk).live_dir ≡ (
            if path_exists q staging (write_output finalize true true disk)
            then (dirs_of q (write_output finalize true true disk)).staging_dir
            else (dirs_of q disk).live_dir))
  unfolding finish
  finish_publishes finalize ran closes facts c disk q h =
      elim (Option-cases (run_error ran facts c)) [
        | inr (e, r) ↦ absurd (let k = rw (r, finish) at h in cc k)
        | inl r ↦
            let written = write_output finalize true true disk in
            let done = commit_stage_done closes written (rw (r, finish) at h) q in
            let parts = run_error-none ran facts c r in
            (
              parts.0,
              parts.1,
              rw (r, finish) (done ∙ rw (write_output-live finalize true disk q) refl),
            )
      ]
