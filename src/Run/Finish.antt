-- ===== src/Run/Finish.antt =====
-- pkg/crawler/crawler.go: finish, checkLoss and commitStage.
use doc_scraper.Prelude.{ℕ, ◌+◌, Bool, true, false, Option, none, some, if◌then◌else◌}
use doc_scraper.Prelude.Int.{ℤ, pos, ◌+ℤ◌, i64}
use doc_scraper.Crawler.Failures.{
  snapshot, count, failure_temporary, failure_selector, failure_other,
}
use doc_scraper.Crawler.Loss.{LossInput, LossVerdict, decide_loss}
use doc_scraper.Stage.Files.{live, staging, Disk, SysWorld}
use doc_scraper.Stage.Swap.{CommitEnd, committed, CommitResult, commit}
use doc_scraper.PageTask.State.{Crawl}

-- What the output, the live corpus and the crawl history tell `checkLoss`. The baseline is the page
-- count of the last recorded crawl.
pub record LossFacts : Type 0 where
  pub unique_pages : ℤ
  pub carryable : ℤ
  pub baseline : Option ℤ
  pub incremental : Bool
  pub allow_shrink : Bool

-- The input that `checkLoss` makes up.
unfoldable pub loss_input : LossFacts → Crawl → LossInput
loss_input facts c =
    let f = snapshot c.failures in
    let transient = count f failure_temporary in
    record {
      baseline = elim facts.baseline [ none ↦ pos 0 | some b ↦ b ];
      has_baseline = elim facts.baseline [ none ↦ false | some b ↦ true ];
      new_pages = facts.unique_pages;
      carryable = facts.carryable;
      attempted = i64 (
          i64 (i64 (pos (c.succeeded + c.unchanged)) +ℤ transient)
          +ℤ i64 (count f failure_selector +ℤ count f failure_other));
      transient = transient;
      incremental = facts.incremental;
      processed = pos c.processed;
      succeeded = pos c.succeeded;
      unchanged = pos c.unchanged;
      allow_shrink = facts.allow_shrink;
    }

-- `checkLoss`: some verdict is the error that keeps the crawl back.
unfoldable pub check_loss : LossFacts → Crawl → Option LossVerdict
check_loss facts c = let v = decide_loss (loss_input facts c) in if v.refused then some v else none

-- What `finish` returns in place of no error.
pub data FinishError : Type 0 where
  interrupted : FinishError
  lossy : LossVerdict → FinishError
  close_failed : FinishError
  swap_failed : CommitEnd → FinishError

-- `published` says that the history and the search index got the crawl.
pub record Finished {ℓ} (C : Type ℓ) : Type ℓ where
  pub disk : Disk C
  pub err : Option FinishError
  pub published : Bool
  pub unrestored : ℕ

-- The error of the run, or of the loss check of a run without one.
unfoldable pub run_error : Bool → LossFacts → Crawl → Option FinishError
run_error ran facts c =
    if ran
    then elim (check_loss facts c) [ none ↦ none | some v ↦ some (lossy v) ]
    else some interrupted

module _ {ℓ} {C : Type ℓ} where
  -- What the end of a swap means for the crawl.
  unfoldable pub swap_result : CommitEnd → CommitResult C → Finished C
  swap_result committed r = record { disk = r.disk; err = none; published = true; unrestored = 0 }
  swap_result end r = record {
    disk = r.disk;
    err = some (swap_failed end);
    published = false;
    unrestored = r.unrestored;
  }

  -- `commitStage`
  unfoldable pub commit_stage_of : SysWorld C → Bool → Disk C → Finished C
  commit_stage_of world closes disk =
      let r = commit world disk in
      if closes
      then swap_result r.end r
      else record { disk = disk; err = some close_failed; published = false; unrestored = 0 }

  -- What the carrying forward, the dropping of gone pages and `Finalize` make of the output directory
  -- in use; the first two only of a completed crawl.
  unfoldable pub write_output : (Bool → Option C → Option C) → Bool → Bool → Disk C → Disk C
  write_output finalize staged completed disk =
      let place = if staged then staging else live in
      record disk {
        out = elim place [
          | staging ↦ record disk.out { staging_dir = finalize completed disk.out.staging_dir }
          | other ↦ record disk.out { live_dir = finalize completed disk.out.live_dir }
        ];
      }

  -- `finish`, of which the chunks that it writes last are left out; `ran` says that the run had no
  -- error, and `closes` that the store closes.
  unfoldable pub finish :
      SysWorld C
      → (Bool → Option C → Option C)
      → Bool
      → Bool
      → Bool
      → LossFacts
      → Crawl
      → Disk C
      → Finished C
  finish world finalize staged ran closes facts c disk = elim (run_error ran facts c) [
    | some e ↦ record {
      disk = write_output finalize staged false disk;
      err = some e;
      published = false;
      unrestored = 0;
    }
    | none ↦
        let written = write_output finalize staged true disk in
        if staged
        then commit_stage_of world closes written
        else record { disk = written; err = none; published = true; unrestored = 0 }
  ]
