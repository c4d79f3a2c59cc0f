-- ===== src/Tests/Run.antt =====
-- The end of a crawl, on examples.
use doc_scraper.Prelude.{ℕ, true, false, none, some, ◌≡◌, refl, if◌then◌else◌}
use doc_scraper.Prelude.Int.{pos, i64, ◌+ℤ◌, ◌*ℤ◌, quot}
use doc_scraper.Prelude.Sort.{sort_by, insert_by}
use doc_scraper.Crawler.Failures.{snapshot, count, count_in}
use doc_scraper.Store.Database.{is_found}
use doc_scraper.Crawler.Loss.{decide_loss, is_empty, too_transient, too_small, kept}
use doc_scraper.Stage.Files.{
  output, staging, Disk, SysWorld, dirs_of, path_exists, remove_all, rename, rename_tries,
  rename_retry,
}
use doc_scraper.Stage.Swap.{commit, pairs, clear_backups, swap_from, drop_backups}
use doc_scraper.Run.Finish.{
  LossFacts, loss_input, write_output, finish, run_error, check_loss, commit_stage_of, swap_result,
}
use doc_scraper.Run.Publishing.{finish_keeps_live, finish_publishes}
use doc_scraper.Tests.Crawl.{crawl}

-- A live corpus 1 and 2, and a staged one 11 and 12.
abbrev staged_disk : Disk ℕ
staged_disk = record {
  out = record { live_dir = some 1; staging_dir = some 11; backup_dir = none };
  db = record { live_dir = some 2; staging_dir = some 12; backup_dir = none };
  calls = 0;
}

abbrev fine : SysWorld ℕ
fine = record { call_ok = λ n. true; left = λ n c. c }

-- Half of the pages of the last crawl are missing.
abbrev facts : LossFacts
facts = record {
  unique_pages = pos 3;
  carryable = pos 0;
  baseline = some (pos 100);
  incremental = false;
  allow_shrink = false;
}

finish_keeps_live_example :
    ((dirs_of output (finish fine (λ b c. c) true true true facts crawl staged_disk).disk).live_dir
      ≡ some 1)
    × ((finish fine (λ b c. c) true true true facts crawl staged_disk).published ≡ false)
unfolding finish run_error check_loss loss_input decide_loss is_empty too_transient too_small kept
    snapshot count count_in sort_by insert_by i64 ◌+ℤ◌ ◌*ℤ◌ quot write_output commit_stage_of
    swap_result commit pairs clear_backups remove_all swap_from rename_retry rename_tries rename
    path_exists is_found drop_backups
finish_keeps_live_example =
    finish_keeps_live fine (λ b c. c) true true facts crawl staged_disk output (λ h. cc h) refl

finish_publishes_example :
    (true ≡ true)
    × ((decide_loss (loss_input (record facts { allow_shrink = true }) crawl)).refused ≡ false)
    × ((dirs_of output
          (finish fine
            (λ b c. c)
            true
            true
            true
            (record facts { allow_shrink = true })
            crawl
            staged_disk).disk).live_dir
        ≡ (if path_exists output staging (write_output (λ b c. c) true true staged_disk)
            then (dirs_of output (write_output (λ b c. c) true true staged_disk)).staging_dir
            else some 1))
unfolding finish run_error check_loss loss_input decide_loss is_empty too_transient too_small kept
    snapshot count count_in sort_by insert_by i64 ◌+ℤ◌ ◌*ℤ◌ quot write_output commit_stage_of
    swap_result commit pairs clear_backups remove_all swap_from rename_retry rename_tries rename
    path_exists is_found drop_backups
finish_publishes_example =
    finish_publishes fine (λ b c. c) true true (record facts { allow_shrink = true }) crawl
      staged_disk output refl
