-- ===== src/Tests/Stage.antt =====
-- Staged crawls and their swap, on examples.
use doc_scraper.Prelude.{ℕ, true, none, some, ◌≡◌, ◌⊎◌, refl, if◌then◌else◌, ltb}
use doc_scraper.Store.Database.{is_found}
use doc_scraper.Stage.Files.{
  output, staging, Disk, SysWorld, dirs_of, path_exists, rename, rename_tries, rename_retry,
  remove_all,
}
use doc_scraper.Stage.Swap.{
  commit, recover_swap, recover_part, pairs, clear_backups, swap_from, rollback, rename_each,
  drop_backups,
}
use doc_scraper.Stage.Plan.{plan_stage, plan_from, differ, discard}
use doc_scraper.Stage.Outcomes.{commit-committed, commit_restores}
use doc_scraper.Stage.Recovery.{recover_swap-commit}
use doc_scraper.Stage.Plans.{both_staged, plan_stage_lem}

-- A live corpus 1 and 2, and a staged one 11 and 12.
abbrev swap_disk : Disk ℕ
swap_disk = record {
  out = record { live_dir = some 1; staging_dir = some 11; backup_dir = none };
  db = record { live_dir = some 2; staging_dir = some 12; backup_dir = none };
  calls = 0;
}

abbrev fine : SysWorld ℕ
fine = record { call_ok = λ n. true; left = λ n c. c }

-- Every call fails from the given one on.
abbrev crashes_at : ℕ → SysWorld ℕ
crashes_at k = record { call_ok = λ n. ltb n k; left = λ n c. c }

commit-committed_example : (dirs_of output (commit fine swap_disk).disk).live_dir ≡ some 11
unfolding commit pairs clear_backups remove_all swap_from rename_retry rename_tries rename
    path_exists is_found rollback rename_each drop_backups
commit-committed_example = commit-committed fine swap_disk output refl

-- The output is moved aside, and its promotion fails for good.
abbrev promotion_fails : SysWorld ℕ
promotion_fails = record { call_ok = λ n. if ltb n 3 then true else ltb 7 n; left = λ n c. c }

commit_restores_example :
    ((dirs_of output (commit promotion_fails swap_disk).disk).live_dir ≡ some 1)
    × ((dirs_of output (commit promotion_fails swap_disk).disk).staging_dir ≡ some 11)
unfolding commit pairs clear_backups remove_all swap_from rename_retry rename_tries rename
    path_exists is_found rollback rename_each drop_backups
commit_restores_example = commit_restores promotion_fails swap_disk output (λ h. cc h) refl

recover_swap-commit_example :
    ((dirs_of output (recover_swap fine (commit (crashes_at 3) swap_disk).disk)).live_dir ≡ some 1)
    ⊎ (((dirs_of output (recover_swap fine (commit (crashes_at 3) swap_disk).disk)).live_dir
          ≡ some 11)
        × (path_exists output staging swap_disk ≡ true))
unfolding path_exists is_found
recover_swap-commit_example =
    recover_swap-commit (crashes_at 3) fine swap_disk output 1 (λ n. refl) refl

plan_stage_lem_example :
    ((dirs_of output (plan_stage fine true swap_disk).0).live_dir
      ≡ (dirs_of output (recover_swap fine swap_disk)).live_dir)
    × (true ≡ both_staged fine (recover_swap fine swap_disk))
    × ((dirs_of output (plan_stage fine true swap_disk).0).staging_dir
        ≡ (dirs_of output (recover_swap fine swap_disk)).staging_dir)
unfolding plan_stage plan_from differ discard recover_swap recover_part path_exists is_found
    remove_all rename_retry rename_tries rename
plan_stage_lem_example = plan_stage_lem fine true swap_disk (record { staged = true }) output refl
