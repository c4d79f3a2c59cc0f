-- ===== src/Stage/Swap.antt =====
-- pkg/crawler/stage.go: Commit, which swaps the staged directories in, and recoverSwap.
use doc_scraper.Prelude.{ℕ, suc, ◌+◌, not, ◌&&◌, List, [], ◌∷◌, Option, none, some, if◌then◌else◌}
use doc_scraper.Stage.Files.{
  Part, output, database, Place, live, staging, backup, Disk, SysWorld, path_exists, rename_retry,
  remove_all,
}

-- How `Commit` ends.
pub data CommitEnd : Type 0 where
  committed : CommitEnd
  clearing moving_aside promoting : Part → CommitEnd

-- `unrestored` counts the renames of the rollback that failed, and were logged.
pub record CommitResult {ℓ} (C : Type ℓ) : Type ℓ where
  pub disk : Disk C
  pub end : CommitEnd
  pub unrestored : ℕ

module _ {ℓ} {C : Type ℓ} where
  -- The pairs of directories with a staged one.
  unfoldable pub pairs : Disk C → List Part
  unfolding path_exists
  pairs disk =
      let later = if path_exists database staging disk then database ∷ [] else [] in
      if path_exists output staging disk then output ∷ later else later

module _ {ℓ} {C : Type ℓ} (world : SysWorld C) where
  -- The loop that removes the backups: it stops at the part whose backup it cannot remove.
  unfoldable pub clear_backups : List Part → Disk C → Disk C × Option Part
  clear_backups [] disk = (disk, none)
  clear_backups (p ∷ ps) disk =
      let r = remove_all world p backup disk in
      let rest = clear_backups ps r.0 in if r.1 then rest else (r.0, some p)

  -- Both loops of `rollback`: each rename of the list's parts, and the number of failures.
  unfoldable pub rename_each : Place → Place → List Part → Disk C → Disk C × ℕ
  rename_each from to [] disk = (disk, 0)
  rename_each from to (p ∷ ps) disk =
      let r = rename_retry world p from to disk in
      let rest = rename_each from to ps r.0 in (rest.0, if r.1 then rest.1 else suc rest.1)

  -- `rollback`, the lists latest first.
  unfoldable pub rollback : List Part → List Part → CommitEnd → Disk C → CommitResult C
  rollback moved_aside promoted end disk =
      let demoted = rename_each live staging promoted disk in
      let restored = rename_each backup live moved_aside demoted.0 in
      record { disk = restored.0; end = end; unrestored = demoted.1 + restored.1 }

  -- The last loop: a backup that cannot be removed is only logged.
  unfoldable pub drop_backups : List Part → Disk C → Disk C
  drop_backups [] disk = disk
  drop_backups (p ∷ ps) disk = drop_backups ps (remove_all world p backup disk).0

  -- The loop that swaps, and what follows it.
  unfoldable pub swap_from : List Part → List Part → List Part → List Part → Disk C → CommitResult C
  swap_from all [] moved_aside promoted disk = record {
    disk = drop_backups all disk;
    end = committed;
    unrestored = 0;
  }
  swap_from all (p ∷ ps) moved_aside promoted disk =
      let had_live = path_exists p live disk in
      let moved = rename_retry world p live backup disk in
      let ready = if had_live then moved.0 else disk in
      let aside = if had_live then p ∷ moved_aside else moved_aside in
      let put = rename_retry world p staging live ready in
      let rest = swap_from all ps aside (p ∷ promoted) put.0 in
      if had_live && not moved.1
      then rollback moved_aside promoted (moving_aside p) moved.0
      else if put.1
      then rest
      else rollback aside promoted (promoting p) put.0

  -- `Commit`
  unfoldable pub commit : Disk C → CommitResult C
  commit disk =
      let parts = pairs disk in
      let cleared = clear_backups parts disk in
      let swapped = swap_from parts parts [] [] cleared.0 in
      elim cleared.1 [
        | some p ↦ record { disk = cleared.0; end = clearing p; unrestored = 0 }
        | none ↦ swapped
      ]

  -- One turn of `recoverSwap`.
  unfoldable pub recover_part : Part → Disk C → Disk C
  recover_part p disk =
      if path_exists p backup disk
      then (if path_exists p live disk
          then (remove_all world p backup disk).0
          else (rename_retry world p backup live disk).0)
      else disk

  -- `recoverSwap`
  unfoldable pub recover_swap : Disk C → Disk C
  recover_swap disk = recover_part database (recover_part output disk)
