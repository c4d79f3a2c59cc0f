-- ===== src/Stage/Files.antt =====
-- The directories of one site that pkg/crawler/stage.go moves, and the calls that move them. What a
-- directory holds is a value of `C`.
use doc_scraper.Prelude.{ℕ, zero, suc, ◌+◌, Bool, true, false, ◌&&◌, Option, none, if◌then◌else◌}
use doc_scraper.Store.Database.{is_found}

-- The output directory and the visited database.
pub data Part : Type 0 where
  output database : Part

pub data Place : Type 0 where
  live staging backup : Place

pub record Dirs {ℓ} (C : Type ℓ) : Type ℓ where
  pub live_dir : Option C
  pub staging_dir : Option C
  pub backup_dir : Option C

-- `calls` numbers the system calls made.
pub record Disk {ℓ} (C : Type ℓ) : Type ℓ where
  pub out : Dirs C
  pub db : Dirs C
  pub calls : ℕ

-- Which calls succeed, and what a removal that fails leaves.
pub record SysWorld {ℓ} (C : Type ℓ) : Type ℓ where
  pub call_ok : ℕ → Bool
  pub left : ℕ → Option C → Option C

module _ {ℓ} {C : Type ℓ} where
  abbrev pub dirs_of : Part → Disk C → Dirs C
  dirs_of output disk = disk.out
  dirs_of database disk = disk.db

  abbrev pub dir_at : Place → Dirs C → Option C
  dir_at live d = d.live_dir
  dir_at staging d = d.staging_dir
  dir_at backup d = d.backup_dir

  abbrev pub set_dir : Place → Option C → Dirs C → Dirs C
  set_dir live c d = record d { live_dir = c }
  set_dir staging c d = record d { staging_dir = c }
  set_dir backup c d = record d { backup_dir = c }

  -- One more call, which leaves `d` as the directories of a part.
  abbrev pub put_dirs : Part → Dirs C → Disk C → Disk C
  put_dirs output d disk = record disk { out = d; calls = disk.calls + 1 }
  put_dirs database d disk = record disk { db = d; calls = disk.calls + 1 }

  abbrev pub tick : Disk C → Disk C
  tick disk = record disk { calls = disk.calls + 1 }

  -- `pathExists`, where a path that is there can be looked at.
  unfoldable pub path_exists : Part → Place → Disk C → Bool
  unfolding is_found
  path_exists p place disk = is_found (dir_at place (dirs_of p disk))

  -- `os.Rename` between two places of a part: what was at the target is gone.
  unfoldable pub rename : SysWorld C → Part → Place → Place → Disk C → Disk C × Bool
  unfolding path_exists
  rename world p from to disk =
      if world.call_ok disk.calls && path_exists p from disk
      then (
        put_dirs p (set_dir to (dir_at from (dirs_of p disk)) (set_dir from none (dirs_of p disk)))
            disk,
        true,
      )
      else (tick disk, false)

  -- The loop of `renameRetry`, with the attempts left.
  unfoldable pub rename_tries : SysWorld C → ℕ → Part → Place → Place → Disk C → Disk C × Bool
  unfolding rename
  rename_tries world zero p from to disk = (disk, false)
  rename_tries world (suc tries) p from to disk =
      let r = rename world p from to disk in
      let again = rename_tries world tries p from to r.0 in if r.1 then r else again

  -- `renameRetry`
  unfoldable pub rename_retry : SysWorld C → Part → Place → Place → Disk C → Disk C × Bool
  unfolding rename_tries
  rename_retry world p from to disk = rename_tries world 5 p from to disk

  -- `os.RemoveAll`
  unfoldable pub remove_all : SysWorld C → Part → Place → Disk C → Disk C × Bool
  remove_all world p place disk =
      if world.call_ok disk.calls
      then (put_dirs p (set_dir place none (dirs_of p disk)) disk, true)
      else (
        put_dirs p
            (set_dir place (world.left disk.calls (dir_at place (dirs_of p disk))) (dirs_of p disk))
            disk,
        false,
      )
