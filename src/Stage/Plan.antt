-- ===== src/Stage/Plan.antt =====
-- pkg/crawler/stage.go: PlanStage, which decides where a crawl works, Discard, and the paths in use.
use doc_scraper.Prelude.{Bool, true, false, not, ◌&&◌, Option, none, some, if◌then◌else◌}
use doc_scraper.Stage.Files.{
  Part, output, database, Place, live, staging, Disk, SysWorld, path_exists, remove_all,
}
use doc_scraper.Stage.Swap.{CommitResult, committed, commit, recover_swap}

-- `a != b`
unfoldable pub differ : Bool → Bool → Bool
differ true b = not b
differ false b = b

-- `Stage`, of the site whose directories a `Disk` holds.
pub record Stage : Type 0 where
  pub staged : Bool

module _ {ℓ} {C : Type ℓ} (world : SysWorld C) where
  -- `Discard`; false is an error.
  unfoldable pub discard : Disk C → Disk C × Bool
  discard disk =
      let first = remove_all world output staging disk in
      if first.1 then remove_all world database staging first.0 else first

  -- The part of `PlanStage` after the recovery.
  unfoldable pub plan_from : Bool → Disk C → Disk C × Option Stage
  plan_from resume disk =
      let cleared = discard disk in
      let out = path_exists output staging disk in
      let db = path_exists database staging disk in
      if not resume
      then (cleared.0, if cleared.1 then some (record { staged = true }) else none)
      else if differ out db
      then (cleared.0, if cleared.1 then some (record { staged = out && db }) else none)
      else (disk, some (record { staged = out && db }))

  -- `PlanStage`; none is an error.
  unfoldable pub plan_stage : Bool → Disk C → Disk C × Option Stage
  plan_stage resume disk = plan_from resume (recover_swap world disk)

-- `OutputDir` and `DBPath`: the place of a part that the crawl works in.
unfoldable pub place_of : Stage → Part → Place
place_of s p = if s.staged then staging else live

-- `Commit`, as it changes the stage.
unfoldable pub commit_stage {ℓ} :
    {C : Type ℓ} → SysWorld C → Disk C → Stage → CommitResult C × Stage
commit_stage world disk s =
    let r = commit world disk in
    (r, elim r.end [ committed ↦ record { staged = false } | other ↦ s ])
