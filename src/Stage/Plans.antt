-- ===== src/Stage/Plans.antt =====
-- What PlanStage of pkg/crawler/stage.go promises.
use doc_scraper.Prelude.{
  Bool, true, false, ◌&&◌, none, some, ◌≡◌, arith, if◌then◌else◌, Bool-cases, inl, inr, ◌∙◌, sym,
}
use doc_scraper.Store.Database.{is_found}
use doc_scraper.Stage.Files.{
  Part, output, database, staging, Disk, SysWorld, dirs_of, path_exists, remove_all,
}
use doc_scraper.Stage.Swap.{recover_swap}
use doc_scraper.Stage.Plan.{Stage, differ, discard, plan_from, plan_stage}

made_lem :
    (t b : Bool) (s : Stage)
    → (if t then some (record { staged = b }) else none) ≡ some s
    → (t ≡ true) × (s.staged ≡ b)
made_lem true b s h = ground (arith, h)
made_lem false b s h = absurd (cc h)

differ_lem : (a b s : Bool) → differ a b ≡ true → s ≡ a && b → s ≡ false
unfolding differ
differ_lem a b s h k = ground (arith, h, k)

module _ {ℓ} {C : Type ℓ} (world : SysWorld C) where
  discard-live :
      (disk : Disk C) (q : Part)
      → (dirs_of q (discard world disk).0).live_dir ≡ (dirs_of q disk).live_dir
  unfolding discard remove_all
  discard-live disk output = ground arith
  discard-live disk database = ground arith

  discard-gone :
      (disk : Disk C) (q : Part)
      → (discard world disk).1 ≡ true
      → (dirs_of q (discard world disk).0).staging_dir ≡ none
  unfolding discard remove_all
  discard-gone disk output h = ground arith
  discard-gone disk database h = ground arith

  plan_from-live :
      (resume : Bool) (disk : Disk C) (q : Part)
      → (dirs_of q (plan_from world resume disk).0).live_dir ≡ (dirs_of q disk).live_dir
  unfolding plan_from
  plan_from-live resume disk q = ground (arith, discard-live disk q)

  -- Whether both directories are staged.
  abbrev pub both_staged : Disk C → Bool
  both_staged disk = path_exists output staging disk && path_exists database staging disk

  kept_pair :
      (disk : Disk C) (s : Stage) (q : Part)
      → differ (path_exists output staging disk) (path_exists database staging disk) ≡ false
      → s.staged ≡ both_staged disk
      → (dirs_of q disk).staging_dir ≡ (if s.staged then (dirs_of q disk).staging_dir else none)
  unfolding differ path_exists is_found
  kept_pair disk s output d b = ground (arith, d, b)
  kept_pair disk s database d b = ground (arith, d, b)

  plan_from-staging :
      (resume : Bool) (disk : Disk C) (s : Stage) (q : Part)
      → (plan_from world resume disk).1 ≡ some s
      → (s.staged ≡ (if resume then both_staged disk else true))
        × ((dirs_of q (plan_from world resume disk).0).staging_dir
            ≡ (if resume && s.staged then (dirs_of q disk).staging_dir else none))
  unfolding plan_from
  plan_from-staging false disk s q h =
      let m = made_lem (discard world disk).1 true s h in (m.1, discard-gone disk q m.0)
  plan_from-staging true disk s q h =
      elim (Bool-cases
        (differ (path_exists output staging disk) (path_exists database staging disk))) [
          | inl e ↦
              let k : (if (discard world disk).1
                    then some (record { staged = both_staged disk })
                    else none)
                  ≡ some s =
                rw e at h in
              let m = made_lem (discard world disk).1 (both_staged disk) s k in
              let half =
                differ_lem (path_exists output staging disk) (path_exists database staging disk)
                  s.staged e m.1 in
              rw (e, half) (sym half ∙ m.1, discard-gone disk q m.0)
          | inr e ↦
              let k : some (record { staged = both_staged disk }) ≡ some s = rw e at h in
              let m = made_lem true (both_staged disk) s k in rw e (m.1, kept_pair disk s q e m.1)
        ]

  -- A plan that succeeds leaves the live directories as the recovery left them; a fresh crawl is
  -- staged, with nothing staged before it; a resumed crawl is staged exactly if the recovery left both
  -- the output and the database staged, which stay as they are, and else nothing is left staged.
  pub plan_stage_lem :
      (resume : Bool) (disk : Disk C) (s : Stage) (q : Part)
      → (plan_stage world resume disk).1 ≡ some s
      → ((dirs_of q (plan_stage world resume disk).0).live_dir
          ≡ (dirs_of q (recover_swap world disk)).live_dir)
        × (s.staged ≡ (if resume then both_staged (recover_swap world disk) else true))
        × ((dirs_of q (plan_stage world resume disk).0).staging_dir ≡ (
            if resume && s.staged then (dirs_of q (recover_swap world disk)).staging_dir else none))
  unfolding plan_stage
  plan_stage_lem resume disk s q h = (
    plan_from-live resume (recover_swap world disk) q,
    (plan_from-staging resume (recover_swap world disk) s q h).0,
    (plan_from-staging resume (recover_swap world disk) s q h).1,
  )
