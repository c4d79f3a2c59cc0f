-- ===== src/Stage/Recovery.antt =====
-- What recoverSwap of pkg/crawler/stage.go finds after a Commit that was cut short.
use doc_scraper.Prelude.{
  ℕ, Bool, true, false, List, none, some, ◌≡◌, refl, arith, if◌then◌else◌, Bool-cases, inl, inr,
  ◌⊎◌, ◌∙◌, sym,
}
use doc_scraper.Store.Database.{is_found}
use doc_scraper.Stage.Files.{
  Part, output, database, Place, live, staging, backup, Dirs, Disk, SysWorld, dirs_of, path_exists,
  rename_retry, rename_tries, rename, remove_all,
}
use doc_scraper.Stage.Swap.{
  CommitEnd, pairs, clear_backups, rename_each, rollback, commit, recover_part, recover_swap,
}
use doc_scraper.Stage.Renames.{
  same, has, Distinct, moved, rename_retry-dirs, rename_each-dirs, clear_backups-dirs,
  remove_all-dirs,
}
use doc_scraper.Stage.Turns.{Stands, Swapping, same_self, is_found-none}
use doc_scraper.Stage.Outcomes.{
  stopped, went_back, went_through, commit-Ends, commit_went_through, has-pairs,
}

module _ {ℓ} {C : Type ℓ} where
  -- A part that began as `b` still has its live directory, or the staged one in its place, or the
  -- live one moved aside.
  abbrev pub Kept : Dirs C → Dirs C → Type ℓ
  Kept b d =
      (d.live_dir ≡ b.live_dir)
      ⊎ (((d.live_dir ≡ b.staging_dir) × (is_found b.staging_dir ≡ true))
          ⊎ ((d.live_dir ≡ none) × (d.backup_dir ≡ b.live_dir)))

  -- Before the second loop of a rollback.
  demoted-Kept :
      (b d e : Dirs C) (a p : Bool)
      → Stands a p b d
      → (p ≡ true → is_found b.staging_dir ≡ true)
      → (e ≡ d) ⊎ ((p ≡ true) × (e ≡ moved live staging d))
      → Kept b e × (a ≡ true → e.backup_dir ≡ b.live_dir)
  demoted-Kept b d e false false s f (inl h) = rw h (inl s.0, λ k. absurd (cc k))
  demoted-Kept b d e true false s f (inl h) = rw h (inr (inr (s.0, s.2)), λ k. s.2)
  demoted-Kept b d e true true s f (inl h) = rw h (inr (inl (s.0, f refl)), λ k. s.2)
  demoted-Kept b d e false true s f (inl h) = rw h (inr (inl (s.1, f refl)), λ k. absurd (cc k))
  demoted-Kept b d e true true s f (inr h) = rw h.1 (inr (inr (refl, s.2)), λ k. s.2)
  demoted-Kept b d e false true s f (inr h) = rw h.1 (inl (sym s.0), λ k. absurd (cc k))
  demoted-Kept b d e a false s f (inr h) = absurd (cc h.0)

  -- After it.
  restored-Kept :
      (b d e : Dirs C) (a : Bool)
      → Kept b d × (a ≡ true → d.backup_dir ≡ b.live_dir)
      → (e ≡ d) ⊎ ((a ≡ true) × (e ≡ moved backup live d))
      → Kept b e
  restored-Kept b d e a k (inl h) = rw h k.0
  restored-Kept b d e a k (inr h) = rw h.1 (inl (k.1 h.0))

  rollback-Kept :
      (world : SysWorld C) (aside promoted : List Part) (reason : CommitEnd) (began disk : Disk C)
      (q : Part)
      → Distinct aside
      → Distinct promoted
      → Swapping aside promoted began disk
      → (has q promoted ≡ true → is_found (dirs_of q began).staging_dir ≡ true)
      → Kept (dirs_of q began) (dirs_of q (rollback world aside promoted reason disk).disk)
  unfolding rollback
  rollback-Kept world aside promoted reason began disk q da dp s f =
      let first = rename_each world live staging promoted disk in
      let last = rename_each world backup live aside first.0 in
      restored-Kept (dirs_of q began) (dirs_of q first.0) (dirs_of q last.0) (has q aside)
        (demoted-Kept (dirs_of q began) (dirs_of q disk) (dirs_of q first.0) (has q aside)
          (has q promoted) (s q) f (rename_each-dirs world live staging promoted disk q dp))
        (rename_each-dirs world backup live aside first.0 q da)

  Kept-same :
      (b c d : Dirs C)
      → (c.live_dir ≡ b.live_dir) × (c.staging_dir ≡ b.staging_dir)
      → Kept c d
      → Kept b d
  Kept-same b c d h (inl k) = inl (k ∙ h.0)
  Kept-same b c d h (inr (inl k)) = inr (inl (k.0 ∙ h.1, rw (← h.1) k.1))
  Kept-same b c d h (inr (inr k)) = inr (inr (k.0, k.1 ∙ h.0))

  -- Whatever calls fail, from any one of them on: no part loses its directory.
  commit-Kept :
      (world : SysWorld C) (disk : Disk C) (q : Part)
      → Kept (dirs_of q disk) (dirs_of q (commit world disk).disk)
  unfolding path_exists
  commit-Kept world disk q =
      let cleared = clear_backups world (pairs disk) disk in
      let kept = clear_backups-dirs world (pairs disk) disk q in
      elim (commit-Ends world disk) [
        | stopped p e d ↦ rw d (inl kept.0)
        | went_back b ↦ rw b.came_by (
            Kept-same (dirs_of q disk) (dirs_of q cleared.0)
              (dirs_of q (rollback world b.aside b.promoted b.reason b.reached).disk) kept
              (rollback-Kept world b.aside b.promoted b.reason cleared.0 b.reached q
                b.distinct_aside b.distinct_promoted b.stands
                (λ h. rw kept.1 (sym (has-pairs disk q) ∙ b.covered q h))))
        | went_through w ↦
            let here = commit_went_through world disk (commit world disk) q w in
            elim (Bool-cases (path_exists q staging disk)) [
              | inl e ↦ inr (inl (rw e at here, e))
              | inr e ↦ inl (rw e at here)
            ]
      ]

  -- Every call succeeds.
  abbrev pub Works : SysWorld C → Type 0
  Works world = (n : ℕ) → world.call_ok n ≡ true

  rename_retry-Works :
      (world : SysWorld C) (p : Part) (from to : Place) (disk : Disk C)
      → Works world
      → path_exists p from disk ≡ true
      → (rename_retry world p from to disk).1 ≡ true
  unfolding rename_retry rename_tries rename
  rename_retry-Works world p from to disk w h = rw (w disk.calls, h) refl

  remove_all-other :
      (world : SysWorld C) (p q : Part) (place : Place) (disk : Disk C)
      → same p q ≡ false
      → dirs_of q (remove_all world p place disk).0 ≡ dirs_of q disk
  unfolding remove_all
  remove_all-other world output output place disk h = absurd (cc h)
  remove_all-other world output database place disk h = ground arith
  remove_all-other world database output place disk h = ground arith
  remove_all-other world database database place disk h = absurd (cc h)

  recover_part-other :
      (world : SysWorld C) (p q : Part) (disk : Disk C)
      → same p q ≡ false
      → dirs_of q (recover_part world p disk) ≡ dirs_of q disk
  unfolding recover_part
  recover_part-other world p q disk h = ground (
    arith,
    remove_all-other world p q backup disk h,
    rename_retry-dirs world p backup live disk q,
    h,
  )

  recover_part-own :
      (world : SysWorld C) (p : Part) (disk : Disk C)
      → Works world
      → (dirs_of p (recover_part world p disk)).live_dir ≡ (
          if path_exists p live disk
          then (dirs_of p disk).live_dir
          else (dirs_of p disk).backup_dir)
  unfolding recover_part
  recover_part-own world p disk w = elim (Bool-cases (path_exists p live disk)) [
    | inl e ↦ elim (Bool-cases (path_exists p backup disk)) [
      | inl f ↦ rw (f, e) (remove_all-dirs world p disk p).0
      | inr f ↦ rw (f, e) refl
    ]
    | inr e ↦ elim (Bool-cases (path_exists p backup disk)) [
      | inl f ↦
          rw
            (
              f,
              e,
              rename_retry-dirs world p backup live disk p,
              rename_retry-Works world p backup live disk w f,
              same_self p,
            )
            refl
      | inr f ↦
          rw (f, e)
            (unfold path_exists in
              (is_found-none (dirs_of p disk).live_dir e
                ∙ sym (is_found-none (dirs_of p disk).backup_dir f)))
    ]
  ]

  recover_swap-live :
      (world : SysWorld C) (q : Part) (disk : Disk C)
      → Works world
      → (dirs_of q (recover_swap world disk)).live_dir ≡ (
          if path_exists q live disk
          then (dirs_of q disk).live_dir
          else (dirs_of q disk).backup_dir)
  unfolding recover_swap path_exists
  recover_swap-live world output disk w =
      rw (recover_part-other world database output (recover_part world output disk) refl)
        (recover_part-own world output disk w)
  recover_swap-live world database disk w =
      recover_part-own world database (recover_part world output disk) w
      ∙ rw (recover_part-other world output database disk refl) refl

  -- For every directory that was live before a commit: whatever calls of the commit fail, even all
  -- from some point on, as after a crash, `recoverSwap` with calls that succeed gives a live directory
  -- again, which is the old one or the staged one whole.
  pub recover_swap-commit :
      (world later : SysWorld C) (disk : Disk C) (q : Part) (old : C)
      → Works later
      → (dirs_of q disk).live_dir ≡ some old
      → ((dirs_of q (recover_swap later (commit world disk).disk)).live_dir ≡ some old)
        ⊎ (((dirs_of q (recover_swap later (commit world disk).disk)).live_dir
              ≡ (dirs_of q disk).staging_dir)
            × (path_exists q staging disk ≡ true))
  unfolding path_exists is_found
  recover_swap-commit world later disk q old w h =
      let r = recover_swap-live later q (commit world disk).disk w in
      elim (commit-Kept world disk q) [
        | inl k ↦ inl (r ∙ rw (k, h) refl)
        | inr (inl k) ↦ inr (r ∙ rw (k.0, k.1) refl, k.1)
        | inr (inr k) ↦ inl (r ∙ rw (k.0, k.1, h) refl)
      ]
