-- ===== src/Stage/Outcomes.antt =====
-- What Commit of pkg/crawler/stage.go leaves when it succeeds and when it rolls back.
use doc_scraper.Prelude.{
  Bool, true, false, List, [], ◌≡◌, ◌≢◌, refl, arith, if◌then◌else◌, Bool-cases, Option-cases, inl,
  inr, ◌∙◌, ap, sym,
}
use doc_scraper.Stage.Files.{
  Part, output, database, live, staging, backup, Dirs, Disk, SysWorld, dirs_of, path_exists,
}
use doc_scraper.Stage.Swap.{
  CommitEnd, committed, clearing, CommitResult, pairs, clear_backups, rename_each, rollback, commit,
}
use doc_scraper.Stage.Renames.{has, Distinct, moved, rename_each-moved, clear_backups-dirs}
use doc_scraper.Stage.Turns.{Stands, Swapping, Books}
use doc_scraper.Stage.Commits.{RolledBack, Swapped, swap_from-ends}

start-Books : (ps : List Part) → Distinct ps → Books ps ps [] []
start-Books ps d = record {
  covers = λ q. refl;
  ahead = λ q h. (refl, refl);
  paired = λ q h. refl;
  distinct_ahead = d;
  distinct_aside = tt;
  distinct_promoted = tt;
}

module _ {ℓ} {C : Type ℓ} where
  pub has-pairs : (disk : Disk C) (q : Part) → has q (pairs disk) ≡ path_exists q staging disk
  unfolding pairs
  has-pairs disk output = ground arith
  has-pairs disk database = ground arith

  pairs-Distinct : (disk : Disk C) → Distinct (pairs disk)
  unfolding pairs
  pairs-Distinct disk = elim (Bool-cases (path_exists output staging disk)) [
    | inl e ↦ elim (Bool-cases (path_exists database staging disk)) [
      | inl f ↦ rw (e, f) (refl, (refl, tt))
      | inr f ↦ rw (e, f) (refl, tt)
    ]
    | inr e ↦ elim (Bool-cases (path_exists database staging disk)) [
      | inl f ↦ rw (e, f) (refl, tt)
      | inr f ↦ rw (e, f) tt
    ]
  ]

  -- `Commit` stops at a backup, rolls back, or swaps every staged part in.
  pub data Ends (world : SysWorld C) (disk : Disk C) (r : CommitResult C) : Type ℓ where
    stopped :
        (p : Part)
        → r.end ≡ clearing p
        → r.disk ≡ (clear_backups world (pairs disk) disk).0
        → Ends world disk r
    went_back :
        RolledBack world (pairs disk) (clear_backups world (pairs disk) disk).0 r
        → Ends world disk r
    went_through :
        Swapped (pairs disk) (clear_backups world (pairs disk) disk).0 r → Ends world disk r

  pub commit-Ends : (world : SysWorld C) (disk : Disk C) → Ends world disk (commit world disk)
  unfolding commit
  commit-Ends world disk =
      let cleared = clear_backups world (pairs disk) disk in
      elim (Option-cases cleared.1) [
        | inl e ↦
            rw (e, commit)
              (elim (swap_from-ends world (pairs disk) (pairs disk) [] [] cleared.0 cleared.0
                (start-Books (pairs disk) (pairs-Distinct disk)) (λ q. (refl, refl))) [
                  | inl r ↦ went_back r
                  | inr r ↦ went_through r
                ])
        | inr (p, e) ↦ rw (e, commit) (stopped p refl refl)
      ]

  pub commit_went_through :
      (world : SysWorld C) (disk : Disk C) (r : CommitResult C) (q : Part)
      → Swapped (pairs disk) (clear_backups world (pairs disk) disk).0 r
      → (dirs_of q r.disk).live_dir ≡ (
          if path_exists q staging disk
          then (dirs_of q disk).staging_dir
          else (dirs_of q disk).live_dir)
  commit_went_through world disk r q w =
      let kept = clear_backups-dirs world (pairs disk) disk q in
      w.live_now q ∙ rw (has-pairs disk q, kept.0, kept.1) refl

  -- A commit that reports success has made live every staged directory, and left a live directory
  -- with nothing staged for it as it was, whatever calls failed on the way.
  pub commit-committed :
      (world : SysWorld C) (disk : Disk C) (q : Part)
      → (commit world disk).end ≡ committed
      → (dirs_of q (commit world disk).disk).live_dir ≡ (
          if path_exists q staging disk
          then (dirs_of q disk).staging_dir
          else (dirs_of q disk).live_dir)
  unfolding rollback
  commit-committed world disk q h = elim (commit-Ends world disk) [
    | stopped p e k ↦ absurd (cc)
    | went_back b ↦ absurd (b.failed (sym (ap (λ (r : CommitResult C). r.end) b.came_by) ∙ h))
    | went_through w ↦ commit_went_through world disk (commit world disk) q w
  ]

  -- A part after the first loop of a rollback, then after the second.
  abbrev demoted : Bool → Dirs C → Dirs C
  demoted p d = if p then moved live staging d else d

  abbrev restored : Bool → Dirs C → Dirs C
  restored a d = if a then moved backup live d else d

  restored_lem :
      (d b : Dirs C) (a p : Bool)
      → Stands a p b d
      → ((restored a (demoted p d)).live_dir ≡ b.live_dir)
        × ((restored a (demoted p d)).staging_dir ≡ b.staging_dir)
  restored_lem d b false false s = s
  restored_lem d b true false s = (s.2, s.1)
  restored_lem d b true true s = (s.2, s.0)
  restored_lem d b false true s = (sym s.0, s.1)

  rollback_restores :
      (world : SysWorld C) (aside promoted : List Part) (reason : CommitEnd) (began disk : Disk C)
      (q : Part)
      → Distinct aside
      → Distinct promoted
      → Swapping aside promoted began disk
      → (rollback world aside promoted reason disk).unrestored ≡ 0
      → ((dirs_of q (rollback world aside promoted reason disk).disk).live_dir
          ≡ (dirs_of q began).live_dir)
        × ((dirs_of q (rollback world aside promoted reason disk).disk).staging_dir
            ≡ (dirs_of q began).staging_dir)
  unfolding rollback
  rollback_restores world aside promoted reason began disk q da dp s h =
      let first = rename_each world live staging promoted disk in
      let e = rename_each-moved world live staging promoted disk q dp (omega arith) in
      let f = rename_each-moved world backup live aside first.0 q da (omega arith) in
      rw (f, e)
        (restored_lem (dirs_of q disk) (dirs_of q began) (has q aside) (has q promoted) (s q))

  -- A commit that fails, and whose rollback has no failed rename, leaves every live and every staged
  -- directory as they were.
  pub commit_restores :
      (world : SysWorld C) (disk : Disk C) (q : Part)
      → (commit world disk).end ≢ committed
      → (commit world disk).unrestored ≡ 0
      → ((dirs_of q (commit world disk).disk).live_dir ≡ (dirs_of q disk).live_dir)
        × ((dirs_of q (commit world disk).disk).staging_dir ≡ (dirs_of q disk).staging_dir)
  commit_restores world disk q h k =
      let kept = clear_backups-dirs world (pairs disk) disk q in
      elim (commit-Ends world disk) [
        | stopped p e d ↦ rw d kept
        | went_back b ↦
            let r =
              rollback_restores world b.aside b.promoted b.reason
                (clear_backups world (pairs disk) disk).0 b.reached q b.distinct_aside
                b.distinct_promoted b.stands
                (sym (ap (λ (r : CommitResult C). r.unrestored) b.came_by) ∙ k) in
            rw b.came_by (r.0 ∙ kept.0, r.1 ∙ kept.1)
        | went_through w ↦ absurd (h w.done)
      ]
