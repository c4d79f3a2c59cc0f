-- ===== src/Stage/Commits.antt =====
-- How Commit of pkg/crawler/stage.go ends: with the staged directories live, or as it began.
use doc_scraper.Prelude.{
  true, false, List, [], ◌∷◌, ◌≡◌, ◌≢◌, refl, if◌then◌else◌, Bool-cases, inl, inr, ◌⊎◌, ◌∙◌, subst,
  sym,
}
use doc_scraper.Stage.Files.{
  Part, live, staging, backup, Disk, SysWorld, dirs_of, path_exists, rename_retry,
}
use doc_scraper.Stage.Swap.{
  CommitEnd, committed, moving_aside, promoting, CommitResult, rollback, swap_from,
}
use doc_scraper.Stage.Renames.{has, Distinct, drop_backups-dirs}
use doc_scraper.Stage.Turns.{
  Stands, Swapping, Swapping-aside, Swapping-promoted, Swapping-failed, same_self, Books,
  Books-head, Books-aside, Books-created,
}

moving_aside_failed : (p : Part) → moving_aside p ≢ committed
moving_aside_failed p h = cc h

promoting_failed : (p : Part) → promoting p ≢ committed
promoting_failed p h = cc h

self_aside : (p : Part) (aside : List Part) {B : Type 0} → has p (p ∷ aside) ≡ false → B
self_aside p aside h = absurd (let e = same_self p in let k : true ≡ false = rw e at h in cc)

covered_lem :
    {all ps aside promoted : List Part} (q : Part)
    → Books all ps aside promoted
    → has q promoted ≡ true
    → has q all ≡ true
covered_lem q b h = b.covers q ∙ rw h refl

module _ {ℓ} {C : Type ℓ} where
  -- A result that a rollback gave, from a state of the swap.
  pub record RolledBack (world : SysWorld C) (all : List Part) (began : Disk C) (r : CommitResult C)
      : Type ℓ where
    pub aside : List Part
    pub promoted : List Part
    pub reached : Disk C
    pub reason : CommitEnd
    pub came_by : r ≡ rollback world aside promoted reason reached
    pub failed : reason ≢ committed
    pub distinct_aside : Distinct aside
    pub distinct_promoted : Distinct promoted
    pub covered : (q : Part) → has q promoted ≡ true → has q all ≡ true
    pub stands : Swapping aside promoted began reached

  -- A result with the parts of a list promoted.
  pub record Swapped (ps : List Part) (began : Disk C) (r : CommitResult C) : Type ℓ where
    pub done : r.end ≡ committed
    pub live_now :
        (q : Part)
        → (dirs_of q r.disk).live_dir
          ≡ (if has q ps then (dirs_of q began).staging_dir else (dirs_of q began).live_dir)

  finished_lem :
      (all aside promoted : List Part) (began disk : Disk C) (q : Part)
      → Books all [] aside promoted
      → Swapping aside promoted began disk
      → (dirs_of q disk).live_dir
        ≡ (if has q all then (dirs_of q began).staging_dir else (dirs_of q began).live_dir)
  finished_lem all aside promoted began disk q b s =
      let here : Stands (has q aside) (has q promoted) (dirs_of q began) (dirs_of q disk) = s q in
      elim (Bool-cases (has q promoted)) [
        | inl p ↦ elim (Bool-cases (has q aside)) [
          | inl a ↦ let h = rw (p, a) at here in rw (b.covers q, p) h.0
          | inr a ↦ let h = rw (p, a) at here in rw (b.covers q, p) h.1
        ]
        | inr p ↦ let h = rw (p, b.paired q p) at here in rw (b.covers q, p) h.0
      ]

  module _ (world : SysWorld C) (all ps aside promoted : List Part) (p : Part) (disk : Disk C) where
    abbrev aside_disk : Disk C
    aside_disk = (rename_retry world p live backup disk).0

    turn_aside_fails :
        path_exists p live disk ≡ true
        → (rename_retry world p live backup disk).1 ≡ false
        → swap_from world all (p ∷ ps) aside promoted disk
          ≡ rollback world aside promoted (moving_aside p) aside_disk
    unfolding swap_from
    turn_aside_fails e o = rw (e, o) refl

    turn_promote_fails :
        path_exists p live disk ≡ true
        → (rename_retry world p live backup disk).1 ≡ true
        → (rename_retry world p staging live aside_disk).1 ≡ false
        → swap_from world all (p ∷ ps) aside promoted disk
          ≡ rollback world
              (p ∷ aside)
              promoted
              (promoting p)
              (rename_retry world p staging live aside_disk).0
    unfolding swap_from
    turn_promote_fails e o t = rw (e, o, t) refl

    turn_swaps :
        path_exists p live disk ≡ true
        → (rename_retry world p live backup disk).1 ≡ true
        → (rename_retry world p staging live aside_disk).1 ≡ true
        → swap_from world all (p ∷ ps) aside promoted disk
          ≡ swap_from world all ps
              (p ∷ aside)
              (p ∷ promoted)
              (rename_retry world p staging live aside_disk).0
    unfolding swap_from
    turn_swaps e o t = rw (e, o, t) refl

    turn_create_fails :
        path_exists p live disk ≡ false
        → (rename_retry world p staging live disk).1 ≡ false
        → swap_from world all (p ∷ ps) aside promoted disk
          ≡ rollback world aside promoted (promoting p) (rename_retry world p staging live disk).0
    unfolding swap_from
    turn_create_fails e t = rw (e, t) refl

    turn_creates :
        path_exists p live disk ≡ false
        → (rename_retry world p staging live disk).1 ≡ true
        → swap_from world all (p ∷ ps) aside promoted disk
          ≡ swap_from world all ps aside (p ∷ promoted) (rename_retry world p staging live disk).0
    unfolding swap_from
    turn_creates e t = rw (e, t) refl

  abbrev pub EndsWell : SysWorld C → List Part → Disk C → CommitResult C → Type ℓ
  EndsWell world all began r = RolledBack world all began r ⊎ Swapped all began r

  -- The loop of `Commit` rolls back, or swaps every part in.
  pub swap_from-ends :
      (world : SysWorld C) (all ps aside promoted : List Part) (began disk : Disk C)
      → Books all ps aside promoted
      → Swapping aside promoted began disk
      → EndsWell world all began (swap_from world all ps aside promoted disk)
  unfolding swap_from
  swap_from-ends world all [] aside promoted began disk b s = inr record {
    done = refl;
    live_now = λ q.
        (drop_backups-dirs world all disk q).0 ∙ finished_lem all aside promoted began disk q b s;
  }
  swap_from-ends world all (p ∷ ps) aside promoted began disk b s =
      let m = rename_retry world p live backup disk in
      let fresh = Books-head p b in
      elim (Bool-cases (path_exists p live disk)) [
        | inl e ↦ elim (Bool-cases m.1) [
          | inl o ↦
              let s1 = Swapping-aside world p aside promoted began disk fresh.0 fresh.1 o s in
              elim (Bool-cases (rename_retry world p staging live m.0).1) [
                | inl t ↦
                    subst (EndsWell world all began)
                      (sym (turn_swaps world all ps aside promoted p disk e o t))
                      (swap_from-ends world all ps (p ∷ aside) (p ∷ promoted) began
                        (rename_retry world p staging live m.0).0 (Books-aside p b)
                        (Swapping-promoted world p (p ∷ aside) promoted began m.0 fresh.1
                          (self_aside p aside) t s1))
                | inr t ↦ inl record {
                  aside = p ∷ aside;
                  promoted = promoted;
                  reached = (rename_retry world p staging live m.0).0;
                  reason = promoting p;
                  came_by = turn_promote_fails world all ps aside promoted p disk e o t;
                  failed = promoting_failed p;
                  distinct_aside = (fresh.0, b.distinct_aside);
                  distinct_promoted = b.distinct_promoted;
                  covered = λ q h. covered_lem q b h;
                  stands = Swapping-failed world p staging live (p ∷ aside) promoted began m.0 t s1;
                }
              ]
          | inr o ↦ inl record {
            aside = aside;
            promoted = promoted;
            reached = m.0;
            reason = moving_aside p;
            came_by = turn_aside_fails world all ps aside promoted p disk e o;
            failed = moving_aside_failed p;
            distinct_aside = b.distinct_aside;
            distinct_promoted = b.distinct_promoted;
            covered = λ q h. covered_lem q b h;
            stands = Swapping-failed world p live backup aside promoted began disk o s;
          }
        ]
        | inr e ↦ elim (Bool-cases (rename_retry world p staging live disk).1) [
          | inl t ↦
              subst (EndsWell world all began)
                (sym (turn_creates world all ps aside promoted p disk e t))
                (swap_from-ends world all ps aside (p ∷ promoted) began
                  (rename_retry world p staging live disk).0 (Books-created p b)
                  (Swapping-promoted world p aside promoted began disk fresh.1 (λ _. e) t s))
          | inr t ↦ inl record {
            aside = aside;
            promoted = promoted;
            reached = (rename_retry world p staging live disk).0;
            reason = promoting p;
            came_by = turn_create_fails world all ps aside promoted p disk e t;
            failed = promoting_failed p;
            distinct_aside = b.distinct_aside;
            distinct_promoted = b.distinct_promoted;
            covered = λ q h. covered_lem q b h;
            stands = Swapping-failed world p staging live aside promoted began disk t s;
          }
        ]
      ]
