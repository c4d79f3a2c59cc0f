-- ===== src/Stage/Turns.antt =====
-- The turns of the loop of Commit in pkg/crawler/stage.go: where each part stands.
use doc_scraper.Prelude.{
  Bool, true, false, List, ◌∷◌, Option, none, some, ◌≡◌, refl, arith, if◌then◌else◌, Bool-cases,
  inl, inr, ◌∙◌, subst, sym,
}
use doc_scraper.Store.Database.{is_found}
use doc_scraper.Stage.Files.{
  Part, output, database, Place, live, staging, backup, Dirs, Disk, SysWorld, dirs_of, path_exists,
  rename_retry,
}
use doc_scraper.Stage.Renames.{same, has, has_tail, Distinct, same_eq, moved, rename_retry-dirs}

pub is_found-none {ℓ} : {A : Type ℓ} (o : Option A) → is_found o ≡ false → o ≡ none
unfolding is_found
is_found-none none h = refl
is_found-none (some a) h = absurd (cc h)

module _ {ℓ} {C : Type ℓ} where
  -- A part during the swap, by whether it was moved aside and whether it was promoted, against the
  -- directories it began with.
  abbrev pub Stands : Bool → Bool → Dirs C → Dirs C → Type ℓ
  Stands false false b d = (d.live_dir ≡ b.live_dir) × (d.staging_dir ≡ b.staging_dir)
  Stands true false b d =
      (d.live_dir ≡ none) × (d.staging_dir ≡ b.staging_dir) × (d.backup_dir ≡ b.live_dir)
  Stands true true b d =
      (d.live_dir ≡ b.staging_dir) × (d.staging_dir ≡ none) × (d.backup_dir ≡ b.live_dir)
  Stands false true b d =
      (b.live_dir ≡ none) × (d.live_dir ≡ b.staging_dir) × (d.staging_dir ≡ none)

  abbrev pub Swapping : List Part → List Part → Disk C → Disk C → Type ℓ
  Swapping aside promoted began disk =
      (q : Part) → Stands (has q aside) (has q promoted) (dirs_of q began) (dirs_of q disk)

  Stands-aside : (b d : Dirs C) → Stands false false b d → Stands true false b (moved live backup d)
  Stands-aside b d h = (refl, h.1, h.0)

  Stands-promoted :
      (b d : Dirs C) → Stands true false b d → Stands true true b (moved staging live d)
  Stands-promoted b d h = (h.1, refl, h.2)

  Stands-created :
      (b d : Dirs C)
      → is_found d.live_dir ≡ false
      → Stands false false b d
      → Stands false true b (moved staging live d)
  Stands-created b d e h = (sym h.0 ∙ is_found-none d.live_dir e, h.1, refl)

  pub Swapping-aside :
      (world : SysWorld C) (p : Part) (aside promoted : List Part) (began disk : Disk C)
      → has p aside ≡ false
      → has p promoted ≡ false
      → (rename_retry world p live backup disk).1 ≡ true
      → Swapping aside promoted began disk
      → Swapping (p ∷ aside) promoted began (rename_retry world p live backup disk).0
  Swapping-aside world p aside promoted began disk ha hp ok s q =
      let here : Stands (has q aside) (has q promoted) (dirs_of q began) (dirs_of q disk) = s q in
      elim (Bool-cases (same p q)) [
        | inl e ↦
            let eq = same_eq p q e in
            let a : has q aside ≡ false = subst (λ x. has x aside ≡ false) eq ha in
            let b : has q promoted ≡ false = subst (λ x. has x promoted ≡ false) eq hp in
            rw (e, b, rename_retry-dirs world p live backup disk q, ok, e)
              (Stands-aside (dirs_of q began) (dirs_of q disk) (rw (a, b) at here))
        | inr e ↦ rw (e, rename_retry-dirs world p live backup disk q, ok, e) (s q)
      ]

  pub Swapping-failed :
      (world : SysWorld C) (p : Part) (from to : Place) (aside promoted : List Part)
      (began disk : Disk C)
      → (rename_retry world p from to disk).1 ≡ false
      → Swapping aside promoted began disk
      → Swapping aside promoted began (rename_retry world p from to disk).0
  Swapping-failed world p from to aside promoted began disk o s q =
      rw (rename_retry-dirs world p from to disk q, o) (s q)

  -- A part whose live directory is found is moved aside first.
  pub Swapping-promoted :
      (world : SysWorld C) (p : Part) (aside promoted : List Part) (began disk : Disk C)
      → has p promoted ≡ false
      → (has p aside ≡ false → path_exists p live disk ≡ false)
      → (rename_retry world p staging live disk).1 ≡ true
      → Swapping aside promoted began disk
      → Swapping aside (p ∷ promoted) began (rename_retry world p staging live disk).0
  unfolding path_exists
  Swapping-promoted world p aside promoted began disk hp gone ok s q =
      let here : Stands (has q aside) (has q promoted) (dirs_of q began) (dirs_of q disk) = s q in
      elim (Bool-cases (same p q)) [
        | inl e ↦
            let eq = same_eq p q e in
            let b : has q promoted ≡ false = subst (λ x. has x promoted ≡ false) eq hp in
            let g =
              subst (λ x. has x aside ≡ false → is_found (dirs_of x disk).live_dir ≡ false) eq
                gone in
            elim (Bool-cases (has q aside)) [
              | inl a ↦
                  rw (e, a, rename_retry-dirs world p staging live disk q, ok, e)
                    (Stands-promoted (dirs_of q began) (dirs_of q disk) (rw (a, b) at here))
              | inr a ↦
                  rw (e, a, rename_retry-dirs world p staging live disk q, ok, e)
                    (Stands-created (dirs_of q began) (dirs_of q disk) (g a) (rw (a, b) at here))
            ]
        | inr e ↦ rw (e, rename_retry-dirs world p staging live disk q, ok, e) (s q)
      ]

-- The lists of the loop of `Commit`: `all` are the parts that it swaps, `ps` those to come.
pub record Books (all ps aside promoted : List Part) : Type 0 where
  pub covers : (q : Part) → has q all ≡ (if has q promoted then true else has q ps)
  pub ahead : (q : Part) → has q ps ≡ true → (has q aside ≡ false) × (has q promoted ≡ false)
  pub paired : (q : Part) → has q promoted ≡ false → has q aside ≡ false
  pub distinct_ahead : Distinct ps
  pub distinct_aside : Distinct aside
  pub distinct_promoted : Distinct promoted

pub same_self : (p : Part) → same p p ≡ true
same_self output = refl
same_self database = refl

pub Books-head :
    {all ps aside promoted : List Part} (p : Part)
    → Books all (p ∷ ps) aside promoted
    → (has p aside ≡ false) × (has p promoted ≡ false)
Books-head p b = b.ahead p (rw (same_self p) refl)

later_lem :
    (p q : Part) (ps aside : List Part)
    → has p ps ≡ false
    → has q ps ≡ true
    → has q aside ≡ false
    → has q (p ∷ aside) ≡ false
later_lem p q ps aside n k a = elim (Bool-cases (same p q)) [
  | inl e ↦ absurd (let eq = same_eq p q e in cc)
  | inr e ↦ rw e a
]

covers_lem :
    (a p h r : Bool)
    → a ≡ (if h then true else if p then true else r)
    → a ≡ (if if p then true else h then true else r)
covers_lem a p h r e = ground arith

paired_lem :
    (h p a : Bool)
    → (if h then true else p) ≡ false
    → (p ≡ false → a ≡ false)
    → (if h then true else a) ≡ false
paired_lem true p a k f = k
paired_lem false p a k f = f k

unpaired_lem :
    (h p a : Bool) → (if h then true else p) ≡ false → (p ≡ false → a ≡ false) → a ≡ false
unpaired_lem true p a k f = absurd (cc k)
unpaired_lem false p a k f = f k

-- A turn of a part that was moved aside.
pub Books-aside :
    {all ps aside promoted : List Part} (p : Part)
    → Books all (p ∷ ps) aside promoted
    → Books all ps (p ∷ aside) (p ∷ promoted)
Books-aside {all} {ps} {aside} {promoted} p b = record {
  covers = λ q. covers_lem (has q all) (same p q) (has q promoted) (has q ps) (b.covers q);
  ahead = λ q k.
      let h = b.ahead q (has_tail p q ps k) in
      (
        later_lem p q ps aside b.distinct_ahead.0 k h.0,
        later_lem p q ps promoted b.distinct_ahead.0 k h.1,
      );
  paired = λ q k. paired_lem (same p q) (has q promoted) (has q aside) k (b.paired q);
  distinct_ahead = b.distinct_ahead.1;
  distinct_aside = ((Books-head p b).0, b.distinct_aside);
  distinct_promoted = ((Books-head p b).1, b.distinct_promoted);
}

-- A turn of a part that had no live directory.
pub Books-created :
    {all ps aside promoted : List Part} (p : Part)
    → Books all (p ∷ ps) aside promoted
    → Books all ps aside (p ∷ promoted)
Books-created {all} {ps} {aside} {promoted} p b = record {
  covers = λ q. covers_lem (has q all) (same p q) (has q promoted) (has q ps) (b.covers q);
  ahead = λ q k.
      let h = b.ahead q (has_tail p q ps k) in
      (h.0, later_lem p q ps promoted b.distinct_ahead.0 k h.1);
  paired = λ q k. unpaired_lem (same p q) (has q promoted) (has q aside) k (b.paired q);
  distinct_ahead = b.distinct_ahead.1;
  distinct_aside = b.distinct_aside;
  distinct_promoted = ((Books-head p b).1, b.distinct_promoted);
}
