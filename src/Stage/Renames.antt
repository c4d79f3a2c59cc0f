-- ===== src/Stage/Renames.antt =====
-- What one rename, and a list of them, does to the directories of pkg/crawler/stage.go.
use doc_scraper.Prelude.{
  ℕ, zero, suc, Bool, true, false, ◌&&◌, List, [], ◌∷◌, none, ◌≡◌, refl, arith, if◌then◌else◌,
  Bool-cases, inl, inr, ◌⊎◌, ◌∙◌, ap,
}
use doc_scraper.Stage.Files.{
  Part, output, database, Place, backup, Dirs, Disk, SysWorld, dirs_of, dir_at, set_dir, rename,
  rename_tries, rename_retry, remove_all,
}
use doc_scraper.Stage.Swap.{rename_each, drop_backups, clear_backups}

abbrev pub same : Part → Part → Bool
same output output = true
same output database = false
same database output = false
same database database = true

abbrev pub has : Part → List Part → Bool
has q [] = false
has q (p ∷ ps) = if same p q then true else has q ps

abbrev pub Distinct : List Part → Type 0
Distinct [] = Unit
Distinct (p ∷ ps) = (has p ps ≡ false) × Distinct ps

pub same_eq : (p q : Part) → same p q ≡ true → p ≡ q
same_eq output output h = refl
same_eq output database h = absurd (cc h)
same_eq database output h = absurd (cc h)
same_eq database database h = refl

outside :
    (p q : Part) (ps : List Part) (b : Bool)
    → has p ps ≡ false
    → has q ps ≡ true
    → (b && same p q) ≡ false
outside p q ps b h k = elim (Bool-cases (same p q)) [
  | inl e ↦ absurd (let eq = same_eq p q e in cc)
  | inr e ↦ rw e (ground arith)
]

has_head : (p q : Part) (ps : List Part) (b : Bool) → (b && same p q) ≡ true → has q (p ∷ ps) ≡ true
has_head p q ps b h = ground arith

pub has_tail : (p q : Part) (ps : List Part) → has q ps ≡ true → has q (p ∷ ps) ≡ true
has_tail p q ps h = ground arith

module _ {ℓ} {C : Type ℓ} where
  -- The directories of a part once `from` has become `to`.
  abbrev pub moved : Place → Place → Dirs C → Dirs C
  moved from to d = set_dir to (dir_at from d) (set_dir from none d)

  rename-dirs :
      (world : SysWorld C) (p : Part) (from to : Place) (disk : Disk C) (q : Part)
      → dirs_of q (rename world p from to disk).0 ≡ (
          if (rename world p from to disk).1 && same p q
          then moved from to (dirs_of q disk)
          else dirs_of q disk)
  unfolding rename
  rename-dirs world output from to disk output = ground arith
  rename-dirs world output from to disk database = ground arith
  rename-dirs world database from to disk output = ground arith
  rename-dirs world database from to disk database = ground arith

  rename_tries-dirs :
      (world : SysWorld C) (tries : ℕ) (p : Part) (from to : Place) (disk : Disk C) (q : Part)
      → dirs_of q (rename_tries world tries p from to disk).0 ≡ (
          if (rename_tries world tries p from to disk).1 && same p q
          then moved from to (dirs_of q disk)
          else dirs_of q disk)
  unfolding rename_tries
  rename_tries-dirs world zero p from to disk q = refl
  rename_tries-dirs world (suc tries) p from to disk q =
      elim (Bool-cases (rename world p from to disk).1) [
        | inl e ↦ rw (e, rename_tries) (rename-dirs world p from to disk q ∙ rw e refl)
        | inr e ↦
            rw (e, rename_tries)
              (ground (
                arith,
                rename-dirs world p from to disk q,
                e,
                rename_tries-dirs world tries p from to (rename world p from to disk).0 q,
              ))
      ]

  -- A rename moves what it is asked to, or nothing.
  pub rename_retry-dirs :
      (world : SysWorld C) (p : Part) (from to : Place) (disk : Disk C) (q : Part)
      → dirs_of q (rename_retry world p from to disk).0 ≡ (
          if (rename_retry world p from to disk).1 && same p q
          then moved from to (dirs_of q disk)
          else dirs_of q disk)
  unfolding rename_retry
  rename_retry-dirs world p from to disk q = rename_tries-dirs world 5 p from to disk q

  -- Of a list of renames, a part outside it is left alone, and a part in it is moved or left alone.
  pub rename_each-dirs :
      (world : SysWorld C) (from to : Place) (ps : List Part) (disk : Disk C) (q : Part)
      → Distinct ps
      → (dirs_of q (rename_each world from to ps disk).0 ≡ dirs_of q disk)
        ⊎ ((has q ps ≡ true)
            × (dirs_of q (rename_each world from to ps disk).0 ≡ moved from to (dirs_of q disk)))
  unfolding rename_each
  rename_each-dirs world from to [] disk q d = inl refl
  rename_each-dirs world from to (p ∷ ps) disk q d =
      let r = rename_retry world p from to disk in
      elim (rename_each-dirs world from to ps r.0 q d.1) [
        | inl e ↦ elim (Bool-cases (r.1 && same p q)) [
          | inl t ↦
              inr (has_head p q ps r.1 t, e ∙ rename_retry-dirs world p from to disk q ∙ rw t refl)
          | inr f ↦ inl (e ∙ rename_retry-dirs world p from to disk q ∙ rw f refl)
        ]
        | inr (t, e) ↦ inr (
          has_tail p q ps t,
          e
              ∙ ap (moved from to)
                  (rename_retry-dirs world p from to disk q ∙ rw (outside p q ps (r.1) d.0 t) refl),
        )
      ]

  -- If none of the renames fails, every part of the list is moved.
  pub rename_each-moved :
      (world : SysWorld C) (from to : Place) (ps : List Part) (disk : Disk C) (q : Part)
      → Distinct ps
      → (rename_each world from to ps disk).1 ≡ 0
      → dirs_of q (rename_each world from to ps disk).0
        ≡ (if has q ps then moved from to (dirs_of q disk) else dirs_of q disk)
  unfolding rename_each
  rename_each-moved world from to [] disk q d h = refl
  rename_each-moved world from to (p ∷ ps) disk q d h =
      let r = rename_retry world p from to disk in
      elim (Bool-cases r.1) [
        | inl e ↦ ground (
          arith,
          e,
          same_eq p q,
          d.0,
          rename_retry-dirs world p from to disk q,
          rename_each-moved world from to ps r.0 q d.1 (ground (arith, e, h)),
        )
        | inr e ↦ absurd (ground (arith, e, h))
      ]

  -- Removing backups changes no other place.
  pub remove_all-dirs :
      (world : SysWorld C) (p : Part) (disk : Disk C) (q : Part)
      → ((dirs_of q (remove_all world p backup disk).0).live_dir ≡ (dirs_of q disk).live_dir)
        × ((dirs_of q (remove_all world p backup disk).0).staging_dir
            ≡ (dirs_of q disk).staging_dir)
  unfolding remove_all
  remove_all-dirs world output disk output = ground arith
  remove_all-dirs world output disk database = ground arith
  remove_all-dirs world database disk output = ground arith
  remove_all-dirs world database disk database = ground arith

  pub drop_backups-dirs :
      (world : SysWorld C) (ps : List Part) (disk : Disk C) (q : Part)
      → ((dirs_of q (drop_backups world ps disk)).live_dir ≡ (dirs_of q disk).live_dir)
        × ((dirs_of q (drop_backups world ps disk)).staging_dir ≡ (dirs_of q disk).staging_dir)
  unfolding drop_backups
  drop_backups-dirs world [] disk q = (refl, refl)
  drop_backups-dirs world (p ∷ ps) disk q =
      let one = remove_all-dirs world p disk q in
      let rest = drop_backups-dirs world ps (remove_all world p backup disk).0 q in
      (rest.0 ∙ one.0, rest.1 ∙ one.1)

  pub clear_backups-dirs :
      (world : SysWorld C) (ps : List Part) (disk : Disk C) (q : Part)
      → ((dirs_of q (clear_backups world ps disk).0).live_dir ≡ (dirs_of q disk).live_dir)
        × ((dirs_of q (clear_backups world ps disk).0).staging_dir ≡ (dirs_of q disk).staging_dir)
  unfolding clear_backups
  clear_backups-dirs world [] disk q = (refl, refl)
  clear_backups-dirs world (p ∷ ps) disk q = ground (
    arith,
    remove_all-dirs world p disk q,
    clear_backups-dirs world ps (remove_all world p backup disk).0 q,
  )
