-- ===== src/Jobs/Ownership.antt =====
-- Which job owns a site: the table `bysite` names every job that is pending or running.
use Prim.Native.String.{String}
use text.Mathlib.Text.{◌==◌ as str_eq}
use text.Mathlib.TextEquality.{eq_iff}
use doc_scraper.Prelude.{◌≡◌, refl, true, false, List, some, arith, Bool-cases, inl, inr, ◌∙◌}
use doc_scraper.Prelude.Assoc.{
  lookup, insert, lookup-insert, lookup-delete, UniqueKeys, insert-UniqueKeys, insert-All,
  lookup-All,
}
use doc_scraper.Jobs.Types.{
  JobStatus, pending, running, completed, failed, cancelled, other, Job, JobManager,
  is_terminal_status, is_active_status,
}
use doc_scraper.Jobs.Table.{prune_terminal, excess}
use doc_scraper.Jobs.Manager.{names, release_site}
use doc_scraper.Jobs.Prune.{Keyed, lookup-delete_jobs, delete_jobs-Keyed, delete_jobs-UniqueKeys}

-- Every active job is the one that its site names.
abbrev pub IsOwned : List (String × Job) → List (String × String) → Type 0
IsOwned jobs bysite =
    (k : String) (j : Job)
    → lookup k jobs ≡ some j
    → is_active_status j.status ≡ true
    → lookup j.site_key bysite ≡ some k

pub record Inv (m : JobManager) : Type 0 where
  pub keyed : Keyed m.jobs
  pub unique : UniqueKeys m.jobs
  pub owned : IsOwned m.jobs m.bysite

pub active_not_terminal : (s : JobStatus) → is_active_status s ≡ true → is_terminal_status s ≡ false
unfolding is_active_status is_terminal_status
active_not_terminal pending h = refl
active_not_terminal running h = refl
active_not_terminal completed h = cc
active_not_terminal failed h = cc
active_not_terminal cancelled h = cc
active_not_terminal (other s) h = refl

pub prune_terminal-Inv : (m : JobManager) → Inv m → Inv (prune_terminal m)
unfolding prune_terminal
prune_terminal-Inv m v = record {
  keyed = delete_jobs-Keyed (excess m.jobs) m.jobs v.keyed;
  unique = delete_jobs-UniqueKeys (excess m.jobs) m.jobs v.unique;
  owned = λ k j f a. v.owned k j (ground (arith, lookup-delete_jobs (excess m.jobs) k m.jobs, f)) a;
}

-- Storing a job under its id, with a site table that still names every active job.
pub insert-Inv :
    (m : JobManager) (id : String) (j : Job) (bysite : List (String × String))
    → Inv m
    → j.id ≡ id
    → IsOwned (insert id j m.jobs) bysite
    → Inv (record m { jobs = insert id j m.jobs; bysite = bysite })
insert-Inv m id j bysite v e o = record {
  keyed = insert-All (λ (x : String × Job). x.1.id ≡ x.0) id j m.jobs e v.keyed;
  unique = insert-UniqueKeys id j m.jobs v.unique;
  owned = o;
}

-- An update that keeps a job's site and does not make it active keeps the ownership.
update-IsOwned :
    (m : JobManager) (id : String) (j j' : Job)
    → Inv m
    → lookup id m.jobs ≡ some j
    → j'.site_key ≡ j.site_key
    → (is_active_status j'.status ≡ true → is_active_status j.status ≡ true)
    → IsOwned (insert id j' m.jobs) m.bysite
update-IsOwned m id j j' v found site keeps k x f a = elim (Bool-cases (str_eq id k)) [
  | inl e ↦
      let same : x ≡ j' = ground (arith, lookup-insert id k j' m.jobs, f) in
      let owner : lookup j.site_key m.bysite ≡ some id =
        v.owned id j found (keeps (ground (arith, same, a))) in
      ground (arith, same, site, owner, eq_iff id k)
  | inr e ↦ v.owned k x (ground (arith, lookup-insert id k j' m.jobs, f)) a
]

pub update-Inv :
    (m : JobManager) (id : String) (j j' : Job)
    → Inv m
    → lookup id m.jobs ≡ some j
    → j'.id ≡ j.id
    → j'.site_key ≡ j.site_key
    → (is_active_status j'.status ≡ true → is_active_status j.status ≡ true)
    → Inv (record m { jobs = insert id j' m.jobs })
update-Inv m id j j' v found same site keeps =
    insert-Inv m id j' m.bysite v
      (same ∙ lookup-All (λ (x : String × Job). x.1.id ≡ x.0) id j m.jobs v.keyed found)
      (update-IsOwned m id j j' v found site keeps)

-- A job that ends gives up its site, and no other job's.
pub release-IsOwned :
    (m : JobManager) (id : String) (j j' : Job)
    → Inv m
    → lookup id m.jobs ≡ some j
    → is_active_status j'.status ≡ false
    → IsOwned (insert id j' m.jobs) (release_site m.bysite j)
unfolding release_site names
release-IsOwned m id j j' v found ended k x f a = elim (Bool-cases (str_eq id k)) [
  | inl e ↦
      let same : x ≡ j' = ground (arith, lookup-insert id k j' m.jobs, f) in
      absurd (ground (arith, same, a, ended))
  | inr e ↦
      let under : j.id ≡ id =
        lookup-All (λ (y : String × Job). y.1.id ≡ y.0) id j m.jobs v.keyed found in
      let owner : lookup x.site_key m.bysite ≡ some k =
        v.owned k x (ground (arith, lookup-insert id k j' m.jobs, f)) a in
      ground (
        arith,
        under,
        owner,
        lookup-delete j.site_key x.site_key m.bysite,
        eq_iff j.site_key x.site_key,
        eq_iff k j.id,
        eq_iff id k,
      )
]
