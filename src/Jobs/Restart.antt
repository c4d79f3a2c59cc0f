-- ===== src/Jobs/Restart.antt =====
-- A manager that was just made, with or without a jobs file, and the histories from there.
use Prim.Native.String.{String}
use text.Mathlib.Text.{◌==◌ as str_eq}
use doc_scraper.Prelude.{
  ℕ, ◌≡◌, refl, true, false, List, [], ◌∷◌, Option, none, some, arith, Bool-cases, inl, inr,
}
use doc_scraper.Prelude.Assoc.{lookup, insert, lookup-insert, insert-UniqueKeys, insert-All}
use doc_scraper.Jobs.Types.{failed, dead, Job, JobManager, is_active_status}
use doc_scraper.Jobs.Table.{prune_terminal, excess}
use doc_scraper.Jobs.Persist.{
  FileRead, unreadable, unparsable, entries, reclassify, load_entry, load_entries, load,
  empty_manager, new_job_manager,
}
use doc_scraper.Jobs.Prune.{lookup-delete_jobs}
use doc_scraper.Jobs.Ownership.{Inv, prune_terminal-Inv}
use doc_scraper.Jobs.History.{Reach, Reach-Inv}

-- No job of the table is active.
abbrev pub AllEnded : List (String × Job) → Type 0
AllEnded jobs = (k : String) (j : Job) → lookup k jobs ≡ some j → is_active_status j.status ≡ false

record IsFresh (m : JobManager) : Type 0 where
  invariant : Inv m
  ended : AllEnded m.jobs

failed_ended : is_active_status failed ≡ false
unfolding is_active_status
failed_ended = refl

reclassify-ended : (now : ℕ) (j : Job) → is_active_status (reclassify now j).status ≡ false
unfolding reclassify
reclassify-ended now j = ground (arith, failed_ended)

reclassify-id : (now : ℕ) (j : Job) → (reclassify now j).id ≡ j.id
unfolding reclassify
reclassify-id now j = ground arith

insert-AllEnded :
    (jobs : List (String × Job)) (id : String) (j : Job)
    → AllEnded jobs
    → is_active_status j.status ≡ false
    → AllEnded (insert id j jobs)
insert-AllEnded jobs id j h e k x f = elim (Bool-cases (str_eq id k)) [
  | inl same ↦
      let this : x ≡ j = ground (arith, lookup-insert id k j jobs, f) in ground (arith, this, e)
  | inr apart ↦ h k x (ground (arith, lookup-insert id k j jobs, f))
]

load_entry-IsFresh :
    (now : ℕ) (e : Option Job) (m : JobManager) → IsFresh m → IsFresh (load_entry now e m)
unfolding load_entry
load_entry-IsFresh now none m v = v
load_entry-IsFresh now (some j) m v = elim (Bool-cases (str_eq j.id "")) [
  | inl e ↦ rw (e, load_entry) v
  | inr e ↦
      let gone : AllEnded
          (insert j.id (record (reclassify now j) { ctx = dead; progress = none }) m.jobs) =
        insert-AllEnded m.jobs j.id _ v.ended (reclassify-ended now j) in
      rw (e, load_entry)
        (record {
          invariant = record {
            keyed =
                insert-All (λ (x : String × Job). x.1.id ≡ x.0) j.id _ m.jobs (reclassify-id now j)
                  v.invariant.keyed;
            unique = insert-UniqueKeys j.id _ m.jobs v.invariant.unique;
            owned = λ k x f a. absurd (cc (gone k x f, a));
          };
          ended = gone;
        })
]

load_entries-IsFresh :
    (now : ℕ) (es : List (Option Job)) (m : JobManager)
    → IsFresh m
    → IsFresh (load_entries now es m)
unfolding load_entries
load_entries-IsFresh now [] m v = v
load_entries-IsFresh now (e ∷ es) m v =
    load_entries-IsFresh now es (load_entry now e m) (load_entry-IsFresh now e m v)

prune_terminal-IsFresh : (m : JobManager) → IsFresh m → IsFresh (prune_terminal m)
prune_terminal-IsFresh m v = record {
  invariant = prune_terminal-Inv m v.invariant;
  ended = λ k j f.
      v.ended k j
        (unfold prune_terminal in ground (arith, lookup-delete_jobs (excess m.jobs) k m.jobs, f));
}

empty_manager-IsFresh : (path : String) → IsFresh (empty_manager path)
unfolding empty_manager
empty_manager-IsFresh path = record {
  invariant = record { keyed = tt; unique = tt; owned = λ k j f a. absurd (unfold lookup in cc f) };
  ended = λ k j f. absurd (unfold lookup in cc f);
}

load-IsFresh : (now : ℕ) (file : FileRead) (m : JobManager) → IsFresh m → IsFresh (load now file m)
unfolding load
load-IsFresh now unreadable m v = v
load-IsFresh now unparsable m v = v
load-IsFresh now (entries es) m v = prune_terminal-IsFresh _ (
    load_entries-IsFresh now es _ (record {
      invariant = record {
        keyed = v.invariant.keyed;
        unique = v.invariant.unique;
        owned = v.invariant.owned;
      };
      ended = v.ended;
    }))

new_job_manager-IsFresh :
    (now : ℕ) (file : FileRead) (path : String) → IsFresh (new_job_manager now file path)
unfolding new_job_manager
new_job_manager-IsFresh now file path = elim (Bool-cases (str_eq path "")) [
  | inl e ↦ rw (e, new_job_manager) (empty_manager-IsFresh path)
  | inr e ↦
      rw (e, new_job_manager)
        (load-IsFresh now file (empty_manager path) (empty_manager-IsFresh path))
]

-- Whatever the jobs file holds, no job is pending or running after a restart.
pub new_job_manager-AllEnded :
    (now : ℕ) (file : FileRead) (path : String) → AllEnded (new_job_manager now file path).jobs
new_job_manager-AllEnded now file path = (new_job_manager-IsFresh now file path).ended

-- Whatever the file held at the start and whatever calls came since, as long as no status change
-- made an ended job active again, two jobs of one site that are both pending or running are the
-- same job.
pub one_active_job :
    (now : ℕ) (file : FileRead) (path : String) (m : JobManager)
    → Reach (new_job_manager now file path) m
    → (i k : String) (a b : Job) → lookup i m.jobs ≡ some a
    → lookup k m.jobs ≡ some b
    → is_active_status a.status ≡ true
    → is_active_status b.status ≡ true
    → a.site_key ≡ b.site_key
    → i ≡ k
one_active_job now file path m r i k a b f g x y s =
    let v = Reach-Inv (new_job_manager-IsFresh now file path).invariant r in
    ground (arith, v.owned i a f x, v.owned k b g y, s)
