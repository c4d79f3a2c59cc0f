-- ===== src/Jobs/Shutdown.antt =====
-- CancelAll keeps the ownership of sites: it leaves no job active.
use Prim.Native.String.{String}
use text.Mathlib.Text.{◌==◌ as str_eq}
use doc_scraper.Prelude.{
  ◌≡◌, refl, false, List, [], ◌∷◌, some, arith, Bool-cases, inl, inr, ap, ◌∙◌,
}
use mathlib.Core.Option
use doc_scraper.Prelude.Assoc.{lookup, UniqueKeys}
use doc_scraper.Jobs.Types.{Job, JobManager, is_active_status}
use doc_scraper.Jobs.Manager.{Call, cancel_all, shut_down, shut_down_all}
use doc_scraper.Jobs.Prune.{Keyed}
use doc_scraper.Jobs.Ownership.{Inv, prune_terminal-Inv}
use doc_scraper.Jobs.Operations.{cancelled_ended}

shut_down-ended : (c : Call) (j : Job) → is_active_status (shut_down c j).status ≡ false
unfolding shut_down
shut_down-ended c j = ground (arith, cancelled_ended)

shut_down_all-Keyed :
    (c : Call) (jobs : List (String × Job)) → Keyed jobs → Keyed (shut_down_all c jobs)
unfolding shut_down_all
shut_down_all-Keyed c [] h = tt
shut_down_all-Keyed c ((k, j) ∷ jobs) h = (ground (arith, h.0), shut_down_all-Keyed c jobs h.1)

lookup-shut_down_all :
    (c : Call) (k : String) (jobs : List (String × Job))
    → lookup k (shut_down_all c jobs) ≡ Option.map (shut_down c) (lookup k jobs)
unfolding shut_down_all lookup
lookup-shut_down_all c k [] = refl
lookup-shut_down_all c k ((i, j) ∷ jobs) = elim (Bool-cases (str_eq i k)) [
  | inl e ↦ rw (e, lookup)
  | inr e ↦ rw (e, lookup) (lookup-shut_down_all c k jobs)
]

shut_down_all-UniqueKeys :
    (c : Call) (jobs : List (String × Job)) → UniqueKeys jobs → UniqueKeys (shut_down_all c jobs)
unfolding shut_down_all
shut_down_all-UniqueKeys c [] u = tt
shut_down_all-UniqueKeys c ((k, j) ∷ jobs) u = (
  lookup-shut_down_all c k jobs ∙ ap (Option.map (shut_down c)) u.0,
  shut_down_all-UniqueKeys c jobs u.1,
)

shut_down_all-ended :
    (c : Call) (k : String) (jobs : List (String × Job)) (j : Job)
    → lookup k (shut_down_all c jobs) ≡ some j
    → is_active_status j.status ≡ false
unfolding shut_down_all lookup
shut_down_all-ended c k [] j f = cc
shut_down_all-ended c k ((i, x) ∷ jobs) j f = elim (Bool-cases (str_eq i k)) [
  | inl e ↦ ground (arith, shut_down-ended c x, f)
  | inr e ↦ shut_down_all-ended c k jobs j (ground (arith, f))
]

pub cancel_all-Inv : (c : Call) (m : JobManager) → Inv m → Inv (cancel_all c m)
unfolding cancel_all
cancel_all-Inv c m v = prune_terminal-Inv _ (record {
  keyed = shut_down_all-Keyed c m.jobs v.keyed;
  unique = shut_down_all-UniqueKeys c m.jobs v.unique;
  owned = λ k j f a. absurd (cc (shut_down_all-ended c k m.jobs j f, a));
})
