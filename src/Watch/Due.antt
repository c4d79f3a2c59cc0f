-- ===== src/Watch/Due.antt =====
-- When a site is due, after what its last run recorded.
use Prim.Native.String.{String}
use text.Mathlib.Text.{◌==◌ as str_eq}
use doc_scraper.Prelude.{
  ℕ, ◌+◌, ◌≡◌, refl, Bool, true, false, some, arith, leb, min, if◌then◌else◌, Bool-cases,
  Option-cases, inl, inr,
}
use doc_scraper.Prelude.Int.{ℤ, pos, ◌+ℤ◌, lez}
use doc_scraper.Prelude.Assoc.{lookup-insert}
use doc_scraper.Watch.State.{
  StateManager, SiteState, PageCounts, no_nil, get_site_state, update_site_state, next_run, is_due,
  should_run, run_time, get_next_run_time,
}

-- A site should run exactly when the time that is announced for its next run has come.
pub should_run-get_next_run_time :
    (m : StateManager) (site : String) (interval : ℤ) (now : ℕ)
    → should_run m site interval now ≡ lez (get_next_run_time m site interval now) (pos now)
unfolding should_run get_next_run_time is_due run_time
should_run-get_next_run_time m site interval now = elim (Option-cases (get_site_state m site)) [
  | inl e ↦ rw (e, is_due, run_time) (ground arith)
  | inr (s, e) ↦ rw (e, is_due, run_time) (ground arith)
]

-- How long a site rests after a run.
abbrev pub rest : Bool → ℕ → ℕ
rest true n = n
rest false n = min n 900000000000

abbrev pub entry_of : ℕ → Bool → PageCounts → String → SiteState
entry_of t ok counts msg = record {
  last_run_time = t;
  last_run_success = ok;
  pages_saved = counts.saved;
  pages_unchanged = counts.unchanged;
  pages_failed = counts.failed;
  error_message = msg;
}

-- What is known of a site after a run is recorded.
pub get_site_state-update_site_state :
    (m n : StateManager) (t : ℕ) (site : String) (ok : Bool) (counts : PageCounts) (msg : String)
    → update_site_state m t site ok counts msg ≡ some n
    → (other : String)
    → get_site_state n other
      ≡ (if str_eq site other then some (entry_of t ok counts msg) else get_site_state m other)
unfolding update_site_state get_site_state no_nil
get_site_state-update_site_state m n t site ok counts msg h other =
    elim (Option-cases m.state.sites) [
      | inl e ↦ absurd (ground (arith, e, h))
      | inr (es, e) ↦ ground (arith, e, h, lookup-insert site other (entry_of t ok counts msg) es)
    ]

is_due-entry_of :
    (t : ℕ) (ok : Bool) (counts : PageCounts) (msg : String) (interval now : ℕ)
    → is_due (some (entry_of t ok counts msg)) (pos interval) now ≡ leb (t + rest ok interval) now
unfolding is_due next_run ◌+ℤ◌
is_due-entry_of t true counts msg interval now = ground arith
is_due-entry_of t false counts msg interval now = ground arith

-- After a run that ended at `t` is recorded, its site is due from the interval on if the run
-- succeeded, and from the interval or fifteen minutes on, whichever is less, if it failed; whether
-- any other site is due has not changed.
pub should_run-update_site_state :
    (m n : StateManager) (t : ℕ) (site : String) (ok : Bool) (counts : PageCounts) (msg : String)
    → update_site_state m t site ok counts msg ≡ some n
    → (interval now : ℕ) → (other : String)
    → should_run n other (pos interval) now ≡ (
        if str_eq site other
        then leb (t + rest ok interval) now
        else should_run m other (pos interval) now)
unfolding should_run
should_run-update_site_state m n t site ok counts msg h interval now other =
    elim (Bool-cases (str_eq site other)) [
      | inl e ↦
          rw (get_site_state-update_site_state m n t site ok counts msg h other, e)
            (is_due-entry_of t ok counts msg interval now)
      | inr e ↦ rw (get_site_state-update_site_state m n t site ok counts msg h other, e) refl
    ]
