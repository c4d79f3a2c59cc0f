-- ===== src/Watch/Schedule.antt =====
-- What the scheduler starts, and what it records.
use Prim.Native.String.{String}
use text.Mathlib.Text.{◌==◌ as str_eq}
use doc_scraper.Prelude.{
  ℕ, ◌*◌, ◌≤◌, ◌≡◌, ◌⊎◌, refl, Bool, true, ◌&&◌, List, [], ◌∷◌, Option, none, some, arith,
  if◌then◌else◌, Bool-cases, Option-cases, inl, inr, subst,
}
use doc_scraper.Prelude.Int.{ℤ, pos, negsuc, ◌≤ℤ◌, ◌<ℤ◌, pos_part, quot, ltz}
use doc_scraper.Prelude.Sort.{All, All-map, insert_by, insert_by-All, sort_by, All-sort_by}
use doc_scraper.Watch.State.{
  StateManager, SiteState, get_site_state, should_run, is_due, update_site_state,
}
use doc_scraper.Watch.Due.{entry_of, get_site_state-update_site_state}
use doc_scraper.Watch.Scheduler.{
  RunResult, Scheduler, due_among, get_due_sites, record_result, record_results, is_canceled,
  error_text, calculate_tick_interval, at_least_minute, minute, ten_minutes, next_crawl, next_runs,
  sooner, first,
}

-- The scheduler wakes after one minute at the earliest and after ten at the latest, and for an
-- interval of ten minutes or more at least ten times within it.
pub calculate_tick_interval_bounds :
    (interval : ℤ)
    → (minute ≤ℤ calculate_tick_interval interval)
      × (calculate_tick_interval interval ≤ℤ ten_minutes)
      × ((interval <ℤ ten_minutes)
          ⊎ (pos_part (calculate_tick_interval interval) * 10 ≤ pos_part interval))
unfolding calculate_tick_interval at_least_minute quot
calculate_tick_interval_bounds (pos n) = ground arith
calculate_tick_interval_bounds (negsuc n) = ground arith

-- The last of the results for a site that are recorded.
abbrev pub last_result : Bool → String → List RunResult → Option RunResult
last_result stopped site [] = none
last_result stopped site (r ∷ rs) = elim (last_result stopped site rs) [
  | some q ↦ some q
  | none ↦
      if stopped && is_canceled r.error
      then none
      else if str_eq r.site_key site
      then some r
      else none
]

abbrev pub known_after : Option RunResult → Option SiteState → Option SiteState
known_after none before = before
known_after (some r) before = some (entry_of r.recorded_at r.success r.counts (error_text r.error))

get_site_state-record_result :
    (stopped : Bool) (r : RunResult) (m n : StateManager)
    → record_result stopped r m ≡ some n
    → (site : String)
    → get_site_state n site
      ≡ known_after (last_result stopped site (r ∷ [])) (get_site_state m site)
unfolding record_result
get_site_state-record_result stopped r m n h site =
    elim (Bool-cases (stopped && is_canceled r.error)) [
      | inl e ↦ ground (arith, e, h)
      | inr e ↦ ground (
        arith,
        e,
        get_site_state-update_site_state m n r.recorded_at r.site_key r.success r.counts
            (error_text r.error) (rw (e) at h) site,
      )
    ]

last_result_cons :
    (stopped : Bool) (site : String) (r : RunResult) (rs : List RunResult) (s : Option SiteState)
    → known_after (last_result stopped site (r ∷ rs)) s
      ≡ known_after
          (last_result stopped site rs)
          (known_after (last_result stopped site (r ∷ [])) s)
last_result_cons stopped site r rs s = elim (Option-cases (last_result stopped site rs)) [
  | inl e ↦ rw e refl
  | inr (q, e) ↦ rw e refl
]

-- Once a run's results are recorded, what is known of a site is its last result that no shutdown
-- interrupted, and what was known before where there is none.
pub get_site_state-record_results :
    (stopped : Bool) (rs : List RunResult) (m n : StateManager)
    → record_results stopped rs m ≡ some n
    → (site : String)
    → get_site_state n site ≡ known_after (last_result stopped site rs) (get_site_state m site)
unfolding record_results
get_site_state-record_results stopped [] m n h site = ground (arith, h)
get_site_state-record_results stopped (r ∷ rs) m n h site =
    elim (Option-cases (record_result stopped r m)) [
      | inl e ↦ absurd (ground (arith, e, h))
      | inr (k, e) ↦
          rw
            (
              last_result_cons stopped site r rs,
              ← get_site_state-record_result stopped r m k e site,
            )
            (get_site_state-record_results stopped rs k n (rw (e, record_results) at h) site)
    ]

record_result_total :
    (stopped : Bool) (r : RunResult) (m : StateManager) (es : List (String × SiteState))
    → m.state.sites ≡ some es
    → (n : StateManager) × (fs : List (String × SiteState)) × (record_result stopped r m ≡ some n)
      × (n.state.sites ≡ some fs)
unfolding record_result update_site_state
record_result_total stopped r m es e = elim (Bool-cases (stopped && is_canceled r.error)) [
  | inl f ↦ (m, es, rw f refl, e)
  | inr f ↦ rw (f, e) (_, _, refl, refl)
]

-- Recording results never fails on a manager whose map is not nil.
pub record_results_total :
    (stopped : Bool) (rs : List RunResult) (m : StateManager) (es : List (String × SiteState))
    → m.state.sites ≡ some es
    → (n : StateManager) × (record_results stopped rs m ≡ some n)
unfolding record_results
record_results_total stopped [] m es e = (m, refl)
record_results_total stopped (r ∷ rs) m es e =
    let (k, fs, f, g) = record_result_total stopped r m es e in
    rw (f, record_results) (record_results_total stopped rs k fs g)

abbrev Least : List (String × ℤ) → Type 0
Least [] = Unit
Least (y ∷ ys) = All (λ (r : String × ℤ). y.1 ≤ℤ r.1) ys

insert_by-Least :
    (x : String × ℤ) (ys : List (String × ℤ)) → Least ys → Least (insert_by sooner x ys)
unfolding insert_by sooner
insert_by-Least x [] l = tt
insert_by-Least x (y ∷ ys) l = elim (Bool-cases (ltz x.1 y.1)) [
  | inl e ↦
      rw (e, insert_by, sooner)
        (
          ground arith,
          All-map (λ (r : String × ℤ). y.1 ≤ℤ r.1) (λ (r : String × ℤ). x.1 ≤ℤ r.1) ys
              (λ r h. ground (arith, e, h)) l,
        )
  | inr e ↦
      rw (e, insert_by, sooner)
        (insert_by-All sooner (λ (r : String × ℤ). y.1 ≤ℤ r.1) x ys (ground (arith, e)) l)
]

sort_by-Least : (xs : List (String × ℤ)) → Least (sort_by sooner xs)
unfolding sort_by
sort_by-Least [] = tt
sort_by-Least (x ∷ xs) = insert_by-Least x (sort_by sooner xs) (sort_by-Least xs)

first-Least :
    (ys : List (String × ℤ)) (y : String × ℤ)
    → Least ys
    → first ys ≡ some y
    → All (λ (r : String × ℤ). y.1 ≤ℤ r.1) ys
unfolding first
first-Least [] y l h = tt
first-Least (z ∷ ys) y l h =
    let e : z ≡ y = cc h in
    subst (λ (t : String × ℤ). All (λ (r : String × ℤ). t.1 ≤ℤ r.1) (z ∷ ys)) e (omega arith, l)

-- The crawl that is announced is the soonest of all sites.
pub next_crawl_soonest :
    (s : Scheduler) (now : ℕ) (site : String) (time : ℤ)
    → next_crawl s now ≡ some (site, time)
    → All (λ (r : String × ℤ). time ≤ℤ r.1) (next_runs s now)
unfolding next_crawl
next_crawl_soonest s now site time h =
    All-sort_by sooner (λ (r : String × ℤ). time ≤ℤ r.1) (next_runs s now)
      (first-Least (sort_by sooner (next_runs s now)) (site, time) (sort_by-Least (next_runs s now))
        h)

should_run_later :
    (m : StateManager) (k : String) (interval : ℤ) (now later : ℕ)
    → now ≤ later
    → should_run m k interval now ≡ true
    → should_run m k interval later ≡ true
unfolding should_run is_due
should_run_later m k interval now later h e = elim (Option-cases (get_site_state m k)) [
  | inl f ↦ rw f refl
  | inr (s, f) ↦ ground (arith, f, e, h)
]

due_among_later :
    (m : StateManager) (interval : ℤ) (now later : ℕ) (ks : List String)
    → now ≤ later
    → All (λ (k : String). should_run m k interval later ≡ true) (due_among m interval now ks)
unfolding due_among
due_among_later m interval now later [] h = tt
due_among_later m interval now later (k ∷ ks) h = elim (Bool-cases (should_run m k interval now)) [
  | inl e ↦
      rw (e, due_among)
        (should_run_later m k interval now later h e, due_among_later m interval now later ks h)
  | inr e ↦ rw (e, due_among) (due_among_later m interval now later ks h)
]

-- A site that is due stays due for as long as no result is recorded, whether or not a crawl of it
-- runs.
pub get_due_sites_later :
    (s : Scheduler) (now later : ℕ)
    → now ≤ later
    → All (λ (k : String). should_run s.manager k s.interval later ≡ true) (get_due_sites s now)
unfolding get_due_sites
get_due_sites_later s now later h = due_among_later s.manager s.interval now later s.site_keys h
