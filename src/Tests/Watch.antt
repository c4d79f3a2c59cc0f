-- ===== src/Tests/Watch.antt =====
-- The watch scheduler on examples.
use Prim.Native.String.{String}
use text.Mathlib.Text.{◌==◌ as str_eq}
use doc_scraper.Prelude.{
  ℕ, ◌+◌, ◌≡◌, refl, Bool, true, false, List, [], ◌∷◌, none, some, leb, if◌then◌else◌,
}
use doc_scraper.Prelude.Int.{pos, ◌+ℤ◌}
use doc_scraper.Prelude.Assoc.{lookup, insert}
use doc_scraper.Prelude.Sort.{sort_by, insert_by}
use doc_scraper.Watch.State.{
  StateManager, SiteState, PageCounts, get_site_state, update_site_state, should_run,
  get_next_run_time, run_time, next_run, no_nil,
}
use doc_scraper.Watch.Due.{rest, should_run-update_site_state}
use doc_scraper.Watch.Scheduler.{
  RunResult, Scheduler, record_result, record_results, next_runs, next_crawl, sooner, first,
  is_canceled, error_text,
}

abbrev nothing : PageCounts
nothing = record { saved = pos 0; unchanged = pos 0; failed = pos 0 }

abbrev ran : ℕ → Bool → SiteState
ran t ok = record {
  last_run_time = t;
  last_run_success = ok;
  pages_saved = pos 0;
  pages_unchanged = pos 0;
  pages_failed = pos 0;
  error_message = "";
}

abbrev manager : List (String × SiteState) → StateManager
manager es = record { state = record { sites = some es; updated_at = 0 }; disk = none }

abbrev before : StateManager
before = manager (("b", ran 7 true) ∷ [])

abbrev after : StateManager
after = manager (("b", ran 7 true) ∷ ("a", ran 100 false) ∷ [])

updated : update_site_state before 100 "a" false nothing "" ≡ some after
unfolding update_site_state insert
updated = refl

should_run-update_site_state_example :
    should_run after "a" (pos 50) 149
    ≡ (if str_eq "a" "a" then leb (100 + rest false 50) 149 else should_run before "a" (pos 50) 149)
should_run-update_site_state_example =
    should_run-update_site_state before after 100 "a" false nothing "" updated 50 149 "a"

abbrev result : RunResult
result = record {
  site_key = "a";
  success = false;
  error = some ("timeout", false);
  counts = nothing;
  recorded_at = 100;
}

abbrev failed_after : StateManager
failed_after =
    manager (("b", ran 7 true) ∷ ("a", record (ran 100 false) { error_message = "timeout" }) ∷ [])

recorded : record_results true (result ∷ []) before ≡ some failed_after
unfolding record_results record_result update_site_state insert is_canceled error_text
recorded = refl

abbrev scheduler : Scheduler
scheduler = record {
  site_keys = "a" ∷ "b" ∷ [];
  interval = pos 50;
  manager = after;
  stopped = false;
  running = [];
}

soonest : next_crawl scheduler 60 ≡ some ("b", pos 57)
unfolding next_crawl next_runs get_next_run_time run_time next_run get_site_state lookup no_nil
    sort_by insert_by sooner first ◌+ℤ◌
soonest = refl
