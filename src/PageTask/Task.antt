-- ===== src/PageTask/Task.antt =====
-- pkg/crawler/crawler.go: processSinglePageTask, its deferred function, and the worker's loop.
use Prim.Native.String.{String}
use text.Mathlib.Text.{◌==◌ as str_eq}
use doc_scraper.Prelude.{
  ◌+◌, ◌-◌, Bool, true, false, not, ◌&&◌, ◌||◌, [], ◌∷◌, ◌++◌, none, some, if◌then◌else◌,
}
use doc_scraper.Prelude.Int.{ℤ}
use doc_scraper.Crawler.Failures.{classify, record_failure, mark_noindex, failure_temporary}
use doc_scraper.Store.Entries.{success, failure, PageDbEntry}
use doc_scraper.Store.Database.{update_page_status}
use doc_scraper.Urls.{Url}
use doc_scraper.PageTask.State.{
  Crawl, PageConfig, PageWorld, Task, in_setup, in_policy, in_acquire, in_fetch, in_read, in_parse,
  in_robots, in_select, in_save, Ends, goes_on, returns, panicked, M, ◌>>=◌, ◌>>◌, pure, stop,
  modify, when, note_error, enter, check_error,
}
use doc_scraper.PageTask.Fetching.{read_body}
use doc_scraper.PageTask.Steps.{
  setup, run_policy_checks, cleanup_resources, acquire_resources, fetch_page, parse_body,
  follow_links, is_unchanged,
}

abbrev pub start_task : Crawl → Task
start_task crawl = record {
  crawl = crawl;
  task_err = none;
  skipped = false;
  normalized_url = "";
  content_hash = "";
  gone = false;
  noindex_page = false;
  has_host = false;
  has_global = false;
  cleans_up = false;
  resources = [];
}

unfoldable pub is_panic : Ends (Unit {0}) → Bool
is_panic panicked = true
is_panic returns = false
is_panic (goes_on a) = false

unfoldable pub has_error : Task → Bool
has_error t = elim t.task_err [ none ↦ false | some e ↦ true ]

module _ (cfg : PageConfig) (world : PageWorld) where
  -- A page marked noindex: nothing is saved, and its links are followed unless that is forbidden too.
  unfoldable pub noindex_steps : Url → ℤ → M (Unit {0})
  noindex_steps page depth = do
    modify (λ t. cleanup_resources cfg world (record t { noindex_page = true }))
    if world.nofollow && cfg.scope.respect_nofollow
        then pure tt
        else follow_links cfg world page depth
    stop

  -- The selection of the main content; where it fails, the links are still followed.
  unfoldable pub select_steps : Url → ℤ → M (Unit {0})
  select_steps page depth = elim world.select_result [
    | none ↦ pure tt
    | some e ↦ do
      modify (λ t. cleanup_resources cfg world (note_error e t))
      follow_links cfg world page depth
      stop
  ]

  -- The check for unchanged content.
  unfoldable pub incremental_steps : M (Unit {0})
  incremental_steps t =
      if cfg.enable_incremental && is_unchanged cfg world t
      then (
        record t { crawl = record t.crawl { unchanged = t.crawl.unchanged + 1 }; skipped = true },
        returns,
      )
      else (t, goes_on tt)

  -- `ProcessAndSaveContent`, and the count of what it saved.
  unfoldable pub save_steps : Url → M (Unit {0})
  save_steps page = do
    check_error world.save_result
    modify (λ t. if str_eq world.saved_path "" then t else record t {
      crawl = record t.crawl {
        recorded = t.crawl.recorded ++ (page ∷ []);
        saved = t.crawl.saved + 1;
      };
    })

  -- What follows the fetch and the parse.
  unfoldable pub page_steps : Url → ℤ → M (Unit {0})
  page_steps page depth = do
    enter world in_robots
    when (world.noindex && cfg.respect_noindex) (noindex_steps page depth)
    enter world in_select
    select_steps page depth
    check_error world.outer_html
    modify (λ t. cleanup_resources cfg world (record t { content_hash = world.region_hash }))
    follow_links cfg world page depth
    incremental_steps
    enter world in_save
    save_steps page

  -- The body of `processSinglePageTask`.
  unfoldable pub page_body : String → ℤ → M (Unit {0})
  page_body url depth = do
    enter world in_setup
    u ← setup cfg world url
    enter world in_policy
    check_error (run_policy_checks cfg world u depth)
    enter world in_acquire
    acquire_resources cfg world
    enter world in_fetch
    r ← fetch_page cfg world u
    enter world in_read
    check_error (read_body cfg world r)
    modify (cleanup_resources cfg world)
    enter world in_parse
    parse_body cfg world
    page_steps r.final_url depth

  -- The entry that the deferred function writes.
  abbrev pub final_entry : ℤ → Task → PageDbEntry
  final_entry depth t = elim t.task_err [
    | some e ↦ record {
      status = failure;
      error_type = e.text;
      processed_at = 0;
      last_attempt = world.now;
      depth = depth;
      content_hash = "";
    }
    | none ↦ record {
      status = success;
      error_type = "None";
      processed_at = world.now;
      last_attempt = world.now;
      depth = depth;
      content_hash = t.content_hash;
    }
  ]

  -- `UpdatePageStatus` for the final entry: an error is only logged.
  unfoldable pub write_entry : ℤ → Task → Crawl
  write_entry depth t =
      if t.skipped || str_eq t.normalized_url "" then t.crawl else record t.crawl {
        store =
            (update_page_status world.update_world t.normalized_url (final_entry depth t)
              t.crawl.store).0;
      }

  -- The counters of processed and succeeded pages.
  unfoldable pub count_page : Task → Crawl → Crawl
  count_page t c = if t.skipped then c else record c {
    processed = c.processed + 1;
    succeeded = if has_error t || t.noindex_page then c.succeeded else c.succeeded + 1;
  }

  -- The tally of failures.
  unfoldable pub tally_page : String → Task → Crawl → Crawl
  tally_page url t c =
      let marked = if t.noindex_page then record c { failures = mark_noindex c.failures } else c in
      elim t.task_err [
        | none ↦ marked
        | some e ↦
            let class = classify e t.gone in
            record marked {
              failures = record_failure marked.failures url e class;
              noted =
                  if cfg.carries && str_eq class failure_temporary
                  then elim (cfg.ops.parse url) [ none ↦ c.noted | some u ↦ c.noted ++ (u ∷ []) ]
                  else c.noted;
            }
      ]

  -- The error that stays when the task panicked, and the skip that it overrides.
  unfoldable pub recover_panic : Ends (Unit {0}) → Task → Task
  recover_panic panicked t = record t {
    skipped = false;
    task_err = some (record { wraps = []; text = world.message in_setup });
  }
  recover_panic returns t = t
  recover_panic (goes_on a) t = t

  -- The deferred function, which ends with `wg.Done`.
  unfoldable pub finish_task : String → ℤ → Task × Ends (Unit {0}) → Crawl
  finish_task url depth r =
      let t = recover_panic r.1 r.0 in
      let counted = tally_page url t (count_page t (write_entry depth t)) in
      if has_error t && not (is_panic r.1) && world.cancelled
      then record t.crawl { wg = t.crawl.wg - 1 }
      else record counted { wg = counted.wg - 1 }

  -- The deferred cleanup, if the task came to its `defer`.
  unfoldable pub deferred_cleanup : Task → Task
  deferred_cleanup t = if t.cleans_up then cleanup_resources cfg world t else t

  -- The task with its deferred cleanup, before the deferred function.
  unfoldable pub run_body : String → ℤ → Crawl → Task × Ends (Unit {0})
  run_body url depth crawl =
      let r = page_body url depth (start_task crawl) in (deferred_cleanup r.0, r.1)

  -- `processSinglePageTask`
  unfoldable pub process_single_page_task : String → ℤ → Crawl → Crawl
  process_single_page_task url depth crawl = finish_task url depth (run_body url depth crawl)
