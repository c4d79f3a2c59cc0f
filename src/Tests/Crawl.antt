-- ===== src/Tests/Crawl.antt =====
-- The queue, the links, the task of a page and the end of a crawl, on examples.
use Prim.Native.String.{String}
use text.Mathlib.Text.{◌==◌ as str_eq}
use doc_scraper.Prelude.{
  ℕ, ◌+◌, Bool, true, false, ◌||◌, List, [], ◌∷◌, length, none, some, ◌≡◌, refl, arith,
  if◌then◌else◌,
}
use doc_scraper.Prelude.Int.{pos, ltz, i64, ◌+ℤ◌}
use doc_scraper.Prelude.Assoc.{lookup, insert}
use doc_scraper.Prelude.Sort.{count_if}
use doc_scraper.Errors.{Error, retry_failed, is, wraps_any}
use doc_scraper.Crawler.Failures.{classify, record_failure, entry_for, mark_noindex}
use doc_scraper.Store.Entries.{WorkItem}
use doc_scraper.Store.Database.{
  BadgerStore, TxnWorld, commits, check_page_status, page_answer, update_page_status, db_update,
  db_update_from, put_page, is_found,
}
use doc_scraper.Store.Requeue.{queued}
use doc_scraper.Store.Scan.{ScanWorld, requeue_incomplete}
use doc_scraper.Queue.{PqItem, HeapOps, new_queue, add, pop, close_queue}
use doc_scraper.Queue.Items.{push_back, pop_back}
use doc_scraper.Queue.Bag.{
  QueueCall, adds, pops, closes, queue_step, queue_run, in_queue, queue_run_keeps,
}
use doc_scraper.Urls.{Url, UrlOps, normalize_url, normalized, plain_host, without_slash}
use doc_scraper.Links.{LinkScope, LinkWorld, LinkState, Anchor, extract_and_queue_links}
use doc_scraper.Links.Scope.{extract_and_queue_links_fit}
use doc_scraper.Links.Queued.{QueuedOnce}
use doc_scraper.PageTask.State.{Crawl, PageConfig, PageWorld, Task, Ends}
use doc_scraper.PageTask.Task.{
  process_single_page_task, deferred_cleanup, run_body, has_error, page_body, recover_panic,
  is_panic, finish_task, tally_page, count_page, write_entry,
}
use doc_scraper.PageTask.Fetching.{fetch_and_validate_page}
use doc_scraper.PageTask.Steps.{
  setup, already_done, run_policy_checks, acquire_resources, acquire_global, wait_delay, fetch_page,
  after_fetch, is_gone, cleanup_resources,
}
use doc_scraper.PageTask.Slots.{watch_all, idle, run_body_slots}
use doc_scraper.PageTask.Tallies.{Accounts, task_fails, process_single_page_task-Accounts}
use doc_scraper.PageTask.Outstanding.{process_single_page_task_wg}
use doc_scraper.PageTask.Requeued.{task_end, process_single_page_task_requeued}
use doc_scraper.Run.Start.{seed_start_urls}
use doc_scraper.Run.Seeding.{follow_pages, fresh_crawl-QueuedOnce}

-- A heap that only calls `Push` and `Pop`.
abbrev pub stack_heap : HeapOps
stack_heap = record {
  heap_push = λ i x h. i.push_item x h;
  heap_pop = λ i h. i.pop_item h;
  heap_push_adds = λ i keeps p x h. keeps.push_adds p x h;
  heap_pop_gives = λ i keeps x h. keeps.pop_gives x h;
  heap_pop_takes = λ i keeps p h rest x e. keeps.pop_takes p h rest x e;
}

abbrev calls : List QueueCall
calls =
    adds (record { url = "/b"; depth = pos 2 })
    ∷ adds (record { url = "/a"; depth = pos 1 })
    ∷ pops
    ∷ closes
    ∷ []

popped_once :
    (queue_run stack_heap calls new_queue).1.given_out ≡ record { url = "/a"; depth = pos 1 } ∷ []
unfolding queue_run queue_step add pop push_back pop_back close_queue
popped_once = refl

queue_run_keeps_example :
    ((queue_run stack_heap calls new_queue).1.panicked ≡ false)
    × (count_if (λ w. true) (queue_run stack_heap calls new_queue).1.taken_in + 0
        ≡ count_if (λ w. true) (queue_run stack_heap calls new_queue).1.given_out
          + count_if (in_queue (λ w. true)) (queue_run stack_heap calls new_queue).0.pq)
queue_run_keeps_example = queue_run_keeps stack_heap (λ w. true) calls new_queue

abbrev page_at : String → Url
page_at p = record {
  scheme = "https";
  opaque = "";
  user = none;
  host = "a";
  path = p;
  raw_path = "";
  omit_host = false;
  force_query = false;
  raw_query = "";
  fragment = "";
  raw_fragment = "";
}

-- Texts are paths on one host.
abbrev pub path_ops : UrlOps
path_ops = record {
  parse = λ s. if str_eq s "" then none else some (page_at s);
  resolve = λ base s. some (page_at s);
  render = λ u. u.path;
  hostname = λ u. u.host;
  split_host_port = λ s. none;
  equal_fold = str_eq;
  lower = λ s. s;
  ext = λ s. "";
}

abbrev pub scope : LinkScope
scope = record {
  max_depth = pos 3;
  allowed_domain = "a";
  allowed_path_prefix = "/";
  respect_nofollow = true;
  disallowed = [];
}

abbrev commits_at_once : ℕ → TxnWorld
commits_at_once k = record { others = λ s. s; outcome = commits }

abbrev pub link_world : LinkWorld
link_world = record { txns = λ k. commits_at_once; clock = λ k. k }

abbrev no_pages : BadgerStore
no_pages = record { pages = []; images = []; key_count = 0 }

abbrev cfg : PageConfig
cfg = record {
  ops = path_ops;
  heap = stack_heap;
  scope = scope;
  order = λ links. links;
  enable_incremental = false;
  respect_noindex = true;
  max_page_size = 1000;
  carries = true;
}

abbrev pub crawl : Crawl
crawl = record {
  store = no_pages;
  queue = new_queue;
  wg = 1;
  processed = 4;
  succeeded = 3;
  unchanged = 0;
  saved = 3;
  failures = record { classes = []; noindex = pos 0 };
  gone_pages = [];
  noted = [];
  recorded = [];
}

abbrev timeout : Error
timeout = record { wraps = retry_failed ∷ []; text = "timeout" }

-- The fetch fails after its retries.
abbrev failing : PageWorld
failing = record {
  panics = λ step. false;
  message = λ step. "failed";
  cancelled = false;
  db_reads = true;
  robots_allow = λ u. true;
  host_slot = none;
  global_slot = none;
  request_made = true;
  fetched = (none, some timeout);
  body_read = true;
  parse_result = none;
  noindex = false;
  nofollow = false;
  select_result = none;
  outer_html = none;
  region_hash = "h";
  anchors = [];
  link_world = link_world;
  saved_file_exists = true;
  saved_path = "docs.md";
  save_result = none;
  update_world = commits_at_once;
  now = 9;
}

run_body_slots_example :
    watch_all (run_body cfg failing "/docs" (pos 1) crawl).0.resources idle ≡ idle
run_body_slots_example = run_body_slots cfg failing "/docs" (pos 1) crawl refl refl

process_single_page_task_wg_example :
    ((process_single_page_task cfg failing "/docs" (pos 1) crawl).wg + 1 + 0
      ≡ 1 + length (process_single_page_task cfg failing "/docs" (pos 1) crawl).queue.pq)
    × ((process_single_page_task cfg failing "/docs" (pos 1) crawl).queue.closed ≡ false)
process_single_page_task_wg_example =
    process_single_page_task_wg cfg failing "/docs" (pos 1) crawl refl (omega arith)

-- Links to a page in scope are not off the path "/".
abbrev off_path : WorkItem → Bool
off_path w = ltz (pos 2) w.depth

abbrev anchors : List (List Anchor)
anchors = ((record { href = "/b"; rel = "" }) ∷ []) ∷ []

abbrev pub no_links : LinkState
no_links = record { store = no_pages; queue = new_queue; wg = 1 }

extract_and_queue_links_fit_example :
    count_if
      (λ (x : PqItem). off_path x.work_item)
      (extract_and_queue_links path_ops stack_heap link_world
        (λ l. l)
        scope
        (page_at "/a")
        (pos 1)
        anchors
        no_links).state.queue.pq
    ≡ 0
extract_and_queue_links_fit_example =
    extract_and_queue_links_fit path_ops stack_heap link_world (λ l. l) scope (page_at "/a") (pos 1)
      anchors no_links off_path (λ u parsed text e i n. unfold i64 in unfold ◌+ℤ◌ in refl)
      (λ P links a. a)

fresh_crawl-QueuedOnce_example : QueuedOnce (
    follow_pages path_ops stack_heap
      (λ l. l)
      scope
      ((link_world, (page_at "/a", (pos 0, anchors))) ∷ [])
      (seed_start_urls stack_heap path_ops link_world 0 ("/a" ∷ []) (record {
        state = record { store = no_pages; queue = new_queue; wg = 1 };
        queued = 0;
        failed = false;
      })).state)
fresh_crawl-QueuedOnce_example =
    fresh_crawl-QueuedOnce path_ops stack_heap link_world (λ l. l) scope ("/a" ∷ [])
      ((link_world, (page_at "/a", (pos 0, anchors))) ∷ []) no_pages (λ n k s. refl)
      ((λ n k s. refl), tt)

process_single_page_task-Accounts_example :
    Accounts crawl
      (process_single_page_task cfg failing "/docs" (pos 1) crawl)
      (task_fails cfg failing "/docs" (pos 1) crawl)
process_single_page_task-Accounts_example =
    process_single_page_task-Accounts cfg failing "/docs" (pos 1) crawl 0 refl refl (omega arith)

abbrev docs_end : Task × Ends (Unit {0})
docs_end = task_end cfg failing "/docs" (pos 1) crawl

abbrev quiet_scan : ℕ → ScanWorld
quiet_scan k = record { cancelled = false; readable = true; queue_takes = true }

process_single_page_task_requeued_example :
    queued docs_end.0.normalized_url
      (requeue_incomplete
        (λ m. m)
        quiet_scan
        false
        (process_single_page_task cfg failing "/docs" (pos 1) crawl).store).sent
    ≡ (if has_error docs_end.0 || false then some (pos 1) else none)
unfolding task_end run_body deferred_cleanup acquire_global wait_delay page_body setup already_done
    check_page_status page_answer lookup normalize_url normalized plain_host without_slash
    run_policy_checks acquire_resources fetch_page fetch_and_validate_page after_fetch is_gone
    cleanup_resources recover_panic is_panic has_error process_single_page_task finish_task
    tally_page count_page write_entry update_page_status db_update db_update_from put_page insert
    is_found classify is wraps_any record_failure entry_for mark_noindex
process_single_page_task_requeued_example =
    process_single_page_task_requeued cfg failing "/docs" (pos 1) crawl (λ m. m) quiet_scan false
      refl refl refl (λ k s. refl) tt ((refl, tt), λ url. refl) (λ k. (refl, refl, refl))
