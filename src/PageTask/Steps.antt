-- ===== src/PageTask/Steps.antt =====
-- The steps of processSinglePageTask in pkg/crawler/crawler.go.
use Prim.Native.String.{String}
use text.Mathlib.Text.{◌==◌ as str_eq}
use doc_scraper.Prelude.{
  Bool, true, false, not, ◌&&◌, ◌||◌, [], ◌∷◌, ◌++◌, Option, none, some, if◌then◌else◌, ◌==◌,
}
use doc_scraper.Prelude.Int.{ℤ, pos, ltz, lez}
use doc_scraper.Errors.{Error, parsing, max_depth_exceeded, robots_disallowed, semaphore_timeout}
use doc_scraper.Store.Entries.{success}
use doc_scraper.Store.Database.{check_page_status, get_page_content_hash}
use doc_scraper.Urls.{Url, normalize_url}
use doc_scraper.Links.{extract_and_queue_links}
use doc_scraper.PageTask.State.{
  take_host, take_global, free_host, free_global, parse_page, PageConfig, PageWorld, Response, Task,
  in_setup, in_policy, in_acquire, in_acquire_global, in_delay, in_links, goes_on, returns,
  panicked, M, note_error, fail_with, check_error,
}
use doc_scraper.PageTask.Fetching.{error_of, fetch_and_validate_page}

module _ (cfg : PageConfig) (world : PageWorld) where
  -- The answer of `CheckPageStatus` in `handleSetupAndResumeCheck`: whether the page is done.
  unfoldable pub already_done : Task → Bool
  already_done t = elim (check_page_status world.db_reads t.crawl.store t.normalized_url).0 [
    | success ↦ not cfg.enable_incremental
    | status ↦ false
  ]

  -- `handleSetupAndResumeCheck` and what the task does with its answer.
  unfoldable pub setup : String → M Url
  setup url t = elim (cfg.ops.parse url) [
    | none ↦ fail_with (error_of world in_setup (parsing ∷ [])) t
    | some u ↦
        let t' = record t { normalized_url = normalize_url cfg.ops u } in
        if str_eq (cfg.ops.hostname u) "" && not (str_eq u.scheme "file")
        then fail_with (error_of world in_setup []) t'
        else if already_done t'
        then (record t' { skipped = true }, returns)
        else (t', goes_on u)
  ]

  -- `runPolicyChecks`
  unfoldable pub run_policy_checks : Url → ℤ → Option Error
  run_policy_checks u depth =
      if ltz (pos 0) cfg.scope.max_depth && lez cfg.scope.max_depth depth
      then some (error_of world in_policy (max_depth_exceeded ∷ []))
      else if world.robots_allow u
      then none
      else some (error_of world in_policy (robots_disallowed ∷ []))

  -- The cleanup function that `acquireResources` returns.
  unfoldable pub cleanup_resources : Task → Task
  cleanup_resources t = record t {
    has_host = false;
    has_global = false;
    resources =
        t.resources
        ++ ((if t.has_host then free_host ∷ [] else [])
            ++ (if t.has_global then free_global ∷ [] else []));
  }

  abbrev pub slot_error : Error → Error
  slot_error e = record { wraps = semaphore_timeout ∷ e.wraps; text = world.message in_acquire }

  abbrev pub took_host : Task → Task
  took_host t = record t { has_host = true; resources = t.resources ++ (take_host ∷ []) }

  abbrev pub took_global : Task → Task
  took_global t = record t { has_global = true; resources = t.resources ++ (take_global ∷ []) }

  -- `defer cleanupResources()`
  abbrev pub defer_cleanup : Task → Task
  defer_cleanup t = record t { cleans_up = true }

  -- The delay of the rate limiter, with both slots held.
  unfoldable pub wait_delay : M (Unit {0})
  wait_delay t = if world.panics in_delay then (t, panicked) else (defer_cleanup t, goes_on tt)

  unfoldable pub acquire_global : M (Unit {0})
  unfolding wait_delay
  acquire_global t =
      if world.panics in_acquire_global then (t, panicked) else elim world.global_slot [
        | some e ↦ fail_with (slot_error e) (defer_cleanup t)
        | none ↦ wait_delay (took_global t)
      ]

  -- `acquireResources`, of which an error of a semaphore is wrapped, and the deferred cleanup, which a
  -- panic in it does not reach.
  unfoldable pub acquire_resources : M (Unit {0})
  unfolding acquire_global
  acquire_resources t = elim world.host_slot [
    | some e ↦ fail_with (slot_error e) (defer_cleanup t)
    | none ↦ acquire_global (took_host t)
  ]

  -- The 404 and 410 that mark a page as gone.
  unfoldable pub is_gone : Option Response → Bool
  is_gone none = false
  is_gone (some r) = (r.status == 404) || (r.status == 410)

  abbrev pub mark_gone : Url → Task → Task
  mark_gone u t = record t {
    gone = true;
    crawl = record t.crawl { gone_pages = t.crawl.gone_pages ++ (u ∷ []) };
  }

  unfoldable pub after_fetch : Url → Option Response → Option Error → M Response
  after_fetch u resp (some e) t =
      let failed = note_error e t in (if is_gone resp then mark_gone u failed else failed, returns)
  after_fetch u none none t = (t, panicked)
  after_fetch u (some r) none t = (t, goes_on r)

  -- The fetch, and what the task does with its error.
  unfoldable pub fetch_page : Url → M Response
  fetch_page u t = elim (fetch_and_validate_page cfg world u) [
    | none ↦ (t, panicked)
    | some f ↦ after_fetch u f.resp f.err t
  ]

  -- `parseBody`, which waits for the shared page budget.
  unfoldable pub parse_body : M (Unit {0})
  parse_body t =
      check_error world.parse_result (record t { resources = t.resources ++ (parse_page ∷ []) })

  -- `followLinks`: an error is only logged.
  unfoldable pub follow_links : Url → ℤ → M (Unit {0})
  follow_links page depth t =
      let r =
        extract_and_queue_links cfg.ops cfg.heap world.link_world cfg.order cfg.scope page depth
          world.anchors
          (record { store = t.crawl.store; queue = t.crawl.queue; wg = t.crawl.wg }) in
      (
        record t {
          crawl = record t.crawl { store = r.state.store; queue = r.state.queue; wg = r.state.wg };
        },
        if world.panics in_links then panicked else goes_on tt,
      )

  -- Whether an incremental crawl finds the page unchanged, with its saved file in place.
  unfoldable pub is_unchanged : Task → Bool
  is_unchanged t =
      if world.db_reads
      then elim (get_page_content_hash t.crawl.store t.normalized_url) [
        | none ↦ false
        | some hash ↦ str_eq hash t.content_hash && world.saved_file_exists
      ]
      else false
