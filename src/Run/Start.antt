-- ===== src/Run/Start.antt =====
-- pkg/crawler/crawler.go: the start URLs, what a resume queues, the sitemaps of robots.txt, and the
-- progress that is reported.
use Prim.Native.String.{String}
use text.Mathlib.Text.{starts_with}
use doc_scraper.Prelude.{ℕ, ◌+◌, Bool, not, List, [], ◌∷◌, Option, none, some, if◌then◌else◌}
use doc_scraper.Prelude.Int.{ℤ, pos, ◌-ℤ◌, i64}
use doc_scraper.Crawler.Failures.{Failures, snapshot}
use doc_scraper.Store.Entries.{WorkItem}
use doc_scraper.Store.Database.{mark_page_visited}
use doc_scraper.Store.Scan.{ScanResult}
use doc_scraper.Queue.{HeapOps, add, queue_len}
use doc_scraper.Urls.{Url, UrlOps, same_host, parse_and_normalize}
use doc_scraper.Links.{LinkScope, LinkWorld, LinkState, LinkResult, member, target_path, queue_link}
use doc_scraper.PageTask.State.{Crawl}

-- `index.Mode`
pub data Mode : Type 0 where
  mode_full mode_resume mode_incremental : Mode

-- `deriveMode`
unfoldable pub derive_mode : Bool → Bool → Mode
derive_mode resume incremental =
    if incremental then mode_incremental else if resume then mode_resume else mode_full

-- `FoundSitemap`, on the URLs found before.
unfoldable pub found_sitemap : String → List String → List String
found_sitemap url found = if member url found then found else url ∷ found

pub record CrawlerProgress : Type 0 where
  pub pages_processed : ℕ
  pub pages_saved : ℕ
  pub pages_failed : ℤ
  pub pages_unchanged : ℕ
  pub pages_queued : ℕ
  pub is_running : Bool
  pub failed_classes : Failures

-- `GetProgress`; the Bool says whether the context is still alive.
unfoldable pub get_progress : Bool → Crawl → CrawlerProgress
get_progress alive c =
    let f = snapshot c.failures in
    record {
      pages_processed = c.processed;
      pages_saved = c.saved;
      pages_failed = i64 (i64 (pos c.processed -ℤ pos c.succeeded) -ℤ f.noindex);
      pages_unchanged = c.unchanged;
      pages_queued = queue_len c.queue;
      is_running = alive;
      failed_classes = f;
    }

-- Whether a start URL is kept; `parse_request` is `url.ParseRequestURI`.
unfoldable pub keeps_start_url : UrlOps → (String → Option Url) → LinkScope → String → Option Url
keeps_start_url ops parse_request scope text = elim (parse_request text) [
  | none ↦ none
  | some u ↦
      if not (same_host ops (ops.hostname u) scope.allowed_domain)
      then none
      else if starts_with (target_path u) scope.allowed_path_prefix
      then some u
      else none
]

-- The loop of `validateStartURLs`, with the URLs seen so far.
unfoldable pub valid_start_urls :
    UrlOps → (String → Option Url) → LinkScope → List String → List String → List (String × Url)
valid_start_urls ops parse_request scope seen [] = []
valid_start_urls ops parse_request scope seen (text ∷ rest) =
    let later = valid_start_urls ops parse_request scope (text ∷ seen) rest in
    if member text seen
    then valid_start_urls ops parse_request scope seen rest
    else elim (keeps_start_url ops parse_request scope text) [
      | none ↦ later
      | some u ↦ (text, u) ∷ later
    ]

-- `validateStartURLs`: none is the error that no URL is left.
unfoldable pub validate_start_urls :
    UrlOps → (String → Option Url) → LinkScope → List String → Option (List (String × Url))
validate_start_urls ops parse_request scope urls =
    elim (valid_start_urls ops parse_request scope [] urls) [ [] ↦ none | u ∷ us ↦ some (u ∷ us) ]

module _ (heap : HeapOps) where
  -- The goroutine of `requeueIncomplete` that queues what the scan sends.
  unfoldable pub requeue_items : List WorkItem → LinkState → LinkState
  requeue_items [] s = s
  requeue_items (w ∷ ws) s =
      requeue_items ws (record s { queue = add heap w s.queue; wg = s.wg + 1 })

  -- `requeueIncomplete` of the crawler: without a resume it does nothing; none is the error of a
  -- cancelled context, and the count is that of the items queued.
  unfoldable pub requeue_on_resume : Bool → Bool → ScanResult → LinkState → LinkState × Option ℕ
  requeue_on_resume resume cancelled scan s =
      if not resume
      then (s, some 0)
      else (requeue_items scan.sent s, if cancelled then none else some scan.requeued_count)

  -- `seedStartURLs`
  unfoldable pub seed_start_urls : UrlOps → LinkWorld → ℕ → List String → LinkResult → LinkResult
  seed_start_urls ops world k [] r = r
  seed_start_urls ops world k (text ∷ rest) r = elim (parse_and_normalize ops text) [
    | none ↦ seed_start_urls ops world (k + 1) rest r
    | some (seed, u) ↦
        let marked = mark_page_visited (world.txns k) (world.clock k) seed (pos 0) r.state.store in
        seed_start_urls ops world (k + 1) rest
          (queue_link heap world (pos 0) seed marked.0 marked.1 r)
  ]
