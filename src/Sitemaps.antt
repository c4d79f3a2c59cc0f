-- ===== src/Sitemaps.antt =====
-- pkg/sitemap/processor.go: the sitemaps of a site, and what they queue. An index is the list of its
-- `loc` values, and so is a URL set.
pub mod Backlog
pub mod Queueing
pub mod Processing
use Prim.Native.String.{String}
use text.Mathlib.Text.{◌==◌ as str_eq, starts_with}
use doc_scraper.Prelude.{
  ℕ, zero, suc, ◌+◌, Bool, true, false, not, ◌&&◌, ◌||◌, List, [], ◌∷◌, ◌++◌, length, Option, none,
  some, if◌then◌else◌, leb,
}
use doc_scraper.Prelude.Int.{ℤ, pos, lez, ltz}
use doc_scraper.Queue.{HeapOps}
use doc_scraper.Urls.{Url, UrlOps, same_host, parse_and_normalize}
use doc_scraper.Links.{
  LinkScope, LinkState, LinkWorld, LinkResult, member, any_match, target_path, queue_links,
}
use Backlog.{SitemapTask, SitemapBacklog, push, new_sitemap_backlog}

abbrev pub max_sitemap_index_depth : ℕ
max_sitemap_index_depth = 2

abbrev pub max_sitemaps_per_site : ℕ
max_sitemaps_per_site = 1000

-- The keys of `sitemapsProcessed`, the backlog, and the tokens that the main WaitGroup holds for it.
pub record SitemapProcessor : Type 0 where
  pub processed : List String
  pub limit_logged : Bool
  pub backlog : SitemapBacklog
  pub wg : ℕ

abbrev pub new_sitemap_processor : ℕ → SitemapProcessor
new_sitemap_processor wg = record {
  processed = [];
  limit_logged = false;
  backlog = new_sitemap_backlog;
  wg = wg;
}

unfoldable pub mark_sitemap_processed : String → SitemapProcessor → SitemapProcessor × Bool
mark_sitemap_processed url sp =
    if member url sp.processed
    then (sp, false)
    else if leb max_sitemaps_per_site (length sp.processed)
    then (record sp { limit_logged = true }, false)
    else (record sp { processed = url ∷ sp.processed }, true)

-- `valid` is `url.ParseRequestURI` with no error.
module _ (valid : String → Bool) (depth : ℕ) where
  -- What a turn of the loop over an index does with the answer of `MarkSitemapProcessed`.
  unfoldable pub queue_marked : String → SitemapProcessor × Bool → SitemapProcessor
  queue_marked loc (sp, false) = sp
  queue_marked loc (sp, true) = record sp {
    backlog = push (record { url = loc; depth = depth + 1 }) sp.backlog;
    wg = sp.wg + 1;
  }

  unfoldable pub queue_sitemap : String → SitemapProcessor → SitemapProcessor
  unfolding mark_sitemap_processed queue_marked
  queue_sitemap loc sp = if valid loc then queue_marked loc (mark_sitemap_processed loc sp) else sp

  unfoldable pub queue_sitemaps : List String → SitemapProcessor → SitemapProcessor
  queue_sitemaps [] sp = sp
  queue_sitemaps (loc ∷ locs) sp = queue_sitemaps locs (queue_sitemap loc sp)

  -- `handleSitemapIndex`
  unfoldable pub handle_sitemap_index : List String → SitemapProcessor → SitemapProcessor
  handle_sitemap_index locs sp =
      if leb max_sitemap_index_depth depth then sp else queue_sitemaps locs sp

-- `workerCount`
unfoldable pub worker_count : ℤ → ℤ
worker_count max_requests = if ltz max_requests (pos 1) then pos 1 else max_requests

-- `sitemapURLDepth`
abbrev pub sitemap_url_depth : ℤ
sitemap_url_depth = pos 1

module _ (ops : UrlOps) (scope : LinkScope) where
  -- `normalizeInScopeURL`; none is false.
  unfoldable pub normalize_in_scope_url : String → Option String
  unfolding same_host any_match parse_and_normalize
  normalize_in_scope_url page = elim (ops.parse page) [
    | none ↦ none
    | some u ↦
        if not (str_eq u.scheme "http" || str_eq u.scheme "https")
        then none
        else if not (same_host ops (ops.hostname u) scope.allowed_domain)
        then none
        else if not (starts_with (target_path u) scope.allowed_path_prefix)
        then none
        else if any_match scope.disallowed u.path
        then none
        else elim (parse_and_normalize ops page) [ none ↦ none | some (text, parsed) ↦ some text ]
  ]

  -- The URLs of a set that are in scope, normalized; the state of the crawl has no say in it.
  unfoldable pub in_scope_urls : List String → List String
  unfolding normalize_in_scope_url
  in_scope_urls [] = []
  in_scope_urls (page ∷ pages) =
      let rest = in_scope_urls pages in
      elim (normalize_in_scope_url page) [ none ↦ rest | some text ↦ text ∷ rest ]

  -- `handleURLSet`: each URL in scope is marked and, if it is new, queued, as a link of a page is.
  unfoldable pub handle_url_set : HeapOps → LinkWorld → List String → LinkResult → LinkResult
  unfolding in_scope_urls queue_links
  handle_url_set heap world pages r =
      if ltz (pos 0) scope.max_depth && lez scope.max_depth sitemap_url_depth
      then r
      else queue_links heap world sitemap_url_depth 0 (in_scope_urls pages) r
