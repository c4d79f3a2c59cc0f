-- ===== src/Sitemaps/Processing.antt =====
-- pkg/sitemap/processor.go: how a sitemap is fetched, and what is done with its content. The
-- answers of the slots, the HTTP client and encoding/xml are given by a world.
use Prim.Native.String.{String}
use doc_scraper.Prelude.{
  ℕ, ◌+◌, ◌-◌, ◌≤◌, length, arith, Bool, false, not, List, [], ◌∷◌, Option, none, some, ◌≡◌, refl,
  if◌then◌else◌, Bool-cases, Option-cases, inl, inr,
}
use doc_scraper.Queue.{HeapOps}
use doc_scraper.Urls.{UrlOps, same_host}
use doc_scraper.Links.{LinkScope, LinkState, LinkWorld}
use doc_scraper.PageTask.State.{Resource, take_host, take_global, free_host, free_global}
use doc_scraper.PageTask.Slots.{watch_all, watch, idle}
use doc_scraper.Sitemaps.{
  SitemapProcessor, max_sitemaps_per_site, handle_sitemap_index, handle_url_set,
}
use doc_scraper.Sitemaps.Backlog.{SitemapTask}
use doc_scraper.Sitemaps.Queueing.{
  QueuedSitemaps, nothing-QueuedSitemaps, handle_sitemap_index-QueuedSitemaps,
}

-- What `xml.Unmarshal` makes of a body, as an index and as a URL set; none is an error.
pub record SitemapBody : Type 0 where
  pub index : Option (List String)
  pub url_set : Option (List String)

-- A response: the host after redirects, when the response has one, and the body if it can be read.
pub record SitemapResponse : Type 0 where
  pub final_host : Option String
  pub read : Option SitemapBody

-- What the calls of a fetch answer.
pub record FetchWorld : Type 0 where
  pub host_slot : Bool
  pub global_slot : Bool
  pub request_made : Bool
  pub response : Option SitemapResponse

-- How `fetchSitemap` ends; `fetch_failed` is any error of the URL, the request, the client or the body.
pub data FetchEnd : Type 0 where
  fetch_failed no_slot off_host : FetchEnd
  content : SitemapBody → FetchEnd

module _ (ops : UrlOps) (scope : LinkScope) where
  unfoldable pub is_off_host : Option String → Bool
  is_off_host none = false
  is_off_host (some host) = not (same_host ops host scope.allowed_domain)

  -- `fetchSitemap` once it has the slots.
  unfoldable pub request_sitemap : FetchWorld → FetchEnd
  unfolding is_off_host
  request_sitemap world = if not world.request_made then fetch_failed else elim world.response [
    | none ↦ fetch_failed
    | some r ↦
        if is_off_host r.final_host
        then off_host
        else elim r.read [ none ↦ fetch_failed | some body ↦ content body ]
  ]

  -- `fetchSitemap` for a processor with a pool of host slots: the slots it takes and frees, in order,
  -- and how it ends. The deferred calls free the global slot first.
  -- The delay of the rate limiter is left out.
  unfoldable pub fetch_sitemap : FetchWorld → String → List Resource × FetchEnd
  unfolding request_sitemap same_host
  fetch_sitemap world url = elim (ops.parse url) [
    | none ↦ ([], fetch_failed)
    | some u ↦
        if not (same_host ops (ops.hostname u) scope.allowed_domain)
        then ([], off_host)
        else if not world.host_slot
        then ([], no_slot)
        else if not world.global_slot
        then (take_host ∷ free_host ∷ [], no_slot)
        else (take_host ∷ take_global ∷ free_global ∷ free_host ∷ [], request_sitemap world)
  ]

  -- However a fetch ends, the slots it took are free again, and were taken host first.
  fetch_sitemap_slots :
      (world : FetchWorld) (url : String) → watch_all (fetch_sitemap world url).0 idle ≡ idle
  unfolding fetch_sitemap watch_all watch
  fetch_sitemap_slots world url = elim (Option-cases (ops.parse url)) [
    | inl e ↦ rw (e, watch_all) refl
    | inr (u, e) ↦ elim (Bool-cases (same_host ops (ops.hostname u) scope.allowed_domain)) [
      | inr f ↦ rw (e, f, watch_all) refl
      | inl f ↦ elim (Bool-cases world.host_slot) [
        | inr g ↦ rw (e, f, g, watch_all) refl
        | inl g ↦ elim (Bool-cases world.global_slot) [
          | inr k ↦ rw (e, f, g, k, watch_all) refl
          | inl k ↦ rw (e, f, g, k, watch_all) refl
        ]
      ]
    ]
  ]

-- The processor and the part of the crawl that it queues into. They share one WaitGroup: `processor.wg`
-- counts its tokens for sitemaps, and `links.wg` those for pages.
pub record SitemapCrawl : Type 0 where
  pub processor : SitemapProcessor
  pub links : LinkState

module _ (ops : UrlOps) (scope : LinkScope) (valid : String → Bool) (heap : HeapOps) where
  abbrev queue_urls : LinkWorld → List String → SitemapCrawl → SitemapCrawl
  queue_urls world pages s = record s {
    links =
        (handle_url_set ops scope heap world pages
          (record { state = s.links; queued = 0; failed = false })).state;
  }

  abbrev queue_index : ℕ → List String → SitemapCrawl → SitemapCrawl
  queue_index depth locs s = record s {
    processor = handle_sitemap_index valid depth locs s.processor;
  }

  -- `processSitemap` after the fetch.
  unfoldable pub dispatch_set : LinkWorld → Option (List String) → SitemapCrawl → SitemapCrawl
  dispatch_set world none s = s
  dispatch_set world (some pages) s = queue_urls world pages s

  unfoldable pub dispatch :
      LinkWorld → ℕ → Option (List String) → Option (List String) → SitemapCrawl → SitemapCrawl
  unfolding dispatch_set
  dispatch world depth none url_set s = dispatch_set world url_set s
  dispatch world depth (some []) url_set s = dispatch_set world url_set s
  dispatch world depth (some (loc ∷ locs)) url_set s = queue_index depth (loc ∷ locs) s

  unfoldable pub after_sitemap : LinkWorld → ℕ → FetchEnd → SitemapCrawl → SitemapCrawl
  unfolding dispatch
  after_sitemap world depth (content body) s = dispatch world depth body.index body.url_set s
  after_sitemap world depth fetch_failed s = s
  after_sitemap world depth no_slot s = s
  after_sitemap world depth off_host s = s

  dispatch_set-Queued :
      (world : LinkWorld) (url_set : Option (List String)) (s : SitemapCrawl)
      → length s.processor.processed ≤ max_sitemaps_per_site
      → QueuedSitemaps s.processor (dispatch_set world url_set s).processor
  unfolding dispatch_set
  dispatch_set-Queued world none s h = nothing-QueuedSitemaps s.processor h
  dispatch_set-Queued world (some pages) s h = nothing-QueuedSitemaps s.processor h

  dispatch-Queued :
      (world : LinkWorld) (depth : ℕ) (index url_set : Option (List String)) (s : SitemapCrawl)
      → length s.processor.processed ≤ max_sitemaps_per_site
      → QueuedSitemaps s.processor (dispatch world depth index url_set s).processor
  unfolding dispatch
  dispatch-Queued world depth none url_set s h = dispatch_set-Queued world url_set s h
  dispatch-Queued world depth (some []) url_set s h = dispatch_set-Queued world url_set s h
  dispatch-Queued world depth (some (loc ∷ locs)) url_set s h =
      handle_sitemap_index-QueuedSitemaps valid depth (loc ∷ locs) s.processor h

  after_sitemap-Queued :
      (world : LinkWorld) (depth : ℕ) (end : FetchEnd) (s : SitemapCrawl)
      → length s.processor.processed ≤ max_sitemaps_per_site
      → QueuedSitemaps s.processor (after_sitemap world depth end s).processor
  unfolding after_sitemap
  after_sitemap-Queued world depth fetch_failed s h = nothing-QueuedSitemaps s.processor h
  after_sitemap-Queued world depth no_slot s h = nothing-QueuedSitemaps s.processor h
  after_sitemap-Queued world depth off_host s h = nothing-QueuedSitemaps s.processor h
  after_sitemap-Queued world depth (content body) s h =
      dispatch-Queued world depth body.index body.url_set s h

  -- `processSitemap`
  unfoldable pub process_sitemap :
      FetchWorld → LinkWorld → SitemapTask → SitemapCrawl → SitemapCrawl
  unfolding fetch_sitemap after_sitemap
  process_sitemap fetches world t s =
      after_sitemap world t.depth (fetch_sitemap ops scope fetches t.url).1 s

  -- `processOne`, whose deferred call gives back the token of the task.
  unfoldable pub process_one : FetchWorld → LinkWorld → SitemapTask → SitemapCrawl → SitemapCrawl
  unfolding process_sitemap
  process_one fetches world t s =
      let done = process_sitemap fetches world t s in
      record done { processor = record done.processor { wg = done.processor.wg - 1 } }

  -- From a processor with at most 1000 sitemaps marked that holds the token of a task: the task gives
  -- back its token, whatever the fetch and the XML say, and adds one for each sitemap that it marks.
  pub process_one_tokens :
      (fetches : FetchWorld) (world : LinkWorld) (t : SitemapTask) (s : SitemapCrawl)
      → length s.processor.processed ≤ max_sitemaps_per_site
      → 1 ≤ s.processor.wg
      → ((process_one fetches world t s).processor.wg + 1 + length s.processor.processed
          ≡ s.processor.wg + length (process_one fetches world t s).processor.processed)
        × (length (process_one fetches world t s).processor.processed ≤ max_sitemaps_per_site)
  unfolding process_one process_sitemap
  process_one_tokens fetches world t s h k =
      let q = after_sitemap-Queued world t.depth (fetch_sitemap ops scope fetches t.url).1 s h in
      (omega (arith, q.tokens, q.grows, q.within, h, k), q.within)
