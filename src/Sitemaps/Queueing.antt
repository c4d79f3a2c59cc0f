-- ===== src/Sitemaps/Queueing.antt =====
-- What an index of sitemaps and a set of URLs queue, in pkg/sitemap/processor.go.
use Prim.Native.String.{String}
use doc_scraper.Prelude.{
  ℕ, ◌+◌, ◌≤◌, Bool, true, false, ◌&&◌, List, [], ◌∷◌, length, ◌≡◌, refl, ◌∙◌, ltb, leb, arith,
  Bool-cases, inl, inr, length-append,
}
use doc_scraper.Prelude.Int.{pos, lez, ltz}
use doc_scraper.Prelude.Sort.{count_if, count_if-append}
use doc_scraper.Store.Answers.{Quiet}
use doc_scraper.Queue.{HeapOps}
use doc_scraper.Urls.{UrlOps}
use doc_scraper.Links.{LinkScope, LinkWorld, LinkResult, member}
use doc_scraper.Links.Queued.{QueuedOnce, queue_links-QueuedOnce}
use doc_scraper.Sitemaps.{
  SitemapProcessor, max_sitemaps_per_site, max_sitemap_index_depth, mark_sitemap_processed,
  queue_marked, queue_sitemap, queue_sitemaps, handle_sitemap_index, in_scope_urls, handle_url_set,
  sitemap_url_depth,
}
use doc_scraper.Sitemaps.Backlog.{SitemapTask, push}

-- A task below the last level of indexes that is followed.
abbrev pub too_deep : SitemapTask → Bool
too_deep t = ltb max_sitemap_index_depth t.depth

-- From `s` to `t`: each sitemap marked is one task and one token, no task is too deep, and the marks
-- stay within the limit.
pub record QueuedSitemaps (s t : SitemapProcessor) : Type 0 where
  pub within : length t.processed ≤ max_sitemaps_per_site
  pub grows : length s.processed ≤ length t.processed
  pub tokens : t.wg + length s.processed ≡ s.wg + length t.processed
  pub tasks :
      length t.backlog.items + length s.processed ≡ length s.backlog.items + length t.processed
  pub depths : count_if too_deep t.backlog.items ≡ count_if too_deep s.backlog.items

pub nothing-QueuedSitemaps :
    (s : SitemapProcessor) → length s.processed ≤ max_sitemaps_per_site → QueuedSitemaps s s
nothing-QueuedSitemaps s h = record {
  within = h;
  grows = omega arith;
  tokens = refl;
  tasks = refl;
  depths = refl;
}

logged-QueuedSitemaps :
    (s : SitemapProcessor)
    → length s.processed ≤ max_sitemaps_per_site
    → QueuedSitemaps s (record s { limit_logged = true })
logged-QueuedSitemaps s h = record {
  within = h;
  grows = omega arith;
  tokens = refl;
  tasks = refl;
  depths = refl;
}

module _ (valid : String → Bool) (depth : ℕ)
    (shallow : ltb max_sitemap_index_depth (depth + 1) ≡ false) where
  marked-QueuedSitemaps :
      (loc : String) (s : SitemapProcessor)
      → leb max_sitemaps_per_site (length s.processed) ≡ false
      → QueuedSitemaps s
          (queue_marked valid depth loc (record s { processed = loc ∷ s.processed }, true))
  unfolding queue_marked push
  marked-QueuedSitemaps loc s h =
      let new : SitemapTask = record { url = loc; depth = depth + 1 } in
      record {
        within = ground (arith, h);
        grows = omega arith;
        tokens = omega arith;
        tasks = omega (arith, length-append s.backlog.items (new ∷ []));
        depths = ground (arith, shallow, count_if-append too_deep s.backlog.items (new ∷ []));
      }

  queue_sitemap-QueuedSitemaps :
      (loc : String) (s : SitemapProcessor)
      → length s.processed ≤ max_sitemaps_per_site
      → QueuedSitemaps s (queue_sitemap valid depth loc s)
  unfolding queue_sitemap mark_sitemap_processed
  queue_sitemap-QueuedSitemaps loc s h = elim (Bool-cases (valid loc)) [
    | inr e ↦ rw e (nothing-QueuedSitemaps s h)
    | inl e ↦ elim (Bool-cases (member loc s.processed)) [
      | inl m ↦ rw (e, m) (unfold queue_marked in nothing-QueuedSitemaps s h)
      | inr m ↦ elim (Bool-cases (leb max_sitemaps_per_site (length s.processed))) [
        | inl l ↦ rw (e, m, l) (unfold queue_marked in logged-QueuedSitemaps s h)
        | inr l ↦ rw (e, m, l) (marked-QueuedSitemaps loc s l)
      ]
    ]
  ]

  queue_sitemaps-QueuedSitemaps :
      (locs : List String) (s : SitemapProcessor)
      → length s.processed ≤ max_sitemaps_per_site
      → QueuedSitemaps s (queue_sitemaps valid depth locs s)
  unfolding queue_sitemaps
  queue_sitemaps-QueuedSitemaps [] s h = nothing-QueuedSitemaps s h
  queue_sitemaps-QueuedSitemaps (loc ∷ locs) s h =
      let one = queue_sitemap-QueuedSitemaps loc s h in
      let rest = queue_sitemaps-QueuedSitemaps locs (queue_sitemap valid depth loc s) one.within in
      record {
        within = rest.within;
        grows = omega (arith, one.grows, rest.grows);
        tokens = omega (arith, one.tokens, rest.tokens);
        tasks = omega (arith, one.tasks, rest.tasks);
        depths = rest.depths ∙ one.depths;
      }

-- An index never queues without bound: from a processor with at most 1000 sitemaps marked, an index at
-- any depth leaves at most 1000 marked, adds a token and a task for each sitemap it marks, and no task
-- deeper than the limit.
pub handle_sitemap_index-QueuedSitemaps :
    (valid : String → Bool) (depth : ℕ) (locs : List String) (s : SitemapProcessor)
    → length s.processed ≤ max_sitemaps_per_site
    → QueuedSitemaps s (handle_sitemap_index valid depth locs s)
unfolding handle_sitemap_index
handle_sitemap_index-QueuedSitemaps valid depth locs s h =
    elim (Bool-cases (leb max_sitemap_index_depth depth)) [
      | inl e ↦ rw e (nothing-QueuedSitemaps s h)
      | inr e ↦ rw e (queue_sitemaps-QueuedSitemaps valid depth (ground (arith, e)) locs s h)
    ]

-- The URLs of a sitemap are queued once, as the links of pages are: no URL stands twice in the queue,
-- and each that does is in the database, whatever transactions fail, if no other goroutine writes.
pub handle_url_set-QueuedOnce :
    (ops : UrlOps) (scope : LinkScope) (heap : HeapOps) (world : LinkWorld) (pages : List String)
    (r : LinkResult)
    → ((n : ℕ) → Quiet (world.txns n))
    → QueuedOnce r.state
    → QueuedOnce (handle_url_set ops scope heap world pages r).state
unfolding handle_url_set
handle_url_set-QueuedOnce ops scope heap world pages r q h =
    elim (Bool-cases (ltz (pos 0) scope.max_depth && lez scope.max_depth sitemap_url_depth)) [
      | inl e ↦ rw e h
      | inr e ↦ rw e (
          queue_links-QueuedOnce heap world sitemap_url_depth 0 (in_scope_urls ops scope pages) r q
            h)
    ]
