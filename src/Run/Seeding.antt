-- ===== src/Run/Seeding.antt =====
-- What the start of a crawl in pkg/crawler/crawler.go queues, and the links after it.
use Prim.Native.String.{String}
use doc_scraper.Prelude.{ℕ, ◌+◌, false, List, [], ◌∷◌, arith, Option-cases, inl, inr}
use doc_scraper.Prelude.Int.{ℤ, pos}
use doc_scraper.Store.Database.{BadgerStore, mark_page_visited}
use doc_scraper.Store.Answers.{Quiet}
use doc_scraper.Queue.{HeapOps, new_queue}
use doc_scraper.Urls.{Url, UrlOps, parse_and_normalize}
use doc_scraper.Links.{
  LinkScope, LinkWorld, LinkState, LinkResult, Anchor, queue_link, extract_and_queue_links,
}
use doc_scraper.Links.Queued.{QueuedOnce, queue_link-QueuedOnce, extract_and_queue_links-QueuedOnce}
use doc_scraper.Run.Start.{seed_start_urls}

module _ (ops : UrlOps) (heap : HeapOps) where
  seed_start_urls-QueuedOnce :
      (world : LinkWorld) (k : ℕ) (urls : List String) (r : LinkResult)
      → ((n : ℕ) → Quiet (world.txns n))
      → QueuedOnce r.state
      → QueuedOnce (seed_start_urls heap ops world k urls r).state
  unfolding seed_start_urls
  seed_start_urls-QueuedOnce world k [] r q h = h
  seed_start_urls-QueuedOnce world k (text ∷ rest) r q h =
      elim (Option-cases (parse_and_normalize ops text)) [
        | inl e ↦ rw (e, seed_start_urls) (seed_start_urls-QueuedOnce world (k + 1) rest r q h)
        | inr ((seed, u), e) ↦
            let marked =
              mark_page_visited (world.txns k) (world.clock k) seed (pos 0) r.state.store in
            rw (e, seed_start_urls)
              (seed_start_urls-QueuedOnce world (k + 1) rest
                (queue_link heap world (pos 0) seed marked.0 marked.1 r) q
                (queue_link-QueuedOnce heap world (pos 0) k seed r (q k) h))
      ]

  -- The link extraction of one page after another.
  unfoldable pub follow_pages :
      (List String → List String)
      → LinkScope
      → List (LinkWorld × (Url × (ℤ × List (List Anchor))))
      → LinkState
      → LinkState
  follow_pages order scope [] s = s
  follow_pages order scope ((world, (page, (depth, anchors))) ∷ rest) s =
      follow_pages order scope rest
        (extract_and_queue_links ops heap world order scope page depth anchors s).state

  abbrev pub AllQuiet : List (LinkWorld × (Url × (ℤ × List (List Anchor)))) → Type 0
  AllQuiet [] = Unit
  AllQuiet ((world, p) ∷ rest) = ((n : ℕ) → Quiet (world.txns n)) × AllQuiet rest

  follow_pages-QueuedOnce :
      (order : List String → List String) (scope : LinkScope)
      (pages : List (LinkWorld × (Url × (ℤ × List (List Anchor))))) (s : LinkState)
      → AllQuiet pages
      → QueuedOnce s
      → QueuedOnce (follow_pages order scope pages s)
  unfolding follow_pages
  follow_pages-QueuedOnce order scope [] s q h = h
  follow_pages-QueuedOnce order scope ((world, (page, (depth, anchors))) ∷ rest) s q h =
      follow_pages-QueuedOnce order scope rest
        (extract_and_queue_links ops heap world order scope page depth anchors s).state q.1
        (extract_and_queue_links-QueuedOnce ops heap world order scope page depth anchors s q.0 h)

  -- A fresh crawl never queues a page twice: from an empty queue, after seeding any start URLs and then
  -- queueing the links of any pages, no URL stands twice in the queue and each that does is in the
  -- database; whatever transactions fail or meet conflicts, if no other goroutine writes in between.
  pub fresh_crawl-QueuedOnce :
      (world : LinkWorld) (order : List String → List String) (scope : LinkScope)
      (urls : List String) (pages : List (LinkWorld × (Url × (ℤ × List (List Anchor)))))
      (store : BadgerStore)
      → ((n : ℕ) → Quiet (world.txns n))
      → AllQuiet pages
      → QueuedOnce (
          follow_pages order scope pages
            (seed_start_urls heap ops world 0 urls (record {
              state = record { store = store; queue = new_queue; wg = 1 };
              queued = 0;
              failed = false;
            })).state)
  fresh_crawl-QueuedOnce world order scope urls pages store q p =
      let start : LinkResult = record {
        state = record { store = store; queue = new_queue; wg = 1 };
        queued = 0;
        failed = false;
      } in
      follow_pages-QueuedOnce order scope pages (seed_start_urls heap ops world 0 urls start).state
        p (seed_start_urls-QueuedOnce world 0 urls start q (λ url. ground arith))
