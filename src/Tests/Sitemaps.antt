-- ===== src/Tests/Sitemaps.antt =====
-- The backlog of sitemaps and an index of sitemaps, on examples.
use Prim.Native.String.{String}
use text.Mathlib.Text.{◌==◌ as str_eq}
use doc_scraper.Prelude.{
  true, false, List, [], ◌∷◌, ◌≡◌, refl, not, arith, some, none, ◌+◌, ◌≤◌, length,
}
use doc_scraper.Prelude.Int.{pos, negsuc}
use doc_scraper.Links.{member}
use doc_scraper.Sitemaps.{
  new_sitemap_processor, handle_sitemap_index, queue_sitemaps, queue_sitemap, queue_marked,
  mark_sitemap_processed, worker_count,
}
use doc_scraper.Sitemaps.Backlog.{
  SitemapTask, BacklogCall, pushes, pops, closes, task, drained, waits, popped, fifo_popped, push,
  pop, compact, close_backlog, new_sitemap_backlog, popped-fifo_popped,
}
use doc_scraper.Sitemaps.Queueing.{QueuedSitemaps, handle_sitemap_index-QueuedSitemaps}
use doc_scraper.Sitemaps.Processing.{FetchWorld, SitemapCrawl, process_one, process_one_tokens}
use doc_scraper.Tests.Crawl.{path_ops, scope, link_world, no_links, stack_heap}

abbrev first_map : SitemapTask
first_map = record { url = "/sitemap.xml"; depth = 0 }

abbrev nested_map : SitemapTask
nested_map = record { url = "/docs/sitemap.xml"; depth = 1 }

abbrev calls : List BacklogCall
calls =
    pushes first_map
    ∷ pops
    ∷ pops
    ∷ pushes nested_map
    ∷ pushes first_map
    ∷ closes
    ∷ pops
    ∷ pops
    ∷ pops
    ∷ []

-- What is left when the backlog is closed still comes out.
calls_popped :
    popped calls new_sitemap_backlog
    ≡ task first_map ∷ waits ∷ task nested_map ∷ task first_map ∷ drained ∷ []
unfolding popped push pop compact close_backlog new_sitemap_backlog
calls_popped = refl

popped-fifo_popped_example : popped calls new_sitemap_backlog ≡ fifo_popped calls [] false
popped-fifo_popped_example = popped-fifo_popped calls

abbrev locs : List String
locs = "/a.xml" ∷ "" ∷ "/b.xml" ∷ "/a.xml" ∷ []

-- The text that does not parse and the repeated sitemap are left out.
index_queues :
    (handle_sitemap_index (λ s. not (str_eq s "")) 0 locs (new_sitemap_processor 1)).backlog.items
    ≡ record { url = "/a.xml"; depth = 1 } ∷ record { url = "/b.xml"; depth = 1 } ∷ []
unfolding handle_sitemap_index queue_sitemaps queue_sitemap queue_marked mark_sitemap_processed push
    new_sitemap_backlog member
index_queues = refl

handle_sitemap_index-QueuedSitemaps_example :
    QueuedSitemaps
      (new_sitemap_processor 1)
      (handle_sitemap_index (λ s. not (str_eq s "")) 0 locs (new_sitemap_processor 1))
handle_sitemap_index-QueuedSitemaps_example =
    handle_sitemap_index-QueuedSitemaps (λ s. not (str_eq s "")) 0 locs (new_sitemap_processor 1)
      (omega arith)

-- The task's token goes and two come.
abbrev index_answers : FetchWorld
index_answers = record {
  host_slot = true;
  global_slot = true;
  request_made = true;
  response = some (record {
    final_host = some "a";
    read = some (record { index = some locs; url_set = none });
  });
}

abbrev site : SitemapCrawl
site = record { processor = new_sitemap_processor 1; links = no_links }

abbrev site_after : SitemapCrawl
site_after =
    process_one path_ops scope (λ s. not (str_eq s "")) stack_heap index_answers link_world
      first_map site

process_one_tokens_example :
    (site_after.processor.wg + 1 + 0 ≡ 1 + length site_after.processor.processed)
    × (length site_after.processor.processed ≤ 1000)
process_one_tokens_example =
    process_one_tokens path_ops scope (λ s. not (str_eq s "")) stack_heap index_answers link_world
      first_map site (omega arith) (omega arith)

no_worker_limit : worker_count (negsuc 4) ≡ pos 1
unfolding worker_count
no_worker_limit = refl
