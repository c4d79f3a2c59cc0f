-- ===== src/PageTask/Outstanding.antt =====
-- The wait group of a crawl, which processSinglePageTask in pkg/crawler/crawler.go keeps in step with
-- the queue.
use Prim.Native.String.{String}
use doc_scraper.Prelude.{
  ℕ, ◌+◌, ◌-◌, ◌≤◌, false, not, ◌&&◌, [], ◌∷◌, ◌++◌, length, ◌≡◌, refl, arith, Bool-cases,
  Option-cases, inl, inr, ◌∙◌, ap,
}
use doc_scraper.Prelude.Int.{ℤ}
use doc_scraper.Errors.{Error}
use doc_scraper.Urls.{Url}
use doc_scraper.Links.Counting.{extract_and_queue_links_counts, extract_and_queue_links_open}
use doc_scraper.PageTask.State.{
  parse_page, Crawl, PageConfig, PageWorld, Task, in_links, Ends, goes_on, returns, panicked,
  note_error,
}
use doc_scraper.PageTask.Steps.{cleanup_resources, parse_body, follow_links}
use doc_scraper.PageTask.Task.{
  start_task, page_body, write_entry, count_page, tally_page, recover_panic, is_panic, has_error,
  finish_task, deferred_cleanup, run_body, process_single_page_task,
}
use doc_scraper.PageTask.Rules.{setup_lem, fetch_lem, acquire_lem}
use doc_scraper.PageTask.Body.{deferred_lem, BodyRules, page_body_lem}
use doc_scraper.PageTask.Endings.{EndsIn, Leads, check_error_lem}

module _ (c : Crawl) where
  -- Each item queued since the task began has been added to the wait group.
  abbrev InStep : Crawl → Type 0
  InStep d =
      (d.queue.closed ≡ false)
      × (d.wg + length c.queue.pq ≡ c.wg + length d.queue.pq)
      × (c.wg ≤ d.wg)

  abbrev Steady : Task → Type 0
  Steady t = InStep t.crawl

  note_error-Steady : (e : Error) (t : Task) → Steady t → Steady (note_error e t)
  note_error-Steady e t s = elim (Option-cases t.task_err) [
    | inl h ↦ rw (h, note_error) s
    | inr (k, h) ↦ rw (h, note_error) s
  ]

  module _ (cfg : PageConfig) (world : PageWorld) where
    follow-Steady :
        (page : Url) (depth : ℤ)
        → Leads Steady Steady Steady Steady (follow_links cfg world page depth)
    unfolding follow_links
    follow-Steady page depth t s =
        let n =
          extract_and_queue_links_counts cfg.ops cfg.heap world.link_world cfg.order cfg.scope page
            depth world.anchors
            (record { store = t.crawl.store; queue = t.crawl.queue; wg = t.crawl.wg }) s.0 in
        let o =
          extract_and_queue_links_open cfg.ops cfg.heap world.link_world cfg.order cfg.scope page
            depth world.anchors
            (record { store = t.crawl.store; queue = t.crawl.queue; wg = t.crawl.wg }) s.0 in
        elim (Bool-cases (world.panics in_links)) [
          | inl e ↦
              rw (e, follow_links) (o, omega (arith, n.0, n.1, s.1, s.2), omega (arith, n.0, s.2))
          | inr e ↦
              rw (e, follow_links) (o, omega (arith, n.0, n.1, s.1, s.2), omega (arith, n.0, s.2))
        ]

    Steady-rules : BodyRules cfg world Steady Steady Steady Steady Steady Steady
    unfolding cleanup_resources parse_body
    Steady-rules = record {
      panics = λ t s. s;
      panics_held = λ t s. s;
      fails = note_error-Steady;
      fails_held = note_error-Steady;
      sets_up = λ url.
          setup_lem cfg world Steady Steady Steady note_error-Steady url (λ t n s. s) (λ t s. s);
      acquires =
          acquire_lem cfg world Steady Steady Steady note_error-Steady (λ t a b k rs s. s)
            (λ t s. s);
      fetches =
          λ u. fetch_lem cfg world Steady Steady Steady note_error-Steady u (λ t s. s) (λ t s. s);
      frees = λ t s. s;
      parses = λ t s.
          check_error_lem Steady Steady Steady world.parse_result note_error-Steady
            (record t { resources = t.resources ++ (parse_page ∷ []) }) s;
      noindexed = λ t s. s;
      follows_noindex = follow-Steady;
      noindex_returns = λ t s. s;
      unselected = note_error-Steady;
      follows_unselected = follow-Steady;
      unselected_returns = λ t s. s;
      hashed = λ t s. s;
      follows = follow-Steady;
      unchanged = λ t s. s;
      saves = λ page t s. s;
    }

    Steady-end :
        (r : Task × Ends (Unit {0}))
        → EndsIn Steady Steady Steady r
        → Steady (recover_panic cfg world r.1 (deferred_cleanup cfg world r.0))
    unfolding recover_panic cleanup_resources
    Steady-end (t, goes_on a) s = deferred_lem cfg world Steady t s s
    Steady-end (t, returns) s = deferred_lem cfg world Steady t s s
    Steady-end (t, panicked) s =
        deferred_lem cfg world (λ t. Steady (recover_panic cfg world panicked t)) t s s

    write_entry-Kept :
        (depth : ℤ) (t : Task)
        → ((write_entry cfg world depth t).wg ≡ t.crawl.wg)
          × ((write_entry cfg world depth t).queue ≡ t.crawl.queue)
    unfolding write_entry
    write_entry-Kept depth t = ground arith

    count_page-Kept :
        (t : Task) (d : Crawl)
        → ((count_page cfg world t d).wg ≡ d.wg) × ((count_page cfg world t d).queue ≡ d.queue)
    unfolding count_page
    count_page-Kept t d = ground arith

    tally_page-Kept :
        (url : String) (t : Task) (d : Crawl)
        → ((tally_page cfg world url t d).wg ≡ d.wg)
          × ((tally_page cfg world url t d).queue ≡ d.queue)
    unfolding tally_page
    tally_page-Kept url t d = elim (Option-cases t.task_err) [
      | inl e ↦ rw (e, tally_page) (ground arith)
      | inr (err, e) ↦ rw (e, tally_page) (ground arith)
    ]

    finish-Kept :
        (url : String) (depth : ℤ) (r : Task × Ends (Unit {0}))
        → ((finish_task cfg world url depth r).wg ≡ (recover_panic cfg world r.1 r.0).crawl.wg - 1)
          × ((finish_task cfg world url depth r).queue
              ≡ (recover_panic cfg world r.1 r.0).crawl.queue)
    unfolding finish_task
    finish-Kept url depth r =
        let t = recover_panic cfg world r.1 r.0 in
        let w = write_entry cfg world depth t in
        let n = count_page cfg world t w in
        let a = write_entry-Kept depth t in
        let b = count_page-Kept t w in
        let d = tally_page-Kept url t n in
        elim (Bool-cases (has_error t && not (is_panic r.1) && world.cancelled)) [
          | inl e ↦ rw e (refl, refl)
          | inr e ↦ rw e (ap (λ (x : ℕ). x - 1) (d.0 ∙ b.0 ∙ a.0), d.1 ∙ b.1 ∙ a.1)
        ]

-- A page task ends with one `wg.Done`, however it ends: on an open queue and with its own task still
-- counted, the tasks outstanding afterwards, with its own, are as many as before and those that it
-- queued; and the queue stays open.
pub process_single_page_task_wg :
    (cfg : PageConfig) (world : PageWorld) (url : String) (depth : ℤ) (c : Crawl)
    → c.queue.closed ≡ false
    → 1 ≤ c.wg
    → ((process_single_page_task cfg world url depth c).wg + 1 + length c.queue.pq
        ≡ c.wg + length (process_single_page_task cfg world url depth c).queue.pq)
      × ((process_single_page_task cfg world url depth c).queue.closed ≡ false)
unfolding process_single_page_task run_body
process_single_page_task_wg cfg world url depth c o g =
    let r = page_body cfg world url depth (start_task c) in
    let s = Steady-end c cfg world r (
      page_body_lem cfg world (Steady c) (Steady c) (Steady c) (Steady c) (Steady c) (Steady c)
        (Steady-rules c cfg world) url depth (start_task c) (o, refl, omega arith)) in
    let k = finish-Kept c cfg world url depth (deferred_cleanup cfg world r.0, r.1) in
    rw (k.0, k.1) (omega (arith, s.1, s.2), s.0)
