-- ===== src/Links/Counting.antt =====
-- The counts that ExtractAndQueueLinks of pkg/process/links.go returns.
use Prim.Native.String.{String}
use doc_scraper.Prelude.{
  ℕ, suc, ◌+◌, Bool, true, false, ◌&&◌, List, [], ◌∷◌, length, Option, none, some, ◌≡◌, refl, arith,
  Bool-cases, inl, inr, ◌∙◌,
}
use doc_scraper.Prelude.Int.{ℤ, pos, ◌+ℤ◌, i64, lez, ltz}
use doc_scraper.Prelude.Sort.{count_if}
use doc_scraper.Store.Entries.{WorkItem}
use doc_scraper.Store.Database.{BadgerStore, mark_page_visited}
use doc_scraper.Queue.{priority_queue, priority_queue-KeepsItems, HeapOps, PqItem, PageQueue, add}
use doc_scraper.Urls.{Url, UrlOps}
use doc_scraper.Links.{
  LinkScope, Anchor, LinkState, LinkWorld, LinkResult, queue_link, queue_links, found_links,
  extract_and_queue_links,
}

count_all : (xs : List PqItem) → count_if (λ (x : PqItem). true) xs ≡ length xs
count_all [] = refl
count_all (x ∷ xs) = ground (arith, count_all xs)

module _ (heap : HeapOps) (world : LinkWorld) (next_depth : ℤ) where
  length-add :
      (w : WorkItem) (q : PageQueue)
      → q.closed ≡ false
      → length (add heap w q).pq ≡ suc (length q.pq)
  unfolding add
  length-add w q o =
      let x : PqItem = record { work_item = w; priority = w.depth } in
      ground (
        arith,
        o,
        heap.heap_push_adds priority_queue priority_queue-KeepsItems (λ (y : PqItem). true) x q.pq,
        count_all q.pq,
        count_all (heap.heap_push priority_queue x q.pq),
      )

  closed-add : (w : WorkItem) (q : PageQueue) → (add heap w q).closed ≡ q.closed
  unfolding add
  closed-add w q = ground arith

  queue_link_counts :
      (link : String) (store : BadgerStore) (answer : Option Bool) (r : LinkResult)
      → r.state.queue.closed ≡ false
      → ((queue_link heap world next_depth link store answer r).state.queue.closed ≡ false)
        × ((queue_link heap world next_depth link store answer r).state.wg + r.queued
            ≡ r.state.wg + (queue_link heap world next_depth link store answer r).queued)
        × (length (queue_link heap world next_depth link store answer r).state.queue.pq + r.queued
            ≡ length r.state.queue.pq
              + (queue_link heap world next_depth link store answer r).queued)
  unfolding queue_link
  queue_link_counts link store none r o = (o, refl, refl)
  queue_link_counts link store (some false) r o = (o, refl, refl)
  queue_link_counts link store (some true) r o = (
    closed-add (record { url = link; depth = next_depth }) r.state.queue ∙ o,
    omega arith,
    omega (arith, length-add (record { url = link; depth = next_depth }) r.state.queue o),
  )

  queue_links_counts :
      (k : ℕ) (links : List String) (r : LinkResult)
      → r.state.queue.closed ≡ false
      → ((queue_links heap world next_depth k links r).state.wg + r.queued
          ≡ r.state.wg + (queue_links heap world next_depth k links r).queued)
        × (length (queue_links heap world next_depth k links r).state.queue.pq + r.queued
            ≡ length r.state.queue.pq + (queue_links heap world next_depth k links r).queued)
  unfolding queue_links
  queue_links_counts k [] r o = (refl, refl)
  queue_links_counts k (link ∷ links) r o =
      let marked = mark_page_visited (world.txns k) (world.clock k) link next_depth r.state.store in
      let one = queue_link_counts link marked.0 marked.1 r o in
      let rest =
        queue_links_counts (k + 1) links (queue_link heap world next_depth link marked.0 marked.1 r)
          one.0 in
      (omega arith, omega arith)

  queue_links_open :
      (k : ℕ) (links : List String) (r : LinkResult)
      → r.state.queue.closed ≡ false
      → (queue_links heap world next_depth k links r).state.queue.closed ≡ false
  unfolding queue_links
  queue_links_open k [] r o = o
  queue_links_open k (link ∷ links) r o =
      let marked = mark_page_visited (world.txns k) (world.clock k) link next_depth r.state.store in
      queue_links_open (k + 1) links (queue_link heap world next_depth link marked.0 marked.1 r)
        (queue_link_counts link marked.0 marked.1 r o).0

-- An open queue stays open.
pub extract_and_queue_links_open :
    (ops : UrlOps) (heap : HeapOps) (world : LinkWorld) (order : List String → List String)
    (scope : LinkScope) (page : Url) (depth : ℤ) (anchors : List (List Anchor)) (s : LinkState)
    → s.queue.closed ≡ false
    → (extract_and_queue_links ops heap world order scope page depth anchors s).state.queue.closed
      ≡ false
unfolding extract_and_queue_links
extract_and_queue_links_open ops heap world order scope page depth anchors s o =
    elim (Bool-cases (ltz (pos 0) scope.max_depth && lez scope.max_depth (i64 (depth +ℤ pos 1)))) [
      | inl e ↦ rw e o
      | inr e ↦ rw e (
          queue_links_open heap world (i64 (depth +ℤ pos 1)) 0
            (order (found_links ops scope page anchors []))
            (record { state = s; queued = 0; failed = false }) o)
    ]

-- While the queue is open, the count that is returned is the number of tasks added to the wait group,
-- and the number of items added to the queue.
pub extract_and_queue_links_counts :
    (ops : UrlOps) (heap : HeapOps) (world : LinkWorld) (order : List String → List String)
    (scope : LinkScope) (page : Url) (depth : ℤ) (anchors : List (List Anchor)) (s : LinkState)
    → s.queue.closed ≡ false
    → ((extract_and_queue_links ops heap world order scope page depth anchors s).state.wg
        ≡ s.wg + (extract_and_queue_links ops heap world order scope page depth anchors s).queued)
      × (length
            (extract_and_queue_links ops heap world order scope page depth anchors s).state.queue.pq
          ≡ length s.queue.pq
            + (extract_and_queue_links ops heap world order scope page depth anchors s).queued)
unfolding extract_and_queue_links
extract_and_queue_links_counts ops heap world order scope page depth anchors s o =
    elim (Bool-cases (ltz (pos 0) scope.max_depth && lez scope.max_depth (i64 (depth +ℤ pos 1)))) [
      | inl e ↦ rw e (omega arith, omega arith)
      | inr e ↦
          let c =
            queue_links_counts heap world (i64 (depth +ℤ pos 1)) 0
              (order (found_links ops scope page anchors []))
              (record { state = s; queued = 0; failed = false }) o in
          rw e (omega arith, omega arith)
    ]
