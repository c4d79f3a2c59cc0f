-- ===== src/Links/Queued.antt =====
-- A URL that pkg/process/links.go queues is queued once, and counted.
use Prim.Native.String.{String}
use text.Mathlib.Text.{◌==◌ as str_eq}
use text.Mathlib.TextEquality.{eq_iff}
use doc_scraper.Prelude.{
  ℕ, suc, ◌+◌, ◌≤◌, Bool, true, false, ◌&&◌, List, [], ◌∷◌, none, some, ◌≡◌, refl, arith,
  if◌then◌else◌, Bool-cases, inl, inr, ◌⊎◌,
}
use doc_scraper.Prelude.Int.{ℤ, pos, ◌+ℤ◌, i64, lez, ltz}
use doc_scraper.Prelude.Assoc.{lookup, insert, lookup-insert}
use doc_scraper.Prelude.Sort.{count_if}
use doc_scraper.Store.Entries.{WorkItem, PageDbEntry}
use doc_scraper.Store.Database.{
  BadgerStore, Stored, entry, pending_entry, TxnWorld, db_update, mark_page, mark_page_visited,
  is_found,
}
use doc_scraper.Store.Answers.{Quiet, db_update_from-Quiet}
use doc_scraper.Queue.{priority_queue, priority_queue-KeepsItems, HeapOps, PqItem, PageQueue, add}
use doc_scraper.Urls.{Url, UrlOps}
use doc_scraper.Links.{
  LinkScope, Anchor, LinkState, LinkWorld, LinkResult, queue_link, queue_links, found_links,
  extract_and_queue_links,
}

-- How a mark ends when no other goroutine writes: it fails, finds the page, or adds it.
pub mark_page_visited-Quiet :
    (world : ℕ → TxnWorld) (now : ℕ) (url : String) (depth : ℤ) (s : BadgerStore)
    → Quiet world
    → (mark_page_visited world now url depth s ≡ (s, none))
      ⊎ ((mark_page_visited world now url depth s ≡ (s, some false))
          ⊎ ((is_found (lookup url s.pages) ≡ false)
              × (mark_page_visited world now url depth s ≡ (
                record s {
                  pages = insert url (entry (pending_entry now depth)) s.pages;
                  key_count = s.key_count + 1;
                },
                some true,
              ))))
unfolding mark_page_visited db_update
mark_page_visited-Quiet world now url depth s q =
    elim (db_update_from-Quiet world 10 0 (mark_page now url depth) s q) [
      | inl h ↦ inl h
      | inr h ↦ elim (Bool-cases (is_found (lookup url s.pages))) [
        | inl e ↦ inr (inl (rw h (rw (e, mark_page) refl)))
        | inr e ↦ inr (inr (e, rw h (rw (e, mark_page) refl)))
      ]
    ]

abbrev pub has_url : String → PqItem → Bool
has_url url x = str_eq x.work_item.url url

-- No URL stands twice in the queue, and each that does is in the database.
abbrev pub QueuedOnce : LinkState → Type 0
QueuedOnce s =
    (url : String)
    → count_if (has_url url) s.queue.pq ≤ (if is_found (lookup url s.store.pages) then 1 else 0)

once_lem :
    (c c' : ℕ) (b b' same : Bool)
    → c ≤ (if b then 1 else 0)
    → c' ≤ (if same then suc c else c)
    → (same ≡ true → b ≡ false)
    → b' ≡ (if same then true else b)
    → c' ≤ (if b' then 1 else 0)
once_lem c c' b b' true h k n e = ground (arith, h, k, n refl, e)
once_lem c c' b b' false h k n e = ground (arith, h, k, e)

found_insert :
    (url link : String) (value : Stored PageDbEntry) (s : BadgerStore)
    → is_found (lookup url (insert link value s.pages))
      ≡ (if str_eq link url then true else is_found (lookup url s.pages))
unfolding is_found
found_insert url link value s = ground (arith, lookup-insert link url value s.pages)

module _ (heap : HeapOps) (world : LinkWorld) (next_depth : ℤ) where
  add_counts :
      (p : PqItem → Bool) (w : WorkItem) (q : PageQueue)
      → count_if p (add heap w q).pq ≤ (
          if p (record { work_item = w; priority = w.depth })
          then suc (count_if p q.pq)
          else count_if p q.pq)
  unfolding add
  add_counts p w q = ground (
    arith,
    heap.heap_push_adds priority_queue priority_queue-KeepsItems p
        (record { work_item = w; priority = w.depth }) q.pq,
  )

  pub queue_link-QueuedOnce :
      (k : ℕ) (link : String) (r : LinkResult)
      → Quiet (world.txns k)
      → QueuedOnce r.state
      → QueuedOnce
          (queue_link heap world next_depth link
            (mark_page_visited (world.txns k) (world.clock k) link next_depth r.state.store).0
            (mark_page_visited (world.txns k) (world.clock k) link next_depth r.state.store).1
            r).state
  unfolding queue_link
  queue_link-QueuedOnce k link r q h url =
      elim (mark_page_visited-Quiet (world.txns k) (world.clock k) link next_depth r.state.store
        q) [
          | inl e ↦ rw e (h url)
          | inr (inl e) ↦ rw e (h url)
          | inr (inr (n, e)) ↦ rw e (
              once_lem (count_if (has_url url) r.state.queue.pq)
                (count_if (has_url url)
                  (add heap (record { url = link; depth = next_depth }) r.state.queue).pq)
                (is_found (lookup url r.state.store.pages))
                (is_found (
                  lookup url (
                    insert link (entry (pending_entry (world.clock k) next_depth))
                      r.state.store.pages)))
                (str_eq link url) (h url)
                (add_counts (has_url url) (record { url = link; depth = next_depth }) r.state.queue)
                (λ same. rw (← (eq_iff link url).0 same) n)
                (found_insert url link (entry (pending_entry (world.clock k) next_depth))
                  r.state.store))
        ]

  pub queue_links-QueuedOnce :
      (k : ℕ) (links : List String) (r : LinkResult)
      → ((n : ℕ) → Quiet (world.txns n))
      → QueuedOnce r.state
      → QueuedOnce (queue_links heap world next_depth k links r).state
  unfolding queue_links
  queue_links-QueuedOnce k [] r q h = h
  queue_links-QueuedOnce k (link ∷ links) r q h =
      let marked = mark_page_visited (world.txns k) (world.clock k) link next_depth r.state.store in
      queue_links-QueuedOnce (k + 1) links
        (queue_link heap world next_depth link marked.0 marked.1 r) q
        (queue_link-QueuedOnce k link r (q k) h)

-- Queueing the links of a page keeps that no URL stands twice in the queue and that each that does is
-- in the database: for every document and order of the links, whatever transactions fail or meet
-- conflicts, if no other goroutine writes in between.
pub extract_and_queue_links-QueuedOnce :
    (ops : UrlOps) (heap : HeapOps) (world : LinkWorld) (order : List String → List String)
    (scope : LinkScope) (page : Url) (depth : ℤ) (anchors : List (List Anchor)) (s : LinkState)
    → ((n : ℕ) → Quiet (world.txns n))
    → QueuedOnce s
    → QueuedOnce (extract_and_queue_links ops heap world order scope page depth anchors s).state
unfolding extract_and_queue_links
extract_and_queue_links-QueuedOnce ops heap world order scope page depth anchors s q h =
    elim (Bool-cases (ltz (pos 0) scope.max_depth && lez scope.max_depth (i64 (depth +ℤ pos 1)))) [
      | inl e ↦ rw e h
      | inr e ↦ rw e (
          queue_links-QueuedOnce heap world (i64 (depth +ℤ pos 1)) 0
            (order (found_links ops scope page anchors []))
            (record { state = s; queued = 0; failed = false }) q h)
    ]
