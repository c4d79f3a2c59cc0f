-- ===== src/Queue.antt =====
-- pkg/queue/priority_queue.go: the queue of pages to crawl. In which order heap.Pop gives the items is
-- not modelled.
pub mod Items
pub mod Bag
use doc_scraper.Prelude.{
  ℕ, Bool, true, false, List, [], ◌∷◌, length, Option, none, some, ◌≡◌, if◌then◌else◌, ◌==◌,
}
use doc_scraper.Prelude.Int.{ℤ}
use doc_scraper.Prelude.Sort.{count_if}
use doc_scraper.Store.Entries.{WorkItem}
pub use Items.{PqItem, HeapOps, priority_queue, priority_queue-KeepsItems}

-- `ThreadSafePriorityQueue`
pub record PageQueue : Type 0 where
  pub pq : List PqItem
  pub closed : Bool

-- How a call of `Pop` goes on under the lock: it waits while there is nothing and more may
-- come, and panics where heap.Pop does.
pub data Popped : Type 0 where
  item : WorkItem → Popped
  drained waits panics : Popped

-- `NewThreadSafePriorityQueue`
abbrev pub new_queue : PageQueue
new_queue = record { pq = []; closed = false }

module _ (heap : HeapOps) where
  -- `Add`: a closed queue drops the item.
  unfoldable pub add : WorkItem → PageQueue → PageQueue
  add w q = if q.closed then q else record q {
    pq = heap.heap_push priority_queue (record { work_item = w; priority = w.depth }) q.pq;
  }

  -- One look of `Pop` at the queue.
  unfoldable pub pop : PageQueue → PageQueue × Popped
  pop q =
      if length q.pq == 0
      then (q, if q.closed then drained else waits)
      else elim (heap.heap_pop priority_queue q.pq) [
        | none ↦ (q, panics)
        | some (x, rest) ↦ (record q { pq = rest }, item x.work_item)
      ]

-- `Close`
unfoldable pub close_queue : PageQueue → PageQueue
close_queue q = record q { closed = true }

-- `Len`
unfoldable pub queue_len : PageQueue → ℕ
queue_len q = length q.pq
