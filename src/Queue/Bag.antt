-- ===== src/Queue/Bag.antt =====
-- What goes into the queue of pkg/queue/priority_queue.go comes out of it or is still there.
use doc_scraper.Prelude.{
  ◌+◌, Bool, true, false, ◌||◌, List, [], ◌∷◌, ◌++◌, ◌≡◌, refl, if◌then◌else◌, arith, length, ◌==◌,
  Option-cases, Bool-cases, inl, inr,
}
use doc_scraper.Prelude.Sort.{count_if, count_if-append}
use doc_scraper.Store.Entries.{WorkItem}
use doc_scraper.Queue.{
  PqItem, HeapOps, PageQueue, Popped, item, drained, waits, panics, priority_queue,
  priority_queue-KeepsItems, add, pop, close_queue,
}

-- A call of a goroutine that has the lock.
pub data QueueCall : Type 0 where
  adds : WorkItem → QueueCall
  pops closes : QueueCall

-- The items that were taken in, and those given out, and whether a call panicked.
pub record Traffic : Type 0 where
  pub taken_in : List WorkItem
  pub given_out : List WorkItem
  pub panicked : Bool

abbrev pub given : Popped → List WorkItem
given (item w) = w ∷ []
given drained = []
given waits = []
given panics = []

unfoldable pub gives_panic : Popped → Bool
gives_panic panics = true
gives_panic (item w) = false
gives_panic drained = false
gives_panic waits = false

module _ (heap : HeapOps) where
  unfoldable pub queue_step : QueueCall → PageQueue → PageQueue × Traffic
  queue_step (adds w) q = (
    add heap w q,
    record { taken_in = if q.closed then [] else w ∷ []; given_out = []; panicked = false },
  )
  queue_step pops q =
      let r = pop heap q in
      (r.0, record { taken_in = []; given_out = given r.1; panicked = gives_panic r.1 })
  queue_step closes q = (close_queue q, record { taken_in = []; given_out = []; panicked = false })

  -- A history of calls, in the order in which they get the lock.
  unfoldable pub queue_run : List QueueCall → PageQueue → PageQueue × Traffic
  unfolding queue_step
  queue_run [] q = (q, record { taken_in = []; given_out = []; panicked = false })
  queue_run (c ∷ cs) q =
      let one = queue_step c q in
      let rest = queue_run cs one.0 in
      (
        rest.0,
        record {
          taken_in = one.1.taken_in ++ rest.1.taken_in;
          given_out = one.1.given_out ++ rest.1.given_out;
          panicked = one.1.panicked || rest.1.panicked;
        },
      )

abbrev pub in_queue : (WorkItem → Bool) → PqItem → Bool
in_queue p x = p x.work_item

module _ (heap : HeapOps) where
  add-keeps :
      (p : WorkItem → Bool) (w : WorkItem) (q : PageQueue)
      → count_if p (if q.closed then [] else w ∷ []) + count_if (in_queue p) q.pq
        ≡ count_if (in_queue p) (add heap w q).pq
  unfolding add
  add-keeps p w q = elim (Bool-cases q.closed) [
    | inl e ↦ rw e (omega arith)
    | inr e ↦
        rw
          (
            e,
            heap.heap_push_adds priority_queue priority_queue-KeepsItems (in_queue p)
                (record { work_item = w; priority = w.depth }) q.pq,
          )
          (ground arith)
  ]

  pop-keeps :
      (p : WorkItem → Bool) (q : PageQueue)
      → count_if (in_queue p) q.pq
        ≡ count_if p (given (pop heap q).1) + count_if (in_queue p) (pop heap q).0.pq
  unfolding pop
  pop-keeps p q = elim (Bool-cases (length q.pq == 0)) [
    | inl n ↦
        rw n
          (elim (Bool-cases q.closed) [ inl c ↦ rw c (omega arith) | inr c ↦ rw c (omega arith) ])
    | inr n ↦ elim (Option-cases (heap.heap_pop priority_queue q.pq)) [
      | inl e ↦ rw (n, e, pop) (omega arith)
      | inr ((x, rest), e) ↦
          rw
            (
              n,
              e,
              pop,
              heap.heap_pop_takes priority_queue priority_queue-KeepsItems (in_queue p) q.pq rest x
                  e,
            )
            (ground arith)
    ]
  ]

  step_keeps :
      (p : WorkItem → Bool) (c : QueueCall) (q : PageQueue)
      → count_if p (queue_step heap c q).1.taken_in + count_if (in_queue p) q.pq
        ≡ count_if p (queue_step heap c q).1.given_out
          + count_if (in_queue p) (queue_step heap c q).0.pq
  unfolding queue_step close_queue
  step_keeps p (adds w) q = omega (arith, add-keeps p w q)
  step_keeps p pops q = omega (arith, pop-keeps p q)
  step_keeps p closes q = refl

  pop_calm :
      (h : List PqItem) (b : Bool)
      → gives_panic (pop heap (record { pq = h; closed = b })).1 ≡ false
  unfolding gives_panic pop
  pop_calm [] true = refl
  pop_calm [] false = refl
  pop_calm (x ∷ h) b =
      let (r, e) = heap.heap_pop_gives priority_queue priority_queue-KeepsItems x h in
      let full : (length (x ∷ h) == 0) ≡ false = ground arith in rw (full, e) refl

  step_calm : (c : QueueCall) (q : PageQueue) → (queue_step heap c q).1.panicked ≡ false
  unfolding queue_step
  step_calm (adds w) q = refl
  step_calm pops q = pop_calm q.pq q.closed
  step_calm closes q = refl

  -- No call panics, and nothing is lost and nothing made up: over every history of calls, the items of any kind that are
  -- queued at first or taken in are as many as those given out and those that are still queued.
  pub queue_run_keeps :
      (p : WorkItem → Bool) (cs : List QueueCall) (q : PageQueue)
      → ((queue_run heap cs q).1.panicked ≡ false)
        × (count_if p (queue_run heap cs q).1.taken_in + count_if (in_queue p) q.pq
            ≡ count_if p (queue_run heap cs q).1.given_out
              + count_if (in_queue p) (queue_run heap cs q).0.pq)
  unfolding queue_run
  queue_run_keeps p [] q = (refl, refl)
  queue_run_keeps p (c ∷ cs) q =
      let one = queue_step heap c q in
      let rest = queue_run_keeps p cs one.0 in
      (
        rw (step_calm c q) rest.0,
        omega (
          arith,
          step_keeps p c q,
          rest.1,
          count_if-append p one.1.taken_in (queue_run heap cs one.0).1.taken_in,
          count_if-append p one.1.given_out (queue_run heap cs one.0).1.given_out,
        ),
      )
