-- ===== src/Links/Scope.antt =====
-- What pkg/process/links.go queues is in scope and not too deep, and is counted.
use Prim.Native.String.{String}
use text.Mathlib.Text.{◌==◌ as str_eq, find?}
use doc_scraper.Prelude.{
  ℕ, ◌+◌, Bool, true, false, ◌&&◌, List, [], ◌∷◌, Option, none, some, ◌≡◌, refl, arith, Bool-cases,
  Option-cases, inl, inr, ◌∙◌, subst,
}
use doc_scraper.Prelude.Int.{ℤ, pos, ◌+ℤ◌, i64, lez, ltz}
use doc_scraper.Prelude.Sort.{All, count_if}
use doc_scraper.Store.Entries.{WorkItem}
use doc_scraper.Store.Database.{BadgerStore, mark_page_visited, is_found}
use doc_scraper.Queue.{priority_queue, priority_queue-KeepsItems, HeapOps, PqItem, add}
use doc_scraper.Urls.{Url, UrlOps, parse_and_normalize}
use doc_scraper.Links.{
  LinkScope, Anchor, LinkState, LinkWorld, LinkResult, in_scope, link_of, add_link, member,
  links_of, queue_link, queue_links, found_links, extract_and_queue_links,
}

add_link-All :
    (P : String → Type 0) (l : String) (found : List String)
    → P l
    → All P found
    → All P (add_link l found)
unfolding add_link
add_link-All P l found p h = elim (Bool-cases (member l found)) [
  | inl e ↦ rw e h
  | inr e ↦ rw e (p, h)
]

module _ (ops : UrlOps) (scope : LinkScope) (page : Url) (P : String → Type 0)
    (fits : (u parsed : Url) (text : String)
      → in_scope ops scope u ≡ true
      → parse_and_normalize ops (ops.render u) ≡ some (text, parsed)
      → P text) where
  link_of-fits : (a : Anchor) (l : String) → link_of ops scope page a ≡ some l → P l
  unfolding link_of
  link_of-fits a l h = elim (Bool-cases (str_eq a.href "")) [
    | inl e ↦ absurd (let k : none ≡ some l = rw (e, link_of) at h in cc)
    | inr e ↦
        elim (Bool-cases
          (scope.respect_nofollow && is_found (find? (ops.lower a.rel) "nofollow"))) [
            | inl f ↦ absurd (let k : none ≡ some l = rw (e, f, link_of) at h in cc)
            | inr f ↦ elim (Option-cases (ops.resolve page a.href)) [
              | inl g ↦ absurd (let k : none ≡ some l = rw (e, f, g, link_of) at h in cc)
              | inr (u, g) ↦ elim (Bool-cases (in_scope ops scope u)) [
                | inr t ↦ absurd (let k : none ≡ some l = rw (e, f, g, t, link_of) at h in cc)
                | inl t ↦ elim (Option-cases (parse_and_normalize ops (ops.render u))) [
                  | inl n ↦ absurd (let k : none ≡ some l = rw (e, f, g, t, n, link_of) at h in cc)
                  | inr ((text, parsed), n) ↦
                      let k : some text ≡ some l = rw (e, f, g, t, n, link_of) at h in
                      subst P (ground (arith, k)) (fits u parsed text t n)
                ]
              ]
            ]
          ]
  ]

  links_of-All :
      (anchors : List Anchor) (found : List String)
      → All P found
      → All P (links_of ops scope page anchors found)
  unfolding links_of
  links_of-All [] found h = h
  links_of-All (a ∷ anchors) found h = elim (Option-cases (link_of ops scope page a)) [
    | inl e ↦ rw (e, links_of) (links_of-All anchors found h)
    | inr (l, e) ↦
        rw (e, links_of)
          (links_of-All anchors (add_link l found) (add_link-All P l found (link_of-fits a l e) h))
  ]

  found_links-All :
      (selectors : List (List Anchor)) (found : List String)
      → All P found
      → All P (found_links ops scope page selectors found)
  unfolding found_links
  found_links-All [] found h = h
  found_links-All (anchors ∷ rest) found h =
      found_links-All rest (links_of ops scope page anchors found) (links_of-All anchors found h)

module _ (heap : HeapOps) (world : LinkWorld) (next_depth : ℤ) (bad : WorkItem → Bool) where
  abbrev bad_in : LinkState → ℕ
  bad_in s = count_if (λ (x : PqItem). bad x.work_item) s.queue.pq

  queue_link_fits :
      (link : String) (store : BadgerStore) (answer : Option Bool) (r : LinkResult)
      → bad (record { url = link; depth = next_depth }) ≡ false
      → bad_in (queue_link heap world next_depth link store answer r).state ≡ bad_in r.state
  unfolding queue_link add
  queue_link_fits link store none r b = refl
  queue_link_fits link store (some false) r b = refl
  queue_link_fits link store (some true) r b = ground (
    arith,
    b,
    heap.heap_push_adds priority_queue priority_queue-KeepsItems (λ (x : PqItem). bad x.work_item)
        (record { work_item = record { url = link; depth = next_depth }; priority = next_depth })
        r.state.queue.pq,
  )

  queue_links_fit :
      (k : ℕ) (links : List String) (r : LinkResult)
      → All (λ l. bad (record { url = l; depth = next_depth }) ≡ false) links
      → bad_in (queue_links heap world next_depth k links r).state ≡ bad_in r.state
  unfolding queue_links
  queue_links_fit k [] r h = refl
  queue_links_fit k (link ∷ links) r h =
      let marked = mark_page_visited (world.txns k) (world.clock k) link next_depth r.state.store in
      queue_links_fit (k + 1) links (queue_link heap world next_depth link marked.0 marked.1 r) h.1
      ∙ queue_link_fits link marked.0 marked.1 r h.0

-- What is queued is in scope and not too deep: of every test `bad` of work items that no normalized
-- URL of a URL in scope meets at the next depth, when that is under the maximal depth or there is
-- none, the queue holds as many items as before; for every order that visits only links found.
pub extract_and_queue_links_fit :
    (ops : UrlOps) (heap : HeapOps) (world : LinkWorld) (order : List String → List String)
    (scope : LinkScope) (page : Url) (depth : ℤ) (anchors : List (List Anchor)) (s : LinkState)
    (bad : WorkItem → Bool)
    → ((u parsed : Url) (text : String)
        → (ltz (pos 0) scope.max_depth && lez scope.max_depth (i64 (depth +ℤ pos 1))) ≡ false
        → in_scope ops scope u ≡ true
        → parse_and_normalize ops (ops.render u) ≡ some (text, parsed)
        → bad (record { url = text; depth = i64 (depth +ℤ pos 1) }) ≡ false)
    → ((P : String → Type 0) (links : List String) → All P links → All P (order links))
    → count_if
        (λ (x : PqItem). bad x.work_item)
        (extract_and_queue_links ops heap world order scope page depth anchors s).state.queue.pq
      ≡ count_if (λ (x : PqItem). bad x.work_item) s.queue.pq
unfolding extract_and_queue_links
extract_and_queue_links_fit ops heap world order scope page depth anchors s bad fits among =
    let next = i64 (depth +ℤ pos 1) in
    elim (Bool-cases (ltz (pos 0) scope.max_depth && lez scope.max_depth next)) [
      | inl e ↦ rw e refl
      | inr e ↦ rw e (
          queue_links_fit heap world next bad 0 (order (found_links ops scope page anchors []))
            (record { state = s; queued = 0; failed = false })
            (among (λ l. bad (record { url = l; depth = next }) ≡ false)
              (found_links ops scope page anchors [])
              (found_links-All ops scope page (λ l. bad (record { url = l; depth = next }) ≡ false)
                (λ u parsed text. fits u parsed text e) anchors [] tt)))
    ]
