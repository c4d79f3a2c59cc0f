-- ===== src/Sitemaps/Backlog.antt =====
-- The backlog of pending sitemaps in pkg/sitemap/processor.go, and the first-in-first-out queue it is.
use Prim.Native.String.{String}
use doc_scraper.Prelude.{
  ℕ, zero, suc, ◌+◌, ◌*◌, ◌≤◌, Bool, true, false, ◌&&◌, List, [], ◌∷◌, ◌++◌, length, get_elem?, set,
  length-append, length-set, get-in, get-out, ==_iff, subst, drop, none, some, ◌≡◌, refl, sym, ap,
  ◌∙◌, if◌then◌else◌, ltb, leb, ◌==◌, arith, Bool-cases, Option-cases, inl, inr,
}

-- `sitemapTask`; the depth starts at 0 and only grows.
pub record SitemapTask : Type 0 where
  pub url : String
  pub depth : ℕ

abbrev pub zero_task : SitemapTask
zero_task = record { url = ""; depth = 0 }

-- `sitemapBacklog`, without its lock.
pub record SitemapBacklog : Type 0 where
  pub items : List SitemapTask
  pub head : ℕ
  pub closed : Bool

unfoldable pub new_sitemap_backlog : SitemapBacklog
new_sitemap_backlog = record { items = []; head = 0; closed = false }

unfoldable pub push : SitemapTask → SitemapBacklog → SitemapBacklog
push t b = record b { items = b.items ++ (t ∷ []) }

-- What a `pop` that has the lock does: a task, the end (`ok` false), another wait, or the panic of an
-- index out of range.
pub data Popped : Type 0 where
  task : SitemapTask → Popped
  drained waits panics : Popped

-- The part already handed out is dropped once it is long.
unfoldable pub compact : SitemapBacklog → SitemapBacklog
compact b =
    if ltb 1024 b.head && leb (length b.items) (b.head * 2)
    then record b { items = drop b.head b.items; head = 0 }
    else b

unfoldable pub pop : SitemapBacklog → SitemapBacklog × Popped
unfolding compact
pop b =
    if b.head == length b.items
    then (b, if b.closed then drained else waits)
    else elim (get_elem? b.items b.head) [
      | none ↦ (b, panics)
      | some t ↦
          (compact (record b { items = set b.items b.head zero_task; head = b.head + 1 }), task t)
    ]

unfoldable pub close_backlog : SitemapBacklog → SitemapBacklog
close_backlog b = record b { closed = true }

-- A call of a goroutine that has the lock.
pub data BacklogCall : Type 0 where
  pushes : SitemapTask → BacklogCall
  pops closes : BacklogCall

abbrev backlog_step : BacklogCall → SitemapBacklog → SitemapBacklog × List Popped
backlog_step (pushes t) b = (push t b, [])
backlog_step pops b = let r = pop b in (r.0, r.1 ∷ [])
backlog_step closes b = (close_backlog b, [])

-- What the pops of a history of calls answer.
unfoldable pub popped : List BacklogCall → SitemapBacklog → List Popped
popped [] b = []
popped (c ∷ cs) b = let r = backlog_step c b in r.1 ++ popped cs r.0

-- The queue: the tasks that wait, oldest first, and whether it is closed.
abbrev fifo_pop : List SitemapTask → Bool → List SitemapTask × Popped
fifo_pop [] closed = ([], if closed then drained else waits)
fifo_pop (t ∷ ts) closed = (ts, task t)

unfoldable pub fifo_popped : List BacklogCall → List SitemapTask → Bool → List Popped
fifo_popped [] ts closed = []
fifo_popped (pushes t ∷ cs) ts closed = fifo_popped cs (ts ++ (t ∷ [])) closed
fifo_popped (pops ∷ cs) ts closed = let r = fifo_pop ts closed in r.1 ∷ fifo_popped cs r.0 closed
fifo_popped (closes ∷ cs) ts closed = fifo_popped cs ts true

module _ {ℓ} {A : Type ℓ} where
  drop-append : (n : ℕ) (xs ys : List A) → n ≤ length xs → drop n (xs ++ ys) ≡ drop n xs ++ ys
  drop-append zero xs ys h = refl
  drop-append (suc n) [] ys h = elim h [ ]
  drop-append (suc n) (x ∷ xs) ys h = drop-append n xs ys (omega arith)

  drop-get :
      (n : ℕ) (xs : List A) (x : A) → get_elem? xs n ≡ some x → drop n xs ≡ x ∷ drop (suc n) xs
  drop-get n [] x h = absurd (let k : none ≡ some x = h in cc)
  drop-get zero (y ∷ ys) x h = ground (arith, h)
  drop-get (suc n) (y ∷ ys) x h = drop-get n ys x h

  drop-set : (n : ℕ) (xs : List A) (x : A) → drop (suc n) (set xs n x) ≡ drop (suc n) xs
  drop-set n [] x = refl
  drop-set zero (y ∷ ys) x = refl
  drop-set (suc n) (y ∷ ys) x = drop-set n ys x

  drop_all : (xs : List A) → drop (length xs) xs ≡ []
  drop_all [] = refl
  drop_all (x ∷ xs) = drop_all xs

-- What the backlog holds for the queue `ts` and the mark `closed`.
record Holds (b : SitemapBacklog) (ts : List SitemapTask) (closed : Bool) : Type 0 where
  rest : drop b.head b.items ≡ ts
  in_range : b.head ≤ length b.items
  same_mark : b.closed ≡ closed

compact-Holds :
    (b : SitemapBacklog) (ts : List SitemapTask) (closed : Bool)
    → Holds b ts closed
    → Holds (compact b) ts closed
unfolding compact
compact-Holds b ts closed h =
    elim (Bool-cases (ltb 1024 b.head && leb (length b.items) (b.head * 2))) [
      | inl e ↦ rw e (record { rest = h.rest; in_range = omega arith; same_mark = h.same_mark })
      | inr e ↦ rw e h
    ]

push-Holds :
    (t : SitemapTask) (b : SitemapBacklog) (ts : List SitemapTask) (closed : Bool)
    → Holds b ts closed
    → Holds (push t b) (ts ++ (t ∷ [])) closed
unfolding push
push-Holds t b ts closed h = record {
  rest = drop-append b.head b.items (t ∷ []) h.in_range ∙ ap (λ l. l ++ (t ∷ [])) h.rest;
  in_range = omega (arith, h.in_range, length-append b.items (t ∷ []));
  same_mark = h.same_mark;
}

next : (n : ℕ) → n + 1 ≡ suc n
next n = omega arith

-- A pop of the backlog answers as the queue does, and leaves what the queue leaves.
pop-Holds :
    (b : SitemapBacklog) (ts : List SitemapTask) (closed : Bool)
    → Holds b ts closed
    → Holds (pop b).0 (fifo_pop ts closed).0 closed × ((pop b).1 ≡ (fifo_pop ts closed).1)
unfolding pop
pop-Holds b ts closed h = elim (Bool-cases (b.head == length b.items)) [
  | inl e ↦
      let ended : b.head ≡ length b.items = (==_iff b.head (length b.items)).0 e in
      let none_left : [] ≡ ts =
        sym (drop_all b.items) ∙ ap (λ n. drop n b.items) (sym ended) ∙ h.rest in
      subst
        (λ l. Holds (pop b).0 (fifo_pop l closed).0 closed × ((pop b).1 ≡ (fifo_pop l closed).1))
        none_left
        (rw (e, pop)
          (
            record {
              rest = h.rest ∙ sym none_left;
              in_range = h.in_range;
              same_mark = h.same_mark;
            },
            rw h.same_mark refl,
          ))
  | inr e ↦ elim (Option-cases (get_elem? b.items b.head)) [
    | inl g ↦ absurd (ground (arith, e, h.in_range, get-out b.head b.items g))
    | inr (t, g) ↦
        let left = drop (suc b.head) b.items in
        let more : t ∷ left ≡ ts = sym (drop-get b.head b.items t g) ∙ h.rest in
        subst
          (λ l. Holds (pop b).0 (fifo_pop l closed).0 closed × ((pop b).1 ≡ (fifo_pop l closed).1))
          more
          (rw (e, g, pop)
            (
              compact-Holds (record b { items = set b.items b.head zero_task; head = b.head + 1 })
                  left closed
                  (record {
                    rest =
                        ap (λ n. drop n (set b.items b.head zero_task)) (next b.head)
                        ∙ drop-set b.head b.items zero_task;
                    in_range =
                        omega
                          (arith, length-set b.items b.head zero_task, get-in b.head b.items t g);
                    same_mark = h.same_mark;
                  }),
              refl,
            ))
  ]
]

popped-fifo :
    (cs : List BacklogCall) (b : SitemapBacklog) (ts : List SitemapTask) (closed : Bool)
    → Holds b ts closed
    → popped cs b ≡ fifo_popped cs ts closed
unfolding popped fifo_popped close_backlog
popped-fifo [] b ts closed h = refl
popped-fifo (pushes t ∷ cs) b ts closed h =
    popped-fifo cs (push t b) (ts ++ (t ∷ [])) closed (push-Holds t b ts closed h)
popped-fifo (pops ∷ cs) b ts closed h =
    let one = pop-Holds b ts closed h in
    rw (one.1, popped-fifo cs (pop b).0 (fifo_pop ts closed).0 closed one.0) refl
popped-fifo (closes ∷ cs) b ts closed h =
    popped-fifo cs (close_backlog b) ts true
      (record { rest = h.rest; in_range = h.in_range; same_mark = refl })

-- The backlog refines a first-in-first-out queue: for every history of pushes, pops and closes on a
-- new backlog, the pops answer what those of the queue answer, whenever the slice is compacted; none
-- reads out of range, and after a close what is left still comes out, in order, before the end.
pub popped-fifo_popped :
    (cs : List BacklogCall) → popped cs new_sitemap_backlog ≡ fifo_popped cs [] false
unfolding new_sitemap_backlog
popped-fifo_popped cs =
    popped-fifo cs new_sitemap_backlog [] false
      (record { rest = refl; in_range = omega arith; same_mark = refl })
