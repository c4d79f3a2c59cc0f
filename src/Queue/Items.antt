-- ===== src/Queue/Items.antt =====
-- The methods of `PriorityQueue` in pkg/queue/priority_queue.go, which container/heap calls.
use doc_scraper.Prelude.{
  get-in, get-out, ℕ, zero, suc, ◌+◌, ◌-◌, Bool, false, List, [], ◌∷◌, ◌++◌, length, get_elem?, set,
  take, Option, none, some, ◌≡◌, ◌≢◌, refl, ◌∙◌, arith, if◌then◌else◌, ◌==◌, ==_iff, Bool-cases,
  Option-cases, inl, inr, get_elem?-set_self, get_elem?-set_ne,
}
use doc_scraper.Prelude.Int.{ℤ, ltz}
use doc_scraper.Prelude.Sort.{count_if, count_if-append}
use doc_scraper.Store.Entries.{WorkItem}

-- `PQItem`, without the index that only container/heap reads.
pub record PqItem : Type 0 where
  pub work_item : WorkItem
  pub priority : ℤ

-- `Less`
unfoldable pub less : List PqItem → ℕ → ℕ → Bool
less pq i j = elim (get_elem? pq i) [
  | none ↦ false
  | some x ↦ elim (get_elem? pq j) [ none ↦ false | some y ↦ ltz x.priority y.priority ]
]

-- `Swap`
unfoldable pub swap : ℕ → ℕ → List PqItem → List PqItem
swap i j pq = elim (get_elem? pq i) [
  | none ↦ pq
  | some x ↦ elim (get_elem? pq j) [ none ↦ pq | some y ↦ set (set pq i y) j x ]
]

-- `Push`
unfoldable pub push_back : PqItem → List PqItem → List PqItem
push_back x pq = pq ++ (x ∷ [])

-- `Pop`; none is the panic of an index out of range.
unfoldable pub pop_back : List PqItem → Option (PqItem × List PqItem)
pop_back old = elim (get_elem? old (length old - 1)) [
  | none ↦ none
  | some x ↦ some (x, take (length old - 1) old)
]

-- `heap.Interface` on lists of items, whose `Len` is the length.
pub record HeapInterface : Type 0 where
  pub less_at : List PqItem → ℕ → ℕ → Bool
  pub swap_at : ℕ → ℕ → List PqItem → List PqItem
  pub push_item : PqItem → List PqItem → List PqItem
  pub pop_item : List PqItem → Option (PqItem × List PqItem)

-- `PriorityQueue` as a `heap.Interface`.
abbrev pub priority_queue : HeapInterface
priority_queue = record {
  less_at = less;
  swap_at = swap;
  push_item = push_back;
  pop_item = pop_back;
}

-- What the methods of an interface must keep: a push adds its item, a swap keeps the items, and a pop
-- takes away the one it gives, and gives one if there is any.
pub record KeepsItems (i : HeapInterface) : Type 0 where
  pub push_adds :
      (p : PqItem → Bool) (x : PqItem) (h : List PqItem)
      → count_if p (i.push_item x h) ≡ count_if p (x ∷ h)
  pub pop_gives :
      (x : PqItem) (h : List PqItem) → (r : PqItem × List PqItem) × (i.pop_item (x ∷ h) ≡ some r)
  pub swap_keeps :
      (p : PqItem → Bool) (a b : ℕ) (h : List PqItem) → count_if p (i.swap_at a b h) ≡ count_if p h
  pub pop_takes :
      (p : PqItem → Bool) (h rest : List PqItem) (x : PqItem)
      → i.pop_item h ≡ some (x, rest)
      → count_if p h ≡ count_if p (x ∷ rest)

-- `heap.Push` and `heap.Pop` of container/heap. They change a heap by the methods of its interface
-- alone, one `Push` or `Pop` and any `Swap`s within the length, so they keep what those keep.
pub record HeapOps : Type 0 where
  pub heap_push : HeapInterface → PqItem → List PqItem → List PqItem
  pub heap_pop : HeapInterface → List PqItem → Option (PqItem × List PqItem)
  pub heap_push_adds :
      (i : HeapInterface)
      → KeepsItems i
      → (p : PqItem → Bool) (x : PqItem) (h : List PqItem)
      → count_if p (heap_push i x h) ≡ count_if p (x ∷ h)
  pub heap_pop_gives :
      (i : HeapInterface)
      → KeepsItems i
      → (x : PqItem) (h : List PqItem) → (r : PqItem × List PqItem) × (heap_pop i (x ∷ h) ≡ some r)
  pub heap_pop_takes :
      (i : HeapInterface)
      → KeepsItems i
      → (p : PqItem → Bool) (h rest : List PqItem) (x : PqItem) → heap_pop i h ≡ some (x, rest)
      → count_if p h ≡ count_if p (x ∷ rest)

module _ (p : PqItem → Bool) where
  abbrev bit : PqItem → ℕ
  bit x = if p x then 1 else 0

  count-cons : (x : PqItem) (h : List PqItem) → count_if p (x ∷ h) ≡ bit x + count_if p h
  count-cons x h = ground arith

  count-set :
      (h : List PqItem) (n : ℕ) (x v : PqItem)
      → get_elem? h n ≡ some x
      → count_if p (set h n v) + bit x ≡ count_if p h + bit v
  count-set [] n x v e = absurd (let z : none ≡ some x = e in cc)
  count-set (y ∷ h) zero x v e =
      let same : y ≡ x = ground (arith, e) in
      rw (same, count-cons v h, count-cons x h) (omega arith)
  count-set (y ∷ h) (suc n) x v e =
      rw (count-cons y (set h n v), count-cons y h) (omega (arith, count-set h n x v e))

  count-push_back : (x : PqItem) (h : List PqItem) → count_if p (push_back x h) ≡ count_if p (x ∷ h)
  unfolding push_back
  count-push_back x h =
      rw (count-cons x h) (omega (arith, count_if-append p h (x ∷ []), count-cons x []))

  count-swapped :
      (a b : ℕ) (h : List PqItem) (x y : PqItem)
      → get_elem? h a ≡ some x
      → get_elem? h b ≡ some y
      → count_if p (set (set h a y) b x) ≡ count_if p h
  count-swapped a b h x y e f = elim (Bool-cases (a == b)) [
    | inl s ↦
        let same : a ≡ b = (==_iff a b).0 s in
        let again : x ≡ y = ground (arith, e, f, same) in
        let there : get_elem? (set h a y) b ≡ some y =
          rw (← same) (get_elem?-set_self h a y (get-in a h x e)) in
        omega (arith, count-set h a x y e, count-set (set h a y) b y x there)
    | inr s ↦
        let apart : a ≢ b = λ k. absurd (ground (arith, s, k)) in
        let there : get_elem? (set h a y) b ≡ some y = get_elem?-set_ne h y apart ∙ f in
        omega (arith, count-set h a x y e, count-set (set h a y) b y x there)
  ]

  count-swap : (a b : ℕ) (h : List PqItem) → count_if p (swap a b h) ≡ count_if p h
  unfolding swap
  count-swap a b h = elim (Option-cases (get_elem? h a)) [
    | inl e ↦ rw (e, swap) refl
    | inr (x, e) ↦ elim (Option-cases (get_elem? h b)) [
      | inl f ↦ rw (e, f, swap) refl
      | inr (y, f) ↦ rw (e, f, swap) (count-swapped a b h x y e f)
    ]
  ]

  count-last :
      (n : ℕ) (h : List PqItem) (x : PqItem)
      → length h ≡ suc n
      → get_elem? h n ≡ some x
      → count_if p h ≡ count_if p (x ∷ take n h)
  count-last n [] x l e = absurd (let z : none ≡ some x = e in cc)
  count-last zero (y ∷ []) x l e = let same : y ≡ x = ground (arith, e) in rw same refl
  count-last zero (y ∷ z ∷ h) x l e = absurd (omega (arith, l))
  count-last (suc n) (y ∷ h) x l e =
      let rest = count-last n h x (omega (arith, l)) e in ground (arith, rest)

  count-pop_back :
      (h rest : List PqItem) (x : PqItem)
      → pop_back h ≡ some (x, rest)
      → count_if p h ≡ count_if p (x ∷ rest)
  unfolding pop_back
  count-pop_back [] rest x e = absurd (let z : none ≡ some (x, rest) = e in cc)
  count-pop_back (y ∷ h) rest x e =
      let n = length (y ∷ h) - 1 in
      let size : length (y ∷ h) ≡ suc n = omega arith in
      elim (Option-cases (get_elem? (y ∷ h) n)) [
        | inl g ↦ absurd (let z : none ≡ some (x, rest) = rw (g, pop_back) at e in cc)
        | inr (w, g) ↦
            let z : some (w, take n (y ∷ h)) ≡ some (x, rest) = rw (g, pop_back) at e in
            let first : w ≡ x = ground (arith, z) in
            let others : take n (y ∷ h) ≡ rest = ground (arith, z) in
            count-last n (y ∷ h) w size g ∙ rw (first, others) refl
      ]

pop_back-some :
    (x : PqItem) (h : List PqItem) → (r : PqItem × List PqItem) × (pop_back (x ∷ h) ≡ some r)
unfolding pop_back
pop_back-some x h =
    let n = length (x ∷ h) - 1 in
    elim (Option-cases (get_elem? (x ∷ h) n)) [
      | inl e ↦ absurd (omega (arith, get-out n (x ∷ h) e))
      | inr (y, e) ↦ ((y, take n (x ∷ h)), rw (e, pop_back) refl)
    ]

-- The methods of the program keep the items.
pub priority_queue-KeepsItems : KeepsItems priority_queue
priority_queue-KeepsItems = record {
  push_adds = count-push_back;
  swap_keeps = count-swap;
  pop_gives = pop_back-some;
  pop_takes = count-pop_back;
}
