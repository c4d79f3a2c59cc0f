-- ===== src/PageBudget/Ledger.antt =====
-- A budget in use: pages are parsed, room is reserved, and either is given back, in any order.
use doc_scraper.Prelude.{
  ℕ, zero, suc, ◌+◌, ◌≤◌, ◌≡◌, refl, ap, Bool, true, false, List, [], ◌∷◌, Option, none, some, ltb,
  min, not, ◌&&◌, if◌then◌else◌, arith, get_elem?, set, Bool-cases, Option-cases, inl, inr,
}
use doc_scraper.Prelude.Text.{Bytes}
use doc_scraper.Semaphore.{Semaphore}
use doc_scraper.PageBudget.Attrs.{Token, weigh, max_page_units}
use doc_scraper.PageBudget.Budget.{
  ParseResult, parsed, Budget, new_budget, release_once, build, acquire_for, parse, ReserveResult,
  reserved, reserve,
}

-- The grants so far, newest first: what each took, and whether it was given back.
abbrev pub Grants : Type 0
Grants = List (ℕ × Bool)

-- What is out.
abbrev pub outstanding : Grants → ℕ
outstanding [] = 0
outstanding ((n, true) ∷ gs) = outstanding gs
outstanding ((n, false) ∷ gs) = n + outstanding gs

module _ (x : Semaphore) where
  open x use {Sem, held, size, try_acquire, release, held-new_weighted, acquired, refused, released}

  pub record Ledger : Type 0 where
    pub budget : Budget x
    pub grants : Grants

  pub data Event : Type 0 where
    parses : (Bytes → List Token) → Bytes → Bool → Bool → Event
    reserves : ℕ → Bool → Event
    releases : ℕ → Event

  unfoldable pub after_parse : Grants → Budget x × ParseResult → Ledger
  after_parse gs (b, parsed w) = record { budget = b; grants = (w, false) ∷ gs }
  after_parse gs (b, other) = record { budget = b; grants = gs }

  unfoldable pub after_reserve : Grants → ℕ → Budget x × ReserveResult x → Ledger
  after_reserve gs n (b, reserved child) = record { budget = b; grants = (n, false) ∷ gs }
  after_reserve gs n (b, other) = record { budget = b; grants = gs }

  unfoldable pub give_back : Ledger → ℕ → Option (ℕ × Bool) → Ledger
  give_back l i none = l
  give_back l i (some (n, before)) = record {
    budget = record (l.budget) { sem = (release_once x n before l.budget.sem).0 };
    grants = set l.grants i (n, (release_once x n before l.budget.sem).1);
  }

  unfoldable pub step : Ledger → Event → Ledger
  unfolding after_parse after_reserve give_back
  step l (parses tokenize body html_ok ended) =
      after_parse l.grants (parse x tokenize l.budget body html_ok ended)
  step l (reserves n ended) = after_reserve l.grants n (reserve x l.budget n ended)
  step l (releases i) = give_back l i (get_elem? l.grants i)

  -- The semaphore holds what is out, within the capacity.
  pub record Inv (l : Ledger) : Type 0 where
    pub sized : size l.budget.sem ≡ l.budget.capacity
    pub counted : held l.budget.sem ≡ outstanding l.grants
    pub bounded : outstanding l.grants ≤ l.budget.capacity

  build-Inv :
      (l : Ledger) (w : ℕ) (s : Sem) (html_ok : Bool)
      → Inv l
      → try_acquire l.budget.sem w ≡ some s
      → Inv (after_parse l.grants (build x l.budget w s html_ok))
  unfolding after_parse build release_once
  build-Inv l w s true v e = let a = acquired l.budget.sem s w e in omega (arith, a)
  build-Inv l w s false v e =
      let a = acquired l.budget.sem s w e in
      let r = released s w (omega (arith, a)) in omega (arith, a, r)

  -- A refused or interrupted parse changes nothing.
  if-Inv :
      (gs : Grants) (b : Bool) (p q : Budget x × ParseResult)
      → Inv (after_parse gs p)
      → Inv (after_parse gs q)
      → Inv (after_parse gs (if b then p else q))
  if-Inv gs true p q h k = h
  if-Inv gs false p q h k = k

  acquire_for-Inv :
      (l : Ledger) (w : ℕ) (html_ok ended : Bool)
      → Inv l
      → Inv (after_parse l.grants (acquire_for x l.budget w html_ok ended))
  unfolding after_parse acquire_for
  acquire_for-Inv l w html_ok ended v = elim (Option-cases (try_acquire l.budget.sem w)) [
    | inl e ↦
        rw (e, acquire_for) (if-Inv l.grants l.budget.no_wait _ _ v (if-Inv l.grants ended _ _ v v))
    | inr (s, e) ↦
        rw (e, acquire_for)
          (if-Inv l.grants (not l.budget.no_wait && ended) _ _ v (build-Inv l w s html_ok v e))
  ]

  parse-Inv :
      (l : Ledger) (tokenize : Bytes → List Token) (body : Bytes) (html_ok ended : Bool)
      → Inv l
      → Inv (after_parse l.grants (parse x tokenize l.budget body html_ok ended))
  unfolding parse
  parse-Inv l tokenize body html_ok ended v =
      elim (Bool-cases (ltb (min max_page_units l.budget.capacity) (weigh tokenize body))) [
        | inl e ↦ rw e (unfold after_parse in v)
        | inr e ↦ rw e (acquire_for-Inv l (weigh tokenize body) html_ok ended v)
      ]

  grant-Inv :
      (l : Ledger) (n : ℕ) (s : Sem)
      → Inv l
      → try_acquire l.budget.sem n ≡ some s
      → Inv (record { budget = record (l.budget) { sem = s }; grants = (n, false) ∷ l.grants })
  grant-Inv l n s v e = let a = acquired l.budget.sem s n e in omega (arith, a)

  reserve_if-Inv :
      (gs : Grants) (n : ℕ) (b : Bool) (p q : Budget x × ReserveResult x)
      → Inv (after_reserve gs n p)
      → Inv (after_reserve gs n q)
      → Inv (after_reserve gs n (if b then p else q))
  reserve_if-Inv gs n true p q h k = h
  reserve_if-Inv gs n false p q h k = k

  reserve-Inv :
      (l : Ledger) (n : ℕ) (ended : Bool)
      → Inv l
      → Inv (after_reserve l.grants n (reserve x l.budget n ended))
  unfolding after_reserve reserve
  reserve-Inv l n ended v = elim (Option-cases (try_acquire l.budget.sem n)) [
    | inl e ↦
        rw (e, reserve)
          (reserve_if-Inv l.grants n (ltb l.budget.capacity n) _ _ v
            (reserve_if-Inv l.grants n ended _ _ v v))
    | inr (s, e) ↦
        rw (e, reserve)
          (reserve_if-Inv l.grants n (ltb l.budget.capacity n) _ _ v
            (reserve_if-Inv l.grants n ended _ _ v (grant-Inv l n s v e)))
  ]

get_elem?-set-some :
    (gs : Grants) (i : ℕ) (u v : ℕ × Bool)
    → get_elem? gs i ≡ some u
    → get_elem? (set gs i v) i ≡ some v
get_elem?-set-some [] i u v e = absurd (cc e)
get_elem?-set-some (g ∷ gs) zero u v e = refl
get_elem?-set-some (g ∷ gs) (suc i) u v e = get_elem?-set-some gs i u v e

set-set : (gs : Grants) (i : ℕ) (v : ℕ × Bool) → set (set gs i v) i v ≡ set gs i v
set-set [] i v = refl
set-set (g ∷ gs) zero v = refl
set-set (g ∷ gs) (suc i) v = ap (◌∷◌ g) (set-set gs i v)

-- What a release takes from what is out.
outstanding-set :
    (gs : Grants) (i n : ℕ) (before : Bool)
    → get_elem? gs i ≡ some (n, before)
    → outstanding (set gs i (n, true)) + outstanding ((n, before) ∷ []) ≡ outstanding gs
outstanding-set [] i n before e = absurd (cc e)
outstanding-set ((m, true) ∷ gs) zero n true e = omega arith
outstanding-set ((m, true) ∷ gs) zero n false e = absurd (cc e)
outstanding-set ((m, false) ∷ gs) zero n true e = absurd (cc e)
outstanding-set ((m, false) ∷ gs) zero n false e = ground (arith, e)
outstanding-set ((m, true) ∷ gs) (suc i) n before e = omega (arith, outstanding-set gs i n before e)
outstanding-set ((m, false) ∷ gs) (suc i) n before e =
    omega (arith, outstanding-set gs i n before e)

module _ (x : Semaphore) where
  open x use {Sem, held, size, try_acquire, release, held-new_weighted, acquired, refused, released}

  give_back-Inv :
      (l : Ledger x) (i : ℕ) (o : Option (ℕ × Bool))
      → get_elem? l.grants i ≡ o
      → Inv x l
      → Inv x (give_back x l i o)
  unfolding give_back release_once
  give_back-Inv l i none e v = v
  give_back-Inv l i (some (n, true)) e v =
      let s = outstanding-set l.grants i n true e in omega (arith, s, v)
  give_back-Inv l i (some (n, false)) e v =
      let s = outstanding-set l.grants i n false e in
      let r = released l.budget.sem n (omega (arith, s, v)) in omega (arith, s, r, v)

  step-Inv : (l : Ledger x) (e : Event x) → Inv x l → Inv x (step x l e)
  unfolding step
  step-Inv l (parses tokenize body html_ok ended) v = parse-Inv x l tokenize body html_ok ended v
  step-Inv l (reserves n ended) v = reserve-Inv x l n ended v
  step-Inv l (releases i) v = give_back-Inv l i (get_elem? l.grants i) refl v

  unfoldable pub run : Ledger x → List (Event x) → Ledger x
  run l [] = l
  run l (e ∷ es) = run (step x l e) es

  run-Inv : (l : Ledger x) (es : List (Event x)) → Inv x l → Inv x (run l es)
  unfolding run
  run-Inv l [] v = v
  run-Inv l (e ∷ es) v = run-Inv (step x l e) es (step-Inv l e v)

  abbrev pub opened : ℕ → Ledger x
  opened units = record { budget = new_budget x units; grants = [] }

  new_budget-Inv : (units : ℕ) → Inv x (opened units)
  unfolding new_budget
  new_budget-Inv units = let h = held-new_weighted units in omega (arith, h)

  -- Whatever is parsed, reserved and released, and however often a release is called: the semaphore
  -- holds the sum of what was granted and not given back, which never exceeds the capacity.
  pub run-opened-Inv : (units : ℕ) (es : List (Event x)) → Inv x (run (opened units) es)
  run-opened-Inv units es = run-Inv (opened units) es (new_budget-Inv units)

  give_back_twice :
      (l : Ledger x) (i : ℕ) (o : Option (ℕ × Bool))
      → get_elem? l.grants i ≡ o
      → step x (give_back x l i o) (releases i) ≡ give_back x l i o
  unfolding step give_back release_once
  give_back_twice l i none e = rw (e, give_back)
  give_back_twice l i (some (n, true)) e =
      rw (get_elem?-set-some l.grants i (n, true) (n, true) e, give_back)
        (rw (set-set l.grants i (n, true)))
  give_back_twice l i (some (n, false)) e =
      rw (get_elem?-set-some l.grants i (n, false) (n, true) e, give_back)
        (rw (set-set l.grants i (n, true)))

  -- A second release of the same page or reservation gives nothing back.
  pub release_twice :
      (l : Ledger x) (i : ℕ) → step x (step x l (releases i)) (releases i) ≡ step x l (releases i)
  unfolding step
  release_twice l i = give_back_twice l i (get_elem? l.grants i) refl
