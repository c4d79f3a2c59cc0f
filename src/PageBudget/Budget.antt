-- ===== src/PageBudget/Budget.antt =====
-- `Budget` of pkg/pagebudget/pagebudget.go, over any weighted semaphore. The HTML parser and the
-- tokenizer are outside: `html_ok` says whether NewDocumentFromReader succeeds.
use doc_scraper.Prelude.{ℕ, Bool, true, false, List, none, some, ltb, min, not, ◌&&◌, if◌then◌else◌}
use doc_scraper.Prelude.Text.{Bytes}
use doc_scraper.Semaphore.{Semaphore}
use doc_scraper.PageBudget.Attrs.{Token, weigh, max_page_units, shared_budget_units}

-- How a parse ends. A parsed page has its weight, which its release gives back; `waiting` is a
-- parse that still waits for room.
pub data ParseResult : Type 0 where
  parsed : ℕ → ParseResult
  too_complex : ℕ → ℕ → ParseResult
  no_room : ℕ → ParseResult
  context_error html_error waiting : ParseResult

module _ (x : Semaphore) where
  open x use {Sem, new_weighted, try_acquire, release}

  pub record Budget : Type 0 where
    pub sem : Sem
    pub capacity : ℕ
    pub no_wait : Bool

  -- `NewBudget`
  unfoldable pub new_budget : ℕ → Budget
  new_budget units = record { sem = new_weighted units; capacity = units; no_wait = false }

  -- `Shared`
  unfoldable pub shared : Budget
  unfolding new_budget
  shared = new_budget shared_budget_units

  -- `releaseOnce`: the Bool is the state of its `sync.Once`.
  unfoldable pub release_once : ℕ → Bool → Sem → Sem × Bool
  release_once n true s = (s, true)
  release_once n false s = (release s n, true)

  -- The document is built once there is room; where that fails, the room is given back.
  unfoldable pub build : Budget → ℕ → Sem → Bool → Budget × ParseResult
  unfolding release_once
  build b w s true = (record b { sem = s }, parsed w)
  build b w s false = (record b { sem = (release_once w false s).0 }, html_error)

  -- Room for a page: TryAcquire in a reservation, and else Acquire, which the context may end.
  unfoldable pub acquire_for : Budget → ℕ → Bool → Bool → Budget × ParseResult
  unfolding build
  acquire_for b w html_ok ended = elim (try_acquire b.sem w) [
    | some s ↦ if not b.no_wait && ended then (b, context_error) else build b w s html_ok
    | none ↦
        if b.no_wait then (b, no_room w) else if ended then (b, context_error) else (b, waiting)
  ]

  -- `Parse`; `ended` says whether the context ends before a grant.
  unfoldable pub parse : (Bytes → List Token) → Budget → Bytes → Bool → Bool → Budget × ParseResult
  unfolding acquire_for
  parse tokenize b body html_ok ended =
      let w = weigh tokenize body in
      let limit = min max_page_units b.capacity in
      if ltb limit w then (b, too_complex w limit) else acquire_for b w html_ok ended

  -- How a reservation ends; a granted one comes with the child budget.
  pub data ReserveResult : Type 0 where
    reserved : Budget → ReserveResult
    over_capacity reserve_context_error reserve_waiting : ReserveResult

  -- `Reserve`
  unfoldable pub reserve : Budget → ℕ → Bool → Budget × ReserveResult
  reserve b units ended =
      let child : Budget = record { sem = new_weighted units; capacity = units; no_wait = true } in
      if ltb b.capacity units
      then (b, over_capacity)
      else if ended
      then (b, reserve_context_error)
      else elim (try_acquire b.sem units) [
        | none ↦ (b, reserve_waiting)
        | some s ↦ (record b { sem = s }, reserved child)
      ]
