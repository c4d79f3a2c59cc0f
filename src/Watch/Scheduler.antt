-- ===== src/Watch/Scheduler.antt =====
-- pkg/watch/scheduler.go without its logs: which sites a tick starts, what the end of a run records,
-- and which crawl comes next. The orchestrator that runs the crawls is outside.
use Prim.Native.String.{String}
use doc_scraper.Prelude.{
  ℕ, Bool, false, ◌&&◌, List, [], ◌∷◌, map, Option, none, some, if◌then◌else◌,
}
use doc_scraper.Prelude.Int.{ℤ, pos, quot, ltz}
use doc_scraper.Prelude.Sort.{sort_by}
use doc_scraper.Watch.State.{
  StateManager, PageCounts, Io, save, should_run, get_next_run_time, update_site_state,
}

-- What the orchestrator reports of one site. The error is its text, and whether it is a
-- cancellation.
pub record RunResult : Type 0 where
  pub site_key : String
  pub success : Bool
  pub error : Option (String × Bool)
  pub counts : PageCounts
  pub recorded_at : ℕ

-- `Scheduler`; `stopped` says whether its context is cancelled, `running` holds the sites of each
-- orchestrator that still runs.
pub record Scheduler : Type 0 where
  pub site_keys : List String
  pub interval : ℤ
  pub manager : StateManager
  pub stopped : Bool
  pub running : List (List String)

unfoldable pub due_among : StateManager → ℤ → ℕ → List String → List String
due_among m interval now [] = []
due_among m interval now (k ∷ ks) =
    if should_run m k interval now
    then k ∷ due_among m interval now ks
    else due_among m interval now ks

-- `getDueSites`
unfoldable pub get_due_sites : Scheduler → ℕ → List String
unfolding due_among
get_due_sites s now = due_among s.manager s.interval now s.site_keys

unfoldable pub launch : Scheduler → List String → Scheduler
launch s [] = s
launch s (k ∷ ks) = record s { running = (k ∷ ks) ∷ s.running }

-- `runDueSites`, up to the start of its goroutine.
unfoldable pub run_due_sites : Scheduler → ℕ → Scheduler
unfolding launch
run_due_sites s now = launch s (get_due_sites s now)

unfoldable pub error_text : Option (String × Bool) → String
error_text none = ""
error_text (some (text, canceled)) = text

unfoldable pub is_canceled : Option (String × Bool) → Bool
is_canceled none = false
is_canceled (some (text, canceled)) = canceled

-- What one result records: nothing where a shutdown interrupted the crawl.
unfoldable pub record_result : Bool → RunResult → StateManager → Option StateManager
unfolding error_text is_canceled
record_result stopped r m =
    if stopped && is_canceled r.error
    then some m
    else update_site_state m r.recorded_at r.site_key r.success r.counts (error_text r.error)

-- The loop over the results.
unfoldable pub record_results : Bool → List RunResult → StateManager → Option StateManager
record_results stopped [] m = some m
record_results stopped (r ∷ rs) m = elim (record_result stopped r m) [
  | none ↦ none
  | some n ↦ record_results stopped rs n
]

-- The end of the goroutine: the results, and a save that may fail.
unfoldable pub finish_run : Io → ℕ → List RunResult → Scheduler → Option Scheduler
finish_run io now results s = elim (record_results s.stopped results s.manager) [
  | none ↦ none
  | some m ↦ some (record s { manager = (save io now m).0 })
]

-- A minute, and ten, in nanoseconds.
abbrev pub minute : ℤ
minute = pos 60000000000

abbrev pub ten_minutes : ℤ
ten_minutes = pos 600000000000

unfoldable pub at_least_minute : ℤ → ℤ
at_least_minute d = if ltz d minute then minute else d

-- `calculateTickInterval`
unfoldable pub calculate_tick_interval : ℤ → ℤ
unfolding at_least_minute
calculate_tick_interval interval =
    let d = at_least_minute (quot interval 10) in if ltz ten_minutes d then ten_minutes else d

-- The sites with their next runs, as `logNextRun` gathers them.
unfoldable pub next_runs : Scheduler → ℕ → List (String × ℤ)
next_runs s now =
    map (λ (k : String). (k, get_next_run_time s.manager k s.interval now)) s.site_keys

unfoldable pub sooner : String × ℤ → String × ℤ → Bool
sooner a b = ltz a.1 b.1

unfoldable pub first {ℓ} : {A : Type ℓ} → List A → Option A
first [] = none
first (x ∷ xs) = some x

-- The crawl that `logNextRun` announces.
unfoldable pub next_crawl : Scheduler → ℕ → Option (String × ℤ)
unfolding next_runs sooner first
next_crawl s now = first (sort_by sooner (next_runs s now))
