-- ===== src/Tests/Fetch.antt =====
-- The limits on requests, and the retries, on examples.
use doc_scraper.Prelude.{
  ℕ, ◌-◌, ◌/◌, ◌≤◌, ◌≡◌, inr, refl, false, ◌<◌, ◌==◌, if◌then◌else◌, List, [], ◌∷◌, some, arith,
}
use doc_scraper.Prelude.Int.{ℤ, pos, ◌+ℤ◌, ◌-ℤ◌}
use doc_scraper.Prelude.Assoc.{lookup, insert}
use doc_scraper.Prelude.Sort.{All}
use doc_scraper.Semaphore.{counting}
use doc_scraper.Fetch.RateLimit.{new_rate_limiter, chosen_delay, slot, apply_delay}
use doc_scraper.Fetch.Spacing.{Request, apply, run, SlotsAfter, IsTimely, slots_apart}
use doc_scraper.Fetch.Retry.{
  response, Attempt, RetryConfig, fetch_with_retry, plus_delay, plus_request, judge, stop,
}
use doc_scraper.Fetch.Attempts.{
  Overloaded, GivesUp, fetch_with_retry-Answers, fetch_with_retry-overloaded,
}
use doc_scraper.Fetch.HostSemaphore.{
  HostEntry, Pool, new_pool, evict_idle, grant, effective_limit, begin_acquire, entry_or_new, put,
  granted, begin_release, end_release, eviction_tick, evict_entries, is_idle, effective_interval,
}
use doc_scraper.Store.Database.{is_found}
use doc_scraper.Fetch.HostPermits.{counted_run, counted_step, add_permit, drop_permit, is_granted}
use doc_scraper.Fetch.HostPermits.Limit.{all_free, permits-le-limit}
use doc_scraper.Fetch.HostLimit.{Inv}
use doc_scraper.Fetch.HostHistory.{
  ticks, releases, returns, Event, step, acquires, grants, evict_idle-busy,
}

abbrev config : RetryConfig
config = record { max_retries = pos 3; initial_retry_delay = pos 100; max_retry_delay = pos 1000 }

abbrev busy_server : ℕ → Attempt
busy_server k = record {
  done_before = false;
  done_asleep = false;
  draw = 0;
  outcome = response 503;
}

abbrev doubled : ℤ → ℕ → ℤ
doubled d n = d

-- The second request succeeds.
abbrev recovering_server : ℕ → Attempt
recovering_server k = record (busy_server k) { outcome = response (if k == 0 then 503 else 200) }

fetch_with_retry-Answers_example :
    ((recovering_server 1).outcome ≡ response 200) × (200 ≤ 200) × (200 < 300)
unfolding fetch_with_retry plus_delay plus_request judge stop
fetch_with_retry-Answers_example = fetch_with_retry-Answers doubled config recovering_server

always_busy : Overloaded doubled config busy_server
always_busy = λ k. (refl, refl, 503, refl, inr (omega arith))

fetch_with_retry-overloaded_example :
    GivesUp doubled config busy_server (fetch_with_retry doubled config busy_server).result
    × ((fetch_with_retry doubled config busy_server).requests ≡ 4)
fetch_with_retry-overloaded_example =
    fetch_with_retry-overloaded doubled config busy_server 3 refl always_busy

abbrev request : ℕ → ℕ → Request
request draw now = record { draw = draw; now = pos now; host = "h"; min_delay = pos 1000 }

later-IsTimely : All (IsTimely (pos 500)) (request 199 20 ∷ request 0 21 ∷ [])
unfolding chosen_delay
later-IsTimely = (
  inr (1000, refl, omega arith, omega arith, inr (omega arith)),
  (inr (1000, refl, omega arith, omega arith, inr (omega arith)), tt),
)

first_slot : (apply (new_rate_limiter (pos 500)) (request 3 10)).1 ≡ some (pos 10)
unfolding apply_delay chosen_delay slot new_rate_limiter lookup
first_slot = refl

slots_apart_example :
    SlotsAfter "h" (pos 10 +ℤ pos (1000 - 1000 / 10)) (
      run
        (apply (new_rate_limiter (pos 500)) (request 3 10)).0
        (request 199 20 ∷ request 0 21 ∷ []))
unfolding new_rate_limiter chosen_delay
slots_apart_example =
    slots_apart (new_rate_limiter (pos 500)) (request 3 10) (request 199 20 ∷ request 0 21 ∷ [])
      1000 (pos 10) refl (omega arith) (omega arith) (inr (omega arith)) later-IsTimely first_slot

-- One goroutine holds a permit of the host, another waits.
abbrev entry : HostEntry counting
entry = record {
  sem = record { limit = 2; out = 1 };
  active_count = pos 2;
  last_release = 5;
  waiting = 1;
  holding = 1;
  releasing = 0;
}

abbrev pool : Pool counting
pool = record { entries = ("h", entry) ∷ []; limit = 2 }

pool-Inv : Inv counting pool
pool-Inv = (record { counted = refl; out = refl; sized = refl; bounded = omega arith }, tt)

there : lookup "h" pool.entries ≡ some entry
unfolding lookup
there = refl

evict_idle-busy_example : lookup "h" (evict_idle counting pool 900 (pos 10)).entries ≡ some entry
evict_idle-busy_example =
    evict_idle-busy counting pool 900 (pos 10) "h" entry pool-Inv there (omega arith)

-- One waits while the other holds the only permit; an eviction comes between them.
abbrev calls : List Event
calls =
    acquires "h"
    ∷ grants "h"
    ∷ acquires "h"
    ∷ ticks 900 (pos 10)
    ∷ grants "h"
    ∷ releases 950 "h"
    ∷ returns "h"
    ∷ grants "h"
    ∷ []

permits_reached : (counted_run counting (all_free counting (pos 1)) calls).permits "h" ≡ 1
unfolding counted_run counted_step add_permit drop_permit is_granted is_found step new_pool
    effective_limit effective_interval begin_acquire grant entry_or_new put granted begin_release
    end_release eviction_tick evict_idle evict_entries is_idle lookup insert ◌+ℤ◌ ◌-ℤ◌
permits_reached = refl

permits-le-limit_example :
    (counted_run counting (all_free counting (pos 1)) calls).permits "h" ≤ effective_limit (pos 1)
permits-le-limit_example = permits-le-limit counting (pos 1) calls "h"
