-- ===== src/Fetch/RateLimit.antt =====
-- pkg/fetch/ratelimit.go. Times and durations are nanoseconds; a call's critical section is one
-- function, given the clock and the random number that it draws.
use Prim.Native.String.{String}
use doc_scraper.Prelude.{ℕ, List, [], Option, none, some, if◌then◌else◌}
use doc_scraper.Prelude.Int.{ℤ, pos, ◌+ℤ◌, ◌-ℤ◌, quot, lez, ltz, i64}
use doc_scraper.Prelude.Assoc.{lookup, insert}

pub record RateLimiter : Type 0 where
  pub host_next_free : List (String × ℤ)
  pub default_delay : ℤ

-- `NewRateLimiter`
unfoldable pub new_rate_limiter : ℤ → RateLimiter
new_rate_limiter d = record { host_next_free = []; default_delay = d }

-- `withJitter`; `draw` is what `rand.Int63n(span)` returns.
unfoldable pub with_jitter : ℕ → ℤ → ℤ
with_jitter draw d = if lez (quot d 5) (pos 0) then d else i64 (i64 (d +ℤ pos draw) -ℤ quot d 10)

-- The delay that a call asks for, or the limiter's own.
unfoldable pub chosen_delay : ℤ → ℤ → ℤ
chosen_delay default min_delay = if lez min_delay (pos 0) then default else min_delay

-- The slot that is reserved: now, or when the host is next free.
unfoldable pub slot : Option ℤ → ℤ → ℤ
slot none now = now
slot (some next) now = if ltz now next then next else now

-- `ApplyDelay`: the new state, and the time that the caller waits for; none if it does not wait
-- for a slot at all.
unfoldable pub apply_delay : RateLimiter → ℕ → ℤ → String → ℤ → RateLimiter × Option ℤ
apply_delay rl draw now host min_delay =
    let delay = chosen_delay rl.default_delay min_delay in
    let target = slot (lookup host rl.host_next_free) now in
    if lez delay (pos 0) then (rl, none) else (
      record rl {
        host_next_free = insert host (target +ℤ with_jitter draw delay) rl.host_next_free;
      },
      some target,
    )
