-- ===== src/Fetch/Retry.antt =====
-- pkg/fetch/fetcher.go: the retry loop of FetchWithRetry. What an attempt meets of the world is a
-- record; `pow_delay` is the float computation of the backoff, initial delay times two to the power.
use doc_scraper.Prelude.{
  ℕ, zero, suc, ◌+◌, ◌-◌, Bool, ◌&&◌, ◌||◌, List, [], ◌∷◌, Option, none, some, ltb, leb, ◌==◌,
  if◌then◌else◌,
}
use doc_scraper.Prelude.Int.{ℤ, pos, pos_part, lez, ltz}
use doc_scraper.Errors.{
  Error, Sentinel, is, context_canceled, deadline_exceeded, blocked_address, server_http_error,
  client_http_error, other_http_error, retry_failed,
}
use doc_scraper.Fetch.RateLimit.{with_jitter}

-- A response with its status, or the client's error; the Bool says that it is a DNS error for a
-- host that does not exist, neither temporary nor a timeout.
pub data Outcome : Type 0 where
  response : ℕ → Outcome
  failure : Error → Bool → Outcome

pub record Attempt : Type 0 where
  pub done_before : Bool
  pub done_asleep : Bool
  pub draw : ℕ
  pub outcome : Outcome

pub record RetryConfig : Type 0 where
  pub max_retries : ℤ
  pub initial_retry_delay : ℤ
  pub max_retry_delay : ℤ

-- What FetchWithRetry returns: a response, a response with an error, or an error alone.
pub data Result : Type 0 where
  fetched : ℕ → Result
  rejected : ℕ → Error → Result
  failed : Error → Result

-- How an attempt ends: with a result, or with an error that is retried.
pub data Verdict : Type 0 where
  final : Result → Verdict
  again : Error → Verdict

abbrev pub status_error : Sentinel → Error
status_error s = record { wraps = s ∷ []; text = "status" }

unfoldable pub judge_status : ℕ → Verdict
judge_status s =
    if leb 200 s && ltb s 300
    then final (fetched s)
    else if leb 500 s
    then again (status_error server_http_error)
    else if s == 429
    then again (status_error client_http_error)
    else if leb 400 s && ltb s 500
    then final (rejected s (status_error client_http_error))
    else final (rejected s (status_error other_http_error))

unfoldable pub judge_failure : Error → Bool → Verdict
judge_failure e no_such_host =
    if is e context_canceled || is e deadline_exceeded
    then final (failed e)
    else if is e blocked_address
    then final (failed e)
    else if no_such_host
    then final (failed e)
    else again e

unfoldable pub judge : Outcome → Verdict
unfolding judge_status judge_failure
judge (response s) = judge_status s
judge (failure e no_such_host) = judge_failure e no_such_host

-- What a cancelled context returns: it wraps the error of the last attempt, or the context's own.
unfoldable pub cancelled : Option Error → Result
cancelled none = failed (status_error context_canceled)
cancelled (some e) = failed e

-- What the end of the loop returns.
unfoldable pub exhausted : Option Error → Result
exhausted none = failed (status_error retry_failed)
exhausted (some e) =
    if is e context_canceled || is e deadline_exceeded
    then failed e
    else failed (record { wraps = retry_failed ∷ e.wraps; text = e.text })

-- The result, the requests that were made, and the delays that were slept.
pub record Run : Type 0 where
  pub result : Result
  pub requests : ℕ
  pub delays : List ℤ

unfoldable pub plus_request : Run → Run
plus_request r = record r { requests = r.requests + 1 }

unfoldable pub plus_delay : ℕ → ℤ → Run → Run
plus_delay zero d r = r
plus_delay (suc n) d r = record r { delays = d ∷ r.delays }

module _ (pow_delay : ℤ → ℕ → ℤ) (cfg : RetryConfig) (world : ℕ → Attempt) where
  -- The delay before a retry, without its jitter.
  unfoldable pub base_delay : ℕ → ℤ
  base_delay attempt =
      let delay = pow_delay cfg.initial_retry_delay (attempt - 1) in
      if lez delay (pos 0) || ltz cfg.max_retry_delay delay then cfg.max_retry_delay else delay

  unfoldable pub stop : Result → Run
  stop r = record { result = r; requests = 0; delays = [] }

  -- The loop from an attempt on, with the attempts left and the last error.
  unfoldable pub fetch_from : ℕ → ℕ → Option Error → Run
  fetch_from zero attempt last = stop (exhausted last)
  fetch_from (suc left) attempt last =
      let w = world attempt in
      let sent = plus_request (elim (judge w.outcome) [
        | final r ↦ stop r
        | again e ↦ fetch_from left (attempt + 1) (some e)
      ]) in
      if w.done_before
      then stop (cancelled last)
      else if ltb 0 attempt && w.done_asleep
      then stop (cancelled last)
      else plus_delay attempt (with_jitter w.draw (base_delay attempt)) sent

  unfoldable pub attempts : ℕ
  attempts = if lez (pos 0) cfg.max_retries then pos_part cfg.max_retries + 1 else 0

  -- `FetchWithRetry`
  unfoldable pub fetch_with_retry : Run
  unfolding fetch_from attempts
  fetch_with_retry = fetch_from attempts 0 none
