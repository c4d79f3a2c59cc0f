-- ===== src/Fetch/Attempts.antt =====
-- How often FetchWithRetry asks, how long it waits, and what it returns.
use doc_scraper.Prelude.{
  ℕ, zero, suc, ◌+◌, ◌-◌, ◌≤◌, ◌<◌, ◌≡◌, ◌≢◌, refl, true, false, ◌&&◌, ◌||◌, Option, none, some,
  ltb, arith, Bool-cases, inl, inr, ap, ◌⊎◌, ◌∙◌,
}
use doc_scraper.Prelude.Int.{ℤ, pos}
use doc_scraper.Errors.{
  Error, is, context_canceled, deadline_exceeded, server_http_error, client_http_error,
  retry_failed,
}
use doc_scraper.Crawler.Failures.{classify, failure_temporary}
use doc_scraper.Fetch.RateLimit.{with_jitter}
use doc_scraper.Fetch.Retry.{
  Outcome, response, failure, Attempt, RetryConfig, Result, fetched, rejected, failed, Verdict,
  final, again, status_error, judge, cancelled, exhausted, Run, plus_request, plus_delay,
  base_delay, stop, fetch_from, attempts, fetch_with_retry,
}

plus_delay-requests : (n : ℕ) (d : ℤ) (r : Run) → (plus_delay n d r).requests ≡ r.requests
unfolding plus_delay
plus_delay-requests zero d r = refl
plus_delay-requests (suc n) d r = refl

plus_delay-result : (n : ℕ) (d : ℤ) (r : Run) → (plus_delay n d r).result ≡ r.result
unfolding plus_delay
plus_delay-result zero d r = refl
plus_delay-result (suc n) d r = refl

module _ (pow_delay : ℤ → ℕ → ℤ) (cfg : RetryConfig) (world : ℕ → Attempt) where
  abbrev from : ℕ → ℕ → Option Error → Run
  from = fetch_from pow_delay cfg world

  -- The cases of one attempt that is not interrupted.
  abbrev sent : ℕ → ℕ → Verdict → Run
  sent left attempt v =
      plus_request (elim v [
        | final r ↦ stop pow_delay cfg world r
        | again e ↦ from left (attempt + 1) (some e)
      ])

  abbrev wait_before : ℕ → ℤ
  wait_before attempt = with_jitter (world attempt).draw (base_delay pow_delay cfg world attempt)

  -- An attempt is cancelled, or it waits, asks and is judged.
  attempt_cases :
      (P : Run → Type 0) (left attempt : ℕ) (last : Option Error)
      → P (stop pow_delay cfg world (cancelled last))
      → P (
          plus_delay attempt
            (wait_before attempt)
            (sent left attempt (judge (world attempt).outcome)))
      → P (from (suc left) attempt last)
  unfolding fetch_from
  attempt_cases P left attempt last c d = elim (Bool-cases (world attempt).done_before) [
    | inl e ↦ rw (e, fetch_from) c
    | inr e ↦ elim (Bool-cases (ltb 0 attempt && (world attempt).done_asleep)) [
      | inl f ↦ rw (e, f, fetch_from) c
      | inr f ↦ rw (e, f, fetch_from) d
    ]
  ]

  sent-requests :
      (left attempt : ℕ) (v : Verdict)
      → ((e : Error) → (from left (attempt + 1) (some e)).requests ≤ left)
      → (sent left attempt v).requests ≤ suc left
  unfolding stop plus_request
  sent-requests left attempt (final r) h = omega arith
  sent-requests left attempt (again e) h = omega (arith, h e)

  requests-le : (left attempt : ℕ) (last : Option Error) → (from left attempt last).requests ≤ left
  requests-le zero attempt last = unfold fetch_from stop in omega arith
  requests-le (suc left) attempt last =
      let rest = λ (e : Error). requests-le left (attempt + 1) (some e) in
      attempt_cases (λ r. r.requests ≤ suc left) left attempt last (unfold stop in omega arith)
        (rw (plus_delay-requests attempt (wait_before attempt))
          (sent-requests left attempt (judge (world attempt).outcome) rest))

  -- However the world answers, the client is asked at most once more than the retries allowed, and
  -- never where the number of retries is negative.
  pub fetch_with_retry-requests :
      (fetch_with_retry pow_delay cfg world).requests ≤ attempts pow_delay cfg world
  unfolding fetch_with_retry
  fetch_with_retry-requests = requests-le (attempts pow_delay cfg world) 0 none

  -- A result that is no bare error says what the client answered to the last request.
  abbrev pub Answers : Result → ℕ → Type 0
  Answers (fetched s) k = ((world k).outcome ≡ response s) × (200 ≤ s) × (s < 300)
  Answers (rejected s e) k =
      ((world k).outcome ≡ response s) × ((s < 200) ⊎ ((300 ≤ s) × (s < 500) × (s ≢ 429)))
  Answers (failed e) k = Unit {0}

  judge-Answers :
      (k : ℕ) (o : Outcome) (r : Result) → (world k).outcome ≡ o → judge o ≡ final r → Answers r k
  unfolding judge
  judge-Answers k o (failed e) w h = tt
  judge-Answers k (failure e b) (fetched s) w h = absurd (ground (arith, h))
  judge-Answers k (failure e b) (rejected s x) w h = absurd (ground (arith, h))
  judge-Answers k (response t) (fetched s) w h = ground (arith, w, h)
  judge-Answers k (response t) (rejected s x) w h = ground (arith, w, h)

  cancelled-Answers : (last : Option Error) (k : ℕ) → Answers (cancelled last) k
  unfolding cancelled
  cancelled-Answers none k = tt
  cancelled-Answers (some e) k = tt

  exhausted-Answers : (last : Option Error) (k : ℕ) → Answers (exhausted last) k
  unfolding exhausted
  exhausted-Answers none k = tt
  exhausted-Answers (some e) k =
      elim (Bool-cases (is e context_canceled || is e deadline_exceeded)) [
        | inl h ↦ rw (h, exhausted) tt
        | inr h ↦ rw (h, exhausted) tt
      ]

  sent-Answers :
      (left attempt : ℕ) (v : Verdict)
      → judge (world attempt).outcome ≡ v
      → ((e : Error)
          → let r = from left (attempt + 1) (some e) in
            Answers r.result (attempt + 1 + r.requests - 1))
      → let r = sent left attempt v in Answers r.result (attempt + r.requests - 1)
  unfolding stop plus_request
  sent-Answers left attempt (final r) h rest =
      let same : attempt + (0 + 1) - 1 ≡ attempt = omega arith in
      rw same (judge-Answers attempt (world attempt).outcome r refl h)
  sent-Answers left attempt (again e) h rest =
      let n = (from left (attempt + 1) (some e)).requests in
      let same : attempt + (n + 1) - 1 ≡ attempt + 1 + n - 1 = omega arith in rw same (rest e)

  from-Answers :
      (left attempt : ℕ) (last : Option Error)
      → let r = from left attempt last in Answers r.result (attempt + r.requests - 1)
  from-Answers zero attempt last =
      unfold fetch_from stop in exhausted-Answers last (attempt + 0 - 1)
  from-Answers (suc left) attempt last =
      let rest = λ (e : Error). from-Answers left (attempt + 1) (some e) in
      attempt_cases (λ r. Answers r.result (attempt + r.requests - 1)) left attempt last
        (unfold stop in cancelled-Answers last (attempt + 0 - 1))
        (rw
          (
            plus_delay-requests attempt (wait_before attempt),
            plus_delay-result attempt (wait_before attempt),
          )
          (sent-Answers left attempt (judge (world attempt).outcome) refl rest))

  -- A response that is returned is the client's answer to the last request that was made: a
  -- success has a 2xx status, a response with an error a status that is neither 2xx, nor 429, nor
  -- 500 or above.
  pub fetch_with_retry-Answers :
      let r = fetch_with_retry pow_delay cfg world in Answers r.result (r.requests - 1)
  unfolding fetch_with_retry
  fetch_with_retry-Answers =
      let r = from (attempts pow_delay cfg world) 0 none in
      let same : 0 + r.requests - 1 ≡ r.requests - 1 = omega arith in
      rw same at (from-Answers (attempts pow_delay cfg world) 0 none)

  -- The server is busy or broken at every attempt, and nobody cancels.
  abbrev pub Overloaded : Type 0
  Overloaded =
      (k : ℕ)
      → ((world k).done_before ≡ false)
        × ((world k).done_asleep ≡ false)
        × (s : ℕ) × ((world k).outcome ≡ response s)
        × ((s ≡ 429) ⊎ (500 ≤ s))

  -- An error that classify takes for a temporary one, and that says that all retries failed.
  abbrev pub GivesUp : Result → Type 0
  GivesUp (failed e) = (is e retry_failed ≡ true) × (classify e false ≡ failure_temporary)
  GivesUp r = ⊥

  abbrev IsStatusError : Option Error → Type 0
  IsStatusError none = Unit {0}
  IsStatusError (some e) =
      (e ≡ status_error server_http_error) ⊎ (e ≡ status_error client_http_error)

  exhausted-GivesUp : (last : Option Error) → IsStatusError last → GivesUp (exhausted last)
  unfolding exhausted is classify
  exhausted-GivesUp none h = (refl, refl)
  exhausted-GivesUp (some e) (inl h) = rw h (refl, refl)
  exhausted-GivesUp (some e) (inr h) = rw h (refl, refl)

  judge_overloaded :
      (s : ℕ)
      → (s ≡ 429) ⊎ (500 ≤ s)
      → (e : Error) × (judge (response s) ≡ again e) × IsStatusError (some e)
  unfolding judge
  judge_overloaded s (inl c) = (status_error client_http_error, ground (arith, c), inr refl)
  judge_overloaded s (inr c) = (status_error server_http_error, ground (arith, c), inl refl)

  retried :
      (left attempt : ℕ) (last : Option Error) (e : Error)
      → (world attempt).done_before ≡ false
      → (world attempt).done_asleep ≡ false
      → judge (world attempt).outcome ≡ again e
      → from (suc left) attempt last
        ≡ plus_delay attempt (wait_before attempt) (plus_request (from left (attempt + 1) (some e)))
  unfolding fetch_from
  retried left attempt last e b a j =
      let awake : (ltb 0 attempt && (world attempt).done_asleep) ≡ false = ground (arith, a) in
      rw (b, awake, j, fetch_from)

  overloaded_run :
      (left attempt : ℕ) (last : Option Error)
      → Overloaded
      → IsStatusError last
      → GivesUp (from left attempt last).result × ((from left attempt last).requests ≡ left)
  overloaded_run zero attempt last h e =
      (unfold fetch_from stop in exhausted-GivesUp last e, unfold fetch_from stop in refl)
  overloaded_run (suc left) attempt last h e =
      let (b, a, s, o, c) = h attempt in
      let (x, j, status) = judge_overloaded s c in
      let rest = overloaded_run left (attempt + 1) (some x) h status in
      rw
        (
          retried left attempt last x b a (ap judge o ∙ j),
          plus_delay-result attempt (wait_before attempt),
          plus_delay-requests attempt (wait_before attempt),
        )
        (unfold_request left (from left (attempt + 1) (some x)) rest)
    where
      unfold_request :
          (n : ℕ) (r : Run)
          → GivesUp r.result × (r.requests ≡ n)
          → GivesUp (plus_request r).result × ((plus_request r).requests ≡ suc n)
      unfold_request n r h = unfold plus_request in (h.0, omega (arith, h.1))

  attempts_lem : (n : ℕ) → cfg.max_retries ≡ pos n → attempts pow_delay cfg world ≡ n + 1
  unfolding attempts
  attempts_lem n e = rw e (ground arith)

  -- While nobody cancels, a server that answers every attempt with 429 or 500 and above is asked
  -- once and then once more for each of the `n` retries configured, and what comes back is an error
  -- that says so and that counts as temporary.
  pub fetch_with_retry-overloaded :
      (n : ℕ)
      → cfg.max_retries ≡ pos n
      → Overloaded
      → GivesUp (fetch_with_retry pow_delay cfg world).result
        × ((fetch_with_retry pow_delay cfg world).requests ≡ n + 1)
  unfolding fetch_with_retry
  fetch_with_retry-overloaded n e h =
      let allowed = attempts_lem n e in
      let r = overloaded_run (attempts pow_delay cfg world) 0 none h tt in (r.0, r.1 ∙ allowed)
