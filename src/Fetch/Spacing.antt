-- ===== src/Fetch/Spacing.antt =====
-- The slots that a host's callers get are apart by the delay, less the jitter.
use Prim.Native.String.{String}
use text.Mathlib.Text.{◌==◌ as str_eq}
use text.Mathlib.TextEquality.{eq_iff}
use text.Mathlib.TextPositions.{eq_refl}
use doc_scraper.Prelude.{
  ℕ, ◌+◌, ◌-◌, ◌*◌, ◌/◌, ◌<◌, ◌^◌, ◌≡◌, ◌⊎◌, ◌++◌, List, [], ◌∷◌, Option, none, some, arith,
  Bool-cases, inl, inr, sym, subst,
}
use doc_scraper.Prelude.Int.{ℤ, pos, ◌+ℤ◌, ◌-ℤ◌, ◌≤ℤ◌, quot, i64, +ℤ_parts}
use doc_scraper.Prelude.Assoc.{lookup, insert, lookup-insert}
use doc_scraper.Prelude.Sort.{All, All-append}
use doc_scraper.Fetch.RateLimit.{RateLimiter, with_jitter, chosen_delay, slot, apply_delay}

with_jitter_drawn :
    (draw n : ℕ)
    → n * 12 < 10 * 2 ^ 63
    → draw < n / 5
    → (pos (n - n / 10) ≤ℤ with_jitter draw (pos n))
      × (with_jitter draw (pos n) ≤ℤ pos (n + n / 10))
unfolding with_jitter quot i64 ◌+ℤ◌ ◌-ℤ◌
with_jitter_drawn draw n h d = ground arith

with_jitter_short : (draw n : ℕ) → n / 5 ≡ 0 → with_jitter draw (pos n) ≡ pos n
unfolding with_jitter quot
with_jitter_short draw n h = ground arith

-- The random number is below the span, or the span is 0 and none is drawn.
abbrev pub IsDraw : ℕ → ℕ → Type 0
IsDraw draw n = (n / 5 ≡ 0) ⊎ (draw < n / 5)

-- The jitter moves a delay by a tenth at most, either way: for a delay that is far from overflow,
-- and a random number below the span that is drawn from.
pub with_jitter_bounds :
    (draw n : ℕ)
    → n * 12 < 10 * 2 ^ 63
    → IsDraw draw n
    → (pos (n - n / 10) ≤ℤ with_jitter draw (pos n))
      × (with_jitter draw (pos n) ≤ℤ pos (n + n / 10))
with_jitter_bounds draw n h (inl e) = rw (with_jitter_short draw n e) (omega arith)
with_jitter_bounds draw n h (inr d) = with_jitter_drawn draw n h d

-- One call of ApplyDelay.
pub record Request : Type 0 where
  pub draw : ℕ
  pub now : ℤ
  pub host : String
  pub min_delay : ℤ

abbrev pub apply : RateLimiter → Request → RateLimiter × Option ℤ
apply rl r = apply_delay rl r.draw r.now r.host r.min_delay

-- The delay in force is no number, or a positive one far from overflow with a fitting draw.
abbrev pub IsTimely : ℤ → Request → Type 0
IsTimely default r =
    let d = chosen_delay default r.min_delay in
    (d ≤ℤ pos 0) ⊎ ((n : ℕ) × (d ≡ pos n) × (0 < n) × (n * 12 < 10 * 2 ^ 63) × IsDraw r.draw n)

abbrev pub with_host : String → Option ℤ → List (String × ℤ)
with_host h none = []
with_host h (some t) = (h, t) ∷ []

-- The slots that a row of calls gets.
pub run : RateLimiter → List Request → List (String × ℤ)
run rl [] = []
run rl (r ∷ rs) = with_host r.host (apply rl r).1 ++ run (apply rl r).0 rs

-- The host is free at this time at the earliest.
abbrev FreeAfter : RateLimiter → String → ℤ → Type 0
FreeAfter rl h bound = (t : ℤ) × (lookup h rl.host_next_free ≡ some t) × (bound ≤ℤ t)

apply-none :
    (rl : RateLimiter) (r : Request)
    → chosen_delay rl.default_delay r.min_delay ≤ℤ pos 0
    → apply rl r ≡ (rl, none)
unfolding apply_delay
apply-none rl r z = ground arith

abbrev slot_of : RateLimiter → Request → ℤ
slot_of rl r = slot (lookup r.host rl.host_next_free) r.now

abbrev reserve_slot : RateLimiter → Request → ℕ → RateLimiter
reserve_slot rl r n = record rl {
  host_next_free = insert r.host (slot_of rl r +ℤ with_jitter r.draw (pos n)) rl.host_next_free;
}

apply-some :
    (rl : RateLimiter) (r : Request) (n : ℕ)
    → chosen_delay rl.default_delay r.min_delay ≡ pos n
    → 0 < n
    → apply rl r ≡ (reserve_slot rl r n, some (slot_of rl r))
unfolding apply_delay
apply-some rl r n e p = rw e (ground arith)

-- The reserving call itself leaves the host free a delay after its slot, less the jitter.
reserve_slot-next :
    (rl : RateLimiter) (r : Request) (n : ℕ)
    → n * 12 < 10 * 2 ^ 63
    → IsDraw r.draw n
    → FreeAfter (reserve_slot rl r n) r.host (slot_of rl r +ℤ pos (n - n / 10))
reserve_slot-next rl r n q d = (
  slot_of rl r +ℤ with_jitter r.draw (pos n),
  rw (lookup-insert r.host r.host _ rl.host_next_free, eq_refl r.host),
  (let b = with_jitter_bounds r.draw n q d in
      omega (
        arith,
        b,
        +ℤ_parts (slot_of rl r) (pos (n - n / 10)),
        +ℤ_parts (slot_of rl r) (with_jitter r.draw (pos n)),
      )),
)

slot_of-FreeAfter :
    (rl : RateLimiter) (r : Request) (bound : ℤ) → FreeAfter rl r.host bound → bound ≤ℤ slot_of rl r
unfolding slot
slot_of-FreeAfter rl r bound (t, e, b) = rw e (ground (arith, b))

reserve_slot_self :
    (rl : RateLimiter) (r : Request) (n : ℕ) (bound : ℤ)
    → n * 12 < 10 * 2 ^ 63
    → IsDraw r.draw n
    → FreeAfter rl r.host bound
    → FreeAfter (reserve_slot rl r n) r.host bound
reserve_slot_self rl r n bound q d f =
    let (t, found, late) = reserve_slot-next rl r n q d in
    (
      t,
      found,
      omega
          (arith, late, slot_of-FreeAfter rl r bound f, +ℤ_parts (slot_of rl r) (pos (n - n / 10))),
    )

reserve_slot-FreeAfter :
    (rl : RateLimiter) (r : Request) (n : ℕ) (h : String) (bound : ℤ)
    → n * 12 < 10 * 2 ^ 63
    → IsDraw r.draw n
    → FreeAfter rl h bound
    → FreeAfter (reserve_slot rl r n) h bound
reserve_slot-FreeAfter rl r n h bound q d f = elim (Bool-cases (str_eq r.host h)) [
  | inl e ↦
      subst (λ k. FreeAfter rl k bound → FreeAfter (reserve_slot rl r n) k bound)
        ((eq_iff r.host h).0 e) (reserve_slot_self rl r n bound q d) f
  | inr e ↦ (
    f.0,
    ground (
      arith,
      lookup-insert r.host h (slot_of rl r +ℤ with_jitter r.draw (pos n)) rl.host_next_free,
      e,
      f.1,
    ),
    f.2,
  )
]

-- The slots given for a host are at a bound or later.
abbrev pub SlotsAfter : String → ℤ → List (String × ℤ) → Type 0
SlotsAfter h bound = All (λ (s : String × ℤ). s.0 ≡ h → bound ≤ℤ s.1)

default-apply : (rl : RateLimiter) (r : Request) → (apply rl r).0.default_delay ≡ rl.default_delay
unfolding apply_delay
default-apply rl r = ground arith

apply-FreeAfter :
    (rl : RateLimiter) (r : Request) (h : String) (bound : ℤ)
    → IsTimely rl.default_delay r
    → FreeAfter rl h bound
    → FreeAfter (apply rl r).0 h bound × SlotsAfter h bound (with_host r.host (apply rl r).1)
apply-FreeAfter rl r h bound (inl z) f = rw (apply-none rl r z) (f, tt)
apply-FreeAfter rl r h bound (inr (n, e, p, q, d)) f = rw (apply-some rl r n e p) (
  reserve_slot-FreeAfter rl r n h bound q d f,
  (λ same. slot_of-FreeAfter rl r bound (subst (λ k. FreeAfter rl k bound) (sym same) f), tt),
)

run-SlotsAfter :
    (rl : RateLimiter) (rs : List Request) (h : String) (bound : ℤ)
    → All (IsTimely rl.default_delay) rs
    → FreeAfter rl h bound
    → SlotsAfter h bound (run rl rs)
unfolding run
run-SlotsAfter rl [] h bound ts f = tt
run-SlotsAfter rl (r ∷ rs) h bound ts f =
    let (free, first) = apply-FreeAfter rl r h bound ts.0 f in
    All-append (λ (s : String × ℤ). s.0 ≡ h → bound ≤ℤ s.1) (with_host r.host (apply rl r).1)
      (run (apply rl r).0 rs) first
      (run-SlotsAfter (apply rl r).0 rs h bound (rw (default-apply rl r) ts.1) free)

-- Once a call with a delay of `n` has its slot, every later call for the same host, whenever it
-- comes and whatever others come between, gets a slot at least nine tenths of `n` behind it.
-- Delays are far from overflow, and random numbers below their spans.
pub slots_apart :
    (rl : RateLimiter) (r : Request) (rs : List Request) (n : ℕ) (t : ℤ)
    → chosen_delay rl.default_delay r.min_delay ≡ pos n
    → 0 < n
    → n * 12 < 10 * 2 ^ 63
    → IsDraw r.draw n
    → All (IsTimely rl.default_delay) rs
    → (apply rl r).1 ≡ some t
    → SlotsAfter r.host (t +ℤ pos (n - n / 10)) (run (apply rl r).0 rs)
slots_apart rl r rs n t e p q d ts got =
    let both = apply-some rl r n e p in
    let same : slot_of rl r ≡ t = ground (arith, both, got) in
    run-SlotsAfter (apply rl r).0 rs r.host (t +ℤ pos (n - n / 10)) (rw (default-apply rl r) ts)
      (rw (both, ← same) (reserve_slot-next rl r n q d))
