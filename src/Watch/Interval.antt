-- ===== src/Watch/Interval.antt =====
-- `ParseInterval` of pkg/watch/scheduler.go. `parse_duration` is time.ParseDuration, `match_days` the
-- two groups of the regular expression for whole days, `parse_int` strconv.ParseInt in base 10.
use Prim.Native.String.{String}
use text.Mathlib.Text.{◌==◌ as str_eq}
use text.Mathlib.TextEquality.{eq_iff}
use doc_scraper.Prelude.{
  ℕ, ◌*◌, ◌/◌, ◌≤◌, ◌≡◌, refl, ◌||◌, ◌+◌, ◌==◌, leb, ◌⊎◌, ◌≢◌, Option, none, some, arith, leb→le,
  if◌then◌else◌, Bool-cases, inl, inr,
}
use doc_scraper.Prelude.Int.{ℤ, pos, ◌+ℤ◌, ◌-ℤ◌, ◌*ℤ◌, ltz, lez, i64, max_i64, i64-times}

-- A day in nanoseconds.
abbrev pub day : ℕ
day = 86400000000000

module _ (parse_duration : String → Option ℤ) (match_days : String → Option (String × String))
    (parse_int : String → Option ℤ) where
  -- What follows the whole days.
  unfoldable pub plus_extra : ℤ → Option ℤ → Option ℤ
  plus_extra d none = none
  plus_extra d (some extra) =
      if ltz extra (pos 0) || ltz (i64 (pos max_i64 -ℤ d)) extra
      then none
      else some (i64 (d +ℤ extra))

  unfoldable pub whole_days : Option ℤ → String → Option ℤ
  unfolding plus_extra
  whole_days none rest = none
  whole_days (some days) rest =
      if ltz (pos (max_i64 / day)) days
      then none
      else if str_eq rest ""
      then some (i64 (days *ℤ pos day))
      else plus_extra (i64 (days *ℤ pos day)) (parse_duration rest)

  unfoldable pub day_interval : Option (String × String) → Option ℤ
  unfolding whole_days
  day_interval none = none
  day_interval (some (digits, rest)) = whole_days (parse_int digits) rest

  -- `parseIntervalValue`
  unfoldable pub parse_interval_value : String → Option ℤ
  unfolding day_interval
  parse_interval_value s = elim (parse_duration s) [
    | some d ↦ some d
    | none ↦ day_interval (match_days s)
  ]

  unfoldable pub if_positive : Option ℤ → Option ℤ
  if_positive none = none
  if_positive (some d) = if lez d (pos 0) then none else some d

  -- `ParseInterval`; an error is none.
  unfoldable pub parse_interval : String → Option ℤ
  unfolding if_positive
  parse_interval s = if_positive (parse_interval_value s)

  -- `k` nanoseconds are written behind the days: nothing, or a duration.
  abbrev pub Extra : String → ℕ → Type 0
  Extra rest k = ((rest ≡ "") × (k ≡ 0)) ⊎ ((rest ≢ "") × (parse_duration rest ≡ some (pos k)))

  abbrev pub exact : ℕ → Option ℤ
  exact n = if n == 0 then none else if leb n max_i64 then some (pos n) else none

  product_days : (n : ℕ) → n ≤ max_i64 / day → i64 (pos n *ℤ pos day) ≡ pos (n * day)
  product_days n h = i64-times (pos n) day refl (omega (arith, h))

  plus_extra-exact :
      (d k : ℕ)
      → d ≤ max_i64
      → k ≤ max_i64
      → if_positive (plus_extra (pos d) (some (pos k))) ≡ exact (d + k)
  unfolding plus_extra if_positive i64 ◌-ℤ◌ ◌+ℤ◌
  plus_extra-exact d k h l = ground arith

  whole_days-exact :
      (n k : ℕ) (rest : String)
      → k ≤ max_i64
      → Extra rest k
      → if_positive (whole_days (some (pos n)) rest) ≡ exact (n * day + k)
  unfolding whole_days if_positive
  whole_days-exact n k rest h e = elim (Bool-cases (leb n (max_i64 / day))) [
    | inr f ↦ ground (arith, f)
    | inl f ↦
        let le : n ≤ max_i64 / day = leb→le n (max_i64 / day) f in
        let p = product_days n le in
        elim e [
          | inl (r, z) ↦ rw (p, r) (ground (arith, f, z))
          | inr (r, d) ↦ ground (
            arith,
            f,
            p,
            d,
            eq_iff rest "",
            r,
            plus_extra-exact (n * day) k (omega (arith, le)) h,
          )
        ]
  ]

  -- An interval written as `n` whole days and a further `k` nanoseconds, which fit an int64, is
  -- exactly their sum, and is refused where that is zero or more than an int64 holds: no overflow
  -- goes unnoticed.
  pub parse_interval-exact :
      (s digits rest : String) (n k : ℕ)
      → parse_duration s ≡ none
      → match_days s ≡ some (digits, rest)
      → parse_int digits ≡ some (pos n)
      → Extra rest k
      → k ≤ max_i64
      → parse_interval s ≡ exact (n * day + k)
  unfolding parse_interval parse_interval_value day_interval
  parse_interval-exact s digits rest n k a b c e h =
      ground (arith, a, b, c, whole_days-exact n k rest h e)
