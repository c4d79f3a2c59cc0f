-- ===== src/Crawler/Loss/Decision.antt =====
-- When a crawl is kept back, and what accepting it takes.
use text.Mathlib.TextEquality.{eq_iff}
use doc_scraper.Prelude.{ℕ, ◌+◌, ◌*◌, ◌<◌, ◌≤◌, ◌^◌, ◌≡◌, ◌⊎◌, refl, true, false, not, arith}
use doc_scraper.Prelude.Int.{ℤ, pos, pos_part, neg_part, i64-times, i64-plus}
use doc_scraper.Crawler.Loss.{
  LossInput, LossyCrawlError, decide_loss, is_empty, too_transient, too_small, kept, can_accept,
  refused_empty, refused_shrink, refused_temporary_failures,
}

is_empty-allow : (i : LossInput) → is_empty (record i { allow_shrink = true }) ≡ is_empty i
unfolding is_empty
is_empty-allow i = refl

-- For a crawl that was kept back, the error offers to accept it exactly when the same crawl with
-- allow_shrink set is not kept back.
pub can_accept-decide_loss :
    (i : LossInput) (e : LossyCrawlError)
    → (decide_loss i).refused ≡ true
    → e.reason ≡ (decide_loss i).reason
    → can_accept e ≡ not (decide_loss (record i { allow_shrink = true })).refused
unfolding decide_loss can_accept
can_accept-decide_loss i e r h = ground (
  arith,
  is_empty-allow i,
  eq_iff e.reason refused_empty,
  eq_iff refused_shrink refused_empty,
  eq_iff refused_temporary_failures refused_empty,
)

-- The counts are counts, and small enough that hundredfold they fit an int.
pub record HasCounts (i : LossInput) : Type 0 where
  pub baseline : (neg_part i.baseline ≡ 0) × (pos_part i.baseline < 2 ^ 50)
  pub new_pages : (neg_part i.new_pages ≡ 0) × (pos_part i.new_pages < 2 ^ 50)
  pub carryable : (neg_part i.carryable ≡ 0) × (pos_part i.carryable < 2 ^ 50)
  pub attempted : (neg_part i.attempted ≡ 0) × (pos_part i.attempted < 2 ^ 50)
  pub transient : (neg_part i.transient ≡ 0) × (pos_part i.transient < 2 ^ 50)

module _ (i : LossInput) (c : HasCounts i) where
  kept_lem : kept i ≡ pos (pos_part i.new_pages + pos_part i.carryable)
  unfolding kept
  kept_lem = i64-plus i.new_pages i.carryable c.new_pages.0 c.carryable.0 (omega (arith, c))

  saved_lem : is_empty i ≡ false → (pos_part i.processed ≡ 0) ⊎ (0 < pos_part i.new_pages)
  unfolding is_empty
  saved_lem h = ground (arith, c.new_pages.0)

  too_transient_lem :
      too_transient i ≡ false
      → (pos_part i.transient < 3) ⊎ (pos_part i.transient * 100 < pos_part i.attempted * 25)
  unfolding too_transient
  too_transient_lem h = ground (
    arith,
    i64-times i.attempted 25 c.attempted.0 (omega (arith, c)),
    i64-times i.transient 100 c.transient.0 (omega (arith, c)),
    c.transient.0,
  )

  too_small_lem :
      too_small i (kept i) ≡ false
      → (i.has_baseline ≡ false)
        ⊎ (pos_part i.baseline < 20)
        ⊎ (pos_part i.baseline * 70 < (pos_part i.new_pages + pos_part i.carryable) * 100)
  unfolding too_small
  too_small_lem h =
      let small =
        i64-times (pos (pos_part i.new_pages + pos_part i.carryable)) 100 refl (omega (arith, c)) in
      ground (
        arith,
        kept_lem,
        small,
        i64-times i.baseline 70 c.baseline.0 (omega (arith, c)),
        c.baseline.0,
      )

-- A crawl that is published with no waiver, its counts below 2 ^ 50, saved a page if it processed
-- any, lost less than a quarter of its pages to temporary errors (or under three of them), and
-- keeps more than seven tenths of a recorded corpus of twenty pages or more.
pub decide_loss_safe :
    (i : LossInput)
    → HasCounts i
    → (decide_loss i).refused ≡ false
    → i.allow_shrink ≡ false
    → ((pos_part i.processed ≡ 0) ⊎ (0 < pos_part i.new_pages))
      × ((pos_part i.transient < 3) ⊎ (pos_part i.transient * 100 < pos_part i.attempted * 25))
      × ((i.has_baseline ≡ false)
          ⊎ (pos_part i.baseline < 20)
          ⊎ (pos_part i.baseline * 70 < (pos_part i.new_pages + pos_part i.carryable) * 100))
unfolding decide_loss
decide_loss_safe i c r a = (
  saved_lem i c (ground arith),
  too_transient_lem i c (ground arith),
  too_small_lem i c (ground arith),
)

is_empty_mono :
    (i : LossInput) (n : ℕ)
    → HasCounts i
    → pos_part i.new_pages ≤ n
    → is_empty i ≡ false
    → is_empty (record i { new_pages = pos n }) ≡ false
unfolding is_empty
is_empty_mono i n c h e = ground (arith, c.new_pages.0)

too_small_mono :
    (i : LossInput) (n : ℕ)
    → HasCounts i
    → n < 2 ^ 50
    → pos_part i.new_pages ≤ n
    → too_small i (kept i) ≡ false
    → (let j = record i { new_pages = pos n } in too_small j (kept j)) ≡ false
unfolding too_small kept
too_small_mono i n c b h e = ground (
  arith,
  i64-plus i.new_pages i.carryable c.new_pages.0 c.carryable.0 (omega (arith, c)),
  i64-plus (pos n) i.carryable refl c.carryable.0 (omega (arith, c)),
  i64-times (pos (pos_part i.new_pages + pos_part i.carryable)) 100 refl (omega (arith, c)),
  i64-times (pos (n + pos_part i.carryable)) 100 refl (omega (arith, c)),
  i64-times i.baseline 70 c.baseline.0 (omega (arith, c)),
)

too_transient-new_pages :
    (i : LossInput) (n : ℤ) → too_transient (record i { new_pages = n }) ≡ too_transient i
unfolding too_transient
too_transient-new_pages i n = refl

-- Saving more pages, all else equal and the counts below 2 ^ 50, never turns a publication into a
-- refusal.
pub decide_loss_mono :
    (i : LossInput) (n : ℕ)
    → HasCounts i
    → n < 2 ^ 50
    → pos_part i.new_pages ≤ n
    → (decide_loss i).refused ≡ false
    → (decide_loss (record i { new_pages = pos n })).refused ≡ false
unfolding decide_loss
decide_loss_mono i n c b h r =
    ground
      (arith, is_empty_mono i n c h, too_small_mono i n c b h, too_transient-new_pages i (pos n))
