-- ===== src/Tests/Crawler.antt =====
-- The verdict on a crawl, and the tally of its failures, on examples.
use doc_scraper.Prelude.{◌+◌, ◌*◌, ◌<◌, ◌≡◌, ◌⊎◌, refl, true, false, not, [], ◌∷◌, arith}
use doc_scraper.Prelude.Int.{pos, pos_part, i64, ◌+ℤ◌, ◌*ℤ◌}
use doc_scraper.Errors.{Error, retry_failed}
use doc_scraper.Crawler.Loss.{
  LossInput, LossyCrawlError, decide_loss, can_accept, is_empty, too_transient, too_small, kept,
}
use doc_scraper.Crawler.Loss.Decision.{HasCounts, can_accept-decide_loss, decide_loss_safe}

abbrev fair : LossInput
fair = record {
  baseline = pos 100;
  has_baseline = true;
  new_pages = pos 90;
  carryable = pos 2;
  attempted = pos 95;
  transient = pos 4;
  incremental = false;
  processed = pos 95;
  succeeded = pos 90;
  unchanged = pos 0;
  allow_shrink = false;
}

abbrev poor : LossInput
poor = record fair { new_pages = pos 10 }

abbrev lossy : LossyCrawlError
lossy = record { site_key = "docs"; reason = "shrink"; staging_kept = true }

fair-HasCounts : HasCounts fair
fair-HasCounts = record {
  baseline = (refl, omega arith);
  new_pages = (refl, omega arith);
  carryable = (refl, omega arith);
  attempted = (refl, omega arith);
  transient = (refl, omega arith);
}

fair_published : (decide_loss fair).refused ≡ false
unfolding decide_loss is_empty too_transient too_small kept i64 ◌+ℤ◌ ◌*ℤ◌
fair_published = refl

poor_refused : (decide_loss poor).refused ≡ true
unfolding decide_loss is_empty too_transient too_small kept i64 ◌+ℤ◌ ◌*ℤ◌
poor_refused = refl

poor_reason : lossy.reason ≡ (decide_loss poor).reason
unfolding decide_loss is_empty too_transient too_small kept i64 ◌+ℤ◌ ◌*ℤ◌
poor_reason = refl

abbrev timeout : Error
timeout = record { wraps = retry_failed ∷ []; text = "timed out" }

can_accept-decide_loss_example :
    can_accept lossy ≡ not (decide_loss (record poor { allow_shrink = true })).refused
can_accept-decide_loss_example = can_accept-decide_loss poor lossy poor_refused poor_reason

decide_loss_safe_example :
    ((pos_part fair.processed ≡ 0) ⊎ (0 < pos_part fair.new_pages))
    × ((pos_part fair.transient < 3)
        ⊎ (pos_part fair.transient * 100 < pos_part fair.attempted * 25))
    × ((fair.has_baseline ≡ false)
        ⊎ (pos_part fair.baseline < 20)
        ⊎ (pos_part fair.baseline * 70 < (pos_part fair.new_pages + pos_part fair.carryable) * 100))
decide_loss_safe_example = decide_loss_safe fair fair-HasCounts fair_published refl
