-- ===== src/Crawler/Loss.antt =====
-- pkg/crawler/loss.go: whether a finished crawl is published or kept back.
pub mod Decision
use Prim.Native.String.{String, ◌++◌}
use text.Mathlib.Text.{◌==◌ as str_eq}
use doc_scraper.Prelude.{ℕ, Bool, true, false, not, ◌&&◌, ◌||◌, if◌then◌else◌}
use doc_scraper.Prelude.Int.{ℤ, pos, ◌+ℤ◌, ◌*ℤ◌, ltz, lez, i64}

abbrev pub refused_empty : String
refused_empty = "empty"

abbrev pub refused_temporary_failures : String
refused_temporary_failures = "temporary_failures"

abbrev pub refused_shrink : String
refused_shrink = "shrink"

abbrev pub shrink_min_baseline : ℤ
shrink_min_baseline = pos 20

abbrev pub shrink_max_kept_percent : ℤ
shrink_max_kept_percent = pos 70

abbrev pub transient_min_count : ℤ
transient_min_count = pos 3

abbrev pub transient_max_percent : ℤ
transient_max_percent = pos 25

pub record LossInput : Type 0 where
  pub baseline : ℤ
  pub has_baseline : Bool
  pub new_pages : ℤ
  pub carryable : ℤ
  pub attempted : ℤ
  pub transient : ℤ
  pub incremental : Bool
  pub processed : ℤ
  pub succeeded : ℤ
  pub unchanged : ℤ
  pub allow_shrink : Bool

pub record LossVerdict : Type 0 where
  pub refused : Bool
  pub reason : String
  pub new_pages : ℤ
  pub baseline : ℤ
  pub transient : ℤ
  pub attempted : ℤ
  pub processed : ℤ

-- Go's `==` on ints.
abbrev pub eqz : ℤ → ℤ → Bool
eqz a b = lez a b && lez b a

-- The checks that no flag lifts: the crawl saved nothing.
unfoldable pub is_empty : LossInput → Bool
is_empty i =
    ltz (pos 0) i.processed
    && (eqz i.new_pages (pos 0)
        || (i.incremental && eqz i.succeeded (pos 0) && eqz i.unchanged (pos 0)))

unfoldable pub too_transient : LossInput → Bool
too_transient i =
    lez transient_min_count i.transient
    && lez (i64 (i.attempted *ℤ transient_max_percent)) (i64 (i.transient *ℤ pos 100))

unfoldable pub too_small : LossInput → ℤ → Bool
too_small i kept =
    i.has_baseline
    && lez shrink_min_baseline i.baseline
    && lez (i64 (kept *ℤ pos 100)) (i64 (i.baseline *ℤ shrink_max_kept_percent))

unfoldable pub kept : LossInput → ℤ
kept i = i64 (i.new_pages +ℤ i.carryable)

-- `decideLoss`
unfoldable pub decide_loss : LossInput → LossVerdict
decide_loss i =
    let v : LossVerdict = record {
      refused = false;
      reason = "";
      new_pages = kept i;
      baseline = i.baseline;
      transient = i.transient;
      attempted = i.attempted;
      processed = i.processed;
    } in
    if is_empty i
    then record v { refused = true; reason = refused_empty }
    else if i.allow_shrink
    then v
    else if too_transient i
    then record v { refused = true; reason = refused_temporary_failures }
    else if too_small i (kept i)
    then record v { refused = true; reason = refused_shrink }
    else v

-- The fields of `LossyCrawlError` that `Hint` reads.
pub record LossyCrawlError : Type 0 where
  pub site_key : String
  pub reason : String
  pub staging_kept : Bool

unfoldable pub can_accept : LossyCrawlError → Bool
can_accept e = not (str_eq e.reason refused_empty)

-- `LossyCrawlError.Hint`
unfoldable pub hint : LossyCrawlError → String → String
unfolding can_accept
hint e surface =
    if not e.staging_kept
    then (if str_eq surface "mcp"
        then (if can_accept e
            then "The existing files were kept and this run is not recorded in crawl history. Call crawl_site again later, or with allow_shrink:true to accept it."
            else "The existing files were kept and this run is not recorded in crawl history. Call crawl_site again later.")
        else if can_accept e
        then "The existing files were kept and this run is not recorded in crawl history. Try again later, or pass -allow-shrink to accept it."
        else "The existing files were kept and this run is not recorded in crawl history. Try again later.")
    else if str_eq surface "mcp"
    then (if can_accept e
        then "The previous corpus was kept. Call crawl_site with incremental:true to retry the failed pages and continue the kept crawl, or with incremental:true and allow_shrink:true to publish it as it is."
        else "The previous corpus was kept. Call crawl_site with incremental:true to retry the failed pages and continue the kept crawl.")
    else ("The previous corpus is untouched. Retry the failed pages with `doc-scraper crawl -site "
        ++ (e.site_key
            ++ (" --resume`"
                ++ ((if can_accept e
                      then ", or publish this crawl as it is with `doc-scraper crawl -site "
                        ++ (e.site_key ++ " --resume -allow-shrink`")
                      else "")
                    ++ "."))))
