-- ===== src/Crawler/Failures.antt =====
-- pkg/crawler/failures.go: the class of a failed page, and the tally of a crawl's failures.
pub mod Counts
use Prim.Native.Nat.{Ordering}
use Prim.Native.String.{String, compare}
use text.Mathlib.Text.{◌==◌ as str_eq}
use doc_scraper.Prelude.{
  ℕ, Bool, true, false, ◌||◌, List, [], ◌∷◌, map, Option, none, some, if◌then◌else◌,
}
use doc_scraper.Prelude.Int.{ℤ, pos, ◌+ℤ◌, ltz, i64}
use doc_scraper.Prelude.Assoc.{lookup, insert}
use doc_scraper.Prelude.Sort.{sort_by}
use doc_scraper.Errors.{
  Error, is, page_too_large, retry_failed, response_body_read, semaphore_timeout, deadline_exceeded,
  content_selector, robots_disallowed, scope_violation, non_html_content, max_depth_exceeded,
  blocked_address,
}

abbrev pub failure_temporary : String
failure_temporary = "temporary"

abbrev pub failure_gone : String
failure_gone = "gone"

abbrev pub failure_selector : String
failure_selector = "selector"

abbrev pub failure_policy : String
failure_policy = "policy"

abbrev pub failure_other : String
failure_other = "other"

pub record FailureClass : Type 0 where
  pub class : String
  pub count : ℤ
  pub sample_url : String
  pub sample_error : String

pub record Failures : Type 0 where
  pub classes : List FailureClass
  pub noindex : ℤ

-- The loop of `Count`.
unfoldable pub count_in : String → List FailureClass → ℤ
count_in class [] = pos 0
count_in class (c ∷ cs) = if str_eq c.class class then c.count else count_in class cs

-- `Failures.Count`
unfoldable pub count : Failures → String → ℤ
unfolding count_in
count f class = count_in class f.classes

unfoldable pub classify : Error → Bool → String
classify err gone =
    if gone
    then failure_gone
    else if is err page_too_large
    then failure_other
    else if is err retry_failed
        || is err response_body_read
        || is err semaphore_timeout
        || is err deadline_exceeded
    then failure_temporary
    else if is err content_selector
    then failure_selector
    else if is err robots_disallowed
        || is err scope_violation
        || is err non_html_content
        || is err max_depth_exceeded
        || is err blocked_address
    then failure_policy
    else failure_other

pub record FailureTally : Type 0 where
  pub classes : List (String × FailureClass)
  pub noindex : ℤ

-- The entry that `record` counts up: the class's own, or a new one with this page as its sample.
unfoldable pub entry_for : Option FailureClass → String → Error → String → FailureClass
entry_for (some c) u err class = c
entry_for none u err class = record {
  class = class;
  count = pos 0;
  sample_url = u;
  sample_error = err.text;
}

-- `failureTally.record`
unfoldable pub record_failure : FailureTally → String → Error → String → FailureTally
unfolding entry_for
record_failure t u err class =
    let c = entry_for (lookup class t.classes) u err class in
    record t { classes = insert class (record c { count = i64 (c.count +ℤ pos 1) }) t.classes }

unfoldable pub mark_noindex : FailureTally → FailureTally
mark_noindex t = record t { noindex = i64 (t.noindex +ℤ pos 1) }

-- `a < b` on Go strings.
unfoldable pub str_less : String → String → Bool
str_less a b = elim (compare a b) [ Ordering.lt ↦ true | _ ↦ false ]

-- The comparison of `snapshot`: most frequent first, then by name.
unfoldable pub more_frequent : FailureClass → FailureClass → Bool
unfolding str_less
more_frequent a b =
    if ltz b.count a.count
    then true
    else if ltz a.count b.count
    then false
    else str_less a.class b.class

-- `failureTally.snapshot`
unfoldable pub snapshot : FailureTally → Failures
snapshot t = record {
  classes = sort_by more_frequent (map (λ (e : String × FailureClass). e.1) t.classes);
  noindex = t.noindex;
}
