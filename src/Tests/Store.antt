-- ===== src/Tests/Store.antt =====
-- The database of visited pages, on examples.
use doc_scraper.Prelude.{ℕ, zero, suc, true, false, [], ◌∷◌, none, ◌≡◌, refl}
use doc_scraper.Prelude.Int.{pos}
use doc_scraper.Prelude.Assoc.{lookup}
use doc_scraper.Store.Entries.{pending, failure, PageDbEntry}
use doc_scraper.Store.Database.{
  BadgerStore, undecodable, entry, TxnWorld, commits, conflicts, check_page_status, mark_page,
  new_badger_store_at, count_keys, get_visited_count,
}
use doc_scraper.Store.Scan.{ScanWorld, requeue_incomplete}
use doc_scraper.Store.Counting.{CountsKeys, mark, write_all, get_visited_count-count_keys}
use doc_scraper.Store.Answers.{
  Quiet, check, answers, spec_answers, answers-spec_answers, mark as mark_call,
}
use doc_scraper.Store.Requeue.{
  queued, requeue_depth, requeue_incomplete-queued, undecodable_page_forgotten,
}

abbrev failed_page : PageDbEntry
failed_page = record {
  status = failure;
  error_type = "timeout";
  processed_at = 0;
  last_attempt = 5;
  depth = pos 2;
  content_hash = "";
}

-- The first attempt meets a conflict, the second commits.
abbrev second_try : ℕ → TxnWorld
second_try zero = record { others = λ s. s; outcome = conflicts }
second_try (suc k) = record { others = λ s. s; outcome = commits }

second_try-Quiet : Quiet second_try
second_try-Quiet zero s = refl
second_try-Quiet (suc k) s = refl

second_try-Counts : (k : ℕ) (t : BadgerStore) → CountsKeys t → CountsKeys ((second_try k).others t)
second_try-Counts zero t c = c
second_try-Counts (suc k) t c = c

abbrev two_pages : BadgerStore
two_pages = record {
  pages = ("https://a/", entry failed_page) ∷ ("https://a/b", undecodable) ∷ [];
  images = [];
  key_count = 2;
}

abbrev quiet_scan : ℕ → ScanWorld
quiet_scan k = record { cancelled = false; readable = true; queue_takes = true }

answers-spec_answers_example :
    answers
      ((second_try, mark_call 7 "https://a/c" (pos 1)) ∷ (second_try, check "https://a/c") ∷ [])
      two_pages
    ≡ spec_answers
        ((second_try, mark_call 7 "https://a/c" (pos 1)) ∷ (second_try, check "https://a/c") ∷ [])
        (λ url. lookup url two_pages.pages)
answers-spec_answers_example =
    answers-spec_answers
      ((second_try, mark_call 7 "https://a/c" (pos 1)) ∷ (second_try, check "https://a/c") ∷ [])
      two_pages (λ url. lookup url two_pages.pages)
      ((second_try-Quiet, tt), ((second_try-Quiet, tt), tt)) (λ url. refl)

get_visited_count-count_keys_example :
    get_visited_count (
      write_all
        ((second_try, mark 7 "https://a/c" (pos 1)) ∷ [])
        (new_badger_store_at true true true two_pages))
    ≡ count_keys (
        write_all
          ((second_try, mark 7 "https://a/c" (pos 1)) ∷ [])
          (new_badger_store_at true true true two_pages))
get_visited_count-count_keys_example =
    get_visited_count-count_keys true two_pages ((second_try, mark 7 "https://a/c" (pos 1)) ∷ [])
      (unfold lookup in (refl, (refl, tt))) tt (second_try-Counts, tt)

requeue_incomplete-queued_example :
    queued "https://a/" (requeue_incomplete (λ m. m) quiet_scan false two_pages).sent
    ≡ requeue_depth false (lookup "https://a/" two_pages.pages)
requeue_incomplete-queued_example =
    requeue_incomplete-queued (λ m. m) quiet_scan false two_pages "https://a/"
      (unfold lookup in (refl, (refl, tt)), λ url. refl) (λ k. (refl, refl, refl))

undecodable_page_forgotten_example :
    (check_page_status true two_pages "https://a/b" ≡ (pending, none))
    × (mark_page 9 "https://a/b" (pos 1) two_pages ≡ (two_pages, false))
    × (queued "https://a/b" (requeue_incomplete (λ m. m) quiet_scan true two_pages).sent ≡ none)
undecodable_page_forgotten_example =
    undecodable_page_forgotten (λ m. m) quiet_scan true 9 (pos 1) two_pages "https://a/b"
      (unfold lookup in (refl, (refl, tt)), λ url. refl) (unfold lookup in refl)
